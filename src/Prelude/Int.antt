-- ===== src/Prelude/Int.antt =====
-- Go's `int`: signed integers over the native numbers (the library's ℤ stands on the unary ℕ).
-- `pos n` is n and `negsuc n` is -(n + 1). Tests are by sign; addition wraps at 64 bits.
use Prim.Native.Nat.{ℕ, ◌+◌, ◌-◌, ◌*◌, ◌%◌, ◌<◌}
use mathlib.Core.Path.{◌≡◌}
use mathlib.Core.Logic.{◌↔◌}
use mathlib.Core.Bool.{Bool, true, false}
use native.Mathlib.Omega.{arith}
use text.Mathlib.Text.{◌==◌ as str_eq}
use text.Mathlib.TextEquality.{eq_iff}
use Prim.Native.String.{String}
use ocpp_cli.Prelude.Tests.{ltb, leb, ◌==◌, if◌then◌else◌, Eq}

pub data ℤ : Type 0 where
  pos : ℕ → ℤ
  negsuc : ℕ → ℤ

infix 50 ◌==ℤ◌
abbrev pub ◌==ℤ◌ : ℤ → ℤ → Bool
pos a ==ℤ pos b = a == b
pos a ==ℤ negsuc b = false
negsuc a ==ℤ pos b = false
negsuc a ==ℤ negsuc b = a == b

abbrev pub ltb_ℤ : ℤ → ℤ → Bool
ltb_ℤ (pos a) (pos b) = ltb a b
ltb_ℤ (pos a) (negsuc b) = false
ltb_ℤ (negsuc a) (pos b) = true
ltb_ℤ (negsuc a) (negsuc b) = ltb b a

abbrev pub leb_ℤ : ℤ → ℤ → Bool
leb_ℤ (pos a) (pos b) = leb a b
leb_ℤ (pos a) (negsuc b) = false
leb_ℤ (negsuc a) (pos b) = true
leb_ℤ (negsuc a) (negsuc b) = leb b a

-- `n > 0`
abbrev pub is_pos : ℤ → Bool
is_pos (pos n) = ltb 0 n
is_pos (negsuc n) = false

-- The rounds of `for id := 1; id <= n; id++`.
abbrev pub rounds_of : ℤ → ℕ
rounds_of (pos n) = n
rounds_of _ = 0

pub ==ℤ_iff : (a b : ℤ) → ((a ==ℤ b) ≡ true) ↔ (a ≡ b)
==ℤ_iff a b = ground arith

-- The two's complement pattern of an `int`, and the `int` of a pattern.
abbrev pub int_mod : ℕ
int_mod = 18446744073709551616

abbrev to_word : ℤ → ℕ
to_word (pos n) = n % int_mod
to_word (negsuc n) = int_mod - 1 - n % int_mod

abbrev of_word : ℕ → ℤ
of_word w = if ltb w 9223372036854775808 then pos w else negsuc (int_mod - 1 - w)

-- `a + b` on `int`.
unfoldable pub int_add : ℤ → ℤ → ℤ
int_add a b = of_word ((to_word a + to_word b) % int_mod)

-- `a * b` on `int`.
unfoldable pub int_mul : ℤ → ℤ → ℤ
int_mul a b = of_word (to_word a * to_word b % int_mod)

-- The sum of two amounts that are not negative is exact while it fits.
pub int_add_exact : (a b : ℕ) → a + b < 9223372036854775808 → int_add (pos a) (pos b) ≡ pos (a + b)
unfolding int_add
int_add_exact a b h = ground arith

instance abbrev pub int_eq : Eq ℤ
int_eq = record { beq = ◌==ℤ◌; beq_iff = ==ℤ_iff }

instance abbrev pub string_eq : Eq String
string_eq = record { beq = str_eq; beq_iff = eq_iff }
