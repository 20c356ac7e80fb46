-- ===== src/Errors/Laws.antt =====
-- What `classify` and `mapExitCode` make of an error together.
use ocpp_cli.Prelude.{◌≡◌, refl, ◌⊎◌, String, Bool, true, false, some, if◌then◌else◌, arith}
use ocpp_cli.Errors.{
  Error, Sentinel, ExitCode, wrap, kind_of, is_flag_parse_error, code_of, map_exit_code, Outcome,
  got, lost, refuse_when, ◌>>=◌, ◌>>◌,
}

-- The exit code that the README gives to each kind of error.
abbrev pub documented : Sentinel → ExitCode
documented Sentinel.config = ExitCode.config_error
documented Sentinel.validation = ExitCode.config_error
documented Sentinel.connection = ExitCode.connection
documented Sentinel.protocol = ExitCode.protocol_request
documented Sentinel.auth_security = ExitCode.auth_security
documented Sentinel.rejected = ExitCode.rejected
documented Sentinel.timeout = ExitCode.timeout
documented Sentinel.output = ExitCode.output_error
documented Sentinel.deadline = ExitCode.timeout
documented Sentinel.help = ExitCode.success

-- The exit code of an error whose text looks like one of the flag parser.
abbrev pub mistaken : Sentinel → ExitCode
mistaken Sentinel.help = ExitCode.success
mistaken _ = ExitCode.config_error

-- An error that wraps a sentinel exits with the code that the README gives to it, unless its text has
-- a phrase of the flag parser: then, but for a request for help, it exits as a configuration error.
pub map_exit_code-wrap :
    (output_text detail : String) (s : Sentinel)
    → map_exit_code (some (wrap output_text s detail))
      ≡ (if is_flag_parse_error (wrap output_text s detail) then mistaken s else documented s)
unfolding map_exit_code code_of wrap
map_exit_code-wrap output_text detail s = grind arith

-- A sentinel that `classify` can give to an error.
abbrev pub IsTransport : Sentinel → Sentinel → Type 0
IsTransport fallback s =
    (s ≡ Sentinel.timeout)
    ⊎ (s ≡ Sentinel.protocol)
    ⊎ (s ≡ Sentinel.connection)
    ⊎ (s ≡ Sentinel.auth_security)
    ⊎ (s ≡ fallback)

pub kind_of-IsTransport :
    (lower : String → String) (e : Error) (fallback : Sentinel)
    → IsTransport fallback (kind_of lower e fallback)
unfolding kind_of
kind_of-IsTransport lower e fallback = ground arith

-- What holds of the value of a result, or of its error.
abbrev pub Either : {A : Type 0} → (A → Type 0) → (Error → Type 0) → Outcome A → Type 0
Either P Q (got a) = P a
Either P Q (lost e) = Q e

-- The same as a record, so that a rule is found by the result's form.
pub record Post {A : Type 0} (P : A → Type 0) (Q : Error → Type 0) (o : Outcome A) : Type 0 where
  pub post : Either P Q o

module _ {A : Type 0} (P : A → Type 0) (Q : Error → Type 0) where
  pub got-Post : (a : A) → P a → Post P Q (got a)
  got-Post a h = record { post = h }

  pub lost-Post : (e : Error) → Q e → Post P Q (lost e)
  lost-Post e h = record { post = h }

  pub if-Post :
      (b : Bool) (x y : Outcome A)
      → (b ≡ true → Post P Q x)
      → (b ≡ false → Post P Q y)
      → Post P Q (if b then x else y)
  if-Post true x y h k = h refl
  if-Post false x y h k = k refl

  pub bind-Post :
      {B : Type 0} (R : B → Type 0) (m : Outcome B) (f : B → Outcome A)
      → Post R Q m
      → ((b : B) → m ≡ got b → R b → Post P Q (f b))
      → Post P Q (m >>= f)
  bind-Post R (got b) f h next = next b refl h.post
  bind-Post R (lost e) f h next = record { post = h.post }

  -- A guard that is passed.
  pub refuse-Post :
      (refused : Bool) (e : Error) (rest : Outcome A)
      → Q e
      → (refused ≡ false → Post P Q rest)
      → Post P Q (refuse_when refused e >> rest)
  refuse-Post true e rest h next = record { post = h }
  refuse-Post false e rest h next = next refl

-- A result without a claim on its value.
abbrev pub Anything : {A : Type 0} → A → Type 0
Anything a = Unit {0}
