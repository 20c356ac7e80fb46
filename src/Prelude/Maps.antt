-- ===== src/Prelude/Maps.antt =====
-- Go's maps, as the list of their entries in the order in which the next `range` visits them.
-- Go leaves that order open: statements range over every list of entries.
use mathlib.Core.Path.{◌≡◌, refl, sym}
use mathlib.Core.Logic.{inl, inr}
use mathlib.Core.Bool.{true}
use mathlib.Core.List.{List, [], ◌∷◌}
use mathlib.Core.Option.{Option, none, some}
use native.Mathlib.Omega.{arith}
use ocpp_cli.Prelude.Tests.{if◌then◌else◌, Eq, Bool-cases, is_some, some_inj}
use ocpp_cli.Prelude.Lists.{All}

abbrev pub Map {ℓ κ} : Type ℓ → Type κ → Type (ℓ ⊔ κ)
Map K V = List (K × V)

module _ {ℓ κ} {K : Type ℓ} {V : Type κ} ⦃e : Eq K⦄ where
  -- `v, ok := m[k]`
  unfoldable pub get : K → Map K V → Option V
  get k [] = none
  get k ((j, v) ∷ m) = if e.beq j k then some v else get k m

  -- `m[k] = v`
  unfoldable pub put : K → V → Map K V → Map K V
  put k v [] = (k, v) ∷ []
  put k v ((j, w) ∷ m) = if e.beq j k then (j, v) ∷ m else (j, w) ∷ put k v m

  -- `delete(m, k)`
  unfoldable pub remove : K → Map K V → Map K V
  remove k [] = []
  remove k ((j, w) ∷ m) = let rest = remove k m in if e.beq j k then rest else (j, w) ∷ rest

  pub get-put :
      (k j : K) (v : V) (m : Map K V) → get j (put k v m) ≡ (if e.beq k j then some v else get j m)
  unfolding get put
  get-put k j v [] = refl
  get-put k j v ((i, w) ∷ m) =
      ground (arith, e.beq_iff k j, e.beq_iff i k, e.beq_iff i j, get-put k j v m)

  pub get-remove :
      (k j : K) (m : Map K V) → get j (remove k m) ≡ (if e.beq k j then none else get j m)
  unfolding get remove
  get-remove k j [] = ground arith
  get-remove k j ((i, w) ∷ m) =
      ground (arith, e.beq_iff k j, e.beq_iff i k, e.beq_iff i j, get-remove k j m)

  -- An overwritten entry keeps the keys.
  pub has-put :
      (k j : K) (v : V) (m : Map K V)
      → is_some (get k m) ≡ true
      → is_some (get j (put k v m)) ≡ is_some (get j m)
  has-put k j v m h = ground (arith, get-put k j v m, e.beq_iff k j)

  module _ {μ} (P : K × V → Type μ) where
    pub put-All : (k : K) (v : V) (m : Map K V) → P (k, v) → All P m → All P (put k v m)
    unfolding put
    put-All k v [] p h = (p, tt)
    put-All k v ((j, w) ∷ m) p h = elim (Bool-cases (e.beq j k)) [
      | inl hit ↦ rw hit (rw ((e.beq_iff j k).0 hit) p, h.1)
      | inr miss ↦ rw miss (h.0, put-All k v m p h.1)
    ]

    pub remove-All : (k : K) (m : Map K V) → All P m → All P (remove k m)
    unfolding remove
    remove-All k [] h = tt
    remove-All k ((j, w) ∷ m) h = elim (Bool-cases (e.beq j k)) [
      | inl hit ↦ rw hit (remove-All k m h.1)
      | inr miss ↦ rw miss (h.0, remove-All k m h.1)
    ]

    pub get-All : (k : K) (v : V) (m : Map K V) → All P m → get k m ≡ some v → P (k, v)
    unfolding get
    get-All k v [] h q = cc
    get-All k v ((j, w) ∷ m) h q = elim (Bool-cases (e.beq j k)) [
      | inl hit ↦ rw (sym ((e.beq_iff j k).0 hit), sym (some_inj {a = w} {b = v} (rw hit at q))) h.0
      | inr miss ↦ get-All k v m h.1 (rw miss at q)
    ]
