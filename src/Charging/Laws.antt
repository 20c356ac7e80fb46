-- ===== src/Charging/Laws.antt =====
-- What the smart charging handlers guarantee.
use mathlib.Core.List.{Perm, perm_middle}
use mathlib.Core.List.Perm
use ocpp_cli.Prelude.{
  ℤ, ◌≡◌, ◌≢◌, refl, ◌⊎◌, inl, inr, ◌↔◌, true, false, Option, none, some, [], ◌∷◌, ◌++◌, All,
  length, arith, ltb, Bool-cases,
}
use ocpp_cli.Prelude.Int.{int_eq, ==ℤ_iff}
use ocpp_cli.Prelude.Maps.{Map}
use ocpp_cli.Ocpp.{Purpose, Word}
use ocpp_cli.Station.{Simulator, StoredProfile, Env}
use ocpp_cli.Charging.{
  ClearRequest, matches_clear, misses, same_purpose, clear_loop, on_clear_charging_profile,
}

-- A criterion of the request that is absent, or that the value meets.
abbrev pub Agrees : Option ℤ → ℤ → Type 0
Agrees none actual = Unit {0}
Agrees (some wanted) actual = actual ≡ wanted

-- The profiles that a request asks to be cleared: those that meet every criterion it gives.
pub record IsSelected (request : ClearRequest) (e : ℤ × StoredProfile) : Type 0 where
  pub id : Agrees request.id e.0
  pub connector_id : Agrees request.connector_id e.1.connector_id
  pub stack_level : Agrees request.stack_level e.1.profile.stack_level
  pub purpose : (request.purpose ≡ Purpose.unset) ⊎ (e.1.profile.purpose ≡ request.purpose)

misses_iff : (o : Option ℤ) (actual : ℤ) → (misses o actual ≡ false) ↔ Agrees o actual
misses_iff none actual = (λ h. tt, λ h. refl)
misses_iff (some wanted) actual = ground (arith, ==ℤ_iff actual wanted)

same_purpose_iff : (a b : Purpose) → (same_purpose a b ≡ true) ↔ (a ≡ b)
same_purpose_iff a b = ground arith

selects :
    (id : ℤ) (stored : StoredProfile) (request : ClearRequest)
    → matches_clear id stored request ≡ true
    → IsSelected request (id, stored)
unfolding matches_clear
selects id stored request h =
    let on_id = misses_iff request.id id in
    let on_connector = misses_iff request.connector_id stored.connector_id in
    let on_level = misses_iff request.stack_level stored.profile.stack_level in
    let unset = same_purpose_iff request.purpose Purpose.unset in
    let same = same_purpose_iff stored.profile.purpose request.purpose in
    record {
      id = on_id.0 (ground (arith, h));
      connector_id = on_connector.0 (ground (arith, h));
      stack_level = on_level.0 (ground (arith, h));
      purpose = ground (arith, h, unset.0, same.0);
    }

selected_matches :
    (id : ℤ) (stored : StoredProfile) (request : ClearRequest)
    → IsSelected request (id, stored)
    → matches_clear id stored request ≡ true
unfolding matches_clear
selected_matches id stored request h =
    rw
      (
        (misses_iff request.id id).1 h.id,
        (misses_iff request.connector_id stored.connector_id).1 h.connector_id,
        (misses_iff request.stack_level stored.profile.stack_level).1 h.stack_level,
      )
      (elim h.purpose [
        | inl unset ↦ rw ((same_purpose_iff request.purpose Purpose.unset).1 unset) refl
        | inr same ↦
            rw ((same_purpose_iff stored.profile.purpose request.purpose).1 same) (ground arith)
      ])

abbrev Split :
    ClearRequest → Map ℤ StoredProfile → Map ℤ StoredProfile → Map ℤ StoredProfile → Type 0
Split request m kept removed =
    Perm m (kept ++ removed)
    × All (IsSelected request) removed
    × All (λ e. IsSelected request e → ⊥) kept

clear_loop-Split :
    (request : ClearRequest) (m : Map ℤ StoredProfile)
    → (removed : Map ℤ StoredProfile) × Split request m (clear_loop request m).0 removed
      × ((clear_loop request m).1 ≡ length removed)
unfolding clear_loop
clear_loop-Split request [] = ([], (Perm.refl [], tt, tt), refl)
clear_loop-Split request ((id, stored) ∷ rest) =
    let (removed, (all, gone, stay), count) = clear_loop-Split request rest in
    let kept = (clear_loop request rest).0 in
    elim (Bool-cases (matches_clear id stored request)) [
      | inl hit ↦ rw hit (
        (id, stored) ∷ removed,
        (
          Perm.trans (Perm.cons (id, stored) all) (Perm.symm (perm_middle kept removed)),
          (selects id stored request hit, gone),
          stay,
        ),
        omega (arith, count),
      )
      | inr miss ↦ rw miss (
        removed,
        (
          Perm.cons (id, stored) all,
          gone,
          (λ h. cc (miss, selected_matches id stored request h), stay),
        ),
        count,
      )
    ]

positive-length : (xs : Map ℤ StoredProfile) → (ltb 0 (length xs) ≡ true) ↔ (xs ≢ [])
positive-length [] = (λ h. cc, λ h. absurd (h refl))
positive-length (x ∷ xs) = (λ h q. cc, λ h. ground arith)

-- `OnClearChargingProfile` splits the stored profiles into those it removes, which meet every
-- criterion that the request gives, and those it keeps, which do not; and it answers "Accepted"
-- exactly when it removed one.
pub on_clear_charging_profile_lem :
    (env : Env) (request : ClearRequest) (s : Simulator)
    → let (s', status) = on_clear_charging_profile env request s in
      (removed : Map ℤ StoredProfile) × (Perm s.charging_profiles (s'.charging_profiles ++ removed)
        × All (IsSelected request) removed
        × All (λ e. IsSelected request e → ⊥) s'.charging_profiles)
      × ((status ≡ Word.accepted) ↔ (removed ≢ []))
unfolding on_clear_charging_profile
on_clear_charging_profile_lem env request s =
    let (removed, split, count) = clear_loop-Split request s.charging_profiles in
    let kept : (on_clear_charging_profile env request s).0.charging_profiles
        ≡ (clear_loop request s.charging_profiles).0 =
      ground arith in
    let some_removed = positive-length removed in
    (
      removed,
      rw kept split,
      (
        λ h. some_removed.0 (ground (arith, h, count)),
        λ h. ground (arith, some_removed.1 h, count),
      ),
    )
