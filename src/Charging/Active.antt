-- ===== src/Charging/Active.antt =====
-- What `activeChargingProfileLocked` selects.
use ocpp_cli.Prelude.{
  ℤ, ℕ, ◌≡◌, refl, inl, inr, ◌⊎◌, true, false, ◌&&◌, Option, none, some, [], ◌∷◌, All, arith, ltb_ℤ,
  Bool-cases, if◌then◌else◌,
}
use ocpp_cli.Prelude.Maps.{Map}
use ocpp_cli.Station.{Simulator, Connector, ChargingProfile, StoredProfile}
use ocpp_cli.Charging.{is_applicable, beats, active_loop, active_charging_profile}

-- The first is there if the second is, at no lower stack level.
abbrev pub AtLeast : Option ChargingProfile → Option ChargingProfile → Type 0
AtLeast r none = Unit {0}
AtLeast none (some q) = ⊥
AtLeast (some p) (some q) = ltb_ℤ p.stack_level q.stack_level ≡ false

not_below_trans : (a b c : ℤ) → ltb_ℤ a b ≡ false → ltb_ℤ b c ≡ false → ltb_ℤ a c ≡ false
not_below_trans a b c h k = ground arith

not_below_of_above : (a b : ℤ) → ltb_ℤ a b ≡ true → ltb_ℤ b a ≡ false
not_below_of_above a b h = ground arith

not_below_refl : (a : ℤ) → ltb_ℤ a a ≡ false
not_below_refl a = ground arith

AtLeast-refl : (o : Option ChargingProfile) → AtLeast o o
AtLeast-refl none = tt
AtLeast-refl (some p) = not_below_refl p.stack_level

AtLeast-trans : (o p q : Option ChargingProfile) → AtLeast o p → AtLeast p q → AtLeast o q
AtLeast-trans o p none h k = tt
AtLeast-trans o none (some q) h k = absurd k
AtLeast-trans none (some p) (some q) h k = absurd h
AtLeast-trans (some o) (some p) (some q) h k =
    not_below_trans o.stack_level p.stack_level q.stack_level h k

-- The round's choice is at least the old one, and at least the profile of the round.
beats-AtLeast :
    (p : ChargingProfile) (o : Option ChargingProfile) → beats p o ≡ true → AtLeast (some p) o
beats-AtLeast p none h = tt
beats-AtLeast p (some q) h = not_below_of_above q.stack_level p.stack_level h

kept-AtLeast :
    (p : ChargingProfile) (o : Option ChargingProfile) → beats p o ≡ false → AtLeast o (some p)
kept-AtLeast p none h = cc
kept-AtLeast p (some q) h = h

module _ (now : ℕ) (id : ℤ) (connectors : Map ℤ Connector) where
  abbrev choice : StoredProfile → Option ChargingProfile → Option ChargingProfile
  choice stored o =
      if is_applicable now id connectors stored && beats stored.profile o
      then some stored.profile
      else o

  choice-AtLeast :
      (stored : StoredProfile) (o : Option ChargingProfile) → AtLeast (choice stored o) o
  choice-AtLeast stored o =
      elim (Bool-cases (is_applicable now id connectors stored && beats stored.profile o)) [
        | inl wins ↦ rw wins (beats-AtLeast stored.profile o (ground arith))
        | inr stays ↦ rw stays (AtLeast-refl o)
      ]

  choice-AtLeast_profile :
      (stored : StoredProfile) (o : Option ChargingProfile)
      → is_applicable now id connectors stored ≡ true
      → AtLeast (choice stored o) (some stored.profile)
  choice-AtLeast_profile stored o h = elim (Bool-cases (beats stored.profile o)) [
    | inl wins ↦ rw (h, wins) (not_below_refl stored.profile.stack_level)
    | inr stays ↦ rw (h, stays) (kept-AtLeast stored.profile o stays)
  ]

  active_loop-AtLeast :
      (o : Option ChargingProfile) (m : Map ℤ StoredProfile)
      → AtLeast (active_loop now id connectors o m) o
  unfolding active_loop
  active_loop-AtLeast o [] = AtLeast-refl o
  active_loop-AtLeast o ((k, stored) ∷ rest) =
      AtLeast-trans (active_loop now id connectors (choice stored o) rest) (choice stored o) o
        (active_loop-AtLeast (choice stored o) rest) (choice-AtLeast stored o)

  -- An entry that does not apply, or that the selection is at least.
  abbrev pub IsCovered : Option ChargingProfile → ℤ × StoredProfile → Type 0
  IsCovered o e = (is_applicable now id connectors e.1 ≡ false) ⊎ AtLeast o (some e.1.profile)

  active_loop-IsCovered :
      (o : Option ChargingProfile) (m : Map ℤ StoredProfile)
      → All (IsCovered (active_loop now id connectors o m)) m
  unfolding active_loop
  active_loop-IsCovered o [] = tt
  active_loop-IsCovered o ((k, stored) ∷ rest) = (
    elim (Bool-cases (is_applicable now id connectors stored)) [
      | inr skipped ↦ inl skipped
      | inl h ↦ inr (
          AtLeast-trans (active_loop now id connectors (choice stored o) rest) (choice stored o)
            (some stored.profile) (active_loop-AtLeast (choice stored o) rest)
            (choice-AtLeast_profile stored o h))
    ],
    active_loop-IsCovered (choice stored o) rest,
  )

  -- Some entry that applies has the profile.
  abbrev pub IsFrom : ChargingProfile → Map ℤ StoredProfile → Type 0
  IsFrom p [] = ⊥
  IsFrom p (e ∷ m) = ((is_applicable now id connectors e.1 ≡ true) × (e.1.profile ≡ p)) ⊎ IsFrom p m

  -- The choice, if there is one, is the profile of such an entry.
  abbrev pub IsChosen : Option ChargingProfile → Map ℤ StoredProfile → Type 0
  IsChosen none m = Unit {0}
  IsChosen (some p) m = IsFrom p m

  choice-from :
      (stored : StoredProfile) (o : Option ChargingProfile) (p : ChargingProfile)
      → choice stored o ≡ some p
      → (o ≡ some p) ⊎ ((is_applicable now id connectors stored ≡ true) × (stored.profile ≡ p))
  choice-from stored o p h = ground arith

  active_loop-IsFrom :
      (o : Option ChargingProfile) (m : Map ℤ StoredProfile) (p : ChargingProfile)
      → active_loop now id connectors o m ≡ some p
      → (o ≡ some p) ⊎ IsFrom p m
  unfolding active_loop
  active_loop-IsFrom o [] p h = inl h
  active_loop-IsFrom o ((k, stored) ∷ rest) p h =
      elim (active_loop-IsFrom (choice stored o) rest p h) [
        | inr later ↦ inr (inr later)
        | inl now_chosen ↦ elim (choice-from stored o p now_chosen) [
          | inl before ↦ inl before
          | inr this ↦ inr (inl this)
        ]
      ]

-- The active profile, if there is one, is an applicable stored profile; and whether or not there is
-- one, no applicable stored profile has a higher stack level than it.
pub active_charging_profile_lem :
    (now : ℕ) (id : ℤ) (s : Simulator)
    → let o = active_charging_profile now id s in
      IsChosen now id s.connectors o s.charging_profiles
      × All (IsCovered now id s.connectors o) s.charging_profiles
unfolding active_charging_profile
active_charging_profile_lem now id s = (
  chosen (active_loop now id s.connectors none s.charging_profiles) refl,
  active_loop-IsCovered now id s.connectors none s.charging_profiles,
)
  where
    nothing : {p : ChargingProfile} → none ≡ some p → ⊥
    nothing q = cc

    chosen :
        (o : Option ChargingProfile)
        → active_loop now id s.connectors none s.charging_profiles ≡ o
        → IsChosen now id s.connectors o s.charging_profiles
    chosen none e = tt
    chosen (some p) e = elim (active_loop-IsFrom now id s.connectors none s.charging_profiles p e) [
      | inl never ↦ absurd (nothing never)
      | inr found ↦ found
    ]
