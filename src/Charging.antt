-- ===== src/Charging.antt =====
-- simulator_optional_profiles.go: the smart charging handlers, `chargingProfileMatchesClear`,
-- `activeChargingProfileLocked` and `cloneChargingSchedule`.
pub mod Laws
pub mod Active
use ocpp_cli.Prelude.{
  ℤ, pos, ℕ, suc, ◌+◌, String, Bool, true, false, ◌&&◌, ◌||◌, not, Option, none, some, List, [],
  ◌∷◌, ◌++◌, length, ltb, ltb_ℤ, is_pos, is_some, ◌==ℤ◌, if◌then◌else◌,
}
use ocpp_cli.Prelude.Int.{int_eq}
use ocpp_cli.Prelude.Maps.{Map, get, put}
use ocpp_cli.Ocpp.{Purpose, RateUnit, Word, Action, Piece, lit, num, of_purpose, of_unit, inbound}
use ocpp_cli.Station.{Simulator, Connector, ChargingProfile, StoredProfile, Schedule, Period, Env}
use ocpp_cli.Station.Emit.{emit}

-- `connectorID > 0` and no such connector.
abbrev pub is_unknown : ℤ → Simulator → Bool
is_unknown id s = is_pos id && not (is_some (get id s.connectors))

unfoldable pub profile_detail : Option ChargingProfile → List Piece
profile_detail none = []
profile_detail (some p) =
    lit "id="
    ∷ num p.profile_id
    ∷ lit " stack="
    ∷ num p.stack_level
    ∷ lit " purpose="
    ∷ of_purpose p.purpose
    ∷ []

unfoldable pub on_set_charging_profile :
    Env → ℤ → Option ChargingProfile → Simulator → Simulator × Word
unfolding profile_detail emit
on_set_charging_profile env id none s =
    (emit env inbound Action.set_charging_profile Word.rejected (some id) [] s, Word.rejected)
on_set_charging_profile env id (some p) s =
    if is_unknown id s
    then (
      emit env inbound Action.set_charging_profile Word.rejected (some id) (profile_detail (some p))
          s,
      Word.rejected,
    )
    else (
      emit env inbound Action.set_charging_profile Word.accepted (some id) (profile_detail (some p))
          (record s {
            charging_profiles =
                put p.profile_id (record { connector_id = id; profile = p }) s.charging_profiles;
          }),
      Word.accepted,
    )

-- `purpose` is `unset` for "".
pub record ClearRequest : Type 0 where
  pub id : Option ℤ
  pub connector_id : Option ℤ
  pub stack_level : Option ℤ
  pub purpose : Purpose

abbrev pub same_purpose : Purpose → Purpose → Bool
same_purpose Purpose.unset Purpose.unset = true
same_purpose Purpose.charge_point_max_profile Purpose.charge_point_max_profile = true
same_purpose Purpose.tx_default_profile Purpose.tx_default_profile = true
same_purpose Purpose.tx_profile Purpose.tx_profile = true
same_purpose _ _ = false

-- `wanted != nil && actual != *wanted`
abbrev pub misses : Option ℤ → ℤ → Bool
misses none actual = false
misses (some wanted) actual = not (actual ==ℤ wanted)

unfoldable pub matches_clear : ℤ → StoredProfile → ClearRequest → Bool
matches_clear profile_id stored request =
    if misses request.id profile_id
    then false
    else if misses request.connector_id stored.connector_id
    then false
    else if misses request.stack_level stored.profile.stack_level
    then false
    else if not (same_purpose request.purpose Purpose.unset)
        && not (same_purpose stored.profile.purpose request.purpose)
    then false
    else true

-- The loop: what stays, and how many were removed.
unfoldable pub clear_loop : ClearRequest → Map ℤ StoredProfile → Map ℤ StoredProfile × ℕ
unfolding matches_clear
clear_loop request [] = ([], 0)
clear_loop request ((profile_id, stored) ∷ rest) =
    let (kept, removed) = clear_loop request rest in
    if matches_clear profile_id stored request
    then (kept, removed + 1)
    else ((profile_id, stored) ∷ kept, removed)

unfoldable pub on_clear_charging_profile : Env → ClearRequest → Simulator → Simulator × Word
unfolding clear_loop emit
on_clear_charging_profile env request s =
    let (kept, removed) = clear_loop request s.charging_profiles in
    let status = if ltb 0 removed then Word.accepted else Word.unknown in
    (
      emit env inbound Action.clear_charging_profile status request.connector_id
          (lit "removed=" ∷ num (pos removed) ∷ []) (record s { charging_profiles = kept }),
      status,
    )

abbrev pub starts_after : ℕ → Option ℕ → Bool
starts_after now none = false
starts_after now (some from) = ltb now from

abbrev pub ended : ℕ → Option ℕ → Bool
ended now none = false
ended now (some to) = not (ltb now to)

-- The tests on a transaction profile.
unfoldable pub fits_transaction : ℤ → ChargingProfile → Map ℤ Connector → Bool
fits_transaction id p connectors = elim (get id connectors) [
  | none ↦ false
  | some c ↦
      not (c.transaction_id ==ℤ pos 0)
      && (p.transaction_id ==ℤ pos 0 || p.transaction_id ==ℤ c.transaction_id)
]

-- The tests of the loop that do not `continue`.
unfoldable pub is_applicable : ℕ → ℤ → Map ℤ Connector → StoredProfile → Bool
unfolding fits_transaction
is_applicable now id connectors stored =
    (stored.connector_id ==ℤ pos 0 || stored.connector_id ==ℤ id)
    && (not (starts_after now stored.profile.valid_from)
        && (not (ended now stored.profile.valid_to)
            && (not (same_purpose stored.profile.purpose Purpose.tx_profile && is_pos id)
                || fits_transaction id stored.profile connectors)))

abbrev pub beats : ChargingProfile → Option ChargingProfile → Bool
beats p none = true
beats p (some selected) = ltb_ℤ selected.stack_level p.stack_level

unfoldable pub active_loop :
    ℕ → ℤ → Map ℤ Connector → Option ChargingProfile → Map ℤ StoredProfile → Option ChargingProfile
unfolding is_applicable
active_loop now id connectors selected [] = selected
active_loop now id connectors selected ((profile_id, stored) ∷ rest) =
    active_loop now id connectors
      (if is_applicable now id connectors stored && beats stored.profile selected
        then some stored.profile
        else selected)
      rest

unfoldable pub active_charging_profile : ℕ → ℤ → Simulator → Option ChargingProfile
unfolding active_loop
active_charging_profile now id s = active_loop now id s.connectors none s.charging_profiles

pub record CompositeRequest : Type 0 where
  pub connector_id : ℤ
  pub duration : ℤ
  pub rate_unit : RateUnit

abbrev pub same_unit : RateUnit → RateUnit → Bool
same_unit RateUnit.unset RateUnit.unset = true
same_unit RateUnit.amperes RateUnit.amperes = true
same_unit RateUnit.watts RateUnit.watts = true
same_unit _ _ = false

abbrev pub unit_or_amperes : RateUnit → RateUnit
unit_or_amperes RateUnit.unset = RateUnit.amperes
unit_or_amperes u = u

-- `limit := 32.0`, or 22000 in watts, in tenths.
abbrev pub default_limit : RateUnit → ℕ
default_limit RateUnit.watts = 220000
default_limit _ = 320

unfoldable pub default_schedule : RateUnit → Schedule
default_schedule unit = record {
  duration = none;
  start_schedule = none;
  rate_unit = unit;
  periods = record { start_period = pos 0; limit = default_limit unit } ∷ [];
  min_charging_rate = none;
}

abbrev pub profile_schedule : Option ChargingProfile → Option Schedule
profile_schedule none = none
profile_schedule (some p) = p.schedule

-- The schedule of the answer; `none` when the profile's unit is not the one asked for.
unfoldable pub composite_schedule : CompositeRequest → Option ChargingProfile → Option Schedule
unfolding default_schedule
composite_schedule request profile = elim (profile_schedule profile) [
  | none ↦ some (default_schedule (unit_or_amperes request.rate_unit))
  | some schedule ↦
      if not (same_unit request.rate_unit RateUnit.unset)
        && not (same_unit schedule.rate_unit request.rate_unit)
      then none
      else some schedule
]

-- The reply: rejected, or the connector, the start and the schedule.
pub data CompositeReply : Type 0 where
  rejected : CompositeReply
  accepted : ℤ → ℕ → Schedule → CompositeReply

unfoldable pub on_get_composite_schedule :
    Env → CompositeRequest → Simulator → Simulator × CompositeReply
unfolding active_charging_profile composite_schedule emit
on_get_composite_schedule env request s =
    let id = request.connector_id in
    let answer = composite_schedule request (active_charging_profile env.now id s) in
    if is_unknown id s
    then (
      emit env inbound Action.get_composite_schedule Word.rejected (some id)
          (lit "unknown connector" ∷ []) s,
      CompositeReply.rejected,
    )
    else elim answer [
      | none ↦ (
        emit env inbound Action.get_composite_schedule Word.rejected (some id)
            (lit "rate unit conversion not supported" ∷ []) s,
        CompositeReply.rejected,
      )
      | some schedule ↦ (
        emit env inbound Action.get_composite_schedule Word.accepted (some id)
            (lit "duration="
              ∷ num request.duration
              ∷ lit " unit="
              ∷ of_unit schedule.rate_unit
              ∷ lit " periods="
              ∷ num (pos (length schedule.periods))
              ∷ [])
            s,
        CompositeReply.accepted id env.now
            (record schedule { duration = some request.duration; start_schedule = some env.now }),
      )
    ]
