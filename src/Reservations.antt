-- ===== src/Reservations.antt =====
-- simulator_optional_profiles.go: `idleStatusLocked`, `reservationAccessLocked`,
-- `selectRemoteStartConnectorLocked` and the reservation handlers. One call reads the clock once.
pub mod Access
pub mod Expiry
pub mod Handlers
pub mod Reserve
pub mod Selection
pub mod Safety
use ocpp_cli.Prelude.{
  ℤ, pos, ℕ, zero, suc, String, Bool, true, false, ◌&&◌, ◌||◌, not, Option, none, some, List, [],
  ◌∷◌, ◌++◌, ◌>>=◌, ◌==ℤ◌, is_pos, rounds_of, leb_ℤ, ltb, str_eq, any, sort, if◌then◌else◌,
}
use ocpp_cli.Prelude.Int.{int_eq}
use ocpp_cli.Prelude.Maps.{Map, get, put, remove}
use ocpp_cli.Ocpp.{
  AvailabilityType, operative, inoperative, ChargePointStatus, available, preparing, charging,
  finishing, reserved, unavailable, faulted, Word, Direction, Action, Piece, lit, num, inbound,
  system,
}
use ocpp_cli.Station.{Simulator, Connector, Reservation, Env}
use ocpp_cli.Station.Emit.{emit, notify_status, notify_status_async}

abbrev pub is_operative : AvailabilityType → Bool
is_operative operative = true
is_operative inoperative = false

abbrev pub is_free : ChargePointStatus → Bool
is_free available = true
is_free reserved = true
is_free _ = false

abbrev pub is_available : ChargePointStatus → Bool
is_available available = true
is_available _ = false

abbrev pub is_busy : ChargePointStatus → Bool
is_busy preparing = true
is_busy charging = true
is_busy finishing = true
is_busy _ = false

abbrev pub is_faulted : ChargePointStatus → Bool
is_faulted faulted = true
is_faulted _ = false

abbrev pub is_unavailable : ChargePointStatus → Bool
is_unavailable unavailable = true
is_unavailable _ = false

-- A reservation that holds connector `id` at `now`.
abbrev pub holds : ℕ → ℤ → ℤ × Reservation → Bool
holds now id e = e.1.connector_id ==ℤ id && ltb now e.1.expiry

-- `idleStatusLocked` at the connector that `s.connectors[id]` points to.
unfoldable pub idle_status_of : ℕ → ℤ → Connector → Map ℤ Reservation → ChargePointStatus
idle_status_of now id connector reservations =
    if is_operative connector.availability
    then (if any (holds now id) reservations then reserved else available)
    else unavailable

-- `none` is the nil dereference at a connector that is not there.
unfoldable pub idle_status : ℕ → ℤ → Simulator → Option ChargePointStatus
unfolding idle_status_of
idle_status now id s = do
  connector ← get id s.connectors
  some (idle_status_of now id connector s.reservations)

-- `s.connectors[id].status = status`
unfoldable pub set_status : ℤ → ChargePointStatus → Simulator → Option Simulator
set_status id status s = do
  connector ← get id s.connectors
  some (record s { connectors = put id (record connector { status = status }) s.connectors })

abbrev pub matches : String → Reservation → Bool
matches id_tag current =
    str_eq id_tag current.id_tag
    || (not (str_eq current.parent_id_tag "") && str_eq id_tag current.parent_id_tag)

-- The loop of `reservationAccessLocked`, with `matchedGlobal` so far.
unfoldable pub access_loop : ℕ → ℤ → String → ℤ → Map ℤ Reservation → ℤ × Bool
access_loop now connector_id id_tag matched [] = (matched, true)
access_loop now connector_id id_tag matched ((reservation_id, current) ∷ rest) =
    let next = access_loop now connector_id id_tag matched rest in
    let next_matched = access_loop now connector_id id_tag reservation_id rest in
    if not (ltb now current.expiry)
    then next
    else if not (current.connector_id ==ℤ pos 0) && not (current.connector_id ==ℤ connector_id)
    then next
    else if current.connector_id ==ℤ connector_id
    then (if matches id_tag current then (reservation_id, true) else (pos 0, false))
    else if matches id_tag current
    then next_matched
    else (pos 0, false)

unfoldable pub reservation_access : ℕ → ℤ → String → Map ℤ Reservation → ℤ × Bool
unfolding access_loop
reservation_access now connector_id id_tag = access_loop now connector_id id_tag (pos 0)

abbrev pub is_idle : Connector → Bool
is_idle c = is_operative c.availability && c.transaction_id ==ℤ pos 0

-- The branch for a connector that the request names.
unfoldable pub select_requested : ℕ → ℤ → String → Simulator → Option (ℤ × ℤ)
unfolding reservation_access
select_requested now requested id_tag s = elim (get requested s.connectors) [
  | none ↦ none
  | some connector ↦
      let (reservation_id, allowed) = reservation_access now requested id_tag s.reservations in
      if is_idle connector && (allowed && is_free connector.status)
      then some (requested, reservation_id)
      else none
]

-- The two loops over `id := 1; id <= s.opts.Connectors; id++`, by the number of rounds left. The
-- outer `none` is a nil dereference; the inner one, that the loop ran to its end.
unfoldable pub select_reserved : ℕ → ℕ → ℕ → String → Simulator → Option (Option (ℤ × ℤ))
unfolding reservation_access
select_reserved now zero id id_tag s = some none
select_reserved now (suc rounds) id id_tag s =
    let rest = select_reserved now rounds (suc id) id_tag s in
    get (pos id) s.connectors >>= λ connector.
    let (reservation_id, allowed) = reservation_access now (pos id) id_tag s.reservations in
    if is_idle connector && (allowed && (is_pos reservation_id && is_free connector.status))
    then some (some (pos id, reservation_id))
    else rest

unfoldable pub select_available : ℕ → ℕ → ℕ → String → Simulator → Option (Option (ℤ × ℤ))
unfolding reservation_access
select_available now zero id id_tag s = some none
select_available now (suc rounds) id id_tag s =
    let rest = select_available now rounds (suc id) id_tag s in
    get (pos id) s.connectors >>= λ connector.
    let (reservation_id, allowed) = reservation_access now (pos id) id_tag s.reservations in
    if is_idle connector && (is_available connector.status && allowed)
    then some (some (pos id, reservation_id))
    else rest

unfoldable pub select_remote_start_connector :
    ℕ → Option ℤ → String → Simulator → Option (Option (ℤ × ℤ))
unfolding select_requested select_reserved select_available
select_remote_start_connector now (some requested) id_tag s =
    some (select_requested now requested id_tag s)
select_remote_start_connector now none id_tag s = do
  held ← select_reserved now (rounds_of s.opts.connectors) 1 id_tag s
  elim held [
    | some chosen ↦ some (some chosen)
    | none ↦ select_available now (rounds_of s.opts.connectors) 1 id_tag s
  ]
