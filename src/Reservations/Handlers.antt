-- ===== src/Reservations/Handlers.antt =====
-- simulator_optional_profiles.go: `OnReserveNow`, `OnCancelReservation`, `expireReservations` and
-- `removeReservationsForConnectorLocked`.
use ocpp_cli.Prelude.{
  ℤ, pos, ℕ, String, Bool, true, false, ◌&&◌, ◌||◌, not, Option, none, some, List, [], ◌∷◌, ◌++◌,
  ◌>>=◌, ◌==ℤ◌, is_pos, leb_ℤ, ltb, any, sort, if◌then◌else◌,
}
use ocpp_cli.Prelude.Int.{int_eq}
use ocpp_cli.Prelude.Maps.{Map, get, put, remove}
use ocpp_cli.Ocpp.{ChargePointStatus, Word, Action, Piece, lit, num, inbound, system}
use ocpp_cli.Station.{Simulator, Connector, Reservation, Env}
use ocpp_cli.Station.Emit.{emit, notify_status, notify_status_async}
use ocpp_cli.Reservations.{
  is_operative, is_busy, is_faulted, is_unavailable, is_idle, idle_status, set_status,
  reservation_access,
}

-- The updates of a handler, each sent by `notifyStatusAsync`.
unfoldable pub notify_updates : Env → Map ℤ ChargePointStatus → Simulator → Simulator
unfolding notify_status_async
notify_updates env [] s = s
notify_updates env ((id, status) ∷ updates) s =
    notify_updates env updates (notify_status_async env id status s)

-- `s.connectors[id].status = s.idleStatusLocked(id)`, with the status for the updates.
unfoldable pub release_connector : ℕ → ℤ → Simulator → Option (Simulator × ChargePointStatus)
unfolding idle_status set_status
release_connector now id s = do
  status ← idle_status now id s
  s' ← set_status id status s
  some (s', status)

-- The removal of reservation `id`, which frees the connector that it held.
unfoldable pub drop_reservation :
    ℕ → ℤ → Reservation → Simulator → Option (Simulator × Map ℤ ChargePointStatus)
unfolding release_connector
drop_reservation now id existing s =
    let s = record s { reservations = remove id s.reservations } in
    if is_pos existing.connector_id
    then (release_connector now existing.connector_id s
        >>= (λ r. some (r.0, (existing.connector_id, r.1) ∷ [])))
    else some (s, [])

pub record ReserveNowRequest : Type 0 where
  pub connector_id : ℤ
  pub expiry_date : Option ℕ
  pub id_tag : String
  pub parent_id_tag : String
  pub reservation_id : ℤ

-- The loop for connector 0: whether a connector may be reserved, and whether one seen is operative.
unfoldable pub scan_connectors :
    ℕ → String → Map ℤ Reservation → Bool → Map ℤ Connector → Bool × Bool
unfolding reservation_access
scan_connectors now id_tag reservations operative [] = (false, operative)
scan_connectors now id_tag reservations operative ((id, connector) ∷ rest) =
    let operative' = operative || is_operative connector.availability in
    let next = scan_connectors now id_tag reservations operative' rest in
    if is_idle connector && (reservation_access now id id_tag reservations).1
    then (true, operative')
    else next

unfoldable pub reserve_any : ℕ → ReserveNowRequest → Simulator → Word
unfolding scan_connectors
reserve_any now request s =
    let (available, operative) =
      scan_connectors now request.id_tag s.reservations false s.connectors in
    if available then Word.accepted else if operative then Word.occupied else Word.unavailable

unfoldable pub reserve_one : ReserveNowRequest → Simulator → Word
reserve_one request s = elim (get request.connector_id s.connectors) [
  | none ↦ Word.rejected
  | some connector ↦
      if is_faulted connector.status
      then Word.faulted
      else if not (is_operative connector.availability) || is_unavailable connector.status
      then Word.unavailable
      else if is_pos connector.transaction_id || is_busy connector.status
      then Word.occupied
      else if any (λ e. e.1.connector_id ==ℤ request.connector_id) s.reservations
      then Word.occupied
      else Word.accepted
]

unfoldable pub reserve_decision : ℕ → ReserveNowRequest → Simulator → Word
unfolding reserve_any reserve_one
reserve_decision now request s =
    if request.connector_id ==ℤ pos 0 then reserve_any now request s else reserve_one request s

abbrev pub is_accepted : Word → Bool
is_accepted Word.accepted = true
is_accepted _ = false

-- The new entry, and the connector that it reserves.
unfoldable pub store_reservation :
    ReserveNowRequest
    → ℕ
    → Map ℤ ChargePointStatus
    → Simulator
    → Option (Simulator × Map ℤ ChargePointStatus)
unfolding set_status
store_reservation request expiry updates s =
    let s = record s {
      reservations =
          put request.reservation_id
            (record {
              connector_id = request.connector_id;
              id_tag = request.id_tag;
              parent_id_tag = request.parent_id_tag;
              expiry = expiry;
            })
            s.reservations;
    } in
    if is_pos request.connector_id
    then (set_status request.connector_id ChargePointStatus.reserved s
        >>= (λ s'. some (s', put request.connector_id ChargePointStatus.reserved updates)))
    else some (s, updates)

-- The locked part of `OnReserveNow` for a request that has not run out.
unfoldable pub reserve :
    ℕ → ReserveNowRequest → ℕ → Simulator → Option (Simulator × Map ℤ ChargePointStatus × Word)
unfolding drop_reservation reserve_decision store_reservation
reserve now request expiry s = do
  dropped ← elim (get request.reservation_id s.reservations) [
    | none ↦ some (s, [])
    | some existing ↦ drop_reservation now request.reservation_id existing s
  ]
  let status = reserve_decision now request dropped.0
  stored ←
      if is_accepted status
      then store_reservation request expiry dropped.1 dropped.0
      else some dropped
  some (stored.0, stored.1, status)

unfoldable pub reserve_unless_expired :
    ℕ → ReserveNowRequest → Simulator → Option (Simulator × Map ℤ ChargePointStatus × Word)
unfolding reserve
reserve_unless_expired now request s = elim request.expiry_date [
  | none ↦ some (s, [], Word.rejected)
  | some expiry ↦
      if ltb now expiry then reserve now request expiry s else some (s, [], Word.rejected)
]

unfoldable pub on_reserve_now : Env → ReserveNowRequest → Simulator → Option (Simulator × Word)
unfolding reserve_unless_expired emit notify_updates
on_reserve_now env request s = do
  (s', updates, status) ← reserve_unless_expired env.now request s
  let detail = Piece.lit request.id_tag ∷ lit " reservation=" ∷ num request.reservation_id ∷ []
  let s'' = emit env inbound Action.reserve_now status (some request.connector_id) detail s'
  some (notify_updates env updates s'', status)

unfoldable pub on_cancel_reservation : Env → ℤ → Simulator → Option (Simulator × Word)
unfolding drop_reservation emit notify_updates
on_cancel_reservation env id s = do
  (s', updates, status) ← elim (get id s.reservations) [
    | none ↦ some (s, [], Word.rejected)
    | some existing ↦ drop_reservation env.now id existing s >>= λ r. some (r.0, r.1, Word.accepted)
  ]
  let s'' = emit env inbound Action.cancel_reservation status none (num id ∷ []) s'
  some (notify_updates env updates s'', status)

-- The assignments `updates[id] = status`.
unfoldable pub put_updates :
    Map ℤ ChargePointStatus → Map ℤ ChargePointStatus → Map ℤ ChargePointStatus
put_updates [] updates = updates
put_updates ((id, status) ∷ more) updates = put id status (put_updates more updates)

-- The loop of `expireReservations` over the entries that the map had.
unfoldable pub expire_loop :
    ℕ
    → Map ℤ Reservation
    → Map ℤ ChargePointStatus
    → List ℤ
    → Simulator
    → Option (Simulator × Map ℤ ChargePointStatus × List ℤ)
unfolding drop_reservation put_updates
expire_loop now [] updates expired s = some (s, updates, expired)
expire_loop now ((id, current) ∷ rest) updates expired s =
    let kept = expire_loop now rest updates expired s in
    let dropped = drop_reservation now id current s >>= λ r.
    expire_loop now rest (put_updates r.1 updates) (expired ++ id ∷ []) r.0 in
    if ltb now current.expiry then kept else dropped

unfoldable pub emit_expired : Env → List ℤ → Simulator → Simulator
unfolding emit
emit_expired env [] s = s
emit_expired env (id ∷ ids) s =
    emit_expired env ids
      (emit env system Action.reservation_expired Word.expired none (num id ∷ []) s)

-- Here the statuses are sent one after the other, while the station is connected.
unfoldable pub notify_each : Env → Map ℤ ChargePointStatus → Simulator → Simulator
unfolding notify_status
notify_each env [] s = s
notify_each env ((id, status) ∷ updates) s =
    notify_each env updates (if env.connected then notify_status env id status s else s)

unfoldable pub expire_reservations : Env → Simulator → Option Simulator
unfolding expire_loop emit_expired notify_each
expire_reservations env s = do
  (s', updates, expired) ← expire_loop env.now s.reservations [] [] s
  some (notify_each env updates (emit_expired env (sort leb_ℤ expired) s'))

-- `removeReservationsForConnectorLocked`
unfoldable pub remove_reservations_for_connector : ℤ → Map ℤ Reservation → Map ℤ Reservation
remove_reservations_for_connector connector_id [] = []
remove_reservations_for_connector connector_id ((id, current) ∷ rest) =
    let kept = remove_reservations_for_connector connector_id rest in
    if current.connector_id ==ℤ connector_id then kept else (id, current) ∷ kept
