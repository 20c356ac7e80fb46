-- ===== src/Transactions/Reset.antt =====
-- simulator_handlers.go: `OnReset`, `OnChangeAvailability` and `OnUnlockConnector`.
use ocpp_cli.Prelude.{
  ℤ, pos, ℕ, String, Bool, true, false, Option, none, some, List, [], ◌∷◌, ◌>>=◌, ◌==ℤ◌, is_pos,
  map, is_some, if◌then◌else◌,
}
use ocpp_cli.Prelude.Int.{int_eq}
use ocpp_cli.Prelude.Maps.{Map, get, put}
use ocpp_cli.Ocpp.{AvailabilityType, ChargePointStatus, Word, Action, Piece, lit, inbound}
use ocpp_cli.Station.{Simulator, Connector, Reservation, Env}
use ocpp_cli.Station.Emit.{emit}
use ocpp_cli.Reservations.{is_operative, idle_status_of}
use ocpp_cli.Reservations.Handlers.{
  notify_updates, release_connector, remove_reservations_for_connector,
}

-- A connector after a reset. It is `s.connectors[id]`, so its idle status is that of `id`.
unfoldable pub reset_connector : ℕ → Map ℤ Reservation → ℤ × Connector → ℤ × Connector
unfolding idle_status_of
reset_connector now reservations (id, connector) = (
  id,
  record connector {
    transaction_id = pos 0;
    id_tag = "";
    status = idle_status_of now id connector reservations;
  },
)

abbrev pub status_of_entry : ℤ × Connector → ℤ × ChargePointStatus
status_of_entry e = (e.0, e.1.status)

-- `kind` is the request's type, which only the event shows.
unfoldable pub on_reset : Env → String → Simulator → Simulator × Word
unfolding reset_connector emit notify_updates
on_reset env kind s =
    let connectors = map (reset_connector env.now s.reservations) s.connectors in
    let s' =
      emit env inbound Action.reset Word.accepted none (lit kind ∷ [])
        (record s { connectors = connectors }) in
    (notify_updates env (map status_of_entry connectors) s', Word.accepted)

-- The loop of `OnChangeAvailability`: the state, the updates, and whether one is scheduled.
unfoldable pub change_loop :
    ℕ
    → AvailabilityType
    → List ℤ
    → Map ℤ ChargePointStatus
    → Bool
    → Simulator
    → Option (Simulator × Map ℤ ChargePointStatus × Bool)
unfolding release_connector remove_reservations_for_connector
change_loop now kind [] updates scheduled s = some (s, updates, scheduled)
change_loop now kind (id ∷ ids) updates scheduled s = get id s.connectors >>= λ connector.
    let kept =
      if is_operative kind
      then s.reservations
      else remove_reservations_for_connector id s.reservations in
    let s' = record s {
      connectors = put id (record connector { availability = kind }) s.connectors;
      reservations = kept;
    } in
    let running = change_loop now kind ids updates true s' in
    let idle =
      release_connector now id s'
      >>= (λ r. change_loop now kind ids (put id r.1 updates) scheduled r.0) in
    if is_pos connector.transaction_id then running else idle

abbrev pub key_of : ℤ × Connector → ℤ
key_of e = e.0

-- The connectors that the request names; `none` if there is no such connector.
unfoldable pub named_connectors : ℤ → Simulator → Option (List ℤ)
named_connectors id s =
    if id ==ℤ pos 0
    then some (map key_of s.connectors)
    else if is_some (get id s.connectors)
    then some (id ∷ [])
    else none

unfoldable pub on_change_availability :
    Env → ℤ → AvailabilityType → Simulator → Option (Simulator × Word)
unfolding named_connectors change_loop emit notify_updates
on_change_availability env id kind s = elim (named_connectors id s) [
  | none ↦ some (
    emit env inbound Action.change_availability Word.rejected (some id)
        (Piece.of_availability kind ∷ []) s,
    Word.rejected,
  )
  | some ids ↦ change_loop env.now kind ids [] false s >>= λ r.
      let word = if r.2 then Word.scheduled else Word.accepted in
      let s' =
        emit env inbound Action.change_availability word (some id) (Piece.of_availability kind ∷ [])
          r.0 in
      some (notify_updates env r.1 s', word)
]

unfoldable pub on_unlock_connector : Env → ℤ → Simulator → Simulator × Word
unfolding emit
on_unlock_connector env id s =
    let word = if is_some (get id s.connectors) then Word.unlocked else Word.not_supported in
    (emit env inbound Action.unlock_connector word (some id) [] s, word)
