-- ===== src/Transactions/Safety.antt =====
-- Starting, stopping, resetting and switching connectors never dereferences a missing connector,
-- and keeps the invariant.
use ocpp_cli.Prelude.{
  ℤ, pos, ℕ, ◌≡◌, ap, String, Bool, true, Option, none, some, [], ◌∷◌, is_pos, is_some, if_rule,
  ◌>>=◌,
}
use ocpp_cli.Prelude.Int.{int_eq}
use ocpp_cli.Prelude.Maps.{get}
use ocpp_cli.Ocpp.{ChargePointStatus, Word, Action, Direction, Piece}
use ocpp_cli.Station.{Simulator, Connector, ChargingProfile, IdTagInfo, Env, Task, Answer, ok, err}
use ocpp_cli.Station.Emit.{emit, notify_status}
use ocpp_cli.Invariant.{
  Inv, Safe, is_known, emit-Inv, spawn-Inv, send-Inv, put_connector-Inv, remove_reservation-Inv,
  notify_status_async-Inv, notify_status-Inv, known_connector, connector_known, bind_Safe,
}
use ocpp_cli.Reservations.{select_remote_start_connector}
use ocpp_cli.Reservations.Safety.{release_connector-Safe}
use ocpp_cli.Reservations.Selection.{IsChoice, select_remote_start_connector-IsChoice}
use ocpp_cli.Transactions.{
  RemoteStartRequest, StartConfirmation, store_profile, accept_remote_start, configuration_bool,
  on_remote_start_transaction, begin_remote_transaction, restore_connector, authorized_remote,
  is_authorized, start_remote_transaction, consume_reservation, settle_start, confirmed_start,
}

store_profile-Inv :
    (n id : ℤ) (profile : Option ChargingProfile) (s : Simulator)
    → Inv n s
    → Inv n (store_profile id profile s)
unfolding store_profile
store_profile-Inv n id none s v = v
store_profile-Inv n id (some profile) s v = record {
  sized = v.sized;
  known = v.known;
  held = v.held;
  running = v.running;
  buffered = v.buffered;
}

accept_remote_start-Safe :
    (n : ℤ) (env : Env) (request : RemoteStartRequest) (id reservation_id : ℤ) (s : Simulator)
    (c : Connector)
    → Inv n s
    → get id s.connectors ≡ some c
    → Safe n (λ r. r.0) (accept_remote_start env request id reservation_id s)
unfolding accept_remote_start
accept_remote_start-Safe n env request id reservation_id s c v e =
    rw (e, ◌>>=◌)
      (spawn-Inv n _
        (emit-Inv n env _ _ _ _ _ _ (
          store_profile-Inv n id request.charging_profile _
            (put_connector-Inv n s v id _ (ap is_some e))))
        _ (connector_known n id s c v e))

-- `OnRemoteStartTransaction` does not panic, and keeps the invariant.
pub on_remote_start_transaction-Safe :
    (n : ℕ) (env : Env) (request : RemoteStartRequest) (s : Simulator)
    → Inv (pos n) s
    → Safe (pos n) (λ r. r.0) (on_remote_start_transaction env request s)
unfolding on_remote_start_transaction
on_remote_start_transaction-Safe n env request s v =
    by_choice (select_remote_start_connector env.now request.connector_id request.id_tag s)
      (select_remote_start_connector-IsChoice env.now request.id_tag n s v request.connector_id)
  where
    by_choice :
        (o : Option (Option (ℤ × ℤ)))
        → IsChoice env.now request.id_tag s o
        → Safe {A = Simulator × Word}
            (pos n)
            (λ r. r.0)
            (o >>= λ chosen. elim chosen [
              | none ↦ some (
                emit env Direction.inbound Action.remote_start_transaction Word.rejected
                    request.connector_id
                    (Piece.lit request.id_tag ∷ [])
                    s,
                Word.rejected,
              )
              | some (connector_id, reservation_id) ↦
                  accept_remote_start env request connector_id reservation_id s
            ])
    by_choice none h = h
    by_choice (some none) h = emit-Inv (pos n) env _ _ _ _ _ _ v
    by_choice (some (some (id, reservation_id))) h =
        accept_remote_start-Safe (pos n) env request id reservation_id s h.0 v h.1

-- The goroutine's first section keeps the invariant.
pub begin_remote_transaction-Inv :
    (n : ℤ) (env : Env) (id : ℤ) (id_tag : String) (reservation_id : ℤ) (s : Simulator)
    → Inv n s
    → is_known n id ≡ true
    → Inv n (begin_remote_transaction env id id_tag reservation_id s)
unfolding begin_remote_transaction
begin_remote_transaction-Inv n env id id_tag reservation_id s v h =
    let notified = notify_status-Inv n s env id ChargePointStatus.preparing v in
    if_rule (Inv n)
      (configuration_bool "AuthorizeRemoteTxRequests"
        (notify_status env id ChargePointStatus.preparing s))
      (λ _.
        spawn-Inv n _ (send-Inv n _ notified _) (Task.authorize_remote id id_tag reservation_id) h)
      (λ _. spawn-Inv n _ notified (Task.start_remote id id_tag reservation_id) h)

pub restore_connector-Safe :
    (n : ℤ) (env : Env) (id : ℤ) (s : Simulator)
    → Inv n s
    → is_known n id ≡ true
    → Safe n (λ s'. s') (restore_connector env id s)
unfolding restore_connector
restore_connector-Safe n env id s v h =
    bind_Safe n (λ r. r.0) (λ s'. s') _ _ (release_connector-Safe env.now n id s v h)
      λ a _ w.
        let (c, e) = known_connector n id a.0 w h in
        rw (e, ◌>>=◌)
          (notify_status_async-Inv n _ (put_connector-Inv n a.0 w id _ (ap is_some e)) env id a.1)

-- The answer to the authorization, of every kind.
pub authorized_remote-Safe :
    (n : ℤ) (env : Env) (id : ℤ) (id_tag : String) (reservation_id : ℤ)
    (answer : Answer (Option IdTagInfo)) (s : Simulator)
    → Inv n s
    → is_known n id ≡ true
    → Safe n (λ s'. s') (authorized_remote env id id_tag reservation_id answer s)
unfolding authorized_remote
authorized_remote-Safe n env id id_tag reservation_id (err detail) s v h =
    bind_Safe n (λ s'. s') (λ s'. s') _ _ (restore_connector-Safe n env id s v h)
      (λ a _ w. emit-Inv n env _ _ _ _ _ _ w)
authorized_remote-Safe n env id id_tag reservation_id (ok info) s v h =
    if_rule (Safe n (λ s'. s')) (is_authorized info)
      (λ _.
        spawn-Inv n _ (emit-Inv n env _ _ _ _ _ _ v) (Task.start_remote id id_tag reservation_id) h)
      (λ _.
        bind_Safe n (λ s'. s') (λ s'. s') _ _ (restore_connector-Safe n env id s v h)
          (λ a _ w. emit-Inv n env _ _ _ _ _ _ w))

-- The request for the transaction.
pub start_remote_transaction-Safe :
    (n id : ℤ) (id_tag : String) (reservation_id : ℤ) (s : Simulator)
    → Inv n s
    → is_known n id ≡ true
    → Safe n (λ s'. s') (start_remote_transaction id id_tag reservation_id s)
unfolding start_remote_transaction
start_remote_transaction-Safe n id id_tag reservation_id s v h =
    let (c, e) = known_connector n id s v h in
    rw (e, ◌>>=◌) (spawn-Inv n _ (send-Inv n s v _) (Task.confirm_start id id_tag reservation_id) h)

consume_reservation-Inv : (n id : ℤ) (s : Simulator) → Inv n s → Inv n (consume_reservation id s)
unfolding consume_reservation
consume_reservation-Inv n id s v =
    if_rule (Inv n) (is_pos id) (λ _. remove_reservation-Inv n s v id) (λ _. v)

settle_start-Safe :
    (now : ℕ) (n id reservation_id transaction_id : ℤ) (accepted : Bool) (s : Simulator)
    → Inv n s
    → is_known n id ≡ true
    → Safe n (λ r. r.0) (settle_start now id reservation_id transaction_id accepted s)
unfolding settle_start
settle_start-Safe now n id reservation_id transaction_id accepted s v h =
    let (c, e) = known_connector n id s v h in
    rw (e, ◌>>=◌)
      (if_rule (Safe n (λ r. r.0)) accepted
        (λ _.
          consume_reservation-Inv n reservation_id _ (put_connector-Inv n s v id _ (ap is_some e)))
        (λ _. release_connector-Safe now n id _ (put_connector-Inv n s v id _ (ap is_some e)) h))

-- The answer to the request, of every kind.
pub confirmed_start-Safe :
    (n : ℤ) (env : Env) (id reservation_id : ℤ) (answer : Answer StartConfirmation) (s : Simulator)
    → Inv n s
    → is_known n id ≡ true
    → Safe n (λ s'. s') (confirmed_start env id reservation_id answer s)
unfolding confirmed_start
confirmed_start-Safe n env id reservation_id (err detail) s v h =
    bind_Safe n (λ s'. s') (λ s'. s') _ _ (restore_connector-Safe n env id s v h)
      (λ a _ w. emit-Inv n env _ _ _ _ _ _ w)
confirmed_start-Safe n env id reservation_id (ok confirmation) s v h =
    bind_Safe n (λ r. r.0) (λ s'. s') _ _
      (settle_start-Safe env.now n id reservation_id confirmation.transaction_id
        (is_authorized confirmation.id_tag_info) s v h)
      (λ a _ w. spawn-Inv n _ (emit-Inv n env _ _ _ _ _ _ w) (Task.notify id a.1) tt)
