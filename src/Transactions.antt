-- ===== src/Transactions.antt =====
-- simulator_handlers.go: `OnRemoteStartTransaction`, `OnRemoteStopTransaction` and the goroutines
-- `beginRemoteTransaction` and `finishRemoteTransaction`, cut where they wait or release the lock:
-- each function below runs from one such point to the next, and starts the task that goes on.
pub mod Reset
pub mod Outcome
pub mod Safety
pub mod StopSafety
use ocpp_cli.Prelude.{
  ℤ, pos, ℕ, String, Bool, true, false, Option, none, some, List, [], ◌∷◌, ◌++◌, ◌>>=◌, ◌==ℤ◌,
  is_pos, if◌then◌else◌,
}
use ocpp_cli.Prelude.Int.{int_eq, string_eq}
use ocpp_cli.Prelude.Maps.{Map, get, put, remove}
use ocpp_cli.Text.{trim_space, parse_true}
use ocpp_cli.Ocpp.{
  ChargePointStatus, AuthorizationStatus, Word, Direction, Action, Piece, lit, num, inbound,
  outbound,
}
use ocpp_cli.Station.{
  Simulator, Connector, ChargingProfile, IdTagInfo, Env, Task, Message, Answer, ok, err,
}
use ocpp_cli.Station.Emit.{emit, spawn, send, notify_status, notify_status_async}
use ocpp_cli.Reservations.{select_remote_start_connector}
use ocpp_cli.Reservations.Handlers.{release_connector}

unfoldable pub configuration_bool : String → Simulator → Bool
unfolding trim_space parse_true
configuration_bool key s = elim (get key s.configuration) [
  | none ↦ false
  | some current ↦ elim current.value [ none ↦ false | some value ↦ parse_true (trim_space value) ]
]

pub record RemoteStartRequest : Type 0 where
  pub connector_id : Option ℤ
  pub id_tag : String
  pub charging_profile : Option ChargingProfile

unfoldable pub store_profile : ℤ → Option ChargingProfile → Simulator → Simulator
store_profile connector_id none s = s
store_profile connector_id (some profile) s = record s {
  charging_profiles =
      put profile.profile_id (record { connector_id = connector_id; profile = profile })
        s.charging_profiles;
}

abbrev pub reservation_detail : ℤ → List Piece
reservation_detail id = if is_pos id then lit " reservation=" ∷ num id ∷ [] else []

-- The branch of `OnRemoteStartTransaction` for the connector and the reservation chosen.
unfoldable pub accept_remote_start :
    Env → RemoteStartRequest → ℤ → ℤ → Simulator → Option (Simulator × Word)
unfolding store_profile emit
accept_remote_start env request connector_id reservation_id s = do
  connector ← get connector_id s.connectors
  let prepared = record connector { status = ChargePointStatus.preparing; id_tag = request.id_tag }
  let s' =
      store_profile connector_id request.charging_profile
        (record s { connectors = put connector_id prepared s.connectors })
  let s'' =
      emit env inbound Action.remote_start_transaction Word.accepted (some connector_id)
        (lit request.id_tag ∷ reservation_detail reservation_id) s'
  some (spawn (Task.begin_remote connector_id request.id_tag reservation_id) s'', Word.accepted)

unfoldable pub on_remote_start_transaction :
    Env → RemoteStartRequest → Simulator → Option (Simulator × Word)
unfolding accept_remote_start emit
on_remote_start_transaction env request s = do
  chosen ← select_remote_start_connector env.now request.connector_id request.id_tag s
  elim chosen [
    | none ↦ some (
      emit env inbound Action.remote_start_transaction Word.rejected request.connector_id
          (lit request.id_tag ∷ []) s,
      Word.rejected,
    )
    | some (connector_id, reservation_id) ↦
        accept_remote_start env request connector_id reservation_id s
  ]

-- `beginRemoteTransaction` from the answer to its first notification, of `Preparing`, up to the
-- authorization request, or past it when none is configured. What comes before that answer is only
-- the notification, which reads nothing of the state: the task that the handler starts waits for the
-- answer, and the notification is recorded with it.
unfoldable pub begin_remote_transaction : Env → ℤ → String → ℤ → Simulator → Simulator
unfolding notify_status configuration_bool
begin_remote_transaction env connector_id id_tag reservation_id s =
    let s' = notify_status env connector_id ChargePointStatus.preparing s in
    if configuration_bool "AuthorizeRemoteTxRequests" s'
    then spawn (Task.authorize_remote connector_id id_tag reservation_id)
        (send (Message.authorize id_tag) s')
    else spawn (Task.start_remote connector_id id_tag reservation_id) s'

abbrev pub is_authorized : Option IdTagInfo → Bool
is_authorized none = false
is_authorized (some info) = elim info.status [ AuthorizationStatus.accepted ↦ true | _ ↦ false ]

abbrev pub authorization_word : Option IdTagInfo → Word → Word
authorization_word none w = w
authorization_word (some info) w = Word.of_authorization info.status

-- `restoreConnectorAfterFailedStart`
unfoldable pub restore_connector : Env → ℤ → Simulator → Option Simulator
unfolding release_connector notify_status_async
restore_connector env id s = do
  (s', status) ← release_connector env.now id s
  connector ← get id s'.connectors
  some (
      notify_status_async env id status
        (record s' { connectors = put id (record connector { id_tag = "" }) s'.connectors }))

-- The answer to the authorization request.
unfoldable pub authorized_remote :
    Env → ℤ → String → ℤ → Answer (Option IdTagInfo) → Simulator → Option Simulator
unfolding restore_connector emit
authorized_remote env connector_id id_tag reservation_id (err detail) s = do
  s' ← restore_connector env connector_id s
  some (emit env outbound Action.authorize Word.rejected (some connector_id) (lit detail ∷ []) s')
authorized_remote env connector_id id_tag reservation_id (ok info) s =
    let denied = restore_connector env connector_id s >>= (λ s'. some (
      emit env outbound Action.authorize Word.rejected (some connector_id)
        (lit "authorization rejected" ∷ []) s')) in
    if is_authorized info
    then some (
        spawn (Task.start_remote connector_id id_tag reservation_id) (
          emit env outbound Action.authorize (authorization_word info Word.accepted)
            (some connector_id) (lit id_tag ∷ []) s))
    else denied

-- The meter is read under the lock, and the transaction is requested.
unfoldable pub start_remote_transaction : ℤ → String → ℤ → Simulator → Option Simulator
start_remote_transaction connector_id id_tag reservation_id s = do
  connector ← get connector_id s.connectors
  let reservation = if is_pos reservation_id then some reservation_id else none
  let message = Message.start_transaction connector_id id_tag connector.meter reservation
  some (spawn (Task.confirm_start connector_id id_tag reservation_id) (send message s))

-- `consumeReservationLocked`, under its guard.
unfoldable pub consume_reservation : ℤ → Simulator → Simulator
consume_reservation id s =
    if is_pos id then record s { reservations = remove id s.reservations } else s

-- The connector after the confirmation.
unfoldable pub settle_start :
    ℕ → ℤ → ℤ → ℤ → Bool → Simulator → Option (Simulator × ChargePointStatus)
unfolding consume_reservation release_connector
settle_start now connector_id reservation_id transaction_id accepted s = do
  connector ← get connector_id s.connectors
  let started = record connector {
    transaction_id = transaction_id;
    status = ChargePointStatus.charging;
  }
  let refused = record connector { id_tag = "" }
  let running =
      consume_reservation reservation_id
        (record s { connectors = put connector_id started s.connectors })
  if accepted
      then some (running, ChargePointStatus.charging)
      else release_connector now connector_id
          (record s { connectors = put connector_id refused s.connectors })

pub record StartConfirmation : Type 0 where
  pub transaction_id : ℤ
  pub id_tag_info : Option IdTagInfo

-- The answer to the transaction request. The goroutine then waits for the answer to a notification,
-- and does nothing else.
unfoldable pub confirmed_start :
    Env → ℤ → ℤ → Answer StartConfirmation → Simulator → Option Simulator
unfolding restore_connector settle_start emit
confirmed_start env connector_id reservation_id (err detail) s = do
  s' ← restore_connector env connector_id s
  some (
      emit env outbound Action.start_transaction Word.error (some connector_id) (lit detail ∷ [])
        s')
confirmed_start env connector_id reservation_id (ok confirmation) s = do
  (s', final) ←
      settle_start env.now connector_id reservation_id confirmation.transaction_id
        (is_authorized confirmation.id_tag_info) s
  let word = authorization_word confirmation.id_tag_info Word.none_given
  let detail = num confirmation.transaction_id ∷ []
  some (
      spawn (Task.notify connector_id final)
        (emit env outbound Action.start_transaction word (some connector_id) detail s'))

-- The loop of `OnRemoteStopTransaction`.
unfoldable pub find_transaction : ℤ → Map ℤ Connector → Option (ℤ × Connector)
find_transaction transaction_id [] = none
find_transaction transaction_id ((id, connector) ∷ rest) =
    if connector.transaction_id ==ℤ transaction_id
    then some (id, connector)
    else find_transaction transaction_id rest

unfoldable pub on_remote_stop_transaction : Env → ℤ → Simulator → Simulator × Word
unfolding find_transaction emit
on_remote_stop_transaction env transaction_id s =
    elim (find_transaction transaction_id s.connectors) [
      | none ↦ (
        emit env inbound Action.remote_stop_transaction Word.rejected none (num transaction_id ∷ [])
            s,
        Word.rejected,
      )
      | some (id, connector) ↦ (
        spawn (Task.finish_remote id transaction_id) (
            emit env inbound Action.remote_stop_transaction Word.accepted (some id)
              (num transaction_id ∷ [])
              (record s {
                connectors =
                    put id (record connector { status = ChargePointStatus.finishing }) s.connectors;
              })),
        Word.accepted,
      )
    ]

-- `finishRemoteTransaction` from the answer to its first notification, of `Finishing`, up to the
-- request to stop.
unfoldable pub finish_remote_transaction : Env → ℤ → ℤ → Simulator → Option Simulator
unfolding notify_status
finish_remote_transaction env connector_id transaction_id s = do
  let s' = notify_status env connector_id ChargePointStatus.finishing s
  connector ← get connector_id s'.connectors
  some (
      spawn (Task.confirm_stop connector_id transaction_id)
        (send (Message.stop_transaction connector.meter transaction_id connector.id_tag) s'))

-- The answer to it. The goroutine then waits for the answer to a notification.
unfoldable pub confirmed_stop :
    Env → ℤ → ℤ → Answer (Option IdTagInfo) → Simulator → Option Simulator
unfolding release_connector emit
confirmed_stop env connector_id transaction_id (err detail) s =
    some
      (emit env outbound Action.stop_transaction Word.error (some connector_id) (lit detail ∷ []) s)
confirmed_stop env connector_id transaction_id (ok info) s = do
  connector ← get connector_id s.connectors
  let stopped = record connector { transaction_id = pos 0; id_tag = "" }
  (s', final) ←
      release_connector env.now connector_id
        (record s { connectors = put connector_id stopped s.connectors })
  some (
      spawn (Task.notify connector_id final) (
        emit env outbound Action.stop_transaction (authorization_word info Word.accepted)
          (some connector_id) (num transaction_id ∷ []) s'))
