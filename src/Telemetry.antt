-- ===== src/Telemetry.antt =====
-- simulator.go: `sendBootNotification`, `sendInitialStatuses`, `sendHeartbeat`, `sendMeterValues`
-- and `sendMeterSample`; simulator_optional_profiles.go: `sendTriggeredStatuses`,
-- `sendTriggeredMeterValues`. The Boolean of a result is false for an error.
pub mod Laws
pub mod Meters
use ocpp_cli.Prelude.{
  ℤ, pos, ℕ, zero, suc, Bool, true, false, ◌||◌, Option, none, some, List, [], ◌∷◌, map, sort,
  leb_ℤ, is_pos, rounds_of, int_add, ◌>>=◌, if◌then◌else◌,
}
use ocpp_cli.Prelude.Int.{int_eq}
use ocpp_cli.Prelude.Maps.{Map, get}
use ocpp_cli.Ocpp.{Trigger, ChargePointStatus, Word, Action, Piece, lit, num, outbound}
use ocpp_cli.Station.{Simulator, Connector, BootResult, Env, Task, Message, Answer, ok, err}
use ocpp_cli.Station.Emit.{emit, send, spawn, notify_status}

-- A confirmation of the boot: its status, its interval and its time.
unfoldable pub send_boot_notification : Env → Answer BootResult → Simulator → Simulator × Bool
unfolding emit
send_boot_notification env (err detail) s = (send Message.boot_notification s, false)
send_boot_notification env (ok result) s = (
  emit env outbound Action.boot_notification result.status none []
      (record (send Message.boot_notification s) { last_boot = result }),
  true,
)

-- `notifyStatus` with its error.
unfoldable pub notify_or_fail : Env → ℤ → ChargePointStatus → Simulator → Simulator × Bool
unfolding notify_status
notify_or_fail env id status s =
    (notify_status env id status s, env.answers (Message.status_notification id status))

-- The loop of `sendInitialStatuses`, by the number of rounds left.
unfoldable pub initial_loop : Env → ℕ → ℕ → Simulator → Simulator × Bool
unfolding notify_or_fail
initial_loop env zero id s = (s, true)
initial_loop env (suc rounds) id s =
    let (s', sent) = notify_or_fail env (pos id) ChargePointStatus.available s in
    let rest = initial_loop env rounds (suc id) s' in if sent then rest else (s', false)

unfoldable pub send_initial_statuses : Env → Simulator → Simulator × Bool
unfolding initial_loop notify_or_fail
send_initial_statuses env s =
    let (s', sent) = notify_or_fail env (pos 0) ChargePointStatus.available s in
    if sent then initial_loop env (rounds_of s.opts.connectors) 1 s' else (s', false)

-- `detail` is the text of the confirmation's time.
unfoldable pub send_heartbeat : Env → List Piece → Simulator → Simulator × Bool
unfolding emit
send_heartbeat env detail s =
    let s' = send Message.heartbeat s in
    if env.answers Message.heartbeat
    then (emit env outbound Action.heartbeat Word.accepted none detail s', true)
    else (s', false)

-- The transaction is named only if there is one.
unfoldable pub send_meter_sample : Env → ℤ → ℤ → ℤ → Simulator → Simulator × Bool
unfolding emit
send_meter_sample env id meter transaction_id s =
    let transaction = if is_pos transaction_id then some transaction_id else none in
    let message = Message.meter_values id meter transaction in
    let s' = send message s in
    if env.answers message
    then (
      emit env outbound Action.meter_values Word.accepted (some id) (num meter ∷ lit " Wh" ∷ []) s',
      true,
    )
    else (s', false)

-- `connector.meter += s.opts.MeterStep`
unfoldable pub step_meter : ℤ → ℤ × Connector → ℤ × Connector
step_meter step (id, connector) = (id, record connector { meter = int_add connector.meter step })

abbrev pub sample_le : ℤ × Connector → ℤ × Connector → Bool
sample_le a b = leb_ℤ a.0 b.0

-- The samples in order, until one fails.
unfoldable pub send_samples : Env → Map ℤ Connector → Simulator → Simulator × Bool
unfolding send_meter_sample
send_samples env [] s = (s, true)
send_samples env ((id, connector) ∷ rest) s =
    let (s', sent) = send_meter_sample env id connector.meter connector.transaction_id s in
    let next = send_samples env rest s' in if sent then next else (s', false)

unfoldable pub send_meter_values : Env → Simulator → Simulator × Bool
unfolding step_meter send_samples
send_meter_values env s =
    let connectors = map (step_meter s.opts.meter_step) s.connectors in
    send_samples env (sort sample_le connectors) (record s { connectors = connectors })

-- The error of a message, if it failed, as an event.
unfoldable pub report : Env → Trigger → Option ℤ → Simulator × Bool → Simulator
unfolding emit
report env message id (s, sent) =
    if sent
    then s
    else emit env outbound (Action.of_trigger message) Word.error id (lit env.error_text ∷ []) s

-- The next round of the loop over the connectors: the status is read, the notification is sent, and
-- the goroutine waits. `none` is a nil dereference.
unfoldable pub next_status : ℕ → Simulator → Option Simulator
next_status id s =
    if leb_ℤ (pos id) s.opts.connectors
    then (get (pos id) s.connectors >>= λ connector.
        some (spawn (Task.await_status id connector.status) s))
    else some s

-- The answer to the notification of a round. A failure ends the loop.
unfoldable pub triggered_status : Env → ℕ → ChargePointStatus → Simulator → Option Simulator
unfolding notify_or_fail report next_status
triggered_status env id status s =
    let (s', sent) = notify_or_fail env (pos id) status s in
    if sent
    then next_status (suc id) s'
    else some (report env Trigger.status_notification none (s', false))

-- The answer to the notification of the connector that was named.
unfoldable pub named_status : Env → ℤ → ChargePointStatus → Simulator → Simulator
unfolding notify_or_fail report
named_status env id status s =
    report env Trigger.status_notification (some id) (notify_or_fail env id status s)

-- Up to the first notification.
unfoldable pub send_triggered_statuses : Env → Option ℤ → Simulator → Simulator
unfolding report
send_triggered_statuses env none s = spawn (Task.await_status 0 ChargePointStatus.available) s
send_triggered_statuses env (some (pos zero)) s =
    spawn (Task.await_named_status (pos 0) ChargePointStatus.available) s
send_triggered_statuses env (some id) s = elim (get id s.connectors) [
  | none ↦ report env Trigger.status_notification (some id) (s, false)
  | some connector ↦ spawn (Task.await_named_status id connector.status) s
]

-- The numbers from `id` on, by how many there are.
unfoldable pub ids_from : ℕ → ℕ → List ℤ
ids_from zero id = []
ids_from (suc rounds) id = pos id ∷ ids_from rounds (suc id)

unfoldable pub sample_ids : Option ℤ → Simulator → List ℤ
unfolding ids_from
sample_ids none s = ids_from (rounds_of s.opts.connectors) 1
sample_ids (some (pos zero)) s = ids_from (rounds_of s.opts.connectors) 1
sample_ids (some id) s = id ∷ []

-- The next round of the loop: the meter is read, the sample is sent, and the goroutine waits. An
-- unknown connector is an error.
unfoldable pub next_sample : Env → Option ℤ → List ℤ → Simulator → Simulator
unfolding report
next_sample env wanted [] s = s
next_sample env wanted (id ∷ ids) s = elim (get id s.connectors) [
  | none ↦ report env Trigger.meter_values wanted (s, false)
  | some connector ↦
      spawn (Task.await_sample wanted id connector.meter connector.transaction_id ids) s
]

-- The answer to a sample. A failure ends the loop.
unfoldable pub triggered_sample : Env → Option ℤ → ℤ → ℤ → ℤ → List ℤ → Simulator → Simulator
unfolding send_meter_sample report next_sample
triggered_sample env wanted id meter transaction_id ids s =
    let (s', sent) = send_meter_sample env id meter transaction_id s in
    if sent
    then next_sample env wanted ids s'
    else report env Trigger.meter_values wanted (s', false)

unfoldable pub send_triggered_meter_values : Env → Option ℤ → Simulator → Simulator
unfolding sample_ids next_sample
send_triggered_meter_values env id s = next_sample env id (sample_ids id s) s
