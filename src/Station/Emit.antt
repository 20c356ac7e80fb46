-- ===== src/Station/Emit.antt =====
-- simulator.go: `emit`, `notifyStatus`, `notifyStatusAsync` and the `go` statement.
use ocpp_cli.Prelude.{ℤ, ℕ, Option, some, List, [], ◌∷◌, ◌++◌, length, ltb, if◌then◌else◌}
use ocpp_cli.Ocpp.{ChargePointStatus, Direction, outbound, Action, Word, Piece}
use ocpp_cli.Station.{Simulator, Event, Task, Message, Env}

-- `make(chan SimulatorEvent, 256)`
abbrev pub event_capacity : ℕ
event_capacity = 256

-- A closed or full channel drops the event.
unfoldable pub emit :
    Env → Direction → Action → Word → Option ℤ → List Piece → Simulator → Simulator
emit env direction action status connector_id detail s =
    if s.events_closed
    then s
    else if ltb (length s.events) event_capacity
    then record s { events = s.events ++ event ∷ [] }
    else s
  where
    event : Event
    event = record {
      timestamp = env.now;
      direction = direction;
      action = action;
      status = status;
      connector_id = connector_id;
      detail = detail;
    }

abbrev pub spawn : Task → Simulator → Simulator
spawn t s = record s { tasks = s.tasks ++ t ∷ [] }

abbrev pub send : Message → Simulator → Simulator
send m s = record s { sent = s.sent ++ m ∷ [] }

unfoldable pub notify_status : Env → ℤ → ChargePointStatus → Simulator → Simulator
unfolding emit
notify_status env id status s =
    let s = send (Message.status_notification id status) s in
    if env.answers (Message.status_notification id status)
    then emit env outbound Action.status_notification (Word.of_status status) (some id) [] s
    else s

unfoldable pub notify_status_async : Env → ℤ → ChargePointStatus → Simulator → Simulator
notify_status_async env id status s = if env.connected then spawn (Task.notify id status) s else s
