-- ===== src/System/Control.antt =====
-- simulator.go: `Run`, `close`, `optionalTicker`. What the loop's `select` receives is a list, in
-- any order; the handlers that the OCPP library calls in between are part of it. The steps of the
-- goroutines between two of them are those of `System.Step`.
use ocpp_cli.Prelude.{
  ℤ, pos, String, Bool, true, false, Option, none, some, List, [], ◌∷◌, ◌>>=◌, ◌==ℤ◌, is_pos, ◌&&◌,
  int_mul, if◌then◌else◌,
}
use ocpp_cli.Ocpp.{Word, Action, Piece, lit, Direction}
use ocpp_cli.Station.{Simulator, BootResult, Env, Answer, ok, err}
use ocpp_cli.Station.Emit.{emit}
use ocpp_cli.Reservations.Handlers.{expire_reservations}
use ocpp_cli.Telemetry.{
  send_boot_notification, send_initial_statuses, send_heartbeat, send_meter_values,
}
use ocpp_cli.Errors.{Error, Sentinel, classify}
use ocpp_cli.Client.Types.{Texts}
use ocpp_cli.System.{Request, handle}

-- The error that `Run` returns. Those of a message are what the central system's answer makes of it.
pub data RunError : Type 0 where
  start_failed link_failed : Option Error → RunError
  boot_failed boot_rejected status_failed heartbeat_failed meter_failed : RunError

-- What the `select` of the loop may receive: the end of the context, an error of the connection
-- (`none` where the channel is closed), a tick of one of the three tickers; or a handler runs.
pub data Tick : Type 0 where
  done : Env → Tick
  link : Option Error → Tick
  heartbeat_tick : Env → List Piece → Tick
  meter_tick : Env → Tick
  reservation_tick : Env → Tick
  request : Env → Request → Tick

pub data Ended : Type 0 where
  running : Ended
  returned : Option RunError → Ended

-- Which of the channels that may be nil are not.
pub record Channels : Type 0 where
  pub heartbeats : Bool
  pub meters : Bool
  pub errors : Bool

abbrev pub can_receive : Channels → Tick → Bool
can_receive c (link e) = c.errors
can_receive c (heartbeat_tick env detail) = c.heartbeats
can_receive c (meter_tick env) = c.meters
can_receive c _ = true

-- `errorC = nil`
abbrev pub after_tick : Tick → Channels → Channels
after_tick (link none) c = record c { errors = false }
after_tick _ c = c

abbrev ended_if_failed : RunError → Bool → Ended
ended_if_failed e true = running
ended_if_failed e false = returned (some e)

abbrev pub goes_on : Option Simulator → Option (Simulator × Ended)
goes_on o = o >>= λ s. some (s, running)

module _ (t : Texts) where
  -- The branch of the `select` that a receipt takes.
  unfoldable pub on_tick : Tick → Simulator → Option (Simulator × Ended)
  unfolding emit send_heartbeat send_meter_values expire_reservations handle classify
  on_tick (done env) s = some (
    emit env Direction.system Action.shutdown Word.stopped none (lit "context cancelled" ∷ []) s,
    returned none,
  )
  on_tick (link none) s = some (s, running)
  on_tick (link (some e)) s = some (
    s,
    returned (some (link_failed (classify t.lower t.output_text (some e) Sentinel.connection))),
  )
  on_tick (heartbeat_tick env detail) s =
      let r = send_heartbeat env detail s in some (r.0, ended_if_failed heartbeat_failed r.1)
  on_tick (meter_tick env) s =
      let r = send_meter_values env s in some (r.0, ended_if_failed meter_failed r.1)
  on_tick (reservation_tick env) s = goes_on (expire_reservations env s)
  on_tick (request env r) s = goes_on (handle env r s)

  -- The rest of a run, unless it has ended.
  unfoldable pub unless_ended :
      (Simulator → Option (Simulator × Ended)) → Simulator × Ended → Option (Simulator × Ended)
  unless_ended next (s, running) = next s
  unless_ended next (s, returned e) = some (s, returned e)

  -- A channel that is nil is never received from.
  unfoldable pub run_loop : Channels → List Tick → Simulator → Option (Simulator × Ended)
  unfolding on_tick unless_ended
  run_loop c [] s = some (s, running)
  run_loop c (tick ∷ ticks) s = elim (can_receive c tick) [
    | true ↦ on_tick tick s >>= unless_ended (λ s'. run_loop (after_tick tick c) ticks s')
    | false ↦ run_loop c ticks s
  ]

  -- `heartbeatInterval`, where a second is 10^9 nanoseconds.
  unfoldable pub heartbeat_interval : Simulator → BootResult → ℤ
  unfolding int_mul
  heartbeat_interval s boot =
      if (s.opts.heartbeat_interval ==ℤ pos 0) && is_pos boot.interval
      then int_mul boot.interval (pos 1000000000)
      else s.opts.heartbeat_interval

  -- `optionalTicker` makes no channel for an interval that is not positive.
  abbrev pub has_ticker : ℤ → Bool
  has_ticker interval = is_pos interval

  unfoldable pub channels_of : Simulator → BootResult → Channels
  unfolding heartbeat_interval
  channels_of s boot = record {
    heartbeats = has_ticker (heartbeat_interval s boot);
    meters = has_ticker s.opts.meter_interval;
    errors = true;
  }

  abbrev pub is_refused : Word → Bool
  is_refused Word.rejected = true
  is_refused _ = false

  -- From the answer to the boot on. Each stage has an environment of its own.
  unfoldable pub after_boot :
      Env → List Tick → Answer BootResult → Simulator × Bool → Option (Simulator × Ended)
  unfolding send_initial_statuses run_loop channels_of
  after_boot env ticks (err detail) (s, sent) = some (s, returned (some boot_failed))
  after_boot env ticks (ok boot) (s, sent) =
      if is_refused boot.status
      then some (s, returned (some boot_rejected))
      else (let r = send_initial_statuses env s in
          if r.1
          then run_loop (channels_of s boot) ticks r.0
          else some (r.0, returned (some status_failed)))

  -- `s.close()`, which `defer` runs when the function returns.
  abbrev pub close_simulator : Simulator × Ended → Simulator × Ended
  close_simulator (s, running) = (s, running)
  close_simulator (s, returned e) = (record s { events_closed = true }, returned e)

  unfoldable pub run_connected :
      Env → String → Answer BootResult → List Tick → Simulator → Option (Simulator × Ended)
  unfolding emit send_boot_notification after_boot
  run_connected env address answer ticks s =
      let s' = emit env Direction.system Action.connect Word.connected none (lit address ∷ []) s in
      after_boot env ticks answer (send_boot_notification env answer s') >>= λ r.
      some (close_simulator r)

  -- `started` is what `cp.Start` returns; nothing is deferred before it has succeeded.
  unfoldable pub run :
      Env
      → Option Error
      → String
      → Answer BootResult
      → List Tick
      → Simulator
      → Option (Simulator × Ended)
  unfolding run_connected classify
  run env started address answer ticks s =
      if env.open_context
      then elim started [
        | some e ↦ some (
          s,
          returned
              (some (start_failed (classify t.lower t.output_text (some e) Sentinel.connection))),
        )
        | none ↦ run_connected env address answer ticks s
      ]
      else some (s, returned none)
