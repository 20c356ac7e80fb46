-- ===== src/Cli/Run.antt =====
-- internal/cli/commands_run.go: the guards of the command `run`, the simulator that it makes, and the
-- output format of the stream.
use ocpp_cli.Prelude.{
  ℤ, pos, String, ◌||◌, not, none, some, List, ◌∷◌, map, any, is_pos, str_eq, if◌then◌else◌,
}
use ocpp_cli.Startup.{is_negative, new_simulator}
use ocpp_cli.Station.{Simulator, SimulatorOptions}
use ocpp_cli.Config.{ClientConfig}
use ocpp_cli.Config.Validate.{validate_client_config}
use ocpp_cli.Errors.{Sentinel, Outcome, got, lost, ◌>>=◌, ◌>>◌, refuse_when, wrap}
use ocpp_cli.Client.Setup.{config_error, new_web_socket_client}
use ocpp_cli.Cli.{Host, Given, Command, simulated, streamed, config_failure}
use ocpp_cli.Cli.Flags.{
  or_default, was_set, parse_flags, common_flags, resolve_client_config, validated, stream_formats,
  validate_stream_format, as_config_failure,
}
use ocpp_cli.Cli.Connection.{after}
use ocpp_cli.Cli.Stream.{Received, new_writer, pump}

-- The text of the first failed test of `NewSimulator`.
unfoldable pub simulator_reason : Host → ClientConfig → SimulatorOptions → String
unfolding validate_client_config config_error
simulator_reason h cfg opts = elim (validate_client_config h.parsers cfg) [
  | some e ↦ (config_error h.texts h.parsers h.certificates e).text
  | none ↦
      if not (is_pos opts.connectors)
      then "connectors must be greater than zero"
      else if is_negative opts.heartbeat_interval || is_negative opts.meter_interval
      then "intervals cannot be negative"
      else "meter values cannot be negative"
]

-- `ocppclient.NewSimulator`, with its errors and its client.
unfoldable pub make_simulator : Host → ClientConfig → SimulatorOptions → Outcome Simulator
unfolding new_simulator wrap simulator_reason new_web_socket_client
make_simulator h cfg opts = elim (new_simulator h.parsers h.itoa cfg opts) [
  | none ↦ lost (wrap h.texts.output_text Sentinel.validation (simulator_reason h cfg opts))
  | some s ↦ do ws ← new_web_socket_client h.texts h.parsers h.certificates cfg; got s
]

pub record RunPlan : Type 0 where
  pub cfg : ClientConfig
  pub format : String
  pub opts : SimulatorOptions
  pub duration : ℤ

-- `if wasSet(fs, name) { cfg.X = *value }`
abbrev override_flag : Given → String → String → String
override_flag g name old = if was_set g name then or_default (g.texts name) "" else old

unfoldable pub stream_format_value : Host → Given → String → String
unfolding was_set
stream_format_value h g format =
    if was_set g "format"
    then format
    else if any (str_eq (h.normalise_format format)) stream_formats
    then format
    else "text"

unfoldable pub run_plan : Host → List String → Outcome RunPlan
unfolding parse_flags config_failure resolve_client_config common_flags was_set validated
    stream_format_value validate_stream_format as_config_failure
run_plan h args = do
  g ← parse_flags h "run" args
  let connectors = or_default (g.ints "connectors") (pos 1)
  let heartbeat_interval = or_default (g.durations "heartbeat-interval") (pos 0)
  let meter_interval = or_default (g.durations "meter-interval") (pos 0)
  let meter_start = or_default (g.ints "meter-start") (pos 0)
  let meter_step = or_default (g.ints "meter-step") (pos 100)
  let duration = or_default (g.durations "duration") (pos 0)
  refuse_when (not (is_pos connectors)) (config_failure h "connectors must be greater than zero")
  refuse_when
      (is_negative heartbeat_interval || (is_negative meter_interval || is_negative duration))
      (config_failure h "intervals and duration cannot be negative")
  refuse_when (is_negative meter_start || is_negative meter_step)
      (config_failure h "meter-start and meter-step cannot be negative")
  resolved ← resolve_client_config h g (common_flags g)
  cfg ← validated h (record resolved {
    charge_point_model = override_flag g "model" resolved.charge_point_model;
    charge_point_vendor = override_flag g "vendor" resolved.charge_point_vendor;
    firmware_version = override_flag g "firmware-version" resolved.firmware_version;
  })
  format ← as_config_failure h (validate_stream_format h (stream_format_value h g cfg.format))
  got (record {
    cfg = cfg;
    format = format;
    opts = record {
      connectors = connectors;
      heartbeat_interval = heartbeat_interval;
      meter_interval = meter_interval;
      meter_start = meter_start;
      meter_step = meter_step;
    };
    duration = duration;
  })

-- `simulate` is what the loop receives from a simulator that runs for the duration; zero is until
-- interrupted.
unfoldable pub run_simulator : Host → (Simulator → ℤ → Received) → List String → Command
unfolding run_plan make_simulator pump
run_simulator h simulate args = after (run_plan h args) λ plan.
    after (make_simulator h plan.cfg plan.opts) λ s.
      let done = pump h (new_writer plan.format) (simulate s plan.duration) in
      (done.0, simulated plan.opts ∷ map streamed done.1)
