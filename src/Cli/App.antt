-- ===== src/Cli/App.antt =====
-- internal/cli/app.go and internal/cli/completions.go, and `initConfig` of
-- internal/cli/commands_config.go. A `switch` on a name is a look-up in the list of its cases.
use Prim.Native.String.{◌++◌}
use ocpp_cli.Prelude.{
  ℤ, String, Bool, false, ◌||◌, Option, none, some, List, [], ◌∷◌, any, str_eq, if◌then◌else◌,
}
use ocpp_cli.Prelude.Int.{string_eq}
use ocpp_cli.Prelude.Maps.{Map, get}
use ocpp_cli.Text.{trim_space}
use ocpp_cli.Station.{Simulator}
use ocpp_cli.Config.{default_config_path}
use ocpp_cli.Errors.{Error, Sentinel, Outcome, got, lost, is, plain, ExitCode, map_exit_code}
use ocpp_cli.Cli.{
  Host, Effect, Command, Opened, opened, exists, not_opened, wrote_starter, printed, complained,
  usage, completion, config_failure,
}
use ocpp_cli.Cli.Flags.{or_default, parse_flags}
use ocpp_cli.Cli.Connection.{after, between}
use ocpp_cli.Cli.Station as Station
use ocpp_cli.Cli.Meter as Meter
use ocpp_cli.Cli.Extended as Extended
use ocpp_cli.Cli.Extended.Security as Security
use ocpp_cli.Cli.Checks as Checks
use ocpp_cli.Cli.Stream.{Received}
use ocpp_cli.Cli.Run.{run_simulator}

unfoldable pub write_starter : Host → String → Opened → Command
unfolding config_failure
write_starter h path exists =
    (some (config_failure h (path ++ " already exists; use --force to overwrite it")), [])
write_starter h path (not_opened reason) =
    (some (config_failure h ("create " ++ path ++ ": " ++ reason)), [])
write_starter h path opened = elim (h.write_file path) [
  | some e ↦ (some (record e { text = "write " ++ path ++ ": " ++ e.text }), [])
  | none ↦ (none, wrote_starter path ∷ printed ("wrote " ++ path) ∷ [])
]

unfoldable pub init_config : Host → List String → Command
unfolding parse_flags write_starter
init_config h args = after (parse_flags h "init-config" args) λ g.
    let path = or_default (g.texts "output") default_config_path in
    write_starter h path (h.open_file path (or_default (g.bools "force") false))

-- `flag.ErrHelp`
abbrev help_error : Error
help_error = record {
  wraps = Sentinel.help ∷ [];
  is_ocpp = false;
  is_net = false;
  text = "flag: help requested";
}

unfoldable pub completions : Host → List String → Command
unfolding plain trim_space
completions h (shell ∷ []) =
    if str_eq shell "--help" || str_eq shell "-h"
    then (
      some help_error,
      complained "Usage of completions:" ∷ complained "  ocpp-cli completions bash|zsh" ∷ [],
    )
    else (h.write_completion (h.texts.lower (trim_space shell)), completion ∷ [])
completions h _ = (some (plain "usage: ocpp-cli completions <bash|zsh>"), [])

abbrev pub Handler : Type 0
Handler = Host → List String → Command

-- The cases of the `switch` of `send`.
abbrev pub send_operations : Map String Handler
send_operations =
    ("boot-notification", Station.boot_notification)
    ∷ ("heartbeat", Station.heartbeat)
    ∷ ("authorize", Station.authorize)
    ∷ ("status-notification", Station.status_notification)
    ∷ ("meter-values", Meter.meter_values)
    ∷ ("start-transaction", Meter.start_transaction)
    ∷ ("stop-transaction", Meter.stop_transaction)
    ∷ ("data-transfer", Extended.data_transfer)
    ∷ ("diagnostics-status", Extended.diagnostics_status)
    ∷ ("firmware-status", Extended.firmware_status)
    ∷ ("security-event", Security.security_event)
    ∷ ("log-status", Security.log_status)
    ∷ ("signed-firmware-status", Security.signed_firmware_status)
    ∷ ("sign-certificate", Security.sign_certificate)
    ∷ []

abbrev pub asks_help : String → Bool
asks_help name = any (str_eq name) ("help" ∷ "--help" ∷ "-h" ∷ [])

abbrev send_usage : List Effect
send_usage =
    printed "Usage: ocpp-cli send <operation> [flags]"
    ∷ printed
        "Operations: boot-notification heartbeat authorize status-notification meter-values start-transaction stop-transaction data-transfer diagnostics-status firmware-status security-event log-status signed-firmware-status sign-certificate"
    ∷ []

unfoldable pub send_named : Host → List String → Command
unfolding get plain
send_named h [] = (none, send_usage)
send_named h (operation ∷ args) =
    if asks_help operation then (none, send_usage) else elim (get operation send_operations) [
      | some handler ↦ handler h args
      | none ↦ (some (plain ("unknown OCPP operation " ++ h.quote operation)), [])
    ]

unfoldable pub send : Handler
unfolding send_named
send h args = after (h.normalise_global_flags args) (send_named h)

-- The cases of the `switch` of `Run`; `simulate` is for the command `run`.
abbrev pub commands : (Simulator → ℤ → Received) → Map String Handler
commands simulate =
    ("version", λ h args. (none, printed "ocpp-cli development" ∷ []))
    ∷ ("--version", λ h args. (none, printed "ocpp-cli development" ∷ []))
    ∷ ("-v", λ h args. (none, printed "ocpp-cli development" ∷ []))
    ∷ ("run", λ h args. run_simulator h simulate args)
    ∷ ("init-config", init_config)
    ∷ ("validate-config", Checks.validate_config)
    ∷ ("test-connection", Checks.test_connection)
    ∷ ("status", Checks.test_connection)
    ∷ ("send", send)
    ∷ ("boot-notification", Station.boot_notification)
    ∷ ("heartbeat", Station.heartbeat)
    ∷ ("authorize", Station.authorize)
    ∷ ("status-notification", Station.status_notification)
    ∷ ("meter-values", Meter.meter_values)
    ∷ ("start-transaction", Meter.start_transaction)
    ∷ ("stop-transaction", Meter.stop_transaction)
    ∷ ("data-transfer", Extended.data_transfer)
    ∷ ("diagnostics-status", Extended.diagnostics_status)
    ∷ ("firmware-status", Extended.firmware_status)
    ∷ ("security-event", Security.security_event)
    ∷ ("log-status", Security.log_status)
    ∷ ("signed-firmware-status", Security.signed_firmware_status)
    ∷ ("sign-certificate", Security.sign_certificate)
    ∷ ("completions", completions)
    ∷ []

unfoldable pub find_command : (Simulator → ℤ → Received) → String → Option Handler
unfolding get
find_command simulate name = get name (commands simulate)

-- What the process ends with.
pub record Report : Type 0 where
  pub exit_code : ExitCode
  pub effects : List Effect

abbrev pub success_report : List Effect → Report
success_report effects = record { exit_code = ExitCode.success; effects = effects }

-- `if err != nil { ... }`
unfoldable pub report_of : Command → Report
unfolding map_exit_code
report_of (none, effects) = success_report effects
report_of (some e, effects) = if is e Sentinel.help then success_report effects else record {
  exit_code = map_exit_code (some e);
  effects = (between [] (some e, effects) (complained e.text ∷ [])).1;
}

unfoldable pub run_named : Host → (Simulator → ℤ → Received) → List String → Report
unfolding find_command report_of
run_named h simulate [] = success_report (usage ∷ [])
run_named h simulate (name ∷ args) =
    if asks_help name then success_report (usage ∷ []) else elim (find_command simulate name) [
      | some handler ↦ report_of (handler h args)
      | none ↦ record {
        exit_code = ExitCode.config_error;
        effects = usage ∷ complained ("unknown command " ++ h.quote name) ∷ [];
      }
    ]

unfoldable pub run_normalised : Host → (Simulator → ℤ → Received) → Outcome (List String) → Report
unfolding run_named
run_normalised h simulate (got args) = run_named h simulate args
run_normalised h simulate (lost e) = record {
  exit_code = ExitCode.config_error;
  effects = complained e.text ∷ [];
}

-- `App.Run`
unfoldable pub run : Host → (Simulator → ℤ → Received) → List String → Report
unfolding run_normalised
run h simulate args = run_normalised h simulate (h.normalise_global_flags args)
