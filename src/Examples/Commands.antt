-- ===== src/Examples/Commands.antt =====
-- The theorems on the commands, at one host.
use ocpp_cli.Prelude.{
  ◌≡◌, refl, sym, subst, ◌∙◌, String, Bool, true, false, Option, none, some, [], ◌∷◌, ◌++◌, ◌↔◌,
  is_some,
}
use ocpp_cli.Prelude.Int.{string_eq}
use ocpp_cli.Prelude.Maps.{get}
use ocpp_cli.Text.{trim_space}
use ocpp_cli.Station.{Simulator}
use ocpp_cli.Config.{ClientConfig, default_client_config, ok}
use ocpp_cli.Config.Validate.{IsValid}
use ocpp_cli.Config.Load.{load_client_config_for_profile}
use ocpp_cli.Startup.{with_configuration, empty_simulator}
use ocpp_cli.Errors.{Sentinel, got, ExitCode, wrap, is_flag_parse_error, map_exit_code}
use ocpp_cli.Errors.Laws.{map_exit_code-wrap}
use ocpp_cli.Client.Types.{Call, answered, StartConfirmation, IdTagInfo}
use ocpp_cli.Client.Operations.{rejection, start_transaction, stop_transaction}
use ocpp_cli.Client.Setup.{new}
use ocpp_cli.Client.Laws.{is_rejected, Refuses, status_of, transaction_rejections}
use ocpp_cli.Cli.{Given, execute, sent, wrote, closed, cancelled, complained}
use ocpp_cli.Cli.Flags.{common_flags, parse_flags, resolve_client_config, or_default}
use ocpp_cli.Cli.Config.{IsLaidOver, resolve_client_config_lem, got_inj}
use ocpp_cli.Cli.Connection.{opening, connected, new_station}
use ocpp_cli.Cli.Station.{Plan}
use ocpp_cli.Cli.Meter as Meter
use ocpp_cli.Cli.Station as Station
use ocpp_cli.Cli.Stream.{header_line, csv_record, result_first, pump, new_writer}
use ocpp_cli.Cli.Stream.Document.{pump-document}
use ocpp_cli.Cli.App.{run, report_of, send_operations}
use ocpp_cli.Cli.Traces.{Phase, phase_after, is_over}
use ocpp_cli.Cli.Lifecycle.{run_lem}
use ocpp_cli.Cli.Safety.{Offline, transactions-Offline}
use ocpp_cli.Cli.Rejections.Shown.{refusal_output}
use ocpp_cli.Cli.Rejections.{start_transaction-refused}
use ocpp_cli.Cli.Alias.{run-send}
use ocpp_cli.Client.Setup.Laws.{IsFresh, IsSetup, new-IsFresh}
use ocpp_cli.Errors.Laws.{Either}
use ocpp_cli.Cli.Bounds.{IsPermitted, start_plan-IsPermitted}
use ocpp_cli.Station.{err}
use ocpp_cli.System.Control as Control
use ocpp_cli.System.Control.{RunError, Ended, returned}
use ocpp_cli.System.Endings.{run_connected-ends, IsConnected, run-closed}
use ocpp_cli.Examples.{parsers, fresh, fresh-Inv, online}
use ocpp_cli.Examples.Host.{
  texts, refused, central, certificates, given, host, simulate, request, plan, client, stop_request,
  event, unreachable,
}

run_lem_example :
    is_over (phase_after Phase.idle (run (host true) simulate ("heartbeat" ∷ [])).effects) ≡ true
run_lem_example = run_lem (host true) simulate ("heartbeat" ∷ [])

parses :
    (confirmed : Bool) (name : String)
    → parse_flags (host confirmed) name [] ≡ got (given confirmed)
unfolding parse_flags
parses confirmed name = refl

unconfirmed :
    (name : String) (g : Given)
    → parse_flags (host false) name [] ≡ got g
    → or_default (g.bools "yes") false ≡ false
unconfirmed name g parsed =
    subst (λ g. or_default (g.bools "yes") false ≡ false)
      (got_inj (sym (parses false name) ∙ parsed)) refl

transactions-Offline_example :
    Offline (Meter.start_transaction (host false) [])
    × Offline (Meter.stop_transaction (host false) [])
transactions-Offline_example =
    transactions-Offline (host false) [] [] (λ dry. refl) (unconfirmed "start-transaction")
      (unconfirmed "stop-transaction")

resolves :
    resolve_client_config (host true) (given true) (common_flags (given true))
    ≡ got default_client_config
unfolding resolve_client_config common_flags trim_space
resolves = refl

plans : Meter.start_plan (host true) (given true) ≡ got plan
unfolding Meter.start_plan trim_space
plans = refl

executes : Meter.resolve_mode (host true) (given true) ≡ got execute
unfolding Meter.resolve_mode
executes = refl

makes : new_station (host true) default_client_config ≡ got client
unfolding new_station trim_space default_client_config
makes = refl

connects : connected (host true) client ≡ none
unfolding connected
connects = refl

no_flag_message :
    is_flag_parse_error (rejection texts "transaction authorization" "Blocked") ≡ false
unfolding rejection is_flag_parse_error
no_flag_message = refl

start_transaction-refused_example : report_of (Meter.start_transaction (host true) []) ≡ record {
  exit_code = ExitCode.rejected;
  effects =
      opening client
      ++ (sent (Call.start_transaction request)
          ∷ wrote (refusal_output (host true) "table" refused)
          ∷ closed
          ∷ cancelled
          ∷ complained (rejection texts "transaction authorization" "Blocked").text
          ∷ []);
}
start_transaction-refused_example =
    start_transaction-refused (host true) [] (given true) plan client refused
      (parses true "start-transaction") plans executes makes connects refl (λ q. cc) no_flag_message
      refl (λ output. refl)

transaction_rejections_example :
    ((is_rejected (start_transaction texts central request).1 ≡ true) ↔ (
      (s : StartConfirmation) × (central.on_start (Call.start_transaction request) ≡ answered s)
      × Refuses (status_of s.id_tag_info)))
    × ((is_rejected (stop_transaction texts central stop_request).1 ≡ true) ↔ (
        (info : Option IdTagInfo) × (central.on_stop (Call.stop_transaction stop_request)
          ≡ answered info)
        × ((is_some info ≡ true) × Refuses (status_of info))))
transaction_rejections_example = transaction_rejections texts central request stop_request

resolve_client_config_lem_example :
    IsValid parsers default_client_config
    × ((file : ClientConfig) × (load_client_config_for_profile parsers "config.yaml" "" ≡ ok file)
        × IsLaidOver (given true) (common_flags (given true)) file default_client_config)
unfolding common_flags
resolve_client_config_lem_example =
    resolve_client_config_lem (host true) (given true) (common_flags (given true))
      default_client_config resolves

knows : get "heartbeat" send_operations ≡ some Station.heartbeat
unfolding get
knows = refl

run-send_example :
    run (host true) simulate ("send" ∷ "heartbeat" ∷ [])
    ≡ run (host true) simulate ("heartbeat" ∷ [])
run-send_example = run-send (host true) simulate "heartbeat" [] Station.heartbeat knows refl refl

pump-document_example :
    pump (host true) (new_writer "csv") (result_first (event ∷ []) none (event ∷ []))
    ≡ (none, header_line ∷ csv_record (host true) event ∷ csv_record (host true) event ∷ [])
pump-document_example =
    pump-document (host true) "csv" (result_first (event ∷ []) none (event ∷ [])) refl
      (λ line. refl) (λ e. refl)

map_exit_code-wrap_example :
    map_exit_code (some (wrap "output error" Sentinel.timeout "flag needs an argument"))
    ≡ ExitCode.config_error
unfolding is_flag_parse_error wrap
map_exit_code-wrap_example =
    map_exit_code-wrap "output error" "flag needs an argument" Sentinel.timeout

new-IsFresh_example :
    Either
      (IsFresh texts parsers certificates default_client_config)
      (IsSetup texts parsers certificates)
      (new texts parsers certificates default_client_config)
new-IsFresh_example = new-IsFresh texts parsers certificates default_client_config

start_plan-IsPermitted_example : IsPermitted (host true) plan
start_plan-IsPermitted_example = start_plan-IsPermitted (host true) (given true) plan plans

run_connected-ends_example :
    (s' : Simulator) × (e : Option RunError) × (Control.run_connected texts online
        "ws://localhost:8080/ocpp/CP001"
        (err "no answer")
        (Control.done online ∷ [])
        fresh
      ≡ some (s', returned e))
    × (s'.events_closed ≡ true)
run_connected-ends_example =
    run_connected-ends texts 2 online "ws://localhost:8080/ocpp/CP001" (err "no answer")
      (Control.done online ∷ []) fresh fresh-Inv refl

run-closed_example :
    (s' : Simulator) × (e : Option RunError) × (Control.run texts online
        (some unreachable)
        "ws://localhost:8080/ocpp/CP001"
        (err "no answer")
        (Control.done online ∷ [])
        fresh
      ≡ some (s', returned e))
    × ((s'.events_closed ≡ true) ↔ IsConnected online (some unreachable))
unfolding with_configuration empty_simulator
run-closed_example =
    run-closed texts 2 online (some unreachable) "ws://localhost:8080/ocpp/CP001" (err "no answer")
      (Control.done online ∷ []) fresh fresh-Inv refl refl
