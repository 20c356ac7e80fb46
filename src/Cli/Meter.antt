-- ===== src/Cli/Meter.antt =====
-- internal/cli/commands_meter.go.
use Prim.Native.String.{◌++◌}
use ocpp_cli.Prelude.{
  ℤ, pos, negsuc, String, true, false, ◌||◌, not, Option, none, some, List, [], ◌∷◌, str_eq, ltb,
  is_pos,
}
use ocpp_cli.Startup.{is_negative}
use ocpp_cli.Text.{byte_length}
use ocpp_cli.Errors.{Outcome, got, ◌>>=◌, ◌>>◌, refuse_when}
use ocpp_cli.Client.Types.{
  Call, MeterRequest, StartTransactionRequest, StartTransactionResult, StopTransactionRequest,
  StopTransactionResult, AuthorizationResult,
}
use ocpp_cli.Client.Operations.{meter_payload}
use ocpp_cli.Client.Operations as Operations
use ocpp_cli.Cli.{
  Host, Given, Mode, dry_run, execute, Value, text, number, optional_number, flag, Command,
  config_failure,
}
use ocpp_cli.Cli.Flags.{or_default, parse_flags, resolve_common, as_config_failure}
use ocpp_cli.Cli.Render.{Snapshot, key_value_snapshot, render_snapshot}
use ocpp_cli.Cli.Words.{
  valid_measurand, valid_unit, valid_reading_context, valid_location, valid_phase,
  valid_stop_reason, parse_timestamp,
}
use ocpp_cli.Cli.Connection.{after, on_station, answer_command, notice_command}
use ocpp_cli.Cli.Station.{Plan, blank_or_longer, expiry_text}

-- `if *n >= 0 { pointer = n }`
abbrev pub if_given : ℤ → Option ℤ
if_given (pos n) = some (pos n)
if_given (negsuc n) = none

unfoldable pub meter_plan : Host → List String → Outcome (Plan MeterRequest)
unfolding parse_flags resolve_common config_failure parse_timestamp valid_measurand valid_unit
    valid_reading_context valid_location valid_phase
meter_plan h args = do
  g ← parse_flags h "meter-values" args
  let connector = or_default (g.ints "connector") (pos 1)
  let value = or_default (g.texts "value") ""
  let measurand = or_default (g.texts "measurand") "Energy.Active.Import.Register"
  let unit = or_default (g.texts "unit") "Wh"
  let context = or_default (g.texts "context") "Sample.Periodic"
  let location = or_default (g.texts "location") "Outlet"
  let phase = or_default (g.texts "phase") ""
  refuse_when (is_negative connector) (config_failure h "connector must be zero or greater")
  refuse_when (str_eq value "") (config_failure h "value is required")
  refuse_when
      (not (valid_measurand measurand)
        || (not (valid_unit unit)
            || (not (valid_reading_context context)
                || (not (valid_location location) || not (valid_phase phase)))))
      (config_failure h "invalid meter-value metadata")
  timestamp ← parse_timestamp h (or_default (g.texts "timestamp") "now")
  common ← resolve_common h g
  got (record {
    cfg = common.0;
    format = common.1;
    request = record {
      connector_id = connector;
      transaction_id = if_given (or_default (g.ints "transaction-id") (negsuc 0));
      value = value;
      measurand = measurand;
      unit = unit;
      context = context;
      location = location;
      phase = phase;
      timestamp = timestamp;
    };
  })

unfoldable pub meter_values : Host → List String → Command
unfolding meter_plan on_station notice_command Operations.meter_values meter_payload
    key_value_snapshot
meter_values h args = after (meter_plan h args) λ plan. on_station h plan.cfg (
    let request = plan.request in
    notice_command h plan.format (meter_payload request)
      (Operations.meter_values h.texts h.central request)
      (key_value_snapshot
        (Value.fields (
          ("sent", flag true)
          ∷ ("action", text "MeterValues")
          ∷ ("connector_id", number request.connector_id)
          ∷ ("value", text request.value)
          ∷ ("measurand", text request.measurand)
          ∷ ("unit", text request.unit)
          ∷ []))
        (("SENT", "true")
          ∷ ("ACTION", "MeterValues")
          ∷ ("CONNECTOR_ID", h.itoa request.connector_id)
          ∷ ("VALUE", request.value)
          ∷ ("MEASURAND", request.measurand)
          ∷ ("UNIT", request.unit)
          ∷ [])))

-- `safety.Resolve(*yes, *dryRun)`, where an error is a configuration error.
unfoldable pub resolve_mode : Host → Given → Outcome Mode
unfolding as_config_failure
resolve_mode h g =
    as_config_failure h
      (h.resolve_mode (or_default (g.bools "yes") false) (or_default (g.bools "dry-run") false))

unfoldable pub start_plan : Host → Given → Outcome (Plan StartTransactionRequest)
unfolding resolve_common config_failure parse_timestamp
start_plan h g = do
  let connector = or_default (g.ints "connector") (pos 1)
  let id_tag = or_default (g.texts "id-tag") ""
  let meter_start = or_default (g.ints "meter-start") (negsuc 0)
  refuse_when (not (is_pos connector)) (config_failure h "connector must be greater than zero")
  refuse_when (blank_or_longer 20 id_tag)
      (config_failure h "id-tag is required and must not exceed 20 characters")
  refuse_when (is_negative meter_start)
      (config_failure h "meter-start is required and must be zero or greater")
  timestamp ← parse_timestamp h (or_default (g.texts "timestamp") "now")
  common ← resolve_common h g
  got (record {
    cfg = common.0;
    format = common.1;
    request = record {
      connector_id = connector;
      id_tag = id_tag;
      meter_start = meter_start;
      reservation_id = if_given (or_default (g.ints "reservation-id") (negsuc 0));
      timestamp = timestamp;
    };
  })

unfoldable pub start_preview : Host → StartTransactionRequest → Snapshot
unfolding key_value_snapshot
start_preview h request =
    let mode = h.mode_text dry_run in
    key_value_snapshot
      (Value.fields (
        ("mode", text mode)
        ∷ ("action", text "StartTransaction")
        ∷ ("connector_id", number request.connector_id)
        ∷ ("id_tag", text request.id_tag)
        ∷ ("meter_start", number request.meter_start)
        ∷ ("reservation_id", optional_number request.reservation_id)
        ∷ []))
      (("MODE", mode)
        ∷ ("ACTION", "StartTransaction")
        ∷ ("CONNECTOR_ID", h.itoa request.connector_id)
        ∷ ("ID_TAG", request.id_tag)
        ∷ ("METER_START", h.itoa request.meter_start)
        ∷ [])

unfoldable pub start_shown : Host → StartTransactionResult → Outcome Snapshot
unfolding key_value_snapshot expiry_text
start_shown h result = got (
    key_value_snapshot (Value.started result) (
      ("TRANSACTION_ID", h.itoa result.transaction_id)
      ∷ ("STATUS", (result.authorization).status)
      ∷ ("EXPIRY_DATE", expiry_text h (result.authorization).expiry_date)
      ∷ []))

-- `if mode == safety.DryRun { return renderSnapshot(...) }`
unfoldable pub guarded_command : Host → Mode → String → Snapshot → Command → Command
unfolding render_snapshot
guarded_command h dry_run format preview real = render_snapshot h format preview
guarded_command h execute format preview real = real

unfoldable pub start_transaction : Host → List String → Command
unfolding parse_flags start_plan resolve_mode start_preview guarded_command on_station
    answer_command Operations.start_transaction start_shown
start_transaction h args = after (parse_flags h "start-transaction" args) λ g.
    after (start_plan h g) λ plan. after (resolve_mode h g) λ mode.
      let request = plan.request in
      guarded_command h mode plan.format (start_preview h request) (
        on_station h plan.cfg (
          answer_command h plan.format (Call.start_transaction request)
            (Operations.start_transaction h.texts h.central request) (start_shown h)))

unfoldable pub stop_plan : Host → Given → Outcome (Plan StopTransactionRequest)
unfolding resolve_common config_failure parse_timestamp valid_stop_reason
stop_plan h g = do
  let transaction_id = or_default (g.ints "transaction-id") (negsuc 0)
  let meter_stop = or_default (g.ints "meter-stop") (negsuc 0)
  let id_tag = or_default (g.texts "id-tag") ""
  let reason = or_default (g.texts "reason") "Local"
  refuse_when (is_negative transaction_id)
      (config_failure h "transaction-id is required and must be zero or greater")
  refuse_when (is_negative meter_stop)
      (config_failure h "meter-stop is required and must be zero or greater")
  refuse_when (ltb 20 (byte_length id_tag))
      (config_failure h "id-tag must not exceed 20 characters")
  refuse_when (not (valid_stop_reason reason))
      (config_failure h ("invalid reason " ++ h.quote reason))
  timestamp ← parse_timestamp h (or_default (g.texts "timestamp") "now")
  common ← resolve_common h g
  got (record {
    cfg = common.0;
    format = common.1;
    request = record {
      transaction_id = transaction_id;
      meter_stop = meter_stop;
      id_tag = id_tag;
      reason = reason;
      timestamp = timestamp;
    };
  })

unfoldable pub stop_preview : Host → StopTransactionRequest → Snapshot
unfolding key_value_snapshot
stop_preview h request =
    let mode = h.mode_text dry_run in
    key_value_snapshot
      (Value.fields (
        ("mode", text mode)
        ∷ ("action", text "StopTransaction")
        ∷ ("transaction_id", number request.transaction_id)
        ∷ ("meter_stop", number request.meter_stop)
        ∷ ("reason", text request.reason)
        ∷ []))
      (("MODE", mode)
        ∷ ("ACTION", "StopTransaction")
        ∷ ("TRANSACTION_ID", h.itoa request.transaction_id)
        ∷ ("METER_STOP", h.itoa request.meter_stop)
        ∷ ("REASON", request.reason)
        ∷ [])

abbrev status_or_blank : Option AuthorizationResult → String
status_or_blank none = ""
status_or_blank (some auth) = auth.status

unfoldable pub stop_shown : Host → StopTransactionRequest → StopTransactionResult → Outcome Snapshot
unfolding key_value_snapshot
stop_shown h request result = got (
    key_value_snapshot (Value.stopped result) (
      ("STOPPED", "true")
      ∷ ("TRANSACTION_ID", h.itoa request.transaction_id)
      ∷ ("AUTHORIZATION_STATUS", status_or_blank result.authorization)
      ∷ []))

unfoldable pub stop_transaction : Host → List String → Command
unfolding parse_flags stop_plan resolve_mode stop_preview guarded_command on_station answer_command
    Operations.stop_transaction stop_shown
stop_transaction h args = after (parse_flags h "stop-transaction" args) λ g.
    after (stop_plan h g) λ plan. after (resolve_mode h g) λ mode.
      let request = plan.request in
      guarded_command h mode plan.format (stop_preview h request) (
        on_station h plan.cfg (
          answer_command h plan.format (Call.stop_transaction request)
            (Operations.stop_transaction h.texts h.central request) (stop_shown h request)))
