-- ===== src/Cli/Station.antt =====
-- internal/cli/commands_station.go. The plan of a command is what it reads from the flags before it
-- connects, guards included, in the order of the source.
use Prim.Native.String.{◌++◌}
use ocpp_cli.Prelude.{
  pos, ℕ, String, Bool, true, ◌||◌, not, Option, none, some, List, [], ◌∷◌, str_eq, ltb,
  if◌then◌else◌,
}
use ocpp_cli.Startup.{is_negative}
use ocpp_cli.Text.{byte_length}
use ocpp_cli.Config.{ClientConfig}
use ocpp_cli.Errors.{Outcome, got, ◌>>=◌, ◌>>◌, refuse_when}
use ocpp_cli.Client.Types.{Call, BootRequest, BootResult, AuthorizationResult, StatusRequest}
use ocpp_cli.Client.Operations as Operations
use ocpp_cli.Cli.{Host, Given, Value, text, number, flag, Command, config_failure}
use ocpp_cli.Cli.Flags.{or_default, was_set, parse_flags, resolve_common}
use ocpp_cli.Cli.Render.{Snapshot, key_value_snapshot, format_time}
use ocpp_cli.Cli.Words.{valid_status, valid_error_code, parse_timestamp}
use ocpp_cli.Cli.Connection.{after, on_station, answer_command, notice_command}

-- The resolved configuration, the output format, and what the command asks for.
pub record Plan (R : Type 0) : Type 0 where
  pub cfg : ClientConfig
  pub format : String
  pub request : R

-- `if !wasSet(fs, name) { *value = fallback }`
unfoldable pub or_config : Given → String → String → String
unfolding was_set
or_config g name fallback = if was_set g name then or_default (g.texts name) "" else fallback

abbrev pub blank_or_longer : ℕ → String → Bool
blank_or_longer n s = str_eq s "" || ltb n (byte_length s)

unfoldable pub boot_plan : Host → List String → Outcome (Plan BootRequest)
unfolding parse_flags resolve_common or_config config_failure
boot_plan h args = do
  g ← parse_flags h "boot-notification" args
  common ← resolve_common h g
  let cfg = common.0
  let model = or_config g "model" cfg.charge_point_model
  let vendor = or_config g "vendor" cfg.charge_point_vendor
  let firmware = or_config g "firmware-version" cfg.firmware_version
  let serial = or_config g "serial-number" cfg.serial_number
  let meter_serial = or_config g "meter-serial-number" cfg.meter_serial_number
  let meter_type = or_config g "meter-type" cfg.meter_type
  refuse_when (blank_or_longer 20 model)
      (config_failure h "model is required and must not exceed 20 characters")
  refuse_when (blank_or_longer 20 vendor)
      (config_failure h "vendor is required and must not exceed 20 characters")
  refuse_when
      (ltb 50 (byte_length firmware)
        || (ltb 25 (byte_length serial)
            || (ltb 25 (byte_length meter_serial) || ltb 25 (byte_length meter_type))))
      (config_failure h "boot metadata exceeds OCPP 1.6 field limits")
  got (record {
    cfg = cfg;
    format = common.1;
    request = record {
      model = model;
      vendor = vendor;
      firmware_version = firmware;
      serial_number = serial;
      meter_serial_number = meter_serial;
      meter_type = meter_type;
    };
  })

unfoldable pub boot_notification : Host → List String → Command
unfolding boot_plan on_station answer_command Operations.boot key_value_snapshot format_time
boot_notification h args = after (boot_plan h args) λ plan. on_station h plan.cfg (
    answer_command h plan.format (Call.boot_notification plan.request)
      (Operations.boot h.texts h.central plan.request) shown)
  where
    shown : BootResult → Outcome Snapshot
    shown result = got (
        key_value_snapshot (Value.boot result) (
          ("STATUS", result.status)
          ∷ ("INTERVAL_SECONDS", h.itoa result.interval)
          ∷ ("CURRENT_TIME", format_time h result.current_time)
          ∷ []))

unfoldable pub heartbeat_plan : Host → List String → Outcome (Plan (Unit {0}))
unfolding parse_flags resolve_common
heartbeat_plan h args = do
  g ← parse_flags h "heartbeat" args
  common ← resolve_common h g
  got (record { cfg = common.0; format = common.1; request = tt })

unfoldable pub heartbeat : Host → List String → Command
unfolding heartbeat_plan on_station notice_command Operations.heartbeat key_value_snapshot
    format_time
heartbeat h args = after (heartbeat_plan h args) λ plan. on_station h plan.cfg (
    let answer = Operations.heartbeat h.texts h.central in
    notice_command h plan.format Call.heartbeat answer.1 (
      key_value_snapshot (Value.heartbeat answer.0)
        (("CURRENT_TIME", format_time h (answer.0).current_time) ∷ [])))

unfoldable pub authorize_plan : Host → List String → Outcome (Plan String)
unfolding parse_flags resolve_common config_failure
authorize_plan h args = do
  g ← parse_flags h "authorize" args
  let id_tag = or_default (g.texts "id-tag") ""
  refuse_when (blank_or_longer 20 id_tag)
      (config_failure h "id-tag is required and must not exceed 20 characters")
  common ← resolve_common h g
  got (record { cfg = common.0; format = common.1; request = id_tag })

-- `if expiry != nil { formatTime(*expiry) }`
unfoldable pub expiry_text : Host → Option (Option ℕ) → String
unfolding format_time
expiry_text h none = ""
expiry_text h (some at) = format_time h at

unfoldable pub authorize : Host → List String → Command
unfolding authorize_plan on_station answer_command Operations.authorize key_value_snapshot
    expiry_text
authorize h args = after (authorize_plan h args) λ plan. on_station h plan.cfg (
    answer_command h plan.format (Call.authorize plan.request)
      (Operations.authorize h.texts h.central plan.request) shown)
  where
    shown : AuthorizationResult → Outcome Snapshot
    shown result = got (
        key_value_snapshot (Value.authorization result) (
          ("STATUS", result.status)
          ∷ ("EXPIRY_DATE", expiry_text h result.expiry_date)
          ∷ ("PARENT_ID_TAG", result.parent_id_tag)
          ∷ []))

unfoldable pub status_plan : Host → List String → Outcome (Plan StatusRequest)
unfolding parse_flags resolve_common config_failure parse_timestamp valid_status valid_error_code
status_plan h args = do
  g ← parse_flags h "status-notification" args
  let connector = or_default (g.ints "connector") (pos 0)
  let status = or_default (g.texts "status") "Available"
  let error_code = or_default (g.texts "error-code") "NoError"
  let info = or_default (g.texts "info") ""
  let vendor_id = or_default (g.texts "vendor-id") ""
  let vendor_error = or_default (g.texts "vendor-error-code") ""
  refuse_when (is_negative connector) (config_failure h "connector must be zero or greater")
  refuse_when (not (valid_status status)) (config_failure h (invalid "status " status))
  refuse_when (not (valid_error_code error_code))
      (config_failure h (invalid "error-code " error_code))
  refuse_when
      (ltb 50 (byte_length info)
        || (ltb 255 (byte_length vendor_id) || ltb 50 (byte_length vendor_error)))
      (config_failure h "status metadata exceeds OCPP 1.6 field limits")
  timestamp ← parse_timestamp h (or_default (g.texts "timestamp") "now")
  common ← resolve_common h g
  got (record {
    cfg = common.0;
    format = common.1;
    request = record {
      connector_id = connector;
      status = status;
      error_code = error_code;
      info = info;
      vendor_id = vendor_id;
      vendor_error_code = vendor_error;
      timestamp = timestamp;
    };
  })
  where
    invalid : String → String → String
    invalid what value = "invalid " ++ what ++ h.quote value

unfoldable pub status_notification : Host → List String → Command
unfolding status_plan on_station notice_command Operations.status_notification key_value_snapshot
status_notification h args = after (status_plan h args) λ plan. on_station h plan.cfg (
    let request = plan.request in
    notice_command h plan.format (Call.status_notification request)
      (Operations.status_notification h.texts h.central request)
      (key_value_snapshot
        (Value.fields (
          ("sent", flag true)
          ∷ ("action", text "StatusNotification")
          ∷ ("connector_id", number request.connector_id)
          ∷ ("status", text request.status)
          ∷ []))
        (("SENT", "true")
          ∷ ("ACTION", "StatusNotification")
          ∷ ("CONNECTOR_ID", h.itoa request.connector_id)
          ∷ ("STATUS", request.status)
          ∷ [])))
