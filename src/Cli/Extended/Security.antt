-- ===== src/Cli/Extended/Security.antt =====
-- internal/cli/commands_extended.go: the commands of the security extension.
use Prim.Native.String.{◌++◌}
use ocpp_cli.Prelude.{
  ℤ, negsuc, String, true, not, ◌&&◌, Option, none, some, List, [], ◌∷◌, str_eq, ltb,
}
use ocpp_cli.Startup.{is_negative}
use ocpp_cli.Text.{byte_length, trim_space}
use ocpp_cli.Errors.{Outcome, got, ◌>>=◌, ◌>>◌, refuse_when}
use ocpp_cli.Client.Types.{
  Call, SecurityEventRequest, LogStatusRequest, SignedFirmwareStatusRequest, SignCertificateRequest,
  SignCertificateResult,
}
use ocpp_cli.Client.Operations as Operations
use ocpp_cli.Cli.{Host, Value, text, number, optional_number, flag, Command, config_failure}
use ocpp_cli.Cli.Flags.{or_default, parse_flags, resolve_common}
use ocpp_cli.Cli.Render.{Snapshot, key_value_snapshot, format_time}
use ocpp_cli.Cli.Words.{valid_log_status, valid_signed_firmware_status, parse_timestamp}
use ocpp_cli.Cli.Connection.{after, on_station, answer_command, notice_command}
use ocpp_cli.Cli.Station.{Plan, blank_or_longer}
use ocpp_cli.Cli.Meter.{if_given}
use ocpp_cli.Cli.Extended.{read_or_fail}

unfoldable pub security_plan : Host → List String → Outcome (Plan SecurityEventRequest)
unfolding parse_flags resolve_common config_failure parse_timestamp
security_plan h args = do
  g ← parse_flags h "security-event" args
  let kind = or_default (g.texts "type") ""
  let tech_info = or_default (g.texts "tech-info") ""
  refuse_when (blank_or_longer 50 kind)
      (config_failure h "type is required and must not exceed 50 characters")
  refuse_when (ltb 255 (byte_length tech_info))
      (config_failure h "tech-info must not exceed 255 characters")
  timestamp ← parse_timestamp h (or_default (g.texts "timestamp") "now")
  common ← resolve_common h g
  got (record {
    cfg = common.0;
    format = common.1;
    request = record { kind = kind; tech_info = tech_info; timestamp = timestamp };
  })

unfoldable pub security_event : Host → List String → Command
unfolding security_plan on_station notice_command Operations.security_event_notification
    key_value_snapshot format_time
security_event h args = after (security_plan h args) λ plan. on_station h plan.cfg (
    let request = plan.request in
    let event_time = format_time h request.timestamp in
    notice_command h plan.format (Call.security_event request)
      (Operations.security_event_notification h.texts h.central request)
      (key_value_snapshot
        (Value.fields (
          ("sent", flag true)
          ∷ ("action", text "SecurityEventNotification")
          ∷ ("type", text request.kind)
          ∷ ("timestamp", text event_time)
          ∷ []))
        (("SENT", "true")
          ∷ ("ACTION", "SecurityEventNotification")
          ∷ ("TYPE", request.kind)
          ∷ ("TIMESTAMP", event_time)
          ∷ [])))

unfoldable pub log_plan : Host → List String → Outcome (Plan LogStatusRequest)
unfolding parse_flags resolve_common config_failure valid_log_status
log_plan h args = do
  g ← parse_flags h "log-status" args
  let status = or_default (g.texts "status") ""
  let request_id = or_default (g.ints "request-id") (negsuc 0)
  refuse_when (not (valid_log_status status))
      (config_failure h ("invalid log status " ++ h.quote status))
  refuse_when (is_negative request_id)
      (config_failure h "request-id is required and must be zero or greater")
  common ← resolve_common h g
  got (record {
    cfg = common.0;
    format = common.1;
    request = record { status = status; request_id = request_id };
  })

unfoldable pub log_status : Host → List String → Command
unfolding log_plan on_station notice_command Operations.log_status_notification key_value_snapshot
log_status h args = after (log_plan h args) λ plan. on_station h plan.cfg (
    let request = plan.request in
    notice_command h plan.format (Call.log_status request)
      (Operations.log_status_notification h.texts h.central request)
      (key_value_snapshot
        (Value.fields (
          ("sent", flag true)
          ∷ ("action", text "LogStatusNotification")
          ∷ ("status", text request.status)
          ∷ ("request_id", number request.request_id)
          ∷ []))
        (("SENT", "true")
          ∷ ("ACTION", "LogStatusNotification")
          ∷ ("STATUS", request.status)
          ∷ ("REQUEST_ID", h.itoa request.request_id)
          ∷ [])))

unfoldable pub signed_plan : Host → List String → Outcome (Plan SignedFirmwareStatusRequest)
unfolding parse_flags resolve_common config_failure valid_signed_firmware_status
signed_plan h args = do
  g ← parse_flags h "signed-firmware-status" args
  let status = or_default (g.texts "status") ""
  refuse_when (not (valid_signed_firmware_status status))
      (config_failure h ("invalid signed firmware status " ++ h.quote status))
  common ← resolve_common h g
  got (record {
    cfg = common.0;
    format = common.1;
    request = record {
      status = status;
      request_id = if_given (or_default (g.ints "request-id") (negsuc 0));
    };
  })

abbrev itoa_or_blank : Host → Option ℤ → String
itoa_or_blank h none = ""
itoa_or_blank h (some n) = h.itoa n

unfoldable pub signed_firmware_status : Host → List String → Command
unfolding signed_plan on_station notice_command Operations.signed_firmware_status_notification
    key_value_snapshot
signed_firmware_status h args = after (signed_plan h args) λ plan. on_station h plan.cfg (
    let request = plan.request in
    notice_command h plan.format (Call.signed_firmware_status request)
      (Operations.signed_firmware_status_notification h.texts h.central request)
      (key_value_snapshot
        (Value.fields (
          ("sent", flag true)
          ∷ ("action", text "SignedFirmwareStatusNotification")
          ∷ ("status", text request.status)
          ∷ ("request_id", optional_number request.request_id)
          ∷ []))
        (("SENT", "true")
          ∷ ("ACTION", "SignedFirmwareStatusNotification")
          ∷ ("STATUS", request.status)
          ∷ ("REQUEST_ID", itoa_or_blank h request.request_id)
          ∷ [])))

unfoldable pub sign_plan : Host → List String → Outcome (Plan SignCertificateRequest)
unfolding parse_flags resolve_common config_failure read_or_fail trim_space
sign_plan h args = do
  g ← parse_flags h "sign-certificate" args
  let csr_file = or_default (g.texts "csr-file") ""
  let certificate_type = or_default (g.texts "certificate-type") "ChargingStationCertificate"
  refuse_when (str_eq csr_file "") (config_failure h "csr-file is required")
  refuse_when
      (not (str_eq certificate_type "")
        && not (str_eq certificate_type "ChargingStationCertificate"))
      (config_failure h ("unsupported certificate-type " ++ h.quote certificate_type))
  csr ← read_or_fail h "CSR" csr_file
  let csr_text = trim_space (h.text_of_bytes csr)
  refuse_when (blank_or_longer 5500 csr_text)
      (config_failure h "CSR must contain 1 to 5500 characters")
  common ← resolve_common h g
  got (record {
    cfg = common.0;
    format = common.1;
    request = record { csr = csr_text; certificate_type = certificate_type };
  })

unfoldable pub sign_certificate : Host → List String → Command
unfolding sign_plan on_station answer_command Operations.sign_certificate key_value_snapshot
sign_certificate h args = after (sign_plan h args) λ plan. on_station h plan.cfg (
    answer_command h plan.format (Call.sign_certificate plan.request)
      (Operations.sign_certificate h.texts h.central plan.request) shown)
  where
    shown : SignCertificateResult → Outcome Snapshot
    shown result = got (key_value_snapshot (Value.signed result) (("STATUS", result.status) ∷ []))
