-- ===== src/Cli/Extended.antt =====
-- internal/cli/commands_extended.go: data transfers and the statuses of uploads and updates.
pub mod Security
use Prim.Native.String.{◌++◌}
use ocpp_cli.Prelude.{
  ℤ, pos, negsuc, ℕ, String, Bool, true, not, ◌||◌, ◌&&◌, Option, none, some, List, [], ◌∷◌, str_eq,
  ltb, if◌then◌else◌,
}
use ocpp_cli.Startup.{is_negative}
use ocpp_cli.Text.{byte_length, trim_space}
use ocpp_cli.Config.{contents}
use ocpp_cli.Errors.{Error, Outcome, got, lost, ◌>>=◌, ◌>>◌, refuse_when}
use ocpp_cli.Client.Types.{
  Json, null, Call, DataTransferRequest, DataTransferResult, SecurityEventRequest, LogStatusRequest,
  SignedFirmwareStatusRequest, SignCertificateRequest, SignCertificateResult,
}
use ocpp_cli.Client.Operations as Operations
use ocpp_cli.Cli.{Host, Value, text, number, optional_number, flag, Command, config_failure}
use ocpp_cli.Cli.Flags.{or_default, parse_flags, resolve_common}
use ocpp_cli.Cli.Render.{Snapshot, key_value_snapshot, format_time}
use ocpp_cli.Cli.Words.{
  valid_diagnostics_status, valid_firmware_status, valid_log_status, valid_signed_firmware_status,
  parse_timestamp,
}
use ocpp_cli.Cli.Connection.{after, on_station, answer_command, notice_command}
use ocpp_cli.Cli.Station.{Plan, blank_or_longer}
use ocpp_cli.Cli.Meter.{if_given}

-- `os.ReadFile`, where `what` names the file in the error.
unfoldable pub read_or_fail : Host → String → String → Outcome (List ℕ)
unfolding config_failure
read_or_fail h what path = elim ((h.parsers).read_file path) [
  | contents bytes ↦ got bytes
  | _ ↦ lost (
      config_failure h
        ("read " ++ what ++ " file " ++ h.quote path ++ ": " ++ (h.certificates).read_reason path))
]

unfoldable pub decode_json : Host → List ℕ → Outcome Json
unfolding config_failure
decode_json h raw = elim (h.unmarshal raw) [
  | some value ↦ got value
  | none ↦ lost (config_failure h ("data payload must be valid JSON: " ++ h.json_reason raw))
]

unfoldable pub parse_json_payload : Host → String → String → Outcome Json
unfolding config_failure read_or_fail decode_json
parse_json_payload h inline file =
    if not (str_eq inline "") && not (str_eq file "")
    then lost (config_failure h "use either data or data-file, not both")
    else if not (str_eq file "")
    then (read_or_fail h "data" file >>= λ raw. decode_json h raw)
    else if not (str_eq inline "")
    then decode_json h (h.bytes_of inline)
    else got null

-- `h.marshal` is `json.Marshal` with the error's text put behind "marshal data transfer response".
unfoldable pub compact_json : Host → Json → Outcome String
compact_json h null = got ""
compact_json h value = h.marshal value

unfoldable pub data_plan : Host → List String → Outcome (Plan DataTransferRequest)
unfolding parse_flags resolve_common config_failure parse_json_payload
data_plan h args = do
  g ← parse_flags h "data-transfer" args
  let vendor_id = or_default (g.texts "vendor-id") ""
  let message_id = or_default (g.texts "message-id") ""
  refuse_when (blank_or_longer 255 vendor_id)
      (config_failure h "vendor-id is required and must not exceed 255 characters")
  refuse_when (ltb 50 (byte_length message_id))
      (config_failure h "message-id must not exceed 50 characters")
  payload ←
      parse_json_payload h (or_default (g.texts "data") "") (or_default (g.texts "data-file") "")
  common ← resolve_common h g
  got (record {
    cfg = common.0;
    format = common.1;
    request = record { vendor_id = vendor_id; message_id = message_id; data_value = payload };
  })

unfoldable pub data_transfer : Host → List String → Command
unfolding data_plan on_station answer_command Operations.data_transfer key_value_snapshot
    compact_json
data_transfer h args = after (data_plan h args) λ plan. on_station h plan.cfg (
    answer_command h plan.format (Call.data_transfer plan.request)
      (Operations.data_transfer h.texts h.central plan.request) shown)
  where
    shown : DataTransferResult → Outcome Snapshot
    shown result = do
      payload ← compact_json h result.data_value
      got (
          key_value_snapshot (Value.transferred result)
            (("STATUS", result.status) ∷ ("DATA", payload) ∷ []))

-- The flag `status` of the two commands that send nothing else.
unfoldable pub status_only_plan :
    Host → String → String → (String → Bool) → List String → Outcome (Plan String)
unfolding parse_flags resolve_common config_failure
status_only_plan h name what valid args = do
  g ← parse_flags h name args
  let status = or_default (g.texts "status") ""
  refuse_when (not (valid status))
      (config_failure h ("invalid " ++ what ++ " status " ++ h.quote status))
  common ← resolve_common h g
  got (record { cfg = common.0; format = common.1; request = status })

unfoldable pub send_status_only : Host → Plan String → String → Call → Option Error → Command
unfolding on_station notice_command key_value_snapshot
send_status_only h plan action call sent_error = on_station h plan.cfg (
    notice_command h plan.format call sent_error (
      key_value_snapshot
        (Value.fields
          (("sent", flag true) ∷ ("action", text action) ∷ ("status", text plan.request) ∷ []))
        (("SENT", "true") ∷ ("ACTION", action) ∷ ("STATUS", plan.request) ∷ [])))

unfoldable pub diagnostics_status : Host → List String → Command
unfolding status_only_plan valid_diagnostics_status send_status_only
    Operations.diagnostics_status_notification
diagnostics_status h args =
    after (status_only_plan h "diagnostics-status" "diagnostics" valid_diagnostics_status args)
      λ plan.
        send_status_only h plan "DiagnosticsStatusNotification"
          (Call.diagnostics_status plan.request)
          (Operations.diagnostics_status_notification h.texts h.central plan.request)

unfoldable pub firmware_status : Host → List String → Command
unfolding status_only_plan valid_firmware_status send_status_only
    Operations.firmware_status_notification
firmware_status h args =
    after (status_only_plan h "firmware-status" "firmware" valid_firmware_status args) λ plan.
      send_status_only h plan "FirmwareStatusNotification" (Call.firmware_status plan.request)
        (Operations.firmware_status_notification h.texts h.central plan.request)
