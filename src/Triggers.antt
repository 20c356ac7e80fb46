-- ===== src/Triggers.antt =====
-- simulator_optional_profiles.go: `OnTriggerMessage` and `executeTrigger`;
-- simulator_security_extensions.go: `OnExtendedTriggerMessage` and `executeExtendedTrigger`.
use ocpp_cli.Prelude.{
  ℤ, Bool, true, false, ◌&&◌, not, Option, none, some, List, [], ◌∷◌, is_pos, is_some,
  if◌then◌else◌,
}
use ocpp_cli.Prelude.Int.{int_eq}
use ocpp_cli.Prelude.Maps.{get}
use ocpp_cli.Ocpp.{Trigger, Word, Action, Piece, lit, of_trigger, inbound, outbound}
use ocpp_cli.Station.{Simulator, BootResult, Env, Task, Answer, Message}
use ocpp_cli.Station.Emit.{emit, spawn, send}
use ocpp_cli.Firmware.{send_diagnostics_status, send_firmware_status}
use ocpp_cli.Logs.{send_log_status}
use ocpp_cli.Telemetry.{
  report, send_boot_notification, send_heartbeat, send_triggered_statuses,
  send_triggered_meter_values,
}

-- `request.ConnectorId != nil && *request.ConnectorId > 0` and no such connector.
abbrev pub names_unknown : Option ℤ → Simulator → Bool
names_unknown none s = false
names_unknown (some id) s = is_pos id && not (is_some (get id s.connectors))

abbrev pub trigger_supported : Trigger → Bool
trigger_supported Trigger.boot_notification = true
trigger_supported Trigger.heartbeat = true
trigger_supported Trigger.meter_values = true
trigger_supported Trigger.status_notification = true
trigger_supported Trigger.diagnostics_status_notification = true
trigger_supported Trigger.firmware_status_notification = true
trigger_supported _ = false

abbrev pub extended_trigger_supported : Trigger → Bool
extended_trigger_supported Trigger.boot_notification = true
extended_trigger_supported Trigger.heartbeat = true
extended_trigger_supported Trigger.meter_values = true
extended_trigger_supported Trigger.status_notification = true
extended_trigger_supported Trigger.firmware_status_notification = true
extended_trigger_supported Trigger.log_status_notification = true
extended_trigger_supported Trigger.sign_charging_station_certificate = true
extended_trigger_supported _ = false

-- The later test overrides the earlier one.
unfoldable pub trigger_decision : Bool → Option ℤ → Simulator → Word
trigger_decision supported id s =
    if not supported
    then Word.not_implemented
    else if names_unknown id s
    then Word.rejected
    else Word.accepted

abbrev pub is_accepted : Word → Bool
is_accepted Word.accepted = true
is_accepted _ = false

unfoldable pub on_trigger_message : Env → Trigger → Option ℤ → Simulator → Simulator × Word
unfolding trigger_decision emit
on_trigger_message env message id s =
    let status = trigger_decision (trigger_supported message) id s in
    let s' = emit env inbound Action.trigger_message status id (of_trigger message ∷ []) s in
    (if is_accepted status && env.connected then spawn (Task.trigger message id) s' else s', status)

unfoldable pub on_extended_trigger_message : Env → Trigger → Option ℤ → Simulator → Simulator × Word
unfolding trigger_decision emit
on_extended_trigger_message env message id s =
    let status = trigger_decision (extended_trigger_supported message) id s in
    let s' =
      emit env inbound Action.extended_trigger_message status id (of_trigger message ∷ []) s in
    (
      if is_accepted status && env.connected
          then spawn (Task.extended_trigger message id) s'
          else s',
      status,
    )

-- `boot` is the central system's answer to a boot notification, `time` the text of a heartbeat's.
unfoldable pub execute_trigger :
    Env → Answer BootResult → List Piece → Trigger → Option ℤ → Simulator → Option Simulator
unfolding report send_boot_notification send_heartbeat send_triggered_statuses
    send_triggered_meter_values send_diagnostics_status send_firmware_status
execute_trigger env boot time Trigger.boot_notification id s =
    some (report env Trigger.boot_notification id (send_boot_notification env boot s))
execute_trigger env boot time Trigger.heartbeat id s =
    some (report env Trigger.heartbeat id (send_heartbeat env time s))
execute_trigger env boot time Trigger.status_notification id s =
    some (send_triggered_statuses env id s)
execute_trigger env boot time Trigger.meter_values id s =
    some (send_triggered_meter_values env id s)
execute_trigger env boot time Trigger.diagnostics_status_notification id s = some (
    report env Trigger.diagnostics_status_notification id
      (send_diagnostics_status env s.diagnostics_status s))
execute_trigger env boot time Trigger.firmware_status_notification id s = some (
    report env Trigger.firmware_status_notification id
      (send_firmware_status env s.firmware_status s))
execute_trigger env boot time _ id s = some s

-- `has_csr` says whether the signing request could be made.
unfoldable pub send_signing_request : Env → Bool → Simulator → Simulator × Bool
unfolding emit
send_signing_request env has_csr s =
    let s' = send Message.sign_certificate s in
    if not has_csr
    then (s, false)
    else if env.answers Message.sign_certificate
    then (
      emit env outbound Action.sign_certificate Word.sent none
          (lit "generated ECDSA P-256 CSR" ∷ []) s',
      true,
    )
    else (s', false)

unfoldable pub execute_extended_trigger :
    Env → Answer BootResult → List Piece → Bool → Trigger → Option ℤ → Simulator → Option Simulator
unfolding report send_boot_notification send_heartbeat send_triggered_statuses
    send_triggered_meter_values send_firmware_status send_log_status send_signing_request
execute_extended_trigger env boot time has_csr Trigger.boot_notification id s =
    some (report env Trigger.boot_notification id (send_boot_notification env boot s))
execute_extended_trigger env boot time has_csr Trigger.heartbeat id s =
    some (report env Trigger.heartbeat id (send_heartbeat env time s))
execute_extended_trigger env boot time has_csr Trigger.meter_values id s =
    some (send_triggered_meter_values env id s)
execute_extended_trigger env boot time has_csr Trigger.status_notification id s =
    some (send_triggered_statuses env id s)
execute_extended_trigger env boot time has_csr Trigger.firmware_status_notification id s = some (
    report env Trigger.firmware_status_notification id
      (send_firmware_status env s.firmware_status s))
execute_extended_trigger env boot time has_csr Trigger.log_status_notification id s = some (
    report env Trigger.log_status_notification id
      (send_log_status env s.active_log_request_id s.log_status s))
execute_extended_trigger env boot time has_csr Trigger.sign_charging_station_certificate id s =
    some
      (report env Trigger.sign_charging_station_certificate id (send_signing_request env has_csr s))
execute_extended_trigger env boot time has_csr _ id s = some s
