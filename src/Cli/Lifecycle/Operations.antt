-- ===== src/Cli/Lifecycle/Operations.antt =====
-- Every operation of a station gives its connection back.
use ocpp_cli.Prelude.{String, List, All}
use ocpp_cli.Prelude.Int.{string_eq}
use ocpp_cli.Cli.{Host}
use ocpp_cli.Cli.Station as Station
use ocpp_cli.Cli.Meter as Meter
use ocpp_cli.Cli.Extended as Extended
use ocpp_cli.Cli.Extended.Security as Security
use ocpp_cli.Cli.App.{Handler, send_operations}
use ocpp_cli.Cli.Traces.{
  Settled, after-Settled, on_station-Settled, answer_command-live, notice_command-live,
  guarded_command-Settled,
}

ruleset settles = (
  after-Settled, on_station-Settled, answer_command-live, notice_command-live,
  guarded_command-Settled,
)

abbrev pub Releases : Handler → Type 0
Releases handler = (h : Host) (args : List String) → Settled (handler h args)

boot_notification-Releases : Releases Station.boot_notification
unfolding Station.boot_notification
boot_notification-Releases h args = search settles

heartbeat-Releases : Releases Station.heartbeat
unfolding Station.heartbeat
heartbeat-Releases h args = search settles

authorize-Releases : Releases Station.authorize
unfolding Station.authorize
authorize-Releases h args = search settles

status_notification-Releases : Releases Station.status_notification
unfolding Station.status_notification
status_notification-Releases h args = search settles

meter_values-Releases : Releases Meter.meter_values
unfolding Meter.meter_values
meter_values-Releases h args = search settles

start_transaction-Releases : Releases Meter.start_transaction
unfolding Meter.start_transaction
start_transaction-Releases h args = search settles depth 8

stop_transaction-Releases : Releases Meter.stop_transaction
unfolding Meter.stop_transaction
stop_transaction-Releases h args = search settles depth 8

data_transfer-Releases : Releases Extended.data_transfer
unfolding Extended.data_transfer
data_transfer-Releases h args = search settles

diagnostics_status-Releases : Releases Extended.diagnostics_status
unfolding Extended.diagnostics_status Extended.send_status_only
diagnostics_status-Releases h args = search settles

firmware_status-Releases : Releases Extended.firmware_status
unfolding Extended.firmware_status Extended.send_status_only
firmware_status-Releases h args = search settles

security_event-Releases : Releases Security.security_event
unfolding Security.security_event
security_event-Releases h args = search settles

log_status-Releases : Releases Security.log_status
unfolding Security.log_status
log_status-Releases h args = search settles

signed_firmware_status-Releases : Releases Security.signed_firmware_status
unfolding Security.signed_firmware_status
signed_firmware_status-Releases h args = search settles

sign_certificate-Releases : Releases Security.sign_certificate
unfolding Security.sign_certificate
sign_certificate-Releases h args = search settles

pub send_operations-Releases : All (λ entry. Releases entry.1) send_operations
send_operations-Releases = (
  boot_notification-Releases,
  (
    heartbeat-Releases,
    (
      authorize-Releases,
      (
        status_notification-Releases,
        (
          meter_values-Releases,
          (
            start_transaction-Releases,
            (
              stop_transaction-Releases,
              (
                data_transfer-Releases,
                (
                  diagnostics_status-Releases,
                  (
                    firmware_status-Releases,
                    (
                      security_event-Releases,
                      (
                        log_status-Releases,
                        (signed_firmware_status-Releases, (sign_certificate-Releases, tt)),
                      ),
                    ),
                  ),
                ),
              ),
            ),
          ),
        ),
      ),
    ),
  ),
)
