-- ===== src/Startup.antt =====
-- simulator.go: `NewSimulator`. The WebSocket client is made before (`make_simulator` of Cli/Run), and
-- the registration of the handlers belongs to a library: the model begins after both.
pub mod Laws
use ocpp_cli.Prelude.{
  ℤ, pos, negsuc, ℕ, zero, suc, ◌+◌, ◌/◌, ◌≤◌, ◌≡◌, refl, ◌∙◌, ap, inl, inr, String, Bool, true,
  false, ◌||◌, not, Option, none, some, List, [], ◌∷◌, is_pos, rounds_of, is_some, leb_ℤ, ◌==ℤ◌,
  arith, if_rule, if◌then◌else◌, Bool-cases,
}
use ocpp_cli.Prelude.Int.{int_eq, ==ℤ_iff}
use ocpp_cli.Prelude.Maps.{Map, get}
use ocpp_cli.Ocpp.{
  operative, ChargePointStatus, DiagnosticsStatus, FirmwareStatus, UploadLogStatus,
  SignedFirmwareStatus, Word,
}
use ocpp_cli.Station.{Simulator, SimulatorOptions, Connector}
use ocpp_cli.Config.{Parsers, ClientConfig}
use ocpp_cli.Config.Validate.{validate_client_config}
use ocpp_cli.Configuration.{add_configuration}
use ocpp_cli.Invariant.{Inv, is_known}

abbrev pub is_negative : ℤ → Bool
is_negative (pos n) = false
is_negative (negsuc n) = true

unfoldable pub idle_connector : ℤ → Connector
idle_connector meter_start = record {
  availability = operative;
  status = ChargePointStatus.available;
  transaction_id = pos 0;
  id_tag = "";
  meter = meter_start;
}

-- The entries made by the rounds from `id` on.
unfoldable pub new_connectors : ℤ → ℕ → ℕ → Map ℤ Connector
unfolding idle_connector
new_connectors meter_start zero id = []
new_connectors meter_start (suc rounds) id =
    (pos id, idle_connector meter_start) ∷ new_connectors meter_start rounds (suc id)

unfoldable pub empty_simulator : SimulatorOptions → Simulator
unfolding new_connectors
empty_simulator opts = record {
  opts = opts;
  events = [];
  events_closed = false;
  connectors = new_connectors opts.meter_start (rounds_of opts.connectors) 1;
  configuration = [];
  reservations = [];
  local_auth_list = [];
  local_auth_list_version = pos 0;
  charging_profiles = [];
  diagnostics_status = DiagnosticsStatus.idle;
  firmware_status = FirmwareStatus.idle;
  installed_certificates = [];
  station_certificate_chain = "";
  active_log_request_id = pos 0;
  log_status = UploadLogStatus.idle;
  signed_firmware_request_id = pos 0;
  signed_firmware_status = SignedFirmwareStatus.idle;
  last_boot = record { status = Word.none_given; interval = pos 0; current_time = none };
  tasks = [];
  sent = [];
}

-- `int(d.Seconds())`, which is exact for every interval below 2^23 seconds.
abbrev pub seconds : ℤ → ℤ
seconds (pos n) = pos (n / 1000000000)
seconds (negsuc n) = pos 0

-- `itoa` is `strconv.Itoa`.
unfoldable pub with_configuration : (ℤ → String) → Simulator → Simulator
unfolding add_configuration
with_configuration itoa s = add_configuration "CertificateSignedMaxChainSize" "10000" true (
    add_configuration "MaxChargingProfilesInstalled" "100" true (
      add_configuration "ChargingScheduleMaxPeriods" "24" true (
        add_configuration "ChargingScheduleAllowedChargingRateUnit" "Current,Power" true (
          add_configuration "ChargeProfileMaxStackLevel" "10" true (
            add_configuration "ReserveConnectorZeroSupported" "true" true (
              add_configuration "LocalAuthListMaxLength" "1000" true (
                add_configuration "LocalAuthListEnabled" "true" false (
                  add_configuration "MeterValueSampleInterval"
                    (itoa (seconds s.opts.meter_interval)) false
                    (add_configuration "HeartbeatInterval"
                      (itoa (seconds s.opts.heartbeat_interval)) false
                      (add_configuration "AuthorizeRemoteTxRequests" "false" false (
                        add_configuration "SupportedFeatureProfiles" feature_profiles true (
                          add_configuration "NumberOfConnectors" (itoa s.opts.connectors) true
                            s))))))))))))
  where
    feature_profiles : String
    feature_profiles =
        "Core,FirmwareManagement,LocalAuthListManagement,Reservation,RemoteTrigger,SmartCharging,Security,Certificates,Log,ExtendedTriggerMessage,SecureFirmwareUpdate"

-- `none` is an error that wraps `ErrValidation`.
unfoldable pub new_simulator :
    Parsers → (ℤ → String) → ClientConfig → SimulatorOptions → Option Simulator
unfolding with_configuration empty_simulator
new_simulator p itoa cfg opts =
    if is_some (validate_client_config p cfg)
    then none
    else if not (is_pos opts.connectors)
    then none
    else if is_negative opts.heartbeat_interval || is_negative opts.meter_interval
    then none
    else if is_negative opts.meter_start || is_negative opts.meter_step
    then none
    else some (with_configuration itoa (empty_simulator opts))
