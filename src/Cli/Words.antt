-- ===== src/Cli/Words.antt =====
-- internal/cli/helpers.go: the words that a flag may have, and `parseTimestamp`.
use Prim.Native.String.{◌++◌}
use ocpp_cli.Prelude.{
  ℕ, String, Bool, ◌||◌, Option, none, some, List, [], ◌∷◌, any, str_eq, if◌then◌else◌,
}
use ocpp_cli.Errors.{Outcome, got, lost}
use ocpp_cli.Cli.{Host, config_failure}

abbrev pub is_in : String → List String → Bool
is_in value allowed = any (str_eq value) allowed

unfoldable pub valid_status : String → Bool
valid_status value = is_in value (
    "Available" ∷ "Preparing" ∷ "Charging" ∷ "SuspendedEVSE" ∷ "SuspendedEV" ∷ "Finishing"
    ∷ "Reserved" ∷ "Unavailable" ∷ "Faulted" ∷ [])

unfoldable pub valid_error_code : String → Bool
valid_error_code value = is_in value (
    "ConnectorLockFailure" ∷ "EVCommunicationError" ∷ "GroundFailure" ∷ "HighTemperature"
    ∷ "InternalError" ∷ "LocalListConflict" ∷ "NoError" ∷ "OtherError" ∷ "OverCurrentFailure"
    ∷ "OverVoltage" ∷ "PowerMeterFailure" ∷ "PowerSwitchFailure" ∷ "ReaderFailure" ∷ "ResetFailure"
    ∷ "UnderVoltage" ∷ "WeakSignal" ∷ [])

unfoldable pub valid_measurand : String → Bool
valid_measurand value = is_in value (
    "Current.Export" ∷ "Current.Import" ∷ "Current.Offered" ∷ "Energy.Active.Export.Register"
    ∷ "Energy.Active.Import.Register" ∷ "Energy.Reactive.Export.Register"
    ∷ "Energy.Reactive.Import.Register" ∷ "Energy.Active.Export.Interval"
    ∷ "Energy.Active.Import.Interval" ∷ "Energy.Reactive.Export.Interval"
    ∷ "Energy.Reactive.Import.Interval" ∷ "Frequency" ∷ "Power.Active.Export"
    ∷ "Power.Active.Import" ∷ "Power.Factor" ∷ "Power.Offered" ∷ "Power.Reactive.Export"
    ∷ "Power.Reactive.Import" ∷ "RPM" ∷ "SoC" ∷ "Temperature" ∷ "Voltage" ∷ [])

unfoldable pub valid_unit : String → Bool
valid_unit value = is_in value (
    "Wh" ∷ "kWh" ∷ "varh" ∷ "kvarh" ∷ "W" ∷ "kW" ∷ "VA" ∷ "kVA" ∷ "var" ∷ "kvar" ∷ "A" ∷ "V"
    ∷ "Celsius" ∷ "Fahrenheit" ∷ "K" ∷ "Percent" ∷ [])

unfoldable pub valid_reading_context : String → Bool
valid_reading_context value = is_in value (
    "Interruption.Begin" ∷ "Interruption.End" ∷ "Other" ∷ "Sample.Clock" ∷ "Sample.Periodic"
    ∷ "Transaction.Begin" ∷ "Transaction.End" ∷ "Trigger" ∷ [])

unfoldable pub valid_location : String → Bool
valid_location value =
    str_eq value "" || (is_in value ("Body" ∷ "Cable" ∷ "EV" ∷ "Inlet" ∷ "Outlet" ∷ []))

unfoldable pub valid_phase : String → Bool
valid_phase value =
    str_eq value ""
    || (is_in value
        ("L1" ∷ "L2" ∷ "L3" ∷ "N" ∷ "L1-N" ∷ "L2-N" ∷ "L3-N" ∷ "L1-L2" ∷ "L2-L3" ∷ "L3-L1" ∷ []))

unfoldable pub valid_stop_reason : String → Bool
valid_stop_reason value = is_in value (
    "DeAuthorized" ∷ "EmergencyStop" ∷ "EVDisconnected" ∷ "HardReset" ∷ "Local" ∷ "Other"
    ∷ "PowerLoss" ∷ "Reboot" ∷ "Remote" ∷ "SoftReset" ∷ "UnlockCommand" ∷ [])

unfoldable pub valid_diagnostics_status : String → Bool
valid_diagnostics_status value =
    is_in value ("Idle" ∷ "Uploaded" ∷ "UploadFailed" ∷ "Uploading" ∷ [])

unfoldable pub valid_firmware_status : String → Bool
valid_firmware_status value = is_in value (
    "Downloaded" ∷ "DownloadFailed" ∷ "Downloading" ∷ "Idle" ∷ "InstallationFailed" ∷ "Installing"
    ∷ "Installed" ∷ [])

unfoldable pub valid_log_status : String → Bool
valid_log_status value = is_in value (
    "BadMessage" ∷ "Idle" ∷ "NotSupportedOperation" ∷ "PermissionDenied" ∷ "Uploaded"
    ∷ "UploadFailure" ∷ "Uploading" ∷ [])

unfoldable pub valid_signed_firmware_status : String → Bool
valid_signed_firmware_status value = is_in value (
    "Downloaded" ∷ "DownloadFailed" ∷ "Downloading" ∷ "DownloadScheduled" ∷ "DownloadPaused"
    ∷ "Idle" ∷ "InstallationFailed" ∷ "Installing" ∷ "Installed" ∷ "InstallRebooting"
    ∷ "InstallScheduled" ∷ "InstallVerificationFailed" ∷ "InvalidSignature" ∷ "SignatureVerified"
    ∷ [])

-- `now` is `time.Now().UTC()`.
unfoldable pub parse_timestamp : Host → String → Outcome (Option ℕ)
unfolding config_failure
parse_timestamp h value =
    if str_eq value "" || h.equal_fold value "now" then got h.now else elim (h.parse_time value) [
      | some at ↦ got at
      | none ↦
          lost (config_failure h ("invalid timestamp " ++ h.quote value ++ ": use RFC3339 or now"))
    ]
