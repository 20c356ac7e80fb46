-- ===== src/Station.antt =====
-- internal/ocppclient/simulator.go, simulator_types.go and the state types of
-- simulator_optional_profiles.go: the state of a simulated charge point.
-- An instant is a number of nanoseconds; a pointer to a value that the code only reads is the value.
pub mod Emit
use ocpp_cli.Prelude.{ℤ, ℕ, String, Bool, Option, List, pos}
use ocpp_cli.Prelude.Maps.{Map}
use ocpp_cli.Ocpp.{
  AvailabilityType, ChargePointStatus, AuthorizationStatus, DiagnosticsStatus, FirmwareStatus,
  UploadLogStatus, SignedFirmwareStatus, Purpose, RateUnit, Trigger, Word, Direction, Action, Piece,
}

pub record Connector : Type 0 where
  pub availability : AvailabilityType
  pub status : ChargePointStatus
  pub transaction_id : ℤ
  pub id_tag : String
  pub meter : ℤ

pub record Reservation : Type 0 where
  pub connector_id : ℤ
  pub id_tag : String
  pub parent_id_tag : String
  pub expiry : ℕ

-- A limit is in tenths, the precision that OCPP gives it.
pub record Period : Type 0 where
  pub start_period : ℤ
  pub limit : ℕ

pub record Schedule : Type 0 where
  pub duration : Option ℤ
  pub start_schedule : Option ℕ
  pub rate_unit : RateUnit
  pub periods : List Period
  pub min_charging_rate : Option ℕ

pub record ChargingProfile : Type 0 where
  pub profile_id : ℤ
  pub transaction_id : ℤ
  pub stack_level : ℤ
  pub purpose : Purpose
  pub valid_from : Option ℕ
  pub valid_to : Option ℕ
  pub schedule : Option Schedule

-- Both assignments to the map store a profile that has just been found not nil.
pub record StoredProfile : Type 0 where
  pub connector_id : ℤ
  pub profile : ChargingProfile

pub record ConfigurationKey : Type 0 where
  pub key : String
  pub readonly : Bool
  pub value : Option String

pub record IdTagInfo : Type 0 where
  pub status : AuthorizationStatus
  pub expiry_date : Option ℕ
  pub parent_id_tag : String

pub record CertificateHash : Type 0 where
  pub hash_algorithm : String
  pub issuer_name_hash : String
  pub issuer_key_hash : String
  pub serial_number : String

pub record InstalledCertificate : Type 0 where
  pub certificate_type : String
  pub hash : CertificateHash
  pub pem : String

pub record BootResult : Type 0 where
  pub status : Word
  pub interval : ℤ
  pub current_time : Option ℕ

pub record SimulatorOptions : Type 0 where
  pub connectors : ℤ
  pub heartbeat_interval : ℤ
  pub meter_interval : ℤ
  pub meter_start : ℤ
  pub meter_step : ℤ

pub record Event : Type 0 where
  pub timestamp : ℕ
  pub direction : Direction
  pub action : Action
  pub status : Word
  pub connector_id : Option ℤ
  pub detail : List Piece

-- A goroutine that a handler has started, at the point where it waits.
pub data Task : Type 0 where
  notify : ℤ → ChargePointStatus → Task
  begin_remote : ℤ → String → ℤ → Task
  authorize_remote : ℤ → String → ℤ → Task
  start_remote : ℤ → String → ℤ → Task
  confirm_start : ℤ → String → ℤ → Task
  finish_remote : ℤ → ℤ → Task
  confirm_stop : ℤ → ℤ → Task
  -- The statuses that are still to be sent.
  upload_diagnostics : List DiagnosticsStatus → Task
  update_firmware : List FirmwareStatus → Task
  upload_log : ℤ → List UploadLogStatus → Task
  update_signed_firmware : ℤ → List SignedFirmwareStatus → Task
  -- The answer to a notification that a trigger asked for: in the loop over the connectors, or of
  -- the one connector that it names.
  await_status : ℕ → ChargePointStatus → Task
  await_named_status : ℤ → ChargePointStatus → Task
  -- The answer to a sample that a trigger for the connector, or for all, asked for: the sample, and
  -- the connectors that are still to follow.
  await_sample : Option ℤ → ℤ → ℤ → ℤ → List ℤ → Task
  trigger : Trigger → Option ℤ → Task
  extended_trigger : Trigger → Option ℤ → Task

-- A request to the central system.
pub data Message : Type 0 where
  status_notification : ℤ → ChargePointStatus → Message
  authorize : String → Message
  start_transaction : ℤ → String → ℤ → Option ℤ → Message
  stop_transaction : ℤ → ℤ → String → Message
  meter_values : ℤ → ℤ → Option ℤ → Message
  diagnostics_status : DiagnosticsStatus → Message
  firmware_status : FirmwareStatus → Message
  log_status : UploadLogStatus → ℤ → Message
  signed_firmware_status : SignedFirmwareStatus → ℤ → Message
  boot_notification heartbeat sign_certificate : Message

-- `tasks` and `sent` stand for the runtime's goroutines and for the calls of `s.cp`.
pub record Simulator : Type 0 where
  pub opts : SimulatorOptions
  pub events : List Event
  pub events_closed : Bool
  pub connectors : Map ℤ Connector
  pub configuration : Map String ConfigurationKey
  pub reservations : Map ℤ Reservation
  pub local_auth_list : Map String IdTagInfo
  pub local_auth_list_version : ℤ
  pub charging_profiles : Map ℤ StoredProfile
  pub diagnostics_status : DiagnosticsStatus
  pub firmware_status : FirmwareStatus
  pub installed_certificates : Map String InstalledCertificate
  pub station_certificate_chain : String
  pub active_log_request_id : ℤ
  pub log_status : UploadLogStatus
  pub signed_firmware_request_id : ℤ
  pub signed_firmware_status : SignedFirmwareStatus
  pub last_boot : BootResult
  pub tasks : List Task
  pub sent : List Message

-- What a call reads of its surroundings: the clock, `cp.IsConnected()`, whether the central system
-- confirms a message (or fails with `error_text`), and whether the run's context is still open when
-- a timer fires.
pub record Env : Type 0 where
  pub now : ℕ
  pub connected : Bool
  pub answers : Message → Bool
  pub error_text : String
  pub open_context : Bool

-- What the central system answers: a confirmation, or an error with its text.
pub data Answer (A : Type 0) : Type 0 where
  ok : A → Answer A
  err : String → Answer A
