-- ===== src/Client/Types.antt =====
-- internal/ocppclient/types.go, and the confirmations of the OCPP library that operations.go reads.
-- A time is a number of nanoseconds, and the zero time is `none`.
use ocpp_cli.Prelude.{ℤ, ℕ, String, Bool, Option, List}
use ocpp_cli.Errors.{Error}

-- A Go value of type `any` that came from JSON; `null` is nil.
mutual
  pub data Json : Type 0 where
    null : Json
    bool : Bool → Json
    number : String → Json
    text : String → Json
    array : Jsons → Json
    object : Jsons → Json

  -- The elements of an array, or the members of an object by name.
  pub data Jsons : Type 0 where
    no_more : Jsons
    more : String → Json → Jsons → Jsons

pub record BootRequest : Type 0 where
  pub model : String
  pub vendor : String
  pub firmware_version : String
  pub serial_number : String
  pub meter_serial_number : String
  pub meter_type : String

pub record BootResult : Type 0 where
  pub status : String
  pub interval : ℤ
  pub current_time : Option ℕ

pub record HeartbeatResult : Type 0 where
  pub current_time : Option ℕ

pub record AuthorizationResult : Type 0 where
  pub status : String
  pub expiry_date : Option (Option ℕ)
  pub parent_id_tag : String

pub record StatusRequest : Type 0 where
  pub connector_id : ℤ
  pub status : String
  pub error_code : String
  pub info : String
  pub vendor_id : String
  pub vendor_error_code : String
  pub timestamp : Option ℕ

pub record MeterRequest : Type 0 where
  pub connector_id : ℤ
  pub transaction_id : Option ℤ
  pub value : String
  pub measurand : String
  pub unit : String
  pub context : String
  pub location : String
  pub phase : String
  pub timestamp : Option ℕ

pub record StartTransactionRequest : Type 0 where
  pub connector_id : ℤ
  pub id_tag : String
  pub meter_start : ℤ
  pub reservation_id : Option ℤ
  pub timestamp : Option ℕ

pub record StartTransactionResult : Type 0 where
  pub transaction_id : ℤ
  pub authorization : AuthorizationResult

pub record StopTransactionRequest : Type 0 where
  pub transaction_id : ℤ
  pub meter_stop : ℤ
  pub id_tag : String
  pub reason : String
  pub timestamp : Option ℕ

pub record StopTransactionResult : Type 0 where
  pub authorization : Option AuthorizationResult

pub record DataTransferRequest : Type 0 where
  pub vendor_id : String
  pub message_id : String
  pub data_value : Json

pub record DataTransferResult : Type 0 where
  pub status : String
  pub data_value : Json

pub record SecurityEventRequest : Type 0 where
  pub kind : String
  pub tech_info : String
  pub timestamp : Option ℕ

pub record LogStatusRequest : Type 0 where
  pub status : String
  pub request_id : ℤ

pub record SignedFirmwareStatusRequest : Type 0 where
  pub status : String
  pub request_id : Option ℤ

pub record SignCertificateRequest : Type 0 where
  pub csr : String
  pub certificate_type : String

pub record SignCertificateResult : Type 0 where
  pub status : String

-- `types.IdTagInfo`, `core.BootNotificationConfirmation` and the other confirmations.
pub record IdTagInfo : Type 0 where
  pub status : String
  pub expiry_date : Option (Option ℕ)
  pub parent_id_tag : String

pub record BootConfirmation : Type 0 where
  pub status : String
  pub interval : ℤ
  pub current_time : Option (Option ℕ)

pub record StartConfirmation : Type 0 where
  pub transaction_id : ℤ
  pub id_tag_info : Option IdTagInfo

pub record DataConfirmation : Type 0 where
  pub status : String
  pub data_value : Json

pub record SampledValue : Type 0 where
  pub value : String
  pub measurand : String
  pub unit : String
  pub context : String
  pub location : String
  pub phase : String
  pub format : String

pub record MeterValue : Type 0 where
  pub timestamp : Option ℕ
  pub sampled_value : List SampledValue

-- A payload that a method of the OCPP library's charge point is called with.
pub data Call : Type 0 where
  boot_notification : BootRequest → Call
  heartbeat : Call
  authorize : String → Call
  status_notification : StatusRequest → Call
  meter_values : ℤ → Option ℤ → List MeterValue → Call
  start_transaction : StartTransactionRequest → Call
  stop_transaction : StopTransactionRequest → Call
  data_transfer : DataTransferRequest → Call
  diagnostics_status firmware_status : String → Call
  security_event : SecurityEventRequest → Call
  log_status : LogStatusRequest → Call
  signed_firmware_status : SignedFirmwareStatusRequest → Call
  sign_certificate : SignCertificateRequest → Call

-- What `await` receives first.
pub data Arrival (A : Type 0) : Type 0 where
  answered : A → Arrival A
  failed : Error → Arrival A
  expired : String → Arrival A

-- The central system and the OCPP library between: what each payload is answered with.
pub record Central : Type 0 where
  pub on_boot : Call → Arrival BootConfirmation
  pub on_heartbeat : Call → Arrival (Option (Option ℕ))
  pub on_authorize : Call → Arrival (Option IdTagInfo)
  pub on_start : Call → Arrival StartConfirmation
  pub on_stop : Call → Arrival (Option IdTagInfo)
  pub on_data : Call → Arrival DataConfirmation
  pub on_sign : Call → Arrival String
  pub on_notice : Call → Arrival (Unit {0})

-- `strings.ToLower` and the text of the output library's sentinel.
pub record Texts : Type 0 where
  pub lower : String → String
  pub output_text : String
