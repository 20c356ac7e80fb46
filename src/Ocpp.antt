-- ===== src/Ocpp.antt =====
-- The words of the OCPP 1.6 message library (github.com/lorenzodonini/ocpp-go) that the simulator
-- names: its string constants as enumerations. The library's validator admits no other value of
-- these types. `Word` is the text of a status in a reply or an event; its spelling is the library's.
use ocpp_cli.Prelude.{ℤ, String}

pub data AvailabilityType : Type 0 where
  operative inoperative : AvailabilityType

pub data ChargePointStatus : Type 0 where
  available preparing charging suspended_evse suspended_ev finishing reserved unavailable faulted :
      ChargePointStatus

pub data AuthorizationStatus : Type 0 where
  accepted blocked expired invalid concurrent_tx : AuthorizationStatus

pub data DiagnosticsStatus : Type 0 where
  idle uploaded upload_failed uploading : DiagnosticsStatus

pub data FirmwareStatus : Type 0 where
  downloaded download_failed downloading idle installation_failed installing installed :
      FirmwareStatus

pub data UploadLogStatus : Type 0 where
  bad_message idle not_supported_operation permission_denied uploaded upload_failure uploading :
      UploadLogStatus

pub data SignedFirmwareStatus : Type 0 where
  downloaded download_failed downloading download_scheduled download_paused idle installation_failed
        installing installed install_rebooting install_scheduled install_verification_failed
        invalid_signature signature_verified :
      SignedFirmwareStatus

-- `""` is `unset`.
pub data Purpose : Type 0 where
  unset charge_point_max_profile tx_default_profile tx_profile : Purpose

pub data RateUnit : Type 0 where
  unset amperes watts : RateUnit

pub data Trigger : Type 0 where
  boot_notification heartbeat meter_values status_notification diagnostics_status_notification
        firmware_status_notification log_status_notification sign_charging_station_certificate :
      Trigger
  other : String → Trigger

pub data Word : Type 0 where
  accepted rejected scheduled not_supported occupied unavailable faulted failed version_mismatch
        not_implemented unknown accepted_canceled invalid_certificate not_found pending error
        none_given :
      Word
  unlocked connected stopped sent expired : Word
  of_status : ChargePointStatus → Word
  of_authorization : AuthorizationStatus → Word
  of_diagnostics : DiagnosticsStatus → Word
  of_firmware : FirmwareStatus → Word
  of_log : UploadLogStatus → Word
  of_signed_firmware : SignedFirmwareStatus → Word

pub data Direction : Type 0 where
  inbound outbound system : Direction

-- The name of a message or of an event of the program's own.
pub data Action : Type 0 where
  change_availability change_configuration clear_cache data_transfer get_configuration
        remote_start_transaction remote_stop_transaction reset unlock_connector reserve_now
        cancel_reservation get_local_list_version send_local_list trigger_message get_diagnostics
        update_firmware set_charging_profile clear_charging_profile get_composite_schedule
        certificate_signed install_certificate get_installed_certificate_ids delete_certificate
        get_log signed_update_firmware extended_trigger_message :
      Action
  authorize boot_notification heartbeat meter_values status_notification start_transaction
        stop_transaction diagnostics_status firmware_status log_status signed_firmware_status
        sign_certificate :
      Action
  connect shutdown reservation_expired : Action
  of_trigger : Trigger → Action

-- A piece of an event's detail: the detail is the pieces' texts, one after the other.
pub data Piece : Type 0 where
  lit : String → Piece
  num : ℤ → Piece
  word : Word → Piece
  of_availability : AvailabilityType → Piece
  of_purpose : Purpose → Piece
  of_unit : RateUnit → Piece
  of_trigger : Trigger → Piece
