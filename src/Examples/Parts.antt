-- ===== src/Examples/Parts.antt =====
-- The theorems on single components at concrete requests.
use mathlib.Core.List.{Perm}
use ocpp_cli.Prelude.{
  ◌≢◌, ◌++◌, ℤ, pos, ◌≡◌, refl, String, true, false, none, some, List, [], ◌∷◌, All, ltb_ℤ, ◌==ℤ◌,
  not, ◌&&◌, if◌then◌else◌, ◌⊎◌, ◌↔◌, ◌≢◌,
}
use ocpp_cli.Prelude.Int.{int_eq, string_eq}
use ocpp_cli.Prelude.Maps.{Map, get, put}
use ocpp_cli.Startup.{with_configuration, empty_simulator}
use ocpp_cli.Ocpp.{AuthorizationStatus, Purpose, UploadLogStatus, SignedFirmwareStatus, Word}
use ocpp_cli.Station.{
  Simulator, Reservation, StoredProfile, ChargingProfile, ConfigurationKey, IdTagInfo, Env,
}
use ocpp_cli.Reservations.{reservation_access, select_remote_start_connector}
use ocpp_cli.Reservations.Selection.{IsChoice, select_remote_start_connector-IsChoice}
use ocpp_cli.Reservations.Access.{
  reservation_access-free, reservation_access-blocked, reservation_access-order,
}
use ocpp_cli.Configuration.{add_configuration, on_change_configuration, on_get_configuration}
use ocpp_cli.Configuration.Laws.{
  change_all, change_all-readonly, on_get_configuration-change, Answers,
  on_get_configuration-Answers,
}
use ocpp_cli.LocalAuth.{UpdateType, SendLocalListRequest, update_local_list}
use ocpp_cli.LocalAuth.Laws.{update_local_list_lem, or_old, entry_for, base_of}
use ocpp_cli.Charging.{ClearRequest, on_clear_charging_profile, active_charging_profile}
use ocpp_cli.Charging.Laws.{IsSelected, on_clear_charging_profile_lem}
use ocpp_cli.Charging.Active.{active_charging_profile_lem, IsChosen, IsCovered}
use ocpp_cli.Logs.{
  SignedUpdateRequest, on_get_log, send_log_status, on_signed_update_firmware,
  signed_firmware_active,
}
use ocpp_cli.Logs.Laws.{
  send_log_status-get_log, send_log_status-get_log_zero, on_signed_update_firmware_lem, is_complete,
  HasOwner,
}
use ocpp_cli.Examples.{fresh, fresh-Inv, online}

abbrev theirs : Reservation
theirs = record { connector_id = pos 0; id_tag = "THEIRS"; parent_id_tag = ""; expiry = 200 }

abbrev mine : Reservation
mine = record { connector_id = pos 1; id_tag = "MINE"; parent_id_tag = "FAMILY"; expiry = 200 }

select_remote_start_connector-IsChoice_example :
    IsChoice 100 "MINE" fresh (select_remote_start_connector 100 none "MINE" fresh)
select_remote_start_connector-IsChoice_example =
    select_remote_start_connector-IsChoice 100 "MINE" 2 fresh fresh-Inv none

reservation_access-free_example :
    (reservation_access 100 (pos 1) "FAMILY" ((pos 7, mine) ∷ [])).1 ≡ true
reservation_access-free_example =
    reservation_access-free 100 (pos 1) "FAMILY" ((pos 7, mine) ∷ []) refl

reservation_access-blocked_example :
    reservation_access 100 (pos 2) "MINE" ((pos 7, mine) ∷ (pos 8, theirs) ∷ []) ≡ (pos 0, false)
reservation_access-blocked_example =
    reservation_access-blocked 100 (pos 2) "MINE" ((pos 7, mine) ∷ (pos 8, theirs) ∷ []) refl refl

abbrev number_key : ConfigurationKey
number_key = record { key = "NumberOfConnectors"; readonly = true; value = some "7" }

has_number : get "NumberOfConnectors" fresh.configuration ≡ some number_key
unfolding get put with_configuration empty_simulator add_configuration
has_number = refl

change_all-readonly_example :
    get "NumberOfConnectors"
      (change_all
        ((online, ("NumberOfConnectors", "9")) ∷ (online, ("HeartbeatInterval", "5")) ∷ [])
        fresh).configuration
    ≡ some number_key
change_all-readonly_example =
    change_all-readonly
      ((online, ("NumberOfConnectors", "9")) ∷ (online, ("HeartbeatInterval", "5")) ∷ []) fresh
      "NumberOfConnectors" number_key has_number refl

abbrev interval_key : ConfigurationKey
interval_key = record { key = "HeartbeatInterval"; readonly = false; value = some "7" }

interval_accepted : (on_change_configuration online "HeartbeatInterval" "5" fresh).1 ≡ Word.accepted
unfolding get put with_configuration empty_simulator add_configuration on_change_configuration
interval_accepted = refl

on_get_configuration-change_example :
    (c : ConfigurationKey) × (get "HeartbeatInterval" fresh.configuration ≡ some c)
    × ((on_get_configuration online
          ("HeartbeatInterval" ∷ [])
          (on_change_configuration online "HeartbeatInterval" "5" fresh).0).1
        ≡ ((record c { value = some "5" }) ∷ [], []))
on_get_configuration-change_example =
    on_get_configuration-change online online "HeartbeatInterval" "5" fresh interval_accepted

abbrev keys : List String
keys = "HeartbeatInterval" ∷ "Missing" ∷ []

on_get_configuration-Answers_example :
    let (known, unknown) = (on_get_configuration online keys fresh).1 in
    Answers fresh.configuration keys known unknown
on_get_configuration-Answers_example = on_get_configuration-Answers online keys fresh

abbrev invited : IdTagInfo
invited = record { status = AuthorizationStatus.accepted; expiry_date = none; parent_id_tag = "" }

abbrev first_list : SendLocalListRequest
first_list = record {
  list_version = pos 1;
  update_type = UpdateType.full;
  local_authorization_list = record { id_tag = "MINE"; id_tag_info = some invited } ∷ [];
}

update_local_list_lem_example :
    let (s', status) = update_local_list first_list fresh in
    ((status ≢ Word.accepted) × (s' ≡ fresh))
    ⊎ ((status ≡ Word.accepted)
        × (ltb_ℤ fresh.local_auth_list_version s'.local_auth_list_version ≡ true)
        × (s'.local_auth_list_version ≡ first_list.list_version)
        × ((tag : String)
            → get tag s'.local_auth_list
              ≡ or_old
                  (entry_for tag first_list.local_authorization_list)
                  (base_of first_list.update_type (get tag fresh.local_auth_list))))
update_local_list_lem_example = update_local_list_lem first_list fresh

abbrev low : ChargingProfile
low = record {
  profile_id = pos 1;
  transaction_id = pos 0;
  stack_level = pos 1;
  purpose = Purpose.tx_default_profile;
  valid_from = none;
  valid_to = none;
  schedule = none;
}

abbrev with_profiles : Simulator
with_profiles = record fresh {
  charging_profiles =
      (pos 1, record { connector_id = pos 0; profile = low })
      ∷ (
        pos 2,
        record {
          connector_id = pos 1;
          profile = record low { profile_id = pos 2; stack_level = pos 5 };
        },
      )
      ∷ [];
}

active_charging_profile_lem_example :
    let o = active_charging_profile 100 (pos 1) with_profiles in
    IsChosen 100 (pos 1) with_profiles.connectors o with_profiles.charging_profiles
    × All (IsCovered 100 (pos 1) with_profiles.connectors o) with_profiles.charging_profiles
active_charging_profile_lem_example = active_charging_profile_lem 100 (pos 1) with_profiles

abbrev clear_one : ClearRequest
clear_one = record {
  id = none;
  connector_id = some (pos 1);
  stack_level = none;
  purpose = Purpose.unset;
}

on_clear_charging_profile_lem_example :
    let (s', status) = on_clear_charging_profile online clear_one with_profiles in
    (removed : Map ℤ StoredProfile) × (Perm with_profiles.charging_profiles
        (s'.charging_profiles ++ removed)
      × All (IsSelected clear_one) removed
      × All (λ e. IsSelected clear_one e → ⊥) s'.charging_profiles)
    × ((status ≡ Word.accepted) ↔ (removed ≢ []))
on_clear_charging_profile_lem_example = on_clear_charging_profile_lem online clear_one with_profiles

send_log_status-get_log_example :
    let s' = (on_get_log online (pos 4) "securitylog" "ftp://logs" fresh).0 in
    send_log_status online (pos 3) UploadLogStatus.uploaded s' ≡ (s', true)
send_log_status-get_log_example =
    send_log_status-get_log online online (pos 4) (pos 3) "securitylog" "ftp://logs"
      UploadLogStatus.uploaded fresh (λ e. cc) (λ e. cc)

abbrev offline : Env
offline = record online { connected = false }

send_log_status-get_log_zero_example :
    let s' =
      (send_log_status offline
        (pos 3)
        UploadLogStatus.uploaded
        (on_get_log online (pos 0) "securitylog" "ftp://logs" fresh).0).0 in
    (s'.active_log_request_id ≡ pos 3) × (s'.log_status ≡ UploadLogStatus.uploaded)
send_log_status-get_log_zero_example =
    send_log_status-get_log_zero online offline (pos 3) "securitylog" "ftp://logs"
      UploadLogStatus.uploaded fresh refl

abbrev signed_update : SignedUpdateRequest
signed_update = record {
  request_id = pos 9;
  location = "ftp://firmware";
  has_retrieve_date = true;
  signing_certificate = "PEM";
  signature = "SIG";
}

on_signed_update_firmware_lem_example :
    let (s', status) = on_signed_update_firmware online signed_update fresh in
    (((status ≡ Word.rejected) ⊎ (status ≡ Word.invalid_certificate))
      × (is_complete signed_update ≡ false)
      × HasOwner fresh.signed_firmware_request_id fresh.signed_firmware_status s')
    ⊎ ((is_complete signed_update ≡ true)
        × HasOwner (pos 9) SignedFirmwareStatus.download_scheduled s'
        × (status ≡ (
            if signed_firmware_active fresh.signed_firmware_status
              && not (fresh.signed_firmware_request_id ==ℤ pos 9)
            then Word.accepted_canceled
            else Word.accepted)))
on_signed_update_firmware_lem_example = on_signed_update_firmware_lem online signed_update fresh

reservation_access-order_example :
    (reservation_access 100 (pos 1) "MINE" ((pos 7, mine) ∷ (pos 8, theirs) ∷ []) ≡ (pos 7, true))
    × (reservation_access 100 (pos 1) "MINE" ((pos 8, theirs) ∷ (pos 7, mine) ∷ [])
        ≡ (pos 0, false))
reservation_access-order_example =
    reservation_access-order 100 (pos 1) "MINE" (pos 7, mine) (pos 8, theirs) [] refl refl
