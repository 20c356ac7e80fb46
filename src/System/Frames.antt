-- ===== src/System/Frames.antt =====
-- The handlers that leave the connectors, the reservations and the goroutines of transactions alone
-- keep the invariant.
use ocpp_cli.Prelude.{
  is_some, ℤ, refl, String, ◌&&◌, ◌||◌, not, Option, none, some, inl, inr, List, [], if_rule,
  Option-cases, leb_ℤ,
}
use ocpp_cli.Prelude.Int.{int_eq, string_eq}
use ocpp_cli.Prelude.Maps.{get}
use ocpp_cli.Station.{Simulator, ConfigurationKey, CertificateHash, ChargingProfile, Env, Task}
use ocpp_cli.Invariant.{Inv, emit-Inv, spawn-Inv, frame-Inv}
use ocpp_cli.Transactions.Reset.{on_unlock_connector}
use ocpp_cli.Configuration.{
  on_change_configuration, on_get_configuration, on_clear_cache, on_data_transfer,
  write_configuration,
}
use ocpp_cli.LocalAuth.{
  SendLocalListRequest, on_get_local_list_version, on_send_local_list, update_local_list,
  has_duplicate,
}
use ocpp_cli.Charging.{
  ClearRequest, CompositeRequest, on_set_charging_profile, on_clear_charging_profile,
  on_get_composite_schedule, composite_schedule, active_charging_profile, is_unknown,
}
use ocpp_cli.Certificates.{
  Crypto, parse_first_certificate, certificate_hash_key, on_certificate_signed,
  on_install_certificate, on_get_installed_certificate_ids, on_delete_certificate,
}
use ocpp_cli.Firmware.{
  on_get_diagnostics, on_update_firmware, diagnostics_sequence, firmware_sequence,
}
use ocpp_cli.Logs.{SignedUpdateRequest, on_get_log, on_signed_update_firmware, is_blank}
use ocpp_cli.Triggers.{
  on_trigger_message, on_extended_trigger_message, trigger_decision, trigger_supported,
  extended_trigger_supported, is_accepted,
}
use ocpp_cli.Ocpp.{Trigger, UploadLogStatus}

abbrev pub Kept {ℓ} : {A : Type ℓ} → ℤ → Simulator × A → Type 0
Kept n r = Inv n r.0

module _ (n : ℤ) (env : Env) (s : Simulator) (v : Inv n s) where
  pub on_unlock_connector-Inv : (id : ℤ) → Inv n (on_unlock_connector env id s).0
  unfolding on_unlock_connector
  on_unlock_connector-Inv id = emit-Inv n env _ _ _ _ _ _ v

  write_configuration-Inv :
      (key value : String) (c : ConfigurationKey) → Inv n (write_configuration key value c s)
  unfolding write_configuration
  write_configuration-Inv key value c = frame-Inv n s _ refl refl refl refl refl v

  pub on_change_configuration-Inv :
      (key value : String) → Inv n (on_change_configuration env key value s).0
  unfolding on_change_configuration
  on_change_configuration-Inv key value = elim (Option-cases (get key s.configuration)) [
    | inl missing ↦ rw (missing, on_change_configuration) (emit-Inv n env _ _ _ _ _ _ v)
    | inr (c, e) ↦
        rw (e, on_change_configuration)
          (if_rule (Kept n) c.readonly (λ _. emit-Inv n env _ _ _ _ _ _ v)
            (λ _. emit-Inv n env _ _ _ _ _ _ (write_configuration-Inv key value c)))
  ]

  pub on_get_configuration-Inv : (keys : List String) → Inv n (on_get_configuration env keys s).0
  unfolding on_get_configuration
  on_get_configuration-Inv keys = emit-Inv n env _ _ _ _ _ _ v

  pub on_clear_cache-Inv : Inv n (on_clear_cache env s).0
  unfolding on_clear_cache
  on_clear_cache-Inv = emit-Inv n env _ _ _ _ _ _ v

  pub on_data_transfer-Inv :
      (vendor id : String) (payload : Option String)
      → Inv n (on_data_transfer env vendor id payload s).0
  unfolding on_data_transfer
  on_data_transfer-Inv vendor id payload = emit-Inv n env _ _ _ _ _ _ v

  pub on_get_local_list_version-Inv : Inv n (on_get_local_list_version env s).0
  unfolding on_get_local_list_version
  on_get_local_list_version-Inv = emit-Inv n env _ _ _ _ _ _ v

  update_local_list-Inv : (request : SendLocalListRequest) → Inv n (update_local_list request s).0
  unfolding update_local_list
  update_local_list-Inv request =
      if_rule (Kept n) (leb_ℤ request.list_version s.local_auth_list_version) (λ _. v)
        λ _.
          if_rule (Kept n) (has_duplicate [] request.local_authorization_list) (λ _. v)
            (λ _. frame-Inv n s _ refl refl refl refl refl v)

  pub on_send_local_list-Inv :
      (request : SendLocalListRequest) → Inv n (on_send_local_list env request s).0
  unfolding on_send_local_list
  on_send_local_list-Inv request =
      emit-Inv n env _ _ _ _ _ (update_local_list request s).0 (update_local_list-Inv request)

  pub on_set_charging_profile-Inv :
      (id : ℤ) (profile : Option ChargingProfile)
      → Inv n (on_set_charging_profile env id profile s).0
  unfolding on_set_charging_profile
  on_set_charging_profile-Inv id none = emit-Inv n env _ _ _ _ _ _ v
  on_set_charging_profile-Inv id (some p) =
      if_rule (Kept n) (is_unknown id s) (λ _. emit-Inv n env _ _ _ _ _ _ v)
        (λ _. emit-Inv n env _ _ _ _ _ _ (frame-Inv n s _ refl refl refl refl refl v))

  pub on_clear_charging_profile-Inv :
      (request : ClearRequest) → Inv n (on_clear_charging_profile env request s).0
  unfolding on_clear_charging_profile
  on_clear_charging_profile-Inv request =
      emit-Inv n env _ _ _ _ _ _ (frame-Inv n s _ refl refl refl refl refl v)

  pub on_get_composite_schedule-Inv :
      (request : CompositeRequest) → Inv n (on_get_composite_schedule env request s).0
  unfolding on_get_composite_schedule
  on_get_composite_schedule-Inv request =
      if_rule (Kept n) (is_unknown request.connector_id s) (λ _. emit-Inv n env _ _ _ _ _ _ v)
        (λ _.
          elim (Option-cases
            (composite_schedule request (active_charging_profile env.now request.connector_id s))) [
              | inl none_fits ↦ rw none_fits (emit-Inv n env _ _ _ _ _ _ v)
              | inr (c, e) ↦ rw e (emit-Inv n env _ _ _ _ _ _ v)
            ])

  pub on_get_diagnostics-Inv :
      (location file : String) → Inv n (on_get_diagnostics env location file s).0
  unfolding on_get_diagnostics
  on_get_diagnostics-Inv location file =
      let w = emit-Inv n env _ _ _ _ _ s v in
      if_rule (Inv n) env.connected
        (λ _. spawn-Inv n _ w (Task.upload_diagnostics diagnostics_sequence) tt) (λ _. w)

  pub on_update_firmware-Inv :
      (location retrieve : String) → Inv n (on_update_firmware env location retrieve s)
  unfolding on_update_firmware
  on_update_firmware-Inv location retrieve =
      let w = emit-Inv n env _ _ _ _ _ s v in
      if_rule (Inv n) env.connected
        (λ _. spawn-Inv n _ w (Task.update_firmware firmware_sequence) tt) (λ _. w)

  pub on_get_log-Inv :
      (id : ℤ) (kind location : String) → Inv n (on_get_log env id kind location s).0
  unfolding on_get_log
  on_get_log-Inv id kind location =
      let w =
        emit-Inv n env _ _ _ _ _
          (record s { active_log_request_id = id; log_status = UploadLogStatus.uploading })
          (frame-Inv n s _ refl refl refl refl refl v) in
      if_rule (Inv n) env.connected (λ _. spawn-Inv n _ w (Task.upload_log id _) tt) (λ _. w)

  pub on_signed_update_firmware-Inv :
      (request : SignedUpdateRequest) → Inv n (on_signed_update_firmware env request s).0
  unfolding on_signed_update_firmware
  on_signed_update_firmware-Inv request =
      if_rule (Kept n) (not request.has_retrieve_date || is_blank request.location)
        (λ _. emit-Inv n env _ _ _ _ _ _ v)
        λ _.
          if_rule (Kept n) (is_blank request.signing_certificate || is_blank request.signature)
            (λ _. emit-Inv n env _ _ _ _ _ _ v)
            λ _.
              let w = emit-Inv n env _ _ _ _ _ _ (frame-Inv n s _ refl refl refl refl refl v) in
              if_rule (Inv n) env.connected
                (λ _. spawn-Inv n _ w (Task.update_signed_firmware request.request_id _) tt)
                (λ _. w)

  pub on_trigger_message-Inv :
      (m : Trigger) (id : Option ℤ) → Inv n (on_trigger_message env m id s).0
  unfolding on_trigger_message
  on_trigger_message-Inv m id =
      let w = emit-Inv n env _ _ _ _ _ s v in
      if_rule (Inv n) (is_accepted (trigger_decision (trigger_supported m) id s) && env.connected)
        (λ _. spawn-Inv n _ w (Task.trigger m id) tt) (λ _. w)

  pub on_extended_trigger_message-Inv :
      (m : Trigger) (id : Option ℤ) → Inv n (on_extended_trigger_message env m id s).0
  unfolding on_extended_trigger_message
  on_extended_trigger_message-Inv m id =
      let w = emit-Inv n env _ _ _ _ _ s v in
      if_rule (Inv n)
        (is_accepted (trigger_decision (extended_trigger_supported m) id s) && env.connected)
        (λ _. spawn-Inv n _ w (Task.extended_trigger m id) tt) (λ _. w)

  pub on_certificate_signed-Inv :
      (c : Crypto) (chain : String) → Inv n (on_certificate_signed c env chain s).0
  unfolding on_certificate_signed
  on_certificate_signed-Inv c chain = elim (Option-cases (parse_first_certificate c chain)) [
    | inl bad ↦ rw (bad, on_certificate_signed) (emit-Inv n env _ _ _ _ _ _ v)
    | inr (certificate, e) ↦
        rw (e, on_certificate_signed)
          (emit-Inv n env _ _ _ _ _ _ (frame-Inv n s _ refl refl refl refl refl v))
  ]

  pub on_install_certificate-Inv :
      (c : Crypto) (kind pem : String) → Inv n (on_install_certificate c env kind pem s).0
  unfolding on_install_certificate
  on_install_certificate-Inv c kind pem = elim (Option-cases (parse_first_certificate c pem)) [
    | inl bad ↦ rw (bad, on_install_certificate) (emit-Inv n env _ _ _ _ _ _ v)
    | inr (certificate, e) ↦
        rw (e, on_install_certificate)
          (emit-Inv n env _ _ _ _ _ _ (frame-Inv n s _ refl refl refl refl refl v))
  ]

  pub on_get_installed_certificate_ids-Inv :
      (c : Crypto) (kind : String) → Inv n (on_get_installed_certificate_ids c env kind s).0
  unfolding on_get_installed_certificate_ids
  on_get_installed_certificate_ids-Inv c kind = emit-Inv n env _ _ _ _ _ _ v

  pub on_delete_certificate-Inv :
      (c : Crypto) (hash : CertificateHash) → Inv n (on_delete_certificate c env hash s).0
  unfolding on_delete_certificate
  on_delete_certificate-Inv c hash = emit-Inv n env _ _ _ _ _ _ (
      if_rule (Inv n) (is_some (get (certificate_hash_key c hash) s.installed_certificates))
        (λ _. frame-Inv n s _ refl refl refl refl refl v) (λ _. v))
