-- ===== src/Client/Operations.antt =====
-- internal/ocppclient/operations.go. An operation is the payload it calls the library with, and the
-- pair of result and error it returns on what arrives.
use Prim.Native.String.{◌++◌}
use ocpp_cli.Prelude.{pos, ℕ, String, Bool, not, Option, none, some, [], ◌∷◌, str_eq, if◌then◌else◌}
use ocpp_cli.Errors.{Error, Sentinel, Outcome, got, lost, wrap, classify}
use ocpp_cli.Client.Types.{
  BootRequest, BootResult, HeartbeatResult, AuthorizationResult, StatusRequest, MeterRequest,
  StartTransactionRequest, StartTransactionResult, StopTransactionRequest, StopTransactionResult,
  DataTransferRequest, DataTransferResult, SecurityEventRequest, LogStatusRequest,
  SignedFirmwareStatusRequest, SignCertificateRequest, SignCertificateResult, IdTagInfo,
  BootConfirmation, StartConfirmation, DataConfirmation, SampledValue, MeterValue, Call, Arrival,
  Central, Texts, null, answered, failed, expired,
}

abbrev pub Answer : Type 0 → Type 0
Answer A = A × Option Error

abbrev pub accepted : String
accepted = "Accepted"

unfoldable pub await : Texts → {A : Type 0} → Arrival A → Outcome A
unfolding wrap
await t (answered a) = got a
await t (failed e) = lost e
await t (expired reason) = lost (wrap t.output_text Sentinel.timeout reason)

-- `fmt.Errorf("%w: ... status is %s", ErrRejected, status)`
unfoldable pub rejection : Texts → String → String → Error
unfolding wrap
rejection t what status = wrap t.output_text Sentinel.rejected (what ++ " status is " ++ status)

-- `if err != nil { return R{}, classify(err, ErrProtocol) }`, then what the confirmation gives.
unfoldable pub settle : Texts → {A R : Type 0} → R → (A → Answer R) → Arrival A → Answer R
unfolding await classify
settle t zero_result done arrival = elim (await t arrival) [
  | got a ↦ done a
  | lost e ↦ (zero_result, classify t.lower t.output_text (some e) Sentinel.protocol)
]

abbrev pub no_authorization : AuthorizationResult
no_authorization = record { status = ""; expiry_date = none; parent_id_tag = "" }

unfoldable pub authorization_result : Option IdTagInfo → AuthorizationResult
authorization_result none = no_authorization
authorization_result (some info) = record {
  status = info.status;
  expiry_date = info.expiry_date;
  parent_id_tag = info.parent_id_tag;
}

-- The zero time, where the pointer is nil.
abbrev pub time_or_zero : Option (Option ℕ) → Option ℕ
time_or_zero none = none
time_or_zero (some at) = at

abbrev pub refuse_if : Texts → {R : Type 0} → Bool → String → String → R → Answer R
refuse_if t refused what status result =
    (result, if refused then some (rejection t what status) else none)

abbrev pub no_boot : BootResult
no_boot = record { status = ""; interval = pos 0; current_time = none }

-- The request's single value, as the library's list of meter values.
unfoldable pub meter_payload : MeterRequest → Call
meter_payload request =
    Call.meter_values request.connector_id request.transaction_id (meter_value ∷ [])
  where
    sampled : SampledValue
    sampled = record {
      value = request.value;
      measurand = request.measurand;
      unit = request.unit;
      context = request.context;
      location = request.location;
      phase = request.phase;
      format = "Raw";
    }

    meter_value : MeterValue
    meter_value = record { timestamp = request.timestamp; sampled_value = sampled ∷ [] }

-- The confirmation of a stop need not carry information on the tag.
unfoldable pub stop_confirmed : Texts → Option IdTagInfo → Answer StopTransactionResult
unfolding rejection authorization_result
stop_confirmed t none = (record { authorization = none }, none)
stop_confirmed t (some info) =
    let auth = authorization_result (some info) in
    refuse_if t (not (str_eq auth.status accepted)) "stop transaction authorization" auth.status
      (record { authorization = some auth })

module _ (t : Texts) (c : Central) where
  unfoldable pub boot : BootRequest → Answer BootResult
  unfolding settle rejection
  boot request = settle t no_boot confirmed (c.on_boot (Call.boot_notification request))
    where
      confirmed : BootConfirmation → Answer BootResult
      confirmed b = refuse_if t (str_eq b.status "Rejected") "BootNotification" b.status (record {
        status = b.status;
        interval = b.interval;
        current_time = time_or_zero b.current_time;
      })

  unfoldable pub heartbeat : Answer HeartbeatResult
  unfolding settle
  heartbeat =
      settle t (record { current_time = none })
        (λ at. (record { current_time = time_or_zero at }, none)) (c.on_heartbeat Call.heartbeat)

  unfoldable pub authorize : String → Answer AuthorizationResult
  unfolding settle rejection authorization_result
  authorize id_tag = settle t no_authorization confirmed (c.on_authorize (Call.authorize id_tag))
    where
      confirmed : Option IdTagInfo → Answer AuthorizationResult
      confirmed info =
          let result = authorization_result info in
          refuse_if t (not (str_eq result.status accepted)) "authorization" result.status result

  -- A notification whose confirmation carries nothing.
  unfoldable pub notify : Call → Option Error
  unfolding settle
  notify call = (settle t {A = Unit {0}} {R = Unit {0}} tt (λ _. (tt, none)) (c.on_notice call)).1

  unfoldable pub status_notification : StatusRequest → Option Error
  unfolding notify
  status_notification request = notify (Call.status_notification request)

  unfoldable pub meter_values : MeterRequest → Option Error
  unfolding notify meter_payload
  meter_values request = notify (meter_payload request)

  unfoldable pub start_transaction : StartTransactionRequest → Answer StartTransactionResult
  unfolding settle rejection authorization_result
  start_transaction request =
      settle t (record { transaction_id = pos 0; authorization = no_authorization }) confirmed
        (c.on_start (Call.start_transaction request))
    where
      confirmed : StartConfirmation → Answer StartTransactionResult
      confirmed s =
          let auth = authorization_result s.id_tag_info in
          refuse_if t (not (str_eq auth.status accepted)) "transaction authorization" auth.status
            (record { transaction_id = s.transaction_id; authorization = auth })

  unfoldable pub stop_transaction : StopTransactionRequest → Answer StopTransactionResult
  unfolding settle stop_confirmed
  stop_transaction request =
      settle t (record { authorization = none }) (stop_confirmed t)
        (c.on_stop (Call.stop_transaction request))

  unfoldable pub data_transfer : DataTransferRequest → Answer DataTransferResult
  unfolding settle rejection
  data_transfer request =
      settle t (record { status = ""; data_value = null }) confirmed
        (c.on_data (Call.data_transfer request))
    where
      confirmed : DataConfirmation → Answer DataTransferResult
      confirmed d =
          refuse_if t (not (str_eq d.status accepted)) "DataTransfer" d.status
            (record { status = d.status; data_value = d.data_value })

  unfoldable pub diagnostics_status_notification : String → Option Error
  unfolding notify
  diagnostics_status_notification status = notify (Call.diagnostics_status status)

  unfoldable pub firmware_status_notification : String → Option Error
  unfolding notify
  firmware_status_notification status = notify (Call.firmware_status status)

  unfoldable pub security_event_notification : SecurityEventRequest → Option Error
  unfolding notify
  security_event_notification request = notify (Call.security_event request)

  unfoldable pub log_status_notification : LogStatusRequest → Option Error
  unfolding notify
  log_status_notification request = notify (Call.log_status request)

  unfoldable pub signed_firmware_status_notification : SignedFirmwareStatusRequest → Option Error
  unfolding notify
  signed_firmware_status_notification request = notify (Call.signed_firmware_status request)

  unfoldable pub sign_certificate : SignCertificateRequest → Answer SignCertificateResult
  unfolding settle rejection
  sign_certificate request =
      settle t (record { status = "" }) confirmed (c.on_sign (Call.sign_certificate request))
    where
      confirmed : String → Answer SignCertificateResult
      confirmed status =
          refuse_if t (not (str_eq status accepted)) "SignCertificate" status
            (record { status = status })
