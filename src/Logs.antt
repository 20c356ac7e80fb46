-- ===== src/Logs.antt =====
-- simulator_security_extensions.go: `OnGetLog`, `OnSignedUpdateFirmware` and their goroutines.
pub mod Laws
use ocpp_cli.Prelude.{
  ℤ, pos, String, Bool, true, false, ◌&&◌, ◌||◌, not, Option, none, some, List, [], ◌∷◌, ◌==ℤ◌,
  str_eq, is_some, if◌then◌else◌,
}
use ocpp_cli.Text.{trim_space}
use ocpp_cli.Ocpp.{
  UploadLogStatus, SignedFirmwareStatus, Word, Action, Piece, lit, num, inbound, outbound,
}
use ocpp_cli.Station.{Simulator, Env, Task, Message}
use ocpp_cli.Station.Emit.{emit, spawn, send}
use ocpp_cli.Firmware.{emit_failure}

abbrev pub is_uploading : UploadLogStatus → Bool
is_uploading UploadLogStatus.uploading = true
is_uploading _ = false

-- `log_type` is the request's type in lower case. The reply carries the file's name.
unfoldable pub on_get_log : Env → ℤ → String → String → Simulator → Simulator × Word × List Piece
unfolding emit
on_get_log env request_id log_type location s =
    let busy = is_uploading s.log_status && not (s.active_log_request_id ==ℤ request_id) in
    let status = if busy then Word.accepted_canceled else Word.accepted in
    let filename = lit "ocpp-cli-" ∷ lit log_type ∷ lit "-" ∷ num request_id ∷ lit ".log" ∷ [] in
    let s' =
      emit env inbound Action.get_log status none (lit location ∷ lit "/" ∷ filename)
        (record s { active_log_request_id = request_id; log_status = UploadLogStatus.uploading }) in
    let statuses = UploadLogStatus.uploading ∷ UploadLogStatus.uploaded ∷ [] in
    (if env.connected then spawn (Task.upload_log request_id statuses) s' else s', status, filename)

-- `active != 0 && active != requestID`: another request has taken over.
abbrev pub is_superseded : ℤ → ℤ → Bool
is_superseded active request_id = not (active ==ℤ pos 0) && not (active ==ℤ request_id)

abbrev pub request_detail : ℤ → List Piece
request_detail request_id = lit "request_id=" ∷ num request_id ∷ []

-- The Boolean is false for an error.
unfoldable pub send_log_status : Env → ℤ → UploadLogStatus → Simulator → Simulator × Bool
unfolding emit
send_log_status env request_id status s =
    let written = record s { active_log_request_id = request_id; log_status = status } in
    let message = Message.log_status status request_id in
    let sent = if env.connected then send message written else written in
    if is_superseded s.active_log_request_id request_id
    then (s, true)
    else if env.connected && not (env.answers message)
    then (sent, false)
    else (
      emit env outbound Action.log_status (Word.of_log status) none (request_detail request_id)
          sent,
      true,
    )

-- The next round of `simulateLogUpload`.
unfoldable pub simulate_log_upload : Env → ℤ → List UploadLogStatus → Simulator → Simulator
unfolding send_log_status emit_failure
simulate_log_upload env request_id [] s = s
simulate_log_upload env request_id (status ∷ rest) s =
    let (s', sent) = send_log_status env request_id status s in
    if sent
    then (if env.open_context then spawn (Task.upload_log request_id rest) s' else s')
    else emit_failure env Action.log_status s'

abbrev pub signed_firmware_active : SignedFirmwareStatus → Bool
signed_firmware_active SignedFirmwareStatus.download_scheduled = true
signed_firmware_active SignedFirmwareStatus.downloading = true
signed_firmware_active SignedFirmwareStatus.downloaded = true
signed_firmware_active SignedFirmwareStatus.signature_verified = true
signed_firmware_active SignedFirmwareStatus.install_scheduled = true
signed_firmware_active SignedFirmwareStatus.installing = true
signed_firmware_active _ = false

abbrev pub is_blank : String → Bool
is_blank text = str_eq (trim_space text) ""

-- The dates only delay the goroutine; that the first is there is tested.
pub record SignedUpdateRequest : Type 0 where
  pub request_id : ℤ
  pub location : String
  pub has_retrieve_date : Bool
  pub signing_certificate : String
  pub signature : String

abbrev pub signed_firmware_sequence : List SignedFirmwareStatus
signed_firmware_sequence =
    SignedFirmwareStatus.downloading ∷ SignedFirmwareStatus.downloaded
    ∷ SignedFirmwareStatus.signature_verified ∷ SignedFirmwareStatus.installing
    ∷ SignedFirmwareStatus.installed ∷ []

unfoldable pub on_signed_update_firmware : Env → SignedUpdateRequest → Simulator → Simulator × Word
unfolding emit
on_signed_update_firmware env request s =
    let busy =
      signed_firmware_active s.signed_firmware_status
      && not (s.signed_firmware_request_id ==ℤ request.request_id) in
    let status = if busy then Word.accepted_canceled else Word.accepted in
    let s' =
      emit env inbound Action.signed_update_firmware status none
        (lit "request_id=" ∷ num request.request_id ∷ lit " location=" ∷ lit request.location ∷ [])
        (record s {
          signed_firmware_request_id = request.request_id;
          signed_firmware_status = SignedFirmwareStatus.download_scheduled;
        }) in
    let task = Task.update_signed_firmware request.request_id signed_firmware_sequence in
    if not request.has_retrieve_date || is_blank request.location
    then (
      emit env inbound Action.signed_update_firmware Word.rejected none
          (lit "missing firmware location or retrieve date" ∷ []) s,
      Word.rejected,
    )
    else if is_blank request.signing_certificate || is_blank request.signature
    then (
      emit env inbound Action.signed_update_firmware Word.invalid_certificate none
          (lit "missing signing certificate or signature" ∷ []) s,
      Word.invalid_certificate,
    )
    else (if env.connected then spawn task s' else s', status)

unfoldable pub send_signed_firmware_status :
    Env → ℤ → SignedFirmwareStatus → Simulator → Simulator × Bool
unfolding emit
send_signed_firmware_status env request_id status s =
    let written = record s {
      signed_firmware_request_id = request_id;
      signed_firmware_status = status;
    } in
    let message = Message.signed_firmware_status status request_id in
    let sent = if env.connected then send message written else written in
    if is_superseded s.signed_firmware_request_id request_id
    then (s, true)
    else if env.connected && not (env.answers message)
    then (sent, false)
    else (
      emit env outbound Action.signed_firmware_status (Word.of_signed_firmware status) none
          (request_detail request_id) sent,
      true,
    )

-- The next round of `simulateSignedFirmwareUpdate`.
unfoldable pub simulate_signed_firmware_update :
    Env → ℤ → List SignedFirmwareStatus → Simulator → Simulator
unfolding send_signed_firmware_status emit_failure
simulate_signed_firmware_update env request_id [] s = s
simulate_signed_firmware_update env request_id (status ∷ rest) s =
    let (s', sent) = send_signed_firmware_status env request_id status s in
    if sent
    then (if env.open_context then spawn (Task.update_signed_firmware request_id rest) s' else s')
    else emit_failure env Action.signed_firmware_status s'
