-- ===== src/Firmware.antt =====
-- simulator_optional_profiles.go: the diagnostics and firmware handlers and their goroutines. A
-- goroutine is the list of statuses that it has still to send; it waits before each but the first.
use ocpp_cli.Prelude.{String, Bool, true, false, none, List, [], ◌∷◌, if◌then◌else◌}
use ocpp_cli.Ocpp.{DiagnosticsStatus, FirmwareStatus, Word, Action, lit, inbound, outbound}
use ocpp_cli.Station.{Simulator, Env, Task, Message}
use ocpp_cli.Station.Emit.{emit, spawn, send}

-- The state is written before the message goes out, and stays if that fails. With the state comes
-- whether the central system confirmed it.
unfoldable pub send_diagnostics_status : Env → DiagnosticsStatus → Simulator → Simulator × Bool
unfolding emit
send_diagnostics_status env status s =
    let message = Message.diagnostics_status status in
    let s' = send message (record s { diagnostics_status = status }) in
    if env.answers message
    then (emit env outbound Action.diagnostics_status (Word.of_diagnostics status) none [] s', true)
    else (s', false)

unfoldable pub send_firmware_status : Env → FirmwareStatus → Simulator → Simulator × Bool
unfolding emit
send_firmware_status env status s =
    let message = Message.firmware_status status in
    let s' = send message (record s { firmware_status = status }) in
    if env.answers message
    then (emit env outbound Action.firmware_status (Word.of_firmware status) none [] s', true)
    else (s', false)

unfoldable pub emit_failure : Env → Action → Simulator → Simulator
unfolding emit
emit_failure env action s = emit env outbound action Word.error none (lit env.error_text ∷ []) s

-- The next round of `simulateDiagnosticsUpload`.
unfoldable pub simulate_diagnostics_upload : Env → List DiagnosticsStatus → Simulator → Simulator
unfolding send_diagnostics_status emit_failure
simulate_diagnostics_upload env [] s = s
simulate_diagnostics_upload env (status ∷ rest) s =
    let (s', sent) = send_diagnostics_status env status s in
    if sent
    then (if env.open_context then spawn (Task.upload_diagnostics rest) s' else s')
    else emit_failure env Action.diagnostics_status s'

abbrev pub diagnostics_sequence : List DiagnosticsStatus
diagnostics_sequence = DiagnosticsStatus.uploading ∷ DiagnosticsStatus.uploaded ∷ []

-- `file_name` is the name made of the clock's reading.
unfoldable pub on_get_diagnostics : Env → String → String → Simulator → Simulator × String
unfolding emit
on_get_diagnostics env location file_name s =
    let s' =
      emit env inbound Action.get_diagnostics Word.accepted none
        (lit location ∷ lit "/" ∷ lit file_name ∷ []) s in
    (
      if env.connected then spawn (Task.upload_diagnostics diagnostics_sequence) s' else s',
      file_name,
    )

unfoldable pub simulate_firmware_update : Env → List FirmwareStatus → Simulator → Simulator
unfolding send_firmware_status emit_failure
simulate_firmware_update env [] s = s
simulate_firmware_update env (status ∷ rest) s =
    let (s', sent) = send_firmware_status env status s in
    if sent
    then (if env.open_context then spawn (Task.update_firmware rest) s' else s')
    else emit_failure env Action.firmware_status s'

abbrev pub firmware_sequence : List FirmwareStatus
firmware_sequence =
    FirmwareStatus.downloading ∷ FirmwareStatus.downloaded ∷ FirmwareStatus.installing
    ∷ FirmwareStatus.installed ∷ []

-- `retrieve` is the text of the retrieval date. The goroutine begins when that date has come.
unfoldable pub on_update_firmware : Env → String → String → Simulator → Simulator
unfolding emit
on_update_firmware env location retrieve s =
    let s' =
      emit env inbound Action.update_firmware Word.accepted none
        (lit location ∷ lit " retrieve=" ∷ lit retrieve ∷ []) s in
    if env.connected then spawn (Task.update_firmware firmware_sequence) s' else s'
