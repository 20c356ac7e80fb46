-- ===== src/System/Goroutines.antt =====
-- The goroutines of uploads, updates and triggers keep the invariant, and so does `resume`.
use ocpp_cli.Prelude.{
  ℤ, pos, ℕ, refl, Bool, true, false, ◌&&◌, not, Option, none, List, [], ◌∷◌, if_rule,
  if◌then◌else◌,
}
use ocpp_cli.Ocpp.{
  DiagnosticsStatus, FirmwareStatus, UploadLogStatus, SignedFirmwareStatus, Trigger, Action, Word,
  Piece, outbound,
}
use ocpp_cli.Station.{Simulator, BootResult, Env, Task, Message, Answer}
use ocpp_cli.Station.Emit.{emit, send, spawn}
use ocpp_cli.Invariant.{
  Inv, Safe, IsRunnable, emit-Inv, spawn-Inv, send-Inv, frame-Inv, notify_status-Inv,
}
use ocpp_cli.Firmware.{
  emit_failure, send_diagnostics_status, send_firmware_status, simulate_diagnostics_upload,
  simulate_firmware_update,
}
use ocpp_cli.Logs.{
  is_superseded, request_detail, send_log_status, simulate_log_upload, send_signed_firmware_status,
  simulate_signed_firmware_update,
}
use ocpp_cli.Telemetry.Laws.{
  send_boot_notification-Inv, send_heartbeat-Inv, send_triggered_meter_values-Inv,
  send_triggered_statuses-Inv, triggered_sample-Inv, triggered_status-Safe, named_status-Inv,
  report-Inv,
}
use ocpp_cli.Triggers.{execute_trigger, execute_extended_trigger, send_signing_request}
use ocpp_cli.Transactions.Safety.{
  begin_remote_transaction-Inv, authorized_remote-Safe, start_remote_transaction-Safe,
  confirmed_start-Safe,
}
use ocpp_cli.Transactions.StopSafety.{finish_remote_transaction-Safe, confirmed_stop-Safe}
use ocpp_cli.System.{Replies, resume}
use ocpp_cli.System.Frames.{Kept}

module _ (n : ℤ) (env : Env) where
  emit_failure-Inv : (a : Action) (s : Simulator) → Inv n s → Inv n (emit_failure env a s)
  unfolding emit_failure
  emit_failure-Inv a s v = emit-Inv n env _ _ _ _ _ _ v

  send_diagnostics_status-Inv :
      (status : DiagnosticsStatus) (s : Simulator)
      → Inv n s
      → Inv n (send_diagnostics_status env status s).0
  unfolding send_diagnostics_status
  send_diagnostics_status-Inv status s v =
      let s' = record s { diagnostics_status = status } in
      let w = send-Inv n s' (frame-Inv n s s' refl refl refl refl refl v) _ in
      if_rule (Kept n) (env.answers (Message.diagnostics_status status))
        (λ _. emit-Inv n env _ _ _ _ _ _ w) (λ _. w)

  send_firmware_status-Inv :
      (status : FirmwareStatus) (s : Simulator)
      → Inv n s
      → Inv n (send_firmware_status env status s).0
  unfolding send_firmware_status
  send_firmware_status-Inv status s v =
      let s' = record s { firmware_status = status } in
      let w = send-Inv n s' (frame-Inv n s s' refl refl refl refl refl v) _ in
      if_rule (Kept n) (env.answers (Message.firmware_status status))
        (λ _. emit-Inv n env _ _ _ _ _ _ w) (λ _. w)

  -- A status that is sent only with a connection, unless another request has taken over.
  send_if_connected :
      (superseded : Bool) (message : Message) (a : Action) (word : Word) (p : List Piece)
      (s s' : Simulator)
      → Inv n s
      → Inv n s'
      → Kept n (
          if superseded
          then (s, true)
          else if env.connected && not (env.answers message)
          then (if env.connected then send message s' else s', false)
          else (
            emit env outbound a word none p (if env.connected then send message s' else s'),
            true,
          ))
  send_if_connected superseded message a word p s s' v w =
      let u = if_rule (Inv n) env.connected (λ _. send-Inv n s' w message) (λ _. w) in
      if_rule (Kept n) superseded (λ _. v)
        (λ _.
          if_rule (Kept n) (env.connected && not (env.answers message)) (λ _. u)
            (λ _. emit-Inv n env outbound a word none p _ u))

  send_log_status-Inv :
      (id : ℤ) (status : UploadLogStatus) (s : Simulator)
      → Inv n s
      → Inv n (send_log_status env id status s).0
  unfolding send_log_status
  send_log_status-Inv id status s v =
      let s' = record s { active_log_request_id = id; log_status = status } in
      send_if_connected (is_superseded s.active_log_request_id id) (Message.log_status status id)
        Action.log_status (Word.of_log status) (request_detail id) s s' v
        (frame-Inv n s s' refl refl refl refl refl v)

  send_signed_firmware_status-Inv :
      (id : ℤ) (status : SignedFirmwareStatus) (s : Simulator)
      → Inv n s
      → Inv n (send_signed_firmware_status env id status s).0
  unfolding send_signed_firmware_status
  send_signed_firmware_status-Inv id status s v =
      let s' = record s { signed_firmware_request_id = id; signed_firmware_status = status } in
      send_if_connected (is_superseded s.signed_firmware_request_id id)
        (Message.signed_firmware_status status id) Action.signed_firmware_status
        (Word.of_signed_firmware status) (request_detail id) s s' v
        (frame-Inv n s s' refl refl refl refl refl v)

  -- A round of a goroutine: it waits for the next one, or ends.
  next_round :
      (sent : Bool) (a : Action) (t : Task) (s : Simulator)
      → IsRunnable n t
      → Inv n s
      → Inv n (if sent then (if env.open_context then spawn t s else s) else emit_failure env a s)
  next_round sent a t s h v =
      if_rule (Inv n) sent
        (λ _. if_rule (Inv n) env.open_context (λ _. spawn-Inv n s v t h) (λ _. v))
        (λ _. emit_failure-Inv a s v)

  simulate_diagnostics_upload-Inv :
      (statuses : List DiagnosticsStatus) (s : Simulator)
      → Inv n s
      → Inv n (simulate_diagnostics_upload env statuses s)
  unfolding simulate_diagnostics_upload
  simulate_diagnostics_upload-Inv [] s v = v
  simulate_diagnostics_upload-Inv (status ∷ rest) s v =
      next_round _ _ (Task.upload_diagnostics rest) _ tt (send_diagnostics_status-Inv status s v)

  simulate_firmware_update-Inv :
      (statuses : List FirmwareStatus) (s : Simulator)
      → Inv n s
      → Inv n (simulate_firmware_update env statuses s)
  unfolding simulate_firmware_update
  simulate_firmware_update-Inv [] s v = v
  simulate_firmware_update-Inv (status ∷ rest) s v =
      next_round _ _ (Task.update_firmware rest) _ tt (send_firmware_status-Inv status s v)

  simulate_log_upload-Inv :
      (id : ℤ) (statuses : List UploadLogStatus) (s : Simulator)
      → Inv n s
      → Inv n (simulate_log_upload env id statuses s)
  unfolding simulate_log_upload
  simulate_log_upload-Inv id [] s v = v
  simulate_log_upload-Inv id (status ∷ rest) s v =
      next_round _ _ (Task.upload_log id rest) _ tt (send_log_status-Inv id status s v)

  simulate_signed_firmware_update-Inv :
      (id : ℤ) (statuses : List SignedFirmwareStatus) (s : Simulator)
      → Inv n s
      → Inv n (simulate_signed_firmware_update env id statuses s)
  unfolding simulate_signed_firmware_update
  simulate_signed_firmware_update-Inv id [] s v = v
  simulate_signed_firmware_update-Inv id (status ∷ rest) s v =
      next_round _ _ (Task.update_signed_firmware id rest) _ tt
        (send_signed_firmware_status-Inv id status s v)

  send_signing_request-Inv :
      (has_csr : Bool) (s : Simulator) → Inv n s → Inv n (send_signing_request env has_csr s).0
  unfolding send_signing_request
  send_signing_request-Inv has_csr s v =
      let w = send-Inv n s v Message.sign_certificate in
      if_rule (Kept n) (not has_csr) (λ _. v)
        (λ _.
          if_rule (Kept n) (env.answers Message.sign_certificate)
            (λ _. emit-Inv n env _ _ _ _ _ _ w) (λ _. w))

module _ (n : ℕ) (env : Env) (boot : Answer BootResult) (time : List Piece) (id : Option ℤ)
    (s : Simulator) (v : Inv (pos n) s) where
  execute_trigger-Safe :
      (m : Trigger) → Safe (pos n) (λ s'. s') (execute_trigger env boot time m id s)
  unfolding execute_trigger
  execute_trigger-Safe Trigger.boot_notification =
      report-Inv (pos n) env _ id _ (send_boot_notification-Inv (pos n) env boot s v)
  execute_trigger-Safe Trigger.heartbeat =
      report-Inv (pos n) env _ id _ (send_heartbeat-Inv (pos n) env time s v)
  execute_trigger-Safe Trigger.status_notification = send_triggered_statuses-Inv (pos n) env id s v
  execute_trigger-Safe Trigger.meter_values = send_triggered_meter_values-Inv (pos n) env id s v
  execute_trigger-Safe Trigger.diagnostics_status_notification =
      report-Inv (pos n) env _ id _ (send_diagnostics_status-Inv (pos n) env _ s v)
  execute_trigger-Safe Trigger.firmware_status_notification =
      report-Inv (pos n) env _ id _ (send_firmware_status-Inv (pos n) env _ s v)
  execute_trigger-Safe _ = v

  execute_extended_trigger-Safe :
      (has_csr : Bool) (m : Trigger)
      → Safe (pos n) (λ s'. s') (execute_extended_trigger env boot time has_csr m id s)
  unfolding execute_extended_trigger
  execute_extended_trigger-Safe has_csr Trigger.boot_notification =
      report-Inv (pos n) env _ id _ (send_boot_notification-Inv (pos n) env boot s v)
  execute_extended_trigger-Safe has_csr Trigger.heartbeat =
      report-Inv (pos n) env _ id _ (send_heartbeat-Inv (pos n) env time s v)
  execute_extended_trigger-Safe has_csr Trigger.meter_values =
      send_triggered_meter_values-Inv (pos n) env id s v
  execute_extended_trigger-Safe has_csr Trigger.status_notification =
      send_triggered_statuses-Inv (pos n) env id s v
  execute_extended_trigger-Safe has_csr Trigger.firmware_status_notification =
      report-Inv (pos n) env _ id _ (send_firmware_status-Inv (pos n) env _ s v)
  execute_extended_trigger-Safe has_csr Trigger.log_status_notification =
      report-Inv (pos n) env _ id _ (send_log_status-Inv (pos n) env _ _ s v)
  execute_extended_trigger-Safe has_csr Trigger.sign_charging_station_certificate =
      report-Inv (pos n) env _ id _ (send_signing_request-Inv (pos n) env has_csr s v)
  execute_extended_trigger-Safe has_csr _ = v

-- From a well-formed state every goroutine, with every answer of the central system, runs up to
-- where it waits again without a nil dereference, and leaves a well-formed state.
pub resume-Safe :
    (n : ℕ) (env : Env) (r : Replies) (t : Task) (s : Simulator)
    → IsRunnable (pos n) t
    → Inv (pos n) s
    → Safe (pos n) (λ s'. s') (resume env r t s)
unfolding resume
resume-Safe n env r (Task.notify id status) s h v = notify_status-Inv (pos n) s env id status v
resume-Safe n env r (Task.begin_remote id tag reservation_id) s h v =
    begin_remote_transaction-Inv (pos n) env id tag reservation_id s v h
resume-Safe n env r (Task.authorize_remote id tag reservation_id) s h v =
    authorized_remote-Safe (pos n) env id tag reservation_id r.authorization s v h
resume-Safe n env r (Task.start_remote id tag reservation_id) s h v =
    start_remote_transaction-Safe (pos n) id tag reservation_id s v h
resume-Safe n env r (Task.confirm_start id tag reservation_id) s h v =
    confirmed_start-Safe (pos n) env id reservation_id r.start s v h
resume-Safe n env r (Task.finish_remote id t) s h v =
    finish_remote_transaction-Safe (pos n) env id t s v h
resume-Safe n env r (Task.confirm_stop id t) s h v =
    confirmed_stop-Safe (pos n) env id t r.stop s v h
resume-Safe n env r (Task.upload_diagnostics statuses) s h v =
    simulate_diagnostics_upload-Inv (pos n) env statuses s v
resume-Safe n env r (Task.update_firmware statuses) s h v =
    simulate_firmware_update-Inv (pos n) env statuses s v
resume-Safe n env r (Task.upload_log id statuses) s h v =
    simulate_log_upload-Inv (pos n) env id statuses s v
resume-Safe n env r (Task.update_signed_firmware id statuses) s h v =
    simulate_signed_firmware_update-Inv (pos n) env id statuses s v
resume-Safe n env r (Task.await_status id status) s h v = triggered_status-Safe n env id status s v
resume-Safe n env r (Task.await_named_status id status) s h v =
    named_status-Inv (pos n) env id status s v
resume-Safe n env r (Task.await_sample wanted id meter transaction_id ids) s h v =
    triggered_sample-Inv (pos n) env wanted id meter transaction_id ids s v
resume-Safe n env r (Task.trigger m id) s h v =
    execute_trigger-Safe n env r.boot r.heartbeat_detail id s v m
resume-Safe n env r (Task.extended_trigger m id) s h v =
    execute_extended_trigger-Safe n env r.boot r.heartbeat_detail id s v r.has_csr m
