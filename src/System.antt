-- ===== src/System.antt =====
-- The whole simulator: the calls of the central system and the timers (simulator.go: the handlers
-- that `NewSimulator` registers and the loop of `Run`), and the goroutines that they start.
pub mod Frames
pub mod Goroutines
pub mod Runs
pub mod Control
pub mod Endings
use ocpp_cli.Prelude.{ℤ, ℕ, String, Bool, true, Option, none, some, List, [], ◌∷◌, ◌++◌, ◌>>=◌, ◌≡◌}
use ocpp_cli.Ocpp.{AvailabilityType, ChargePointStatus, Trigger, Piece}
use ocpp_cli.Station.{
  CertificateHash, Simulator, Event, BootResult, IdTagInfo, ChargingProfile, Env, Task, Answer,
}
use ocpp_cli.Station.Emit.{notify_status}
use ocpp_cli.Reservations.Handlers.{
  ReserveNowRequest, on_reserve_now, on_cancel_reservation, expire_reservations,
}
use ocpp_cli.Transactions.{
  RemoteStartRequest, StartConfirmation, on_remote_start_transaction, begin_remote_transaction,
  authorized_remote, start_remote_transaction, confirmed_start, on_remote_stop_transaction,
  finish_remote_transaction, confirmed_stop,
}
use ocpp_cli.Transactions.Reset.{on_reset, on_change_availability, on_unlock_connector}
use ocpp_cli.Configuration.{
  on_change_configuration, on_get_configuration, on_clear_cache, on_data_transfer,
}
use ocpp_cli.LocalAuth.{SendLocalListRequest, on_get_local_list_version, on_send_local_list}
use ocpp_cli.Charging.{
  ClearRequest, CompositeRequest, on_set_charging_profile, on_clear_charging_profile,
  on_get_composite_schedule,
}
use ocpp_cli.Certificates.{
  Crypto, on_certificate_signed, on_install_certificate, on_get_installed_certificate_ids,
  on_delete_certificate,
}
use ocpp_cli.Firmware.{
  on_get_diagnostics, on_update_firmware, simulate_diagnostics_upload, simulate_firmware_update,
}
use ocpp_cli.Logs.{
  SignedUpdateRequest, on_get_log, on_signed_update_firmware, simulate_log_upload,
  simulate_signed_firmware_update,
}
use ocpp_cli.Telemetry.{
  send_boot_notification, send_initial_statuses, send_heartbeat, send_meter_values,
  triggered_sample, triggered_status, named_status,
}
use ocpp_cli.Triggers.{
  on_trigger_message, on_extended_trigger_message, execute_trigger, execute_extended_trigger,
}

-- What the simulator is called for.
pub data Request : Type 0 where
  reserve_now : ReserveNowRequest → Request
  cancel_reservation : ℤ → Request
  remote_start : RemoteStartRequest → Request
  remote_stop : ℤ → Request
  reset : String → Request
  change_availability : ℤ → AvailabilityType → Request
  unlock_connector : ℤ → Request
  change_configuration : String → String → Request
  get_configuration : List String → Request
  clear_cache : Request
  data_transfer : String → String → Option String → Request
  get_local_list_version : Request
  send_local_list : SendLocalListRequest → Request
  set_charging_profile : ℤ → Option ChargingProfile → Request
  clear_charging_profile : ClearRequest → Request
  get_composite_schedule : CompositeRequest → Request
  get_diagnostics : String → String → Request
  update_firmware : String → String → Request
  get_log : ℤ → String → String → Request
  signed_update_firmware : SignedUpdateRequest → Request
  trigger_message : Trigger → Option ℤ → Request
  extended_trigger_message : Trigger → Option ℤ → Request
  certificate_signed : Crypto → String → Request
  install_certificate : Crypto → String → String → Request
  get_installed_certificate_ids : Crypto → String → Request
  delete_certificate : Crypto → CertificateHash → Request
  -- The steps of `Run`.
  boot : Answer BootResult → Request
  initial_statuses : Request
  heartbeat : List Piece → Request
  meter_values : Request
  expire : Request

-- The state without the reply.
abbrev pub state_of {ℓ} : {A : Type ℓ} → Option (Simulator × A) → Option Simulator
state_of o = o >>= λ r. some r.0

-- One handler by request. `none` is a nil dereference, at which the process stops.
unfoldable pub handle : Env → Request → Simulator → Option Simulator
handle env (Request.reserve_now r) s = state_of (on_reserve_now env r s)
handle env (Request.cancel_reservation id) s = state_of (on_cancel_reservation env id s)
handle env (Request.remote_start r) s = state_of (on_remote_start_transaction env r s)
handle env (Request.remote_stop t) s = some (on_remote_stop_transaction env t s).0
handle env (Request.reset kind) s = some (on_reset env kind s).0
handle env (Request.change_availability id kind) s = state_of (on_change_availability env id kind s)
handle env (Request.unlock_connector id) s = some (on_unlock_connector env id s).0
handle env (Request.change_configuration key value) s =
    some (on_change_configuration env key value s).0
handle env (Request.get_configuration keys) s = some (on_get_configuration env keys s).0
handle env Request.clear_cache s = some (on_clear_cache env s).0
handle env (Request.data_transfer vendor id payload) s =
    some (on_data_transfer env vendor id payload s).0
handle env Request.get_local_list_version s = some (on_get_local_list_version env s).0
handle env (Request.send_local_list r) s = some (on_send_local_list env r s).0
handle env (Request.set_charging_profile id p) s = some (on_set_charging_profile env id p s).0
handle env (Request.clear_charging_profile r) s = some (on_clear_charging_profile env r s).0
handle env (Request.get_composite_schedule r) s = some (on_get_composite_schedule env r s).0
handle env (Request.get_diagnostics location file) s =
    some (on_get_diagnostics env location file s).0
handle env (Request.update_firmware location retrieve) s =
    some (on_update_firmware env location retrieve s)
handle env (Request.get_log id kind location) s = some (on_get_log env id kind location s).0
handle env (Request.signed_update_firmware r) s = some (on_signed_update_firmware env r s).0
handle env (Request.trigger_message m id) s = some (on_trigger_message env m id s).0
handle env (Request.extended_trigger_message m id) s =
    some (on_extended_trigger_message env m id s).0
handle env (Request.certificate_signed c chain) s = some (on_certificate_signed c env chain s).0
handle env (Request.install_certificate c kind pem) s =
    some (on_install_certificate c env kind pem s).0
handle env (Request.get_installed_certificate_ids c kind) s =
    some (on_get_installed_certificate_ids c env kind s).0
handle env (Request.delete_certificate c hash) s = some (on_delete_certificate c env hash s).0
handle env (Request.boot answer) s = some (send_boot_notification env answer s).0
handle env Request.initial_statuses s = some (send_initial_statuses env s).0
handle env (Request.heartbeat detail) s = some (send_heartbeat env detail s).0
handle env Request.meter_values s = some (send_meter_values env s).0
handle env Request.expire s = expire_reservations env s

-- What the central system answers to the request on which a goroutine waits.
pub record Replies : Type 0 where
  pub authorization : Answer (Option IdTagInfo)
  pub start : Answer StartConfirmation
  pub stop : Answer (Option IdTagInfo)
  pub boot : Answer BootResult
  pub heartbeat_detail : List Piece
  pub has_csr : Bool

-- A goroutine up to where it waits again.
unfoldable pub resume : Env → Replies → Task → Simulator → Option Simulator
resume env r (Task.notify id status) s = some (notify_status env id status s)
resume env r (Task.begin_remote id tag reservation_id) s =
    some (begin_remote_transaction env id tag reservation_id s)
resume env r (Task.authorize_remote id tag reservation_id) s =
    authorized_remote env id tag reservation_id r.authorization s
resume env r (Task.start_remote id tag reservation_id) s =
    start_remote_transaction id tag reservation_id s
resume env r (Task.confirm_start id tag reservation_id) s =
    confirmed_start env id reservation_id r.start s
resume env r (Task.finish_remote id t) s = finish_remote_transaction env id t s
resume env r (Task.confirm_stop id t) s = confirmed_stop env id t r.stop s
resume env r (Task.upload_diagnostics statuses) s =
    some (simulate_diagnostics_upload env statuses s)
resume env r (Task.update_firmware statuses) s = some (simulate_firmware_update env statuses s)
resume env r (Task.upload_log id statuses) s = some (simulate_log_upload env id statuses s)
resume env r (Task.update_signed_firmware id statuses) s =
    some (simulate_signed_firmware_update env id statuses s)
resume env r (Task.await_status id status) s = triggered_status env id status s
resume env r (Task.await_named_status id status) s = some (named_status env id status s)
resume env r (Task.await_sample wanted id meter transaction_id ids) s =
    some (triggered_sample env wanted id meter transaction_id ids s)
resume env r (Task.trigger m id) s = execute_trigger env r.boot r.heartbeat_detail m id s
resume env r (Task.extended_trigger m id) s =
    execute_extended_trigger env r.boot r.heartbeat_detail r.has_csr m id s

-- The scheduler runs any goroutine that waits, or ends it when its context is done; a reader of
-- `Events` takes the oldest event; `close` closes the channel.
pub data Step : Simulator → Simulator → Type 0 where
  handles :
      {s s' : Simulator} (env : Env) (request : Request)
      → handle env request s ≡ some s'
      → Step s s'
  resumes :
      {s s' : Simulator} (env : Env) (replies : Replies) (before : List Task) (t : Task)
      (after : List Task)
      → s.tasks ≡ before ++ t ∷ after
      → resume env replies t (record s { tasks = before ++ after }) ≡ some s'
      → Step s s'
  -- The context is done before the timer for which the goroutine waits.
  cancels :
      {s : Simulator} (before : List Task) (t : Task) (after : List Task)
      → s.tasks ≡ before ++ t ∷ after
      → Step s (record s { tasks = before ++ after })
  reads :
      {s : Simulator} (e : Event) (rest : List Event)
      → s.events ≡ e ∷ rest
      → Step s (record s { events = rest })
  closes : {s : Simulator} → Step s (record s { events_closed = true })

pub data Reach : Simulator → Simulator → Type 0 where
  here : {s : Simulator} → Reach s s
  then_step : {s s' s'' : Simulator} → Reach s s' → Step s' s'' → Reach s s''
