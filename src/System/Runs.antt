-- ===== src/System/Runs.antt =====
-- Every run of the simulator stays well formed and never panics.
use ocpp_cli.Prelude.{
  ℤ, pos, ℕ, ◌≡◌, refl, sym, ap, subst, String, true, Option, none, some, List, [], ◌∷◌, ◌++◌, All,
  length, arith, is_some, some_inj,
}
use ocpp_cli.Station.{Simulator, SimulatorOptions, Env, Task}
use ocpp_cli.Config.{Parsers, ClientConfig}
use ocpp_cli.Startup.{new_simulator}
use ocpp_cli.Startup.Laws.{new_simulator-Inv, new_simulator-pos}
use ocpp_cli.Invariant.{Inv, Safe, IsRunnable}
use ocpp_cli.Reservations.Safety.{
  on_reserve_now-Safe, on_cancel_reservation-Safe, expire_reservations-Safe,
}
use ocpp_cli.Transactions.Safety.{on_remote_start_transaction-Safe}
use ocpp_cli.Transactions.StopSafety.{
  on_remote_stop_transaction-Inv, on_reset-Inv, on_change_availability-Safe,
}
use ocpp_cli.Telemetry.Laws.{
  send_boot_notification-Inv, send_initial_statuses-Inv, send_heartbeat-Inv, send_meter_values-Inv,
}
use ocpp_cli.System.{
  Request, Replies, handle, resume, state_of, Step, handles, resumes, cancels, reads, closes, Reach,
  here, then_step,
}
use ocpp_cli.System.Frames
use ocpp_cli.System.Goroutines.{resume-Safe}

state_of-Safe {ℓ} :
    {A : Type ℓ} (n : ℤ) (o : Option (Simulator × A))
    → Safe n (λ r. r.0) o
    → Safe n (λ s. s) (state_of o)
state_of-Safe n none h = h
state_of-Safe n (some r) h = h

-- From a well-formed state every request of the central system and every step of `Run` is handled
-- without a nil dereference, whatever it asks for, and leaves a well-formed state.
pub handle-Safe :
    (n : ℕ) (env : Env) (request : Request) (s : Simulator)
    → Inv (pos n) s
    → Safe (pos n) (λ s'. s') (handle env request s)
unfolding handle
handle-Safe n env (Request.reserve_now r) s v =
    state_of-Safe (pos n) _ (on_reserve_now-Safe (pos n) env r s v)
handle-Safe n env (Request.cancel_reservation id) s v =
    state_of-Safe (pos n) _ (on_cancel_reservation-Safe (pos n) env id s v)
handle-Safe n env (Request.remote_start r) s v =
    state_of-Safe (pos n) _ (on_remote_start_transaction-Safe n env r s v)
handle-Safe n env (Request.remote_stop t) s v = on_remote_stop_transaction-Inv (pos n) env t s v
handle-Safe n env (Request.reset kind) s v = on_reset-Inv (pos n) env kind s v
handle-Safe n env (Request.change_availability id kind) s v =
    state_of-Safe (pos n) _ (on_change_availability-Safe (pos n) env id kind s v)
handle-Safe n env (Request.unlock_connector id) s v =
    Frames.on_unlock_connector-Inv (pos n) env s v id
handle-Safe n env (Request.change_configuration key value) s v =
    Frames.on_change_configuration-Inv (pos n) env s v key value
handle-Safe n env (Request.get_configuration keys) s v =
    Frames.on_get_configuration-Inv (pos n) env s v keys
handle-Safe n env Request.clear_cache s v = Frames.on_clear_cache-Inv (pos n) env s v
handle-Safe n env (Request.data_transfer vendor id payload) s v =
    Frames.on_data_transfer-Inv (pos n) env s v vendor id payload
handle-Safe n env Request.get_local_list_version s v =
    Frames.on_get_local_list_version-Inv (pos n) env s v
handle-Safe n env (Request.send_local_list r) s v = Frames.on_send_local_list-Inv (pos n) env s v r
handle-Safe n env (Request.set_charging_profile id p) s v =
    Frames.on_set_charging_profile-Inv (pos n) env s v id p
handle-Safe n env (Request.clear_charging_profile r) s v =
    Frames.on_clear_charging_profile-Inv (pos n) env s v r
handle-Safe n env (Request.get_composite_schedule r) s v =
    Frames.on_get_composite_schedule-Inv (pos n) env s v r
handle-Safe n env (Request.get_diagnostics location file) s v =
    Frames.on_get_diagnostics-Inv (pos n) env s v location file
handle-Safe n env (Request.update_firmware location retrieve) s v =
    Frames.on_update_firmware-Inv (pos n) env s v location retrieve
handle-Safe n env (Request.get_log id kind location) s v =
    Frames.on_get_log-Inv (pos n) env s v id kind location
handle-Safe n env (Request.signed_update_firmware r) s v =
    Frames.on_signed_update_firmware-Inv (pos n) env s v r
handle-Safe n env (Request.trigger_message m id) s v =
    Frames.on_trigger_message-Inv (pos n) env s v m id
handle-Safe n env (Request.extended_trigger_message m id) s v =
    Frames.on_extended_trigger_message-Inv (pos n) env s v m id
handle-Safe n env (Request.certificate_signed c chain) s v =
    Frames.on_certificate_signed-Inv (pos n) env s v c chain
handle-Safe n env (Request.install_certificate c kind pem) s v =
    Frames.on_install_certificate-Inv (pos n) env s v c kind pem
handle-Safe n env (Request.get_installed_certificate_ids c kind) s v =
    Frames.on_get_installed_certificate_ids-Inv (pos n) env s v c kind
handle-Safe n env (Request.delete_certificate c hash) s v =
    Frames.on_delete_certificate-Inv (pos n) env s v c hash
handle-Safe n env (Request.boot answer) s v = send_boot_notification-Inv (pos n) env answer s v
handle-Safe n env Request.initial_statuses s v = send_initial_statuses-Inv (pos n) env s v
handle-Safe n env (Request.heartbeat detail) s v = send_heartbeat-Inv (pos n) env detail s v
handle-Safe n env Request.meter_values s v = send_meter_values-Inv (pos n) env s v
handle-Safe n env Request.expire s v = expire_reservations-Safe (pos n) env s v

returned :
    (n : ℤ) (o : Option Simulator) (s : Simulator) → Safe n (λ s'. s') o → o ≡ some s → Inv n s
returned n none s h e = absurd h
returned n (some s') s h e = subst (Inv n) (some_inj e) h

does_return : (n : ℤ) (o : Option Simulator) → Safe n (λ s'. s') o → is_some o ≡ true
does_return n none h = absurd h
does_return n (some s) h = refl

module _ {ℓ κ} {A : Type ℓ} (P : A → Type κ) where
  -- A member taken out of a list.
  All-pick : (xs : List A) (x : A) (ys : List A) → All P (xs ++ x ∷ ys) → P x × All P (xs ++ ys)
  All-pick [] x ys h = h
  All-pick (a ∷ xs) x ys h = let rest = All-pick xs x ys h.1 in (rest.0, (h.0, rest.1))

without_task :
    (n : ℤ) (s : Simulator) (before : List Task) (t : Task) (after : List Task)
    → Inv n s
    → s.tasks ≡ before ++ t ∷ after
    → IsRunnable n t × Inv n (record s { tasks = before ++ after })
without_task n s before t after v e =
    let picked = All-pick (IsRunnable n) before t after (subst (All (IsRunnable n)) e v.running) in
    (
      picked.0,
      record {
        sized = v.sized;
        known = v.known;
        held = v.held;
        running = picked.1;
        buffered = v.buffered;
      },
    )

Step-Inv : (n : ℕ) {s s' : Simulator} → Inv (pos n) s → Step s s' → Inv (pos n) s'
Step-Inv n {s} {s'} v (handles env request e) =
    returned (pos n) _ s' (handle-Safe n env request s v) e
Step-Inv n {s} {s'} v (resumes env replies before t after e f) =
    let (runnable, w) = without_task (pos n) s before t after v e in
    returned (pos n) _ s' (resume-Safe n env replies t _ runnable w) f
Step-Inv n {s} v (cancels before t after e) = (without_task (pos n) s before t after v e).1
Step-Inv n {s} v (reads e rest p) = record {
  sized = v.sized;
  known = v.known;
  held = v.held;
  running = v.running;
  buffered = omega (arith, v.buffered, ap length p);
}
Step-Inv n v closes = record {
  sized = v.sized;
  known = v.known;
  held = v.held;
  running = v.running;
  buffered = v.buffered;
}

Reach-Inv : (n : ℕ) {s s' : Simulator} → Inv (pos n) s → Reach s s' → Inv (pos n) s'
Reach-Inv n v here = v
Reach-Inv n v (then_step run step) = Step-Inv n (Reach-Inv n v run) step

module _ (p : Parsers) (itoa : ℤ → String) (cfg : ClientConfig) (opts : SimulatorOptions) where
  -- Every state that a run reaches from a simulator of `NewSimulator` is well formed, in whatever
  -- order the requests come, the timers fire and the goroutines run, and whatever the central system
  -- answers: its connectors are exactly those that were made, reservations and the goroutines of
  -- transactions name only these, and at most 256 events wait.
  pub Reach-IsWellFormed :
      (s s' : Simulator)
      → new_simulator p itoa cfg opts ≡ some s
      → Reach s s'
      → Inv opts.connectors s'
  Reach-IsWellFormed s s' e run =
      let (n, is_n) = new_simulator-pos p itoa cfg opts s e in
      subst (λ m. Inv m s') (sym is_n)
        (Reach-Inv n (subst (λ m. Inv m s) is_n (new_simulator-Inv p itoa cfg opts s e)) run)

  -- In every state that a run reaches from a simulator of `NewSimulator`, every request is handled
  -- to its end: no handler dereferences a connector that is not there.
  pub handle-Reach :
      (s s' : Simulator) (env : Env) (request : Request)
      → new_simulator p itoa cfg opts ≡ some s
      → Reach s s'
      → is_some (handle env request s') ≡ true
  handle-Reach s s' env request e run =
      let (n, is_n) = new_simulator-pos p itoa cfg opts s e in
      does_return (pos n) _
        (handle-Safe n env request s' (subst (λ m. Inv m s') is_n (Reach-IsWellFormed s s' e run)))

  -- In every state that a run reaches from a simulator of `NewSimulator`, every goroutine that waits
  -- runs up to where it waits again, whatever the central system answers: none dereferences a
  -- connector that is not there.
  pub resume-Reach :
      (s s' : Simulator) (env : Env) (r : Replies) (before : List Task) (t : Task)
      (after : List Task)
      → new_simulator p itoa cfg opts ≡ some s
      → Reach s s'
      → s'.tasks ≡ before ++ t ∷ after
      → is_some (resume env r t (record s' { tasks = before ++ after })) ≡ true
  resume-Reach s s' env r before t after e run waits =
      let (n, is_n) = new_simulator-pos p itoa cfg opts s e in
      let (runnable, w) =
        without_task (pos n) s' before t after
          (subst (λ m. Inv m s') is_n (Reach-IsWellFormed s s' e run)) waits in
      does_return (pos n) _ (resume-Safe n env r t _ runnable w)
