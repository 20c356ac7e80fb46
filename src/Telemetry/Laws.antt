-- ===== src/Telemetry/Laws.antt =====
-- The messages of the station keep the invariant; a well-formed station reads no missing connector
-- when it reports its statuses.
use ocpp_cli.Prelude.{
  if◌then◌else◌, ℤ, pos, negsuc, ℕ, zero, suc, ◌≡◌, refl, ◌∙◌, Bool, false, Option, none, some, inl,
  inr, List, [], ◌∷◌, map, sort, arith, is_pos, rounds_of, is_some, if_rule, ◌>>=◌, Option-cases,
  Bool-cases, leb_ℤ,
}
use ocpp_cli.Prelude.Int.{int_eq}
use ocpp_cli.Prelude.Maps.{Map, get}
use ocpp_cli.Ocpp.{Trigger, ChargePointStatus, Piece}
use ocpp_cli.Station.{Simulator, Connector, BootResult, Env, Task, Message, Answer, ok, err}
use ocpp_cli.Station.Emit.{send, spawn}
use ocpp_cli.Invariant.{
  Inv, Safe, spawn-Inv, emit-Inv, send-Inv, frame-Inv, notify_status-Inv, known_connector,
}
use ocpp_cli.Telemetry.{
  send_boot_notification, notify_or_fail, initial_loop, send_initial_statuses, send_heartbeat,
  send_meter_sample, step_meter, sample_le, send_samples, send_meter_values, next_status,
  triggered_status, named_status, report, send_triggered_statuses, triggered_sample, sample_ids,
  next_sample, send_triggered_meter_values,
}

abbrev Sent : ℤ → Simulator × Bool → Type 0
Sent n r = Inv n r.0

module _ (n : ℤ) (env : Env) where
  pub send_boot_notification-Inv :
      (answer : Answer BootResult) (s : Simulator)
      → Inv n s
      → Inv n (send_boot_notification env answer s).0
  unfolding send_boot_notification
  send_boot_notification-Inv (err detail) s v = send-Inv n s v _
  send_boot_notification-Inv (ok result) s v =
      emit-Inv n env _ _ _ _ _ _ (
        frame-Inv n (send Message.boot_notification s) _ refl refl refl refl refl
          (send-Inv n s v _))

  pub notify_or_fail-Inv :
      (id : ℤ) (status : ChargePointStatus) (s : Simulator)
      → Inv n s
      → Inv n (notify_or_fail env id status s).0
  unfolding notify_or_fail
  notify_or_fail-Inv id status s v = notify_status-Inv n s env id status v

  initial_loop-Inv :
      (rounds id : ℕ) (s : Simulator) → Inv n s → Inv n (initial_loop env rounds id s).0
  unfolding initial_loop
  initial_loop-Inv zero id s v = v
  initial_loop-Inv (suc rounds) id s v =
      let r = notify_or_fail env (pos id) ChargePointStatus.available s in
      let w = notify_or_fail-Inv (pos id) ChargePointStatus.available s v in
      if_rule (Sent n) r.1 (λ _. initial_loop-Inv rounds (suc id) r.0 w) (λ _. w)

  pub send_initial_statuses-Inv : (s : Simulator) → Inv n s → Inv n (send_initial_statuses env s).0
  unfolding send_initial_statuses
  send_initial_statuses-Inv s v =
      let r = notify_or_fail env (pos 0) ChargePointStatus.available s in
      let w = notify_or_fail-Inv (pos 0) ChargePointStatus.available s v in
      if_rule (Sent n) r.1 (λ _. initial_loop-Inv (rounds_of s.opts.connectors) 1 r.0 w) (λ _. w)

  pub send_heartbeat-Inv :
      (detail : List Piece) (s : Simulator) → Inv n s → Inv n (send_heartbeat env detail s).0
  unfolding send_heartbeat
  send_heartbeat-Inv detail s v =
      if_rule (Sent n) (env.answers Message.heartbeat)
        (λ _. emit-Inv n env _ _ _ _ _ _ (send-Inv n s v _)) (λ _. send-Inv n s v _)

  pub send_meter_sample-Inv :
      (id meter t : ℤ) (s : Simulator) → Inv n s → Inv n (send_meter_sample env id meter t s).0
  unfolding send_meter_sample
  send_meter_sample-Inv id meter t s v =
      let message = Message.meter_values id meter (if is_pos t then some t else none) in
      if_rule (Sent n) (env.answers message) (λ _. emit-Inv n env _ _ _ _ _ _ (send-Inv n s v _))
        (λ _. send-Inv n s v _)

  send_samples-Inv :
      (m : Map ℤ Connector) (s : Simulator) → Inv n s → Inv n (send_samples env m s).0
  unfolding send_samples
  send_samples-Inv [] s v = v
  send_samples-Inv ((id, c) ∷ rest) s v =
      let r = send_meter_sample env id c.meter c.transaction_id s in
      let w = send_meter_sample-Inv id c.meter c.transaction_id s v in
      if_rule (Sent n) r.1 (λ _. send_samples-Inv rest r.0 w) (λ _. w)

  has-step_meter :
      (step id : ℤ) (m : Map ℤ Connector)
      → is_some (get id (map (step_meter step) m)) ≡ is_some (get id m)
  unfolding get step_meter
  has-step_meter step id [] = refl
  has-step_meter step id ((k, c) ∷ m) = ground (arith, has-step_meter step id m)

  pub send_meter_values-Inv : (s : Simulator) → Inv n s → Inv n (send_meter_values env s).0
  unfolding send_meter_values
  send_meter_values-Inv s v = send_samples-Inv (sort sample_le connectors) _ stepped
    where
      connectors : Map ℤ Connector
      connectors = map (step_meter s.opts.meter_step) s.connectors

      stepped : Inv n (record s { connectors = connectors })
      stepped = record {
        sized = v.sized;
        known = λ id. has-step_meter s.opts.meter_step id s.connectors ∙ v.known id;
        held = v.held;
        running = v.running;
        buffered = v.buffered;
      }

module _ (n : ℤ) (env : Env) where
  pub report-Inv :
      (m : Trigger) (id : Option ℤ) (r : Simulator × Bool) → Inv n r.0 → Inv n (report env m id r)
  unfolding report
  report-Inv m id (s, sent) v = if_rule (Inv n) sent (λ _. v) (λ _. emit-Inv n env _ _ _ _ _ _ v)

  next_sample-Inv :
      (wanted : Option ℤ) (ids : List ℤ) (s : Simulator)
      → Inv n s
      → Inv n (next_sample env wanted ids s)
  unfolding next_sample
  next_sample-Inv wanted [] s v = v
  next_sample-Inv wanted (id ∷ ids) s v = elim (Option-cases (get id s.connectors)) [
    | inl missing ↦ rw (missing, next_sample) (report-Inv _ wanted (s, false) v)
    | inr (c, e) ↦
        rw (e, next_sample)
          (spawn-Inv n s v (Task.await_sample wanted id c.meter c.transaction_id ids) tt)
  ]

  pub triggered_sample-Inv :
      (wanted : Option ℤ) (id meter transaction_id : ℤ) (ids : List ℤ) (s : Simulator)
      → Inv n s
      → Inv n (triggered_sample env wanted id meter transaction_id ids s)
  unfolding triggered_sample
  triggered_sample-Inv wanted id meter transaction_id ids s v =
      let r = send_meter_sample env id meter transaction_id s in
      let w = send_meter_sample-Inv n env id meter transaction_id s v in
      if_rule (Inv n) r.1 (λ _. next_sample-Inv wanted ids r.0 w)
        (λ _. report-Inv _ wanted (r.0, false) w)

  pub send_triggered_meter_values-Inv :
      (id : Option ℤ) (s : Simulator) → Inv n s → Inv n (send_triggered_meter_values env id s)
  unfolding send_triggered_meter_values
  send_triggered_meter_values-Inv id s v = next_sample-Inv id (sample_ids id s) s v

  pub named_status-Inv :
      (id : ℤ) (status : ChargePointStatus) (s : Simulator)
      → Inv n s
      → Inv n (named_status env id status s)
  unfolding named_status
  named_status-Inv id status s v =
      report-Inv Trigger.status_notification (some id) (notify_or_fail env id status s)
        (notify_or_fail-Inv n env id status s v)

  named_connector-Inv :
      (id : ℤ) (s : Simulator)
      → Inv n s
      → Inv n (elim (get id s.connectors) [
        | none ↦ report env Trigger.status_notification (some id) (s, false)
        | some connector ↦ spawn (Task.await_named_status id connector.status) s
      ])
  named_connector-Inv id s v = elim (Option-cases (get id s.connectors)) [
    | inl missing ↦ rw missing (report-Inv _ _ (s, false) v)
    | inr (c, e) ↦ rw e (spawn-Inv n s v (Task.await_named_status id c.status) tt)
  ]

  pub send_triggered_statuses-Inv :
      (id : Option ℤ) (s : Simulator) → Inv n s → Inv n (send_triggered_statuses env id s)
  unfolding send_triggered_statuses
  send_triggered_statuses-Inv none s v = spawn-Inv n s v _ tt
  send_triggered_statuses-Inv (some (pos zero)) s v = spawn-Inv n s v _ tt
  send_triggered_statuses-Inv (some (pos (suc k))) s v = named_connector-Inv (pos (suc k)) s v
  send_triggered_statuses-Inv (some (negsuc k)) s v = named_connector-Inv (negsuc k) s v

-- On a well-formed station, the loop that sends the statuses of all connectors never dereferences a
-- missing one, and keeps the invariant.
module _ (n : ℕ) (env : Env) where
  next_status-Safe :
      (id : ℕ) (s : Simulator) → Inv (pos n) s → Safe (pos n) (λ s'. s') (next_status (suc id) s)
  unfolding next_status
  next_status-Safe id s v = elim (Bool-cases (leb_ℤ (pos (suc id)) s.opts.connectors)) [
    | inr finished ↦ rw (finished, next_status) v
    | inl within ↦
        let (c, e) =
          known_connector (pos n) (pos (suc id)) s v (ground (arith, rw v.sized at within)) in
        rw (within, next_status)
          (rw (e, ◌>>=◌) (spawn-Inv (pos n) s v (Task.await_status (suc id) c.status) tt))
  ]

  pub triggered_status-Safe :
      (id : ℕ) (status : ChargePointStatus) (s : Simulator)
      → Inv (pos n) s
      → Safe (pos n) (λ s'. s') (triggered_status env id status s)
  unfolding triggered_status
  triggered_status-Safe id status s v =
      let r = notify_or_fail env (pos id) status s in
      let w = notify_or_fail-Inv (pos n) env (pos id) status s v in
      if_rule (Safe (pos n) (λ s'. s')) r.1 (λ _. next_status-Safe id r.0 w)
        (λ _. report-Inv (pos n) env Trigger.status_notification none (r.0, false) w)
