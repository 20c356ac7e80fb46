-- ===== src/Invariant.antt =====
-- What holds of a simulator between two steps, and the parts of the handlers that keep it. The
-- connectors are those that `NewSimulator` makes, and reservations and goroutines name only these.
use ocpp_cli.Prelude.{
  ◌⊎◌, inl, inr, false, Bool-cases, ℤ, ◌≤◌, ◌≡◌, refl, ◌∙◌, Bool, true, ◌&&◌, Option, none, some,
  List, [], ◌∷◌, ◌++◌, All, All-append, length, length-append, arith, is_pos, leb_ℤ, is_some, ltb,
  if_rule, is_some-some, ◌>>=◌, ap, sym, subst,
}
use ocpp_cli.Prelude.Int.{int_eq}
use ocpp_cli.Prelude.Maps.{Map, get, put, remove, has-put, put-All, remove-All}
use ocpp_cli.Ocpp.{ChargePointStatus, Direction, Action, Word, Piece}
use ocpp_cli.Station.{Simulator, Connector, Reservation, Event, Task, Message, Env}
use ocpp_cli.Station.Emit.{emit, spawn, send, notify_status, notify_status_async, event_capacity}

-- The connectors of a station with `n` of them have the numbers from 1 to `n`.
abbrev pub is_known : ℤ → ℤ → Bool
is_known n id = is_pos id && leb_ℤ id n

-- A reservation is for the whole station or for a connector that exists.
abbrev pub IsHeld : ℤ → ℤ × Reservation → Type 0
IsHeld n e = (is_pos e.1.connector_id ≡ false) ⊎ (is_known n e.1.connector_id ≡ true)

-- The connector that it is for exists.
pub IsHeld-known :
    (n : ℤ) (e : ℤ × Reservation)
    → IsHeld n e
    → is_pos e.1.connector_id ≡ true
    → is_known n e.1.connector_id ≡ true
IsHeld-known n e (inl h) p = cc
IsHeld-known n e (inr h) p = h

pub known-IsHeld :
    (n id : ℤ)
    → (is_pos id ≡ true → is_known n id ≡ true)
    → (is_pos id ≡ false) ⊎ (is_known n id ≡ true)
known-IsHeld n id h = elim (Bool-cases (is_pos id)) [ inl p ↦ inr (h p) | inr p ↦ inl p ]

abbrev pub task_connector : Task → Option ℤ
task_connector (Task.begin_remote id tag r) = some id
task_connector (Task.authorize_remote id tag r) = some id
task_connector (Task.start_remote id tag r) = some id
task_connector (Task.confirm_start id tag r) = some id
task_connector (Task.finish_remote id t) = some id
task_connector (Task.confirm_stop id t) = some id
task_connector _ = none

-- A goroutine of a transaction works on a connector that exists.
abbrev pub IsRunnable : ℤ → Task → Type 0
IsRunnable n t = elim (task_connector t) [ none ↦ Unit {0} | some id ↦ is_known n id ≡ true ]

pub record Inv (n : ℤ) (s : Simulator) : Type 0 where
  pub sized : s.opts.connectors ≡ n
  pub known : (id : ℤ) → is_some (get id s.connectors) ≡ is_known n id
  pub held : All (IsHeld n) s.reservations
  pub running : All (IsRunnable n) s.tasks
  pub buffered : length s.events ≤ event_capacity

-- The outcome of code that may panic: it does not, and the state after it is well formed.
abbrev pub Safe {ℓ} : {A : Type ℓ} → ℤ → (A → Simulator) → Option A → Type 0
Safe n state none = ⊥
Safe n state (some r) = Inv n (state r)

pub emit-Inv :
    (n : ℤ) (env : Env) (d : Direction) (a : Action) (w : Word) (id : Option ℤ) (p : List Piece)
    (s : Simulator)
    → Inv n s
    → Inv n (emit env d a w id p s)
unfolding emit
emit-Inv n env d a w id p s v =
    if_rule (Inv n) s.events_closed (λ _. v)
      λ _.
        if_rule (Inv n) (ltb (length s.events) event_capacity) (λ room. with_event _ room) (λ _. v)
  where
    with_event :
        (e : Event)
        → ltb (length s.events) event_capacity ≡ true
        → Inv n (record s { events = s.events ++ e ∷ [] })
    with_event e room = record {
      sized = v.sized;
      known = v.known;
      held = v.held;
      running = v.running;
      buffered = ground (arith, length-append s.events (e ∷ []));
    }

module _ (n : ℤ) (s : Simulator) (v : Inv n s) where
  pub spawn-Inv : (t : Task) → IsRunnable n t → Inv n (spawn t s)
  spawn-Inv t h = record {
    sized = v.sized;
    known = v.known;
    held = v.held;
    running = All-append (IsRunnable n) s.tasks (t ∷ []) v.running (h, tt);
    buffered = v.buffered;
  }

  pub send-Inv : (m : Message) → Inv n (send m s)
  send-Inv m = record {
    sized = v.sized;
    known = v.known;
    held = v.held;
    running = v.running;
    buffered = v.buffered;
  }

  -- A write through the pointer `s.connectors[id]`.
  pub put_connector-Inv :
      (id : ℤ) (c : Connector)
      → is_some (get id s.connectors) ≡ true
      → Inv n (record s { connectors = put id c s.connectors })
  put_connector-Inv id c h = record {
    sized = v.sized;
    known = λ j. has-put id j c s.connectors h ∙ v.known j;
    held = v.held;
    running = v.running;
    buffered = v.buffered;
  }

  pub put_reservation-Inv :
      (id : ℤ) (r : Reservation)
      → IsHeld n (id, r)
      → Inv n (record s { reservations = put id r s.reservations })
  put_reservation-Inv id r h = record {
    sized = v.sized;
    known = v.known;
    held = put-All (IsHeld n) id r s.reservations h v.held;
    running = v.running;
    buffered = v.buffered;
  }

  -- Fewer reservations.
  pub keep_reservations-Inv :
      (kept : Map ℤ Reservation) → All (IsHeld n) kept → Inv n (record s { reservations = kept })
  keep_reservations-Inv kept h = record {
    sized = v.sized;
    known = v.known;
    held = h;
    running = v.running;
    buffered = v.buffered;
  }

  pub remove_reservation-Inv :
      (id : ℤ) → Inv n (record s { reservations = remove id s.reservations })
  remove_reservation-Inv id =
      keep_reservations-Inv _ (remove-All (IsHeld n) id s.reservations v.held)

  pub notify_status_async-Inv :
      (env : Env) (id : ℤ) (status : ChargePointStatus)
      → Inv n (notify_status_async env id status s)
  unfolding notify_status_async
  notify_status_async-Inv env id status =
      if_rule (Inv n) env.connected (λ _. spawn-Inv (Task.notify id status) tt) (λ _. v)

pub notify_status-Inv :
    (n : ℤ) (s : Simulator) (env : Env) (id : ℤ) (status : ChargePointStatus)
    → Inv n s
    → Inv n (notify_status env id status s)
unfolding notify_status
notify_status-Inv n s env id status v =
    let sent = send-Inv n s v (Message.status_notification id status) in
    if_rule (Inv n) (env.answers (Message.status_notification id status))
      (λ _. emit-Inv n env _ _ _ _ _ _ sent) (λ _. sent)

-- A connector that exists is found; one that is found exists.
pub known_connector :
    (n id : ℤ) (s : Simulator)
    → Inv n s
    → is_known n id ≡ true
    → (c : Connector) × (get id s.connectors ≡ some c)
known_connector n id s v h = is_some-some _ (v.known id ∙ h)

pub connector_known :
    (n id : ℤ) (s : Simulator) (c : Connector)
    → Inv n s
    → get id s.connectors ≡ some c
    → is_known n id ≡ true
connector_known n id s c v e = sym (v.known id) ∙ ap is_some e

-- A step after a step.
pub bind_Safe {ℓ κ} :
    {A : Type ℓ} {B : Type κ} (n : ℤ) (before : A → Simulator) (after : B → Simulator)
    (m : Option A) (f : A → Option B)
    → Safe n before m
    → ((a : A) → m ≡ some a → Inv n (before a) → Safe n after (f a))
    → Safe n after (m >>= f)
bind_Safe n before after none f h k = h
bind_Safe n before after (some a) f h k = k a refl h

-- A step that leaves the parts that the invariant speaks of.
pub frame-Inv :
    (n : ℤ) (s s' : Simulator)
    → s'.opts.connectors ≡ s.opts.connectors
    → s'.connectors ≡ s.connectors
    → s'.reservations ≡ s.reservations
    → s'.tasks ≡ s.tasks
    → s'.events ≡ s.events
    → Inv n s
    → Inv n s'
frame-Inv n s s' a b c d e v = record {
  sized = a ∙ v.sized;
  known = λ id. ap (λ m. is_some (get id m)) b ∙ v.known id;
  held = subst (All (IsHeld n)) (sym c) v.held;
  running = subst (All (IsRunnable n)) (sym d) v.running;
  buffered = ground arith;
}
