-- ===== src/System/Endings.antt =====
-- When `Run` ends, and what it leaves to the reader of its events.
use ocpp_cli.Prelude.{
  ℤ, pos, ℕ, ◌≡◌, refl, ap, inl, inr, String, Bool, true, false, Option, none, some, List, [], ◌∷◌,
  any, Bool-cases, Option-cases, ◌↔◌, ◌>>=◌, arith,
}
use ocpp_cli.Station.{Simulator, BootResult, Env, Answer, ok, err}
use ocpp_cli.Invariant.{Inv, Safe, emit-Inv}
use ocpp_cli.Reservations.Safety.{expire_reservations-Safe}
use ocpp_cli.Telemetry.{send_initial_statuses}
use ocpp_cli.Telemetry.Laws.{
  send_boot_notification-Inv, send_initial_statuses-Inv, send_heartbeat-Inv, send_meter_values-Inv,
}
use ocpp_cli.Errors.{Error}
use ocpp_cli.Client.Types.{Texts}
use ocpp_cli.System.Runs.{handle-Safe}
use ocpp_cli.System.Control.{
  RunError, Tick, done, link, heartbeat_tick, meter_tick, reservation_tick, request, Ended, running,
  returned, Channels, can_receive, after_tick, goes_on, on_tick, unless_ended, run_loop, after_boot,
  close_simulator, run_connected, run, is_refused, channels_of,
}

abbrev pub is_done : Tick → Bool
is_done (done env) = true
is_done _ = false

-- An outcome that has ended, in a well-formed state or in any.
abbrev HasEnded : Option (Simulator × Ended) → Type 0
HasEnded o = (s : Simulator) × (e : Option RunError) × (o ≡ some (s, returned e))

goes_on-Safe : (n : ℤ) (o : Option Simulator) → Safe n (λ s. s) o → Safe n (λ r. r.0) (goes_on o)
goes_on-Safe n none h = h
goes_on-Safe n (some s) h = h

on_tick-Safe :
    (t : Texts) (n : ℕ) (tick : Tick) (s : Simulator)
    → Inv (pos n) s
    → Safe (pos n) (λ r. r.0) (on_tick t tick s)
unfolding on_tick
on_tick-Safe t n (done env) s v = emit-Inv (pos n) env _ _ _ _ _ _ v
on_tick-Safe t n (link none) s v = v
on_tick-Safe t n (link (some e)) s v = v
on_tick-Safe t n (heartbeat_tick env detail) s v = send_heartbeat-Inv (pos n) env detail s v
on_tick-Safe t n (meter_tick env) s v = send_meter_values-Inv (pos n) env s v
on_tick-Safe t n (reservation_tick env) s v =
    goes_on-Safe (pos n) _ (expire_reservations-Safe (pos n) env s v)
on_tick-Safe t n (request env r) s v = goes_on-Safe (pos n) _ (handle-Safe n env r s v)

-- The rest of a run that ends from every well-formed state.
unless_ended-ends :
    (t : Texts) (n : ℤ) (next : Simulator → Option (Simulator × Ended))
    (o : Option (Simulator × Ended))
    → Safe n (λ r. r.0) o
    → ((s : Simulator) → Inv n s → HasEnded (next s))
    → HasEnded (o >>= unless_ended t next)
unfolding unless_ended
unless_ended-ends t n next none safe ends = absurd safe
unless_ended-ends t n next (some (s, running)) safe ends = ends s safe
unless_ended-ends t n next (some (s, returned e)) safe ends = (s, e, refl)

-- The end of the context ends the loop, and is always received.
done_ends :
    (t : Texts) (tick : Tick) (s : Simulator) (next : Simulator → Option (Simulator × Ended))
    → is_done tick ≡ true
    → HasEnded (on_tick t tick s >>= unless_ended t next)
unfolding on_tick unless_ended
done_ends t (done env) s next h = (_, _, refl)
done_ends t (link e) s next h = cc
done_ends t (heartbeat_tick env detail) s next h = cc
done_ends t (meter_tick env) s next h = cc
done_ends t (reservation_tick env) s next h = cc
done_ends t (request env r) s next h = cc

unreceived_not_done :
    (c : Channels) (tick : Tick) → can_receive c tick ≡ false → is_done tick ≡ false
unreceived_not_done c tick h = ground arith

run_loop-ends :
    (t : Texts) (n : ℕ) (c : Channels) (ticks : List Tick) (s : Simulator)
    → Inv (pos n) s
    → any is_done ticks ≡ true
    → HasEnded (run_loop t c ticks s)
unfolding run_loop
run_loop-ends t n c [] s v h = cc
run_loop-ends t n c (tick ∷ ticks) s v h = elim (Bool-cases (can_receive c tick)) [
  | inl received ↦
      rw (received, run_loop)
        (elim (Bool-cases (is_done tick)) [
          | inl last ↦ done_ends t tick s _ last
          | inr other ↦
              unless_ended-ends t (pos n) _ (on_tick t tick s) (on_tick-Safe t n tick s v)
                (λ s' w. run_loop-ends t n (after_tick tick c) ticks s' w (rw other at h))
        ])
  | inr ignored ↦
      rw (ignored, run_loop)
        (run_loop-ends t n c ticks s v (rw (unreceived_not_done c tick ignored) at h))
]

after_boot-ends :
    (t : Texts) (n : ℕ) (env : Env) (ticks : List Tick) (answer : Answer BootResult)
    (r : Simulator × Bool)
    → Inv (pos n) r.0
    → any is_done ticks ≡ true
    → HasEnded (after_boot t env ticks answer r)
unfolding after_boot
after_boot-ends t n env ticks (err detail) (s, b) v h = (_, _, refl)
after_boot-ends t n env ticks (ok boot) (s, b) v h = elim (Bool-cases (is_refused t boot.status)) [
  | inl refused ↦ rw (refused, after_boot) (_, _, refl)
  | inr accepted ↦
      rw (accepted, after_boot)
        (elim (Bool-cases (send_initial_statuses env s).1) [
          | inl sent ↦
              rw (sent, after_boot)
                (run_loop-ends t n (channels_of t s boot) ticks (send_initial_statuses env s).0
                  (send_initial_statuses-Inv (pos n) env s v) h)
          | inr unsent ↦ rw (unsent, after_boot) (_, _, refl)
        ])
]

-- A run that has connected is closed when it ends.
closed_after :
    (t : Texts) (o : Option (Simulator × Ended))
    → HasEnded o
    → (s : Simulator) × (e : Option RunError) × ((o >>= λ r. some (close_simulator t r))
        ≡ some (s, returned e))
      × (s.events_closed ≡ true)
closed_after t o (s, e, ends) = (
  record s { events_closed = true },
  e,
  ap (λ o. o >>= λ r. some (close_simulator t r)) ends,
  refl,
)

-- From a well-formed state, a run whose connection has been made ends once the context does, without
-- a nil dereference, whatever the central system answers and whatever is received before, in
-- whatever order; and its channel of events is then closed.
pub run_connected-ends :
    (t : Texts) (n : ℕ) (env : Env) (address : String) (answer : Answer BootResult)
    (ticks : List Tick) (s : Simulator)
    → Inv (pos n) s
    → any is_done ticks ≡ true
    → (s' : Simulator) × (e : Option RunError) × (run_connected t env address answer ticks s
        ≡ some (s', returned e))
      × (s'.events_closed ≡ true)
unfolding run_connected
run_connected-ends t n env address answer ticks s v h = closed_after t _ (
    after_boot-ends t n env ticks answer _
      (send_boot_notification-Inv (pos n) env answer _ (emit-Inv (pos n) env _ _ _ _ _ _ v)) h)

-- Whether `Run` got as far as its loop.
abbrev pub IsConnected : Env → Option Error → Type 0
IsConnected env started = (env.open_context ≡ true) × (started ≡ none)

-- From a well-formed state with an open channel of events, a run ends once the context does, without
-- a nil dereference; and it has closed the channel exactly if its context was open at the start and
-- the connection was made.
pub run-closed :
    (t : Texts) (n : ℕ) (env : Env) (started : Option Error) (address : String)
    (answer : Answer BootResult) (ticks : List Tick) (s : Simulator)
    → Inv (pos n) s
    → any is_done ticks ≡ true
    → s.events_closed ≡ false
    → (s' : Simulator) × (e : Option RunError) × (run t env started address answer ticks s
        ≡ some (s', returned e))
      × ((s'.events_closed ≡ true) ↔ IsConnected env started)
unfolding run
run-closed t n env started address answer ticks s v h unclosed =
    elim (Bool-cases env.open_context) [
      | inr ended ↦ rw (ended, run) (s, none, refl, (λ shut. cc, λ made. cc))
      | inl open_now ↦ elim (Option-cases started) [
        | inr (e, failed) ↦ rw (open_now, run, failed) (s, _, refl, (λ shut. cc, λ made. cc))
        | inl connects ↦
            let (s', e, ends, shut) = run_connected-ends t n env address answer ticks s v h in
            rw (open_now, run, connects) (s', e, ends, (λ q. (refl, refl), λ made. shut))
      ]
    ]
