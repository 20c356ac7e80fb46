-- ===== src/Reservations/Expiry.antt =====
-- What `expireReservations` leaves.
use ocpp_cli.Prelude.{
  ℤ, ℕ, ◌≡◌, refl, ap, ◌∙◌, inl, inr, Bool, true, false, ◌&&◌, ◌||◌, not, Option, none, some, List,
  [], ◌∷◌, ◌++◌, any, ltb, ◌==ℤ◌, is_pos, if_rule, ◌>>=◌, Option-cases, if◌then◌else◌, sort, leb_ℤ,
}
use ocpp_cli.Prelude.Int.{int_eq}
use ocpp_cli.Prelude.Maps.{Map, get, remove, get-remove}
use ocpp_cli.Ocpp.{ChargePointStatus, Word, Action, Piece, Direction}
use ocpp_cli.Station.{Simulator, Reservation, Env, Message}
use ocpp_cli.Station.Emit.{send, notify_status}
use ocpp_cli.Invariant.{Inv, Safe}
use ocpp_cli.Logs.Laws.{emit-frame}
use ocpp_cli.Reservations.{idle_status, set_status}
use ocpp_cli.Reservations.Handlers.{
  release_connector, drop_reservation, put_updates, expire_loop, emit_expired, notify_each,
  expire_reservations,
}
use ocpp_cli.Reservations.Safety.{expire_reservations-Safe}

-- An outcome, if there is one, is as told.
abbrev pub Post {ℓ κ} : {A : Type ℓ} → (A → Type κ) → Option A → Type κ
Post P none = Unit
Post P (some a) = P a

pub bind_Post {ℓ κ μ ν} :
    {A : Type ℓ} {B : Type κ} (P : A → Type μ) (Q : B → Type ν) (m : Option A) (f : A → Option B)
    → Post P m
    → ((a : A) → P a → Post Q (f a))
    → Post Q (m >>= f)
bind_Post P Q none f h k = tt
bind_Post P Q (some a) f h k = k a h

-- With what tells that there is one.
pub returned {κ} :
    (n : ℤ) (P : Simulator → Type κ) (o : Option Simulator)
    → Safe n (λ s. s) o
    → Post P o
    → (s : Simulator) × (o ≡ some s) × P s
returned n P none h p = absurd h
returned n P (some s) h p = (s, refl, p)

release_connector-reservations :
    (now : ℕ) (id : ℤ) (s : Simulator)
    → Post (λ r. r.0.reservations ≡ s.reservations) (release_connector now id s)
unfolding release_connector idle_status set_status
release_connector-reservations now id s = elim (Option-cases (get id s.connectors)) [
  | inl missing ↦ rw (missing, ◌>>=◌) tt
  | inr (c, e) ↦ rw (e, ◌>>=◌) refl
]

pub drop_reservation-reservations :
    (now : ℕ) (id : ℤ) (existing : Reservation) (s : Simulator)
    → Post (λ r. r.0.reservations ≡ remove id s.reservations) (drop_reservation now id existing s)
unfolding drop_reservation
drop_reservation-reservations now id existing s =
    if_rule (Post (λ r. r.0.reservations ≡ remove id s.reservations)) (is_pos existing.connector_id)
      (λ _.
        bind_Post (λ r. r.0.reservations ≡ remove id s.reservations) _ _ _
          (release_connector-reservations now existing.connector_id
            (record s { reservations = remove id s.reservations }))
          (λ a e. e))
      (λ _. refl)

-- An entry under the number `k` that has run out.
abbrev pub lapsed : ℕ → ℤ → ℤ × Reservation → Bool
lapsed now k e = e.0 ==ℤ k && not (ltb now e.1.expiry)

abbrev AfterLoop : ℕ → Map ℤ Reservation → Map ℤ Reservation → Simulator → Type 0
AfterLoop now entries m s =
    (k : ℤ) → get k s.reservations ≡ (if any (lapsed now k) entries then none else get k m)

-- A round that leaves its entry, and one that removes it.
live_round :
    (same live lapsed_later : Bool) {A : Type 0} (o found : Option A)
    → live ≡ true
    → o ≡ (if lapsed_later then none else found)
    → o ≡ (if same && not live || lapsed_later then none else found)
live_round true true later o found h e = e
live_round false true later o found h e = e
live_round same false later o found h e = cc

removed_round :
    (same live lapsed_later : Bool) {A : Type 0} (o found dropped : Option A)
    → live ≡ false
    → o ≡ (if lapsed_later then none else dropped)
    → dropped ≡ (if same then none else found)
    → o ≡ (if same && not live || lapsed_later then none else found)
removed_round same true later o found dropped h e d = cc
removed_round true false true o found dropped h e d = e
removed_round true false false o found dropped h e d = e ∙ d
removed_round false false true o found dropped h e d = e
removed_round false false false o found dropped h e d = e ∙ d

pub map_Post {ℓ κ μ} :
    {A : Type ℓ} (P : A → Type κ) (Q : A → Type μ) (o : Option A)
    → Post P o
    → ((a : A) → P a → Post Q (some a))
    → Post Q o
map_Post P Q none h k = tt
map_Post P Q (some a) h k = k a h

expire_loop-AfterLoop :
    (now : ℕ) (entries : Map ℤ Reservation) (updates : Map ℤ ChargePointStatus) (expired : List ℤ)
    (s : Simulator)
    → Post
        (λ r. AfterLoop now entries s.reservations r.0)
        (expire_loop now entries updates expired s)
unfolding expire_loop
expire_loop-AfterLoop now [] updates expired s = λ k. refl
expire_loop-AfterLoop now ((id, current) ∷ rest) updates expired s =
    if_rule (Post left) (ltb now current.expiry)
      (λ live.
        map_Post (λ r. AfterLoop now rest s.reservations r.0) left _
          (expire_loop-AfterLoop now rest updates expired s)
          (λ a h k.
            live_round (id ==ℤ k) (ltb now current.expiry) (any (lapsed now k) rest)
              (get k a.0.reservations) (get k s.reservations) live (h k)))
      (λ dead.
        bind_Post (λ r. r.0.reservations ≡ remove id s.reservations) left _ _
          (drop_reservation-reservations now id current s)
          (λ b removed.
            map_Post (λ r. AfterLoop now rest b.0.reservations r.0) left _
              (expire_loop-AfterLoop now rest (put_updates b.1 updates) (expired ++ id ∷ []) b.0)
              (λ a h k.
                removed_round (id ==ℤ k) (ltb now current.expiry) (any (lapsed now k) rest)
                  (get k a.0.reservations) (get k s.reservations) (get k b.0.reservations) dead
                  (h k) (ap (get k) removed ∙ get-remove id k s.reservations))))
  where
    left : Simulator × Map ℤ ChargePointStatus × List ℤ → Type 0
    left r = AfterLoop now ((id, current) ∷ rest) s.reservations r.0

emit_expired-reservations :
    (env : Env) (ids : List ℤ) (s : Simulator)
    → (emit_expired env ids s).reservations ≡ s.reservations
unfolding emit_expired
emit_expired-reservations env [] s = refl
emit_expired-reservations env (id ∷ ids) s =
    emit_expired-reservations env ids _
    ∙ ap (λ t. t.reservations)
        (emit-frame env Direction.system Action.reservation_expired Word.expired none
          (Piece.num id ∷ []) s)

-- A status notification shows in the channel and in what was sent alone.
pub notify_status-frame :
    (env : Env) (id : ℤ) (status : ChargePointStatus) (s : Simulator)
    → notify_status env id status s ≡ record s {
      events = (notify_status env id status s).events;
      sent = s.sent ++ Message.status_notification id status ∷ [];
    }
unfolding notify_status
notify_status-frame env id status s =
    if_rule
      (λ (t : Simulator). t ≡ record s {
        events = t.events;
        sent = s.sent ++ Message.status_notification id status ∷ [];
      })
      (env.answers (Message.status_notification id status))
      (λ _.
        emit-frame env Direction.outbound Action.status_notification (Word.of_status status)
          (some id) [] (send (Message.status_notification id status) s))
      (λ _. refl)

notify_each-reservations :
    (env : Env) (updates : Map ℤ ChargePointStatus) (s : Simulator)
    → (notify_each env updates s).reservations ≡ s.reservations
unfolding notify_each
notify_each-reservations env [] s = refl
notify_each-reservations env ((id, status) ∷ updates) s =
    notify_each-reservations env updates _
    ∙ if_rule (λ (t : Simulator). t.reservations ≡ s.reservations) env.connected
        (λ _. ap (λ t. t.reservations) (notify_status-frame env id status s)) (λ _. refl)

-- On a well-formed station the expiry of reservations comes to an end, and then a reservation number
-- is free if an entry under it has run out, and every other reservation is as it was.
pub expire_reservations_lem :
    (n : ℤ) (env : Env) (s : Simulator)
    → Inv n s
    → (s' : Simulator) × (expire_reservations env s ≡ some s')
      × ((k : ℤ)
          → get k s'.reservations
            ≡ (if any (lapsed env.now k) s.reservations then none else get k s.reservations))
unfolding expire_reservations
expire_reservations_lem n env s v =
    returned n (AfterLoop env.now s.reservations s.reservations) _
      (expire_reservations-Safe n env s v)
      (bind_Post (λ r. AfterLoop env.now s.reservations s.reservations r.0)
        (AfterLoop env.now s.reservations s.reservations) _ _
        (expire_loop-AfterLoop env.now s.reservations [] [] s)
        (λ a h k.
          ap (get k) (
            notify_each-reservations env a.1 _ ∙ emit_expired-reservations env (sort leb_ℤ a.2) a.0)
          ∙ h k))
