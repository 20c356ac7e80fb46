-- ===== src/Reservations/Safety.antt =====
-- The reservation handlers never dereference a missing connector, and keep the invariant.
use ocpp_cli.Prelude.{
  ℤ, pos, ℕ, inl, inr, ◌≡◌, refl, true, Option, none, some, List, [], ◌∷◌, ◌++◌, All, arith, is_pos,
  leb_ℤ, is_some, ltb, if_rule, ◌>>=◌, ap, ◌==ℤ◌, sort, Option-cases, Bool-cases,
}
use ocpp_cli.Prelude.Int.{int_eq}
use ocpp_cli.Prelude.Maps.{Map, get, get-All}
use ocpp_cli.Ocpp.{ChargePointStatus}
use ocpp_cli.Station.{Simulator, Reservation, Env}
use ocpp_cli.Invariant.{
  Inv, Safe, IsHeld, IsHeld-known, known-IsHeld, is_known, emit-Inv, put_connector-Inv,
  put_reservation-Inv, remove_reservation-Inv, notify_status_async-Inv, notify_status-Inv,
  known_connector, connector_known, bind_Safe,
}
use ocpp_cli.Reservations.{set_status}
use ocpp_cli.Reservations.Handlers.{
  ReserveNowRequest, notify_updates, release_connector, drop_reservation, reserve_one,
  reserve_decision, is_accepted, store_reservation, reserve, reserve_unless_expired, on_reserve_now,
  on_cancel_reservation, put_updates, expire_loop, emit_expired, notify_each, expire_reservations,
  remove_reservations_for_connector,
}

pub set_status-Safe :
    (n id : ℤ) (status : ChargePointStatus) (s : Simulator)
    → Inv n s
    → is_known n id ≡ true
    → Safe n (λ s'. s') (set_status id status s)
unfolding set_status
set_status-Safe n id status s v h =
    let (c, e) = known_connector n id s v h in rw e (put_connector-Inv n s v id _ (ap is_some e))

pub release_connector-Safe :
    (now : ℕ) (n id : ℤ) (s : Simulator)
    → Inv n s
    → is_known n id ≡ true
    → Safe n (λ r. r.0) (release_connector now id s)
unfolding release_connector
release_connector-Safe now n id s v h =
    let (c, e) = known_connector n id s v h in
    rw (e, ◌>>=◌) (put_connector-Inv n s v id _ (ap is_some e))

pub notify_updates-Inv :
    (n : ℤ) (env : Env) (updates : Map ℤ ChargePointStatus) (s : Simulator)
    → Inv n s
    → Inv n (notify_updates env updates s)
unfolding notify_updates
notify_updates-Inv n env [] s v = v
notify_updates-Inv n env ((id, status) ∷ updates) s v =
    notify_updates-Inv n env updates _ (notify_status_async-Inv n s v env id status)

pub drop_reservation-Safe :
    (now : ℕ) (n id : ℤ) (existing : Reservation) (s : Simulator)
    → Inv n s
    → IsHeld n (id, existing)
    → Safe n (λ r. r.0) (drop_reservation now id existing s)
unfolding drop_reservation
drop_reservation-Safe now n id existing s v h =
    let removed = remove_reservation-Inv n s v id in
    if_rule (Safe n (λ r. r.0)) (is_pos existing.connector_id)
      (λ p.
        bind_Safe n (λ r. r.0) (λ r. r.0) _ _
          (release_connector-Safe now n existing.connector_id _ removed
            (IsHeld-known n (id, existing) h p))
          (λ a _ w. w))
      (λ _. removed)

-- Only a connector that exists is reserved.
reserve_one-known :
    (n : ℤ) (request : ReserveNowRequest) (s : Simulator)
    → Inv n s
    → is_accepted (reserve_one request s) ≡ true
    → is_known n request.connector_id ≡ true
unfolding reserve_one
reserve_one-known n request s v h = elim (Option-cases (get request.connector_id s.connectors)) [
  | inl missing ↦ ground arith
  | inr (c, e) ↦ connector_known n request.connector_id s c v e
]

reserve_decision-IsHeld :
    (now : ℕ) (n : ℤ) (request : ReserveNowRequest) (s : Simulator)
    → Inv n s
    → is_accepted (reserve_decision now request s) ≡ true
    → is_pos request.connector_id ≡ true
    → is_known n request.connector_id ≡ true
unfolding reserve_decision
reserve_decision-IsHeld now n request s v h p = elim (Bool-cases (request.connector_id ==ℤ pos 0)) [
  | inl station ↦ ground arith
  | inr one ↦ reserve_one-known n request s v (rw one at h)
]

store_reservation-Safe :
    (n : ℤ) (request : ReserveNowRequest) (expiry : ℕ) (updates : Map ℤ ChargePointStatus)
    (s : Simulator)
    → Inv n s
    → (is_pos request.connector_id ≡ true → is_known n request.connector_id ≡ true)
    → Safe n (λ r. r.0) (store_reservation request expiry updates s)
unfolding store_reservation
store_reservation-Safe n request expiry updates s v h =
    let stored =
      put_reservation-Inv n s v request.reservation_id _ (known-IsHeld n request.connector_id h) in
    if_rule (Safe n (λ r. r.0)) (is_pos request.connector_id)
      (λ p.
        bind_Safe n (λ s'. s') (λ r. r.0) _ _
          (set_status-Safe n request.connector_id ChargePointStatus.reserved _ stored (h p))
          (λ a _ w. w))
      (λ _. stored)

reserve-Safe :
    (now : ℕ) (n : ℤ) (request : ReserveNowRequest) (expiry : ℕ) (s : Simulator)
    → Inv n s
    → Safe n (λ r. r.0) (reserve now request expiry s)
unfolding reserve
reserve-Safe now n request expiry s v =
    bind_Safe n (λ r. r.0) (λ r. r.0) _ _ dropped
      λ a _ w.
        bind_Safe n (λ r. r.0) (λ r. r.0) _ _
          (if_rule (Safe n (λ r. r.0)) (is_accepted (reserve_decision now request a.0))
            (λ h.
              store_reservation-Safe n request expiry a.1 a.0 w
                (reserve_decision-IsHeld now n request a.0 w h))
            (λ _. w))
          (λ b _ u. u)
  where
    drop_found :
        (o : Option Reservation)
        → get request.reservation_id s.reservations ≡ o
        → Safe {A = Simulator × Map ℤ ChargePointStatus} n
            (λ r. r.0)
            (elim o [
              | none ↦ some (s, [])
              | some existing ↦ drop_reservation now request.reservation_id existing s
            ])
    drop_found none e = v
    drop_found (some existing) e =
        drop_reservation-Safe now n request.reservation_id existing s v
          (get-All (IsHeld n) request.reservation_id existing s.reservations v.held e)

    dropped :
        Safe {A = Simulator × Map ℤ ChargePointStatus} n
          (λ r. r.0)
          (elim (get request.reservation_id s.reservations) [
            | none ↦ some (s, [])
            | some existing ↦ drop_reservation now request.reservation_id existing s
          ])
    dropped = drop_found (get request.reservation_id s.reservations) refl

reserve_unless_expired-Safe :
    (now : ℕ) (n : ℤ) (request : ReserveNowRequest) (expiry : Option ℕ) (s : Simulator)
    → Inv n s
    → request.expiry_date ≡ expiry
    → Safe n (λ r. r.0) (reserve_unless_expired now request s)
unfolding reserve_unless_expired
reserve_unless_expired-Safe now n request none s v e = rw (e, reserve_unless_expired) v
reserve_unless_expired-Safe now n request (some expiry) s v e =
    rw (e, reserve_unless_expired)
      (if_rule (Safe n (λ r. r.0)) (ltb now expiry) (λ _. reserve-Safe now n request expiry s v)
        (λ _. v))

-- `OnReserveNow` does not panic, and keeps the invariant, whatever the request.
pub on_reserve_now-Safe :
    (n : ℤ) (env : Env) (request : ReserveNowRequest) (s : Simulator)
    → Inv n s
    → Safe n (λ r. r.0) (on_reserve_now env request s)
unfolding on_reserve_now
on_reserve_now-Safe n env request s v =
    bind_Safe n (λ r. r.0) (λ r. r.0) _ _
      (reserve_unless_expired-Safe env.now n request request.expiry_date s v refl)
      (λ a _ w. notify_updates-Inv n env a.1 _ (emit-Inv n env _ _ _ _ _ _ w))

-- `OnCancelReservation` does not panic, and keeps the invariant, whatever the request.
pub on_cancel_reservation-Safe :
    (n : ℤ) (env : Env) (id : ℤ) (s : Simulator)
    → Inv n s
    → Safe n (λ r. r.0) (on_cancel_reservation env id s)
unfolding on_cancel_reservation
on_cancel_reservation-Safe n env id s v = elim (Option-cases (get id s.reservations)) [
  | inl missing ↦
      rw (missing, on_cancel_reservation)
        (notify_updates-Inv n env [] _ (emit-Inv n env _ _ _ _ _ _ v))
  | inr (existing, e) ↦
      rw (e, on_cancel_reservation)
        (bind_Safe n (λ r. r.0) (λ r. r.0) _ _
          (bind_Safe n (λ r. r.0) (λ r. r.0) _ _
            (drop_reservation-Safe env.now n id existing s v
              (get-All (IsHeld n) id existing s.reservations v.held e))
            (λ a _ w. w))
          (λ a _ w. notify_updates-Inv n env a.1 _ (emit-Inv n env _ _ _ _ _ _ w)))
]

expire_loop-Safe :
    (now : ℕ) (n : ℤ) (entries : Map ℤ Reservation) (updates : Map ℤ ChargePointStatus)
    (expired : List ℤ) (s : Simulator)
    → All (IsHeld n) entries
    → Inv n s
    → Safe n (λ r. r.0) (expire_loop now entries updates expired s)
unfolding expire_loop
expire_loop-Safe now n [] updates expired s h v = v
expire_loop-Safe now n ((id, current) ∷ rest) updates expired s h v =
    if_rule (Safe n (λ r. r.0)) (ltb now current.expiry)
      (λ _. expire_loop-Safe now n rest updates expired s h.1 v)
      (λ _.
        bind_Safe n (λ r. r.0) (λ r. r.0) _ _ (drop_reservation-Safe now n id current s v h.0)
          (λ a _ w.
            expire_loop-Safe now n rest (put_updates a.1 updates) (expired ++ id ∷ []) a.0 h.1 w))

emit_expired-Inv :
    (n : ℤ) (env : Env) (ids : List ℤ) (s : Simulator) → Inv n s → Inv n (emit_expired env ids s)
unfolding emit_expired
emit_expired-Inv n env [] s v = v
emit_expired-Inv n env (id ∷ ids) s v = emit_expired-Inv n env ids _ (emit-Inv n env _ _ _ _ _ _ v)

notify_each-Inv :
    (n : ℤ) (env : Env) (updates : Map ℤ ChargePointStatus) (s : Simulator)
    → Inv n s
    → Inv n (notify_each env updates s)
unfolding notify_each
notify_each-Inv n env [] s v = v
notify_each-Inv n env ((id, status) ∷ updates) s v =
    notify_each-Inv n env updates _
      (if_rule (Inv n) env.connected (λ _. notify_status-Inv n s env id status v) (λ _. v))

-- The expiry of reservations does not panic, and keeps the invariant.
pub expire_reservations-Safe :
    (n : ℤ) (env : Env) (s : Simulator) → Inv n s → Safe n (λ s'. s') (expire_reservations env s)
unfolding expire_reservations
expire_reservations-Safe n env s v =
    bind_Safe n (λ r. r.0) (λ s'. s') _ _
      (expire_loop-Safe env.now n s.reservations [] [] s v.held v)
      (λ a _ w. notify_each-Inv n env a.1 _ (emit_expired-Inv n env (sort leb_ℤ a.2) _ w))

pub remove_reservations-IsHeld :
    (n id : ℤ) (entries : Map ℤ Reservation)
    → All (IsHeld n) entries
    → All (IsHeld n) (remove_reservations_for_connector id entries)
unfolding remove_reservations_for_connector
remove_reservations-IsHeld n id [] h = tt
remove_reservations-IsHeld n id ((k, r) ∷ rest) h =
    let kept = remove_reservations-IsHeld n id rest h.1 in
    if_rule (All (IsHeld n)) (r.connector_id ==ℤ id) (λ _. kept) (λ _. (h.0, kept))
