-- ===== src/Transactions/StopSafety.antt =====
-- The end of a transaction, the reset and the change of availability: no panic, and the invariant.
use ocpp_cli.Prelude.{
  ℤ, pos, ℕ, inl, inr, ◌≡◌, refl, sym, ◌∙◌, ap, String, Bool, true, false, Option, none, some, List,
  [], ◌∷◌, All, All-map, arith, is_pos, is_some, map, if_rule, some_inj, ◌>>=◌, ◌==ℤ◌, Option-cases,
  Bool-cases,
}
use ocpp_cli.Prelude.Int.{int_eq, ==ℤ_iff}
use ocpp_cli.Prelude.Maps.{Map, get, put}
use ocpp_cli.Ocpp.{AvailabilityType, ChargePointStatus, Word, Action, Direction, Piece}
use ocpp_cli.Station.{Simulator, Connector, Reservation, IdTagInfo, Env, Task, Answer, ok, err}
use ocpp_cli.Invariant.{
  Inv, Safe, IsHeld, is_known, emit-Inv, spawn-Inv, send-Inv, put_connector-Inv,
  keep_reservations-Inv, notify_status-Inv, known_connector, bind_Safe,
}
use ocpp_cli.Reservations.{is_operative}
use ocpp_cli.Reservations.Safety.{
  release_connector-Safe, notify_updates-Inv, remove_reservations-IsHeld,
}
use ocpp_cli.Transactions.{
  find_transaction, on_remote_stop_transaction, finish_remote_transaction, confirmed_stop,
}
use ocpp_cli.Transactions.Reset.{
  reset_connector, status_of_entry, on_reset, change_loop, key_of, named_connectors,
  on_change_availability,
}

-- The connector found is one of the map's.
pub find_transaction-has :
    (t : ℤ) (m : Map ℤ Connector) (id : ℤ) (c : Connector)
    → find_transaction t m ≡ some (id, c)
    → is_some (get id m) ≡ true
unfolding find_transaction get
find_transaction-has t [] id c e = cc
find_transaction-has t ((k, d) ∷ m) id c e =
    ground (arith, find_transaction-has t m id c, ==ℤ_iff k id)

-- `OnRemoteStopTransaction` keeps the invariant.
pub on_remote_stop_transaction-Inv :
    (n : ℤ) (env : Env) (t : ℤ) (s : Simulator)
    → Inv n s
    → Inv n (on_remote_stop_transaction env t s).0
unfolding on_remote_stop_transaction
on_remote_stop_transaction-Inv n env t s v = elim (Option-cases (find_transaction t s.connectors)) [
  | inl missing ↦ rw (missing, on_remote_stop_transaction) (emit-Inv n env _ _ _ _ _ _ v)
  | inr ((id, c), e) ↦
      let has = find_transaction-has t s.connectors id c e in
      rw (e, on_remote_stop_transaction)
        (spawn-Inv n _ (emit-Inv n env _ _ _ _ _ _ (put_connector-Inv n s v id _ has))
          (Task.finish_remote id t) (sym (v.known id) ∙ has))
]

-- The request that ends it.
pub finish_remote_transaction-Safe :
    (n : ℤ) (env : Env) (id t : ℤ) (s : Simulator)
    → Inv n s
    → is_known n id ≡ true
    → Safe n (λ s'. s') (finish_remote_transaction env id t s)
unfolding finish_remote_transaction
finish_remote_transaction-Safe n env id t s v h =
    let w = notify_status-Inv n s env id ChargePointStatus.finishing v in
    let (c, e) = known_connector n id _ w h in
    rw (e, ◌>>=◌) (spawn-Inv n _ (send-Inv n _ w _) (Task.confirm_stop id t) h)

-- The answer to it, of every kind.
pub confirmed_stop-Safe :
    (n : ℤ) (env : Env) (id t : ℤ) (answer : Answer (Option IdTagInfo)) (s : Simulator)
    → Inv n s
    → is_known n id ≡ true
    → Safe n (λ s'. s') (confirmed_stop env id t answer s)
unfolding confirmed_stop
confirmed_stop-Safe n env id t (err detail) s v h = emit-Inv n env _ _ _ _ _ _ v
confirmed_stop-Safe n env id t (ok info) s v h =
    let (c, e) = known_connector n id s v h in
    rw (e, ◌>>=◌)
      (bind_Safe n (λ r. r.0) (λ s'. s') _ _
        (release_connector-Safe env.now n id _ (put_connector-Inv n s v id _ (ap is_some e)) h)
        (λ a _ w. spawn-Inv n _ (emit-Inv n env _ _ _ _ _ _ w) (Task.notify id a.1) tt))

has-reset :
    (now : ℕ) (reservations : Map ℤ Reservation) (m : Map ℤ Connector) (id : ℤ)
    → is_some (get id (map (reset_connector now reservations) m)) ≡ is_some (get id m)
unfolding get reset_connector
has-reset now reservations [] id = refl
has-reset now reservations ((k, c) ∷ m) id = ground (arith, has-reset now reservations m id)

-- `OnReset` keeps the invariant.
pub on_reset-Inv :
    (n : ℤ) (env : Env) (kind : String) (s : Simulator) → Inv n s → Inv n (on_reset env kind s).0
unfolding on_reset
on_reset-Inv n env kind s v =
    notify_updates-Inv n env
      (map status_of_entry (map (reset_connector env.now s.reservations) s.connectors)) _
      (emit-Inv n env Direction.inbound Action.reset Word.accepted none (Piece.lit kind ∷ []) _
        reset)
  where
    reset :
        Inv n (record s { connectors = map (reset_connector env.now s.reservations) s.connectors })
    reset = record {
      sized = v.sized;
      known = λ id. has-reset env.now s.reservations s.connectors id ∙ v.known id;
      held = v.held;
      running = v.running;
      buffered = v.buffered;
    }

abbrev AllKnown : ℤ → List ℤ → Type 0
AllKnown n = All (λ id. is_known n id ≡ true)

change_loop-Safe :
    (now : ℕ) (n : ℤ) (kind : AvailabilityType) (ids : List ℤ) (updates : Map ℤ ChargePointStatus)
    (scheduled : Bool) (s : Simulator)
    → AllKnown n ids
    → Inv n s
    → Safe n (λ r. r.0) (change_loop now kind ids updates scheduled s)
unfolding change_loop
change_loop-Safe now n kind [] updates scheduled s h v = v
change_loop-Safe now n kind (id ∷ ids) updates scheduled s h v =
    let (c, e) = known_connector n id s v h.0 in
    let put_ok = put_connector-Inv n s v id (record c { availability = kind }) (ap is_some e) in
    let kept =
      if_rule (All (IsHeld n)) (is_operative kind) (λ _. v.held)
        (λ _. remove_reservations-IsHeld n id s.reservations v.held) in
    let w = keep_reservations-Inv n _ put_ok _ kept in
    rw (e, ◌>>=◌)
      (if_rule (Safe n (λ r. r.0)) (is_pos c.transaction_id)
        (λ _. change_loop-Safe now n kind ids updates true _ h.1 w)
        (λ _.
          bind_Safe n (λ r. r.0) (λ r. r.0) _ _ (release_connector-Safe now n id _ w h.0)
            (λ a _ u. change_loop-Safe now n kind ids (put id a.1 updates) scheduled a.0 h.1 u)))

abbrev IsKey : Map ℤ Connector → ℤ → Type 0
IsKey m id = is_some (get id m) ≡ true

keys-found : (m : Map ℤ Connector) → All (IsKey m) (map key_of m)
unfolding get
keys-found [] = tt
keys-found ((k, c) ∷ m) =
    (found_self, All-map (IsKey m) (IsKey ((k, c) ∷ m)) (map key_of m) found_later (keys-found m))
  where
    found_self : is_some (get k ((k, c) ∷ m)) ≡ true
    found_self = ground (arith, ==ℤ_iff k k)

    found_later : (id : ℤ) → IsKey m id → IsKey ((k, c) ∷ m) id
    found_later id h = ground arith

named_connectors-known :
    (n id : ℤ) (ids : List ℤ) (s : Simulator)
    → Inv n s
    → named_connectors id s ≡ some ids
    → AllKnown n ids
unfolding named_connectors
named_connectors-known n id ids s v e = elim (Bool-cases (id ==ℤ pos 0)) [
  | inl all ↦ rw (← some_inj (rw all at e)) (
      All-map (IsKey s.connectors) (λ i. is_known n i ≡ true) (map key_of s.connectors)
        (λ i h. sym (v.known i) ∙ h) (keys-found s.connectors))
  | inr one ↦ elim (Bool-cases (is_some (get id s.connectors))) [
    | inl there ↦ rw (← some_inj (rw (one, there) at e)) (sym (v.known id) ∙ there, tt)
    | inr missing ↦ absurd (nothing (rw (one, missing) at e))
  ]
]
  where
    nothing : {ids : List ℤ} → none ≡ some ids → ⊥
    nothing h = cc

-- `OnChangeAvailability` does not panic, and keeps the invariant.
pub on_change_availability-Safe :
    (n : ℤ) (env : Env) (id : ℤ) (kind : AvailabilityType) (s : Simulator)
    → Inv n s
    → Safe n (λ r. r.0) (on_change_availability env id kind s)
unfolding on_change_availability
on_change_availability-Safe n env id kind s v = elim (Option-cases (named_connectors id s)) [
  | inl missing ↦ rw (missing, on_change_availability) (emit-Inv n env _ _ _ _ _ _ v)
  | inr (ids, e) ↦
      rw (e, on_change_availability)
        (bind_Safe n (λ r. r.0) (λ r. r.0) _ _
          (change_loop-Safe env.now n kind ids [] false s (named_connectors-known n id ids s v e) v)
          (λ a _ w. notify_updates-Inv n env a.1 _ (emit-Inv n env _ _ _ _ _ _ w)))
]
