-- ===== src/Reservations/Reserve.antt =====
-- What `OnReserveNow` leaves.
use ocpp_cli.Prelude.{
  ℤ, ℕ, ◌≡◌, ◌⊎◌, subst, refl, sym, ap, ◌∙◌, inl, inr, Bool, true, false, Option, none, some, List,
  [], ◌∷◌, ltb, ◌==ℤ◌, is_pos, if_rule, ◌>>=◌, Option-cases, Bool-cases, if◌then◌else◌,
}
use ocpp_cli.Prelude.Int.{int_eq, ==ℤ_iff}
use ocpp_cli.Prelude.Maps.{Map, get, put, remove, get-put, get-remove}
use ocpp_cli.Ocpp.{ChargePointStatus, Word, Action, Piece, Direction}
use ocpp_cli.Station.{Simulator, Reservation, Env}
use ocpp_cli.Station.Emit.{emit, notify_status_async}
use ocpp_cli.Invariant.{Inv, Safe}
use ocpp_cli.Logs.Laws.{emit-frame}
use ocpp_cli.Reservations.{set_status}
use ocpp_cli.Reservations.Handlers.{
  ReserveNowRequest, notify_updates, drop_reservation, is_accepted, reserve_decision,
  store_reservation, reserve, reserve_unless_expired, on_reserve_now,
}
use ocpp_cli.Reservations.Expiry.{Post, bind_Post, map_Post, drop_reservation-reservations}
use ocpp_cli.Reservations.Safety.{on_reserve_now-Safe}

-- The reservation that a request asks for.
abbrev pub asked_for : ReserveNowRequest → ℕ → Reservation
asked_for request expiry = record {
  connector_id = request.connector_id;
  id_tag = request.id_tag;
  parent_id_tag = request.parent_id_tag;
  expiry = expiry;
}

-- A reservation of another number than `id` is as before.
abbrev pub KeepsOthers : ℤ → Map ℤ Reservation → Map ℤ Reservation → Type 0
KeepsOthers id m m' = (k : ℤ) → get k m' ≡ (if id ==ℤ k then get id m' else get k m)

-- The reservation is stored, and has not run out; or the request is refused, and its number is free
-- or nothing has changed.
abbrev pub IsReserved :
    ℕ → ReserveNowRequest → Map ℤ Reservation → Map ℤ Reservation → Word → Type 0
IsReserved now request m m' word =
    ((is_accepted word ≡ true)
      × (expiry : ℕ) × (request.expiry_date ≡ some expiry)
      × (ltb now expiry ≡ true)
      × (get request.reservation_id m' ≡ some (asked_for request expiry)))
    ⊎ ((is_accepted word ≡ false) × ((get request.reservation_id m' ≡ none) ⊎ (m' ≡ m)))

abbrev IsOutcome : ℕ → ReserveNowRequest → Map ℤ Reservation → Map ℤ Reservation → Word → Type 0
IsOutcome now request m m' word =
    IsReserved now request m m' word × KeepsOthers request.reservation_id m m'

get_self : (id k : ℤ) (m : Map ℤ Reservation) → id ==ℤ k ≡ true → get k m ≡ get id m
get_self id k m h = ap (λ j. get j m) (sym ((==ℤ_iff id k).0 h))

KeepsOthers-refl : (id : ℤ) (m : Map ℤ Reservation) → KeepsOthers id m m
KeepsOthers-refl id m k = elim (Bool-cases (id ==ℤ k)) [
  | inl same ↦ rw same (get_self id k m same)
  | inr other ↦ rw other refl
]

KeepsOthers-remove : (id : ℤ) (m : Map ℤ Reservation) → KeepsOthers id m (remove id m)
KeepsOthers-remove id m k = elim (Bool-cases (id ==ℤ k)) [
  | inl same ↦ rw same (get_self id k (remove id m) same)
  | inr other ↦ rw other (get-remove id k m ∙ rw other refl)
]

KeepsOthers-put :
    (id : ℤ) (r : Reservation) (m m' : Map ℤ Reservation)
    → KeepsOthers id m m'
    → KeepsOthers id m (put id r m')
KeepsOthers-put id r m m' h k = elim (Bool-cases (id ==ℤ k)) [
  | inl same ↦ rw same (get_self id k (put id r m') same)
  | inr other ↦ rw other (get-put id k r m' ∙ rw other (h k ∙ rw other refl))
]

get-put_self : (id : ℤ) (r : Reservation) (m : Map ℤ Reservation) → get id (put id r m) ≡ some r
get-put_self id r m = get-put id id r m ∙ rw ((==ℤ_iff id id).1 refl) refl

get-remove_self : (id : ℤ) (m : Map ℤ Reservation) → get id (remove id m) ≡ none
get-remove_self id m = get-remove id id m ∙ rw ((==ℤ_iff id id).1 refl) refl

-- The number is free, and the others are as before.
abbrev IsDropped : ℤ → Map ℤ Reservation → Map ℤ Reservation → Type 0
IsDropped id m m' = (get id m' ≡ none) × KeepsOthers id m m'

store_reservation-reservations :
    (request : ReserveNowRequest) (expiry : ℕ) (updates : Map ℤ ChargePointStatus) (s : Simulator)
    → Post
        (λ r.
          r.0.reservations ≡ put request.reservation_id (asked_for request expiry) s.reservations)
        (store_reservation request expiry updates s)
unfolding store_reservation set_status
store_reservation-reservations request expiry updates s =
    if_rule
      (Post (λ (r : Simulator × Map ℤ ChargePointStatus).
        r.0.reservations ≡ put request.reservation_id (asked_for request expiry) s.reservations))
      (is_pos request.connector_id)
      (λ _. elim (Option-cases (get request.connector_id s.connectors)) [
        | inl missing ↦ rw (missing, ◌>>=◌) tt
        | inr (c, e) ↦ rw (e, ◌>>=◌) refl
      ])
      (λ _. refl)

reserve-IsOutcome :
    (now : ℕ) (request : ReserveNowRequest) (expiry : ℕ) (s : Simulator)
    → request.expiry_date ≡ some expiry
    → ltb now expiry ≡ true
    → Post
        (λ r. IsOutcome now request s.reservations r.0.reservations r.2)
        (reserve now request expiry s)
unfolding reserve
reserve-IsOutcome now request expiry s given live =
    bind_Post (λ d. IsDropped id s.reservations d.0.reservations) Q _ _
      (dropped (get id s.reservations) refl)
      (λ d h. decided d h (is_accepted (reserve_decision now request d.0)) refl)
  where
    id : ℤ
    id = request.reservation_id

    Q : Simulator × Map ℤ ChargePointStatus × Word → Type 0
    Q r = IsOutcome now request s.reservations r.0.reservations r.2

    dropped :
        (o : Option Reservation)
        → get id s.reservations ≡ o
        → Post {A = Simulator × Map ℤ ChargePointStatus}
            (λ d. IsDropped id s.reservations d.0.reservations)
            (elim o [
              | none ↦ some (s, [])
              | some existing ↦ drop_reservation now request.reservation_id existing s
            ])
    dropped none e = (e, KeepsOthers-refl id s.reservations)
    dropped (some existing) e =
        map_Post (λ d. d.0.reservations ≡ remove id s.reservations)
          (λ d. IsDropped id s.reservations d.0.reservations) _
          (drop_reservation-reservations now id existing s)
          (λ a q.
            subst (IsDropped id s.reservations) (sym q)
              (get-remove_self id s.reservations, KeepsOthers-remove id s.reservations))

    decided :
        (d : Simulator × Map ℤ ChargePointStatus)
        → IsDropped id s.reservations d.0.reservations
        → (b : Bool) → is_accepted (reserve_decision now request d.0) ≡ b
        → Post Q (
            (if b then store_reservation request expiry d.1 d.0 else some d) >>= λ stored.
            some (stored.0, stored.1, reserve_decision now request d.0))
    decided d h true e =
        bind_Post (λ r. r.0.reservations ≡ put id (asked_for request expiry) d.0.reservations) Q _ _
          (store_reservation-reservations request expiry d.1 d.0)
          (λ a q.
            subst (λ m. IsOutcome now request s.reservations m (reserve_decision now request d.0))
              (sym q)
              (
                inl (
                  e,
                  expiry,
                  given,
                  live,
                  get-put_self id (asked_for request expiry) d.0.reservations,
                ),
                KeepsOthers-put id (asked_for request expiry) s.reservations d.0.reservations h.1,
              ))
    decided d h false e = (inr (e, inl h.0), h.1)

refused :
    (now : ℕ) (request : ReserveNowRequest) (m : Map ℤ Reservation)
    → IsOutcome now request m m Word.rejected
refused now request m = (inr (refl, inr refl), KeepsOthers-refl request.reservation_id m)

by_expiry :
    (now : ℕ) (request : ReserveNowRequest) (s : Simulator)
    (P : Simulator × Map ℤ ChargePointStatus × Word → Type 0) (o : Option ℕ)
    → P (s, [], Word.rejected)
    → ((expiry : ℕ)
        → o ≡ some expiry
        → ltb now expiry ≡ true
        → Post P (reserve now request expiry s))
    → Post P (elim o [
      | none ↦ some (s, [], Word.rejected)
      | some expiry ↦
          if ltb now expiry then reserve now request expiry s else some (s, [], Word.rejected)
    ])
by_expiry now request s P none h k = h
by_expiry now request s P (some expiry) h k =
    if_rule (Post P) (ltb now expiry) (λ live. k expiry refl live) (λ _. h)

reserve_unless_expired-IsOutcome :
    (now : ℕ) (request : ReserveNowRequest) (s : Simulator)
    → Post
        (λ r. IsOutcome now request s.reservations r.0.reservations r.2)
        (reserve_unless_expired now request s)
unfolding reserve_unless_expired
reserve_unless_expired-IsOutcome now request s =
    by_expiry now request s (λ r. IsOutcome now request s.reservations r.0.reservations r.2)
      request.expiry_date (refused now request s.reservations)
      (λ expiry given live. reserve-IsOutcome now request expiry s given live)

notify_updates-reservations :
    (env : Env) (updates : Map ℤ ChargePointStatus) (s : Simulator)
    → (notify_updates env updates s).reservations ≡ s.reservations
unfolding notify_updates notify_status_async
notify_updates-reservations env [] s = refl
notify_updates-reservations env ((id, status) ∷ updates) s =
    notify_updates-reservations env updates _
    ∙ if_rule (λ (t : Simulator). t.reservations ≡ s.reservations) env.connected (λ _. refl)
        (λ _. refl)

returned_with {ℓ κ} :
    {A : Type ℓ} (n : ℤ) (P : A → Type κ) (state : A → Simulator) (o : Option A)
    → Safe n state o
    → Post P o
    → (a : A) × (o ≡ some a) × P a
returned_with n P state none h p = absurd h
returned_with n P state (some a) h p = (a, refl, p)

-- On a well-formed station `OnReserveNow` comes to an end. If it answers "Accepted", the reservation
-- that the request asks for stands under its number and has not run out; if not, the number is free
-- or no reservation has changed. Reservations of other numbers are as before.
pub on_reserve_now_lem :
    (n : ℤ) (env : Env) (request : ReserveNowRequest) (s : Simulator)
    → Inv n s
    → (r : Simulator × Word) × (on_reserve_now env request s ≡ some r)
      × (IsReserved env.now request s.reservations r.0.reservations r.1
          × KeepsOthers request.reservation_id s.reservations r.0.reservations)
unfolding on_reserve_now
on_reserve_now_lem n env request s v =
    returned_with n P (λ r. r.0) _ (on_reserve_now-Safe n env request s v)
      (bind_Post (λ r. IsOutcome env.now request s.reservations r.0.reservations r.2) P _ _
        (reserve_unless_expired-IsOutcome env.now request s)
        (λ a h.
          subst (λ m. IsOutcome env.now request s.reservations m a.2) (sym (reported a.1 a.2 a.0))
            h))
  where
    P : Simulator × Word → Type 0
    P r = IsOutcome env.now request s.reservations r.0.reservations r.1

    detail : List Piece
    detail =
        Piece.lit request.id_tag ∷ Piece.lit " reservation=" ∷ Piece.num request.reservation_id ∷ []

    reported :
        (updates : Map ℤ ChargePointStatus) (status : Word) (b : Simulator)
        → (notify_updates env updates (
            emit env Direction.inbound Action.reserve_now status
              (some request.connector_id)
              detail
              b)).reservations
          ≡ b.reservations
    reported updates status b =
        notify_updates-reservations env updates (
          emit env Direction.inbound Action.reserve_now status (some request.connector_id) detail b)
        ∙ ap (λ t. t.reservations)
            (emit-frame env Direction.inbound Action.reserve_now status (some request.connector_id)
              detail b)
