-- ===== src/Transactions/Outcome.antt =====
-- How a remote start ends, and when a remote stop is taken.
use ocpp_cli.Prelude.{
  any, ◌↔◌, is_some, inl, inr, Option-cases, Bool, sym, ◌==ℤ◌, arith, ℤ, ℕ, ◌≡◌, refl, ap, ◌∙◌,
  true, none, some, [], ◌∷◌, is_pos, ◌&&◌, if_rule, ◌>>=◌, if◌then◌else◌,
}
use ocpp_cli.Prelude.Int.{int_eq, ==ℤ_iff}
use ocpp_cli.Prelude.Maps.{Map, get, put, get-put, get-remove}
use ocpp_cli.Ocpp.{ChargePointStatus, Direction, Action, Word, Piece}
use ocpp_cli.Station.{Simulator, Connector, Reservation, Env, Task, ok}
use ocpp_cli.Station.Emit.{emit, spawn}
use ocpp_cli.Invariant.{Inv, is_known}
use ocpp_cli.Logs.Laws.{emit-frame}
use ocpp_cli.Reservations.Expiry.{Post, bind_Post, returned}
use ocpp_cli.Transactions.{
  find_transaction, on_remote_stop_transaction, StartConfirmation, is_authorized,
  authorization_word, settle_start, consume_reservation, confirmed_start,
}
use ocpp_cli.Transactions.Safety.{confirmed_start-Safe}

-- Connector `id` charges in transaction `t`, with the tag and the meter of `c`. Of the reservations
-- `before`, that of number `reservation_id` is gone if the number is positive; all others stay.
abbrev pub IsStarted : ℤ → ℤ → ℤ → Connector → Map ℤ Reservation → Simulator → Type 0
IsStarted id reservation_id t c before s =
    (get id s.connectors
      ≡ some (record c { transaction_id = t; status = ChargePointStatus.charging }))
    × ((j : ℤ)
        → get j s.reservations
          ≡ (if is_pos reservation_id && (reservation_id ==ℤ j) then none else get j before))

IsStarted-frame :
    (id reservation_id t : ℤ) (c : Connector) (before : Map ℤ Reservation) (s s' : Simulator)
    → s'.connectors ≡ s.connectors
    → s'.reservations ≡ s.reservations
    → IsStarted id reservation_id t c before s
    → IsStarted id reservation_id t c before s'
IsStarted-frame id reservation_id t c before s s' a b h =
    (ap (get id) a ∙ h.0, λ j. ap (get j) b ∙ h.1 j)

settle_start-IsStarted :
    (now : ℕ) (id reservation_id t : ℤ) (s : Simulator) (c : Connector)
    → get id s.connectors ≡ some c
    → Post
        (λ r. IsStarted id reservation_id t c s.reservations r.0)
        (settle_start now id reservation_id t true s)
unfolding settle_start consume_reservation
settle_start-IsStarted now id reservation_id t s c e =
    rw (e, ◌>>=◌)
      (if_rule (IsStarted id reservation_id t c s.reservations) (is_pos reservation_id)
        (λ used. (there, λ j. get-remove reservation_id j s.reservations ∙ rw used refl))
        (λ unused. (there, λ j. rw unused refl)))
  where
    there :
        get id (
          put id
            (record c { transaction_id = t; status = ChargePointStatus.charging })
            s.connectors)
        ≡ some (record c { transaction_id = t; status = ChargePointStatus.charging })
    there = get-put id id _ s.connectors ∙ rw ((==ℤ_iff id id).1 refl) refl

-- When the central system confirms a start with an accepted tag, the goroutine leaves the
-- connector charging in the confirmed transaction, with its tag and its meter kept. Of the
-- reservations exactly the one that the start was chosen under is used up, if its number is positive;
-- one with the number 0 or a negative number stays.
pub confirmed_start-IsStarted :
    (n : ℤ) (env : Env) (id reservation_id : ℤ) (confirmation : StartConfirmation) (s : Simulator)
    (c : Connector)
    → Inv n s
    → is_known n id ≡ true
    → get id s.connectors ≡ some c
    → is_authorized confirmation.id_tag_info ≡ true
    → (s' : Simulator) × (confirmed_start env id reservation_id (ok confirmation) s ≡ some s')
      × IsStarted id reservation_id confirmation.transaction_id c s.reservations s'
unfolding confirmed_start
confirmed_start-IsStarted n env id reservation_id confirmation s c v h e accepts =
    returned n (IsStarted id reservation_id t c s.reservations) _
      (confirmed_start-Safe n env id reservation_id (ok confirmation) s v h)
      (rw accepts (
        bind_Post (λ r. IsStarted id reservation_id t c s.reservations r.0)
          (IsStarted id reservation_id t c s.reservations) _ _
          (settle_start-IsStarted env.now id reservation_id t s c e)
          (λ a started. still a.0 a.1 started)))
  where
    t : ℤ
    t = confirmation.transaction_id

    reported : Simulator → Simulator
    reported b =
        emit env Direction.outbound Action.start_transaction
          (authorization_word confirmation.id_tag_info Word.none_given) (some id) (Piece.num t ∷ [])
          b

    still :
        (b : Simulator) (final : ChargePointStatus)
        → IsStarted id reservation_id t c s.reservations b
        → IsStarted id reservation_id t c s.reservations (spawn (Task.notify id final) (reported b))
    still b final h =
        let e1 =
          emit-frame env Direction.outbound Action.start_transaction
            (authorization_word confirmation.id_tag_info Word.none_given) (some id)
            (Piece.num t ∷ []) b in
        IsStarted-frame id reservation_id t c s.reservations b
          (spawn (Task.notify id final) (reported b)) (ap (λ x. x.connectors) e1)
          (ap (λ x. x.reservations) e1) h

abbrev pub runs : ℤ → ℤ × Connector → Bool
runs t e = e.1.transaction_id ==ℤ t

any-find_transaction :
    (t : ℤ) (m : Map ℤ Connector) → is_some (find_transaction t m) ≡ any (runs t) m
unfolding find_transaction
any-find_transaction t [] = refl
any-find_transaction t ((id, c) ∷ m) = ground (arith, any-find_transaction t m)

-- `OnRemoteStopTransaction` answers "Accepted" exactly if a connector has the transaction's number,
-- which for the number 0 is a connector without a transaction.
pub on_remote_stop_transaction_lem :
    (env : Env) (t : ℤ) (s : Simulator)
    → ((on_remote_stop_transaction env t s).1 ≡ Word.accepted) ↔ (any (runs t) s.connectors ≡ true)
unfolding on_remote_stop_transaction
on_remote_stop_transaction_lem env t s =
    let found = any-find_transaction t s.connectors in
    elim (Option-cases (find_transaction t s.connectors)) [
      | inl missing ↦ rw (missing, on_remote_stop_transaction) (λ h. cc, λ h. cc)
      | inr (c, e) ↦ rw (e, on_remote_stop_transaction) (λ h. sym found ∙ ap is_some e, λ h. refl)
    ]
