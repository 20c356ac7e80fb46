-- ===== src/Reservations/Selection.antt =====
-- What `selectRemoteStartConnectorLocked` chooses.
use ocpp_cli.Prelude.{
  ℤ, pos, ℕ, zero, suc, ◌+◌, ◌≤◌, ◌≡◌, inl, inr, String, Bool, true, ◌&&◌, Option, none, some,
  arith, is_pos, rounds_of, if_rule, ◌>>=◌, ap, Option-cases,
}
use ocpp_cli.Prelude.Int.{int_eq}
use ocpp_cli.Prelude.Maps.{get}
use ocpp_cli.Station.{Simulator, Connector}
use ocpp_cli.Invariant.{Inv, known_connector}
use ocpp_cli.Reservations.{
  is_free, is_available, is_idle, reservation_access, select_requested, select_reserved,
  select_available, select_remote_start_connector,
}

-- A connector that may start a transaction for the tag, under the reservation (0 for none).
abbrev pub IsStartable : ℕ → String → Simulator → ℤ × ℤ → Type 0
IsStartable now id_tag s (id, reservation_id) =
    (c : Connector) × (get id s.connectors ≡ some c)
    × (is_idle c ≡ true)
    × (is_free c.status ≡ true)
    × (reservation_access now id id_tag s.reservations ≡ (reservation_id, true))

-- The choice did not panic, and what it chose may start.
abbrev pub IsChoice : ℕ → String → Simulator → Option (Option (ℤ × ℤ)) → Type 0
IsChoice now id_tag s none = ⊥
IsChoice now id_tag s (some none) = Unit {0}
IsChoice now id_tag s (some (some chosen)) = IsStartable now id_tag s chosen

module _ (now : ℕ) (id_tag : String) (s : Simulator) where
  abbrev access_of : ℤ → ℤ × Bool
  access_of id = reservation_access now id id_tag s.reservations

  startable :
      (id : ℤ) (c : Connector)
      → get id s.connectors ≡ some c
      → is_idle c ≡ true
      → is_free c.status ≡ true
      → (access_of id).1 ≡ true
      → IsStartable now id_tag s (id, (access_of id).0)
  startable id c e idle free allowed = (c, e, idle, free, ground arith)

  select_requested-IsChoice :
      (id : ℤ) → IsChoice now id_tag s (some (select_requested now id id_tag s))
  unfolding select_requested
  select_requested-IsChoice id = elim (Option-cases (get id s.connectors)) [
    | inl missing ↦ rw (missing, select_requested) tt
    | inr (c, e) ↦
        rw (e, select_requested)
          (if_rule (λ r. IsChoice now id_tag s (some r))
            (is_idle c && ((access_of id).1 && is_free c.status)) {x = some (id, (access_of id).0)}
            {y = none} (λ h. startable id c e (ground arith) (ground arith) (ground arith))
            (λ _. tt))
  ]

module _ (now : ℕ) (id_tag : String) (n : ℕ) (s : Simulator) (v : Inv (pos n) s) where
  select_reserved-IsChoice :
      (rounds id : ℕ)
      → 1 ≤ id
      → id + rounds ≤ suc n
      → IsChoice now id_tag s (select_reserved now rounds id id_tag s)
  unfolding select_reserved
  select_reserved-IsChoice zero id low high = tt
  select_reserved-IsChoice (suc rounds) id low high =
      let (c, e) = known_connector (pos n) (pos id) s v (ground arith) in
      let access = reservation_access now (pos id) id_tag s.reservations in
      rw (e, ◌>>=◌)
        (if_rule (IsChoice now id_tag s)
          (is_idle c && (access.1 && (is_pos access.0 && is_free c.status)))
          {x = some (some (pos id, access.0))} {y = select_reserved now rounds (suc id) id_tag s}
          (λ h. startable now id_tag s (pos id) c e (ground arith) (ground arith) (ground arith))
          (λ _. select_reserved-IsChoice rounds (suc id) (omega arith) (omega arith)))

  select_available-IsChoice :
      (rounds id : ℕ)
      → 1 ≤ id
      → id + rounds ≤ suc n
      → IsChoice now id_tag s (select_available now rounds id id_tag s)
  unfolding select_available
  select_available-IsChoice zero id low high = tt
  select_available-IsChoice (suc rounds) id low high =
      let (c, e) = known_connector (pos n) (pos id) s v (ground arith) in
      let access = reservation_access now (pos id) id_tag s.reservations in
      rw (e, ◌>>=◌)
        (if_rule (IsChoice now id_tag s) (is_idle c && (is_available c.status && access.1))
          {x = some (some (pos id, access.0))} {y = select_available now rounds (suc id) id_tag s}
          (λ h. startable now id_tag s (pos id) c e (ground arith) (ground arith) (ground arith))
          (λ _. select_available-IsChoice rounds (suc id) (omega arith) (omega arith)))

  select_any-IsChoice :
      (rounds : ℕ) (held : Option (Option (ℤ × ℤ)))
      → rounds ≤ n
      → IsChoice now id_tag s held
      → IsChoice now id_tag s (
          held >>= λ h. elim h [
            | some chosen ↦ some (some chosen)
            | none ↦ select_available now rounds 1 id_tag s
          ])
  select_any-IsChoice rounds none le h = h
  select_any-IsChoice rounds (some none) le h =
      select_available-IsChoice rounds 1 (omega arith) (omega arith)
  select_any-IsChoice rounds (some (some chosen)) le h = h

  within : rounds_of s.opts.connectors ≤ n
  within = omega (arith, ap rounds_of v.sized)

  -- With a well-formed station the choice never dereferences a missing connector; and a connector
  -- that it chooses is operative, without a transaction, available or reserved, and the tag has
  -- access to it under exactly the reservation that is returned.
  pub select_remote_start_connector-IsChoice :
      (requested : Option ℤ)
      → IsChoice now id_tag s (select_remote_start_connector now requested id_tag s)
  unfolding select_remote_start_connector
  select_remote_start_connector-IsChoice (some id) = select_requested-IsChoice now id_tag s id
  select_remote_start_connector-IsChoice none =
      select_any-IsChoice (rounds_of s.opts.connectors)
        (select_reserved now (rounds_of s.opts.connectors) 1 id_tag s) within
        (select_reserved-IsChoice (rounds_of s.opts.connectors) 1 (omega arith)
          (omega (arith, within)))
