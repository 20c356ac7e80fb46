-- ===== src/Reservations/Access.antt =====
-- When `reservationAccessLocked` lets a tag use a connector.
use ocpp_cli.Prelude.{
  ℤ, pos, ℕ, ◌≡◌, refl, String, Bool, true, false, ◌&&◌, ◌||◌, not, [], ◌∷◌, ◌==ℤ◌, arith, any, ltb,
  if◌then◌else◌,
}
use ocpp_cli.Prelude.Maps.{Map}
use ocpp_cli.Station.{Reservation}
use ocpp_cli.Reservations.{matches, access_loop, reservation_access}

-- A reservation that concerns the connector now: a live one, for the connector or for the station.
abbrev pub concerns : ℕ → ℤ → ℤ × Reservation → Bool
concerns now id e = ltb now e.1.expiry && (e.1.connector_id ==ℤ pos 0 || e.1.connector_id ==ℤ id)

-- One of another tag, which blocks this one.
abbrev pub blocks : ℕ → ℤ → String → ℤ × Reservation → Bool
blocks now id id_tag e = concerns now id e && not (matches id_tag e.1)

-- The connector's own reservation for this tag, which grants access at once.
abbrev pub grants : ℕ → ℤ → String → ℤ × Reservation → Bool
grants now id id_tag e = ltb now e.1.expiry && (e.1.connector_id ==ℤ id && matches id_tag e.1)

module _ (now : ℕ) (id : ℤ) (id_tag : String) where
  access_loop-free :
      (matched : ℤ) (m : Map ℤ Reservation)
      → any (blocks now id id_tag) m ≡ false
      → (access_loop now id id_tag matched m).1 ≡ true
  unfolding access_loop
  access_loop-free matched [] h = refl
  access_loop-free matched (e ∷ m) h =
      ground (arith, access_loop-free matched m, access_loop-free e.0 m)

  -- One round of the loop, by the outcome of its tests.
  blocked_round :
      (live station own hit rest_blocks rest_grants : Bool) (found next next_matched : ℤ × Bool)
      → (live && (station || own)) && not hit || rest_blocks ≡ true
      → live && (own && hit) || rest_grants ≡ false
      → (rest_blocks ≡ true → rest_grants ≡ false → next ≡ (pos 0, false))
      → (rest_blocks ≡ true → rest_grants ≡ false → next_matched ≡ (pos 0, false))
      → (if not live
          then next
          else if not station && not own
          then next
          else if own
          then (if hit then found else (pos 0, false))
          else if hit
          then next_matched
          else (pos 0, false))
        ≡ (pos 0, false)
  blocked_round false station own hit b g found next next_matched h k p q = p h k
  blocked_round true false false hit b g found next next_matched h k p q = p h k
  blocked_round true true false true b g found next next_matched h k p q = q h k
  blocked_round true true false false b g found next next_matched h k p q = refl
  blocked_round true station true true b g found next next_matched h k p q = cc
  blocked_round true false true false b g found next next_matched h k p q = refl
  blocked_round true true true false b g found next next_matched h k p q = refl

  access_loop-blocked :
      (matched : ℤ) (m : Map ℤ Reservation)
      → any (blocks now id id_tag) m ≡ true
      → any (grants now id id_tag) m ≡ false
      → access_loop now id id_tag matched m ≡ (pos 0, false)
  unfolding access_loop
  access_loop-blocked matched [] h g = cc
  access_loop-blocked matched (e ∷ m) h g =
      blocked_round (ltb now e.1.expiry) (e.1.connector_id ==ℤ pos 0) (e.1.connector_id ==ℤ id)
        (matches id_tag e.1) (any (blocks now id id_tag) m) (any (grants now id id_tag) m)
        (e.0, true) (access_loop now id id_tag matched m) (access_loop now id id_tag e.0 m) h g
        (access_loop-blocked matched m) (access_loop-blocked e.0 m)

  -- A tag has access to a connector when no live reservation of another tag concerns it.
  pub reservation_access-free :
      (m : Map ℤ Reservation)
      → any (blocks now id id_tag) m ≡ false
      → (reservation_access now id id_tag m).1 ≡ true
  unfolding reservation_access
  reservation_access-free m h = access_loop-free (pos 0) m h

  -- A tag has no access to a connector when a live reservation of another tag concerns it and the
  -- tag holds no live reservation for this very connector.
  pub reservation_access-blocked :
      (m : Map ℤ Reservation)
      → any (blocks now id id_tag) m ≡ true
      → any (grants now id id_tag) m ≡ false
      → reservation_access now id id_tag m ≡ (pos 0, false)
  unfolding reservation_access
  reservation_access-blocked m h g = access_loop-blocked (pos 0) m h g

  own_first :
      (own : ℤ × Reservation) (m : Map ℤ Reservation)
      → grants now id id_tag own ≡ true
      → reservation_access now id id_tag (own ∷ m) ≡ (own.0, true)
  unfolding reservation_access access_loop
  own_first own m h = ground arith

  other_first :
      (other : ℤ × Reservation) (m : Map ℤ Reservation)
      → blocks now id id_tag other ≡ true
      → reservation_access now id id_tag (other ∷ m) ≡ (pos 0, false)
  unfolding reservation_access access_loop
  other_first other m h = ground arith

  -- When a tag holds a live reservation for a connector and another tag holds a live reservation of
  -- the station that concerns it too, the order in which the map yields the two decides whether the
  -- tag has access to the connector.
  pub reservation_access-order :
      (own other : ℤ × Reservation) (m : Map ℤ Reservation)
      → grants now id id_tag own ≡ true
      → blocks now id id_tag other ≡ true
      → (reservation_access now id id_tag (own ∷ other ∷ m) ≡ (own.0, true))
        × (reservation_access now id id_tag (other ∷ own ∷ m) ≡ (pos 0, false))
  reservation_access-order own other m g b =
      (own_first own (other ∷ m) g, other_first other (own ∷ m) b)
