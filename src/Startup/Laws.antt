-- ===== src/Startup/Laws.antt =====
-- A simulator that `NewSimulator` returns is well formed.
use ocpp_cli.Prelude.{
  ℤ, pos, negsuc, ℕ, zero, suc, ◌+◌, ◌≡◌, refl, ◌∙◌, String, Bool, true, false, ◌||◌, ◌&&◌, not,
  Option, some, is_pos, rounds_of, is_some, leb, ltb, arith, if_rule, some_inj, subst,
}
use ocpp_cli.Prelude.Int.{int_eq}
use ocpp_cli.Prelude.Maps.{get}
use ocpp_cli.Station.{Simulator, SimulatorOptions}
use ocpp_cli.Config.{Parsers, ClientConfig}
use ocpp_cli.Config.Validate.{validate_client_config}
use ocpp_cli.Configuration.{add_configuration}
use ocpp_cli.Startup.{
  is_negative, new_connectors, empty_simulator, with_configuration, new_simulator,
}
use ocpp_cli.Invariant.{Inv, is_known, frame-Inv}

abbrev in_rounds : ℕ → ℕ → ℤ → Bool
in_rounds rounds id (pos j) = leb id j && ltb j (id + rounds)
in_rounds rounds id (negsuc j) = false

-- The rounds make the connectors from `id` up.
has-new_connectors :
    (meter_start : ℤ) (rounds id : ℕ) (k : ℤ)
    → is_some (get k (new_connectors meter_start rounds id)) ≡ in_rounds rounds id k
unfolding new_connectors get
has-new_connectors meter_start zero id (pos j) = ground arith
has-new_connectors meter_start zero id (negsuc j) = refl
has-new_connectors meter_start (suc rounds) id (pos j) =
    ground (arith, has-new_connectors meter_start rounds (suc id) (pos j))
has-new_connectors meter_start (suc rounds) id (negsuc j) =
    ground (arith, has-new_connectors meter_start rounds (suc id) (negsuc j))

known_rounds : (n k : ℤ) → is_pos n ≡ true → in_rounds (rounds_of n) 1 k ≡ is_known n k
known_rounds (pos n) (pos j) h = ground arith
known_rounds (pos n) (negsuc j) h = refl
known_rounds (negsuc n) k h = cc

empty_simulator-Inv :
    (opts : SimulatorOptions)
    → is_pos opts.connectors ≡ true
    → Inv opts.connectors (empty_simulator opts)
unfolding empty_simulator
empty_simulator-Inv opts h = record {
  sized = refl;
  known = λ id.
      has-new_connectors opts.meter_start (rounds_of opts.connectors) 1 id
      ∙ known_rounds opts.connectors id h;
  held = tt;
  running = tt;
  buffered = omega arith;
}

with_configuration-Inv :
    (n : ℤ) (itoa : ℤ → String) (s : Simulator) → Inv n s → Inv n (with_configuration itoa s)
unfolding with_configuration add_configuration
with_configuration-Inv n itoa s v = frame-Inv n s _ refl refl refl refl refl v

-- A simulator that `NewSimulator` returns is well formed: it has exactly the connectors 1 to
-- `opts.Connectors`, and its reservations, goroutines and event buffer are within bounds.
pub new_simulator-Inv :
    (p : Parsers) (itoa : ℤ → String) (cfg : ClientConfig) (opts : SimulatorOptions) (s : Simulator)
    → new_simulator p itoa cfg opts ≡ some s
    → Inv opts.connectors s
unfolding new_simulator
new_simulator-Inv p itoa cfg opts s =
    if_rule P (is_some (validate_client_config p cfg)) (λ _ e. cc)
      λ _.
        if_rule P (not (is_pos opts.connectors)) (λ _ e. cc)
          λ some_connectors.
            if_rule P (is_negative opts.heartbeat_interval || is_negative opts.meter_interval)
              (λ _ e. cc)
              λ _.
                if_rule P (is_negative opts.meter_start || is_negative opts.meter_step) (λ _ e. cc)
                  λ _ e. subst (Inv opts.connectors) (some_inj e) (made some_connectors)
  where
    P : Option Simulator → Type 0
    P r = r ≡ some s → Inv opts.connectors s

    made :
        not (is_pos opts.connectors) ≡ false
        → Inv opts.connectors (with_configuration itoa (empty_simulator opts))
    made h =
        with_configuration-Inv opts.connectors itoa (empty_simulator opts)
          (empty_simulator-Inv opts (ground arith))

is_pos-pos : (n : ℤ) → not (is_pos n) ≡ false → (m : ℕ) × (n ≡ pos m)
is_pos-pos (pos n) h = (n, refl)
is_pos-pos (negsuc n) h = cc

-- Such a simulator has a number of connectors that is not negative.
pub new_simulator-pos :
    (p : Parsers) (itoa : ℤ → String) (cfg : ClientConfig) (opts : SimulatorOptions) (s : Simulator)
    → new_simulator p itoa cfg opts ≡ some s
    → (n : ℕ) × (opts.connectors ≡ pos n)
unfolding new_simulator
new_simulator-pos p itoa cfg opts s =
    if_rule P (is_some (validate_client_config p cfg)) (λ _ e. cc)
      (λ _.
        if_rule P (not (is_pos opts.connectors)) (λ _ e. cc) (λ h _. is_pos-pos opts.connectors h))
  where
    P : Option Simulator → Type 0
    P r = r ≡ some s → (n : ℕ) × (opts.connectors ≡ pos n)
