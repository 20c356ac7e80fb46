-- ===== src/Telemetry/Meters.antt =====
-- What a meter tick of `sendMeterValues` does to the connectors.
use ocpp_cli.Prelude.{
  ℤ, ◌≡◌, refl, ap, ◌∙◌, Bool, Option, none, some, [], ◌∷◌, map, sort, arith, int_add, is_pos,
  if_rule, if◌then◌else◌,
}
use ocpp_cli.Prelude.Int.{int_eq}
use ocpp_cli.Prelude.Maps.{Map, get}
use ocpp_cli.Ocpp.{Direction, Action, Word, Piece}
use ocpp_cli.Station.{Simulator, Connector, Env, Message}
use ocpp_cli.Station.Emit.{send}
use ocpp_cli.Logs.Laws.{emit-frame}
use ocpp_cli.Telemetry.{step_meter, sample_le, send_meter_sample, send_samples, send_meter_values}

send_meter_sample-connectors :
    (env : Env) (id meter t : ℤ) (s : Simulator)
    → (send_meter_sample env id meter t s).0.connectors ≡ s.connectors
unfolding send_meter_sample
send_meter_sample-connectors env id meter t s =
    let message = Message.meter_values id meter (if is_pos t then some t else none) in
    if_rule (λ (r : Simulator × Bool). r.0.connectors ≡ s.connectors) (env.answers message)
      (λ _.
        ap (λ x. x.connectors)
          (emit-frame env Direction.outbound Action.meter_values Word.accepted (some id)
            (Piece.num meter ∷ Piece.lit " Wh" ∷ []) (send message s)))
      (λ _. refl)

send_samples-connectors :
    (env : Env) (m : Map ℤ Connector) (s : Simulator)
    → (send_samples env m s).0.connectors ≡ s.connectors
unfolding send_samples
send_samples-connectors env [] s = refl
send_samples-connectors env ((id, c) ∷ rest) s =
    let r = send_meter_sample env id c.meter c.transaction_id s in
    let same = send_meter_sample-connectors env id c.meter c.transaction_id s in
    if_rule (λ (x : Simulator × Bool). x.0.connectors ≡ s.connectors) r.1
      (λ _. send_samples-connectors env rest r.0 ∙ same) (λ _. same)

-- A connector after a tick.
abbrev pub stepped : ℤ → Option Connector → Option Connector
stepped step none = none
stepped step (some c) = some (record c { meter = int_add c.meter step })

get-step_meter :
    (step id : ℤ) (m : Map ℤ Connector) → get id (map (step_meter step) m) ≡ stepped step (get id m)
unfolding get step_meter
get-step_meter step id [] = refl
get-step_meter step id ((k, c) ∷ m) = ground (arith, get-step_meter step id m)

-- A tick adds the meter step to the meter of every connector and changes nothing else of it, whether
-- the central system takes the samples or not.
pub send_meter_values_lem :
    (env : Env) (s : Simulator) (id : ℤ)
    → get id (send_meter_values env s).0.connectors
      ≡ stepped s.opts.meter_step (get id s.connectors)
unfolding send_meter_values
send_meter_values_lem env s id =
    let connectors = map (step_meter s.opts.meter_step) s.connectors in
    ap (get id) (
      send_samples-connectors env (sort sample_le connectors)
        (record s { connectors = connectors }))
    ∙ get-step_meter s.opts.meter_step id s.connectors
