-- ===== src/Cli/Traces.antt =====
-- The life of the connection that a command makes, read off its effects.
use ocpp_cli.Prelude.{
  ◌≡◌, refl, ◌∙◌, ap, inl, inr, String, Bool, true, false, Option, none, some, List, [], ◌∷◌, ◌++◌,
  if_rule, Option-cases, arith,
}
use ocpp_cli.Config.{ClientConfig}
use ocpp_cli.Errors.{Error, Outcome, got, lost}
use ocpp_cli.Client.Types.{Call}
use ocpp_cli.Client.Operations.{Answer}
use ocpp_cli.Client.Setup.{Client}
use ocpp_cli.Cli.{
  Host, Mode, dry_run, execute, Effect, created, announced, connecting, sent, cancelled, closed,
  wrote, write_table, write_text, write_json, write_csv, complained, Command,
}
use ocpp_cli.Cli.Render.{Snapshot, render_snapshot}
use ocpp_cli.Cli.Connection.{
  after, between, opening, connected, on_client, on_station, new_station, is_fatal, then_return,
  answer_command, notice_command, show_answer,
}
use ocpp_cli.Cli.Meter.{guarded_command}

-- `made` is a station that is not yet connected, `half` one of which the context has been cancelled
-- or the connection closed, but not both.
pub data Phase : Type 0 where
  idle made live half_cancelled half_closed ended broken : Phase

-- A request is sent in the phase `live` only, which begins with the attempt to connect; there is one
-- client at most.
abbrev pub advance : Phase → Effect → Phase
advance Phase.idle (created client) = Phase.made
advance Phase.made (announced text) = Phase.made
advance Phase.made connecting = Phase.live
advance Phase.live (sent call) = Phase.live
advance Phase.live (wrote output) = Phase.live
advance Phase.live cancelled = Phase.half_cancelled
advance Phase.live closed = Phase.half_closed
advance Phase.half_cancelled closed = Phase.ended
advance Phase.half_closed cancelled = Phase.ended
advance Phase.idle (announced text) = Phase.broken
advance Phase.idle connecting = Phase.broken
advance Phase.idle (sent call) = Phase.broken
advance Phase.idle cancelled = Phase.broken
advance Phase.idle closed = Phase.broken
advance Phase.idle _ = Phase.idle
advance Phase.ended (wrote output) = Phase.ended
advance Phase.ended (complained text) = Phase.ended
advance _ _ = Phase.broken

abbrev pub phase_after : Phase → List Effect → Phase
phase_after p [] = p
phase_after p (e ∷ es) = phase_after (advance p e) es

-- No client was made, or it is closed and its context cancelled.
abbrev pub is_over : Phase → Bool
is_over Phase.idle = true
is_over Phase.ended = true
is_over _ = false

pub record Settled (command : Command) : Type 0 where
  pub over : is_over (phase_after Phase.idle command.1) ≡ true

pub record KeepsLive (command : Command) : Type 0 where
  pub live : phase_after Phase.live command.1 ≡ Phase.live

pub phase_after-append :
    (p : Phase) (xs ys : List Effect) → phase_after p (xs ++ ys) ≡ phase_after (phase_after p xs) ys
phase_after-append p [] ys = refl
phase_after-append p (x ∷ xs) ys = phase_after-append (advance p x) xs ys

-- A phase that the effects of a command are known to end in.
pub settled :
    {command : Command} {p : Phase}
    → phase_after Phase.idle command.1 ≡ p
    → is_over p ≡ true
    → Settled command
settled ends over = record { over = ap is_over ends ∙ over }

pub after-Settled :
    {A : Type 0} (o : Outcome A) (run : A → Command)
    → ((a : A) → Settled (run a))
    → Settled (after o run)
after-Settled (lost e) run h = record { over = refl }
after-Settled (got a) run h = h a

pub opening-live : (client : Client) → phase_after Phase.idle (opening client) ≡ Phase.live
unfolding opening
opening-live client = ground arith

between-phase :
    (before : List Effect) (body : Command) (cleanup : List Effect)
    → phase_after Phase.idle before ≡ Phase.live
    → KeepsLive body
    → phase_after Phase.idle (between before body cleanup).1 ≡ phase_after Phase.live cleanup
between-phase before body cleanup opens keeps =
    phase_after-append Phase.idle (before ++ body.1) cleanup
    ∙ ap (λ p. phase_after p cleanup)
        (phase_after-append Phase.idle before body.1
          ∙ (ap (λ p. phase_after p body.1) opens ∙ keeps.live))

pub on_station-Settled :
    (h : Host) (cfg : ClientConfig) (body : Command)
    → KeepsLive body
    → Settled (on_station h cfg body)
unfolding on_station
on_station-Settled h cfg body keeps = after-Settled (new_station h cfg) _ of_client
  where
    of_client : (client : Client) → Settled (on_client h client body)
    of_client client = elim (Option-cases (connected h client)) [
      | inl success ↦
          rw (success, on_client)
            (settled
              (between-phase (opening client) body (closed ∷ cancelled ∷ []) (opening-live client)
                keeps)
              refl)
      | inr (e, failure) ↦
          rw (failure, on_client)
            (settled
              (phase_after-append Phase.idle (opening client) (cancelled ∷ closed ∷ [])
                ∙ ap (λ p. phase_after p (cancelled ∷ closed ∷ [])) (opening-live client))
              refl)
    ]

-- Rendering writes at most once.
pub render-phase :
    (h : Host) (format : String) (shown : Snapshot) (p : Phase)
    → ((output : _) → advance p (wrote output) ≡ p)
    → phase_after p (render_snapshot h format shown).1 ≡ p
unfolding render_snapshot
render-phase h format shown p keeps = ground (
  arith,
  keeps (write_table shown.headers shown.rows),
  keeps (write_text shown.text),
  keeps (write_json shown.value),
  keeps (write_csv shown.headers shown.rows),
)

then_return-effects : (c : Command) (e : Option Error) → (then_return c e).1 ≡ c.1
then_return-effects (some reason, effects) e = refl
then_return-effects (none, effects) e = refl

show_answer-live :
    (h : Host) (format : String) (call : Call) (failure : Option Error) (shown : Outcome Snapshot)
    → KeepsLive (show_answer h format call failure shown)
unfolding show_answer
show_answer-live h format call failure (lost e) = record { live = refl }
show_answer-live h format call failure (got shown) = record {
  live =
      phase_after-append Phase.live (then_return (render_snapshot h format shown) failure).1 []
      ∙ (ap (phase_after Phase.live) (then_return-effects (render_snapshot h format shown) failure)
          ∙ render-phase h format shown Phase.live (λ output. refl));
}

pub answer_command-live :
    (h : Host) (format : String) (call : Call) {R : Type 0} (answer : Answer R)
    (show : R → Outcome Snapshot)
    → KeepsLive (answer_command h format call answer show)
unfolding answer_command
answer_command-live h format call (result, failure) show =
    if_rule KeepsLive (is_fatal failure) (λ fatal. record { live = refl })
      (λ shown. show_answer-live h format call failure (show result))

pub notice_command-live :
    (h : Host) (format : String) (call : Call) (failure : Option Error) (shown : Snapshot)
    → KeepsLive (notice_command h format call failure shown)
unfolding notice_command
notice_command-live h format call (some e) shown = record { live = refl }
notice_command-live h format call none shown = record {
  live =
      phase_after-append Phase.live (render_snapshot h format shown).1 []
      ∙ render-phase h format shown Phase.live (λ output. refl);
}

pub guarded_command-Settled :
    (h : Host) (mode : Mode) (format : String) (preview : Snapshot) (real : Command)
    → Settled real
    → Settled (guarded_command h mode format preview real)
unfolding guarded_command
guarded_command-Settled h dry_run format preview real later =
    settled (render-phase h format preview Phase.idle (λ output. refl)) refl
guarded_command-Settled h execute format preview real later = later
