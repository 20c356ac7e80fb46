-- ===== src/Cli/Lifecycle.antt =====
-- Every command gives its connection back.
mod Operations
use ocpp_cli.Prelude.{
  ◌≡◌, ℤ, refl, sym, ◌∙◌, ap, inl, inr, String, Bool, true, Option, none, some, List, [], ◌∷◌, ◌++◌,
  map, All, All-append, if_rule, if◌then◌else◌, Option-cases, str_eq, some_inj, subst, arith,
}
use ocpp_cli.Prelude.Int.{string_eq}
use ocpp_cli.Prelude.Maps.{get, get-All}
use ocpp_cli.Station.{Simulator}
use ocpp_cli.Errors.{Error, Sentinel, Outcome, is, got, lost}
use ocpp_cli.Client.Types.{Call}
use ocpp_cli.Client.Setup.{Client}
use ocpp_cli.Cli.Flags.{parse_flags}
use ocpp_cli.Cli.{
  Host, Opened, opened, exists, not_opened, cancelled, closed, printed, complained, Effect, Line,
  Command, streamed, simulated, wrote,
}
use ocpp_cli.Cli.Connection.{after, connected, opening, new_station}
use ocpp_cli.Cli.Station as Station
use ocpp_cli.Cli.Meter as Meter
use ocpp_cli.Cli.Extended as Extended
use ocpp_cli.Cli.Extended.Security as Security
use ocpp_cli.Cli.Checks as Checks
use ocpp_cli.Cli.Checks.{probe}
use ocpp_cli.Cli.Stream.{Received, pump, new_writer}
use ocpp_cli.Cli.Run.{run_simulator, run_plan, make_simulator}
use ocpp_cli.Cli.App.{
  Handler, send_operations, commands, find_command, init_config, write_starter, completions, send,
  send_named, asks_help, run, Report, report_of, run_named, run_normalised,
}
use ocpp_cli.Cli.Traces.{
  Phase, phase_after, advance, is_over, Settled, after-Settled, on_station-Settled,
  answer_command-live, notice_command-live, guarded_command-Settled, settled, render-phase,
  opening-live, phase_after-append,
}
use ocpp_cli.Cli.Lifecycle.Operations.{Releases, send_operations-Releases}

validate_config-Releases : Releases Checks.validate_config
unfolding Checks.validate_config
validate_config-Releases h args =
    after-Settled (Checks.check_plan h "validate-config" args) _
      λ plan. settled (render-phase h plan.1 _ Phase.idle (λ output. refl)) refl

write_starter-Settled :
    (h : Host) (path : String) (file : Opened) → Settled (write_starter h path file)
unfolding write_starter
write_starter-Settled h path exists = record { over = refl }
write_starter-Settled h path (not_opened reason) = record { over = refl }
write_starter-Settled h path opened = record { over = ground arith }

probe-Settled :
    (h : Host) (client : Client) (body : Command)
    → phase_after Phase.ended body.1 ≡ Phase.ended
    → Settled (probe h client body)
unfolding probe
probe-Settled h client body keeps = elim (Option-cases (connected h client)) [
  | inl success ↦ rw (success, probe) (settled (closes ∙ keeps) refl)
  | inr (e, failure) ↦ rw (failure, probe) (settled ends refl)
]
  where
    shut : List Effect
    shut = opening client ++ (cancelled ∷ closed ∷ [])

    ends : phase_after Phase.idle shut ≡ Phase.ended
    ends =
        phase_after-append Phase.idle (opening client) (cancelled ∷ closed ∷ [])
        ∙ ap (λ p. phase_after p (cancelled ∷ closed ∷ [])) (opening-live client)

    closes : phase_after Phase.idle (shut ++ body.1 ++ []) ≡ phase_after Phase.ended body.1
    closes =
        phase_after-append Phase.idle (shut ++ body.1) []
        ∙ (phase_after-append Phase.idle shut body.1 ∙ ap (λ p. phase_after p body.1) ends)

test_connection-Releases : Releases Checks.test_connection
unfolding Checks.test_connection
test_connection-Releases h args =
    after-Settled (Checks.check_plan h "test-connection" args) _ λ plan.
      after-Settled (new_station h plan.0) _ λ client.
        probe-Settled h client _
          (render-phase h plan.1 (Checks.connection_snapshot plan.0) Phase.ended (λ output. refl))

init_config-Releases : Releases init_config
unfolding init_config
init_config-Releases h args =
    after-Settled (parse_flags h "init-config" args) _ λ g. write_starter-Settled h _ _

completions-Releases : Releases completions
unfolding completions
completions-Releases h [] = record { over = refl }
completions-Releases h (shell ∷ []) = record { over = ground arith }
completions-Releases h (shell ∷ next ∷ rest) = record { over = refl }

send_named-Settled : (h : Host) (args : List String) → Settled (send_named h args)
unfolding send_named
send_named-Settled h [] = record { over = refl }
send_named-Settled h (operation ∷ args) =
    if_rule Settled (asks_help operation) (λ help. record { over = refl })
      λ named. elim (Option-cases (get operation send_operations)) [
        | inl unknown ↦ rw unknown (record { over = refl })
        | inr (handler, known) ↦ rw known (
            get-All (λ entry. Releases entry.1) operation handler send_operations
              send_operations-Releases known h args)
      ]

send-Releases : Releases send
unfolding send
send-Releases h args = after-Settled (h.normalise_global_flags args) _ (send_named-Settled h)

-- Streamed lines and the start of a simulator concern no connection of a station.
streamed-idle : (lines : List Line) → phase_after Phase.idle (map streamed lines) ≡ Phase.idle
streamed-idle [] = refl
streamed-idle (line ∷ lines) = streamed-idle lines

run_simulator-Releases :
    (simulate : Simulator → ℤ → Received) → Releases (λ h args. run_simulator h simulate args)
unfolding run_simulator
run_simulator-Releases simulate h args = after-Settled (run_plan h args) _ λ plan.
    after-Settled (make_simulator h plan.cfg plan.opts) _ λ s.
      settled (streamed-idle (pump h (new_writer plan.format) (simulate s plan.duration)).1) refl

commands-Releases :
    (simulate : Simulator → ℤ → Received) → All (λ entry. Releases entry.1) (commands simulate)
commands-Releases simulate = (
  prints,
  (
    prints,
    (
      prints,
      (
        run_simulator-Releases simulate,
        (
          init_config-Releases,
          (
            validate_config-Releases,
            (test_connection-Releases, (test_connection-Releases, (send-Releases, sent_too))),
          ),
        ),
      ),
    ),
  ),
)
  where
    prints : Releases (λ h args. (none, printed "ocpp-cli development" ∷ []))
    prints h args = record { over = refl }

    sent_too :
        All (λ entry. Releases entry.1) (send_operations ++ (("completions", completions) ∷ []))
    sent_too =
        All-append (λ entry. Releases entry.1) send_operations (("completions", completions) ∷ [])
          send_operations-Releases (completions-Releases, tt)

find_command-Releases :
    (simulate : Simulator → ℤ → Received) (name : String) (handler : Handler)
    → find_command simulate name ≡ some handler
    → Releases handler
unfolding find_command
find_command-Releases simulate name handler found =
    get-All (λ entry. Releases entry.1) name handler (commands simulate)
      (commands-Releases simulate) found

complaint-over :
    (p : Phase) (text : String) → is_over p ≡ true → is_over (advance p (complained text)) ≡ true
complaint-over p text over = ground arith

report_of-over :
    (c : Command) → Settled c → is_over (phase_after Phase.idle (report_of c).effects) ≡ true
unfolding report_of
report_of-over (none, effects) ends = ends.over
report_of-over (some e, effects) ends =
    if_rule Over (is e Sentinel.help) (λ help. ends.over)
      λ other. ap is_over all ∙ complaint-over (phase_after Phase.idle effects) e.text ends.over
  where
    Over : Report → Type 0
    Over report = is_over (phase_after Phase.idle report.effects) ≡ true

    all :
        phase_after Phase.idle (effects ++ (complained e.text ∷ []))
        ≡ advance (phase_after Phase.idle effects) (complained e.text)
    all = phase_after-append Phase.idle effects (complained e.text ∷ [])

run_named-over :
    (h : Host) (simulate : Simulator → ℤ → Received) (args : List String)
    → is_over (phase_after Phase.idle (run_named h simulate args).effects) ≡ true
unfolding run_named
run_named-over h simulate [] = refl
run_named-over h simulate (name ∷ args) =
    if_rule Over (asks_help name) (λ help. refl)
      λ named. elim (Option-cases (find_command simulate name)) [
        | inl unknown ↦ rw unknown refl
        | inr (handler, found) ↦ rw found (
            report_of-over (handler h args)
              (find_command-Releases simulate name handler found h args))
      ]
  where
    Over : Report → Type 0
    Over report = is_over (phase_after Phase.idle report.effects) ≡ true

run_normalised-over :
    (h : Host) (simulate : Simulator → ℤ → Received) (args : Outcome (List String))
    → is_over (phase_after Phase.idle (run_normalised h simulate args).effects) ≡ true
unfolding run_normalised
run_normalised-over h simulate (got args) = run_named-over h simulate args
run_normalised-over h simulate (lost e) = refl

-- Whatever the arguments are, and whatever the libraries, the files and the central system answer:
-- at the end of the program every client that a command made has been closed and its context
-- cancelled, each exactly once, and requests were sent only after it had set out to connect and
-- before either. The simulator's own connection is not a client's.
pub run_lem :
    (h : Host) (simulate : Simulator → ℤ → Received) (args : List String)
    → is_over (phase_after Phase.idle (run h simulate args).effects) ≡ true
unfolding run
run_lem h simulate args = run_normalised-over h simulate (h.normalise_global_flags args)
