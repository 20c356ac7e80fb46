-- ===== src/Cli/Connection.antt =====
-- `connect` of internal/cli/helpers.go with the cleanup that its callers defer, and what the
-- commands do with the answer of a station.
use Prim.Native.String
use ocpp_cli.Prelude.{String, Bool, not, Option, none, some, List, [], ◌∷◌, ◌++◌, if◌then◌else◌}
use ocpp_cli.Config.{ClientConfig}
use ocpp_cli.Errors.{Error, Sentinel, Outcome, got, lost, is}
use ocpp_cli.Client.Types.{Call}
use ocpp_cli.Client.Operations.{Answer}
use ocpp_cli.Client.Setup.{Client, trim_slashes}
use ocpp_cli.Client.Setup as Setup
use ocpp_cli.Cli.{Host, Effect, created, announced, connecting, sent, cancelled, closed, Command}
use ocpp_cli.Cli.Render.{Snapshot, render_snapshot}

-- `a.newStation` is `ocppclient.New`.
unfoldable pub new_station : Host → ClientConfig → Outcome Client
unfolding Setup.new
new_station h cfg = Setup.new h.texts h.parsers h.certificates cfg

unfoldable pub announcement : ClientConfig → String
unfolding trim_slashes
announcement cfg = String.◌++◌ "connecting to " (
    String.◌++◌ (trim_slashes cfg.central_system_url)
      (String.◌++◌ "/" (String.◌++◌ cfg.charge_point_id " using ocpp1.6\n")))

unfoldable pub opening : Client → List Effect
unfolding announcement
opening client =
    created client
    ∷ (if client.cfg.verbose
        then announced (announcement client.cfg) ∷ connecting ∷ []
        else connecting ∷ [])

unfoldable pub connected : Host → Client → Option Error
unfolding Setup.connect
connected h client =
    Setup.connect h.texts h.parsers h.certificates (h.context_ended client.cfg) h.start client

-- A command that returns the error, or goes on.
abbrev pub after : {A : Type 0} → Outcome A → (A → Command) → Command
after (lost e) run = (some e, [])
after (got a) run = run a

-- The effects of a command between others.
abbrev pub between : List Effect → Command → List Effect → Command
between before body cleanup = (body.0, before ++ body.1 ++ cleanup)

-- `station, ctx, cancel, err := a.connect(cfg)`, then `defer cancel()`, `defer station.Close()` and
-- the body: what is deferred last runs first.
unfoldable pub on_client : Host → Client → Command → Command
unfolding opening connected
on_client h client body = elim (connected h client) [
  | some e ↦ (some e, opening client ++ (cancelled ∷ closed ∷ []))
  | none ↦ between (opening client) body (closed ∷ cancelled ∷ [])
]

unfoldable pub on_station : Host → ClientConfig → Command → Command
unfolding new_station on_client
on_station h cfg body = after (new_station h cfg) (λ client. on_client h client body)

unfoldable pub is_fatal : Option Error → Bool
is_fatal none = Bool.false
is_fatal (some e) = not (is e Sentinel.rejected)

-- `if renderErr != nil { return renderErr }; return operationErr`
abbrev pub then_return : Command → Option Error → Command
then_return (some render_error, effects) operation_error = (some render_error, effects)
then_return (none, effects) operation_error = (operation_error, effects)

unfoldable pub show_answer : Host → String → Call → Option Error → Outcome Snapshot → Command
unfolding render_snapshot
show_answer h format call operation_error (lost e) = (some e, sent call ∷ [])
show_answer h format call operation_error (got snapshot) =
    between (sent call ∷ []) (then_return (render_snapshot h format snapshot) operation_error) []

-- An operation that may be rejected: a rejection is rendered like an acceptance, and then returned.
unfoldable pub answer_command :
    Host → String → Call → {R : Type 0} → Answer R → (R → Outcome Snapshot) → Command
unfolding is_fatal show_answer
answer_command h format call (result, operation_error) show =
    if is_fatal operation_error
    then (operation_error, sent call ∷ [])
    else show_answer h format call operation_error (show result)

-- `err = station.X(...); if err != nil { return err }; return renderSnapshot(...)`
unfoldable pub notice_command : Host → String → Call → Option Error → Snapshot → Command
unfolding render_snapshot
notice_command h format call (some e) snapshot = (some e, sent call ∷ [])
notice_command h format call none snapshot =
    between (sent call ∷ []) (render_snapshot h format snapshot) []
