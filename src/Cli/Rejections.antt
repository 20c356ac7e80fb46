-- ===== src/Cli/Rejections.antt =====
-- A rejected transaction, from the central system's answer to the exit code.
pub mod Shown
use ocpp_cli.Prelude.{
  Option-cases, ℕ, ◌≡◌, refl, str_eq_iff, Bool-cases, ◌∙◌, ap, inl, inr, String, Bool, true, false,
  Option, none, some, List, [], ◌∷◌, ◌++◌, any, str_eq, if◌then◌else◌, arith,
}
use ocpp_cli.Errors.{
  Error, Outcome, ExitCode, Sentinel, got, is, is_flag_parse_error, code_of, map_exit_code,
}
use Prim.Native.String
use mathlib.Core.List.{append_assoc}
use ocpp_cli.Errors.Laws.{map_exit_code-wrap}
use ocpp_cli.Client.Types.{
  Call, answered, IdTagInfo, StartConfirmation, StartTransactionRequest, StartTransactionResult,
}
use ocpp_cli.Client.Operations.{rejection, authorization_result, Answer}
use ocpp_cli.Client.Operations as Operations
use ocpp_cli.Client.Laws.{Refuses, status_of}
use ocpp_cli.Client.Setup.{Client}
use ocpp_cli.Cli.{
  Host, Given, execute, Effect, sent, wrote, closed, cancelled, complained, Output, write_table,
  write_text, write_json, write_csv, Command, Value,
}
use ocpp_cli.Cli.Flags.{parse_flags, snapshot_formats}
use ocpp_cli.Cli.Render.{Snapshot, render_snapshot, key_value_snapshot}
use ocpp_cli.Cli.Connection.{
  between, opening, new_station, connected, on_client, on_station, answer_command, show_answer,
  is_fatal,
}
use ocpp_cli.Cli.Station.{Plan, expiry_text}
use ocpp_cli.Cli.Meter.{start_plan, start_transaction, start_shown, resolve_mode, guarded_command}
use ocpp_cli.Cli.Rejections.Shown.{
  output_of, refusal_output, shown_of, refused_result, output-result,
}
use ocpp_cli.Cli.App.{report_of}

-- What a command with a station leaves behind, when the connection was made.
on_station-open :
    (h : Host) (cfg : _) (client : Client) (body : Command)
    → new_station h cfg ≡ got client
    → connected h client ≡ none
    → on_station h cfg body ≡ between (opening client) body (closed ∷ cancelled ∷ [])
unfolding on_station on_client
on_station-open h cfg client body made open_now = rw made (rw (open_now, on_client) refl)

-- A validated format is rendered by one write.
render-output :
    (h : Host) (format : String) (shown : Snapshot)
    → any (str_eq format) snapshot_formats ≡ true
    → ((output : Output) → h.write output ≡ none)
    → render_snapshot h format shown ≡ (none, wrote (output_of format shown) ∷ [])
unfolding render_snapshot
render-output h format shown valid writes = ground (
  arith,
  writes (write_table shown.headers shown.rows),
  writes (write_text shown.text),
  writes (write_json shown.value),
  writes (write_csv shown.headers shown.rows),
)

answer_command-refused :
    (h : Host) (format : String) (call : Call) {R : Type 0} (answer : Answer R)
    (show : R → Outcome Snapshot) (e : Error) (shown : Snapshot) (output : Output)
    → answer.1 ≡ some e
    → is e Sentinel.rejected ≡ true
    → show answer.0 ≡ got shown
    → render_snapshot h format shown ≡ (none, wrote output ∷ [])
    → answer_command h format call answer show ≡ (some e, sent call ∷ wrote output ∷ [])
unfolding answer_command show_answer is_fatal
answer_command-refused h format call answer show e shown output fails refused shows renders =
    rw (fails, is_fatal, refused, shows, show_answer, renders)
      (ap (λ failure. (failure, sent call ∷ wrote output ∷ [])) fails)

str_eq-Refuses : (status : String) → Refuses status → str_eq status "Accepted" ≡ false
str_eq-Refuses status refuses = elim (Bool-cases (str_eq status "Accepted")) [
  | inl accepted ↦ absurd (refuses ((str_eq_iff status "Accepted").0 accepted))
  | inr differs ↦ differs
]

authorization_result-status :
    (info : Option IdTagInfo) → (authorization_result info).status ≡ status_of info
unfolding authorization_result
authorization_result-status none = refl
authorization_result-status (some info) = refl

refused_start :
    (h : Host) (request : StartTransactionRequest) (s : StartConfirmation)
    → h.central.on_start (Call.start_transaction request) ≡ answered s
    → Refuses (status_of s.id_tag_info)
    → (Operations.start_transaction h.texts h.central request).1
      ≡ some (rejection h.texts "transaction authorization" (status_of s.id_tag_info))
unfolding Operations.start_transaction Operations.settle Operations.await
refused_start h request s answers refuses =
    rw answers (rw (authorization_result-status s.id_tag_info, str_eq-Refuses _ refuses) refl)

rejection-code :
    (h : Host) (what status : String)
    → is_flag_parse_error (rejection h.texts what status) ≡ false
    → code_of (rejection h.texts what status) ≡ ExitCode.rejected
unfolding rejection map_exit_code
rejection-code h what status plain =
    map_exit_code-wrap h.texts.output_text (String.◌++◌ what (String.◌++◌ " status is " status))
      Sentinel.rejected
    ∙ ap (λ misread. if misread then ExitCode.config_error else ExitCode.rejected) plain

-- The command's own error and effects.
refused_command :
    (h : Host) (client : Client) (body : Command) (e : Error) (effects : List Effect)
    → connected h client ≡ none
    → body ≡ (some e, effects)
    → on_client h client body ≡ (some e, opening client ++ (effects ++ (closed ∷ cancelled ∷ [])))
unfolding on_client
refused_command h client body e effects open_now runs =
    rw (open_now, on_client, runs)
      (ap (λ all. (some e, all)) (append_assoc (opening client) effects (closed ∷ cancelled ∷ [])))

report-rejection :
    (c : Command) (e : Error) (effects : List Effect)
    → c ≡ (some e, effects)
    → is e Sentinel.help ≡ false
    → report_of c ≡ record { exit_code = code_of e; effects = effects ++ (complained e.text ∷ []) }
unfolding report_of map_exit_code
report-rejection c e effects q not_help = rw q (rw not_help refl)

-- When the central system refuses a transaction that was really asked for, and the output can be
-- written, what the confirmation says is
-- written in the chosen format while the connection is open, and the program
-- then ends with the exit code for a rejection. The status that is refused must not read like a
-- message of the flag parser.
pub start_transaction-refused :
    (h : Host) (args : List String) (g : Given) (plan : Plan StartTransactionRequest)
    (client : Client) (s : StartConfirmation)
    → parse_flags h "start-transaction" args ≡ got g
    → start_plan h g ≡ got plan
    → resolve_mode h g ≡ got execute
    → new_station h plan.cfg ≡ got client
    → connected h client ≡ none
    → h.central.on_start (Call.start_transaction plan.request) ≡ answered s
    → Refuses (status_of s.id_tag_info)
    → is_flag_parse_error (rejection h.texts "transaction authorization" (status_of s.id_tag_info))
      ≡ false
    → any (str_eq plan.format) snapshot_formats ≡ true
    → ((output : Output) → h.write output ≡ none)
    → report_of (start_transaction h args) ≡ record {
      exit_code = ExitCode.rejected;
      effects =
          opening client
          ++ (sent (Call.start_transaction plan.request)
              ∷ wrote (refusal_output h plan.format s)
              ∷ closed
              ∷ cancelled
              ∷ complained
                  (rejection h.texts "transaction authorization" (status_of s.id_tag_info)).text
              ∷ []);
    }
unfolding start_transaction start_shown rejection
start_transaction-refused h args g plan client s parsed planned mode made open_now answers refuses
      plain valid writes =
    report-rejection _ e _ (runs ∙ closes) refl
    ∙ ap
        (λ code. record {
          exit_code = code;
          effects = (opening client ++ used) ++ (complained e.text ∷ []);
        })
        (rejection-code h "transaction authorization" (status_of s.id_tag_info) plain)
    ∙ ap (λ effects. record { exit_code = ExitCode.rejected; effects = effects })
        (append_assoc (opening client) used (complained e.text ∷ []))
  where
    e : Error
    e = rejection h.texts "transaction authorization" (status_of s.id_tag_info)

    answer : Answer StartTransactionResult
    answer = Operations.start_transaction h.texts h.central plan.request

    shown : Snapshot
    shown = shown_of h answer.0

    output : Output
    output = refusal_output h plan.format s

    written : output_of plan.format shown ≡ output
    written =
        ap (λ result. output_of plan.format (shown_of h result))
          (refused_result h plan.request s answers)
        ∙ output-result h plan.format s

    renders : render_snapshot h plan.format shown ≡ (none, wrote output ∷ [])
    renders =
        render-output h plan.format shown valid writes ∙ ap (λ o. (none, wrote o ∷ [])) written

    used : List Effect
    used = sent (Call.start_transaction plan.request) ∷ wrote output ∷ closed ∷ cancelled ∷ []

    body : Command
    body = answer_command h plan.format (Call.start_transaction plan.request) answer (start_shown h)

    runs : start_transaction h args ≡ on_client h client body
    runs = rw (parsed, planned, mode, guarded_command, on_station, made) refl

    closes : on_client h client body ≡ (some e, opening client ++ used)
    closes =
        refused_command h client body e
          (sent (Call.start_transaction plan.request) ∷ wrote output ∷ []) open_now
          (answer_command-refused h plan.format (Call.start_transaction plan.request) answer
            (start_shown h) e shown output (refused_start h plan.request s answers refuses) refl
            refl renders)
