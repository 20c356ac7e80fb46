-- ===== src/Cli/Stream.antt =====
-- internal/cli/stream.go, and the loop of internal/cli/commands_run.go that feeds it.
pub mod Laws
pub mod Document
use Prim.Native.String
use ocpp_cli.Prelude.{
  ℤ, String, Bool, true, false, Option, none, some, List, [], ◌∷◌, ◌++◌, str_eq, if◌then◌else◌,
}
use ocpp_cli.Errors.{Error, Sentinel, wrap}
use ocpp_cli.Cli.Render.{text_of_event}
use ocpp_cli.Cli.{Host, StreamEvent, Line, text_line, json_line, csv_line}

pub record Writer : Type 0 where
  pub format : String
  pub csv_header : Bool

abbrev pub new_writer : String → Writer
new_writer format = record { format = format; csv_header = false }

pub record Written : Type 0 where
  pub error : Option Error
  pub writer : Writer
  pub lines : List Line

abbrev pub header_line : Line
header_line =
    csv_line ("timestamp" ∷ "direction" ∷ "action" ∷ "status" ∷ "connector_id" ∷ "detail" ∷ [])

unfoldable pub output_error : Host → String → Error
unfolding wrap
output_error h detail = wrap h.texts.output_text Sentinel.output detail

-- `if err != nil { return fmt.Errorf("%w: %v", output.ErrOutput, err) }`
unfoldable pub failure : Host → Option String → Option Error
unfolding output_error
failure h none = none
failure h (some reason) = some (output_error h reason)

abbrev connector_field : Host → Option ℤ → String
connector_field h none = ""
connector_field h (some id) = h.itoa id

unfoldable pub csv_record : Host → StreamEvent → Line
csv_record h e = csv_line (
    h.format_millis e.timestamp
    ∷ e.direction
    ∷ e.action
    ∷ e.status
    ∷ connector_field h e.connector_id
    ∷ e.detail
    ∷ [])

abbrev wrote_line : Host → Writer → Line → Written
wrote_line h w line = record { error = failure h (h.put_line line); writer = w; lines = line ∷ [] }

-- The record after the header, and the flush.
unfoldable pub write_record : Host → Writer → List Line → StreamEvent → Written
unfolding csv_record failure
write_record h w before e = elim (h.put_line (csv_record h e)) [
  | some reason ↦ written (some reason)
  | none ↦ written (h.flush e)
]
  where
    written : Option String → Written
    written reason = record {
      error = failure h reason;
      writer = w;
      lines = before ++ (csv_record h e ∷ []);
    }

unfoldable pub write_csv_event : Host → Writer → StreamEvent → Written
unfolding write_record failure
write_csv_event h w e =
    if w.csv_header then write_record h w [] e else elim (h.put_line header_line) [
      | some reason ↦ record {
        error = failure h (some reason);
        writer = w;
        lines = header_line ∷ [];
      }
      | none ↦ write_record h (record w { csv_header = true }) (header_line ∷ []) e
    ]

unfoldable pub write_event : Host → Writer → StreamEvent → Written
unfolding text_of_event write_csv_event failure output_error
write_event h w e =
    if str_eq w.format "text"
    then wrote_line h w (text_line (text_of_event h e))
    else if str_eq w.format "jsonl"
    then wrote_line h w (json_line e)
    else if str_eq w.format "csv"
    then write_csv_event h w e
    else record {
      error = some (output_error h (String.◌++◌ "unsupported stream format " (h.quote w.format)));
      writer = w;
      lines = [];
    }

-- Two writes in a row.
abbrev pub then_written : Written → Written → Written
then_written first rest = record {
  error = rest.error;
  writer = rest.writer;
  lines = first.lines ++ rest.lines;
}

-- A write, and another one unless the first has failed.
unfoldable pub and_then : Written → (Writer → Written) → Written
and_then first next = elim first.error [
  | some reason ↦ first
  | none ↦ then_written first (next first.writer)
]

-- The events written in turn, up to the first that fails.
unfoldable pub write_events : Host → Writer → List StreamEvent → Written
unfolding write_event and_then
write_events h w [] = record { error = none; writer = w; lines = [] }
write_events h w (e ∷ es) = and_then (write_event h w e) (λ w'. write_events h w' es)

-- What the `select` of the loop receives: every event up to the closing of the channel and then the
-- result of `simulator.Run`, or the result between two events. In both the channel is closed in the
-- end: on one that never is, the loop waits forever.
pub data Received : Type 0 where
  closed_first : List StreamEvent → Option Error → Received
  result_first : List StreamEvent → Option Error → List StreamEvent → Received

-- The error of a write goes before the result of the run.
abbrev or_result : Option Error → Option Error → Option Error
or_result (some e) result = some e
or_result none result = result

abbrev pub finish : Written → Option Error → Option Error × List Line
finish done result = (or_result done.error result, done.lines)

unfoldable pub pump : Host → Writer → Received → Option Error × List Line
unfolding write_events and_then
pump h w (closed_first events result) = finish (write_events h w events) result
pump h w (result_first events result rest) =
    finish (and_then (write_events h w events) (λ w'. write_events h w' rest)) result
