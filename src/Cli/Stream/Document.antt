-- ===== src/Cli/Stream/Document.antt =====
-- internal/cli/stream.go: the whole stream of a run as one document.
use ocpp_cli.Prelude.{
  ◌≡◌, refl, sym, subst, ◌∙◌, ap, ◌⊎◌, inl, inr, String, true, Option, none, List, [], ◌∷◌, ◌++◌,
  map, any, str_eq, str_eq_iff, if◌then◌else◌, arith,
}
use ocpp_cli.Errors.{Error}
use ocpp_cli.Cli.{Host, StreamEvent, Line, text_line, json_line}
use ocpp_cli.Cli.Flags.{stream_formats}
use ocpp_cli.Cli.Render.{text_of_event}
use ocpp_cli.Cli.Stream.{
  Writer, Written, new_writer, header_line, csv_record, write_event, write_events, write_csv_event,
  write_record, failure, and_then, finish, Received, closed_first, result_first, pump,
}
use ocpp_cli.Cli.Stream.Laws.{pump-order}

-- What the lines of a stream should be: one for each event, and for CSV a header before the first.
abbrev csv_document : Host → List StreamEvent → List Line
csv_document h [] = []
csv_document h (e ∷ es) = header_line ∷ map (csv_record h) (e ∷ es)

abbrev pub document : Host → String → List StreamEvent → List Line
document h format events =
    if str_eq format "text"
    then map (λ e. text_line (text_of_event h e)) events
    else if str_eq format "jsonl"
    then map json_line events
    else csv_document h events

abbrev pub events_of : Received → List StreamEvent
events_of (closed_first events result) = events
events_of (result_first events result rest) = events ++ rest

abbrev pub result_of : Received → Option Error
result_of (closed_first events result) = result
result_of (result_first events result rest) = result

abbrev Implements : Host → List StreamEvent → Option Error → String → Type 0
Implements h events result format =
    finish (write_events h (new_writer format) events) result ≡ (result, document h format events)

abbrev done : Writer → List Line → Written
done w lines = record { error = none; writer = w; lines = lines }

abbrev csv_after : Writer
csv_after = record { format = "csv"; csv_header = true }

-- A writer that stays as it is writes one line for each event.
write_events-map :
    (h : Host) (w : Writer) (line_of : StreamEvent → Line)
    → ((e : StreamEvent) → write_event h w e ≡ done w (line_of e ∷ []))
    → (events : List StreamEvent) → write_events h w events ≡ done w (map line_of events)
unfolding write_events and_then
write_events-map h w line_of writes [] = refl
write_events-map h w line_of writes (e ∷ es) =
    rw (writes e, write_events-map h w line_of writes es) refl

module _ (h : Host) (puts : (line : Line) → h.put_line line ≡ none)
    (flushes : (e : StreamEvent) → h.flush e ≡ none) where
  write_record-done :
      (w : Writer) (before : List Line) (e : StreamEvent)
      → write_record h w before e ≡ done w (before ++ (csv_record h e ∷ []))
  unfolding write_record failure
  write_record-done w before e =
      rw (puts (csv_record h e), write_record) (rw (flushes e, failure) refl)

  text_step :
      (e : StreamEvent)
      → write_event h (new_writer "text") e
        ≡ done (new_writer "text") (text_line (text_of_event h e) ∷ [])
  unfolding write_event failure
  text_step e = rw (puts (text_line (text_of_event h e))) refl

  json_step :
      (e : StreamEvent)
      → write_event h (new_writer "jsonl") e ≡ done (new_writer "jsonl") (json_line e ∷ [])
  unfolding write_event failure
  json_step e = rw (puts (json_line e)) refl

  csv_step : (e : StreamEvent) → write_event h csv_after e ≡ done csv_after (csv_record h e ∷ [])
  unfolding write_event write_csv_event
  csv_step e = write_record-done csv_after [] e

  csv_first :
      (e : StreamEvent)
      → write_event h (new_writer "csv") e ≡ done csv_after (header_line ∷ csv_record h e ∷ [])
  unfolding write_event write_csv_event
  csv_first e = rw (puts header_line) (write_record-done csv_after (header_line ∷ []) e)

  write_events-csv :
      (events : List StreamEvent) (result : Option Error)
      → finish (write_events h (new_writer "csv") events) result ≡ (result, csv_document h events)
  unfolding write_events and_then
  write_events-csv [] result = refl
  write_events-csv (e ∷ es) result =
      ap (λ first. finish (and_then first (λ w. write_events h w es)) result) (csv_first e)
      ∙ ap
          (λ rest.
            finish (and_then (done csv_after (header_line ∷ csv_record h e ∷ [])) (λ w. rest))
              result)
          (write_events-map h csv_after (csv_record h) csv_step es)

  write_events-document :
      (format : String) (events : List StreamEvent) (result : Option Error)
      → (format ≡ "text") ⊎ (format ≡ "jsonl") ⊎ (format ≡ "csv")
      → Implements h events result format
  write_events-document format events result (inl text) =
      subst (Implements h events result) (sym text)
        (ap (λ all. finish all result) (write_events-map h (new_writer "text") _ text_step events))
  write_events-document format events result (inr (inl jsonl)) =
      subst (Implements h events result) (sym jsonl)
        (ap (λ all. finish all result) (write_events-map h (new_writer "jsonl") _ json_step events))
  write_events-document format events result (inr (inr csv)) =
      subst (Implements h events result) (sym csv) (write_events-csv events result)

stream_format-cases :
    (format : String)
    → any (str_eq format) stream_formats ≡ true
    → (format ≡ "text") ⊎ (format ≡ "jsonl") ⊎ (format ≡ "csv")
stream_format-cases format valid =
    ground (arith, str_eq_iff format "text", str_eq_iff format "jsonl", str_eq_iff format "csv")

-- With a valid format and writes that succeed, the stream of a run implements the document of all its
-- events, whichever channel the loop reads first: in text and JSON one line for each event in order,
-- in CSV one header before them, or nothing where there is no event; and the result of the run is
-- returned.
pub pump-document :
    (h : Host) (format : String) (r : Received)
    → any (str_eq format) stream_formats ≡ true
    → ((line : Line) → h.put_line line ≡ none)
    → ((e : StreamEvent) → h.flush e ≡ none)
    → pump h (new_writer format) r ≡ (result_of r, document h format (events_of r))
unfolding pump
pump-document h format (closed_first events result) valid puts flushes =
    write_events-document h puts flushes format events result (stream_format-cases format valid)
pump-document h format (result_first events result rest) valid puts flushes =
    pump-order h (new_writer format) events rest result
    ∙ write_events-document h puts flushes format (events ++ rest) result
        (stream_format-cases format valid)
