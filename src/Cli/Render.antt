-- ===== src/Cli/Render.antt =====
-- internal/cli/render.go, and `formatTime` of internal/cli/helpers.go.
use Prim.Native.String.{◌++◌}
use ocpp_cli.Prelude.{ℕ, String, Option, none, some, List, [], ◌∷◌, map, str_eq, if◌then◌else◌}
use ocpp_cli.Errors.{plain}
use ocpp_cli.Cli.{
  Host, Value, Output, write_table, write_text, write_json, write_csv, Command, wrote, StreamEvent,
}

pub record Snapshot : Type 0 where
  pub headers : List String
  pub rows : List (List String)
  pub text : String
  pub value : Value

-- `strings.Join`
unfoldable pub join : String → List String → String
join separator [] = ""
join separator (s ∷ []) = s
join separator (s ∷ next ∷ rest) = s ++ separator ++ join separator (next ∷ rest)

unfoldable pub key_value_snapshot : Value → List (String × String) → Snapshot
unfolding join
key_value_snapshot value fields = record {
  headers = "FIELD" ∷ "VALUE" ∷ [];
  rows = map (λ field. field.0 ∷ field.1 ∷ []) fields;
  text = join "\n" (map (λ field. field.0 ++ ": " ++ field.1) fields);
  value = value;
}

abbrev write_output : Host → Output → Command
write_output h output = (h.write output, wrote output ∷ [])

unfoldable pub render_snapshot : Host → String → Snapshot → Command
unfolding plain
render_snapshot h format result =
    if str_eq format "table"
    then write_output h (write_table result.headers result.rows)
    else if str_eq format "text"
    then write_output h (write_text result.text)
    else if str_eq format "json"
    then write_output h (write_json result.value)
    else if str_eq format "csv"
    then write_output h (write_csv result.headers result.rows)
    else (some (plain ("unsupported output format " ++ h.quote format)), [])

unfoldable pub format_time : Host → Option ℕ → String
format_time h none = ""
format_time h (some at) = h.format_time at

-- A line of the text stream of internal/cli/stream.go.
unfoldable pub text_of_event : Host → StreamEvent → String
text_of_event h e =
    h.format_millis e.timestamp
    ++ " direction="
    ++ e.direction
    ++ " action="
    ++ e.action
    ++ " status="
    ++ e.status
    ++ connector
    ++ detail
    ++ "\n"
  where
    connector : String
    connector = elim e.connector_id [ none ↦ "" | some id ↦ " connector=" ++ h.itoa id ]

    detail : String
    detail = if str_eq e.detail "" then "" else " detail=" ++ h.quote e.detail
