-- ===== src/Cli/Rejections/Shown.antt =====
-- What the command `start-transaction` writes of a confirmation (internal/cli/commands_meter.go,
-- internal/cli/render.go).
use ocpp_cli.Prelude.{
  Option-cases, ℕ, ◌≡◌, refl, inl, inr, String, Option, none, some, [], ◌∷◌, str_eq, if◌then◌else◌,
}
use Prim.Native.String
use ocpp_cli.Client.Types.{
  Call, answered, IdTagInfo, StartConfirmation, StartTransactionRequest, StartTransactionResult,
}
use ocpp_cli.Client.Operations.{rejection, authorization_result, Answer}
use ocpp_cli.Client.Operations as Operations
use ocpp_cli.Client.Laws.{status_of}
use ocpp_cli.Cli.{Host, Output, write_table, write_text, write_json, write_csv, Value}
use ocpp_cli.Cli.Render.{Snapshot, key_value_snapshot}
use ocpp_cli.Cli.Station.{expiry_text}

abbrev pub output_of : String → Snapshot → Output
output_of format shown =
    if str_eq format "table"
    then write_table shown.headers shown.rows
    else if str_eq format "text"
    then write_text shown.text
    else if str_eq format "json"
    then write_json shown.value
    else write_csv shown.headers shown.rows

-- What is shown of a confirmation.
abbrev expiry_of : Option IdTagInfo → Option (Option ℕ)
expiry_of none = none
expiry_of (some info) = info.expiry_date

abbrev parent_of : Option IdTagInfo → String
parent_of none = ""
parent_of (some info) = info.parent_id_tag

abbrev shown_date : Host → Option (Option ℕ) → String
shown_date h (some (some time)) = h.format_time time
shown_date h _ = ""

-- The output of a refused start in each of the formats, with what the confirmation says.
abbrev pub refusal_output : Host → String → StartConfirmation → Output
refusal_output h format s =
    let id = h.itoa s.transaction_id in
    let status = status_of s.id_tag_info in
    let expiry = shown_date h (expiry_of s.id_tag_info) in
    let rows =
      ("TRANSACTION_ID" ∷ id ∷ [])
      ∷ ("STATUS" ∷ status ∷ [])
      ∷ ("EXPIRY_DATE" ∷ expiry ∷ [])
      ∷ [] in
    if str_eq format "table"
    then write_table ("FIELD" ∷ "VALUE" ∷ []) rows
    else if str_eq format "text"
    then write_text (
        String.◌++◌ (String.◌++◌ "TRANSACTION_ID" (String.◌++◌ ": " id)) (
          String.◌++◌ "\n" (
            String.◌++◌ (String.◌++◌ "STATUS" (String.◌++◌ ": " status))
              (String.◌++◌ "\n" (String.◌++◌ "EXPIRY_DATE" (String.◌++◌ ": " expiry))))))
    else if str_eq format "json"
    then write_json (
        Value.started (record {
          transaction_id = s.transaction_id;
          authorization = record {
            status = status;
            expiry_date = expiry_of s.id_tag_info;
            parent_id_tag = parent_of s.id_tag_info;
          };
        }))
    else write_csv ("FIELD" ∷ "VALUE" ∷ []) rows

-- The snapshot that the command makes of a result.
abbrev pub shown_of : Host → StartTransactionResult → Snapshot
shown_of h result = key_value_snapshot (Value.started result) (
    ("TRANSACTION_ID", h.itoa result.transaction_id)
    ∷ ("STATUS", (result.authorization).status)
    ∷ ("EXPIRY_DATE", expiry_text h (result.authorization).expiry_date)
    ∷ [])

abbrev pub result_of : StartConfirmation → StartTransactionResult
result_of s = record {
  transaction_id = s.transaction_id;
  authorization = authorization_result s.id_tag_info;
}

pub refused_result :
    (h : Host) (request : StartTransactionRequest) (s : StartConfirmation)
    → h.central.on_start (Call.start_transaction request) ≡ answered s
    → (Operations.start_transaction h.texts h.central request).0 ≡ result_of s
unfolding Operations.start_transaction Operations.settle Operations.await
refused_result h request s answers = rw answers refl

expiry-shown : (h : Host) (date : Option (Option ℕ)) → expiry_text h date ≡ shown_date h date
unfolding expiry_text
expiry-shown h none = refl
expiry-shown h (some none) = refl
expiry-shown h (some (some time)) = refl

pub output-result :
    (h : Host) (format : String) (s : StartConfirmation)
    → output_of format (shown_of h (result_of s)) ≡ refusal_output h format s
unfolding key_value_snapshot authorization_result
output-result h format s = elim (Option-cases s.id_tag_info) [
  | inl nothing ↦ rw (nothing, expiry-shown h none) refl
  | inr (info, there) ↦ rw (there, expiry-shown h info.expiry_date) refl
]
