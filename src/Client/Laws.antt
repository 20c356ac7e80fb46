-- ===== src/Client/Laws.antt =====
-- When an operation is reported as rejected.
use ocpp_cli.Prelude.{
  ◌≡◌, ◌≢◌, refl, ◌↔◌, sym, subst, String, Bool, true, false, not, Option, none, some, str_eq,
  str_eq_iff, is_some, if◌then◌else◌, arith,
}
use ocpp_cli.Errors.{Error, Sentinel, is, wrap, classify}
use ocpp_cli.Errors.Laws.{kind_of-IsTransport}
use ocpp_cli.Client.Types.{
  Texts, Central, Call, Arrival, answered, failed, expired, IdTagInfo, StartConfirmation,
  StartTransactionRequest, StopTransactionRequest,
}
use ocpp_cli.Client.Operations.{
  Answer, await, accepted, settle, rejection, authorization_result, start_transaction,
  stop_transaction, stop_confirmed, authorize,
}

abbrev pub is_rejected : Option Error → Bool
is_rejected none = false
is_rejected (some e) = is e Sentinel.rejected

-- What is lost on the way is never reported as a rejection.
classify-not_rejected :
    (t : Texts) (e : Error)
    → is_rejected (classify t.lower t.output_text (some e) Sentinel.protocol) ≡ false
unfolding classify wrap
classify-not_rejected t e = ground (arith, kind_of-IsTransport t.lower e Sentinel.protocol)

settle-rejected :
    (t : Texts) {A R : Type 0} (zero_result : R) (done : A → Answer R) (Refused : A → Type 0)
    → ((a : A) → (is_rejected (done a).1 ≡ true) ↔ Refused a)
    → (arrival : Arrival A)
    → (is_rejected (settle t zero_result done arrival).1 ≡ true)
      ↔ ((a : A) × (arrival ≡ answered a) × Refused a)
unfolding settle await
settle-rejected t z done Refused agree (answered a) = (
  λ h. (a, refl, (agree a).0 h),
  λ (b, same_arrival, h).
      subst (λ arrival. is_rejected (settle t z done arrival).1 ≡ true) (sym same_arrival)
        ((agree b).1 h),
)
settle-rejected t z done Refused agree (failed e) =
    (λ h. cc (classify-not_rejected t e), λ (b, impossible, h). cc)
settle-rejected t z done Refused agree (expired reason) = (
  λ h. cc (classify-not_rejected t (wrap t.output_text Sentinel.timeout reason)),
  λ (b, impossible, h). cc,
)

-- The status that a confirmation with this information has.
abbrev pub status_of : Option IdTagInfo → String
status_of none = ""
status_of (some info) = info.status

abbrev pub Refuses : String → Type 0
Refuses status = status ≢ "Accepted"

abbrev refusal : Texts → String → String → Option Error
refusal t what status =
    if not (str_eq status accepted) then some (rejection t what status) else none

refused_word :
    (t : Texts) (what status : String)
    → (is_rejected (refusal t what status) ≡ true) ↔ Refuses status
unfolding rejection wrap
refused_word t what status = grind (arith, str_eq_iff status accepted)

refused_info :
    (t : Texts) (what : String) (info : Option IdTagInfo)
    → (is_rejected (refusal t what (authorization_result info).status) ≡ true)
      ↔ Refuses (status_of info)
unfolding authorization_result
refused_info t what none = refused_word t what ""
refused_info t what (some info) = refused_word t what info.status

-- An authorization is reported as rejected exactly if a confirmation came in time whose status is
-- not `Accepted`, or that has no information on the tag.
pub authorize-rejected :
    (t : Texts) (c : Central) (id_tag : String)
    → (is_rejected (authorize t c id_tag).1 ≡ true) ↔ (
        (info : Option IdTagInfo) × (c.on_authorize (Call.authorize id_tag) ≡ answered info)
        × Refuses (status_of info))
unfolding authorize
authorize-rejected t c id_tag =
    settle-rejected t _ _ _ (λ info. refused_info t "authorization" info) _

-- So is the start of a transaction.
start_transaction-rejected :
    (t : Texts) (c : Central) (request : StartTransactionRequest)
    → (is_rejected (start_transaction t c request).1 ≡ true) ↔ (
        (s : StartConfirmation) × (c.on_start (Call.start_transaction request) ≡ answered s)
        × Refuses (status_of s.id_tag_info))
unfolding start_transaction
start_transaction-rejected t c request =
    settle-rejected t _ _ _ (λ s. refused_info t "transaction authorization" s.id_tag_info) _

stop_confirmed-rejected :
    (t : Texts) (info : Option IdTagInfo)
    → (is_rejected (stop_confirmed t info).1 ≡ true)
      ↔ ((is_some info ≡ true) × Refuses (status_of info))
unfolding stop_confirmed
stop_confirmed-rejected t none = (λ h. cc, λ h. cc)
stop_confirmed-rejected t (some info) =
    let agree = refused_info t "stop transaction authorization" (some info) in
    (λ h. (refl, agree.0 h), λ h. agree.1 h.1)

-- A stop without information on the tag is not rejected.
stop_transaction-rejected :
    (t : Texts) (c : Central) (request : StopTransactionRequest)
    → (is_rejected (stop_transaction t c request).1 ≡ true) ↔ (
        (info : Option IdTagInfo) × (c.on_stop (Call.stop_transaction request) ≡ answered info)
        × ((is_some info ≡ true) × Refuses (status_of info)))
unfolding stop_transaction
stop_transaction-rejected t c request =
    settle-rejected t _ _ (λ info. (is_some info ≡ true) × Refuses (status_of info))
      (stop_confirmed-rejected t) _

-- A transaction request is reported as rejected exactly if a confirmation came in time that refuses
-- it. A start is refused by every status other than `Accepted`, and by no information on the tag; a
-- stop by a status other than `Accepted`, and not by the lack of information.
pub transaction_rejections :
    (t : Texts) (c : Central) (start : StartTransactionRequest) (stop : StopTransactionRequest)
    → ((is_rejected (start_transaction t c start).1 ≡ true) ↔ (
        (s : StartConfirmation) × (c.on_start (Call.start_transaction start) ≡ answered s)
        × Refuses (status_of s.id_tag_info)))
      × ((is_rejected (stop_transaction t c stop).1 ≡ true) ↔ (
          (info : Option IdTagInfo) × (c.on_stop (Call.stop_transaction stop) ≡ answered info)
          × ((is_some info ≡ true) × Refuses (status_of info))))
transaction_rejections t c start stop =
    (start_transaction-rejected t c start, stop_transaction-rejected t c stop)
