-- ===== src/Logs/Laws.antt =====
-- Which request owns the log upload and the signed firmware update.
use ocpp_cli.Prelude.{
  ℤ, pos, ◌≡◌, ◌≢◌, ◌∙◌, ◌⊎◌, refl, ap, String, Bool, true, false, not, ◌&&◌, ◌||◌, List, Option,
  none, inl, inr, length, ltb, if_rule, if◌then◌else◌, Bool-cases, arith, ◌==ℤ◌,
}
use ocpp_cli.Prelude.Int.{==ℤ_iff}
use ocpp_cli.Ocpp.{UploadLogStatus, SignedFirmwareStatus, Word, Direction, Action, Piece}
use ocpp_cli.Station.{Simulator, Env, Task}
use ocpp_cli.Station.Emit.{emit, spawn, event_capacity}
use ocpp_cli.Logs.{
  is_superseded, on_get_log, send_log_status, SignedUpdateRequest, on_signed_update_firmware,
  signed_firmware_active, is_blank,
}

-- The tests that a signed update has to pass.
abbrev pub is_complete : SignedUpdateRequest → Bool
is_complete request =
    request.has_retrieve_date
    && (not (is_blank request.location)
        && (not (is_blank request.signing_certificate) && not (is_blank request.signature)))

superseded :
    (active request_id : ℤ)
    → active ≢ pos 0
    → request_id ≢ active
    → is_superseded active request_id ≡ true
superseded active request_id nonzero other =
    ground (arith, ==ℤ_iff active (pos 0), ==ℤ_iff active request_id)

get_log-owner :
    (env : Env) (request_id : ℤ) (log_type location : String) (s : Simulator)
    → (on_get_log env request_id log_type location s).0.active_log_request_id ≡ request_id
unfolding on_get_log
get_log-owner env request_id log_type location s = ground arith

send_log_status-superseded :
    (env : Env) (stale : ℤ) (status : UploadLogStatus) (s : Simulator)
    → is_superseded s.active_log_request_id stale ≡ true
    → send_log_status env stale status s ≡ (s, true)
unfolding send_log_status
send_log_status-superseded env stale status s h = simp h

-- Once a request with a number other than 0 has taken the log upload over, the goroutine of any
-- other request changes nothing, and meets no error.
pub send_log_status-get_log :
    (env later : Env) (request_id stale : ℤ) (log_type location : String) (status : UploadLogStatus)
    (s : Simulator)
    → request_id ≢ pos 0
    → stale ≢ request_id
    → let s' = (on_get_log env request_id log_type location s).0 in
      send_log_status later stale status s' ≡ (s', true)
send_log_status-get_log env later request_id stale log_type location status s nonzero other =
    send_log_status-superseded later stale status _ (
      ap (λ active. is_superseded active stale) (get_log-owner env request_id log_type location s)
      ∙ superseded request_id stale nonzero other)

-- A request with the number 0 does not take the log upload over: while the station is offline, the
-- goroutine of any other request still writes its own number and status over those of the request.
pub send_log_status-get_log_zero :
    (env later : Env) (stale : ℤ) (log_type location : String) (status : UploadLogStatus)
    (s : Simulator)
    → later.connected ≡ false
    → let s' =
        (send_log_status later stale status (on_get_log env (pos 0) log_type location s).0).0 in
      (s'.active_log_request_id ≡ stale) × (s'.log_status ≡ status)
unfolding send_log_status
send_log_status-get_log_zero env later stale log_type location status s offline =
    let owner = get_log-owner env (pos 0) log_type location s in
    (ground (arith, owner), ground (arith, owner))

-- An event shows in the channel alone.
pub emit-frame :
    (env : Env) (d : Direction) (a : Action) (w : Word) (id : Option ℤ) (p : List Piece)
    (s : Simulator)
    → emit env d a w id p s ≡ record s { events = (emit env d a w id p s).events }
unfolding emit
emit-frame env d a w id p s =
    if_rule (λ t. t ≡ record s { events = t.events }) s.events_closed (λ _. refl)
      λ _.
        if_rule (λ t. t ≡ record s { events = t.events }) (ltb (length s.events) event_capacity)
          (λ _. refl) (λ _. refl)

abbrev pub HasOwner : ℤ → SignedFirmwareStatus → Simulator → Type 0
HasOwner id status s = (s.signed_firmware_request_id ≡ id) × (s.signed_firmware_status ≡ status)

emit-HasOwner :
    (env : Env) (a : Action) (w : Word) (p : List Piece) (s : Simulator)
    → HasOwner s.signed_firmware_request_id s.signed_firmware_status
        (emit env Direction.inbound a w none p s)
emit-HasOwner env a w p s =
    let e = emit-frame env Direction.inbound a w none p s in
    (ap (λ t. t.signed_firmware_request_id) e, ap (λ t. t.signed_firmware_status) e)

spawned-HasOwner :
    (b : Bool) (t : Task) (id : ℤ) (status : SignedFirmwareStatus) (s : Simulator)
    → HasOwner id status s
    → HasOwner id status (if b then spawn t s else s)
spawned-HasOwner b t id status s h = if_rule (HasOwner id status) b (λ _. h) (λ _. h)

abbrev taken_over : SignedUpdateRequest → Simulator → Simulator
taken_over request s = record s {
  signed_firmware_request_id = request.request_id;
  signed_firmware_status = SignedFirmwareStatus.download_scheduled;
}

-- A signed update that lacks a date, a place, a certificate or a signature is refused and leaves
-- the owner and the status alone. Any other takes the update over, at "DownloadScheduled"; its reply
-- is "AcceptedCanceled" exactly when an update of another number was active, else "Accepted".
pub on_signed_update_firmware_lem :
    (env : Env) (request : SignedUpdateRequest) (s : Simulator)
    → let (s', status) = on_signed_update_firmware env request s in
      (((status ≡ Word.rejected) ⊎ (status ≡ Word.invalid_certificate))
        × (is_complete request ≡ false)
        × HasOwner s.signed_firmware_request_id s.signed_firmware_status s')
      ⊎ ((is_complete request ≡ true)
          × HasOwner request.request_id SignedFirmwareStatus.download_scheduled s'
          × (status ≡ (
              if signed_firmware_active s.signed_firmware_status
                && not (s.signed_firmware_request_id ==ℤ request.request_id)
              then Word.accepted_canceled
              else Word.accepted)))
unfolding on_signed_update_firmware
on_signed_update_firmware_lem env request s =
    elim (Bool-cases (not request.has_retrieve_date || is_blank request.location)) [
      | inl no_place ↦ rw no_place (inl (inl refl, ground arith, emit-HasOwner env _ _ _ s))
      | inr placed ↦
          elim (Bool-cases (is_blank request.signing_certificate || is_blank request.signature)) [
            | inl unsigned ↦
                rw (placed, unsigned) (inl (inr refl, ground arith, emit-HasOwner env _ _ _ s))
            | inr signed ↦
                rw (placed, signed)
                  (inr (
                    ground arith,
                    spawned-HasOwner env.connected _ _ _ _ (
                        emit-HasOwner env Action.signed_update_firmware _ _ (taken_over request s)),
                    refl,
                  ))
          ]
    ]
