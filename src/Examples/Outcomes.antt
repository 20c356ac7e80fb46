-- ===== src/Examples/Outcomes.antt =====
-- The theorems on expiry, meters, transactions and certificates at a station of two connectors.
use ocpp_cli.Prelude.{
  ◌↔◌, inr, ℤ, pos, ◌≡◌, refl, String, true, none, some, [], ◌∷◌, any, is_some, str_eq,
  if◌then◌else◌,
}
use ocpp_cli.Prelude.Int.{int_eq, string_eq}
use ocpp_cli.Prelude.Maps.{get}
use ocpp_cli.Ocpp.{AuthorizationStatus, Word}
use ocpp_cli.Station.{Simulator, Reservation, ok}
use ocpp_cli.Invariant.{Inv}
use ocpp_cli.Startup.{idle_connector, with_configuration, empty_simulator}
use ocpp_cli.Configuration.{add_configuration}
use ocpp_cli.Reservations.Handlers.{ReserveNowRequest, on_reserve_now, expire_reservations}
use ocpp_cli.Reservations.Reserve.{IsReserved, KeepsOthers, on_reserve_now_lem}
use ocpp_cli.Reservations.Expiry.{lapsed, expire_reservations_lem}
use ocpp_cli.Telemetry.{send_meter_values}
use ocpp_cli.Telemetry.Meters.{stepped, send_meter_values_lem}
use ocpp_cli.Transactions.{StartConfirmation, confirmed_start, on_remote_stop_transaction}
use ocpp_cli.Transactions.Outcome.{
  IsStarted, confirmed_start-IsStarted, runs, on_remote_stop_transaction_lem,
}
use ocpp_cli.Certificates.{
  Crypto, Certificate, parse_first_certificate, certificate_hash, certificate_hash_key,
  on_install_certificate, on_get_installed_certificate_ids, on_delete_certificate,
}
use ocpp_cli.Certificates.Laws.{on_get_installed_certificate_ids-install, on_delete_certificate_lem}
use ocpp_cli.Examples.{fresh, fresh-Inv, online}

abbrev old : Reservation
old = record { connector_id = pos 1; id_tag = "OLD"; parent_id_tag = ""; expiry = 50 }

abbrev live : Reservation
live = record { connector_id = pos 2; id_tag = "LIVE"; parent_id_tag = ""; expiry = 200 }

abbrev reserved_station : Simulator
reserved_station = record fresh { reservations = (pos 7, old) ∷ (pos 8, live) ∷ [] }

reserved_station-Inv : Inv (pos 2) reserved_station
reserved_station-Inv = record {
  sized = fresh-Inv.sized;
  known = fresh-Inv.known;
  held = (inr refl, (inr refl, tt));
  running = fresh-Inv.running;
  buffered = fresh-Inv.buffered;
}

expire_reservations_lem_example :
    (s' : Simulator) × (expire_reservations online reserved_station ≡ some s')
    × ((k : ℤ)
        → get k s'.reservations ≡ (
            if any (lapsed 100 k) reserved_station.reservations
            then none
            else get k reserved_station.reservations))
expire_reservations_lem_example =
    expire_reservations_lem (pos 2) online reserved_station reserved_station-Inv

send_meter_values_lem_example :
    get (pos 1) (send_meter_values online fresh).0.connectors
    ≡ stepped fresh.opts.meter_step (get (pos 1) fresh.connectors)
send_meter_values_lem_example = send_meter_values_lem online fresh (pos 1)

abbrev accepted_start : StartConfirmation
accepted_start = record {
  transaction_id = pos 42;
  id_tag_info =
      some
        (record { status = AuthorizationStatus.accepted; expiry_date = none; parent_id_tag = "" });
}

first_connector : get (pos 1) reserved_station.connectors ≡ some (idle_connector (pos 0))
unfolding get with_configuration empty_simulator add_configuration
first_connector = refl

confirmed_start-IsStarted_example :
    (s' : Simulator) × (confirmed_start online (pos 1) (pos 7) (ok accepted_start) reserved_station
      ≡ some s')
    × IsStarted (pos 1) (pos 7) (pos 42) (idle_connector (pos 0)) reserved_station.reservations s'
confirmed_start-IsStarted_example =
    confirmed_start-IsStarted (pos 2) online (pos 1) (pos 7) accepted_start reserved_station
      (idle_connector (pos 0)) reserved_station-Inv refl first_connector refl

abbrev root : Certificate
root = record { raw_issuer = 1 ∷ []; raw_public_key = 2 ∷ []; serial_number = "1F" }

abbrev crypto : Crypto
crypto = record {
  blocks = λ text. record { kind = "CERTIFICATE"; bytes = 1 ∷ 2 ∷ [] } ∷ [];
  parse = λ bytes. some root;
  sha_256 = λ bytes. "AB";
  lower = λ text. text;
  upper = λ text. text;
}

parses : parse_first_certificate crypto "PEM" ≡ some root
unfolding parse_first_certificate
parses = refl

on_get_installed_certificate_ids-install_example :
    let (s', word, entries) =
      on_get_installed_certificate_ids crypto online "root"
        (on_install_certificate crypto online "root" "PEM" fresh).0 in
    (word ≡ Word.accepted)
    × (any
          (λ h.
            str_eq
              (certificate_hash_key crypto h)
              (certificate_hash_key crypto (certificate_hash crypto root)))
          entries
        ≡ true)
on_get_installed_certificate_ids-install_example =
    on_get_installed_certificate_ids-install crypto online online "root" "PEM" fresh root parses

on_delete_certificate_lem_example :
    let hash = certificate_hash crypto root in
    let (s', word) = on_delete_certificate crypto online hash fresh in
    let key = certificate_hash_key crypto hash in
    (word
      ≡ (if is_some (get key fresh.installed_certificates) then Word.accepted else Word.not_found))
    × ((k : String)
        → get k s'.installed_certificates
          ≡ (if str_eq key k then none else get k fresh.installed_certificates))
on_delete_certificate_lem_example =
    on_delete_certificate_lem crypto online (certificate_hash crypto root) fresh

abbrev reserve_one_request : ReserveNowRequest
reserve_one_request = record {
  connector_id = pos 1;
  expiry_date = some 200;
  id_tag = "MINE";
  parent_id_tag = "";
  reservation_id = pos 5;
}

on_reserve_now_lem_example :
    (r : Simulator × Word) × (on_reserve_now online reserve_one_request fresh ≡ some r)
    × (IsReserved 100 reserve_one_request fresh.reservations r.0.reservations r.1
        × KeepsOthers (pos 5) fresh.reservations r.0.reservations)
on_reserve_now_lem_example = on_reserve_now_lem (pos 2) online reserve_one_request fresh fresh-Inv

on_remote_stop_transaction_lem_example :
    ((on_remote_stop_transaction online (pos 0) fresh).1 ≡ Word.accepted)
    ↔ (any (runs (pos 0)) fresh.connectors ≡ true)
on_remote_stop_transaction_lem_example = on_remote_stop_transaction_lem online (pos 0) fresh

-- An idle station takes the stop of transaction 0.
stops_nothing : (on_remote_stop_transaction online (pos 0) fresh).1 ≡ Word.accepted
unfolding with_configuration empty_simulator add_configuration
stops_nothing = (on_remote_stop_transaction_lem online (pos 0) fresh).1 refl
