-- ===== src/Examples.antt =====
-- The theorems on whole runs at a station of two connectors.
mod Host
mod Commands
mod Configs
mod Outcomes
mod Parts
use ocpp_cli.Prelude.{
  ℤ, pos, negsuc, ℕ, ◌+◌, ◌≡◌, refl, inl, inr, String, Bool, true, false, Option, none, some, List,
  [], ◌∷◌, ◌++◌, All, length, any, is_some, ltb_ℤ, ◌==ℤ◌, not, ◌&&◌, if◌then◌else◌,
}
use ocpp_cli.Prelude.Int.{int_eq, string_eq}
use ocpp_cli.Prelude.Maps.{Map, get, put}
use ocpp_cli.Ocpp.{
  AvailabilityType, ChargePointStatus, AuthorizationStatus, Purpose, Trigger, Direction, Action,
  Piece, UploadLogStatus, SignedFirmwareStatus, Word,
}
use ocpp_cli.Station.{
  Simulator, SimulatorOptions, Connector, Reservation, ChargingProfile, StoredProfile,
  ConfigurationKey, IdTagInfo, Env, Task, Event, ok, err,
}
use ocpp_cli.Config.{
  ClientConfig, Parsers, Settings, ConfigFile, Url, Result, default_client_config, apply_settings,
  with_texts, not_exist, override_bool,
}
use ocpp_cli.Config as Config
use ocpp_cli.Config.Validate.{validate_client_config, IsValid}
use ocpp_cli.Config.Load.{load_contents, select_profile}
use ocpp_cli.Config.Laws.{validate_client_config-IsValid, load_contents-IsValid}
use ocpp_cli.Text.{trim_space}
use ocpp_cli.Invariant.{Inv, is_known}
use ocpp_cli.Startup.{new_simulator, empty_simulator, idle_connector, with_configuration}
use ocpp_cli.Startup.Laws.{new_simulator-Inv}
use ocpp_cli.Reservations.Handlers.{ReserveNowRequest}
use ocpp_cli.Reservations.{reservation_access, select_remote_start_connector}
use ocpp_cli.Reservations.Selection.{IsChoice, select_remote_start_connector-IsChoice}
use ocpp_cli.Reservations.Access.{reservation_access-free, reservation_access-blocked}
use ocpp_cli.Transactions.{RemoteStartRequest, on_remote_start_transaction}
use ocpp_cli.System.{Request, Replies, handle, resume, Step, handles, Reach, here, then_step}
use ocpp_cli.System.Runs.{Reach-IsWellFormed, handle-Reach, resume-Reach}

abbrev pub url_of : String → Option Url
url_of text = some (record { scheme = "ws"; host = "localhost:8080" })

abbrev pub parsers : Parsers
parsers = record {
  read_file = λ path. not_exist;
  parse_yaml = λ bytes. none;
  parse_url = url_of;
  parse_duration = λ text. some (pos 5000000000);
  decode_std = λ text. some (1 ∷ 2 ∷ []);
  decode_raw = λ text. none;
  compact = λ text. text;
}

abbrev itoa : ℤ → String
itoa n = "7"

abbrev two_connectors : SimulatorOptions
two_connectors = record {
  connectors = pos 2;
  heartbeat_interval = pos 0;
  meter_interval = pos 0;
  meter_start = pos 0;
  meter_step = pos 10;
}

abbrev pub online : Env
online = record {
  now = 100;
  connected = true;
  answers = λ m. true;
  error_text = "";
  open_context = true;
}

abbrev pub fresh : Simulator
fresh = with_configuration itoa (empty_simulator two_connectors)

made : new_simulator parsers itoa default_client_config two_connectors ≡ some fresh
unfolding new_simulator default_client_config validate_client_config trim_space
made = refl

abbrev start_on_one : Request
start_on_one =
    Request.remote_start
      (record { connector_id = some (pos 1); id_tag = "TAG"; charging_profile = none })

-- The station after that request: connector 1 prepares, and a goroutine waits.
abbrev started : Simulator
started = record fresh {
  connectors = (pos 1, preparing_one) ∷ (pos 2, idle_connector (pos 0)) ∷ [];
  tasks = Task.begin_remote (pos 1) "TAG" (pos 0) ∷ [];
  events = start_event ∷ [];
}
  where
    preparing_one : Connector
    preparing_one = record (idle_connector (pos 0)) {
      status = ChargePointStatus.preparing;
      id_tag = "TAG";
    }

    start_event : Event
    start_event = record {
      timestamp = 100;
      direction = Direction.inbound;
      action = Action.remote_start_transaction;
      status = Word.accepted;
      connector_id = some (pos 1);
      detail = Piece.lit "TAG" ∷ [];
    }

starts : handle online start_on_one fresh ≡ some started
unfolding handle on_remote_start_transaction select_remote_start_connector get put
    with_configuration empty_simulator
starts = refl

run_to_start : Reach fresh started
run_to_start = then_step here (handles online start_on_one starts)

Reach-IsWellFormed_example : Inv (pos 2) started
Reach-IsWellFormed_example =
    Reach-IsWellFormed parsers itoa default_client_config two_connectors fresh started made
      run_to_start

handle-Reach_example :
    is_some
      (handle online (Request.change_availability (pos 0) AvailabilityType.inoperative) started)
    ≡ true
handle-Reach_example =
    handle-Reach parsers itoa default_client_config two_connectors fresh started online
      (Request.change_availability (pos 0) AvailabilityType.inoperative) made run_to_start

abbrev replies : Replies
replies = record {
  authorization = err "offline";
  start = err "offline";
  stop = err "offline";
  boot = err "offline";
  heartbeat_detail = [];
  has_csr = false;
}

resume-Reach_example :
    is_some (
      resume online replies
        (Task.begin_remote (pos 1) "TAG" (pos 0))
        (record started { tasks = [] }))
    ≡ true
resume-Reach_example =
    resume-Reach parsers itoa default_client_config two_connectors fresh started online replies []
      (Task.begin_remote (pos 1) "TAG" (pos 0)) [] made run_to_start refl

pub fresh-Inv : Inv (pos 2) fresh
fresh-Inv = new_simulator-Inv parsers itoa default_client_config two_connectors fresh made
