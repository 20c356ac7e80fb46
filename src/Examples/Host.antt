-- ===== src/Examples/Host.antt =====
-- One host, with a central system that refuses every transaction, and the requests made of it.
use ocpp_cli.Prelude.{ℤ, pos, Bool, true, false, none, some, [], str_eq, if◌then◌else◌}
use ocpp_cli.Prelude.Int.{string_eq}
use ocpp_cli.Station.{Simulator}
use ocpp_cli.Config.{default_client_config}
use ocpp_cli.Errors.{Error, Outcome, got, lost}
use ocpp_cli.Client.Types.{
  Texts, Central, answered, expired, StartTransactionRequest, StopTransactionRequest,
  StartConfirmation, IdTagInfo,
}
use ocpp_cli.Client.Setup.{Certificates, Client}
use ocpp_cli.Cli.{Host, Given, Mode, dry_run, execute, opened, StreamEvent}
use ocpp_cli.Cli.Station.{Plan}
use ocpp_cli.Cli.Stream.{Received, closed_first}
use ocpp_cli.Examples.{parsers}

abbrev pub texts : Texts
texts = record { lower = λ s. s; output_text = "output error" }

abbrev pub blocked : IdTagInfo
blocked = record { status = "Blocked"; expiry_date = none; parent_id_tag = "" }

abbrev pub refused : StartConfirmation
refused = record { transaction_id = pos 0; id_tag_info = some blocked }

abbrev pub central : Central
central = record {
  on_boot = λ call. expired "context deadline exceeded";
  on_heartbeat = λ call. answered none;
  on_authorize = λ call. answered none;
  on_start = λ call. answered refused;
  on_stop = λ call. answered none;
  on_data = λ call. expired "context deadline exceeded";
  on_sign = λ call. answered "Accepted";
  on_notice = λ call. answered tt;
}

abbrev pub certificates : Certificates
certificates = record {
  has_system_pool = true;
  has_certificate = λ bytes. true;
  load_key_pair = λ cert key. none;
  key_pair = λ cert key. none;
  read_reason = λ path. "no such file";
  config_reason = λ e. "bad setting";
}

-- `--id-tag TAG --meter-start 5`, and `--yes` where `confirmed` says so.
abbrev pub given : Bool → Given
given confirmed = record {
  texts = λ name. if str_eq name "id-tag" then some "TAG" else none;
  ints = λ name. if str_eq name "meter-start" then some (pos 5) else none;
  bools = λ name. if str_eq name "yes" then some confirmed else none;
  durations = λ name. none;
  n_arg = 0;
}

abbrev pub resolve : Bool → Bool → Outcome Mode
resolve true false = got execute
resolve false dry = got dry_run
resolve true true =
    lost (record { wraps = []; is_ocpp = false; is_net = false; text = "use one of them" })

abbrev pub host : Bool → Host
host confirmed = record {
  texts = texts;
  parsers = parsers;
  certificates = certificates;
  parse_flags = λ name args. got (given confirmed);
  normalise_global_flags = λ args. got args;
  resolve_mode = resolve;
  mode_text = λ mode. "dry-run";
  normalise_format = λ format. format;
  write = λ output. none;
  quote = λ s. s;
  itoa = λ n. "7";
  equal_fold = str_eq;
  now = some 100;
  parse_time = λ s. none;
  format_time = λ at. "2024-01-01T00:00:00Z";
  bytes_of = λ s. [];
  text_of_bytes = λ bytes. "";
  unmarshal = λ bytes. none;
  json_reason = λ bytes. "";
  marshal = λ value. got "{}";
  open_file = λ path force. opened;
  write_file = λ path. none;
  put_line = λ line. none;
  flush = λ e. none;
  format_millis = λ at. "2024-01-01T00:00:00.000Z";
  write_completion = λ shell. none;
  context_ended = λ cfg. none;
  start = λ url. none;
  central = central;
}

abbrev pub simulate : Simulator → ℤ → Received
simulate s duration = closed_first [] none

abbrev pub request : StartTransactionRequest
request = record {
  connector_id = pos 1;
  id_tag = "TAG";
  meter_start = pos 5;
  reservation_id = none;
  timestamp = some 100;
}

abbrev pub plan : Plan StartTransactionRequest
plan = record { cfg = default_client_config; format = "table"; request = request }

abbrev pub client : Client
client = record {
  cfg = default_client_config;
  ws_client = record {
    tls_config = none;
    handshake_timeout = pos 10000000000;
    write_wait = pos 10000000000;
    basic_auth = none;
  };
  closed = false;
  stops = 0;
}

abbrev pub stop_request : StopTransactionRequest
stop_request = record {
  transaction_id = pos 1;
  meter_stop = pos 9;
  id_tag = "";
  reason = "Local";
  timestamp = some 100;
}

abbrev pub event : StreamEvent
event = record {
  timestamp = 100;
  direction = "system";
  action = "Connect";
  status = "Connected";
  connector_id = none;
  detail = "";
}

abbrev pub unreachable : Error
unreachable = record {
  wraps = [];
  is_ocpp = false;
  is_net = true;
  text = "dial tcp: connection refused";
}
