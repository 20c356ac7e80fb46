-- ===== src/Cli.antt =====
-- internal/cli and internal/output: the commands. What they take from outside (the flag parser, the
-- output library, files, the clock, JSON, the network) is a field of `Host`. A command is the error
-- it returns and the list of its effects, in order.
pub mod Flags
pub mod Config
pub mod Render
pub mod Words
pub mod Connection
pub mod Station
pub mod Meter
pub mod Extended
pub mod Checks
pub mod Stream
pub mod Run
pub mod App
pub mod Traces
pub mod Lifecycle
pub mod Bounds
pub mod Rejections
pub mod Safety
pub mod Alias
use ocpp_cli.Prelude.{
  ℤ, ℕ, String, Bool, true, Option, none, some, List, is_some, ◌||◌, if◌then◌else◌,
}
use ocpp_cli.Config.{ClientConfig, Parsers}
use ocpp_cli.Errors.{Error, Outcome, Sentinel, wrap}
use ocpp_cli.Client.Types.{
  Texts, Central, Call, Json, BootResult, HeartbeatResult, AuthorizationResult,
  StartTransactionResult, StopTransactionResult, DataTransferResult, SignCertificateResult,
}
use ocpp_cli.Client.Setup.{Certificates, Client}
use ocpp_cli.Station.{SimulatorOptions}

-- What `fs.Parse` found on the command line, for the flags of each type that the command declares.
pub record Given : Type 0 where
  pub texts : String → Option String
  pub ints : String → Option ℤ
  pub bools : String → Option Bool
  pub durations : String → Option ℤ
  pub n_arg : ℕ

pub data Mode : Type 0 where
  dry_run execute : Mode

pub data Scalar : Type 0 where
  text : String → Scalar
  number : ℤ → Scalar
  optional_number : Option ℤ → Scalar
  flag : Bool → Scalar

-- The value that a snapshot shows as JSON: a struct with its JSON names, or a result.
pub data Value : Type 0 where
  fields : List (String × Scalar) → Value
  boot : BootResult → Value
  heartbeat : HeartbeatResult → Value
  authorization : AuthorizationResult → Value
  started : StartTransactionResult → Value
  stopped : StopTransactionResult → Value
  transferred : DataTransferResult → Value
  signed : SignCertificateResult → Value

-- A call of internal/output.
pub data Output : Type 0 where
  write_table write_csv : List String → List (List String) → Output
  write_text : String → Output
  write_json : Value → Output

-- `SimulatorEvent`, with its words spelled out.
pub record StreamEvent : Type 0 where
  pub timestamp : ℕ
  pub direction : String
  pub action : String
  pub status : String
  pub connector_id : Option ℤ
  pub detail : String

-- What the stream writer hands to `fmt.Fprintf`, to the JSON encoder or to the CSV writer.
pub data Line : Type 0 where
  text_line : String → Line
  json_line : StreamEvent → Line
  csv_line : List String → Line

-- `printed` is a line of the output, `complained` one of the error output; `usage` is the help.
pub data Effect : Type 0 where
  created : Client → Effect
  announced : String → Effect
  connecting : Effect
  sent : Call → Effect
  cancelled closed : Effect
  wrote : Output → Effect
  simulated : SimulatorOptions → Effect
  streamed : Line → Effect
  wrote_starter : String → Effect
  printed complained : String → Effect
  usage completion : Effect

-- `os.OpenFile`
pub data Opened : Type 0 where
  opened exists : Opened
  not_opened : String → Opened

pub record Host : Type 0 where
  pub texts : Texts
  pub parsers : Parsers
  pub certificates : Certificates
  -- package flag, and industrial-cli-kit's `command`, `safety` and `output`
  pub parse_flags : String → List String → Outcome Given
  pub normalise_global_flags : List String → Outcome (List String)
  pub resolve_mode : Bool → Bool → Outcome Mode
  pub mode_text : Mode → String
  pub normalise_format : String → String
  pub write : Output → Option Error
  -- packages strconv, strings, time and encoding/json
  pub quote : String → String
  pub itoa : ℤ → String
  pub equal_fold : String → String → Bool
  pub now : Option ℕ
  pub parse_time : String → Option (Option ℕ)
  pub format_time : ℕ → String
  pub bytes_of : String → List ℕ
  pub text_of_bytes : List ℕ → String
  pub unmarshal : List ℕ → Option Json
  pub json_reason : List ℕ → String
  pub marshal : Json → Outcome String
  -- files and the output that the commands write to
  pub open_file : String → Bool → Opened
  pub write_file : String → Option Error
  pub put_line : Line → Option String
  pub flush : StreamEvent → Option String
  pub format_millis : ℕ → String
  pub write_completion : String → Option Error
  -- the network
  pub context_ended : ClientConfig → Option String
  pub start : String → Option Error
  pub central : Central

-- `fmt.Errorf("%w: ...", config.ErrConfig, ...)`
unfoldable pub config_failure : Host → String → Error
unfolding wrap
config_failure h detail = wrap h.texts.output_text Sentinel.config detail

abbrev pub Command : Type 0
Command = Option Error × List Effect
