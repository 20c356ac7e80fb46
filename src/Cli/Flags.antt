-- ===== src/Cli/Flags.antt =====
-- internal/cli/flags.go and internal/cli/formats.go: the flags that every command takes, and the
-- configuration and output format that follow from them.
use Prim.Native.String.{◌++◌}
use ocpp_cli.Prelude.{
  ℤ, pos, String, Bool, false, not, ◌||◌, Option, none, some, List, [], ◌∷◌, ◌==◌, any, is_some,
  str_eq, if◌then◌else◌,
}
use ocpp_cli.Config.{ClientConfig, default_config_path, Result, ok, err}
use ocpp_cli.Config.Validate.{validate_client_config}
use ocpp_cli.Config.Load.{load_client_config_for_profile}
use ocpp_cli.Errors.{Outcome, got, lost, ◌>>=◌, ◌>>◌, refuse_when, plain}
use ocpp_cli.Client.Setup.{config_error}
use ocpp_cli.Cli.{Host, Given, config_failure}

-- The value of a declared flag: what was given, or its default.
abbrev pub or_default {ℓ} : {A : Type ℓ} → Option A → A → A
or_default none default = default
or_default (some value) default = value

unfoldable pub was_set : Given → String → Bool
was_set g name =
    is_some (g.texts name)
    || (is_some (g.ints name) || (is_some (g.bools name) || is_some (g.durations name)))

-- `fs.Parse(args)`, and the refusal of positional arguments.
unfoldable pub parse_flags : Host → String → List String → Outcome Given
unfolding config_failure
parse_flags h name args = do
  g ← h.parse_flags name args
  refuse_when (not (g.n_arg == 0))
      (config_failure h (name ++ " does not accept positional arguments"))
  got g

pub record CommonFlags : Type 0 where
  pub config_path : String
  pub profile : String
  pub central_system_url : String
  pub charge_point_id : String
  pub username : String
  pub password : String
  pub ca_cert : String
  pub client_cert : String
  pub client_key : String
  pub tls_server_name : String
  pub insecure_skip_verify : Bool
  pub timeout : ℤ
  pub format : String
  pub verbose : Bool
  pub debug : Bool

unfoldable pub common_flags : Given → CommonFlags
common_flags g = record {
  config_path = or_default (g.texts "config") default_config_path;
  profile = or_default (g.texts "profile") "";
  central_system_url = or_default (g.texts "central-system-url") "";
  charge_point_id = or_default (g.texts "charge-point-id") "";
  username = or_default (g.texts "username") "";
  password = or_default (g.texts "password") "";
  ca_cert = or_default (g.texts "ca-cert") "";
  client_cert = or_default (g.texts "client-cert") "";
  client_key = or_default (g.texts "client-key") "";
  tls_server_name = or_default (g.texts "tls-server-name") "";
  insecure_skip_verify = or_default (g.bools "insecure-skip-verify") false;
  timeout = or_default (g.durations "timeout") (pos 0);
  format = or_default (g.texts "format") "";
  verbose = or_default (g.bools "verbose") false;
  debug = or_default (g.bools "debug") false;
}

-- `if visited[name] { cfg.X = flags.x }`
abbrev pub visited {ℓ} : {A : Type ℓ} → Given → String → A → A → A
visited g name new old = if was_set g name then new else old

unfoldable pub with_flags : Given → CommonFlags → ClientConfig → ClientConfig
unfolding was_set
with_flags g flags cfg = record cfg {
  central_system_url =
      visited g "central-system-url" flags.central_system_url cfg.central_system_url;
  charge_point_id = visited g "charge-point-id" flags.charge_point_id cfg.charge_point_id;
  username = visited g "username" flags.username cfg.username;
  password = visited g "password" flags.password cfg.password;
  ca_cert_file = visited g "ca-cert" flags.ca_cert cfg.ca_cert_file;
  ca_cert_pem = visited g "ca-cert" [] cfg.ca_cert_pem;
  client_cert_file = visited g "client-cert" flags.client_cert cfg.client_cert_file;
  client_cert_pem = visited g "client-cert" [] cfg.client_cert_pem;
  client_key_file = visited g "client-key" flags.client_key cfg.client_key_file;
  client_key_pem = visited g "client-key" [] cfg.client_key_pem;
  tls_server_name = visited g "tls-server-name" flags.tls_server_name cfg.tls_server_name;
  insecure_skip_verify =
      visited g "insecure-skip-verify" flags.insecure_skip_verify cfg.insecure_skip_verify;
  timeout = visited g "timeout" flags.timeout cfg.timeout;
  format = visited g "format" flags.format cfg.format;
  verbose = visited g "verbose" flags.verbose cfg.verbose;
  debug = visited g "debug" flags.debug cfg.debug;
}

-- `if err := config.ValidateClientConfig(cfg); err != nil { return cfg, err }`
unfoldable pub validated : Host → ClientConfig → Outcome ClientConfig
unfolding validate_client_config config_error
validated h cfg = elim (validate_client_config h.parsers cfg) [
  | none ↦ got cfg
  | some e ↦ lost (config_error h.texts h.parsers h.certificates e)
]

unfoldable pub lay_over : Host → Given → CommonFlags → Result ClientConfig → Outcome ClientConfig
unfolding config_error with_flags validated
lay_over h g flags (err e) = lost (config_error h.texts h.parsers h.certificates e)
lay_over h g flags (ok cfg) = validated h (with_flags g flags cfg)

unfoldable pub resolve_client_config : Host → Given → CommonFlags → Outcome ClientConfig
unfolding load_client_config_for_profile lay_over
resolve_client_config h g flags =
    lay_over h g flags (load_client_config_for_profile h.parsers flags.config_path flags.profile)

abbrev pub snapshot_formats : List String
snapshot_formats = "table" ∷ "text" ∷ "json" ∷ "csv" ∷ []

abbrev pub stream_formats : List String
stream_formats = "text" ∷ "jsonl" ∷ "csv" ∷ []

unfoldable pub validate_snapshot_format : Host → String → Outcome String
unfolding plain
validate_snapshot_format h value =
    let format = h.normalise_format value in
    if any (str_eq format) snapshot_formats
    then got format
    else if str_eq format "jsonl"
    then lost (
        plain (
          "format "
          ++ h.quote value
          ++ " is stream-only; snapshots support table, text, json, and csv"))
    else lost (
        plain
          ("unsupported snapshot format " ++ h.quote value ++ "; use table, text, json, or csv"))

unfoldable pub validate_stream_format : Host → String → Outcome String
unfolding plain
validate_stream_format h value =
    let format = h.normalise_format value in
    if any (str_eq format) stream_formats
    then got format
    else if str_eq format "table" || str_eq format "json"
    then lost (
        plain
          ("format " ++ h.quote value ++ " is snapshot-only; streams support text, jsonl, and csv"))
    else lost (plain ("unsupported stream format " ++ h.quote value ++ "; use text, jsonl, or csv"))

-- `fmt.Errorf("%w: %v", config.ErrConfig, err)`
unfoldable pub as_config_failure : Host → {A : Type 0} → Outcome A → Outcome A
unfolding config_failure
as_config_failure h (got a) = got a
as_config_failure h (lost e) = lost (config_failure h e.text)

unfoldable pub resolve_common : Host → Given → Outcome (ClientConfig × String)
unfolding resolve_client_config common_flags as_config_failure validate_snapshot_format
resolve_common h g = do
  cfg ← resolve_client_config h g (common_flags g)
  format ← as_config_failure h (validate_snapshot_format h cfg.format)
  got (cfg, format)
