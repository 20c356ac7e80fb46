-- ===== src/Config.antt =====
-- internal/config/config.go: `ClientConfig`, `applySettings`, `ValidateClientConfig` and
-- `LoadClientConfigForProfile`. Files, YAML, URLs, durations and base64 are parsed by libraries,
-- which are the fields of `Parsers`. An error is its reason: each wraps `ErrConfig`.
pub mod Validate
pub mod Load
pub mod Laws
pub mod Merge
use ocpp_cli.Prelude.{
  ℤ, pos, ℕ, String, Bool, true, false, ◌&&◌, ◌||◌, not, Option, none, some, List, [], ◌∷◌, str_eq,
  is_pos, is_some, ltb, length, if◌then◌else◌,
}
use ocpp_cli.Prelude.Int.{string_eq}
use ocpp_cli.Prelude.Maps.{Map, get}
use ocpp_cli.Text.{trim_space, contains, byte_length}

pub record ClientConfig : Type 0 where
  pub central_system_url : String
  pub charge_point_id : String
  pub username : String
  pub password : String
  pub ca_cert_file : String
  pub client_cert_file : String
  pub client_key_file : String
  pub ca_cert_pem : List ℕ
  pub client_cert_pem : List ℕ
  pub client_key_pem : List ℕ
  pub tls_server_name : String
  pub insecure_skip_verify : Bool
  pub timeout : ℤ
  pub format : String
  pub verbose : Bool
  pub debug : Bool
  pub charge_point_model : String
  pub charge_point_vendor : String
  pub firmware_version : String
  pub serial_number : String
  pub meter_serial_number : String
  pub meter_type : String

abbrev pub default_config_path : String
default_config_path = "config.yaml"

-- A duration is in nanoseconds.
unfoldable pub default_client_config : ClientConfig
default_client_config = record {
  central_system_url = "ws://localhost:8080/ocpp";
  charge_point_id = "CP001";
  username = "";
  password = "";
  ca_cert_file = "";
  client_cert_file = "";
  client_key_file = "";
  ca_cert_pem = [];
  client_cert_pem = [];
  client_key_pem = [];
  tls_server_name = "";
  insecure_skip_verify = false;
  timeout = pos 10000000000;
  format = "table";
  verbose = false;
  debug = false;
  charge_point_model = "ocpp-cli";
  charge_point_vendor = "DishanRajapaksha";
  firmware_version = "";
  serial_number = "";
  meter_serial_number = "";
  meter_type = "";
}

pub record Settings : Type 0 where
  pub central_system_url : String
  pub charge_point_id : String
  pub username : String
  pub password : String
  pub ca_cert_file : String
  pub client_cert_file : String
  pub client_key_file : String
  pub ca_cert_base64 : String
  pub client_cert_base64 : String
  pub client_key_base64 : String
  pub tls_server_name : String
  pub insecure_skip_verify : Option Bool
  pub timeout : String
  pub format : String
  pub charge_point_model : String
  pub charge_point_vendor : String
  pub firmware_version : String
  pub serial_number : String
  pub meter_serial_number : String
  pub meter_type : String

pub record ConfigFile : Type 0 where
  pub settings : Settings
  pub default_profile : String
  pub profiles : Map String Settings

pub data ConfigError : Type 0 where
  read_failed parse_failed no_profile : ConfigError
  profile_not_found : String → ConfigError
  bad_base64 : String → ConfigError
  bad_timeout : String → ConfigError
  empty_url bad_url empty_id slash_in_id no_timeout half_credentials half_cert_files half_cert_pems
        two_client_certs bad_model bad_vendor :
      ConfigError

pub data Result (A : Type 0) : Type 0 where
  ok : A → Result A
  err : ConfigError → Result A

infixl 6 ◌then_try◌
abbrev pub ◌then_try◌ : {A B : Type 0} → Result A → (A → Result B) → Result B
ok a then_try f = f a
err e then_try f = err e

pub data FileRead : Type 0 where
  contents : List ℕ → FileRead
  not_exist : FileRead
  failed : FileRead

-- A parsed URL: its scheme and its host.
pub record Url : Type 0 where
  pub scheme : String
  pub host : String

-- `os.ReadFile`, `yaml.Unmarshal`, `url.Parse`, `time.ParseDuration` and the two base64 decoders.
pub record Parsers : Type 0 where
  pub read_file : String → FileRead
  pub parse_yaml : List ℕ → Option ConfigFile
  pub parse_url : String → Option Url
  pub parse_duration : String → Option ℤ
  pub decode_std : String → Option (List ℕ)
  pub decode_raw : String → Option (List ℕ)
  pub compact : String → String

-- `if s.X != "" { cfg.X = s.X }`
unfoldable pub override : String → String → String
override new old = if str_eq new "" then old else new

-- `decodeBase64`, where `compact` is `strings.Join(strings.Fields(value), "")`.
unfoldable pub decode_base64 : Parsers → String → Result (List ℕ)
decode_base64 p value = elim (p.decode_std (p.compact value)) [
  | some decoded ↦ ok decoded
  | none ↦ elim (p.decode_raw (p.compact value)) [
    | some decoded ↦ ok decoded
    | none ↦ err (bad_base64 value)
  ]
]

unfoldable pub override_pem : Parsers → String → List ℕ → Result (List ℕ)
unfolding decode_base64
override_pem p new old = if str_eq new "" then ok old else decode_base64 p new

unfoldable pub override_timeout : Parsers → String → ℤ → Result ℤ
override_timeout p new old =
    if str_eq new ""
    then ok old
    else elim (p.parse_duration new) [ some d ↦ ok d | none ↦ err (bad_timeout new) ]

abbrev pub override_bool : Option Bool → Bool → Bool
override_bool none old = old
override_bool (some new) old = new

-- The fields that cannot fail.
unfoldable pub with_texts : Settings → ClientConfig → ClientConfig
unfolding override
with_texts s cfg = record cfg {
  central_system_url = override s.central_system_url cfg.central_system_url;
  charge_point_id = override s.charge_point_id cfg.charge_point_id;
  username = override s.username cfg.username;
  password = override s.password cfg.password;
  ca_cert_file = override s.ca_cert_file cfg.ca_cert_file;
  client_cert_file = override s.client_cert_file cfg.client_cert_file;
  client_key_file = override s.client_key_file cfg.client_key_file;
  tls_server_name = override s.tls_server_name cfg.tls_server_name;
  insecure_skip_verify = override_bool s.insecure_skip_verify cfg.insecure_skip_verify;
  format = override s.format cfg.format;
  charge_point_model = override s.charge_point_model cfg.charge_point_model;
  charge_point_vendor = override s.charge_point_vendor cfg.charge_point_vendor;
  firmware_version = override s.firmware_version cfg.firmware_version;
  serial_number = override s.serial_number cfg.serial_number;
  meter_serial_number = override s.meter_serial_number cfg.meter_serial_number;
  meter_type = override s.meter_type cfg.meter_type;
}

-- The caller drops a configuration that comes with an error, so the order of the plain assignments
-- among those that may fail does not show.
unfoldable pub apply_settings : Parsers → ClientConfig → Settings → Result ClientConfig
apply_settings p cfg s = override_pem p s.ca_cert_base64 cfg.ca_cert_pem then_try λ ca.
    override_pem p s.client_cert_base64 cfg.client_cert_pem then_try λ cert.
    override_pem p s.client_key_base64 cfg.client_key_pem then_try λ key.
    override_timeout p s.timeout cfg.timeout then_try λ timeout. ok (record (with_texts s cfg) {
      ca_cert_pem = ca;
      client_cert_pem = cert;
      client_key_pem = key;
      timeout = timeout;
    })
