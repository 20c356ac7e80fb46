-- ===== src/Examples/Configs.antt =====
-- The theorems on the configuration at a file with one profile.
use ocpp_cli.Prelude.{pos, ◌≡◌, refl, none, [], ◌∷◌, ◌↔◌}
use ocpp_cli.Prelude.Int.{int_eq, string_eq}
use ocpp_cli.Prelude.Maps.{get}
use ocpp_cli.Text.{trim_space}
use ocpp_cli.Config.{
  override_pem, override_timeout, ClientConfig, Settings, ConfigFile, ok, default_client_config,
  with_texts,
}
use ocpp_cli.Config.Validate.{validate_client_config, IsValid}
use ocpp_cli.Config.Load.{load_contents, select_profile}
use ocpp_cli.Config.Laws.{validate_client_config-IsValid, load_contents-IsValid}
use ocpp_cli.Config.Merge.{IsRanked, load_contents_precedence}
use ocpp_cli.Examples.{parsers}

validate_client_config-IsValid_example :
    (validate_client_config parsers default_client_config ≡ none)
    ↔ IsValid parsers default_client_config
validate_client_config-IsValid_example =
    validate_client_config-IsValid parsers default_client_config

abbrev no_settings : Settings
no_settings = record {
  central_system_url = "";
  charge_point_id = "";
  username = "";
  password = "";
  ca_cert_file = "";
  client_cert_file = "";
  client_key_file = "";
  ca_cert_base64 = "";
  client_cert_base64 = "";
  client_key_base64 = "";
  tls_server_name = "";
  insecure_skip_verify = none;
  timeout = "";
  format = "";
  charge_point_model = "";
  charge_point_vendor = "";
  firmware_version = "";
  serial_number = "";
  meter_serial_number = "";
  meter_type = "";
}

abbrev lab : Settings
lab = record no_settings { charge_point_id = "LAB"; timeout = "5s" }

abbrev file : ConfigFile
file = record {
  settings = record no_settings { format = "json" };
  default_profile = "lab";
  profiles = ("lab", lab) ∷ [];
}

abbrev loaded : ClientConfig
loaded = record default_client_config {
  charge_point_id = "LAB";
  timeout = pos 5000000000;
  format = "json";
}

loads : load_contents parsers "" file ≡ ok loaded
unfolding load_contents override_pem override_timeout get trim_space with_texts
    default_client_config
loads = refl

load_contents-IsValid_example : IsValid parsers loaded
load_contents-IsValid_example = load_contents-IsValid parsers "" file loaded loads

load_contents_precedence_example : IsRanked lab file.settings default_client_config loaded
load_contents_precedence_example =
    load_contents_precedence parsers "" file loaded lab (λ e. cc) selects loads
  where
    selects : select_profile "" file ≡ ok lab
    selects = unfold select_profile get in refl
