-- ===== src/Config/Load.antt =====
-- internal/config/config.go: `LoadClientConfigForProfile`.
use ocpp_cli.Prelude.{String, none, some, [], ◌∷◌, str_eq, if◌then◌else◌}
use ocpp_cli.Prelude.Int.{string_eq}
use ocpp_cli.Prelude.Maps.{Map, get}
use ocpp_cli.Config.{
  ClientConfig, ConfigFile, Settings, Parsers, contents, not_exist, failed, read_failed,
  parse_failed, no_profile, profile_not_found, Result, ok, err, ◌then_try◌, default_client_config,
  default_config_path, apply_settings,
}
use ocpp_cli.Config.Validate.{validate_client_config}

-- `if err := ValidateClientConfig(cfg); err != nil`
unfoldable pub check_config : Parsers → ClientConfig → Result ClientConfig
unfolding validate_client_config
check_config p cfg = elim (validate_client_config p cfg) [ none ↦ ok cfg | some e ↦ err e ]

unfoldable pub select_profile : String → ConfigFile → Result Settings
select_profile profile file =
    let selected = if str_eq profile "" then file.default_profile else profile in
    if str_eq selected "" then err no_profile else elim (get selected file.profiles) [
      | some settings ↦ ok settings
      | none ↦ err (profile_not_found selected)
    ]

-- `len(file.Profiles) > 0`
unfoldable pub apply_profile :
    Parsers → String → ConfigFile → Map String Settings → ClientConfig → Result ClientConfig
unfolding select_profile apply_settings
apply_profile p profile file [] cfg = ok cfg
apply_profile p profile file (entry ∷ entries) cfg =
    select_profile profile file then_try λ settings. apply_settings p cfg settings

unfoldable pub load_contents : Parsers → String → ConfigFile → Result ClientConfig
unfolding default_client_config apply_settings apply_profile check_config
load_contents p profile file = apply_settings p default_client_config file.settings then_try λ base.
    apply_profile p profile file file.profiles base then_try λ cfg. check_config p cfg

unfoldable pub load_client_config_for_profile : Parsers → String → String → Result ClientConfig
unfolding default_client_config load_contents
load_client_config_for_profile p path profile =
    if str_eq path "" then ok default_client_config else elim (p.read_file path) [
      | not_exist ↦
          if str_eq path default_config_path then ok default_client_config else err read_failed
      | failed ↦ err read_failed
      | contents bytes ↦ elim (p.parse_yaml bytes) [
        | none ↦ err parse_failed
        | some file ↦ load_contents p profile file
      ]
    ]
