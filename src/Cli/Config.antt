-- ===== src/Cli/Config.antt =====
-- What `resolveClientConfig` promises to the commands.
use ocpp_cli.Prelude.{
  ℕ, List, [], Bool, true, false, ◌≡◌, refl, sym, inl, inr, String, Option-cases, arith,
}
use ocpp_cli.Config.{ClientConfig, Result, ok, err}
use ocpp_cli.Config.Validate.{validate_client_config, IsValid}
use ocpp_cli.Config.Laws.{validate_client_config-IsValid}
use ocpp_cli.Config.Load.{load_client_config_for_profile}
use ocpp_cli.Errors.{got}
use ocpp_cli.Cli.{Host, Given}
use ocpp_cli.Cli.Flags.{
  CommonFlags, common_flags, was_set, visited, with_flags, validated, lay_over,
  resolve_client_config, resolve_common,
}

pub got_inj : {A : Type 0} {a b : A} → got a ≡ got b → a ≡ b
got_inj q = cc

-- What is validated is returned unchanged.
pub validated-got :
    (h : Host) (cfg resolved : ClientConfig)
    → validated h cfg ≡ got resolved
    → (resolved ≡ cfg) × IsValid h.parsers resolved
unfolding validated
validated-got h cfg resolved q = elim (Option-cases (validate_client_config h.parsers cfg)) [
  | inl passes ↦
      let same_config : got cfg ≡ got resolved = rw (passes, validated) at q in
      let equal = sym (got_inj same_config) in
      (equal, rw equal ((validate_client_config-IsValid h.parsers cfg).0 passes))
  | inr (e, fails) ↦ cc (rw (fails, validated) at q)
]

-- A flag that was given replaces what the file says, and one that was not leaves it.
abbrev pub Decides {ℓ} : {A : Type ℓ} → Bool → A → A → A → Type ℓ
Decides given new old value = (given ≡ true → value ≡ new) × (given ≡ false → value ≡ old)

visited-Decides {ℓ} :
    {A : Type ℓ} (g : Given) (name : String) (new old : A)
    → Decides (was_set g name) new old (visited g name new old)
visited-Decides g name new old = (λ given. rw given refl, λ absent. rw absent refl)

-- What the configuration of a command takes from its flags and from the file. A certificate or a key
-- that a flag names drops the one that the file gives as text.
pub record IsLaidOver (g : Given) (flags : CommonFlags) (file cfg : ClientConfig) : Type 0 where
  pub central_system_url :
      Decides
        (was_set g "central-system-url")
        flags.central_system_url
        file.central_system_url
        cfg.central_system_url
  pub charge_point_id :
      Decides
        (was_set g "charge-point-id")
        flags.charge_point_id
        file.charge_point_id
        cfg.charge_point_id
  pub username : Decides (was_set g "username") flags.username file.username cfg.username
  pub password : Decides (was_set g "password") flags.password file.password cfg.password
  pub ca_cert :
      Decides {A = String × List ℕ}
        (was_set g "ca-cert")
        (flags.ca_cert, [])
        (file.ca_cert_file, file.ca_cert_pem)
        (cfg.ca_cert_file, cfg.ca_cert_pem)
  pub client_cert :
      Decides {A = String × List ℕ}
        (was_set g "client-cert")
        (flags.client_cert, [])
        (file.client_cert_file, file.client_cert_pem)
        (cfg.client_cert_file, cfg.client_cert_pem)
  pub client_key :
      Decides {A = String × List ℕ}
        (was_set g "client-key")
        (flags.client_key, [])
        (file.client_key_file, file.client_key_pem)
        (cfg.client_key_file, cfg.client_key_pem)
  pub tls_server_name :
      Decides
        (was_set g "tls-server-name")
        flags.tls_server_name
        file.tls_server_name
        cfg.tls_server_name
  pub insecure_skip_verify :
      Decides
        (was_set g "insecure-skip-verify")
        flags.insecure_skip_verify
        file.insecure_skip_verify
        cfg.insecure_skip_verify
  pub timeout : Decides (was_set g "timeout") flags.timeout file.timeout cfg.timeout
  pub format : Decides (was_set g "format") flags.format file.format cfg.format
  pub verbose : Decides (was_set g "verbose") flags.verbose file.verbose cfg.verbose
  pub debug : Decides (was_set g "debug") flags.debug file.debug cfg.debug
  pub charge_point_model : cfg.charge_point_model ≡ file.charge_point_model
  pub charge_point_vendor : cfg.charge_point_vendor ≡ file.charge_point_vendor
  pub firmware_version : cfg.firmware_version ≡ file.firmware_version
  pub serial_number : cfg.serial_number ≡ file.serial_number
  pub meter_serial_number : cfg.meter_serial_number ≡ file.meter_serial_number
  pub meter_type : cfg.meter_type ≡ file.meter_type

pair-Decides :
    (g : Given) (name new old : String) (pem : List ℕ)
    → Decides {A = String × List ℕ}
        (was_set g name)
        (new, [])
        (old, pem)
        (visited g name new old, visited g name [] pem)
pair-Decides g name new old pem = (λ given. rw given refl, λ absent. rw absent refl)

with_flags-IsLaidOver :
    (g : Given) (flags : CommonFlags) (file : ClientConfig)
    → IsLaidOver g flags file (with_flags g flags file)
unfolding with_flags
with_flags-IsLaidOver g flags file = record {
  central_system_url =
      visited-Decides g "central-system-url" flags.central_system_url file.central_system_url;
  charge_point_id = visited-Decides g "charge-point-id" flags.charge_point_id file.charge_point_id;
  username = visited-Decides g "username" flags.username file.username;
  password = visited-Decides g "password" flags.password file.password;
  ca_cert = pair-Decides g "ca-cert" flags.ca_cert file.ca_cert_file file.ca_cert_pem;
  client_cert =
      pair-Decides g "client-cert" flags.client_cert file.client_cert_file file.client_cert_pem;
  client_key =
      pair-Decides g "client-key" flags.client_key file.client_key_file file.client_key_pem;
  tls_server_name = visited-Decides g "tls-server-name" flags.tls_server_name file.tls_server_name;
  insecure_skip_verify =
      visited-Decides g "insecure-skip-verify" flags.insecure_skip_verify file.insecure_skip_verify;
  timeout = visited-Decides g "timeout" flags.timeout file.timeout;
  format = visited-Decides g "format" flags.format file.format;
  verbose = visited-Decides g "verbose" flags.verbose file.verbose;
  debug = visited-Decides g "debug" flags.debug file.debug;
  charge_point_model = refl;
  charge_point_vendor = refl;
  firmware_version = refl;
  serial_number = refl;
  meter_serial_number = refl;
  meter_type = refl;
}

lay_over-got :
    (h : Host) (g : Given) (flags : CommonFlags) (loaded : Result ClientConfig)
    (resolved : ClientConfig)
    → lay_over h g flags loaded ≡ got resolved
    → (file : ClientConfig) × (loaded ≡ ok file)
      × IsLaidOver g flags file resolved
      × IsValid h.parsers resolved
unfolding lay_over
lay_over-got h g flags (err e) resolved q = cc
lay_over-got h g flags (ok file) resolved q =
    let (same_config, valid) = validated-got h _ resolved q in
    (file, refl, rw same_config (with_flags-IsLaidOver g flags file), valid)

-- A configuration that the commands go on with is valid. It has each setting of a flag that was
-- given, and for every other setting what the file says; a certificate or a key that a flag names
-- also drops the text that the file gives in its place.
pub resolve_client_config_lem :
    (h : Host) (g : Given) (flags : CommonFlags) (resolved : ClientConfig)
    → resolve_client_config h g flags ≡ got resolved
    → IsValid h.parsers resolved
      × ((file : ClientConfig) × (load_client_config_for_profile h.parsers flags.config_path
              flags.profile
            ≡ ok file)
          × IsLaidOver g flags file resolved)
unfolding resolve_client_config
resolve_client_config_lem h g flags resolved q =
    let (file, loads, laid, valid) = lay_over-got h g flags _ resolved q in
    (valid, (file, loads, laid))

resolve_common-config :
    (h : Host) (g : Given) (cfg : ClientConfig) (format : String)
    → resolve_common h g ≡ got (cfg, format)
    → resolve_client_config h g (common_flags g) ≡ got cfg
unfolding resolve_common
resolve_common-config h g cfg format q = ground arith

-- The configuration that `resolveCommon` gives is valid.
pub resolve_common-IsValid :
    (h : Host) (g : Given) (cfg : ClientConfig) (format : String)
    → resolve_common h g ≡ got (cfg, format)
    → IsValid h.parsers cfg
resolve_common-IsValid h g cfg format q =
    (resolve_client_config_lem h g (common_flags g) cfg (resolve_common-config h g cfg format q)).0
