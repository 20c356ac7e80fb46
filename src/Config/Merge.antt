-- ===== src/Config/Merge.antt =====
-- How `applySettings` merges: what a file leaves out stays, what it gives wins.
use ocpp_cli.Prelude.{
  ℤ, ℕ, ◌≡◌, ◌≢◌, refl, sym, ◌∙◌, ap, subst, String, Bool, Option, none, some, str_eq_iff,
  if◌then◌else◌, List, [], ◌∷◌, str_eq, arith,
}
use ocpp_cli.Prelude.Int.{string_eq}
use ocpp_cli.Prelude.Maps.{Map}
use ocpp_cli.Config.{
  ClientConfig, ConfigFile, Settings, Parsers, ok, default_client_config, override, override_pem,
  override_timeout, override_bool, with_texts, apply_settings,
}
use ocpp_cli.Config.Load.{check_config, select_profile, apply_profile, load_contents}
use ocpp_cli.Config.Laws.{then_try-ok}

abbrev with_parsed : ClientConfig → List ℕ → List ℕ → List ℕ → ℤ → ClientConfig
with_parsed cfg ca cert key timeout = record cfg {
  ca_cert_pem = ca;
  client_cert_pem = cert;
  client_key_pem = key;
  timeout = timeout;
}

-- Every part parsed.
pub record Parsed (p : Parsers) (s : Settings) (cfg m : ClientConfig) : Type 0 where
  pub ca : override_pem p s.ca_cert_base64 cfg.ca_cert_pem ≡ ok m.ca_cert_pem
  pub cert : override_pem p s.client_cert_base64 cfg.client_cert_pem ≡ ok m.client_cert_pem
  pub key : override_pem p s.client_key_base64 cfg.client_key_pem ≡ ok m.client_key_pem
  pub duration : override_timeout p s.timeout cfg.timeout ≡ ok m.timeout

-- The plain assignments, over what was parsed into `m`.
abbrev pub merged : Settings → ClientConfig → ClientConfig → ClientConfig
merged s cfg m =
    with_parsed (with_texts s cfg) m.ca_cert_pem m.client_cert_pem m.client_key_pem m.timeout

inner : {a b : ClientConfig} → ok a ≡ ok b → a ≡ b
inner q = cc

Parsed-of :
    (p : Parsers) (s : Settings) (cfg cfg' : ClientConfig) (ca cert key : List ℕ) (timeout : ℤ)
    → with_parsed (with_texts s cfg) ca cert key timeout ≡ cfg'
    → override_pem p s.ca_cert_base64 cfg.ca_cert_pem ≡ ok ca
    → override_pem p s.client_cert_base64 cfg.client_cert_pem ≡ ok cert
    → override_pem p s.client_key_base64 cfg.client_key_pem ≡ ok key
    → override_timeout p s.timeout cfg.timeout ≡ ok timeout
    → Parsed p s cfg cfg' × (merged s cfg cfg' ≡ cfg')
Parsed-of p s cfg cfg' ca cert key timeout e a b c d =
    subst (λ m. Parsed p s cfg m × (merged s cfg m ≡ m)) e
      (record { ca = a; cert = b; key = c; duration = d }, refl)

-- What a successful merge has made: every part parsed, and the rest are plain assignments.
pub apply_settings-Parsed :
    (p : Parsers) (cfg cfg' : ClientConfig) (s : Settings)
    → apply_settings p cfg s ≡ ok cfg'
    → Parsed p s cfg cfg' × (merged s cfg cfg' ≡ cfg')
unfolding apply_settings
apply_settings-Parsed p cfg cfg' s h =
    let (ca, e1, h1) = then_try-ok (override_pem p s.ca_cert_base64 cfg.ca_cert_pem) _ h in
    let (cert, e2, h2) =
      then_try-ok (override_pem p s.client_cert_base64 cfg.client_cert_pem) _ h1 in
    let (key, e3, h3) = then_try-ok (override_pem p s.client_key_base64 cfg.client_key_pem) _ h2 in
    let (timeout, e4, h4) = then_try-ok (override_timeout p s.timeout cfg.timeout) _ h3 in
    Parsed-of p s cfg cfg' ca cert key timeout (inner h4) e1 e2 e3 e4

-- The fields that are not parsed, which show how sources of settings rank.
abbrev pub texts_of : ClientConfig → ClientConfig
texts_of cfg = with_parsed cfg [] [] [] default_client_config.timeout

texts_of-with_texts :
    (s : Settings) (cfg : ClientConfig)
    → texts_of (with_texts s (texts_of cfg)) ≡ texts_of (with_texts s cfg)
unfolding with_texts
texts_of-with_texts s cfg = refl

texts_of_apply :
    (p : Parsers) (cfg cfg' : ClientConfig) (s : Settings)
    → apply_settings p cfg s ≡ ok cfg'
    → texts_of cfg' ≡ texts_of (with_texts s cfg)
texts_of_apply p cfg cfg' s h =
    let (_, e) = apply_settings-Parsed p cfg cfg' s h in ap texts_of (sym e)

texts_of_profile :
    (p : Parsers) (profile : String) (file : ConfigFile) (profiles : Map String Settings)
    (base cfg : ClientConfig) (chosen : Settings)
    → profiles ≢ []
    → select_profile profile file ≡ ok chosen
    → apply_profile p profile file profiles base ≡ ok cfg
    → texts_of cfg ≡ texts_of (with_texts chosen base)
unfolding apply_profile
texts_of_profile p profile file [] base cfg chosen some_profiles e h = absurd (some_profiles refl)
texts_of_profile p profile file (x ∷ xs) base cfg chosen some_profiles e h =
    texts_of_apply p base cfg chosen (rw e at h)

check_config-eq :
    (p : Parsers) (cfg cfg' : ClientConfig) → check_config p cfg ≡ ok cfg' → cfg ≡ cfg'
unfolding check_config
check_config-eq p cfg cfg' h = ground arith

load_contents_texts :
    (p : Parsers) (profile : String) (file : ConfigFile) (cfg : ClientConfig) (chosen : Settings)
    → file.profiles ≢ []
    → select_profile profile file ≡ ok chosen
    → load_contents p profile file ≡ ok cfg
    → texts_of cfg ≡ texts_of (with_texts chosen (with_texts file.settings default_client_config))
unfolding load_contents
load_contents_texts p profile file cfg chosen some_profiles e h =
    let (base, e1, rest) = then_try-ok (apply_settings p default_client_config file.settings) _ h in
    let (whole, e2, last) = then_try-ok (apply_profile p profile file file.profiles base) _ rest in
    ap texts_of (sym (check_config-eq p whole cfg last))
    ∙ texts_of_profile p profile file file.profiles base whole chosen some_profiles e e2
    ∙ sym (texts_of-with_texts chosen base)
    ∙ ap (λ c. texts_of (with_texts chosen c))
        (texts_of_apply p default_client_config base file.settings e1)
    ∙ texts_of-with_texts chosen (with_texts file.settings default_client_config)

-- The first text of a list that is not empty.
abbrev pub first_given : List String → String
first_given [] = ""
first_given (s ∷ rest) = if str_eq s "" then first_given rest else s

abbrev pub first_said : List (Option Bool) → Bool → Bool
first_said [] default = default
first_said (none ∷ rest) default = first_said rest default
first_said (some b ∷ rest) default = b

-- Each plain field, from the sources in the order of their rank.
pub record IsRanked (chosen top : Settings) (defaults cfg : ClientConfig) : Type 0 where
  pub central_system_url :
      cfg.central_system_url
      ≡ first_given
          (chosen.central_system_url ∷ top.central_system_url ∷ defaults.central_system_url ∷ [])
  pub charge_point_id :
      cfg.charge_point_id
      ≡ first_given (chosen.charge_point_id ∷ top.charge_point_id ∷ defaults.charge_point_id ∷ [])
  pub username :
      cfg.username ≡ first_given (chosen.username ∷ top.username ∷ defaults.username ∷ [])
  pub password :
      cfg.password ≡ first_given (chosen.password ∷ top.password ∷ defaults.password ∷ [])
  pub ca_cert_file :
      cfg.ca_cert_file
      ≡ first_given (chosen.ca_cert_file ∷ top.ca_cert_file ∷ defaults.ca_cert_file ∷ [])
  pub client_cert_file :
      cfg.client_cert_file
      ≡ first_given
          (chosen.client_cert_file ∷ top.client_cert_file ∷ defaults.client_cert_file ∷ [])
  pub client_key_file :
      cfg.client_key_file
      ≡ first_given (chosen.client_key_file ∷ top.client_key_file ∷ defaults.client_key_file ∷ [])
  pub tls_server_name :
      cfg.tls_server_name
      ≡ first_given (chosen.tls_server_name ∷ top.tls_server_name ∷ defaults.tls_server_name ∷ [])
  pub format : cfg.format ≡ first_given (chosen.format ∷ top.format ∷ defaults.format ∷ [])
  pub charge_point_model :
      cfg.charge_point_model
      ≡ first_given
          (chosen.charge_point_model ∷ top.charge_point_model ∷ defaults.charge_point_model ∷ [])
  pub charge_point_vendor :
      cfg.charge_point_vendor
      ≡ first_given
          (chosen.charge_point_vendor ∷ top.charge_point_vendor ∷ defaults.charge_point_vendor ∷ [])
  pub firmware_version :
      cfg.firmware_version
      ≡ first_given
          (chosen.firmware_version ∷ top.firmware_version ∷ defaults.firmware_version ∷ [])
  pub serial_number :
      cfg.serial_number
      ≡ first_given (chosen.serial_number ∷ top.serial_number ∷ defaults.serial_number ∷ [])
  pub meter_serial_number :
      cfg.meter_serial_number
      ≡ first_given
          (chosen.meter_serial_number ∷ top.meter_serial_number ∷ defaults.meter_serial_number ∷ [])
  pub meter_type :
      cfg.meter_type ≡ first_given (chosen.meter_type ∷ top.meter_type ∷ defaults.meter_type ∷ [])
  pub insecure_skip_verify :
      cfg.insecure_skip_verify
      ≡ first_said
          (chosen.insecure_skip_verify ∷ top.insecure_skip_verify ∷ [])
          defaults.insecure_skip_verify

override-first_given : (a b c : String) → override a (override b c) ≡ first_given (a ∷ b ∷ c ∷ [])
unfolding override
override-first_given a b c = ground (arith, str_eq_iff c "")

override-first_said :
    (a b : Option Bool) (c : Bool) → override_bool a (override_bool b c) ≡ first_said (a ∷ b ∷ []) c
override-first_said a b c = ground arith

IsRanked-texts :
    (chosen top : Settings) (defaults cfg : ClientConfig)
    → texts_of cfg ≡ texts_of (with_texts chosen (with_texts top defaults))
    → IsRanked chosen top defaults cfg
unfolding with_texts
IsRanked-texts chosen top defaults cfg q = record {
  central_system_url =
      ap (λ c. c.central_system_url) q
      ∙ override-first_given chosen.central_system_url top.central_system_url
          defaults.central_system_url;
  charge_point_id =
      ap (λ c. c.charge_point_id) q
      ∙ override-first_given chosen.charge_point_id top.charge_point_id defaults.charge_point_id;
  username =
      ap (λ c. c.username) q ∙ override-first_given chosen.username top.username defaults.username;
  password =
      ap (λ c. c.password) q ∙ override-first_given chosen.password top.password defaults.password;
  ca_cert_file =
      ap (λ c. c.ca_cert_file) q
      ∙ override-first_given chosen.ca_cert_file top.ca_cert_file defaults.ca_cert_file;
  client_cert_file =
      ap (λ c. c.client_cert_file) q
      ∙ override-first_given chosen.client_cert_file top.client_cert_file defaults.client_cert_file;
  client_key_file =
      ap (λ c. c.client_key_file) q
      ∙ override-first_given chosen.client_key_file top.client_key_file defaults.client_key_file;
  tls_server_name =
      ap (λ c. c.tls_server_name) q
      ∙ override-first_given chosen.tls_server_name top.tls_server_name defaults.tls_server_name;
  format = ap (λ c. c.format) q ∙ override-first_given chosen.format top.format defaults.format;
  charge_point_model =
      ap (λ c. c.charge_point_model) q
      ∙ override-first_given chosen.charge_point_model top.charge_point_model
          defaults.charge_point_model;
  charge_point_vendor =
      ap (λ c. c.charge_point_vendor) q
      ∙ override-first_given chosen.charge_point_vendor top.charge_point_vendor
          defaults.charge_point_vendor;
  firmware_version =
      ap (λ c. c.firmware_version) q
      ∙ override-first_given chosen.firmware_version top.firmware_version defaults.firmware_version;
  serial_number =
      ap (λ c. c.serial_number) q
      ∙ override-first_given chosen.serial_number top.serial_number defaults.serial_number;
  meter_serial_number =
      ap (λ c. c.meter_serial_number) q
      ∙ override-first_given chosen.meter_serial_number top.meter_serial_number
          defaults.meter_serial_number;
  meter_type =
      ap (λ c. c.meter_type) q
      ∙ override-first_given chosen.meter_type top.meter_type defaults.meter_type;
  insecure_skip_verify =
      ap (λ c. c.insecure_skip_verify) q
      ∙ override-first_said chosen.insecure_skip_verify top.insecure_skip_verify
          defaults.insecure_skip_verify;
}

-- A configuration that is loaded from a file with profiles takes each plain field from the selected
-- profile where that gives it, else from the top of the file where that does, else from the defaults;
-- an empty text gives nothing.
pub load_contents_precedence :
    (p : Parsers) (profile : String) (file : ConfigFile) (cfg : ClientConfig) (chosen : Settings)
    → file.profiles ≢ []
    → select_profile profile file ≡ ok chosen
    → load_contents p profile file ≡ ok cfg
    → IsRanked chosen file.settings default_client_config cfg
load_contents_precedence p profile file cfg chosen some_profiles e h =
    IsRanked-texts chosen file.settings default_client_config cfg
      (load_contents_texts p profile file cfg chosen some_profiles e h)
