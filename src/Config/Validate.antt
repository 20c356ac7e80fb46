-- ===== src/Config/Validate.antt =====
-- internal/config/config.go: `ValidateClientConfig`. Each test that returns an error is an entry of
-- a list, in the order of the source; the first one that fires gives the error.
use ocpp_cli.Prelude.{
  ℕ, ◌≤◌, ◌≡◌, refl, ◌↔◌, ◌⊎◌, String, Bool, true, false, ◌&&◌, ◌||◌, not, Option, none, some, List,
  [], ◌∷◌, All, str_eq, is_pos, ltb, if◌then◌else◌,
}
use ocpp_cli.Text.{trim_space, contains, byte_length}
use ocpp_cli.Config.{
  ClientConfig, Parsers, Url, ConfigError, empty_url, bad_url, empty_id, slash_in_id, no_timeout,
  half_credentials, half_cert_files, half_cert_pems, two_client_certs, bad_model, bad_vendor,
}

abbrev pub Check : Type 0
Check = Bool × ConfigError

unfoldable pub first_failure : List Check → Option ConfigError
first_failure [] = none
first_failure ((failed, e) ∷ cs) = if failed then some e else first_failure cs

abbrev pub differ : Bool → Bool → Bool
differ true b = not b
differ false b = b

abbrev pub is_empty : List ℕ → Bool
is_empty [] = true
is_empty (b ∷ bs) = false

-- `err != nil || (u.Scheme != "ws" && u.Scheme != "wss") || u.Host == ""`
unfoldable pub is_bad_url : Option Url → Bool
is_bad_url none = true
is_bad_url (some u) =
    (not (str_eq u.scheme "ws") && not (str_eq u.scheme "wss")) || str_eq u.host ""

abbrev pub is_bad_name : String → Bool
is_bad_name name = str_eq name "" || ltb 20 (byte_length name)

unfoldable pub checks : Parsers → ClientConfig → List Check
unfolding is_bad_url
checks p cfg =
    (str_eq (trim_space cfg.central_system_url) "", empty_url)
    ∷ (is_bad_url (p.parse_url cfg.central_system_url), bad_url)
    ∷ (str_eq (trim_space cfg.charge_point_id) "", empty_id)
    ∷ (contains cfg.charge_point_id "/", slash_in_id)
    ∷ (not (is_pos cfg.timeout), no_timeout)
    ∷ (differ (str_eq cfg.username "") (str_eq cfg.password ""), half_credentials)
    ∷ (differ (str_eq cfg.client_cert_file "") (str_eq cfg.client_key_file ""), half_cert_files)
    ∷ (differ (is_empty cfg.client_cert_pem) (is_empty cfg.client_key_pem), half_cert_pems)
    ∷ (not (str_eq cfg.client_cert_file "") && not (is_empty cfg.client_cert_pem), two_client_certs)
    ∷ (is_bad_name cfg.charge_point_model, bad_model)
    ∷ (is_bad_name cfg.charge_point_vendor, bad_vendor)
    ∷ []

unfoldable pub validate_client_config : Parsers → ClientConfig → Option ConfigError
unfolding checks first_failure
validate_client_config p cfg = first_failure (checks p cfg)

-- What a valid configuration promises to the connection.
pub record IsValid (p : Parsers) (cfg : ClientConfig) : Type 0 where
  pub has_url :
      (u : Url) × (p.parse_url cfg.central_system_url ≡ some u)
      × ((u.scheme ≡ "ws") ⊎ (u.scheme ≡ "wss"))
      × (str_eq u.host "" ≡ false)
  pub url_not_blank : str_eq (trim_space cfg.central_system_url) "" ≡ false
  pub id_not_blank : str_eq (trim_space cfg.charge_point_id) "" ≡ false
  pub id_no_slash : contains cfg.charge_point_id "/" ≡ false
  pub has_time : is_pos cfg.timeout ≡ true
  pub credentials_paired : (cfg.username ≡ "") ↔ (cfg.password ≡ "")
  pub cert_files_paired : (cfg.client_cert_file ≡ "") ↔ (cfg.client_key_file ≡ "")
  pub cert_pems_paired : (cfg.client_cert_pem ≡ []) ↔ (cfg.client_key_pem ≡ [])
  pub one_client_cert : (cfg.client_cert_file ≡ "") ⊎ (cfg.client_cert_pem ≡ [])
  pub model_fits : str_eq cfg.charge_point_model "" ≡ false
  pub model_short : byte_length cfg.charge_point_model ≤ 20
  pub vendor_fits : str_eq cfg.charge_point_vendor "" ≡ false
  pub vendor_short : byte_length cfg.charge_point_vendor ≤ 20

-- No failure is reported exactly when no check fires.
pub first_failure-none : (cs : List Check) → (first_failure cs ≡ none) ↔ All (λ c. c.0 ≡ false) cs
unfolding first_failure
first_failure-none [] = (λ _. tt, λ _. refl)
first_failure-none ((true, e) ∷ cs) = (λ h. cc, λ h. cc)
first_failure-none ((false, e) ∷ cs) =
    let ih = first_failure-none cs in (λ h. (refl, ih.0 h), λ h. ih.1 h.1)
