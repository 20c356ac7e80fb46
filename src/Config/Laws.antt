-- ===== src/Config/Laws.antt =====
-- What `ValidateClientConfig`, `applySettings` and `LoadClientConfigForProfile` guarantee.
use ocpp_cli.Prelude.{
  ℕ, ◌≤◌, ◌≡◌, refl, sym, ◌∙◌, ◌↔◌, ◌⊎◌, inl, inr, String, false, ◌&&◌, not, Option, none, some,
  List, [], All, str_eq, str_eq_iff, arith, Option-cases,
}
use ocpp_cli.Prelude.Int.{string_eq}
use ocpp_cli.Text.{byte_length}
use ocpp_cli.Config.{
  ClientConfig, ConfigFile, Parsers, Url, ConfigError, Result, ok, err, ◌then_try◌,
  default_client_config, apply_settings,
}
use ocpp_cli.Config.Validate.{
  Check, IsValid, checks, first_failure, first_failure-none, is_bad_url, is_empty, differ,
  is_bad_name, validate_client_config,
}
use ocpp_cli.Config.Load.{check_config, apply_profile, load_contents}

good_url :
    (o : Option Url)
    → is_bad_url o ≡ false
    → (u : Url) × (o ≡ some u)
      × ((u.scheme ≡ "ws") ⊎ (u.scheme ≡ "wss"))
      × (str_eq u.host "" ≡ false)
unfolding is_bad_url
good_url none h = cc
good_url (some u) h =
    (u, refl, ground (arith, str_eq_iff u.scheme "ws", str_eq_iff u.scheme "wss"), ground arith)

good_url_passes :
    (o : Option Url) (u : Url)
    → o ≡ some u
    → (u.scheme ≡ "ws") ⊎ (u.scheme ≡ "wss")
    → str_eq u.host "" ≡ false
    → is_bad_url o ≡ false
unfolding is_bad_url
good_url_passes o u e s h = ground (arith, str_eq_iff u.scheme "ws", str_eq_iff u.scheme "wss")

paired_texts : (a b : String) → (differ (str_eq a "") (str_eq b "") ≡ false) ↔ ((a ≡ "") ↔ (b ≡ ""))
paired_texts a b = grind (arith, str_eq_iff a "", str_eq_iff b "")

paired_bytes : (a b : List ℕ) → (differ (is_empty a) (is_empty b) ≡ false) ↔ ((a ≡ []) ↔ (b ≡ []))
paired_bytes a b = ground arith

-- No failure is reported exactly when no check fires.
validate-first_failure :
    (p : Parsers) (cfg : ClientConfig) → validate_client_config p cfg ≡ first_failure (checks p cfg)
unfolding validate_client_config
validate-first_failure p cfg = refl

abbrev Passes : Check → Type 0
Passes c = c.0 ≡ false

checks-IsValid : (p : Parsers) (cfg : ClientConfig) → All Passes (checks p cfg) → IsValid p cfg
unfolding checks
checks-IsValid p cfg h = record {
  has_url = good_url (p.parse_url cfg.central_system_url) h.1.0;
  url_not_blank = h.0;
  id_not_blank = h.1.1.0;
  id_no_slash = h.1.1.1.0;
  has_time = ground arith;
  credentials_paired = (paired_texts cfg.username cfg.password).0 h.1.1.1.1.1.0;
  cert_files_paired = (paired_texts cfg.client_cert_file cfg.client_key_file).0 h.1.1.1.1.1.1.0;
  cert_pems_paired = (paired_bytes cfg.client_cert_pem cfg.client_key_pem).0 h.1.1.1.1.1.1.1.0;
  one_client_cert = one_cert cfg.client_cert_file cfg.client_cert_pem h.1.1.1.1.1.1.1.1.0;
  model_fits = ground arith;
  model_short = short cfg.charge_point_model h.1.1.1.1.1.1.1.1.1.0;
  vendor_fits = ground arith;
  vendor_short = short cfg.charge_point_vendor h.1.1.1.1.1.1.1.1.1.1.0;
}
  where
    one_cert :
        (file : String) (pem : List ℕ)
        → (not (str_eq file "") && not (is_empty pem)) ≡ false
        → (file ≡ "") ⊎ (pem ≡ [])
    one_cert file pem h = ground (arith, str_eq_iff file "")

    short : (name : String) → is_bad_name name ≡ false → byte_length name ≤ 20
    short name h = ground arith

IsValid-checks : (p : Parsers) (cfg : ClientConfig) → IsValid p cfg → All Passes (checks p cfg)
unfolding checks
IsValid-checks p cfg v = (
  v.url_not_blank,
  (
    good_url_passes (p.parse_url cfg.central_system_url) v.has_url.0 v.has_url.1 v.has_url.2
        v.has_url.3,
    (
      v.id_not_blank,
      (
        v.id_no_slash,
        (
          ground arith,
          (
            (paired_texts cfg.username cfg.password).1 v.credentials_paired,
            (
              (paired_texts cfg.client_cert_file cfg.client_key_file).1 v.cert_files_paired,
              (
                (paired_bytes cfg.client_cert_pem cfg.client_key_pem).1 v.cert_pems_paired,
                (
                  one_cert cfg.client_cert_file cfg.client_cert_pem v.one_client_cert,
                  (ground arith, (ground arith, tt)),
                ),
              ),
            ),
          ),
        ),
      ),
    ),
  ),
)
  where
    one_cert :
        (file : String) (pem : List ℕ)
        → (file ≡ "") ⊎ (pem ≡ [])
        → (not (str_eq file "") && not (is_empty pem)) ≡ false
    one_cert file pem h = ground (arith, str_eq_iff file "")

-- `ValidateClientConfig` reports no error exactly for the configurations with every promise.
pub validate_client_config-IsValid :
    (p : Parsers) (cfg : ClientConfig) → (validate_client_config p cfg ≡ none) ↔ IsValid p cfg
validate_client_config-IsValid p cfg =
    let passes = first_failure-none (checks p cfg) in
    (
      λ h. checks-IsValid p cfg (passes.0 (sym (validate-first_failure p cfg) ∙ h)),
      λ v. validate-first_failure p cfg ∙ passes.1 (IsValid-checks p cfg v),
    )

pub then_try-ok :
    {A B : Type 0} (m : Result A) (f : A → Result B) {b : B}
    → (m then_try f) ≡ ok b
    → (a : A) × (m ≡ ok a) × (f a ≡ ok b)
then_try-ok (ok a) f h = (a, refl, h)
then_try-ok (err e) f h = cc

check_config-IsValid :
    (p : Parsers) (cfg cfg' : ClientConfig) → check_config p cfg ≡ ok cfg' → IsValid p cfg'
unfolding check_config
check_config-IsValid p cfg cfg' h = elim (Option-cases (validate_client_config p cfg)) [
  | inl fine ↦
      rw (← same (rw (fine, check_config) at h)) ((validate_client_config-IsValid p cfg).0 fine)
  | inr (e, bad) ↦ absurd (never (rw (bad, check_config) at h))
]
  where
    same : {a b : ClientConfig} → ok a ≡ ok b → a ≡ b
    same q = cc

    never : {e : ConfigError} {b : ClientConfig} → err e ≡ ok b → ⊥
    never q = cc

-- A configuration that is loaded from a file's contents has every promise.
pub load_contents-IsValid :
    (p : Parsers) (profile : String) (file : ConfigFile) (cfg : ClientConfig)
    → load_contents p profile file ≡ ok cfg
    → IsValid p cfg
unfolding load_contents
load_contents-IsValid p profile file cfg h =
    let (base, _, rest) = then_try-ok (apply_settings p default_client_config file.settings) _ h in
    let (merged, _, last) = then_try-ok (apply_profile p profile file file.profiles base) _ rest in
    check_config-IsValid p merged cfg last
