-- ===== src/Client/Setup.antt =====
-- internal/ocppclient/client.go. Certificates are read by Go's packages tls and x509, which are the
-- fields of `Certificates`; a WebSocket client is the settings it is made with.
pub mod Laws
use Prim.Native.Char.{code}
use Prim.Native.String.{◌++◌}
use text.Mathlib.Text.{starts_with}
use ocpp_cli.Prelude.{
  ℤ, ℕ, suc, String, Bool, true, false, ◌&&◌, not, Option, none, some, List, [], ◌∷◌, ◌==◌, str_eq,
  if◌then◌else◌,
}
use ocpp_cli.Config.{ClientConfig, Parsers, ConfigError, contents, not_exist, failed}
use ocpp_cli.Config.Validate.{validate_client_config, is_empty}
use ocpp_cli.Errors.{Error, Sentinel, Outcome, got, lost, ◌>>=◌, ◌>>◌, refuse_when, wrap, classify}
use ocpp_cli.Client.Types.{Texts}

-- A certificate with its key, by where it was loaded from.
pub data KeyPair : Type 0 where
  of_files : String → String → KeyPair
  of_pems : List ℕ → List ℕ → KeyPair

-- `none` where the files or texts hold a pair, and otherwise the error's text.
pub record Certificates : Type 0 where
  pub has_system_pool : Bool
  pub has_certificate : List ℕ → Bool
  pub load_key_pair : String → String → Option String
  pub key_pair : List ℕ → List ℕ → Option String
  pub read_reason : String → String
  pub config_reason : ConfigError → String

pub record TlsConfig : Type 0 where
  pub system_roots : Bool
  pub added_roots : List ℕ
  pub certificates : List KeyPair
  pub server_name : String
  pub insecure_skip_verify : Bool
  pub min_version : ℕ

pub record WsClient : Type 0 where
  pub tls_config : Option TlsConfig
  pub handshake_timeout : ℤ
  pub write_wait : ℤ
  pub basic_auth : Option (String × String)

-- `closed` is the state of `closeOnce`; `stops` counts the calls of `cp.Stop`.
pub record Client : Type 0 where
  pub cfg : ClientConfig
  pub ws_client : WsClient
  pub closed : Bool
  pub stops : ℕ

-- `strings.TrimRight(s, "/")`
unfoldable pub trim_slashes : String → String
trim_slashes String.[] = ""
trim_slashes (String.◌∷◌ c s) =
    let rest = trim_slashes s in if (code c == 47) && str_eq rest "" then "" else String.◌∷◌ c rest

module _ (t : Texts) (p : Parsers) (k : Certificates) where
  abbrev auth_error : String → Error
  auth_error detail = wrap t.output_text Sentinel.auth_security detail

  unfoldable pub config_error : ConfigError → Error
  unfolding wrap
  config_error e = wrap t.output_text Sentinel.config (k.config_reason e)

  unfoldable pub ca_pem : ClientConfig → Outcome (List ℕ)
  unfolding wrap
  ca_pem cfg =
      if str_eq cfg.ca_cert_file ""
      then got cfg.ca_cert_pem
      else elim (p.read_file cfg.ca_cert_file) [
        | contents bytes ↦ got bytes
        | _ ↦ lost (auth_error ("read CA certificate: " ++ k.read_reason cfg.ca_cert_file))
      ]

  -- `what` names the step that failed.
  unfoldable pub loaded : String → KeyPair → Option String → Outcome (List KeyPair)
  unfolding wrap
  loaded what pair none = got (pair ∷ [])
  loaded what pair (some reason) = lost (auth_error (what ++ reason))

  unfoldable pub client_certificates : ClientConfig → Outcome (List KeyPair)
  unfolding loaded
  client_certificates cfg =
      if not (str_eq cfg.client_cert_file "")
      then loaded "load client certificate: " (of_files cfg.client_cert_file cfg.client_key_file)
          (k.load_key_pair cfg.client_cert_file cfg.client_key_file)
      else if not (is_empty cfg.client_cert_pem)
      then loaded "parse inline client certificate: "
          (of_pems cfg.client_cert_pem cfg.client_key_pem)
          (k.key_pair cfg.client_cert_pem cfg.client_key_pem)
      else got []

  -- `tls.VersionTLS12` is 0x0303.
  abbrev tls_config_of : ClientConfig → List ℕ → List KeyPair → TlsConfig
  tls_config_of cfg pem certificates = record {
    system_roots = k.has_system_pool;
    added_roots = pem;
    certificates = certificates;
    server_name = cfg.tls_server_name;
    insecure_skip_verify = cfg.insecure_skip_verify;
    min_version = 771;
  }

  unfoldable pub build_tls_config : ClientConfig → Outcome TlsConfig
  unfolding ca_pem client_certificates wrap
  build_tls_config cfg = do
    pem ← ca_pem cfg
    refuse_when (not (is_empty pem) && not (k.has_certificate pem))
        (auth_error "CA certificate does not contain valid PEM certificates")
    certificates ← client_certificates cfg
    got (tls_config_of cfg pem certificates)

  abbrev pub is_secure : ClientConfig → Bool
  is_secure cfg = starts_with (t.lower cfg.central_system_url) "wss://"

  unfoldable pub tls_option : ClientConfig → Outcome (Option TlsConfig)
  unfolding build_tls_config
  tls_option cfg =
      if is_secure cfg then (build_tls_config cfg >>= λ tls. got (some tls)) else got none

  unfoldable pub new_web_socket_client : ClientConfig → Outcome WsClient
  unfolding tls_option
  new_web_socket_client cfg = do
    tls ← tls_option cfg
    got (record {
      tls_config = tls;
      handshake_timeout = cfg.timeout;
      write_wait = cfg.timeout;
      basic_auth = if str_eq cfg.username "" then none else some (cfg.username, cfg.password);
    })

  unfoldable pub new : ClientConfig → Outcome Client
  unfolding validate_client_config config_error wrap new_web_socket_client
  new cfg = elim (validate_client_config p cfg) [
    | some e ↦ lost (wrap t.output_text Sentinel.validation (config_error e).text)
    | none ↦ do
      ws ← new_web_socket_client cfg
      got (record { cfg = cfg; ws_client = ws; closed = false; stops = 0 })
  ]

  -- `ended` is `ctx.Err()` of a context that is done; `start` is `cp.Start`.
  unfoldable pub connect : Option String → (String → Option Error) → Client → Option Error
  unfolding wrap classify trim_slashes
  connect (some ended) start c = some (wrap t.output_text Sentinel.timeout ended)
  connect none start c =
      classify t.lower t.output_text (start (trim_slashes c.cfg.central_system_url))
        Sentinel.connection

-- `is_connected` is `c.cp.IsConnected()`.
unfoldable pub close : Bool → Client → Client
close is_connected c =
    if c.closed
    then c
    else record c { closed = true; stops = if is_connected then suc c.stops else c.stops }
