-- ===== src/Client/Setup/Laws.antt =====
-- What `New` makes, and what `Close` does to it.
use ocpp_cli.Prelude.{
  ℕ, suc, ◌≡◌, ◌≤◌, refl, ◌⊎◌, inl, inr, String, Bool, true, false, Option, none, some, List, [],
  ◌∷◌, str_eq, is_some, not, Bool-cases, Option-cases, ◌&&◌, if◌then◌else◌, arith,
}
use ocpp_cli.Config.{ClientConfig, Parsers}
use ocpp_cli.Config.Validate.{validate_client_config, IsValid, is_empty}
use ocpp_cli.Config.Laws.{validate_client_config-IsValid}
use ocpp_cli.Errors.{Error, Sentinel, Outcome, got, lost, is, wrap, refuse_when, ◌>>=◌, ◌>>◌}
use ocpp_cli.Errors.Laws.{Either, Post, Anything, if-Post, got-Post, bind-Post, refuse-Post}
use ocpp_cli.Client.Types.{Texts}
use ocpp_cli.Client.Setup.{
  Certificates, KeyPair, TlsConfig, WsClient, Client, auth_error, ca_pem, loaded,
  client_certificates, build_tls_config, tls_config_of, is_secure, tls_option,
  new_web_socket_client, new, close,
}

abbrev pub IsSecurity : Error → Type 0
IsSecurity e = is e Sentinel.auth_security ≡ true

module _ (t : Texts) (p : Parsers) (k : Certificates) where
  ca_pem-Post : (cfg : ClientConfig) → Post Anything IsSecurity (ca_pem t p k cfg)
  unfolding ca_pem wrap
  ca_pem-Post cfg = record { post = ground arith }

  loaded-Post :
      (what : String) (pair : KeyPair) (failure : Option String)
      → Post Anything IsSecurity (loaded t p k what pair failure)
  unfolding loaded wrap
  loaded-Post what pair none = record { post = tt }
  loaded-Post what pair (some reason) = record { post = refl }

  client_certificates-Post :
      (cfg : ClientConfig) → Post Anything IsSecurity (client_certificates t p k cfg)
  unfolding client_certificates
  client_certificates-Post cfg = search (if-Post, loaded-Post, got-Post)

  -- The connection that a configuration asks for.
  abbrev pub Follows : ClientConfig → TlsConfig → Type 0
  Follows cfg tls =
      (tls.min_version ≡ 771)
      × (tls.server_name ≡ cfg.tls_server_name)
      × (tls.insecure_skip_verify ≡ cfg.insecure_skip_verify)

  certified-Post :
      (cfg : ClientConfig) (pem : List ℕ)
      → Post
          (Follows cfg)
          IsSecurity
          (client_certificates t p k cfg >>= λ cs. got (tls_config_of t p k cfg pem cs))
  certified-Post cfg pem =
      bind-Post _ _ Anything (client_certificates t p k cfg)
        (λ cs. got (tls_config_of t p k cfg pem cs)) (client_certificates-Post cfg)
        (λ cs _ _. record { post = (refl, refl, refl) })

  build_tls_config-Post :
      (cfg : ClientConfig) → Post (Follows cfg) IsSecurity (build_tls_config t p k cfg)
  unfolding build_tls_config wrap
  build_tls_config-Post cfg =
      bind-Post _ _ Anything (ca_pem t p k cfg)
        (λ pem.
          refuse_when (not (is_empty pem) && not (k.has_certificate pem))
            (auth_error t p k "CA certificate does not contain valid PEM certificates")
          >> (client_certificates t p k cfg >>= λ cs. got (tls_config_of t p k cfg pem cs)))
        (ca_pem-Post cfg)
        (λ pem _ _.
          refuse-Post _ _ (not (is_empty pem) && not (k.has_certificate pem))
            (auth_error t p k "CA certificate does not contain valid PEM certificates")
            (client_certificates t p k cfg >>= λ cs. got (tls_config_of t p k cfg pem cs)) refl
            (λ known. certified-Post cfg pem))

  -- The encryption that the URL asks for.
  abbrev pub Encrypts : ClientConfig → Bool → Option TlsConfig → Type 0
  Encrypts cfg false tls = tls ≡ none
  Encrypts cfg true none = ⊥
  Encrypts cfg true (some tls) = Follows cfg tls

  tls_option-Post :
      (cfg : ClientConfig)
      → Post (Encrypts cfg (is_secure t p k cfg)) IsSecurity (tls_option t p k cfg)
  unfolding tls_option
  tls_option-Post cfg = elim (Bool-cases (is_secure t p k cfg)) [
    | inl secure ↦
        rw (secure, tls_option)
          (bind-Post _ _ (Follows cfg) (build_tls_config t p k cfg) (λ tls. got (some tls))
            (build_tls_config-Post cfg) (λ tls _ follows. record { post = follows }))
    | inr plain ↦ rw (plain, tls_option) (record { post = refl })
  ]

  abbrev pub Serves : ClientConfig → WsClient → Type 0
  Serves cfg ws =
      (ws.handshake_timeout ≡ cfg.timeout)
      × (ws.write_wait ≡ cfg.timeout)
      × (is_some ws.basic_auth ≡ not (str_eq cfg.username ""))
      × Encrypts cfg (is_secure t p k cfg) ws.tls_config

  new_web_socket_client-Post :
      (cfg : ClientConfig) → Post (Serves cfg) IsSecurity (new_web_socket_client t p k cfg)
  unfolding new_web_socket_client
  new_web_socket_client-Post cfg =
      bind-Post _ _ _ (tls_option t p k cfg)
        (λ tls. got (record {
          tls_config = tls;
          handshake_timeout = cfg.timeout;
          write_wait = cfg.timeout;
          basic_auth = if str_eq cfg.username "" then none else some (cfg.username, cfg.password);
        }))
        (tls_option-Post cfg)
        (λ tls _ encrypts. record { post = (refl, refl, ground arith, encrypts) })

  -- A client that has just been made.
  abbrev pub IsFresh : ClientConfig → Client → Type 0
  IsFresh cfg c =
      (c.cfg ≡ cfg) × (c.closed ≡ false) × (c.stops ≡ 0) × IsValid p cfg × Serves cfg c.ws_client

  abbrev pub IsSetup : Error → Type 0
  IsSetup e = (is e Sentinel.validation ≡ true) ⊎ (is e Sentinel.auth_security ≡ true)

  security-IsSetup :
      {A : Type 0} (P : A → Type 0) (o : Outcome A) → Either P IsSecurity o → Either P IsSetup o
  security-IsSetup P (got a) h = h
  security-IsSetup P (lost e) h = inr h

  -- A client is made only from a valid configuration. It waits for as long as the configuration says,
  -- authenticates where there is a user name, and is encrypted exactly if the URL asks for it, then
  -- with TLS 1.2 at least and with the server name and the check of certificates of the
  -- configuration. Any failure is one of validation or of security.
  pub new-IsFresh : (cfg : ClientConfig) → Either (IsFresh cfg) IsSetup (new t p k cfg)
  unfolding new wrap
  new-IsFresh cfg = elim (Option-cases (validate_client_config p cfg)) [
    | inr (e, fails) ↦ rw (fails, new) (inl refl)
    | inl passes ↦
        rw (passes, new)
          (security-IsSetup (IsFresh cfg) _
            (bind-Post _ _ _ (new_web_socket_client t p k cfg)
              (λ ws. got (record { cfg = cfg; ws_client = ws; closed = false; stops = 0 }))
              (new_web_socket_client-Post cfg)
              (λ ws _ serves. record {
                post = (refl, refl, refl, (validate_client_config-IsValid p cfg).0 passes, serves);
              })).post)
  ]

-- Any number of closes, each with what `IsConnected` says then.
abbrev pub close_all : List Bool → Client → Client
close_all [] c = c
close_all (b ∷ bs) c = close_all bs (close b c)

close_all-bound :
    (bs : List Bool) (c : Client)
    → (close_all bs c).stops ≤ (if c.closed then c.stops else suc c.stops)
unfolding close
close_all-bound [] c = ground arith
close_all-bound (b ∷ bs) c = ground (arith, close_all-bound bs (close b c))

-- However often a client is closed, the connection is stopped once at most.
pub close_all-stops : (bs : List Bool) (c : Client) → (close_all bs c).stops ≤ suc c.stops
close_all-stops bs c = ground (arith, close_all-bound bs c)
