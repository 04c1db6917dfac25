-- ===== src/Tls/Verifies.antt =====
-- Who verifies whom in a TLS configuration.
use Prim.Native.String.{String}
use text.Mathlib.Text.{◌==◌ as str_eq}
use text.Mathlib.TextEquality.{eq_iff}
use mvp_vpn_lite.Base.{
  ℕ, ◌≡◌, ◌≢◌, ◌⊎◌, refl, sym, arith, true, false, none, some, [], ◌∷◌, ok, err, length, bind-eq-ok,
  Bool-cases, inl, inr,
}
use mvp_vpn_lite.Tls.{
  TlsConfig, Crypto, key_pair_required, no_client_cert, require_and_verify_client_cert,
  mvp_quic_alpn, version_tls13, config_with, generate_self_signed_tls_config, load_cert_pool,
  load_key_pair, load_client_key_pair_failed, server_certificate_config, server_tls_config,
  client_roots_config, client_tls_config,
}

module _ (crypto : Crypto) where
  -- A certificate of the server's own, and nothing said of the clients.
  record Plain (cfg : TlsConfig) : Type 0 where
    one_certificate : length cfg.certificates ≡ 1
    alpn : cfg.next_protos ≡ mvp_quic_alpn ∷ []
    tls13 : cfg.min_version ≡ version_tls13
    no_cas : cfg.client_cas ≡ none
    no_auth : cfg.client_auth ≡ no_client_cert

  self_signed-Plain :
      (cfg : TlsConfig) → generate_self_signed_tls_config crypto ≡ ok cfg → Plain cfg
  unfolding generate_self_signed_tls_config
  self_signed-Plain cfg e = ground arith

  certificate-Plain :
      (cert_file key_file : String) (cfg : TlsConfig)
      → server_certificate_config crypto cert_file key_file ≡ ok cfg
      → Plain cfg
  unfolding server_certificate_config load_key_pair
  certificate-Plain cert_file key_file cfg e = ground (arith, self_signed-Plain cfg)

  -- What an accepted server configuration says.
  pub record IsServerConfig (client_ca_file : String) (cfg : TlsConfig) : Type 0 where
    pub one_certificate : length cfg.certificates ≡ 1
    pub alpn : cfg.next_protos ≡ mvp_quic_alpn ∷ []
    pub tls13 : cfg.min_version ≡ version_tls13
    pub verifies_clients :
        ((client_ca_file ≡ "") × (cfg.client_auth ≡ no_client_cert))
        ⊎ ((pool : ℕ) × (client_ca_file ≢ "")
            × (load_cert_pool crypto client_ca_file "client CA" ≡ ok pool)
            × (cfg.client_cas ≡ some pool)
            × (cfg.client_auth ≡ require_and_verify_client_cert))

  -- An accepted server configuration has one certificate, the protocol name and TLS 1.3, and it
  -- requires and verifies client certificates, against the pool of the given file, exactly when a
  -- client CA file is named.
  pub server_tls_verifies :
      (cert_file key_file client_ca_file : String) (cfg : TlsConfig)
      → server_tls_config crypto cert_file key_file client_ca_file ≡ ok cfg
      → IsServerConfig client_ca_file cfg
  unfolding server_tls_config
  server_tls_verifies cert_file key_file client_ca_file cfg e =
      let (plain, made, e) =
        bind-eq-ok (server_certificate_config crypto cert_file key_file) _ cfg e in
      let p = certificate-Plain cert_file key_file plain made in
      elim (Bool-cases (str_eq client_ca_file "")) [
        | inl empty ↦
            let same : plain ≡ cfg = cc (rw empty at e) in
            rw (sym same) (record {
              one_certificate = p.one_certificate;
              alpn = p.alpn;
              tls13 = p.tls13;
              verifies_clients = inl ((eq_iff client_ca_file "").0 empty, p.no_auth);
            })
        | inr named ↦
            let (pool, loaded, e) =
              bind-eq-ok (load_cert_pool crypto client_ca_file "client CA") _ cfg (rw named at e) in
            let same : record plain {
              client_cas = some pool;
              client_auth = require_and_verify_client_cert;
            }
                ≡ cfg =
              cc e in
            rw (sym same) (record {
              one_certificate = p.one_certificate;
              alpn = p.alpn;
              tls13 = p.tls13;
              verifies_clients =
                  inr (pool, ground (arith, eq_iff client_ca_file ""), loaded, refl, refl);
            })
      ]

  -- What an accepted client configuration says.
  pub record IsClientConfig (ca_file server_name cert_file key_file : String) (cfg : TlsConfig)
      : Type 0 where
    pub alpn : cfg.next_protos ≡ mvp_quic_alpn ∷ []
    pub tls13 : cfg.min_version ≡ version_tls13
    pub same_name : cfg.server_name ≡ server_name
    pub verifies_server :
        ((ca_file ≡ "") × (cfg.insecure_skip_verify ≡ true))
        ⊎ ((pool : ℕ) × (ca_file ≢ "")
            × (load_cert_pool crypto ca_file "CA" ≡ ok pool)
            × (cfg.root_cas ≡ some pool)
            × (cfg.insecure_skip_verify ≡ false))
    pub own_certificate :
        ((cert_file ≡ "") × (key_file ≡ "") × (cfg.certificates ≡ []))
        ⊎ ((cert : ℕ) × (cert_file ≢ "")
            × (key_file ≢ "")
            × (load_key_pair crypto load_client_key_pair_failed cert_file key_file ≡ ok cert)
            × (cfg.certificates ≡ cert ∷ []))

  -- The configuration before the client's own certificate is one for no certificate.
  roots-IsClientConfig :
      (ca_file server_name : String) (cfg : TlsConfig)
      → client_roots_config crypto ca_file server_name ≡ ok cfg
      → IsClientConfig ca_file server_name "" "" cfg
  unfolding client_roots_config
  roots-IsClientConfig ca_file server_name cfg e =
      let bare : TlsConfig = record (config_with []) { server_name = server_name } in
      elim (Bool-cases (str_eq ca_file "")) [
        | inl empty ↦
            let same : record bare { insecure_skip_verify = true } ≡ cfg = cc (rw empty at e) in
            rw (sym same) (record {
              alpn = refl;
              tls13 = refl;
              same_name = refl;
              verifies_server = inl ((eq_iff ca_file "").0 empty, refl);
              own_certificate = inl (refl, refl, refl);
            })
        | inr named ↦
            let (pool, loaded, e) =
              bind-eq-ok (load_cert_pool crypto ca_file "CA") _ cfg (rw named at e) in
            let same : record bare { root_cas = some pool } ≡ cfg = cc e in
            rw (sym same) (record {
              alpn = refl;
              tls13 = refl;
              same_name = refl;
              verifies_server = inr (pool, ground (arith, eq_iff ca_file ""), loaded, refl, refl);
              own_certificate = inl (refl, refl, refl);
            })
      ]

  roots_bare :
      (ca_file server_name : String) (cfg : TlsConfig)
      → client_roots_config crypto ca_file server_name ≡ ok cfg
      → cfg.certificates ≡ []
  unfolding client_roots_config
  roots_bare ca_file server_name cfg e = ground arith

  -- An accepted client configuration has the protocol name, TLS 1.3 and the given server name. It
  -- skips the verification of the server exactly when no CA file is named, and otherwise verifies
  -- against the pool of that file; it has a certificate, the one of the two files, exactly when both
  -- are named, and none when neither is.
  pub client_tls_verifies :
      (ca_file server_name cert_file key_file : String) (cfg : TlsConfig)
      → client_tls_config crypto ca_file server_name cert_file key_file ≡ ok cfg
      → IsClientConfig ca_file server_name cert_file key_file cfg
  unfolding client_tls_config
  client_tls_verifies ca_file server_name cert_file key_file cfg e =
      let (roots, made, e) = bind-eq-ok (client_roots_config crypto ca_file server_name) _ cfg e in
      let r = roots-IsClientConfig ca_file server_name roots made in
      elim (Bool-cases (str_eq cert_file "")) [
        | inl no_cert ↦ elim (Bool-cases (str_eq key_file "")) [
          | inl no_key ↦
              let same : roots ≡ cfg = cc (rw (no_cert, no_key) at e) in
              rw (sym same) (record {
                alpn = r.alpn;
                tls13 = r.tls13;
                same_name = r.same_name;
                verifies_server = r.verifies_server;
                own_certificate = inl (
                  (eq_iff cert_file "").0 no_cert,
                  (eq_iff key_file "").0 no_key,
                  roots_bare ca_file server_name roots made,
                );
              })
          | inr key ↦ absurd (cc (rw (no_cert, key) at e))
        ]
        | inr cert ↦ elim (Bool-cases (str_eq key_file "")) [
          | inl no_key ↦ absurd (cc (rw (cert, no_key) at e))
          | inr key ↦
              let (pair, loaded, e) =
                bind-eq-ok (load_key_pair crypto load_client_key_pair_failed cert_file key_file) _
                  cfg (rw (cert, key) at e) in
              let same : record roots { certificates = pair ∷ [] } ≡ cfg = cc e in
              rw (sym same) (record {
                alpn = r.alpn;
                tls13 = r.tls13;
                same_name = r.same_name;
                verifies_server = r.verifies_server;
                own_certificate = inr (
                  pair,
                  ground (arith, eq_iff cert_file ""),
                  ground (arith, eq_iff key_file ""),
                  loaded,
                  refl,
                );
              })
        ]
      ]

  -- A certificate without its key, or a key without its certificate, is refused on both sides.
  pub half_pair_refused :
      (ca_file server_name client_ca_file cert_file key_file : String) (cfg : TlsConfig)
      → ((cert_file ≡ "") × (key_file ≢ "")) ⊎ ((cert_file ≢ "") × (key_file ≡ ""))
      → (server_tls_config crypto cert_file key_file client_ca_file ≡ err key_pair_required)
        × (client_tls_config crypto ca_file server_name cert_file key_file ≢ ok cfg)
  unfolding server_tls_config server_certificate_config
  half_pair_refused ca_file server_name client_ca_file cert_file key_file cfg (inl (no_cert, key)) =
      (
        ground (arith, eq_iff cert_file "", eq_iff key_file ""),
        λ e.
            let v = client_tls_verifies ca_file server_name cert_file key_file cfg e in
            elim v.own_certificate [
              | inl (without_cert, without_key, bare) ↦ key without_key
              | inr (pair, with_cert, with_key, loaded, one) ↦ with_cert no_cert
            ],
      )
  half_pair_refused ca_file server_name client_ca_file cert_file key_file cfg (inr (cert, no_key)) =
      (
        ground (arith, eq_iff cert_file "", eq_iff key_file ""),
        λ e.
            let v = client_tls_verifies ca_file server_name cert_file key_file cfg e in
            elim v.own_certificate [
              | inl (without_cert, without_key, bare) ↦ cert without_cert
              | inr (pair, with_cert, with_key, loaded, one) ↦ with_key no_key
            ],
      )
