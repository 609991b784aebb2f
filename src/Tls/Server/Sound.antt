-- ===== src/Tls/Server/Sound.antt =====
-- What a TLS configuration that src/tls.rs builds asks of a client.
use docker_proxy.Common.{
  ◌≡◌, ◌≢◌, refl, ◌∙◌, Bool, true, false, inl, inr, Bool-cases, Option-cases, if◌then◌else◌, none,
  some, unwrap_or, List, [], ◌∷◌, ◌++◌, arith, Str, is_empty,
}
use mathlib.Core.List.{append_assoc, append-nil}
use docker_proxy.Config.{TlsConfig}
use docker_proxy.Tls.Server.{
  TlsError, open_failed, no_certificates, Result, ok, err, ◌>>◌, ok_or, ensure, TlsLibrary,
  ClientAuth, no_client_auth, verified, ServerConfig, collect, load_certs, load_private_key,
  add_roots, client_auth_of, build_server_config,
}

then_ok {ℓ κ} :
    {A : Type ℓ} {B : Type κ} (o : Result A) (k : A → Result B) (b : B)
    → (o >> k) ≡ ok b
    → (a : A) × (o ≡ ok a) × (k a ≡ ok b)
then_ok (ok a) k b e = (a, refl, e)
then_ok (err c) k b e = ground arith

ensure_ok {ℓ} :
    {A : Type ℓ} (test : Bool) (e : TlsError) (a b : A)
    → ensure test e a ≡ ok b
    → (test ≡ true) × (b ≡ a)
ensure_ok true e a b h = (refl, ground arith)
ensure_ok false e a b h = ground arith

module _ (lib : TlsLibrary) where
  -- No client is asked for a certificate; or a client's certificate is verified against those of the
  -- client CA, of which there is one at least, and it may be missing unless it is required.
  pub data Asks (tls : TlsConfig) : ClientAuth → Type 0 where
    nothing : tls.client_ca ≡ none → Asks tls no_client_auth
    certificate :
        (ca_path : Str) (roots : List Str)
        → tls.client_ca ≡ some ca_path
        → load_certs lib ca_path ≡ ok roots
        → roots ≢ []
        → Asks tls (verified roots (unwrap_or tls.require_client_cert false))

  filled :
      (out certs : List Str)
      → (if is_empty out then err no_certificates else ok out) ≡ ok certs
      → certs ≢ []
  filled [] certs e empty = ground (arith, e)
  filled (c ∷ out) certs e empty = ground (arith, e, empty)

  load_certs_filled : (path : Str) (certs : List Str) → load_certs lib path ≡ ok certs → certs ≢ []
  unfolding load_certs
  load_certs_filled path certs e =
      let (text, _, e1) = then_ok (ok_or open_failed (lib.read_file path)) _ certs e in
      let (out, _, e2) = then_ok (collect (lib.pem_certs text)) _ certs e1 in filled out certs e2

  add_roots_all :
      (roots certs all : List Str) → add_roots lib roots certs ≡ ok all → all ≡ roots ++ certs
  unfolding add_roots
  add_roots_all roots [] all e = ground (arith, e, append-nil roots)
  add_roots_all roots (cert ∷ certs) all e = elim (Bool-cases (lib.root_is_valid cert)) [
    | inl valid ↦
        add_roots_all (roots ++ cert ∷ []) certs all (rw (valid, add_roots) at e)
        ∙ append_assoc roots (cert ∷ []) certs
    | inr refused ↦ ground (arith, e, refused)
  ]

  client_auth_of-Asks :
      (tls : TlsConfig) (auth : ClientAuth) → client_auth_of lib tls ≡ ok auth → Asks tls auth
  unfolding client_auth_of
  client_auth_of-Asks tls auth e = elim (Option-cases tls.client_ca) [
    | inl missing ↦
        let same : no_client_auth ≡ auth = cc (rw (missing, client_auth_of) at e) in
        rw (← same) (nothing missing)
    | inr (ca_path, given) ↦
        let require = unwrap_or tls.require_client_cert false in
        let (certs, loaded, e1) =
          then_ok (load_certs lib ca_path) _ auth (rw (given, client_auth_of) at e) in
        let (roots, added, e2) = then_ok (add_roots lib [] certs) _ auth e1 in
        let all = add_roots_all [] certs roots added in
        let (_, same) = ensure_ok (lib.verifier_builds roots require) _ _ auth e2 in
        rw (same, all)
          (certificate ca_path certs given loaded (load_certs_filled ca_path certs loaded))
  ]

  -- A configuration that is built serves the certificates of the file, of which there is one at
  -- least, with the key of its file. With no client CA no client is asked for a certificate,
  -- whatever `require_client_cert` says; with one, a client's certificate is verified against all
  -- certificates of that file, and is required exactly if `require_client_cert` is true.
  pub build_server_config_sound :
      (tls : TlsConfig) (built : ServerConfig)
      → build_server_config lib tls ≡ ok built
      → (load_certs lib tls.cert ≡ ok built.certs)
        × (built.certs ≢ [])
        × (load_private_key lib tls.key ≡ ok built.key)
        × Asks tls built.client_auth
  unfolding build_server_config
  build_server_config_sound tls built e =
      let (certs, loaded, e1) = then_ok (load_certs lib tls.cert) _ built e in
      let (key, read, e2) = then_ok (load_private_key lib tls.key) _ built e1 in
      let (auth, asked, e3) = then_ok (client_auth_of lib tls) _ built e2 in
      let (_, same) = ensure_ok (lib.single_cert_fits certs key) _ _ built e3 in
      rw same
        (loaded, load_certs_filled tls.cert certs loaded, read, client_auth_of-Asks tls auth asked)
