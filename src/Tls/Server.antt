-- ===== src/Tls/Server.antt =====
-- `build_server_config`, `load_certs`, `load_private_key` and `extract_identity` of src/tls.rs. The
-- files, the PEM and X.509 parsers and the checks of rustls are arguments; a certificate and a key
-- are their bytes.
pub mod Sound
use docker_proxy.Common.{
  ℕ, Bool, true, false, if◌then◌else◌, Option, none, some, ◌>>=◌, unwrap_or, List, [], ◌∷◌, ◌++◌,
  Str, is_empty, filter_map,
}
use docker_proxy.Config.{TlsConfig}
use docker_proxy.Tls.{CertIdentity}

pub data TlsError : Type 0 where
  open_failed : TlsError
  cert_invalid : TlsError
  no_certificates : TlsError
  key_invalid : TlsError
  no_private_key : TlsError
  client_ca_refused : TlsError
  verifier_failed : TlsError
  install_failed : TlsError

pub data Result {ℓ} (A : Type ℓ) : Type ℓ where
  ok : A → Result A
  err : TlsError → Result A

infixl 5 ◌>>◌
abbrev pub ◌>>◌ {ℓ κ} : {A : Type ℓ} {B : Type κ} → Result A → (A → Result B) → Result B
ok a >> k = k a
err e >> k = err e

abbrev pub ok_or {ℓ} : {A : Type ℓ} → TlsError → Option A → Result A
ok_or e none = err e
ok_or e (some a) = ok a

-- A general name of a certificate.
pub data GeneralName : Type 0 where
  dns_name : Str → GeneralName
  uri : Str → GeneralName
  rfc822_name : Str → GeneralName
  other_name : GeneralName

-- A parsed certificate: the common names of its subject that are texts or not, and the names of its
-- extension, if that is there.
pub record X509 : Type 0 where
  pub common_names : List (Option Str)
  pub alternative_names : Option (List GeneralName)

pub record TlsLibrary : Type 0 where
  -- `File::open` and what the reader gives.
  pub read_file : Str → Option Str
  -- `rustls_pemfile::certs`, where an item may be an error, and `private_key`.
  pub pem_certs : Str → List (Option Str)
  pub pem_private_key : Str → Option (Option Str)
  -- `RootCertStore::add`, the `build` of the verifier and `with_single_cert`.
  pub root_is_valid : Str → Bool
  pub verifier_builds : List Str → Bool → Bool
  pub single_cert_fits : List Str → Str → Bool
  -- `X509Certificate::from_der`.
  pub from_der : Str → Option X509

pub data ClientAuth : Type 0 where
  no_client_auth : ClientAuth
  verified : List Str → Bool → ClientAuth

pub record ServerConfig : Type 0 where
  pub client_auth : ClientAuth
  pub certs : List Str
  pub key : Str

-- `for item in certs { out.push(item?); }`.
unfoldable pub collect : List (Option Str) → Result (List Str)
collect [] = ok []
collect (none ∷ items) = err cert_invalid
collect (some der ∷ items) = collect items >> λ rest. ok (der ∷ rest)

abbrev pub ensure {ℓ} : {A : Type ℓ} → Bool → TlsError → A → Result A
ensure true e a = ok a
ensure false e a = err e

module _ (lib : TlsLibrary) where
  open lib use {
    read_file, pem_certs, pem_private_key, root_is_valid, verifier_builds, single_cert_fits,
    from_der,
  }

  unfoldable pub load_certs : Str → Result (List Str)
  unfolding collect
  load_certs path = ok_or open_failed (read_file path) >> λ text.
      collect (pem_certs text) >> λ out. if is_empty out then err no_certificates else ok out

  unfoldable pub load_private_key : Str → Result Str
  load_private_key path = ok_or open_failed (read_file path) >> λ text.
      ok_or key_invalid (pem_private_key text) >> λ found. ok_or no_private_key found

  -- `roots.add(cert)?` for each certificate of the client CA.
  unfoldable pub add_roots : List Str → List Str → Result (List Str)
  add_roots roots [] = ok roots
  add_roots roots (cert ∷ certs) =
      let rest = add_roots (roots ++ cert ∷ []) certs in
      if root_is_valid cert then rest else err client_ca_refused

  unfoldable pub client_auth_of : TlsConfig → Result ClientAuth
  unfolding load_certs add_roots
  client_auth_of tls =
      let require = unwrap_or tls.require_client_cert false in
      elim tls.client_ca [
        | none ↦ ok no_client_auth
        | some ca_path ↦ load_certs ca_path >> λ certs. add_roots [] certs >> λ roots.
            ensure (verifier_builds roots require) verifier_failed (verified roots require)
      ]

  unfoldable pub build_server_config : TlsConfig → Result ServerConfig
  unfolding load_certs load_private_key client_auth_of
  build_server_config tls = load_certs tls.cert >> λ certs. load_private_key tls.key >> λ key.
      client_auth_of tls >> λ client_auth.
      ensure (single_cert_fits certs key) install_failed
        (record { client_auth = client_auth; certs = certs; key = key })

  -- The first common name, if it is a text.
  abbrev pub first_name : List (Option Str) → Option Str
  first_name [] = none
  first_name (name ∷ names) = name

  abbrev pub san_text : GeneralName → Option Str
  san_text (dns_name s) = some s
  san_text (uri s) = some s
  san_text (rfc822_name s) = some s
  san_text other_name = none

  unfoldable pub extract_identity : Str → Option CertIdentity
  extract_identity cert_der = from_der cert_der >>= λ parsed. some (record {
    common_name = first_name parsed.common_names;
    sans = filter_map san_text (unwrap_or parsed.alternative_names []);
  })
