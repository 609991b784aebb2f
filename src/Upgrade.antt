-- ===== src/Upgrade.antt =====
-- src/upgrade.rs: whether a request asks for another protocol.
use docker_proxy.Common.{
  Bool, false, ◌&&◌, none, some, is_some, Str, codes, any, split, trim, eq_ignore_ascii_case, get,
}
use docker_proxy.Externals.{Externals}
use docker_proxy.Headers.{HeaderMap, get_all}

module _ (x : Externals) where
  unfoldable pub header_has_token : Str → Str → Bool
  header_has_token value token = elim (x.to_str value) [
    | none ↦ false
    | some s ↦ any (λ t. eq_ignore_ascii_case (trim t) token) (split b',' s)
  ]

  unfoldable pub is_upgrade_request : HeaderMap → Bool
  unfolding header_has_token get_all
  is_upgrade_request headers =
      any (λ v. header_has_token v (codes "upgrade")) (get_all (codes "connection") headers)
      && is_some (get (codes "upgrade") headers)
