-- ===== src/ClientIp.antt =====
-- `compute_client_ip` of src/main.rs: the address that the rules see as the client's.
pub mod Forwarding
use docker_proxy.Common.{
  ℕ, Bool, true, false, not, if◌then◌else◌, Option, none, some, ◌>>=◌, or_else, unwrap_or, List, [],
  ◌∷◌, Str, codes, any, filter_map, find_map, rfind_map, split, trim, trim_matches, strip_prefix,
  strip_suffix, ◌==◌,
}
use docker_proxy.Externals.{Externals}
use docker_proxy.Headers.{HeaderMap, text_of}

module _ (x : Externals) where
  unfoldable pub parse_trusted_proxies : List Str → List Str
  parse_trusted_proxies raw = filter_map x.parse_net raw

  abbrev pub is_trusted : List Str → Str → Bool
  is_trusted trusted ip = any (λ net. x.net_contains net ip) trusted

  -- An entry of `X-Forwarded-For` that is an address of no trusted proxy.
  unfoldable pub untrusted_entry : List Str → Str → Option Str
  untrusted_entry trusted entry =
      x.parse_ip (trim entry) >>= λ ip. if is_trusted trusted ip then none else some ip

  abbrev pub unbracket : Str → Str
  unbracket raw = unwrap_or (strip_prefix (codes "[") raw >>= strip_suffix b']') raw

  -- The address in a parameter `for=` of `Forwarded`.
  unfoldable pub forwarded_param : Str → Option Str
  forwarded_param param = strip_prefix (codes "for=") (trim param) >>= λ rest.
      x.parse_ip (unbracket (trim_matches (λ c. c == b'"') rest))

  unfoldable pub forwarded_ip : Str → Option Str
  forwarded_ip v =
      rfind_map (λ segment. find_map forwarded_param (split b';' segment)) (split b',' v)

  unfoldable pub compute_client_ip : Str → HeaderMap → List Str → Str
  unfolding untrusted_entry forwarded_ip
  compute_client_ip peer headers trusted =
      if not (is_trusted trusted peer)
      then peer
      else unwrap_or
          (or_else (text_of x (codes "x-real-ip") headers >>= λ v. x.parse_ip (trim v)) (
            or_else
              (text_of x (codes "x-forwarded-for") headers >>= λ v.
                rfind_map (untrusted_entry trusted) (split b',' v))
              (text_of x (codes "forwarded") headers >>= forwarded_ip)))
          peer
