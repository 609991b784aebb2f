-- ===== src/Proxy/Headers/Dropped.antt =====
-- Headers of a caller that never reach the daemon through src/main.rs.
use docker_proxy.Common.{
  ◌≡◌, refl, Bool, false, Option, none, some, List, [], ◌∷◌, ◌++◌, arith, Str, codes, str_eq,
  str_eq_iff, any, keep_if, Bool-cases, inl, inr, All,
}
use docker_proxy.Headers.{HeaderMap, get_all}
use docker_proxy.Proxy.Upgrades.{upgrade_header}
use docker_proxy.Proxy.Headers.{forward_headers, is_forwarded}

-- The names that the README lists as stripped but for `host` and `connection`, which the proxy sets
-- itself, and `proxy-authenticate`.
abbrev pub withheld : List Str
withheld =
    codes "authorization"
    ∷ codes "x-forwarded-for"
    ∷ codes "x-forwarded-host"
    ∷ codes "x-forwarded-proto"
    ∷ codes "x-forwarded-port"
    ∷ codes "x-real-ip"
    ∷ codes "forwarded"
    ∷ codes "via"
    ∷ codes "keep-alive"
    ∷ codes "proxy-authenticate"
    ∷ codes "proxy-authorization"
    ∷ codes "te"
    ∷ codes "trailer"
    ∷ codes "transfer-encoding"
    ∷ codes "content-length"
    ∷ []

get_all-keep_if :
    (keep : (Str × Str) → Bool) (name : Str) (headers : HeaderMap)
    → ((v : Str) → keep (name, v) ≡ false)
    → get_all name (keep_if keep headers) ≡ []
unfolding get_all keep_if
get_all-keep_if keep name [] h = refl
get_all-keep_if keep name ((k, v) ∷ headers) h = elim (Bool-cases (keep (k, v))) [
  | inr off ↦ rw off (get_all-keep_if keep name headers h)
  | inl on ↦ elim (Bool-cases (str_eq k name)) [
    | inl same ↦
        let e : k ≡ name = (str_eq_iff k name).0 same in ground (arith, on, rw e at on, h v)
    | inr other ↦ rw (on, other) (get_all-keep_if keep name headers h)
  ]
]

-- No header of a name that is not forwarded is left.
dropped :
    (name : Str) (headers : HeaderMap)
    → ((v : Str) → is_forwarded (name, v) ≡ false)
    → get_all name (forward_headers headers) ≡ []
unfolding forward_headers
dropped name headers h = get_all-keep_if is_forwarded name headers h

-- The headers in front of the forwarded ones, with the value of `connection`.
abbrev pub own_headers : Str → Option Str → HeaderMap
own_headers connection u =
    (codes "host", codes "docker.proxy") ∷ (codes "connection", connection) ∷ upgrade_header u

abbrev pub sent_headers : Str → Option Str → HeaderMap → HeaderMap
sent_headers connection u headers = own_headers connection u ++ forward_headers headers

abbrev pub values_of : Option Str → List Str
values_of none = []
values_of (some v) = v ∷ []

-- No header of a withheld name, nor of one that the proxy sets, is forwarded.
none_withheld :
    (headers : HeaderMap) → All (λ name. get_all name (forward_headers headers) ≡ []) withheld
unfolding str_eq any
none_withheld headers = (
  dropped _ headers (λ v. refl),
  (
    dropped _ headers (λ v. refl),
    (
      dropped _ headers (λ v. refl),
      (
        dropped _ headers (λ v. refl),
        (
          dropped _ headers (λ v. refl),
          (
            dropped _ headers (λ v. refl),
            (
              dropped _ headers (λ v. refl),
              (
                dropped _ headers (λ v. refl),
                (
                  dropped _ headers (λ v. refl),
                  (
                    dropped _ headers (λ v. refl),
                    (
                      dropped _ headers (λ v. refl),
                      (
                        dropped _ headers (λ v. refl),
                        (
                          dropped _ headers (λ v. refl),
                          (dropped _ headers (λ v. refl), (dropped _ headers (λ v. refl), tt)),
                        ),
                      ),
                    ),
                  ),
                ),
              ),
            ),
          ),
        ),
      ),
    ),
  ),
)

-- Of the caller's headers none has a withheld name, and those of the proxy stand alone.
pub sent_headers_lem :
    (connection : Str) (u : Option Str) (headers : HeaderMap)
    → All (λ name. get_all name (sent_headers connection u headers) ≡ []) withheld
      × (get_all (codes "host") (sent_headers connection u headers) ≡ codes "docker.proxy" ∷ [])
      × (get_all (codes "connection") (sent_headers connection u headers) ≡ connection ∷ [])
      × (get_all (codes "upgrade") (sent_headers connection u headers) ≡ values_of u)
unfolding get_all str_eq any
sent_headers_lem connection none headers = (
  none_withheld headers,
  rw (dropped (codes "host") headers (λ v. refl)) refl,
  rw (dropped (codes "connection") headers (λ v. refl)) refl,
  dropped (codes "upgrade") headers (λ v. refl),
)
sent_headers_lem connection (some u) headers = (
  none_withheld headers,
  rw (dropped (codes "host") headers (λ v. refl)) refl,
  rw (dropped (codes "connection") headers (λ v. refl)) refl,
  rw (dropped (codes "upgrade") headers (λ v. refl)) refl,
)
