-- ===== src/Proxy/Headers.antt =====
-- The headers in `handle` and `handle_upgrade` of src/main.rs: those that the rules see, those that
-- go to the daemon, and those that come back.
pub mod Dropped
use docker_proxy.Common.{
  Bool, true, false, not, ◌&&◌, ◌||◌, if◌then◌else◌, Option, none, some, List, [], ◌∷◌, ◌++◌, Str,
  codes, str_eq, any, keep_if, HashMap, get, insert,
}
use docker_proxy.Externals.{Externals}
use docker_proxy.Headers.{HeaderMap}

abbrev pub hop_by_hop_headers : List Str
hop_by_hop_headers =
    codes "connection"
    ∷ codes "keep-alive"
    ∷ codes "proxy-authenticate"
    ∷ codes "proxy-authorization"
    ∷ codes "te"
    ∷ codes "trailer"
    ∷ codes "transfer-encoding"
    ∷ codes "content-length"
    ∷ []

abbrev pub client_forward_drop_headers : List Str
client_forward_drop_headers =
    codes "authorization"
    ∷ codes "host"
    ∷ codes "x-forwarded-for"
    ∷ codes "x-forwarded-host"
    ∷ codes "x-forwarded-proto"
    ∷ codes "x-forwarded-port"
    ∷ codes "x-real-ip"
    ∷ codes "forwarded"
    ∷ codes "via"
    ∷ []

abbrev pub is_one_of : List Str → Str → Bool
is_one_of names name = any (λ n. str_eq n name) names

abbrev pub is_hop_by_hop : Str → Bool
is_hop_by_hop name = is_one_of hop_by_hop_headers name

-- `entry(name).or_insert_with(..)`.
abbrev pub or_insert : Str → Str → HashMap Str → HashMap Str
or_insert name v m = elim (get name m) [ none ↦ insert name v m | some _ ↦ m ]

-- The loop that fills the map of the rules.
unfoldable pub collect_headers : Externals → HeaderMap → HashMap Str → HashMap Str
collect_headers x [] m = m
collect_headers x ((k, v) ∷ headers) m =
    collect_headers x headers (elim (x.to_str v) [ none ↦ m | some s ↦ or_insert k s m ])

abbrev pub is_forwarded : (Str × Str) → Bool
is_forwarded (name, _) =
    not (is_hop_by_hop name)
    && (not (is_one_of client_forward_drop_headers name) && not (str_eq name (codes "upgrade")))

unfoldable pub forward_headers : HeaderMap → HeaderMap
forward_headers headers = keep_if is_forwarded headers

abbrev pub is_returned : (Str × Str) → Bool
is_returned (name, _) = not (is_hop_by_hop name) && not (str_eq name (codes "content-length"))

unfoldable pub return_headers : HeaderMap → HeaderMap
return_headers headers = keep_if is_returned headers

-- The content type of the daemon, where it does not stand among the returned headers.
unfoldable pub response_headers : HeaderMap → Str → HeaderMap
unfolding return_headers
response_headers upstream content_type =
    let returned = return_headers upstream in
    if any (λ (name, _). str_eq name (codes "content-type")) returned
    then returned
    else returned ++ (codes "content-type", content_type) ∷ []

-- Of a response that switches protocols.
abbrev pub is_switched : (Str × Str) → Bool
is_switched (name, _) =
    not (str_eq name (codes "content-length"))
    && (not (is_hop_by_hop name)
        || (str_eq name (codes "connection") || str_eq name (codes "upgrade")))

unfoldable pub switched_headers : HeaderMap → HeaderMap
switched_headers headers = keep_if is_switched headers
