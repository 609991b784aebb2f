-- ===== src/Tests/Paths.antt =====
-- Paths, names and addresses.
use docker_proxy.Common.{
  ◌≤◌, ◌≡◌, refl, ◌↔◌, Bool, some, List, [], ◌∷◌, Str, codes, arith, get, str_eq, any, all, split,
  join, trim, starts_with, length, All, split_once, ends_with, but_last,
}
use docker_proxy.Path.{canonicalize_path, percent_decode, render_path, max_path_len}
use docker_proxy.Path.Segments.{IsPlain}
use docker_proxy.Path.Canonical.{IsPrintable, canonicalize_path_sound}
use docker_proxy.Path.Decoding.{Decodes, percent_decode_iff}
use docker_proxy.ClientIp.{compute_client_ip, untrusted_entry}
use docker_proxy.ClientIp.Forwarding.{compute_client_ip_forwarded}
use docker_proxy.Headers.{HeaderMap}
use docker_proxy.Tests.{plain}

climbing :
    canonicalize_path (codes "/v1.43/a/%2e%2e/../images//json/") ≡ some (codes "/images/json/")
unfolding canonicalize_path starts_with any split_once str_eq all ends_with join split but_last
climbing = refl

canonicalize_path_sound_example :
    ((segments : List Str) × (slash : Bool) × All IsPlain segments
      × (codes "/images/json/" ≡ render_path segments slash))
    × IsPrintable (codes "/images/json/")
    × (length (codes "/v1.43/a/%2e%2e/../images//json/") ≤ max_path_len)
canonicalize_path_sound_example =
    canonicalize_path_sound (codes "/v1.43/a/%2e%2e/../images//json/") (codes "/images/json/")
      climbing

abbrev plain_segments : List Str
plain_segments = codes "images" ∷ codes "json" ∷ []

plain_segments-IsPlain : All IsPlain plain_segments
plain_segments-IsPlain = (
  ((λ e. ground arith), (λ e. ground arith), (λ e. ground arith), ground arith),
  (((λ e. ground arith), (λ e. ground arith), (λ e. ground arith), ground arith), tt),
)

percent_decode_iff_example :
    (percent_decode (codes "%2e%2") ≡ some (codes ".")) ↔ Decodes (codes "%2e%2") (codes ".")
percent_decode_iff_example = percent_decode_iff (codes "%2e%2") (codes ".")

abbrev chain : HeaderMap
chain = (codes "x-forwarded-for", codes "6.6.6.6,9.9.9.9,10.0.0.2") ∷ []

compute_client_ip_forwarded_example :
    compute_client_ip plain (codes "10.0.0.1") chain (codes "10." ∷ []) ≡ codes "9.9.9.9"
unfolding get str_eq any starts_with join trim untrusted_entry
compute_client_ip_forwarded_example =
    compute_client_ip_forwarded plain (codes "10." ∷ []) (codes "10.0.0.1") chain
      (codes "6.6.6.6" ∷ []) (codes "10.0.0.2" ∷ []) (codes "9.9.9.9") (codes "9.9.9.9") refl refl
      refl (ground arith) refl refl (refl, tt)
