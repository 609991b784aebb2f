-- ===== src/ClientIp/Forwarding.antt =====
-- The address behind a chain of trusted proxies in `compute_client_ip` of src/main.rs.
use docker_proxy.Common.{
  ◌≡◌, refl, ◌∙◌, true, false, none, some, List, [], ◌∷◌, ◌++◌, Str, codes, All, IsFree, split,
  join, split-join, trim, rfind_map, rfind_map-append,
}
use docker_proxy.Externals.{Externals}
use docker_proxy.Headers.{HeaderMap, text_of}
use docker_proxy.ClientIp.{compute_client_ip, untrusted_entry, is_trusted}

split-join_parts :
    (xs ys : List Str) (e : Str)
    → All (IsFree b',') (xs ++ e ∷ ys)
    → split b',' (join (codes ",") (xs ++ e ∷ ys)) ≡ xs ++ e ∷ ys
split-join_parts [] ys e h = split-join b',' e ys h
split-join_parts (x ∷ xs) ys e h = split-join b',' x (xs ++ e ∷ ys) h

module _ (x : Externals) (trusted : List Str) where
  skipped :
      (entries : List Str)
      → All (λ e. untrusted_entry x trusted e ≡ none) entries
      → rfind_map (untrusted_entry x trusted) entries ≡ none
  unfolding rfind_map
  skipped [] h = refl
  skipped (e ∷ entries) (h, hs) = rw (skipped entries hs, h) refl

  last_untrusted :
      (front back : List Str) (client ip : Str)
      → untrusted_entry x trusted client ≡ some ip
      → All (λ e. untrusted_entry x trusted e ≡ none) back
      → rfind_map (untrusted_entry x trusted) (front ++ client ∷ back) ≡ some ip
  unfolding rfind_map
  last_untrusted front back client ip found h =
      rfind_map-append (untrusted_entry x trusted) front (client ∷ back)
      ∙ rw (skipped back h, found) refl

  -- Where the peer is a trusted proxy and there is no `X-Real-Ip`, the client's address is the last
  -- entry of `X-Forwarded-For` that is an address of no trusted proxy: entries in front of it, which
  -- the client may have made up, and entries of proxies behind it change nothing.
  pub compute_client_ip_forwarded :
      (peer : Str) (headers : HeaderMap) (front back : List Str) (client ip : Str)
      → is_trusted x trusted peer ≡ true
      → text_of x (codes "x-real-ip") headers ≡ none
      → text_of x (codes "x-forwarded-for") headers
        ≡ some (join (codes ",") (front ++ client ∷ back))
      → All (IsFree b',') (front ++ client ∷ back)
      → x.parse_ip (trim client) ≡ some ip
      → is_trusted x trusted ip ≡ false
      → All (λ e. untrusted_entry x trusted e ≡ none) back
      → compute_client_ip x peer headers trusted ≡ ip
  unfolding compute_client_ip untrusted_entry
  compute_client_ip_forwarded peer headers front back client ip known real chain free parsed outside
        h =
      let entry : untrusted_entry x trusted client ≡ some ip = rw (parsed, outside) refl in
      rw
        (
          known,
          real,
          chain,
          split-join_parts front back client free,
          last_untrusted front back client ip entry h,
        )
        refl
