-- ===== src/Headers.antt =====
-- `HeaderMap` of crate hyper as src/main.rs and src/upgrade.rs read it: names in lower case with the
-- bytes of their values, in the order of `iter`.
use docker_proxy.Common.{Option, ◌>>=◌, List, [], ◌∷◌, Str, str_eq, if◌then◌else◌, get}
use docker_proxy.Externals.{Externals}

abbrev pub HeaderMap : Type 0
HeaderMap = List (Str × Str)

-- `HeaderMap::get_all`.
unfoldable pub get_all : Str → HeaderMap → List Str
get_all name [] = []
get_all name ((k, v) ∷ headers) =
    let rest = get_all name headers in if str_eq k name then v ∷ rest else rest

-- `headers.get(name).and_then(|v| v.to_str().ok())`.
abbrev pub text_of : Externals → Str → HeaderMap → Option Str
text_of x name headers = get name headers >>= x.to_str
