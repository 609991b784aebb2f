-- ===== src/Externals.antt =====
-- What the program calls outside its repository, as arguments of the model: regular expressions
-- (crate regex), network prefixes (crate ipnet), JSON text (crate serde_json), header values
-- (crate hyper), 64-bit floats and
-- the text forms of IP addresses. A compiled `Regex` is named by its pattern, an `IpAddr` by the
-- text that `to_string` gives, an `IpNet` by the text it was parsed from, an `f64` by its bits.
use docker_proxy.Common.{ℕ, ◌*◌, Bool, Option, Str}
use docker_proxy.Json.{Json}

pub record Externals : Type 0 where
  -- `Regex::new(pattern).is_ok()`, and `Regex::is_match`.
  pub regex_new : Str → Bool
  pub is_match : Str → Str → Bool
  -- `HeaderValue::to_str`.
  pub to_str : Str → Option Str
  -- `text.parse::<IpAddr>()`, read back as `to_string` prints it.
  pub parse_ip : Str → Option Str
  -- `text.parse::<IpNet>()` and `IpNet::contains`.
  pub parse_net : Str → Option Str
  pub net_contains : Str → Str → Bool
  -- `serde_json::from_slice`, `to_vec` and `Value::to_string`.
  pub from_slice : Str → Option Json
  pub to_vec : Json → Option Str
  pub json_to_string : Json → Str
  -- `f64`: the tests `==`, `<` and `<=`, arithmetic, `min`, `as f64` and `Duration::as_secs_f64`,
  -- which reads nanoseconds.
  pub f64_eq : ℕ → ℕ → Bool
  pub f64_lt : ℕ → ℕ → Bool
  pub f64_le : ℕ → ℕ → Bool
  pub f64_add : ℕ → ℕ → ℕ
  pub f64_sub : ℕ → ℕ → ℕ
  pub f64_mul : ℕ → ℕ → ℕ
  pub f64_div : ℕ → ℕ → ℕ
  pub f64_min : ℕ → ℕ → ℕ
  pub f64_of_u64 : ℕ → ℕ
  pub as_secs_f64 : ℕ → ℕ

-- The literals 1.0 and 0.001 of the source, by their bits.
abbrev pub f64_one : ℕ
f64_one = 0x3ff0000000000000

abbrev pub f64_milli : ℕ
f64_milli = 0x3f50624dd2f1a9fc

-- `Duration::from_secs`, in nanoseconds.
abbrev pub from_secs : ℕ → ℕ
from_secs secs = secs * 1_000_000_000
