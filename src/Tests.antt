-- ===== src/Tests.antt =====
-- Concrete data for the tests: a library of simple functions in place of the packages that the
-- program calls, a configuration with a token, and a request.
pub mod Paths
pub mod Limits
pub mod Bodies
pub mod Decisions
pub mod Requests
pub mod Setup
pub mod Outputs
pub mod Process
use docker_proxy.Common.{
  ℕ, ◌*◌, ◌/◌, ◌+◌, ◌-◌, min, Bool, true, false, Option, none, some, List, [], ◌∷◌, Str, codes,
  is_empty, starts_with, contains, if◌then◌else◌, ltb, leb, ◌==◌,
}
use docker_proxy.Json.{Json, object, end, field, null}
use docker_proxy.Externals.{Externals, f64_one}

abbrev pub non_empty : Str → Option Str
non_empty s = if is_empty s then none else some s

-- Every text is an address, a prefix is the beginning of the addresses it holds, every body that
-- starts with `{` is `{}`, and a float is a multiple of the bits of 1.0.
abbrev pub plain : Externals
plain = record {
  regex_new = λ p. true;
  is_match = λ p s. contains s p;
  to_str = λ s. some s;
  parse_ip = non_empty;
  parse_net = non_empty;
  net_contains = λ net ip. starts_with ip net;
  from_slice = λ s. if starts_with s (codes "{") then some (object end) else none;
  to_vec = λ v. some (codes "{}");
  json_to_string = λ v. codes "{}";
  f64_eq = λ a b. a == b;
  f64_lt = ltb;
  f64_le = leb;
  f64_add = λ a b. a + b;
  f64_sub = λ a b. a - b;
  f64_mul = λ a b. a * b / f64_one;
  f64_div = λ a b. a * f64_one / b;
  f64_min = min;
  f64_of_u64 = λ n. n * f64_one;
  as_secs_f64 = λ n. n * f64_one / 1_000_000_000;
}
