-- ===== src/Tests/Requests.antt =====
-- Requests from the authentication to the daemon.
use docker_proxy.Common.{
  ℕ, ◌≡◌, refl, true, false, none, some, List, [], ◌∷◌, ◌++◌, Str, codes, arith, get, str_eq, any,
  starts_with, strip_prefix, find_map, keep_if, split, join, split_once, all, ends_with, but_last,
  ◌⊎◌, All,
}
use docker_proxy.Config.{ProxyConfig, AuthConfig, TokenEntry, default_config}
use docker_proxy.Headers.{HeaderMap, text_of, get_all}
use docker_proxy.Metrics.{new_metrics}
use docker_proxy.Audit.{disabled, AuditEvent, new_event}
use docker_proxy.AuthLimiter.{is_blocked}
use docker_proxy.Auth.{
  authenticate_bearer, AuthState, allowed, denied, authenticate, extract_bearer_token,
  resolve_token_role, is_auth_strictly_configured, constant_time_eq, token,
}
use docker_proxy.Auth.Credentials.{IsGranted, resolve_token_role_sound}
use docker_proxy.Auth.Outcomes.{authenticate_allowed}
use docker_proxy.Auth.Outcomes.Guessing.{guess, ten_guesses_lock}
use docker_proxy.Proxy.{ProxyState, HttpRequest, Arrival, UpstreamRequest, read}
use docker_proxy.Proxy.Exchange.{exchange, Daemon, connected, replied}
use docker_proxy.Proxy.Handle.{Rendering, handle, path_and_query}
use docker_proxy.Proxy.Handle.Forwarded.{IsPassed, handle_forwards, handle_drops}
use docker_proxy.Proxy.Handle.Frames.{IsKept}
use docker_proxy.Proxy.Handle.Kept.{handle-IsKept}
use docker_proxy.Proxy.Handle.Ends.{Ends}
use docker_proxy.Proxy.Handle.Endings.{handle-Ends}
use docker_proxy.Path.{canonicalize_path}
use docker_proxy.Upgrade.{is_upgrade_request}
use docker_proxy.Rules.Decision.{evaluate_request_detailed}
use docker_proxy.Proxy.Headers.{forward_headers}
use docker_proxy.Proxy.Headers.Dropped.{withheld, values_of}
use docker_proxy.Tests.{plain}

abbrev peer : Str
peer = codes "10.0.0.7"

abbrev ci_token : TokenEntry
ci_token = record { token = codes "s3cret"; role = some (codes "ci") }

abbrev auth : AuthConfig
auth = record {
  auth_type = some (codes "bearer");
  secret = none;
  tokens = some (ci_token ∷ []);
  mtls = none;
}

abbrev config : ProxyConfig
config = record default_config { auth = some auth }

abbrev bearing : Str → HeaderMap
bearing t = (codes "authorization", codes "Bearer " ++ t) ∷ (codes "accept", codes "*/*") ∷ []

abbrev fresh : AuthState
fresh = record { auth_limiter = []; metrics = new_metrics }

resolve_token_role_sound_example : IsGranted config [] (codes "s3cret") (codes "ci")
unfolding resolve_token_role constant_time_eq find_map
resolve_token_role_sound_example =
    resolve_token_role_sound config [] (codes "s3cret") (codes "ci") (omega arith)
      ((omega arith, tt), tt) refl

let_in :
    (authenticate plain 5 config [] (bearing (codes "s3cret")) peer none fresh).0
    ≡ allowed (some (codes "ci")) none
unfolding authenticate is_blocked get str_eq authenticate_bearer is_auth_strictly_configured any
    extract_bearer_token strip_prefix resolve_token_role find_map constant_time_eq
let_in = refl

authenticate_allowed_example : is_blocked 5 peer [] ≡ false
authenticate_allowed_example =
    (authenticate_allowed plain 5 config [] (bearing (codes "s3cret")) peer none (some (codes "ci"))
      none fresh let_in).0

abbrev rendering : Rendering
rendering = record { is_update_path = λ path. false; json_error = λ body. [] }

abbrev daemon : Daemon
daemon = record {
  connect = connected;
  handshake = true;
  request_builds = λ r. true;
  response_builds = λ r. true;
  send_request = λ r. replied (record { status = 200; headers = []; body = read (codes "ok") });
  elapsed_ms = 3;
}

abbrev state : ProxyState
state = record {
  env_secret = [];
  config = config;
  rate_limiter = [];
  auth = fresh;
  audit = disabled;
  metrics_path = none;
}

abbrev arrival : Arrival
arrival = record { peer = peer; cert = none; at_auth = 5; at_rules = 6 }

abbrev request : HttpRequest
request = record {
  method = codes "GET";
  path = codes "/v1.43/info";
  query = none;
  headers = bearing (codes "s3cret");
  body = read [];
}

abbrev sent : UpstreamRequest
sent = record {
  method = codes "GET";
  uri = codes "/info";
  headers =
      (codes "host", codes "docker.proxy")
      ∷ (codes "connection", codes "close")
      ∷ (codes "accept", codes "*/*")
      ∷ [];
  body = [];
}

passes : (handle plain rendering daemon arrival request state).forwarded ≡ some sent
unfolding handle canonicalize_path starts_with any authenticate is_blocked get str_eq
    authenticate_bearer is_auth_strictly_configured extract_bearer_token resolve_token_role find_map
    constant_time_eq is_upgrade_request evaluate_request_detailed exchange path_and_query
    forward_headers strip_prefix split_once all ends_with join split but_last keep_if
passes = refl

handle_forwards_example : IsPassed plain rendering daemon arrival request state sent
handle_forwards_example = handle_forwards plain rendering daemon arrival request state sent passes

handle_drops_example :
    All (λ name. get_all name sent.headers ≡ []) withheld
    × (get_all (codes "host") sent.headers ≡ codes "docker.proxy" ∷ [])
    × (((get_all (codes "connection") sent.headers ≡ codes "close" ∷ [])
          × (get_all (codes "upgrade") sent.headers ≡ []))
        ⊎ ((is_upgrade_request plain request.headers ≡ true)
            × (get_all (codes "connection") sent.headers ≡ codes "upgrade" ∷ [])
            × (get_all (codes "upgrade") sent.headers
                ≡ values_of (text_of plain (codes "upgrade") request.headers))))
handle_drops_example = handle_drops plain rendering daemon arrival request state sent passes

handle-IsKept_example : IsKept config 1 (handle plain rendering daemon arrival request state).state
handle-IsKept_example =
    handle-IsKept plain rendering daemon arrival request state
      (record { distinct = tt; bounded = omega arith })
      (record { distinct = tt; bounded = omega arith })

handle-Ends_example :
    Ends plain rendering daemon arrival request state
      (handle plain rendering daemon arrival request state)
handle-Ends_example = handle-Ends plain rendering daemon arrival request state

-- Nothing is presented: no headers.
no_token :
    (t : Str) → extract_bearer_token plain [] ≡ token t → resolve_token_role config [] t ≡ none
unfolding extract_bearer_token
no_token t e = ground arith

abbrev eight_guesses : List (ℕ × HeaderMap)
eight_guesses =
    (6, []) ∷ (7, []) ∷ (8, []) ∷ (9, []) ∷ (10, []) ∷ (11, []) ∷ (12, []) ∷ (13, []) ∷ []

ten_guesses_lock_example :
    let after =
      (authenticate plain 14 config [] [] peer none
        (guess plain config [] peer ((5, []) ∷ eight_guesses) fresh)).1 in
    authenticate plain 20 config [] (bearing (codes "s3cret")) peer none after
    ≡ (denied 429 (codes "Too many authentication failures"), after)
unfolding is_auth_strictly_configured any str_eq get
ten_guesses_lock_example =
    ten_guesses_lock plain config [] peer (refl, refl, refl) 5 [] eight_guesses 14 [] fresh refl
      (omega arith) no_token
      (
        (no_token, omega arith),
        (
          (no_token, omega arith),
          (
            (no_token, omega arith),
            (
              (no_token, omega arith),
              (
                (no_token, omega arith),
                ((no_token, omega arith), ((no_token, omega arith), ((no_token, omega arith), tt))),
              ),
            ),
          ),
        ),
      )
      no_token (omega arith) refl 20 (bearing (codes "s3cret")) none (omega arith)

abbrev event : AuditEvent
event = new_event "deny" peer (codes "GET") (codes "/info") (codes "-")
