-- ===== src/Lib.antt =====
-- docker-proxy: an HTTP proxy in front of the socket of the Docker daemon. A request is authenticated,
-- its path is brought to a canonical form, the rules of the configuration decide on it, and what they
-- allow is sent to the daemon; the daemon's answer comes back through the response filters.
--
-- The modules, and the code that they model:
--
--   Path            src/main.rs: percent_decode, strip_api_version_prefix, canonicalize_path.
--   ClientIp        src/main.rs: parse_trusted_proxies, compute_client_ip.
--   Auth            src/main.rs: constant_time_eq, extract_bearer_token, resolve_token_role,
--                   is_auth_strictly_configured, authenticate.
--   AuthLimiter     src/rules.rs: AuthLimiter, the failures of each address and its lockout.
--   RateLimiter     src/rules.rs: RateLimiter, a token bucket with a penalty for each key.
--   Rules           src/rules.rs: Conditions (match_path_condition and its kin, evaluate_condition),
--                   Nodes (evaluate_node), Decision (evaluate_request_detailed), Filters
--                   (collect_response_filters, apply_response_filters).
--   Json, Yaml      the values of serde_json and serde_yaml, and json_get, json_get_mut and
--                   json_remove of src/rules.rs.
--   Config          src/config.rs: the records, and in Check validate and compile_regexes, in Sort
--                   sort_rules_by_priority, in Env expand_env, resolve_env_vars and
--                   apply_env_overrides, in Load load and load_from_path.
--   Tls             src/tls.rs: cn_match, resolve_mtls_role; in Server build_server_config, load_certs,
--                   load_private_key, extract_identity.
--   Upgrade         src/upgrade.rs.
--   Metrics         src/metrics.rs: the counters; in Render render_prometheus and escape_label.
--   Audit           src/audit.rs: AuditEvent and AuditSink; in Writer the task that writes the file.
--   Headers         hyper's HeaderMap as the program reads it.
--   Proxy           src/main.rs: handle and handle_upgrade. Handle goes from the request to the
--                   decision, Decisions has what is counted and recorded of it, Exchange and Upgrades
--                   the exchange with the daemon, Headers the headers on the way there and back, Tunnel
--                   the copying loops of an upgrade, Log sanitize_for_log and log_request.
--   Setup           src/setup.rs: the dialogue that writes a configuration; Templates its rules, Custom
--                   build_custom_rule, Dialogue its main function.
--   Process         src/main.rs: main. Arguments has its loop over the arguments, Start the way to the
--                   state that the requests share, Report render_effective_rules, Listener
--                   create_listener, Server the loop that accepts, cleans up and reloads
--                   (spawn_sighup_reloader) as a relation of steps.
--   Externals       what the program calls outside the repository.
--   Common          shared names, tests, lists, texts, maps and numbers.
--   Tests           concrete data, and the theorems at concrete inputs.
--
-- State is passed on explicitly: a limiter is an association list that a call takes and returns, and
-- ProxyState holds what a request reads and writes. A mutex makes each call of a limiter one step, so
-- the calls of many requests are a list of steps. Instants and durations are nanoseconds; Instant::now()
-- is an argument, read once for the authentication and once for the rules. Where the source adds to an
-- instant the sum is unbounded here, and it would panic there beyond the range of Instant. Counters are
-- below 2 ^ 64: fetch_add wraps around, saturating_add stops. usize has 64 bits. A loop is a
-- structural recursion over what it reads. Only the loops of the dialogue, which end by an answer, use
-- fuel: each round takes at least one answer, so more fuel than there are answers is enough. The server
-- handles a request in one step, so the requests of its connections are a sequence of steps; the
-- semaphore of tokio is an argument, with named laws on how many permits are available.
--
-- A text is the list of its bytes, in Proxy/Log of its characters. trim is modelled for ASCII, which is all that to_str accepts. An f64
-- is its bit pattern, and its operations are arguments; RateLimiter/Burst names the laws of exact
-- arithmetic on integers below 2 ^ 53 that it uses. Regular expressions, addresses, prefixes, JSON and
-- YAML text, the environment, the file system and the daemon are arguments too: records of functions
-- (Externals, Environment, Files, Rendering, TlsLibrary, Semaphores) or values that say what happened (BodyRead, Daemon).
-- Errors of the configuration are their kind, without the text that names the rule.
--
-- Not modelled: log lines other than those of requests, the candidates of resolve_socket_path in a build
-- for macOS (the list is that of a build for Linux), sockets, TLS handshakes, the installation of
-- signal handlers, the tokio runtime, time stamps, serde's derived code, and the texts of the prompts of the
-- dialogue.
pub mod Common
pub mod Json
pub mod Yaml
pub mod Externals
pub mod Headers
pub mod Config
pub mod RateLimiter
pub mod AuthLimiter
pub mod Rules
pub mod Path
pub mod ClientIp
pub mod Tls
pub mod Upgrade
pub mod Metrics
pub mod Audit
pub mod Auth
pub mod Proxy
pub mod Setup
pub mod Process
pub mod Tests
