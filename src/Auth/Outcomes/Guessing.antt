-- ===== src/Auth/Outcomes/Guessing.antt =====
-- Guessing tokens against `authenticate` of src/main.rs.
use docker_proxy.Common.{
  ℕ, suc, ◌+◌, ◌-◌, ◌≤◌, ◌<◌, ◌≡◌, refl, ap, ◌∙◌, inl, inr, true, false, Option, none, some, List,
  [], ◌∷◌, arith, Str, codes, All, length, get, get-insert, str_eq_refl, ltb,
}
use docker_proxy.Externals.{Externals}
use docker_proxy.Config.{ProxyConfig}
use docker_proxy.Headers.{HeaderMap}
use docker_proxy.AuthLimiter.{AuthLimiter, is_blocked, record_failure, max_auth_limiter_keys}
use docker_proxy.AuthLimiter.Lockout.{
  counting, run_failures, lockout_after_max, next_entry-counting, after_failure,
  record_failure_first,
}
use docker_proxy.Tls.{CertIdentity}
use docker_proxy.Auth.{
  AuthState, denied, authenticate, authenticate_bearer, token, extract_bearer_token,
  resolve_token_role, is_auth_strictly_configured, count_auth_failure, auth_fail_max,
  auth_fail_window, auth_fail_lockout,
}
use docker_proxy.Auth.Outcomes.{has_type, Bearer-cases}

module _ (x : Externals) (config : ProxyConfig) (env_secret peer : Str) where
  -- Headers with which nobody gets in.
  abbrev pub IsWrong : HeaderMap → Type 0
  IsWrong headers =
      (t : Str)
      → extract_bearer_token x headers ≡ token t
      → resolve_token_role config env_secret t ≡ none

  -- Requests of the address, each with its time and headers.
  abbrev pub Guess : Type 0
  Guess = ℕ × HeaderMap

  pub guess : List Guess → AuthState → AuthState
  guess [] s = s
  guess ((now, headers) ∷ more) s =
      guess more (authenticate x now config env_secret headers peer none s).1

  abbrev fails : ℕ → AuthLimiter → AuthLimiter
  fails now limiter =
      (record_failure now peer auth_fail_max auth_fail_window auth_fail_lockout limiter).1

  module _
      (bearer : (has_type config (codes "none") ≡ false)
        × (has_type config (codes "mtls") ≡ false)
        × (is_auth_strictly_configured config env_secret ≡ true)) where
    -- A wrong guess from an address that is not blocked is one failure of the address.
    wrong_guess :
        (now : ℕ) (headers : HeaderMap) (s : AuthState)
        → IsWrong headers
        → is_blocked now peer s.auth_limiter ≡ false
        → (authenticate x now config env_secret headers peer none s).1.auth_limiter
          ≡ fails now s.auth_limiter
    unfolding authenticate authenticate_bearer count_auth_failure
    wrong_guess now headers s wrong free =
        let (a, b, c) = bearer in
        elim (Bearer-cases (extract_bearer_token x headers)) [
          | inl (t, e) ↦ rw (free, a, b, c, e, wrong t e) refl
          | inr (inl e) ↦ rw (free, a, b, c, e) refl
          | inr (inr e) ↦ rw (free, a, b, c, e) refl
        ]

    abbrev IsNearby : ℕ → ℕ → Type 0
    IsNearby first now = now - first ≤ auth_fail_window

    abbrev IsGuess : ℕ → Guess → Type 0
    IsGuess first g = IsWrong g.1 × IsNearby first g.0

    abbrev times : List Guess → List ℕ
    times [] = []
    times ((now, _) ∷ more) = now ∷ times more

    length-times : (more : List Guess) → length (times more) ≡ length more
    length-times [] = refl
    length-times (g ∷ more) = ap suc (length-times more)

    near_times :
        (first : ℕ) (more : List Guess)
        → All (IsGuess first) more
        → All (IsNearby first) (times more)
    near_times first [] h = tt
    near_times first (g ∷ more) ((_, h), hs) = (h, near_times first more hs)

    free_counting :
        (n first now : ℕ) (limiter : AuthLimiter)
        → get peer limiter ≡ some (counting n first)
        → is_blocked now peer limiter ≡ false
    unfolding is_blocked
    free_counting n first now limiter known = rw known refl

    free_new :
        (now : ℕ) (limiter : AuthLimiter)
        → get peer limiter ≡ none
        → is_blocked now peer limiter ≡ false
    unfolding is_blocked
    free_new now limiter new = rw new refl

    abbrev failures : List ℕ → AuthLimiter → AuthLimiter
    failures = run_failures auth_fail_max auth_fail_window auth_fail_lockout peer

    guesses_count :
        (first n : ℕ) (more : List Guess) (s : AuthState)
        → get peer s.auth_limiter ≡ some (counting n first)
        → All (IsGuess first) more
        → n + length more < auth_fail_max
        → (guess more s).auth_limiter ≡ failures (times more) s.auth_limiter
    unfolding guess run_failures
    guesses_count first n [] s known h few = refl
    guesses_count first n ((now, headers) ∷ more) s known ((wrong, near), hs) few =
        let limiter = s.auth_limiter in
        let same = wrong_guess now headers s wrong (free_counting n first now limiter known) in
        let next =
          next_entry-counting auth_fail_max auth_fail_window auth_fail_lockout n first now near
            (omega arith) (omega arith) in
        let later : get peer (fails now limiter) ≡ some (counting (n + 1) first) =
          rw
            (
              after_failure auth_fail_max auth_fail_window auth_fail_lockout now peer
                  (counting n first) limiter known,
              next,
            )
            refl in
        guesses_count first (n + 1) more _ (rw same later) hs (omega arith) ∙ rw same refl

    first_failure :
        (first : ℕ) (limiter : AuthLimiter)
        → get peer limiter ≡ none
        → length limiter < max_auth_limiter_keys
        → get peer (fails first limiter) ≡ some (counting 1 first)
    first_failure first limiter new room =
        let start : first - first ≤ auth_fail_window = omega arith in
        let next =
          next_entry-counting auth_fail_max auth_fail_window auth_fail_lockout 0 first first start
            (omega arith) (omega arith) in
        ap (λ r. get peer r.1)
          (record_failure_first auth_fail_max auth_fail_window auth_fail_lockout first peer limiter
            new room)
        ∙ rw (get-insert peer peer _ limiter, str_eq_refl peer, next) refl

    -- The state after one wrong guess of an address with no entry, and wrong guesses after it.
    guesses_failures :
        (first : ℕ) (h : HeaderMap) (more : List Guess) (s : AuthState)
        → get peer s.auth_limiter ≡ none
        → length s.auth_limiter < max_auth_limiter_keys
        → IsWrong h
        → All (IsGuess first) more
        → 1 + length more < auth_fail_max
        → (guess ((first, h) ∷ more) s).auth_limiter ≡ failures (first ∷ times more) s.auth_limiter
    unfolding guess run_failures
    guesses_failures first h more s new room wrong hs few =
        let limiter = s.auth_limiter in
        let same = wrong_guess first h s wrong (free_new first limiter new) in
        let once = first_failure first limiter new room in
        guesses_count first 1 more _ (rw same once) hs few ∙ rw same refl

    locked_at :
        (u now : ℕ) (limiter : AuthLimiter)
        → ((v : ℕ) → is_blocked v peer (fails now limiter) ≡ ltb v (now + auth_fail_lockout))
        → u < now + auth_fail_lockout
        → is_blocked u peer (fails now limiter) ≡ true
    locked_at u now limiter h early = ground (arith, h u)

    refused :
        (u : ℕ) (headers : HeaderMap) (cert : Option CertIdentity) (s : AuthState)
        → is_blocked u peer s.auth_limiter ≡ true
        → authenticate x u config env_secret headers peer cert s
          ≡ (denied 429 (codes "Too many authentication failures"), s)
    unfolding authenticate
    refused u headers cert s blocked = rw blocked refl

    -- Where authentication is strictly configured and its type is neither `none` nor `mtls`, for an
    -- address that the table has no entry of, while the table has room: ten calls of `authenticate`
    -- with no certificate and no token that stands for a role, none later than a minute after the
    -- first, lock the address out. Until five minutes after the last of them every call for the
    -- address refuses with the status 429, whatever is presented, and leaves the limiter and the
    -- counters of `authenticate` as they are.
    pub ten_guesses_lock :
        (first : ℕ) (h : HeaderMap) (more : List Guess) (now : ℕ) (h' : HeaderMap) (s : AuthState)
        → get peer s.auth_limiter ≡ none
        → length s.auth_limiter < max_auth_limiter_keys
        → IsWrong h
        → All (IsGuess first) more
        → IsWrong h'
        → IsNearby first now
        → length more ≡ 8
        → let after =
            (authenticate x now config env_secret h' peer none (guess ((first, h) ∷ more) s)).1 in
          (u : ℕ) (headers : HeaderMap) (cert : Option CertIdentity)
          → u < now + auth_fail_lockout
          → authenticate x u config env_secret headers peer cert after
            ≡ (denied 429 (codes "Too many authentication failures"), after)
    ten_guesses_lock first h more now h' s new room wrong hs wrong' near eight u headers cert
          early =
        let before = guess ((first, h) ∷ more) s in
        let run : before.auth_limiter ≡ failures (first ∷ times more) s.auth_limiter =
          guesses_failures first h more s new room wrong hs (omega (arith, eight)) in
        let enough : length (times more) + 2 ≡ auth_fail_max =
          omega (arith, length-times more, eight) in
        let (free, _, locked) =
          lockout_after_max auth_fail_max auth_fail_window auth_fail_lockout peer first (times more)
            now s.auth_limiter new room enough (omega arith) (near_times first more hs) near in
        let last = wrong_guess now h' before wrong' (rw run (free now)) in
        refused u headers cert _ (rw (last, run) (locked_at u now _ locked early))
