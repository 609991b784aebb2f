-- ===== src/Setup/Refused.antt =====
-- What becomes of the choice `none -- no authentication` of src/setup.rs: the configuration has no
-- section `auth`, and `authenticate` of src/main.rs refuses everyone.
use docker_proxy.Common.{
  ℕ, ◌≡◌, refl, ◌∙◌, sym, inl, inr, Option, none, some, List, [], ◌∷◌, Str, codes, arith,
  if◌then◌else◌, u16_mod, ltb, Bool, true, false, Option-cases, ap, ◌≢◌, Bool-cases,
}
use docker_proxy.Externals.{Externals}
use docker_proxy.Headers.{HeaderMap}
use docker_proxy.Tls.{CertIdentity}
use docker_proxy.Config.{ProxyConfig, AuthConfig, Rule}
use docker_proxy.AuthLimiter.{is_blocked}
use docker_proxy.Auth.{
  AuthState, AuthOutcome, allowed, denied, authenticate, authenticate_bearer,
  is_auth_strictly_configured,
}
use docker_proxy.Config.Check.{ok}
use docker_proxy.Config.Env.{Environment}
use docker_proxy.Config.Load.{Files, finish}
use docker_proxy.Config.Load.Secretless.{auth-finish}
use docker_proxy.Proxy.{ProxyState, Arrival, HttpRequest, with_metrics, add_requests}
use docker_proxy.Proxy.Exchange.{Daemon}
use docker_proxy.Proxy.Handle.{Rendering, handle}
use docker_proxy.Proxy.Handle.Forwarded.{handle_forwards}
use docker_proxy.Setup.{
  Answer, Ended, done, panicked, unfinished, Dialogue, pure, ◌>>=◌, ask_number, ask_text,
  ask_choice,
}
use docker_proxy.Setup.Dialogue.{ask_auth, ask_rules, setup, rules_or_none, global_config}

then_done {ℓ κ} :
    {A : Type ℓ} {B : Type κ} (f : A → Dialogue B) (e : Ended A) (b : B) (left : List Answer)
    → (elim e [ done a rest ↦ f a rest | panicked ↦ panicked | unfinished ↦ unfinished ])
      ≡ done b left
    → (a : A) × (rest : List Answer) × (e ≡ done a rest) × (f a rest ≡ done b left)
then_done f (done a rest) b left h = (a, rest, refl, h)
then_done f panicked b left h = ground (arith, h)
then_done f unfinished b left h = ground (arith, h)

-- A dialogue of two parts that gives something.
>>=-done {ℓ κ} :
    {A : Type ℓ} {B : Type κ} (m : Dialogue A) (f : A → Dialogue B) (answers : List Answer) (b : B)
    (left : List Answer)
    → (m >>= f) answers ≡ done b left
    → (a : A) × (rest : List Answer) × (m answers ≡ done a rest) × (f a rest ≡ done b left)
unfolding ◌>>=◌
>>=-done m f answers b left h = then_done f (m answers) b left h

number_then {ℓ} :
    {B : Type ℓ} (f : ℕ → Dialogue B) (bound n : ℕ) (rest : List Answer) (b : B)
    (left : List Answer)
    → (ask_number bound >>= f) (Answer.number n ∷ rest) ≡ done b left
    → f n rest ≡ done b left
unfolding ◌>>=◌ ask_number
number_then f bound n rest b left h = elim (Bool-cases (ltb n bound)) [
  | inl small ↦ rw (small, ask_number, ◌>>=◌) at h
  | inr large ↦ ground (arith, h, large)
]

text_then {ℓ} :
    {B : Type ℓ} (f : Str → Dialogue B) (s : Str) (rest : List Answer)
    → (ask_text >>= f) (Answer.text s ∷ rest) ≡ f s rest
unfolding ◌>>=◌ ask_text
text_then f s rest = refl

choice_then {ℓ} :
    {B : Type ℓ} (f : ℕ → Dialogue B) (i : ℕ) (rest : List Answer)
    → (ask_choice >>= f) (Answer.choice i ∷ rest) ≡ f i rest
unfolding ◌>>=◌ ask_choice
choice_then f i rest = refl

no_auth_then {ℓ} :
    {B : Type ℓ} (f : Option AuthConfig → Dialogue B) (fuel : ℕ) (rest : List Answer)
    → (ask_auth fuel 0 >>= f) rest ≡ f none rest
unfolding ◌>>=◌ ask_auth pure
no_auth_then f fuel rest = refl

module _ (fuel port : ℕ) (socket_path : Str) (config : ProxyConfig) (left : List Answer) where
  abbrev finished : Option AuthConfig → List Rule → ProxyConfig
  finished auth rules = record {
    global = some (global_config port socket_path);
    auth = auth;
    rules = rules_or_none rules;
  }

  finished_auth :
      (auth : Option AuthConfig) (rest : List Answer)
      → (ask_rules fuel >>= λ rules. pure (finished auth rules)) rest ≡ done config left
      → config.auth ≡ auth
  unfolding pure
  finished_auth auth rest h =
      let (rules, r, asked, e) = >>=-done (ask_rules fuel) _ rest config left h in ground (arith, e)

  -- The configuration that the first choice leads to.
  setup_without_auth :
      (rest : List Answer)
      → setup fuel (Answer.number port ∷ Answer.text socket_path ∷ Answer.choice 0 ∷ rest)
        ≡ done config left
      → config.auth ≡ none
  unfolding setup
  setup_without_auth rest h =
      let numbered = number_then _ u16_mod port _ config left h in
      let named = sym (text_then _ socket_path _) ∙ numbered in
      let chosen = sym (choice_then _ 0 rest) ∙ named in
      finished_auth none rest (sym (no_auth_then _ fuel rest) ∙ chosen)

-- With no section `auth` and no secret in the environment nobody is let in.
authenticate_without_auth :
    (x : Externals) (now : ℕ) (config : ProxyConfig) (headers : HeaderMap) (peer : Str)
    (cert : Option CertIdentity) (s : AuthState)
    → config.auth ≡ none
    → authenticate x now config [] headers peer cert s ≡ (
        if is_blocked now peer s.auth_limiter
        then (denied 429 (codes "Too many authentication failures"), s)
        else (denied 401 (codes "Authentication is not configured"), s))
unfolding authenticate authenticate_bearer is_auth_strictly_configured
authenticate_without_auth x now config headers peer cert s none_set = rw none_set refl

refused_if_blocked :
    (blocked : Bool) (s : AuthState) (r : AuthOutcome × AuthState) (role identity : Option Str)
    → r ≡ (
        if blocked
        then (denied 429 (codes "Too many authentication failures"), s)
        else (denied 401 (codes "Authentication is not configured"), s))
    → r.0 ≢ allowed role identity
refused_if_blocked true s r role identity e let_in = cc (ap (λ q. q.0) e, let_in)
refused_if_blocked false s r role identity e let_in = cc (ap (λ q. q.0) e, let_in)

-- With no section `auth` and no secret in the environment nothing is sent to the daemon.
none_forwarded :
    (x : Externals) (p : Rendering) (d : Daemon) (at : Arrival) (req : HttpRequest) (s : ProxyState)
    → s.config.auth ≡ none
    → s.env_secret ≡ []
    → (handle x p d at req s).forwarded ≡ none
none_forwarded x p d at req s unset no_secret =
    elim (Option-cases (handle x p d at req s).forwarded) [
      | inl silent ↦ silent
      | inr (sent, sends) ↦
          let (path, role, identity, _, _, entered, _) =
            handle_forwards x p d at req s sent sends in
          let refusal =
            authenticate_without_auth x at.at_auth s.config req.headers at.peer at.cert
              (with_metrics add_requests s).auth unset in
          absurd (refused_if_blocked _ _ _ role identity refusal (rw no_secret at entered))
    ]

-- The choice of no authentication, the first in the list, writes a configuration without `auth`. When
-- the proxy has loaded it, with no secret in the environment, `authenticate` answers 401
-- "Authentication is not configured", or 429 to an address that is locked out, and leaves the limiter
-- and the counters of its state as they are; and `handle` sends no request to the daemon.
pub setup-none_refuses :
    (fuel port : ℕ) (socket_path : Str) (rest : List Answer) (config : ProxyConfig)
    (left : List Answer)
    → setup fuel (Answer.number port ∷ Answer.text socket_path ∷ Answer.choice 0 ∷ rest)
      ≡ done config left
    → (x : Externals) (env : Environment) (files : Files) (loaded : ProxyConfig)
    → env.var (codes "DOCKER_PROXY_SECRET") ≡ none
    → finish x env files config ≡ ok loaded
    → (p : Rendering) (d : Daemon) (at : Arrival) (req : HttpRequest) (s : ProxyState)
    → s.config ≡ loaded
    → s.env_secret ≡ []
    → (loaded.auth ≡ none)
      × (authenticate x at.at_auth s.config s.env_secret req.headers at.peer at.cert s.auth ≡ (
          if is_blocked at.at_auth at.peer s.auth.auth_limiter
          then (denied 429 (codes "Too many authentication failures"), s.auth)
          else (denied 401 (codes "Authentication is not configured"), s.auth)))
      × ((handle x p d at req s).forwarded ≡ none)
setup-none_refuses fuel port socket_path rest config left h x env files loaded no_var finished p d
      at req s in_force no_secret =
    let unset =
      auth-finish x env files config loaded
        (setup_without_auth fuel port socket_path config left rest h) no_var finished in
    let here : s.config.auth ≡ none = rw in_force unset in
    (
      unset,
      rw no_secret
          (authenticate_without_auth x at.at_auth s.config req.headers at.peer at.cert s.auth here),
      none_forwarded x p d at req s here no_secret,
    )
