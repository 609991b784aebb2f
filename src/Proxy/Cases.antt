-- ===== src/Proxy/Cases.antt =====
-- The cases of what `handle` of src/main.rs looks at: a body that was read, the outcome of
-- `authenticate`, and the result of the rules.
use docker_proxy.Common.{ℕ, ◌≡◌, refl, ◌⊎◌, inl, inr, Option, Str}
use docker_proxy.Auth.{AuthOutcome, allowed, denied}
use docker_proxy.Rules.Decision.{RuleResult, allow, deny}
use docker_proxy.Proxy.{BodyRead, read, too_large, failed, timed_out}

pub BodyRead-cases :
    (b : BodyRead) → ((s : Str) × (b ≡ read s)) ⊎ (b ≡ too_large) ⊎ (b ≡ failed) ⊎ (b ≡ timed_out)
BodyRead-cases (read s) = inl (s, refl)
BodyRead-cases too_large = inr (inl refl)
BodyRead-cases failed = inr (inr (inl refl))
BodyRead-cases timed_out = inr (inr (inr refl))

pub RuleResult-cases :
    (r : RuleResult) → (r ≡ allow) ⊎ ((status : ℕ) × (message : Str) × (r ≡ deny status message))
RuleResult-cases allow = inl refl
RuleResult-cases (deny status message) = inr (status, message, refl)

pub AuthOutcome-cases :
    (o : AuthOutcome)
    → ((role : Option Str) × (identity : Option Str) × (o ≡ allowed role identity))
      ⊎ ((status : ℕ) × (message : Str) × (o ≡ denied status message))
AuthOutcome-cases (allowed role identity) = inl (role, identity, refl)
AuthOutcome-cases (denied status message) = inr (status, message, refl)
