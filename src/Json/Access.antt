-- ===== src/Json/Access.antt =====
-- `json_get` and `json_get_mut` agree: a change is seen at its path and at no other.
use docker_proxy.Common.{
  if◌then◌else◌, ◌>>=◌, ◌≡◌, ◌≢◌, ◌⊎◌, refl, Option, none, some, inl, inr, arith, Str, split,
  split-ne-nil, Option-cases, List, [], ◌∷◌, is_empty, Bool-cases, false,
}
use docker_proxy.Json.{
  Json, child, with_child, json_get_at, json_get_mut_at, json_get, json_get_mut,
}
use docker_proxy.Json.Children.{IsApart, child-with_child_self, child-with_child}

-- Two paths that part at some segment.
abbrev pub Diverge : List Str → List Str → Type 0
Diverge [] q = ⊥
Diverge (a ∷ p) [] = ⊥
Diverge (a ∷ p) (b ∷ q) = IsApart a b ⊎ ((a ≡ b) × Diverge p q)

-- A change of what a path names, seen from outside.
pub record IsChange (root : Json) (path : List Str) (f : Json → Option Json) (after : Json)
    : Type 0 where
  pub old : Json
  pub new : Json
  pub found : json_get_at root path ≡ some old
  pub changed : f old ≡ some new
  pub seen : json_get_at after path ≡ some new

-- What a change under one segment consists of, where `inner` changes the child.
record IsStep (root : Json) (a : Str) (inner : Json → Option Json) (after : Json) : Type 0 where
  named : is_empty a ≡ false
  old : Json
  new : Json
  found : child root a ≡ some old
  changed : inner old ≡ some new
  same : after ≡ with_child root a new

change_child : Json → Str → (Json → Option Json) → Option Json
change_child root a inner =
    if is_empty a
    then none
    else child root a >>= λ v. inner v >>= λ new. some (with_child root a new)

change_child-IsStep :
    (root : Json) (a : Str) (inner : Json → Option Json) (after : Json)
    → change_child root a inner ≡ some after
    → IsStep root a inner after
unfolding change_child
change_child-IsStep root a inner after e = elim (Bool-cases (is_empty a)) [
  | inl empty ↦ ground (arith, empty)
  | inr named ↦ elim (Option-cases (child root a)) [
    | inl missing ↦ ground (arith, named, missing)
    | inr (v, found) ↦ elim (Option-cases (inner v)) [
      | inl refused ↦ ground (arith, named, found, refused)
      | inr (new, changed) ↦ record {
        named = named;
        old = v;
        new = new;
        found = found;
        changed = changed;
        same = ground (arith, named, found, changed);
      }
    ]
  ]
]

json_get_mut_at-IsChange :
    (root : Json) (path : List Str) (f : Json → Option Json) (after : Json)
    → json_get_mut_at root path f ≡ some after
    → IsChange root path f after
unfolding json_get_mut_at json_get_at change_child
json_get_mut_at-IsChange root [] f after e = cc
json_get_mut_at-IsChange root (a ∷ []) f after e =
    let s = change_child-IsStep root a f after e in
    let there = child-with_child_self root a s.old s.new s.found in
    record {
      old = s.old;
      new = s.new;
      found = ground (arith, s.named, s.found);
      changed = s.changed;
      seen = ground (arith, s.named, s.same, there);
    }
json_get_mut_at-IsChange root (a ∷ b ∷ path) f after e =
    let s = change_child-IsStep root a (λ v. json_get_mut_at v (b ∷ path) f) after e in
    let there = child-with_child_self root a s.old s.new s.found in
    let c = json_get_mut_at-IsChange s.old (b ∷ path) f s.new s.changed in
    record {
      old = c.old;
      new = c.new;
      found = rw (s.named, s.found) c.found;
      changed = c.changed;
      seen = rw (s.same, s.named, there) c.seen;
    }

-- Where nothing is found nothing is changed.
json_get_mut_at_missing :
    (root : Json) (path : List Str) (f : Json → Option Json)
    → path ≢ []
    → json_get_at root path ≡ none
    → json_get_mut_at root path f ≡ none
unfolding json_get_mut_at json_get_at
json_get_mut_at_missing root [] f h e = absurd (h refl)
json_get_mut_at_missing root (a ∷ []) f h e = ground arith
json_get_mut_at_missing root (a ∷ b ∷ path) f h e = elim (Option-cases (child root a)) [
  | inl missing ↦ ground (arith, missing)
  | inr (v, found) ↦ ground (arith, found, json_get_mut_at_missing v (b ∷ path) f (λ q. cc))
]

json_get_mut_at_found :
    (root : Json) (path : List Str) (f : Json → Option Json) (old new : Json)
    → path ≢ []
    → json_get_at root path ≡ some old
    → f old ≡ some new
    → (after : Json) × (json_get_mut_at root path f ≡ some after)
unfolding json_get_mut_at json_get_at
json_get_mut_at_found root [] f old new h e c = absurd (h refl)
json_get_mut_at_found root (a ∷ []) f old new h e c = elim (Bool-cases (is_empty a)) [
  | inl empty ↦ ground (arith, empty)
  | inr named ↦ elim (Option-cases (child root a)) [
    | inl missing ↦ ground (arith, named, missing)
    | inr (v, found) ↦
        let same : v ≡ old = ground (arith, named, found) in
        (with_child root a new, rw (named, found, same, c))
  ]
]
json_get_mut_at_found root (a ∷ b ∷ path) f old new h e c = elim (Bool-cases (is_empty a)) [
  | inl empty ↦ ground (arith, empty)
  | inr named ↦ elim (Option-cases (child root a)) [
    | inl missing ↦ ground (arith, named, missing)
    | inr (v, found) ↦
        let (after, done) =
          json_get_mut_at_found v (b ∷ path) f old new (λ q. cc) (rw (named, found) at e) c in
        (with_child root a after, rw (named, found, done))
  ]
]

-- A path that parts from the changed one sees what it saw.
pub json_get_mut_at_frame :
    (root : Json) (path q : List Str) (f : Json → Option Json) (after : Json)
    → json_get_mut_at root path f ≡ some after
    → Diverge path q
    → json_get_at after q ≡ json_get_at root q
unfolding json_get_mut_at json_get_at change_child
json_get_mut_at_frame root [] q f after e d = absurd d
json_get_mut_at_frame root (a ∷ path) [] f after e d = absurd d
json_get_mut_at_frame root (a ∷ []) (b ∷ q) f after e (inr (same, d)) = absurd d
json_get_mut_at_frame root (a ∷ []) (b ∷ q) f after e (inl apart) =
    let s = change_child-IsStep root a f after e in
    rw (s.same, child-with_child root a b s.new apart)
json_get_mut_at_frame root (a ∷ c ∷ path) (b ∷ q) f after e (inl apart) =
    let s = change_child-IsStep root a (λ v. json_get_mut_at v (c ∷ path) f) after e in
    rw (s.same, child-with_child root a b s.new apart)
json_get_mut_at_frame root (a ∷ c ∷ path) (b ∷ q) f after e (inr (same, d)) =
    let s = change_child-IsStep root a (λ v. json_get_mut_at v (c ∷ path) f) after e in
    let there = child-with_child_self root a s.old s.new s.found in
    rw
      (← same, s.same, there, s.found, json_get_mut_at_frame s.old (c ∷ path) q f s.new s.changed d)

-- A change through `json_get_mut` is a change of the value that `json_get` finds at the path:
-- afterwards `json_get` returns the changed value there, and at a path that parts from it what it
-- returned before.
pub json_get_mut-IsChange :
    (root : Json) (path : Str) (f : Json → Option Json) (after : Json) (q : Str)
    → json_get_mut root path f ≡ some after
    → Diverge (split b'.' path) (split b'.' q)
    → IsChange root (split b'.' path) f after × (json_get after q ≡ json_get root q)
unfolding json_get json_get_mut
json_get_mut-IsChange root path f after q e d =
    (json_get_mut_at-IsChange root _ f after e, json_get_mut_at_frame root _ _ f after e d)

-- Where `json_get` finds nothing `json_get_mut` changes nothing; where it finds a value that can be
-- changed the change is made. Afterwards `json_get` returns the changed value at the path, and what
-- it returned before at every path that parts from it.
pub json_get-json_get_mut :
    (root : Json) (path : Str) (f : Json → Option Json)
    → (json_get root path ≡ none → json_get_mut root path f ≡ none)
      × ((old new : Json)
          → json_get root path ≡ some old
          → f old ≡ some new
          → (after : Json) × (json_get_mut root path f ≡ some after))
      × ((after : Json)
          → json_get_mut root path f ≡ some after
          → IsChange root (split b'.' path) f after
            × ((q : Str)
                → Diverge (split b'.' path) (split b'.' q)
                → json_get after q ≡ json_get root q))
unfolding json_get json_get_mut
json_get-json_get_mut root path f = (
  json_get_mut_at_missing root _ f (split-ne-nil b'.' path),
  λ old new. json_get_mut_at_found root _ f old new (split-ne-nil b'.' path),
  λ after e.
      (json_get_mut_at-IsChange root _ f after e, λ q. json_get_mut_at_frame root _ _ f after e),
)
