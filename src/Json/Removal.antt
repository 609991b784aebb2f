-- ===== src/Json/Removal.antt =====
-- `json_remove`: what it takes away, and what it leaves.
use docker_proxy.Common.{
  ◌≡◌, ◌≢◌, refl, sym, ◌∙◌, IsFree, str_eq_iff, none, some, inl, inr, arith, Str, split,
  split-ne-nil, split-join, split-IsFree, Option-cases, List, [], ◌∷◌, ◌++◌, is_empty, Bool-cases,
  join, All, but_last, but_last-All, codes,
}
use docker_proxy.Json.{
  Json, Items, object, array, null, bool, number, string, child, json_get_at, json_get,
  json_get_mut, last, remove_key, json_remove,
}
use docker_proxy.Json.Children.{get_field-remove_field_self, get_field-remove_field}
use docker_proxy.Json.Access.{IsChange, json_get-json_get_mut, Diverge}

but_last-last :
    (p q : Str) (segments : List Str)
    → but_last (p ∷ q ∷ segments) ++ last (p ∷ q ∷ segments) ∷ [] ≡ p ∷ q ∷ segments
unfolding but_last last
but_last-last p q [] = refl
but_last-last p q (r ∷ segments) = ground (arith, but_last-last q r segments)

pub json_get_at-append :
    (root : Json) (ps : List Str) (key : Str) (v : Json)
    → json_get_at root ps ≡ some v
    → json_get_at root (ps ++ key ∷ []) ≡ json_get_at v (key ∷ [])
unfolding json_get_at
json_get_at-append root [] key v e = ground arith
json_get_at-append root (p ∷ ps) key v e = elim (Bool-cases (is_empty p)) [
  | inl empty ↦ ground (arith, empty)
  | inr named ↦ elim (Option-cases (child root p)) [
    | inl missing ↦ ground (arith, named, missing)
    | inr (w, found) ↦ ground (arith, named, found, json_get_at-append w ps key v)
  ]
]

-- After a removal the key is gone from the object that had it.
remove_key-gone :
    (key : Str) (v new : Json) → remove_key key v ≡ some new → json_get_at new (key ∷ []) ≡ none
unfolding remove_key json_get_at child
remove_key-gone key (object fs) new e = ground (arith, get_field-remove_field_self key fs)
remove_key-gone key (array vs) new e = cc
remove_key-gone key null new e = cc
remove_key-gone key (bool b) new e = cc
remove_key-gone key (number n) new e = cc
remove_key-gone key (string s) new e = cc

remove_key-sibling :
    (key k : Str) (v new : Json)
    → key ≢ k
    → remove_key key v ≡ some new
    → json_get_at new (k ∷ []) ≡ json_get_at v (k ∷ [])
unfolding remove_key json_get_at child
remove_key-sibling key k (object fs) new h e =
    ground (arith, str_eq_iff key k, get_field-remove_field key k fs)
remove_key-sibling key k (array vs) new h e = cc
remove_key-sibling key k null new h e = cc
remove_key-sibling key k (bool b) new h e = cc
remove_key-sibling key k (number n) new h e = cc
remove_key-sibling key k (string s) new h e = cc

abbrev pub parent : Str → List Str
parent path = but_last (split b'.' path)

abbrev pub key_of : Str → Str
key_of path = last (split b'.' path)

pub whole_path :
    (path p q : Str) (ps : List Str)
    → split b'.' path ≡ p ∷ q ∷ ps
    → parent path ++ key_of path ∷ [] ≡ split b'.' path
whole_path path p q ps e = rw e (but_last-last p q ps)

-- The reference that `json_remove` takes, on the segments themselves.
record IsRemoval (root : Json) (path : Str) (after : Json) : Type 0 where
  whole : parent path ++ key_of path ∷ [] ≡ split b'.' path
  change : IsChange root (parent path) (remove_key (key_of path)) after
  frame : (q : Str) → Diverge (parent path) (split b'.' q) → json_get after q ≡ json_get root q

IsRemoval-at :
    (root : Json) (path : Str) (after : Json)
    → split b'.' (join (codes ".") (parent path)) ≡ parent path
    → parent path ++ key_of path ∷ [] ≡ split b'.' path
    → json_get_mut root (join (codes ".") (parent path)) (remove_key (key_of path)) ≡ some after
    → IsRemoval root path after
IsRemoval-at root path after same whole e =
    let (change, frame) = (json_get-json_get_mut root _ _).2 after e in
    record { whole = whole; change = rw same at change; frame = λ q d. frame q (rw same d) }

json_remove_segments :
    (root : Json) (path : Str) (after : Json) (segments : List Str)
    → split b'.' path ≡ segments
    → All (IsFree b'.') segments
    → json_remove root path ≡ some after
    → IsRemoval root path after
unfolding json_remove but_last
json_remove_segments root path after [] e free h = absurd (split-ne-nil b'.' path e)
json_remove_segments root path after (p ∷ []) e free h = ground (arith, e)
json_remove_segments root path after (p ∷ q ∷ ps) e free h =
    IsRemoval-at root path after
      (rw (e, but_last) (split-join b'.' p (but_last (q ∷ ps)) (but_last-All _ (p ∷ q ∷ ps) free)))
      (whole_path path p q ps e) (ground (arith, e, h))

pub json_get-json_remove_path :
    (root : Json) (path : Str) (after : Json)
    → json_remove root path ≡ some after
    → json_get after path ≡ none
unfolding json_get
json_get-json_remove_path root path after e =
    let r = json_remove_segments root path after _ refl (split-IsFree b'.' path) e in
    let c = r.change in
    rw (← r.whole) (
      json_get_at-append after (parent path) (key_of path) c.new c.seen
      ∙ remove_key-gone (key_of path) c.old c.new c.changed)

-- A removal that succeeds leaves no value at its path, every sibling `k` of the removed key as it
-- was, and every path that parts from the path of the object as it was.
pub json_get-json_remove :
    (root : Json) (path : Str) (after : Json) (k q : Str)
    → json_remove root path ≡ some after
    → key_of path ≢ k
    → Diverge (parent path) (split b'.' q)
    → (json_get after path ≡ none)
      × (json_get_at after (parent path ++ k ∷ []) ≡ json_get_at root (parent path ++ k ∷ []))
      × (json_get after q ≡ json_get root q)
json_get-json_remove root path after k q e other d =
    let r = json_remove_segments root path after _ refl (split-IsFree b'.' path) e in
    let c = r.change in
    (
      json_get-json_remove_path root path after e,
      json_get_at-append after (parent path) k c.new c.seen
          ∙ (remove_key-sibling (key_of path) k c.old c.new other c.changed
              ∙ sym (json_get_at-append root (parent path) k c.old c.found)),
      r.frame q d,
    )

-- What a path of several segments removes from the value of its parent.
pub remove_key-json_remove :
    (root : Json) (path p q : Str) (ps : List Str) (v : Json)
    → split b'.' path ≡ p ∷ q ∷ ps
    → json_get_at root (parent path) ≡ some v
    → json_remove root path ≡ none
    → remove_key (key_of path) v ≡ none
unfolding json_remove json_get but_last
remove_key-json_remove root path p q ps v e found h =
    elim (Option-cases (remove_key (key_of path) v)) [
      | inl missing ↦ missing
      | inr (new, changed) ↦
          let same =
            split-join b'.' p (but_last (q ∷ ps))
              (but_last-All _ (p ∷ q ∷ ps) (rw e at (split-IsFree b'.' path))) in
          let (after, done) =
            (json_get-json_get_mut root (join (codes ".") (p ∷ but_last (q ∷ ps)))
                (remove_key (key_of path))).1
              v new (rw same (rw (e, but_last) at found)) changed in
          ground (arith, e, done, h)
    ]

-- An item of an array is never removed.
pub json_remove_array :
    (root : Json) (path : Str) (vs : Items)
    → json_get_at root (parent path) ≡ some (array vs)
    → json_remove root path ≡ none
unfolding remove_key
json_remove_array root path vs found = elim (Option-cases (json_remove root path)) [
  | inl refused ↦ refused
  | inr (after, e) ↦
      let c = (json_remove_segments root path after _ refl (split-IsFree b'.' path) e).change in
      let same : c.old ≡ array vs = cc (c.found) in
      let changed : remove_key (key_of path) (array vs) ≡ some c.new = rw same at c.changed in cc
]
