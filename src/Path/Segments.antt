-- ===== src/Path/Segments.antt =====
-- The loop over the segments in `canonicalize_path` of src/main.rs.
use docker_proxy.Common.{
  sym, ◌≡◌, refl, ◌≢◌, ◌∙◌, ◌⊎◌, inl, inr, List, [], ◌∷◌, ◌++◌, arith, Str, codes, str_eq,
  str_eq_iff, IsFree, All, All-append, but_last, but_last-All, Bool-cases, ne_of_str_eq,
}
use docker_proxy.Path.{push_segment, resolve_segments}

-- A segment that names something: neither empty nor a dot segment, and with no slash in it.
abbrev pub IsPlain : Str → Type 0
IsPlain seg = (seg ≢ []) × (seg ≢ codes ".") × (seg ≢ codes "..") × IsFree b'/' seg

abbrev Pushed : Str → Type 0
Pushed seg = (seg ≢ []) × (seg ≢ codes ".") × (seg ≢ codes "..")

push_cases :
    (segments : List Str) (seg : Str)
    → (push_segment segments seg ≡ segments)
      ⊎ (push_segment segments seg ≡ but_last segments)
      ⊎ (Pushed seg × (push_segment segments seg ≡ segments ++ seg ∷ []))
unfolding push_segment
push_cases segments [] = inl refl
push_cases segments (c ∷ s) = elim (Bool-cases (str_eq (c ∷ s) (codes "."))) [
  | inl dot ↦ inl (rw dot refl)
  | inr other ↦ elim (Bool-cases (str_eq (c ∷ s) (codes ".."))) [
    | inl dots ↦ inr (inl (rw (other, dots) refl))
    | inr named ↦ inr (
        inr (
          (
            λ e. ground arith,
            ne_of_str_eq (c ∷ s) (codes ".") other,
            ne_of_str_eq (c ∷ s) (codes "..") named,
          ),
          rw (other, named) refl,
        ))
  ]
]

push_plain :
    (segments : List Str) (seg : Str)
    → Pushed seg
    → push_segment segments seg ≡ segments ++ seg ∷ []
unfolding push_segment
push_plain segments [] (h, _, _) = absurd (h refl)
push_plain segments (c ∷ s) (h, dot, dots) =
    ground (arith, dot, dots, str_eq_iff (c ∷ s) (codes "."), str_eq_iff (c ∷ s) (codes ".."))

-- What holds of every segment that is pushed holds of every segment at the end.
pub resolve_segments-All {ℓ κ} :
    (P : Str → Type ℓ) (Q : Str → Type κ)
    → ((seg : Str) → P seg → Pushed seg → Q seg)
    → (rest segments : List Str) → All P rest
    → All Q segments
    → All Q (resolve_segments segments rest)
unfolding resolve_segments
resolve_segments-All P Q f [] segments h k = k
resolve_segments-All P Q f (seg ∷ rest) segments (h, hs) k =
    resolve_segments-All P Q f rest (push_segment segments seg) hs (elim (push_cases segments seg) [
      | inl same ↦ rw same k
      | inr (inl popped) ↦ rw popped (but_last-All Q segments k)
      | inr (inr (named, pushed)) ↦
          rw pushed (All-append Q segments (seg ∷ []) k (f seg h named, tt))
    ])

pub resolve_segments-append :
    (xs ys segments : List Str)
    → resolve_segments segments (xs ++ ys) ≡ resolve_segments (resolve_segments segments xs) ys
unfolding resolve_segments
resolve_segments-append [] ys segments = refl
resolve_segments-append (x ∷ xs) ys segments =
    resolve_segments-append xs ys (push_segment segments x)

pub append_nil : (xs : List Str) → xs ++ [] ≡ xs
append_nil [] = refl
append_nil (x ∷ xs) = ground (arith, append_nil xs)

append_one : (xs ys : List Str) (y : Str) → (xs ++ y ∷ []) ++ ys ≡ xs ++ y ∷ ys
append_one [] ys y = refl
append_one (x ∷ xs) ys y = ground (arith, append_one xs ys y)

-- Plain segments are all kept, in their order.
pub resolve_segments-IsPlain :
    (rest segments : List Str)
    → All IsPlain rest
    → resolve_segments segments rest ≡ segments ++ rest
unfolding resolve_segments
resolve_segments-IsPlain [] segments h = sym (append_nil segments)
resolve_segments-IsPlain (seg ∷ rest) segments ((a, b, c, _), hs) =
    rw (push_plain segments seg (a, b, c))
      (resolve_segments-IsPlain rest (segments ++ seg ∷ []) hs ∙ append_one segments rest seg)
