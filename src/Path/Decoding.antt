-- ===== src/Path/Decoding.antt =====
-- `percent_decode` of src/main.rs against a description of percent-encoding.
use docker_proxy.Common.{
  ℕ, ◌+◌, ◌*◌, ◌≡◌, refl, ◌≢◌, ◌↔◌, ◌∙◌, Option, none, some, [], ◌∷◌, arith, Str, IsFree,
  Option-cases, Bool-cases, length, ◌<◌, ◌⊎◌, sym, inl, inr, ◌==◌,
}
use docker_proxy.Path.{percent_decode, to_digit, cons_byte}

-- What a text stands for: `%` with two hexadecimal digits is the byte of that value, and any other
-- character but `%` is itself.
pub data Decodes : Str → Str → Type 0 where
  done : Decodes [] []
  plain : (c : ℕ) (s r : Str) → c ≢ b'%' → Decodes s r → Decodes (c ∷ s) (c ∷ r)
  escape :
      (h l x y : ℕ) (s r : Str)
      → to_digit h ≡ some x
      → to_digit l ≡ some y
      → Decodes s r
      → Decodes (b'%' ∷ h ∷ l ∷ s) ((x * 16 + y) ∷ r)

decode_other :
    (c : ℕ) (s : Str) → c ≢ b'%' → percent_decode (c ∷ s) ≡ cons_byte c (percent_decode s)
unfolding percent_decode
decode_other c [] h = ground (arith, h)
decode_other c (d ∷ []) h = ground (arith, h)
decode_other c (d ∷ e ∷ s) h = ground (arith, h)

decode_escape :
    (h l x y : ℕ) (s : Str)
    → to_digit h ≡ some x
    → to_digit l ≡ some y
    → percent_decode (b'%' ∷ h ∷ l ∷ s) ≡ cons_byte (x * 16 + y) (percent_decode s)
unfolding percent_decode
decode_escape h l x y s a b = rw (a, b) refl

decode_complete : (s r : Str) → Decodes s r → percent_decode s ≡ some r
unfolding percent_decode
decode_complete _ _ done = refl
decode_complete _ _ (plain c s r h d) = decode_other c s h ∙ rw (decode_complete s r d) refl
decode_complete _ _ (escape h l x y s r a b d) =
    decode_escape h l x y s a b ∙ rw (decode_complete s r d) refl

cons_sound :
    (c : ℕ) (o : Option Str) (r : Str)
    → cons_byte c o ≡ some r
    → (t : Str) × (o ≡ some t) × (r ≡ c ∷ t)
cons_sound c none r e = ground arith
cons_sound c (some t) r e = (t, refl, ground arith)

decode_nil : (r : Str) → percent_decode [] ≡ some r → r ≡ []
unfolding percent_decode
decode_nil r e = ground arith

decode_short : (s r : Str) → length s < 2 → percent_decode (b'%' ∷ s) ≡ some r → ⊥
unfolding percent_decode
decode_short [] r h e = ground arith
decode_short (d ∷ []) r h e = ground arith
decode_short (d ∷ f ∷ s) r h e = omega (arith, h)

no_escape :
    (h l : ℕ) (s : Str)
    → (to_digit h ≡ none) ⊎ (to_digit l ≡ none)
    → percent_decode (b'%' ∷ h ∷ l ∷ s) ≡ none
unfolding percent_decode
no_escape h l s (inl a) = rw a refl
no_escape h l s (inr b) = elim (Option-cases (to_digit h)) [
  | inl a ↦ rw a refl
  | inr (x, a) ↦ rw (a, b) refl
]

-- One byte is decoded; `k` is the claim for what follows it, and `escaped` for an escape.
sound_step :
    (c : ℕ) (s r : Str)
    → ((t : Str) → percent_decode s ≡ some t → Decodes s t)
    → (percent_decode (b'%' ∷ s) ≡ some r → Decodes (b'%' ∷ s) r)
    → percent_decode (c ∷ s) ≡ some r
    → Decodes (c ∷ s) r
sound_step c s r k escaped e = elim (Bool-cases (c == b'%')) [
  | inl at ↦ let same : c ≡ b'%' = ground (arith, at) in rw same (escaped (rw same at e))
  | inr off ↦
      let other : c ≢ b'%' = ground (arith, off) in
      let (t, rest, same) = cons_sound c (percent_decode s) r (sym (decode_other c s other) ∙ e) in
      rw same (plain c s t other (k t rest))
]

sound_escape :
    (h l : ℕ) (s r : Str)
    → ((t : Str) → percent_decode s ≡ some t → Decodes s t)
    → percent_decode (b'%' ∷ h ∷ l ∷ s) ≡ some r
    → Decodes (b'%' ∷ h ∷ l ∷ s) r
sound_escape h l s r k e = elim (Option-cases (to_digit h)) [
  | inl a ↦ absurd (cc (no_escape h l s (inl a), e))
  | inr (x, a) ↦ elim (Option-cases (to_digit l)) [
    | inl b ↦ absurd (cc (no_escape h l s (inr b), e))
    | inr (y, b) ↦
        let (t, rest, same) =
          cons_sound (x * 16 + y) (percent_decode s) r (sym (decode_escape h l x y s a b) ∙ e) in
        rw same (escape h l x y s t a b (k t rest))
  ]
]

decode_sound : (s r : Str) → percent_decode s ≡ some r → Decodes s r
decode_sound [] r e = rw (decode_nil r e) done
decode_sound (c ∷ []) r e =
    sound_step c [] r (decode_sound []) (λ h. absurd (decode_short [] r (omega arith) h)) e
decode_sound (c ∷ d ∷ []) r e =
    sound_step c (d ∷ []) r (decode_sound (d ∷ []))
      (λ h. absurd (decode_short (d ∷ []) r (omega arith) h)) e
decode_sound (c ∷ h ∷ l ∷ s) r e =
    sound_step c (h ∷ l ∷ s) r (decode_sound (h ∷ l ∷ s)) (sound_escape h l s r (decode_sound s)) e

-- The decoder gives a text exactly where the description does, and then that text.
pub percent_decode_iff : (s r : Str) → (percent_decode s ≡ some r) ↔ Decodes s r
percent_decode_iff s r = (decode_sound s r, decode_complete s r)

-- A text without `%` decodes to itself.
pub percent_decode_plain : (s : Str) → IsFree b'%' s → percent_decode s ≡ some s
unfolding percent_decode
percent_decode_plain [] h = refl
percent_decode_plain (c ∷ s) (h, hs) = decode_other c s h ∙ rw (percent_decode_plain s hs) refl
