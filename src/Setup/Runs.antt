-- ===== src/Setup/Runs.antt =====
-- A dialogue of src/setup.rs with enough fuel: what it gives, and that its loops come to an end. Each
-- round of a loop takes an answer, so fuel above the number of answers is enough.
use docker_proxy.Common.{
  ℕ, zero, suc, ◌<◌, ◌≤◌, true, false, Option, none, some, List, [], ◌∷◌, arith, length, get_elem?,
}
use docker_proxy.Setup.{
  Answer, Ended, done, panicked, unfinished, Dialogue, pure, ◌>>=◌, unwrap, ask, ask_text,
  ask_number, ask_choice, ask_choices, ask_confirm, item, repeat,
}

-- The result is as it should be, and no more answers are left than there were; or a prompt failed.
abbrev pub EndsWith {ℓ} : {A : Type ℓ} → (A → Type 0) → ℕ → Ended A → Type 0
EndsWith P k (done a rest) = (length rest ≤ k) × P a
EndsWith P k panicked = Unit
EndsWith P k unfinished = ⊥

pub record Runs {ℓ} {A : Type ℓ} (fuel : ℕ) (P : A → Type 0) (m : Dialogue A) : Type ℓ where
  pub ends :
      (answers : List Answer) → length answers < fuel → EndsWith P (length answers) (m answers)

abbrev pub Anything {ℓ} : {A : Type ℓ} → A → Type 0
Anything a = Unit

EndsWith-mono {ℓ} :
    {A : Type ℓ} (P : A → Type 0) (j k : ℕ) (e : Ended A) → j ≤ k → EndsWith P j e → EndsWith P k e
EndsWith-mono P j k (done a rest) le (h, p) = (omega arith, p)
EndsWith-mono P j k panicked le h = tt
EndsWith-mono P j k unfinished le h = h

module _ (fuel : ℕ) where
  pub pure-Runs {ℓ} : {A : Type ℓ} (P : A → Type 0) (a : A) → P a → Runs fuel P (pure a)
  unfolding pure
  pure-Runs P a p = record { ends = λ answers h. (omega arith, p) }

  then_ends {ℓ κ} :
      {A : Type ℓ} {B : Type κ} (Q : A → Type 0) (P : B → Type 0) (f : A → Dialogue B) (k : ℕ)
      (e : Ended A)
      → k < fuel
      → EndsWith Q k e
      → ((a : A) → Q a → Runs fuel P (f a))
      → EndsWith P k
          (elim e [ done a rest ↦ f a rest | panicked ↦ panicked | unfinished ↦ unfinished ])
  then_ends Q P f k (done a rest) h (le, q) next =
      EndsWith-mono P (length rest) k (f a rest) le ((next a q).ends rest (omega arith))
  then_ends Q P f k panicked h e next = tt
  then_ends Q P f k unfinished h e next = e

  pub >>=-Runs {ℓ κ} :
      {A : Type ℓ} {B : Type κ} (Q : A → Type 0) (P : B → Type 0) (m : Dialogue A)
      (f : A → Dialogue B)
      → Runs fuel Q m
      → ((a : A) → Q a → Runs fuel P (f a))
      → Runs fuel P (m >>= f)
  unfolding ◌>>=◌
  >>=-Runs Q P m f first next = record {
    ends = λ answers h. then_ends Q P f _ (m answers) h (first.ends answers h) next;
  }

  unwrap_ends {ℓ} :
      {A : Type ℓ} (o : Option A) (k : ℕ) (rest : List Answer)
      → length rest ≤ k
      → EndsWith Anything k (unwrap o rest)
  unwrap_ends none k rest h = tt
  unwrap_ends (some a) k rest h = (h, tt)

  ask_ends {ℓ} :
      {A : Type ℓ} (read : Answer → Option A) (answers : List Answer)
      → EndsWith Anything (length answers) (ask read answers)
  unfolding ask
  ask_ends read [] = tt
  ask_ends read (a ∷ rest) = unwrap_ends (read a) _ rest (omega arith)

  pub ask-Runs {ℓ} : {A : Type ℓ} (read : Answer → Option A) → Runs fuel Anything (ask read)
  ask-Runs read = record { ends = λ answers h. ask_ends read answers }

  pub ask_text-Runs : Runs fuel Anything ask_text
  unfolding ask_text
  ask_text-Runs = ask-Runs _

  pub ask_number-Runs : (bound : ℕ) → Runs fuel Anything (ask_number bound)
  unfolding ask_number
  ask_number-Runs bound = ask-Runs _

  pub ask_choice-Runs : Runs fuel Anything ask_choice
  unfolding ask_choice
  ask_choice-Runs = ask-Runs _

  pub ask_choices-Runs : Runs fuel Anything ask_choices
  unfolding ask_choices
  ask_choices-Runs = ask-Runs _

  pub ask_confirm-Runs : Runs fuel Anything ask_confirm
  unfolding ask_confirm
  ask_confirm-Runs = ask-Runs _

  pub item-Runs {ℓ} : {A : Type ℓ} (items : List A) (i : ℕ) → Runs fuel Anything (item items i)
  unfolding item
  item-Runs items i = record {
    ends = λ answers h. unwrap_ends (get_elem? items i) _ answers (omega arith);
  }

module _ {ℓ} {A : Type ℓ} (J : A → Type 0) (body : A → Dialogue A) where
  -- What stands behind the body of a loop: the prompt takes an answer, so the next round has fewer.
  confirm_ends :
      (b : A) (fuel k : ℕ) (rest : List Answer)
      → J b
      → length rest ≤ k
      → k ≤ fuel
      → Runs fuel J (repeat fuel body b)
      → EndsWith J k (
          (ask_confirm >>= λ again. elim again [ true ↦ repeat fuel body b | false ↦ pure b ]) rest)
  unfolding ask_confirm ◌>>=◌ pure
  confirm_ends b fuel k [] j le h next = tt
  confirm_ends b fuel k (Answer.confirm true ∷ rest) j le h next =
      EndsWith-mono J (length rest) k _ (omega arith) (next.ends rest (omega arith))
  confirm_ends b fuel k (Answer.confirm false ∷ rest) j le h next = (omega arith, j)
  confirm_ends b fuel k (Answer.text s ∷ rest) j le h next = tt
  confirm_ends b fuel k (Answer.number n ∷ rest) j le h next = tt
  confirm_ends b fuel k (Answer.choice i ∷ rest) j le h next = tt
  confirm_ends b fuel k (Answer.choices is ∷ rest) j le h next = tt

  round_ends :
      (fuel k : ℕ) (e : Ended A)
      → k ≤ fuel
      → EndsWith J k e
      → ((b : A) → J b → Runs fuel J (repeat fuel body b))
      → EndsWith J k (elim e [
        | done b rest ↦
            (ask_confirm >>= λ again. elim again [ true ↦ repeat fuel body b | false ↦ pure b ])
              rest
        | panicked ↦ panicked
        | unfinished ↦ unfinished
      ])
  round_ends fuel k (done b rest) h (le, j) next = confirm_ends b fuel k rest j le h (next b j)
  round_ends fuel k panicked h e next = tt
  round_ends fuel k unfinished h e next = e

  -- A loop gives what a round gives, if a round keeps the loop's invariant.
  pub repeat-Runs :
      (I : A → Type 0) (bound : ℕ)
      → ((a : A) → J a → I a)
      → ((a : A) → I a → Runs bound J (body a))
      → (fuel : ℕ) (a : A) → fuel ≤ bound
      → I a
      → Runs fuel J (repeat fuel body a)
  unfolding repeat ◌>>=◌ pure
  repeat-Runs I bound weaken round zero a le i = record { ends = λ answers h. absurd (omega arith) }
  repeat-Runs I bound weaken round (suc fuel) a le i = record {
    ends = λ answers h.
        round_ends fuel _ (body a answers) (omega arith) ((round a i).ends answers (omega arith))
          (λ b j. repeat-Runs I bound weaken round fuel b (omega arith) (weaken b j));
  }
