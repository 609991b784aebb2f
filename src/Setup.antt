-- ===== src/Setup.antt =====
-- The prompts of src/setup.rs. A dialogue reads the answers one after the other; an answer is what
-- the prompt of the library returns, its default included. `unwrap` of a prompt that fails ends the
-- program, and so does an index that is out of range.
pub mod Templates
pub mod Custom
pub mod Dialogue
pub mod Runs
pub mod Ready
pub mod Asked
pub mod Written
pub mod Refused
pub mod Readonly
use docker_proxy.Common.{
  ℕ, zero, suc, Bool, true, false, Option, none, some, List, [], ◌∷◌, Str, get_elem?, below,
}

pub data Answer : Type 0 where
  text : Str → Answer
  number : ℕ → Answer
  choice : ℕ → Answer
  choices : List ℕ → Answer
  confirm : Bool → Answer

-- `unfinished`: a loop has used its fuel.
pub data Ended {ℓ} (A : Type ℓ) : Type ℓ where
  done : A → List Answer → Ended A
  panicked : Ended A
  unfinished : Ended A

abbrev pub Dialogue {ℓ} : Type ℓ → Type ℓ
Dialogue A = List Answer → Ended A

unfoldable pub pure {ℓ} : {A : Type ℓ} → A → Dialogue A
pure a answers = done a answers

infixl 5 ◌>>=◌
unfoldable pub ◌>>=◌ {ℓ κ} : {A : Type ℓ} {B : Type κ} → Dialogue A → (A → Dialogue B) → Dialogue B
◌>>=◌ m f answers = elim (m answers) [
  | done a rest ↦ f a rest
  | panicked ↦ panicked
  | unfinished ↦ unfinished
]

abbrev pub unwrap {ℓ} : {A : Type ℓ} → Option A → Dialogue A
unwrap none answers = panicked
unwrap (some a) answers = done a answers

-- One prompt, which takes one answer of its kind.
unfoldable pub ask {ℓ} : {A : Type ℓ} → (Answer → Option A) → Dialogue A
ask read [] = panicked
ask read (a ∷ rest) = unwrap (read a) rest

as_text : Answer → Option Str
as_text (text s) = some s
as_text _ = none

as_number : ℕ → Answer → Option ℕ
as_number bound (number n) = below bound n
as_number bound _ = none

as_choice : Answer → Option ℕ
as_choice (choice i) = some i
as_choice _ = none

as_choices : Answer → Option (List ℕ)
as_choices (choices is) = some is
as_choices _ = none

as_confirm : Answer → Option Bool
as_confirm (confirm b) = some b
as_confirm _ = none

-- `Input::<String>` and `Password`, `Input` of an unsigned integer, `Select`, `MultiSelect` and
-- `Confirm`.
unfoldable pub ask_text : Dialogue Str
unfolding ask as_text
ask_text = ask as_text

unfoldable pub ask_number : ℕ → Dialogue ℕ
unfolding ask as_number
ask_number bound = ask (as_number bound)

unfoldable pub ask_choice : Dialogue ℕ
unfolding ask as_choice
ask_choice = ask as_choice

unfoldable pub ask_choices : Dialogue (List ℕ)
unfolding ask as_choices
ask_choices = ask as_choices

unfoldable pub ask_confirm : Dialogue Bool
unfolding ask as_confirm
ask_confirm = ask as_confirm

-- `items[index]`.
unfoldable pub item {ℓ} : {A : Type ℓ} → List A → ℕ → Dialogue A
item items index = unwrap (get_elem? items index)

-- `loop { body; if !confirm { break; } }`.
unfoldable pub repeat {ℓ} : {A : Type ℓ} → ℕ → (A → Dialogue A) → A → Dialogue A
unfolding ask_confirm
repeat zero body a = λ answers. unfinished
repeat (suc fuel) body a = body a >>= λ b.
    ask_confirm >>= λ again. elim again [ true ↦ repeat fuel body b | false ↦ pure b ]
