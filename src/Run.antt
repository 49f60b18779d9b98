-- ===== src/Run.antt =====
-- Runs of a C++ function over a state of its own: it returns, ends the process, or has no defined
-- behaviour, which also stands for a loop that never ends. Used for project1, project2 and project3; the
-- child is about what runs leave (Keeps).
pub mod Keeps
use nctu_unixprog.Base.{ℕ}

pub data Outcome (S A : Type 0) : Type 0 where
  ok : A → S → Outcome S A
  exited : ℕ → S → Outcome S A
  undefined : Outcome S A

abbrev pub M : Type 0 → Type 0 → Type 0
M S A = S → Outcome S A

module _ {S A B : Type 0} where
  abbrev pub after : Outcome S A → (A → M S B) → Outcome S B
  after (ok a s) f = f a s
  after (exited c s) f = exited c s
  after undefined f = undefined

  infixl 5 ◌>>=◌ ◌>>◌
  unfoldable pub ◌>>=◌ : M S A → (A → M S B) → M S B
  ◌>>=◌ m f s = after (m s) f

  unfoldable pub ◌>>◌ : M S A → M S B → M S B
  ◌>>◌ m k s = after (m s) (λ _. k)

module _ {S : Type 0} where
  unfoldable pub pure : {A : Type 0} → A → M S A
  pure a s = ok a s

  unfoldable pub get : M S S
  get s = ok s s

  unfoldable pub modify : (S → S) → M S (Unit {0})
  modify f s = ok tt (f s)

  unfoldable pub exit : {A : Type 0} → ℕ → M S A
  exit c s = exited c s

  unfoldable pub undefined_behaviour : {A : Type 0} → M S A
  undefined_behaviour s = undefined
