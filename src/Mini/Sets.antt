-- ===== src/Mini/Sets.antt =====
-- The signal sets of project3/libmini.c are sets of the signals 1 to 64.
use Prim.Native.Nat.{bit_and, bit_or, min, max}
use nctu_unixprog.Base.{
  ℕ, zero, suc, ◌-◌, ◌/◌, ◌^◌, ◌<◌, ◌≡◌, refl, ap, sym, ◌∙◌, Bool, true, false, not, Bool-cases,
  inl, inr, Option, none, some, ◌&&◌, ◌||◌, ◌==◌, if◌then◌else◌, arith,
}
use nctu_unixprog.Mini.Signals.{
  filled_set, bytes_of, word_of, sigemptyset, sigfillset, is_shift, sigmask, sigaddset, sigdelset,
  sigismember,
}
use nctu_unixprog.Mini.Places.{
  bit_at, bit_at-nothing, bit_at-or, bit_at-and, bit_at-pow, bit_at-complement, bit_at-shift,
  bit_and-one,
}

-- What `sigismember` answers of a set of signals.
abbrev pub answer : (ℕ → Bool) → ℕ → Option ℕ
answer P t = if is_shift t then some (if P t then 1 else 0) else none

-- A word stands for a set of signals.
abbrev pub StandsFor : ℕ → (ℕ → Bool) → Type 0
StandsFor set P = (t : ℕ) → sigismember set t ≡ answer P t

sigismember-bit :
    (set t : ℕ) → sigismember set t ≡ (if is_shift t then some (bit_at (t - 1) set) else none)
unfolding sigismember
sigismember-bit set t = elim (Bool-cases (is_shift t)) [
  | inl e ↦ rw e (ap some (bit_and-one (set / 2 ^ (t - 1)) ∙ bit_at-shift (t - 1) set))
  | inr e ↦ rw e refl
]

-- By its bits at the places of the signals.
StandsFor-bits :
    (set : ℕ) (P : ℕ → Bool)
    → ((t : ℕ) → is_shift t ≡ true → bit_at (t - 1) set ≡ (if P t then 1 else 0))
    → StandsFor set P
StandsFor-bits set P h t = elim (Bool-cases (is_shift t)) [
  | inl e ↦ sigismember-bit set t ∙ rw e (ap some (h t e))
  | inr e ↦ sigismember-bit set t ∙ rw e refl
]

bits-StandsFor :
    (set : ℕ) (P : ℕ → Bool)
    → StandsFor set P
    → (t : ℕ) → is_shift t ≡ true
    → bit_at (t - 1) set ≡ (if P t then 1 else 0)
bits-StandsFor set P h t e = some_inj (rw e at (sym (sigismember-bit set t) ∙ h t))
  where
    some_inj : {a b : ℕ} → some a ≡ some b → a ≡ b
    some_inj q = cc

same_place : (s t : ℕ) → is_shift s ≡ true → is_shift t ≡ true → (t - 1 == s - 1) ≡ (t == s)
unfolding is_shift
same_place s t h k = ground arith

is_shift-lt : (s : ℕ) → is_shift s ≡ true → s - 1 < 64
unfolding is_shift
is_shift-lt s h = ground arith

max-or : (p q : Bool) → max (if p then 1 else 0) (if q then 1 else 0) ≡ (if q || p then 1 else 0)
max-or true true = refl
max-or true false = refl
max-or false true = refl
max-or false false = refl

min-not :
    (p q : Bool)
    → min (if p then 1 else 0) (1 - (if q then 1 else 0)) ≡ (if not q && p then 1 else 0)
min-not true true = refl
min-not true false = refl
min-not false true = refl
min-not false false = refl

pow-pos : (j : ℕ) → 0 < 2 ^ j
pow-pos zero = omega arith
pow-pos (suc j) = let h : 0 < 2 ^ j = pow-pos j in omega arith

pow-lt : (n j : ℕ) → j < n → 2 ^ j < 2 ^ n
pow-lt zero j h = absurd (omega arith)
pow-lt (suc n) zero h = let p : 0 < 2 ^ n = pow-pos n in omega arith
pow-lt (suc n) (suc j) h = let l : 2 ^ j < 2 ^ n = pow-lt n j (omega arith) in omega arith

mask-lt : (s : ℕ) → is_shift s ≡ true → 2 ^ (s - 1) < 2 ^ 64
mask-lt s h = pow-lt 64 (s - 1) (is_shift-lt s h)

module _ (set : ℕ) (P : ℕ → Bool) (s : ℕ) (shift : is_shift s ≡ true) (h : StandsFor set P) where
  added : StandsFor (bit_or set (sigmask s)) (λ t. t == s || P t)
  unfolding sigmask
  added = StandsFor-bits _ _ (λ t e. bit t e)
    where
      bit :
          (t : ℕ)
          → is_shift t ≡ true
          → bit_at (t - 1) (bit_or set (2 ^ (s - 1))) ≡ (if t == s || P t then 1 else 0)
      bit t e =
          bit_at-or (t - 1) set (2 ^ (s - 1))
          ∙ rw (bits-StandsFor set P h t e, bit_at-pow (t - 1) (s - 1), same_place s t shift e)
              (max-or (P t) (t == s))

  deleted : StandsFor (bit_and set (2 ^ 64 - 1 - sigmask s)) (λ t. not (t == s) && P t)
  unfolding sigmask
  deleted = StandsFor-bits _ _ (λ t e. bit t e)
    where
      bit :
          (t : ℕ)
          → is_shift t ≡ true
          → bit_at (t - 1) (bit_and set (2 ^ 64 - 1 - 2 ^ (s - 1)))
            ≡ (if not (t == s) && P t then 1 else 0)
      bit t e =
          bit_at-and (t - 1) set (2 ^ 64 - 1 - 2 ^ (s - 1))
          ∙ rw
              (
                bits-StandsFor set P h t e,
                bit_at-complement 64 (t - 1) (2 ^ (s - 1)) (is_shift-lt t e) (mask-lt s shift),
                bit_at-pow (t - 1) (s - 1),
                same_place s t shift e,
              )
              (min-not (P t) (t == s))

empty : (old : ℕ) → StandsFor (sigemptyset old) (λ t. false)
unfolding sigemptyset filled_set bytes_of word_of
empty old = StandsFor-bits _ (λ t. false) (λ t e. bit_at-nothing (t - 1))

pub full : (old : ℕ) → StandsFor (sigfillset old) (λ t. true)
unfolding sigfillset filled_set bytes_of word_of
full old =
    StandsFor-bits _ (λ t. true)
      (λ t e.
        bit_at-complement 64 (t - 1) 0 (is_shift-lt t e) (omega arith)
        ∙ rw (bit_at-nothing (t - 1)) refl)

-- Whatever the set held, sigemptyset gives the empty set and sigfillset the set of all signals; for a set that stands for some
-- signals, and a signal from 1 to 64, sigaddset gives the set with that signal and sigdelset the set
-- without it, as sigismember tells for every number.
pub sigset-StandsFor :
    (old set : ℕ) (P : ℕ → Bool) (s : ℕ)
    → is_shift s ≡ true
    → StandsFor set P
    → StandsFor (sigemptyset old) (λ t. false)
      × StandsFor (sigfillset old) (λ t. true)
      × ((u : ℕ) × (sigaddset set s ≡ some u) × StandsFor u (λ t. t == s || P t))
      × ((u : ℕ) × (sigdelset set s ≡ some u) × StandsFor u (λ t. not (t == s) && P t))
unfolding sigaddset sigdelset
sigset-StandsFor old set P s e h = (
  empty old,
  full old,
  (bit_or set (sigmask s), rw e refl, added set P s e h),
  (bit_and set (2 ^ 64 - 1 - sigmask s), rw e refl, deleted set P s e h),
)
