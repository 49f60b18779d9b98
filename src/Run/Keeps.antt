-- ===== src/Run/Keeps.antt =====
-- How a run relates the state before it to the state that it leaves, also where the process ends.
use nctu_unixprog.Base.{ℕ, ◌≡◌, subst, Bool, true, false, if◌then◌else◌}
use nctu_unixprog.Run.{
  M, Outcome, ok, exited, undefined, after, ◌>>=◌, ◌>>◌, pure, get, modify, exit,
  undefined_behaviour,
}

module _ {S A : Type 0} where
  -- What holds of the state that a run leaves.
  abbrev pub Post : (S → Type 0) → Outcome S A → Type 0
  Post Q (ok a t) = Q t
  Post Q (exited c t) = Q t
  Post Q undefined = Unit

  pub Post-mono : (P Q : S → Type 0) (o : Outcome S A) → ((t : S) → P t → Q t) → Post P o → Post Q o
  Post-mono P Q (ok a t) h p = h t p
  Post-mono P Q (exited c t) h p = h t p
  Post-mono P Q undefined h p = tt

pub record Keeps {S A : Type 0} (R : S → S → Type 0) (m : M S A) : Type 0 where
  pub apply : (s : S) → Post (R s) (m s)

module _ {S A : Type 0} {R : S → S → Type 0} {m : M S A} where
  pub Keeps-ok : Keeps R m → (s t : S) (a : A) → m s ≡ ok a t → R s t
  Keeps-ok k s t a e = subst (Post (R s)) e (k.apply s)

  pub Keeps-exited : Keeps R m → (s t : S) (c : ℕ) → m s ≡ exited c t → R s t
  Keeps-exited k s t c e = subst (Post (R s)) e (k.apply s)

-- A relation that composes.
pub record IsPreorder {S : Type 0} (R : S → S → Type 0) : Type 0 where
  pub rel_refl : (s : S) → R s s
  pub rel_trans : (s t u : S) → R s t → R t u → R s u

module _ {S : Type 0} {R : S → S → Type 0} (P : IsPreorder R) where
  Post-after :
      {A B : Type 0} (s : S) (o : Outcome S A) (f : A → M S B)
      → Post (R s) o
      → ((a : A) → Keeps R (f a))
      → Post (R s) (after o f)
  Post-after s (ok a t) f h k =
      Post-mono (R t) (R s) (f a t) (λ u. P.rel_trans s t u h) ((k a).apply t)
  Post-after s (exited c t) f h k = h
  Post-after s undefined f h k = tt

  pub Keeps->>= :
      {A B : Type 0} (m : M S A) (f : A → M S B)
      → Keeps R m
      → ((a : A) → Keeps R (f a))
      → Keeps R (m >>= f)
  unfolding ◌>>=◌
  Keeps->>= m f h k = record { apply = λ s. Post-after s (m s) f (h.apply s) k }

  pub Keeps->> : {A B : Type 0} (m : M S A) (n : M S B) → Keeps R m → Keeps R n → Keeps R (m >> n)
  unfolding ◌>>◌
  Keeps->> m n h k = record { apply = λ s. Post-after s (m s) (λ _. n) (h.apply s) (λ _. k) }

  pub Keeps-pure : {A : Type 0} (a : A) → Keeps R (pure a)
  unfolding pure
  Keeps-pure a = record { apply = λ s. P.rel_refl s }

  pub Keeps-get : Keeps R get
  unfolding get
  Keeps-get = record { apply = λ s. P.rel_refl s }

  pub Keeps-exit : (A : Type 0) (c : ℕ) → Keeps {A = A} R (exit c)
  unfolding exit
  Keeps-exit A c = record { apply = λ s. P.rel_refl s }

module _ {S : Type 0} {R : S → S → Type 0} where
  pub Keeps-undefined_behaviour : (A : Type 0) → Keeps {A = A} R undefined_behaviour
  unfolding undefined_behaviour
  Keeps-undefined_behaviour A = record { apply = λ s. tt }

  pub Keeps-if :
      {A : Type 0} (b : Bool) (m n : M S A) → Keeps R m → Keeps R n → Keeps R (if b then m else n)
  Keeps-if true m n h k = h
  Keeps-if false m n h k = k

  pub Keeps-modify : (f : S → S) → ((s : S) → R s (f s)) → Keeps R (modify f)
  unfolding modify
  Keeps-modify f h = record { apply = h }

-- The rules that prove `Keeps` of a `do` block.
pub ruleset keeps_rules =
    (Keeps->>=, Keeps->>, Keeps-pure, Keeps-get, Keeps-exit, Keeps-undefined_behaviour, Keeps-if)
