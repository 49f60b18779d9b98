-- ===== src/Debugger/Endings.antt =====
-- How a run of project4/hw4.cpp ends the process: by `error`, with status 255, or by `quit`. The children are about the functions that print and
-- read (Printing), break points and the child (Child), all commands (Sessions), and `main` (Quits).
pub mod Printing
pub mod Child
pub mod Sessions
pub mod Quits
use nctu_unixprog.Base.{
  ℕ, ◌≡◌, refl, ◌⊎◌, inl, inr, Bool, true, false, Option-cases, Option, none, some, String,
  if◌then◌else◌,
}
use nctu_unixprog.Stream.{Ostream}
use nctu_unixprog.Debugger.Os.{Os}
use nctu_unixprog.Debugger.State.{
  M, Sdb, Outcome, ok, exited, undefined, after, ◌>>=◌, ◌>>◌, pure, get, modify,
  undefined_behaviour, write_cout, write_cerr, say, error, sys, ask, sys_result, when_running,
  is_running,
}

-- If the process is over, then by an error.
abbrev pub IsClean : {W A : Type 0} → Outcome W A → Type 0
IsClean (ok a t) = Unit
IsClean (exited c t) = c ≡ 255
IsClean undefined = Unit

pub record EndsClean {W A : Type 0} (m : M W A) : Type 0 where
  pub ends : (s : Sdb W) → IsClean (m s)

module _ {W : Type 0} where
  IsClean-after :
      {A B : Type 0} (o : Outcome W A) (f : A → M W B)
      → IsClean o
      → ((a : A) → EndsClean (f a))
      → IsClean (after o f)
  IsClean-after (ok a t) f h k = (k a).ends t
  IsClean-after (exited c t) f h k = h
  IsClean-after undefined f h k = tt

  pub EndsClean->>= :
      {A B : Type 0} (m : M W A) (f : A → M W B)
      → EndsClean m
      → ((a : A) → EndsClean (f a))
      → EndsClean (m >>= f)
  unfolding ◌>>=◌
  EndsClean->>= m f h k = record { ends = λ s. IsClean-after (m s) f (h.ends s) k }

  pub EndsClean->> :
      {A B : Type 0} (m : M W A) (n : M W B) → EndsClean m → EndsClean n → EndsClean (m >> n)
  unfolding ◌>>◌
  EndsClean->> m n h k = record { ends = λ s. IsClean-after (m s) (λ _. n) (h.ends s) (λ _. k) }

  pub EndsClean-pure : {A : Type 0} (a : A) → EndsClean {W = W} (pure a)
  unfolding pure
  EndsClean-pure a = record { ends = λ s. tt }

  pub EndsClean-get : EndsClean {W = W} get
  unfolding get
  EndsClean-get = record { ends = λ s. tt }

  pub EndsClean-modify : (f : Sdb W → Sdb W) → EndsClean (modify f)
  unfolding modify
  EndsClean-modify f = record { ends = λ s. tt }

  pub EndsClean-undefined_behaviour : (A : Type 0) → EndsClean {W = W} {A = A} undefined_behaviour
  unfolding undefined_behaviour
  EndsClean-undefined_behaviour A = record { ends = λ s. tt }

  pub EndsClean-write_cout : (f : Ostream → Ostream) → EndsClean {W = W} (write_cout f)
  unfolding write_cout
  EndsClean-write_cout f = record { ends = λ s. tt }

  pub EndsClean-write_cerr : (f : Ostream → Ostream) → EndsClean {W = W} (write_cerr f)
  unfolding write_cerr
  EndsClean-write_cerr f = record { ends = λ s. tt }

  pub EndsClean-say : (t : String) → EndsClean {W = W} (say t)
  unfolding say
  EndsClean-say t = record { ends = λ s. tt }

  pub EndsClean-if :
      {A : Type 0} (b : Bool) (m n : M W A)
      → EndsClean m
      → EndsClean n
      → EndsClean (if b then m else n)
  EndsClean-if true m n h k = h
  EndsClean-if false m n h k = k

  pub EndsClean-when_running :
      (message : String) (m : M W (Unit {0})) → EndsClean m → EndsClean (when_running message m)
  unfolding when_running say
  EndsClean-when_running message m h = record {
    ends = λ s. elim (is_running s.state) as (λ b. IsClean (if b then m s else say message s)) [
      | true ↦ h.ends s
      | false ↦ tt
    ];
  }

module _ (os : Os) where
  pub EndsClean-error : (A : Type 0) (f : String) → EndsClean (error os {A = A} f)
  unfolding error
  EndsClean-error A f = record { ends = λ s. refl }

  pub EndsClean-sys : (f : String) (c : os.World → Option os.World) → EndsClean (sys os f c)
  unfolding sys
  EndsClean-sys f c = record {
    ends = λ s. elim (Option-cases (c s.world)) [
      | inl e ↦ rw (e, sys) refl
      | inr (w, e) ↦ rw (e, sys) tt
    ];
  }

  pub EndsClean-ask : (A : Type 0) (f : String) (c : os.World → Option A) → EndsClean (ask os f c)
  unfolding ask
  EndsClean-ask A f c = record {
    ends = λ s. elim (Option-cases (c s.world)) [
      | inl e ↦ rw (e, ask) refl
      | inr (a, e) ↦ rw (e, ask) tt
    ];
  }

  pub EndsClean-sys_result :
      (A : Type 0) (f : String) (c : os.World → Option (A × os.World))
      → EndsClean (sys_result os f c)
  unfolding sys_result
  EndsClean-sys_result A f c = record {
    ends = λ s. elim (Option-cases (c s.world)) [
      | inl e ↦ rw (e, sys_result) refl
      | inr ((a, w), e) ↦ rw (e, sys_result) tt
    ];
  }

pub ruleset clean_rules = (
  EndsClean->>=, EndsClean->>, EndsClean-pure, EndsClean-get, EndsClean-modify,
  EndsClean-undefined_behaviour, EndsClean-write_cout, EndsClean-write_cerr, EndsClean-say,
  EndsClean-if, EndsClean-when_running, EndsClean-error, EndsClean-sys, EndsClean-ask,
  EndsClean-sys_result,
)
