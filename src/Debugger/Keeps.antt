-- ===== src/Debugger/Keeps.antt =====
-- How a command relates the state before it to the state after it, composed along the monad.
use nctu_unixprog.Base.{
  arith, ℕ, ◌≡◌, subst, ap, inl, inr, Bool-cases, Option-cases, Bool, true, false, String, Option,
  some, if◌then◌else◌,
}
use nctu_unixprog.Stream.{Ostream}
use nctu_unixprog.Debugger.Os.{Os}
use nctu_unixprog.Debugger.State.{
  M, Sdb, Outcome, ok, exited, undefined, after, ◌>>=◌, ◌>>◌, pure, get, modify, exit,
  undefined_behaviour, write_cout, write_cerr, say, error, sys, ask, sys_result, when_running,
  is_running, running,
}

module _ {W A : Type 0} where
  -- What holds of the state that a call returns with. A process that is over has none.
  abbrev pub Post : (Sdb W → Type 0) → Outcome W A → Type 0
  Post Q (ok a t) = Q t
  Post Q (exited c t) = Unit
  Post Q undefined = Unit

  pub Post-mono :
      (P Q : Sdb W → Type 0) (o : Outcome W A) → ((t : Sdb W) → P t → Q t) → Post P o → Post Q o
  Post-mono P Q (ok a t) h p = h t p
  Post-mono P Q (exited c t) h p = tt
  Post-mono P Q undefined h p = tt

pub record Keeps {W A : Type 0} (R : Sdb W → Sdb W → Type 0) (m : M W A) : Type 0 where
  pub apply : (s : Sdb W) → Post (R s) (m s)

module _ {W A : Type 0} {R : Sdb W → Sdb W → Type 0} {m : M W A} where
  pub Keeps-ok : Keeps R m → (s t : Sdb W) (a : A) → m s ≡ ok a t → R s t
  Keeps-ok k s t a e = subst (Post (R s)) e (k.apply s)

  pub Keeps-mono :
      {Q : Sdb W → Sdb W → Type 0} → ((s t : Sdb W) → R s t → Q s t) → Keeps R m → Keeps Q m
  Keeps-mono {Q} h k = record { apply = λ s. Post-mono (R s) (Q s) (m s) (h s) (k.apply s) }

-- A relation that composes.
pub record IsPreorder {W : Type 0} (R : Sdb W → Sdb W → Type 0) : Type 0 where
  pub rel_refl : (s : Sdb W) → R s s
  pub rel_trans : (s t u : Sdb W) → R s t → R t u → R s u

module _ {W : Type 0} {R : Sdb W → Sdb W → Type 0} (P : IsPreorder R) where
  Post-after :
      {A B : Type 0} (s : Sdb W) (o : Outcome W A) (f : A → M W B)
      → Post (R s) o
      → ((a : A) → Keeps R (f a))
      → Post (R s) (after o f)
  Post-after s (ok a t) f h k =
      Post-mono (R t) (R s) (f a t) (λ u. P.rel_trans s t u h) ((k a).apply t)
  Post-after s (exited c t) f h k = tt
  Post-after s undefined f h k = tt

  pub Keeps->>= :
      {A B : Type 0} (m : M W A) (f : A → M W B)
      → Keeps R m
      → ((a : A) → Keeps R (f a))
      → Keeps R (m >>= f)
  unfolding ◌>>=◌
  Keeps->>= m f h k = record { apply = λ s. Post-after s (m s) f (h.apply s) k }

  pub Keeps->> : {A B : Type 0} (m : M W A) (n : M W B) → Keeps R m → Keeps R n → Keeps R (m >> n)
  unfolding ◌>>◌
  Keeps->> m n h k = record { apply = λ s. Post-after s (m s) (λ _. n) (h.apply s) (λ _. k) }

  pub Keeps-pure : {A : Type 0} (a : A) → Keeps R (pure a)
  unfolding pure
  Keeps-pure a = record { apply = λ s. P.rel_refl s }

  pub Keeps-get : Keeps R get
  unfolding get
  Keeps-get = record { apply = λ s. P.rel_refl s }

module _ {W : Type 0} {R : Sdb W → Sdb W → Type 0} where
  pub Keeps-exit : (A : Type 0) (c : ℕ) → Keeps {A = A} R (exit c)
  unfolding exit
  Keeps-exit A c = record { apply = λ s. tt }

  pub Keeps-undefined_behaviour : (A : Type 0) → Keeps {A = A} R undefined_behaviour
  unfolding undefined_behaviour
  Keeps-undefined_behaviour A = record { apply = λ s. tt }

  pub Keeps-if :
      {A : Type 0} (b : Bool) (m n : M W A) → Keeps R m → Keeps R n → Keeps R (if b then m else n)
  Keeps-if true m n h k = h
  Keeps-if false m n h k = k

  pub Keeps-modify : (f : Sdb W → Sdb W) → ((s : Sdb W) → R s (f s)) → Keeps R (modify f)
  unfolding modify
  Keeps-modify f h = record { apply = h }

  pub Keeps-when_running :
      (message : String) (m : M W (Unit {0}))
      → Keeps R (say message)
      → Keeps R m
      → Keeps R (when_running message m)
  unfolding when_running
  Keeps-when_running message m h k = record {
    apply = λ s. elim (is_running s.state) as (λ b. Post (R s) (if b then m s else say message s)) [
      | true ↦ k.apply s
      | false ↦ h.apply s
    ];
  }

  -- The body may use that the state is RUNNING.
  pub Keeps-running :
      (message : String) (m : M W (Unit {0}))
      → Keeps R (say message)
      → ((s : Sdb W) → is_running s.state ≡ true → Post (R s) (m s))
      → Keeps R (when_running message m)
  unfolding when_running
  Keeps-running message m h k = record {
    apply = λ s. elim (Bool-cases (is_running s.state)) [
      | inl e ↦ rw (e, when_running) (k s e)
      | inr e ↦ rw (e, when_running) (h.apply s)
    ];
  }

  -- A branch on the state that `get` returns.
  pub Keeps-get->>= :
      {A : Type 0} (f : Sdb W → M W A) → ((s : Sdb W) → Post (R s) (f s s)) → Keeps R (get >>= f)
  unfolding get ◌>>=◌
  Keeps-get->>= f h = record { apply = h }

-- A command that only prints, reads and calls the kernel leaves these as they were.
pub record Same {W : Type 0} (s t : Sdb W) : Type 0 where
  pub same_state : t.state ≡ s.state
  pub same_pid : t.pid ≡ s.pid
  pub same_table : t.bp_list ≡ s.bp_list
  pub same_elf : t.elf ≡ s.elf
  pub same_path : t.file_path ≡ s.file_path

pub Same-IsPreorder : {W : Type 0} → IsPreorder (Same {W = W})
Same-IsPreorder = record { rel_refl = λ s. ground arith; rel_trans = λ s t u h k. ground arith }

module _ {W : Type 0} where
  pub Same-write_cout : (f : Ostream → Ostream) → Keeps (Same {W = W}) (write_cout f)
  unfolding write_cout
  Same-write_cout f = record { apply = λ s. ground arith }

  pub Same-write_cerr : (f : Ostream → Ostream) → Keeps (Same {W = W}) (write_cerr f)
  unfolding write_cerr
  Same-write_cerr f = record { apply = λ s. ground arith }

  pub Same-say : (t : String) → Keeps (Same {W = W}) (say t)
  unfolding say
  Same-say t = record { apply = λ s. ground arith }

module _ (os : Os) where
  pub Keeps-error :
      {R : Sdb os.World → Sdb os.World → Type 0} (A : Type 0) (f : String)
      → Keeps R (error os {A = A} f)
  unfolding error
  Keeps-error A f = record { apply = λ s. tt }

  pub Same-sys : (f : String) (c : os.World → Option os.World) → Keeps Same (sys os f c)
  unfolding sys
  Same-sys f c = record { apply = λ s. ground arith }

  pub Same-ask : (A : Type 0) (f : String) (c : os.World → Option A) → Keeps Same (ask os f c)
  unfolding ask
  Same-ask A f c = record { apply = λ s. ground arith }

  pub Same-sys_result :
      (A : Type 0) (f : String) (c : os.World → Option (A × os.World))
      → Keeps Same (sys_result os f c)
  unfolding sys_result
  Same-sys_result A f c = record { apply = λ s. ground arith }

-- In RUNNING a command goes on.
pub when_running-runs :
    {W : Type 0} (message : String) (m : M W (Unit {0})) (s : Sdb W)
    → s.state ≡ running
    → when_running message m s ≡ m s
unfolding when_running is_running
when_running-runs message m s r = ap (λ k. if is_running k then m s else say message s) r

-- Stepping through a sequence, with what holds between its parts.
module _ {W A B : Type 0} (P Q : Sdb W → Type 0) where
  then-Post :
      (o : Outcome W A) (k : M W B)
      → Post P o
      → ((t : Sdb W) → P t → Post Q (k t))
      → Post Q (after o (λ _. k))
  then-Post (ok a t) k h g = g t h
  then-Post (exited c t) k h g = tt
  then-Post undefined k h g = tt

  pub Post->> :
      (m : M W A) (k : M W B) (s : Sdb W)
      → Post P (m s)
      → ((t : Sdb W) → P t → Post Q (k t))
      → Post Q ((m >> k) s)
  unfolding ◌>>◌
  Post->> m k s h g = then-Post (m s) k h g

-- Stepping through a call of the kernel, with what it returned.
module _ (os : Os) {B : Type 0} (Q : Sdb os.World → Type 0) (s : Sdb os.World) where
  pub Post-sys_result :
      {A : Type 0} (f : String) (c : os.World → Option (A × os.World)) (k : A → M os.World B)
      → ((a : A) (w : os.World) → c s.world ≡ some (a, w) → Post Q (k a (record s { world = w })))
      → Post Q ((sys_result os f c >>= k) s)
  unfolding sys_result ◌>>=◌
  Post-sys_result f c k h = elim (Option-cases (c s.world)) [
    | inl e ↦ rw (e, sys_result) tt
    | inr ((a, w), e) ↦ rw (e, sys_result) (h a w e)
  ]

  pub Post-sys :
      (f : String) (c : os.World → Option os.World) (k : M os.World B)
      → ((w : os.World) → c s.world ≡ some w → Post Q (k (record s { world = w })))
      → Post Q ((sys os f c >> k) s)
  unfolding sys ◌>>◌
  Post-sys f c k h = elim (Option-cases (c s.world)) [
    | inl e ↦ rw (e, sys) tt
    | inr (w, e) ↦ rw (e, sys) (h w e)
  ]

-- The rules that prove `Keeps Same` of a `do` block.
pub ruleset same_rules = (
  Keeps->>=, Keeps->>, Keeps-pure, Keeps-get, Keeps-exit, Keeps-undefined_behaviour, Keeps-if,
  Keeps-when_running, Same-IsPreorder, Same-write_cout, Same-write_cerr, Same-say, Keeps-error,
  Same-sys, Same-ask, Same-sys_result,
)
