-- ===== src/Debugger/Progress.antt =====
-- Runs of project4/hw4.cpp that return: neither an exit nor undefined behaviour. The children are about
-- `disasm` (Disassembly), break points and the child (Control), and all commands (Commands).
pub mod Disassembly
pub mod Control
pub mod Commands
use nctu_unixprog.Base.{
  ℕ, ◌+◌, ◌*◌, ◌≡◌, ◌≤◌, inl, inr, Bool, true, false, Bool-cases, Option-cases, Option, none, some,
  List, String, if◌then◌else◌, length, subst,
}
use nctu_unixprog.Stream.{Ostream}
use nctu_unixprog.Debugger.Os.{Os, Regs}
use nctu_unixprog.Debugger.State.{
  M, Sdb, Outcome, ok, exited, undefined, after, ◌>>=◌, ◌>>◌, pure, get, modify, write_cout,
  write_cerr, say, sys, ask, sys_result, when_running, is_running,
}
use nctu_unixprog.Debugger.Elf.{intext}
use nctu_unixprog.Debugger.Disasm.{code_offset}

abbrev pub IsSome : {A : Type 0} → Option A → Type 0
IsSome none = ⊥
IsSome (some a) = Unit

-- A kernel and a capstone that fail no call, and files that stay as they are.
pub record IsHealthy (os : Os) (files : List ℕ → List ℕ) : Type 0 where
  pub getregs_ok : (w : os.World) (pid : ℕ) → IsSome (os.getregs w pid)
  pub setregs_ok : (w : os.World) (pid : ℕ) (r : Regs) → IsSome (os.setregs w pid r)
  pub poketext_ok : (w : os.World) (pid a v : ℕ) → IsSome (os.poketext w pid a v)
  pub resume_ok : (w : os.World) (pid : ℕ) → IsSome (os.resume w pid)
  pub singlestep_ok : (w : os.World) (pid : ℕ) → IsSome (os.singlestep w pid)
  pub setoptions_ok : (w : os.World) (pid : ℕ) → IsSome (os.setoptions w pid)
  pub waitpid_ok : (w : os.World) (pid : ℕ) → IsSome (os.waitpid w pid)
  pub spawn_ok : (w : os.World) (path : List ℕ) → IsSome (os.spawn w path)
  pub read_file_ok : (w : os.World) (path : List ℕ) → os.read_file w path ≡ some (files path)
  pub disassemble_ok : (code : List ℕ) (size addr n : ℕ) → IsSome (os.disassemble code size addr n)
  -- An instruction has at most 15 bytes, and `cs_disasm` stops at its count.
  pub reads_inside :
      (code : List ℕ) (size addr n : ℕ)
      → 15 * n ≤ length code
      → os.reads_past code size addr n ≡ false

module _ {W A : Type 0} where
  -- The call returns, and so that Q.
  abbrev pub Total : (Sdb W → Type 0) → Outcome W A → Type 0
  Total Q (ok a t) = Q t
  Total Q (exited c t) = ⊥
  Total Q undefined = ⊥

  pub Total-mono :
      (P Q : Sdb W → Type 0) (o : Outcome W A) → ((t : Sdb W) → P t → Q t) → Total P o → Total Q o
  Total-mono P Q (ok a t) h p = h t p
  Total-mono P Q (exited c t) h p = absurd p
  Total-mono P Q undefined h p = absurd p

-- From a state of I the call returns with one of I.
pub record Safe {W A : Type 0} (I : Sdb W → Type 0) (m : M W A) : Type 0 where
  pub run : (s : Sdb W) → I s → Total I (m s)

module _ {W : Type 0} {I : Sdb W → Type 0} where
  Total-after :
      {A B : Type 0} (o : Outcome W A) (f : A → M W B)
      → Total I o
      → ((a : A) → Safe I (f a))
      → Total I (after o f)
  Total-after (ok a t) f h k = (k a).run t h
  Total-after (exited c t) f h k = absurd h
  Total-after undefined f h k = absurd h

  pub Safe->>= :
      {A B : Type 0} (m : M W A) (f : A → M W B)
      → Safe I m
      → ((a : A) → Safe I (f a))
      → Safe I (m >>= f)
  unfolding ◌>>=◌
  Safe->>= m f h k = record { run = λ s i. Total-after (m s) f (h.run s i) k }

  pub Safe->> : {A B : Type 0} (m : M W A) (n : M W B) → Safe I m → Safe I n → Safe I (m >> n)
  unfolding ◌>>◌
  Safe->> m n h k = record { run = λ s i. Total-after (m s) (λ _. n) (h.run s i) (λ _. k) }

  pub Safe-pure : {A : Type 0} (a : A) → Safe I (pure a)
  unfolding pure
  Safe-pure a = record { run = λ s i. i }

  pub Safe-get : Safe I get
  unfolding get
  Safe-get = record { run = λ s i. i }

  pub Safe-if :
      {A : Type 0} (b : Bool) (m n : M W A) → Safe I m → Safe I n → Safe I (if b then m else n)
  Safe-if true m n h k = h
  Safe-if false m n h k = k

  pub Safe-modify : (f : Sdb W → Sdb W) → ((s : Sdb W) → I s → I (f s)) → Safe I (modify f)
  unfolding modify
  Safe-modify f h = record { run = h }

  -- What follows `get` may use that the state is one of I.
  pub Safe-get->>= :
      {A : Type 0} (f : Sdb W → M W A) → ((s : Sdb W) → I s → Total I (f s s)) → Safe I (get >>= f)
  unfolding get ◌>>=◌
  Safe-get->>= f h = record { run = h }

  pub Safe-when_running :
      (message : String) (m : M W (Unit {0}))
      → Safe I (say message)
      → Safe I m
      → Safe I (when_running message m)
  unfolding when_running
  Safe-when_running message m h k = record {
    run = λ s i. elim (is_running s.state) as (λ b. Total I (if b then m s else say message s)) [
      | true ↦ k.run s i
      | false ↦ h.run s i
    ];
  }

-- The bytes that `disasm` works on: those it has, or the file that it will read.
abbrev pub program : {W : Type 0} → (List ℕ → List ℕ) → Sdb W → List ℕ
program files s = elim s.code [ none ↦ files s.file_path | some bytes ↦ bytes ]

-- Behind every address of .text there are 150 of these bytes, for ten instructions.
pub record IsCovered {W : Type 0} (files : List ℕ → List ℕ) (s : Sdb W) : Type 0 where
  pub covered :
      (a : ℕ)
      → intext s.elf a ≡ true
      → code_offset s.elf.text_shdr a + 150 ≤ length (program files s)

module _ {W : Type 0} (files : List ℕ → List ℕ) where
  pub Safe-write_cout : (f : Ostream → Ostream) → Safe {W = W} (IsCovered files) (write_cout f)
  unfolding write_cout
  Safe-write_cout f = record { run = λ s i. record { covered = i.covered } }

  pub Safe-write_cerr : (f : Ostream → Ostream) → Safe {W = W} (IsCovered files) (write_cerr f)
  unfolding write_cerr
  Safe-write_cerr f = record { run = λ s i. record { covered = i.covered } }

  pub Safe-say : (t : String) → Safe {W = W} (IsCovered files) (say t)
  unfolding say
  Safe-say t = record { run = λ s i. record { covered = i.covered } }

module _ (os : Os) (files : List ℕ → List ℕ) where
  pub Safe-sys :
      (f : String) (c : os.World → Option os.World)
      → ((w : os.World) → IsSome (c w))
      → Safe (IsCovered files) (sys os f c)
  unfolding sys
  Safe-sys f c h = record {
    run = λ s i. elim (Option-cases (c s.world)) [
      | inl e ↦ absurd (subst IsSome e (h s.world))
      | inr (w, e) ↦ rw (e, sys) (record { covered = i.covered })
    ];
  }

  pub Safe-ask :
      {A : Type 0} (f : String) (c : os.World → Option A)
      → ((w : os.World) → IsSome (c w))
      → Safe (IsCovered files) (ask os f c)
  unfolding ask
  Safe-ask f c h = record {
    run = λ s i. elim (Option-cases (c s.world)) [
      | inl e ↦ absurd (subst IsSome e (h s.world))
      | inr (a, e) ↦ rw (e, ask) i
    ];
  }

  pub Safe-sys_result :
      {A : Type 0} (f : String) (c : os.World → Option (A × os.World))
      → ((w : os.World) → IsSome (c w))
      → Safe (IsCovered files) (sys_result os f c)
  unfolding sys_result
  Safe-sys_result f c h = record {
    run = λ s i. elim (Option-cases (c s.world)) [
      | inl e ↦ absurd (subst IsSome e (h s.world))
      | inr ((a, w), e) ↦ rw (e, sys_result) (record { covered = i.covered })
    ];
  }

pub ruleset safe_rules = (
  Safe->>=, Safe->>, Safe-pure, Safe-get, Safe-if, Safe-when_running, Safe-write_cout,
  Safe-write_cerr, Safe-say,
)
