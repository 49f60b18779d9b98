-- ===== src/Debugger/Patch.antt =====
-- What project4/hw4.cpp writes into the child's memory, byte by byte. The children are about words
-- (Words), `bp` and `del` (Breaks).
pub mod Words
pub mod Breaks
pub mod Restore
use nctu_unixprog.Base.{
  arith, ℕ, ◌≡◌, refl, sym, Option, none, some, List, [], ◌∷◌, String, if◌then◌else◌, ◌==◌,
}
use nctu_unixprog.Debugger.Os.{Os, Insn}
use nctu_unixprog.Debugger.State.{M, Sdb, modify, say, pure, ◌>>=◌, ◌>>◌}
use nctu_unixprog.Stream.{Ostream}
use nctu_unixprog.Debugger.State.{write_cout, write_cerr}
use nctu_unixprog.Debugger.Keeps.{
  Keeps, Keeps-mono, IsPreorder, Keeps->>=, Keeps->>, Keeps-get, Keeps-modify, Keeps-pure, Keeps-if,
  Keeps-when_running, Keeps-undefined_behaviour, Keeps-error, Same, Same-say,
}
use nctu_unixprog.Debugger.Quiet.{Same-disasm}
use nctu_unixprog.Debugger.Disasm.{
  disasm, disasm_running, disasm_at, print_insns, load_code, read_code,
}

-- Nothing was asked of the kernel that changes the child.
pub record Reads {W : Type 0} (s t : Sdb W) : Type 0 where
  pub reads_world : t.world ≡ s.world
  pub reads_state : t.state ≡ s.state
  pub reads_pid : t.pid ≡ s.pid
  pub reads_table : t.bp_list ≡ s.bp_list

pub Reads-IsPreorder : {W : Type 0} → IsPreorder (Reads {W = W})
Reads-IsPreorder = record { rel_refl = λ s. ground arith; rel_trans = λ s t u h k. ground arith }

module _ {W : Type 0} where
  pub Reads-say : (t : String) → Keeps (Reads {W = W}) (say t)
  unfolding say
  Reads-say t = record { apply = λ s. ground arith }

  pub Reads-write_cerr : (f : Ostream → Ostream) → Keeps (Reads {W = W}) (write_cerr f)
  unfolding write_cerr
  Reads-write_cerr f = record { apply = λ s. ground arith }

ruleset reads_rules = (
  Reads-IsPreorder, Keeps->>=, Keeps->>, Keeps-get, Keeps-pure, Keeps-if, Keeps-when_running,
  Keeps-undefined_behaviour, Keeps-error, Reads-say, Reads-write_cerr,
)

module _ (os : Os) where
  Reads-read_code : (o : Option (List ℕ)) → Keeps Reads (read_code os o)
  unfolding read_code
  Reads-read_code none = search reads_rules
  Reads-read_code (some bytes) = Keeps-modify _ (λ s. ground arith)

  Reads-load_code : (o : Option (List ℕ)) → Keeps Reads (load_code os o)
  unfolding load_code
  Reads-load_code none = search (reads_rules, Reads-read_code)
  Reads-load_code (some bytes) = search reads_rules

  Reads-print_insns : (o : Option (List Insn)) → Keeps Reads (print_insns os o)
  unfolding print_insns
  Reads-print_insns none = search reads_rules
  Reads-print_insns (some []) = search reads_rules
  Reads-print_insns (some (i ∷ is)) = search reads_rules

  Reads-disasm_at :
      (offset addr size n : ℕ) (o : Option (List ℕ))
      → Keeps Reads (disasm_at os offset addr size n o)
  unfolding disasm_at
  Reads-disasm_at offset addr size n none = search reads_rules
  Reads-disasm_at offset addr size n (some code) = search (reads_rules, Reads-print_insns)

  -- `disasm` prints, and may read the program's file.
  pub Reads-disasm : (a n : ℕ) → Keeps Reads (disasm os a n)
  unfolding disasm disasm_running
  Reads-disasm a n = search (reads_rules, Reads-load_code, Reads-disasm_at) depth 9
