-- ===== src/Debugger/Tests/Traps.antt =====
-- A trap of CTF/ptrace/no_more_traps/test.cpp on the small kernel.
use nctu_unixprog.Base.{arith, ◌≡◌, refl, some, codes}
use nctu_unixprog.Stream.{digit_char}
use nctu_unixprog.Debugger.Control.{before}
use nctu_unixprog.Debugger.Tests.{toy, toy_ptrace, toy_regs}
use nctu_unixprog.Traps.{Patcher, on_stop, resumed}
use nctu_unixprog.Traps.Patching.{on_stop-Patched, Patched}

-- The child has run into the byte 0xcc at 0xcc.
abbrev caught : Patcher toy.World
caught = record {
  world = record { memory = λ a. a; regs = toy_regs 0xcd; status = 1407 };
  input = codes "48c3";
  traps = 0;
}

on_stop-Patched_example :
    (t : Patcher toy.World) × (on_stop toy 7 caught ≡ some (resumed toy 7 t))
    × Patched toy toy_ptrace 7 (toy_regs 0xcc) 0x48 (codes "c3") caught t
unfolding before digit_char
on_stop-Patched_example =
    on_stop-Patched toy toy_ptrace 7 (toy_regs 0xcd) 4 8 (codes "c3") caught refl refl (omega arith)
      (omega arith) refl (λ c. tt) (λ w. tt)
