-- ===== src/Debugger/Tests/Progress.antt =====
-- Commands that return on the small kernel.
use nctu_unixprog.Base.{arith, ℕ, refl, List, [], ◌∷◌}
use nctu_unixprog.Debugger.State.{running, Sdb}
use nctu_unixprog.Debugger.Elf.{intext, struct_field, little_endian}
use nctu_unixprog.Debugger.Disasm.{code_offset}
use nctu_unixprog.Debugger.Command.{exec, delete_cmd}
use nctu_unixprog.Debugger.Progress.{IsHealthy, IsCovered}
use nctu_unixprog.Debugger.Progress.Commands.{exec-returns, Returned}
use nctu_unixprog.Debugger.Tests.{toy, toy_state, elf_file}

abbrev toy_files : List ℕ → List ℕ
toy_files path = elf_file

toy-IsHealthy : IsHealthy toy toy_files
toy-IsHealthy = record {
  getregs_ok = λ w pid. tt;
  setregs_ok = λ w pid r. tt;
  poketext_ok = λ w pid a v. tt;
  resume_ok = λ w pid. tt;
  singlestep_ok = λ w pid. tt;
  setoptions_ok = λ w pid. tt;
  waitpid_ok = λ w pid. tt;
  spawn_ok = λ w path. tt;
  read_file_ok = λ w path. refl;
  disassemble_ok = λ code size addr n. tt;
  reads_inside = λ code size addr n h. ground arith;
}

-- A break point at the first instruction.
abbrev listing : Sdb toy.World
listing = toy_state running 7 (record { id = 0; addr = 0x1000; orig_code = 5 } ∷ []) 0x1000 4991

listing-IsCovered : IsCovered toy_files listing
unfolding intext code_offset struct_field little_endian
listing-IsCovered = record { covered = λ a e. ground arith }

exec-returns_example : Returned toy_files (exec toy (delete_cmd 0) listing)
exec-returns_example =
    exec-returns toy toy_files toy-IsHealthy (delete_cmd 0) listing tt (λ e. tt) listing-IsCovered
