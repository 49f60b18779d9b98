-- ===== src/Debugger/Tests/Memories.antt =====
-- The child's memory and registers on the small kernel: `bp`, `del`, `set`, `get`, hits and `chkbp`.
use nctu_unixprog.Base.{arith, ℕ, ◌≡◌, ◌≢◌, refl, false, some, List, [], ◌∷◌, codes, text_eq}
use nctu_unixprog.Debugger.State.{
  running, Sdb, Bp, ok, ◌>>=◌, ◌>>◌, pure, get, modify, write_cout, write_cerr, say, sys,
  sys_result, ask, is_running, when_running,
}
use nctu_unixprog.Debugger.Elf.{little_endian, struct_field, intext}
use nctu_unixprog.Debugger.Disasm.{
  disasm, disasm_running, disasm_at, code_offset, load_code, read_code, print_insns, show_insns,
}
use nctu_unixprog.Debugger.Breaks.{
  bp, bp_running, set_trap, has_trap, with_trap, poke, record_bp, append_bp, listed, new_bp, del,
  del_running, del_entry, find_id, chkbp,
}
use nctu_unixprog.Debugger.Control.{hits, before}
use nctu_unixprog.Debugger.Regs.{
  Reg, reg_of, set_reg, get_reg, assign_reg, store_regs, fetch_regs, show_reg, read_reg, write_reg,
}
use nctu_unixprog.Debugger.Keeps.{Post}
use nctu_unixprog.Debugger.Patch.Breaks.{bp-Armed, Armed, is_known}
use nctu_unixprog.Debugger.Patch.Restore.{del-bp}
use nctu_unixprog.Debugger.Registers.{get_reg-set_reg, StoresGeneral}
use nctu_unixprog.Debugger.Trap.{hits-Rewound, Rewound, entry_at}
use nctu_unixprog.Debugger.Trap.Adjacent.{hits_twice, Hit}
use nctu_unixprog.Debugger.Rearm.{chkbp-Rearmed, Rearmed}
use nctu_unixprog.Debugger.Tests.{toy, toy_ptrace, toy_state, toy_regs, left_by}

abbrev idle : Sdb toy.World
idle = toy_state running 7 [] 0x1000 4991

bp-Armed_example : Post (Armed toy toy_ptrace 0x1000 idle) (bp toy 0x1000 idle)
bp-Armed_example = bp-Armed toy toy_ptrace 0x1000 idle refl (λ e. cc)

abbrev armed : Sdb toy.World
armed = left_by (bp toy 0x1000 idle) idle

abbrev disarmed : Sdb toy.World
disarmed = left_by (del toy 0 armed) armed

bp_runs : bp toy 0x1000 idle ≡ ok tt armed
unfolding bp bp_running set_trap has_trap with_trap poke record_bp append_bp listed new_bp disasm
    disasm_running disasm_at code_offset load_code read_code print_insns show_insns intext
    little_endian struct_field when_running is_running get modify write_cout write_cerr sys
    sys_result ◌>>=◌ ◌>>◌ say pure
bp_runs = refl

del_undoes : del toy 0 armed ≡ ok tt disarmed
unfolding bp bp_running set_trap has_trap with_trap del del_running del_entry find_id poke record_bp
    append_bp listed new_bp disasm disasm_running disasm_at code_offset load_code read_code
    print_insns show_insns intext little_endian struct_field when_running is_running get modify
    write_cout write_cerr sys sys_result ◌>>=◌ ◌>>◌ say pure
del_undoes = refl

unknown : is_known toy toy_ptrace idle 0x1000 ≡ false
unfolding has_trap listed
unknown = refl

del-bp_example :
    ((x : ℕ) → toy_ptrace.byte disarmed.world 7 x ≡ toy_ptrace.byte idle.world 7 x)
    × (disarmed.bp_list ≡ [])
del-bp_example =
    del-bp toy toy_ptrace 0x1000 idle armed disarmed refl (λ e. cc) unknown tt (omega arith) bp_runs
      del_undoes

abbrev rax_set : Sdb toy.World
rax_set = left_by (set_reg toy (codes "rax") 77 idle) idle

set_runs : set_reg toy (codes "rax") 77 idle ≡ ok tt rax_set
unfolding set_reg reg_of text_eq assign_reg store_regs fetch_regs write_reg when_running is_running
    get modify write_cout write_cerr sys sys_result ask ◌>>=◌ ◌>>◌ say pure
set_runs = refl

rax_named : reg_of (codes "rax") ≡ some Reg.rax
unfolding reg_of text_eq
rax_named = refl

toy-StoresGeneral : StoresGeneral toy
toy-StoresGeneral = record {
  general = λ w w' pid r e. (r, toy_ptrace.setregs_regs w w' pid r e, λ q n. refl);
}

get_reg-set_reg_example :
    (get_reg toy (codes "rax") rax_set
      ≡ ok tt (record rax_set { cerr = show_reg (codes "rax") 77 rax_set.cerr }))
    × ((other : List ℕ) (q : Reg)
        → reg_of other ≡ some q
        → q ≢ Reg.flags
        → Reg.rax ≢ q
        → get_reg toy other rax_set
          ≡ ok tt (record rax_set {
            cerr = show_reg other (read_reg q (toy_regs 0x1000)) rax_set.cerr;
          }))
    × ((x : ℕ) → toy_ptrace.byte rax_set.world 7 x ≡ toy_ptrace.byte idle.world 7 x)
get_reg-set_reg_example =
    get_reg-set_reg toy toy_ptrace toy-StoresGeneral (codes "rax") Reg.rax 77 (toy_regs 0x1000) idle
      rax_set refl rax_named (λ e. cc) refl set_runs

-- A break point at 0x1000 was set over the words of `idle`, and its trap has just been executed.
abbrev entry : Bp
entry = record { id = 0; addr = 0x1000; orig_code = toy.peektext idle.world 7 0x1000 }

abbrev trapped : Sdb toy.World
trapped = toy_state running 7 (entry ∷ []) 0x1001 1407

entry_found : entry_at (before 0x1001) (entry ∷ []) ≡ some entry
unfolding before
entry_found = refl

nothing_before : listed (before (before 0x1001)) (entry ∷ []) ≡ false
unfolding before listed
nothing_before = refl

hits-Rewound_example :
    Post
      (Rewound toy toy_ptrace idle.world entry (toy_regs 0x1001) trapped)
      (hits toy (entry ∷ []) (toy_regs 0x1001) trapped)
hits-Rewound_example =
    hits-Rewound toy toy_ptrace idle.world entry (toy_regs 0x1001) (entry ∷ []) trapped entry_found
      nothing_before refl

-- The table of `break 1001` and then `break 1000`: the second word holds the trap of the first.
abbrev upper : Bp
upper = record { id = 0; addr = 0x1001; orig_code = toy.peektext idle.world 7 0x1001 }

abbrev lower : Bp
lower = record { id = 1; addr = 0x1000; orig_code = 0x07060504_0302cc00 }

abbrev both_trapped : Sdb toy.World
both_trapped = toy_state running 7 (upper ∷ lower ∷ []) 0x1002 1407

hits_twice_example :
    Post
      (Hit toy toy_ptrace lower (toy_regs 0x1001) both_trapped)
      (hits toy (upper ∷ lower ∷ []) (toy_regs 0x1002) both_trapped)
unfolding before listed
hits_twice_example =
    hits_twice toy toy_ptrace [] [] [] upper lower (toy_regs 0x1002) both_trapped refl refl refl
      refl refl

abbrev behind : Sdb toy.World
behind = toy_state running 7 (entry ∷ []) 0xff0 4991

chkbp-Rearmed_example : Post (Rearmed toy toy_ptrace 0xff0 (entry ∷ []) behind) (chkbp toy behind)
unfolding listed
chkbp-Rearmed_example =
    chkbp-Rearmed toy toy_ptrace (toy_regs 0xff0) behind refl refl ((λ e. cc), refl, tt)
