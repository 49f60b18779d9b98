-- ===== src/Debugger/Progress/Disassembly.antt =====
-- `disasm` of project4/hw4.cpp stays inside the bytes of the program.
use nctu_unixprog.Base.{
  arith, ℕ, ◌+◌, length-drop, ◌≡◌, ◌≤◌, refl, inl, inr, true, false, Bool-cases, Option, none, some,
  List, [], ◌∷◌, ◌==◌, ltb, length, drop,
}
use nctu_unixprog.Debugger.Os.{Os, Insn}
use nctu_unixprog.Debugger.State.{Sdb, ◌>>=◌, ◌>>◌, pure, get, modify}
use nctu_unixprog.Debugger.Elf.{intext}
use nctu_unixprog.Debugger.Disasm.{
  disasm, disasm_running, disasm_at, print_insns, load_code, read_code, code_offset,
}
use nctu_unixprog.Debugger.Progress.{
  IsSome, IsHealthy, Total, Safe, Safe-get->>=, Safe-when_running, Safe-say, Safe-write_cerr,
  IsCovered,
}

module _ (os : Os) (files : List ℕ → List ℕ) (H : IsHealthy os files) where
  Safe-print_insns : (o : Option (List Insn)) → IsSome o → Safe (IsCovered files) (print_insns os o)
  unfolding print_insns
  Safe-print_insns none h = absurd h
  Safe-print_insns (some []) h = Safe-say files _
  Safe-print_insns (some (i ∷ is)) h = Safe-write_cerr files _

  disasm_at-Total :
      (offset a n size : ℕ) (code : List ℕ) (s : Sdb os.World)
      → n ≤ 10
      → offset + 150 ≤ length code
      → IsCovered files s
      → Total (IsCovered files) (disasm_at os offset a n size (some code) s)
  unfolding disasm_at
  disasm_at-Total offset a n size code s m l i =
      let inside : ltb (length code) offset ≡ false = ground arith in
      let past : os.reads_past (drop offset code) size a n ≡ false =
        H.reads_inside (drop offset code) size a n (omega (arith, length-drop offset code)) in
      rw inside
        (rw past ((Safe-print_insns _ (H.disassemble_ok (drop offset code) size a n)).run s i))

  -- With the bytes read before, and with the file.
  located-Total :
      (a n : ℕ) (s : Sdb os.World) (o : Option (List ℕ))
      → n ≤ 10
      → s.code ≡ o
      → intext s.elf a ≡ true
      → IsCovered files s
      → Total (IsCovered files) (
          (load_code os o
              >> (get >>= λ t. disasm_at os (code_offset t.elf.text_shdr a) a n t.code_size t.code))
            s)
  unfolding load_code read_code get pure modify ◌>>=◌ ◌>>◌
  located-Total a n s (some bytes) m e x i = rw e (
      disasm_at-Total _ a n s.code_size bytes _ m (rw e at i.covered a x)
        (record { covered = λ b y. rw e at i.covered b y }))
  located-Total a n s none m e x i = rw (H.read_file_ok s.world s.file_path) (
      disasm_at-Total _ a n _ (files s.file_path) _ m (rw e at i.covered a x)
        (record { covered = λ b y. rw e at i.covered b y }))

  pub Safe-disasm : (a n : ℕ) → n ≤ 10 → Safe (IsCovered files) (disasm os a n)
  unfolding disasm disasm_running
  Safe-disasm a n m = Safe-when_running _ _ (Safe-say files _) (
      Safe-get->>= _ λ s i. elim (Bool-cases (a == 0)) [
        | inl z ↦ rw z ((Safe-say files _).run s i)
        | inr z ↦ rw z (elim (Bool-cases (intext s.elf a)) [
          | inl x ↦ rw x (located-Total a n s s.code m refl x i)
          | inr x ↦ rw x ((Safe-say files _).run s i)
        ])
      ])
