-- ===== src/Debugger/Patch/Breaks.antt =====
-- `bp` and `del` of project4/hw4.cpp on the child's memory and on the table.
use nctu_unixprog.Base.{
  arith, ℕ, ◌+◌, ◌≡◌, ◌≢◌, refl, ◌∙◌, ap, inl, inr, Bool-cases, Bool, true, false, ◌||◌,
  if◌then◌else◌, ◌==◌, some, [], ◌∷◌, ◌++◌,
}
use nctu_unixprog.Debugger.Os.{Os, IsPtrace}
use nctu_unixprog.Debugger.State.{Sdb, running, ◌>>=◌, ◌>>◌, get, modify, say, pure}
use nctu_unixprog.Debugger.Keeps.{Post, Post-mono, Post-sys, Keeps, Keeps->>, when_running-runs}
use nctu_unixprog.Debugger.Disasm.{disasm}
use nctu_unixprog.Debugger.Breaks.{
  listed, new_bp, has_trap, with_trap, poke, bp, bp_running, set_trap, record_bp, append_bp,
}
use nctu_unixprog.Debugger.Patch.{Reads, Reads-IsPreorder, Reads-say, Reads-disasm}
use nctu_unixprog.Debugger.Patch.Words.{has_trap_lem, poke_trap-byte}

module _ (os : Os) (P : IsPtrace os) where
  -- The word at an address, and whether `bp` will add it to the table.
  abbrev pub word_at : Sdb os.World → ℕ → ℕ
  word_at s a = os.peektext s.world s.pid a

  abbrev pub is_known : Sdb os.World → ℕ → Bool
  is_known s a = has_trap (word_at s a) || listed a s.bp_list

  -- What `bp` leaves.
  pub record Armed (a : ℕ) (s t : Sdb os.World) : Type 0 where
    pub armed_state : t.state ≡ s.state
    pub armed_pid : t.pid ≡ s.pid
    pub armed_bytes :
        (x : ℕ) → P.byte t.world s.pid x ≡ (if x == a then 0xcc else P.byte s.world s.pid x)
    pub armed_table :
        t.bp_list
        ≡ (if is_known s a then s.bp_list else s.bp_list ++ new_bp s.bp_list a (word_at s a) ∷ [])

  module _ (a : ℕ) (s : Sdb os.World) where
    trap_byte : has_trap (word_at s a) ≡ true → P.byte s.world s.pid a ≡ 0xcc
    trap_byte h =
        let at_word : has_trap (word_at s a) ≡ (P.byte s.world s.pid (a + 0) == 0xcc) =
          ap has_trap (P.peektext_bytes s.world s.pid a)
          ∙ has_trap_lem (λ i. P.byte s.world s.pid (a + i))
              (λ i. P.byte-lt s.world s.pid (a + i)) in
        let here : P.byte s.world s.pid (a + 0) ≡ 0xcc = ground arith in
        ap (P.byte s.world s.pid) (omega arith) ∙ here

    already : has_trap (word_at s a) ≡ true → Armed a s s
    already h = record {
      armed_state = refl;
      armed_pid = refl;
      armed_bytes = λ x. elim (Bool-cases (x == a)) [
        | inl q ↦ rw q (ap (P.byte s.world s.pid) (ground arith) ∙ trap_byte h)
        | inr q ↦ rw q
      ];
      armed_table = rw h;
    }

    Reads-set_bp : Keeps Reads (say {W = os.World} "**   set bp @ " >> disasm os a 1)
    Reads-set_bp = Keeps->> Reads-IsPreorder _ _ (Reads-say _) (Reads-disasm os a 1)

    newly :
        (w : os.World)
        → has_trap (word_at s a) ≡ false
        → os.poketext s.world s.pid a (with_trap (word_at s a)) ≡ some w
        → Post (Armed a s) (record_bp os a (word_at s a) (record s { world = w }))
    unfolding record_bp append_bp modify pure get ◌>>=◌ ◌>>◌
    newly w h e = elim (Bool-cases (listed a s.bp_list)) [
      | inl l ↦ rw l (record {
        armed_state = refl;
        armed_pid = refl;
        armed_bytes = poke_trap-byte os P s.world w s.pid a e;
        armed_table = rw h (rw l);
      })
      | inr l ↦ rw l (
          Post-mono (Reads added) (Armed a s) _
            (λ t k. record {
              armed_state = k.reads_state;
              armed_pid = k.reads_pid;
              armed_bytes = λ x.
                  ap (λ v. P.byte v s.pid x) k.reads_world
                  ∙ poke_trap-byte os P s.world w s.pid a e x;
              armed_table = rw h (rw l k.reads_table);
            })
            (Reads-set_bp.apply added))
    ]
      where
        added : Sdb os.World
        added = record s { world = w; bp_list = s.bp_list ++ new_bp s.bp_list a (word_at s a) ∷ [] }

    -- By the documented behaviour of ptrace, what `bp` at an address other than 0 in RUNNING leaves if
    -- it returns: the byte there is a trap, and no other byte has changed. The table has one entry more
    -- at its end, with the word of before, unless there was a trap already or the address is listed.
    -- State and pid are as before.
    pub bp-Armed : s.state ≡ running → a ≢ 0 → Post (Armed a s) (bp os a s)
    unfolding bp bp_running set_trap poke pure get ◌>>=◌ ◌>>◌
    bp-Armed r z = rw (when_running-runs _ _ s r) (
        let nonzero : (a == 0) ≡ false = ground arith in
        rw nonzero (elim (Bool-cases (has_trap (word_at s a))) [
          | inl h ↦ rw h (already h)
          | inr h ↦ rw h (Post-sys os (Armed a s) s _ _ _ (λ w e. newly w h e))
        ]))
