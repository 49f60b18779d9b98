-- ===== src/Debugger/Patch/Restore.antt =====
-- `del` of project4/hw4.cpp on the child's memory, and `bp` undone by `del`.
use nctu_unixprog.Base.{
  arith, ℕ, ◌+◌, ◌<◌, ◌^◌, ◌≡◌, ◌≢◌, refl, sym, ◌∙◌, ap, subst, inl, inr, Bool-cases, true, false,
  ◌&&◌, leb, ltb, if◌then◌else◌, ◌==◌, some, List, [], ◌∷◌, ◌++◌, length, length-append, erase_at,
  get_elem?,
}
use nctu_unixprog.Debugger.Os.{Os, IsPtrace}
use nctu_unixprog.Debugger.State.{Sdb, Bp, running, ok, ◌>>=◌, ◌>>◌, get, modify}
use nctu_unixprog.Debugger.Keeps.{Post, Post-mono, Post->>, Post-sys, when_running-runs}
use nctu_unixprog.Debugger.Breaks.{new_bp, find_id, poke, bp, del, del_running, del_entry}
use nctu_unixprog.Debugger.Ids.{IsIndexed, new_bp-IsIndexed, find_id-IsIndexed}
use nctu_unixprog.Debugger.Patch.{Reads, Reads-say, Reads-disasm}
use nctu_unixprog.Debugger.Patch.Words.{poke_back-byte}
use nctu_unixprog.Debugger.Patch.Breaks.{word_at, is_known, Armed, bp-Armed}

module _ (os : Os) (P : IsPtrace os) where
  -- What `del` leaves of a state t, where the entry's word was read in the world v.
  pub record Restored (v : os.World) (id : ℕ) (b : Bp) (t u : Sdb os.World) : Type 0 where
    pub restored_table : u.bp_list ≡ erase_at id t.bp_list
    pub restored_bytes :
        (x : ℕ)
        → P.byte u.world t.pid x ≡ (
            if leb b.addr x && ltb x (b.addr + 8) then P.byte v t.pid x else P.byte t.world t.pid x)

  module _ (v : os.World) (id : ℕ) (b : Bp) where
    Restored-of_Reads :
        (t k u : Sdb os.World) → Reads t k → Restored v id b k u → Restored v id b t u
    Restored-of_Reads t k u h r = record {
      restored_table = r.restored_table ∙ ap (erase_at id) h.reads_table;
      restored_bytes = λ x.
          subst
            (λ w.
              P.byte u.world t.pid x
              ≡ (if leb b.addr x && ltb x (b.addr + 8) then P.byte v t.pid x else P.byte w t.pid x))
            h.reads_world
            (subst
              (λ p.
                P.byte u.world p x
                ≡ (if leb b.addr x && ltb x (b.addr + 8) then P.byte v p x else P.byte k.world p x))
              h.reads_pid (r.restored_bytes x));
    }

    erase_poked :
        (t : Sdb os.World)
        → b.orig_code ≡ os.peektext v t.pid b.addr
        → Post (Restored v id b t) (
            (poke os "ptrace(PTRACE_POKETEXT)" b.addr b.orig_code
                >> modify (λ k. record k { bp_list = erase_at id k.bp_list }))
              t)
    unfolding poke get modify ◌>>=◌ ◌>>◌
    erase_poked t q =
        Post-sys os (Restored v id b t) t "ptrace(PTRACE_POKETEXT)"
          (λ w. os.poketext w t.pid b.addr b.orig_code)
          (modify (λ k. record k { bp_list = erase_at id k.bp_list }))
          λ w e. record {
            restored_table = refl;
            restored_bytes =
                poke_back-byte os P t.world w t.pid b.addr v
                  (subst (λ c. os.poketext t.world t.pid b.addr c ≡ some w) q e);
          }

    restore :
        (t : Sdb os.World)
        → b.orig_code ≡ os.peektext v t.pid b.addr
        → Post (Restored v id b t) (del_entry os id (some b) t)
    unfolding del_entry
    restore t q =
        Post->> (Reads t) (Restored v id b t) _ _ t ((Reads-disasm os b.addr 1).apply t) λ k h.
          Post-mono (Restored v id b k) (Restored v id b t) _ (λ u. Restored-of_Reads t k u h)
            (erase_poked k (q ∙ ap (λ p. os.peektext v p b.addr) (sym h.reads_pid)))

    pub del-Restored :
        (t : Sdb os.World)
        → t.state ≡ running
        → find_id id t.bp_list ≡ true
        → get_elem? t.bp_list id ≡ some b
        → b.orig_code ≡ os.peektext v t.pid b.addr
        → Post (Restored v id b t) (del os id t)
    unfolding del del_running get ◌>>=◌
    del-Restored t r f g q = rw (when_running-runs _ _ t r) (
        rw f (
          rw g (
            Post->> (Reads t) (Restored v id b t) _ _ t ((Reads-say _).apply t) λ k h.
              Post-mono (Restored v id b k) (Restored v id b t) _ (λ u. Restored-of_Reads t k u h)
                (restore k (q ∙ ap (λ p. os.peektext v p b.addr) (sym h.reads_pid))))))

get_elem?-append_last :
    {A : Type 0} (bs : List A) (b : A) → get_elem? (bs ++ b ∷ []) (length bs) ≡ some b
get_elem?-append_last [] b = refl
get_elem?-append_last (c ∷ bs) b = get_elem?-append_last bs b

erase-append_last : {A : Type 0} (bs : List A) (b : A) → erase_at (length bs) (bs ++ b ∷ []) ≡ bs
erase-append_last [] b = refl
erase-append_last (c ∷ bs) b = ap (◌∷◌ c) (erase-append_last bs b)

module _ (os : Os) (P : IsPtrace os) where
  module _ (a : ℕ) (s t u : Sdb os.World) (armed : Armed os P a s t) where
    unpatched :
        Restored os P s.world (length s.bp_list) (new_bp s.bp_list a (word_at os P s a)) t u
        → (x : ℕ) → P.byte u.world s.pid x ≡ P.byte s.world s.pid x
    unfolding new_bp
    unpatched h x = elim (Bool-cases (leb a x && ltb x (a + 8))) [
      | inl c ↦ rw c at back
      | inr c ↦ (rw c at back) ∙ armed.armed_bytes x ∙ other c
    ]
      where
        back :
            P.byte u.world s.pid x
            ≡ (if leb a x && ltb x (a + 8) then P.byte s.world s.pid x else P.byte t.world s.pid x)
        back =
            subst
              (λ p.
                P.byte u.world p x
                ≡ (if leb a x && ltb x (a + 8) then P.byte s.world p x else P.byte t.world p x))
              armed.armed_pid (h.restored_bytes x)

        other :
            (leb a x && ltb x (a + 8)) ≡ false
            → (if x == a then 0xcc else P.byte s.world s.pid x) ≡ P.byte s.world s.pid x
        other c = ground arith

  -- By the documented behaviour of ptrace `delete` undoes `break`: in RUNNING, at an address other than
  -- 0 that is neither trapped nor listed, while every id is its entry's index and the table is shorter
  -- than 2^31, `break` followed by `delete` with the new entry's id, if both return, leaves every byte
  -- of the child's memory and the table as they were.
  pub del-bp :
      (a : ℕ) (s t u : Sdb os.World)
      → s.state ≡ running
      → a ≢ 0
      → is_known os P s a ≡ false
      → IsIndexed 0 s.bp_list
      → length s.bp_list < 2 ^ 31
      → bp os a s ≡ ok tt t
      → del os (length s.bp_list) t ≡ ok tt u
      → ((x : ℕ) → P.byte u.world s.pid x ≡ P.byte s.world s.pid x) × (u.bp_list ≡ s.bp_list)
  unfolding new_bp
  del-bp a s t u r z k i l e d =
      (unpatched a s t u armed back, back.restored_table ∙ rw table (erase-append_last s.bp_list n))
    where
      n : Bp
      n = new_bp s.bp_list a (word_at os P s a)

      armed : Armed os P a s t
      armed = subst (Post (Armed os P a s)) e (bp-Armed os P a s r z)

      table : t.bp_list ≡ s.bp_list ++ n ∷ []
      table = armed.armed_table ∙ rw k

      indexed : IsIndexed 0 t.bp_list
      indexed = rw table (new_bp-IsIndexed s.bp_list a _ l i)

      found : find_id (length s.bp_list) t.bp_list ≡ true
      found =
          find_id-IsIndexed 0 (length s.bp_list) _ t.bp_list (omega arith) indexed
            (omega (arith, ap length table, length-append s.bp_list (n ∷ [])))

      back : Restored os P s.world (length s.bp_list) n t u
      back = subst (Post (Restored os P s.world (length s.bp_list) n t)) d (
          del-Restored os P s.world (length s.bp_list) n t (armed.armed_state ∙ r) found
            (rw table (get_elem?-append_last s.bp_list n))
            (ap (λ p. os.peektext s.world p a) (sym armed.armed_pid)))
