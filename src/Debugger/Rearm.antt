-- ===== src/Debugger/Rearm.antt =====
-- `chkbp` of project4/hw4.cpp: which bytes it turns into traps.
use nctu_unixprog.Base.{
  arith, ℕ, ◌≡◌, ◌≢◌, refl, sym, ◌∙◌, subst, inl, inr, Bool-cases, true, ◌&&◌, ltb, if◌then◌else◌,
  some, List, [], ◌∷◌,
}
use nctu_unixprog.Debugger.Os.{Os, IsPtrace, Regs}
use nctu_unixprog.Debugger.State.{Sdb, Bp, running, ◌>>=◌, get, pure, ask}
use nctu_unixprog.Debugger.Keeps.{Post, Post-mono, Post->>}
use nctu_unixprog.Debugger.Regs.{fetch_regs}
use nctu_unixprog.Debugger.Breaks.{listed, bp, rearm, chkbp}
use nctu_unixprog.Debugger.Table.{IsTable}
use nctu_unixprog.Debugger.Patch.Breaks.{Armed, bp-Armed}

-- Every entry is in the table, at an address other than 0.
abbrev pub Within : List Bp → List Bp → Type 0
Within table [] = Unit
Within table (b ∷ bs) = (listed b.addr table ≡ true) × (b.addr ≢ 0) × Within table bs

listed-cons : (a : ℕ) (b : Bp) (bs : List Bp) → listed a bs ≡ true → listed a (b ∷ bs) ≡ true
unfolding listed
listed-cons a b bs h = ground arith

Within-cons : (b : Bp) (table bs : List Bp) → Within table bs → Within (b ∷ table) bs
Within-cons b table [] h = tt
Within-cons b table (c ∷ bs) h = (listed-cons c.addr b table h.0, h.1, Within-cons b table bs h.2)

listed_head : (b : Bp) (bs : List Bp) → listed b.addr (b ∷ bs) ≡ true
unfolding listed
listed_head b bs = ground arith

IsTable-Within : (bs : List Bp) → IsTable bs → Within bs bs
IsTable-Within [] h = tt
IsTable-Within (b ∷ bs) h = (listed_head b bs, h.0, Within-cons b bs bs (IsTable-Within bs h.2))

module _ (os : Os) (P : IsPtrace os) (rip : ℕ) where
  -- The bytes behind rip at the addresses of a list are traps, all others and the table are as before.
  pub record Rearmed (bs : List Bp) (s t : Sdb os.World) : Type 0 where
    pub rearmed_bytes :
        (x : ℕ)
        → P.byte t.world s.pid x
          ≡ (if ltb rip x && listed x bs then 0xcc else P.byte s.world s.pid x)
    pub rearmed_table : t.bp_list ≡ s.bp_list
    pub rearmed_state : t.state ≡ s.state
    pub rearmed_pid : t.pid ≡ s.pid

  -- One round of the loop.
  rearm_one :
      (b : Bp) (s : Sdb os.World)
      → s.state ≡ running
      → listed b.addr s.bp_list ≡ true
      → b.addr ≢ 0
      → Post (Rearmed (b ∷ []) s) ((if ltb rip b.addr then bp os b.addr else pure tt) s)
  unfolding pure listed
  rearm_one b s r l z = elim (Bool-cases (ltb rip b.addr)) [
    | inl h ↦ rw h (
        Post-mono (Armed os P b.addr s) (Rearmed (b ∷ []) s) _
          (λ t a. record {
            rearmed_bytes = λ x. a.armed_bytes x ∙ ground arith;
            rearmed_table = a.armed_table ∙ ground arith;
            rearmed_state = a.armed_state;
            rearmed_pid = a.armed_pid;
          })
          (bp-Armed os P b.addr s r z))
    | inr h ↦ rw h (record {
      rearmed_bytes = λ x. ground arith;
      rearmed_table = refl;
      rearmed_state = refl;
      rearmed_pid = refl;
    })
  ]

  Rearmed-cons :
      (b : Bp) (bs : List Bp) (s t u : Sdb os.World)
      → Rearmed (b ∷ []) s t
      → Rearmed bs t u
      → Rearmed (b ∷ bs) s u
  unfolding listed
  Rearmed-cons b bs s t u h k = record {
    rearmed_bytes = λ x.
        let second : P.byte u.world s.pid x
            ≡ (if ltb rip x && listed x bs then 0xcc else P.byte t.world s.pid x) =
          subst
            (λ p.
              P.byte u.world p x ≡ (if ltb rip x && listed x bs then 0xcc else P.byte t.world p x))
            h.rearmed_pid (k.rearmed_bytes x) in
        ground (arith, second, h.rearmed_bytes x);
    rearmed_table = k.rearmed_table ∙ h.rearmed_table;
    rearmed_state = k.rearmed_state ∙ h.rearmed_state;
    rearmed_pid = k.rearmed_pid ∙ h.rearmed_pid;
  }

  rearm-Rearmed :
      (bs : List Bp) (s : Sdb os.World)
      → s.state ≡ running
      → Within s.bp_list bs
      → Post (Rearmed bs s) (rearm os rip bs s)
  unfolding rearm pure listed
  rearm-Rearmed [] s r w = record {
    rearmed_bytes = λ x. ground arith;
    rearmed_table = refl;
    rearmed_state = refl;
    rearmed_pid = refl;
  }
  rearm-Rearmed (b ∷ bs) s r w =
      Post->> (Rearmed (b ∷ []) s) (Rearmed (b ∷ bs) s) _ (rearm os rip bs) s
        (rearm_one b s r w.0 w.1)
        λ t h.
          Post-mono (Rearmed bs t) (Rearmed (b ∷ bs) s) _ (λ u. Rearmed-cons b bs s t u h)
            (rearm-Rearmed bs t (h.rearmed_state ∙ r)
              (subst (λ l. Within l bs) (sym h.rearmed_table) w.2))

module _ (os : Os) (P : IsPtrace os) where
  -- By the documented behaviour of ptrace, what `chkbp` leaves if it returns, in RUNNING with readable
  -- registers and a table that lists no address twice and not 0: the byte at each listed address above
  -- rip is a trap, and no other byte of the child has changed; the table, the state and the pid stay.
  pub chkbp-Rearmed :
      (regs : Regs) (s : Sdb os.World)
      → s.state ≡ running
      → os.getregs s.world s.pid ≡ some regs
      → IsTable s.bp_list
      → Post (Rearmed os P regs.rip s.bp_list s) (chkbp os s)
  unfolding chkbp fetch_regs ask get ◌>>=◌
  chkbp-Rearmed regs s r e i =
      rw (e, ask) (rearm-Rearmed os P regs.rip s.bp_list s r (IsTable-Within s.bp_list i))
