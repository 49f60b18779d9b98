-- ===== src/Debugger/Trap.antt =====
-- `chkstat` of project4/hw4.cpp when the child has run into a break point. The child is about break
-- points one byte apart (Adjacent).
pub mod Adjacent
use nctu_unixprog.Base.{
  arith, ℕ, ◌+◌, ◌≡◌, ◌≢◌, refl, sym, ◌∙◌, ap, subst, inl, inr, Bool-cases, Option-cases, true,
  false, ◌&&◌, leb, ltb, if◌then◌else◌, ◌==◌, Option, none, some, List, [], ◌∷◌,
}
use nctu_unixprog.Debugger.Os.{Os, IsPtrace, Regs}
use nctu_unixprog.Debugger.State.{
  M, Sdb, Bp, Outcome, ok, exited, undefined, after, ◌>>=◌, ◌>>◌, get, pure, sys,
}
use nctu_unixprog.Debugger.Keeps.{Post, Post-mono, Post->>, Post-sys}
use nctu_unixprog.Debugger.Regs.{store_regs}
use nctu_unixprog.Debugger.Breaks.{listed, poke}
use nctu_unixprog.Debugger.Control.{before, hit, hit_if, hits}
use nctu_unixprog.Debugger.Patch.{Reads, Reads-IsPreorder, Reads-say, Reads-disasm}
use nctu_unixprog.Debugger.Patch.Words.{poke_back-byte}

-- The entry of an address.
abbrev pub entry_at : ℕ → List Bp → Option Bp
entry_at a [] = none
entry_at a (b ∷ bs) = if b.addr == a then some b else entry_at a bs

abbrev pub rewound : Regs → Regs
rewound regs = record regs { rip = before regs.rip }

module _ {W A B : Type 0} where
  pub pure-after :
      (o : Outcome W (Unit {0})) (a : A) (f : A → M W B)
      → after (after o (λ _. pure a)) f ≡ after o (λ _. f a)
  unfolding pure
  pure-after (ok u s) a f = refl
  pure-after (exited c s) a f = refl
  pure-after undefined a f = refl

module _ (os : Os) where
  -- With no entry just before rip the loop does nothing.
  pub hits_none :
      (bs : List Bp) (regs : Regs) (s : Sdb os.World)
      → listed (before regs.rip) bs ≡ false
      → hits os bs regs s ≡ ok tt s
  unfolding hits hit_if listed pure ◌>>=◌
  hits_none [] regs s h = refl
  hits_none (b ∷ bs) regs s h =
      let no_hit : (b.addr == before regs.rip) ≡ false = ground arith in
      rw no_hit (hits_none bs regs s (ground arith))

module _ (os : Os) where
  pub hits_head :
      (b : Bp) (bs : List Bp) (regs : Regs) (s : Sdb os.World)
      → b.addr ≡ before regs.rip
      → hits os (b ∷ bs) regs s ≡ (hit os b regs >> hits os bs (rewound regs)) s
  unfolding hits hit_if ◌>>=◌ ◌>>◌
  hits_head b bs regs s m =
      let here : (b.addr == before regs.rip) ≡ true = ground arith in
      rw here (pure-after (hit os b regs s) (rewound regs) (λ r. hits os bs r))

module _ (os : Os) (P : IsPtrace os) (v : os.World) (b : Bp) (regs : Regs) where
  -- After a hit rip points at the instruction again, and its word of the world v is back.
  pub record Rewound (s t : Sdb os.World) : Type 0 where
    pub rewound_regs : os.getregs t.world s.pid ≡ some (rewound regs)
    pub rewound_bytes :
        (x : ℕ)
        → P.byte t.world s.pid x ≡ (
            if leb b.addr x && ltb x (b.addr + 8) then P.byte v s.pid x else P.byte s.world s.pid x)
    pub rewound_state : t.state ≡ s.state
    pub rewound_pid : t.pid ≡ s.pid
    pub rewound_table : t.bp_list ≡ s.bp_list

  Rewound-of_Reads : (s k t : Sdb os.World) → Reads s k → Rewound k t → Rewound s t
  Rewound-of_Reads s k t h r = record {
    rewound_regs =
        subst (λ p. os.getregs t.world p ≡ some (rewound regs)) h.reads_pid r.rewound_regs;
    rewound_bytes = λ x.
        subst
          (λ w.
            P.byte t.world s.pid x
            ≡ (if leb b.addr x && ltb x (b.addr + 8) then P.byte v s.pid x else P.byte w s.pid x))
          h.reads_world
          (subst
            (λ p.
              P.byte t.world p x
              ≡ (if leb b.addr x && ltb x (b.addr + 8) then P.byte v p x else P.byte k.world p x))
            h.reads_pid (r.rewound_bytes x));
    rewound_state = r.rewound_state ∙ h.reads_state;
    rewound_pid = r.rewound_pid ∙ h.reads_pid;
    rewound_table = r.rewound_table ∙ h.reads_table;
  }

  stored :
      (s : Sdb os.World) (w : os.World)
      → b.orig_code ≡ os.peektext v s.pid b.addr
      → os.poketext s.world s.pid b.addr b.orig_code ≡ some w
      → Post (Rewound s) (store_regs os (rewound regs) (record s { world = w }))
  unfolding store_regs sys get ◌>>=◌
  stored s w q e = elim (Option-cases (os.setregs w s.pid (rewound regs))) [
    | inl f ↦ rw (f, sys) tt
    | inr (u, f) ↦
        rw (f, sys)
          (record {
            rewound_regs = P.setregs_regs w u s.pid _ f;
            rewound_bytes = λ x.
                P.setregs_bytes w u s.pid _ x f
                ∙ poke_back-byte os P s.world w s.pid b.addr v
                    (subst (λ c. os.poketext s.world s.pid b.addr c ≡ some w) q e) x;
            rewound_state = refl;
            rewound_pid = refl;
            rewound_table = refl;
          })
  ]

  poked :
      (s : Sdb os.World)
      → b.orig_code ≡ os.peektext v s.pid b.addr
      → Post
          (Rewound s)
          ((poke os "ptrace(PTRACE_POKETEXT)" b.addr b.orig_code >> store_regs os (rewound regs)) s)
  unfolding poke get ◌>>=◌ ◌>>◌
  poked s q =
      Post-sys os (Rewound s) s "ptrace(PTRACE_POKETEXT)"
        (λ w. os.poketext w s.pid b.addr b.orig_code) (store_regs os (rewound regs))
        λ w e. stored s w q e

  pub hit-Rewound :
      (s : Sdb os.World)
      → b.orig_code ≡ os.peektext v s.pid b.addr
      → Post (Rewound s) (hit os b regs s)
  unfolding hit
  hit-Rewound s q = Post->> (Reads s) (Rewound s) _ _ s ((Reads-say _).apply s) λ k h.
      Post->> (Reads k) (Rewound s) _ _ k ((Reads-disasm os b.addr 1).apply k) λ l g.
        let both : Reads s l = Reads-IsPreorder.rel_trans s k l h g in
        Post-mono (Rewound l) (Rewound s) _ (λ t. Rewound-of_Reads s l t both)
          (poked l (q ∙ ap (λ p. os.peektext v p b.addr) (sym both.reads_pid)))

  hit_then :
      (bs : List Bp) (s : Sdb os.World)
      → listed (before (before regs.rip)) bs ≡ false
      → b.orig_code ≡ os.peektext v s.pid b.addr
      → Post (Rewound s) (((hit os b regs >> pure (rewound regs)) >>= λ r. hits os bs r) s)
  unfolding ◌>>=◌ ◌>>◌
  hit_then bs s n q = rw (pure-after (hit os b regs s) (rewound regs) (λ r. hits os bs r)) (
      Post->> (Rewound s) (Rewound s) (hit os b regs) (hits os bs (rewound regs)) s
        (hit-Rewound s q)
        λ t h. subst (Post (Rewound s)) (sym (hits_none os bs (rewound regs) t n)) h)

  -- By the documented behaviour of ptrace, what the loop of `chkstat` leaves if it returns, when the
  -- child has stopped one byte behind the address of an entry, whose word is the one there in some world
  -- v, and no entry lies one byte before that: the registers are stored with rip at the address, the
  -- eight bytes there are those of v, no other byte has changed, nor have the table, the state and the
  -- pid.
  pub hits-Rewound :
      (bs : List Bp) (s : Sdb os.World)
      → entry_at (before regs.rip) bs ≡ some b
      → listed (before (before regs.rip)) bs ≡ false
      → b.orig_code ≡ os.peektext v s.pid b.addr
      → Post (Rewound s) (hits os bs regs s)
  unfolding hits hit_if listed pure ◌>>=◌
  hits-Rewound [] s e n q = cc
  hits-Rewound (c ∷ bs) s e n q = elim (Bool-cases (c.addr == before regs.rip)) [
    | inl m ↦ let same : c ≡ b = ground arith in rw m (rw same (hit_then bs s (ground arith) q))
    | inr m ↦ rw m (hits-Rewound bs s (rw m at e) (ground arith) q)
  ]
