-- ===== src/Debugger/Trap/Adjacent.antt =====
-- Break points one byte apart under `chkstat` of project4/hw4.cpp.
use nctu_unixprog.Base.{
  arith, ℕ, ◌+◌, ◌-◌, ◌/◌, ◌%◌, ◌^◌, ◌≡◌, refl, sym, ◌∙◌, subst, true, false, inl, inr,
  Option-cases, some, List, [], ◌∷◌, ◌++◌, ◌==◌, ◌&&◌, leb, ltb,
}
use nctu_unixprog.Debugger.Os.{Os, IsPtrace, Regs}
use nctu_unixprog.Debugger.State.{Sdb, Bp, ◌>>=◌, ◌>>◌, get, pure, sys}
use nctu_unixprog.Debugger.Trap.{rewound, hits_none, hits_head}
use nctu_unixprog.Debugger.Keeps.{Post, Post-mono, Post->>, Post-sys}
use nctu_unixprog.Debugger.Regs.{store_regs}
use nctu_unixprog.Debugger.Patch.{Reads, Reads-IsPreorder, Reads-say, Reads-disasm}
use nctu_unixprog.Debugger.Breaks.{listed, poke}
use nctu_unixprog.Debugger.Control.{before, hit, hit_if, hits}

module _ (os : Os) where
  -- Entries that are not just before rip are passed over.
  hits_skip :
      (xs bs : List Bp) (regs : Regs) (s : Sdb os.World)
      → listed (before regs.rip) xs ≡ false
      → hits os (xs ++ bs) regs s ≡ hits os bs regs s
  unfolding hits hit_if listed pure ◌>>=◌
  hits_skip [] bs regs s h = refl
  hits_skip (x ∷ xs) bs regs s h =
      let no_hit : (x.addr == before regs.rip) ≡ false = ground arith in
      rw no_hit (hits_skip xs bs regs s (ground arith))

module _ (os : Os) (P : IsPtrace os) where
  -- What a hit leaves, whatever word its entry holds: rip on the entry, and that word in its place.
  pub record Hit (b : Bp) (regs : Regs) (s t : Sdb os.World) : Type 0 where
    pub hit_regs : os.getregs t.world s.pid ≡ some (rewound regs)
    pub hit_word :
        (x : ℕ)
        → (leb b.addr x && ltb x (b.addr + 8)) ≡ true
        → P.byte t.world s.pid x ≡ b.orig_code / 256 ^ (x - b.addr) % 256
    pub hit_pid : t.pid ≡ s.pid

  module _ (b : Bp) (regs : Regs) where
    Hit-of_pid : (s k t : Sdb os.World) → k.pid ≡ s.pid → Hit b regs k t → Hit b regs s t
    Hit-of_pid s k t e h = record {
      hit_regs = subst (λ p. os.getregs t.world p ≡ some (rewound regs)) e h.hit_regs;
      hit_word = λ x i.
          subst (λ p. P.byte t.world p x ≡ b.orig_code / 256 ^ (x - b.addr) % 256) e
            (h.hit_word x i);
      hit_pid = h.hit_pid ∙ e;
    }

    stored :
        (s : Sdb os.World) (w : os.World)
        → os.poketext s.world s.pid b.addr b.orig_code ≡ some w
        → Post (Hit b regs s) (store_regs os (rewound regs) (record s { world = w }))
    unfolding store_regs sys get ◌>>=◌
    stored s w e = elim (Option-cases (os.setregs w s.pid (rewound regs))) [
      | inl f ↦ rw (f, sys) tt
      | inr (u, f) ↦
          rw (f, sys)
            (record {
              hit_regs = P.setregs_regs w u s.pid _ f;
              hit_word = λ x i.
                  P.setregs_bytes w u s.pid _ x f
                  ∙ (P.poketext_bytes s.world w s.pid b.addr b.orig_code x e ∙ rw i refl);
              hit_pid = refl;
            })
    ]

    poked :
        (s : Sdb os.World)
        → Post (Hit b regs s) (
            (poke os "ptrace(PTRACE_POKETEXT)" b.addr b.orig_code >> store_regs os (rewound regs))
              s)
    unfolding poke get ◌>>=◌ ◌>>◌
    poked s =
        Post-sys os (Hit b regs s) s "ptrace(PTRACE_POKETEXT)"
          (λ w. os.poketext w s.pid b.addr b.orig_code) (store_regs os (rewound regs))
          λ w e. stored s w e

    hit-Hit : (s : Sdb os.World) → Post (Hit b regs s) (hit os b regs s)
    unfolding hit
    hit-Hit s = Post->> (Reads s) (Hit b regs s) _ _ s ((Reads-say _).apply s) λ k h.
        Post->> (Reads k) (Hit b regs s) _ _ k ((Reads-disasm os b.addr 1).apply k) λ l g.
          let both : Reads s l = Reads-IsPreorder.rel_trans s k l h g in
          Post-mono (Hit b regs l) (Hit b regs s) _ (λ t. Hit-of_pid s l t both.reads_pid) (poked l)

    -- The loop over a table whose first entry just before rip is b.
    hits_from :
        (xs bs : List Bp) (s : Sdb os.World) (Q : Sdb os.World → Type 0)
        → b.addr ≡ before regs.rip
        → listed (before regs.rip) xs ≡ false
        → ((t : Sdb os.World) → Hit b regs s t → Post Q (hits os bs (rewound regs) t))
        → Post Q (hits os (xs ++ (b ∷ bs)) regs s)
    hits_from xs bs s Q m n k =
        subst (Post Q) (sym (hits_skip os xs (b ∷ bs) regs s n ∙ hits_head os b bs regs s m))
          (Post->> (Hit b regs s) Q (hit os b regs) (hits os bs (rewound regs)) s (hit-Hit s) k)

  -- By the documented behaviour of ptrace: where a table holds an entry just before rip, behind it one at
  -- the address one byte further down, and for the rest no address that the loop of `chkstat` compares
  -- with rip in between, the loop, if it returns, has taken the trap for a hit of both: rip is two below,
  -- and the eight bytes at the lower address are the word of its entry, with the trap of the upper one
  -- where that word was saved after it was set.
  pub hits_twice :
      (xs ys zs : List Bp) (b c : Bp) (regs : Regs) (s : Sdb os.World)
      → b.addr ≡ before regs.rip
      → c.addr ≡ before (before regs.rip)
      → listed (before regs.rip) xs ≡ false
      → listed (before (before regs.rip)) ys ≡ false
      → listed (before (before (before regs.rip))) zs ≡ false
      → Post (Hit c (rewound regs) s) (hits os (xs ++ (b ∷ (ys ++ (c ∷ zs)))) regs s)
  hits_twice xs ys zs b c regs s m n i j k =
      hits_from b regs xs (ys ++ (c ∷ zs)) s (Hit c (rewound regs) s) m i λ t h.
        hits_from c (rewound regs) ys zs t (Hit c (rewound regs) s) n j λ u g.
          subst (Post (Hit c (rewound regs) s)) (sym (hits_none os zs (rewound (rewound regs)) u k))
            (Hit-of_pid c (rewound regs) s t u h.hit_pid g)
