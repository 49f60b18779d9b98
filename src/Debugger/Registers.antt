-- ===== src/Debugger/Registers.antt =====
-- `set` and `get` of project4/hw4.cpp as accesses to the child's registers.
use nctu_unixprog.Base.{ℕ, ◌≡◌, ◌≢◌, refl, ◌∙◌, ap, subst, inl, inr, Option-cases, some, List}
use nctu_unixprog.Debugger.Os.{Os, IsPtrace, Regs}
use nctu_unixprog.Debugger.State.{M, Sdb, running, ok, ◌>>=◌, get, write_cerr, sys, ask}
use nctu_unixprog.Debugger.Keeps.{Post, when_running-runs}
use nctu_unixprog.Debugger.Regs.{
  Reg, rax, rbx, rcx, rdx, r8, r9, r10, r11, r12, r13, r14, r15, rdi, rsi, rbp, rsp, rip, flags,
  reg_of, read_reg, write_reg, show_reg, fetch_regs, store_regs, print_reg, get_reg, assign_reg,
  set_reg,
}

pub read-write_self : (r : Reg) (v : ℕ) (regs : Regs) → read_reg r (write_reg r v regs) ≡ v
unfolding read_reg write_reg
read-write_self rax v regs = refl
read-write_self _ v regs = refl

pub read-write_ne :
    (r q : Reg) (v : ℕ) (regs : Regs) → r ≢ q → read_reg q (write_reg r v regs) ≡ read_reg q regs
unfolding read_reg write_reg
read-write_ne rax rax v regs ne = absurd (ne refl)
read-write_ne rbx rbx v regs ne = absurd (ne refl)
read-write_ne rcx rcx v regs ne = absurd (ne refl)
read-write_ne rdx rdx v regs ne = absurd (ne refl)
read-write_ne r8 r8 v regs ne = absurd (ne refl)
read-write_ne r9 r9 v regs ne = absurd (ne refl)
read-write_ne r10 r10 v regs ne = absurd (ne refl)
read-write_ne r11 r11 v regs ne = absurd (ne refl)
read-write_ne r12 r12 v regs ne = absurd (ne refl)
read-write_ne r13 r13 v regs ne = absurd (ne refl)
read-write_ne r14 r14 v regs ne = absurd (ne refl)
read-write_ne r15 r15 v regs ne = absurd (ne refl)
read-write_ne rdi rdi v regs ne = absurd (ne refl)
read-write_ne rsi rsi v regs ne = absurd (ne refl)
read-write_ne rbp rbp v regs ne = absurd (ne refl)
read-write_ne rsp rsp v regs ne = absurd (ne refl)
read-write_ne rip rip v regs ne = absurd (ne refl)
read-write_ne flags flags v regs ne = absurd (ne refl)
read-write_ne _ _ v regs ne = refl

-- Documented behaviour of PTRACE_SETREGS: where it succeeds the general-purpose registers have been
-- modified; of the flags, the kernel may keep some.
pub record StoresGeneral (os : Os) : Type 0 where
  pub general :
      (w w' : os.World) (pid : ℕ) (r : Regs)
      → os.setregs w pid r ≡ some w'
      → (k : Regs) × (os.getregs w' pid ≡ some k)
        × ((q : Reg) → q ≢ flags → read_reg q k ≡ read_reg q r)

module _ (os : Os) (P : IsPtrace os) (G : StoresGeneral os) where
  -- What `set` of a known register leaves.
  pub record Stored (r : Reg) (v : ℕ) (regs : Regs) (s t : Sdb os.World) : Type 0 where
    pub read_back : Regs
    pub stored_regs : os.getregs t.world s.pid ≡ some read_back
    pub stored_general :
        (q : Reg) → q ≢ flags → read_reg q read_back ≡ read_reg q (write_reg r v regs)
    pub stored_bytes : (x : ℕ) → P.byte t.world s.pid x ≡ P.byte s.world s.pid x
    pub stored_state : t.state ≡ s.state
    pub stored_pid : t.pid ≡ s.pid

  fetched :
      {A : Type 0} (s : Sdb os.World) (regs : Regs) (k : Regs → M os.World A)
      → os.getregs s.world s.pid ≡ some regs
      → (fetch_regs os >>= k) s ≡ k regs s
  unfolding fetch_regs ask get ◌>>=◌
  fetched s regs k e = rw (e, ask)

  set_reg-Stored :
      (name : List ℕ) (r : Reg) (v : ℕ) (regs : Regs) (s : Sdb os.World)
      → s.state ≡ running
      → reg_of name ≡ some r
      → os.getregs s.world s.pid ≡ some regs
      → Post (Stored r v regs s) (set_reg os name v s)
  unfolding set_reg assign_reg store_regs sys get ◌>>=◌
  set_reg-Stored name r v regs s run n e = rw (when_running-runs _ _ s run) (
      rw (fetched s regs _ e) (
        rw (n, assign_reg)
          (elim (Option-cases (os.setregs s.world s.pid (write_reg r v regs))) [
            | inl q ↦ rw (q, sys) tt
            | inr (w, q) ↦
                let (k, e, g) = G.general s.world w s.pid _ q in
                rw (q, sys)
                  (record {
                    read_back = k;
                    stored_regs = e;
                    stored_general = g;
                    stored_bytes = λ x. P.setregs_bytes s.world w s.pid _ x q;
                    stored_state = refl;
                    stored_pid = refl;
                  })
          ])))

  get_reg-prints :
      (name : List ℕ) (r : Reg) (regs : Regs) (s : Sdb os.World)
      → s.state ≡ running
      → reg_of name ≡ some r
      → os.getregs s.world s.pid ≡ some regs
      → get_reg os name s ≡ ok tt (record s { cerr = show_reg name (read_reg r regs) s.cerr })
  unfolding get_reg print_reg write_cerr
  get_reg-prints name r regs s run n e =
      when_running-runs _ _ s run ∙ (fetched s regs _ e ∙ rw (n, print_reg))

  -- By the documented behaviour of ptrace, in RUNNING, with the name of a register other than flags that
  -- the debugger knows and readable registers: after a `set` that returned the command `get` prints the
  -- value that was set, every other register but flags has its value of before, and no byte of the
  -- child's memory has changed.
  pub get_reg-set_reg :
      (name : List ℕ) (r : Reg) (v : ℕ) (regs : Regs) (s t : Sdb os.World)
      → s.state ≡ running
      → reg_of name ≡ some r
      → r ≢ flags
      → os.getregs s.world s.pid ≡ some regs
      → set_reg os name v s ≡ ok tt t
      → (get_reg os name t ≡ ok tt (record t { cerr = show_reg name v t.cerr }))
        × ((other : List ℕ) (q : Reg)
            → reg_of other ≡ some q
            → q ≢ flags
            → r ≢ q
            → get_reg os other t
              ≡ ok tt (record t { cerr = show_reg other (read_reg q regs) t.cerr }))
        × ((x : ℕ) → P.byte t.world s.pid x ≡ P.byte s.world s.pid x)
  get_reg-set_reg name r v regs s t run n f e d = (
    get_reg-prints name r done.read_back t still n now
        ∙ rw (done.stored_general r f) (rw (read-write_self r v regs) refl),
    (λ other q m g ne.
        get_reg-prints other q done.read_back t still m now
        ∙ rw (done.stored_general q g) (rw (read-write_ne r q v regs ne) refl)),
    done.stored_bytes,
  )
    where
      done : Stored r v regs s t
      done = subst (Post (Stored r v regs s)) d (set_reg-Stored name r v regs s run n e)

      still : t.state ≡ running
      still = done.stored_state ∙ run

      now : os.getregs t.world t.pid ≡ some done.read_back
      now = ap (os.getregs t.world) done.stored_pid ∙ done.stored_regs
