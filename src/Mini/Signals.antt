-- ===== src/Mini/Signals.antt =====
-- The signal sets of project3/libmini.c, `signal` and `sigaction`. A set is the one word of a sigset_t.
use nctu_unixprog.Base.{
  ℕ, zero, suc, ◌+◌, ◌-◌, ◌*◌, ◌/◌, ◌%◌, ◌^◌, Bool, Option, none, some, List, [], ◌∷◌, ◌&&◌, ◌==◌,
  leb, if◌then◌else◌,
}
use Prim.Native.Nat.{bit_and, bit_or}
use nctu_unixprog.Run.{Outcome, ok, M, ◌>>=◌, pure}
use nctu_unixprog.Mini.Sys.{Sys, Mini, Sigaction, number, syscall, wrapper_retval}
use nctu_unixprog.Mini.Strings.{memset}

-- The unsigned long in eight bytes, lowest first.
unfoldable pub word_of : List ℕ → ℕ
word_of [] = 0
word_of (b ∷ bs) = b + 256 * word_of bs

set_of : Option (List ℕ) → ℕ
unfolding word_of
set_of none = 0
set_of (some bs) = word_of bs

unfoldable pub bytes_of : ℕ → ℕ → List ℕ
bytes_of zero word = []
bytes_of (suc n) word = word % 256 ∷ bytes_of n (word / 256)

-- `memset(set, c, sizeof(sigset_t))` over what the set held.
unfoldable pub filled_set : ℕ → ℕ → ℕ
unfolding set_of memset bytes_of
filled_set c set = set_of (memset c 8 (bytes_of 8 set))

unfoldable pub sigemptyset : ℕ → ℕ
unfolding filled_set
sigemptyset set = filled_set 0 set

unfoldable pub sigfillset : ℕ → ℕ
unfolding filled_set
sigfillset set = filled_set 0xff set

-- A shift of an unsigned long by a negative number or by 64 and more has no defined value.
unfoldable pub is_shift : ℕ → Bool
is_shift signum = leb 1 signum && leb signum 64

-- `1UL << (signum - 1)`
unfoldable pub sigmask : ℕ → ℕ
sigmask signum = 2 ^ (signum - 1)

unfoldable pub sigaddset : ℕ → ℕ → Option ℕ
sigaddset set signum = if is_shift signum then some (bit_or set (sigmask signum)) else none

unfoldable pub sigdelset : ℕ → ℕ → Option ℕ
sigdelset set signum =
    if is_shift signum then some (bit_and set (2 ^ 64 - 1 - sigmask signum)) else none

unfoldable pub sigismember : ℕ → ℕ → Option ℕ
sigismember set signum = if is_shift signum then some (bit_and 1 (set / 2 ^ (signum - 1))) else none

abbrev pub sigalrm : ℕ
sigalrm = 14

abbrev pub sa_restart : ℕ
sa_restart = 0x1000_0000

abbrev pub sa_interrupt : ℕ
sa_interrupt = 0x2000_0000

abbrev pub sa_restorer : ℕ
sa_restorer = 0x0400_0000

module _ (sys : Sys) where
  -- The pointers to sets are passed on.
  unfoldable pub sigprocmask : ℕ → ℕ → ℕ → M (Mini sys.World) ℕ
  sigprocmask how set oldset =
      syscall sys "rt_sigprocmask" (number how ∷ number set ∷ number oldset ∷ number 8 ∷ [])
      >>= wrapper_retval 32

  unfoldable pub sigpending : ℕ → M (Mini sys.World) ℕ
  sigpending set = syscall sys "rt_sigpending" (number set ∷ number 8 ∷ []) >>= wrapper_retval 32

  unfoldable pub replaced :
      Mini sys.World → ℕ × Sigaction × sys.World → Outcome (Mini sys.World) (ℕ × Sigaction)
  replaced s (ret, old, w) = ok (ret, old) (record s { world = w })

  -- `sys_rt_sigaction(signum, act, oldact, sizeof(sigset_t))`
  unfoldable pub rt_sigaction : ℕ → Sigaction → M (Mini sys.World) (ℕ × Sigaction)
  rt_sigaction signum act s = replaced s (sys.rt_sigaction s.world signum act 8)

  -- The result, and what is stored in `oldact`.
  unfoldable pub sigaction : ℕ → Sigaction → M (Mini sys.World) (ℕ × Sigaction)
  sigaction signum act = do
    r ←
        rt_sigaction signum
          (record act { flags = bit_or act.flags sa_restorer; restorer = sys.myrt })
    result ← wrapper_retval 32 r.0
    pure (result, r.1)

  -- SIG_ERR is -1, as a pointer. `sigaction` sets the restorer, which is not set before.
  unfoldable pub signal : ℕ → ℕ → M (Mini sys.World) ℕ
  signal signum handler = do
    r ← sigaction signum (record {
      handler = handler;
      flags = if signum == sigalrm then bit_or 0 sa_interrupt else bit_or 0 sa_restart;
      restorer = 0;
      mask = sigemptyset sys.act_mask;
    })
    if leb (2 ^ 31) r.0 then pure (2 ^ 64 - 1) else pure (r.1.handler)
