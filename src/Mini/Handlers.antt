-- ===== src/Mini/Handlers.antt =====
-- `signal` of project3/libmini.c on top of `sigaction`.
use nctu_unixprog.Base.{ℕ, ◌-◌, ◌^◌, ◌≡◌, refl, Bool-cases, inl, inr, ◌==◌, leb, if◌then◌else◌}
use nctu_unixprog.Run.{ok, after, ◌>>=◌, pure}
use nctu_unixprog.Mini.Sys.{Sys, Mini, Sigaction, wrapper_retval}
use nctu_unixprog.Mini.Signals.{
  sigemptyset, filled_set, bytes_of, word_of, replaced, rt_sigaction, sigaction, signal,
}
use nctu_unixprog.Mini.Results.{value_of, errno_of, wrapper_retval_lem}

-- The action that the kernel gets: nothing blocked, calls restarted but for SIGALRM, and the restorer.
abbrev pub installed : (sys : Sys) → ℕ → ℕ → Sigaction
installed sys signum handler = record {
  handler = handler;
  flags = if signum == 14 then 0x2400_0000 else 0x1400_0000;
  restorer = sys.myrt;
  mask = 0;
}

-- `signal` installs one action: the handler, no signal blocked, and the restorer, with SA_INTERRUPT for
-- SIGALRM and SA_RESTART for every other signal. It gives the old handler, or SIG_ERR where the result of
-- the kernel is negative as an int, and errno is set as for every call.
pub signal-installs :
    (sys : Sys) (signum handler : ℕ) (s : Mini sys.World)
    → (let r : ℕ × Sigaction × sys.World =
          sys.rt_sigaction s.world signum (installed sys signum handler) 8 in
        signal sys signum handler s
        ≡ ok
            (if leb (2 ^ 31) (value_of 32 r.0) then 2 ^ 64 - 1 else r.1.handler)
            (record { errno = errno_of r.0; world = r.2 }))
unfolding signal sigaction rt_sigaction replaced sigemptyset filled_set bytes_of word_of pure ◌>>=◌
signal-installs sys signum handler s = elim (Bool-cases (signum == 14)) [
  | inl e ↦ rw e (by_result (sys.rt_sigaction s.world signum (taken 0x2400_0000) 8))
  | inr e ↦ rw e (by_result (sys.rt_sigaction s.world signum (taken 0x1400_0000) 8))
]
  where
    taken : ℕ → Sigaction
    taken f = record { handler = handler; flags = f; restorer = sys.myrt; mask = 0 }

    by_result :
        (r : ℕ × Sigaction × sys.World)
        → after {A = ℕ × Sigaction}
            (after
              (wrapper_retval 32 r.0 (record s { world = r.2 }))
              (λ result. pure (result, r.1)))
            (λ q. if leb (2 ^ 31) q.0 then pure (2 ^ 64 - 1) else pure q.1.handler)
          ≡ ok
              (if leb (2 ^ 31) (value_of 32 r.0) then 2 ^ 64 - 1 else r.1.handler)
              (record { errno = errno_of r.0; world = r.2 })
    by_result r =
        rw (wrapper_retval_lem 32 r.0 (record s { world = r.2 }))
          (elim (Bool-cases (leb (2 ^ 31) (value_of 32 r.0))) [
            | inl e ↦ rw e refl
            | inr e ↦ rw e refl
          ])
