-- ===== src/Mini/Tests.antt =====
-- The small libc over a kernel that takes every `write` on the standard error output.
use nctu_unixprog.Base.{
  inr, ◌≤◌, ◌⊎◌, ◌%◌, ℕ, ◌-◌, ◌^◌, ◌≡◌, refl, String, true, false, not, none, some, List, [], ◌∷◌,
  ◌&&◌, ◌||◌, ◌==◌, codes, length, get_elem?, arith,
}
use nctu_unixprog.Run.{ok, undefined}
use nctu_unixprog.Mini.Sys.{Sys, Mini, Arg, number, string, is_negative}
use nctu_unixprog.Mini.Signals.{is_shift, sigemptyset, sigfillset, sigaddset, sigdelset, signal}
use nctu_unixprog.Mini.Sets.{StandsFor, full, sigset-StandsFor}
use nctu_unixprog.Mini.Handlers.{signal-installs}
use nctu_unixprog.Mini.Failures.{IsKernel, run_syscall-results}
use nctu_unixprog.Mini.Table.{chdir_call, run_syscall}
use nctu_unixprog.Mini.Messages.{errmsg, perror}
use nctu_unixprog.Mini.Errors.{IsTerminal, perror-prints, perror-unknown}

-- The world is what was written, newest first. Other calls fail with ENOENT.
abbrev toy_call : List (List ℕ) → List Arg → ℕ × List (List ℕ)
toy_call w (number fd ∷ string t ∷ rest) = (length t, t ∷ w)
toy_call w args = (2 ^ 64 - 2, w)

abbrev toy : Sys
toy = record {
  World = List (List ℕ);
  call = λ w name args. toy_call w args;
  rt_sigaction = λ w signum act size. (0, act, w);
  myrt = 4096;
  act_mask = 77;
}

abbrev state : ℕ → Mini toy.World
state e = record { errno = e; world = [] }

abbrev toy-IsTerminal : IsTerminal toy
toy-IsTerminal = record { after_write = λ w t. t ∷ w; write_all = λ w t. refl }

-- Every call fails with ENOENT.
abbrev deaf : Sys
deaf = record toy { call = λ w name args. (2 ^ 64 - 2, w) }

deaf-IsKernel : IsKernel deaf
deaf-IsKernel = record { returns = λ w name args. inr (2, omega arith, omega arith, refl) }

run_syscall-results_example :
    (run_syscall deaf (chdir_call (codes "/x")) (state 0)
      ≡ ok ((2 ^ 64 - 2) % 2 ^ 32) (record { errno = 0; world = [] }))
    ⊎ ((e : ℕ) × (1 ≤ e)
        × (e ≤ 4095)
        × (2 ^ 64 - 2 ≡ 2 ^ 64 - e)
        × (run_syscall deaf (chdir_call (codes "/x")) (state 0)
            ≡ ok (2 ^ 32 - 1) (record { errno = e; world = [] })))
run_syscall-results_example =
    run_syscall-results deaf (chdir_call (codes "/x")) (state 0) deaf-IsKernel

sigset-StandsFor_example :
    StandsFor (sigemptyset 77) (λ t. false)
    × StandsFor (sigfillset 77) (λ t. true)
    × ((u : ℕ) × (sigaddset (sigfillset 5) 9 ≡ some u) × StandsFor u (λ t. t == 9 || true))
    × ((u : ℕ) × (sigdelset (sigfillset 5) 9 ≡ some u) × StandsFor u (λ t. not (t == 9) && true))
unfolding is_shift
sigset-StandsFor_example = sigset-StandsFor 77 (sigfillset 5) (λ t. true) 9 refl (full 5)

signal-installs_example : signal toy 14 5000 (state 3) ≡ ok 5000 (record { errno = 0; world = [] })
unfolding is_negative
signal-installs_example = signal-installs toy 14 5000 (state 3)

perror-prints_example :
    (m : String) × (get_elem? errmsg 2 ≡ some m)
    × (perror toy (some (codes "cat")) (state 2)
        ≡ ok tt
            (record { errno = 0; world = codes "\n" ∷ codes m ∷ codes ": " ∷ codes "cat" ∷ [] }))
perror-prints_example =
    perror-prints toy toy-IsTerminal (some (codes "cat")) (state 2) (omega arith) (omega arith)

perror-unknown_example :
    (perror toy none (state 38)
      ≡ ok tt (record { errno = 0; world = codes "\n" ∷ codes "Unknown" ∷ [] }))
    × (perror toy (some (codes "cat")) (state 38) ≡ undefined)
perror-unknown_example =
    perror-unknown toy toy-IsTerminal (codes "cat") (state 38) (omega arith) (omega arith)
