-- ===== src/Preload/Tests.antt =====
-- The preloaded library over a libc that answers by the shape of the arguments.
use native.Mathlib.Nat.{zero-mul}
use nctu_unixprog.Base.{
  true, zero, ◌+◌, ◌*◌, ◌≡◌, refl, inr, none, some, List, [], ◌∷◌, codes, arith,
}
use nctu_unixprog.Run.{undefined}
use nctu_unixprog.Preload.Libc.{Libc, Preload, Arg, number, bytes, Return, logger_out}
use nctu_unixprog.Preload.Bytes.{print_bytes, signed_bound}
use nctu_unixprog.Preload.Paths.{takes_mode}
use nctu_unixprog.Preload.Calls.{read_call, remove_call, run_call, direct, leaked, Returns}
use nctu_unixprog.Preload.Payload.{Shows, IsInside, print_bytes-Shows}
use nctu_unixprog.Preload.Shown.{ShowsFirst, run_call-shows}
use nctu_unixprog.Preload.Ready.{IsReady, IsStdio}
use nctu_unixprog.Preload.Transparent.{run_call-transparent}
use nctu_unixprog.Launcher.Host.{Host, Launcher}
use nctu_unixprog.Preload.Unset.{run_call-unset}

-- `read` gives three bytes, `fwrite` writes everything, all else gives 0.
abbrev answer : List Arg → Return
answer (number a ∷ number b ∷ number c ∷ []) = record { value = 3; memory = codes "ab\n" }
answer (bytes b ∷ number n ∷ number k ∷ rest) = record { value = k; memory = [] }
answer args = record { value = 0; memory = [] }

abbrev toy : Libc
toy = record {
  World = Unit {0};
  dlsym = λ func w args. (answer args, w);
  realpath = λ w path. none;
  readlink = λ w path n. none;
  fileno = λ w stream. stream;
  getenv = λ w name. some (codes "2");
}

abbrev bare : Libc
bare = record toy { getenv = λ w name. none }

abbrev start : Preload (Unit {0})
start = record { world = tt; live = 0; log = [] }

toy-IsReady : IsReady toy
toy-IsReady = record { out = codes "2"; out_set = λ w. refl; short = λ w path link h. cc }

toy-IsStdio : IsStdio toy
unfolding signed_bound
toy-IsStdio = record {
  fread_stored = λ w p n k s. let z : zero * n ≡ 0 = zero-mul n in omega arith;
  read_stored = λ w fd b n. omega arith;
  fwrite_counted = λ w b n k s. omega arith;
}

run_call-transparent_example :
    Returns
      (direct toy (read_call 3 4096 100) tt).0.value
      (direct toy (read_call 3 4096 100) tt).1
      (leaked (read_call 3 4096 100) + 0)
      (run_call toy (read_call 3 4096 100) start)
run_call-transparent_example =
    run_call-transparent toy (read_call 3 4096 100) start toy-IsReady toy-IsStdio tt

run_call-unset_example : run_call bare (remove_call (codes "/tmp/a")) start ≡ undefined
run_call-unset_example = run_call-unset bare (remove_call (codes "/tmp/a")) start (λ w. refl)

three-IsInside : IsInside (codes "ab\n") 100 3
three-IsInside i p q = omega arith

run_call-shows_example : ShowsFirst toy toy-IsReady toy-IsStdio (read_call 3 4096 100) start
run_call-shows_example =
    run_call-shows toy toy-IsReady toy-IsStdio (read_call 3 4096 100) start tt tt

print_bytes-Shows_example : Shows 2 32 start (print_bytes 2 (codes "ab\n") 100 3 2 start)
print_bytes-Shows_example =
    print_bytes-Shows 2 (codes "ab\n") 100 3 2 start (inr (omega arith, omega arith)) three-IsInside

-- A launcher whose `open` gives 3.
abbrev host : Host
host = record {
  World = Unit {0};
  o_open = λ w t. (3, w);
  execvp = λ w cmd table. true;
  usable = λ n. n + 8;
}

abbrev launcher : Launcher (Unit {0})
launcher = record { ld_preload = []; logger_out = []; stdout = []; world = tt }

abbrev after_launch : Launcher (Unit {0})
after_launch = record {
  ld_preload = codes "./logger.so";
  logger_out = codes "3";
  stdout = [];
  world = tt;
}

-- What a program inherits that was launched with -o log.
abbrev heir : Libc
heir = record toy { getenv = λ w name. some (after_launch.logger_out) }

-- O_DIRECTORY is one of the two bits of O_TMPFILE: to open a directory takes a mode.
takes_mode-directory : takes_mode heir 0o200000 ≡ true
unfolding takes_mode
takes_mode-directory = refl
