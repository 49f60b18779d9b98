-- ===== src/Preload/Launched.antt =====
-- The launcher and the library of project2 together: where the wrappers write in a program that the
-- launcher has executed.
use nctu_unixprog.Base.{ℕ, ◌<◌, ◌^◌, List, [], ◌∷◌}
use nctu_unixprog.Launcher.Host.{Host, Launcher}
use nctu_unixprog.Launcher.Runs.{Setting, to_file, through}
use nctu_unixprog.Preload.Libc.{Libc, Preload}

module _ (host : Host) where
  -- The descriptor that the last -o opened, or the one before.
  abbrev pub last_fd : List Setting → host.World → ℕ → ℕ
  last_fd [] w fd = fd
  last_fd (to_file t ∷ ss) w fd = last_fd ss (host.o_open w t).1 (host.o_open w t).0
  last_fd (through t ∷ ss) w fd = last_fd ss w fd

  -- No `open` fails, and descriptors are ints.
  pub record OpensAll : Type 0 where
    pub descriptor : (w : host.World) (t : List ℕ) → (host.o_open w t).0 < 2 ^ 31
