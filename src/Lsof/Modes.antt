-- ===== src/Lsof/Modes.antt =====
-- The letter that `FindFd` of project1/hw1.cpp puts behind a descriptor.
use nctu_unixprog.Base.{ℕ, ◌≡◌, refl, List, [], codes}
use nctu_unixprog.Run.{ok, ◌>>=◌, pure}
use nctu_unixprog.Lsof.Files.{Files, Answer, fails, gives}
use nctu_unixprog.Lsof.State.{Lsof, ask}
use nctu_unixprog.Lsof.Fds.{suffix_write, suffix_read, suffix_both, fd_suffix}

-- `access` of a path with no mode asks only whether the file is there; where it is not, every other
-- mode fails as well.
pub record IsAccess (files : Files) : Type 0 where
  pub missing :
      (w w' : files.World) (path : List ℕ) (e : ℕ)
      → files.access w path 0 ≡ (fails e, w')
      → (mode : ℕ) → (d : ℕ) × (files.access w' path mode ≡ (fails d, w'))

-- The letter for an answer of `access` that asks only whether the file is there.
abbrev pub letter_of : Answer (Unit {0}) → List ℕ
letter_of (gives a) = codes "u"
letter_of (fails e) = []

-- By the documented behaviour of access(2): a descriptor is shown as "u" exactly where its file is
-- there, and otherwise without a letter; "r" and "w" never appear.
pub fd_suffix-letter :
    (files : Files)
    → IsAccess files
    → (path : List ℕ) (s : Lsof files.World)
    → (t : Lsof files.World) × (fd_suffix files path s
        ≡ ok (letter_of (files.access s.world path 0).0) t)
unfolding fd_suffix ask suffix_both suffix_read suffix_write ◌>>=◌ pure
fd_suffix-letter files h path s = go (files.access s.world path 0) refl
  where
    go :
        (r : Answer (Unit {0}) × files.World)
        → files.access s.world path 0 ≡ r
        → (t : Lsof files.World) × (fd_suffix files path s ≡ ok (letter_of r.0) t)
    go (gives a, w) e = (record s { world = w }, rw e refl)
    go (fails n, w) e =
        let (d, f) = h.missing s.world w path n e 4 in
        let (d', g) = h.missing s.world w path n e 2 in
        (record s { world = w }, rw e (rw f (rw g refl)))
