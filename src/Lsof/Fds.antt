-- ===== src/Lsof/Fds.antt =====
-- `FindFd` of project1/hw1.cpp: the entries of /proc/<pid>/fd.
use nctu_unixprog.Base.{
  ℕ, Bool, Option, none, some, List, [], ◌∷◌, ◌++◌, ◌&&◌, ◌==◌, leb, if◌then◌else◌, codes, get_or,
}
use nctu_unixprog.Stream.{show_number, dec}
use nctu_unixprog.Run.{M, ◌>>=◌, ◌>>◌, pure, get}
use nctu_unixprog.Lsof.Files.{Files, Answer, fails, gives}
use nctu_unixprog.Lsof.State.{Lsof, ProcInfo, enoent, eacces, ask, need, error, print}
use nctu_unixprog.Lsof.Links.{type_of, overwrite, file_name, list_file, stat_of}

-- `isdigit(d_name[0])`
unfoldable pub starts_digit : List ℕ → Bool
starts_digit name = leb b'0' (get_or name 0 0) && leb (get_or name 0 0) b'9'

-- R_OK is 4, W_OK is 2, and R_OK&W_OK is 0.
module _ (files : Files) (path : List ℕ) where
  unfoldable pub suffix_write : Answer (Unit {0}) → List ℕ
  suffix_write (gives a) = codes "w"
  suffix_write (fails e) = []

  unfoldable pub suffix_read : Answer (Unit {0}) → M (Lsof files.World) (List ℕ)
  suffix_read (gives a) = pure (codes "r")
  suffix_read (fails e) = ask (λ w. files.access w path 2) >>= λ a. pure (suffix_write a)

  unfoldable pub suffix_both : Answer (Unit {0}) → M (Lsof files.World) (List ℕ)
  suffix_both (gives a) = pure (codes "u")
  suffix_both (fails e) = ask (λ w. files.access w path 4) >>= suffix_read

  unfoldable pub fd_suffix : M (Lsof files.World) (List ℕ)
  fd_suffix = ask (λ w. files.access w path 0) >>= suffix_both

module _ (files : Files) (dir : List ℕ) (proc : ProcInfo) (regex type_regex : List ℕ) where
  -- An entry whose link was asked for: the buffer for the next one, or `none` for `return`.
  unfoldable pub fd_link :
      List ℕ → List ℕ → Answer (List ℕ) → M (Lsof files.World) (Option (List ℕ))
  fd_link name buf (fails e) = if e == enoent then pure none else error files "readlink" e
  fd_link name buf (gives link) = do
    st ← stat_of files (dir ++ (codes "/" ++ name)) "lstat"
    named ← file_name (type_of st.mode) st.ino (overwrite link buf)
    suffix ← fd_suffix files (dir ++ (codes "/" ++ name))
    list_file proc regex type_regex (name ++ suffix) (type_of st.mode) (show_number dec st.ino)
        named.0
    pure (some named.1)

  unfoldable pub fd_entry : List ℕ → List ℕ → M (Lsof files.World) (Option (List ℕ))
  fd_entry name buf =
      if starts_digit name
      then ask (λ w. files.readlink w (dir ++ (codes "/" ++ name))) >>= fd_link name buf
      else pure (some buf)

  unfoldable pub fd_entries : List (List ℕ) → List ℕ → M (Lsof files.World) (Unit {0})
  fd_entries [] buf = ask files.closedir >>= need files "closedir"
  fd_entries (n ∷ ns) buf =
      fd_entry n buf >>= λ next. elim next [ none ↦ pure tt | some b ↦ fd_entries ns b ]

  unfoldable pub fds_at : List ℕ → Answer (List (List ℕ)) → M (Lsof files.World) (Unit {0})
  fds_at buf (fails e) =
      if e == eacces
      then print proc (codes "NOFD") [] [] (dir ++ codes " (opendir: Permission denied)")
      else error files "opendir" e
  fds_at buf (gives names) = fd_entries names buf

  unfoldable pub find_fd : M (Lsof files.World) (Unit {0})
  find_fd = do s ← get; answer ← ask (λ w. files.opendir w dir); fds_at (files.stack s.world) answer
