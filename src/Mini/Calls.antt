-- ===== src/Mini/Calls.antt =====
-- The wrappers of system calls of project3/libmini.c.
use nctu_unixprog.Base.{ℕ, List, [], ◌∷◌}
use nctu_unixprog.Run.{M, ◌>>=◌, exit}
use nctu_unixprog.Mini.Sys.{Sys, Mini, number, string, syscall, wrapper_retval, wrapper_retptr}

module _ (sys : Sys) where
  unfoldable pub read : ℕ → ℕ → ℕ → M (Mini sys.World) ℕ
  read fd buf count =
      syscall sys "read" (number fd ∷ number buf ∷ number count ∷ []) >>= wrapper_retval 64

  unfoldable pub write : ℕ → List ℕ → ℕ → M (Mini sys.World) ℕ
  write fd buf count =
      syscall sys "write" (number fd ∷ string buf ∷ number count ∷ []) >>= wrapper_retval 64

  unfoldable pub close : ℕ → M (Mini sys.World) ℕ
  close fd = syscall sys "close" (number fd ∷ []) >>= wrapper_retval 32

  unfoldable pub mmap : ℕ → ℕ → ℕ → ℕ → ℕ → ℕ → M (Mini sys.World) ℕ
  mmap addr len prot flags fd off =
      syscall sys "mmap"
        (number addr ∷ number len ∷ number prot ∷ number flags ∷ number fd ∷ number off ∷ [])
      >>= wrapper_retptr

  unfoldable pub mprotect : ℕ → ℕ → ℕ → M (Mini sys.World) ℕ
  mprotect addr len prot =
      syscall sys "mprotect" (number addr ∷ number len ∷ number prot ∷ []) >>= wrapper_retval 32

  unfoldable pub munmap : ℕ → ℕ → M (Mini sys.World) ℕ
  munmap addr len = syscall sys "munmap" (number addr ∷ number len ∷ []) >>= wrapper_retval 32

  unfoldable pub pipe : ℕ → M (Mini sys.World) ℕ
  pipe filedes = syscall sys "pipe" (number filedes ∷ []) >>= wrapper_retval 32

  unfoldable pub dup : ℕ → M (Mini sys.World) ℕ
  dup filedes = syscall sys "dup" (number filedes ∷ []) >>= wrapper_retval 32

  unfoldable pub dup2 : ℕ → ℕ → M (Mini sys.World) ℕ
  dup2 oldfd newfd = syscall sys "dup2" (number oldfd ∷ number newfd ∷ []) >>= wrapper_retval 32

  unfoldable pub pause : M (Mini sys.World) ℕ
  pause = syscall sys "pause" ([]) >>= wrapper_retval 32

  unfoldable pub nanosleep : ℕ → ℕ → M (Mini sys.World) ℕ
  nanosleep rqtp rmtp =
      syscall sys "nanosleep" (number rqtp ∷ number rmtp ∷ []) >>= wrapper_retval 32

  unfoldable pub fork : M (Mini sys.World) ℕ
  fork = syscall sys "fork" ([]) >>= wrapper_retval 32

  unfoldable pub getcwd : ℕ → ℕ → M (Mini sys.World) ℕ
  getcwd buf size = syscall sys "getcwd" (number buf ∷ number size ∷ []) >>= wrapper_retptr

  unfoldable pub chdir : List ℕ → M (Mini sys.World) ℕ
  chdir pathname = syscall sys "chdir" (string pathname ∷ []) >>= wrapper_retval 32

  unfoldable pub rename : List ℕ → List ℕ → M (Mini sys.World) ℕ
  rename oldname newname =
      syscall sys "rename" (string oldname ∷ string newname ∷ []) >>= wrapper_retval 32

  unfoldable pub mkdir : List ℕ → ℕ → M (Mini sys.World) ℕ
  mkdir pathname mode =
      syscall sys "mkdir" (string pathname ∷ number mode ∷ []) >>= wrapper_retval 32

  unfoldable pub rmdir : List ℕ → M (Mini sys.World) ℕ
  rmdir pathname = syscall sys "rmdir" (string pathname ∷ []) >>= wrapper_retval 32

  unfoldable pub creat : List ℕ → ℕ → M (Mini sys.World) ℕ
  creat pathname mode =
      syscall sys "creat" (string pathname ∷ number mode ∷ []) >>= wrapper_retval 32

  unfoldable pub link : List ℕ → List ℕ → M (Mini sys.World) ℕ
  link oldname newname =
      syscall sys "link" (string oldname ∷ string newname ∷ []) >>= wrapper_retval 32

  unfoldable pub unlink : List ℕ → M (Mini sys.World) ℕ
  unlink pathname = syscall sys "unlink" (string pathname ∷ []) >>= wrapper_retval 32

  unfoldable pub readlink : List ℕ → ℕ → ℕ → M (Mini sys.World) ℕ
  readlink path buf bufsz =
      syscall sys "readlink" (string path ∷ number buf ∷ number bufsz ∷ []) >>= wrapper_retval 64

  unfoldable pub chmod : List ℕ → ℕ → M (Mini sys.World) ℕ
  chmod filename mode =
      syscall sys "chmod" (string filename ∷ number mode ∷ []) >>= wrapper_retval 32

  unfoldable pub chown : List ℕ → ℕ → ℕ → M (Mini sys.World) ℕ
  chown filename user group =
      syscall sys "chown" (string filename ∷ number user ∷ number group ∷ []) >>= wrapper_retval 32

  unfoldable pub umask : ℕ → M (Mini sys.World) ℕ
  umask mask = syscall sys "umask" (number mask ∷ []) >>= wrapper_retval 32

  unfoldable pub gettimeofday : ℕ → ℕ → M (Mini sys.World) ℕ
  gettimeofday tv tz = syscall sys "gettimeofday" (number tv ∷ number tz ∷ []) >>= wrapper_retval 32

  unfoldable pub getuid : M (Mini sys.World) ℕ
  getuid = syscall sys "getuid" ([]) >>= wrapper_retval 32

  unfoldable pub getgid : M (Mini sys.World) ℕ
  getgid = syscall sys "getgid" ([]) >>= wrapper_retval 32

  unfoldable pub setuid : ℕ → M (Mini sys.World) ℕ
  setuid uid = syscall sys "setuid" (number uid ∷ []) >>= wrapper_retval 32

  unfoldable pub setgid : ℕ → M (Mini sys.World) ℕ
  setgid gid = syscall sys "setgid" (number gid ∷ []) >>= wrapper_retval 32

  unfoldable pub geteuid : M (Mini sys.World) ℕ
  geteuid = syscall sys "geteuid" ([]) >>= wrapper_retval 32

  unfoldable pub getegid : M (Mini sys.World) ℕ
  getegid = syscall sys "getegid" ([]) >>= wrapper_retval 32

  unfoldable pub alarm : ℕ → M (Mini sys.World) ℕ
  alarm seconds = syscall sys "alarm" (number seconds ∷ []) >>= wrapper_retval 32

-- `exit` does not return.
unfoldable pub exit_with : {W : Type 0} → ℕ → M (Mini W) (Unit {0})
exit_with error_code = exit error_code
