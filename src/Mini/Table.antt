-- ===== src/Mini/Table.antt =====
-- Every wrapper of project3/libmini.c against its system call.
use nctu_unixprog.Base.{ℕ, ◌≡◌, String, List, [], ◌∷◌}
use nctu_unixprog.Run.{ok, M, ◌>>=◌}
use nctu_unixprog.Mini.Sys.{Sys, Mini, Arg, number, string, syscall, returned}
use nctu_unixprog.Mini.Calls.{
  read, write, close, mmap, mprotect, munmap, pipe, dup, dup2, pause, nanosleep, fork, getcwd,
  chdir, rename, mkdir, rmdir, creat, link, unlink, readlink, chmod, chown, umask, gettimeofday,
  getuid, getgid, setuid, setgid, geteuid, getegid, alarm,
}
use nctu_unixprog.Mini.Results.{
  value_of, pointer_of, errno_of, wrapper_retval_lem, wrapper_retptr_lem,
}

pub data SysCall : Type 0 where
  read_call mprotect_call : ℕ → ℕ → ℕ → SysCall
  write_call : ℕ → List ℕ → ℕ → SysCall
  close_call pipe_call dup_call umask_call setuid_call setgid_call alarm_call : ℕ → SysCall
  mmap_call : ℕ → ℕ → ℕ → ℕ → ℕ → ℕ → SysCall
  munmap_call dup2_call nanosleep_call getcwd_call gettimeofday_call : ℕ → ℕ → SysCall
  pause_call fork_call getuid_call getgid_call geteuid_call getegid_call : SysCall
  chdir_call rmdir_call unlink_call : List ℕ → SysCall
  rename_call link_call : List ℕ → List ℕ → SysCall
  mkdir_call creat_call chmod_call : List ℕ → ℕ → SysCall
  readlink_call chown_call : List ℕ → ℕ → ℕ → SysCall

module _ (sys : Sys) where
  abbrev pub run_syscall : SysCall → M (Mini sys.World) ℕ
  run_syscall (read_call fd buf count) = read sys fd buf count
  run_syscall (write_call fd buf count) = write sys fd buf count
  run_syscall (close_call fd) = close sys fd
  run_syscall (mmap_call addr len prot flags fd off) = mmap sys addr len prot flags fd off
  run_syscall (mprotect_call addr len prot) = mprotect sys addr len prot
  run_syscall (munmap_call addr len) = munmap sys addr len
  run_syscall (pipe_call filedes) = pipe sys filedes
  run_syscall (dup_call filedes) = dup sys filedes
  run_syscall (dup2_call oldfd newfd) = dup2 sys oldfd newfd
  run_syscall pause_call = pause sys
  run_syscall (nanosleep_call rqtp rmtp) = nanosleep sys rqtp rmtp
  run_syscall fork_call = fork sys
  run_syscall (getcwd_call buf size) = getcwd sys buf size
  run_syscall (chdir_call pathname) = chdir sys pathname
  run_syscall (rename_call oldname newname) = rename sys oldname newname
  run_syscall (mkdir_call pathname mode) = mkdir sys pathname mode
  run_syscall (rmdir_call pathname) = rmdir sys pathname
  run_syscall (creat_call pathname mode) = creat sys pathname mode
  run_syscall (link_call oldname newname) = link sys oldname newname
  run_syscall (unlink_call pathname) = unlink sys pathname
  run_syscall (readlink_call path buf bufsz) = readlink sys path buf bufsz
  run_syscall (chmod_call filename mode) = chmod sys filename mode
  run_syscall (chown_call filename user group) = chown sys filename user group
  run_syscall (umask_call mask) = umask sys mask
  run_syscall (gettimeofday_call tv tz) = gettimeofday sys tv tz
  run_syscall getuid_call = getuid sys
  run_syscall getgid_call = getgid sys
  run_syscall (setuid_call uid) = setuid sys uid
  run_syscall (setgid_call gid) = setgid sys gid
  run_syscall geteuid_call = geteuid sys
  run_syscall getegid_call = getegid sys
  run_syscall (alarm_call seconds) = alarm sys seconds

-- The system call that the wrapper is named after, with its arguments.
abbrev pub name_of : SysCall → String
name_of (read_call _ _ _) = "read"
name_of (write_call _ _ _) = "write"
name_of (close_call _) = "close"
name_of (mmap_call _ _ _ _ _ _) = "mmap"
name_of (mprotect_call _ _ _) = "mprotect"
name_of (munmap_call _ _) = "munmap"
name_of (pipe_call _) = "pipe"
name_of (dup_call _) = "dup"
name_of (dup2_call _ _) = "dup2"
name_of pause_call = "pause"
name_of (nanosleep_call _ _) = "nanosleep"
name_of fork_call = "fork"
name_of (getcwd_call _ _) = "getcwd"
name_of (chdir_call _) = "chdir"
name_of (rename_call _ _) = "rename"
name_of (mkdir_call _ _) = "mkdir"
name_of (rmdir_call _) = "rmdir"
name_of (creat_call _ _) = "creat"
name_of (link_call _ _) = "link"
name_of (unlink_call _) = "unlink"
name_of (readlink_call _ _ _) = "readlink"
name_of (chmod_call _ _) = "chmod"
name_of (chown_call _ _ _) = "chown"
name_of (umask_call _) = "umask"
name_of (gettimeofday_call _ _) = "gettimeofday"
name_of getuid_call = "getuid"
name_of getgid_call = "getgid"
name_of (setuid_call _) = "setuid"
name_of (setgid_call _) = "setgid"
name_of geteuid_call = "geteuid"
name_of getegid_call = "getegid"
name_of (alarm_call _) = "alarm"

abbrev pub args_of : SysCall → List Arg
args_of (read_call fd buf count) = number fd ∷ number buf ∷ number count ∷ []
args_of (write_call fd buf count) = number fd ∷ string buf ∷ number count ∷ []
args_of (close_call fd) = number fd ∷ []
args_of (mmap_call addr len prot flags fd off) =
    number addr ∷ number len ∷ number prot ∷ number flags ∷ number fd ∷ number off ∷ []
args_of (mprotect_call addr len prot) = number addr ∷ number len ∷ number prot ∷ []
args_of (munmap_call addr len) = number addr ∷ number len ∷ []
args_of (pipe_call filedes) = number filedes ∷ []
args_of (dup_call filedes) = number filedes ∷ []
args_of (dup2_call oldfd newfd) = number oldfd ∷ number newfd ∷ []
args_of pause_call = []
args_of (nanosleep_call rqtp rmtp) = number rqtp ∷ number rmtp ∷ []
args_of fork_call = []
args_of (getcwd_call buf size) = number buf ∷ number size ∷ []
args_of (chdir_call pathname) = string pathname ∷ []
args_of (rename_call oldname newname) = string oldname ∷ string newname ∷ []
args_of (mkdir_call pathname mode) = string pathname ∷ number mode ∷ []
args_of (rmdir_call pathname) = string pathname ∷ []
args_of (creat_call pathname mode) = string pathname ∷ number mode ∷ []
args_of (link_call oldname newname) = string oldname ∷ string newname ∷ []
args_of (unlink_call pathname) = string pathname ∷ []
args_of (readlink_call path buf bufsz) = string path ∷ number buf ∷ number bufsz ∷ []
args_of (chmod_call filename mode) = string filename ∷ number mode ∷ []
args_of (chown_call filename user group) = string filename ∷ number user ∷ number group ∷ []
args_of (umask_call mask) = number mask ∷ []
args_of (gettimeofday_call tv tz) = number tv ∷ number tz ∷ []
args_of getuid_call = []
args_of getgid_call = []
args_of (setuid_call uid) = number uid ∷ []
args_of (setgid_call gid) = number gid ∷ []
args_of geteuid_call = []
args_of getegid_call = []
args_of (alarm_call seconds) = number seconds ∷ []

-- The type of the result.
pub data Width : Type 0 where
  pointer long int : Width

abbrev pub width_of : SysCall → Width
width_of (read_call _ _ _) = long
width_of (write_call _ _ _) = long
width_of (mmap_call _ _ _ _ _ _) = pointer
width_of (getcwd_call _ _) = pointer
width_of (readlink_call _ _ _) = long
width_of c = int

abbrev pub result_of : Width → ℕ → ℕ
result_of pointer ret = pointer_of ret
result_of long ret = value_of 64 ret
result_of int ret = value_of 32 ret

-- Every wrapper makes the one system call of its name with its arguments.
pub run_syscall_lem :
    (sys : Sys) (c : SysCall) (s : Mini sys.World)
    → (let r : ℕ × sys.World = sys.call s.world (name_of c) (args_of c) in
        run_syscall sys c s
        ≡ ok (result_of (width_of c) r.0) (record { errno = errno_of r.0; world = r.1 }))
unfolding syscall returned ◌>>=◌ read write close mmap mprotect munmap pipe dup dup2 pause nanosleep
    fork getcwd chdir rename mkdir rmdir creat link unlink readlink chmod chown umask gettimeofday
    getuid getgid setuid setgid geteuid getegid alarm
run_syscall_lem sys (read_call fd buf count) s = wrapper_retval_lem 64 _ _
run_syscall_lem sys (write_call fd buf count) s = wrapper_retval_lem 64 _ _
run_syscall_lem sys (close_call fd) s = wrapper_retval_lem 32 _ _
run_syscall_lem sys (mmap_call addr len prot flags fd off) s = wrapper_retptr_lem _ _
run_syscall_lem sys (mprotect_call addr len prot) s = wrapper_retval_lem 32 _ _
run_syscall_lem sys (munmap_call addr len) s = wrapper_retval_lem 32 _ _
run_syscall_lem sys (pipe_call filedes) s = wrapper_retval_lem 32 _ _
run_syscall_lem sys (dup_call filedes) s = wrapper_retval_lem 32 _ _
run_syscall_lem sys (dup2_call oldfd newfd) s = wrapper_retval_lem 32 _ _
run_syscall_lem sys pause_call s = wrapper_retval_lem 32 _ _
run_syscall_lem sys (nanosleep_call rqtp rmtp) s = wrapper_retval_lem 32 _ _
run_syscall_lem sys fork_call s = wrapper_retval_lem 32 _ _
run_syscall_lem sys (getcwd_call buf size) s = wrapper_retptr_lem _ _
run_syscall_lem sys (chdir_call pathname) s = wrapper_retval_lem 32 _ _
run_syscall_lem sys (rename_call oldname newname) s = wrapper_retval_lem 32 _ _
run_syscall_lem sys (mkdir_call pathname mode) s = wrapper_retval_lem 32 _ _
run_syscall_lem sys (rmdir_call pathname) s = wrapper_retval_lem 32 _ _
run_syscall_lem sys (creat_call pathname mode) s = wrapper_retval_lem 32 _ _
run_syscall_lem sys (link_call oldname newname) s = wrapper_retval_lem 32 _ _
run_syscall_lem sys (unlink_call pathname) s = wrapper_retval_lem 32 _ _
run_syscall_lem sys (readlink_call path buf bufsz) s = wrapper_retval_lem 64 _ _
run_syscall_lem sys (chmod_call filename mode) s = wrapper_retval_lem 32 _ _
run_syscall_lem sys (chown_call filename user group) s = wrapper_retval_lem 32 _ _
run_syscall_lem sys (umask_call mask) s = wrapper_retval_lem 32 _ _
run_syscall_lem sys (gettimeofday_call tv tz) s = wrapper_retval_lem 32 _ _
run_syscall_lem sys getuid_call s = wrapper_retval_lem 32 _ _
run_syscall_lem sys getgid_call s = wrapper_retval_lem 32 _ _
run_syscall_lem sys (setuid_call uid) s = wrapper_retval_lem 32 _ _
run_syscall_lem sys (setgid_call gid) s = wrapper_retval_lem 32 _ _
run_syscall_lem sys geteuid_call s = wrapper_retval_lem 32 _ _
run_syscall_lem sys getegid_call s = wrapper_retval_lem 32 _ _
run_syscall_lem sys (alarm_call seconds) s = wrapper_retval_lem 32 _ _
