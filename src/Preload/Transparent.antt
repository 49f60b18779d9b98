-- ===== src/Preload/Transparent.antt =====
-- The program that runs with project2/share.cpp gets from every call what libc's function gives.
use nctu_unixprog.Base.{◌+◌, refl, none, some, arith}
use nctu_unixprog.Run.{◌>>=◌, ◌>>◌, pure, get, modify}
use nctu_unixprog.Preload.Libc.{Libc, Preload, call_real, resolve, free, dprintf}
use nctu_unixprog.Preload.Paths.{
  chmod, chown, creat64, creat, fopen, fopen64, rename, remove, tmpfile, tmpfile64,
}
use nctu_unixprog.Preload.Calls.{
  Call, chmod_call, chown_call, close_call, creat64_call, creat_call, fopen_call, fopen64_call,
  fclose_call, fread_call, fwrite_call, open_call, open64_call, rename_call, write_call, read_call,
  tmpfile_call, tmpfile64_call, remove_call, run_call, direct, leaked, Returns,
}
use nctu_unixprog.Preload.Ready.{IsReady, IsStdio, IsProper, logger_out_lem}
use nctu_unixprog.Preload.Same.{
  open_file-Same, open64-Same, close-Same, fclose-Same, write-Same, read-Same, fread-Same,
  fwrite-Same,
}

-- Where LOGGER_OUT is set, the names of open files fit their buffer, and the caller passes the buffer
-- and the mode that its arguments announce: every call but close(2) returns what libc's function of the
-- same name returns for the same arguments and leaves the world that it leaves; close(2) returns 0 and
-- does nothing; and no block stays on the heap, except one in remove.
pub run_call-transparent :
    (libc : Libc) (c : Call) (s : Preload libc.World)
    → IsReady libc
    → IsStdio libc
    → IsProper libc c
    → Returns
        (direct libc c s.world).0.value
        (direct libc c s.world).1
        (leaked c + s.live)
        (run_call libc c s)
unfolding direct chmod chown creat64 creat fopen fopen64 rename remove tmpfile tmpfile64 call_real
    resolve dprintf free get modify pure ◌>>=◌ ◌>>◌
run_call-transparent libc (chmod_call p m) s ready stdio h =
    rw (logger_out_lem libc ready) (refl, refl, omega arith)
run_call-transparent libc (chown_call p o g) s ready stdio h =
    rw (logger_out_lem libc ready) (refl, refl, omega arith)
run_call-transparent libc (creat64_call p m) s ready stdio h =
    rw (logger_out_lem libc ready) (refl, refl, omega arith)
run_call-transparent libc (creat_call p m) s ready stdio h =
    rw (logger_out_lem libc ready) (refl, refl, omega arith)
run_call-transparent libc (fopen_call p m) s ready stdio h =
    rw (logger_out_lem libc ready) (refl, refl, omega arith)
run_call-transparent libc (fopen64_call p m) s ready stdio h =
    rw (logger_out_lem libc ready) (refl, refl, omega arith)
run_call-transparent libc (rename_call p q) s ready stdio h =
    rw (logger_out_lem libc ready) (refl, refl, omega arith)
run_call-transparent libc tmpfile_call s ready stdio h =
    rw (logger_out_lem libc ready) (refl, refl, omega arith)
run_call-transparent libc tmpfile64_call s ready stdio h =
    rw (logger_out_lem libc ready) (refl, refl, omega arith)
run_call-transparent libc (remove_call p) s ready stdio h =
    rw (logger_out_lem libc ready) (refl, refl, omega arith)
run_call-transparent libc (close_call fd) s ready stdio h = close-Same libc ready fd s
run_call-transparent libc (fclose_call stream) s ready stdio h = fclose-Same libc ready stream s
run_call-transparent libc (fread_call p n k stream) s ready stdio h =
    fread-Same libc ready stdio p n k stream s
run_call-transparent libc (fwrite_call b n k stream) s ready stdio h =
    fwrite-Same libc ready stdio b n k stream s h
run_call-transparent libc (open_call p f none) s ready stdio h =
    open_file-Same libc ready p f none s h
run_call-transparent libc (open_call p f (some m)) s ready stdio h =
    open_file-Same libc ready p f (some m) s h
run_call-transparent libc (open64_call p f none) s ready stdio h =
    open64-Same libc ready p f none s h
run_call-transparent libc (open64_call p f (some m)) s ready stdio h =
    open64-Same libc ready p f (some m) s h
run_call-transparent libc (write_call fd b n) s ready stdio h =
    write-Same libc ready stdio fd b n s h
run_call-transparent libc (read_call fd b n) s ready stdio h = read-Same libc ready stdio fd b n s
