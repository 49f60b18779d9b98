-- ===== src/Debugger/Status.antt =====
-- What `chkstat` of project4/hw4.cpp makes of the status words of waitpid(2).
use nctu_unixprog.Base.{arith, ℕ, ◌+◌, ◌*◌, ◌%◌, ◌/◌, ◌<◌, ◌≡◌, ◌≢◌, refl, true, false, ◌==◌, some}
use nctu_unixprog.Debugger.Os.{Os}
use nctu_unixprog.Debugger.State.{
  Sdb, loaded, ok, ◌>>=◌, ◌>>◌, get, pure, modify, write_cout, sys_result,
}
use nctu_unixprog.Debugger.Control.{
  chkstat, report_exit, report_stop, wifexited, wifsignaled, wifstopped, wstopsig, show_normal,
  show_signal, sigtrap,
}

module _ (os : Os) (s : Sdb os.World) (status : ℕ) (w : os.World) where
  answer :
      os.waitpid s.world s.pid ≡ some (status, w)
      → sys_result os "waitpid" (λ v. os.waitpid v s.pid) s ≡ ok status (record s { world = w })
  unfolding sys_result
  answer e = rw (e, sys_result) refl

  -- For a status word that `waitpid` returns:
  -- a child that exited with a code is gone, the debugger is LOADED without a child, and the number it
  -- prints as the code is the whole status word, 256 times the code;
  -- a child that a signal killed is reported as nothing at all, and state and pid stay;
  -- a child that another signal than SIGTRAP stopped is reported with that signal, and nothing else
  -- changes.
  pub chkstat-reports :
      os.waitpid s.world s.pid ≡ some (status, w)
      → ((exit_code : ℕ)
          → status ≡ exit_code * 256
          → chkstat os s
            ≡ ok tt (record s {
              world = w;
              pid = 0;
              state = loaded;
              cout = show_normal s.pid (exit_code * 256) s.cout;
            }))
        × ((signal : ℕ)
            → status % 128 ≡ signal
            → 0 < signal
            → signal < 127
            → chkstat os s ≡ ok tt (record s { world = w }))
        × ((signal : ℕ)
            → status ≡ signal * 256 + 127
            → signal < 256
            → signal ≢ sigtrap
            → chkstat os s ≡ ok tt (record s { world = w; cout = show_signal s.pid signal s.cout }))
  unfolding chkstat report_exit report_stop get pure modify write_cout ◌>>=◌ ◌>>◌ wifexited
      wifsignaled wifstopped wstopsig
  chkstat-reports e = (
    (λ c q.
        let zero_low : status % 128 ≡ 0 = ground arith in
        let low : status % 256 ≡ 0 = ground arith in rw (answer e, zero_low, low, q) refl),
    (λ g q lo hi.
        let not_exited : (status % 128 == 0) ≡ false = ground arith in
        let not_stopped : (status % 256 == 127) ≡ false = ground arith in
        rw (answer e, not_exited, not_stopped) refl),
    (λ g q hi n.
        let not_exited : (status % 128 == 0) ≡ false = ground arith in
        let stopped : (status % 256 == 127) ≡ true = ground arith in
        let sig : status / 256 % 256 ≡ g = ground arith in
        let other : (g == sigtrap) ≡ false = ground arith in
        rw (answer e, not_exited, stopped, sig, other) refl),
  )
