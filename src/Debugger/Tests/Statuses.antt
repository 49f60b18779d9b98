-- ===== src/Debugger/Tests/Statuses.antt =====
-- Status words on the small kernel.
use nctu_unixprog.Base.{ℕ, ◌*◌, ◌+◌, ◌%◌, ◌<◌, ◌≡◌, ◌≢◌, refl, []}
use nctu_unixprog.Debugger.State.{running, loaded, Sdb, ok}
use nctu_unixprog.Debugger.Control.{chkstat, show_normal, show_signal, sigtrap}
use nctu_unixprog.Debugger.Status.{chkstat-reports}
use nctu_unixprog.Debugger.Tests.{toy, toy_state}

-- The child exited with 3.
abbrev ended : Sdb toy.World
ended = toy_state running 7 [] 0x1000 768

chkstat-reports_example :
    ((exit_code : ℕ)
      → 768 ≡ exit_code * 256
      → chkstat toy ended
        ≡ ok tt (record ended {
          pid = 0;
          state = loaded;
          cout = show_normal 7 (exit_code * 256) ended.cout;
        }))
    × ((signal : ℕ)
        → 768 % 128 ≡ signal
        → 0 < signal
        → signal < 127
        → chkstat toy ended ≡ ok tt ended)
    × ((signal : ℕ)
        → 768 ≡ signal * 256 + 127
        → signal < 256
        → signal ≢ sigtrap
        → chkstat toy ended ≡ ok tt (record ended { cout = show_signal 7 signal ended.cout }))
chkstat-reports_example = chkstat-reports toy ended 768 ended.world refl
