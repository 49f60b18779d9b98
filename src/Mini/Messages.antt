-- ===== src/Mini/Messages.antt =====
-- `perror` of project3/libmini.c.
use nctu_unixprog.Base.{
  ℕ, String, Option, none, some, List, [], ◌∷◌, ◌||◌, ltb, if◌then◌else◌, codes, get_elem?, length,
}
use nctu_unixprog.Run.{M, ◌>>=◌, ◌>>◌, pure, get, undefined_behaviour}
use nctu_unixprog.Mini.Sys.{Sys, Mini, is_negative}
use nctu_unixprog.Mini.Calls.{write}

unfoldable pub errmsg : List String
errmsg =
    "Success" ∷ "Operation not permitted" ∷ "No such file or directory" ∷ "No such process"
    ∷ "Interrupted system call" ∷ "I/O error" ∷ "No such device or address"
    ∷ "Argument list too long" ∷ "Exec format error" ∷ "Bad file number" ∷ "No child processes"
    ∷ "Try again" ∷ "Out of memory" ∷ "Permission denied" ∷ "Bad address" ∷ "Block device required"
    ∷ "Device or resource busy" ∷ "File exists" ∷ "Cross-device link" ∷ "No such device"
    ∷ "Not a directory" ∷ "Is a directory" ∷ "Invalid argument" ∷ "File table overflow"
    ∷ "Too many open files" ∷ "Not a typewriter" ∷ "Text file busy" ∷ "File too large"
    ∷ "No space left on device" ∷ "Illegal seek" ∷ "Read-only file system" ∷ "Too many links"
    ∷ "Broken pipe" ∷ "Math argument out of domain of func" ∷ "Math result not representable" ∷ []

module _ (sys : Sys) where
  -- `write(2, text, strlen(text))`
  unfoldable pub write_text : List ℕ → M (Mini sys.World) ℕ
  write_text t = write sys 2 t (length t)

  -- `if(prefix)`
  unfoldable pub write_prefix : Option (List ℕ) → M (Mini sys.World) (Unit {0})
  write_prefix none = pure tt
  write_prefix (some prefix) = write_text prefix >> write_text (codes ": ") >> pure tt

  -- `errmsg[backup]`
  unfoldable pub write_message : Option String → M (Mini sys.World) ℕ
  write_message none = undefined_behaviour
  write_message (some m) = write_text (codes m)

  -- The test reads errno, which the calls of `write` have set.
  unfoldable pub write_error : ℕ → M (Mini sys.World) ℕ
  write_error backup = get >>= λ s.
      if is_negative s.errno || ltb 34 s.errno
      then write_text (codes "Unknown")
      else write_message (get_elem? errmsg backup)

  unfoldable pub perror : Option (List ℕ) → M (Mini sys.World) (Unit {0})
  perror prefix = do
    s ← get
    write_prefix prefix
    write_error s.errno
    write_text (codes "\n")
    pure tt
