-- ===== src/Preload/Calls.antt =====
-- Every function of project2/share.cpp as one call, and what it asks of libc's.
use nctu_unixprog.Base.{ℕ, ◌≡◌, Option, none, some, String, List, [], ◌∷◌, ◌==◌, if◌then◌else◌}
use nctu_unixprog.Run.{Outcome, ok, exited, undefined, M}
use nctu_unixprog.Preload.Libc.{Libc, Preload, string, number, bytes, Return}
use nctu_unixprog.Preload.Paths.{
  chmod, chown, creat64, creat, fopen, fopen64, takes_mode, open_file, open64, rename, remove,
  tmpfile, tmpfile64,
}
use nctu_unixprog.Preload.Streams.{close, fclose, fread, fwrite, write, read}

-- The calls that are taken over, with the arguments of the caller.
pub data Call : Type 0 where
  chmod_call creat64_call creat_call : List ℕ → ℕ → Call
  chown_call : List ℕ → ℕ → ℕ → Call
  close_call fclose_call : ℕ → Call
  fopen_call fopen64_call rename_call : List ℕ → List ℕ → Call
  fread_call : ℕ → ℕ → ℕ → ℕ → Call
  fwrite_call : List ℕ → ℕ → ℕ → ℕ → Call
  open_call open64_call : List ℕ → ℕ → Option ℕ → Call
  write_call : ℕ → List ℕ → ℕ → Call
  read_call : ℕ → ℕ → ℕ → Call
  tmpfile_call tmpfile64_call : Call
  remove_call : List ℕ → Call

module _ (libc : Libc) where
  abbrev pub run_call : Call → M (Preload libc.World) ℕ
  run_call (chmod_call p m) = chmod libc p m
  run_call (chown_call p o g) = chown libc p o g
  run_call (close_call fd) = close libc fd
  run_call (creat64_call p m) = creat64 libc p m
  run_call (creat_call p m) = creat libc p m
  run_call (fopen_call p m) = fopen libc p m
  run_call (fopen64_call p m) = fopen64 libc p m
  run_call (fclose_call s) = fclose libc s
  run_call (fread_call p n k s) = fread libc p n k s
  run_call (fwrite_call b n k s) = fwrite libc b n k s
  run_call (open_call p f m) = open_file libc p f m
  run_call (open64_call p f m) = open64 libc p f m
  run_call (rename_call p q) = rename libc p q
  run_call (write_call fd b n) = write libc fd b n
  run_call (read_call fd b n) = read libc fd b n
  run_call tmpfile_call = tmpfile libc
  run_call tmpfile64_call = tmpfile64 libc
  run_call (remove_call p) = remove libc p

  -- What the program gets without the library: the value, and the world after the call. close(2) is
  -- answered with 0 and not made.
  unfoldable pub given_mode : String → List ℕ → ℕ → Option ℕ → libc.World → Return × libc.World
  given_mode func p f none w = libc.dlsym func w (string p ∷ number f ∷ [])
  given_mode func p f (some m) w =
      if takes_mode libc f
      then libc.dlsym func w (string p ∷ number f ∷ number m ∷ [])
      else libc.dlsym func w (string p ∷ number f ∷ [])

  unfoldable pub direct : Call → libc.World → Return × libc.World
  direct (chmod_call p m) w = libc.dlsym "chmod" w (string p ∷ number m ∷ [])
  direct (chown_call p o g) w = libc.dlsym "chown" w (string p ∷ number o ∷ number g ∷ [])
  direct (close_call fd) w =
      if fd == 2
      then (record { value = 0; memory = [] }, w)
      else libc.dlsym "close" w (number fd ∷ [])
  direct (creat64_call p m) w = libc.dlsym "creat64" w (string p ∷ number m ∷ [])
  direct (creat_call p m) w = libc.dlsym "creat" w (string p ∷ number m ∷ [])
  direct (fopen_call p m) w = libc.dlsym "fopen" w (string p ∷ string m ∷ [])
  direct (fopen64_call p m) w = libc.dlsym "fopen64" w (string p ∷ string m ∷ [])
  direct (fclose_call s) w = libc.dlsym "fclose" w (number s ∷ [])
  direct (fread_call p n k s) w =
      libc.dlsym "fread" w (number p ∷ number n ∷ number k ∷ number s ∷ [])
  direct (fwrite_call b n k s) w =
      libc.dlsym "fwrite" w (bytes b ∷ number n ∷ number k ∷ number s ∷ [])
  direct (open_call p f m) w = given_mode "open" p f m w
  direct (open64_call p f m) w = given_mode "open64" p f m w
  direct (rename_call p q) w = libc.dlsym "rename" w (string p ∷ string q ∷ [])
  direct (write_call fd b n) w = libc.dlsym "write" w (number fd ∷ bytes b ∷ number n ∷ [])
  direct (read_call fd b n) w = libc.dlsym "read" w (number fd ∷ number b ∷ number n ∷ [])
  direct tmpfile_call w = libc.dlsym "tmpfile" w []
  direct tmpfile64_call w = libc.dlsym "tmpfile64" w []
  direct (remove_call p) w = libc.dlsym "remove" w (string p ∷ [])

-- The blocks that a call leaves on the heap.
abbrev pub leaked : Call → ℕ
leaked (remove_call p) = 1
leaked c = 0

-- A run returns a value, with the world and the number of live blocks given.
abbrev pub Returns : {W : Type 0} → ℕ → W → ℕ → Outcome (Preload W) ℕ → Type 0
Returns v w n (ok r t) = (r ≡ v) × (t.world ≡ w) × (t.live ≡ n)
Returns v w n (exited c t) = ⊥
Returns v w n undefined = ⊥
