-- ===== src/Debugger/State.antt =====
-- The debugger's global variables, and the monad of its functions over them.
use nctu_unixprog.Base.{if◌then◌else◌, ℕ, String, Bool, true, false, Option, none, some, List}
use nctu_unixprog.Stream.{Ostream, put}
use nctu_unixprog.Debugger.Os.{Os}

-- NONLOAD, LOADED, RUNNING
pub data Mode : Type 0 where
  nonload loaded running : Mode

-- `bp_t`; the id is an int, kept as its 32 bits.
pub record Bp : Type 0 where
  pub id : ℕ
  pub addr : ℕ
  pub orig_code : ℕ

-- `elf_t`: the headers are the 64 bytes that `fread` fills, `str_tab` is NULL or the bytes read.
pub record Elf : Type 0 where
  pub ehdr : List ℕ
  pub str_shdr : List ℕ
  pub str_tab : Option (List ℕ)
  pub text_shdr : List ℕ

-- The globals, the two output streams and the rest of the world.
pub record Sdb (W : Type 0) : Type 0 where
  pub state : Mode
  pub file_path : List ℕ
  pub pid : ℕ
  pub code : Option (List ℕ)
  pub code_size : ℕ
  pub bp_list : List Bp
  pub elf : Elf
  pub cout : Ostream
  pub cerr : Ostream
  pub world : W

-- A call returns, ends the process with a status, or has no defined behaviour.
pub data Outcome (W A : Type 0) : Type 0 where
  ok : A → Sdb W → Outcome W A
  exited : ℕ → Sdb W → Outcome W A
  undefined : Outcome W A

abbrev pub M : Type 0 → Type 0 → Type 0
M W A = Sdb W → Outcome W A

module _ {W A B : Type 0} where
  -- What follows a call runs only if it returns.
  abbrev pub after : Outcome W A → (A → M W B) → Outcome W B
  after (ok a s) f = f a s
  after (exited c s) f = exited c s
  after undefined f = undefined

  infixl 5 ◌>>=◌ ◌>>◌
  unfoldable pub ◌>>=◌ : M W A → (A → M W B) → M W B
  ◌>>=◌ m f s = after (m s) f

  unfoldable pub ◌>>◌ : M W A → M W B → M W B
  ◌>>◌ m k s = after (m s) (λ _. k)

module _ {W : Type 0} where
  unfoldable pub pure : {A : Type 0} → A → M W A
  pure a s = ok a s

  unfoldable pub get : M W (Sdb W)
  get s = ok s s

  -- An assignment to globals.
  unfoldable pub modify : (Sdb W → Sdb W) → M W (Unit {0})
  modify f s = ok tt (f s)

  -- `exit(status)`
  unfoldable pub exit : {A : Type 0} → ℕ → M W A
  exit c s = exited c s

  -- Undefined behaviour of the source.
  unfoldable pub undefined_behaviour : {A : Type 0} → M W A
  undefined_behaviour s = undefined

  unfoldable pub write_cout : (Ostream → Ostream) → M W (Unit {0})
  write_cout f s = ok tt (record s { cout = f s.cout })

  unfoldable pub write_cerr : (Ostream → Ostream) → M W (Unit {0})
  write_cerr f s = ok tt (record s { cerr = f s.cerr })

  -- `cout << "..."`
  unfoldable pub say : String → M W (Unit {0})
  unfolding write_cout
  say t = write_cout (put 0 t)

module _ (os : Os) where
  -- `error(func, errno)`: prints, and exits with -1.
  unfoldable pub error : {A : Type 0} → String → M os.World A
  error func s = exited 255 (record s {
    cout = put 0 (os.strerror s.world) (put 0 "] ERROR:" (put 0 func (put 0 "** FUNC [" s.cout)));
  })

  -- A system call without a result, under `if(...) error(func, errno)`.
  unfoldable pub sys : String → (os.World → Option os.World) → M os.World (Unit {0})
  unfolding error
  sys func call s = elim (call s.world) [
    | none ↦ error func s
    | some w ↦ ok tt (record s { world = w })
  ]

  -- One that only reads.
  unfoldable pub ask : {A : Type 0} → String → (os.World → Option A) → M os.World A
  unfolding error
  ask func call s = elim (call s.world) [ none ↦ error func s | some a ↦ ok a s ]

  -- One with a result.
  unfoldable pub sys_result :
      {A : Type 0} → String → (os.World → Option (A × os.World)) → M os.World A
  unfolding error
  sys_result func call s = elim (call s.world) [
    | none ↦ error func s
    | some (a, w) ↦ ok a (record s { world = w })
  ]

-- A command that is not allowed in the state that it meets.
unfoldable pub is_running : Mode → Bool
is_running running = true
is_running _ = false

module _ {W : Type 0} where
  -- `if(state!=RUNNING){ cout<<message; return; }` before the rest of a command.
  unfoldable pub when_running : String → M W (Unit {0}) → M W (Unit {0})
  when_running message body s = if is_running s.state then body s else say message s
