-- ===== src/Preload/Libc.antt =====
-- What project2/share.cpp asks of libc, its state, and the steps that its functions share. A static
-- handle that is set again in every call is left out.
use nctu_unixprog.Base.{
  ℕ, suc, ◌-◌, String, Option, none, some, List, [], ◌∷◌, ◌++◌, ltb, if◌then◌else◌, codes, length,
}
use nctu_unixprog.Text.Number.{atoi}
use nctu_unixprog.Text.Find.{c_string}
use nctu_unixprog.Stream.{show_int}
use nctu_unixprog.Run.{Outcome, ok, M, ◌>>=◌, ◌>>◌, pure, get, modify, undefined_behaviour}

-- An argument of a call of libc: a string, a number or a pointer, or the bytes at a pointer.
pub data Arg : Type 0 where
  string : List ℕ → Arg
  number : ℕ → Arg
  bytes : List ℕ → Arg

-- What a call returns, as the bits of its type, and the bytes that it stored at a pointer.
pub record Return : Type 0 where
  pub value : ℕ
  pub memory : List ℕ

pub record Libc : Type 1 where
  pub World : Type 0
  -- The function of that name in libc.so.6: `dlsym(handle, name)`.
  pub dlsym : String → World → List Arg → Return × World
  -- `realpath(path, NULL)`
  pub realpath : World → List ℕ → Option (List ℕ)
  -- At most the count of bytes, with no NUL behind them.
  pub readlink : World → List ℕ → ℕ → Option (List ℕ)
  pub fileno : World → ℕ → ℕ
  pub getenv : World → String → Option (List ℕ)

-- What `dprintf` is given: texts, %d, %o, %ld, %p and %c.
pub data Piece : Type 0 where
  put_text : List ℕ → Piece
  put_int put_octal put_long put_pointer put_char : ℕ → Piece

-- The world, the blocks of the heap that the library took and did not free, and its calls of `dprintf`,
-- newest first.
pub record Preload (W : Type 0) : Type 0 where
  pub world : W
  pub live : ℕ
  pub log : List (ℕ × List Piece)

returned : {W : Type 0} → Preload W → Return × W → Outcome (Preload W) Return
returned s (r, w) = ok r (record s { world = w })

-- `dlopen`, `dlsym` and the call.
unfoldable pub call_real : (libc : Libc) → String → List Arg → M (Preload libc.World) Return
unfolding returned
call_real libc name args s = returned s (libc.dlsym name s.world args)

or_untouched : Option (List ℕ) → List ℕ
or_untouched none = codes "untouched"
or_untouched (some path) = path

-- `realpath`, or a copy of NULLPATH: either takes a block.
unfoldable pub resolve : (libc : Libc) → List ℕ → M (Preload libc.World) (List ℕ)
unfolding or_untouched
resolve libc path = do
  modify (λ s. record s { live = suc s.live })
  s ← get
  pure (or_untouched (libc.realpath s.world path))

unfoldable pub free : {W : Type 0} → M (Preload W) (Unit {0})
free = modify (λ s. record s { live = s.live - 1 })

-- `atoi(getenv("LOGGER_OUT"))`: of NULL it has no defined behaviour.
unfoldable pub out_of : {W : Type 0} → Option (List ℕ) → M (Preload W) ℕ
out_of none = undefined_behaviour
out_of (some t) = pure (atoi t)

unfoldable pub logger_out : (libc : Libc) → M (Preload libc.World) ℕ
logger_out libc = get >>= λ s. out_of (libc.getenv s.world "LOGGER_OUT")

unfoldable pub dprintf : {W : Type 0} → ℕ → List Piece → M (Preload W) (Unit {0})
dprintf out pieces = modify (λ s. record s { log = (out, pieces) ∷ s.log })

-- `"%s %s("` with LOGGER and __func__.
abbrev pub opening : String → List Piece
opening func =
    put_text (codes "[logger]")
    ∷ put_text (codes " ")
    ∷ put_text (codes func)
    ∷ put_text (codes "(")
    ∷ []

-- The 1024 bytes of a buffer that was cleared: with all of them stored, no NUL ends the text.
unfoldable pub link_name : {W : Type 0} → Option (List ℕ) → M (Preload W) (List ℕ)
link_name none = pure []
link_name (some link) = if ltb (length link) 1024 then pure (c_string link) else undefined_behaviour

unfoldable pub fd2name : (libc : Libc) → ℕ → M (Preload libc.World) (List ℕ)
fd2name libc fd =
    get >>= λ s. link_name (libc.readlink s.world (codes "/proc/self/fd/" ++ show_int fd) 1024)

unfoldable pub file2name : (libc : Libc) → ℕ → M (Preload libc.World) (List ℕ)
file2name libc stream = get >>= λ s. fd2name libc (libc.fileno s.world stream)
