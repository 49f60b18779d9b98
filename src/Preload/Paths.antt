-- ===== src/Preload/Paths.antt =====
-- The functions of project2/share.cpp that take a path, and `tmpfile`.
use nctu_unixprog.Base.{
  ℕ, Bool, Option, none, some, String, List, [], ◌∷◌, ◌++◌, ◌||◌, not, ◌==◌, if◌then◌else◌, codes,
}
use Prim.Native.Nat.{bit_and}
use nctu_unixprog.Run.{M, ◌>>=◌, ◌>>◌, pure, undefined_behaviour}
use nctu_unixprog.Preload.Libc.{
  Libc, Preload, Arg, string, number, call_real, resolve, free, logger_out, dprintf, opening, Piece,
  put_text, put_int, put_octal, put_pointer,
}

abbrev pub text : String → Piece
text s = put_text (codes s)

module _ (libc : Libc) where
  unfoldable pub chmod : List ℕ → ℕ → M (Preload libc.World) ℕ
  chmod pathname mode = do
    result ← call_real libc "chmod" (string pathname ∷ number mode ∷ [])
    path ← resolve libc pathname
    out ← logger_out libc
    dprintf out (
        opening "chmod"
        ++ (text "\""
            ∷ put_text path
            ∷ text "\", "
            ∷ put_octal mode
            ∷ text ") = "
            ∷ put_int result.value
            ∷ text "\n"
            ∷ []))
    free
    pure result.value

  unfoldable pub chown : List ℕ → ℕ → ℕ → M (Preload libc.World) ℕ
  chown pathname owner group = do
    result ← call_real libc "chown" (string pathname ∷ number owner ∷ number group ∷ [])
    path ← resolve libc pathname
    out ← logger_out libc
    dprintf out (
        opening "chown"
        ++ (text "\""
            ∷ put_text path
            ∷ text "\", "
            ∷ put_int owner
            ∷ text ", "
            ∷ put_int group
            ∷ text ") = "
            ∷ put_int result.value
            ∷ text "\n"
            ∷ []))
    free
    pure result.value

  unfoldable pub creat64 : List ℕ → ℕ → M (Preload libc.World) ℕ
  creat64 pathname mode = do
    result ← call_real libc "creat64" (string pathname ∷ number mode ∷ [])
    path ← resolve libc pathname
    out ← logger_out libc
    dprintf out (
        opening "creat64"
        ++ (text "\""
            ∷ put_text path
            ∷ text "\", "
            ∷ put_octal mode
            ∷ text ") = "
            ∷ put_int result.value
            ∷ text "\n"
            ∷ []))
    free
    pure result.value

  unfoldable pub creat : List ℕ → ℕ → M (Preload libc.World) ℕ
  creat pathname mode = do
    result ← call_real libc "creat" (string pathname ∷ number mode ∷ [])
    path ← resolve libc pathname
    out ← logger_out libc
    dprintf out (
        opening "creat"
        ++ (text "\""
            ∷ put_text path
            ∷ text "\", "
            ∷ put_octal mode
            ∷ text ") = "
            ∷ put_int result.value
            ∷ text "\n"
            ∷ []))
    free
    pure result.value

  unfoldable pub fopen : List ℕ → List ℕ → M (Preload libc.World) ℕ
  fopen pathname mode = do
    result ← call_real libc "fopen" (string pathname ∷ string mode ∷ [])
    path ← resolve libc pathname
    out ← logger_out libc
    dprintf out (
        opening "fopen"
        ++ (text "\""
            ∷ put_text path
            ∷ text "\", \""
            ∷ put_text mode
            ∷ text "\") = "
            ∷ put_pointer result.value
            ∷ text "\n"
            ∷ []))
    free
    pure result.value

  unfoldable pub fopen64 : List ℕ → List ℕ → M (Preload libc.World) ℕ
  fopen64 pathname mode = do
    result ← call_real libc "fopen64" (string pathname ∷ string mode ∷ [])
    path ← resolve libc pathname
    out ← logger_out libc
    dprintf out (
        opening "fopen64"
        ++ (text "\""
            ∷ put_text path
            ∷ text "\", \""
            ∷ put_text mode
            ∷ text "\") = "
            ∷ put_pointer result.value
            ∷ text "\n"
            ∷ []))
    free
    pure result.value

  -- `(flags&O_CREAT) || (flags&O_TMPFILE)`
  unfoldable pub takes_mode : ℕ → Bool
  takes_mode flags = not (bit_and flags 0o100 == 0) || not (bit_and flags 0o20200000 == 0)

  -- `va_arg(args, mode_t)`: where the caller gave none it has no defined behaviour.
  unfoldable pub mode_arg : ℕ → Option ℕ → M (Preload libc.World) ℕ
  mode_arg flags none = if takes_mode flags then undefined_behaviour else pure 0
  mode_arg flags (some m) = if takes_mode flags then pure m else pure 0

  -- The arguments of the call of libc.
  unfoldable pub open_args : List ℕ → ℕ → ℕ → List Arg
  open_args pathname flags mode =
      if takes_mode flags
      then string pathname ∷ number flags ∷ number mode ∷ []
      else string pathname ∷ number flags ∷ []

  -- `open` and `open64`, by name.
  unfoldable pub open_by : String → List ℕ → ℕ → Option ℕ → M (Preload libc.World) ℕ
  open_by func pathname flags given = do
    mode ← mode_arg flags given
    result ← call_real libc func (open_args pathname flags mode)
    path ← resolve libc pathname
    out ← logger_out libc
    dprintf out (
        opening func
        ++ (text "\""
            ∷ put_text path
            ∷ text "\", "
            ∷ put_octal flags
            ∷ text ", "
            ∷ put_octal mode
            ∷ text ") = "
            ∷ put_int result.value
            ∷ text "\n"
            ∷ []))
    free
    pure result.value

  unfoldable pub open_file : List ℕ → ℕ → Option ℕ → M (Preload libc.World) ℕ
  open_file = open_by "open"

  unfoldable pub open64 : List ℕ → ℕ → Option ℕ → M (Preload libc.World) ℕ
  open64 = open_by "open64"

  unfoldable pub rename : List ℕ → List ℕ → M (Preload libc.World) ℕ
  rename oldpath newpath = do
    path1 ← resolve libc oldpath
    result ← call_real libc "rename" (string oldpath ∷ string newpath ∷ [])
    path2 ← resolve libc newpath
    out ← logger_out libc
    dprintf out (
        opening "rename"
        ++ (text "\""
            ∷ put_text path1
            ∷ text "\", \""
            ∷ put_text path2
            ∷ text "\") = "
            ∷ put_int result.value
            ∷ text "\n"
            ∷ []))
    free
    free
    pure result.value

  -- The path is not freed.
  unfoldable pub remove : List ℕ → M (Preload libc.World) ℕ
  remove pathname = do
    path ← resolve libc pathname
    result ← call_real libc "remove" (string pathname ∷ [])
    out ← logger_out libc
    dprintf out (
        opening "remove"
        ++ (text "\"" ∷ put_text path ∷ text "\") = " ∷ put_int result.value ∷ text "\n" ∷ []))
    pure result.value

  unfoldable pub tmpfile : M (Preload libc.World) ℕ
  tmpfile = do
    result ← call_real libc "tmpfile" []
    out ← logger_out libc
    dprintf out (opening "tmpfile" ++ (text ") = \"" ∷ put_pointer result.value ∷ text "\"\n" ∷ []))
    pure result.value

  unfoldable pub tmpfile64 : M (Preload libc.World) ℕ
  tmpfile64 = do
    result ← call_real libc "tmpfile64" []
    out ← logger_out libc
    dprintf out
        (opening "tmpfile64" ++ (text ") = \"" ∷ put_pointer result.value ∷ text "\"\n" ∷ []))
    pure result.value
