-- ===== src/Preload/Streams.antt =====
-- The functions of project2/share.cpp on descriptors and on streams.
use nctu_unixprog.Base.{ℕ, ◌*◌, ◌%◌, ◌^◌, List, [], ◌∷◌, ◌++◌, ◌==◌, not, if◌then◌else◌}
use nctu_unixprog.Run.{M, ◌>>=◌, ◌>>◌, pure}
use nctu_unixprog.Preload.Libc.{
  Libc, Preload, number, bytes, call_real, logger_out, dprintf, opening, fd2name, file2name,
  put_text, put_int, put_long,
}
use nctu_unixprog.Preload.Bytes.{print_bytes, signed_bound}
use nctu_unixprog.Preload.Paths.{text}

module _ (libc : Libc) where
  -- The standard error output is not closed.
  unfoldable pub close_result : ℕ → M (Preload libc.World) ℕ
  close_result fd =
      if not (fd == 2)
      then (call_real libc "close" (number fd ∷ []) >>= λ r. pure r.value)
      else pure 0

  unfoldable pub close : ℕ → M (Preload libc.World) ℕ
  close fd = do
    name ← fd2name libc fd
    result ← close_result fd
    out ← logger_out libc
    dprintf out (
        opening "close"
        ++ (text "\"" ∷ put_text name ∷ text "\") = " ∷ put_int result ∷ text "\n" ∷ []))
    pure result

  unfoldable pub fclose : ℕ → M (Preload libc.World) ℕ
  fclose stream = do
    buf ← file2name libc stream
    result ← call_real libc "fclose" (number stream ∷ [])
    out ← logger_out libc
    dprintf out (
        opening "fclose"
        ++ (text "\"" ∷ put_text buf ∷ text "\") = " ∷ put_int result.value ∷ text "\n" ∷ []))
    pure result.value

  unfoldable pub fread : ℕ → ℕ → ℕ → ℕ → M (Preload libc.World) ℕ
  fread ptr size nmemb stream = do
    result ← call_real libc "fread" (number ptr ∷ number size ∷ number nmemb ∷ number stream ∷ [])
    buf ← file2name libc stream
    out ← logger_out libc
    dprintf out (opening "fread" ++ (text "\"" ∷ []))
    print_bytes out result.memory (size * nmemb % 2 ^ 64) result.value 1
    dprintf out (
        text "\", "
        ∷ put_long size
        ∷ text ", "
        ∷ put_long nmemb
        ∷ text ", \""
        ∷ put_text buf
        ∷ text "\") = "
        ∷ put_long result.value
        ∷ text "\n"
        ∷ [])
    pure result.value

  unfoldable pub fwrite : List ℕ → ℕ → ℕ → ℕ → M (Preload libc.World) ℕ
  fwrite ptr size nmemb stream = do
    result ← call_real libc "fwrite" (bytes ptr ∷ number size ∷ number nmemb ∷ number stream ∷ [])
    name ← file2name libc stream
    out ← logger_out libc
    dprintf out (opening "fwrite" ++ (text "\"" ∷ []))
    print_bytes out ptr (size * nmemb % 2 ^ 64) result.value size
    dprintf out (
        text "\", "
        ∷ put_long size
        ∷ text ", "
        ∷ put_long nmemb
        ∷ text ", \""
        ∷ put_text name
        ∷ text "\") = "
        ∷ put_long result.value
        ∷ text "\n"
        ∷ [])
    pure result.value

  unfoldable pub write : ℕ → List ℕ → ℕ → M (Preload libc.World) ℕ
  write fd buf count = do
    result ← call_real libc "write" (number fd ∷ bytes buf ∷ number count ∷ [])
    name ← fd2name libc fd
    out ← logger_out libc
    dprintf out (opening "write" ++ (put_text name ∷ text ", \"" ∷ []))
    print_bytes out buf count (signed_bound result.value) 1
    dprintf out
        (text "\", " ∷ put_long count ∷ text ") = " ∷ put_long result.value ∷ text "\n" ∷ [])
    pure result.value

  unfoldable pub read : ℕ → ℕ → ℕ → M (Preload libc.World) ℕ
  read fd buf count = do
    result ← call_real libc "read" (number fd ∷ number buf ∷ number count ∷ [])
    name ← fd2name libc fd
    out ← logger_out libc
    dprintf out (opening "read" ++ (put_text name ∷ text ", \"" ∷ []))
    print_bytes out result.memory count (signed_bound result.value) 1
    dprintf out
        (text "\", " ∷ put_long count ∷ text ") = " ∷ put_long result.value ∷ text "\n" ∷ [])
    pure result.value
