-- ===== src/Preload/Shown.antt =====
-- The bytes that `read`, `write` and `fread` of project2/share.cpp show.
use Prim.Native.Nat.{min}
use nctu_unixprog.Base.{ℕ, ◌*◌, ◌%◌, ◌^◌, ◌≤◌, ◌≡◌, refl, List, [], ◌∷◌, map, take, length, arith}
use nctu_unixprog.Text.Number.{atoi}
use nctu_unixprog.Run.{Outcome, ok, ◌>>=◌, ◌>>◌, pure, modify}
use nctu_unixprog.Preload.Libc.{Libc, Preload, Piece, number, bytes, Return, call_real, dprintf}
use nctu_unixprog.Preload.Bytes.{shown, signed_bound}
use nctu_unixprog.Preload.Streams.{fread, write, read}
use nctu_unixprog.Preload.Calls.{Call, fread_call, write_call, read_call, run_call}
use nctu_unixprog.Preload.Payload.{logged, print_bytes-first}
use nctu_unixprog.Preload.Ready.{
  IsReady, IsStdio, IsProper, items-IsInside, logger_out_lem, fd2name_lem, file2name_lem,
}

-- The calls that show a buffer byte by byte.
abbrev pub HasBuffer : Call → Type 0
HasBuffer (fread_call p n k stream) = Unit {0}
HasBuffer (write_call fd b n) = Unit {0}
HasBuffer (read_call fd b n) = Unit {0}
HasBuffer c = ⊥

-- The first bytes that the caller gave or that libc stored: 32 at most, no more than the count, and no
-- more than the result of libc.
abbrev pub payload : (libc : Libc) → Call → libc.World → List ℕ
payload libc (fread_call p n k stream) w =
    let r : Return =
      (libc.dlsym "fread" w (number p ∷ number n ∷ number k ∷ number stream ∷ [])).0 in
    take (min (n * k % 2 ^ 64) (min 32 r.value)) r.memory
payload libc (write_call fd b n) w =
    let r : Return = (libc.dlsym "write" w (number fd ∷ bytes b ∷ number n ∷ [])).0 in
    take (min n (min 32 (signed_bound r.value))) b
payload libc (read_call fd b n) w =
    let r : Return = (libc.dlsym "read" w (number fd ∷ number b ∷ number n ∷ [])).0 in
    take (min n (min 32 (signed_bound r.value))) r.memory
payload libc c w = []

-- A call that returns has made one `dprintf`, then one for each of these characters, and a last one, to
-- that descriptor.
abbrev pub Prints : {W : Type 0} → ℕ → List ℕ → Preload W → Outcome (Preload W) ℕ → Type 0
Prints {W} out cs s o =
    (v : ℕ) × (t : Preload W) × (first : List Piece) × (last : List Piece) × (o ≡ ok v t)
    × (t.log ≡ (out, last) ∷ logged out cs ((out, first) ∷ s.log))

module _ (libc : Libc) (ready : IsReady libc) (stdio : IsStdio libc) where
  abbrev pub ShowsFirst : Call → Preload libc.World → Type 0
  ShowsFirst c s =
      Prints (atoi ready.out) (map shown (payload libc c s.world)) s (run_call libc c s)

  write-Shows :
      (fd : ℕ) (b : List ℕ) (n : ℕ) (s : Preload libc.World)
      → n ≤ length b
      → ShowsFirst (write_call fd b n) s
  unfolding write call_real dprintf modify pure ◌>>=◌ ◌>>◌
  write-Shows fd b n s h =
      let r : Return × libc.World =
        libc.dlsym "write" s.world (number fd ∷ bytes b ∷ number n ∷ []) in
      let (name, e) = fd2name_lem libc ready fd (record s { world = r.1 }) in
      rw e (
        rw (logger_out_lem libc ready) (
          rw
            (print_bytes-first (atoi ready.out) b n (signed_bound r.0.value) _
              (λ i p q. omega arith))
            (_, _, _, _, refl, refl)))

  read-Shows : (fd b n : ℕ) (s : Preload libc.World) → ShowsFirst (read_call fd b n) s
  unfolding read call_real dprintf modify pure ◌>>=◌ ◌>>◌
  read-Shows fd b n s =
      let r : Return × libc.World =
        libc.dlsym "read" s.world (number fd ∷ number b ∷ number n ∷ []) in
      let (name, e) = fd2name_lem libc ready fd (record s { world = r.1 }) in
      let stored : signed_bound r.0.value ≤ length r.0.memory = stdio.read_stored s.world fd b n in
      rw e (
        rw (logger_out_lem libc ready) (
          rw
            (print_bytes-first (atoi ready.out) r.0.memory n (signed_bound r.0.value) _
              (λ i p q. omega arith))
            (_, _, _, _, refl, refl)))

  fread-Shows : (p n k stream : ℕ) (s : Preload libc.World) → ShowsFirst (fread_call p n k stream) s
  unfolding fread call_real dprintf modify pure ◌>>=◌ ◌>>◌
  fread-Shows p n k stream s =
      let r : Return × libc.World =
        libc.dlsym "fread" s.world (number p ∷ number n ∷ number k ∷ number stream ∷ []) in
      let (name, e) = file2name_lem libc ready stream (record s { world = r.1 }) in
      rw e (
        rw (logger_out_lem libc ready) (
          rw
            (print_bytes-first (atoi ready.out) r.0.memory (n * k % 2 ^ 64) r.0.value _
              (items-IsInside n k r.0.value r.0.memory (stdio.fread_stored s.world p n k stream)))
            (_, _, _, _, refl, refl)))

  -- With LOGGER_OUT set, on a libc as documented and with a buffer as long as announced: between the
  -- head and the tail of their line `read`, `write` and `fread` print exactly the first bytes of the
  -- buffer, the smallest of the count, 32 and the result of libc, one `dprintf` each, and "." for a byte
  -- that cannot be printed.
  pub run_call-shows :
      (c : Call) (s : Preload libc.World) → HasBuffer c → IsProper libc c → ShowsFirst c s
  run_call-shows (write_call fd b n) s h k = write-Shows fd b n s k
  run_call-shows (read_call fd b n) s h k = read-Shows fd b n s
  run_call-shows (fread_call p n k stream) s h q = fread-Shows p n k stream s
  run_call-shows _ s h k = absurd h
