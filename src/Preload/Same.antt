-- ===== src/Preload/Same.antt =====
-- The functions of project2/share.cpp on descriptors and streams, and `open`, against libc's.
use nctu_unixprog.Base.{
  ℕ, ◌+◌, ◌*◌, ◌%◌, ◌^◌, ◌≤◌, String, ◌≡◌, refl, Bool-cases, inl, inr, Option, none, some, List, [],
  ◌∷◌, ◌==◌, length, arith,
}
use nctu_unixprog.Text.Number.{atoi}
use nctu_unixprog.Run.{M, ◌>>=◌, ◌>>◌, pure, get, modify}
use nctu_unixprog.Preload.Libc.{
  Libc, Preload, number, bytes, Return, call_real, resolve, free, dprintf,
}
use nctu_unixprog.Preload.Bytes.{print_bytes, signed_bound}
use nctu_unixprog.Preload.Paths.{takes_mode, mode_arg, open_args, open_by, open_file, open64}
use nctu_unixprog.Preload.Streams.{close_result, close, fclose, fread, fwrite, write, read}
use nctu_unixprog.Preload.Calls.{
  Call, close_call, fclose_call, fread_call, fwrite_call, open_call, open64_call, write_call,
  read_call, run_call, given_mode, direct, leaked, Returns,
}
use nctu_unixprog.Preload.Payload.{Shows, print_bytes-Shows}
use nctu_unixprog.Preload.Ready.{
  IsReady, IsStdio, IsProper, items-IsInside, given-IsInside, some_step, logger_out_lem,
  fd2name_lem, file2name_lem,
}

module _ (libc : Libc) (ready : IsReady libc) where
  -- The value and the world of the direct call.
  abbrev pub Same : Call → Preload libc.World → Type 0
  Same c s =
      Returns (direct libc c s.world).0.value (direct libc c s.world).1 (leaked c + s.live)
        (run_call libc c s)

  open_by_lem :
      (func : String) (p : List ℕ) (f : ℕ) (given : Option ℕ) (s : Preload libc.World) (m : ℕ)
      → mode_arg libc f given ≡ pure m
      → Returns
          (libc.dlsym func s.world (open_args libc p f m)).0.value
          (libc.dlsym func s.world (open_args libc p f m)).1
          (0 + s.live)
          (open_by libc func p f given s)
  unfolding open_by call_real resolve dprintf free get modify pure ◌>>=◌ ◌>>◌
  open_by_lem func p f given s m h = rw h (rw (logger_out_lem libc ready) (refl, refl, omega arith))

  open_by-Same :
      (func : String) (p : List ℕ) (f : ℕ) (given : Option ℕ) (s : Preload libc.World)
      → IsProper libc (open_call p f given)
      → Returns
          (given_mode libc func p f given s.world).0.value
          (given_mode libc func p f given s.world).1
          (0 + s.live)
          (open_by libc func p f given s)
  unfolding given_mode mode_arg open_args pure
  open_by-Same func p f none s h = rw h at (open_by_lem func p f none s 0 (rw h refl))
  open_by-Same func p f (some m) s h = elim (Bool-cases (takes_mode libc f)) [
    | inl e ↦ rw e (rw e at (open_by_lem func p f (some m) s m (rw e refl)))
    | inr e ↦ rw e (rw e at (open_by_lem func p f (some m) s 0 (rw e refl)))
  ]

  pub open_file-Same :
      (p : List ℕ) (f : ℕ) (given : Option ℕ) (s : Preload libc.World)
      → IsProper libc (open_call p f given)
      → Same (open_call p f given) s
  unfolding open_file direct
  open_file-Same p f given s h = open_by-Same "open" p f given s h

  pub open64-Same :
      (p : List ℕ) (f : ℕ) (given : Option ℕ) (s : Preload libc.World)
      → IsProper libc (open_call p f given)
      → Same (open64_call p f given) s
  unfolding open64 direct
  open64-Same p f given s h = open_by-Same "open64" p f given s h

  pub close-Same : (fd : ℕ) (s : Preload libc.World) → Same (close_call fd) s
  unfolding close close_result direct call_real dprintf modify pure ◌>>=◌ ◌>>◌
  close-Same fd s =
      let (name, n) = (fd2name_lem libc ready) fd s in
      elim (Bool-cases (fd == 2)) [
        | inl e ↦ rw n (rw e (rw (logger_out_lem libc ready) (refl, refl, omega arith)))
        | inr e ↦ rw n (rw e (rw (logger_out_lem libc ready) (refl, refl, omega arith)))
      ]

  pub fclose-Same : (stream : ℕ) (s : Preload libc.World) → Same (fclose_call stream) s
  unfolding fclose direct call_real dprintf modify pure ◌>>=◌ ◌>>◌
  fclose-Same stream s =
      let (name, n) = (file2name_lem libc ready) stream s in
      rw n (rw (logger_out_lem libc ready) (refl, refl, omega arith))

  -- What comes after the loop that prints a buffer.
  print_then :
      (v n : ℕ) (w : libc.World) (out : ℕ) (buf : List ℕ) (count result step : ℕ)
      (s : Preload libc.World) (k : M (Preload libc.World) ℕ)
      → Shows out 32 s (print_bytes out buf count result step s)
      → ((t : Preload libc.World) → t.world ≡ s.world → t.live ≡ s.live → Returns v w n (k t))
      → Returns v w n ((print_bytes out buf count result step >> k) s)
  unfolding ◌>>◌
  print_then v n w out buf count result step s k (cs, e, l, a) h = rw e (h _ refl refl)

  module _ (stdio : IsStdio libc) where
    pub write-Same :
        (fd : ℕ) (b : List ℕ) (n : ℕ) (s : Preload libc.World)
        → IsProper libc (write_call fd b n)
        → Same (write_call fd b n) s
    unfolding write direct call_real dprintf modify pure ◌>>=◌ ◌>>◌
    write-Same fd b n s h =
        let r : Return × libc.World =
          libc.dlsym "write" s.world (number fd ∷ bytes b ∷ number n ∷ []) in
        let (name, e) = (fd2name_lem libc ready) fd (record s { world = r.1 }) in
        rw e (
          rw (logger_out_lem libc ready) (
            print_then r.0.value (0 + s.live) r.1 (atoi ready.out) b n (signed_bound r.0.value) 1 _
              _
              (print_bytes-Shows (atoi ready.out) b n (signed_bound r.0.value) 1 _
                (inr (omega arith, omega arith)) (λ i p q. omega arith))
              (λ t w l. (refl, w, omega arith))))

    pub read-Same : (fd b n : ℕ) (s : Preload libc.World) → Same (read_call fd b n) s
    unfolding read direct call_real dprintf modify pure ◌>>=◌ ◌>>◌
    read-Same fd b n s =
        let r : Return × libc.World =
          libc.dlsym "read" s.world (number fd ∷ number b ∷ number n ∷ []) in
        let (name, e) = (fd2name_lem libc ready) fd (record s { world = r.1 }) in
        let stored : signed_bound r.0.value ≤ length r.0.memory =
          stdio.read_stored s.world fd b n in
        rw e (
          rw (logger_out_lem libc ready) (
            print_then r.0.value (0 + s.live) r.1 (atoi ready.out) r.0.memory n
              (signed_bound r.0.value) 1 _ _
              (print_bytes-Shows (atoi ready.out) r.0.memory n (signed_bound r.0.value) 1 _
                (inr (omega arith, omega arith)) (λ i p q. omega arith))
              (λ t w l. (refl, w, omega arith))))

    pub fread-Same : (p n k stream : ℕ) (s : Preload libc.World) → Same (fread_call p n k stream) s
    unfolding fread direct call_real dprintf modify pure ◌>>=◌ ◌>>◌
    fread-Same p n k stream s =
        let r : Return × libc.World =
          libc.dlsym "fread" s.world (number p ∷ number n ∷ number k ∷ number stream ∷ []) in
        let (name, e) = (file2name_lem libc ready) stream (record s { world = r.1 }) in
        rw e (
          rw (logger_out_lem libc ready) (
            print_then r.0.value (0 + s.live) r.1 (atoi ready.out) r.0.memory (n * k % 2 ^ 64)
              r.0.value 1 _ _
              (print_bytes-Shows (atoi ready.out) r.0.memory (n * k % 2 ^ 64) r.0.value 1 _
                (inr (omega arith, omega arith))
                (items-IsInside n k r.0.value r.0.memory (stdio.fread_stored s.world p n k stream)))
              (λ t w l. (refl, w, omega arith))))

    pub fwrite-Same :
        (b : List ℕ) (n k stream : ℕ) (s : Preload libc.World)
        → IsProper libc (fwrite_call b n k stream)
        → Same (fwrite_call b n k stream) s
    unfolding fwrite direct call_real dprintf modify pure ◌>>=◌ ◌>>◌
    fwrite-Same b n k stream s (h, small) =
        let r : Return × libc.World =
          libc.dlsym "fwrite" s.world (bytes b ∷ number n ∷ number k ∷ number stream ∷ []) in
        let (name, e) = (file2name_lem libc ready) stream (record s { world = r.1 }) in
        rw e (
          rw (logger_out_lem libc ready) (
            print_then r.0.value (0 + s.live) r.1 (atoi ready.out) b (n * k % 2 ^ 64) r.0.value n _
              _
              (print_bytes-Shows (atoi ready.out) b (n * k % 2 ^ 64) r.0.value n _
                (some_step n k small)
                (given-IsInside n k r.0.value b h (stdio.fwrite_counted s.world b n k stream)))
              (λ t w l. (refl, w, omega arith))))
