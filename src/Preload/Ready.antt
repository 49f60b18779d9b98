-- ===== src/Preload/Ready.antt =====
-- What project2/share.cpp relies on: its environment, libc, and the caller.
use mathlib.Core.Path.{fun_ext}
use native.Mathlib.Nat.{zero-mul, mul_comm, le-mul_of_pos_right}
use nctu_unixprog.Base.{
  ℕ, zero, suc, ◌+◌, ◌*◌, ◌%◌, ◌^◌, ◌≤◌, ◌<◌, ◌≡◌, refl, true, false, ◌⊎◌, inl, inr, Option, none,
  some, List, [], ◌∷◌, ltb, length, arith,
}
use nctu_unixprog.Text.Number.{atoi}
use nctu_unixprog.Text.Find.{c_string}
use nctu_unixprog.Run.{ok, ◌>>=◌, pure, get}
use nctu_unixprog.Preload.Libc.{
  Libc, Preload, number, bytes, out_of, logger_out, link_name, fd2name, file2name,
}
use nctu_unixprog.Preload.Bytes.{signed_bound}
use nctu_unixprog.Preload.Paths.{takes_mode}
use nctu_unixprog.Preload.Calls.{Call, fwrite_call, open_call, open64_call, write_call}
use nctu_unixprog.Preload.Payload.{IsInside}

-- The launcher has set LOGGER_OUT, and the links of /proc/self/fd fit their buffer.
pub record IsReady (libc : Libc) : Type 0 where
  pub out : List ℕ
  pub out_set : (w : libc.World) → libc.getenv w "LOGGER_OUT" ≡ some out
  pub short :
      (w : libc.World) (path link : List ℕ)
      → libc.readlink w path 1024 ≡ some link
      → ltb (length link) 1024 ≡ true

-- Documented behaviour of libc: the items that fread counts and the bytes that read counts were stored,
-- and no more is counted as written than was given.
pub record IsStdio (libc : Libc) : Type 0 where
  pub fread_stored :
      (w : libc.World) (p n k s : ℕ)
      → (libc.dlsym "fread" w (number p ∷ number n ∷ number k ∷ number s ∷ [])).0.value * n
        ≤ length (libc.dlsym "fread" w (number p ∷ number n ∷ number k ∷ number s ∷ [])).0.memory
  pub read_stored :
      (w : libc.World) (fd b n : ℕ)
      → signed_bound ((libc.dlsym "read" w (number fd ∷ number b ∷ number n ∷ [])).0.value)
        ≤ length (libc.dlsym "read" w (number fd ∷ number b ∷ number n ∷ [])).0.memory
  pub fwrite_counted :
      (w : libc.World) (b : List ℕ) (n k s : ℕ)
      → (libc.dlsym "fwrite" w (bytes b ∷ number n ∷ number k ∷ number s ∷ [])).0.value ≤ k

-- What the caller must pass: the buffer that it announces, an item that is not huge, and the mode where
-- the flags ask for it.
abbrev pub IsProper : (libc : Libc) → Call → Type 0
IsProper libc (fwrite_call b n k s) = (n * k ≤ length b) × (n + 32 < 2 ^ 31)
IsProper libc (write_call fd b n) = n ≤ length b
IsProper libc (open_call p f none) = takes_mode libc f ≡ false
IsProper libc (open64_call p f none) = takes_mode libc f ≡ false
IsProper libc c = Unit {0}

-- Items of `size` bytes: what is counted lies in the buffer.
pub items-IsInside :
    (size k value : ℕ) (buf : List ℕ)
    → value * size ≤ length buf
    → IsInside buf (size * k % 2 ^ 64) value
items-IsInside zero k value buf h i p q = let z : zero * k ≡ 0 = zero-mul k in absurd (omega arith)
items-IsInside (suc size) k value buf h i p q =
    let m : value ≤ value * suc size = le-mul_of_pos_right value (omega arith) in omega arith

pub given-IsInside :
    (size k value : ℕ) (buf : List ℕ)
    → size * k ≤ length buf
    → value ≤ k
    → IsInside buf (size * k % 2 ^ 64) value
given-IsInside zero k value buf h c i p q =
    let z : zero * k ≡ 0 = zero-mul k in absurd (omega arith)
given-IsInside (suc size) k value buf h c i p q =
    let m : k ≤ k * suc size = le-mul_of_pos_right k (omega arith) in
    let e : k * suc size ≡ suc size * k = mul_comm k (suc size) in omega arith

pub some_step :
    (size k : ℕ)
    → size + 32 < 2 ^ 31
    → (size * k % 2 ^ 64 ≡ 0) ⊎ ((0 < size) × (size + 32 < 2 ^ 31))
some_step zero k h = let z : zero * k ≡ 0 = zero-mul k in inl (omega arith)
some_step (suc size) k h = inr (omega arith, h)

module _ (libc : Libc) (ready : IsReady libc) where
  pub logger_out_lem : logger_out libc ≡ pure (atoi ready.out)
  unfolding logger_out out_of get ◌>>=◌ pure
  logger_out_lem = fun_ext (λ s. rw (ready.out_set s.world) refl)

  link_name_lem :
      (s : Preload libc.World) (o : Option (List ℕ))
      → ((link : List ℕ) → o ≡ some link → ltb (length link) 1024 ≡ true)
      → (name : List ℕ) × (link_name o s ≡ ok name s)
  unfolding link_name pure
  link_name_lem s none h = ([], refl)
  link_name_lem s (some link) h = (c_string link, rw (h link refl) refl)

  pub fd2name_lem :
      (fd : ℕ) (s : Preload libc.World) → (name : List ℕ) × (fd2name libc fd s ≡ ok name s)
  unfolding fd2name get ◌>>=◌
  fd2name_lem fd s = link_name_lem s _ (ready.short s.world _)

  pub file2name_lem :
      (stream : ℕ) (s : Preload libc.World)
      → (name : List ℕ) × (file2name libc stream s ≡ ok name s)
  unfolding file2name get ◌>>=◌
  file2name_lem stream s = fd2name_lem (libc.fileno s.world stream) s
