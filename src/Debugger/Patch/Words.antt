-- ===== src/Debugger/Patch/Words.antt =====
-- A word of the child's memory, and the word that `bp` pokes, byte by byte.
use Prim.Native.Nat.{bit_and}
use nctu_unixprog.Base.{
  inl, inr, Bool-cases, arith, ℕ, ◌+◌, ◌-◌, ◌/◌, ◌%◌, ◌^◌, ◌<◌, ◌≤◌, ◌≡◌, ◌≢◌, refl, ◌∙◌, ap, true,
  zero, suc, ◌&&◌, leb, ltb, if◌then◌else◌, ◌==◌, some,
}
use nctu_unixprog.Base.Bits.{bit_and-0xff, patch_byte}
use nctu_unixprog.Debugger.Os.{Os, IsPtrace, word8}
use nctu_unixprog.Debugger.Breaks.{has_trap, with_trap}

module _ (b : ℕ → ℕ) (small : (i : ℕ) → b i < 256) where
  pub word8-lt : word8 b < 2 ^ 64
  word8-lt = omega (arith, small 0, small 1, small 2, small 3, small 4, small 5, small 6, small 7)

  byte_of : (i : ℕ) → i < 8 → word8 b / 256 ^ i % 256 ≡ b i
  byte_of zero h = omega (arith, small 0)
  byte_of (suc zero) h = omega (arith, small 0, small 1)
  byte_of (suc (suc zero)) h = omega (arith, small 0, small 1, small 2)
  byte_of (suc (suc (suc zero))) h = omega (arith, small 0, small 1, small 2, small 3)
  byte_of (suc (suc (suc (suc zero)))) h =
      omega (arith, small 0, small 1, small 2, small 3, small 4)
  byte_of (suc (suc (suc (suc (suc zero))))) h =
      omega (arith, small 0, small 1, small 2, small 3, small 4, small 5)
  byte_of (suc (suc (suc (suc (suc (suc zero)))))) h =
      omega (arith, small 0, small 1, small 2, small 3, small 4, small 5, small 6)
  byte_of (suc (suc (suc (suc (suc (suc (suc zero))))))) h =
      omega (arith, small 0, small 1, small 2, small 3, small 4, small 5, small 6, small 7)
  byte_of (suc (suc (suc (suc (suc (suc (suc (suc i)))))))) h = absurd (omega arith)

  -- `(code & 0xff) == 0xcc` reads the lowest byte.
  pub has_trap_lem : has_trap (word8 b) ≡ (b 0 == 0xcc)
  unfolding has_trap
  has_trap_lem =
      let low : bit_and (word8 b) 0xff ≡ b 0 = omega (arith, bit_and-0xff (word8 b), small 0) in
      rw low

-- The bytes with a trap in place of the first.
abbrev pub trapped : (ℕ → ℕ) → ℕ → ℕ
trapped b zero = 0xcc
trapped b (suc i) = b (suc i)

trapped-zero : (b : ℕ → ℕ) (k : ℕ) → k ≡ 0 → trapped b k ≡ 0xcc
trapped-zero b zero h = refl
trapped-zero b (suc k) h = absurd (omega arith)

trapped_pos : (b : ℕ → ℕ) (k : ℕ) → k ≢ 0 → trapped b k ≡ b k
trapped_pos b zero h = absurd (h refl)
trapped_pos b (suc k) h = refl

module _ (b : ℕ → ℕ) (small : (i : ℕ) → b i < 256) where
  pub with_trap_lem : with_trap (word8 b) ≡ word8 (trapped b)
  unfolding with_trap
  with_trap_lem = omega (arith, patch_byte (word8 b) (word8-lt b small), small 0)

  trapped-lt : (i : ℕ) → trapped b i < 256
  trapped-lt zero = omega arith
  trapped-lt (suc i) = small (suc i)

module _ (os : Os) (P : IsPtrace os) (w w' : os.World) (pid a : ℕ) where
  -- A poke of eight given bytes.
  pub poke-byte :
      (c : ℕ → ℕ) (v : ℕ)
      → ((i : ℕ) → c i < 256)
      → v ≡ word8 c
      → os.poketext w pid a v ≡ some w'
      → (x : ℕ) → P.byte w' pid x ≡ (if leb a x && ltb x (a + 8) then c (x - a) else P.byte w pid x)
  poke-byte c v small q e x = ground (arith, P.poketext_bytes w w' pid a v x e, byte_at)
    where
      byte_at : leb a x && ltb x (a + 8) ≡ true → v / 256 ^ (x - a) % 256 ≡ c (x - a)
      byte_at t = rw q (byte_of c small (x - a) (ground arith))

  inside : (x : ℕ) → leb a x && ltb x (a + 8) ≡ true → (a ≤ x) × (x < a + 8) × (a + (x - a) ≡ x)
  inside x t = ground arith

  -- The word that was there before, poked back.
  pub poke_back-byte :
      (u : os.World)
      → os.poketext w pid a (os.peektext u pid a) ≡ some w'
      → (x : ℕ)
      → P.byte w' pid x ≡ (if leb a x && ltb x (a + 8) then P.byte u pid x else P.byte w pid x)
  poke_back-byte u e x = elim (Bool-cases (leb a x && ltb x (a + 8))) [
    | inl t ↦ rw t (rw t at poked ∙ ap (P.byte u pid) (inside x t).2)
    | inr f ↦ rw f (rw f at poked)
  ]
    where
      poked :
          P.byte w' pid x
          ≡ (if leb a x && ltb x (a + 8) then P.byte u pid (a + (x - a)) else P.byte w pid x)
      poked =
          poke-byte (λ i. P.byte u pid (a + i)) _ (λ i. P.byte-lt u pid (a + i))
            (P.peektext_bytes u pid a) e x

  -- The word that was there, with a trap in its first byte: only that byte changes.
  pub poke_trap-byte :
      os.poketext w pid a (with_trap (os.peektext w pid a)) ≡ some w'
      → (x : ℕ) → P.byte w' pid x ≡ (if x == a then 0xcc else P.byte w pid x)
  poke_trap-byte e x = elim (Bool-cases (leb a x && ltb x (a + 8))) [
    | inl t ↦ (rw t at poked) ∙ at_or_behind t
    | inr f ↦ (rw f at poked) ∙ ground arith
  ]
    where
      old : ℕ → ℕ
      old i = P.byte w pid (a + i)

      old-lt : (i : ℕ) → old i < 256
      old-lt i = P.byte-lt w pid (a + i)

      poked :
          P.byte w' pid x
          ≡ (if leb a x && ltb x (a + 8) then trapped old (x - a) else P.byte w pid x)
      poked =
          poke-byte (trapped old) _ (trapped-lt old old-lt)
            (ap with_trap (P.peektext_bytes w pid a) ∙ with_trap_lem old old-lt) e x

      at_or_behind :
          leb a x && ltb x (a + 8) ≡ true
          → trapped old (x - a) ≡ (if x == a then 0xcc else P.byte w pid x)
      at_or_behind t = elim (Bool-cases (x == a)) [
        | inl q ↦ rw q (trapped-zero old (x - a) (ground arith))
        | inr q ↦ rw q (trapped_pos old (x - a) (ground arith) ∙ ap (P.byte w pid) (inside x t).2)
      ]
