-- ===== src/Traps/Patching.antt =====
-- A round of CTF/ptrace/no_more_traps/test.cpp on the child's memory.
use Prim.Native.Nat.{bit_and, bit_or}
use nctu_unixprog.Base.{
  arith, ℕ, zero, suc, ◌+◌, ◌-◌, ◌*◌, ◌%◌, ◌<◌, ◌≡◌, ◌≢◌, refl, ap, ◌∙◌, subst, inl, inr, true,
  Bool-cases, Option-cases, some, List, ◌∷◌, ◌&&◌, ◌==◌, leb, ltb, if◌then◌else◌,
}
use nctu_unixprog.Base.Bits.{replace_byte}
use nctu_unixprog.Stream.{digit_char}
use nctu_unixprog.Debugger.Os.{Os, IsPtrace, Regs, word8}
use nctu_unixprog.Debugger.Control.{before}
use nctu_unixprog.Debugger.Patch.Words.{poke-byte, word8-lt}
use nctu_unixprog.Traps.{Patcher, patch, on_regs, on_stop, resumed, ◌>>=◌}
use nctu_unixprog.Debugger.Progress.{IsSome}
use nctu_unixprog.Traps.Digits.{next_hex-digits}

-- The bytes with another first one.
abbrev with_first : ℕ → (ℕ → ℕ) → ℕ → ℕ
with_first v b zero = v
with_first v b (suc i) = b (suc i)

with_first-zero : (v : ℕ) (b : ℕ → ℕ) (k : ℕ) → k ≡ 0 → with_first v b k ≡ v
with_first-zero v b zero h = refl
with_first-zero v b (suc k) h = absurd (omega arith)

with_first_pos : (v : ℕ) (b : ℕ → ℕ) (k : ℕ) → k ≢ 0 → with_first v b k ≡ b k
with_first_pos v b zero h = absurd (h refl)
with_first_pos v b (suc k) h = refl

with_first-lt :
    (v : ℕ) (b : ℕ → ℕ) → v < 256 → ((i : ℕ) → b i < 256) → (i : ℕ) → with_first v b i < 256
with_first-lt v b h k zero = h
with_first-lt v b h k (suc i) = k (suc i)

replaced :
    (v : ℕ) (b : ℕ → ℕ)
    → v < 256
    → ((i : ℕ) → b i < 256)
    → bit_or (bit_and (word8 b) 0xffff_ffff_ffff_ff00) v ≡ word8 (with_first v b)
replaced v b h small = omega (arith, replace_byte (word8 b) v (word8-lt b small) h, small 0)

module _ (os : Os) (P : IsPtrace os) (child : ℕ) where
  -- One byte is replaced.
  poke_first-byte :
      (w w' : os.World) (a v : ℕ)
      → v < 256
      → os.poketext w child a (bit_or (bit_and (os.peektext w child a) 0xffff_ffff_ffff_ff00) v)
        ≡ some w'
      → (x : ℕ) → P.byte w' child x ≡ (if x == a then v else P.byte w child x)
  poke_first-byte w w' a v h e x = elim (Bool-cases (leb a x && ltb x (a + 8))) [
    | inl t ↦ (rw t at poked) ∙ at_or_behind t
    | inr f ↦ (rw f at poked) ∙ ground arith
  ]
    where
      old : ℕ → ℕ
      old i = P.byte w child (a + i)

      old-lt : (i : ℕ) → old i < 256
      old-lt i = P.byte-lt w child (a + i)

      poked :
          P.byte w' child x
          ≡ (if leb a x && ltb x (a + 8) then with_first v old (x - a) else P.byte w child x)
      poked =
          poke-byte os P w w' child a (with_first v old) _ (with_first-lt v old h old-lt)
            (ap (λ c. bit_or (bit_and c 0xffff_ffff_ffff_ff00) v) (P.peektext_bytes w child a)
              ∙ replaced v old h old-lt)
            e x

      at_or_behind :
          leb a x && ltb x (a + 8) ≡ true
          → with_first v old (x - a) ≡ (if x == a then v else P.byte w child x)
      at_or_behind t = elim (Bool-cases (x == a)) [
        | inl q ↦ rw q (with_first-zero v old (x - a) (ground arith))
        | inr q ↦
            let back : a + (x - a) ≡ x = ground arith in
            rw q (with_first_pos v old (x - a) (ground arith) ∙ ap (P.byte w child) back)
      ]

  -- What a trap leaves: the byte v at rip and all others as before, the registers stored, two
  -- characters of the file used, and the trap counted.
  pub record Patched (regs : Regs) (v : ℕ) (rest : List ℕ) (s t : Patcher os.World) : Type 0 where
    pub patched_bytes :
        (x : ℕ) → P.byte t.world child x ≡ (if x == regs.rip then v else P.byte s.world child x)
    pub patched_regs : os.getregs t.world child ≡ some regs
    pub patched_input : t.input ≡ rest
    pub patched_traps : t.traps ≡ s.traps + 1

  is_trap :
      (w : os.World) (a : ℕ)
      → P.byte w child a ≡ 0xcc
      → (os.peektext w child a % 256 == 0xcc) ≡ true
  is_trap w a h =
      let first : P.byte w child (a + 0) ≡ 0xcc = ap (P.byte w child) (omega arith) ∙ h in
      ap (λ c. c % 256 == 0xcc) (P.peektext_bytes w child a) ∙ ground (arith, first)

  patch-Patched :
      (regs : Regs) (d e : ℕ) (rest : List ℕ) (s : Patcher os.World)
      → d < 16
      → e < 16
      → s.input ≡ digit_char d ∷ digit_char e ∷ rest
      → ((c : ℕ) → IsSome (os.poketext s.world child regs.rip c))
      → ((w : os.World) → IsSome (os.setregs w child regs))
      → (t : Patcher os.World) × (patch os child regs s ≡ some t)
        × Patched regs (d * 16 + e) rest s t
  unfolding patch ◌>>=◌
  patch-Patched regs d e rest s h k q p r =
      elim (Option-cases (os.poketext s.world child regs.rip (new_word))) [
        | inl f ↦ absurd (subst IsSome f (p new_word))
        | inr (w, f) ↦ elim (Option-cases (os.setregs w child regs)) [
          | inl g ↦ absurd (subst IsSome g (r w))
          | inr (v, g) ↦ (
            record { world = v; input = rest; traps = s.traps + 1 },
            rw q (rw (next_hex-digits d e rest h k) (rw (f, ◌>>=◌) (rw (g, ◌>>=◌) refl))),
            record {
              patched_bytes = λ x.
                  P.setregs_bytes w v child regs x g
                  ∙ poke_first-byte s.world w regs.rip (d * 16 + e) (omega arith) f x;
              patched_regs = P.setregs_regs w v child regs g;
              patched_input = refl;
              patched_traps = refl;
            },
          )
        ]
      ]
    where
      new_word : ℕ
      new_word =
          bit_or (bit_and (os.peektext s.world child regs.rip) 0xffff_ffff_ffff_ff00) (d * 16 + e)

  -- When the child stops behind a trap, the next two characters of the file are hexadecimal digits and
  -- the kernel lets the byte and the registers be written: the trap becomes the byte that the digits
  -- show, no other byte changes, rip points at it, two characters are used and the trap is counted,
  -- before the child goes on.
  pub on_stop-Patched :
      (regs : Regs) (d e : ℕ) (rest : List ℕ) (s : Patcher os.World)
      → os.getregs s.world child ≡ some regs
      → P.byte s.world child (before regs.rip) ≡ 0xcc
      → d < 16
      → e < 16
      → s.input ≡ digit_char d ∷ digit_char e ∷ rest
      → ((c : ℕ) → IsSome (os.poketext s.world child (before regs.rip) c))
      → ((w : os.World) → IsSome (os.setregs w child (record regs { rip = before regs.rip })))
      → (t : Patcher os.World) × (on_stop os child s ≡ some (resumed os child t))
        × Patched (record regs { rip = before regs.rip }) (d * 16 + e) rest s t
  unfolding on_stop on_regs ◌>>=◌
  on_stop-Patched regs d e rest s g b h k q p r =
      let (t, f, done) =
        patch-Patched (record regs { rip = before regs.rip }) d e rest s h k q p r in
      (t, rw (g, ◌>>=◌) (rw (is_trap s.world (before regs.rip) b) (rw (f, ◌>>=◌) refl)), done)
