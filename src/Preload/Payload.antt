-- ===== src/Preload/Payload.antt =====
-- The bytes that project2/share.cpp shows of a buffer.
use Prim.Native.Nat.{min}
use nctu_unixprog.Base.{
  ℕ, zero, suc, ◌+◌, ◌-◌, ◌%◌, ◌^◌, ◌≤◌, ◌<◌, ◌≡◌, refl, ap, sym, ◌∙◌, true, false, ◌⊎◌, inl, inr,
  Bool-cases, some, List, [], ◌∷◌, map, ltb, leb, get_elem?, length, take, drop, All, arith,
}
use nctu_unixprog.Text.Token.{isprint}
use nctu_unixprog.Run.{Outcome, ok, ◌>>◌, pure, modify}
use nctu_unixprog.Preload.Libc.{Preload, Piece, put_char, dprintf}
use nctu_unixprog.Preload.Bytes.{shown, widen, goes_on, print_byte, print_from, print_bytes}

-- The log after one `dprintf` of each character.
abbrev pub logged : ℕ → List ℕ → List (ℕ × List Piece) → List (ℕ × List Piece)
logged out [] log = log
logged out (c ∷ cs) log = logged out cs ((out, put_char c ∷ []) ∷ log)

isprint_dot : isprint b'.' ≡ true
unfolding isprint
isprint_dot = refl

shown-IsPrintable : (c : ℕ) → isprint (shown c) ≡ true
unfolding shown
shown-IsPrintable c = elim (Bool-cases (isprint c)) [ inl e ↦ rw e e | inr e ↦ rw e isprint_dot ]

goes_on_lem :
    (count result i : ℕ) → i < 2 ^ 31 → goes_on count result i ≡ ltb i (min count (min 32 result))
unfolding goes_on widen
goes_on_lem count result i h =
    let w : ltb i (2 ^ 31) ≡ true = ground arith in
    let v : leb (2 ^ 31) i ≡ false = ground arith in rw w (rw v (ground arith))

get_elem?-some :
    (buf : List ℕ) (i : ℕ)
    → i < length buf
    → (c : ℕ) × (get_elem? buf i ≡ some c) × (drop i buf ≡ c ∷ drop (suc i) buf)
get_elem?-some [] i h = absurd (omega arith)
get_elem?-some (x ∷ xs) zero h = (x, refl, refl)
get_elem?-some (x ∷ xs) (suc i) h = get_elem?-some xs i (omega arith)

-- The limits of the loop end within the buffer.
abbrev pub IsInside : List ℕ → ℕ → ℕ → Type 0
IsInside buf count result = (i : ℕ) → i < count → i < result → i < length buf

-- What a run of the loop leaves: characters that can be printed, at most so many.
abbrev pub Shows : {W : Type 0} → ℕ → ℕ → Preload W → Outcome (Preload W) (Unit {0}) → Type 0
Shows out most s o =
    (cs : List ℕ) × (o ≡ ok tt (record s { log = logged out cs s.log }))
    × (length cs ≤ most)
    × All (λ c. isprint c ≡ true) cs

module _ {W : Type 0} (out : ℕ) (buf : List ℕ) (count result step : ℕ) where
  -- The loop stops.
  print_from-stops :
      (fuel i : ℕ) (s : Preload W)
      → goes_on count result i ≡ false
      → print_from out buf count result step (suc fuel) i s ≡ ok tt s
  unfolding print_from pure
  print_from-stops fuel i s h = rw h refl

  -- The loop prints a byte and goes on.
  print_from-steps :
      (fuel i c : ℕ) (s : Preload W)
      → goes_on count result i ≡ true
      → i < 2 ^ 31
      → i + step < 2 ^ 32
      → get_elem? buf i ≡ some c
      → print_from out buf count result step (suc fuel) i s
        ≡ print_from out buf count result step fuel
            (i + step)
            (record s { log = (out, put_char (shown c) ∷ []) ∷ s.log })
  unfolding print_from widen print_byte dprintf modify ◌>>◌
  print_from-steps fuel i c s h l b e =
      let w : ltb i (2 ^ 31) ≡ true = ground arith in
      let m : (i + step) % 2 ^ 32 ≡ i + step = omega arith in rw h (rw w (rw e (rw m refl)))

  print_from-Shows :
      (fuel i : ℕ) (s : Preload W)
      → 32 ≤ fuel + i
      → i < 2 ^ 31
      → 0 < step
      → step + 32 < 2 ^ 31
      → IsInside buf count result
      → Shows out fuel s (print_from out buf count result step (suc fuel) i s)
  print_from-Shows zero i s f l p q inside =
      let e : ltb i (min count (min 32 result)) ≡ false = ground arith in
      ([], print_from-stops 0 i s (goes_on_lem count result i l ∙ e), omega arith, tt)
  print_from-Shows (suc fuel) i s f l p q inside = elim (Bool-cases (goes_on count result i)) [
    | inr e ↦ ([], print_from-stops (suc fuel) i s e, omega arith, tt)
    | inl e ↦
        let b : ltb i (min count (min 32 result)) ≡ true = sym (goes_on_lem count result i l) ∙ e in
        let m : i < min count (min 32 result) = ground arith in
        let (c, g, d) = get_elem?-some buf i (inside i (omega arith) (omega arith)) in
        let (cs, h, n, a) =
          print_from-Shows fuel (i + step)
            (record s { log = (out, put_char (shown c) ∷ []) ∷ s.log }) (omega arith) (omega arith)
            p q inside in
        (
          shown c ∷ cs,
          print_from-steps (suc fuel) i c s e l (omega arith) g ∙ h,
          omega arith,
          (shown-IsPrintable c, a),
        )
  ]

  -- With a step that is not 0 and small, every byte that is shown lies in the buffer and at most 32 are
  -- shown, each as a character that can be printed; with a count of 0 none.
  pub print_bytes-Shows :
      (s : Preload W)
      → (count ≡ 0) ⊎ ((0 < step) × (step + 32 < 2 ^ 31))
      → IsInside buf count result
      → Shows out 32 s (print_bytes out buf count result step s)
  unfolding print_bytes
  print_bytes-Shows s (inr (p, q)) inside =
      print_from-Shows 32 0 s (omega arith) (omega arith) p q inside
  print_bytes-Shows s (inl e) inside =
      let n : ltb 0 (min count (min 32 result)) ≡ false = ground arith in
      ([], print_from-stops 32 0 s (goes_on_lem count result 0 (omega arith) ∙ n), omega arith, tt)

logged-next :
    (k m i c : ℕ) (buf : List ℕ) (out : ℕ) (log : List (ℕ × List Piece))
    → k ≡ suc m
    → drop i buf ≡ c ∷ drop (suc i) buf
    → logged out (map shown (take m (drop (i + 1) buf))) ((out, put_char (shown c) ∷ []) ∷ log)
      ≡ logged out (map shown (take k (drop i buf))) log
logged-next k m i c buf out log e d = let j : i + 1 ≡ suc i = omega arith in rw e (rw d (rw j refl))

module _ {W : Type 0} (out : ℕ) (buf : List ℕ) (count result : ℕ) where
  print_from-each :
      (fuel i : ℕ) (s : Preload W)
      → 32 ≤ fuel + i
      → i ≤ 32
      → IsInside buf count result
      → print_from out buf count result 1 (suc fuel) i s
        ≡ ok tt (record s {
          log = logged out (map shown (take (min count (min 32 result) - i) (drop i buf))) s.log;
        })
  print_from-each zero i s f l inside =
      let e : ltb i (min count (min 32 result)) ≡ false = ground arith in
      let z : min count (min 32 result) - i ≡ 0 = omega arith in
      print_from-stops out buf count result 1 0 i s (goes_on_lem count result i (omega arith) ∙ e)
      ∙ rw z refl
  print_from-each (suc fuel) i s f l inside = elim (Bool-cases (goes_on count result i)) [
    | inr e ↦
        let b : ltb i (min count (min 32 result)) ≡ false =
          sym (goes_on_lem count result i (omega arith)) ∙ e in
        let z : min count (min 32 result) - i ≡ 0 = ground arith in
        print_from-stops out buf count result 1 (suc fuel) i s e ∙ rw z refl
    | inl e ↦
        let b : ltb i (min count (min 32 result)) ≡ true =
          sym (goes_on_lem count result i (omega arith)) ∙ e in
        let m : i < min count (min 32 result) = ground arith in
        let (c, g, d) = get_elem?-some buf i (inside i (omega arith) (omega arith)) in
        let z : min count (min 32 result) - i ≡ suc (min count (min 32 result) - (i + 1)) =
          omega arith in
        print_from-steps out buf count result 1 (suc fuel) i c s e (omega arith) (omega arith) g
        ∙ print_from-each fuel (i + 1) (record s { log = (out, put_char (shown c) ∷ []) ∷ s.log })
            (omega arith) (omega arith) inside
        ∙ ap (λ log. ok tt (record s { log = log }))
            (logged-next (min count (min 32 result) - i) (min count (min 32 result) - (i + 1)) i c
              buf out s.log z d)
  ]

-- With a step of 1, where the limits end within the buffer, exactly the first bytes are shown: the
-- smallest of the count, 32 and the result of libc, one `dprintf` each, and "." for a byte that cannot
-- be printed.
pub print_bytes-first :
    {W : Type 0} (out : ℕ) (buf : List ℕ) (count result : ℕ) (s : Preload W)
    → IsInside buf count result
    → print_bytes out buf count result 1 s
      ≡ ok tt
          (record s { log = logged out (map shown (take (min count (min 32 result)) buf)) s.log })
unfolding print_bytes
print_bytes-first out buf count result s inside =
    let z : min count (min 32 result) - 0 ≡ min count (min 32 result) = omega arith in
    print_from-each out buf count result 32 0 s (omega arith) (omega arith) inside ∙ rw z refl
