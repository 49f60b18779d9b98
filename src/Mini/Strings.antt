-- ===== src/Mini/Strings.antt =====
-- `memset`, `bzero` and `strlen` of project3/libmini.c on the bytes behind a pointer; past their end
-- nothing is defined.
use nctu_unixprog.Base.{
  ℕ, zero, suc, ◌%◌, ◌≡◌, refl, ap, ◌++◌, All, false, length, replicate, Option, none, some, List,
  [], ◌∷◌, ◌==◌, if◌then◌else◌,
}
use mathlib.Core.Option.{map}

-- A size is a long long, and is not negative here.
unfoldable pub memset : ℕ → ℕ → List ℕ → Option (List ℕ)
memset c zero src = some src
memset c (suc n) [] = none
memset c (suc n) (b ∷ src) = map (◌∷◌ (c % 256)) (memset c n src)

unfoldable pub bzero : ℕ → List ℕ → Option (List ℕ)
bzero zero ptr = some ptr
bzero (suc size) [] = none
bzero (suc size) (b ∷ ptr) = map (◌∷◌ 0) (bzero size ptr)

-- `none` where no NUL ends the bytes.
unfoldable pub strlen : List ℕ → Option ℕ
strlen [] = none
strlen (c ∷ cs) = let rest = map suc (strlen cs) in if c == 0 then some 0 else rest

-- `memset` of as many bytes as there are, and of the first ones.
pub memset_lem :
    (c : ℕ) (xs rest : List ℕ)
    → memset c (length xs) (xs ++ rest) ≡ some (replicate (length xs) (c % 256) ++ rest)
unfolding memset
memset_lem c [] rest = refl
memset_lem c (x ∷ xs) rest = rw (memset_lem c xs rest) refl

-- `bzero` is `memset` with 0.
pub bzero-memset : (size : ℕ) (ptr : List ℕ) → bzero size ptr ≡ memset 0 size ptr
unfolding bzero memset
bzero-memset zero ptr = refl
bzero-memset (suc size) [] = refl
bzero-memset (suc size) (b ∷ ptr) = ap (map (◌∷◌ 0)) (bzero-memset size ptr)

-- `strlen` counts up to the first NUL.
pub strlen_lem :
    (xs rest : List ℕ)
    → All (λ c. (c == 0) ≡ false) xs
    → strlen (xs ++ (0 ∷ rest)) ≡ some (length xs)
unfolding strlen
strlen_lem [] rest h = refl
strlen_lem (x ∷ xs) rest (e, h) = rw e (rw (strlen_lem xs rest h) refl)
