-- ===== src/Lsof/Types.antt =====
-- The six types of project1/hw1.cpp: none of them holds another as a text.
use nctu_unixprog.Base.{
  ℕ, ◌≡◌, refl, ◌⊎◌, inl, inr, Bool, true, false, not, Bool-cases, List, [], ◌∷◌, ◌&&◌, ◌||◌, ◌/◌,
  ◌%◌, ◌==◌, codes, text_eq, text_eq_sound, arith,
}
use nctu_unixprog.Text.Find.{has_text, find, is_prefix, is_place, next_place}
use nctu_unixprog.Lsof.Links.{type_of}
use nctu_unixprog.Lsof.Command.{is_type}

all_of : (List ℕ → Bool) → List (List ℕ) → Bool
all_of p [] = true
all_of p (x ∷ xs) = p x && all_of p xs

unfoldable pub any_of : List ℕ → List (List ℕ) → Bool
any_of t [] = false
any_of t (x ∷ xs) = text_eq t x || any_of t xs

all_of-any_of :
    (p : List ℕ → Bool) (xs : List (List ℕ)) (t : List ℕ)
    → all_of p xs ≡ true
    → any_of t xs ≡ true
    → p t ≡ true
unfolding all_of any_of
all_of-any_of p [] t h k = cc
all_of-any_of p (x ∷ xs) t h k = elim (Bool-cases (text_eq t x)) [
  | inl e ↦ let f : p x ≡ true = ground arith in rw (text_eq_sound t x e) f
  | inr e ↦
      let f : all_of p xs ≡ true = ground arith in
      let g : any_of t xs ≡ true = ground arith in all_of-any_of p xs t f g
]

abbrev pub six : List (List ℕ)
six = codes "REG" ∷ codes "CHR" ∷ codes "DIR" ∷ codes "FIFO" ∷ codes "SOCK" ∷ codes "unknown" ∷ []

is_type-any_of : (t : List ℕ) → is_type t ≡ true → any_of t six ≡ true
unfolding is_type any_of
is_type-any_of t h = ground arith

pub is_type_lem : (t : List ℕ) → is_type t ≡ any_of t six
unfolding is_type any_of
is_type_lem t = ground arith

apart : List ℕ → List ℕ → Bool
apart t r = not (has_text t r) || text_eq r t

all_apart : all_of (λ t. all_of (apart t) six) six ≡ true
unfolding all_of apart has_text find is_prefix is_place next_place text_eq
all_apart = refl

-- A -t option that is not empty selects its type only.
abbrev pub Selects : List ℕ → List ℕ → Type 0
Selects type_regex type = (type_regex ≡ []) ⊎ (type_regex ≡ type)

-- A valid option, or none.
abbrev pub IsChoice : List ℕ → Type 0
IsChoice type_regex = (type_regex ≡ []) ⊎ (is_type type_regex ≡ true)

pub has_text-Selects :
    (type type_regex : List ℕ)
    → is_type type ≡ true
    → IsChoice type_regex
    → has_text type type_regex ≡ true
    → Selects type_regex type
unfolding apart
has_text-Selects type type_regex k (inl e) h = inl e
has_text-Selects type type_regex k (inr c) h =
    let f : all_of (apart type) six ≡ true =
      all_of-any_of (λ t. all_of (apart t) six) six type all_apart (is_type-any_of type k) in
    let g : apart type type_regex ≡ true =
      all_of-any_of (apart type) six type_regex f (is_type-any_of type_regex c) in
    inr (text_eq_sound type_regex type (ground arith))

pub type_of-is_type : (mode : ℕ) → is_type (type_of mode) ≡ true
unfolding type_of is_type text_eq
type_of-is_type mode = elim (Bool-cases (mode / 0x1000 % 16 == 4)) [
  | inl e ↦ rw e refl
  | inr e ↦ elim (Bool-cases (mode / 0x1000 % 16 == 8)) [
    | inl f ↦ rw (e, f) refl
    | inr f ↦ elim (Bool-cases (mode / 0x1000 % 16 == 2)) [
      | inl g ↦ rw (e, f, g) refl
      | inr g ↦ elim (Bool-cases (mode / 0x1000 % 16 == 1)) [
        | inl h ↦ rw (e, f, g, h) refl
        | inr h ↦ elim (Bool-cases (mode / 0x1000 % 16 == 12)) [
          | inl i ↦ rw (e, f, g, h, i) refl
          | inr i ↦ rw (e, f, g, h, i) refl
        ]
      ]
    ]
  ]
]

pub dir-is_type : is_type (codes "DIR") ≡ true
unfolding is_type text_eq
dir-is_type = refl
