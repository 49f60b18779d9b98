-- ===== src/Text/Find.antt =====
-- std::string's `find` and `replace`, strings that end at a NUL, and `dirname` of libgen.h.
use mathlib.Core.List.{reverse, reverse-cons, reverse-append, reverse-reverse, append_assoc}
use nctu_unixprog.Base.{
  arith, ℕ, suc, ◌+◌, ◌≡◌, refl, ap, sym, ◌∙◌, Bool, true, false, Option, none, some, List, [], ◌∷◌,
  ◌++◌, ◌&&◌, ◌||◌, ◌==◌, ◌≢◌, if◌then◌else◌, append_nil, take, drop, inl, inr, Bool-cases,
}
use nctu_unixprog.Text.Token.{word, past, skip, contains}

-- Whether a text begins with another.
unfoldable pub is_prefix : List ℕ → List ℕ → Bool
is_prefix [] text = true
is_prefix (p ∷ ps) [] = false
is_prefix (p ∷ ps) (c ∷ cs) = p == c && is_prefix ps cs

unfoldable pub next_place : Option ℕ → Option ℕ
next_place none = none
next_place (some n) = some (suc n)

-- `text.find(pattern)`; `none` is npos.
unfoldable pub find : List ℕ → List ℕ → Option ℕ
unfolding is_prefix next_place
find [] pattern = if is_prefix pattern [] then some 0 else none
find (c ∷ cs) pattern =
    let rest = find cs pattern in if is_prefix pattern (c ∷ cs) then some 0 else next_place rest

unfoldable pub is_place : Option ℕ → Bool
is_place none = false
is_place (some n) = true

-- `text.find(pattern)!=string::npos`
unfoldable pub has_text : List ℕ → List ℕ → Bool
unfolding find is_place
has_text text pattern = is_place (find text pattern)

-- `text.replace(pos, count, "")`
unfoldable pub remove_at : ℕ → ℕ → List ℕ → List ℕ
remove_at pos count text = take pos text ++ drop (pos + count) text

-- `string(pointer)`
abbrev pub c_string : List ℕ → List ℕ
c_string = word (λ c. c == 0)

cut_name : List ℕ → Option (List ℕ)
cut_name [] = none
cut_name (c ∷ cs) = some (c ∷ cs)

root_or : Option (List ℕ) → List ℕ
root_or none = b'/' ∷ []
root_or (some rev) = reverse rev

-- The path backwards, without the slashes at its end; then without its last name.
cut_last : List ℕ → Option (List ℕ)
unfolding cut_name root_or
cut_last [] = none
cut_last (d ∷ ds) = some (root_or (cut_name (skip (λ c. c == b'/') (d ∷ ds))))

only_slashes : List ℕ → Option (List ℕ)
only_slashes [] = none
only_slashes (c ∷ cs) = some (b'/' ∷ [])

dirname_back : List ℕ → List ℕ → Option (List ℕ)
unfolding cut_last only_slashes
dirname_back path [] = only_slashes path
dirname_back path (r ∷ rs) = cut_last (past (λ c. c == b'/') (r ∷ rs))

-- `dirname` cuts the path in place: `none` where it gives the constant ".", for no directory part. A
-- path that starts with // is taken for one that starts with /.
unfoldable pub dirname : List ℕ → Option (List ℕ)
unfolding dirname_back
dirname path = dirname_back path (skip (λ c. c == b'/') (reverse path))

-- One text stands in another.
abbrev pub Occurs : List ℕ → List ℕ → Type 0
Occurs pattern text = (before : List ℕ) × (rest : List ℕ) × (text ≡ before ++ (pattern ++ rest))

is_prefix_sound : (ps cs : List ℕ) → is_prefix ps cs ≡ true → (rest : List ℕ) × (cs ≡ ps ++ rest)
unfolding is_prefix
is_prefix_sound [] cs h = (cs, refl)
is_prefix_sound (p ∷ ps) [] h = cc
is_prefix_sound (p ∷ ps) (c ∷ cs) h =
    let (rest, e) = is_prefix_sound ps cs (ground arith) in (rest, ground arith)

-- `find` finds an occurrence.
pub has_text_sound : (text pattern : List ℕ) → has_text text pattern ≡ true → Occurs pattern text
unfolding has_text find next_place
has_text_sound [] pattern h = elim (Bool-cases (is_prefix pattern [])) [
  | inl e ↦ let (rest, q) = is_prefix_sound pattern [] e in ([], rest, q)
  | inr e ↦ cc (rw e at h)
]
has_text_sound (c ∷ cs) pattern h = elim (Bool-cases (is_prefix pattern (c ∷ cs))) [
  | inl e ↦ let (rest, q) = is_prefix_sound pattern (c ∷ cs) e in ([], rest, q)
  | inr e ↦
      let (before, rest, q) =
        has_text_sound cs pattern (found_later (find cs pattern) (rw e at h)) in
      (c ∷ before, rest, ap (◌∷◌ c) q)
]
  where
    found_later : (o : Option ℕ) → is_place (next_place o) ≡ true → is_place o ≡ true
    found_later none k = k
    found_later (some n) k = refl

contains-append :
    (c : ℕ) (xs ys : List ℕ) → contains c (xs ++ ys) ≡ (contains c xs || contains c ys)
unfolding contains
contains-append c [] ys = refl
contains-append c (x ∷ xs) ys = grind (arith, contains-append c xs ys)

contains-reverse : (c : ℕ) (xs : List ℕ) → contains c xs ≡ false → contains c (reverse xs) ≡ false
unfolding contains
contains-reverse c [] h = refl
contains-reverse c (x ∷ xs) h =
    rw (reverse-cons x xs)
      (grind (arith, contains-append c (reverse xs) (x ∷ []), contains-reverse c xs))

past-append :
    (xs ys : List ℕ)
    → contains b'/' xs ≡ false
    → past (λ c. c == b'/') (xs ++ (b'/' ∷ ys)) ≡ b'/' ∷ ys
unfolding contains past
past-append [] ys h = refl
past-append (x ∷ xs) ys h =
    let e : (x == b'/') ≡ false = ground arith in rw e (past-append xs ys (ground arith))

dirname_back-name :
    (path back ds : List ℕ) (d : ℕ)
    → contains b'/' back ≡ false
    → back ≢ []
    → (d == b'/') ≡ false
    → dirname_back path (skip (λ c. c == b'/') (back ++ (b'/' ∷ d ∷ ds))) ≡ some (reverse (d ∷ ds))
unfolding contains dirname_back skip cut_last
dirname_back-name path [] ds d h n e = absurd (n refl)
dirname_back-name path (b ∷ back) ds d h n e =
    let f : (b == b'/') ≡ false = ground arith in
    rw f (rw (past-append (b ∷ back) (d ∷ ds) h) (rw e refl))

reverse-nonempty : (c : ℕ) (cs : List ℕ) → reverse (c ∷ cs) ≢ []
reverse-nonempty c cs h = let e : c ∷ cs ≡ [] = sym (reverse-reverse (c ∷ cs)) ∙ ap reverse h in cc

reverse-name :
    (ds : List ℕ) (d c : ℕ) (cs : List ℕ)
    → reverse ((ds ++ (d ∷ [])) ++ (b'/' ∷ c ∷ cs)) ≡ reverse (c ∷ cs) ++ (b'/' ∷ d ∷ reverse ds)
reverse-name ds d c cs =
    reverse-append (ds ++ (d ∷ [])) (b'/' ∷ c ∷ cs)
    ∙ ap (◌++◌ (reverse (b'/' ∷ c ∷ cs))) (reverse-append ds (d ∷ []))
    ∙ ap (λ r. r ++ (d ∷ reverse ds)) (reverse-cons b'/' (c ∷ cs))
    ∙ append_assoc (reverse (c ∷ cs)) (b'/' ∷ []) (d ∷ reverse ds)

-- The directory of a name in it.
pub dirname-name :
    (ds : List ℕ) (d c : ℕ) (cs : List ℕ)
    → (d == b'/') ≡ false
    → contains b'/' (c ∷ cs) ≡ false
    → dirname ((ds ++ (d ∷ [])) ++ (b'/' ∷ c ∷ cs)) ≡ some (ds ++ (d ∷ []))
unfolding dirname
dirname-name ds d c cs e h = rw (reverse-name ds d c cs) (
    dirname_back-name ((ds ++ (d ∷ [])) ++ (b'/' ∷ c ∷ cs)) (reverse (c ∷ cs)) (reverse ds) d
      (contains-reverse b'/' (c ∷ cs) h) (reverse-nonempty c cs) e
    ∙ ap some (reverse-cons d (reverse ds) ∙ ap (λ r. r ++ (d ∷ [])) (reverse-reverse ds)))

pub c_string-append :
    (xs ys : List ℕ) → contains 0 xs ≡ false → c_string (xs ++ ys) ≡ xs ++ c_string ys
unfolding contains word
c_string-append [] ys h = refl
c_string-append (x ∷ xs) ys h =
    let e : (x == 0) ≡ false = ground arith in
    let f : contains 0 xs ≡ false = ground arith in rw e (ap (◌∷◌ x) (c_string-append xs ys f))

-- A text that holds no NUL.
pub c_string-whole : (xs : List ℕ) → contains 0 xs ≡ false → c_string xs ≡ xs
unfolding word
c_string-whole xs h = ap c_string (sym (append_nil xs)) ∙ c_string-append xs [] h ∙ append_nil xs
