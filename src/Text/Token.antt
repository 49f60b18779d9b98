-- ===== src/Text/Token.antt =====
-- `strtok`, `getline`, and `>>` into a std::string.
use nctu_unixprog.Base.{
  ℕ, Bool, false, Option, none, some, List, [], ◌∷◌, ◌++◌, ◌||◌, ◌&&◌, ◌==◌, leb, if◌then◌else◌,
}

unfoldable pub contains : ℕ → List ℕ → Bool
contains c [] = false
contains c (d ∷ ds) = c == d || contains c ds

-- `strspn` and what follows.
unfoldable pub skip : (ℕ → Bool) → List ℕ → List ℕ
skip p [] = []
skip p (c ∷ cs) = let rest = skip p cs in if p c then rest else c ∷ cs

-- Up to the first byte of the class.
unfoldable pub word : (ℕ → Bool) → List ℕ → List ℕ
word p [] = []
word p (c ∷ cs) = if p c then [] else c ∷ word p cs

-- Behind the word.
unfoldable pub past : (ℕ → Bool) → List ℕ → List ℕ
past p [] = []
past p (c ∷ cs) = let rest = past p cs in if p c then c ∷ cs else rest

unfoldable pub tail : List ℕ → List ℕ
tail [] = []
tail (c ∷ cs) = cs

-- A call of `strtok`: the token, and where the next call goes on.
unfoldable pub token_at : (ℕ → Bool) → List ℕ → Option (List ℕ × List ℕ)
token_at p [] = none
token_at p (c ∷ cs) = some (word p (c ∷ cs), tail (past p (c ∷ cs)))

unfoldable pub strtok : List ℕ → List ℕ → Option (List ℕ × List ℕ)
strtok delims s = token_at (λ c. contains c delims) (skip (λ c. contains c delims) s)

-- `getline(&line, ...)`: each line with its newline.
add_to_first : ℕ → List (List ℕ) → List (List ℕ)
add_to_first c [] = (c ∷ []) ∷ []
add_to_first c (l ∷ ls) = (c ∷ l) ∷ ls

unfoldable pub lines : List ℕ → List (List ℕ)
unfolding add_to_first
lines [] = []
lines (c ∷ cs) = if c == b'\n' then (c ∷ []) ∷ lines cs else add_to_first c (lines cs)

-- `std::getline`: without it.
unfoldable pub chomp : List ℕ → List ℕ
chomp [] = []
chomp (c ∷ cs) = if c == b'\n' then [] else c ∷ chomp cs

-- `isspace` in the C locale.
unfoldable pub isspace : ℕ → Bool
isspace c = c == b' ' || (leb 9 c && leb c 13)

-- The loop of `split`: `while(ss>>temp) cmd_table.push_back(temp);`. The word that is being read
-- comes second.
push_word : List ℕ → List (List ℕ) → List (List ℕ)
push_word [] ws = ws
push_word (c ∷ cs) ws = (c ∷ cs) ∷ ws

unfoldable pub split_from : List ℕ → List ℕ → List (List ℕ)
unfolding push_word
split_from [] w = push_word w []
split_from (c ∷ cs) w =
    let rest = split_from cs [] in
    let more = split_from cs (w ++ (c ∷ [])) in if isspace c then push_word w rest else more

unfoldable pub split : List ℕ → List (List ℕ)
unfolding split_from
split line = split_from line []

-- `isprint` in the C locale; a char above 127 is negative and not printable.
unfoldable pub isprint : ℕ → Bool
isprint c = leb 32 c && leb c 126
