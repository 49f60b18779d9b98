-- ===== src/Lsof/Mappings.antt =====
-- The lines of /proc/<pid>/maps in `FindMem` of project1/hw1.cpp: mappings of deleted files.
use nctu_unixprog.Base.{
  ℕ, zero, suc, ◌≡◌, refl, ap, ◌∙◌, false, none, some, List, [], ◌∷◌, ◌++◌, ◌==◌, codes, arith,
  text_eq, replicate,
}
use nctu_unixprog.Text.Token.{contains, word, skip, past, tail, strtok, token_at}
use nctu_unixprog.Text.Find.{find, has_text, c_string-whole}
use nctu_unixprog.Lsof.Maps.{
  Mapping, token_no, cut_newline, without_newline, map_name, map_node, map_line, mark_deleted,
}

-- A token: not empty, and without a space.
abbrev pub IsToken : List ℕ → Type 0
IsToken [] = ⊥
IsToken (c ∷ cs) = contains b' ' (c ∷ cs) ≡ false

word-token :
    (w rest : List ℕ)
    → contains b' ' w ≡ false
    → word (λ c. contains c (codes " ")) (w ++ (b' ' ∷ rest)) ≡ w
unfolding contains word
word-token [] rest h = refl
word-token (x ∷ xs) rest h =
    let e : (x == b' ') ≡ false = ground arith in
    rw e (ap (◌∷◌ x) (word-token xs rest (ground arith)))

past-token :
    (w rest : List ℕ)
    → contains b' ' w ≡ false
    → past (λ c. contains c (codes " ")) (w ++ (b' ' ∷ rest)) ≡ b' ' ∷ rest
unfolding contains past
past-token [] rest h = refl
past-token (x ∷ xs) rest h =
    let e : (x == b' ') ≡ false = ground arith in rw e (past-token xs rest (ground arith))

skip-token :
    (x : ℕ) (xs : List ℕ)
    → (x == b' ') ≡ false
    → skip (λ c. contains c (codes " ")) (x ∷ xs) ≡ x ∷ xs
unfolding contains skip
skip-token x xs e = rw e refl

strtok-token :
    (w rest : List ℕ) → IsToken w → strtok (codes " ") (w ++ (b' ' ∷ rest)) ≡ some (w, rest)
unfolding strtok token_at contains tail
strtok-token [] rest h = absurd h
strtok-token (x ∷ xs) rest h =
    let e : (x == b' ') ≡ false = ground arith in
    ap (token_at (λ c. contains c (codes " "))) (skip-token x (xs ++ (b' ' ∷ rest)) e)
    ∙ ap some (
        ap (λ w. (w, tail (past (λ c. contains c (codes " ")) (x ∷ (xs ++ (b' ' ∷ rest))))))
          (word-token (x ∷ xs) rest h)
        ∙ ap (λ r. (x ∷ xs, tail r)) (past-token (x ∷ xs) rest h))

token_no-first : (w rest : List ℕ) → IsToken w → token_no 0 (w ++ (b' ' ∷ rest)) ≡ some w
unfolding token_no
token_no-first w rest h = rw (strtok-token w rest h) refl

token_no-later :
    (k : ℕ) (w rest : List ℕ) → IsToken w → token_no (suc k) (w ++ (b' ' ∷ rest)) ≡ token_no k rest
unfolding token_no
token_no-later k w rest h = rw (strtok-token w rest h) refl

strtok-spaces :
    (n : ℕ) (rest : List ℕ)
    → strtok (codes " ") (replicate n b' ' ++ rest) ≡ strtok (codes " ") rest
unfolding strtok contains skip
strtok-spaces zero rest = refl
strtok-spaces (suc n) rest = strtok-spaces n rest

token_no-spaces :
    (k n : ℕ) (rest : List ℕ) → token_no k (replicate n b' ' ++ rest) ≡ token_no k rest
unfolding token_no
token_no-spaces zero n rest = rw (strtok-spaces n rest) refl
token_no-spaces (suc k) n rest = rw (strtok-spaces n rest) refl

-- A line of /proc/<pid>/maps: five fields, a count of spaces that the kernel pads with and one more, the
-- path, and what follows behind a space.
abbrev pub maps_line : List ℕ → List ℕ → List ℕ → List ℕ → List ℕ → ℕ → List ℕ → List ℕ → List ℕ
maps_line addr perm offset device node pad path rest =
    addr
    ++ (b' '
        ∷ (perm
            ++ (b' '
                ∷ (offset
                    ++ (b' '
                        ∷ (device
                            ++ (b' '
                                ∷ (node
                                    ++ (b' '
                                        ∷ (replicate pad b' ' ++ (path ++ (b' ' ∷ rest))))))))))))

module _ (addr perm offset device node : List ℕ) (pad : ℕ) (path rest : List ℕ) where
  abbrev pub AreTokens : Type 0
  AreTokens =
      IsToken addr × IsToken perm × IsToken offset × IsToken device × IsToken node × IsToken path

  node-lem :
      AreTokens → token_no 4 (maps_line addr perm offset device node pad path rest) ≡ some node
  node-lem (a, p, o, d, n, t) =
      token_no-later 3 addr _ a
      ∙ token_no-later 2 perm _ p
      ∙ token_no-later 1 offset _ o
      ∙ token_no-later 0 device _ d
      ∙ token_no-first node _ n

  path-lem :
      AreTokens → token_no 5 (maps_line addr perm offset device node pad path rest) ≡ some path
  path-lem (a, p, o, d, n, t) =
      token_no-later 4 addr _ a
      ∙ token_no-later 3 perm _ p
      ∙ token_no-later 2 offset _ o
      ∙ token_no-later 1 device _ d
      ∙ token_no-later 0 node _ n
      ∙ token_no-spaces 0 pad (path ++ (b' ' ∷ rest))
      ∙ token_no-first path rest t

  -- What follows the path behind a space is not looked at: with any padding, a mapping whose path holds neither a newline
  -- nor the text "(deleted)" keeps the fd of the lines before, so it is shown as "mem" although
  -- " (deleted)" may follow.
  pub map_line-fd :
      (m : Mapping)
      → AreTokens
      → contains 0 (maps_line addr perm offset device node pad path rest) ≡ false
      → text_eq m.node node ≡ false
      → text_eq node (codes "0") ≡ false
      → find path (codes "\n") ≡ none
      → has_text path (codes "(deleted)") ≡ false
      → map_line m (maps_line addr perm offset device node pad path rest)
        ≡ some (record { node = node; name = path; fd = m.fd })
  unfolding map_line map_node map_name cut_newline without_newline mark_deleted
  map_line-fd m h z e f g k =
      let line : List ℕ = maps_line addr perm offset device node pad path rest in
      ap (λ l. map_node m l (token_no 4 l)) (c_string-whole line z)
      ∙ rw (node-lem h, map_node) (rw e (rw f (rw (path-lem h) (rw g (rw k refl)))))
