-- ===== src/Text/Words.antt =====
-- `split` of project4/hw4.cpp on words that are joined by a space.
use nctu_unixprog.Base.{ℕ, ◌≡◌, refl, sym, ap, ◌∙◌, false, List, [], ◌∷◌, ◌++◌, All, append_nil}
use nctu_unixprog.Text.Token.{isspace, split, split_from}

abbrev pub IsWord : List ℕ → Type 0
IsWord [] = ⊥
IsWord (c ∷ cs) = All (λ x. isspace x ≡ false) (c ∷ cs)

abbrev pub unwords : List (List ℕ) → List ℕ
unwords [] = []
unwords (w ∷ []) = w
unwords (w ∷ v ∷ ws) = w ++ (b' ' ∷ unwords (v ∷ ws))

append_assoc : (xs ys zs : List ℕ) → (xs ++ ys) ++ zs ≡ xs ++ (ys ++ zs)
append_assoc [] ys zs = refl
append_assoc (x ∷ xs) ys zs = ap (◌∷◌ x) (append_assoc xs ys zs)

split_from-append :
    (xs rest w : List ℕ)
    → All (λ x. isspace x ≡ false) xs
    → split_from (xs ++ rest) w ≡ split_from rest (w ++ xs)
unfolding split_from
split_from-append [] rest w h = ap (split_from rest) (sym (append_nil w))
split_from-append (x ∷ xs) rest w (e, h) = rw e (
    split_from-append xs rest (w ++ (x ∷ [])) h ∙ ap (split_from rest) (append_assoc w (x ∷ []) xs))

split_from-unwords : (ws : List (List ℕ)) → All IsWord ws → split_from (unwords ws) [] ≡ ws
unfolding split_from isspace
split_from-unwords [] h = refl
split_from-unwords ((c ∷ cs) ∷ []) (h, k) =
    ap (λ l. split_from l []) (sym (append_nil (c ∷ cs))) ∙ split_from-append (c ∷ cs) [] [] h
split_from-unwords ((c ∷ cs) ∷ v ∷ ws) (h, k) =
    split_from-append (c ∷ cs) (b' ' ∷ unwords (v ∷ ws)) [] h
    ∙ ap (◌∷◌ (c ∷ cs)) (split_from-unwords (v ∷ ws) k)
split_from-unwords ([] ∷ []) (h, k) = absurd h
split_from-unwords ([] ∷ v ∷ ws) (h, k) = absurd h

-- Words that hold no space, joined by single spaces, are what `split` gives back.
pub split-unwords : (ws : List (List ℕ)) → All IsWord ws → split (unwords ws) ≡ ws
unfolding split
split-unwords ws h = split_from-unwords ws h
