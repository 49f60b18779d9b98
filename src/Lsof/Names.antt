-- ===== src/Lsof/Names.antt =====
-- The NAME column of project1/hw1.cpp: `readlink` stores no NUL, and `dirname` cuts the name off.
use nctu_unixprog.Base.{
  ℕ, suc, ◌≡◌, refl, ap, ◌∙◌, true, false, Option, none, some, List, [], ◌∷◌, ◌++◌, ◌==◌,
  append_nil, length, drop, codes, arith,
}
use nctu_unixprog.Text.Token.{contains, word}
use nctu_unixprog.Text.Find.{c_string, dirname, dirname-name, c_string-append}
use nctu_unixprog.Run.{ok, pure}
use nctu_unixprog.Lsof.State.{Lsof}
use nctu_unixprog.Lsof.Links.{overwrite, cut_in_place, dir_name}

-- The text that `string(dirname(buf))` gives.
abbrev pub directory : Option (List ℕ) → List ℕ
directory none = codes "."
directory (some d) = d

contains-behind : (xs ys : List ℕ) → contains 0 ys ≡ true → contains 0 (xs ++ ys) ≡ true
unfolding contains
contains-behind [] ys h = h
contains-behind (x ∷ xs) ys h = grind (arith, contains-behind xs ys h)

cut_in_place-directory :
    (buf : List ℕ) (o : Option (List ℕ))
    → (after : List ℕ) × (cut_in_place buf o ≡ (directory o, after))
unfolding cut_in_place
cut_in_place-directory buf none = (buf, refl)
cut_in_place-directory buf (some d) = (d ++ (0 ∷ drop (suc (length d)) buf), refl)

-- Where the buffer holds a NUL behind the link, and the link none, what is cut by dirname for the NAME
-- column is the link with the bytes that the buffer held behind it, up to that NUL.
pub dir_name-stale :
    (W : Type 0) (link buf : List ℕ) (s : Lsof W)
    → contains 0 link ≡ false
    → contains 0 (drop (length link) buf) ≡ true
    → (after : List ℕ) × (dir_name (overwrite link buf) s
        ≡ ok (directory (dirname (link ++ c_string (drop (length link) buf))), after) s)
unfolding dir_name pure
dir_name-stale W link buf s h k =
    let (after, e) =
      cut_in_place-directory (overwrite link buf)
        (dirname (link ++ c_string (drop (length link) buf))) in
    (
      after,
      rw (contains-behind link (drop (length link) buf) k)
          (rw (c_string-append link (drop (length link) buf) h) (ap (λ r. ok r s) e)),
    )

-- Where the byte behind the link is a NUL, a link to a file c ∷ cs in a directory shows the directory
-- and not the file.
pub dir_name-directory :
    (W : Type 0) (ds : List ℕ) (d c : ℕ) (cs buf rest : List ℕ) (s : Lsof W)
    → contains 0 ((ds ++ (d ∷ [])) ++ (b'/' ∷ c ∷ cs)) ≡ false
    → (d == b'/') ≡ false
    → contains b'/' (c ∷ cs) ≡ false
    → drop (length ((ds ++ (d ∷ [])) ++ (b'/' ∷ c ∷ cs))) buf ≡ 0 ∷ rest
    → (after : List ℕ) × (dir_name (overwrite ((ds ++ (d ∷ [])) ++ (b'/' ∷ c ∷ cs)) buf) s
        ≡ ok (ds ++ (d ∷ []), after) s)
unfolding contains word
dir_name-directory W ds d c cs buf rest s h e f k =
    let link : List ℕ = (ds ++ (d ∷ [])) ++ (b'/' ∷ c ∷ cs) in
    let (after, q) = dir_name-stale W link buf s h (rw k refl) in
    (
      after,
      q
          ∙ ap (λ n. ok (directory n, after) s)
              (ap (λ r. dirname (link ++ c_string r)) k
                ∙ ap dirname (append_nil link)
                ∙ dirname-name ds d c cs e f),
    )
