-- ===== src/Debugger/Sections.antt =====
-- Which section header the search in `load` of project4/hw4.cpp finds. The child is about `load` itself.
pub mod Files
use Prim.Native.Nat.{min}
use nctu_unixprog.Base.{
  arith, ℕ, zero, suc, ◌+◌, ◌-◌, ◌*◌, ◌≤◌, ◌<◌, ◌^◌, ◌≡◌, refl, sym, ap, ◌∙◌, subst, Bool, true,
  false, Option, none, some, List, [], ◌∷◌, ◌++◌, codes, length, take, drop, length-take,
  length-drop, drop-length, append_nil, ltb, if◌then◌else◌,
}
use nctu_unixprog.Debugger.Elf.{header_size, sh_name, fread_into}
use nctu_unixprog.Debugger.Load.{Search, found, missing, found_or, find_text, strcmp_eq, read_at}

-- A read inside the file is complete.
pub length-read_at :
    (file : List ℕ) (pos n : ℕ) → pos + n ≤ length file → length (read_at file pos n) ≡ n
unfolding read_at
length-read_at file pos n h = omega (arith, length-take n (drop pos file), length-drop pos file)

-- A whole header replaces the buffer.
pub fread_into-whole :
    (bytes buffer : List ℕ) → length bytes ≡ length buffer → fread_into bytes buffer ≡ bytes
unfolding fread_into
fread_into-whole bytes buffer h =
    ap (λ n. bytes ++ drop n buffer) h
    ∙ (ap (λ r. bytes ++ r) (drop-length buffer) ∙ append_nil bytes)

-- The test of header number j behind a position: whether its name is .text, if that can be told.
abbrev pub named : List ℕ → List ℕ → ℕ → ℕ → Option Bool
named file str_tab pos j =
    strcmp_eq (drop (sh_name (read_at file (pos + j * 64) header_size)) str_tab) (codes ".text")

named-next :
    (file str_tab : List ℕ) (pos j : ℕ)
    → named file str_tab (pos + 64) j ≡ named file str_tab pos (suc j)
named-next file str_tab pos j =
    ap (λ p. strcmp_eq (drop (sh_name (read_at file p header_size)) str_tab) (codes ".text"))
      (omega arith)

named-here :
    (file str_tab : List ℕ) (pos : ℕ)
    → strcmp_eq (drop (sh_name (read_at file pos header_size)) str_tab) (codes ".text")
      ≡ named file str_tab pos 0
named-here file str_tab pos =
    ap (λ p. strcmp_eq (drop (sh_name (read_at file p header_size)) str_tab) (codes ".text"))
      (omega arith)

pub find_text-first :
    (file str_tab : List ℕ) (n pos k : ℕ) (tmp : List ℕ)
    → length tmp ≡ 64
    → pos + n * 64 ≤ length file
    → k < n
    → ((j : ℕ) → j < k → named file str_tab pos j ≡ some false)
    → named file str_tab pos k ≡ some true
    → find_text file str_tab n pos tmp ≡ found (read_at file (pos + k * 64) header_size)
unfolding find_text found_or
find_text-first file str_tab zero pos k tmp l h b o f = absurd (omega arith)
find_text-first file str_tab (suc n) pos zero tmp l h b o f =
    let size : length (read_at file pos 64) ≡ 64 = length-read_at file pos 64 (omega arith) in
    let whole : fread_into (read_at file pos 64) tmp ≡ read_at file pos 64 =
      fread_into-whole _ tmp (size ∙ sym l) in
    rw whole (
      rw (named-here file str_tab pos ∙ f)
        (ap (λ p. found (read_at file p header_size)) (omega arith)))
find_text-first file str_tab (suc n) pos (suc k) tmp l h b o f =
    let size : length (read_at file pos 64) ≡ 64 = length-read_at file pos 64 (omega arith) in
    let whole : fread_into (read_at file pos 64) tmp ≡ read_at file pos 64 =
      fread_into-whole _ tmp (size ∙ sym l) in
    rw whole (
      rw size (
        rw (named-here file str_tab pos ∙ o 0 (omega arith)) (
          find_text-first file str_tab n (pos + 64) k _ size (omega arith) (omega arith)
            (λ j i. named-next file str_tab pos j ∙ o (suc j) (omega arith))
            (named-next file str_tab pos k ∙ f)
          ∙ ap (λ p. found (read_at file p header_size)) (omega arith))))

pub find_text-missing :
    (file str_tab : List ℕ) (n pos : ℕ) (tmp : List ℕ)
    → length tmp ≡ 64
    → pos + n * 64 ≤ length file
    → ((j : ℕ) → j < n → named file str_tab pos j ≡ some false)
    → find_text file str_tab n pos tmp ≡ missing
unfolding find_text found_or
find_text-missing file str_tab zero pos tmp l h o = refl
find_text-missing file str_tab (suc n) pos tmp l h o =
    let size : length (read_at file pos 64) ≡ 64 = length-read_at file pos 64 (omega arith) in
    let whole : fread_into (read_at file pos 64) tmp ≡ read_at file pos 64 =
      fread_into-whole _ tmp (size ∙ sym l) in
    rw whole (
      rw size (
        rw (named-here file str_tab pos ∙ o 0 (omega arith)) (
          find_text-missing file str_tab n (pos + 64) _ size (omega arith)
            (λ j i. named-next file str_tab pos j ∙ o (suc j) (omega arith)))))
