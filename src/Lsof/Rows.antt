-- ===== src/Lsof/Rows.antt =====
-- What `Print` of project1/hw1.cpp may be called with, and that its helpers stay within that.
use nctu_unixprog.Base.{
  true, ◌≡◌, ℕ, String, inl, inr, List, [], ◌++◌, ◌&&◌, codes, Bool-cases, arith,
}
use nctu_unixprog.Stream.{Ostream}
use nctu_unixprog.Text.Find.{has_text, has_text_sound, Occurs}
use nctu_unixprog.Run.{modify}
use nctu_unixprog.Run.Keeps.{
  Keeps, IsPreorder, Keeps->>=, Keeps->>, Keeps-pure, Keeps-get, Keeps-exit, Keeps-modify,
  Keeps-undefined_behaviour, Keeps-if, keeps_rules,
}
use nctu_unixprog.Lsof.Files.{Files, Answer, fails, gives}
use nctu_unixprog.Lsof.State.{
  Lsof, ProcInfo, ask, complain, write_out, error, need, row, print, head, print_head,
}
use nctu_unixprog.Lsof.Command.{is_type}
use nctu_unixprog.Lsof.Types.{Selects, IsChoice, has_text-Selects, type_of-is_type, dir-is_type}
use nctu_unixprog.Lsof.Links.{list_file, no_link, stat_of, dir_name, file_name}

-- A row for a file whose name holds the text of -f and whose type is that of -t, if there is one, or one that says that
-- permission was denied.
pub data IsShown (regex type_regex : List ℕ) : List ℕ → List ℕ → Type 0 where
  matching :
      {type name : List ℕ}
      → Occurs regex name
      → Selects type_regex type
      → IsShown regex type_regex type name
  unreadable :
      (dir : List ℕ)
      → IsShown regex type_regex (codes "unknown") (dir ++ codes " (readlink: Permission denied)")
  unopened :
      (dir : List ℕ) → IsShown regex type_regex [] (dir ++ codes " (opendir: Permission denied)")

-- What is written to cout between two states: the head line and such rows.
pub data Lists (regex type_regex : List ℕ) : Ostream → Ostream → Type 0 where
  nothing : {out : Ostream} → Lists regex type_regex out out
  head_line :
      {out to : Ostream} → Lists regex type_regex out to → Lists regex type_regex out (head to)
  listed :
      {out to : Ostream} {proc : ProcInfo} {fd type node name : List ℕ}
      → Lists regex type_regex out to
      → IsShown regex type_regex type name
      → Lists regex type_regex out (row proc fd type node name to)

module _ {regex type_regex : List ℕ} where
  Lists_trans :
      {a b c : Ostream}
      → Lists regex type_regex a b
      → Lists regex type_regex b c
      → Lists regex type_regex a c
  Lists_trans p nothing = p
  Lists_trans p (head_line q) = head_line (Lists_trans p q)
  Lists_trans p (listed q shown) = listed (Lists_trans p q) shown

module _ {W : Type 0} (regex type_regex : List ℕ) where
  abbrev pub Step : Lsof W → Lsof W → Type 0
  Step s t = Lists regex type_regex s.cout t.cout

  pub Step-IsPreorder : IsPreorder Step
  Step-IsPreorder = record { rel_refl = λ s. nothing; rel_trans = λ s t u. Lists_trans }

  pub Keeps-ask : {A : Type 0} (f : W → Answer A × W) → Keeps Step (ask f)
  unfolding ask
  Keeps-ask f = record { apply = λ s. nothing }

  pub Keeps-complain : (f : Ostream → Ostream) → Keeps Step (modify (complain f))
  Keeps-complain f = Keeps-modify (complain f) (λ s. nothing)

  pub Keeps-print :
      (proc : ProcInfo) (fd type node name : List ℕ)
      → IsShown regex type_regex type name
      → Keeps Step (print proc fd type node name)
  unfolding print
  Keeps-print proc fd type node name shown =
      Keeps-modify (write_out (row proc fd type node name)) (λ s. listed nothing shown)

  pub Keeps-print_head : Keeps Step print_head
  unfolding print_head
  Keeps-print_head = Keeps-modify (write_out head) (λ s. head_line nothing)

  pub Keeps-list_file :
      (proc : ProcInfo) (fd type node name : List ℕ)
      → IsChoice type_regex
      → is_type type ≡ true
      → Keeps Step (list_file proc regex type_regex fd type node name)
  unfolding list_file
  Keeps-list_file proc fd type node name choice known =
      elim (Bool-cases (has_text name regex && has_text type type_regex)) [
        | inl e ↦
            let f : has_text name regex ≡ true = grind arith in
            let g : has_text type type_regex ≡ true = grind arith in
            rw e (
              Keeps-print proc fd type node name (
                matching (has_text_sound name regex f)
                  (has_text-Selects type type_regex known choice g)))
        | inr e ↦ rw e (Keeps-pure Step-IsPreorder tt)
      ]

  pub Keeps-dir_name : (buf : List ℕ) → Keeps Step (dir_name buf)
  unfolding dir_name
  Keeps-dir_name buf = search (keeps_rules, Step-IsPreorder) depth 20

  pub Keeps-file_name :
      (type : List ℕ) (node : ℕ) (buf : List ℕ) → Keeps Step (file_name type node buf)
  unfolding file_name
  Keeps-file_name type node buf = search (keeps_rules, Keeps-dir_name, Step-IsPreorder) depth 20

module _ (files : Files) (regex type_regex : List ℕ) where
  pub Keeps-error :
      (A : Type 0) (what : String) (e : ℕ)
      → Keeps (Step regex type_regex) (error {A = A} files what e)
  unfolding error
  Keeps-error A what e = search (keeps_rules, Keeps-complain, Step-IsPreorder) depth 20

  pub Keeps-need :
      {A : Type 0} (what : String) (a : Answer A)
      → Keeps (Step regex type_regex) (need files what a)
  unfolding need
  Keeps-need what (fails e) = Keeps-error _ what e
  Keeps-need what (gives a) = Keeps-pure (Step-IsPreorder regex type_regex) a

  pub Keeps-stat_of :
      (dir : List ℕ) (what : String) → Keeps (Step regex type_regex) (stat_of files dir what)
  unfolding stat_of
  Keeps-stat_of dir what = search (keeps_rules, Keeps-ask, Keeps-need, Step-IsPreorder) depth 20

  pub Keeps-no_link :
      (proc : ProcInfo) (dir fd : List ℕ) (e : ℕ)
      → Keeps (Step regex type_regex) (no_link files proc dir fd e)
  unfolding no_link
  Keeps-no_link proc dir fd e =
      search (keeps_rules, Keeps-print, unreadable, Keeps-error, Step-IsPreorder) depth 20

pub ruleset lists_rules = (
  keeps_rules, Keeps-ask, Keeps-complain, Keeps-print_head, Keeps-list_file, type_of-is_type,
  dir-is_type, Keeps-dir_name, Keeps-file_name, Keeps-error, Keeps-need, Keeps-stat_of,
  Keeps-no_link, Step-IsPreorder,
)
