-- ===== src/Lsof/Maps.antt =====
-- `FindMem` of project1/hw1.cpp: the lines of /proc/<pid>/maps. The variables that it sets and never
-- reads (addr, perm, offset, device) are left out.
use nctu_unixprog.Base.{
  ℕ, zero, suc, ◌+◌, Option, none, some, List, [], ◌∷◌, ◌++◌, ◌||◌, ◌==◌, if◌then◌else◌, codes,
  text_eq,
}
use nctu_unixprog.Text.Token.{lines, strtok}
use nctu_unixprog.Text.Find.{find, has_text, remove_at, c_string}
use nctu_unixprog.Run.{M, ◌>>=◌, ◌>>◌, pure}
use nctu_unixprog.Lsof.Files.{Files, Answer, fails, gives}
use nctu_unixprog.Lsof.State.{Lsof, ProcInfo, enoent, eacces, ask, need, error}
use nctu_unixprog.Lsof.Links.{type_of, list_file, stat_of}

-- The variables that stay from line to line.
pub record Mapping : Type 0 where
  pub node : List ℕ
  pub name : List ℕ
  pub fd : List ℕ

abbrev pub no_mapping : Mapping
no_mapping = record { node = []; name = []; fd = codes "mem" }

first_token : Option (List ℕ × List ℕ) → Option (List ℕ)
first_token none = none
first_token (some (t, rest)) = some t

next_text : Option (List ℕ × List ℕ) → List ℕ
next_text none = []
next_text (some (t, rest)) = rest

-- The token of a line with a number, from 0, by calls of `strtok`.
unfoldable pub token_no : ℕ → List ℕ → Option (List ℕ)
unfolding first_token next_text
token_no zero s = first_token (strtok (codes " ") s)
token_no (suc k) s = token_no k (next_text (strtok (codes " ") s))

-- `text.replace(pos, pos+1, "")` where `find("\n")` gives pos.
unfoldable pub without_newline : List ℕ → Option ℕ → List ℕ
without_newline text none = text
without_newline text (some pos) = remove_at pos (pos + 1) text

unfoldable pub cut_newline : List ℕ → List ℕ
unfolding without_newline
cut_newline text = without_newline text (find text (codes "\n"))

token_or : List ℕ → Option (List ℕ) → List ℕ
token_or old none = old
token_or old (some t) = t

unfoldable pub mark_deleted : Mapping → List ℕ → Mapping
mark_deleted m name =
    if has_text name (codes "(deleted)")
    then record { node = m.node; name = name ++ codes " (deleted)"; fd = codes "del" }
    else record m { name = name }

-- The name and the fd of a line, from its sixth token on.
unfoldable pub map_name : Mapping → List ℕ → Mapping
unfolding token_or
map_name m line = mark_deleted m (cut_newline (token_or m.name (token_no 5 line)))

-- The fifth token: `none` is `continue`.
unfoldable pub map_node : Mapping → List ℕ → Option (List ℕ) → Option Mapping
map_node m line none = some (map_name m line)
map_node m line (some t) =
    if text_eq m.node t || text_eq t (codes "0")
    then none
    else some (map_name (record m { node = t }) line)

unfoldable pub map_line : Mapping → List ℕ → Option Mapping
map_line m line = map_node m (c_string line) (token_no 4 (c_string line))

module _ (files : Files) (proc : ProcInfo) (regex type_regex type : List ℕ) where
  unfoldable pub map_lines : List (List ℕ) → Mapping → M (Lsof files.World) (Unit {0})
  map_lines [] m = pure tt
  map_lines (l ∷ ls) m = elim (map_line m l) [
    | none ↦ map_lines ls m
    | some n ↦ list_file proc regex type_regex n.fd type n.node n.name >> map_lines ls n
  ]

module _ (files : Files) (dir : List ℕ) (proc : ProcInfo) (regex type_regex : List ℕ) where
  unfoldable pub maps_at : Answer (List ℕ) → M (Lsof files.World) (Unit {0})
  maps_at (fails e) = if e == enoent || e == eacces then pure tt else error files "fopen" e
  maps_at (gives text) = do
    st ← stat_of files dir "stat"
    map_lines files proc regex type_regex (type_of st.mode) (lines text) no_mapping
    ask files.fclose >>= need files "fclose"

  unfoldable pub find_mem : M (Lsof files.World) (Unit {0})
  find_mem = ask (λ w. files.fopen w dir) >>= maps_at
