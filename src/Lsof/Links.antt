-- ===== src/Lsof/Links.antt =====
-- `FindCwdRoot`, `FindExe` and `FindUsr` of project1/hw1.cpp, and what `FindFd` shares with them.
use nctu_unixprog.Base.{
  ℕ, suc, String, ◌/◌, ◌%◌, Option, none, some, List, [], ◌∷◌, ◌++◌, ◌&&◌, ◌==◌, if◌then◌else◌,
  codes, length, drop, text_eq,
}
use nctu_unixprog.Stream.{show_number, dec}
use nctu_unixprog.Text.Token.{contains}
use nctu_unixprog.Text.Find.{has_text, c_string, dirname}
use nctu_unixprog.Run.{M, ◌>>=◌, pure, get, undefined_behaviour}
use nctu_unixprog.Lsof.Files.{Files, Stat, Answer, fails, gives}
use nctu_unixprog.Lsof.State.{Lsof, ProcInfo, enoent, eacces, ask, need, error, print}

-- `switch(statbuf.st_mode & S_IFMT)`: the format is the four bits from bit 12 on.
unfoldable pub type_of : ℕ → List ℕ
type_of mode =
    let format = mode / 0x1000 % 16 in
    if format == 4
    then codes "DIR"
    else if format == 8
    then codes "REG"
    else if format == 2
    then codes "CHR"
    else if format == 1
    then codes "FIFO"
    else if format == 12
    then codes "SOCK"
    else codes "unknown"

-- `readlink` stores the link and leaves the rest of the buffer.
abbrev pub overwrite : List ℕ → List ℕ → List ℕ
overwrite link buf = link ++ drop (length link) buf

-- `dirname` puts a NUL behind the directory.
unfoldable pub cut_in_place : List ℕ → Option (List ℕ) → List ℕ × List ℕ
cut_in_place buf none = (codes ".", buf)
cut_in_place buf (some d) = (d, d ++ (0 ∷ drop (suc (length d)) buf))

-- `string(dirname(buf))`: the name, and the buffer after it. Without a NUL in it the buffer is read
-- past its end.
unfoldable pub dir_name : {W : Type 0} → List ℕ → M (Lsof W) (List ℕ × List ℕ)
dir_name buf =
    if contains 0 buf then pure (cut_in_place buf (dirname (c_string buf))) else undefined_behaviour

unfoldable pub file_name : {W : Type 0} → List ℕ → ℕ → List ℕ → M (Lsof W) (List ℕ × List ℕ)
file_name type node buf =
    if text_eq type (codes "FIFO")
    then pure (codes "pipe:[" ++ (show_number dec node ++ codes "]"), buf)
    else if text_eq type (codes "SOCK")
    then pure (codes "socket:[" ++ (show_number dec node ++ codes "]"), buf)
    else dir_name buf

-- The test before `Print`.
unfoldable pub list_file :
    {W : Type 0}
    → ProcInfo
    → List ℕ
    → List ℕ
    → List ℕ
    → List ℕ
    → List ℕ
    → List ℕ
    → M (Lsof W) (Unit {0})
list_file proc regex type_regex fd type node name =
    if has_text name regex && has_text type type_regex
    then print proc fd type node name
    else pure tt

-- What `readlink` failed with: not allowed, gone, or an error.
unfoldable pub no_link :
    (files : Files) → ProcInfo → List ℕ → List ℕ → ℕ → M (Lsof files.World) (Unit {0})
no_link files proc dir fd e =
    if e == eacces
    then print proc fd (codes "unknown") [] (dir ++ codes " (readlink: Permission denied)")
    else if e == enoent
    then pure tt
    else error files "readlink" e

unfoldable pub stat_of : (files : Files) → List ℕ → String → M (Lsof files.World) Stat
stat_of files dir what = ask (λ w. files.stat w dir) >>= need files what

unfoldable pub find_usr : (files : Files) → List ℕ → M (Lsof files.World) (List ℕ)
find_usr files dir = do
  st ← stat_of files dir "stat"
  ask (λ w. files.getpwuid w st.uid) >>= need files "getpwuid"

module _ (files : Files) (dir : List ℕ) (proc : ProcInfo) where
  unfoldable pub exe_at :
      List ℕ → List ℕ → List ℕ → Answer (List ℕ) → M (Lsof files.World) (Unit {0})
  exe_at regex type_regex buf (fails e) = no_link files proc dir (codes "exe") e
  exe_at regex type_regex buf (gives link) = do
    st ← stat_of files dir "stat"
    named ← file_name (type_of st.mode) st.ino (overwrite link buf)
    list_file proc regex type_regex (codes "exe") (type_of st.mode) (show_number dec st.ino) named.0

  unfoldable pub find_exe : List ℕ → List ℕ → M (Lsof files.World) (Unit {0})
  find_exe regex type_regex = do
    s ← get
    answer ← ask (λ w. files.readlink w dir)
    exe_at regex type_regex (files.stack s.world) answer

  unfoldable pub cwd_root_at :
      List ℕ → List ℕ → List ℕ → List ℕ → Answer (List ℕ) → M (Lsof files.World) (Unit {0})
  cwd_root_at fd regex type_regex buf (fails e) = no_link files proc dir fd e
  cwd_root_at fd regex type_regex buf (gives link) = do
    st ← stat_of files dir "lstat"
    named ← dir_name (overwrite link buf)
    list_file proc regex type_regex fd (codes "DIR") (show_number dec st.ino) named.0

  unfoldable pub find_cwd_root : List ℕ → List ℕ → List ℕ → M (Lsof files.World) (Unit {0})
  find_cwd_root fd regex type_regex = do
    s ← get
    answer ← ask (λ w. files.readlink w dir)
    cwd_root_at fd regex type_regex (files.stack s.world) answer
