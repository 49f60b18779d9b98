-- ===== src/Lsof/Listing.antt =====
-- Everything that project1/hw1.cpp lists passes the filters of its options.
use nctu_unixprog.Base.{
  true, Bool, ◌≡◌, ℕ, Bool, Option, none, some, inl, inr, List, [], ◌∷◌, Option-cases,
}
use nctu_unixprog.Text.Token.{lines}
use nctu_unixprog.Run.{pure}
use nctu_unixprog.Run.Keeps.{Keeps, Keeps->>=, Keeps->>, Keeps-pure}
use nctu_unixprog.Lsof.Files.{Files, Answer, fails, gives}
use nctu_unixprog.Lsof.State.{ProcInfo}
use nctu_unixprog.Lsof.Links.{exe_at, find_exe, cwd_root_at, find_cwd_root, find_usr, list_file}
use nctu_unixprog.Lsof.Maps.{Mapping, map_line, map_lines, maps_at, find_mem}
use nctu_unixprog.Lsof.Fds.{
  suffix_read, suffix_both, fd_suffix, fd_link, fd_entry, fd_entries, fds_at, find_fd,
}
use nctu_unixprog.Lsof.Command.{
  Options, cmd_line, cmd_at, check_cmd, list_process, proc_matched, proc_entry, proc_entries,
  list_processes,
}
use nctu_unixprog.Lsof.Command.{is_type}
use nctu_unixprog.Lsof.Types.{IsChoice}
use nctu_unixprog.Lsof.Rows.{
  lists_rules, Step, Step-IsPreorder, Keeps-print, unopened, Keeps-list_file,
}

module _ (files : Files) (regex type_regex : List ℕ) (choice : IsChoice type_regex) where
  Keeps-find_usr : (dir : List ℕ) → Keeps (Step regex type_regex) (find_usr files dir)
  unfolding find_usr
  Keeps-find_usr dir = search lists_rules depth 20

  module _ (dir : List ℕ) (proc : ProcInfo) where
    Keeps-exe_at :
        (buf : List ℕ) (a : Answer (List ℕ))
        → Keeps (Step regex type_regex) (exe_at files dir proc regex type_regex buf a)
    unfolding exe_at
    Keeps-exe_at buf (fails e) = search lists_rules depth 20
    Keeps-exe_at buf (gives link) = search lists_rules depth 20

    Keeps-find_exe : Keeps (Step regex type_regex) (find_exe files dir proc regex type_regex)
    unfolding find_exe
    Keeps-find_exe = search (lists_rules, Keeps-exe_at) depth 20

    Keeps-cwd_root_at :
        (fd buf : List ℕ) (a : Answer (List ℕ))
        → Keeps (Step regex type_regex) (cwd_root_at files dir proc fd regex type_regex buf a)
    unfolding cwd_root_at
    Keeps-cwd_root_at fd buf (fails e) = search lists_rules depth 20
    Keeps-cwd_root_at fd buf (gives link) = search lists_rules depth 20

    Keeps-find_cwd_root :
        (fd : List ℕ)
        → Keeps (Step regex type_regex) (find_cwd_root files dir proc fd regex type_regex)
    unfolding find_cwd_root
    Keeps-find_cwd_root fd = search (lists_rules, Keeps-cwd_root_at) depth 20

    Keeps-map_lines :
        (type : List ℕ) (ls : List (List ℕ)) (m : Mapping)
        → is_type type ≡ true
        → Keeps (Step regex type_regex) (map_lines files proc regex type_regex type ls m)
    unfolding map_lines
    Keeps-map_lines type [] m known = search lists_rules depth 20
    Keeps-map_lines type (l ∷ ls) m known = elim (Option-cases (map_line m l)) [
      | inl e ↦ rw (e, map_lines) (Keeps-map_lines type ls m known)
      | inr (n, e) ↦
          rw (e, map_lines)
            (Keeps->> (Step-IsPreorder regex type_regex)
              (list_file proc regex type_regex n.fd type n.node n.name)
              (map_lines files proc regex type_regex type ls n)
              (Keeps-list_file regex type_regex proc n.fd type n.node n.name choice known)
              (Keeps-map_lines type ls n known))
    ]

    Keeps-maps_at :
        (a : Answer (List ℕ))
        → Keeps (Step regex type_regex) (maps_at files dir proc regex type_regex a)
    unfolding maps_at
    Keeps-maps_at (fails e) = search lists_rules depth 20
    Keeps-maps_at (gives text) = search (lists_rules, Keeps-map_lines) depth 20

    Keeps-find_mem : Keeps (Step regex type_regex) (find_mem files dir proc regex type_regex)
    unfolding find_mem
    Keeps-find_mem = search (lists_rules, Keeps-maps_at) depth 20

    Keeps-suffix_read :
        (path : List ℕ) (a : Answer (Unit {0}))
        → Keeps (Step regex type_regex) (suffix_read files path a)
    unfolding suffix_read
    Keeps-suffix_read path (gives a) = search lists_rules depth 20
    Keeps-suffix_read path (fails e) = search lists_rules depth 20

    Keeps-suffix_both :
        (path : List ℕ) (a : Answer (Unit {0}))
        → Keeps (Step regex type_regex) (suffix_both files path a)
    unfolding suffix_both
    Keeps-suffix_both path (gives a) = search lists_rules depth 20
    Keeps-suffix_both path (fails e) = search (lists_rules, Keeps-suffix_read) depth 20

    Keeps-fd_suffix : (path : List ℕ) → Keeps (Step regex type_regex) (fd_suffix files path)
    unfolding fd_suffix
    Keeps-fd_suffix path = search (lists_rules, Keeps-suffix_both) depth 20

    Keeps-fd_link :
        (name buf : List ℕ) (a : Answer (List ℕ))
        → Keeps (Step regex type_regex) (fd_link files dir proc regex type_regex name buf a)
    unfolding fd_link
    Keeps-fd_link name buf (fails e) = search lists_rules depth 20
    Keeps-fd_link name buf (gives link) = search (lists_rules, Keeps-fd_suffix) depth 20

    Keeps-fd_entry :
        (name buf : List ℕ)
        → Keeps (Step regex type_regex) (fd_entry files dir proc regex type_regex name buf)
    unfolding fd_entry
    Keeps-fd_entry name buf = search (lists_rules, Keeps-fd_link) depth 20

    Keeps-fd_entries :
        (names : List (List ℕ)) (buf : List ℕ)
        → Keeps (Step regex type_regex) (fd_entries files dir proc regex type_regex names buf)
    unfolding fd_entries
    Keeps-fd_entries [] buf = search lists_rules depth 20
    Keeps-fd_entries (n ∷ ns) buf =
        Keeps->>= (Step-IsPreorder regex type_regex)
          (fd_entry files dir proc regex type_regex n buf) _ (Keeps-fd_entry n buf)
          (go_on (λ b. Keeps-fd_entries ns b))
      where
        go_on :
            ((b : List ℕ)
              → Keeps
                  (Step {W = files.World} regex type_regex)
                  (fd_entries files dir proc regex type_regex ns b))
            → (next : Option (List ℕ))
            → Keeps {A = Unit {0}} (Step {W = files.World} regex type_regex) (elim next [
              | none ↦ pure tt
              | some b ↦ fd_entries files dir proc regex type_regex ns b
            ])
        go_on k none = Keeps-pure (Step-IsPreorder regex type_regex) tt
        go_on k (some b) = k b

    Keeps-fds_at :
        (buf : List ℕ) (a : Answer (List (List ℕ)))
        → Keeps (Step regex type_regex) (fds_at files dir proc regex type_regex buf a)
    unfolding fds_at
    Keeps-fds_at buf (fails e) = search (lists_rules, Keeps-print, unopened) depth 20
    Keeps-fds_at buf (gives names) = Keeps-fd_entries names buf

    Keeps-find_fd : Keeps (Step regex type_regex) (find_fd files dir proc regex type_regex)
    unfolding find_fd
    Keeps-find_fd = search (lists_rules, Keeps-fds_at) depth 20

ruleset find_rules = (
  lists_rules, Keeps-find_usr, Keeps-find_exe, Keeps-find_cwd_root, Keeps-find_mem, Keeps-find_fd,
)

module _ (files : Files) (o : Options) (choice : IsChoice o.type_regex) where
  Keeps-list_process :
      (cmd pid : List ℕ) → Keeps (Step o.file_regex o.type_regex) (list_process files o cmd pid)
  unfolding list_process
  Keeps-list_process cmd pid = search find_rules depth 30

  Keeps-cmd_line :
      (cmd : List ℕ) (ls : List (List ℕ))
      → Keeps (Step o.file_regex o.type_regex) (cmd_line files o.cmd_regex cmd ls)
  unfolding cmd_line
  Keeps-cmd_line cmd [] = search lists_rules depth 20
  Keeps-cmd_line cmd (l ∷ ls) = search lists_rules depth 20

  Keeps-cmd_at :
      (cmd : List ℕ) (a : Answer (List ℕ))
      → Keeps (Step o.file_regex o.type_regex) (cmd_at files o.cmd_regex cmd a)
  unfolding cmd_at
  Keeps-cmd_at cmd (fails e) = search lists_rules depth 20
  Keeps-cmd_at cmd (gives text) = Keeps-cmd_line cmd (lines text)

  Keeps-check_cmd :
      (cmd dir : List ℕ)
      → Keeps (Step o.file_regex o.type_regex) (check_cmd files o.cmd_regex cmd dir)
  unfolding check_cmd
  Keeps-check_cmd cmd dir = search (lists_rules, Keeps-cmd_at) depth 20

  Keeps-proc_matched :
      (pid : List ℕ) (r : Bool × List ℕ)
      → Keeps (Step o.file_regex o.type_regex) (proc_matched files o pid r)
  unfolding proc_matched
  Keeps-proc_matched pid (matched, cmd) = search (lists_rules, Keeps-list_process) depth 20

  Keeps-proc_entry :
      (pid cmd : List ℕ) → Keeps (Step o.file_regex o.type_regex) (proc_entry files o pid cmd)
  unfolding proc_entry
  Keeps-proc_entry pid cmd = search (lists_rules, Keeps-check_cmd, Keeps-proc_matched) depth 20

  Keeps-proc_entries :
      (names : List (List ℕ)) (cmd : List ℕ)
      → Keeps (Step o.file_regex o.type_regex) (proc_entries files o names cmd)
  unfolding proc_entries
  Keeps-proc_entries [] cmd = search lists_rules depth 20
  Keeps-proc_entries (n ∷ ns) cmd =
      Keeps->>= (Step-IsPreorder o.file_regex o.type_regex) (proc_entry files o n cmd)
        (proc_entries files o ns) (Keeps-proc_entry n cmd) (Keeps-proc_entries ns)

  pub Keeps-list_processes : Keeps (Step o.file_regex o.type_regex) (list_processes files o)
  unfolding list_processes
  Keeps-list_processes = search (lists_rules, Keeps-proc_entries) depth 20
