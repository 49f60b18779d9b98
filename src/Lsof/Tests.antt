-- ===== src/Lsof/Tests.antt =====
-- The lsof clone on one process.
use nctu_unixprog.Base.{ℕ, ◌≡◌, refl, List, [], ◌∷◌, ◌++◌, codes, text_eq, if◌then◌else◌, some}
use nctu_unixprog.Stream.{put, fresh_stream}
use nctu_unixprog.Text.Token.{contains}
use nctu_unixprog.Text.Find.{find, is_prefix, has_text, is_place, next_place, c_string, dirname}
use nctu_unixprog.Run.{ok, exited}
use nctu_unixprog.Run.Keeps.{Post}
use nctu_unixprog.Lsof.Files.{Files, fails, gives}
use nctu_unixprog.Lsof.State.{Lsof, complain}
use nctu_unixprog.Lsof.Links.{dir_name, overwrite}
use nctu_unixprog.Lsof.Maps.{Mapping, map_line}
use nctu_unixprog.Lsof.Fds.{fd_suffix}
use nctu_unixprog.Lsof.Command.{main, is_type, read_options, no_options}
use nctu_unixprog.Lsof.Types.{any_of}
use nctu_unixprog.Lsof.Rows.{Step}
use nctu_unixprog.Lsof.Options.{main-type, main-lists, read_options-last, flatten}
use nctu_unixprog.Lsof.Modes.{IsAccess, fd_suffix-letter}
use nctu_unixprog.Lsof.Names.{dir_name-stale, dir_name-directory, directory}
use nctu_unixprog.Lsof.Mappings.{map_line-fd, maps_line}

-- One process, 7; its fd directory is not readable, and no file of a descriptor is there.
abbrev toy : Files
toy = record {
  World = Unit {0};
  opendir = λ w path. (
    if text_eq path (codes "/proc/") then gives (codes "7" ∷ codes "self" ∷ []) else fails 13,
    w,
  );
  closedir = λ w. (gives tt, w);
  stat = λ w path. (gives (record { mode = 0x81a4; ino = 12; uid = 0 }), w);
  readlink = λ w path. (gives (codes "/bin/sh"), w);
  access = λ w path mode. (fails 2, w);
  fopen = λ w path. (gives (codes "sh\n"), w);
  fclose = λ w. (gives tt, w);
  getpwuid = λ w uid. (gives (codes "root"), w);
  errno = λ w. 0;
  strerror = λ e. "error";
  stack = λ w. codes "/home/me/file" ++ (0 ∷ []);
}

abbrev start : Lsof (Unit {0})
start = record { cout = fresh_stream; cerr = fresh_stream; world = tt }

abbrev options : List (List ℕ × List ℕ)
options = (codes "-c", codes "sh") ∷ (codes "-t", codes "REG") ∷ (codes "-f", codes "in") ∷ []

main-lists_example : Post (Step (codes "in") (codes "REG") start) (main toy (flatten options) start)
unfolding is_type text_eq
main-lists_example = main-lists toy options start (refl, (refl, (refl, tt)))

read_options-last_example :
    read_options {W = Unit {0}} (flatten options) no_options start
    ≡ ok
        (record { cmd_regex = codes "sh"; type_regex = codes "REG"; file_regex = codes "in" })
        start
unfolding is_type text_eq
read_options-last_example = read_options-last (Unit {0}) options start (refl, (refl, (refl, tt)))

main-type_example :
    main toy (flatten options ++ (codes "-t" ∷ codes "DISK" ∷ [])) start
    ≡ exited 1 (complain (put 0 "Invalid TYPE option.\n") start)
unfolding is_type any_of text_eq
main-type_example = main-type toy options (codes "DISK") [] start (refl, (refl, (refl, tt)))

toy-IsAccess : IsAccess toy
toy-IsAccess = record { missing = λ w w' path e h mode. (2, refl) }

fd_suffix-letter_example :
    (t : Lsof (Unit {0})) × (fd_suffix toy (codes "/proc/7/fd/0") start ≡ ok [] t)
fd_suffix-letter_example = fd_suffix-letter toy toy-IsAccess (codes "/proc/7/fd/0") start

-- The link /bin/sh over a buffer that held /home/me/file.
dir_name-stale_example :
    (after : List ℕ) × (dir_name
        (overwrite (codes "/bin/sh") (codes "/home/me/file" ++ (0 ∷ [])))
        start
      ≡ ok
          (directory (dirname (codes "/bin/sh" ++ c_string (codes "e/file" ++ (0 ∷ [])))), after)
          start)
unfolding contains
dir_name-stale_example =
    dir_name-stale (Unit {0}) (codes "/bin/sh") (codes "/home/me/file" ++ (0 ∷ [])) start refl refl

dir_name-directory_example :
    (after : List ℕ) × (dir_name (overwrite (codes "/bin/sh") (codes "/home/m" ++ (0 ∷ []))) start
      ≡ ok (codes "/bin", after) start)
unfolding contains
dir_name-directory_example =
    dir_name-directory (Unit {0}) (codes "/bi") b'n' b's' (codes "h") (codes "/home/m" ++ (0 ∷ []))
      [] start refl refl refl refl

abbrev before : Mapping
before = record { node = []; name = []; fd = codes "mem" }

map_line-fd_example :
    map_line before (
      maps_line
        (codes "00-01")
        (codes "r-xp")
        (codes "0")
        (codes "08:01")
        (codes "7")
        18
        (codes "/tmp/x")
        (codes "(deleted)\n"))
    ≡ some (record { node = codes "7"; name = codes "/tmp/x"; fd = codes "mem" })
unfolding contains text_eq find is_prefix next_place has_text is_place
map_line-fd_example =
    map_line-fd (codes "00-01") (codes "r-xp") (codes "0") (codes "08:01") (codes "7") 18
      (codes "/tmp/x") (codes "(deleted)\n") before (refl, refl, refl, refl, refl, refl) refl refl
      refl refl refl
