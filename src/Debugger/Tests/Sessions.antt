-- ===== src/Debugger/Tests/Sessions.antt =====
-- Whole sessions on the small kernel.
use nctu_unixprog.Base.{drop, arith, ℕ, ◌≡◌, refl, List, [], ◌∷◌, codes, text_eq, erase_at}
use nctu_unixprog.Stream.{put}
use nctu_unixprog.Text.Token.{skip, split, split_from, isspace}
use nctu_unixprog.Text.Number.{scan, sign, hex_prefix, strtoul_value, strtoul16, digit_value}
use nctu_unixprog.Debugger.State.{
  nonload, loaded, running, Sdb, ok, undefined, ◌>>=◌, ◌>>◌, pure, get, modify, write_cout,
  write_cerr, say, sys, sys_result, is_running, when_running,
}
use nctu_unixprog.Debugger.Elf.{little_endian, struct_field, fread_into, intext}
use nctu_unixprog.Debugger.Disasm.{
  disasm, disasm_running, disasm_at, code_offset, load_code, read_code, print_insns, show_insns,
}
use nctu_unixprog.Debugger.Breaks.{
  bp, bp_running, set_trap, has_trap, with_trap, poke, record_bp, append_bp, listed, new_bp, del,
  del_running, del_entry, find_id,
}
use nctu_unixprog.Debugger.Control.{start, start_in, start_loaded, start_child}
use nctu_unixprog.Debugger.Load.{
  load, load_in, load_file, load_header, load_sections, found_text, finish, read_at, seek, seek_int,
  strcmp_eq, found_or, find_text, is_elf, is_class64, str_position, read_str_shdr, read_str_tab,
  sections_position,
}
use nctu_unixprog.Debugger.Command.{
  command_of, either, delete_of, parse_line, exec, run_lines, start_cmd, load_cmd,
}
use nctu_unixprog.Debugger.Machine.{view, Reaches}
use nctu_unixprog.Debugger.Machine.Commands.{
  exec-Reaches, IsSound, run_lines-IsSound, load_running_strands,
}
use nctu_unixprog.Debugger.Guards.{exec-refuses, Refused}
use nctu_unixprog.Debugger.Table.{IsTable}
use nctu_unixprog.Debugger.Table.Commands.{run_lines-IsTable}
use nctu_unixprog.Debugger.Ids.{del-after_del}
use nctu_unixprog.Debugger.Tests.{toy, toy-IsFork, toy_state, elf_file, left_by}

abbrev before_start : Sdb toy.World
before_start = toy_state loaded 0 [] 0x1000 4991

abbrev started : Sdb toy.World
started = left_by (exec toy start_cmd before_start) before_start

start_runs : exec toy start_cmd before_start ≡ ok tt started
unfolding exec start start_in start_loaded start_child get modify write_cout sys sys_result ◌>>=◌
    ◌>>◌
start_runs = refl

exec-Reaches_example : Reaches (view before_start) (view started)
exec-Reaches_example = exec-Reaches toy toy-IsFork start_cmd before_start started start_runs

abbrev fresh : Sdb toy.World
fresh = toy_state nonload 0 [] 0x1000 4991

fresh-IsSound : IsSound (view fresh)
fresh-IsSound = record { running_child = λ r. cc; nonload_child = λ r. refl }

abbrev load_and_start : List (List ℕ)
load_and_start = codes "load a" ∷ codes "start" ∷ []

abbrev after_start : Sdb toy.World
after_start = left_by (run_lines toy load_and_start fresh) fresh

session_runs : run_lines toy load_and_start fresh ≡ ok tt after_start
unfolding run_lines exec parse_line split split_from isspace command_of either delete_of text_eq
    strtoul16 scan sign hex_prefix strtoul_value digit_value load load_in load_file load_header
    load_sections found_text finish read_at seek seek_int strcmp_eq found_or find_text is_elf
    is_class64 str_position read_str_shdr read_str_tab sections_position little_endian struct_field
    fread_into start start_in start_loaded start_child get modify write_cout sys sys_result ◌>>=◌
    ◌>>◌ say pure
session_runs = refl

session_state : after_start.state ≡ running
unfolding run_lines exec parse_line split split_from isspace command_of either delete_of text_eq
    strtoul16 scan sign hex_prefix strtoul_value digit_value load load_in load_file load_header
    load_sections found_text finish read_at seek seek_int strcmp_eq found_or find_text is_elf
    is_class64 str_position read_str_shdr read_str_tab sections_position little_endian struct_field
    fread_into start start_in start_loaded start_child get modify write_cout sys sys_result ◌>>=◌
    ◌>>◌ say pure
session_state = refl

run_lines-IsSound_example : IsSound (view after_start)
run_lines-IsSound_example =
    run_lines-IsSound toy toy-IsFork load_and_start fresh after_start fresh-IsSound session_runs

abbrev going : Sdb toy.World
going = toy_state running 7 [] 0x1000 4991

abbrev reloaded : Sdb toy.World
reloaded = left_by (exec toy (load_cmd (codes "a")) going) going

abbrev prompted : Sdb toy.World
prompted = record reloaded { cout = put 0 "sdb> " reloaded.cout }

load_runs : exec toy (load_cmd (codes "a")) going ≡ ok tt reloaded
unfolding run_lines exec parse_line split split_from isspace command_of either delete_of text_eq
    strtoul16 scan sign hex_prefix strtoul_value digit_value load load_in load_file load_header
    load_sections found_text finish read_at seek seek_int strcmp_eq found_or find_text is_elf
    is_class64 str_position read_str_shdr read_str_tab sections_position little_endian struct_field
    fread_into get modify write_cout sys sys_result ◌>>=◌ ◌>>◌ say pure
load_runs = refl

no_lines : run_lines toy [] reloaded ≡ ok tt prompted
unfolding run_lines say write_cout
no_lines = refl

load_running_strands_example :
    (reloaded.state ≡ loaded) × (reloaded.pid ≡ 7) × (prompted.state ≡ loaded) × (prompted.pid ≡ 7)
load_running_strands_example =
    load_running_strands toy toy-IsFork (codes "a") (drop 5 elf_file) [] going reloaded prompted
      refl (λ e. cc) refl load_runs no_lines

exec-refuses_example : Refused toy (load_cmd (codes "b")) before_start
exec-refuses_example = exec-refuses toy before_start (load_cmd (codes "b")) refl refl

-- The second `break` is at an address that is listed.
abbrev two_breaks : List (List ℕ)
two_breaks = codes "b 1000" ∷ codes "break 0x1000" ∷ []

abbrev broken : Sdb toy.World
broken = left_by (run_lines toy two_breaks going) going

breaks_run : run_lines toy two_breaks going ≡ ok tt broken
unfolding run_lines exec parse_line split split_from isspace command_of either delete_of text_eq
    strtoul16 scan sign hex_prefix strtoul_value digit_value skip bp bp_running set_trap has_trap
    with_trap poke record_bp append_bp listed new_bp disasm disasm_running disasm_at code_offset
    load_code read_code print_insns show_insns intext little_endian struct_field when_running
    is_running get modify write_cout write_cerr sys sys_result ◌>>=◌ ◌>>◌ say pure
breaks_run = refl

run_lines-IsTable_example : IsTable broken.bp_list
run_lines-IsTable_example = run_lines-IsTable toy two_breaks going broken tt breaks_run

abbrev two_listed : Sdb toy.World
two_listed =
    toy_state running 7
      (record { id = 0; addr = 0x1000; orig_code = 5 }
        ∷ record { id = 1; addr = 0x1002; orig_code = 6 }
        ∷ [])
      0x1000 4991

abbrev first_deleted : Sdb toy.World
first_deleted = left_by (del toy 0 two_listed) two_listed

del_runs : del toy 0 two_listed ≡ ok tt first_deleted
unfolding del del_running del_entry find_id poke disasm disasm_running disasm_at code_offset
    load_code read_code print_insns show_insns intext little_endian struct_field when_running
    is_running get modify write_cout write_cerr sys sys_result ◌>>=◌ ◌>>◌ say pure
del_runs = refl

del-after_del_example :
    (first_deleted.bp_list ≡ erase_at 0 two_listed.bp_list) × (del toy 1 first_deleted ≡ undefined)
del-after_del_example =
    del-after_del toy 0 1 two_listed first_deleted refl (refl, (refl, tt)) refl (omega arith)
      del_runs
