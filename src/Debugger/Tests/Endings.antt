-- ===== src/Debugger/Tests/Endings.antt =====
-- Runs that end the process.
use nctu_unixprog.Base.{ℕ, zero, ◌≡◌, refl, ◌⊎◌, Option, none, List, [], ◌∷◌, codes, text_eq}
use nctu_unixprog.Text.Token.{split, split_from, isspace}
use nctu_unixprog.Debugger.State.{
  running, Sdb, ok, exited, ◌>>=◌, ◌>>◌, pure, get, modify, exit, say, write_cout,
}
use nctu_unixprog.Debugger.Control.{quit, kill_child}
use nctu_unixprog.Debugger.Command.{
  command_of, either, delete_of, parse_line, exec, run_lines, main, main_loop, read_args,
}
use nctu_unixprog.Debugger.Endings.Quits.{main-exits, MainQuitsAt}
use nctu_unixprog.Debugger.Tests.{toy, toy_state, left_by}

abbrev with_child : Sdb toy.World
with_child = toy_state running 7 [] 0x1000 4991

abbrev typed_exit : List (List ℕ)
typed_exit = codes "q" ∷ []

abbrev exited_state : Sdb toy.World
exited_state = left_by (main toy [] typed_exit with_child) with_child

main_quits : main toy [] typed_exit with_child ≡ exited 0 exited_state
unfolding main main_loop read_args run_lines exec parse_line split split_from isspace command_of
    either delete_of text_eq quit kill_child exit get modify write_cout ◌>>=◌ ◌>>◌ say pure
main_quits = refl

main-exits_example :
    (zero ≡ 255)
    ⊎ ((o : Option (List (List ℕ))) × (u : Sdb toy.World) × (read_args toy [] none with_child
          ≡ ok o u)
        × (zero ≡ 0)
        × MainQuitsAt toy typed_exit o u exited_state)
main-exits_example = main-exits toy [] typed_exit with_child exited_state 0 main_quits
