-- ===== src/Debugger/Tests/Typing.antt =====
-- Command lines as a user types them.
use nctu_unixprog.Base.{arith, ℕ, ◌≡◌, refl, [], ◌∷◌, codes}
use nctu_unixprog.Stream.{hex, show_number}
use nctu_unixprog.Text.Token.{split, isspace}
use nctu_unixprog.Text.Words.{unwords, split-unwords}
use nctu_unixprog.Debugger.Command.{break_cmd, disasm_cmd, dump_cmd, set_cmd, parse_line}
use nctu_unixprog.Debugger.Typed.{parse_line-hex}

split-unwords_example : split (unwords (codes "b" ∷ codes "10" ∷ [])) ≡ codes "b" ∷ codes "10" ∷ []
unfolding isspace
split-unwords_example =
    split-unwords (codes "b" ∷ codes "10" ∷ []) ((refl, tt), ((refl, (refl, tt)), tt))

abbrev entry_point : ℕ
entry_point = 0x4000b0

parse_line-hex_example :
    (parse_line (unwords (codes "break" ∷ show_number hex entry_point ∷ []))
      ≡ break_cmd entry_point)
    × (parse_line (unwords (codes "b" ∷ show_number hex entry_point ∷ [])) ≡ break_cmd entry_point)
    × (parse_line (unwords (codes "disasm" ∷ show_number hex entry_point ∷ []))
        ≡ disasm_cmd entry_point)
    × (parse_line (unwords (codes "d" ∷ show_number hex entry_point ∷ [])) ≡ disasm_cmd entry_point)
    × (parse_line (unwords (codes "dump" ∷ show_number hex entry_point ∷ []))
        ≡ dump_cmd entry_point)
    × (parse_line (unwords (codes "x" ∷ show_number hex entry_point ∷ [])) ≡ dump_cmd entry_point)
    × (parse_line (unwords (codes "set" ∷ codes "rip" ∷ show_number hex entry_point ∷ []))
        ≡ set_cmd (codes "rip") entry_point)
    × (parse_line (unwords (codes "s" ∷ codes "rip" ∷ show_number hex entry_point ∷ []))
        ≡ set_cmd (codes "rip") entry_point)
unfolding isspace
parse_line-hex_example =
    parse_line-hex entry_point (codes "rip") (omega arith) (refl, (refl, (refl, tt)))
