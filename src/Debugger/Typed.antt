-- ===== src/Debugger/Typed.antt =====
-- Command lines of project4/hw4.cpp as they are typed, with addresses as the debugger prints them.
use nctu_unixprog.Base.{
  arith, ℕ, ◌<◌, ◌^◌, ◌≡◌, refl, sym, subst, ap, ◌∙◌, false, List, [], ◌∷◌, codes, All, text_eq,
  get_or,
}
use nctu_unixprog.Stream.{hex, show_number, digit_char}
use nctu_unixprog.Text.Token.{isspace}
use nctu_unixprog.Text.Number.{strtoul16}
use nctu_unixprog.Text.Digits.{
  IsDigit, show_digits-IsDigit, show_number_hex, strtoul16-show_number, show_digits-nonempty,
}
use nctu_unixprog.Text.Words.{IsWord, unwords, split-unwords}
use nctu_unixprog.Debugger.Command.{
  break_cmd, disasm_cmd, dump_cmd, set_cmd, parse_line, command_of, either,
}

digits-IsSpaceless : (xs : List ℕ) → All IsDigit xs → All (λ x. isspace x ≡ false) xs
unfolding isspace digit_char
digits-IsSpaceless [] h = tt
digits-IsSpaceless (x ∷ xs) ((d, b, q), h) = (rw q (ground arith), digits-IsSpaceless xs h)

number-IsWord : (n : ℕ) → IsWord (show_number hex n)
number-IsWord n =
    let (c, cs, e) = show_digits-nonempty 63 n in
    subst IsWord (sym (show_number_hex n ∙ e))
      (subst (All (λ x. isspace x ≡ false)) e (digits-IsSpaceless _ (show_digits-IsDigit 64 n)))

parse_line-unwords :
    (ws : List (List ℕ))
    → All IsWord ws
    → parse_line (unwords ws) ≡ command_of (get_or ws 0 []) (get_or ws 1 []) (get_or ws 2 [])
unfolding parse_line
parse_line-unwords ws h =
    ap (λ t. command_of (get_or t 0 []) (get_or t 1 []) (get_or t 2 [])) (split-unwords ws h)

-- A number of 64 bits in the hexadecimal digits that the debugger prints can be typed back: `break`,
-- `disasm` and `dump` in their long and short forms take it for the address, and `set` for the value of
-- the name that was typed, a word without spaces.
pub parse_line-hex :
    (a : ℕ) (name : List ℕ)
    → a < 2 ^ 64
    → IsWord name
    → (parse_line (unwords (codes "break" ∷ show_number hex a ∷ [])) ≡ break_cmd a)
      × (parse_line (unwords (codes "b" ∷ show_number hex a ∷ [])) ≡ break_cmd a)
      × (parse_line (unwords (codes "disasm" ∷ show_number hex a ∷ [])) ≡ disasm_cmd a)
      × (parse_line (unwords (codes "d" ∷ show_number hex a ∷ [])) ≡ disasm_cmd a)
      × (parse_line (unwords (codes "dump" ∷ show_number hex a ∷ [])) ≡ dump_cmd a)
      × (parse_line (unwords (codes "x" ∷ show_number hex a ∷ [])) ≡ dump_cmd a)
      × (parse_line (unwords (codes "set" ∷ name ∷ show_number hex a ∷ [])) ≡ set_cmd name a)
      × (parse_line (unwords (codes "s" ∷ name ∷ show_number hex a ∷ [])) ≡ set_cmd name a)
unfolding command_of either text_eq isspace
parse_line-hex a name l n = (
  one (codes "break") (refl, (refl, (refl, (refl, (refl, tt))))) ∙ ap break_cmd back,
  one (codes "b") (refl, tt) ∙ ap break_cmd back,
  one (codes "disasm") (refl, (refl, (refl, (refl, (refl, (refl, tt)))))) ∙ ap disasm_cmd back,
  one (codes "d") (refl, tt) ∙ ap disasm_cmd back,
  one (codes "dump") (refl, (refl, (refl, (refl, tt)))) ∙ ap dump_cmd back,
  one (codes "x") (refl, tt) ∙ ap dump_cmd back,
  two (codes "set") (refl, (refl, (refl, tt))) ∙ ap (set_cmd name) back,
  two (codes "s") (refl, tt) ∙ ap (set_cmd name) back,
)
  where
    back : strtoul16 (show_number hex a) ≡ a
    back = strtoul16-show_number a l

    one :
        (cmd : List ℕ)
        → IsWord cmd
        → parse_line (unwords (cmd ∷ show_number hex a ∷ []))
          ≡ command_of cmd (show_number hex a) []
    one cmd h = parse_line-unwords (cmd ∷ show_number hex a ∷ []) (h, (number-IsWord a, tt))

    two :
        (cmd : List ℕ)
        → IsWord cmd
        → parse_line (unwords (cmd ∷ name ∷ show_number hex a ∷ []))
          ≡ command_of cmd name (show_number hex a)
    two cmd h =
        parse_line-unwords (cmd ∷ name ∷ show_number hex a ∷ []) (h, (n, (number-IsWord a, tt)))
