-- ===== src/Debugger/Memory.antt =====
-- `dump` and `vmmap`: what they print of the child's memory.
use nctu_unixprog.Base.{
  ℕ, zero, suc, ◌+◌, ◌/◌, ◌%◌, ◌^◌, true, false, not, Option, none, some, List, [], ◌∷◌, ◌++◌, ◌==◌,
  if◌then◌else◌, codes,
}
use nctu_unixprog.Stream.{
  Ostream, dec, hex, put, put_text, put_number, set_radix, set_left, set_fill, show_number,
}
use nctu_unixprog.Text.Token.{isprint, strtok, lines}
use nctu_unixprog.Debugger.Os.{Os}
use nctu_unixprog.Debugger.State.{
  M, ◌>>=◌, ◌>>◌, pure, get, write_cerr, say, error, when_running, undefined_behaviour,
}
use nctu_unixprog.Debugger.Elf.{intext}

abbrev pub dump_max : ℕ
dump_max = 5

-- The bytes of a word, lowest first.
unfoldable pub word_bytes : ℕ → ℕ → List ℕ
word_bytes zero word = []
word_bytes (suc n) word = word % 256 ∷ word_bytes n (word / 256)

show_bytes : List ℕ → Ostream → Ostream
show_bytes [] o = o
show_bytes (b ∷ bs) o = show_bytes bs (put 0 " " (put_number 2 b (set_fill b'0' (set_radix hex o))))

unfoldable pub print8bytes : ℕ → Ostream → Ostream
unfolding show_bytes
print8bytes word o = set_fill b' ' (show_bytes (word_bytes 8 word) o)

unfoldable pub ascii : List ℕ → List ℕ
ascii [] = []
ascii (b ∷ bs) = (if isprint b then b else b'.') ∷ ascii bs

unfoldable pub print8ascii : ℕ → Ostream → Ostream
print8ascii word o = put_text 0 (ascii (word_bytes 8 word)) o

-- One line: the address, sixteen bytes in hexadecimal and as text.
unfoldable pub dump_line : ℕ → ℕ → ℕ → Ostream → Ostream
dump_line addr code1 code2 o = put 0 "|\n" (
    print8ascii code2 (
      print8ascii code1 (
        put 0 "|" (
          print8bytes code2 (
            print8bytes code1 (
              put 0 ": "
                (put_number 12 addr (set_left false (set_fill b' ' (set_radix hex o))))))))))

-- One token of a line of /proc/pid/maps, written if there is one; a NULL is followed by NULLs.
unfoldable pub next_token :
    List ℕ → (List ℕ → Ostream → Ostream) → Option (List ℕ) × Ostream → Option (List ℕ) × Ostream
next_token delims show (none, o) = (none, o)
next_token delims show (some rest, o) = elim (strtok delims rest) [
  | none ↦ (none, o)
  | some (token, rest') ↦ (some rest', show token o)
]

unfoldable pub show_map : List ℕ → Ostream → Ostream
show_map line o =
    (next_token (codes " ") (λ t p. put_text 0 t p)
      (next_token (codes " ") (λ t p. put_text 0 t (set_left true p))
        (next_token (codes " ") (λ t p. p)
          (next_token (codes " ") (λ t p. p)
            (next_token (codes " p") (λ t p. put 0 " " (put_text 0 t (set_fill b' ' p)))
              (next_token (codes " ")
                (λ t p. put 0 " " (put_text 16 t (set_left false (set_fill b'0' p))))
                (next_token (codes "-")
                  (λ t p. put 0 "-" (put_text 16 t (set_left false (set_fill b'0' p))))
                  (some line, o)))))))).1

unfoldable pub show_maps : List (List ℕ) → Ostream → Ostream
show_maps [] o = o
show_maps (line ∷ rest) o = show_maps rest (show_map line o)

module _ (os : Os) where
  unfoldable pub dump_lines : ℕ → ℕ → M os.World (Unit {0})
  dump_lines zero addr = pure tt
  dump_lines (suc n) addr = do
    s ← get
    let word = os.peektext s.world s.pid
    write_cerr (dump_line addr (word addr) (word ((addr + 8) % 2 ^ 64)))
    dump_lines n ((addr + 16) % 2 ^ 64)

  unfoldable pub dump_running : ℕ → M os.World (Unit {0})
  dump_running dump_addr = do
    s ← get
    if dump_addr == 0
        then say "**   No addr is given!\n"
        else if not (intext s.elf dump_addr)
        then say "**   Addr out of text region!\n"
        else dump_lines dump_max dump_addr

  unfoldable pub dump : ℕ → M os.World (Unit {0})
  unfolding dump_running
  dump dump_addr = when_running "**   State should be RUNNING!\n" (dump_running dump_addr)

  unfoldable pub maps_path : ℕ → List ℕ
  maps_path pid = codes "/proc/" ++ (show_number dec pid ++ codes "/maps")

  -- `getline` with a pointer that is not NULL would write where it points.
  unfoldable pub print_maps : Option (List ℕ) → M os.World (Unit {0})
  print_maps none = error os "fopen"
  print_maps (some bytes) = do
    s ← get
    if os.line_is_null s.world then write_cerr (show_maps (lines bytes)) else undefined_behaviour

  unfoldable pub vmmap : M os.World (Unit {0})
  unfolding print_maps maps_path show_maps
  vmmap =
      when_running "**   State should be RUNNING!\n"
        (do s ← get; print_maps (os.read_file s.world (maps_path s.pid)))
