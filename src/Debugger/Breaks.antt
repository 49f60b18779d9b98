-- ===== src/Debugger/Breaks.antt =====
-- The table of break points: `bp`, `del`, `list` and `chkbp`.
use Prim.Native.Nat.{bit_and, bit_or}
use nctu_unixprog.Base.{
  ℕ, String, ◌%◌, ◌^◌, Bool, false, Option, none, some, List, [], ◌∷◌, ◌++◌, ◌||◌, ◌==◌, ltb,
  if◌then◌else◌, length, get_elem?, erase_at,
}
use nctu_unixprog.Stream.{Ostream, hex, put, put_number, set_radix}
use nctu_unixprog.Debugger.Os.{Os}
use nctu_unixprog.Debugger.State.{
  M, Bp, ◌>>=◌, ◌>>◌, pure, get, modify, undefined_behaviour, write_cerr, say, sys, when_running,
}
use nctu_unixprog.Debugger.Disasm.{disasm}
use nctu_unixprog.Debugger.Regs.{fetch_regs}

-- Whether an address is in the table.
unfoldable pub listed : ℕ → List Bp → Bool
listed a [] = false
listed a (b ∷ bs) = b.addr == a || listed a bs

-- The id is the int that `size()` becomes.
unfoldable pub new_bp : List Bp → ℕ → ℕ → Bp
new_bp table addr code = record { id = length table % 2 ^ 32; addr = addr; orig_code = code }

-- The index of the first entry with this id.
unfoldable pub find_id : ℕ → List Bp → Bool
find_id id [] = false
find_id id (b ∷ bs) = b.id == id || find_id id bs

-- One line for each entry. From the first address on cerr is in hexadecimal, ids included.
unfoldable pub show_table : List Bp → Ostream → Ostream
show_table [] o = o
show_table (b ∷ bs) o = show_table bs (
    put 0 "\n"
      (put_number 0 b.addr (set_radix hex (put 0 ":\t" (put_number 0 b.id (put 0 "\t" o))))))

-- `(code & 0xff) == 0xcc`, and the word with a trap in its lowest byte.
unfoldable pub has_trap : ℕ → Bool
has_trap code = bit_and code 0xff == 0xcc

unfoldable pub with_trap : ℕ → ℕ
with_trap code = bit_or (bit_and code 0xffff_ffff_ffff_ff00) 0xcc

module _ (os : Os) where
  -- `ptrace(PTRACE_POKETEXT, pid, addr, word)`
  unfoldable pub poke : String → ℕ → ℕ → M os.World (Unit {0})
  poke func addr word = do s ← get; sys os func (λ w. os.poketext w s.pid addr word)

  unfoldable pub append_bp : ℕ → ℕ → M os.World (Unit {0})
  append_bp addr code = do
    modify (λ t. record t { bp_list = t.bp_list ++ (new_bp t.bp_list addr code ∷ []) })
    say "**   set bp @ "
    disasm os addr 1

  -- The end of `bp`: the entry is new unless the address is listed.
  unfoldable pub record_bp : ℕ → ℕ → M os.World (Unit {0})
  unfolding append_bp
  record_bp addr code = do s ← get; if listed addr s.bp_list then pure tt else append_bp addr code

  -- Sets the trap, unless it is there already.
  unfoldable pub set_trap : ℕ → ℕ → M os.World (Unit {0})
  set_trap addr code =
      if has_trap code
      then pure tt
      else do poke "ptrace(POKETEXT)" addr (with_trap code); record_bp addr code

  unfoldable pub bp_running : ℕ → M os.World (Unit {0})
  unfolding set_trap
  bp_running addr = do
    s ← get
    if addr == 0
        then say "**   No addr is given!\n"
        else set_trap addr (os.peektext s.world s.pid addr)

  unfoldable pub bp : ℕ → M os.World (Unit {0})
  unfolding bp_running
  bp addr = when_running "**   The state should be RUNNING!\n" (bp_running addr)

  -- The loop finds an entry by its id, and what follows uses the id as an index.
  unfoldable pub del_entry : ℕ → Option Bp → M os.World (Unit {0})
  del_entry id none = undefined_behaviour
  del_entry id (some b) = do
    disasm os b.addr 1
    poke "ptrace(PTRACE_POKETEXT)" b.addr b.orig_code
    modify (λ t. record t { bp_list = erase_at id t.bp_list })

  unfoldable pub del_running : ℕ → M os.World (Unit {0})
  unfolding del_entry
  del_running id = do
    s ← get
    if find_id id s.bp_list
        then (do say "**   del bp @ "; del_entry id (get_elem? s.bp_list id))
        else say "**   bp id is not found!\n"

  unfoldable pub del : ℕ → M os.World (Unit {0})
  unfolding del_running
  del id = when_running "**   The state should be RUNNING!\n" (del_running id)

  unfoldable pub list_bps : M os.World (Unit {0})
  list_bps = do s ← get; write_cerr (show_table s.bp_list)

  -- The loop of `chkbp`. It runs over the table as it was, since `bp` adds no listed address.
  unfoldable pub rearm : ℕ → List Bp → M os.World (Unit {0})
  rearm rip [] = pure tt
  rearm rip (b ∷ bs) = do if ltb rip b.addr then bp b.addr else pure tt; rearm rip bs

  unfoldable pub chkbp : M os.World (Unit {0})
  chkbp = do regs ← fetch_regs os; s ← get; rearm regs.rip s.bp_list
