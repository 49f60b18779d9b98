-- ===== src/Traps.antt =====
-- CTF/ptrace/no_more_traps/test.cpp: runs a program whose traps stand for code, and puts the bytes from
-- a file of hexadecimal digits in their place. The children are about the byte that is read (Digits)
-- and the word that is written (Patching).
pub mod Digits
pub mod Patching
use Prim.Native.Nat.{bit_and, bit_or}
use nctu_unixprog.Base.{
  ℕ, zero, suc, ◌+◌, ◌-◌, ◌*◌, ◌%◌, ◌^◌, Bool, Option, none, some, List, [], ◌∷◌, ◌&&◌, ◌==◌, ltb,
  if◌then◌else◌, codes,
}
use nctu_unixprog.Debugger.Os.{Os, Regs}
use nctu_unixprog.Debugger.Control.{before, wifstopped}

-- `fgetc`, with EOF as the unsigned long that -1 becomes.
unfoldable pub fgetc : List ℕ → ℕ × List ℕ
fgetc [] = (2 ^ 64 - 1, [])
fgetc (c ∷ cs) = (c, cs)

unfoldable pub to_hex : ℕ → ℕ
to_hex num =
    if ltb num 58 && ltb 47 num
    then num - 48
    else if ltb num 103 && ltb 96 num
    then num - 87
    else num

-- `c1<<4 | c2` of the next two characters, and what is left.
unfoldable pub next_hex : List ℕ → ℕ × List ℕ
unfolding fgetc
next_hex input =
    let (c1, rest) = fgetc input in
    let (c2, end) = fgetc rest in (bit_or (to_hex c1 * 16 % 2 ^ 64) (to_hex c2), end)

-- The loop's variables: the rest of the file, and the count of traps.
pub record Patcher (W : Type 0) : Type 0 where
  pub world : W
  pub input : List ℕ
  pub traps : ℕ

infixl 5 ◌>>=◌
-- What follows a call that `errquit` guards.
unfoldable pub ◌>>=◌ : {A B : Type 0} → Option A → (A → Option B) → Option B
none >>= f = none
some a >>= f = f a

module _ (os : Os) (child : ℕ) where
  -- A trap at rip, which points at it already: patched, and the registers stored.
  unfoldable pub patch : Regs → Patcher os.World → Option (Patcher os.World)
  patch regs s =
      let code = os.peektext s.world child regs.rip in
      let (hex, rest) = next_hex s.input in
      os.poketext s.world child regs.rip (bit_or (bit_and code 0xffff_ffff_ffff_ff00) hex) >>= λ w.
      os.setregs w child regs >>= λ v.
      some (record { world = v; input = rest; traps = s.traps + 1 })

  unfoldable pub on_regs : Regs → Patcher os.World → Option (Patcher os.World)
  on_regs regs s = if os.peektext s.world child regs.rip % 256 == 0xcc then patch regs s else some s

  -- `ptrace(PTRACE_CONT, child, 0, 0)`, whose result is not tested.
  unfoldable pub resumed : Patcher os.World → Patcher os.World
  resumed s = elim (os.resume s.world child) [ none ↦ s | some w ↦ record s { world = w } ]

  -- A round of the loop for a child that has stopped.
  unfoldable pub on_stop : Patcher os.World → Option (Patcher os.World)
  unfolding on_regs resumed
  on_stop s = os.getregs s.world child >>= λ regs.
      on_regs (record regs { rip = before regs.rip }) s >>= λ t. some (resumed t)

  -- What a status makes of the round: only a stop is looked at.
  unfoldable pub on_status : ℕ → Patcher os.World → Option (Patcher os.World)
  unfolding on_stop
  on_status status s = if wifstopped status then on_stop s else some s

  -- The loop `while(waitpid(child, &wait_status, 0)>0)`, for at most so many rounds. It ends when there
  -- is no child to wait for.
  unfoldable pub rounds : ℕ → Patcher os.World → Option (Patcher os.World)
  unfolding on_status
  rounds zero s = some s
  rounds (suc n) s = elim (os.waitpid s.world child) [
    | none ↦ some s
    | some (status, w) ↦ on_status status (record s { world = w }) >>= rounds n
  ]
