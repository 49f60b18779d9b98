-- ===== src/Launcher/Host.antt =====
-- What project2/logger.cpp asks of the system, and its state.
use nctu_unixprog.Base.{ℕ, suc, Bool, Option, List, ◌++◌, leb, length, if◌then◌else◌}
use nctu_unixprog.Run.{M, pure, modify, undefined_behaviour}

pub record Host : Type 1 where
  pub World : Type 0
  -- libc's `open` with O_RDWR|O_CREAT|O_TRUNC: the descriptor, an int kept as its 32 bits.
  pub o_open : World → List ℕ → ℕ × World
  -- Whether `execvp` replaces the program.
  pub execvp : World → List ℕ → List (Option (List ℕ)) → Bool
  -- How many bytes may be used behind the pointer that `malloc` of a size gives.
  pub usable : ℕ → ℕ

-- The two variables of the environment that are set, what was printed, and the world.
pub record Launcher (W : Type 0) : Type 0 where
  pub ld_preload : List ℕ
  pub logger_out : List ℕ
  pub stdout : List ℕ
  pub world : W

-- `malloc(strlen(text))` and `strcpy`, which writes the NUL as well.
unfoldable pub copy_string : (host : Host) → List ℕ → M (Launcher host.World) (Unit {0})
copy_string host t =
    if leb (suc (length t)) (host.usable (length t)) then pure tt else undefined_behaviour

unfoldable pub printf : {W : Type 0} → List ℕ → M (Launcher W) (Unit {0})
printf t = modify (λ s. record s { stdout = s.stdout ++ t })
