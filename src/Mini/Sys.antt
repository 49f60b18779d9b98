-- ===== src/Mini/Sys.antt =====
-- The kernel under project3/libmini.c, and its state: errno and the world. A long is kept as its 64 bits.
use nctu_unixprog.Base.{ℕ, ◌-◌, ◌%◌, ◌^◌, String, Bool, List, leb, if◌then◌else◌}
use nctu_unixprog.Run.{Outcome, ok, M, ◌>>◌, pure, modify}

-- An argument: a number or a pointer, or the bytes at a pointer.
pub data Arg : Type 0 where
  number : ℕ → Arg
  string : List ℕ → Arg

pub record Sigaction : Type 0 where
  pub handler : ℕ
  pub flags : ℕ
  pub restorer : ℕ
  pub mask : ℕ

pub record Sys : Type 1 where
  pub World : Type 0
  -- The system call of that name: what it returns, and the world after it.
  pub call : World → String → List Arg → ℕ × World
  -- `sys_rt_sigaction`: what it returns, and the action that was there.
  pub rt_sigaction : World → ℕ → Sigaction → ℕ → ℕ × Sigaction × World
  -- The address of `__myrt`.
  pub myrt : ℕ
  -- What the mask of the variable `act` of `signal` holds, which is not initialised.
  pub act_mask : ℕ

pub record Mini (W : Type 0) : Type 0 where
  pub errno : ℕ
  pub world : W

-- `ret < 0`
unfoldable pub is_negative : ℕ → Bool
is_negative ret = leb (2 ^ 63) ret

module _ {W : Type 0} where
  unfoldable pub set_errno : ℕ → M (Mini W) (Unit {0})
  set_errno e = modify (λ s. record s { errno = e })

  -- WRAPPER_RETval for a type of so many bits.
  unfoldable pub wrapper_retval : ℕ → ℕ → M (Mini W) ℕ
  wrapper_retval bits ret =
      set_errno 0
      >> (if is_negative ret
          then (set_errno ((2 ^ 64 - ret) % 2 ^ 64) >> pure (2 ^ bits - 1))
          else pure (ret % 2 ^ bits))

  -- WRAPPER_RETptr
  unfoldable pub wrapper_retptr : ℕ → M (Mini W) ℕ
  wrapper_retptr ret =
      set_errno 0
      >> (if is_negative ret then (set_errno ((2 ^ 64 - ret) % 2 ^ 64) >> pure 0) else pure ret)

  unfoldable pub returned : Mini W → ℕ × W → Outcome (Mini W) ℕ
  returned s (ret, w) = ok ret (record s { world = w })

unfoldable pub syscall : (sys : Sys) → String → List Arg → M (Mini sys.World) ℕ
syscall sys name args s = returned s (sys.call s.world name args)
