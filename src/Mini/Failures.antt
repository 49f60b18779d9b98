-- ===== src/Mini/Failures.antt =====
-- What the wrappers of project3/libmini.c tell of calls that fail and of calls that do not.
use nctu_unixprog.Base.{
  ℕ, ◌-◌, ◌%◌, ◌^◌, ◌≤◌, ◌<◌, ◌≡◌, refl, ◌∙◌, String, true, false, ◌⊎◌, inl, inr, List, arith,
}
use nctu_unixprog.Run.{ok}
use nctu_unixprog.Mini.Sys.{Sys, Mini, Arg, is_negative}
use nctu_unixprog.Mini.Table.{
  SysCall, run_syscall, name_of, args_of, Width, pointer, long, int, width_of, result_of,
  run_syscall_lem,
}

-- Documented behaviour of the kernel: a call returns a number that is not negative, or the negative of an
-- error from 1 to 4095.
pub record IsKernel (sys : Sys) : Type 0 where
  pub returns :
      (w : sys.World) (name : String) (args : List Arg)
      → ((sys.call w name args).0 < 2 ^ 63)
        ⊎ ((e : ℕ) × (1 ≤ e) × (e ≤ 4095) × ((sys.call w name args).0 ≡ 2 ^ 64 - e))

-- -1, or NULL for a pointer.
abbrev pub failure_of : Width → ℕ
failure_of pointer = 0
failure_of long = 2 ^ 64 - 1
failure_of int = 2 ^ 32 - 1

-- The number itself, of which an int keeps 32 bits.
abbrev pub success_of : Width → ℕ → ℕ
success_of pointer ret = ret
success_of long ret = ret
success_of int ret = ret % 2 ^ 32

module _ (ret : ℕ) where
  not_negative : ret < 2 ^ 63 → is_negative ret ≡ false
  unfolding is_negative
  not_negative h = ground arith

  result_of-success : (k : Width) → ret < 2 ^ 63 → result_of k ret ≡ success_of k ret
  result_of-success pointer h = rw (not_negative h) refl
  result_of-success long h = rw (not_negative h) (omega arith)
  result_of-success int h = rw (not_negative h) refl

  result_of-failure : (k : Width) → is_negative ret ≡ true → result_of k ret ≡ failure_of k
  result_of-failure pointer e = rw e refl
  result_of-failure long e = rw e refl
  result_of-failure int e = rw e refl

  error_is_negative : (e : ℕ) → 1 ≤ e → e ≤ 4095 → ret ≡ 2 ^ 64 - e → is_negative ret ≡ true
  unfolding is_negative
  error_is_negative e l u h = ground arith

-- On a kernel that returns what it documents, every wrapper makes the one system call of its name with its
-- arguments, and either the kernel's number is not negative: it is the result, and errno is 0; or the call
-- failed: the result is -1, or NULL for a pointer, and errno is the error, which is not 0.
pub run_syscall-results :
    (sys : Sys) (c : SysCall) (s : Mini sys.World)
    → IsKernel sys
    → (let r : ℕ × sys.World = sys.call s.world (name_of c) (args_of c) in
        (run_syscall sys c s ≡ ok (success_of (width_of c) r.0) (record { errno = 0; world = r.1 }))
        ⊎ ((e : ℕ) × (1 ≤ e)
            × (e ≤ 4095)
            × (r.0 ≡ 2 ^ 64 - e)
            × (run_syscall sys c s
                ≡ ok (failure_of (width_of c)) (record { errno = e; world = r.1 }))))
run_syscall-results sys c s kernel =
    let r : ℕ × sys.World = sys.call s.world (name_of c) (args_of c) in
    elim (kernel.returns s.world (name_of c) (args_of c)) [
      | inl h ↦ inl (
          run_syscall_lem sys c s
          ∙ rw (result_of-success r.0 (width_of c) h) (rw (not_negative r.0 h) refl))
      | inr (e, l, u, h) ↦
          let n : is_negative r.0 ≡ true = error_is_negative r.0 e l u h in
          let m : (2 ^ 64 - r.0) % 2 ^ 64 ≡ e = omega arith in
          inr (
            e,
            l,
            u,
            h,
            run_syscall_lem sys c s ∙ rw (result_of-failure r.0 (width_of c) n) (rw n (rw m refl)),
          )
    ]
