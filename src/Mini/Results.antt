-- ===== src/Mini/Results.antt =====
-- The results of the wrappers of project3/libmini.c.
use nctu_unixprog.Base.{ℕ, ◌-◌, ◌%◌, ◌^◌, ◌≡◌, refl, Bool-cases, inl, inr, if◌then◌else◌}
use nctu_unixprog.Run.{ok, ◌>>◌, pure, modify}
use nctu_unixprog.Mini.Sys.{Mini, is_negative, set_errno, wrapper_retval, wrapper_retptr}

-- The result in a type of so many bits, and errno, for what the kernel returned.
abbrev pub value_of : ℕ → ℕ → ℕ
value_of bits ret = if is_negative ret then 2 ^ bits - 1 else ret % 2 ^ bits

abbrev pub pointer_of : ℕ → ℕ
pointer_of ret = if is_negative ret then 0 else ret

abbrev pub errno_of : ℕ → ℕ
errno_of ret = if is_negative ret then (2 ^ 64 - ret) % 2 ^ 64 else 0

module _ {W : Type 0} where
  pub wrapper_retval_lem :
      (bits ret : ℕ) (s : Mini W)
      → wrapper_retval bits ret s ≡ ok (value_of bits ret) (record s { errno = errno_of ret })
  unfolding wrapper_retval set_errno modify pure ◌>>◌
  wrapper_retval_lem bits ret s = elim (Bool-cases (is_negative ret)) [
    | inl e ↦ rw e refl
    | inr e ↦ rw e refl
  ]

  pub wrapper_retptr_lem :
      (ret : ℕ) (s : Mini W)
      → wrapper_retptr ret s ≡ ok (pointer_of ret) (record s { errno = errno_of ret })
  unfolding wrapper_retptr set_errno modify pure ◌>>◌
  wrapper_retptr_lem ret s = elim (Bool-cases (is_negative ret)) [
    | inl e ↦ rw e refl
    | inr e ↦ rw e refl
  ]
