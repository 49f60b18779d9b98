-- ===== src/Preload/Unset.antt =====
-- project2/share.cpp in a program whose environment has no LOGGER_OUT.
use mathlib.Core.Path.{fun_ext}
use nctu_unixprog.Base.{
  ℕ, ◌≡◌, refl, Bool-cases, ◌⊎◌, inl, inr, Option, none, some, List, ◌==◌, ltb, length, String,
}
use nctu_unixprog.Text.Find.{c_string}
use nctu_unixprog.Run.{ok, undefined, M, ◌>>=◌, ◌>>◌, pure, get, modify, undefined_behaviour}
use nctu_unixprog.Preload.Libc.{
  Libc, Preload, call_real, resolve, out_of, logger_out, link_name, fd2name, file2name,
}
use nctu_unixprog.Preload.Paths.{
  chmod, chown, creat64, creat, fopen, fopen64, takes_mode, mode_arg, open_by, open_file, open64,
  rename, remove, tmpfile, tmpfile64,
}
use nctu_unixprog.Preload.Streams.{close_result, close, fclose, fread, fwrite, write, read}
use nctu_unixprog.Preload.Calls.{
  Call, chmod_call, chown_call, close_call, creat64_call, creat_call, fopen_call, fopen64_call,
  fclose_call, fread_call, fwrite_call, open_call, open64_call, rename_call, write_call, read_call,
  tmpfile_call, tmpfile64_call, remove_call, run_call,
}

module _ (libc : Libc) (unset : (w : libc.World) → libc.getenv w "LOGGER_OUT" ≡ none) where
  logger_out_unset : logger_out libc ≡ undefined_behaviour
  unfolding logger_out out_of get ◌>>=◌ undefined_behaviour
  logger_out_unset = fun_ext (λ s. rw (unset s.world) refl)

  link_name_cases :
      (o : Option (List ℕ)) (s : Preload libc.World)
      → (link_name o s ≡ undefined) ⊎ ((name : List ℕ) × (link_name o s ≡ ok name s))
  unfolding link_name pure undefined_behaviour
  link_name_cases none s = inr (_, refl)
  link_name_cases (some link) s = elim (Bool-cases (ltb (length link) 1024)) [
    | inl e ↦ inr (c_string link, rw e refl)
    | inr e ↦ inl (rw e refl)
  ]

  fd2name_cases :
      (fd : ℕ) (s : Preload libc.World)
      → (fd2name libc fd s ≡ undefined) ⊎ ((name : List ℕ) × (fd2name libc fd s ≡ ok name s))
  unfolding fd2name get ◌>>=◌
  fd2name_cases fd s = link_name_cases _ s

  file2name_cases :
      (stream : ℕ) (s : Preload libc.World)
      → (file2name libc stream s ≡ undefined)
        ⊎ ((name : List ℕ) × (file2name libc stream s ≡ ok name s))
  unfolding file2name get ◌>>=◌
  file2name_cases stream s = fd2name_cases (libc.fileno s.world stream) s

  -- What follows a name.
  name_then :
      {A : Type 0} (m : M (Preload libc.World) A) (s : Preload libc.World)
      (k : A → M (Preload libc.World) ℕ)
      → (m s ≡ undefined) ⊎ ((name : A) × (m s ≡ ok name s))
      → ((name : A) → k name s ≡ undefined)
      → (m >>= k) s ≡ undefined
  unfolding ◌>>=◌
  name_then m s k (inl e) h = rw e refl
  name_then m s k (inr (name, e)) h = rw e (h name)

  mode_cases :
      (f : ℕ) (given : Option ℕ) (s : Preload libc.World)
      → (mode_arg libc f given s ≡ undefined) ⊎ ((m : ℕ) × (mode_arg libc f given s ≡ ok m s))
  unfolding mode_arg pure undefined_behaviour
  mode_cases f none s = elim (Bool-cases (takes_mode libc f)) [
    | inl e ↦ inl (rw e refl)
    | inr e ↦ inr (0, rw e refl)
  ]
  mode_cases f (some m) s = elim (Bool-cases (takes_mode libc f)) [
    | inl e ↦ inr (m, rw e refl)
    | inr e ↦ inr (0, rw e refl)
  ]

  open_by_unset :
      (func : String) (p : List ℕ) (f : ℕ) (given : Option ℕ) (s : Preload libc.World)
      → open_by libc func p f given s ≡ undefined
  unfolding open_by call_real resolve get modify pure undefined_behaviour ◌>>=◌ ◌>>◌
  open_by_unset func p f given s =
      name_then (mode_arg libc f given) s _ (mode_cases f given s) (λ m. rw logger_out_unset refl)

  close_unset : (fd : ℕ) (s : Preload libc.World) → close libc fd s ≡ undefined
  unfolding close close_result call_real pure undefined_behaviour ◌>>=◌ ◌>>◌
  close_unset fd s = name_then (fd2name libc fd) s _ (fd2name_cases fd s) (λ name.
      elim (Bool-cases (fd == 2)) [
        | inl e ↦ rw e (rw logger_out_unset refl)
        | inr e ↦ rw e (rw logger_out_unset refl)
      ])

-- Where LOGGER_OUT is not set, no call has a result: each passes NULL to atoi.
pub run_call-unset :
    (libc : Libc) (c : Call) (s : Preload libc.World)
    → ((w : libc.World) → libc.getenv w "LOGGER_OUT" ≡ none)
    → run_call libc c s ≡ undefined
unfolding chmod chown creat64 creat fopen fopen64 open_file open64 rename remove tmpfile tmpfile64
    fclose fread fwrite write read call_real resolve get modify pure undefined_behaviour ◌>>=◌ ◌>>◌
run_call-unset libc (chmod_call p m) s h = rw (logger_out_unset libc h) refl
run_call-unset libc (chown_call p o g) s h = rw (logger_out_unset libc h) refl
run_call-unset libc (creat64_call p m) s h = rw (logger_out_unset libc h) refl
run_call-unset libc (creat_call p m) s h = rw (logger_out_unset libc h) refl
run_call-unset libc (fopen_call p m) s h = rw (logger_out_unset libc h) refl
run_call-unset libc (fopen64_call p m) s h = rw (logger_out_unset libc h) refl
run_call-unset libc (rename_call p q) s h = rw (logger_out_unset libc h) refl
run_call-unset libc tmpfile_call s h = rw (logger_out_unset libc h) refl
run_call-unset libc tmpfile64_call s h = rw (logger_out_unset libc h) refl
run_call-unset libc (remove_call p) s h = rw (logger_out_unset libc h) refl
run_call-unset libc (open_call p f m) s h = open_by_unset libc h "open" p f m s
run_call-unset libc (open64_call p f m) s h = open_by_unset libc h "open64" p f m s
run_call-unset libc (close_call fd) s h = close_unset libc h fd s
run_call-unset libc (fclose_call f) s h =
    name_then libc h (file2name libc f) s _ (file2name_cases libc h f s)
      (λ name. rw (logger_out_unset libc h) refl)
run_call-unset libc (fread_call p n k f) s h =
    name_then libc h (file2name libc f) _ _ (file2name_cases libc h f _)
      (λ name. rw (logger_out_unset libc h) refl)
run_call-unset libc (fwrite_call b n k f) s h =
    name_then libc h (file2name libc f) _ _ (file2name_cases libc h f _)
      (λ name. rw (logger_out_unset libc h) refl)
run_call-unset libc (write_call fd b n) s h =
    name_then libc h (fd2name libc fd) _ _ (fd2name_cases libc h fd _)
      (λ name. rw (logger_out_unset libc h) refl)
run_call-unset libc (read_call fd b n) s h =
    name_then libc h (fd2name libc fd) _ _ (fd2name_cases libc h fd _)
      (λ name. rw (logger_out_unset libc h) refl)
