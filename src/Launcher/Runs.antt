-- ===== src/Launcher/Runs.antt =====
-- Which command project2/logger.cpp executes, and with which environment.
use nctu_unixprog.Base.{
  ℕ, suc, ◌+◌, ◌<◌, Bool, Bool-cases, inl, inr, ◌&&◌, ◌≡◌, refl, ap, ◌∙◌, true, Option, none, some,
  List, [], ◌∷◌, ◌++◌, map, leb, ltb, length, length-append, if◌then◌else◌, codes, text_eq, arith,
}
use mathlib.Core.List.{append_assoc}
use nctu_unixprog.Stream.{show_int}
use nctu_unixprog.Run.{after, ok, undefined, undefined_behaviour, ◌>>=◌, ◌>>◌, pure, get, modify}
use nctu_unixprog.Launcher.Host.{Host, Launcher, copy_string}
use nctu_unixprog.Launcher.Command.{
  Ending, returned, executed, kind_of, set_logger_out, store_arg, set_output, set_sopath,
  store_args, exec_with, exec_command, read_argv, set_defaults, main,
}

-- -o with a file, or -p with a path.
pub data Setting : Type 0 where
  to_file through : List ℕ → Setting

abbrev pub arguments : List Setting → List (List ℕ)
arguments [] = []
arguments (to_file t ∷ ss) = codes "-o" ∷ t ∷ arguments ss
arguments (through t ∷ ss) = codes "-p" ∷ t ∷ arguments ss

module _ (host : Host) where
  -- What a setting leaves, where nothing overflows.
  abbrev pub set_one : Setting → Launcher host.World → Launcher host.World
  set_one (to_file t) s = record s {
    logger_out = show_int ((host.o_open s.world t).0);
    world = (host.o_open s.world t).1;
  }
  set_one (through t) s = record s { ld_preload = t }

  abbrev pub set_all : List Setting → Launcher host.World → Launcher host.World
  set_all [] s = s
  set_all (x ∷ ss) s = set_all ss (set_one x s)

  -- Whether the memory that `malloc(strlen(t))` gives holds the NUL as well.
  abbrev pub has_room : List ℕ → Bool
  has_room t = leb (suc (length t)) (host.usable (length t))

  abbrev pub all_fit : List (List ℕ) → Bool
  all_fit [] = true
  all_fit (t ∷ ts) = has_room t && all_fit ts

  abbrev pub settings_fit : List Setting → Bool
  settings_fit [] = true
  settings_fit (to_file t ∷ ss) = has_room t && settings_fit ss
  settings_fit (through t ∷ ss) = has_room t && settings_fit ss

  -- Descriptors are small enough for `buf`.
  pub record HasSmallDescriptors : Type 0 where
    pub small :
        (w : host.World) (t : List ℕ) → ltb (length (show_int ((host.o_open w t).0))) 10 ≡ true

  abbrev pub defaults : Launcher host.World → Launcher host.World
  defaults s = record s { ld_preload = codes "./logger.so"; logger_out = codes "2" }

  read_argv-arguments :
      HasSmallDescriptors
      → (ss : List Setting) (rest : List (List ℕ)) (s : Launcher host.World)
      → read_argv host (arguments ss ++ rest) s
        ≡ (if settings_fit ss then read_argv host rest (set_all ss s) else undefined)
  unfolding read_argv kind_of text_eq set_output set_sopath set_logger_out copy_string get modify
      pure undefined_behaviour ◌>>=◌ ◌>>◌
  read_argv-arguments small [] rest s = refl
  read_argv-arguments small (to_file t ∷ ss) rest s = elim (Bool-cases (has_room t)) [
    | inl r ↦
        rw r
          (rw (small.small s.world t) (read_argv-arguments small ss rest (set_one (to_file t) s)))
    | inr r ↦ rw r refl
  ]
  read_argv-arguments small (through t ∷ ss) rest s = elim (Bool-cases (has_room t)) [
    | inl r ↦ rw r (read_argv-arguments small ss rest (set_one (through t) s))
    | inr r ↦ rw r refl
  ]

  -- The array has a place for the command, for every argument and for the NULL.
  store_args_lem :
      (size : ℕ) (filled : List (Option (List ℕ))) (args : List (List ℕ)) (s : Launcher host.World)
      → length filled + length args < size
      → store_args host size filled args s
        ≡ (if all_fit args then ok (filled ++ (map some args ++ (none ∷ []))) s else undefined)
  unfolding store_args store_arg copy_string pure undefined_behaviour ◌>>=◌ ◌>>◌
  store_args_lem size filled [] s h =
      let e : ltb (length filled) size ≡ true = ground arith in rw e refl
  store_args_lem size filled (a ∷ args) s h =
      let e : ltb (length filled) size ≡ true = ground arith in
      elim (Bool-cases (has_room a)) [
        | inl r ↦ rw r (
            rw e (
              store_args_lem size (filled ++ (some a ∷ [])) args s
                (omega (arith, length-append filled (some a ∷ [])))
              ∙ ap (λ t. if all_fit args then ok t s else undefined)
                  (append_assoc filled (some a ∷ []) (map some args ++ (none ∷ [])))))
        | inr r ↦ rw r refl
      ]

  abbrev pub arg_table : List ℕ → List (List ℕ) → List (Option (List ℕ))
  arg_table cmd args = some cmd ∷ (map some args ++ (none ∷ []))

  -- What `execvp` makes of the command.
  abbrev pub ending : List ℕ → List (List ℕ) → Launcher host.World → Ending
  ending cmd args s =
      if host.execvp s.world cmd (arg_table cmd args)
      then executed cmd (arg_table cmd args)
      else returned

  exec_command_lem :
      (cmd : List ℕ) (args : List (List ℕ)) (s : Launcher host.World)
      → exec_command host cmd args s
        ≡ (if all_fit (cmd ∷ args) then ok (ending cmd args s) s else undefined)
  unfolding exec_command store_arg exec_with copy_string get pure undefined_behaviour ◌>>=◌ ◌>>◌
  exec_command_lem cmd args s =
      let e : ltb 0 (2 + length args) ≡ true = ground arith in
      elim (Bool-cases (has_room cmd)) [
        | inr r ↦ rw r refl
        | inl r ↦ rw r (
            rw e (
              ap (λ o. after o (λ table. exec_with host cmd table))
                (store_args_lem (2 + length args) (some cmd ∷ []) args s (omega arith))
              ∙ elim (Bool-cases (all_fit args)) [ inl f ↦ rw f refl | inr f ↦ rw f refl ]))
      ]

main_lem :
    (host : Host) (ss : List Setting) (a : List ℕ) (rest : List (List ℕ)) (s : Launcher host.World)
    → main host (arguments ss ++ (a ∷ rest)) s
      ≡ read_argv host (arguments ss ++ (a ∷ rest)) (defaults host s)
unfolding main set_defaults modify ◌>>◌
main_lem host [] a rest s = refl
main_lem host (to_file t ∷ ss) a rest s = refl
main_lem host (through t ∷ ss) a rest s = refl

-- Where descriptors are short: settings, "--", a command and its arguments execute that command with
-- argv[0] the command, then exactly the arguments, then NULL, and with the variables that the last
-- settings give, or `main` returns 0 if `execvp` fails; this if the memory that malloc gives for every
-- value of a setting, the command and every argument holds the NUL too, and otherwise the run is
-- undefined.
pub main-executes :
    (host : Host) (ss : List Setting) (cmd : List ℕ) (args : List (List ℕ))
    (s : Launcher host.World)
    → HasSmallDescriptors host
    → main host (arguments ss ++ (codes "--" ∷ cmd ∷ args)) s ≡ (
        let t : Launcher host.World = set_all host ss (defaults host s) in
        if settings_fit host ss && all_fit host (cmd ∷ args)
        then ok (ending host cmd args t) t
        else undefined)
unfolding read_argv kind_of text_eq
main-executes host ss cmd args s small =
    main_lem host ss (codes "--") (cmd ∷ args) s
    ∙ read_argv-arguments host small ss (codes "--" ∷ cmd ∷ args) (defaults host s)
    ∙ (elim (Bool-cases (settings_fit host ss)) [
      | inl f ↦ rw f (exec_command_lem host cmd args (set_all host ss (defaults host s)))
      | inr f ↦ rw f refl
    ])
