-- ===== src/Lsof/Options.antt =====
-- The options of project1/hw1.cpp's `main`, and what `main` lists under them.
use nctu_unixprog.Base.{
  ℕ, true, ◌≡◌, refl, ap, sym, ◌∙◌, append_nil, List, [], ◌∷◌, ◌++◌, ◌||◌, not, if◌then◌else◌,
  codes, text_eq, text_eq_sound, All, Bool-cases, inl, inr, arith,
}
use nctu_unixprog.Stream.{put}
use nctu_unixprog.Run.{ok, exited, ◌>>=◌, ◌>>◌, pure, modify, exit}
use nctu_unixprog.Run.Keeps.{Post}
use nctu_unixprog.Lsof.Files.{Files}
use nctu_unixprog.Lsof.State.{Lsof, complain}
use nctu_unixprog.Lsof.Command.{
  Options, no_options, is_type, take_option, read_options, list_processes, main,
}
use nctu_unixprog.Lsof.Types.{IsChoice, any_of, six, is_type_lem}
use nctu_unixprog.Lsof.Rows.{Step}
use nctu_unixprog.Lsof.Listing.{Keeps-list_processes}

-- A list of options, each with its value.
abbrev pub flatten : List (List ℕ × List ℕ) → List (List ℕ)
flatten [] = []
flatten ((name, value) ∷ options) = name ∷ value ∷ flatten options

-- The value that an option was given last.
abbrev pub last_value : List ℕ → List (List ℕ × List ℕ) → List ℕ → List ℕ
last_value option [] old = old
last_value option ((name, value) ∷ options) old =
    last_value option options (if text_eq name option then value else old)

-- A TYPE is one of the six.
abbrev pub IsValid : List ℕ × List ℕ → Type 0
IsValid (name, value) = (not (text_eq name (codes "-t")) || is_type value) ≡ true

abbrev last_values : List (List ℕ × List ℕ) → Options → Options
last_values options o = record {
  cmd_regex = last_value (codes "-c") options o.cmd_regex;
  type_regex = last_value (codes "-t") options o.type_regex;
  file_regex = last_value (codes "-f") options o.file_regex;
}

module _ {W : Type 0} where
  -- An option that `main` accepts sets the variable of its name.
  take_option-value :
      (name value : List ℕ) (o : Options)
      → IsValid (name, value)
      → take_option {W = W} name value o ≡ pure (last_values ((name, value) ∷ []) o)
  unfolding take_option text_eq
  take_option-value name value o v = elim (Bool-cases (text_eq name (codes "-c"))) [
    | inl e ↦ rw (text_eq_sound name (codes "-c") e) refl
    | inr e ↦ elim (Bool-cases (text_eq name (codes "-t"))) [
      | inl f ↦ type_value f
      | inr f ↦ elim (Bool-cases (text_eq name (codes "-f"))) [
        | inl g ↦ rw (e, f, g) refl
        | inr g ↦ rw (e, f, g) refl
      ]
    ]
  ]
    where
      type_value :
          text_eq name (codes "-t") ≡ true
          → take_option {W = W} name value o ≡ pure (last_values ((name, value) ∷ []) o)
      type_value f =
          let w : is_type value ≡ true = ground arith in
          rw (text_eq_sound name (codes "-t") f, w) refl

  -- The options that stand in front of more arguments.
  read_options-flatten_append :
      (options : List (List ℕ × List ℕ)) (rest : List (List ℕ)) (o : Options) (s : Lsof W)
      → All IsValid options
      → read_options (flatten options ++ rest) o s ≡ read_options rest (last_values options o) s
  unfolding read_options ◌>>=◌ pure
  read_options-flatten_append [] rest o s h = refl
  read_options-flatten_append ((name, value) ∷ options) rest o s (v, h) =
      rw (take_option-value name value o v)
        (read_options-flatten_append options rest (last_values ((name, value) ∷ []) o) s h)

last_value-IsChoice :
    (options : List (List ℕ × List ℕ)) (old : List ℕ)
    → IsChoice old
    → All IsValid options
    → IsChoice (last_value (codes "-t") options old)
last_value-IsChoice [] old c h = c
last_value-IsChoice ((name, value) ∷ options) old c (v, h) =
    elim (Bool-cases (text_eq name (codes "-t"))) [
      | inl e ↦
          let w : is_type value ≡ true = ground arith in
          rw e (last_value-IsChoice options value (inr w) h)
      | inr e ↦ rw e (last_value-IsChoice options old c h)
    ]

-- Options that are given several times count with their last value.
pub read_options-last :
    (W : Type 0) (options : List (List ℕ × List ℕ)) (s : Lsof W)
    → All IsValid options
    → read_options (flatten options) no_options s
      ≡ ok
          (record {
            cmd_regex = last_value (codes "-c") options [];
            type_regex = last_value (codes "-t") options [];
            file_regex = last_value (codes "-f") options [];
          })
          s
unfolding read_options pure
read_options-last W options s h =
    ap (λ args. read_options args no_options s) (sym (append_nil (flatten options)))
    ∙ read_options-flatten_append options [] no_options s h

-- A -t behind options that `main` accepts: one of REG, CHR, DIR, FIFO, SOCK and unknown becomes the
-- filter, and `main` goes on with the arguments behind it; any other TYPE ends the process with status
-- 1 and the message on cerr, and nothing is listed.
pub main-type :
    (files : Files) (options : List (List ℕ × List ℕ)) (value : List ℕ) (rest : List (List ℕ))
    (s : Lsof files.World)
    → All IsValid options
    → main files (flatten options ++ (codes "-t" ∷ value ∷ rest)) s ≡ (
        if any_of value six
        then (read_options rest (record {
          cmd_regex = last_value (codes "-c") options [];
          type_regex = value;
          file_regex = last_value (codes "-f") options [];
        })
              >>= list_processes files)
            s
        else exited 1 (complain (put 0 "Invalid TYPE option.\n") s))
unfolding main read_options take_option text_eq modify exit pure ◌>>=◌ ◌>>◌
main-type files options value rest s h =
    rw
      (read_options-flatten_append options (codes "-t" ∷ value ∷ rest) no_options s h, read_options)
      (rw (is_type_lem value)
        (elim (Bool-cases (any_of value six)) [ inl e ↦ rw e refl | inr e ↦ rw e refl ]))

-- With options that `main` accepts, where it returns or ends the process, cout has got nothing but head lines
-- and rows whose NAME holds the last -f text and whose TYPE is the last -t text, if there is one, or that say
-- that permission was denied.
pub main-lists :
    (files : Files) (options : List (List ℕ × List ℕ)) (s : Lsof files.World)
    → All IsValid options
    → Post
        (Step (last_value (codes "-f") options []) (last_value (codes "-t") options []) s)
        (main files (flatten options) s)
unfolding main ◌>>=◌
main-lists files options s h = rw (read_options-last files.World options s h) (
    (Keeps-list_processes files (last_values options no_options)
        (last_value-IsChoice options [] (inl refl) h)).apply
      s)
