-- ===== src/Mini/Errors.antt =====
-- What `perror` of project3/libmini.c writes.
use nctu_unixprog.Base.{
  ℕ, zero, suc, ◌%◌, ◌^◌, ◌≤◌, ◌<◌, ◌≡◌, refl, String, Bool, true, false, Option, none, some, List,
  [], ◌∷◌, ◌++◌, ◌&&◌, ◌||◌, ltb, leb, codes, get_elem?, length, arith,
}
use nctu_unixprog.Run.{ok, undefined, ◌>>=◌, ◌>>◌, pure, get, modify, undefined_behaviour}
use nctu_unixprog.Mini.Sys.{
  Sys, Mini, number, string, is_negative, set_errno, wrapper_retval, syscall, returned,
}
use nctu_unixprog.Mini.Calls.{write}
use nctu_unixprog.Mini.Messages.{
  errmsg, write_text, write_prefix, write_message, write_error, perror,
}

-- Documented behaviour of `write` on a terminal that takes everything: the count is returned.
pub record IsTerminal (sys : Sys) : Type 0 where
  pub after_write : sys.World → List ℕ → sys.World
  pub write_all :
      (w : sys.World) (t : List ℕ)
      → sys.call w "write" (number 2 ∷ string t ∷ number (length t) ∷ [])
        ≡ (length t, after_write w t)

module _ (sys : Sys) (terminal : IsTerminal sys) where
  write_text_lem :
      (t : List ℕ) (s : Mini sys.World)
      → length t < 2 ^ 63
      → write_text sys t s
        ≡ ok (length t) (record { errno = 0; world = terminal.after_write s.world t })
  unfolding write_text write syscall returned wrapper_retval set_errno is_negative modify pure ◌>>=◌
      ◌>>◌
  write_text_lem t s h =
      let e : leb (2 ^ 63) (length t) ≡ false = ground arith in
      let m : length t % 2 ^ 64 ≡ length t = omega arith in
      rw (terminal.write_all s.world t) (rw e (rw m refl))

  -- The world after the texts, in order.
  abbrev pub after_texts : List (List ℕ) → sys.World → sys.World
  after_texts [] w = w
  after_texts (t ∷ ts) w = after_texts ts (terminal.after_write w t)

  -- The prefix that is written.
  abbrev pub prefix_texts : Option (List ℕ) → List (List ℕ)
  prefix_texts none = []
  prefix_texts (some p) = p ∷ codes ": " ∷ []

  write_error_lem :
      (backup : ℕ) (m : String) (s : Mini sys.World)
      → s.errno < 35
      → get_elem? errmsg backup ≡ some m
      → length (codes m) < 2 ^ 63
      → write_error sys backup s
        ≡ ok
            (length (codes m))
            (record { errno = 0; world = terminal.after_write s.world (codes m) })
  unfolding write_error write_message is_negative get ◌>>=◌
  write_error_lem backup m s h g f =
      let n : leb (2 ^ 63) s.errno ≡ false = ground arith in
      let k : ltb 34 s.errno ≡ false = ground arith in
      rw n (rw k (rw g (write_text_lem (codes m) s f)))

  newline_fits : length (codes "\n") < 2 ^ 63
  newline_fits = omega arith

  colon_fits : length (codes ": ") < 2 ^ 63
  colon_fits = omega arith

  -- A prefix is short, as every object is.
  abbrev pub Fits : Option (List ℕ) → Type 0
  Fits none = Unit {0}
  Fits (some p) = length p < 2 ^ 63

  abbrev told : List ℕ → Mini sys.World → Mini sys.World
  told t s = record {
    errno = 0;
    world = terminal.after_write (terminal.after_write s.world t) (codes ": ");
  }

  perror_message :
      (prefix : Option (List ℕ)) (m : String) (s : Mini sys.World)
      → Fits prefix
      → s.errno < 35
      → get_elem? errmsg s.errno ≡ some m
      → length (codes m) < 2 ^ 63
      → perror sys prefix s
        ≡ ok tt (record {
          errno = 0;
          world = after_texts (prefix_texts prefix ++ (codes m ∷ codes "\n" ∷ [])) s.world;
        })
  unfolding perror write_prefix get pure ◌>>=◌ ◌>>◌
  perror_message none m s p h g f =
      rw (write_error_lem s.errno m s h g f) (rw (write_text_lem (codes "\n") _ newline_fits) refl)
  perror_message (some t) m s p h g f = rw (write_text_lem t s p) (
      rw (write_text_lem (codes ": ") _ colon_fits) (
        rw (write_error_lem s.errno m (told t s) (omega arith) g f)
          (rw (write_text_lem (codes "\n") _ newline_fits) refl)))

all_short : List String → Bool
all_short [] = true
all_short (m ∷ ms) = ltb (length (codes m)) (2 ^ 63) && all_short ms

short_message :
    (ms : List String) (e : ℕ)
    → all_short ms ≡ true
    → e < length ms
    → (m : String) × (get_elem? ms e ≡ some m) × (length (codes m) < 2 ^ 63)
unfolding all_short
short_message [] e h l = absurd (omega arith)
short_message (m ∷ ms) zero h l = (m, refl, ground arith)
short_message (m ∷ ms) (suc e) h l = short_message ms e (ground arith) (omega arith)

no_message : (ms : List String) (e : ℕ) → length ms ≤ e → get_elem? ms e ≡ none
no_message [] e h = refl
no_message (m ∷ ms) zero h = absurd (omega arith)
no_message (m ∷ ms) (suc e) h = no_message ms e (omega arith)

errmsg_short : all_short errmsg ≡ true
unfolding all_short errmsg
errmsg_short = refl

errmsg-length : length errmsg ≡ 35
unfolding errmsg
errmsg-length = refl

-- On a terminal that takes everything, for an errno up to 34: perror writes the prefix and ": ", if there
-- is one, the message of errno and a newline, and leaves 0 in errno.
pub perror-prints :
    (sys : Sys) (terminal : IsTerminal sys) (prefix : Option (List ℕ)) (s : Mini sys.World)
    → Fits sys terminal prefix
    → s.errno < 35
    → (m : String) × (get_elem? errmsg s.errno ≡ some m)
      × (perror sys prefix s
          ≡ ok tt (record {
            errno = 0;
            world =
                after_texts sys terminal
                  (prefix_texts sys terminal prefix ++ (codes m ∷ codes "\n" ∷ []))
                  s.world;
          }))
perror-prints sys terminal prefix s p h =
    let l : s.errno < length errmsg = rw errmsg-length h in
    let (m, g, f) = short_message errmsg s.errno errmsg_short l in
    (m, g, perror_message sys terminal prefix m s p h g f)

-- On such a terminal, for any other errno: without a prefix perror writes "Unknown" and a newline, and
-- with a prefix it reads past the end of the messages.
pub perror-unknown :
    (sys : Sys) (terminal : IsTerminal sys) (prefix : List ℕ) (s : Mini sys.World)
    → length prefix < 2 ^ 63
    → 34 < s.errno
    → (perror sys none s
        ≡ ok tt (record {
          errno = 0;
          world = after_texts sys terminal (codes "Unknown" ∷ codes "\n" ∷ []) s.world;
        }))
      × (perror sys (some prefix) s ≡ undefined)
unfolding perror write_prefix write_error write_message is_negative get pure undefined_behaviour
    ◌>>=◌ ◌>>◌
perror-unknown sys terminal prefix s p h =
    let k : (leb (2 ^ 63) s.errno || ltb 34 s.errno) ≡ true = ground arith in
    let n : get_elem? errmsg s.errno ≡ none =
      no_message errmsg s.errno (rw errmsg-length (omega arith)) in
    (
      rw k (
          rw (write_text_lem sys terminal (codes "Unknown") s (omega arith))
            (rw (write_text_lem sys terminal (codes "\n") _ (newline_fits sys terminal)) refl)),
      rw (write_text_lem sys terminal prefix s p)
          (rw (write_text_lem sys terminal (codes ": ") _ (colon_fits sys terminal)) (rw n refl)),
    )
