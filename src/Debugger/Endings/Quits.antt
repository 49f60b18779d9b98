-- ===== src/Debugger/Endings/Quits.antt =====
-- How a run of project4/hw4.cpp ends: by an error, or by killing the child.
use nctu_unixprog.Base.{
  arith, ℕ, ◌≡◌, ◌≢◌, refl, sym, ap, ◌∙◌, ◌⊎◌, inl, inr, Bool-cases, Option, none, some, List, [],
  ◌∷◌, ◌==◌, if◌then◌else◌,
}
use nctu_unixprog.Stream.{put}
use nctu_unixprog.Debugger.Os.{Os}
use nctu_unixprog.Debugger.State.{
  M, Sdb, Outcome, ok, exited, undefined, after, ◌>>=◌, ◌>>◌, modify, exit, say, write_cout,
}
use nctu_unixprog.Debugger.Control.{quit, kill_child}
use nctu_unixprog.Debugger.Command.{
  Command, exit_cmd, parse_line, exec, run_lines, run_script, read_args, main_loop, main,
}
use nctu_unixprog.Debugger.Endings.{IsClean}
use nctu_unixprog.Debugger.Endings.Sessions.{EndsClean-exec, EndsClean-read_args}

is_exit : (c : Command) → (c ≡ exit_cmd) ⊎ (c ≢ exit_cmd)
is_exit exit_cmd = inl refl
is_exit _ = inr (λ e. cc)

module _ (os : Os) where
  -- What is left by the debugger that kills its child, if it has one, and ends.
  abbrev pub killed : Sdb os.World → Sdb os.World
  killed s = record s {
    world = if s.pid == 0 then s.world else os.kill s.world s.pid;
    pid = 0;
    code = none;
  }

  abbrev prompted : Sdb os.World → Sdb os.World
  prompted s = record s { cout = put 0 "sdb> " s.cout }

  -- From s, the commands before an `exit` in a session return, and the `exit` kills the child.
  pub data QuitsAt : List (List ℕ) → Sdb os.World → Sdb os.World → Type 0 where
    quits_here :
        {l : List ℕ} {ls : List (List ℕ)} {s t : Sdb os.World}
        → parse_line l ≡ exit_cmd
        → t ≡ killed (prompted s)
        → QuitsAt (l ∷ ls) s t
    quits_later :
        {l : List ℕ} {ls : List (List ℕ)} {s t u : Sdb os.World}
        → exec os (parse_line l) (prompted s) ≡ ok tt u
        → QuitsAt ls u t
        → QuitsAt (l ∷ ls) s t

  -- The same for a script, which has no prompt; its end kills the child as well.
  pub data ScriptQuitsAt : List (List ℕ) → Sdb os.World → Sdb os.World → Type 0 where
    quits_end : {s t : Sdb os.World} → t ≡ killed s → ScriptQuitsAt [] s t
    quits_line :
        {l : List ℕ} {ls : List (List ℕ)} {s t : Sdb os.World}
        → parse_line l ≡ exit_cmd
        → t ≡ killed s
        → ScriptQuitsAt (l ∷ ls) s t
    quits_after :
        {l : List ℕ} {ls : List (List ℕ)} {s t u : Sdb os.World}
        → exec os (parse_line l) s ≡ ok tt u
        → ScriptQuitsAt ls u t
        → ScriptQuitsAt (l ∷ ls) s t

  quit_lem : (s : Sdb os.World) → quit os s ≡ exited 0 (killed s)
  unfolding quit kill_child modify exit ◌>>◌
  quit_lem s = elim (Bool-cases (s.pid == 0)) [
    | inl e ↦
        let z : s.pid ≡ 0 = ground arith in
        rw e (ap (λ n. exited 0 (record s { pid = n; code = none })) z)
    | inr e ↦ rw e refl
  ]

  -- The process ended by an error, or in what came after a return.
  clean_then :
      {A : Type 0} (o : Outcome os.World A) (f : A → M os.World (Unit {0})) (t : Sdb os.World)
      (n : ℕ)
      → IsClean o
      → after o f ≡ exited n t
      → (n ≡ 255) ⊎ ((a : A) × (u : Sdb os.World) × (o ≡ ok a u) × (f a u ≡ exited n t))
  clean_then (ok a u) f t n h d = inr (a, u, refl, d)
  clean_then (exited k u) f t n h d = inl cc
  clean_then undefined f t n h d = cc

  exited_state : (s t : Sdb os.World) (n : ℕ) → quit os s ≡ exited n t → (n ≡ 0) × (t ≡ killed s)
  exited_state s t n e = let f : exited 0 (killed s) ≡ exited n t = sym (quit_lem s) ∙ e in (cc, cc)

  exec_exit : (c : Command) → c ≡ exit_cmd → exec os c ≡ quit os
  unfolding exec
  exec_exit c x = ap (exec os) x

  after_exit :
      (s t : Sdb os.World) (n : ℕ) (m : M os.World (Unit {0}))
      → (quit os >> m) s ≡ exited n t
      → (n ≡ 0) × (t ≡ killed s)
  unfolding ◌>>◌
  after_exit s t n m e =
      exited_state s t n (quit_lem s ∙ (sym (ap (λ o. after o (λ _. m)) (quit_lem s)) ∙ e))

  run_lines-QuitsAt :
      (ls : List (List ℕ)) (s t : Sdb os.World) (n : ℕ)
      → run_lines os ls s ≡ exited n t
      → (n ≡ 255) ⊎ ((n ≡ 0) × QuitsAt ls s t)
  unfolding run_lines say write_cout ◌>>◌
  run_lines-QuitsAt [] s t n e = cc
  run_lines-QuitsAt (l ∷ ls) s t n e = elim (is_exit (parse_line l)) [
    | inl x ↦
        let (z, k) =
          after_exit (prompted s) t n (run_lines os ls) (
            ap (λ m. (m >> run_lines os ls) (prompted s)) (sym (exec_exit (parse_line l) x)) ∙ e) in
        inr (z, quits_here x k)
    | inr x ↦
        elim (clean_then (exec os (parse_line l) (prompted s)) (λ _. run_lines os ls) t n
          ((EndsClean-exec os (parse_line l) x).ends (prompted s)) e) [
            | inl f ↦ inl f
            | inr (a, u, f, g) ↦ elim (run_lines-QuitsAt ls u t n g) [
              | inl h ↦ inl h
              | inr (z, h) ↦ inr (z, quits_later f h)
            ]
          ]
  ]

  run_script-QuitsAt :
      (ls : List (List ℕ)) (s t : Sdb os.World) (n : ℕ)
      → run_script os ls s ≡ exited n t
      → (n ≡ 255) ⊎ ((n ≡ 0) × ScriptQuitsAt ls s t)
  unfolding run_script ◌>>◌
  run_script-QuitsAt [] s t n e = let (z, k) = exited_state s t n e in inr (z, quits_end k)
  run_script-QuitsAt (l ∷ ls) s t n e = elim (is_exit (parse_line l)) [
    | inl x ↦
        let (z, k) =
          after_exit s t n (run_script os ls)
            (ap (λ m. (m >> run_script os ls) s) (sym (exec_exit (parse_line l) x)) ∙ e) in
        inr (z, quits_line x k)
    | inr x ↦
        elim (clean_then (exec os (parse_line l) s) (λ _. run_script os ls) t n
          ((EndsClean-exec os (parse_line l) x).ends s) e) [
            | inl f ↦ inl f
            | inr (a, u, f, g) ↦ elim (run_script-QuitsAt ls u t n g) [
              | inl h ↦ inl h
              | inr (z, h) ↦ inr (z, quits_after f h)
            ]
          ]
  ]

  -- The session or the script that `main` goes on with.
  abbrev pub MainQuitsAt :
      List (List ℕ) → Option (List (List ℕ)) → Sdb os.World → Sdb os.World → Type 0
  MainQuitsAt input none = QuitsAt input
  MainQuitsAt input (some script) = ScriptQuitsAt script

  main_loop-QuitsAt :
      (input : List (List ℕ)) (o : Option (List (List ℕ))) (s t : Sdb os.World) (n : ℕ)
      → main_loop os input o s ≡ exited n t
      → (n ≡ 255) ⊎ ((n ≡ 0) × MainQuitsAt input o s t)
  unfolding main_loop
  main_loop-QuitsAt input none s t n e = run_lines-QuitsAt input s t n e
  main_loop-QuitsAt input (some script) s t n e = run_script-QuitsAt script s t n e

  -- Whatever the arguments, the script and the input are: where `main` ends the process, it is by an
  -- error, with status 255, or with status 0 by an `exit` or at the end of the script. Then the
  -- arguments and the commands before it have returned, and from the state that they leave the child is
  -- killed if there is one, and the pid is 0.
  pub main-exits :
      (argv input : List (List ℕ)) (s t : Sdb os.World) (n : ℕ)
      → main os argv input s ≡ exited n t
      → (n ≡ 255)
        ⊎ ((o : Option (List (List ℕ))) × (u : Sdb os.World) × (read_args os argv none s ≡ ok o u)
            × (n ≡ 0)
            × MainQuitsAt input o u t)
  unfolding main ◌>>=◌
  main-exits argv input s t n e =
      elim (clean_then (read_args os argv none s) (main_loop os input) t n
        ((EndsClean-read_args os argv none).ends s) e) [
          | inl f ↦ inl f
          | inr (o, u, f, g) ↦ elim (main_loop-QuitsAt input o u t n g) [
            | inl h ↦ inl h
            | inr (z, h) ↦ inr (o, u, f, z, h)
          ]
        ]
