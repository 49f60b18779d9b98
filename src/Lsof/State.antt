-- ===== src/Lsof/State.antt =====
-- The state of project1/hw1.cpp: its two streams and the world; and `error`, `Print`, `PrintHead`.
use nctu_unixprog.Base.{ℕ, String, List, true}
use nctu_unixprog.Stream.{Ostream, put, put_text, set_left}
use nctu_unixprog.Run.{Outcome, ok, M, ◌>>◌, pure, modify, exit}
use nctu_unixprog.Lsof.Files.{Files, Answer, fails, gives}

pub record Lsof (W : Type 0) : Type 0 where
  pub cout : Ostream
  pub cerr : Ostream
  pub world : W

pub record ProcInfo : Type 0 where
  pub cmd : List ℕ
  pub pid : List ℕ
  pub usr : List ℕ

-- The errnos that are told apart.
abbrev pub enoent : ℕ
enoent = 2

abbrev pub eacces : ℕ
eacces = 13

-- What a call of the system answers.
answered : {W A : Type 0} → Lsof W → Answer A × W → Outcome (Lsof W) (Answer A)
answered s (a, w) = ok a (record s { world = w })

unfoldable pub ask : {W A : Type 0} → (W → Answer A × W) → M (Lsof W) (Answer A)
unfolding answered
ask f s = answered s (f s.world)

abbrev pub complain : {W : Type 0} → (Ostream → Ostream) → Lsof W → Lsof W
complain f s = record s { cerr = f s.cerr }

abbrev pub write_out : {W : Type 0} → (Ostream → Ostream) → Lsof W → Lsof W
write_out f s = record s { cout = f s.cout }

unfoldable pub error : {A : Type 0} (files : Files) → String → ℕ → M (Lsof files.World) A
error files what error_no =
    modify (
      complain (λ e.
        put 0 "\n"
          (put 0 (files.strerror error_no) (put 0 ", " (put 0 what (put 0 "Fail to " e))))))
    >> exit 1

-- `if(call<0) error(what, errno);`
unfoldable pub need : {A : Type 0} (files : Files) → String → Answer A → M (Lsof files.World) A
need files what (fails e) = error files what e
need files what (gives a) = pure a

-- The line that `Print` writes.
abbrev pub row : ProcInfo → List ℕ → List ℕ → List ℕ → List ℕ → Ostream → Ostream
row proc fd type node name out = put 0 "\n" (
    put_text 15 name (
      put_text 10 node (
        put_text 10 type (
          put_text 10 fd (
            put_text 20 proc.usr
              (put_text 10 proc.pid (put_text 20 proc.cmd (set_left true out))))))))

unfoldable pub print :
    {W : Type 0} → ProcInfo → List ℕ → List ℕ → List ℕ → List ℕ → M (Lsof W) (Unit {0})
print proc fd type node name = modify (write_out (row proc fd type node name))

-- The line that `PrintHead` writes.
abbrev pub head : Ostream → Ostream
head out = put 0 "\n" (
    put 15 "NAME" (
      put 10 "NODE" (
        put 10 "TYPE"
          (put 10 "FD" (put 20 "USER" (put 10 "PID" (put 20 "COMMAND" (set_left true out))))))))

unfoldable pub print_head : {W : Type 0} → M (Lsof W) (Unit {0})
print_head = modify (write_out head)
