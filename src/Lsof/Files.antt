-- ===== src/Lsof/Files.antt =====
-- What the lsof clone asks of the system: parameters of the model. Texts are lists of bytes.
use nctu_unixprog.Base.{ℕ, String, List}

-- A call fails with an errno or gives a value.
pub data Answer (A : Type 0) : Type 0 where
  fails : ℕ → Answer A
  gives : A → Answer A

-- The fields of `struct stat` that are read.
pub record Stat : Type 0 where
  pub mode : ℕ
  pub ino : ℕ
  pub uid : ℕ

-- Every call may change the world, which other processes change too.
pub record Files : Type 1 where
  pub World : Type 0
  -- The names that `readdir` gives, in its order.
  pub opendir : World → List ℕ → Answer (List (List ℕ)) × World
  pub closedir : World → Answer (Unit {0}) × World
  pub stat : World → List ℕ → Answer Stat × World
  -- The bytes stored, at most PATH_MAX, with no NUL behind them.
  pub readlink : World → List ℕ → Answer (List ℕ) × World
  pub access : World → List ℕ → ℕ → Answer (Unit {0}) × World
  -- The bytes that reading the opened file gives.
  pub fopen : World → List ℕ → Answer (List ℕ) × World
  pub fclose : World → Answer (Unit {0}) × World
  pub getpwuid : World → ℕ → Answer (List ℕ) × World
  -- The errno that earlier calls left.
  pub errno : World → ℕ
  pub strerror : ℕ → String
  -- The PATH_MAX bytes of a local `buf` before anything is stored there.
  pub stack : World → List ℕ
