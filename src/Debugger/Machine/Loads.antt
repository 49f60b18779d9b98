-- ===== src/Debugger/Machine/Loads.antt =====
-- `load` of project4/hw4.cpp in the abstract machine.
use nctu_unixprog.Base.{arith, ℕ, ◌≡◌, refl, ◌≢◌, ◌⊎◌, inl, inr, Option, none, some, List, ◌∷◌}
use nctu_unixprog.Debugger.Os.{Os}
use nctu_unixprog.Debugger.State.{
  M, Sdb, Mode, nonload, loaded, running, ◌>>=◌, ◌>>◌, get, modify, write_cout, undefined_behaviour,
}
use nctu_unixprog.Debugger.Keeps.{
  Post, Post-mono, Keeps, Keeps-mono, IsPreorder, Same, Same-say, Keeps->>=, Keeps->>, Keeps-get,
  Keeps-modify, Keeps-if, Same-write_cout, Keeps-get->>=, Keeps-error, Keeps-undefined_behaviour,
}
use nctu_unixprog.Debugger.Load.{
  Search, found, missing, outside, load, load_in, load_file, load_header, load_sections, found_text,
  finish, is_elf, is_class64, read_at,
}
use nctu_unixprog.Debugger.Elf.{fread_into}
use nctu_unixprog.Debugger.Machine.{loads, reloads, here, next, Refines, Refines-IsPreorder, quiet}

-- `load` leaves the pid alone, and ends in LOADED or where it began.
pub record Loads {W : Type 0} (s t : Sdb W) : Type 0 where
  pub same_child : t.pid ≡ s.pid
  pub new_state : (t.state ≡ s.state) ⊎ (t.state ≡ loaded)

Loads-IsPreorder : {W : Type 0} → IsPreorder (Loads {W = W})
Loads-IsPreorder = record { rel_refl = λ s. ground arith; rel_trans = λ s t u h k. ground arith }

Loads-of_Same : {W A : Type 0} (m : M W A) → Keeps Same m → Keeps Loads m
Loads-of_Same m = Keeps-mono (λ s t h. ground arith)

Refines-of_Loads :
    {W : Type 0} (s t : Sdb W) (m : Mode) → s.state ≡ m → m ≢ loaded → Loads s t → Refines s t
Refines-of_Loads s t m e n h = by_state h.new_state m e n
  where
    by_state :
        (t.state ≡ s.state) ⊎ (t.state ≡ loaded)
        → (m : Mode) → s.state ≡ m
        → m ≢ loaded
        → Refines s t
    by_state (inl q) m e n = here (ground (arith, h.same_child))
    by_state (inr q) nonload e n = next (here refl) (loads e q h.same_child)
    by_state (inr q) running e n = next (here refl) (reloads e q h.same_child)
    by_state (inr q) loaded e n = absurd (n refl)

module _ (os : Os) where
  Loads-finish : (path : List ℕ) → Keeps Loads (finish os path)
  unfolding finish
  Loads-finish path = Keeps->>= Loads-IsPreorder _ _ (Keeps-get Loads-IsPreorder) λ s.
      Keeps->> Loads-IsPreorder _ _ (Loads-of_Same _ (Same-write_cout _))
        (Keeps-modify _ (λ t. ground arith))

  Loads-found_text : (path : List ℕ) (r : Search) → Keeps Loads (found_text os path r)
  unfolding found_text
  Loads-found_text path (found shdr) =
      Keeps->> Loads-IsPreorder _ _ (Keeps-modify _ (λ t. ground arith)) (Loads-finish path)
  Loads-found_text path missing = Loads-finish path
  Loads-found_text path outside = Keeps-undefined_behaviour _

  Loads-load_file : (path : List ℕ) (o : Option (List ℕ)) → Keeps Loads (load_file os path o)
  unfolding load_file load_header load_sections
  Loads-load_file path none =
      Keeps->> Loads-IsPreorder _ _ (Keeps-modify _ (λ t. ground arith)) (Keeps-error os _ _)
  Loads-load_file path (some file) =
      Keeps->> Loads-IsPreorder _ _ (Keeps-modify _ (λ t. ground arith)) (
        Keeps->>= Loads-IsPreorder _ _ (Keeps-get Loads-IsPreorder) λ s.
          Keeps-if _ _ _
            (Keeps-if _ _ _
              (Keeps->>= Loads-IsPreorder _ _ (Keeps-get Loads-IsPreorder) λ t.
                Keeps->> Loads-IsPreorder _ _ (Keeps-modify _ (λ u. ground arith))
                  (Loads-found_text path _))
              (Loads-of_Same _ (Same-say _)))
            (Loads-of_Same _ (Same-say _)))

  Loads-read :
      (path : List ℕ) → Keeps Loads (get >>= λ s. load_file os path (os.read_file s.world path))
  Loads-read path =
      Keeps->>= Loads-IsPreorder _ _ (Keeps-get Loads-IsPreorder) λ s. Loads-load_file path _

  pub Refines-load : (path : List ℕ) → Keeps Refines (load os path)
  unfolding load
  Refines-load path = Keeps-get->>= _ λ s. by_mode s s.state refl
    where
      opens :
          (s : Sdb os.World) (m : Mode)
          → s.state ≡ m
          → m ≢ loaded
          → Post (Refines s) ((get >>= λ t. load_file os path (os.read_file t.world path)) s)
      opens s m e n =
          Post-mono (Loads s) (Refines s) _ (λ t. Refines-of_Loads s t m e n)
            ((Loads-read path).apply s)

      by_mode : (s : Sdb os.World) (m : Mode) → s.state ≡ m → Post (Refines s) (load_in os path m s)
      by_mode s loaded e = (quiet _ (Same-say _)).apply s
      by_mode s nonload e = opens s nonload e (λ q. cc)
      by_mode s running e = opens s running e (λ q. cc)

  pub Refines-load_cmd :
      (path : List ℕ) → Keeps Refines (modify (λ s. record s { file_path = path }) >> load os path)
  Refines-load_cmd path =
      Keeps->> Refines-IsPreorder _ _ (Keeps-modify _ (λ s. here refl)) (Refines-load path)

  Loads-load_in : (path : List ℕ) (m : Mode) → Keeps Loads (load_in os path m)
  unfolding load_in
  Loads-load_in path loaded = Loads-of_Same _ (Same-say _)
  Loads-load_in path nonload = Loads-read path
  Loads-load_in path running = Loads-read path

  -- The command `load` keeps the child's pid.
  pub Loads-load_cmd :
      (path : List ℕ) → Keeps Loads (modify (λ s. record s { file_path = path }) >> load os path)
  unfolding load
  Loads-load_cmd path =
      Keeps->> Loads-IsPreorder _ _ (Keeps-modify _ (λ s. ground arith)) (
        Keeps->>= Loads-IsPreorder _ _ (Keeps-get Loads-IsPreorder) λ s. Loads-load_in path s.state)

  found_text-loaded :
      (path : List ℕ) (r : Search) (s : Sdb os.World)
      → Post (λ t. t.state ≡ loaded) (found_text os path r s)
  unfolding found_text finish get modify write_cout undefined_behaviour ◌>>=◌ ◌>>◌
  found_text-loaded path (found shdr) s = refl
  found_text-loaded path missing s = refl
  found_text-loaded path outside s = tt

  -- In RUNNING, `load` of a file that begins like a 64-bit ELF file ends in LOADED, if it returns.
  pub load_cmd-loaded :
      (path rest : List ℕ) (s : Sdb os.World)
      → s.state ≡ running
      → os.read_file s.world path ≡ some (0x7f ∷ b'E' ∷ b'L' ∷ b'F' ∷ 2 ∷ rest)
      → Post
          (λ t. t.state ≡ loaded)
          ((modify (λ s. record s { file_path = path }) >> load os path) s)
  unfolding load load_in load_file load_header load_sections is_elf is_class64 read_at fread_into
      get modify ◌>>=◌ ◌>>◌
  load_cmd-loaded path rest s n f = rw (n, load_in) (rw (f, load_file) (found_text-loaded path _ _))
