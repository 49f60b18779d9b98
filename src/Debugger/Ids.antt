-- ===== src/Debugger/Ids.antt =====
-- The ids of the break points of project4/hw4.cpp: `del` takes an id for an index.
use nctu_unixprog.Base.{
  arith, ℕ, ◌+◌, ◌^◌, ◌<◌, ◌≤◌, zero, suc, ◌≡◌, refl, ap, ◌∙◌, true, Option, none, some, List, [],
  ◌∷◌, ◌++◌, length, erase_at, get_elem?, subst,
}
use nctu_unixprog.Debugger.Os.{Os}
use nctu_unixprog.Debugger.State.{
  Sdb, Bp, running, ok, undefined, ◌>>=◌, ◌>>◌, get, modify, say, write_cout, undefined_behaviour,
}
use nctu_unixprog.Debugger.Keeps.{Post, Post-mono, Post->>, when_running-runs, Same-say, Same}
use nctu_unixprog.Debugger.Quiet.{Same-disasm, Same-poke}
use nctu_unixprog.Debugger.Breaks.{new_bp, find_id, del, del_running, del_entry}

-- Entry number n has the id n, counted from a first id.
abbrev pub IsIndexed : ℕ → List Bp → Type 0
IsIndexed n [] = Unit
IsIndexed n (b ∷ bs) = (b.id ≡ n) × IsIndexed (suc n) bs

IsIndexed-append :
    (n : ℕ) (bs : List Bp) (b : Bp)
    → b.id ≡ n + length bs
    → IsIndexed n bs
    → IsIndexed n (bs ++ b ∷ [])
IsIndexed-append n [] b e h = (omega arith, tt)
IsIndexed-append n (c ∷ bs) b e h = (h.0, IsIndexed-append (suc n) bs b (omega arith) h.1)

-- `bp` numbers on, as long as the size fits an int.
pub new_bp-IsIndexed :
    (bs : List Bp) (a c : ℕ)
    → length bs < 2 ^ 31
    → IsIndexed 0 bs
    → IsIndexed 0 (bs ++ new_bp bs a c ∷ [])
unfolding new_bp
new_bp-IsIndexed bs a c l h = IsIndexed-append 0 bs _ (omega arith) h

pub find_id-IsIndexed :
    (n k j : ℕ) (bs : List Bp) → j ≡ n + k → IsIndexed n bs → k < length bs → find_id j bs ≡ true
unfolding find_id
find_id-IsIndexed n k j [] e h l = absurd (omega arith)
find_id-IsIndexed n zero j (b ∷ bs) e h l = ground arith
find_id-IsIndexed n (suc k) j (b ∷ bs) e h l =
    ground (arith, find_id-IsIndexed (suc n) k j bs (omega arith) h.1 (omega arith))

get_elem?-lt :
    {A : Type 0} (bs : List A) (k : ℕ) → k < length bs → (b : A) × (get_elem? bs k ≡ some b)
get_elem?-lt [] k l = absurd (omega arith)
get_elem?-lt (b ∷ bs) zero l = (b, refl)
get_elem?-lt (b ∷ bs) (suc k) l = get_elem?-lt bs k (omega arith)

get_elem?-ge : {A : Type 0} (bs : List A) (k : ℕ) → length bs ≤ k → get_elem? bs k ≡ none
get_elem?-ge [] k l = refl
get_elem?-ge (b ∷ bs) zero l = absurd (omega arith)
get_elem?-ge (b ∷ bs) (suc k) l = get_elem?-ge bs k (omega arith)

length-erase :
    {A : Type 0} (i : ℕ) (bs : List A) → i < length bs → suc (length (erase_at i bs)) ≡ length bs
length-erase i [] l = absurd (omega arith)
length-erase zero (b ∷ bs) l = refl
length-erase (suc i) (b ∷ bs) l = ap suc (length-erase i bs (omega arith))

-- The last id survives the deletion of another entry.
find_id-erase :
    (n k j i : ℕ) (bs : List Bp)
    → j ≡ n + k
    → IsIndexed n bs
    → suc k ≡ length bs
    → i < k
    → find_id j (erase_at i bs) ≡ true
unfolding find_id
find_id-erase n k j i [] q h e l = absurd (omega arith)
find_id-erase n zero j i (b ∷ bs) q h e l = absurd (omega arith)
find_id-erase n (suc k) j zero (b ∷ bs) q h e l =
    find_id-IsIndexed (suc n) k j bs (omega arith) h.1 (omega arith)
find_id-erase n (suc k) j (suc i) (b ∷ bs) q h e l =
    ground (arith, find_id-erase (suc n) k j i bs (omega arith) h.1 (omega arith) (omega arith))

-- What `del` of a listed id leaves.
pub record Deleted {W : Type 0} (id : ℕ) (s t : Sdb W) : Type 0 where
  pub same_state : t.state ≡ s.state
  pub erased : t.bp_list ≡ erase_at id s.bp_list

module _ (os : Os) where
  del_entry-Deleted :
      (id : ℕ) (o : Option Bp) (s : Sdb os.World) → Post (Deleted id s) (del_entry os id o s)
  unfolding del_entry undefined_behaviour modify
  del_entry-Deleted id none s = tt
  del_entry-Deleted id (some b) s =
      Post->> (Same s) (Deleted id s) _ _ s ((Same-disasm os b.addr 1).apply s) λ t h.
        Post->> (Same t) (Deleted id s) _ _ t ((Same-poke os _ _ _).apply t)
          λ u k. ground (arith, h.same_state, h.same_table, k.same_state, k.same_table)

  pub del-Deleted :
      (id : ℕ) (s : Sdb os.World)
      → s.state ≡ running
      → find_id id s.bp_list ≡ true
      → Post (Deleted id s) (del os id s)
  unfolding del del_running get ◌>>=◌
  del-Deleted id s r f = rw (when_running-runs _ _ s r) (
      rw f (
        Post->> (Same s) (Deleted id s) _ _ s ((Same-say _).apply s) λ t h.
          Post-mono (Deleted id t) (Deleted id s) _
            (λ u k. ground (arith, h.same_state, h.same_table, k.same_state, k.erased))
            (del_entry-Deleted id (get_elem? s.bp_list id) t)))

  -- An id in the table at whose index there is no entry.
  pub del-undefined :
      (id : ℕ) (s : Sdb os.World)
      → s.state ≡ running
      → find_id id s.bp_list ≡ true
      → get_elem? s.bp_list id ≡ none
      → del os id s ≡ undefined
  unfolding del del_running get ◌>>=◌ ◌>>◌ say write_cout undefined_behaviour
  del-undefined id s r f g = when_running-runs _ _ s r ∙ rw f (rw (g, del_entry) refl)

  -- In RUNNING, while every id is its entry's index: a `delete` with the id of an entry that is not the
  -- last, if it returns, has removed that entry and no other. But then `delete` with the last id, which
  -- is still listed, is undefined behaviour: it reads past the end of the table.
  pub del-after_del :
      (id last : ℕ) (s t : Sdb os.World)
      → s.state ≡ running
      → IsIndexed 0 s.bp_list
      → suc last ≡ length s.bp_list
      → id < last
      → del os id s ≡ ok tt t
      → (t.bp_list ≡ erase_at id s.bp_list) × (del os last t ≡ undefined)
  del-after_del id last s t r h e l d =
      let done : Deleted id s t =
        subst (Post (Deleted id s)) d (
          del-Deleted id s r (find_id-IsIndexed 0 id id s.bp_list (omega arith) h (omega arith))) in
      let short : suc (length (erase_at id s.bp_list)) ≡ length s.bp_list =
        length-erase id s.bp_list (omega arith) in
      (
        done.erased,
        del-undefined last t (done.same_state ∙ r)
            (rw done.erased (find_id-erase 0 last last id s.bp_list (omega arith) h e l))
            (rw done.erased (get_elem?-ge _ last (omega arith))),
      )
