-- ===== src/Debugger/Table.antt =====
-- The break point table of project4/hw4.cpp: no address twice, none at 0, under every command (the
-- child Commands).
pub mod Commands
use nctu_unixprog.Base.{
  arith, ℕ, ◌+◌, ◌%◌, ◌^◌, ◌<◌, zero, suc, ◌≡◌, refl, sym, ap, ◌≢◌, ◌⊎◌, inl, inr, Bool, true,
  false, ◌||◌, Option, none, some, List, [], ◌∷◌, ◌++◌, String, ◌==◌, ltb, if◌then◌else◌,
  Bool-cases, length, erase_at, get_elem?, subst,
}
use nctu_unixprog.Debugger.Os.{Os}
use nctu_unixprog.Debugger.State.{
  M, Sdb, Bp, Mode, running, ok, ◌>>=◌, ◌>>◌, pure, get, modify, say, when_running, is_running,
}
use nctu_unixprog.Debugger.Keeps.{
  Post, Post-mono, Keeps, Keeps-ok, Keeps-mono, IsPreorder, Same, Same-IsPreorder, same_rules,
  Same-say, Keeps->>=, Keeps->>, Keeps-get, Keeps-modify, Keeps-pure, Keeps-if, Keeps-get->>=,
  Keeps-when_running, Keeps-undefined_behaviour,
}
use nctu_unixprog.Debugger.Disasm.{disasm}
use nctu_unixprog.Debugger.Quiet.{Same-fetch_regs, Same-poke, Same-disasm}
use nctu_unixprog.Debugger.Breaks.{
  listed, new_bp, find_id, bp, bp_running, set_trap, record_bp, append_bp, del, del_running,
  del_entry, rearm, chkbp, has_trap,
}

abbrev pub IsTable : List Bp → Type 0
IsTable [] = Unit
IsTable (b ∷ bs) = (b.addr ≢ 0) × (listed b.addr bs ≡ false) × IsTable bs

listed-append : (a : ℕ) (bs cs : List Bp) → listed a (bs ++ cs) ≡ (listed a bs || listed a cs)
unfolding listed
listed-append a [] cs = refl
listed-append a (b ∷ bs) cs = ground (arith, listed-append a bs cs)

append-IsTable :
    (a : ℕ) (bs : List Bp) (n : Bp)
    → n.addr ≡ a
    → a ≢ 0
    → listed a bs ≡ false
    → IsTable bs
    → IsTable (bs ++ n ∷ [])
unfolding listed
append-IsTable a [] n e z l t = (rw e z, refl, tt)
append-IsTable a (b ∷ bs) n e z l t = (
  t.0,
  ground (arith, listed-append b.addr bs (n ∷ []), t.1),
  append-IsTable a bs n e z (ground arith) t.2,
)

listed-erase : (a i : ℕ) (bs : List Bp) → listed a bs ≡ false → listed a (erase_at i bs) ≡ false
unfolding listed
listed-erase a i [] h = refl
listed-erase a zero (b ∷ bs) h = ground arith
listed-erase a (suc i) (b ∷ bs) h = ground (arith, listed-erase a i bs)

erase-IsTable : (i : ℕ) (bs : List Bp) → IsTable bs → IsTable (erase_at i bs)
erase-IsTable i [] t = tt
erase-IsTable zero (b ∷ bs) t = t.2
erase-IsTable (suc i) (b ∷ bs) t = (t.0, listed-erase b.addr i bs t.1, erase-IsTable i bs t.2)

abbrev pub KeepsTable : {W : Type 0} → Sdb W → Sdb W → Type 0
KeepsTable s t = IsTable s.bp_list → IsTable t.bp_list

pub KeepsTable-IsPreorder : {W : Type 0} → IsPreorder (KeepsTable {W = W})
KeepsTable-IsPreorder = record { rel_refl = λ s h. h; rel_trans = λ s t u f g h. g (f h) }

pub table_of_Same : {W A : Type 0} (m : M W A) → Keeps Same m → Keeps KeepsTable m
table_of_Same m = Keeps-mono (λ s t h i. subst IsTable (sym h.same_table) i)

module _ (os : Os) where
  Same-set_bp : (a : ℕ) → Keeps Same (say {W = os.World} "**   set bp @ " >> disasm os a 1)
  Same-set_bp a = search (same_rules, Same-disasm)

  pub record_bp-KeepsTable : (a c : ℕ) → a ≢ 0 → Keeps KeepsTable (record_bp os a c)
  unfolding record_bp append_bp modify ◌>>◌ new_bp
  record_bp-KeepsTable a c z = Keeps-get->>= _ λ s. elim (Bool-cases (listed a s.bp_list)) [
    | inl e ↦ rw e ((Keeps-pure KeepsTable-IsPreorder tt).apply s)
    | inr e ↦ rw e (
        Post-mono (Same (added s)) (KeepsTable s) _
          (λ t h i. subst IsTable (sym h.same_table) (append-IsTable a s.bp_list _ refl z e i))
          ((Same-set_bp a).apply (added s)))
  ]
    where
      added : Sdb os.World → Sdb os.World
      added s = record s { bp_list = s.bp_list ++ new_bp s.bp_list a c ∷ [] }

  pub bp-KeepsTable : (a : ℕ) → Keeps KeepsTable (bp os a)
  unfolding bp bp_running set_trap
  bp-KeepsTable a = Keeps-when_running _ _ (table_of_Same _ (Same-say _)) (
      Keeps-get->>= _ λ s. elim (Bool-cases (a == 0)) [
        | inl e ↦ rw e ((table_of_Same _ (Same-say _)).apply s)
        | inr e ↦ rw e (
            (Keeps-if (has_trap (os.peektext s.world s.pid a)) _ _
                (Keeps-pure KeepsTable-IsPreorder tt)
                (Keeps->> KeepsTable-IsPreorder _ _ (table_of_Same _ (Same-poke os _ _ _))
                  (record_bp-KeepsTable a _ (ground arith)))).apply
              s)
      ])

  del_entry-KeepsTable : (id : ℕ) (o : Option Bp) → Keeps KeepsTable (del_entry os id o)
  unfolding del_entry
  del_entry-KeepsTable id none = Keeps-undefined_behaviour _
  del_entry-KeepsTable id (some b) = Keeps->> P _ _ (table_of_Same _ (Same-disasm os _ _)) (
      Keeps->> P _ _ (table_of_Same _ (Same-poke os _ _ _))
        (Keeps-modify _ (λ s h. erase-IsTable id s.bp_list h)))
    where
      P : IsPreorder (KeepsTable {W = os.World})
      P = KeepsTable-IsPreorder

  pub del-KeepsTable : (id : ℕ) → Keeps KeepsTable (del os id)
  unfolding del del_running
  del-KeepsTable id = Keeps-when_running _ _ (table_of_Same _ (Same-say _)) (
      Keeps->>= P _ _ (Keeps-get P) λ s.
        Keeps-if (find_id id s.bp_list) _ _
          (Keeps->> P _ _ (table_of_Same _ (Same-say _)) (del_entry-KeepsTable id _))
          (table_of_Same _ (Same-say _)))
    where
      P : IsPreorder (KeepsTable {W = os.World})
      P = KeepsTable-IsPreorder

  rearm-KeepsTable : (rip : ℕ) (bs : List Bp) → Keeps KeepsTable (rearm os rip bs)
  unfolding rearm
  rearm-KeepsTable rip [] = Keeps-pure KeepsTable-IsPreorder tt
  rearm-KeepsTable rip (b ∷ bs) =
      Keeps->> KeepsTable-IsPreorder _ _
        (Keeps-if (ltb rip b.addr) _ _ (bp-KeepsTable b.addr) (Keeps-pure KeepsTable-IsPreorder tt))
        (rearm-KeepsTable rip bs)

  pub chkbp-KeepsTable : Keeps KeepsTable (chkbp os)
  unfolding chkbp
  chkbp-KeepsTable =
      Keeps->>= KeepsTable-IsPreorder _ _ (table_of_Same _ (Same-fetch_regs os)) λ regs.
        Keeps->>= KeepsTable-IsPreorder _ _ (Keeps-get KeepsTable-IsPreorder)
          λ s. rearm-KeepsTable regs.rip s.bp_list
