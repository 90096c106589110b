-- ===== src/Pagetable/Assign.antt =====
-- pt_get_paddr with leave to create, and pt_set_permissions.
use os.Base.{
  ℕ, ◌+◌, ◌*◌, ◌/◌, ◌%◌, ◌<◌, ◌≡◌, ◌⊎◌, refl, sym, ◌∙◌, subst, Bool, true, false, arith, ◌==◌, inl,
  inr,
}
use os.Base.Outcome.{Outcome, ok, panic, ◌>>=◌}
use os.Coremap.{page_size}
use os.Coremap.Block.{used_at}
use os.Pagetable.{Machine, idx_count}
use os.Pagetable.Words.{kaddr, IsPermissions}
use os.Pagetable.Tables.{IsPagetable}
use os.Pagetable.Tables.{IsSlot, translate}
use os.Base.{Option, none}
use os.Pagetable.Words.{get_offset-lt}
use os.Pagetable.{EntryState, get_pagetable, get_page, pt_get_paddr, addr_up_shift, addr_low_shift}
use os.Pagetable.{get_offset, page_permissions}
use os.Pagetable.Tables.{first_permissions}
use os.Coremap.Fresh.{OneLeft, OneMore, one_left}
use os.Pagetable.Walk.{TableFor, table_for, no_table_for, get_pagetable-TableFor}
use os.Pagetable.Page.{PageFor, page_for, no_page_for, get_page-PageFor}
use os.Pagetable.Mapped.{up, low}

-- What a call on (i, j) that may create comes to: the page table is well formed, (i, j) has a page
-- with the permissions `p`, the one that it had or one that nobody used, and other pages are mapped
-- as before; or at most one page of memory is free.
pub record Assigned (root i j page p : ℕ) (m m' : Machine) : Type 0 where
  pub well_formed : (role' : ℕ → ℕ) × IsPagetable role' root m'
  pub there : translate m'.words root i j ≡ page * page_size + p
  pub others :
      (i' j' : ℕ)
      → i' < idx_count
      → j' < idx_count
      → ¬ ((i ≡ i') × (j ≡ j'))
      → translate m'.words root i' j' ≡ translate m.words root i' j'
  pub still_used : (x : ℕ) → used_at m.coremap.pages x ≡ true → used_at m'.coremap.pages x ≡ true

-- The page is the one that (i, j) had, or was free.
abbrev pub OldOrFree : ℕ → ℕ → ℕ → ℕ → Machine → Type 0
OldOrFree root i j page m =
    ((p : ℕ) × (translate m.words root i j ≡ page * page_size + p) × IsPermissions p)
    ⊎ ((translate m.words root i j ≡ 1) × (used_at m.coremap.pages page ≡ false))

-- It is the page that (i, j) had, with its permissions, or it was free and gets its first permissions.
abbrev pub OldOrNew : ℕ → ℕ → ℕ → ℕ → ℕ → ℕ → Machine → Type 0
OldOrNew root i j permissions page p m =
    (translate m.words root i j ≡ page * page_size + p)
    ⊎ ((translate m.words root i j ≡ 1)
        × (used_at m.coremap.pages page ≡ false)
        × (p ≡ first_permissions m.words root i j permissions))

pub data Mapped (root i j permissions : ℕ) (m : Machine) : Outcome (ℕ × Machine) → Type 0 where
  mapped :
      {paddr page p : ℕ} {m' : Machine}
      → paddr / 4 * 4 ≡ page * page_size + p
      → paddr % 2 ≡ 0
      → IsPermissions p
      → Assigned root i j page p m m'
      → OldOrNew root i j permissions page p m
      → Mapped root i j permissions m (ok (paddr, m'))
  no_memory : OneLeft m.coremap → Mapped root i j permissions m panic

pub unused : (b c : Bool) → (b ≡ true → c ≡ true) → c ≡ false → b ≡ false
unused true c f e = ground (arith, f refl, e)
unused false c f e = refl

pub slot_of :
    (role : ℕ → ℕ) (root i j k : ℕ) (m : Machine)
    → IsPagetable role root m
    → i < idx_count
    → j < idx_count
    → m.words (kaddr root + 4 * i) ≡ kaddr k + 2
    → IsSlot role i j (m.words (kaddr k + 4 * j))
slot_of role root i j k m h hi hj e = elim (h.entries i hi) [
  | inl f ↦ omega (arith, f, e)
  | inr (x, t) ↦
      let same : x ≡ k = omega (arith, e, t.word_eq) in
      subst (λ y. IsSlot role i j (m.words (kaddr y + 4 * j))) same (t.slots j hj)
]

module _ (space root vaddr : ℕ) (role : ℕ → ℕ) (m : Machine) (h : IsPagetable role root m)
    (permissions : ℕ) (legal : IsPermissions permissions) where
  -- With the table at hand.
  with_page :
      (k : ℕ) (m1 : Machine) (r : Outcome (Option EntryState × ℕ × Machine))
      → get_pagetable space (kaddr root) vaddr true permissions m ≡ ok (none, kaddr k, m1)
      → get_page space (kaddr k) (low vaddr) true vaddr m1 ≡ r
      → PageFor root (up vaddr) (low vaddr) k m1 r
      → ((i' j' : ℕ)
          → i' < idx_count
          → j' < idx_count
          → translate m1.words root i' j' ≡ translate m.words root i' j')
      → ((x : ℕ) → used_at m.coremap.pages x ≡ true → used_at m1.coremap.pages x ≡ true)
      → OneMore m.coremap m1.coremap
      → ((j : ℕ)
          → j < idx_count
          → page_permissions (m1.words (kaddr k + 4 * j))
            ≡ first_permissions m.words root (up vaddr) j permissions)
      → Mapped root
          (up vaddr)
          (low vaddr)
          permissions
          m
          (pt_get_paddr space (kaddr root) vaddr true permissions m)
  unfolding pt_get_paddr get_offset
  with_page k m1 r e e'
        (page_for {role'} {paddr} {page} {permissions = p} {m'} g at table s pa even at_last others
          mono which)
        same used more first =
      let some_table : (kaddr k == 0) ≡ false = ground arith in
      let hi = get_offset-lt vaddr addr_up_shift in
      let hj = get_offset-lt vaddr addr_low_shift in
      rw (e, ◌>>=◌, some_table, e', ◌>>=◌)
        (mapped pa even s.legal
          (record {
            well_formed = (role', g);
            there = at_last;
            others = λ i' j' hi' hj' ne. others i' j' hi' hj' ne ∙ same i' j' hi' hj';
            still_used = λ x ux. mono x (used x ux);
          })
          (elim which [
            | inl old ↦ inl (sym (same (up vaddr) (low vaddr) hi hj) ∙ old)
            | inr (none_there, idle, new) ↦ inr (
              sym (same (up vaddr) (low vaddr) hi hj) ∙ none_there,
              unused (used_at m.coremap.pages page) (used_at m1.coremap.pages page) (used page)
                  idle,
              new ∙ first (low vaddr) hj,
            )
          ]))
  with_page k m1 r e e' (no_page_for full) same used more first =
      let some_table : (kaddr k == 0) ≡ false = ground arith in
      rw (e, ◌>>=◌, some_table, e', ◌>>=◌) (no_memory (one_left m.coremap m1.coremap more full))

  with_table :
      (r : Outcome (Option EntryState × ℕ × Machine))
      → get_pagetable space (kaddr root) vaddr true permissions m ≡ r
      → TableFor role root (up vaddr) permissions m r
      → Mapped root
          (up vaddr)
          (low vaddr)
          permissions
          m
          (pt_get_paddr space (kaddr root) vaddr true permissions m)
  unfolding pt_get_paddr get_offset
  with_table r e (table_for {role'} {k} {m'} g at table same used more first) =
      let hi = get_offset-lt vaddr addr_up_shift in
      let hj = get_offset-lt vaddr addr_low_shift in
      with_page k m' _ e refl
        (get_page-PageFor space root vaddr (up vaddr) (low vaddr) k role' m' g at table hi hj
          (slot_of role' root (up vaddr) (low vaddr) k m' g hi hj at))
        same used more first
  with_table r e (no_table_for full) = rw (e, ◌>>=◌) (no_memory (0, λ k lt ne. full k lt))

  -- With leave to create, pt_get_paddr on a well-formed page table returns the address of a page
  -- with its permissions; from then on the address is mapped to it. It is the page that the
  -- address had, with its permissions, or one that nobody used, with those asked for if its table
  -- is new and else those that its word held; other addresses are mapped as before, and the page
  -- table stays well formed. It panics only when at most one page of memory is free.
  pub pt_get_paddr-Mapped :
      Mapped root
        (up vaddr)
        (low vaddr)
        permissions
        m
        (pt_get_paddr space (kaddr root) vaddr true permissions m)
  unfolding get_offset
  pt_get_paddr-Mapped =
      with_table _ refl (get_pagetable-TableFor space root vaddr permissions role m h legal)
