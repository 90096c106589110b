-- ===== src/Pagetable/Permissions.antt =====
-- pt_set_permissions on a well-formed page table.
use os.Base.{ℕ, ◌+◌, ◌-◌, ◌*◌, ◌<◌, ◌≡◌, refl, sym, ◌∙◌, Bool, true, false, arith, ◌==◌, inl, inr}
use os.Base.Outcome.{Outcome, ok, panic, ◌>>=◌}
use os.Coremap.Block.{used_at}
use os.Pagetable.{Machine, page_permissions, idx_count}
use os.Pagetable.Words.{kaddr, IsPermissions, page_word}
use os.Pagetable.Tables.{IsPagetable}
use os.Pagetable.Tables.{translate}
use os.Base.{Option, none}
use os.Pagetable.Place.{page-IsPagetable, page-translate, page-translate_other}
use os.Pagetable.Words.{get_value-ok, set_value-ok, get_offset-lt}
use os.Pagetable.{EntryState, get_pagetable, get_page, addr_up_shift, addr_low_shift}
use os.Pagetable.{get_offset, page_permissions}
use os.Coremap.Fresh.{OneLeft, OneMore, one_left}
use os.Pagetable.Walk.{TableFor, table_for, no_table_for, get_pagetable-TableFor}
use os.Pagetable.Page.{PageFor, page_for, no_page_for, get_page-PageFor}
use os.Pagetable.{pt_set_permissions}
use os.Pagetable.Mapped.{up, low}
use os.Pagetable.Assign.{Assigned, OldOrFree, slot_of, unused}

pub data Granted (root i j q : ℕ) (m : Machine) : Outcome (Bool × Machine) → Type 0 where
  granted :
      {page : ℕ} {m' : Machine}
      → Assigned root i j page q m m'
      → OldOrFree root i j page m
      → Granted root i j q m (ok (true, m'))
  no_memory : OneLeft m.coremap → Granted root i j q m panic

module _ (space root vaddr : ℕ) (role : ℕ → ℕ) (m : Machine) (h : IsPagetable role root m) (q : ℕ)
    (legal : IsPermissions q) where
  with_page :
      (k : ℕ) (m1 : Machine) (r : Outcome (Option EntryState × ℕ × Machine))
      → get_pagetable space (kaddr root) vaddr true q m ≡ ok (none, kaddr k, m1)
      → get_page space (kaddr k) (low vaddr) true vaddr m1 ≡ r
      → PageFor root (up vaddr) (low vaddr) k m1 r
      → ((i' j' : ℕ)
          → i' < idx_count
          → j' < idx_count
          → translate m1.words root i' j' ≡ translate m.words root i' j')
      → ((x : ℕ) → used_at m.coremap.pages x ≡ true → used_at m1.coremap.pages x ≡ true)
      → OneMore m.coremap m1.coremap
      → Granted root
          (up vaddr)
          (low vaddr)
          q
          m
          (pt_set_permissions space (kaddr root) vaddr true q m)
  unfolding pt_set_permissions get_offset
  with_page k m1 r e e'
        (page_for {role'} {paddr} {page} {permissions = p} {m'} g at table s pa even at_last others
          mono which)
        same used more =
      let some_table : (kaddr k == 0) ≡ false = ground arith in
      let hi = get_offset-lt vaddr addr_up_shift in
      let hj = get_offset-lt vaddr addr_low_shift in
      let i = up vaddr in
      let j = low vaddr in
      let value : m'.words (kaddr k + 4 * j) - page_permissions (m'.words (kaddr k + 4 * j)) + q
          ≡ page_word page q =
        omega (arith, s.word_eq, s.legal.below, s.legal.whole) in
      let valid =
        page-IsPagetable role' role' root m' g k i j page q at table hi hj legal (λ x ne. refl)
          s.role_eq m'.coremap g.valid refl g.kernel_page g.used g.no_role in
      rw
        (
          e,
          ◌>>=◌,
          some_table,
          e',
          ◌>>=◌,
          get_value-ok k j m',
          ◌>>=◌,
          value,
          set_value-ok k j (page_word page q) m',
          ◌>>=◌,
        )
        (granted
          (record {
            well_formed = (role', valid);
            there =
                page-translate role' role' root m' g k i j page q at table hi hj legal
                  (λ x ne. refl) s.role_eq;
            others = λ i' j' hi' hj' ne.
                page-translate_other role' role' root m' g k i j page q at table hi hj legal
                  (λ x n. refl) s.role_eq i' j' hi' hj' ne
                ∙ (others i' j' hi' hj' ne ∙ same i' j' hi' hj');
            still_used = λ x ux. mono x (used x ux);
          })
          (elim which [
            | inl old ↦ inl (p, sym (same i j hi hj) ∙ old, s.legal)
            | inr (none_there, idle, new) ↦ inr (
              sym (same i j hi hj) ∙ none_there,
              unused (used_at m.coremap.pages page) (used_at m1.coremap.pages page) (used page)
                  idle,
            )
          ]))
  with_page k m1 r e e' (no_page_for full) same used more =
      let some_table : (kaddr k == 0) ≡ false = ground arith in
      rw (e, ◌>>=◌, some_table, e', ◌>>=◌) (no_memory (one_left m.coremap m1.coremap more full))

  with_table :
      (r : Outcome (Option EntryState × ℕ × Machine))
      → get_pagetable space (kaddr root) vaddr true q m ≡ r
      → TableFor role root (up vaddr) q m r
      → Granted root
          (up vaddr)
          (low vaddr)
          q
          m
          (pt_set_permissions space (kaddr root) vaddr true q m)
  unfolding pt_set_permissions get_offset
  with_table r e (table_for {role'} {k} {m'} g at table same used more first) =
      let hi = get_offset-lt vaddr addr_up_shift in
      let hj = get_offset-lt vaddr addr_low_shift in
      with_page k m' _ e refl
        (get_page-PageFor space root vaddr (up vaddr) (low vaddr) k role' m' g at table hi hj
          (slot_of role' root (up vaddr) (low vaddr) k m' g hi hj at))
        same used more
  with_table r e (no_table_for full) = rw (e, ◌>>=◌) (no_memory (0, λ k lt ne. full k lt))

  -- With leave to create, pt_set_permissions on a well-formed page table returns 1 and leaves the
  -- address mapped with exactly the permissions given, to the page that it had or to one that
  -- nobody used; other addresses are mapped as before, and the page table stays well formed. It
  -- panics only when at most one page of memory is free.
  pub pt_set_permissions-Granted :
      Granted root (up vaddr) (low vaddr) q m (pt_set_permissions space (kaddr root) vaddr true q m)
  unfolding get_offset
  pt_set_permissions-Granted =
      with_table _ refl (get_pagetable-TableFor space root vaddr q role m h legal)
