-- ===== src/Pagetable/Walk.antt =====
-- get_pagetable and get_page on a well-formed page table.
use os.Base.{◌==◌, true, false, ℕ, ◌+◌, ◌*◌, ◌%◌, ◌<◌, ◌≡◌, refl, arith, inl, inr}
use os.Base.Outcome.{Outcome, ok, panic, ◌>>=◌}
use os.Coremap.Block.{used_at}
use os.Pagetable.{Machine, fill_words, page_frame, page_permissions, create_table, idx_count}
use os.Pagetable.Words.{kaddr, IsPermissions}
use os.Pagetable.Tables.{IsPagetable}
use os.Pagetable.Tables.{table_role, translate, first_permissions}
use os.Pagetable.Frame.{update_self}
use os.Base.{Option, none}
use os.Coremap.Fresh.{NoneFree, OneMore}
use os.Pagetable.Create.{NewTable, table_at, no_table, create_table-NewTable}
use os.Pagetable.Insert.{new_slot_free, table-IsPagetable, table-translate}
use os.Pagetable.Words.{state-free, state-mem, get_value-ok, set_value-ok, get_offset-lt}
use os.Pagetable.{EntryState, get_offset, get_pagetable, addr_up_shift}

-- What get_pagetable comes to when it may create a table: table i of the machine that is left, with
-- every page mapped as before.
pub data TableFor (role : ℕ → ℕ) (root i permissions : ℕ) (m : Machine)
    : Outcome (Option EntryState × ℕ × Machine) → Type 0 where
  table_for :
      {role' : ℕ → ℕ} {k : ℕ} {m' : Machine}
      → IsPagetable role' root m'
      → m'.words (kaddr root + 4 * i) ≡ kaddr k + 2
      → role' k ≡ table_role i
      → ((i' j' : ℕ)
          → i' < idx_count
          → j' < idx_count
          → translate m'.words root i' j' ≡ translate m.words root i' j')
      → ((x : ℕ) → used_at m.coremap.pages x ≡ true → used_at m'.coremap.pages x ≡ true)
      → OneMore m.coremap m'.coremap
      → ((j : ℕ)
          → j < idx_count
          → page_permissions (m'.words (kaddr k + 4 * j))
            ≡ first_permissions m.words root i j permissions)
      → TableFor role root i permissions m (ok (none, kaddr k, m'))
  no_table_for : NoneFree m.coremap → TableFor role root i permissions m panic

module _ (space root vaddr permissions : ℕ) (role : ℕ → ℕ) (m : Machine)
    (h : IsPagetable role root m) (legal : IsPermissions permissions) where
  get-NewTable :
      (r : Outcome (ℕ × Machine))
      → create_table space permissions vaddr m ≡ r
      → NewTable root permissions m r
      → m.words (kaddr root + 4 * get_offset vaddr addr_up_shift) % 2 ≡ 1
      → TableFor role root
          (get_offset vaddr addr_up_shift)
          permissions
          m
          (get_pagetable space (kaddr root) vaddr true permissions m)
  unfolding get_pagetable
  get-NewTable r e (table_at {page} {c} lt u uses len v) f =
      let i = get_offset vaddr addr_up_shift in
      let hi = get_offset-lt vaddr addr_up_shift in
      rw (get_value-ok root i m, ◌>>=◌, state-free _ f, e, set_value-ok root i (kaddr page + 2) _)
        (table_for (table-IsPagetable role root m h page i permissions u hi legal c uses len v)
          (update_self (fill_words idx_count (kaddr page) (1 + permissions) m.words)
            (kaddr root + 4 * i) (kaddr page + 2))
          (update_self role page (table_role i))
          (table-translate role root m h page i permissions u hi legal f)
          (λ x ux. ground (arith, uses x, ux))
          (record {
            spare = page;
            length_eq = len;
            old_use = λ x ux ne. ground (arith, uses x, ux, ne);
          })
          (λ j hj.
            let odd : (m.words (kaddr root + 4 * i) % 2 == 1) ≡ true = ground (arith, f) in
            rw (odd) (
              omega (
                arith,
                new_slot_free role root m h page i permissions u hi legal j hj,
                legal.below,
                legal.whole,
              ))))
  get-NewTable r e (no_table full) f =
      let i = get_offset vaddr addr_up_shift in
      rw (get_value-ok root i m, ◌>>=◌, state-free _ f, e) (no_table_for full)

  pub get_pagetable-TableFor :
      TableFor role root
        (get_offset vaddr addr_up_shift)
        permissions
        m
        (get_pagetable space (kaddr root) vaddr true permissions m)
  unfolding get_pagetable
  get_pagetable-TableFor =
      let i = get_offset vaddr addr_up_shift in
      elim (h.entries i (get_offset-lt vaddr addr_up_shift)) [
        | inl f ↦
            get-NewTable _ refl
              (create_table-NewTable space root vaddr m h.valid h.small h.kernel_page permissions) f
        | inr (k, t) ↦
            let frame : page_frame (m.words (kaddr root + 4 * i)) ≡ kaddr k =
              omega (arith, t.word_eq) in
            let flag : m.words (kaddr root + 4 * i) % 4 ≡ 2 = omega (arith, t.word_eq) in
            rw (get_value-ok root i m, ◌>>=◌, state-mem _ flag, frame)
              (table_for h t.word_eq t.role_eq (λ i' j' hi' hj'. refl) (λ x ux. ux)
                (record { spare = 0; length_eq = refl; old_use = λ x ux ne. ux })
                (λ j hj.
                  let even : (m.words (kaddr root + 4 * i) % 2 == 1) ≡ false =
                    ground (arith, flag) in
                  rw (even, frame) refl))
      ]
