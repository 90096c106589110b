-- ===== src/Pagetable/Page.antt =====
-- get_page on a table of a well-formed page table.
use os.Base.{ℕ, ◌+◌, ◌*◌, ◌/◌, ◌%◌, ◌<◌, ◌≡◌, ◌⊎◌, refl, ap, ◌∙◌, true, false, arith, inl, inr}
use os.Base.Outcome.{Outcome, ok, panic, ◌>>=◌}
use os.Coremap.{page_size}
use os.Coremap.Block.{used_at}
use os.Pagetable.{Machine, update, page_permissions, create_page, idx_count}
use os.Pagetable.Words.{kaddr, IsPermissions, page_word}
use os.Pagetable.Tables.{IsPagetable}
use os.Pagetable.Tables.{Slot, IsSlot, table_role, page_role, slot_paddr, translate}
use os.Pagetable.Frame.{translate-table, update-other, update_self, role-kept, used-kept}
use os.Base.{Option, none}
use os.Coremap.Fresh.{NoneFree}
use os.Pagetable.Create.{NewPage, page_at, no_page, create_page-NewPage}
use os.Pagetable.Place.{
  page_words, entry-same, page-IsPagetable, page-translate, page-translate_other, slot-word,
}
use os.Pagetable.Words.{state-free, state-mem, get_value-ok, set_value-ok}
use os.Pagetable.{EntryState, get_page}

-- What get_page comes to when it may create a page: word j of table i, which stands at page k, has a
-- page; it is the one it had, or one that nobody used. Other pages are mapped as before.
pub data PageFor (root i j k : ℕ) (m : Machine)
    : Outcome (Option EntryState × ℕ × Machine) → Type 0 where
  page_for :
      {role' : ℕ → ℕ} {paddr page permissions : ℕ} {m' : Machine}
      → IsPagetable role' root m'
      → m'.words (kaddr root + 4 * i) ≡ kaddr k + 2
      → role' k ≡ table_role i
      → Slot role' i j (m'.words (kaddr k + 4 * j)) page permissions
      → paddr / 4 * 4 ≡ page * page_size + permissions
      → paddr % 2 ≡ 0
      → translate m'.words root i j ≡ page * page_size + permissions
      → ((i' j' : ℕ)
          → i' < idx_count
          → j' < idx_count
          → ¬ ((i ≡ i') × (j ≡ j'))
          → translate m'.words root i' j' ≡ translate m.words root i' j')
      → ((x : ℕ) → used_at m.coremap.pages x ≡ true → used_at m'.coremap.pages x ≡ true)
      → ((translate m.words root i j ≡ page * page_size + permissions)
          ⊎ ((translate m.words root i j ≡ 1)
              × (used_at m.coremap.pages page ≡ false)
              × (permissions ≡ page_permissions (m.words (kaddr k + 4 * j)))))
      → PageFor root i j k m (ok (none, paddr, m'))
  no_page_for : NoneFree m.coremap → PageFor root i j k m panic

module _ (space root vaddr i j k : ℕ) (role : ℕ → ℕ) (m : Machine) (h : IsPagetable role root m)
    (at : m.words (kaddr root + 4 * i) ≡ kaddr k + 2) (table : role k ≡ table_role i)
    (hi : i < idx_count) (hj : j < idx_count) where
  -- The word has a page.
  get_old_page :
      (page permissions : ℕ)
      → Slot role i j (m.words (kaddr k + 4 * j)) page permissions
      → PageFor root i j k m (get_page space (kaddr k) j true vaddr m)
  unfolding get_page
  get_old_page page permissions s =
      let word : m.words (kaddr k + 4 * j) ≡ page_word page permissions = s.word_eq in
      let there : translate m.words root i j ≡ page * page_size + permissions =
        translate-table m.words root i j k at
        ∙ (ap slot_paddr word ∙ slot-word page permissions s.legal) in
      let flag : m.words (kaddr k + 4 * j) % 4 ≡ 2 = omega (arith, word, s.legal.whole) in
      let paddr : m.words (kaddr k + 4 * j) / 4 * 4 ≡ page * page_size + permissions =
        omega (arith, word, s.legal.whole) in
      rw (get_value-ok k j m, ◌>>=◌, state-mem _ flag, paddr)
        (page_for h at table s (omega (arith, s.legal.whole)) (omega (arith, s.legal.whole)) there
          (λ i' j' hi' hj' ne. refl) (λ x ux. ux) (inl there))

  get-NewPage :
      (r : Outcome (ℕ × Machine))
      → create_page space vaddr m ≡ r
      → NewPage m r
      → m.words (kaddr k + 4 * j) % 2 ≡ 1
      → PageFor root i j k m (get_page space (kaddr k) j true vaddr m)
  unfolding get_page
  get-NewPage r e (page_at {page} {c} lt u uses len v) f =
      let permissions = page_permissions (m.words (kaddr k + 4 * j)) in
      let legal : IsPermissions permissions = record { below = omega arith; whole = omega arith } in
      let kept = role-kept role root m h page u (page_role i j) in
      let own = update_self role page (page_role i j) in
      let valid =
        page-IsPagetable role (update role page (page_role i j)) root m h k i j page permissions at
          table hi hj legal kept own c v len (ground (arith, uses 0, h.kernel_page))
          (used-kept role root m h page u (page_role i j) c uses)
          (update-other role page (page_role i j) 0 (λ z. ground (arith, u, h.kernel_page, z))
            ∙ h.no_role) in
      let still : page_words role (update role page (page_role i j)) root m h k i j page permissions
            at table hi hj legal kept own (kaddr root + 4 * i)
          ≡ kaddr k + 2 =
        entry-same role (update role page (page_role i j)) root m h k i j page permissions at table
          hi hj legal kept own i hi
        ∙ at in
      rw
        (
          get_value-ok k j m,
          ◌>>=◌,
          state-free _ f,
          e,
          set_value-ok k j (page_word page permissions) _,
        )
        (page_for valid still (kept k (λ z. omega (arith, z, table)) ∙ table)
          (record {
            word_eq = update_self m.words (kaddr k + 4 * j) (page_word page permissions);
            legal = legal;
            role_eq = own;
          })
          (omega (arith, legal.whole)) (omega (arith, legal.whole))
          (page-translate role (update role page (page_role i j)) root m h k i j page permissions at
            table hi hj legal kept own)
          (page-translate_other role (update role page (page_role i j)) root m h k i j page
            permissions at table hi hj legal kept own)
          (λ x ux. ground (arith, uses x, ux))
          (inr (translate-table m.words root i j k at ∙ ground (arith, f), u, refl)))
  get-NewPage r e (no_page full) f =
      rw (get_value-ok k j m, ◌>>=◌, state-free _ f, e) (no_page_for full)

  pub get_page-PageFor :
      IsSlot role i j (m.words (kaddr k + 4 * j))
      → PageFor root i j k m (get_page space (kaddr k) j true vaddr m)
  get_page-PageFor (inl f) =
      get-NewPage _ refl (create_page-NewPage space root vaddr m h.valid h.small h.kernel_page) f
  get_page-PageFor (inr (page, permissions, s)) = get_old_page page permissions s
