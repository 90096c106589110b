-- ===== src/Pagetable/Insert.antt =====
-- Hanging a new table or a new page into a page table.
use os.Base.{
  ℕ, ◌+◌, ◌*◌, ◌%◌, ◌<◌, ◌≡◌, ◌≢◌, refl, sym, ap, ◌∙◌, subst, true, false, arith, ◌==◌, ◌||◌,
  Bool-cases, inl, inr, length,
}
use os.Coremap.{Coremap}
use os.Coremap.Invariant.{IsCoremap}
use os.Coremap.Block.{used_at}
use os.Pagetable.{Machine, update, fill_words, idx_count}
use os.Pagetable.Words.{kaddr, IsPermissions, fill_inside, fill_outside}
use os.Pagetable.Tables.{IsPagetable}
use os.Pagetable.Tables.{IsSlot, Table, IsEntry, table_role, slot_paddr, translate}
use os.Pagetable.Frame.{
  translate-free, translate-table, pages-differ, update-other, update_self, role-kept, Slot-kept,
  used-kept, page-not_root, page-no_table, table-not_root,
}

slot-free : (permissions : ℕ) → IsPermissions permissions → slot_paddr (1 + permissions) ≡ 1
slot-free permissions p =
    let odd : ((1 + permissions) % 2 == 1) ≡ true = ground (arith, p.whole) in rw (odd) refl

free_slot : {w permissions : ℕ} → IsPermissions permissions → w ≡ 1 + permissions → w % 2 ≡ 1
free_slot p e = omega (arith, p.whole, e)

-- Entry i of the first level gets a new table at page `page`, all its words free.
module _ (role : ℕ → ℕ) (root : ℕ) (m : Machine) (h : IsPagetable role root m)
    (page i permissions : ℕ) (u : used_at m.coremap.pages page ≡ false) (hi : i < idx_count)
    (p : IsPermissions permissions) where
  abbrev filled : ℕ → ℕ
  filled = fill_words idx_count (kaddr page) (1 + permissions) m.words

  abbrev pub table_words : ℕ → ℕ
  table_words = update filled (kaddr root + 4 * i) (kaddr page + 2)

  pub new_slot_free : (j : ℕ) → j < idx_count → table_words (kaddr page + 4 * j) ≡ 1 + permissions
  new_slot_free j hj =
      update-other filled (kaddr root + 4 * i) (kaddr page + 2) (kaddr page + 4 * j)
        (λ e. pages-differ page root j i (page-not_root role root m h page u 0) hj hi (sym e))
      ∙ fill_inside idx_count (kaddr page) (1 + permissions) m.words j hj

  filled-other :
      (k j : ℕ) → page ≢ k → j < idx_count → filled (kaddr k + 4 * j) ≡ m.words (kaddr k + 4 * j)
  filled-other k j ne hj =
      fill_outside idx_count (kaddr page) (1 + permissions) m.words (kaddr k + 4 * j)
        (λ a l. pages-differ page k a j ne l hj)

  other_table_slot :
      (k i' j : ℕ)
      → role k ≡ table_role i'
      → j < idx_count
      → table_words (kaddr k + 4 * j) ≡ m.words (kaddr k + 4 * j)
  other_table_slot k i' j r hj =
      update-other filled (kaddr root + 4 * i) (kaddr page + 2) (kaddr k + 4 * j)
        (λ e. pages-differ k root j i (table-not_root role root m k i' h r) hj hi (sym e))
      ∙ filled-other k j (page-no_table role root m h page u 0 k i' r) hj

  other_entry :
      (i' : ℕ)
      → i ≢ i'
      → i' < idx_count
      → table_words (kaddr root + 4 * i') ≡ m.words (kaddr root + 4 * i')
  other_entry i' ne hi' =
      update-other filled (kaddr root + 4 * i) (kaddr page + 2) (kaddr root + 4 * i')
        (λ e. ne (omega (arith, e)))
      ∙ filled-other root i' (page-not_root role root m h page u 0) hi'

  new-Table : Table (update role page (table_role i)) table_words i (kaddr page + 2) page
  new-Table = record {
    word_eq = refl;
    role_eq = update_self role page (table_role i);
    slots = λ j hj. inl (free_slot p (new_slot_free j hj));
  }

  old-Table :
      (i' w k : ℕ)
      → Table role m.words i' w k
      → Table (update role page (table_role i)) table_words i' w k
  old-Table i' w k t = record {
    word_eq = t.word_eq;
    role_eq =
        role-kept role root m h page u (table_role i) k (λ z. omega (arith, z, t.role_eq))
        ∙ t.role_eq;
    slots = λ j hj.
        subst (IsSlot (update role page (table_role i)) i' j)
          (sym (other_table_slot k i' j t.role_eq hj))
          (Slot-kept role root m h page u (table_role i) i' j _ (t.slots j hj));
  }

  old-IsEntry :
      (i' w : ℕ)
      → IsEntry role m.words i' w
      → IsEntry (update role page (table_role i)) table_words i' w
  old-IsEntry i' w (inl f) = inl f
  old-IsEntry i' w (inr (k, t)) = inr (k, old-Table i' w k t)

  pub table-IsPagetable :
      (c : Coremap)
      → ((k : ℕ) → used_at c.pages k ≡ ((k == page) || used_at m.coremap.pages k))
      → length c.pages ≡ length m.coremap.pages
      → IsCoremap c
      → IsPagetable
          (update role page (table_role i))
          root
          (record { coremap = c; words = table_words })
  table-IsPagetable c uses len v = record {
    valid = v;
    small = omega (arith, len, h.small);
    kernel_page = ground (arith, uses 0, h.kernel_page);
    no_role =
        update-other role page (table_role i) 0 (λ e. ground (arith, u, h.kernel_page, e))
        ∙ h.no_role;
    used = used-kept role root m h page u (table_role i) c uses;
    root_role =
        role-kept role root m h page u (table_role i) root (λ z. omega (arith, z, h.root_role))
        ∙ h.root_role;
    entries = λ i' hi'. elim (Bool-cases (i == i')) [
      | inl e ↦
          let same : i ≡ i' = ground (arith, e) in
          subst
            (λ x.
              IsEntry (update role page (table_role i)) table_words x
                (table_words (kaddr root + 4 * x)))
            same
            (inr (
              page,
              subst (λ w. Table (update role page (table_role i)) table_words i w page)
                  (sym (update_self filled (kaddr root + 4 * i) (kaddr page + 2))) new-Table,
            ))
      | inr e ↦
          subst (IsEntry (update role page (table_role i)) table_words i')
            (sym (other_entry i' (ground (arith, e)) hi')) (old-IsEntry i' _ (h.entries i' hi'))
    ];
  }

  -- Nothing was mapped there before, and nothing is now; other pages are mapped as they were.
  pub table-translate :
      m.words (kaddr root + 4 * i) % 2 ≡ 1
      → (i' j' : ℕ) → i' < idx_count
      → j' < idx_count
      → translate table_words root i' j' ≡ translate m.words root i' j'
  table-translate f i' j' hi' hj' = elim (Bool-cases (i == i')) [
    | inl e ↦
        let same : i ≡ i' = ground (arith, e) in
        subst (λ x. translate table_words root x j' ≡ translate m.words root x j') same
          (translate-table table_words root i j' page
              (update_self filled (kaddr root + 4 * i) (kaddr page + 2))
            ∙ (ap slot_paddr (new_slot_free j' hj')
                ∙ (slot-free permissions p ∙ sym (translate-free m.words root i j' f))))
    | inr e ↦
        let at : table_words (kaddr root + 4 * i') ≡ m.words (kaddr root + 4 * i') =
          other_entry i' (ground (arith, e)) hi' in
        elim (h.entries i' hi') [
          | inl g ↦
              translate-free table_words root i' j' (ap (λ w. w % 2) at ∙ g)
              ∙ sym (translate-free m.words root i' j' g)
          | inr (k, t) ↦
              translate-table table_words root i' j' k (at ∙ t.word_eq)
              ∙ (ap slot_paddr (other_table_slot k i' j' t.role_eq hj')
                  ∙ sym (translate-table m.words root i' j' k t.word_eq))
        ]
  ]
