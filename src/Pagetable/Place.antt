-- ===== src/Pagetable/Place.antt =====
-- Writing a word of a table: it gets a page, or the page it has gets other permissions.
use os.Base.{
  ℕ, ◌+◌, ◌*◌, ◌%◌, ◌<◌, ◌≡◌, ◌≢◌, ◌⊎◌, sym, ap, ◌∙◌, subst, true, false, arith, ◌==◌, Bool-cases,
  inl, inr, length,
}
use os.Base.{ap₂}
use os.Coremap.{Coremap, page_size}
use os.Coremap.Invariant.{IsCoremap}
use os.Coremap.Block.{used_at}
use os.Pagetable.{Machine, update, idx_count}
use os.Pagetable.Words.{kaddr, IsPermissions, page_word}
use os.Pagetable.Tables.{IsPagetable}
use os.Pagetable.Tables.{IsSlot, IsEntry, table_role, page_role, slot_paddr, translate}
use os.Pagetable.Frame.{
  translate-free, translate-table, pages-differ, update-other, update_self, table-not_root,
}

pub slot-word :
    (page permissions : ℕ)
    → IsPermissions permissions
    → slot_paddr (page_word page permissions) ≡ page * page_size + permissions
slot-word page permissions l =
    let even : ((page * page_size + 2 + permissions) % 2 == 1) ≡ false = ground (arith, l.whole) in
    rw (even) (omega (arith, l.whole))

-- Word j of table i, which stands at page k, gets `page`. `role'` adds the role of `page` to `role`.
module _ (role role' : ℕ → ℕ) (root : ℕ) (m : Machine) (h : IsPagetable role root m)
    (k i j page permissions : ℕ) (at : m.words (kaddr root + 4 * i) ≡ kaddr k + 2)
    (table : role k ≡ table_role i) (hi : i < idx_count) (hj : j < idx_count)
    (legal : IsPermissions permissions) (kept : (x : ℕ) → role x ≢ 0 → role' x ≡ role x)
    (role_eq : role' page ≡ page_role i j) where
  abbrev pub page_words : ℕ → ℕ
  page_words = update m.words (kaddr k + 4 * j) (page_word page permissions)

  kept-Slot : (i' j' w : ℕ) → IsSlot role i' j' w → IsSlot role' i' j' w
  kept-Slot i' j' w (inl f) = inl f
  kept-Slot i' j' w (inr (x, permissions', s)) = inr (
    x,
    permissions',
    record {
      word_eq = s.word_eq;
      legal = s.legal;
      role_eq = kept x (λ z. omega (arith, z, s.role_eq)) ∙ s.role_eq;
    },
  )

  pub entry-same :
      (i' : ℕ) → i' < idx_count → page_words (kaddr root + 4 * i') ≡ m.words (kaddr root + 4 * i')
  entry-same i' hi' =
      update-other m.words (kaddr k + 4 * j) (page_word page permissions) (kaddr root + 4 * i')
        (pages-differ k root j i' (table-not_root role root m k i h table) hj hi')

  -- The word that is written, or another one.
  slot-same :
      (x i' j' : ℕ)
      → role x ≡ table_role i'
      → j' < idx_count
      → ((i ≡ i') × (j ≡ j') × (k ≡ x))
        ⊎ (page_words (kaddr x + 4 * j') ≡ m.words (kaddr x + 4 * j'))
  slot-same x i' j' r hj' = elim (Bool-cases (k == x)) [
    | inl e ↦
        let same : k ≡ x = ground (arith, e) in
        elim (Bool-cases (j == j')) [
          | inl f ↦ inl (omega (arith, sym table ∙ (ap role same ∙ r)), ground (arith, f), same)
          | inr f ↦ inr (
              update-other m.words (kaddr k + 4 * j) (page_word page permissions) (kaddr x + 4 * j')
                (λ g. let q : j ≡ j' = omega (arith, g, same) in ground (arith, f, q)))
        ]
    | inr e ↦ inr (
        update-other m.words (kaddr k + 4 * j) (page_word page permissions) (kaddr x + 4 * j')
          (pages-differ k x j j' (ground (arith, e)) hj hj'))
  ]

  written-Slot :
      (x i' j' : ℕ) → i ≡ i' → j ≡ j' → k ≡ x → IsSlot role' i' j' (page_words (kaddr x + 4 * j'))
  written-Slot x i' j' p q r = inr (
    page,
    permissions,
    record {
      word_eq =
          subst (λ y. page_words y ≡ page_word page permissions) (ap₂ (λ a b. kaddr a + 4 * b) r q)
            (update_self m.words (kaddr k + 4 * j) (page_word page permissions));
      legal = legal;
      role_eq = role_eq ∙ ap₂ page_role p q;
    },
  )

  new_slot :
      (x i' j' : ℕ)
      → role x ≡ table_role i'
      → j' < idx_count
      → IsSlot role i' j' (m.words (kaddr x + 4 * j'))
      → IsSlot role' i' j' (page_words (kaddr x + 4 * j'))
  new_slot x i' j' r hj' s = elim (slot-same x i' j' r hj') [
    | inl (p, q, e) ↦ written-Slot x i' j' p q e
    | inr e ↦ subst (IsSlot role' i' j') (sym e) (kept-Slot i' j' _ s)
  ]

  new-IsEntry : (i' w : ℕ) → IsEntry role m.words i' w → IsEntry role' page_words i' w
  new-IsEntry i' w (inl f) = inl f
  new-IsEntry i' w (inr (x, t)) = inr (
    x,
    record {
      word_eq = t.word_eq;
      role_eq = kept x (λ z. omega (arith, z, t.role_eq)) ∙ t.role_eq;
      slots = λ j' hj'. new_slot x i' j' t.role_eq hj' (t.slots j' hj');
    },
  )

  pub page-IsPagetable :
      (c : Coremap)
      → IsCoremap c
      → length c.pages ≡ length m.coremap.pages
      → used_at c.pages 0 ≡ true
      → ((x : ℕ) → role' x ≢ 0 → used_at c.pages x ≡ true)
      → role' 0 ≡ 0
      → IsPagetable role' root (record { coremap = c; words = page_words })
  page-IsPagetable c v len z uses none = record {
    valid = v;
    small = omega (arith, len, h.small);
    kernel_page = z;
    no_role = none;
    used = uses;
    root_role = kept root (λ z. omega (arith, z, h.root_role)) ∙ h.root_role;
    entries = λ i' hi'.
        subst (IsEntry role' page_words i') (sym (entry-same i' hi'))
          (new-IsEntry i' _ (h.entries i' hi'));
  }

  -- The page is mapped with its permissions, and other pages are mapped as they were.
  pub page-translate : translate page_words root i j ≡ page * page_size + permissions
  page-translate =
      translate-table page_words root i j k (entry-same i hi ∙ at)
      ∙ (ap slot_paddr (update_self m.words (kaddr k + 4 * j) (page_word page permissions))
          ∙ slot-word page permissions legal)

  pub page-translate_other :
      (i' j' : ℕ)
      → i' < idx_count
      → j' < idx_count
      → ¬ ((i ≡ i') × (j ≡ j'))
      → translate page_words root i' j' ≡ translate m.words root i' j'
  page-translate_other i' j' hi' hj' ne = elim (h.entries i' hi') [
    | inl f ↦
        translate-free page_words root i' j' (ap (λ w. w % 2) (entry-same i' hi') ∙ f)
        ∙ sym (translate-free m.words root i' j' f)
    | inr (x, t) ↦ elim (slot-same x i' j' t.role_eq hj') [
      | inl (p, q, e) ↦ absurd (ne (p, q))
      | inr e ↦
          translate-table page_words root i' j' x (entry-same i' hi' ∙ t.word_eq)
          ∙ (ap slot_paddr e ∙ sym (translate-table m.words root i' j' x t.word_eq))
    ]
  ]
