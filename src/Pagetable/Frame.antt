-- ===== src/Pagetable/Frame.antt =====
-- Reading a page table, and what a new page leaves as it was.
use os.Base.{
  ℕ, ◌+◌, ◌*◌, ◌/◌, ◌%◌, ◌<◌, ◌≡◌, ◌≢◌, refl, sym, ap, ◌∙◌, true, false, arith, ◌==◌, ◌||◌,
  Bool-cases, inl, inr,
}
use os.Coremap.{Coremap, page_size}
use os.Coremap.Block.{used_at}
use os.Pagetable.{Machine, update, idx_count}
use os.Pagetable.Words.{kaddr}
use os.Pagetable.Tables.{IsPagetable, fresh-role}
use os.Pagetable.Tables.{IsSlot, table_role, slot_paddr, translate}

pub translate-free :
    (words : ℕ → ℕ) (root i j : ℕ)
    → words (kaddr root + 4 * i) % 2 ≡ 1
    → translate words root i j ≡ 1
translate-free words root i j e = ground (arith, e)

pub translate-table :
    (words : ℕ → ℕ) (root i j page : ℕ)
    → words (kaddr root + 4 * i) ≡ kaddr page + 2
    → translate words root i j ≡ slot_paddr (words (kaddr page + 4 * j))
translate-table words root i j page e =
    let even : ((kaddr page + 2) % 2 == 1) ≡ false = ground arith in
    let frame : (kaddr page + 2) / page_size * page_size ≡ kaddr page = omega arith in
    rw (e, even, frame) refl

-- Words of different pages stand at different addresses.
pub pages-differ :
    (p q i j : ℕ) → p ≢ q → i < idx_count → j < idx_count → kaddr p + 4 * i ≢ kaddr q + 4 * j
pages-differ p q i j ne hi hj e = ne (omega (arith, e, hi, hj))

pub update-other : (words : ℕ → ℕ) (a v b : ℕ) → a ≢ b → update words a v b ≡ words b
update-other words a v b ne = ground (arith, ne)

pub update_self : (words : ℕ → ℕ) (a v : ℕ) → update words a v a ≡ v
update_self words a v = ground arith

-- A page that was not in use gets a role.
module _ (role : ℕ → ℕ) (root : ℕ) (m : Machine) (h : IsPagetable role root m) (page : ℕ)
    (u : used_at m.coremap.pages page ≡ false) (new_role : ℕ) where
  pub role-kept : (k : ℕ) → role k ≢ 0 → update role page new_role k ≡ role k
  role-kept k ne =
      update-other role page new_role k
        (λ e. ne (sym (ap role e) ∙ fresh-role role root m page h u))

  pub Slot-kept : (i j w : ℕ) → IsSlot role i j w → IsSlot (update role page new_role) i j w
  Slot-kept i j w (inl f) = inl f
  Slot-kept i j w (inr (k, permissions, s)) = inr (
    k,
    permissions,
    record {
      word_eq = s.word_eq;
      legal = s.legal;
      role_eq = role-kept k (λ z. omega (arith, z, s.role_eq)) ∙ s.role_eq;
    },
  )

  pub used-kept :
      (c : Coremap)
      → ((k : ℕ) → used_at c.pages k ≡ ((k == page) || used_at m.coremap.pages k))
      → (k : ℕ) → update role page new_role k ≢ 0
      → used_at c.pages k ≡ true
  used-kept c uses k ne = elim (Bool-cases (page == k)) [
    | inl e ↦ ground (arith, uses k, e)
    | inr e ↦
        let old : role k ≢ 0 =
          λ z. ne (update-other role page new_role k (ground (arith, e)) ∙ z) in
        ground (arith, uses k, h.used k old)
  ]

  pub page-not_root : page ≢ root
  page-not_root e = ground (arith, h.root_role, sym (ap role e) ∙ fresh-role role root m page h u)

  pub page-no_table : (k i : ℕ) → role k ≡ table_role i → page ≢ k
  page-no_table k i r e = omega (arith, r, sym (ap role e) ∙ fresh-role role root m page h u)

-- A table is no first level.
pub table-not_root :
    (role : ℕ → ℕ) (root : ℕ) (m : Machine) (k i : ℕ)
    → IsPagetable role root m
    → role k ≡ table_role i
    → k ≢ root
table-not_root role root m k i h r e = omega (arith, r, ap role e, h.root_role)
