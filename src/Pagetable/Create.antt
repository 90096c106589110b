-- ===== src/Pagetable/Create.antt =====
-- _pt_create and _pt_create_page take a page that nobody uses.
use os.Base.{
  ℕ, zero, suc, ◌+◌, ◌-◌, ◌*◌, ◌%◌, ◌^◌, ◌≤◌, ◌<◌, ◌≡◌, refl, ◌∙◌, true, false, arith, ◌==◌, ◌||◌,
  length,
}
use os.Base.Outcome.{Outcome, ok, panic}
use os.Coremap.{Coremap, page_size, coremap_getpages}
use os.Coremap.Invariant.{IsCoremap}
use os.Coremap.Block.{used_at}
use os.Coremap.Fresh.{
  NoneFree, OnePage, taken, none_left, coremap_getpages_one, setpagevaddr-SameUse,
}
use os.Pagetable.{
  Machine, fill_words, page_frame, create_table, create_page, alloc_kpages, idx_count, kernel_base,
}
use os.Pagetable.Words.{kaddr}

-- What create_table may come to.
pub data NewTable (root permissions : ℕ) (m : Machine) : Outcome (ℕ × Machine) → Type 0 where
  table_at :
      {page : ℕ} {c : Coremap}
      → page < length m.coremap.pages
      → used_at m.coremap.pages page ≡ false
      → ((k : ℕ) → used_at c.pages k ≡ ((k == page) || used_at m.coremap.pages k))
      → length c.pages ≡ length m.coremap.pages
      → IsCoremap c
      → NewTable root permissions m (
          ok (
            kaddr page,
            record {
              coremap = c;
              words = fill_words idx_count (kaddr page) (1 + permissions) m.words;
            },
          ))
  no_table : NoneFree m.coremap → NewTable root permissions m panic

-- What create_page may come to.
pub data NewPage (m : Machine) : Outcome (ℕ × Machine) → Type 0 where
  page_at :
      {page : ℕ} {c : Coremap}
      → page < length m.coremap.pages
      → used_at m.coremap.pages page ≡ false
      → ((k : ℕ) → used_at c.pages k ≡ ((k == page) || used_at m.coremap.pages k))
      → length c.pages ≡ length m.coremap.pages
      → IsCoremap c
      → NewPage m (ok (page * page_size, record m { coremap = c }))
  no_page : NoneFree m.coremap → NewPage m panic

not_zero :
    (c : Coremap) (page : ℕ) → used_at c.pages 0 ≡ true → used_at c.pages page ≡ false → 0 < page
not_zero c zero z u = ground (arith, z, u)
not_zero c (suc page) z u = omega arith

module _ (space root vaddr : ℕ) (m : Machine) (valid : IsCoremap m.coremap)
    (small : length m.coremap.pages ≤ 2 ^ 19) (z : used_at m.coremap.pages 0 ≡ true) where
  create_table_of :
      (permissions : ℕ) (r : Outcome (ℕ × Coremap))
      → coremap_getpages 1 m.coremap ≡ r
      → OnePage m.coremap r
      → NewTable root permissions m (create_table space permissions vaddr m)
  unfolding create_table alloc_kpages
  create_table_of permissions r e (taken {page} {c'} lt u uses len v) =
      let pos : 0 < page = not_zero m.coremap page z u in
      let some_page : (page * page_size == 0) ≡ false = ground (arith, pos) in
      let address : (page * page_size + kernel_base) % 2 ^ 32 ≡ kaddr page =
        omega (arith, lt, small) in
      let some_table : (kaddr page == 0) ≡ false = ground arith in
      let back : (kaddr page + 2 ^ 32 - kernel_base) % 2 ^ 32 ≡ page * page_size =
        omega (arith, lt, small) in
      let used : used_at c'.pages page ≡ true = ground (arith, uses page) in
      let (c2, e', s) = setpagevaddr-SameUse c' page space (page_frame vaddr + 2) v used in
      rw (e, some_page, address, some_table, back, e')
        (table_at lt u (λ k. s.same_use k ∙ uses k) (s.same_length ∙ len) s.valid)
  create_table_of permissions r e (none_left f) = rw (e) (no_table f)

  pub create_table-NewTable :
      (permissions : ℕ) → NewTable root permissions m (create_table space permissions vaddr m)
  create_table-NewTable permissions =
      create_table_of permissions _ refl (coremap_getpages_one m.coremap valid)

  create_page_of :
      (r : Outcome (ℕ × Coremap))
      → coremap_getpages 1 m.coremap ≡ r
      → OnePage m.coremap r
      → NewPage m (create_page space vaddr m)
  unfolding create_page
  create_page_of r e (taken {page} {c'} lt u uses len v) =
      let pos : 0 < page = not_zero m.coremap page z u in
      let some_page : (page * page_size == 0) ≡ false = ground (arith, pos) in
      let used : used_at c'.pages page ≡ true = ground (arith, uses page) in
      let (c2, e', s) = setpagevaddr-SameUse c' page space (page_frame vaddr + 1) v used in
      rw (e, some_page, e')
        (page_at lt u (λ k. s.same_use k ∙ uses k) (s.same_length ∙ len) s.valid)
  create_page_of r e (none_left f) = rw (e) (no_page f)

  pub create_page-NewPage : NewPage m (create_page space vaddr m)
  create_page-NewPage = create_page_of _ refl (coremap_getpages_one m.coremap valid)
