-- ===== src/Coremap/Alloc.antt =====
-- coremap_getpages.
use os.Base.{
  ℕ, ◌+◌, ◌-◌, ◌*◌, ◌%◌, ◌^◌, ◌≤◌, ◌<◌, ◌≡◌, refl, ◌⊎◌, true, false, Option, some, List, arith,
  ◌==◌, Bool-cases, inl, inr, length, get_elem?,
}
use os.Base.Outcome.{Outcome, ok, panic}
use os.Coremap.{
  CoremapPage, free, allocated, entry, is_free, Coremap, page_size, coremap_getfreepages,
  coremap_getpages,
}
use os.Coremap.Scan.{AllFree, Busy, FreePages, got, nowhere, coremap_getfreepages-FreePages}
use os.Coremap.Fill.{in_range}
use os.Coremap.Block.{Blocked, mark_block-Blocked}
use os.Coremap.Invariant.{IsCoremap, count_used-le}

-- What an allocation of `npages` pages may come to: a new block over pages that were free, or a
-- panic where no free run lies behind last_page_used or before it.
pub data Allocated (npages : ℕ) (c : Coremap) : Outcome (ℕ × Coremap) → Type 0 where
  block_at :
      {page : ℕ} {c' : Coremap}
      → page + npages ≤ length c.pages
      → AllFree c.pages page (page + npages)
      → Blocked npages page c.pages c'.pages
      → c'.pages_in_use ≡ c.pages_in_use + npages
      → IsCoremap c'
      → Allocated npages c (ok (page * page_size % 2 ^ 32, c'))
  exhausted :
      ((j : ℕ)
        → j + npages ≤ length c.pages
        → (c.last_page_used ≤ j) ⊎ (j + npages ≤ c.last_page_used)
        → Busy c.pages j (j + npages) (length c.pages))
      → Allocated npages c panic

module _ (npages page : ℕ) (c : Coremap) (h : IsCoremap c) (pos : 0 < npages)
    (fits : page + npages ≤ length c.pages) (all : AllFree c.pages page (page + npages))
    {pages' : List CoremapPage} (b : Blocked npages page c.pages pages') where
  Blocked-clean :
      (k : ℕ) (p : CoremapPage)
      → get_elem? pages' k ≡ some p
      → is_free p.state ≡ true
      → p ≡ entry 0 free
  Blocked-clean k p e f = ground (arith, b.entries k, h.clean k p)

  -- A page in use lies outside the new block.
  outside :
      (j : ℕ) (q : CoremapPage)
      → get_elem? c.pages j ≡ some q
      → is_free q.state ≡ false
      → get_elem? pages' j ≡ some q
  outside j q e used = ground (arith, b.entries j, all j, pos)

  Blocked-blocks :
      (k j : ℕ) (p : CoremapPage)
      → get_elem? pages' k ≡ some p
      → k < j
      → j < k + p.page_count
      → (q : CoremapPage) × (get_elem? pages' j ≡ some q)
        × (q.page_count ≡ 0)
        × (is_free q.state ≡ false)
  Blocked-blocks k j p e lo hi = elim (Bool-cases (k == page)) [
    | inl head ↦ (entry 0 allocated, ground (arith, b.entries k, b.entries j), refl, refl)
    | inr other ↦ elim (Bool-cases (in_range page npages k)) [
      | inl inside ↦ absurd (ground (arith, b.entries k))
      | inr out ↦
          let before : get_elem? c.pages k ≡ some p = ground (arith, b.entries k) in
          let (q, at, none_behind, used) = h.blocks k j p before lo hi in
          (q, outside j q at used, none_behind, used)
    ]
  ]

  Blocked-IsCoremap :
      IsCoremap (record {
        pages = pages';
        pages_in_use = (c.pages_in_use + npages) % 2 ^ 32;
        last_page_used = page + npages - 1;
      })
      × ((c.pages_in_use + npages) % 2 ^ 32 ≡ c.pages_in_use + npages)
  Blocked-IsCoremap =
      let fewer = count_used-le pages' in
      let exact : (c.pages_in_use + npages) % 2 ^ 32 ≡ c.pages_in_use + npages =
        omega (arith, b.counted, b.same_length, h.counted, h.small, fewer) in
      (
        record {
          small = omega (arith, b.same_length, h.small);
          last_le = omega (arith, b.same_length);
          counted = omega (arith, exact, b.counted, h.counted);
          clean = Blocked-clean;
          blocks = Blocked-blocks;
        },
        exact,
      )

module _ (npages : ℕ) (c : Coremap) (h : IsCoremap c) (pos : 0 < npages) where
  getpages_of_search :
      (r : Outcome (Option ℕ × Coremap))
      → coremap_getfreepages npages c ≡ r
      → FreePages npages c r
      → Allocated npages c (coremap_getpages npages c)
  unfolding coremap_getpages
  getpages_of_search r e (got {page} fits all) =
      let some_pages : (npages == 0) ≡ false = ground (arith, pos) in
      let (pages', done, b) = mark_block-Blocked npages page c.pages pos fits all in
      let (valid, exact) = Blocked-IsCoremap npages page c h pos fits all b in
      rw (some_pages, e, done) (block_at fits all b exact valid)
  getpages_of_search r e (nowhere busy) =
      let some_pages : (npages == 0) ≡ false = ground (arith, pos) in
      rw (some_pages, e) (exhausted busy)

  -- An allocation of at least one page gives a block of pages that were free, marks it and nothing
  -- else, and keeps the coremap well formed; it panics only where no run of free pages lies behind
  -- last_page_used or before it.
  pub coremap_getpages-Allocated : Allocated npages c (coremap_getpages npages c)
  coremap_getpages-Allocated =
      getpages_of_search _ refl (coremap_getfreepages-FreePages npages c pos h.last_le)
