-- ===== src/Coremap/Free.antt =====
-- coremap_freepages.
use os.Base.{
  ℕ, ◌+◌, ◌-◌, ◌*◌, ◌/◌, ◌%◌, ◌^◌, ◌<◌, ◌≡◌, refl, ◌≢◌, true, false, some, List, arith, ◌==◌,
  Bool-cases, Option-cases, inl, inr, get_elem?,
}
use os.Base.Outcome.{Outcome, ok, panic, ◌>>=◌}
use os.Coremap.{
  CoremapPage, free, allocated, entry, is_free, Coremap, page_size, coremap_getpages,
  coremap_freepages,
}
use os.Coremap.Scan.{AllFree}
use os.Coremap.Fill.{count_used, in_range, Filled}
use os.Coremap.Block.{AllUsed, used_at, release-Filled}
use os.Coremap.Invariant.{IsCoremap, count_used-le}
use os.Coremap.Alloc.{Allocated, block_at, exhausted, coremap_getpages-Allocated}

module _ (c : Coremap) (h : IsCoremap c) (page : ℕ) (p : CoremapPage)
    (e : get_elem? c.pages page ≡ some p) (start : p.page_count ≢ 0) where
  -- Every page of the block is in use.
  block-AllUsed : AllUsed c.pages page (page + p.page_count)
  block-AllUsed k lo hi = elim (Bool-cases (k == page)) [
    | inl head ↦
        let same : k ≡ page = ground arith in
        let clean = h.clean page p e in
        let here : used_at c.pages page ≡ true = rw (e, used_at) (ground arith) in rw same here
    | inr other ↦
        let (q, at, none_behind, used) = h.blocks page k p e (ground arith) hi in
        rw (at, used_at) (ground arith)
  ]

  -- A block that starts elsewhere does not meet this one.
  apart :
      (k j : ℕ) (q : CoremapPage)
      → get_elem? c.pages k ≡ some q
      → k < j
      → j < k + q.page_count
      → in_range page p.page_count k ≡ false
      → in_range page p.page_count j ≡ false
  apart k j q at lo hi out = elim (Bool-cases (in_range page p.page_count j)) [
    | inl meets ↦
        let (r, there, none_behind, used) = h.blocks k page q at (ground arith) (ground arith) in
        absurd (start (ground arith))
    | inr fine ↦ fine
  ]

  module _ {pages' : List CoremapPage} (f : Filled page p.page_count (entry 0 free) c.pages pages')
      (count : count_used pages' + p.page_count ≡ count_used c.pages) where
    Filled-clean :
        (k : ℕ) (q : CoremapPage)
        → get_elem? pages' k ≡ some q
        → is_free q.state ≡ true
        → q ≡ entry 0 free
    Filled-clean k q at free' = ground (arith, f.entries k, h.clean k q)

    spared :
        (k j : ℕ) (q r : CoremapPage)
        → get_elem? c.pages k ≡ some q
        → get_elem? c.pages j ≡ some r
        → k < j
        → j < k + q.page_count
        → in_range page p.page_count k ≡ false
        → get_elem? pages' j ≡ some r
    spared k j q r at there lo hi out = ground (arith, f.entries j, apart k j q at lo hi out)

    Filled-blocks :
        (k j : ℕ) (q : CoremapPage)
        → get_elem? pages' k ≡ some q
        → k < j
        → j < k + q.page_count
        → (r : CoremapPage) × (get_elem? pages' j ≡ some r)
          × (r.page_count ≡ 0)
          × (is_free r.state ≡ false)
    Filled-blocks k j q at lo hi = elim (Bool-cases (in_range page p.page_count k)) [
      | inl inside ↦ absurd (ground (arith, f.entries k))
      | inr out ↦
          let before : get_elem? c.pages k ≡ some q = ground (arith, f.entries k) in
          let (r, there, none_behind, used) = h.blocks k j q before lo hi in
          (r, spared k j q r before there lo hi out, none_behind, used)
    ]

    Filled-IsCoremap :
        IsCoremap (record c {
          pages = pages';
          pages_in_use = (c.pages_in_use + 2 ^ 32 - p.page_count) % 2 ^ 32;
        })
        × ((c.pages_in_use + 2 ^ 32 - p.page_count) % 2 ^ 32 + p.page_count ≡ c.pages_in_use)
    Filled-IsCoremap =
        let fewer = count_used-le c.pages in
        let exact : (c.pages_in_use + 2 ^ 32 - p.page_count) % 2 ^ 32 + p.page_count
            ≡ c.pages_in_use =
          omega (arith, count, h.counted, h.small, fewer) in
        (
          record {
            small = omega (arith, f.same_length, h.small);
            last_le = omega (arith, f.same_length, h.last_le);
            counted = omega (arith, exact, count, h.counted);
            clean = Filled-clean;
            blocks = Filled-blocks;
          },
          exact,
        )

-- What freeing the block at `page` leaves.
pub record Freed (c c' : Coremap) (page npages : ℕ) : Type 0 where
  pub released : Filled page npages (entry 0 free) c.pages c'.pages
  pub fewer : c'.pages_in_use + npages ≡ c.pages_in_use
  pub valid : IsCoremap c'

-- At the first page of a block coremap_freepages frees the whole block and nothing else, and keeps
-- the coremap well formed; elsewhere it changes nothing.
pub coremap_freepages-Freed :
    (c : Coremap) (page : ℕ) (p : CoremapPage)
    → IsCoremap c
    → get_elem? c.pages page ≡ some p
    → (p.page_count ≡ 0 → coremap_freepages (page * page_size) c ≡ ok c)
      × (p.page_count ≢ 0
          → (c' : Coremap) × (coremap_freepages (page * page_size) c ≡ ok c')
            × Freed c c' page p.page_count)
unfolding coremap_freepages
coremap_freepages-Freed c page p h e =
    let at : page * page_size / page_size ≡ page = omega arith in
    (
      λ inside.
          let zero_count : (p.page_count == 0) ≡ true = ground arith in rw (at, e, zero_count) refl,
      λ start.
          let some_count : (p.page_count == 0) ≡ false = ground arith in
          let (pages', done, f, count) =
            release-Filled p.page_count page c.pages (block-AllUsed c h page p e start) in
          let (valid, exact) = Filled-IsCoremap c h page p e start f count in
          (
            record c {
              pages = pages';
              pages_in_use = (c.pages_in_use + 2 ^ 32 - p.page_count) % 2 ^ 32;
            },
            rw (at, e, some_count, done) refl,
            record { released = f; fewer = exact; valid = valid },
          ),
    )

-- What freeing a fresh allocation leaves: every entry as it was before the allocation.
pub data Restored (npages : ℕ) (c : Coremap) : Outcome Coremap → Type 0 where
  restored :
      {c' : Coremap}
      → ((k : ℕ) → get_elem? c'.pages k ≡ get_elem? c.pages k)
      → c'.pages_in_use ≡ c.pages_in_use
      → IsCoremap c'
      → Restored npages c (ok c')
  no_space : coremap_getpages npages c ≡ panic → Restored npages c panic

module _ (npages : ℕ) (c : Coremap) (h : IsCoremap c) (pos : 0 < npages) where
  clean_at :
      (page : ℕ)
      → AllFree c.pages page (page + npages)
      → (k : ℕ) → in_range page npages k ≡ true
      → get_elem? c.pages k ≡ some (entry 0 free)
  clean_at page all k inside = elim (Option-cases (get_elem? c.pages k)) [
    | inl missing ↦ absurd (ground (arith, all k))
    | inr (p, at) ↦ ground (arith, all k, h.clean k p at)
  ]

  block-Restored :
      (r : Outcome (ℕ × Coremap))
      → coremap_getpages npages c ≡ r
      → Allocated npages c r
      → Restored npages c (r >>= λ (paddr, c'). coremap_freepages paddr c')
  block-Restored r e (block_at {page} {c'} fits all b more valid) =
      let head : get_elem? c'.pages page ≡ some (entry npages allocated) =
        ground (arith, b.entries page) in
      let exact : page * page_size % 2 ^ 32 ≡ page * page_size = omega (arith, h.small) in
      let (c'', done, freed) =
        (coremap_freepages-Freed c' page (entry npages allocated) valid head).1
          (λ z. omega arith) in
      rw (exact, done)
        (restored (λ k. ground (arith, freed.released.entries k, b.entries k, clean_at page all k))
          (omega (arith, freed.fewer, more)) freed.valid)
  block-Restored r e (exhausted busy) = no_space e

  -- Freeing what was just allocated restores every entry and the count of pages in use.
  pub freepages-getpages :
      Restored npages c (coremap_getpages npages c >>= λ (paddr, c'). coremap_freepages paddr c')
  freepages-getpages = block-Restored _ refl (coremap_getpages-Allocated npages c h pos)
