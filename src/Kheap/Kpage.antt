-- ===== src/Kheap/Kpage.antt =====
-- One page from the coremap.
use os.Base.{
  ℕ, zero, suc, ◌+◌, ◌*◌, ◌%◌, ◌^◌, ◌<◌, ◌≡◌, refl, true, false, arith, ◌==◌, some, length,
  if◌then◌else◌, get_elem?,
}
use os.Base.Outcome.{Outcome, ok, panic}
use os.Coremap.{Coremap, entry, allocated, page_size, coremap_getpages}
use os.Coremap.Alloc.{Allocated, block_at, exhausted, coremap_getpages-Allocated}
use os.Coremap.Fresh.{NoneFree, none_free}
use os.Coremap.Block.{used_at}
use os.Coremap.Invariant.{IsCoremap}
use os.Pagetable.{alloc_kpages, kernel_base}
use os.Pagetable.Words.{kaddr}

-- What alloc_kpages(1) comes to: a page that nobody used, as a block of its own.
pub data GotPage (c : Coremap) : Outcome (ℕ × Coremap) → Type 0 where
  got_page :
      {page : ℕ} {c' : Coremap}
      → page < length c.pages
      → 0 < page
      → used_at c.pages page ≡ false
      → ((k : ℕ)
          → get_elem? c'.pages k
            ≡ (if k == page then some (entry 1 allocated) else get_elem? c.pages k))
      → length c'.pages ≡ length c.pages
      → IsCoremap c'
      → GotPage c (ok (kaddr page, c'))
  exhausted_pages : NoneFree c → GotPage c panic

not_zero :
    (c : Coremap) (page : ℕ) → used_at c.pages 0 ≡ true → used_at c.pages page ≡ false → 0 < page
not_zero c zero z u = ground (arith, z, u)
not_zero c (suc page) z u = omega arith

alloc_of :
    (c : Coremap) (r : Outcome (ℕ × Coremap))
    → length c.pages < 2 ^ 19
    → used_at c.pages 0 ≡ true
    → coremap_getpages 1 c ≡ r
    → Allocated 1 c r
    → GotPage c (alloc_kpages 1 c)
unfolding alloc_kpages
alloc_of c r small z e (block_at {page} {c'} fits all b count valid) =
    let u : used_at c.pages page ≡ false = ground (arith, all page (omega arith) (omega arith)) in
    let pos : 0 < page = not_zero c page z u in
    let paddr : page * page_size % 2 ^ 32 ≡ page * page_size = omega arith in
    let some_page : (page * page_size == 0) ≡ false = ground (arith, pos) in
    let address : (page * page_size + kernel_base) % 2 ^ 32 ≡ kaddr page = omega arith in
    rw (e, paddr, some_page, address)
      (got_page (omega arith) pos u (λ k. ground (arith, b.entries k)) b.same_length valid)
alloc_of c r small z e (exhausted busy) = rw e (exhausted_pages (none_free c busy))

pub alloc_kpages-GotPage :
    (c : Coremap)
    → IsCoremap c
    → length c.pages < 2 ^ 19
    → used_at c.pages 0 ≡ true
    → GotPage c (alloc_kpages 1 c)
alloc_kpages-GotPage c h small z =
    alloc_of c _ small z refl (coremap_getpages-Allocated 1 c h (omega arith))

-- The view with pageref p for page k.
