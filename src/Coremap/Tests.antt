-- ===== src/Coremap/Tests.antt =====
-- Runs of the coremap, and each theorem at an input.
use os.Base.{
  ℕ, zero, suc, ◌+◌, ◌/◌, ◌<◌, ◌≡◌, refl, true, false, some, [], ◌∷◌, arith, length, get_elem?, leb,
  if◌then◌else◌, ◌*◌,
}
use os.Base.Outcome.{ok, ◌>>=◌}
use os.Coremap.{
  CoremapPage, free, allocated, fixed, entry, is_free, Coremap, page_size, coremap_bootstrap, scan,
  coremap_getfreepages, store, fill, mark_block, coremap_getpages, coremap_freepages,
}
use os.Coremap.Fill.{count_used}
use os.Coremap.Invariant.{IsCoremap}
use os.Coremap.Alloc.{Allocated, coremap_getpages-Allocated}
use os.Coremap.Free.{Restored, freepages-getpages}
use os.Coremap.Boot.{table_end, coremap_bootstrap-IsCoremap}

-- Eight pages of memory, the first of them used by the kernel.
abbrev memory : Coremap
memory = coremap_bootstrap 4096 32768

memory-IsCoremap : IsCoremap memory
memory-IsCoremap = (coremap_bootstrap-IsCoremap 4096 32768 (omega arith) (omega arith)).0

memory_size : length memory.pages ≡ 8
memory_size = (coremap_bootstrap-IsCoremap 4096 32768 (omega arith) (omega arith)).1

-- The address, the count of pages in use and the last page used.
abbrev summary : ℕ × Coremap → ℕ × ℕ × ℕ
summary (paddr, c) = (paddr, c.pages_in_use, c.last_page_used)

two_pages : (coremap_getpages 2 memory >>= λ r. ok (summary r)) ≡ ok (4096, 3, 2)
unfolding coremap_bootstrap coremap_getpages coremap_getfreepages scan mark_block fill store
two_pages = refl

second_page : get_elem? memory.pages 0 ≡ some (entry 0 fixed)
unfolding coremap_bootstrap
second_page = refl

coremap_getpages-Allocated_example : Allocated 2 memory (coremap_getpages 2 memory)
coremap_getpages-Allocated_example =
    coremap_getpages-Allocated 2 memory memory-IsCoremap (omega arith)

-- A block of two pages behind the kernel's page.
abbrev blocked : Coremap
blocked = record {
  pages = entry 0 fixed ∷ entry 2 allocated ∷ entry 0 allocated ∷ entry 0 free ∷ [];
  pages_in_use = 3;
  last_page_used = 2;
}

blocked-clean :
    (k : ℕ) (p : CoremapPage)
    → get_elem? blocked.pages k ≡ some p
    → is_free p.state ≡ true
    → p ≡ entry 0 free
blocked-clean zero p e f = ground arith
blocked-clean (suc zero) p e f = ground arith
blocked-clean (suc (suc zero)) p e f = ground arith
blocked-clean (suc (suc (suc zero))) p e f = ground arith
blocked-clean (suc (suc (suc (suc k)))) p e f = cc

blocked-blocks :
    (k j : ℕ) (p : CoremapPage)
    → get_elem? blocked.pages k ≡ some p
    → k < j
    → j < k + p.page_count
    → (q : CoremapPage) × (get_elem? blocked.pages j ≡ some q)
      × (q.page_count ≡ 0)
      × (is_free q.state ≡ false)
blocked-blocks zero j p e lo hi = absurd (ground arith)
blocked-blocks (suc zero) j p e lo hi =
    let second : j ≡ 2 = ground arith in (entry 0 allocated, rw second refl, refl, refl)
blocked-blocks (suc (suc zero)) j p e lo hi = absurd (ground arith)
blocked-blocks (suc (suc (suc zero))) j p e lo hi = absurd (ground arith)
blocked-blocks (suc (suc (suc (suc k)))) j p e lo hi = absurd (ground arith)

blocked-IsCoremap : IsCoremap blocked
unfolding count_used
blocked-IsCoremap = record {
  small = omega arith;
  last_le = omega arith;
  counted = refl;
  clean = blocked-clean;
  blocks = blocked-blocks;
}

freepages-getpages_example :
    Restored 2 memory (coremap_getpages 2 memory >>= λ (paddr, c). coremap_freepages paddr c)
freepages-getpages_example = freepages-getpages 2 memory memory-IsCoremap (omega arith)

coremap_bootstrap-IsCoremap_example :
    IsCoremap (coremap_bootstrap 4096 32768)
    × (length (coremap_bootstrap 4096 32768).pages ≡ 32768 / page_size)
    × ((k : ℕ)
        → k < 32768 / page_size
        → get_elem? (coremap_bootstrap 4096 32768).pages k
          ≡ some
              (entry 0 (if leb ((k + 1) * page_size) (table_end 4096 32768) then fixed else free)))
coremap_bootstrap-IsCoremap_example =
    coremap_bootstrap-IsCoremap 4096 32768 (omega arith) (omega arith)
