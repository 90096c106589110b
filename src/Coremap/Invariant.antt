-- ===== src/Coremap/Invariant.antt =====
-- When a coremap is well formed.
use os.Base.{
  ℕ, ◌+◌, ◌*◌, ◌/◌, ◌%◌, ◌^◌, ◌≤◌, ◌<◌, ◌≡◌, true, false, some, List, [], ◌∷◌, arith, length,
  get_elem?,
}
use os.Coremap.{CoremapPage, free, entry, is_free, Coremap, page_size}
use os.Coremap.Fill.{count_used}

-- Memory is at most 4 GB; an entry for a free page has no owner; pages_in_use counts the pages that
-- are not free; and behind the first page of a block the others are in use and start no block.
pub record IsCoremap (c : Coremap) : Type 0 where
  pub small : length c.pages ≤ 2 ^ 20
  pub last_le : c.last_page_used ≤ length c.pages
  pub counted : c.pages_in_use ≡ count_used c.pages
  pub clean :
      (k : ℕ) (p : CoremapPage)
      → get_elem? c.pages k ≡ some p
      → is_free p.state ≡ true
      → p ≡ entry 0 free
  pub blocks :
      (k j : ℕ) (p : CoremapPage)
      → get_elem? c.pages k ≡ some p
      → k < j
      → j < k + p.page_count
      → (q : CoremapPage) × (get_elem? c.pages j ≡ some q)
        × (q.page_count ≡ 0)
        × (is_free q.state ≡ false)

pub count_used-le : (pages : List CoremapPage) → count_used pages ≤ length pages
unfolding count_used
count_used-le [] = omega arith
count_used-le (p ∷ pages) = ground (arith, count_used-le pages)

-- The entry of an address.
pub page_of : (page : ℕ) → page < 2 ^ 20 → page * page_size % 2 ^ 32 / page_size ≡ page
page_of page h = omega arith
