-- ===== src/Swapfile.antt =====
-- os161-1.11/kern/vm/swapfile.c: which pages of the swap file are in use, and what they hold. The
-- functions run under swapfile_lock, so each is one step. The file behind VOP_READ and VOP_WRITE is
-- a parameter.
pub mod Search
pub mod Store
mod Tests
use os.Base.{
  ℕ, zero, suc, ◌+◌, ◌*◌, ◌/◌, ◌%◌, ◌^◌, ◌≡◌, ◌≢◌, Bool, Option, none, some, List, ltb, ◌==◌,
  if◌then◌else◌, get_elem?, set, replicate,
}
use os.Base.Outcome.{Outcome, ok, panic, out_of_fuel, ◌>>=◌, ◌>>◌, assert, deref}

abbrev pub page_size : ℕ
page_size = 4096

abbrev pub swapfile_max_size : ℕ
swapfile_max_size = 9 * 1024 * 1024

abbrev pub swapfile_max_pages : ℕ
swapfile_max_pages = swapfile_max_size / page_size

-- The open file that holds the pages: a transfer of one page at page number `k`, where `none` is a
-- nonzero error code or a short transfer.
pub record SwapDevice : Type 1 where
  pub File : Type 0
  pub Page : Type 0
  pub write : File → ℕ → Page → Option File
  pub read : File → ℕ → Option Page
  pub read-write :
      (f : File) (k : ℕ) (p : Page) (g : File) → write f k p ≡ some g → read g k ≡ some p
  pub read-write_ne :
      (f : File) (k j : ℕ) (p : Page) (g : File)
      → write f k p ≡ some g
      → k ≢ j
      → read g j ≡ read f j

-- The loop of swapfile_getfreepage at index `i`, where `last` is last_page_stored. The C test
-- i != last_page_stored - 1 is one on signed numbers.
pub free_loop : ℕ → List ℕ → ℕ → ℕ → Outcome (Option ℕ)
free_loop zero entries last i = out_of_fuel
free_loop (suc fuel) entries last i =
    let rest : Outcome (Option ℕ) = do
      e ← deref (get_elem? entries i)
      let next = free_loop fuel entries last ((i + 1) % swapfile_max_pages)
      if e == 0 then ok (some i) else next
    in if i + 1 == last then ok none else rest

module _ (d : SwapDevice) where
  pub record Swap : Type 0 where
    pub entries : List ℕ
    pub swapfile : d.File
    pub pages_in_use : ℕ
    pub last_page_stored : ℕ

  -- `file` is what vfs_open opens.
  pub swapfile_bootstrap : d.File → Swap
  swapfile_bootstrap file = record {
    entries = replicate swapfile_max_pages 0;
    swapfile = file;
    pages_in_use = 0;
    last_page_stored = 0;
  }

  -- -1 is `none`. `fuel` bounds the rounds of the loop.
  pub swapfile_getfreepage : ℕ → Swap → Outcome (Option ℕ × Swap)
  swapfile_getfreepage fuel s = do
    found ← free_loop fuel s.entries s.last_page_stored s.last_page_stored
    elim found [ none ↦ ok (none, s) | some i ↦ ok (some i, record s { last_page_stored = i }) ]

  -- swapfile_entries[index] = 1; swapfile_pages_in_use += 1;
  pub use_entry : Swap → ℕ → Swap
  use_entry s index = record s {
    entries = set s.entries index 1;
    pages_in_use = (s.pages_in_use + 1) % 2 ^ 32;
  }

  pub swapfile_prepareswap : ℕ → Swap → Outcome (ℕ × Swap)
  swapfile_prepareswap fuel s = do
    (found, s') ← swapfile_getfreepage fuel s
    elim found [ none ↦ panic | some index ↦ ok (index, use_entry s' index) ]

  -- `source` is the page at the kernel address.
  pub swapfile_performkswap : ℕ → d.Page → Swap → Outcome Swap
  swapfile_performkswap index source s = elim (d.write s.swapfile index source) [
    | none ↦ panic
    | some file ↦ ok (record s { swapfile = file })
  ]

  pub swapfile_storepage : ℕ → d.Page → Swap → Outcome (ℕ × Swap)
  swapfile_storepage fuel source s = do
    (index, s') ← swapfile_prepareswap fuel s
    s'' ← swapfile_performkswap index source s'
    ok (index, s'')

  -- The page read goes to `dest`, which is returned. `page` is an unsigned number here.
  pub swapfile_getpage : ℕ → Swap → Outcome (d.Page × Swap)
  swapfile_getpage page s = do
    assert (ltb page swapfile_max_pages)
    e ← deref (get_elem? s.entries page)
    assert (e == 1)
    elim (d.read s.swapfile page) [
      | none ↦ panic
      | some dest ↦ ok (dest, record s { entries = set s.entries page 0 })
    ]
