-- ===== src/Swapfile/Tests.antt =====
-- Runs of the swap file, and each theorem at an input.
use os.Base.{
  ℕ, ◌<◌, ◌≡◌, refl, sym, ap, ◌∙◌, ◌≢◌, Option, none, some, arith, ◌==◌, if◌then◌else◌, get_elem?,
  replicate, length-replicate, get_elem?-replicate, lt_of_get_elem?,
}
use mathlib.Core.Option.{some-injective}
use os.Base.Outcome.{ok}
use os.Swapfile.{
  SwapDevice, Swap, swapfile_max_pages, free_loop, swapfile_getfreepage, swapfile_prepareswap,
  swapfile_performkswap, swapfile_storepage, use_entry,
}
use os.Swapfile.Store.{
  IsSwap, Prepared, taken, StoredAt, swapfile_prepareswap-Prepared, swapfile_storepage-Stored,
}

-- A file of numbers for pages.
abbrev write_page : (ℕ → Option ℕ) → ℕ → ℕ → ℕ → Option ℕ
write_page f k p j = if k == j then some p else f j

same_file :
    (f : ℕ → Option ℕ) (k p : ℕ) (g : ℕ → Option ℕ)
    → some (write_page f k p) ≡ some g
    → (j : ℕ) → g j ≡ write_page f k p j
same_file f k p g e j = ap (λ h. h j) (sym (some-injective (write_page f k p) g e))

read-write_page :
    (f : ℕ → Option ℕ) (k p : ℕ) (g : ℕ → Option ℕ)
    → some (write_page f k p) ≡ some g
    → g k ≡ some p
read-write_page f k p g e = same_file f k p g e k ∙ ground arith

read-write_ne_page :
    (f : ℕ → Option ℕ) (k j p : ℕ) (g : ℕ → Option ℕ)
    → some (write_page f k p) ≡ some g
    → k ≢ j
    → g j ≡ f j
read-write_ne_page f k j p g e ne = same_file f k p g e j ∙ ground arith

abbrev device : SwapDevice
device = record {
  File = ℕ → Option ℕ;
  Page = ℕ;
  write = λ f k p. some (write_page f k p);
  read = λ f k. f k;
  read-write = read-write_page;
  read-write_ne = read-write_ne_page;
}

abbrev with_entries : ℕ → ℕ → Swap device
with_entries e last = record {
  entries = replicate swapfile_max_pages e;
  swapfile = λ k. none;
  pages_in_use = 0;
  last_page_stored = last;
}

with_entries-IsSwap : (e last : ℕ) → last < swapfile_max_pages → IsSwap device (with_entries e last)
with_entries-IsSwap e last lt = record {
  whole = length-replicate swapfile_max_pages e;
  last_lt = lt;
}

all_used : (k e : ℕ) → get_elem? (replicate swapfile_max_pages 1) k ≡ some e → e ≢ 0
all_used k e at =
    let inside = lt_of_get_elem? {A = ℕ} (replicate swapfile_max_pages 1) k at in
    let one =
      get_elem?-replicate {A = ℕ} swapfile_max_pages 1 k
        (omega (arith, inside, length-replicate {A = ℕ} swapfile_max_pages 1)) in
    ground (arith, one)

first_store :
    swapfile_storepage device 3 9 (with_entries 0 0)
    ≡ ok (0, record (taken device (with_entries 0 0) 0) { swapfile = write_page (λ k. none) 0 9 })
unfolding swapfile_storepage swapfile_prepareswap swapfile_getfreepage free_loop use_entry
    swapfile_performkswap
first_store = refl

swapfile_storepage-Stored_example :
    StoredAt device
      (with_entries-IsSwap 0 0 (omega arith))
      3
      9
      0
      (record (taken device (with_entries 0 0) 0) { swapfile = write_page (λ k. none) 0 9 })
swapfile_storepage-Stored_example =
    swapfile_storepage-Stored device (with_entries-IsSwap 0 0 (omega arith)) 3 9 0
      (record (taken device (with_entries 0 0) 0) { swapfile = write_page (λ k. none) 0 9 })
      first_store

swapfile_prepareswap-Prepared_example :
    Prepared device
      (with_entries 0 5)
      (swapfile_prepareswap device swapfile_max_pages (with_entries 0 5))
swapfile_prepareswap-Prepared_example =
    swapfile_prepareswap-Prepared device (with_entries-IsSwap 0 5 (omega arith)) (omega arith)
