-- ===== src/Coremap.antt =====
-- os161-1.11/kern/vm/coremap.c: who uses each page of physical memory. The functions run under
-- coremap_lock with interrupts off, so each is one step. SWAPFILE_ENABLED is not defined anywhere,
-- so an allocation that finds no space panics.
pub mod Scan
pub mod Fill
pub mod Block
pub mod Invariant
pub mod Alloc
pub mod Free
pub mod Pages
pub mod Boot
pub mod Fresh
mod Tests
use os.Base.{
  ℕ, zero, suc, ◌+◌, ◌-◌, ◌*◌, ◌/◌, ◌%◌, ◌^◌, Bool, true, false, Option, none, some, List, ltb,
  ◌==◌, if◌then◌else◌, length, get_elem?, set, replicate, ◌++◌,
}
use os.Base.Outcome.{Outcome, ok, panic, fault, ◌>>=◌, ◌>>◌, deref}

pub data PageState : Type 0 where
  free allocated fixed : PageState

-- struct coremap_page; a null address space is 0.
pub record CoremapPage : Type 0 where
  pub addrspace : ℕ
  pub addr : ℕ
  pub page_count : ℕ
  pub state : PageState

pub record Coremap : Type 0 where
  pub pages : List CoremapPage
  pub pages_in_use : ℕ
  pub last_page_used : ℕ

abbrev pub page_size : ℕ
page_size = 4096

-- Four words of 32 bits.
abbrev pub sizeof_coremap_page : ℕ
sizeof_coremap_page = 16

-- An entry with no owner.
abbrev pub entry : ℕ → PageState → CoremapPage
entry count state = record { addrspace = 0; addr = 0; page_count = count; state = state }

abbrev pub is_free : PageState → Bool
is_free free = true
is_free _ = false

-- `first` and `last` are what ram_getsize gives. The table itself takes the memory behind `first`.
unfoldable pub coremap_bootstrap : ℕ → ℕ → Coremap
coremap_bootstrap first last =
    let coremap_size = last / page_size in
    let kernel_pages = (first + coremap_size * sizeof_coremap_page) / page_size in
    record {
      pages =
          replicate kernel_pages (entry 0 fixed)
          ++ replicate (coremap_size - kernel_pages) (entry 0 free);
      pages_in_use = kernel_pages;
      last_page_used = 0;
    }

-- The scan of coremap_getfreepages from entry `i`, with `left` entries to go and `run` free ones
-- just passed: the entry that completes a run of `npages`.
pub scan : ℕ → ℕ → ℕ → ℕ → List CoremapPage → Outcome (Option ℕ)
scan npages zero i run pages = ok none
scan npages (suc left) i run pages = do
  p ← deref (get_elem? pages i)
  let run' = if is_free p.state then run + 1 else 0
  let rest = scan npages left (i + 1) run' pages
  if run' == npages then ok (some i) else rest

-- `page = i - (npages - 1); last_page_used = i;`
abbrev pub found_at : ℕ → Coremap → ℕ → Option ℕ × Coremap
found_at npages c i = (some (i - (npages - 1)), record c { last_page_used = i })

-- -1 is `none`.
pub coremap_getfreepages : ℕ → Coremap → Outcome (Option ℕ × Coremap)
coremap_getfreepages npages c = do
  behind ← scan npages (length c.pages - c.last_page_used) c.last_page_used 0 c.pages
  elim behind [
    | some i ↦ ok (found_at npages c i)
    | none ↦ do
      before ← scan npages c.last_page_used 0 0 c.pages
      elim before [ some i ↦ ok (found_at npages c i) | none ↦ ok (none, c) ]
  ]

-- coremap[i] = p
pub store : List CoremapPage → ℕ → CoremapPage → Outcome (List CoremapPage)
store pages i p = if ltb i (length pages) then ok (set pages i p) else fault

-- for (i = 1; i < npages; i++), from entry `at` with `left` entries to go.
pub fill : ℕ → ℕ → CoremapPage → List CoremapPage → Outcome (List CoremapPage)
fill zero at p pages = ok pages
fill (suc left) at p pages = do pages' ← store pages at p; fill left (at + 1) p pages'

-- The entries of a block of `npages` pages from `page` on.
pub mark_block : ℕ → ℕ → List CoremapPage → Outcome (List CoremapPage)
mark_block npages page pages = do
  pages' ← store pages page (entry npages allocated)
  fill (npages - 1) (page + 1) (entry 0 allocated) pages'

-- coremap_getpages once the coremap is initialized; the result is a physical address.
pub coremap_getpages : ℕ → Coremap → Outcome (ℕ × Coremap)
coremap_getpages npages c =
    let get : Outcome (ℕ × Coremap) = do
      (found, c') ← coremap_getfreepages npages c
      elim found [
        | none ↦ panic
        | some page ↦ do
          pages ← mark_block npages page c'.pages
          ok (
            page * page_size % 2 ^ 32,
            record c' { pages = pages; pages_in_use = (c'.pages_in_use + npages) % 2 ^ 32 },
          )
      ]
    in if npages == 0 then panic else get

-- The loop of coremap_freepages, at entry `at` with `left` entries to go.
pub release : ℕ → ℕ → List CoremapPage → Outcome (List CoremapPage)
release zero at pages = ok pages
release (suc left) at pages = do
  p ← deref (get_elem? pages at)
  pages' ← elim p.state [ free ↦ ok pages | _ ↦ store pages at (entry 0 free) ]
  release left (at + 1) pages'

pub coremap_freepages : ℕ → Coremap → Outcome Coremap
coremap_freepages paddr c = do
  p ← deref (get_elem? c.pages (paddr / page_size))
  let freed : Outcome Coremap = do
    pages ← release p.page_count (paddr / page_size) c.pages
    ok (record c {
      pages = pages;
      pages_in_use = (c.pages_in_use + 2 ^ 32 - p.page_count) % 2 ^ 32;
    })
  if p.page_count == 0 then ok c else freed

pub coremap_ispagefixed : ℕ → Coremap → Outcome Bool
coremap_ispagefixed paddr c = do
  p ← deref (get_elem? c.pages (paddr / page_size))
  ok (elim p.state [ fixed ↦ true | _ ↦ false ])

pub coremap_setpagefixed : ℕ → Bool → Coremap → Outcome Coremap
coremap_setpagefixed paddr fix c = do
  p ← deref (get_elem? c.pages (paddr / page_size))
  elim p.state [
    | free ↦ ok c
    | _ ↦
        let state = if fix then fixed else allocated in
        ok (record c { pages = set c.pages (paddr / page_size) (record p { state = state }) })
  ]

-- The address space and the address; nothing is stored for a free page.
pub coremap_getpagevaddr : ℕ → Coremap → Outcome (Option (ℕ × ℕ))
coremap_getpagevaddr paddr c = do
  p ← deref (get_elem? c.pages (paddr / page_size))
  ok (elim p.state [ free ↦ none | _ ↦ some (p.addrspace, p.addr) ])

pub coremap_setpagevaddr : ℕ → ℕ → ℕ → Coremap → Outcome Coremap
coremap_setpagevaddr paddr addrspace vaddr c = do
  p ← deref (get_elem? c.pages (paddr / page_size))
  elim p.state [
    | free ↦ ok c
    | _ ↦
        let p' = record p { addrspace = addrspace; addr = vaddr } in
        ok (record c { pages = set c.pages (paddr / page_size) p' })
  ]
