-- ===== src/Pagetable.antt =====
-- os161-1.11/kern/vm/pt.c: a table of 1024 words, each for a table of 1024 words, each for a page,
-- and alloc_kpages and free_kpages of kern/vm/vm.c. A word has a page's address in its upper 20 bits
-- and flags below: 1 for a free entry, 2 for a page in memory, 4, 8 and 16 for write, read and
-- execute. Where the code joins parts that share no bit by `|`, the parts are added.
pub mod Words
pub mod Tables
pub mod Create
pub mod Frame
pub mod Insert
pub mod Place
pub mod Walk
pub mod Page
pub mod Boot
pub mod Mapped
pub mod Assign
pub mod Isolation
pub mod Permissions
pub mod Overlap
pub mod Sample
mod Tests
use os.Base.{
  Option, none, some, ℕ, zero, suc, ◌+◌, ◌-◌, ◌*◌, ◌/◌, ◌%◌, ◌^◌, Bool, true, false, ◌&&◌, leb, ltb,
  ◌==◌, if◌then◌else◌,
}
use os.Base.Outcome.{Outcome, ok, panic, fault, ◌>>=◌, ◌>>◌}
use os.Coremap.{
  Coremap, page_size, coremap_getpages, coremap_freepages, coremap_setpagefixed,
  coremap_setpagevaddr,
}

-- The coremap, and the words of memory at their kernel addresses.
pub record Machine : Type 0 where
  pub coremap : Coremap
  pub words : ℕ → ℕ

-- PAGE_FREE, PAGE_IN_MEM and PAGE_IN_SWP.
pub data EntryState : Type 0 where
  page_free page_in_mem page_in_swp : EntryState

-- PADDR_TO_KVADDR and KVADDR_TO_PADDR, which add and subtract 2^31.
abbrev pub kernel_base : ℕ
kernel_base = 2 ^ 31

abbrev pub paddr_to_kvaddr : ℕ → ℕ
paddr_to_kvaddr paddr = (paddr + kernel_base) % 2 ^ 32

abbrev pub kvaddr_to_paddr : ℕ → ℕ
kvaddr_to_paddr kvaddr = (kvaddr + kernel_base) % 2 ^ 32

-- The words of a page.
abbrev pub idx_count : ℕ
idx_count = 1024

-- value & PAGE_FRAME
abbrev pub page_frame : ℕ → ℕ
page_frame value = value / page_size * page_size

-- value & (PAGE_R_MASK | PAGE_W_MASK | PAGE_X_MASK)
abbrev pub page_permissions : ℕ → ℕ
page_permissions value = value / 4 % 8 * 4

-- words[a] = v
abbrev pub update : (ℕ → ℕ) → ℕ → ℕ → ℕ → ℕ
update words a v b = if a == b then v else words b

-- 0 stands for NULL.
unfoldable pub alloc_kpages : ℕ → Coremap → Outcome (ℕ × Coremap)
alloc_kpages npages c = do
  (paddr, c') ← coremap_getpages npages c
  ok (if paddr == 0 then 0 else paddr_to_kvaddr paddr, c')

unfoldable pub free_kpages : ℕ → Coremap → Outcome Coremap
free_kpages addr c = coremap_freepages (kvaddr_to_paddr addr) c

-- The loop of _pt_create, from address `a` on with `left` words to go.
unfoldable pub fill_words : ℕ → ℕ → ℕ → (ℕ → ℕ) → ℕ → ℕ
fill_words zero a v words = words
fill_words (suc left) a v words = fill_words left (a + 4) v (update words a v)

-- _pt_create; `space` is the address space of the current thread.
unfoldable pub create_table : ℕ → ℕ → ℕ → Machine → Outcome (ℕ × Machine)
create_table space permissions vaddr m = do
  (pt, c) ← alloc_kpages 1 m.coremap
  let filled : Outcome (ℕ × Machine) = do
    c' ← coremap_setpagevaddr ((pt + 2 ^ 32 - kernel_base) % 2 ^ 32) space (page_frame vaddr + 2) c
    ok (pt, record { coremap = c'; words = fill_words idx_count pt (1 + permissions) m.words })
  if pt == 0 then ok (0, record m { coremap = c }) else filled

-- _pt_create_page
unfoldable pub create_page : ℕ → ℕ → Machine → Outcome (ℕ × Machine)
create_page space vaddr m = do
  (paddr, c) ← coremap_getpages 1 m.coremap
  let owned : Outcome (ℕ × Machine) = do
    c' ← coremap_setpagevaddr paddr space (page_frame vaddr + 1) c
    ok (paddr, record m { coremap = c' })
  if paddr == 0 then ok (0, record m { coremap = c }) else owned

-- The masks have ten bits, right above the shift.
unfoldable pub get_offset : ℕ → ℕ → ℕ
get_offset vaddr shift = vaddr / 2 ^ shift % idx_count

abbrev pub addr_up_shift : ℕ
addr_up_shift = 22

abbrev pub addr_low_shift : ℕ
addr_low_shift = 12

-- A word at an address that is no multiple of 4 cannot be read.
unfoldable pub get_value : ℕ → ℕ → Machine → Outcome ℕ
get_value pt offset m = if pt % 4 == 0 then ok (m.words (pt + 4 * offset)) else fault

unfoldable pub set_value : ℕ → ℕ → ℕ → Machine → Outcome Machine
set_value pt offset value m =
    if pt % 4 == 0 then ok (record m { words = update m.words (pt + 4 * offset) value }) else fault

unfoldable pub get_page_state_by_value : ℕ → EntryState
get_page_state_by_value value =
    if value % 2 == 1 then page_free else (if value / 2 % 2 == 1 then page_in_mem else page_in_swp)

-- The result 0 and a state that is returned are `none` and `some`; then `*dst` (0 for NULL).
-- swapfile_getpage gets the address of the caller's pointer for its buffer, and writes a page over
-- the stack: a fault.
unfoldable pub get_pagetable :
    ℕ → ℕ → ℕ → Bool → ℕ → Machine → Outcome (Option EntryState × ℕ × Machine)
get_pagetable space pt vaddr create permissions m = do
  value ← get_value pt (get_offset vaddr addr_up_shift) m
  elim (get_page_state_by_value value) [
    | page_free ↦
        (let created : Outcome (Option EntryState × ℕ × Machine) = do
          (table, m') ← create_table space permissions vaddr m
          m'' ← set_value pt (get_offset vaddr addr_up_shift) (table + 2) m'
          ok (none, table, m'')
          in if create then created else ok (some page_free, 0, m))
    | page_in_swp ↦
        (let created : Outcome (Option EntryState × ℕ × Machine) = do
          (table, m') ← create_table space 0 vaddr m
          fault
          in if create then created else ok (some page_in_swp, 0, m))
    | page_in_mem ↦ ok (none, page_frame value, m)
  ]

-- As get_pagetable, with the physical address and the permissions in `*dst`.
unfoldable pub get_page : ℕ → ℕ → ℕ → Bool → ℕ → Machine → Outcome (Option EntryState × ℕ × Machine)
get_page space pt offset create vaddr m = do
  value ← get_value pt offset m
  elim (get_page_state_by_value value) [
    | page_free ↦
        (let created : Outcome (Option EntryState × ℕ × Machine) = do
          (paddr, m') ← create_page space vaddr m
          m'' ← set_value pt offset (paddr + 2 + page_permissions value) m'
          ok (none, paddr + 2 + page_permissions value, m'')
          in if create then created else ok (some page_free, 1, m))
    | page_in_swp ↦
        (let created : Outcome (Option EntryState × ℕ × Machine) = do
          (paddr, m') ← create_page space vaddr m
          fault
          in if create then created else ok (some page_in_swp, 32, m))
    | page_in_mem ↦ ok (none, value / 4 * 4, m)
  ]

unfoldable pub pt_create : ℕ → Machine → Outcome (ℕ × Machine)
pt_create space m = do
  (pt, m') ← create_table space 0 0 m
  c ← coremap_setpagefixed ((pt + 2 ^ 32 - kernel_base) % 2 ^ 32) true m'.coremap
  ok (pt, record m' { coremap = c })

-- The physical address and the permissions, or 1 (PAGE_FREE) where there is no page.
unfoldable pub pt_get_paddr : ℕ → ℕ → ℕ → Bool → ℕ → Machine → Outcome (ℕ × Machine)
pt_get_paddr space pt vaddr create permissions m = do
  (_, spt, m') ← get_pagetable space pt vaddr create permissions m
  let found : Outcome (ℕ × Machine) = do
    (_, paddr, m'') ← get_page space spt (get_offset vaddr addr_low_shift) create vaddr m'
    ok (paddr, m'')
  if spt == 0 then ok (1, m') else found

-- The result 1 is true.
unfoldable pub pt_set_permissions : ℕ → ℕ → ℕ → Bool → ℕ → Machine → Outcome (Bool × Machine)
pt_set_permissions space pt vaddr create permissions m = do
  (_, spt, m') ← get_pagetable space pt vaddr create permissions m
  let offset = get_offset vaddr addr_low_shift
  let found : Outcome (Bool × Machine) = do
    (state, _, m'') ← get_page space spt offset create vaddr m'
    let changed : Outcome (Bool × Machine) = do
      value ← get_value spt offset m''
      m3 ← set_value spt offset (value - page_permissions value + permissions) m''
      ok (true, m3)
    elim state [ none ↦ changed | some s ↦ ok (false, m'') ]
  if spt == 0 then ok (false, m') else found

unfoldable pub vaddr_overlap : ℕ → ℕ → ℕ → ℕ → Bool
vaddr_overlap l1 r1 l2 r2 =
    if leb r2 r1 && leb l1 r2 then true else (if leb l1 l2 && ltb l2 r1 then true else false)
