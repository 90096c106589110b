-- ===== src/Addrspace.antt =====
-- os161-1.11/kern/vm/addrspace.c: the regions of an address space. Addresses are 32-bit numbers, and
-- so is the end of a region.
pub mod Regions
mod Tests
use os.Base.{
  ℕ, zero, suc, ◌+◌, ◌*◌, ◌/◌, ◌%◌, ◌^◌, Bool, true, false, ◌&&◌, ◌||◌, Option, none, some, List,
  [], ◌∷◌, ◌++◌, ltb, leb, ◌==◌, if◌then◌else◌, length,
}
use os.Base.Outcome.{Errno, efault, Outcome, ok, panic, ◌>>=◌, ◌>>◌}
use os.Pagetable.{Machine, pt_create, pt_get_paddr, page_frame}

-- struct region
pub record Region : Type 0 where
  pub offset : ℕ
  pub memsize : ℕ
  pub filesize : ℕ
  pub vaddr : ℕ
  pub permissions : ℕ

-- `as_regions` holds the first as_region_count regions; the vnode is left out.
pub record AddressSpace : Type 0 where
  pub as_pt : ℕ
  pub as_regions : List Region

abbrev pub max_regions : ℕ
max_regions = 3

-- USERSTACK, the end of the user's half of the addresses.
abbrev pub userstack : ℕ
userstack = 2 ^ 31

-- `space` is the address of the current address space, and `mem` whether kmalloc finds memory.
unfoldable pub as_create : Bool → ℕ → Machine → Outcome (Option AddressSpace × Machine)
as_create mem space m =
    let made : Outcome (Option AddressSpace × Machine) = do
      (pt, m') ← pt_create space m
      ok (if pt == 0 then none else some (record { as_pt = pt; as_regions = [] }), m')
    in if mem then made else ok (none, m)

-- The flags are PAGE_R_MASK, PAGE_W_MASK and PAGE_X_MASK, which share no bit.
unfoldable pub region_permissions : Bool → Bool → Bool → ℕ
region_permissions readable writeable executable =
    (if readable then 8 else 0) + (if writeable then 4 else 0) + (if executable then 16 else 0)

unfoldable pub as_define_region :
    AddressSpace → ℕ → ℕ → ℕ → ℕ → Bool → Bool → Bool → Outcome AddressSpace
as_define_region a offset memsize filesize vaddr readable writeable executable =
    if length a.as_regions == max_regions
    then panic
    else ok (record a {
      as_regions =
          a.as_regions
          ++ record {
            offset = offset;
            memsize = memsize;
            filesize = filesize;
            vaddr = vaddr;
            permissions = region_permissions readable writeable executable;
          }
            ∷ [];
    })

unfoldable pub as_define_stack : AddressSpace → ℕ
as_define_stack a = userstack

-- vaddr < rtop && vaddr >= rbot
unfoldable pub in_region : ℕ → Region → Bool
in_region vaddr r = ltb vaddr ((r.vaddr + r.memsize) % 2 ^ 32) && leb r.vaddr vaddr

-- The loop over the regions: the first one that the address is in.
unfoldable pub find_region : ℕ → List Region → Option Region
find_region vaddr [] = none
find_region vaddr (r ∷ rs) =
    let rest = find_region vaddr rs in if in_region vaddr r then some r else rest

-- The result 0 is `none`. Without leave to create, pt_get_paddr changes nothing.
unfoldable pub as_valid_ptr : ℕ → Option AddressSpace → ℕ → Machine → Outcome (Option Errno)
as_valid_ptr space none ptr m = ok (some efault)
as_valid_ptr space (some a) ptr m =
    let mapped : Outcome (Option Errno) = do
      (paddr, _) ← pt_get_paddr space a.as_pt (page_frame ptr) false 0 m
      ok (if paddr % 2 == 1 then some efault else none)
    in elim (find_region ptr a.as_regions) [ some r ↦ ok none | none ↦ mapped ]
