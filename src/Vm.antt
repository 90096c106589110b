-- ===== src/Vm.antt =====
-- os161-1.11/kern/vm/vm.c: what happens when an address is not in the TLB. The TLB is a list of
-- pairs, the address of a page and the word for it; TLB_Write, TLB_Read and TLB_Probe are what
-- arch/mips/include/tlb.h says of them. Counting events is left out.
pub mod Load
pub mod Resolve
mod Tests
use os.Base.{
  ℕ, zero, suc, ◌+◌, ◌-◌, ◌*◌, ◌/◌, ◌%◌, ◌^◌, Bool, true, false, ◌&&◌, Option, none, some, List, [],
  ◌∷◌, ltb, leb, ◌==◌, if◌then◌else◌, length, get_elem?, set,
}
use os.Base.Outcome.{Errno, einval, efault, Outcome, ok, fault, ◌>>=◌, ◌>>◌, deref}
use os.Pagetable.{Machine, page_frame, page_permissions, pt_get_paddr, pt_set_permissions}
use os.Addrspace.{Region, AddressSpace, find_region}

abbrev pub num_tlb : ℕ
num_tlb = 64

abbrev pub tlblo_valid : ℕ
tlblo_valid = 0x200

abbrev pub tlblo_dirty : ℕ
tlblo_dirty = 0x400

pub data FaultType : Type 0 where
  vm_fault_read vm_fault_write vm_fault_readonly other_fault : FaultType

-- `next` is next_tlb_idx, and `spl` the interrupt level.
pub record State : Type 0 where
  pub machine : Machine
  pub tlb : List (ℕ × ℕ)
  pub next : ℕ
  pub spl : ℕ

-- The level that splhigh sets.
abbrev pub high : ℕ
high = 15

unfoldable pub get_tlb_replace_idx : State → ℕ × State
get_tlb_replace_idx s = (s.next, record s { next = (s.next + 1) % num_tlb })

-- The parts of the word share no bit, and are added.
unfoldable pub tlb_update : ℕ → ℕ → ℕ → State → State
tlb_update faultaddress paddr tlb_idx s = record s {
  tlb = set s.tlb tlb_idx (
    faultaddress,
    page_frame paddr + tlblo_valid + (if paddr / 4 % 2 == 1 then tlblo_dirty else 0),
  );
}

unfoldable pub tlb_fault : ℕ → ℕ → State → State
tlb_fault faultaddress paddr s =
    let (tlb_idx, s') = get_tlb_replace_idx s in tlb_update faultaddress paddr tlb_idx s'

-- TLB_Probe: the first entry for the page, from entry `i` on.
unfoldable pub tlb_probe : ℕ → ℕ → List (ℕ × ℕ) → Option ℕ
tlb_probe ehi i [] = none
tlb_probe ehi i (e ∷ es) =
    let rest = tlb_probe ehi (i + 1) es in
    if page_frame (e.0) == page_frame ehi then some i else rest

-- The arguments of load_segment but for the vnode.
pub record Plan : Type 0 where
  pub offset : ℕ
  pub vaddr : ℕ
  pub memsize : ℕ
  pub filesize : ℕ
  pub executable : Bool

-- a - b on 32-bit numbers
abbrev pub sub32 : ℕ → ℕ → ℕ
sub32 a b = (a + 2 ^ 32 - b) % 2 ^ 32

-- What is left of a part that ends at `stop` behind `rbot`, when the page ends at `rtop`.
unfoldable pub clip : ℕ → ℕ → ℕ → ℕ
clip stop rbot rtop =
    if ltb stop rtop then (if leb rbot stop then sub32 stop rbot else 0) else sub32 rtop rbot

-- What to load into the page at `faultaddress`.
unfoldable pub load_plan : ℕ → Region → Plan
load_plan faultaddress r =
    let rbot = if ltb r.vaddr faultaddress then faultaddress else r.vaddr in
    let rtop = (faultaddress + 4096) % 2 ^ 32 in
    record {
      offset = (r.offset + sub32 faultaddress (page_frame r.vaddr)) % 2 ^ 32;
      vaddr = rbot;
      memsize = clip ((r.vaddr + r.memsize) % 2 ^ 32) rbot rtop;
      filesize = clip ((r.vaddr + r.filesize) % 2 ^ 32) rbot rtop;
      executable = r.permissions / 16 % 2 == 1;
    }

-- The checks of the fault type against the permissions in `paddr`.
unfoldable pub allowed : FaultType → ℕ → Bool
allowed vm_fault_read paddr = paddr / 8 % 2 == 1
allowed vm_fault_write paddr = paddr / 4 % 2 == 1
allowed vm_fault_readonly paddr = (paddr / 4 % 2 == 1) && (paddr / 8 % 2 == 1)
allowed other_fault paddr = true

unfoldable pub is_fault_type : FaultType → Bool
is_fault_type other_fault = false
is_fault_type _ = true

-- vm_fault behind the regions; `spl` is the level to go back to.
unfoldable pub finish_fault : ℕ → FaultType → ℕ → ℕ → State → Option Errno × State
finish_fault spl faulttype faultaddress paddr s =
    if allowed faulttype paddr
    then (none, record (tlb_fault faultaddress paddr s) { spl = spl })
    else (some efault, record s { spl = spl })

-- The permissions that a page gets before its region is known: PAGE_R_MASK | PAGE_W_MASK.
abbrev pub read_write : ℕ
read_write = 12

-- `load` is load_segment, which reads into memory through the addresses that are in the TLB.
module _ (load : Plan → State → Outcome State) where
  -- The part of vm_fault for a page of a region that is not there yet.
  unfoldable pub load_region :
      ℕ → ℕ → AddressSpace → Region → ℕ → State → Outcome (Option Errno × State)
  load_region spl space a r faultaddress s = do
    (paddr, m) ← pt_get_paddr space a.as_pt faultaddress true read_write s.machine
    s' ← load (load_plan faultaddress r) (tlb_fault faultaddress paddr (record s { machine = m }))
    (_, m') ← pt_set_permissions space a.as_pt faultaddress true r.permissions s'.machine
    let changed : State = record s' { machine = m' }
    let s'' : State = elim (tlb_probe faultaddress 0 changed.tlb) [
      | some i ↦ tlb_update faultaddress (paddr - page_permissions paddr + r.permissions) i changed
      | none ↦ tlb_fault faultaddress paddr changed
    ]
    ok (none, record s'' { spl = spl })

  -- vm_fault in an address space; `address` is the address that was used.
  unfoldable pub fault_in :
      ℕ → ℕ → AddressSpace → FaultType → ℕ → State → Outcome (Option Errno × State)
  fault_in spl space a faulttype address s = do
    (paddr, m) ← pt_get_paddr space a.as_pt (page_frame address) false 0 s.machine
    let create : Outcome (Option Errno × State) = do
      (paddr', m') ← pt_get_paddr space a.as_pt (page_frame address) true read_write m
      ok (finish_fault spl faulttype (page_frame address) paddr' (record s { machine = m' }))
    let unloaded : Outcome (Option Errno × State) = elim (find_region address a.as_regions) [
      | some r ↦ load_region spl space a r (page_frame address) (record s { machine = m })
      | none ↦ create
    ]
    let resident : Outcome (Option Errno × State) =
        if paddr / 32 % 2 == 1
        then create
        else ok (finish_fault spl faulttype (page_frame address) paddr (record s { machine = m }))
    if paddr % 2 == 1 then unloaded else resident

  -- The result 0 is `none`.
  unfoldable pub vm_fault :
      ℕ → Option AddressSpace → FaultType → ℕ → State → Outcome (Option Errno × State)
  vm_fault space none faulttype address s =
      if is_fault_type faulttype
      then ok (some efault, record s { spl = high })
      else ok (some einval, s)
  vm_fault space (some a) faulttype address s =
      let run = fault_in s.spl space a faulttype address (record s { spl = high }) in
      if is_fault_type faulttype then run else ok (some einval, s)
