-- ===== src/Vm/Resolve.antt =====
-- How vm_fault resolves a fault on an address that is mapped, or lies in no region.
use os.Base.{
  ℕ, ◌+◌, ◌*◌, ◌/◌, ◌%◌, ◌≡◌, refl, ap, ◌∙◌, true, false, arith, Option, none, some, set, ◌==◌,
  if◌then◌else◌,
}
use os.Base.{ap₂}
use os.Base.Outcome.{Errno, efault, Outcome, ok, panic, ◌>>=◌}
use os.Coremap.{page_size}
use os.Coremap.Block.{used_at}
use os.Pagetable.{Machine, page_frame, pt_get_paddr}
use os.Pagetable.Words.{kaddr, IsPermissions}
use os.Pagetable.Tables.{IsPagetable, translate, first_permissions}
use os.Base.{Bool, ◌||◌}
use os.Pagetable.Mapped.{up, low, pt_get_paddr-translate}
use os.Coremap.Fresh.{OneLeft}
use os.Pagetable.Assign.{Assigned, Mapped}
use os.Addrspace.{AddressSpace}
use os.Vm.{
  State, Plan, FaultType, vm_fault_read, vm_fault_write, vm_fault_readonly, other_fault, num_tlb,
  tlblo_valid, tlblo_dirty, get_tlb_replace_idx, tlb_update, tlb_fault, allowed, is_fault_type,
  finish_fault, fault_in, vm_fault, high,
}

-- The TLB gets the page at the next index, for writing where the permissions have it.
abbrev pub entered : ℕ → ℕ → ℕ → State → State
entered address page p s = record s {
  tlb = set s.tlb s.next (
    page_frame address,
    page * page_size + tlblo_valid + (if p / 4 % 2 == 1 then tlblo_dirty else 0),
  );
  next = (s.next + 1) % num_tlb;
}

-- Whether the access that faulted needs no permission that p lacks: PAGE_R_MASK, 8, to read,
-- PAGE_W_MASK, 4, to write, and both for a write to a page that was in the TLB for reading.
abbrev pub permits : FaultType → ℕ → Bool
permits vm_fault_read p = (p == 8) || (p == 12) || (p == 24) || (p == 28)
permits vm_fault_write p = (p == 4) || (p == 12) || (p == 20) || (p == 28)
permits vm_fault_readonly p = (p == 12) || (p == 28)
permits other_fault p = false

-- The fault is resolved where the permissions allow it, and else fails with EFAULT.
abbrev pub answer : FaultType → ℕ → ℕ → ℕ → State → Option Errno × State
answer faulttype address page p s =
    if permits faulttype p then (none, entered address page p s) else (some efault, s)

allowed-page :
    (faulttype : FaultType) (paddr page p : ℕ)
    → paddr / 4 * 4 ≡ page * page_size + p
    → IsPermissions p
    → is_fault_type faulttype ≡ true
    → allowed faulttype paddr ≡ permits faulttype p
unfolding allowed is_fault_type
allowed-page vm_fault_read paddr page p e legal known = ground (arith, e, legal.below, legal.whole)
allowed-page vm_fault_write paddr page p e legal known = ground (arith, e, legal.below, legal.whole)
allowed-page vm_fault_readonly paddr page p e legal known =
    ground (arith, e, legal.below, legal.whole)
allowed-page other_fault paddr page p e legal known = ground (arith, known)

finish_fault-answer :
    (spl : ℕ) (faulttype : FaultType) (address paddr page p : ℕ) (s : State)
    → paddr / 4 * 4 ≡ page * page_size + p
    → IsPermissions p
    → is_fault_type faulttype ≡ true
    → finish_fault spl faulttype (page_frame address) paddr (record s { spl = high })
      ≡ answer faulttype address page p (record s { spl = spl })
unfolding finish_fault tlb_fault tlb_update get_tlb_replace_idx
finish_fault-answer spl faulttype address paddr page p s e legal known =
    let same = allowed-page faulttype paddr page p e legal known in
    let frame : page_frame paddr ≡ page * page_size = omega (arith, e, legal.below) in
    let write : paddr / 4 % 2 ≡ p / 4 % 2 = omega (arith, e) in rw (same, frame, write) refl

offset-page_frame :
    (address : ℕ)
    → (up (page_frame address) ≡ up address) × (low (page_frame address) ≡ low address)
offset-page_frame address = (omega arith, omega arith)

-- What vm_fault comes to on an address that is mapped nowhere and lies in no region.
pub data Filled (root address : ℕ) (s : State) (faulttype : FaultType)
    : Outcome (Option Errno × State) → Type 0 where
  filled :
      {page p : ℕ} {m' : Machine}
      → IsPermissions p
      → used_at s.machine.coremap.pages page ≡ false
      → p ≡ first_permissions s.machine.words root (up address) (low address) 12
      → Assigned root (up address) (low address) page p s.machine m'
      → Filled root address s faulttype
          (ok (answer faulttype address page p (record s { machine = m' })))
  out_of_memory : OneLeft s.machine.coremap → Filled root address s faulttype panic

module _ (load : Plan → State → Outcome State) (space root address : ℕ) (role : ℕ → ℕ)
    (a : AddressSpace) (s : State) (faulttype : FaultType) (h : IsPagetable role root s.machine)
    (at : a.as_pt ≡ kaddr root) (legal_type : is_fault_type faulttype ≡ true) where
  read_first :
      pt_get_paddr space a.as_pt (page_frame address) false 0 s.machine
      ≡ ok (translate s.machine.words root (up address) (low address), s.machine)
  read_first = rw (at) (
      pt_get_paddr-translate space root (page_frame address) role s.machine h 0
      ∙ ap (λ x. ok (x, s.machine))
          (ap₂ (translate s.machine.words root) ((offset-page_frame address).0)
            ((offset-page_frame address).1)))

  -- A fault of a known type on an address that a well-formed page table maps is resolved from the
  -- page table: if the page has PAGE_R for a read, PAGE_W for a write, both for a write to a page
  -- that was read-only, the TLB gets the page, for writing where its permissions have PAGE_W; else
  -- vm_fault fails with EFAULT. Nothing else changes.
  pub vm_fault-resident :
      (page p : ℕ)
      → IsPermissions p
      → translate s.machine.words root (up address) (low address) ≡ page * page_size + p
      → vm_fault load space (some a) faulttype address s ≡ ok (answer faulttype address page p s)
  unfolding vm_fault fault_in
  vm_fault-resident page p legal e =
      let first = read_first ∙ ap (λ x. ok (x, s.machine)) e in
      let even : ((page * page_size + p) % 2 == 1) ≡ false = ground (arith, legal.whole) in
      let in_memory : ((page * page_size + p) / 32 % 2 == 1) ≡ false =
        ground (arith, legal.below) in
      let whole : (page * page_size + p) / 4 * 4 ≡ page * page_size + p =
        omega (arith, legal.whole) in
      rw (legal_type, first, ◌>>=◌, even, in_memory)
        (ap ok (
          finish_fault-answer s.spl faulttype address (page * page_size + p) page p s whole legal
            legal_type))
