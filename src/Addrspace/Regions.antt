-- ===== src/Addrspace/Regions.antt =====
-- Which pointers as_valid_ptr accepts.
use os.Base.{
  ℕ, zero, suc, ◌+◌, ◌%◌, ◌^◌, ◌≤◌, ◌<◌, ◌≡◌, ◌≢◌, ◌⊎◌, ◌↔◌, refl, sym, ap, ◌∙◌, Bool, true, false,
  arith, Bool-cases, inl, inr, Option, none, some, List, [], ◌∷◌, ◌++◌, length, get_elem?,
  Option-cases, ◌==◌, if◌then◌else◌,
}
use os.Base.Outcome.{Errno, efault, ok, panic, ◌>>=◌}
use os.Pagetable.{Machine, page_frame, pt_get_paddr}
use os.Pagetable.Words.{kaddr}
use os.Pagetable.Tables.{IsPagetable, translate}
use os.Pagetable.Mapped.{up, low, pt_get_paddr-translate}
use os.Addrspace.{
  Region, AddressSpace, max_regions, region_permissions, as_define_region, in_region, find_region,
  as_valid_ptr,
}

-- The address is in one of the regions.
abbrev pub InRegions : ℕ → List Region → Type 0
InRegions ptr rs =
    (k : ℕ) × (r : Region) × (get_elem? rs k ≡ some r)
    × (r.vaddr ≤ ptr)
    × (ptr < (r.vaddr + r.memsize) % 2 ^ 32)

skip :
    (ptr : ℕ) (q : Region) (rs : List Region)
    → in_region ptr q ≡ false
    → find_region ptr (q ∷ rs) ≡ find_region ptr rs
unfolding find_region
skip ptr q rs e = rw (e) refl

find_region-InRegions :
    (ptr : ℕ) (rs : List Region) (r : Region) → find_region ptr rs ≡ some r → InRegions ptr rs
unfolding find_region in_region
find_region-InRegions ptr [] r e = ground (arith, e)
find_region-InRegions ptr (q ∷ rs) r e = elim (Bool-cases (in_region ptr q)) [
  | inl here ↦ (0, q, refl, ground (arith, here), ground (arith, here))
  | inr there ↦
      let (k, x, at, lo, hi) = find_region-InRegions ptr rs r (sym (skip ptr q rs there) ∙ e) in
      (suc k, x, at, lo, hi)
]

found :
    (ptr : ℕ) (q : Region) (rs : List Region)
    → in_region ptr q ≡ true
    → find_region ptr (q ∷ rs) ≡ some q
unfolding find_region
found ptr q rs e = rw (e) refl

after_first :
    (ptr : ℕ) (q : Region) (rs : List Region) (k : ℕ) (r : Region)
    → in_region ptr q ≡ false
    → get_elem? (q ∷ rs) k ≡ some r
    → r.vaddr ≤ ptr
    → ptr < (r.vaddr + r.memsize) % 2 ^ 32
    → ((k' : ℕ) (r' : Region)
        → get_elem? rs k' ≡ some r'
        → r'.vaddr ≤ ptr
        → ptr < (r'.vaddr + r'.memsize) % 2 ^ 32
        → (x : Region) × (find_region ptr rs ≡ some x))
    → (x : Region) × (find_region ptr (q ∷ rs) ≡ some x)
unfolding in_region
after_first ptr q rs zero r out e lo hi rest = absurd (ground (arith, out, e, lo, hi))
after_first ptr q rs (suc k) r out e lo hi rest =
    let (x, f) = rest k r e lo hi in (x, skip ptr q rs out ∙ f)

InRegions-find_region :
    (ptr : ℕ) (rs : List Region) (k : ℕ) (r : Region)
    → get_elem? rs k ≡ some r
    → r.vaddr ≤ ptr
    → ptr < (r.vaddr + r.memsize) % 2 ^ 32
    → (x : Region) × (find_region ptr rs ≡ some x)
InRegions-find_region ptr [] k r e lo hi = absurd (ground (arith, e))
InRegions-find_region ptr (q ∷ rs) k r e lo hi = elim (Bool-cases (in_region ptr q)) [
  | inl here ↦ (q, found ptr q rs here)
  | inr there ↦ after_first ptr q rs k r there e lo hi (InRegions-find_region ptr rs)
]

accepted : (t : ℕ) → ok (if t % 2 == 1 then some efault else none) ≡ ok none → t % 2 ≢ 1
accepted t x e = ground (arith, x, e)

accepts : (t : ℕ) → t % 2 ≢ 1 → ok (if t % 2 == 1 then some efault else none) ≡ ok none
accepts t ne = ground (arith, ne)

absent_region : {r : Region} → none ≡ some r → ⊥
absent_region e = ground (arith, e)

-- as_valid_ptr accepts a pointer, in an address space with a well-formed page table, exactly when the
-- pointer is in a region or its page is mapped.
pub as_valid_ptr_iff :
    (space root ptr : ℕ) (role : ℕ → ℕ) (a : AddressSpace) (m : Machine)
    → IsPagetable role root m
    → a.as_pt ≡ kaddr root
    → (as_valid_ptr space (some a) ptr m ≡ ok none) ↔ (
        InRegions ptr a.as_regions
        ⊎ (translate m.words root (up (page_frame ptr)) (low (page_frame ptr)) % 2 ≢ 1))
unfolding as_valid_ptr
as_valid_ptr_iff space root ptr role a m h at =
    let t = translate m.words root (up (page_frame ptr)) (low (page_frame ptr)) in
    let read : pt_get_paddr space a.as_pt (page_frame ptr) false 0 m ≡ ok (t, m) =
      ap (λ x. pt_get_paddr space x (page_frame ptr) false 0 m) at
      ∙ pt_get_paddr-translate space root (page_frame ptr) role m h 0 in
    elim (Option-cases (find_region ptr a.as_regions)) [
      | inr (r, e) ↦
          (λ x. inl (find_region-InRegions ptr a.as_regions r e), λ x. rw (as_valid_ptr, e) refl)
      | inl e ↦
          rw (as_valid_ptr, e, read, ◌>>=◌)
            (
              λ x. inr (accepted t x),
              λ x. elim x [
                | inl (k, r, f, lo, hi) ↦
                    let (y, g) = InRegions-find_region ptr a.as_regions k r f lo hi in
                    absurd (absent_region (sym e ∙ g))
                | inr ne ↦ accepts t ne
              ],
            )
    ]

-- as_valid_ptr never panics.
pub as_valid_ptr-returns :
    (space root : ℕ) (role : ℕ → ℕ) (a : AddressSpace) (m : Machine)
    → IsPagetable role root m
    → a.as_pt ≡ kaddr root
    → (ptr : ℕ) → (r : Option Errno) × (as_valid_ptr space (some a) ptr m ≡ ok r)
unfolding as_valid_ptr
as_valid_ptr-returns space root role a m h at ptr =
    let t = translate m.words root (up (page_frame ptr)) (low (page_frame ptr)) in
    let read : pt_get_paddr space a.as_pt (page_frame ptr) false 0 m ≡ ok (t, m) =
      ap (λ x. pt_get_paddr space x (page_frame ptr) false 0 m) at
      ∙ pt_get_paddr-translate space root (page_frame ptr) role m h 0 in
    elim (Option-cases (find_region ptr a.as_regions)) [
      | inr (r, e) ↦ (none, rw (as_valid_ptr, e) refl)
      | inl e ↦ (if t % 2 == 1 then some efault else none, rw (as_valid_ptr, e, read) refl)
    ]

get_elem?-append_old :
    (rs qs : List Region) (k : ℕ) (r : Region)
    → get_elem? rs k ≡ some r
    → get_elem? (rs ++ qs) k ≡ some r
get_elem?-append_old [] qs k r e = absurd (ground (arith, e))
get_elem?-append_old (x ∷ rs) qs zero r e = e
get_elem?-append_old (x ∷ rs) qs (suc k) r e = get_elem?-append_old rs qs k r e

get_elem?-append_new :
    (rs : List Region) (q : Region) → get_elem? (rs ++ q ∷ []) (length rs) ≡ some q
get_elem?-append_new [] q = refl
get_elem?-append_new (x ∷ rs) q = get_elem?-append_new rs q

-- With fewer than three regions, as_define_region adds one: the pointers in it are in a region then,
-- those that were in a region still are, and the page table is the same; with three it panics.
pub as_define_region-InRegions :
    (a : AddressSpace) (offset memsize filesize vaddr : ℕ) (readable writeable executable : Bool)
    → vaddr + memsize < 2 ^ 32
    → let r = as_define_region a offset memsize filesize vaddr readable writeable executable in
      (length a.as_regions ≡ max_regions → r ≡ panic)
      × (length a.as_regions ≢ max_regions
          → (a' : AddressSpace) × (r ≡ ok a')
            × (a'.as_pt ≡ a.as_pt)
            × ((ptr : ℕ) → vaddr ≤ ptr → ptr < vaddr + memsize → InRegions ptr a'.as_regions)
            × ((ptr : ℕ) → InRegions ptr a.as_regions → InRegions ptr a'.as_regions))
unfolding as_define_region
as_define_region-InRegions a offset memsize filesize vaddr readable writeable executable fits =
    let region : Region = record {
      offset = offset;
      memsize = memsize;
      filesize = filesize;
      vaddr = vaddr;
      permissions = region_permissions readable writeable executable;
    } in
    (
      (λ e. ground (arith, e)),
      λ ne. (
        record a { as_regions = a.as_regions ++ region ∷ [] },
        ground (arith, ne),
        refl,
        (λ ptr lo hi. (
          length a.as_regions,
          region,
          get_elem?-append_new a.as_regions region,
          lo,
          omega (arith, hi, fits),
        )),
        λ ptr x. (x.0, x.1, get_elem?-append_old a.as_regions (region ∷ []) x.0 x.1 x.2, x.3, x.4),
      ),
    )
