-- ===== src/Vm/Load.antt =====
-- What vm_fault loads into a page of a region.
use os.Base.{
  ℕ, ◌+◌, ◌-◌, ◌%◌, ◌^◌, ◌≤◌, ◌<◌, ◌≡◌, ◌↔◌, arith, Bool-cases, inl, inr, ltb, if◌then◌else◌,
}
use os.Addrspace.{Region}
use os.Vm.{load_plan, clip}

-- A region and a page of the user's half of the addresses.
pub record IsUserPage (fa : ℕ) (r : Region) : Type 0 where
  pub page_start : fa % 4096 ≡ 0
  pub page_end : fa + 4096 ≤ 2 ^ 31
  pub region_end : r.vaddr + r.memsize ≤ 2 ^ 31
  pub file_part : r.filesize ≤ r.memsize
  pub meets_above : r.vaddr < fa + 4096
  pub meets_below : fa < r.vaddr + r.memsize

-- Whether x is among `size` addresses from `start` on.
abbrev pub Within : ℕ → ℕ → ℕ → Type 0
Within start size x = (start ≤ x) × (x < start + size)

clip-exact :
    (stop rbot rtop : ℕ)
    → stop ≤ 2 ^ 31
    → rtop ≤ 2 ^ 31
    → rbot ≤ rtop
    → (x : ℕ) → (Within rbot (clip stop rbot rtop) x) ↔ ((rbot ≤ x) × (x < rtop) × (x < stop))
unfolding clip
clip-exact stop rbot rtop h1 h2 h3 x = (λ w. ground (arith, w), λ w. ground (arith, w))

part-exact :
    (fa start size x : ℕ)
    → fa + 4096 ≤ 2 ^ 31
    → start + size ≤ 2 ^ 31
    → start < fa + 4096
    → let rbot = if ltb start fa then fa else start in
      Within rbot (clip ((start + size) % 2 ^ 32) rbot ((fa + 4096) % 2 ^ 32)) x
      ↔ (Within fa 4096 x × Within start size x)
part-exact fa start size x h1 h2 h3 =
    let stop : (start + size) % 2 ^ 32 ≡ start + size = omega (arith, h2) in
    let rtop : (fa + 4096) % 2 ^ 32 ≡ fa + 4096 = omega (arith, h1) in
    elim (Bool-cases (ltb start fa)) [
      | inl e ↦
          let c = clip-exact (start + size) fa (fa + 4096) h2 h1 (omega arith) x in
          rw (e, stop, rtop) (λ w. ground (arith, c.0 w, e), λ w. c.1 (ground (arith, w)))
      | inr e ↦
          let c = clip-exact (start + size) start (fa + 4096) h2 h1 (omega (arith, h3)) x in
          rw (e, stop, rtop) (λ w. ground (arith, c.0 w, e), λ w. c.1 (ground (arith, w)))
    ]

-- For a page of the user's half that meets a region, the addresses that load_plan has loaded are
-- those of the page that are in the region, and those that it has filled from the file are those of
-- the page that are in the region's file part.
pub load_plan-exact :
    (fa : ℕ) (r : Region)
    → IsUserPage fa r
    → let q = load_plan fa r in
      (x : ℕ)
      → (Within q.vaddr q.memsize x ↔ (Within fa 4096 x × Within r.vaddr r.memsize x))
        × (Within q.vaddr q.filesize x ↔ (Within fa 4096 x × Within r.vaddr r.filesize x))
unfolding load_plan
load_plan-exact fa r h x = (
  part-exact fa r.vaddr r.memsize x h.page_end h.region_end h.meets_above,
  part-exact fa r.vaddr r.filesize x h.page_end (omega (arith, h.region_end, h.file_part))
      h.meets_above,
)

-- For such a page, the offset in the file that load_plan has read from is the offset of the region
-- where the page begins at the region's start or before; for a later page it is the offset of the
-- page's first byte, too high by as much as the region's start lies behind the start of a page.
pub load_plan-offset :
    (fa : ℕ) (r : Region)
    → IsUserPage fa r
    → r.offset + 2 ^ 31 ≤ 2 ^ 32
    → (fa ≤ r.vaddr → (load_plan fa r).offset ≡ r.offset)
      × (r.vaddr < fa
          → (load_plan fa r).offset
            ≡ r.offset + ((load_plan fa r).vaddr - r.vaddr) + r.vaddr % 4096)
unfolding load_plan
load_plan-offset fa r h small = (
  λ l. ground (arith, h.page_start, h.meets_above, h.page_end, l),
  λ l. ground (arith, h.page_start, h.page_end, l),
)
