-- ===== src/Pagetable/Overlap.antt =====
-- The test of pt_copy for a page that overlaps a region.
use os.Base.{ℕ, ◌≤◌, ◌<◌, ◌≡◌, ◌⊎◌, ◌↔◌, true, arith, Bool-cases, inl, inr, leb}
use os.Pagetable.{vaddr_overlap}

-- Two ranges, their upper ends not included, have an address in common.
abbrev pub Meets : ℕ → ℕ → ℕ → ℕ → Type 0
Meets l1 r1 l2 r2 = (a : ℕ) × (l1 ≤ a) × (a < r1) × (l2 ≤ a) × (a < r2)

-- The second range holds all of the first and goes beyond it on both sides.
abbrev pub Inside : ℕ → ℕ → ℕ → ℕ → Type 0
Inside l1 r1 l2 r2 = (l2 < l1) × (r1 < r2)

meets : (l1 r1 l2 r2 : ℕ) → l1 < r1 → l2 < r2 → l1 < r2 → l2 < r1 → Meets l1 r1 l2 r2
meets l1 r1 l2 r2 h1 h2 p q = elim (Bool-cases (leb l1 l2)) [
  | inl e ↦ (l2, ground (arith, e), q, omega arith, h2)
  | inr e ↦ (l1, omega arith, h1, ground (arith, e), p)
]

one_side : (l1 r1 l2 r2 : ℕ) → ¬ Inside l1 r1 l2 r2 → (l1 ≤ l2) ⊎ (r2 ≤ r1)
one_side l1 r1 l2 r2 n = elim (Bool-cases (leb l1 l2)) [
  | inl e ↦ inl (ground (arith, e))
  | inr e ↦ elim (Bool-cases (leb r2 r1)) [
    | inl f ↦ inr (ground (arith, f))
    | inr f ↦ absurd (n (ground (arith, e), ground (arith, f)))
  ]
]

overlap_sides :
    (l1 r1 l2 r2 : ℕ)
    → l1 < r1
    → l2 < r2
    → vaddr_overlap l1 r1 l2 r2 ≡ true
    → (r2 ≡ l1) ⊎ ((l1 < r2) × (l2 < r1) × ((l1 ≤ l2) ⊎ (r2 ≤ r1)))
unfolding vaddr_overlap
overlap_sides l1 r1 l2 r2 h1 h2 e = ground (arith, e)

-- For two ranges that are not empty, vaddr_overlap says that they overlap exactly when they have an
-- address in common and the first is not inside the second, or when the second ends where the first
-- begins.
pub vaddr_overlap_iff :
    (l1 r1 l2 r2 : ℕ)
    → l1 < r1
    → l2 < r2
    → (vaddr_overlap l1 r1 l2 r2 ≡ true) ↔ ((Meets l1 r1 l2 r2 × ¬ Inside l1 r1 l2 r2) ⊎ (r2 ≡ l1))
unfolding vaddr_overlap
vaddr_overlap_iff l1 r1 l2 r2 h1 h2 = (
  λ e. elim (overlap_sides l1 r1 l2 r2 h1 h2 e) [
    | inl q ↦ inr q
    | inr (p, q, r) ↦ inl (meets l1 r1 l2 r2 h1 h2 p q, λ x. ground (arith, r, x))
  ],
  λ r. elim r [
    | inl ((a, b, c, d, e), n) ↦
        let s = one_side l1 r1 l2 r2 n in
        let p : l1 < r2 = omega arith in let q : l2 < r1 = omega arith in ground (arith, p, q, s)
    | inr q ↦ ground (arith, q)
  ],
)
