-- ===== src/Kheap/Invariant.antt =====
-- When the subpage allocator is consistent, and which blocks are in use.
use os.Base.{
  ℕ, ◌+◌, ◌%◌, ◌≤◌, ◌<◌, ◌≡◌, ◌↔◌, ◌⊎◌, inl, inr, refl, sym, ap, ◌∙◌, true, false, arith, ◌==◌,
  some, List, [], ◌∷◌, length, Bool-cases, if◌then◌else◌, ==_iff, get_elem?, ◌^◌,
}
use os.Coremap.{CoremapPage, page_size, is_free}
use os.Coremap.Invariant.{IsCoremap}
use os.Coremap.Block.{used_at}
use os.Pagetable.Words.{kaddr}
use os.Kheap.{Kheap, npagerefs, nsizes, pr_blocktype}
use os.Kheap.Blocks.{has}
use os.Kheap.Page.{IsPage, blocktype_eq}
use os.Kheap.Chain.{Chain}
use os.Kheap.Refs.{Chain-Distinct, length-le_slots}

-- What the allocator's state stands for: the pagerefs in use, and for each its page, its type and size
-- of blocks, and its free blocks.
pub record View : Type 0 where
  pub all : List ℕ
  pub page : ℕ → ℕ
  pub kind : ℕ → ℕ
  pub size : ℕ → ℕ
  pub free : ℕ → List ℕ

-- The pagerefs of one type, in the order of all.
abbrev pub only : (ℕ → ℕ) → ℕ → List ℕ → List ℕ
only kind b [] = []
only kind b (p ∷ xs) = if kind p == b then p ∷ only kind b xs else only kind b xs

pub record IsKheap (v : View) (s : Kheap) : Type 0 where
  pub coremap : IsCoremap s.machine.coremap
  pub fits : length s.machine.coremap.pages < 2 ^ 19
  pub kernel_page : used_at s.machine.coremap.pages 0 ≡ true
  pub all_chain : Chain s.next_all s.allbase v.all
  pub same_chain :
      (b : ℕ) → b < nsizes → Chain s.next_samesize (s.sizebases b) (only v.kind b v.all)
  pub refs_lt : (p : ℕ) → has p v.all ≡ true → p < npagerefs
  pub refs : (p : ℕ) → p < npagerefs → s.pagerefs_inuse p ≡ has p v.all
  pub pages : (p : ℕ) → has p v.all ≡ true → IsPage s p (v.page p) (v.kind p) (v.size p) (v.free p)
  pub own :
      (p : ℕ)
      → has p v.all ≡ true
      → (q : CoremapPage) × (get_elem? s.machine.coremap.pages (v.page p) ≡ some q)
        × (q.page_count ≡ 1)
        × (is_free q.state ≡ false)
  pub above : (p : ℕ) → has p v.all ≡ true → 0 < v.page p
  pub distinct : (p q : ℕ) → has p v.all ≡ true → has q v.all ≡ true → v.page p ≡ v.page q → p ≡ q

-- A block of the allocator that is in use, by its address.
pub record Live (v : View) (a : ℕ) : Type 0 where
  pub pageref : ℕ
  pub offset : ℕ
  pub member : has pageref v.all ≡ true
  pub inside : offset < page_size
  pub aligned : offset % v.size pageref ≡ 0
  pub in_use : has offset (v.free pageref) ≡ false
  pub address : a ≡ kaddr (v.page pageref) + offset

pub has-only :
    (kind : ℕ → ℕ) (b p : ℕ) (xs : List ℕ)
    → has p (only kind b xs) ≡ true
    → (has p xs ≡ true) × (kind p ≡ b)
has-only kind b p [] m = ground (arith, m)
has-only kind b p (x ∷ xs) m = elim (Bool-cases (kind x == b)) [
  | inr other ↦
      let (h, k) = has-only kind b p xs (ground (arith, m, other)) in (ground (arith, h), k)
  | inl same ↦ elim (Bool-cases (p == x)) [
    | inl e ↦ (ground (arith, e), ap kind ((==_iff p x).0 e) ∙ (==_iff (kind x) b).0 same)
    | inr e ↦
        let (h, k) = has-only kind b p xs (ground (arith, m, same, e)) in (ground (arith, h), k)
  ]
]

pub only-has :
    (kind : ℕ → ℕ) (b p : ℕ) (xs : List ℕ)
    → has p xs ≡ true
    → kind p ≡ b
    → has p (only kind b xs) ≡ true
only-has kind b p [] m k = ground (arith, m)
only-has kind b p (x ∷ xs) m k = elim (Bool-cases (p == x)) [
  | inl e ↦
      let same : (kind x == b) ≡ true =
        (==_iff (kind x) b).1 (ap kind (sym ((==_iff p x).0 e)) ∙ k) in
      rw same (ground (arith, e))
  | inr e ↦
      let rest = only-has kind b p xs (ground (arith, m, e)) k in
      elim (Bool-cases (kind x == b)) [
        | inl same ↦ rw same (ground (arith, rest))
        | inr other ↦ rw other rest
      ]
]

pub length-only : (kind : ℕ → ℕ) (b : ℕ) (xs : List ℕ) → length (only kind b xs) ≤ length xs
length-only kind b [] = omega arith
length-only kind b (x ∷ xs) = ground (arith, length-only kind b xs)

module _ (v : View) (s : Kheap) (h : IsKheap v s) where
  pub all-few : length v.all ≤ npagerefs
  all-few =
      length-le_slots (λ i. i) npagerefs v.all
        (Chain-Distinct s.next_all s.allbase v.all h.all_chain) (λ q m. (q, h.refs_lt q m, refl))

  pub type_of : (p : ℕ) → has p v.all ≡ true → pr_blocktype s p ≡ v.kind p
  type_of p m = blocktype_eq s p (v.page p) (v.kind p) (v.size p) (h.pages p m)

  -- A block is in use by one pageref, at one offset.
  pub Live-unique :
      (p q o x : ℕ)
      → has p v.all ≡ true
      → has q v.all ≡ true
      → o < page_size
      → x < page_size
      → kaddr (v.page p) + o ≡ kaddr (v.page q) + x
      → (p ≡ q) × (o ≡ x)
  Live-unique p q o x mp mq lo lx e = (h.distinct p q mp mq (omega arith), omega arith)

-- The bytes of the blocks in use.
abbrev pub LiveByte : View → ℕ → Type 0
LiveByte v y = (a : ℕ) × (b : Live v a) × (a ≤ y) × (y < a + v.size b.pageref)

-- A block at `a` of at least sz bytes that was not in use: the blocks in use are it and those that were,
-- and those have the bytes that they had.
pub record NewBlock (sz a : ℕ) (v v' : View) (s s' : Kheap) : Type 0 where
  pub block : Live v' a
  pub large : sz ≤ v'.size block.pageref
  pub unused : Live v a → ⊥
  pub others : (x : ℕ) → Live v' x ↔ ((x ≡ a) ⊎ Live v x)
  pub bytes : (y : ℕ) → LiveByte v y → s'.machine.words y ≡ s.machine.words y
