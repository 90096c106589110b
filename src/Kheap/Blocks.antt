-- ===== src/Kheap/Blocks.antt =====
-- Free lists in memory: the offsets of blocks in a page, and what a write leaves of them.
use os.Base.{
  ℕ, zero, suc, ◌+◌, ◌*◌, ◌/◌, ◌%◌, ◌≤◌, ◌<◌, ◌≡◌, ◌≢◌, ◌⊎◌, inl, inr, sym, ap, subst, ◌∙◌, Bool,
  true, false, arith, ◌==◌, ◌||◌, none, some, List, [], ◌∷◌, get_elem?, Bool-cases, ==_iff, ltb,
}
use os.Coremap.{page_size}
use os.Kheap.{sizes}

abbrev pub has : ℕ → List ℕ → Bool
has a [] = false
has a (x ∷ xs) = (a == x) || has a xs

-- From address `fl` the links of free blocks lead through the offsets: each in the page, a multiple of
-- the size, and once.
pub data FreeList (words : ℕ → ℕ) (base size : ℕ) : ℕ → List ℕ → Type 0 where
  ends : {fl : ℕ} → fl ≡ 0 → FreeList words base size fl []
  link :
      {fl offset : ℕ} {rest : List ℕ}
      → fl ≡ base + offset
      → offset < page_size
      → offset % size ≡ 0
      → has offset rest ≡ false
      → FreeList words base size (words fl) rest
      → FreeList words base size fl (offset ∷ rest)

pub got {ℓ} : {A : Type ℓ} {x y : A} → some x ≡ some y → x ≡ y
got {x = x} e = ap (λ o. elim o [ none ↦ x | some z ↦ z ]) e

-- The eight sizes.
pub size-cases :
    (b size : ℕ)
    → get_elem? sizes b ≡ some size
    → (P : ℕ → Type 0) → P 16
    → P 32
    → P 64
    → P 128
    → P 256
    → P 512
    → P 1024
    → P 2048
    → P size
size-cases zero size e P p0 p1 p2 p3 p4 p5 p6 p7 = subst P (got e) p0
size-cases (suc zero) size e P p0 p1 p2 p3 p4 p5 p6 p7 = subst P (got e) p1
size-cases (suc (suc zero)) size e P p0 p1 p2 p3 p4 p5 p6 p7 = subst P (got e) p2
size-cases (suc (suc (suc zero))) size e P p0 p1 p2 p3 p4 p5 p6 p7 = subst P (got e) p3
size-cases (suc (suc (suc (suc zero)))) size e P p0 p1 p2 p3 p4 p5 p6 p7 = subst P (got e) p4
size-cases (suc (suc (suc (suc (suc zero))))) size e P p0 p1 p2 p3 p4 p5 p6 p7 = subst P (got e) p5
size-cases (suc (suc (suc (suc (suc (suc zero)))))) size e P p0 p1 p2 p3 p4 p5 p6 p7 =
    subst P (got e) p6
size-cases (suc (suc (suc (suc (suc (suc (suc zero))))))) size e P p0 p1 p2 p3 p4 p5 p6 p7 =
    subst P (got e) p7
size-cases (suc (suc (suc (suc (suc (suc (suc (suc b)))))))) size e P p0 p1 p2 p3 p4 p5 p6 p7 =
    ground (arith, e)

-- Different blocks of one size do not overlap.
pub behind :
    (b size o q : ℕ)
    → get_elem? sizes b ≡ some size
    → o % size ≡ 0
    → q % size ≡ 0
    → o < q
    → o + size ≤ q
behind b size o q e =
    size-cases b size e (λ k. o % k ≡ 0 → q % k ≡ 0 → o < q → o + k ≤ q) (λ x y n. omega arith)
      (λ x y n. omega arith) (λ x y n. omega arith) (λ x y n. omega arith) (λ x y n. omega arith)
      (λ x y n. omega arith) (λ x y n. omega arith) (λ x y n. omega arith)

pub blocks_apart :
    (b size o q : ℕ)
    → get_elem? sizes b ≡ some size
    → o % size ≡ 0
    → q % size ≡ 0
    → o ≢ q
    → (q < o) ⊎ (o + size ≤ q)
blocks_apart b size o q e x y n = elim (Bool-cases (ltb q o)) [
  | inl h ↦ inl (ground (arith, h))
  | inr h ↦ inr (behind b size o q e x y (ground (arith, h, n)))
]

-- What the sizes have in common.
pub size_bounds :
    (b size : ℕ)
    → get_elem? sizes b ≡ some size
    → (16 ≤ size) × (size ≤ 2048) × (size % 4 ≡ 0) × (page_size / size * size ≡ page_size)
size_bounds b size e =
    size-cases b size e (λ k. (16 ≤ k) × (k ≤ 2048) × (k % 4 ≡ 0) × (page_size / k * k ≡ page_size))
      (omega arith) (omega arith) (omega arith) (omega arith) (omega arith) (omega arith)
      (omega arith) (omega arith)

pub block_fits :
    (b size o : ℕ)
    → get_elem? sizes b ≡ some size
    → o % size ≡ 0
    → o < page_size
    → o + size ≤ page_size
block_fits b size o e =
    size-cases b size e (λ k. o % k ≡ 0 → o < page_size → o + k ≤ page_size) (λ x y. omega arith)
      (λ x y. omega arith) (λ x y. omega arith) (λ x y. omega arith) (λ x y. omega arith)
      (λ x y. omega arith) (λ x y. omega arith) (λ x y. omega arith)

-- A free list is as it was when the words of its blocks are.
pub FreeList-frame :
    (words words' : ℕ → ℕ) (base size fl : ℕ) (free : List ℕ)
    → ((o : ℕ) → has o free ≡ true → words' (base + o) ≡ words (base + o))
    → FreeList words base size fl free
    → FreeList words' base size fl free
FreeList-frame words words' base size fl _ same (ends e) = ends e
FreeList-frame words words' base size fl _ same (link {offset = o} {rest = rest} e lt al out l) =
    link e lt al out (
      subst (λ a. FreeList words' base size a rest)
        (ap words e ∙ sym (same o (ground arith)) ∙ sym (ap words' e))
        (FreeList-frame words words' base size (words fl) rest (λ q m. same q (ground (arith, m)))
          l))

-- What a block of a free list is like.
pub FreeList-has :
    (words : ℕ → ℕ) (base size fl o : ℕ) (free : List ℕ)
    → FreeList words base size fl free
    → has o free ≡ true
    → (o < page_size) × (o % size ≡ 0)
FreeList-has words base size fl o _ (ends e) h = ground (arith, h)
FreeList-has words base size fl o _ (link {offset = q} {rest = rest} e lt al out l) h =
    elim (Bool-cases (o == q)) [
      | inl s ↦ let k : o ≡ q = (==_iff o q).0 s in (omega arith, rw k al)
      | inr n ↦ FreeList-has words base size (words fl) o rest l (ground (arith, n, h))
    ]

-- The first block of a free list, and the others.
pub FreeList-uncons :
    (words : ℕ → ℕ) (base size fl o : ℕ) (rest : List ℕ)
    → FreeList words base size fl (o ∷ rest)
    → (fl ≡ base + o)
      × (o < page_size)
      × (o % size ≡ 0)
      × (has o rest ≡ false)
      × FreeList words base size (words (base + o)) rest
FreeList-uncons words base size fl o rest (link e lt al out l) =
    (e, lt, al, out, subst (λ a. FreeList words base size a rest) (ap words e) l)
