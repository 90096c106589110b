-- ===== src/Kheap/Fresh.antt =====
-- A fresh page of blocks.
use os.Base.{
  ℕ, zero, suc, ◌+◌, ◌-◌, ◌*◌, ◌/◌, ◌%◌, ◌^◌, ◌≤◌, ◌<◌, ◌≡◌, ◌⊎◌, inl, inr, refl, sym, ap, subst,
  ◌∙◌, true, false, arith, ◌==◌, some, List, [], ◌∷◌, length, get_elem?, Bool-cases, ==_iff,
}
use os.Coremap.{page_size}
use os.Pagetable.{update}
use os.Pagetable.Frame.{update-other, update_self}
use os.Pagetable.Words.{kaddr}
use os.Kheap.{Kheap, sizes, invalid_offset}
use os.Kheap.Subpage.{init_loop, init_page}
use os.Kheap.Blocks.{FreeList, ends, link, has, size-cases, size_bounds, FreeList-frame}
use os.Kheap.Page.{IsPage}

-- The offsets of the first n blocks, from the last one on.
abbrev pub all_blocks : ℕ → ℕ → List ℕ
all_blocks zero size = []
all_blocks (suc n) size = (n * size) ∷ all_blocks n size

length-all_blocks : (n size : ℕ) → length (all_blocks n size) ≡ n
length-all_blocks zero size = refl
length-all_blocks (suc n) size = ap suc (length-all_blocks n size)

all_blocks-lt : (n size o : ℕ) → 0 < size → has o (all_blocks n size) ≡ true → o < n * size
all_blocks-lt zero size o pos h = ground (arith, h)
all_blocks-lt (suc n) size o pos h =
    let split : suc n * size ≡ n * size + size = grind arith in
    elim (Bool-cases (o == n * size)) [
      | inl e ↦ omega (arith, (==_iff o (n * size)).0 e, split)
      | inr e ↦ omega (arith, all_blocks-lt n size o pos (ground (arith, h, e)), split)
    ]

pub has-all_blocks : (n size i : ℕ) → i < n → has (i * size) (all_blocks n size) ≡ true
has-all_blocks zero size i h = absurd (omega arith)
has-all_blocks (suc n) size i h = elim (Bool-cases (i == n)) [
  | inl e ↦
      let same : (i * size == n * size) ≡ true =
        (==_iff (i * size) (n * size)).1 (ap (λ j. j * size) ((==_iff i n).0 e)) in
      rw same refl
  | inr e ↦ ground (arith, has-all_blocks n size i (ground (arith, e, h)))
]

block_offset :
    (b size m : ℕ)
    → get_elem? sizes b ≡ some size
    → m < page_size / size
    → (m * size % size ≡ 0) × (m * size + size ≤ page_size)
block_offset b size m e =
    size-cases b size e (λ k. m < page_size / k → (m * k % k ≡ 0) × (m * k + k ≤ page_size))
      (λ h. omega arith) (λ h. omega arith) (λ h. omega arith) (λ h. omega arith) (λ h. omega arith)
      (λ h. omega arith) (λ h. omega arith) (λ h. omega arith)

module _ (b size base : ℕ) (e : get_elem? sizes b ≡ some size) where
  step-FreeList :
      (i : ℕ) (words : ℕ → ℕ)
      → 0 < i
      → i < page_size / size
      → FreeList words base size (base + (i - 1) * size) (all_blocks i size)
      → FreeList
          (update words (base + i * size) (base + (i - 1) * size))
          base
          size
          (base + i * size)
          (all_blocks (suc i) size)
  step-FreeList i words pos lt l =
      let (al, fits) = block_offset b size i e lt in
      let (ge, le, quad, whole) = size_bounds b size e in
      let words' = update words (base + i * size) (base + (i - 1) * size) in
      let out : has (i * size) (all_blocks i size) ≡ false =
        elim (Bool-cases (has (i * size) (all_blocks i size))) [
          | inl h ↦ absurd (omega (arith, all_blocks-lt i size (i * size) (omega arith) h))
          | inr h ↦ h
        ] in
      link refl (omega arith) al out (
        subst (λ a. FreeList words' base size a (all_blocks i size))
          (sym (update_self words (base + i * size) (base + (i - 1) * size)))
          (FreeList-frame words words' base size _ (all_blocks i size)
            (λ o m.
              update-other words (base + i * size) _ (base + o)
                (λ q. omega (arith, q, all_blocks-lt i size o (omega arith) m)))
            l))

  init_loop-FreeList :
      (left i : ℕ) (words : ℕ → ℕ)
      → 0 < i
      → i + left ≡ page_size / size
      → FreeList words base size (base + (i - 1) * size) (all_blocks i size)
      → FreeList
          (init_loop left i base size words)
          base
          size
          (base + (page_size / size - 1) * size)
          (all_blocks (page_size / size) size)
  unfolding init_loop
  init_loop-FreeList zero i words pos all l =
      let n : i ≡ page_size / size = omega arith in
      subst (λ j. FreeList words base size (base + (j - 1) * size) (all_blocks j size)) n l
  init_loop-FreeList (suc left) i words pos all l =
      init_loop-FreeList left (suc i) _ (omega arith) (omega arith) (
        subst
          (λ j.
            FreeList (update words (base + i * size) (base + (i - 1) * size)) base size
              (base + j * size) (all_blocks (suc i) size))
          (omega arith) (step-FreeList i words pos (omega arith) l))

  init_loop-outside :
      (left i : ℕ) (words : ℕ → ℕ) (x : ℕ)
      → i + left ≤ page_size / size
      → (x < base) ⊎ (base + page_size ≤ x)
      → init_loop left i base size words x ≡ words x
  unfolding init_loop
  init_loop-outside zero i words x all out = refl
  init_loop-outside (suc left) i words x all out =
      let (al, fits) = block_offset b size i e (omega arith) in
      let (ge, le, quad, whole) = size_bounds b size e in
      init_loop-outside left (suc i) _ x (omega arith) out
      ∙ update-other words (base + i * size) (base + (i - 1) * size) x
          (λ q. elim out [ inl h ↦ omega arith | inr h ↦ omega arith ])

-- A page that was made fresh has all its blocks free.
pub init_page-IsPage :
    (s : Kheap) (pr k b size : ℕ)
    → get_elem? sizes b ≡ some size
    → b < 8
    → k + 1 < 2 ^ 19
    → IsPage (init_page pr (kaddr k) b size s) pr k b size (all_blocks (page_size / size) size)
unfolding init_page
init_page-IsPage s pr k b size e lt small =
    let (ge, le, quad, whole) = size_bounds b size e in
    let same : (pr == pr) ≡ true = ground arith in
    let many : 2 ≤ page_size / size = grind arith in
    let (al, fits) = block_offset b size (page_size / size - 1) e (omega arith) in
    let ne : ((page_size / size - 1) * size == invalid_offset) ≡ false = ground (arith, fits) in
    let words0 = update s.machine.words (kaddr k) 0 in
    let first : FreeList words0 (kaddr k) size (kaddr k + (1 - 1) * size) (all_blocks 1 size) =
      link refl (omega arith) (omega arith) refl
        (ends (ap words0 (omega arith) ∙ update_self s.machine.words (kaddr k) 0)) in
    record {
      small = small;
      type_lt = lt;
      packed = rw same (omega arith);
      size_eq = e;
      counted = rw same (sym (length-all_blocks (page_size / size) size));
      blocks =
          rw (same, ne)
            (init_loop-FreeList b size (kaddr k) e (page_size / size - 1) 1 words0 (omega arith)
              (omega arith) first);
    }

-- It writes only in its page.
pub init_page-outside :
    (s : Kheap) (pr k b size x : ℕ)
    → get_elem? sizes b ≡ some size
    → (x < kaddr k) ⊎ (kaddr k + page_size ≤ x)
    → (init_page pr (kaddr k) b size s).machine.words x ≡ s.machine.words x
unfolding init_page
init_page-outside s pr k b size x e out =
    let (ge, le, quad, whole) = size_bounds b size e in
    let many : 2 ≤ page_size / size = grind arith in
    init_loop-outside b size (kaddr k) e (page_size / size - 1) 1 _ x (omega arith) out
    ∙ update-other s.machine.words (kaddr k) 0 x
        (λ q. elim out [ inl h ↦ omega arith | inr h ↦ omega arith ])
