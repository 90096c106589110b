-- ===== src/Kheap/Page.antt =====
-- One page of the subpage allocator: taking a block and giving one back.
use os.Base.{
  ℕ, suc, ◌+◌, ◌-◌, ◌*◌, ◌/◌, ◌%◌, ◌^◌, ◌≤◌, ◌<◌, ◌≡◌, ◌≢◌, ◌⊎◌, inl, inr, refl, sym, ap, subst,
  ◌∙◌, true, false, arith, ◌==◌, some, List, [], ◌∷◌, length, get_elem?, if◌then◌else◌, ltb, lt→ltb,
}
use os.Base.Outcome.{ok}
use os.Coremap.{page_size}
use os.Pagetable.{fill_words}
use os.Pagetable.Frame.{update-other, update_self}
use os.Pagetable.Words.{kaddr, fill_outside}
use os.Kheap.{Kheap, sizes, invalid_offset, change, pr_pageaddr, pr_blocktype}
use os.Kheap.Subpage.{doalloc, free_block}
use os.Kheap.Blocks.{
  FreeList, ends, link, has, blocks_apart, size_bounds, FreeList-frame, FreeList-has,
  FreeList-uncons,
}

-- The address of the first free block.
abbrev pub head_addr : ℕ → ℕ → ℕ
head_addr k offset = if offset == invalid_offset then 0 else kaddr k + offset

-- Pageref pr is for page k with blocks of the type and size, and `free` are its free blocks.
pub record IsPage (s : Kheap) (pr k b size : ℕ) (free : List ℕ) : Type 0 where
  pub small : k + 1 < 2 ^ 19
  pub type_lt : b < 8
  pub packed : s.pageaddr_and_blocktype pr ≡ kaddr k + b
  pub size_eq : get_elem? sizes b ≡ some size
  pub counted : s.nfree pr ≡ length free
  pub blocks : FreeList s.machine.words (kaddr k) size (head_addr k (s.freelist_offset pr)) free

module _ (s : Kheap) (pr k b size : ℕ) {free : List ℕ} (h : IsPage s pr k b size free) where
  pub pageaddr : pr_pageaddr s pr ≡ kaddr k
  pageaddr = omega (arith, h.packed, h.small, h.type_lt)

  pub blocktype_eq : pr_blocktype s pr ≡ b
  blocktype_eq = omega (arith, h.packed, h.small, h.type_lt)

-- The first offset of a list, as the pageref has it.
abbrev pub first_offset : List ℕ → ℕ
first_offset [] = invalid_offset
first_offset (o ∷ rest) = o

abbrev pub taken : ℕ → List ℕ → Kheap → Kheap
taken pr rest s = record s {
  nfree = change s.nfree pr (s.nfree pr - 1);
  freelist_offset = change s.freelist_offset pr (first_offset rest);
}

offset_of_head : (k o x : ℕ) → head_addr k x ≡ kaddr k + o → x ≡ o
offset_of_head k o x e = ground (arith, e)

doalloc-taken_rest :
    (s : Kheap) (pr k b size o : ℕ) (rest : List ℕ)
    → IsPage s pr k b size (o ∷ rest)
    → s.freelist_offset pr ≡ o
    → o < page_size
    → FreeList s.machine.words (kaddr k) size (s.machine.words (kaddr k + o)) rest
    → doalloc pr s ≡ ok (kaddr k + o, taken pr rest s)
unfolding doalloc
doalloc-taken_rest s pr k b size o [] h at lt (ends z) =
    let one : s.nfree pr ≡ 1 = h.counted in
    rw (at, lt→ltb o page_size lt, pageaddr s pr k b size h, z, one) refl
doalloc-taken_rest s pr k b size o (q ∷ rest) h at lt (link e qlt al out l) =
    let some_fl : (s.machine.words (kaddr k + o) == 0) ≡ false = ground (arith, e) in
    let back : (s.machine.words (kaddr k + o) + 2 ^ 32 - kaddr k) % 2 ^ 32 ≡ q =
      omega (arith, e, qlt, h.small) in
    let count : s.nfree pr - 1 ≡ suc (length rest) = omega (arith, h.counted) in
    let pos : ltb 0 (s.nfree pr - 1) ≡ true = lt→ltb _ _ (omega (arith, count)) in
    rw
      (
        at,
        lt→ltb o page_size lt,
        pageaddr s pr k b size h,
        some_fl,
        pos,
        back,
        lt→ltb q page_size qlt,
      )
      refl

-- The first free block of a page is taken, and nothing else changes.
pub doalloc-taken :
    (s : Kheap) (pr k b size o : ℕ) (rest : List ℕ)
    → IsPage s pr k b size (o ∷ rest)
    → doalloc pr s ≡ ok (kaddr k + o, taken pr rest s)
doalloc-taken s pr k b size o rest h =
    let (e, lt, al, out, l) = FreeList-uncons s.machine.words (kaddr k) size _ o rest h.blocks in
    doalloc-taken_rest s pr k b size o rest h (offset_of_head k o _ e) lt l

head-first :
    (words : ℕ → ℕ) (k size fl : ℕ) (free : List ℕ)
    → FreeList words (kaddr k) size fl free
    → fl ≡ head_addr k (first_offset free)
head-first words k size fl _ (ends e) = e
head-first words k size fl _ (link {offset = o} e lt al out l) =
    let ne : (o == invalid_offset) ≡ false = ground (arith, lt) in rw ne e

pub taken-IsPage :
    (s : Kheap) (pr k b size o : ℕ) (rest : List ℕ)
    → IsPage s pr k b size (o ∷ rest)
    → IsPage (taken pr rest s) pr k b size rest
taken-IsPage s pr k b size o rest h =
    let (e, lt, al, out, l) = FreeList-uncons s.machine.words (kaddr k) size _ o rest h.blocks in
    let same : (pr == pr) ≡ true = ground arith in
    record {
      small = h.small;
      type_lt = h.type_lt;
      packed = h.packed;
      size_eq = h.size_eq;
      counted = rw same (omega (arith, h.counted));
      blocks = rw same (
          subst (λ a. FreeList s.machine.words (kaddr k) size a rest)
            (head-first s.machine.words k size _ rest l) l);
    }

-- A page whose fields and whose free blocks are as they were.
pub IsPage-kept :
    (s s' : Kheap) (pr k b size : ℕ) (free : List ℕ)
    → s'.pageaddr_and_blocktype pr ≡ s.pageaddr_and_blocktype pr
    → s'.nfree pr ≡ s.nfree pr
    → s'.freelist_offset pr ≡ s.freelist_offset pr
    → ((o : ℕ) → has o free ≡ true → s'.machine.words (kaddr k + o) ≡ s.machine.words (kaddr k + o))
    → IsPage s pr k b size free
    → IsPage s' pr k b size free
IsPage-kept s s' pr k b size free e1 e2 e3 same h = record {
  small = h.small;
  type_lt = h.type_lt;
  packed = e1 ∙ h.packed;
  size_eq = h.size_eq;
  counted = e2 ∙ h.counted;
  blocks =
      subst (λ x. FreeList s'.machine.words (kaddr k) size (head_addr k x) free) (sym e3)
        (FreeList-frame s.machine.words s'.machine.words (kaddr k) size _ free same h.blocks);
}

-- What free_block writes lies in the block.
pub free_block-outside :
    (s : Kheap) (pr size a x : ℕ)
    → size % 4 ≡ 0
    → 4 ≤ size
    → (x < a) ⊎ (a + size ≤ x)
    → (free_block pr a size s).machine.words x ≡ s.machine.words x
unfolding free_block
free_block-outside s pr size a x al pos out =
    let ne : a ≢ x = elim out [ inl h ↦ λ e. omega arith | inr h ↦ λ e. omega arith ] in
    let miss : (i : ℕ) → i < size / 4 → a + 4 * i ≢ x =
      λ i lt e. elim out [ inl h ↦ omega arith | inr h ↦ omega arith ] in
    update-other (fill_words (size / 4) a 0xdeadbeef s.machine.words) a _ x ne
    ∙ fill_outside (size / 4) a 0xdeadbeef s.machine.words x miss

pub free_block-IsPage :
    (s : Kheap) (pr k b size o : ℕ) (free : List ℕ)
    → IsPage s pr k b size free
    → o < page_size
    → o % size ≡ 0
    → has o free ≡ false
    → s.nfree pr + 1 < 2 ^ 16
    → IsPage (free_block pr (kaddr k + o) size s) pr k b size (o ∷ free)
unfolding free_block
free_block-IsPage s pr k b size o free h lt al out few =
    let same : (pr == pr) ≡ true = ground arith in
    let (ge, le, quad, whole) = size_bounds b size h.size_eq in
    let ne : (o == invalid_offset) ≡ false = ground (arith, lt) in
    let base = pageaddr s pr k b size h in
    let words' = (free_block pr (kaddr k + o) size s).machine.words in
    let start : head_addr k ((free_block pr (kaddr k + o) size s).freelist_offset pr)
        ≡ kaddr k + o =
      rw (same, base) (ground (arith, ne)) in
    let next : words' (kaddr k + o) ≡ head_addr k (s.freelist_offset pr) =
      update_self (fill_words (size / 4) (kaddr k + o) 0xdeadbeef s.machine.words) (kaddr k + o) _
      ∙ ap (λ x. if s.freelist_offset pr == invalid_offset then 0 else x + s.freelist_offset pr)
          base in
    let kept : (q : ℕ) → has q free ≡ true → words' (kaddr k + q) ≡ s.machine.words (kaddr k + q) =
      λ q m.
        let (qlt, qal) = FreeList-has s.machine.words (kaddr k) size _ q free h.blocks m in
        let differ : o ≢ q = λ e. ground (arith, e, m, out, ap (λ x. has x free) e) in
        free_block-outside s pr size (kaddr k + o) (kaddr k + q) quad (omega arith)
          (elim (blocks_apart b size o q h.size_eq al qal differ) [
            | inl x ↦ inl (omega arith)
            | inr x ↦ inr (omega arith)
          ]) in
    record {
      small = h.small;
      type_lt = h.type_lt;
      packed = h.packed;
      size_eq = h.size_eq;
      counted = rw same (omega (arith, h.counted, few));
      blocks = link start lt al out (
          subst (λ a. FreeList words' (kaddr k) size a free) (sym (ap words' start ∙ next))
            (FreeList-frame s.machine.words words' (kaddr k) size _ free kept h.blocks));
    }

pub IsPage-at :
    (s : Kheap) (pr k k' b b' size size' : ℕ) (free free' : List ℕ)
    → k ≡ k'
    → b ≡ b'
    → size ≡ size'
    → free ≡ free'
    → IsPage s pr k b size free
    → IsPage s pr k' b' size' free'
IsPage-at s pr k k' b b' size size' free free' e1 e2 e3 e4 h =
    subst (λ x. IsPage s pr x b' size' free') e1
      (subst (λ x. IsPage s pr k x size' free') e2
        (subst (λ x. IsPage s pr k b x free') e3 (subst (λ x. IsPage s pr k b size x) e4 h)))
