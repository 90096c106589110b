-- ===== src/Kheap/Give.antt =====
-- A block goes back to the free list of its page.
use os.Base.{
  ℕ, ◌+◌, ◌/◌, ◌%◌, ◌^◌, ◌≤◌, ◌<◌, ◌≡◌, ◌≢◌, inl, inr, refl, sym, ap, subst, ◌∙◌, true, false,
  arith, ◌==◌, List, ◌∷◌, length, Bool-cases, ==_iff, ltb,
}
use os.Coremap.{page_size}
use os.Pagetable.Words.{kaddr}
use os.Kheap.{Kheap, change}
use os.Kheap.Subpage.{free_block}
use os.Kheap.Blocks.{has, size_bounds, block_fits, behind, FreeList-has}
use os.Kheap.Page.{IsPage, IsPage-kept, IsPage-at, free_block-IsPage, free_block-outside}
use os.Kheap.Chain.{change-other, change_self}
use os.Kheap.Refs.{free-lt}
use os.Kheap.Invariant.{View, IsKheap, Live, LiveByte, Live-unique}

-- Block o of pageref p is free.
abbrev pub gave : ℕ → ℕ → View → View
gave p o v = record v { free = change v.free p (o ∷ v.free p) }

-- What is not free when block z of p is, too.
gave-in_use :
    (f : ℕ → List ℕ) (p z q o : ℕ)
    → has o (change f p (z ∷ f p) q) ≡ false
    → (has o (f q) ≡ false) × (q ≡ p → o ≢ z)
gave-in_use f p z q o out = elim (Bool-cases (p == q)) [
  | inl t ↦
      let same = (==_iff p q).0 t in
      let both : has o (z ∷ f p) ≡ false =
        ap (has o) (sym (change_self f p (z ∷ f p)) ∙ ap (change f p (z ∷ f p)) same) ∙ out in
      (ap (λ r. has o (f r)) (sym same) ∙ ground (arith, both), λ e e'. ground (arith, both, e'))
  | inr t ↦
      let ne : p ≢ q = ground (arith, t) in
      (ap (has o) (sym (change-other f p (z ∷ f p) q ne)) ∙ out, λ e. absurd (ne (sym e)))
]

in_use-gave :
    (f : ℕ → List ℕ) (p z q o : ℕ)
    → has o (f q) ≡ false
    → (q ≡ p → o ≢ z)
    → has o (change f p (z ∷ f p) q) ≡ false
in_use-gave f p z q o out differ = elim (Bool-cases (p == q)) [
  | inl t ↦
      let same = (==_iff p q).0 t in
      let old : has o (f p) ≡ false = ap (λ r. has o (f r)) same ∙ out in
      let ne : (o == z) ≡ false = ground (arith, differ (sym same)) in
      ap (has o) (ap (change f p (z ∷ f p)) (sym same) ∙ change_self f p (z ∷ f p))
      ∙ ground (arith, ne, old)
  | inr t ↦ let ne : p ≢ q = ground (arith, t) in ap (has o) (change-other f p (z ∷ f p) q ne) ∙ out
]

module _ (v : View) (s : Kheap) (h : IsKheap v s) (a : ℕ) (l : Live v a) where
  -- The state behind free_block.
  abbrev pub given : Kheap
  given = free_block l.pageref a (v.size l.pageref) s

  own_page :
      IsPage s l.pageref (v.page l.pageref) (v.kind l.pageref) (v.size l.pageref) (v.free l.pageref)
  own_page = h.pages l.pageref l.member

  pub few_free : length (v.free l.pageref) < page_size / v.size l.pageref
  few_free =
      free-lt (v.kind l.pageref) (v.size l.pageref) l.offset s.machine.words _ _ (v.free l.pageref)
        own_page.size_eq own_page.blocks l.inside l.aligned l.in_use

  few_blocks : s.nfree l.pageref + 1 < 2 ^ 16
  few_blocks =
      let (ge, le, quad, whole) =
        size_bounds (v.kind l.pageref) (v.size l.pageref) own_page.size_eq in
      let few : page_size / v.size l.pageref ≤ page_size = grind arith in
      omega (arith, few_free, own_page.counted, few)

  -- Blocks of other pages, and other blocks of the page, are elsewhere.
  untouched :
      (q o n y : ℕ)
      → has q v.all ≡ true
      → o < page_size
      → o % v.size q ≡ 0
      → n ≤ v.size q
      → (q ≡ l.pageref → o ≢ l.offset)
      → kaddr (v.page q) + o ≤ y
      → y < kaddr (v.page q) + o + n
      → given.machine.words y ≡ s.machine.words y
  untouched q o n y mq olt oal small differ lo hi =
      let pq = h.pages q mq in
      let (ge, le, quad, whole) =
        size_bounds (v.kind l.pageref) (v.size l.pageref) own_page.size_eq in
      let fits =
        block_fits (v.kind l.pageref) (v.size l.pageref) l.offset own_page.size_eq l.aligned
          l.inside in
      let qfits = block_fits (v.kind q) (v.size q) o pq.size_eq oal olt in
      let at = l.address in
      free_block-outside s l.pageref (v.size l.pageref) a y quad (omega (arith, ge))
        (elim (Bool-cases (q == l.pageref)) [
          | inl t ↦
              let same = (==_iff q l.pageref).0 t in
              let page_eq = ap v.page same in
              let size_eq = ap v.size same in
              let oal' : o % v.size l.pageref ≡ 0 = ap (λ z. o % z) (sym size_eq) ∙ oal in
              elim (Bool-cases (ltb o l.offset)) [
                | inl less ↦
                    let room =
                      behind (v.kind l.pageref) (v.size l.pageref) o l.offset own_page.size_eq oal'
                        l.aligned (ground (arith, less)) in
                    inl (omega arith)
                | inr more ↦
                    let room =
                      behind (v.kind l.pageref) (v.size l.pageref) l.offset o own_page.size_eq
                        l.aligned oal' (ground (arith, more, differ same)) in
                    inr (omega arith)
              ]
          | inr t ↦
              let far : v.page q ≢ v.page l.pageref =
                λ e. ground (arith, t, h.distinct q l.pageref mq l.member e) in
              elim (Bool-cases (ltb (v.page q) (v.page l.pageref))) [
                | inl less ↦
                    let less' : v.page q < v.page l.pageref = ground (arith, less) in
                    inl (omega arith)
                | inr more ↦
                    let more' : v.page l.pageref < v.page q = ground (arith, more, far) in
                    inr (omega arith)
              ]
        ])

  page_given :
      (q : ℕ)
      → has q v.all ≡ true
      → IsPage given q
          (v.page q)
          (v.kind q)
          (v.size q)
          (change v.free l.pageref (l.offset ∷ v.free l.pageref) q)
  unfolding free_block
  page_given q mq = elim (Bool-cases (l.pageref == q)) [
    | inl t ↦
        subst
          (λ q.
            IsPage given q (v.page q) (v.kind q) (v.size q)
              (change v.free l.pageref (l.offset ∷ v.free l.pageref) q))
          ((==_iff l.pageref q).0 t)
          (IsPage-at given l.pageref _ _ _ _ _ _ _ _ refl refl refl
            (sym (change_self v.free l.pageref (l.offset ∷ v.free l.pageref)))
            (subst
              (λ x.
                IsPage (free_block l.pageref x (v.size l.pageref) s) l.pageref (v.page l.pageref)
                  (v.kind l.pageref) (v.size l.pageref) (l.offset ∷ v.free l.pageref))
              (sym l.address)
              (free_block-IsPage s l.pageref (v.page l.pageref) (v.kind l.pageref)
                (v.size l.pageref) l.offset (v.free l.pageref) own_page l.inside l.aligned l.in_use
                few_blocks)))
    | inr t ↦
        let ne : l.pageref ≢ q = ground (arith, t) in
        let pq = h.pages q mq in
        let (ge, le, quad, whole) = size_bounds (v.kind q) (v.size q) pq.size_eq in
        subst (IsPage given q (v.page q) (v.kind q) (v.size q))
          (sym (change-other v.free l.pageref (l.offset ∷ v.free l.pageref) q ne))
          (IsPage-kept s given q (v.page q) (v.kind q) (v.size q) (v.free q) refl
            (change-other s.nfree l.pageref _ q ne)
            (change-other s.freelist_offset l.pageref _ q ne)
            (λ o m.
              let (olt, oal) =
                FreeList-has s.machine.words (kaddr (v.page q)) (v.size q) _ o (v.free q) pq.blocks
                  m in
              untouched q o 1 (kaddr (v.page q) + o) mq olt oal (omega (arith, ge))
                (λ e. absurd (ne (sym e))) (omega arith) (omega arith))
            pq)
  ]

  pub given-IsKheap : IsKheap (gave l.pageref l.offset v) given
  unfolding free_block
  given-IsKheap = record {
    coremap = h.coremap;
    fits = h.fits;
    kernel_page = h.kernel_page;
    all_chain = h.all_chain;
    same_chain = h.same_chain;
    refs_lt = h.refs_lt;
    refs = h.refs;
    pages = page_given;
    own = h.own;
    above = h.above;
    distinct = h.distinct;
  }

  -- The blocks in use are the others.
  pub given-Live : (x : ℕ) → Live (gave l.pageref l.offset v) x → Live v x × (x ≢ a)
  given-Live x k =
      let (out, differ) = gave-in_use v.free l.pageref l.offset k.pageref k.offset k.in_use in
      (
        record {
          pageref = k.pageref;
          offset = k.offset;
          member = k.member;
          inside = k.inside;
          aligned = k.aligned;
          in_use = out;
          address = k.address;
        },
        λ e.
            let (same_page, same_offset) =
              Live-unique v s h k.pageref l.pageref k.offset l.offset k.member l.member k.inside
                l.inside (sym k.address ∙ e ∙ l.address) in
            differ same_page same_offset,
      )

  pub Live-given : (x : ℕ) → Live v x → x ≢ a → Live (gave l.pageref l.offset v) x
  Live-given x k ne = record {
    pageref = k.pageref;
    offset = k.offset;
    member = k.member;
    inside = k.inside;
    aligned = k.aligned;
    address = k.address;
    in_use = in_use-gave v.free l.pageref l.offset k.pageref k.offset k.in_use (λ e e'. ne (
        k.address
        ∙ ap (λ q. kaddr (v.page q) + k.offset) e
        ∙ ap (λ o. kaddr (v.page l.pageref) + o) e'
        ∙ sym l.address));
  }

  pub given-bytes :
      (y : ℕ) → LiveByte (gave l.pageref l.offset v) y → given.machine.words y ≡ s.machine.words y
  given-bytes y (x, k, lo, hi) =
      let (out, differ) = gave-in_use v.free l.pageref l.offset k.pageref k.offset k.in_use in
      untouched k.pageref k.offset (v.size k.pageref) y k.member k.inside k.aligned (omega arith)
        differ (omega (arith, k.address, lo)) (omega (arith, k.address, hi))
