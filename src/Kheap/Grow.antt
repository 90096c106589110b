-- ===== src/Kheap/Grow.antt =====
-- A new page for blocks of one size.
use os.Base.{
  ℕ, ◌+◌, ◌/◌, ◌<◌, ◌≡◌, ◌≢◌, inl, inr, refl, sym, ap, subst, ◌∙◌, true, false, arith, ◌==◌, some,
  ◌∷◌, length, Bool-cases, if◌then◌else◌, ==_iff, get_elem?, ltb,
}
use os.Coremap.{CoremapPage, Coremap, entry, allocated, page_size, is_free}
use os.Coremap.Block.{used_at}
use os.Coremap.Invariant.{IsCoremap}
use os.Pagetable.Words.{kaddr}
use os.Kheap.{Kheap, sizes, change, push, nsizes, npagerefs, same_links, all_links}
use os.Kheap.Subpage.{init_page}
use os.Kheap.Blocks.{has, FreeList-has, block_fits}
use os.Kheap.Page.{IsPage, IsPage-kept, IsPage-at}
use os.Kheap.Fresh.{all_blocks, init_page-IsPage, init_page-outside}
use os.Kheap.Chain.{Chain, Chain-frame, push-Chain, change-other, change_self}
use os.Kheap.Refs.{marked}
use os.Kheap.Invariant.{View, only, has-only, IsKheap, LiveByte}
use os.Kheap.Only.{only-change, only-out}
use os.Kheap.Grown.{grown}

abbrev pub with_coremap : ℕ → Coremap → Kheap → Kheap
with_coremap p c s = record (marked p s) {
  machine = record { coremap = c; words = s.machine.words };
}

abbrev pub with_page : ℕ → ℕ → ℕ → ℕ → Coremap → Kheap → Kheap
with_page p k b size c s = init_page p (kaddr k) b size (with_coremap p c s)

module _ (v : View) (s : Kheap) (h : IsKheap v s) (p k b size : ℕ) (c : Coremap)
    (lt : p < npagerefs) (unused : s.pagerefs_inuse p ≡ false) (e : get_elem? sizes b ≡ some size)
    (blt : b < nsizes) (klt : k < length s.machine.coremap.pages) (kpos : 0 < k)
    (ku : used_at s.machine.coremap.pages k ≡ false)
    (entries : (j : ℕ)
      → get_elem? c.pages j
        ≡ (if j == k then some (entry 1 allocated) else get_elem? s.machine.coremap.pages j))
    (len : length c.pages ≡ length s.machine.coremap.pages) (valid : IsCoremap c) where
  pub absent : has p v.all ≡ false
  absent = sym (h.refs p lt) ∙ unused

  other_page : (q : ℕ) → has q v.all ≡ true → v.page q ≢ k
  other_page q mq same =
      let (x, at, count, taken) = h.own q mq in
      let u : used_at s.machine.coremap.pages (v.page q) ≡ true =
        rw (at, used_at) (ground (arith, taken)) in
      ground (arith, u, ap (used_at s.machine.coremap.pages) same, ku)

  other_ref : (q : ℕ) → has q v.all ≡ true → p ≢ q
  other_ref q mq same = ground (arith, ap (λ x. has x v.all) same, mq, absent)

  new_ref : IsPage (with_page p k b size c s) p k b size (all_blocks (page_size / size) size)
  new_ref = init_page-IsPage _ p k b size e blt (omega (arith, h.fits))

  page_old :
      (q : ℕ)
      → has q v.all ≡ true
      → IsPage (with_page p k b size c s) q (v.page q) (v.kind q) (v.size q) (v.free q)
  unfolding init_page
  page_old q mq =
      let ne = other_ref q mq in
      let far = other_page q mq in
      let (x, at, count, taken) = h.own q mq in
      IsPage-kept s (with_page p k b size c s) q (v.page q) (v.kind q) (v.size q) (v.free q)
        (change-other s.pageaddr_and_blocktype p _ q ne) (change-other s.nfree p _ q ne)
        (change-other s.freelist_offset p _ q ne)
        (λ o m.
          let (olt, oal) =
            FreeList-has s.machine.words (kaddr (v.page q)) (v.size q) _ o (v.free q)
              (h.pages q mq).blocks m in
          init_page-outside (with_coremap p c s) p k b size (kaddr (v.page q) + o) e
            (elim (Bool-cases (ltb (v.page q) k)) [
              | inl less ↦ let less' : v.page q < k = ground (arith, less) in inl (omega arith)
              | inr more ↦ let more' : k < v.page q = ground (arith, more, far) in inr (omega arith)
            ]))
        (h.pages q mq)

  page_grown :
      (q : ℕ)
      → has q (p ∷ v.all) ≡ true
      → IsPage
          (with_page p k b size c s)
          q
          (change v.page p k q)
          (change v.kind p b q)
          (change v.size p size q)
          (change v.free p (all_blocks (page_size / size) size) q)
  page_grown q mq = elim (Bool-cases (p == q)) [
    | inl t ↦
        subst
          (λ q.
            IsPage (with_page p k b size c s) q (change v.page p k q) (change v.kind p b q)
              (change v.size p size q) (change v.free p (all_blocks (page_size / size) size) q))
          ((==_iff p q).0 t)
          (IsPage-at _ p k _ b _ size _ _ _ (sym (change_self v.page p k))
            (sym (change_self v.kind p b)) (sym (change_self v.size p size))
            (sym (change_self v.free p (all_blocks (page_size / size) size))) new_ref)
    | inr t ↦
        let ne : p ≢ q = ground (arith, t) in
        IsPage-at _ q (v.page q) _ (v.kind q) _ (v.size q) _ (v.free q) _
          (sym (change-other v.page p k q ne)) (sym (change-other v.kind p b q ne))
          (sym (change-other v.size p size q ne)) (sym (change-other v.free p _ q ne))
          (page_old q (ground (arith, t, mq)))
  ]

  same_grown :
      (d : ℕ)
      → d < nsizes
      → Chain
          (with_page p k b size c s).next_samesize
          ((with_page p k b size c s).sizebases d)
          (only (change v.kind p b) d (p ∷ v.all))
  unfolding init_page push
  same_grown d dlt =
      let self = change_self v.kind p b in
      let old = only-change v.kind p b d v.all absent in
      let out = only-out v.kind d p v.all absent in
      elim (Bool-cases (b == d)) [
        | inl t ↦
            let same = (==_iff b d).0 t in
            rw (self, t, old)
              (push-Chain (same_links b s) p (only v.kind d v.all) out (
                subst (λ x. Chain s.next_samesize (s.sizebases b) (only v.kind x v.all)) same
                  (h.same_chain b blt)))
        | inr t ↦
            rw (self, t, old)
              (Chain-frame s.next_samesize _ (s.sizebases d) (only v.kind d v.all)
                (λ q m.
                  change-other s.next_samesize p (s.sizebases b) q
                    (other_ref q (has-only v.kind d q v.all m).0))
                (h.same_chain d dlt))
      ]

  own_grown :
      (q : ℕ)
      → has q (p ∷ v.all) ≡ true
      → (x : CoremapPage) × (get_elem? c.pages (change v.page p k q) ≡ some x)
        × (x.page_count ≡ 1)
        × (is_free x.state ≡ false)
  own_grown q mq = elim (Bool-cases (p == q)) [
    | inl t ↦
        let at : (k == k) ≡ true = ground arith in
        (
          entry 1 allocated,
          ap (get_elem? c.pages)
                (ap (change v.page p k) (sym ((==_iff p q).0 t)) ∙ change_self v.page p k)
              ∙ entries k
              ∙ rw at refl,
          refl,
          refl,
        )
    | inr t ↦
        let mq' : has q v.all ≡ true = ground (arith, t, mq) in
        let (x, at, count, taken) = h.own q mq' in
        let ne : (v.page q == k) ≡ false = ground (arith, other_page q mq') in
        (
          x,
          ap (get_elem? c.pages) (change-other v.page p k q (ground (arith, t)))
              ∙ entries (v.page q)
              ∙ rw ne at,
          count,
          taken,
        )
  ]

  distinct_grown :
      (q r : ℕ)
      → has q (p ∷ v.all) ≡ true
      → has r (p ∷ v.all) ≡ true
      → change v.page p k q ≡ change v.page p k r
      → q ≡ r
  distinct_grown q r mq mr same = elim (Bool-cases (p == q)) [
    | inl t ↦ elim (Bool-cases (p == r)) [
      | inl u ↦ sym ((==_iff p q).0 t) ∙ (==_iff p r).0 u
      | inr u ↦ absurd (
          other_page r (ground (arith, u, mr)) (
            sym (change-other v.page p k r (ground (arith, u)))
            ∙ sym same
            ∙ ap (change v.page p k) (sym ((==_iff p q).0 t))
            ∙ change_self v.page p k))
    ]
    | inr t ↦ elim (Bool-cases (p == r)) [
      | inl u ↦ absurd (
          other_page q (ground (arith, t, mq)) (
            sym (change-other v.page p k q (ground (arith, t)))
            ∙ same
            ∙ ap (change v.page p k) (sym ((==_iff p r).0 u))
            ∙ change_self v.page p k))
      | inr u ↦ h.distinct q r (ground (arith, t, mq)) (ground (arith, u, mr)) (
          sym (change-other v.page p k q (ground (arith, t)))
          ∙ same
          ∙ change-other v.page p k r (ground (arith, u)))
    ]
  ]

  pub grown-IsKheap : IsKheap (grown p k b size v) (with_page p k b size c s)
  unfolding init_page push
  grown-IsKheap = record {
    coremap = valid;
    fits = omega (arith, len, h.fits);
    kernel_page = ground (arith, entries 0, h.kernel_page, ku);
    all_chain = push-Chain (all_links s) p v.all absent h.all_chain;
    same_chain = same_grown;
    refs_lt = λ q m. elim (Bool-cases (q == p)) [
      | inl t ↦ omega (arith, (==_iff q p).0 t, lt)
      | inr t ↦ h.refs_lt q (ground (arith, t, m))
    ];
    refs = λ q qlt. elim (Bool-cases (p == q)) [
      | inl t ↦ rw t (ground (arith, t))
      | inr t ↦ rw t (h.refs q qlt ∙ ground (arith, t))
    ];
    pages = page_grown;
    own = own_grown;
    above = λ q m. elim (Bool-cases (p == q)) [
      | inl t ↦ rw t kpos
      | inr t ↦ rw t (h.above q (ground (arith, t, m)))
    ];
    distinct = distinct_grown;
  }

  -- A new page changes no byte of a block in use.
  pub grown-bytes :
      (y : ℕ) → LiveByte v y → (with_page p k b size c s).machine.words y ≡ s.machine.words y
  grown-bytes y (a, l, lo, hi) =
      let far = other_page l.pageref l.member in
      let pg = h.pages l.pageref l.member in
      let fits =
        block_fits (v.kind l.pageref) (v.size l.pageref) l.offset pg.size_eq l.aligned l.inside in
      let at = l.address in
      init_page-outside (with_coremap p c s) p k b size y e
        (elim (Bool-cases (ltb (v.page l.pageref) k)) [
          | inl less ↦ let less' : v.page l.pageref < k = ground (arith, less) in inl (omega arith)
          | inr more ↦
              let more' : k < v.page l.pageref = ground (arith, more, far) in inr (omega arith)
        ])
