-- ===== src/Kheap/Take.antt =====
-- Taking a block of a page that has free ones.
use os.Base.{
  ℕ, ◌+◌, ◌%◌, ◌≤◌, ◌<◌, ◌≡◌, ◌≢◌, ◌⊎◌, inl, inr, refl, sym, ap, subst, ◌∙◌, true, false, arith,
  ◌==◌, List, ◌∷◌, Bool-cases, ==_iff,
}
use os.Coremap.{page_size}
use os.Pagetable.Words.{kaddr}
use os.Kheap.{Kheap, change}
use os.Kheap.Blocks.{has, FreeList-uncons}
use os.Kheap.Page.{IsPage, IsPage-kept, taken, taken-IsPage}
use os.Kheap.Chain.{change-other, change_self}
use os.Kheap.Invariant.{View, IsKheap, Live, NewBlock, Live-unique}

abbrev pub took : ℕ → List ℕ → View → View
took p rest v = record v { free = change v.free p rest }

module _ (v : View) (s : Kheap) (h : IsKheap v s) (p o : ℕ) (rest : List ℕ) (m : has p v.all ≡ true)
    (fe : v.free p ≡ o ∷ rest) where
  page_before : IsPage s p (v.page p) (v.kind p) (v.size p) (o ∷ rest)
  page_before = subst (IsPage s p (v.page p) (v.kind p) (v.size p)) fe (h.pages p m)

  page_after :
      (q : ℕ)
      → has q v.all ≡ true
      → IsPage (taken p rest s) q (v.page q) (v.kind q) (v.size q) (change v.free p rest q)
  page_after q mq = elim (Bool-cases (p == q)) [
    | inl e ↦
        subst
          (λ q. IsPage (taken p rest s) q (v.page q) (v.kind q) (v.size q) (change v.free p rest q))
          ((==_iff p q).0 e)
          (subst (IsPage (taken p rest s) p (v.page p) (v.kind p) (v.size p))
            (sym (change_self v.free p rest))
            (taken-IsPage s p (v.page p) (v.kind p) (v.size p) o rest page_before))
    | inr e ↦
        let ne : p ≢ q = ground (arith, e) in
        subst (IsPage (taken p rest s) q (v.page q) (v.kind q) (v.size q))
          (sym (change-other v.free p rest q ne))
          (IsPage-kept s (taken p rest s) q (v.page q) (v.kind q) (v.size q) (v.free q) refl
            (change-other s.nfree p _ q ne) (change-other s.freelist_offset p _ q ne) (λ x y. refl)
            (h.pages q mq))
  ]

  pub taken-IsKheap : IsKheap (took p rest v) (taken p rest s)
  taken-IsKheap = record {
    coremap = h.coremap;
    fits = h.fits;
    kernel_page = h.kernel_page;
    all_chain = h.all_chain;
    same_chain = h.same_chain;
    refs_lt = h.refs_lt;
    refs = h.refs;
    pages = page_after;
    own = h.own;
    above = h.above;
    distinct = h.distinct;
  }

  block_facts : (o < page_size) × (o % v.size p ≡ 0) × (has o rest ≡ false)
  block_facts =
      let (e, lt, al, out, l) =
        FreeList-uncons s.machine.words (kaddr (v.page p)) (v.size p) _ o rest page_before.blocks in
      (lt, al, out)

  pub block_taken : Live (took p rest v) (kaddr (v.page p) + o)
  block_taken =
      let (lt, al, out) = block_facts in
      record {
        pageref = p;
        offset = o;
        member = m;
        inside = lt;
        aligned = al;
        in_use = ap (has o) (change_self v.free p rest) ∙ out;
        address = refl;
      }

  was_free : Live v (kaddr (v.page p) + o) → ⊥
  was_free b =
      let (lt, al, out) = block_facts in
      let (same_page, same_offset) =
        Live-unique v s h p b.pageref o b.offset m b.member lt b.inside b.address in
      let here : has o (v.free p) ≡ true = ap (has o) fe ∙ ground arith in
      let gone : has o (v.free p) ≡ false =
        ap (has o) (ap v.free same_page)
        ∙ ap (λ x. has x (v.free b.pageref)) same_offset
        ∙ b.in_use in
      ground (arith, here, gone)

  still : (x : ℕ) → Live v x → Live (took p rest v) x
  still x b = record {
    pageref = b.pageref;
    offset = b.offset;
    member = b.member;
    inside = b.inside;
    aligned = b.aligned;
    address = b.address;
    in_use = elim (Bool-cases (p == b.pageref)) [
      | inl e ↦
          let same = (==_iff p b.pageref).0 e in
          ap (λ q. has b.offset (change v.free p rest q)) (sym same)
          ∙ ap (has b.offset) (change_self v.free p rest)
          ∙ later b.offset (sym (ap (has b.offset) (sym (ap v.free same) ∙ fe)) ∙ b.in_use)
      | inr e ↦
          ap (has b.offset) (change-other v.free p rest b.pageref (ground (arith, e))) ∙ b.in_use
    ];
  }
    where
      later : (x : ℕ) → has x (o ∷ rest) ≡ false → has x rest ≡ false
      later x e = ground (arith, e)

  was : (x : ℕ) → Live (took p rest v) x → (x ≡ kaddr (v.page p) + o) ⊎ Live v x
  was x b = elim (Bool-cases (p == b.pageref)) [
    | inr e ↦ inr (
        before b (
          sym (ap (has b.offset) (change-other v.free p rest b.pageref (ground (arith, e))))
          ∙ b.in_use))
    | inl e ↦
        let same = (==_iff p b.pageref).0 e in
        let out : has b.offset rest ≡ false =
          sym (ap (has b.offset) (change_self v.free p rest))
          ∙ ap (λ q. has b.offset (change v.free p rest q)) same
          ∙ b.in_use in
        elim (Bool-cases (b.offset == o)) [
          | inl k ↦ inl (
              b.address
              ∙ ap (λ q. kaddr (v.page q) + b.offset) (sym same)
              ∙ ap (λ q. kaddr (v.page p) + q) ((==_iff b.offset o).0 k))
          | inr k ↦
              let both : has b.offset (o ∷ rest) ≡ false = ground (arith, k, out) in
              inr (before b (ap (has b.offset) (ap v.free (sym same) ∙ fe) ∙ both))
        ]
  ]
    where
      before :
          {x : ℕ} (b : Live (took p rest v) x) → has b.offset (v.free b.pageref) ≡ false → Live v x
      before b out = record {
        pageref = b.pageref;
        offset = b.offset;
        member = b.member;
        inside = b.inside;
        aligned = b.aligned;
        address = b.address;
        in_use = out;
      }

  pub taken-NewBlock :
      (sz : ℕ)
      → sz ≤ v.size p
      → NewBlock sz (kaddr (v.page p) + o) v (took p rest v) s (taken p rest s)
  unfolding block_taken
  taken-NewBlock sz le = record {
    block = block_taken;
    large = le;
    unused = was_free;
    others = λ x. (
      was x,
      λ b. elim b [ inl e ↦ subst (Live (took p rest v)) (sym e) block_taken | inr b ↦ still x b ],
    );
    bytes = λ y b. refl;
  }
