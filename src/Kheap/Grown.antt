-- ===== src/Kheap/Grown.antt =====
-- The view with a new page, and its blocks in use.
use os.Base.{
  ℕ, ◌+◌, ◌/◌, ◌%◌, ◌≡◌, ◌≢◌, inl, inr, sym, ap, ◌∙◌, true, false, arith, ◌==◌, some, ◌∷◌,
  Bool-cases, ==_iff, get_elem?,
}
use os.Coremap.{page_size}
use os.Pagetable.Words.{kaddr}
use os.Kheap.{sizes, change}
use os.Kheap.Blocks.{has}
use os.Kheap.Fresh.{all_blocks, has-all_blocks}
use os.Kheap.Chain.{change-other, change_self}
use os.Kheap.Refs.{slot_of}
use os.Kheap.Invariant.{View, Live, LiveByte}
use os.Kheap.Only.{clash}

abbrev pub grown : ℕ → ℕ → ℕ → ℕ → View → View
grown p k b size v = record {
  all = p ∷ v.all;
  page = change v.page p k;
  kind = change v.kind p b;
  size = change v.size p size;
  free = change v.free p (all_blocks (page_size / size) size);
}

module _ (v : View) (p k b size : ℕ) (e : get_elem? sizes b ≡ some size)
    (out : has p v.all ≡ false) where
  other_member : (q : ℕ) → has q v.all ≡ true → p ≢ q
  other_member q mq same = ground (arith, ap (λ x. has x v.all) same, mq, out)

  -- The blocks of the new page are all free.
  pub grown-Live : (x : ℕ) → Live (grown p k b size v) x → Live v x
  grown-Live x l = elim (Bool-cases (p == l.pageref)) [
    | inl t ↦
        let same = (==_iff p l.pageref).0 t in
        let al : l.offset % size ≡ 0 =
          ap (λ z. l.offset % z) (sym (change_self v.size p size) ∙ ap (change v.size p size) same)
          ∙ l.aligned in
        let (ilt, ieq) = slot_of b size l.offset e l.inside al in
        let there : has l.offset (all_blocks (page_size / size) size) ≡ true =
          ap (λ o. has o (all_blocks (page_size / size) size)) ieq
          ∙ has-all_blocks (page_size / size) size (l.offset / size) ilt in
        let gone : has l.offset (all_blocks (page_size / size) size) ≡ false =
          ap (has l.offset) (
            sym (change_self v.free p (all_blocks (page_size / size) size))
            ∙ ap (change v.free p (all_blocks (page_size / size) size)) same)
          ∙ l.in_use in
        absurd (clash there gone)
    | inr t ↦
        let ne : p ≢ l.pageref = ground (arith, t) in
        record {
          pageref = l.pageref;
          offset = l.offset;
          member = ground (arith, t, l.member);
          inside = l.inside;
          aligned =
              ap (λ z. l.offset % z) (sym (change-other v.size p size l.pageref ne)) ∙ l.aligned;
          in_use = ap (has l.offset) (sym (change-other v.free p _ l.pageref ne)) ∙ l.in_use;
          address = l.address ∙ ap (λ z. kaddr z + l.offset) (change-other v.page p k l.pageref ne);
        }
  ]

  pub Live-grown : (x : ℕ) → Live v x → Live (grown p k b size v) x
  Live-grown x l =
      let ne = other_member l.pageref l.member in
      record {
        pageref = l.pageref;
        offset = l.offset;
        member = ground (arith, l.member);
        inside = l.inside;
        aligned = ap (λ z. l.offset % z) (change-other v.size p size l.pageref ne) ∙ l.aligned;
        in_use = ap (has l.offset) (change-other v.free p _ l.pageref ne) ∙ l.in_use;
        address =
            l.address ∙ ap (λ z. kaddr z + l.offset) (sym (change-other v.page p k l.pageref ne));
      }

  pub LiveByte-grown : (y : ℕ) → LiveByte v y → LiveByte (grown p k b size v) y
  unfolding Live-grown
  LiveByte-grown y (a, l, lo, hi) = (
    a,
    Live-grown a l,
    lo,
    omega (arith, hi, change-other v.size p size l.pageref (other_member l.pageref l.member)),
  )
