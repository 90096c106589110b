-- ===== src/Coremap/Pages.antt =====
-- coremap_ispagefixed, coremap_setpagefixed, coremap_getpagevaddr and coremap_setpagevaddr.
use os.Base.{
  ℕ, ◌+◌, ◌*◌, ◌/◌, ◌<◌, ◌≡◌, refl, ◌∙◌, Bool, true, false, none, some, arith, ◌==◌, Bool-cases,
  inl, inr, if◌then◌else◌, length, get_elem?, set, length-set, lt_of_get_elem?,
}
use os.Base.Outcome.{ok}
use os.Coremap.{
  CoremapPage, free, allocated, fixed, entry, is_free, Coremap, page_size, coremap_ispagefixed,
  coremap_setpagefixed, coremap_getpagevaddr, coremap_setpagevaddr,
}
use os.Coremap.Fill.{count_used-set, get_elem?-set}
use os.Coremap.Invariant.{IsCoremap}

module _ (c : Coremap) (h : IsCoremap c) (page : ℕ) (p p' : CoremapPage)
    (e : get_elem? c.pages page ≡ some p) (used : is_free p.state ≡ false)
    (still : is_free p'.state ≡ false) (same_count : p'.page_count ≡ p.page_count) where
  lt : page < length c.pages
  lt = lt_of_get_elem? c.pages page e

  replaced :
      (k : ℕ) (q : CoremapPage)
      → get_elem? (set c.pages page p') k ≡ some q
      → (x : CoremapPage) × (get_elem? c.pages k ≡ some x)
        × (q.page_count ≡ x.page_count)
        × (is_free q.state ≡ is_free x.state)
  replaced k q at = elim (Bool-cases (k == page)) [
    | inl here ↦
        let there : k ≡ page = ground arith in
        let new : q ≡ p' = ground (arith, get_elem?-set c.pages page k p' lt) in
        (p, rw there e, ground arith, ground arith)
    | inr other ↦ (q, ground (arith, get_elem?-set c.pages page k p' lt), refl, refl)
  ]

  replaced-blocks :
      (k j : ℕ) (q : CoremapPage)
      → get_elem? (set c.pages page p') k ≡ some q
      → k < j
      → j < k + q.page_count
      → (r : CoremapPage) × (get_elem? (set c.pages page p') j ≡ some r)
        × (r.page_count ≡ 0)
        × (is_free r.state ≡ false)
  replaced-blocks k j q at lo hi =
      let old = replaced k q at in
      let (r, there, none_behind, busy) = h.blocks k j old.0 old.1 lo (omega (arith, old.2)) in
      elim (Bool-cases (j == page)) [
        | inl here ↦ (p', ground (arith, get_elem?-set c.pages page j p' lt), ground arith, still)
        | inr other ↦ (r, ground (arith, get_elem?-set c.pages page j p' lt), none_behind, busy)
      ]

  replaced-clean :
      (k : ℕ) (q : CoremapPage)
      → get_elem? (set c.pages page p') k ≡ some q
      → is_free q.state ≡ true
      → q ≡ entry 0 free
  replaced-clean k q at f = ground (arith, get_elem?-set c.pages page k p' lt, h.clean k q)

  pub replaced-IsCoremap : IsCoremap (record c { pages = set c.pages page p' })
  replaced-IsCoremap = record {
    small = omega (arith, length-set c.pages page p', h.small);
    last_le = omega (arith, length-set c.pages page p', h.last_le);
    counted = ground (arith, count_used-set c.pages page p' p e, h.counted);
    clean = replaced-clean;
    blocks = replaced-blocks;
  }

module _ (c : Coremap) (h : IsCoremap c) (page : ℕ) (p : CoremapPage)
    (e : get_elem? c.pages page ≡ some p) where
  at_page : page * page_size / page_size ≡ page
  at_page = omega arith

  -- The owner that is set for a page in use is read back, and the coremap stays well formed; a free
  -- page is left alone and reads as having no owner.
  pub getpagevaddr-setpagevaddr :
      (addrspace vaddr : ℕ)
      → let addr = page * page_size in
        (c' : Coremap) × (coremap_setpagevaddr addr addrspace vaddr c ≡ ok c')
        × (coremap_getpagevaddr addr c'
            ≡ ok (if is_free p.state then none else some (addrspace, vaddr)))
        × IsCoremap c'
  unfolding coremap_setpagevaddr coremap_getpagevaddr
  getpagevaddr-setpagevaddr addrspace vaddr = elim (Bool-cases (is_free p.state)) [
    | inl idle ↦ (c, rw (at_page, e) (ground arith), rw (at_page, e) (ground arith), h)
    | inr used ↦
        let p' = record p { addrspace = addrspace; addr = vaddr } in
        let new : get_elem? (set c.pages page p') page ≡ some p' =
          get_elem?-set c.pages page page p' (lt_of_get_elem? c.pages page e) ∙ ground arith in
        (
          record c { pages = set c.pages page p' },
          rw (at_page, e) (ground arith),
          rw (at_page, new) (ground arith),
          replaced-IsCoremap c h page p p' e used used refl,
        )
  ]

  -- A page in use is fixed exactly as it was last set, and the coremap stays well formed; a free
  -- page is left alone and is not fixed.
  pub ispagefixed-setpagefixed :
      (fix : Bool)
      → let addr = page * page_size in
        (c' : Coremap) × (coremap_setpagefixed addr fix c ≡ ok c')
        × (coremap_ispagefixed addr c' ≡ ok (if is_free p.state then false else fix))
        × IsCoremap c'
  unfolding coremap_setpagefixed coremap_ispagefixed
  ispagefixed-setpagefixed fix = elim (Bool-cases (is_free p.state)) [
    | inl idle ↦ (c, rw (at_page, e) (ground arith), rw (at_page, e) (ground arith), h)
    | inr used ↦
        let p' = record p { state = if fix then fixed else allocated } in
        let still : is_free p'.state ≡ false = ground arith in
        let new : get_elem? (set c.pages page p') page ≡ some p' =
          get_elem?-set c.pages page page p' (lt_of_get_elem? c.pages page e) ∙ ground arith in
        (
          record c { pages = set c.pages page p' },
          rw (at_page, e) (ground arith),
          rw (at_page, new) (ground arith),
          replaced-IsCoremap c h page p p' e used still refl,
        )
  ]
