-- ===== src/Kheap/Drop.antt =====
-- A page whose blocks are all free goes back to the coremap.
use os.Base.{
  ℕ, ◌*◌, ◌/◌, ◌≤◌, ◌<◌, ◌≡◌, ◌≢◌, ◌↔◌, inl, inr, refl, sym, ap, subst, ◌∙◌, true, false, arith,
  ◌==◌, length, Bool-cases, ==_iff, get_elem?, leb, lt→ltb,
}
use os.Base.Outcome.{Outcome, ok, ◌>>=◌}
use os.Coremap.{Coremap, page_size}
use os.Coremap.Invariant.{IsCoremap}
use os.Coremap.Free.{coremap_freepages-Freed}
use os.Pagetable.{free_kpages, kvaddr_to_paddr}
use os.Pagetable.Words.{kaddr}
use os.Kheap.{
  Kheap, change, nsizes, same_links, all_links, with_same, with_all, unlink, remove_lists,
}
use os.Kheap.Subpage.{release_page}
use os.Kheap.Blocks.{has}
use os.Kheap.Page.{IsPage, IsPage-kept, pageaddr}
use os.Kheap.Chain.{Chain, Chain-frame, remove, has-remove, Removed, unlink-Removed}
use os.Kheap.Refs.{Distinct, Chain-Distinct, has_of_remove, free-lt, freepageref-ok}
use os.Kheap.Invariant.{View, only, has-only, length-only, IsKheap, Live, LiveByte, all-few}
use os.Kheap.Only.{remove-has, removed-out, only-remove_same, only-remove_other}

abbrev pub dropped : ℕ → View → View
dropped p v = record v { all = remove p v.all }

module _ (v : View) (s : Kheap) (h : IsKheap v s) (p : ℕ) (m : has p v.all ≡ true) where
  pub same_unlinked :
      Removed p
        (only v.kind (v.kind p) v.all)
        (same_links (v.kind p) s)
        (unlink p (same_links (v.kind p) s))
  same_unlinked =
      unlink-Removed p (same_links (v.kind p) s) (only v.kind (v.kind p) v.all)
        (omega (arith, length-only v.kind (v.kind p) v.all, all-few v s h))
        (h.same_chain (v.kind p) (h.pages p m).type_lt)

  pub all_unlinked : Removed p v.all (all_links s) (unlink p (all_links s))
  all_unlinked = unlink-Removed p (all_links s) v.all (all-few v s h) h.all_chain

  abbrev pub unlinked : Kheap
  unlinked = with_all all_unlinked.l' (with_same (v.kind p) same_unlinked.l' s)

  removes : remove_lists p (v.kind p) s ≡ ok unlinked
  unfolding remove_lists
  removes =
      rw
        (
          lt→ltb (v.kind p) nsizes (h.pages p m).type_lt,
          same_unlinked.result,
          ◌>>=◌,
          all_unlinked.result,
        )
        refl

  module _ (c : Coremap) (len : length c.pages ≡ length s.machine.coremap.pages)
      (entries : (j : ℕ) → j ≢ v.page p → get_elem? c.pages j ≡ get_elem? s.machine.coremap.pages j)
      (valid : IsCoremap c) where
    abbrev pub without : Kheap
    without = record unlinked {
      machine = record { coremap = c; words = s.machine.words };
      pagerefs_inuse = change s.pagerefs_inuse p false;
    }

    no_twice : Distinct v.all
    no_twice = Chain-Distinct s.next_all s.allbase v.all h.all_chain

    still : (q : ℕ) → has q (remove p v.all) ≡ true → (has q v.all ≡ true) × (q ≢ p)
    still q mq = has_of_remove p q v.all no_twice mq

    same_without :
        (d : ℕ)
        → d < nsizes
        → Chain without.next_samesize (without.sizebases d) (only v.kind d (remove p v.all))
    same_without d dlt = elim (Bool-cases (v.kind p == d)) [
      | inl t ↦
          let same = (==_iff (v.kind p) d).0 t in
          rw (t, only-remove_same v.kind d p v.all same)
            (subst
              (λ x.
                Chain same_unlinked.l'.next same_unlinked.l'.head (remove p (only v.kind x v.all)))
              same same_unlinked.chain)
      | inr t ↦
          let other : v.kind p ≢ d = ground (arith, t) in
          rw (t, only-remove_other v.kind d p v.all other)
            (Chain-frame s.next_samesize _ (s.sizebases d) (only v.kind d v.all)
              (λ q mq. same_unlinked.kept q (elsewhere d q other mq)) (h.same_chain d dlt))
    ]
      where
        elsewhere :
            (d q : ℕ)
            → v.kind p ≢ d
            → has q (only v.kind d v.all) ≡ true
            → has q (only v.kind (v.kind p) v.all) ≡ false
        elsewhere d q other mq = elim (Bool-cases (has q (only v.kind (v.kind p) v.all))) [
          | inl both ↦
              let (here, k) = has-only v.kind (v.kind p) q v.all both in
              let (there, k') = has-only v.kind d q v.all mq in absurd (other (sym k ∙ k'))
          | inr out ↦ out
        ]

    page_without :
        (q : ℕ)
        → has q (remove p v.all) ≡ true
        → IsPage without q (v.page q) (v.kind q) (v.size q) (v.free q)
    page_without q mq =
        IsPage-kept s without q (v.page q) (v.kind q) (v.size q) (v.free q) refl refl refl
          (λ o x. refl) (h.pages q (still q mq).0)

    pub dropped-IsKheap : IsKheap (dropped p v) without
    dropped-IsKheap = record {
      coremap = valid;
      fits = omega (arith, len, h.fits);
      kernel_page = ground (arith, entries 0 (λ e. omega (arith, e, h.above p m)), h.kernel_page);
      all_chain = all_unlinked.chain;
      same_chain = same_without;
      refs_lt = λ q mq. h.refs_lt q (still q mq).0;
      refs = λ q qlt. elim (Bool-cases (p == q)) [
        | inl t ↦
            let same = (==_iff p q).0 t in
            rw t (sym (ap (λ x. has x (remove p v.all)) (sym same) ∙ removed-out p v.all no_twice))
        | inr t ↦ rw t (h.refs q qlt ∙ stays q (ground (arith, t)))
      ];
      pages = page_without;
      own = λ q mq.
          let (here, ne) = still q mq in
          let (x, ax, count, taken) = h.own q here in
          (x, entries (v.page q) (λ e. ne (h.distinct q p here m e)) ∙ ax, count, taken);
      above = λ q mq. h.above q (still q mq).0;
      distinct = λ q r mq mr. h.distinct q r (still q mq).0 (still r mr).0;
    }
      where
        stays : (q : ℕ) → p ≢ q → has q v.all ≡ has q (remove p v.all)
        stays q ne = elim (Bool-cases (has q v.all)) [
          | inl here ↦ here ∙ sym (remove-has p q v.all ne here)
          | inr out ↦ out ∙ sym (has-remove p q v.all out)
        ]

    -- A page without blocks in use has none to lose.
    module _ (empty : (x : ℕ) (l : Live v x) → l.pageref ≢ p) where
      pub Live-dropped : (x : ℕ) → Live v x → Live (dropped p v) x
      Live-dropped x l = record {
        pageref = l.pageref;
        offset = l.offset;
        inside = l.inside;
        aligned = l.aligned;
        in_use = l.in_use;
        address = l.address;
        member = remove-has p l.pageref v.all (λ e. empty x l (sym e)) l.member;
      }

      pub dropped-Live :
          (x : ℕ) (k : Live (dropped p v) x) → (l : Live v x) × (l.pageref ≡ k.pageref)
      dropped-Live x k = (
        record {
          pageref = k.pageref;
          offset = k.offset;
          inside = k.inside;
          aligned = k.aligned;
          in_use = k.in_use;
          address = k.address;
          member = (still k.pageref k.member).0;
        },
        refl,
      )

      pub LiveByte-dropped : (y : ℕ) → LiveByte (dropped p v) y → LiveByte v y
      LiveByte-dropped y (x, k, lo, hi) =
          let (l, e) = dropped-Live x k in (x, l, lo, omega (arith, hi, ap v.size e))

  pub whole-empty :
      length (v.free p) ≡ page_size / v.size p → (x : ℕ) (l : Live v x) → l.pageref ≢ p
  whole-empty whole x l e =
      let pg = h.pages l.pageref l.member in
      let few =
        free-lt (v.kind l.pageref) (v.size l.pageref) l.offset s.machine.words _ _
          (v.free l.pageref) pg.size_eq pg.blocks l.inside l.aligned l.in_use in
      omega (arith, few, whole, ap (λ q. length (v.free q)) e, ap (λ q. page_size / v.size q) e)

  -- What release_page comes to: the page stays, or it is dropped, with the same blocks in use.
  pub record Settled (o : Outcome Kheap) : Type 0 where
    pub v' : View
    pub s' : Kheap
    pub result : o ≡ ok s'
    pub valid : IsKheap v' s'
    pub same : (x : ℕ) → Live v' x ↔ Live v x
    pub bytes : (y : ℕ) → LiveByte v' y → LiveByte v y
    pub same_words : (y : ℕ) → s'.machine.words y ≡ s.machine.words y

  pub release_page-Settled :
      s.nfree p ≤ page_size / v.size p → Settled (release_page p (v.kind p) (v.size p) s)
  unfolding release_page free_kpages
  release_page-Settled le =
      let fits : leb (s.nfree p) (page_size / v.size p) ≡ true = ground (arith, le) in
      elim (Bool-cases (s.nfree p == page_size / v.size p)) [
        | inr part ↦ record {
          v' = v;
          s' = s;
          result = rw (fits, part) refl;
          valid = h;
          same = λ x. (λ l. l, λ l. l);
          bytes = λ y k. k;
          same_words = λ y. refl;
        }
        | inl t ↦
            let pg = h.pages p m in
            let whole : length (v.free p) ≡ page_size / v.size p =
              sym pg.counted ∙ (==_iff _ _).0 t in
            let (q, at, count, taken) = h.own p m in
            let base = pageaddr s p (v.page p) (v.kind p) (v.size p) pg in
            let paddr : kvaddr_to_paddr (kaddr (v.page p)) ≡ v.page p * page_size =
              omega (arith, pg.small) in
            let some_count : q.page_count ≢ 0 = λ e. omega (arith, e, count) in
            let (c, freed, f) =
              (coremap_freepages-Freed s.machine.coremap (v.page p) q h.coremap at).1 some_count in
            let used : s.pagerefs_inuse p ≡ true = h.refs p (h.refs_lt p m) ∙ m in
            let entries : (j : ℕ)
                → j ≢ v.page p
                → get_elem? c.pages j ≡ get_elem? s.machine.coremap.pages j =
              λ j ne. ground (arith, f.released.entries j, ne, count) in
            let len = f.released.same_length in
            record {
              v' = dropped p v;
              s' = without c len entries f.valid;
              result =
                  rw (fits, t, removes, ◌>>=◌, base, paddr, freed, ◌>>=◌)
                    (freepageref-ok p _ (h.refs_lt p m) used);
              valid = dropped-IsKheap c len entries f.valid;
              same = λ x. (
                λ k. (dropped-Live c len entries f.valid (whole-empty whole) x k).0,
                Live-dropped c len entries f.valid (whole-empty whole) x,
              );
              bytes = LiveByte-dropped c len entries f.valid (whole-empty whole);
              same_words = λ y. refl;
            }
      ]
