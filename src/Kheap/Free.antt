-- ===== src/Kheap/Free.antt =====
-- subpage_kfree and kfree of a block in use, and of what kmalloc returned.
use os.Base.{
  ℕ, ◌-◌, ◌%◌, ◌<◌, ◌≡◌, ◌≢◌, ◌↔◌, inl, inr, refl, sym, ap, subst, ◌∙◌, true, false, arith, ◌==◌,
  Option, some, ◌∷◌, length, ==_iff, leb,
}
use os.Base.Outcome.{Outcome, ok, ◌>>=◌, value}
use os.Coremap.{page_size}
use os.Pagetable.Words.{kaddr}
use os.Kheap.{Kheap, npagerefs, pr_pageaddr, largest_subpage_size}
use os.Kheap.Subpage.{page_loop, subpage_kfree, kmalloc, kfree, release_page}
use os.Kheap.Blocks.{has}
use os.Kheap.Page.{pageaddr}
use os.Kheap.Chain.{change_self}
use os.Kheap.Walk.{Within, within, outside, page_loop-Within}
use os.Kheap.Invariant.{View, IsKheap, Live, LiveByte, all-few, type_of}
use os.Kheap.Give.{gave, given, few_free, given-IsKheap, given-Live, Live-given, given-bytes}
use os.Kheap.Drop.{Settled, release_page-Settled}
use os.Kheap.Alloc.{Kmalloced, new_block, no_pageref, no_memory, subpage_kmalloc-Kmalloced}

-- The block at `a` is no longer in use; the others are, with the bytes that they had.
pub record FreedBlock (a : ℕ) (v : View) (s : Kheap) (v' : View) (s' : Kheap) : Type 0 where
  pub valid : IsKheap v' s'
  pub others : (x : ℕ) → Live v' x ↔ (Live v x × (x ≢ a))
  pub bytes : (y : ℕ) → LiveByte v' y → s'.machine.words y ≡ s.machine.words y

module _ (v : View) (s : Kheap) (h : IsKheap v s) (a : ℕ) (l : Live v a) where
  page_addr : (p : ℕ) → has p v.all ≡ true → pr_pageaddr s p ≡ kaddr (v.page p)
  page_addr p m = pageaddr s p (v.page p) (v.kind p) (v.size p) (h.pages p m)

  -- The walk finds the page of the block.
  page_of : (r : Outcome (Option ℕ)) → Within s a v.all r → r ≡ ok (some l.pageref)
  page_of _ (within {p} m lo hi) =
      let pa = page_addr p m in
      let small = (h.pages p m).small in
      let small' = (h.pages l.pageref l.member).small in
      ap (λ q. ok (some q))
        (h.distinct p l.pageref m l.member
          (omega (arith, l.address, l.inside, lo, hi, pa, small, small')))
  page_of _ (outside all) =
      let pa = page_addr l.pageref l.member in
      let small = (h.pages l.pageref l.member).small in
      absurd (
        omega (
          arith,
          all l.pageref l.member (omega (arith, pa, l.address)),
          l.address,
          l.inside,
          pa,
          small,
        ))

  found_page : page_loop npagerefs a s.allbase s ≡ ok (some l.pageref)
  found_page = page_of _ (
      page_loop-Within s npagerefs a s.allbase v.all (all-few v s h)
        (λ p m. omega (arith, type_of v s h p m, (h.pages p m).type_lt)) h.all_chain)

  settled :
      Settled
        (gave l.pageref l.offset v)
        (given v s h a l)
        (given-IsKheap v s h a l)
        l.pageref
        l.member
        (release_page l.pageref (v.kind l.pageref) (v.size l.pageref) (given v s h a l))
  settled =
      release_page-Settled (gave l.pageref l.offset v) (given v s h a l) (given-IsKheap v s h a l)
        l.pageref l.member
        (omega (
          arith,
          few_free v s h a l,
          ((given-IsKheap v s h a l).pages l.pageref l.member).counted,
          ap length (change_self v.free l.pageref (l.offset ∷ v.free l.pageref)),
        ))

  freed_bytes : (y : ℕ) → LiveByte settled.v' y → settled.s'.machine.words y ≡ s.machine.words y
  freed_bytes y k = settled.same_words y ∙ given-bytes v s h a l y (settled.bytes y k)

  pub subpage_kfree-FreedBlock :
      (v' : View) × (s' : Kheap) × (subpage_kfree a s ≡ ok (some s')) × FreedBlock a v s v' s'
  unfolding subpage_kfree
  subpage_kfree-FreedBlock =
      let pg = h.pages l.pageref l.member in
      let pa = page_addr l.pageref l.member in
      let off : a - pr_pageaddr s l.pageref ≡ l.offset = omega (arith, pa, l.address) in
      let in_page : leb page_size l.offset ≡ false = ground (arith, l.inside) in
      let even : (l.offset % v.size l.pageref == 0) ≡ true = (==_iff _ 0).1 l.aligned in
      (
        settled.v',
        settled.s',
        rw
            (
              found_page,
              ◌>>=◌,
              type_of v s h l.pageref l.member,
              pg.size_eq,
              ◌>>=◌,
              off,
              in_page,
              even,
              settled.result,
              ◌>>=◌,
            )
            refl,
        record {
          valid = settled.valid;
          bytes = freed_bytes;
          others = λ x. (
            λ k. given-Live v s h a l x ((settled.same x).0 k),
            λ k. (settled.same x).1 (Live-given v s h a l x k.0 k.1),
          );
        },
      )

  -- On a consistent heap, kfree of the address of a block in use succeeds: the heap is consistent,
  -- the blocks in use are the others, and their bytes are unchanged, whether or not the page goes
  -- back to the coremap.
  pub kfree-FreedBlock : (v' : View) × (s' : Kheap) × (kfree a s ≡ ok s') × FreedBlock a v s v' s'
  unfolding kfree
  kfree-FreedBlock =
      let (v', s', e, f) = subpage_kfree-FreedBlock in
      let some_block : (a == 0) ≡ false = ground (arith, l.address) in
      (v', s', rw (some_block, e, ◌>>=◌) refl, f)

pub kmalloc-Kmalloced :
    (v : View) (s : Kheap) (sz : ℕ)
    → IsKheap v s
    → sz < largest_subpage_size
    → Kmalloced sz v s (kmalloc sz s)
unfolding kmalloc
kmalloc-Kmalloced v s sz h lt =
    let small : leb largest_subpage_size sz ≡ false = ground (arith, lt) in
    rw small (subpage_kmalloc-Kmalloced v s sz h (omega arith))

-- The heap with the blocks of v in use.
abbrev pub SameBlocks : View → Kheap → Type 0
SameBlocks v s = (v' : View) × IsKheap v' s × ((x : ℕ) → Live v' x ↔ Live v x)

pair_of :
    {b a : ℕ} {u t : Kheap}
    → ◌≡◌ {A = Outcome (ℕ × Kheap)} (ok (b, u)) (ok (a, t))
    → (b ≡ a) × (u ≡ t)
pair_of {b = b} {a = a} {u = u} {t = t} e =
    let pair : ◌≡◌ {A = ℕ × Kheap} (b, u) (a, t) = ap (value {A = ℕ × Kheap} (b, u)) e in
    (ap (λ (x : ℕ × Kheap). x.0) pair, ap (λ (x : ℕ × Kheap). x.1) pair)

freed_new :
    (v : View) (s : Kheap) (sz a : ℕ) (t : Kheap) (r : Outcome (ℕ × Kheap))
    → Kmalloced sz v s r
    → r ≡ ok (a, t)
    → a ≢ 0
    → (s' : Kheap) × (kfree a t ≡ ok s') × SameBlocks v s'
freed_new v s sz a t _ (new_block {a = b} {v' = v1} {s' = u} h n) e ne =
    let (eb, eu) = pair_of e in
    let (v', s', f, freed) = kfree-FreedBlock v1 u h b n.block in
    (
      s',
      ap (λ x. kfree x t) (sym eb) ∙ ap (kfree b) (sym eu) ∙ f,
      (
        v',
        freed.valid,
        λ x. (
          λ k.
              let (old, other) = (freed.others x).0 k in
              elim ((n.others x).0 old) [ inl same ↦ absurd (other same) | inr k' ↦ k' ],
          λ k.
              (freed.others x).1 ((n.others x).1 (inr k), λ same. n.unused (subst (Live v) same k)),
        ),
      ),
    )
freed_new v s sz a t _ (no_pageref all) e ne = absurd (ne (sym (pair_of e).0))
freed_new v s sz a t _ (no_memory full) e ne = ground (arith, e)

-- When the heap is consistent and kmalloc of fewer than 2048 bytes returns an address other than
-- NULL, kfree of that address succeeds, and leaves a consistent heap in which the blocks in use
-- are those before the kmalloc.
pub kmalloc-kfree :
    (v : View) (s : Kheap) (sz a : ℕ) (t : Kheap)
    → IsKheap v s
    → sz < largest_subpage_size
    → kmalloc sz s ≡ ok (a, t)
    → a ≢ 0
    → (s' : Kheap) × (kfree a t ≡ ok s') × SameBlocks v s'
kmalloc-kfree v s sz a t h lt e ne = freed_new v s sz a t _ (kmalloc-Kmalloced v s sz h lt) e ne
