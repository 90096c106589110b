-- ===== src/Kheap/Alloc.antt =====
-- subpage_kmalloc and kmalloc.
use os.Base.{
  ℕ, ◌+◌, ◌/◌, ◌≤◌, ◌<◌, ◌≡◌, inl, inr, refl, sym, ap, subst, ◌∙◌, true, false, arith, ◌==◌, Option,
  some, List, [], ◌∷◌, length, if◌then◌else◌, get_elem?, lt_of_get_elem?,
}
use os.Base.Outcome.{Outcome, ok, panic, ◌>>=◌}
use os.Coremap.{Coremap, page_size, entry, allocated}
use os.Coremap.Fresh.{NoneFree}
use os.Coremap.Block.{used_at}
use os.Coremap.Invariant.{IsCoremap}
use os.Pagetable.{alloc_kpages}
use os.Pagetable.Words.{kaddr}
use os.Kheap.{Kheap, sizes, nsizes, npagerefs, allocpageref, largest_subpage_size}
use os.Kheap.Subpage.{find_loop, doalloc, init_page, fresh_block, blocktype, subpage_kmalloc}
use os.Kheap.Blocks.{has, got, size_bounds}
use os.Kheap.Page.{IsPage, doalloc-taken, taken}
use os.Kheap.Chain.{change_self}
use os.Kheap.Refs.{RefFound, found, all_used, allocpageref-RefFound}
use os.Kheap.Walk.{blocktype-fits, Found, no_page, find_loop-Found}
use os.Kheap.Walk
use os.Kheap.Invariant.{View, only, has-only, length-only, IsKheap, NewBlock, type_of, all-few}
use os.Kheap.Take.{took, taken-IsKheap, taken-NewBlock}
use os.Kheap.Grown.{grown, grown-Live, Live-grown, LiveByte-grown}
use os.Kheap.Grow.{with_page, grown-IsKheap, grown-bytes}
use os.Kheap.Kpage.{GotPage, got_page, exhausted_pages, alloc_kpages-GotPage}

-- What an allocation of sz bytes may come to: a block that was not in use, NULL with nothing changed
-- when every pageref is in use, or a panic when every page of memory is in use.
pub data Kmalloced (sz : ℕ) (v : View) (s : Kheap) : Outcome (ℕ × Kheap) → Type 0 where
  new_block :
      {a : ℕ} {v' : View} {s' : Kheap}
      → IsKheap v' s'
      → NewBlock sz a v v' s s'
      → Kmalloced sz v s (ok (a, s'))
  no_pageref : ((p : ℕ) → p < npagerefs → has p v.all ≡ true) → Kmalloced sz v s (ok (0, s))
  no_memory : NoneFree s.machine.coremap → Kmalloced sz v s panic

-- A run of doalloc that returns a new block.
abbrev Takes : ℕ → View → Kheap → ℕ → Type 0
Takes sz v s p =
    (a : ℕ) × (v' : View) × (s' : Kheap) × (doalloc p s ≡ ok (a, s'))
    × IsKheap v' s'
    × NewBlock sz a v v' s s'

module _ (v : View) (s : Kheap) (h : IsKheap v s) (sz b size : ℕ)
    (e : get_elem? sizes b ≡ some size) (large : sz ≤ size) (p : ℕ) (m : has p v.all ≡ true)
    (kind : v.kind p ≡ b) where
  -- From a page with a free block.
  from_page : 0 < s.nfree p → (f : List ℕ) → v.free p ≡ f → Takes sz v s p
  from_page pos [] fe = absurd (omega (arith, (h.pages p m).counted, pos, ap length fe))
  from_page pos (o ∷ rest) fe =
      let pg = subst (IsPage s p (v.page p) (v.kind p) (v.size p)) fe (h.pages p m) in
      let same : v.size p ≡ size = got (sym pg.size_eq ∙ ap (get_elem? sizes) kind ∙ e) in
      (
        kaddr (v.page p) + o,
        took p rest v,
        taken p rest s,
        doalloc-taken s p (v.page p) (v.kind p) (v.size p) o rest pg,
        taken-IsKheap v s h p o rest m fe,
        taken-NewBlock v s h p o rest m fe sz (omega (arith, same, large)),
      )

module _ (v : View) (s : Kheap) (h : IsKheap v s) (sz b size : ℕ)
    (e : get_elem? sizes b ≡ some size) (blt : b < nsizes) (large : sz ≤ size) where
  module _ (p k : ℕ) (c : Coremap) (lt : p < npagerefs) (unused : s.pagerefs_inuse p ≡ false)
      (klt : k < length s.machine.coremap.pages) (kpos : 0 < k)
      (ku : used_at s.machine.coremap.pages k ≡ false)
      (entries : (j : ℕ)
        → get_elem? c.pages j
          ≡ (if j == k then some (entry 1 allocated) else get_elem? s.machine.coremap.pages j))
      (len : length c.pages ≡ length s.machine.coremap.pages) (valid : IsCoremap c) where
    -- From a page that was just made.
    from_new : Kmalloced sz v s (doalloc p (with_page p k b size c s))
    unfolding init_page
    from_new =
        let v2 = grown p k b size v in
        let s2 = with_page p k b size c s in
        let h2 = grown-IsKheap v s h p k b size c lt unused e blt klt kpos ku entries len valid in
        let (ge, le, quad, whole) = size_bounds b size e in
        let many : 2 ≤ page_size / size = grind arith in
        let count : s2.nfree p ≡ page_size / size = change_self s.nfree p (page_size / size) in
        let here : has p (p ∷ v.all) ≡ true = ground arith in
        let (a, v', s', q, h', n) =
          from_page v2 s2 h2 sz b size e large p here (change_self v.kind p b)
            (omega (arith, count)) _ refl in
        let out : has p v.all ≡ false = sym (h.refs p lt) ∙ unused in
        let back = grown-Live v p k b size e out in
        let forth = Live-grown v p k b size e out in
        let bytes = grown-bytes v s h p k b size c lt unused e blt klt kpos ku entries len valid in
        let up = LiveByte-grown v p k b size e out in
        rw (q) (
          new_block h' (record {
            block = n.block;
            large = n.large;
            unused = λ l. n.unused (forth a l);
            others = λ x. (
              λ l. elim ((n.others x).0 l) [ inl t ↦ inl t | inr t ↦ inr (back x t) ],
              λ l. (n.others x).1 (elim l [ inl t ↦ inl t | inr t ↦ inr (forth x t) ]),
            );
            bytes = λ y l. n.bytes y (up y l) ∙ bytes y l;
          }))

  fresh_of :
      (r : Outcome (Option ℕ × Kheap))
      → allocpageref s ≡ r
      → RefFound s r
      → (g : Outcome (ℕ × Coremap)) → alloc_kpages 1 s.machine.coremap ≡ g
      → GotPage s.machine.coremap g
      → Kmalloced sz v s (fresh_block b size s)
  unfolding fresh_block
  fresh_of r q (found {p} lt unused) g w
        (got_page {page = page} {c' = c} klt kpos ku entries len valid) =
      let some_page : (kaddr page == 0) ≡ false = ground arith in
      rw (q, ◌>>=◌, w, some_page) (from_new p page c lt unused klt kpos ku entries len valid)
  fresh_of r q (found {p} lt unused) g w (exhausted_pages full) = rw (q, ◌>>=◌, w) (no_memory full)
  fresh_of r q (all_used all) g w o = rw (q) (no_pageref (λ p lt. sym (h.refs p lt) ∙ all p lt))

  searched :
      (r : Outcome (Option ℕ))
      → find_loop npagerefs b (s.sizebases b) s ≡ r
      → Found s (only v.kind b v.all) r
      → blocktype sz ≡ ok b
      → Kmalloced sz v s (subpage_kmalloc sz s)
  unfolding subpage_kmalloc
  searched r q (Walk.found {p} m pos) t =
      let (mall, kind) = has-only v.kind b p v.all m in
      let (a, v', s', d, h', n) = from_page v s h sz b size e large p mall kind pos _ refl in
      rw (t, ◌>>=◌, e, ◌>>=◌, q, d) (new_block h' n)
  searched r q (no_page all) t =
      rw (t, ◌>>=◌, e, ◌>>=◌, q)
        (fresh_of _ refl (allocpageref-RefFound s) _ refl
          (alloc_kpages-GotPage s.machine.coremap h.coremap h.fits h.kernel_page))

pub subpage_kmalloc-Kmalloced :
    (v : View) (s : Kheap) (sz : ℕ)
    → IsKheap v s
    → sz ≤ largest_subpage_size
    → Kmalloced sz v s (subpage_kmalloc sz s)
subpage_kmalloc-Kmalloced v s sz h le =
    let (b, size, t, e, large, least) = blocktype-fits sz le in
    let blt : b < nsizes = lt_of_get_elem? sizes b e in
    searched v s h sz b size e blt large _ refl
      (find_loop-Found s npagerefs b (s.sizebases b) (only v.kind b v.all)
        (omega (arith, length-only v.kind b v.all, all-few v s h))
        (λ p m. let (mall, kind) = has-only v.kind b p v.all m in type_of v s h p mall ∙ kind)
        (h.same_chain b blt))
      t
