-- ===== src/Kheap/Tests.antt =====
-- Each theorem at an input: the heap of a machine of eight pages, without a pageref in use.
use os.Base.{
  ℕ, zero, suc, ◌≡◌, ◌<◌, refl, true, false, none, some, [], ◌∷◌, arith, get_elem?, ◌==◌,
  if◌then◌else◌, inl, inr, Bool-cases, ap, ◌∙◌, sym, ◌+◌,
}
use os.Base.Outcome.{Outcome, ok}
use os.Pagetable.Sample.{machine}
use os.Coremap.{Coremap, CoremapPage, entry, fixed, allocated, free, is_free}
use os.Coremap.Fill.{count_used}
use os.Coremap.Invariant.{IsCoremap}
use os.Kheap.{Kheap}
use os.Kheap.Subpage.{size_loop, find_loop, doalloc, kmalloc, kfree, subpage_kmalloc, blocktype}
use os.Kheap.Blocks.{has, got, link, ends}
use os.Kheap.Chain.{stop, node}
use os.Kheap.Invariant.{View, IsKheap, Live}
use os.Kheap.Free.{FreedBlock, kfree-FreedBlock, SameBlocks, kmalloc-kfree}

abbrev start : Kheap
start = record {
  machine = machine;
  pagerefs_inuse = λ p. false;
  sizebases = λ b. none;
  allbase = none;
  next_samesize = λ p. none;
  next_all = λ p. none;
  pageaddr_and_blocktype = λ p. 0;
  freelist_offset = λ p. 0;
  nfree = λ p. 0;
}

abbrev nothing : View
nothing = record { all = []; page = λ p. 0; kind = λ p. 0; size = λ p. 16; free = λ p. [] }

abbrev state_of : Outcome (ℕ × Kheap) → Kheap
state_of (ok (a, s)) = s
state_of _ = start

-- A memory of three pages; the last one is page of pageref 0, with blocks of 2048 bytes, and the block
-- behind the first one is in use.
abbrev three_pages : Coremap
three_pages = record {
  pages = entry 0 fixed ∷ entry 0 fixed ∷ entry 1 allocated ∷ [];
  pages_in_use = 3;
  last_page_used = 0;
}

three_pages-IsCoremap : IsCoremap three_pages
unfolding count_used
three_pages-IsCoremap = record {
  small = omega arith;
  last_le = omega arith;
  counted = refl;
  clean = not_free;
  blocks = alone;
}
  where
    not_free :
        (k : ℕ) (p : CoremapPage)
        → get_elem? three_pages.pages k ≡ some p
        → is_free p.state ≡ true
        → p ≡ entry 0 free
    not_free zero p e f = ground (arith, ap (λ x. is_free x.state) (got e), f)
    not_free (suc zero) p e f = ground (arith, ap (λ x. is_free x.state) (got e), f)
    not_free (suc (suc zero)) p e f = ground (arith, ap (λ x. is_free x.state) (got e), f)
    not_free (suc (suc (suc k))) p e f = ground (arith, e)

    alone :
        (k j : ℕ) (p : CoremapPage)
        → get_elem? three_pages.pages k ≡ some p
        → k < j
        → j < k + p.page_count
        → (q : CoremapPage) × (get_elem? three_pages.pages j ≡ some q)
          × (q.page_count ≡ 0)
          × (is_free q.state ≡ false)
    alone zero j p e lo hi =
        absurd (omega (arith, lo, hi, ap (λ (x : CoremapPage). x.page_count) (got e)))
    alone (suc zero) j p e lo hi =
        absurd (omega (arith, lo, hi, ap (λ (x : CoremapPage). x.page_count) (got e)))
    alone (suc (suc zero)) j p e lo hi =
        absurd (omega (arith, lo, hi, ap (λ (x : CoremapPage). x.page_count) (got e)))
    alone (suc (suc (suc k))) j p e lo hi = ground (arith, e)

abbrev in_use : Kheap
in_use = record start {
  machine = record { coremap = three_pages; words = λ a. 0 };
  pagerefs_inuse = λ p. p == 0;
  sizebases = λ b. if 7 == b then some 0 else none;
  allbase = some 0;
  pageaddr_and_blocktype = λ p. 0x8000_2007;
  nfree = λ p. 1;
}

abbrev one_block : View
one_block = record {
  all = 0 ∷ [];
  page = λ p. 2;
  kind = λ p. 7;
  size = λ p. 2048;
  free = λ p. 0 ∷ [];
}

first_only : (p : ℕ) → has p (0 ∷ []) ≡ true → p ≡ 0
first_only p m = ground (arith, m)

in_use-IsKheap : IsKheap one_block in_use
in_use-IsKheap = record {
  coremap = three_pages-IsCoremap;
  fits = omega arith;
  kernel_page = refl;
  all_chain = node refl refl (stop refl);
  same_chain = λ b lt. elim (Bool-cases (7 == b)) [
    | inl t ↦ rw t (node refl refl (stop refl))
    | inr t ↦ rw t (stop refl)
  ];
  refs_lt = λ p m. omega (arith, first_only p m);
  refs = λ p lt. ground arith;
  pages = λ p m. record {
    small = omega arith;
    type_lt = omega arith;
    packed = refl;
    size_eq = refl;
    counted = refl;
    blocks = link refl (omega arith) refl refl (ends refl);
  };
  own = λ p m. (entry 1 allocated, refl, refl, refl);
  above = λ p m. omega arith;
  distinct = λ p q m n e. first_only p m ∙ sym (first_only q n);
}

used_block : Live one_block 0x8000_2800
used_block = record {
  pageref = 0;
  offset = 2048;
  member = refl;
  inside = omega arith;
  aligned = refl;
  in_use = refl;
  address = refl;
}

kfree-FreedBlock_example :
    (v : View) × (s : Kheap) × (kfree 0x8000_2800 in_use ≡ ok s)
    × FreedBlock 0x8000_2800 one_block in_use v s
kfree-FreedBlock_example = kfree-FreedBlock one_block in_use in_use-IsKheap 0x8000_2800 used_block

second_block : kmalloc 2000 in_use ≡ ok (0x8000_2000, state_of (kmalloc 2000 in_use))
unfolding kmalloc subpage_kmalloc blocktype size_loop find_loop doalloc
second_block = refl

kmalloc-kfree_example :
    (s : Kheap) × (kfree 0x8000_2000 (state_of (kmalloc 2000 in_use)) ≡ ok s)
    × SameBlocks one_block s
kmalloc-kfree_example =
    kmalloc-kfree one_block in_use 2000 0x8000_2000 (state_of (kmalloc 2000 in_use)) in_use-IsKheap
      (omega arith) second_block (omega arith)
