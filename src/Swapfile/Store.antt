-- ===== src/Swapfile/Store.antt =====
-- Taking a page of the swap file, and reading back what was stored.
use os.Base.{
  ℕ, ◌+◌, ◌-◌, ◌%◌, ◌^◌, ◌<◌, ◌≡◌, refl, ◌≢◌, ◌∙◌, sym, subst, true, Option, some, arith, ltb, inl,
  inr, length, get_elem?, set, get_elem?-set_self, set-set, set-get_elem?, lt_of_get_elem?,
  length-set, Option-cases,
}
use os.Base.Circular.{gap-lt}
use os.Base.Outcome.{Outcome, ok, panic, out_of_fuel}
use os.Swapfile.{
  swapfile_max_pages, free_loop, SwapDevice, Swap, swapfile_getfreepage, use_entry,
  swapfile_prepareswap, swapfile_performkswap, swapfile_storepage, swapfile_getpage,
}
use os.Swapfile.Search.{
  Searched, found, exhausted, free_loop-Searched, free_loop_zero, free_loop_endless,
  free_loop_sound,
}

module _ (d : SwapDevice) where
  pub record IsSwap (s : Swap d) : Type 0 where
    pub whole : length s.entries ≡ swapfile_max_pages
    pub last_lt : s.last_page_stored < swapfile_max_pages

  -- The page `k` taken for a store.
  abbrev pub taken : Swap d → ℕ → Swap d
  taken s k = record s {
    entries = set s.entries k 1;
    pages_in_use = (s.pages_in_use + 1) % 2 ^ 32;
    last_page_stored = k;
  }

  -- What swapfile_prepareswap may come to.
  pub data Prepared (s : Swap d) : Outcome (ℕ × Swap d) → Type 0 where
    prepared :
        {k : ℕ}
        → k < swapfile_max_pages
        → k + 1 ≢ s.last_page_stored
        → get_elem? s.entries k ≡ some 0
        → Prepared s (ok (k, taken s k))
    no_space :
        ((k e : ℕ)
          → get_elem? s.entries k ≡ some e
          → k < swapfile_max_pages
          → k + 1 ≢ s.last_page_stored
          → e ≢ 0)
        → Prepared s panic

  module _ {s : Swap d} (h : IsSwap s) where
    search-Prepared :
        (fuel : ℕ) (r : Outcome (Option ℕ))
        → free_loop fuel s.entries s.last_page_stored s.last_page_stored ≡ r
        → Searched s.entries s.last_page_stored r
        → Prepared s (swapfile_prepareswap d fuel s)
    unfolding swapfile_prepareswap swapfile_getfreepage use_entry
    search-Prepared fuel r e (found lt away free) = rw e (prepared lt away free)
    search-Prepared fuel r e (exhausted used) = rw e (no_space used)

    -- On a well-formed swap file with last_page_stored above 0, swapfile_prepareswap takes a free
    -- entry other than the one before last_page_stored, marks it and counts it in an unsigned int
    -- of 32 bits, or panics with every entry in use but possibly that one; its search ends within
    -- as many rounds as there are pages.
    pub swapfile_prepareswap-Prepared :
        0 < s.last_page_stored → Prepared s (swapfile_prepareswap d swapfile_max_pages s)
    swapfile_prepareswap-Prepared pos = search-Prepared swapfile_max_pages _ refl (
        free_loop-Searched s.entries h.whole swapfile_max_pages s.last_page_stored
          s.last_page_stored pos h.last_lt h.last_lt
          (gap-lt swapfile_max_pages (s.last_page_stored - 1) s.last_page_stored h.last_lt
            (omega (arith, h.last_lt)))
          (λ k e at hk past. absurd (ground (arith, h.last_lt))))

    -- With last_page_stored 0, swapfile_prepareswap takes a free page if there is one.
    pub swapfile_prepareswap_zero :
        (j : ℕ)
        → s.last_page_stored ≡ 0
        → get_elem? s.entries j ≡ some 0
        → (k : ℕ) × (swapfile_prepareswap d swapfile_max_pages s ≡ ok (k, taken s k))
          × (get_elem? s.entries k ≡ some 0)
    unfolding swapfile_prepareswap swapfile_getfreepage use_entry
    swapfile_prepareswap_zero j start free =
        let inside : j < swapfile_max_pages =
          omega (arith, lt_of_get_elem? s.entries j free, h.whole) in
        let (k, e, empty) =
          free_loop_zero s.entries h.whole swapfile_max_pages 0 j (omega arith) inside (omega arith)
            free in
        (k, rw (start, e) refl, empty)

    -- With last_page_stored 0 and every page in use, the search for a page never ends.
    pub swapfile_prepareswap_endless :
        s.last_page_stored ≡ 0
        → ((k e : ℕ) → get_elem? s.entries k ≡ some e → e ≢ 0)
        → (fuel : ℕ) → swapfile_prepareswap d fuel s ≡ out_of_fuel
    unfolding swapfile_prepareswap swapfile_getfreepage
    swapfile_prepareswap_endless start used fuel =
        rw (start, free_loop_endless s.entries h.whole used fuel 0 (omega arith)) refl

    panic_of_used :
        {r : Outcome (ℕ × Swap d)}
        → ((k e : ℕ) → get_elem? s.entries k ≡ some e → k + 1 ≢ s.last_page_stored → e ≢ 0)
        → Prepared s r
        → r ≡ panic
    panic_of_used used (prepared {k} lt away free) = absurd (used k 0 free away refl)
    panic_of_used used (no_space full) = refl

    -- The page before last_page_stored is never looked at: with the others in use
    -- swapfile_prepareswap panics, whether or not that page is free.
    pub swapfile_prepareswap_hidden :
        0 < s.last_page_stored
        → ((k e : ℕ) → get_elem? s.entries k ≡ some e → k + 1 ≢ s.last_page_stored → e ≢ 0)
        → swapfile_prepareswap d swapfile_max_pages s ≡ panic
    swapfile_prepareswap_hidden pos used = panic_of_used used (swapfile_prepareswap-Prepared pos)

  module _ (s : Swap d) (h : IsSwap s) (k : ℕ) (free : get_elem? s.entries k ≡ some 0) where
    abbrev pub stored : (f : d.File) → Swap d
    stored f = record (taken s k) { swapfile = f }

    -- What a store leaves: the page in the file, and the other pages as they were.
    pub record Stored (page : d.Page) (s' : Swap d) : Type 0 where
      pub kept : IsSwap s'
      pub read_back :
          (s'' : Swap d) × (swapfile_getpage d k s' ≡ ok (page, s''))
          × (s''.entries ≡ s.entries)
          × (s''.pages_in_use ≡ (s.pages_in_use + 1) % 2 ^ 32)
      pub others : (j : ℕ) → k ≢ j → d.read s'.swapfile j ≡ d.read s.swapfile j

    getpage_stored :
        (f : d.File) (page : d.Page)
        → d.read f k ≡ some page
        → swapfile_getpage d k (stored f)
          ≡ ok (page, record (stored f) { entries = set (set s.entries k 1) k 0 })
    unfolding swapfile_getpage
    getpage_stored f page e =
        let inside : k < length s.entries = lt_of_get_elem? s.entries k free in
        let in_range : ltb k swapfile_max_pages ≡ true = ground (arith, inside, h.whole) in
        rw (in_range, get_elem?-set_self s.entries k 1 inside, e) refl

    stored-Stored :
        (f : d.File) (page : d.Page) → d.write s.swapfile k page ≡ some f → Stored page (stored f)
    stored-Stored f page e =
        let inside : k < length s.entries = lt_of_get_elem? s.entries k free in
        record {
          kept = record {
            whole = length-set s.entries k 1 ∙ h.whole;
            last_lt = omega (arith, inside, h.whole);
          };
          read_back = (
            _,
            getpage_stored f page (d.read-write s.swapfile k page f e),
            set-set s.entries k 1 0 ∙ set-get_elem? s.entries k 0 free,
            refl,
          );
          others = λ j ne. d.read-write_ne s.swapfile k j page f e ne;
        }

module _ (d : SwapDevice) {s : Swap d} (h : IsSwap d s) (fuel : ℕ) (page : d.Page) where
  -- The page number, the proof that it was free, and what the store left.
  abbrev pub StoredAt : ℕ → Swap d → Type 0
  StoredAt k s' = (free : get_elem? s.entries k ≡ some 0) × Stored d s h k free page s'

  of_search :
      (r : Outcome (Option ℕ)) (k : ℕ) (s' : Swap d)
      → free_loop fuel s.entries s.last_page_stored s.last_page_stored ≡ r
      → swapfile_storepage d fuel page s ≡ ok (k, s')
      → r ≡ ok (some k)
  unfolding swapfile_storepage swapfile_prepareswap swapfile_getfreepage swapfile_performkswap
  of_search r k s' e done = ground arith

  written :
      (k : ℕ) (s' : Swap d)
      → free_loop fuel s.entries s.last_page_stored s.last_page_stored ≡ ok (some k)
      → swapfile_storepage d fuel page s ≡ ok (k, s')
      → (f : d.File) × (d.write s.swapfile k page ≡ some f)
        × (s' ≡ record (taken d s k) { swapfile = f })
  unfolding swapfile_storepage swapfile_prepareswap swapfile_getfreepage swapfile_performkswap
      use_entry
  written k s' at done = elim (Option-cases (d.write s.swapfile k page)) [
    | inl failed ↦ absurd (ground arith)
    | inr (f, e) ↦ (f, e, ground arith)
  ]

  -- A page that swapfile_storepage stores in a well-formed swap file goes to an entry that was
  -- free; the other pages of the file stay; swapfile_getpage gives it back and makes the entries
  -- what they were, but leaves swapfile_pages_in_use one higher, as an unsigned int of 32 bits.
  pub swapfile_storepage-Stored :
      (k : ℕ) (s' : Swap d) → swapfile_storepage d fuel page s ≡ ok (k, s') → StoredAt k s'
  swapfile_storepage-Stored k s' done =
      let at = of_search _ k s' refl done in
      let free = free_loop_sound s.entries fuel s.last_page_stored s.last_page_stored at in
      let (f, e, same) = written k s' at done in
      (free, subst (Stored d s h k free page) (sym same) (stored-Stored d s h k free f page e))
