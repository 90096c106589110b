-- ===== src/Coremap/Scan.antt =====
-- The scan for consecutive free pages finds a run exactly when there is one.
use os.Base.{
  ℕ, zero, suc, ◌+◌, ◌-◌, ◌≤◌, ◌<◌, ◌≡◌, refl, Bool, true, false, Option, none, some, List, arith,
  ltb, ◌==◌, Bool-cases, ◌⊎◌, subst, inl, inr, length, get_elem?, get_elem?-of_lt,
}
use os.Base.Outcome.{Outcome, ok}
use os.Coremap.{CoremapPage, is_free, scan, Coremap, coremap_getfreepages, found_at}

-- Whether the page is there and free.
abbrev pub free_at : List CoremapPage → ℕ → Bool
free_at pages k = elim (get_elem? pages k) [ none ↦ false | some p ↦ is_free p.state ]

abbrev pub AllFree : List CoremapPage → ℕ → ℕ → Type 0
AllFree pages start stop = (k : ℕ) → start ≤ k → k < stop → free_at pages k ≡ true

-- A page in use from `start` on, below both bounds.
abbrev pub Busy : List CoremapPage → ℕ → ℕ → ℕ → Type 0
Busy pages start stop stop' =
    (k : ℕ) × (start ≤ k) × (k < stop) × (k < stop') × (free_at pages k ≡ false)

-- What a scan of the entries from `start` to `stop` may come to.
pub data Scanned (npages start stop : ℕ) (pages : List CoremapPage)
    : Outcome (Option ℕ) → Type 0 where
  hit :
      {i : ℕ}
      → i < stop
      → start + npages ≤ i + 1
      → AllFree pages (i + 1 - npages) (i + 1)
      → Scanned npages start stop pages (ok (some i))
  miss :
      ((j : ℕ) → start ≤ j → j + npages ≤ stop → Busy pages j (j + npages) stop)
      → Scanned npages start stop pages (ok none)

module _ (npages start stop : ℕ) (pages : List CoremapPage) (fits : stop ≤ length pages) where
  -- What holds before entry `i`, with `run` free entries just passed.
  record Passed (i run : ℕ) : Type 0 where
    short : run < npages
    behind : start + run ≤ i
    frees : AllFree pages (i - run) i
    busies : (j : ℕ) → start ≤ j → j + run < i → Busy pages j (j + npages) i

  Passed-free :
      (i run : ℕ)
      → free_at pages i ≡ true
      → run + 1 < npages
      → Passed i run
      → Passed (i + 1) (run + 1)
  Passed-free i run free more p = record {
    short = more;
    behind = omega (arith, p.behind);
    frees = λ k lo hi. elim (Bool-cases (k == i)) [
      | inl here ↦ let same : k ≡ i = ground arith in rw same free
      | inr other ↦ p.frees k (omega (arith, p.behind)) (ground arith)
    ];
    busies =
        λ j lo hi. let (k, a, b, c, e) = p.busies j lo (omega arith) in (k, a, b, omega arith, e);
  }

  Passed-busy : (i run : ℕ) → free_at pages i ≡ false → Passed i run → Passed (i + 1) 0
  Passed-busy i run busy p = record {
    short = omega (arith, p.short);
    behind = omega (arith, p.behind);
    frees = λ k lo hi. absurd (omega arith);
    busies = λ j lo hi. elim (Bool-cases (ltb (j + run) i)) [
      | inl early ↦ let (k, a, b, c, e) = p.busies j lo (ground arith) in (k, a, b, omega arith, e)
      | inr late ↦ (i, omega arith, ground (arith, p.short), omega arith, busy)
    ];
  }

  scan_page :
      (left i run : ℕ) (x : CoremapPage)
      → get_elem? pages i ≡ some x
      → i < stop
      → Passed i run
      → ((run' : ℕ)
          → Passed (i + 1) run'
          → Scanned npages start stop pages (scan npages left (i + 1) run' pages))
      → Scanned npages start stop pages (scan npages (suc left) i run pages)
  unfolding scan
  scan_page left i run x e lt p next = elim (Bool-cases (is_free x.state)) [
    | inl free ↦
        let here : free_at pages i ≡ true = rw (e, free_at) free in
        elim (Bool-cases (run + 1 == npages)) [
          | inl done ↦
              rw (e, free, done)
                (hit lt (ground (arith, p.behind)) (λ k lo hi. elim (Bool-cases (k == i)) [
                  | inl at ↦ let same : k ≡ i = ground arith in rw same here
                  | inr other ↦ p.frees k (ground (arith, p.behind)) (ground arith)
                ]))
          | inr more ↦
              rw (e, free, more)
                (next (run + 1) (Passed-free i run here (ground (arith, p.short)) p))
        ]
    | inr busy ↦
        let here : free_at pages i ≡ false = rw (e, free_at) busy in
        let no : (0 == npages) ≡ false = ground (arith, p.short) in
        rw (e, busy, no) (next 0 (Passed-busy i run here p))
  ]

  scan-Passed :
      (left i run : ℕ)
      → i + left ≡ stop
      → Passed i run
      → Scanned npages start stop pages (scan npages left i run pages)
  unfolding scan
  scan-Passed zero i run total p = miss (λ j lo hi.
      let (k, a, b, c, e) = p.busies j lo (omega (arith, p.short)) in (k, a, b, omega arith, e))
  scan-Passed (suc left) i run total p =
      let (x, e) = get_elem?-of_lt pages i (omega arith) in
      scan_page left i run x e (omega arith) p
        (λ run' p'. scan-Passed left (i + 1) run' (omega arith) p')

  pub scan-Scanned :
      (left : ℕ)
      → start + left ≡ stop
      → 0 < npages
      → Scanned npages start stop pages (scan npages left start 0 pages)
  scan-Scanned left total pos = scan-Passed left start 0 total (record {
    short = pos;
    behind = omega arith;
    frees = λ k lo hi. absurd (omega arith);
    busies = λ j lo hi. absurd (omega arith);
  })

-- What coremap_getfreepages may come to: a run of free pages, or none, where a run that straddles
-- last_page_used is not looked for.
pub data FreePages (npages : ℕ) (c : Coremap) : Outcome (Option ℕ × Coremap) → Type 0 where
  got :
      {page : ℕ}
      → page + npages ≤ length c.pages
      → AllFree c.pages page (page + npages)
      → FreePages npages c (ok (some page, record c { last_page_used = page + npages - 1 }))
  nowhere :
      ((j : ℕ)
        → j + npages ≤ length c.pages
        → (c.last_page_used ≤ j) ⊎ (j + npages ≤ c.last_page_used)
        → Busy c.pages j (j + npages) (length c.pages))
      → FreePages npages c (ok (none, c))

module _ (npages : ℕ) (c : Coremap) (pos : 0 < npages) where
  got_at :
      (i : ℕ)
      → i < length c.pages
      → npages ≤ i + 1
      → AllFree c.pages (i + 1 - npages) (i + 1)
      → FreePages npages c (ok (found_at npages c i))
  got_at i lt enough all =
      let start : i + 1 - npages ≡ i - (npages - 1) = omega arith in
      let end : i - (npages - 1) + npages ≡ i + 1 = omega arith in
      let last : i - (npages - 1) + npages - 1 ≡ i = omega arith in
      let run : AllFree c.pages (i - (npages - 1)) (i - (npages - 1) + npages) =
        λ k lo hi. all k (omega arith) (omega arith) in
      subst
        (λ u. FreePages npages c (ok (some (i - (npages - 1)), record c { last_page_used = u })))
        last (got (omega arith) run)

  getfreepages_of_scans :
      (r r' : Outcome (Option ℕ))
      → scan npages (length c.pages - c.last_page_used) c.last_page_used 0 c.pages ≡ r
      → scan npages c.last_page_used 0 0 c.pages ≡ r'
      → c.last_page_used ≤ length c.pages
      → Scanned npages c.last_page_used (length c.pages) c.pages r
      → Scanned npages 0 c.last_page_used c.pages r'
      → FreePages npages c (coremap_getfreepages npages c)
  unfolding coremap_getfreepages
  getfreepages_of_scans r r' e e' le (hit {i} lt enough all) before =
      rw e (got_at i lt (omega arith) all)
  getfreepages_of_scans r r' e e' le (miss none_behind) (hit {i} lt enough all) =
      rw (e, e') (got_at i (omega arith) (omega arith) all)
  getfreepages_of_scans r r' e e' le (miss none_behind) (miss none_before) =
      rw (e, e')
        (nowhere (λ j inside side. elim side [
          | inl behind ↦ none_behind j behind inside
          | inr before ↦
              let (k, a, b, d, f) = none_before j (omega arith) before in (k, a, b, omega arith, f)
        ]))

  -- coremap_getfreepages finds consecutive free pages whenever there are some behind
  -- last_page_used or before it, and none otherwise.
  pub coremap_getfreepages-FreePages :
      c.last_page_used ≤ length c.pages → FreePages npages c (coremap_getfreepages npages c)
  coremap_getfreepages-FreePages le =
      getfreepages_of_scans _ _ refl refl le
        (scan-Scanned npages c.last_page_used (length c.pages) c.pages (omega arith)
          (length c.pages - c.last_page_used) (omega arith) pos)
        (scan-Scanned npages 0 c.last_page_used c.pages le c.last_page_used (omega arith) pos)
