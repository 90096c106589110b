-- ===== src/Swapfile/Search.antt =====
-- The search for a free page.
use os.Base.{
  ℕ, zero, suc, ◌+◌, ◌-◌, ◌%◌, ◌≤◌, ◌<◌, ◌≡◌, refl, ap, ◌∙◌, ◌≢◌, false, Option, none, some, List,
  arith, ◌==◌, Bool-cases, inl, inr, length, get_elem?, get_elem?-of_lt,
}
use os.Base.Circular.{after-lt, gap, gap_step, gap_injective}
use os.Base.Outcome.{Outcome, ok, out_of_fuel}
use os.Swapfile.{swapfile_max_pages, free_loop}

-- What the search may come to: a free page, or every page but the one before the start is in use.
pub data Searched (entries : List ℕ) (last : ℕ) : Outcome (Option ℕ) → Type 0 where
  found :
      {i : ℕ}
      → i < swapfile_max_pages
      → i + 1 ≢ last
      → get_elem? entries i ≡ some 0
      → Searched entries last (ok (some i))
  exhausted :
      ((k e : ℕ) → get_elem? entries k ≡ some e → k < swapfile_max_pages → k + 1 ≢ last → e ≢ 0)
      → Searched entries last (ok none)

module _ (entries : List ℕ) (whole : length entries ≡ swapfile_max_pages) where
  -- Pages that the search has passed are in use.
  abbrev pub Seen : ℕ → ℕ → Type 0
  Seen last i =
      (k e : ℕ)
      → get_elem? entries k ≡ some e
      → k < swapfile_max_pages
      → gap swapfile_max_pages (last - 1) i < gap swapfile_max_pages (last - 1) k
      → e ≢ 0

  Seen-step :
      (last i j e : ℕ)
      → last < swapfile_max_pages
      → i < swapfile_max_pages
      → gap swapfile_max_pages (last - 1) i ≡ suc (gap swapfile_max_pages (last - 1) j)
      → get_elem? entries i ≡ some e
      → e ≢ 0
      → Seen last i
      → Seen last j
  Seen-step last i j e hl hi step at busy seen k e' at' hk past =
      elim (Bool-cases
        (gap swapfile_max_pages (last - 1) i == gap swapfile_max_pages (last - 1) k)) [
          | inl same ↦
              let one : i ≡ k =
                gap_injective swapfile_max_pages (last - 1) i k hi hk (omega arith)
                  (ground arith) in
              ground (arith, rw one at at)
          | inr other ↦ seen k e' at' hk (ground arith)
        ]

  pub free_loop-Searched :
      (fuel last i : ℕ)
      → 0 < last
      → last < swapfile_max_pages
      → i < swapfile_max_pages
      → gap swapfile_max_pages (last - 1) i < fuel
      → Seen last i
      → Searched entries last (free_loop fuel entries last i)
  unfolding free_loop
  free_loop-Searched zero last i pos hl hi enough seen = absurd (omega arith)
  free_loop-Searched (suc fuel) last i pos hl hi enough seen = elim (Bool-cases (i + 1 == last)) [
    | inl end ↦ rw end (exhausted (λ k e at hk away. seen k e at hk (ground arith)))
    | inr on ↦
        let (e, at) = get_elem?-of_lt entries i (omega (arith, whole)) in
        let ne : i ≢ last - 1 = ground arith in
        let step = gap_step swapfile_max_pages (last - 1) i hi (omega arith) ne in
        elim (Bool-cases (e == 0)) [
          | inl free ↦ rw (on, at, free) (found hi (ground arith) (rw at (ground arith)))
          | inr busy ↦
              rw (on, at, busy)
                (free_loop-Searched fuel last ((i + 1) % swapfile_max_pages) pos hl
                  (after-lt i swapfile_max_pages hi) (omega (arith, step))
                  (Seen-step last i ((i + 1) % swapfile_max_pages) e hl hi step at (ground arith)
                    seen))
        ]
  ]

  free_loop_step :
      (fuel last i e : ℕ)
      → (i + 1 == last) ≡ false
      → get_elem? entries i ≡ some e
      → (e == 0) ≡ false
      → free_loop (suc fuel) entries last i
        ≡ free_loop fuel entries last ((i + 1) % swapfile_max_pages)
  unfolding free_loop
  free_loop_step fuel last i e on at busy = rw (on, at, busy) refl

  lt_of_busy :
      (i j e : ℕ)
      → i ≤ j
      → get_elem? entries i ≡ some e
      → e ≢ 0
      → get_elem? entries j ≡ some 0
      → i < j
  lt_of_busy i j e le at busy free = elim (Bool-cases (i == j)) [
    | inl same ↦ let one : i ≡ j = ground arith in ground (arith, rw one at at)
    | inr other ↦ ground arith
  ]

  -- Started at page 0, the search finds a free page if there is one.
  pub free_loop_zero :
      (fuel i j : ℕ)
      → i ≤ j
      → j < swapfile_max_pages
      → j - i < fuel
      → get_elem? entries j ≡ some 0
      → (k : ℕ) × (free_loop fuel entries 0 i ≡ ok (some k)) × (get_elem? entries k ≡ some 0)
  unfolding free_loop
  free_loop_zero zero i j le hj enough free = absurd (omega arith)
  free_loop_zero (suc fuel) i j le hj enough free =
      let on : (i + 1 == 0) ≡ false = ground arith in
      let (e, at) = get_elem?-of_lt entries i (omega (arith, whole)) in
      elim (Bool-cases (e == 0)) [
        | inl here ↦ (i, rw (on, at, here) refl, rw at (ground arith))
        | inr busy ↦
            let before : i < j = lt_of_busy i j e le at (ground arith) free in
            let next : (i + 1) % swapfile_max_pages ≡ i + 1 = omega arith in
            let (k, done, empty) =
              free_loop_zero fuel (i + 1) j (omega arith) hj (omega arith) free in
            (
              k,
              free_loop_step fuel 0 i e on at busy ∙ (ap (free_loop fuel entries 0) next ∙ done),
              empty,
            )
      ]

  -- Started at page 0 with every page in use, the search never ends.
  pub free_loop_endless :
      ((k e : ℕ) → get_elem? entries k ≡ some e → e ≢ 0)
      → (fuel i : ℕ) → i < swapfile_max_pages
      → free_loop fuel entries 0 i ≡ out_of_fuel
  unfolding free_loop
  free_loop_endless used zero i hi = refl
  free_loop_endless used (suc fuel) i hi =
      let on : (i + 1 == 0) ≡ false = ground arith in
      let (e, at) = get_elem?-of_lt entries i (omega (arith, whole)) in
      let busy : (e == 0) ≡ false = ground (arith, used i e at) in
      rw (on, at, busy)
        (free_loop_endless used fuel ((i + 1) % swapfile_max_pages)
          (after-lt i swapfile_max_pages hi))

-- A page that the search returns is free, whatever the fuel.
pub free_loop_sound :
    (entries : List ℕ) (fuel last i : ℕ) {k : ℕ}
    → free_loop fuel entries last i ≡ ok (some k)
    → get_elem? entries k ≡ some 0
unfolding free_loop
free_loop_sound entries zero last i e = cc
free_loop_sound entries (suc fuel) last i {k} e =
    ground (arith, free_loop_sound entries fuel last ((i + 1) % swapfile_max_pages) {k = k})
