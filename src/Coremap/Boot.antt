-- ===== src/Coremap/Boot.antt =====
-- coremap_bootstrap.
use os.Base.{
  ℕ, zero, suc, ◌+◌, ◌-◌, ◌*◌, ◌/◌, ◌%◌, ◌^◌, ◌≤◌, ◌<◌, ◌≡◌, ◌≢◌, refl, true, false, leb,
  Bool-cases, inl, inr, ◌∙◌, none, some, List, ◌++◌, arith, ltb, if◌then◌else◌, length,
  length-append, get_elem?, replicate, length-replicate,
}
use os.Coremap.{CoremapPage, free, fixed, entry, page_size, sizeof_coremap_page, coremap_bootstrap}
use os.Coremap.Scan.{free_at}
use os.Coremap.Fill.{count_used}
use os.Coremap.Invariant.{IsCoremap}

-- `a` entries for the kernel, then `b` free ones.
abbrev boot_pages : ℕ → ℕ → List CoremapPage
boot_pages a b = replicate a (entry 0 fixed) ++ replicate b (entry 0 free)

boot_entry :
    (a b k : ℕ)
    → get_elem? (boot_pages a b) k ≡ (
        if ltb k a
        then some (entry 0 fixed)
        else if ltb k (a + b)
        then some (entry 0 free)
        else none)
boot_entry zero zero k = ground arith
boot_entry zero (suc b) zero = ground arith
boot_entry zero (suc b) (suc k) = ground (arith, boot_entry zero b k)
boot_entry (suc a) b zero = ground arith
boot_entry (suc a) b (suc k) = ground (arith, boot_entry a b k)

boot_count : (a b : ℕ) → count_used (boot_pages a b) ≡ a
unfolding count_used
boot_count zero zero = refl
boot_count zero (suc b) = omega (arith, boot_count zero b)
boot_count (suc a) b = omega (arith, boot_count a b)

boot_length : (a b : ℕ) → length (boot_pages a b) ≡ a + b
boot_length a b = omega (
  arith,
  length-append (replicate a (entry 0 fixed)) (replicate b (entry 0 free)),
  length-replicate a (entry 0 fixed),
  length-replicate b (entry 0 free),
)

-- The end of the table that coremap_bootstrap lays out behind `first`.
abbrev pub table_end : ℕ → ℕ → ℕ
table_end first last = first + last / page_size * sizeof_coremap_page

module _ (first last : ℕ) where
  boot_state :
      (k : ℕ)
      → k < last / page_size
      → let a = table_end first last / page_size in
        (if ltb k a
          then some (entry 0 fixed)
          else if ltb k (a + (last / page_size - a))
          then some (entry 0 free)
          else none)
        ≡ some (entry 0 (if leb ((k + 1) * page_size) (table_end first last) then fixed else free))
  boot_state k lt = elim (Bool-cases (leb ((k + 1) * page_size) (table_end first last))) [
    | inl e ↦
        let kernel : ltb k (table_end first last / page_size) ≡ true = ground (arith, e) in
        rw (e, kernel) refl
    | inr e ↦
        let behind : ltb k (table_end first last / page_size) ≡ false = ground (arith, e) in
        let inside : ltb k (
              table_end first last / page_size
              + (last / page_size - table_end first last / page_size))
            ≡ true =
          ground (arith, lt) in
        rw (e, behind, inside) refl
  ]

  -- With the table inside a memory of at most 4 GB, coremap_bootstrap makes a well-formed coremap
  -- with an entry for each page of the memory: FIXED where the whole page lies below the end of
  -- the table, FREE from there on.
  pub coremap_bootstrap-IsCoremap :
      last ≤ 2 ^ 32
      → table_end first last ≤ last
      → IsCoremap (coremap_bootstrap first last)
        × (length (coremap_bootstrap first last).pages ≡ last / page_size)
        × ((k : ℕ)
            → k < last / page_size
            → get_elem? (coremap_bootstrap first last).pages k
              ≡ some (
                  entry 0
                    (if leb ((k + 1) * page_size) (table_end first last) then fixed else free)))
  unfolding coremap_bootstrap
  coremap_bootstrap-IsCoremap small fits =
      let a = table_end first last / page_size in
      let b = last / page_size - a in
      let total : length (boot_pages a b) ≡ last / page_size = omega (arith, boot_length a b) in
      (
        record {
          small = omega (arith, total);
          last_le = omega arith;
          counted = omega (arith, boot_count a b);
          clean = λ k p e f. ground (arith, boot_entry a b k);
          blocks = λ k j p e lo hi. absurd (ground (arith, boot_entry a b k));
        },
        total,
        λ k lt. boot_entry a b k ∙ boot_state k lt,
      )

  -- Where the table does not end at a page boundary, its last bytes lie in a page that
  -- coremap_bootstrap leaves free.
  pub coremap_bootstrap_overlap :
      table_end first last ≤ last / page_size * page_size
      → table_end first last % page_size ≢ 0
      → let page = table_end first last / page_size in
        (page * page_size < table_end first last)
        × (free_at (coremap_bootstrap first last).pages page ≡ true)
  unfolding coremap_bootstrap
  coremap_bootstrap_overlap fits partly =
      let a = table_end first last / page_size in
      (omega arith, ground (arith, boot_entry a (last / page_size - a) a))
