-- ===== src/Pagetable/Boot.antt =====
-- pt_create makes a well-formed page table that maps nothing.
use os.Base.{
  ℕ, ◌+◌, ◌-◌, ◌*◌, ◌%◌, ◌^◌, ◌≤◌, ◌<◌, ◌≡◌, ◌≢◌, refl, ap, ◌∙◌, true, false, arith, ◌==◌, ◌||◌,
  Bool-cases, inl, inr, length,
}
use os.Base.Outcome.{Outcome, ok, panic, ◌>>=◌}
use os.Coremap.{Coremap, page_size}
use os.Coremap.Invariant.{IsCoremap}
use os.Coremap.Block.{used_at}
use os.Pagetable.{Machine, update, fill_words, create_table, idx_count, kernel_base}
use os.Pagetable.Words.{kaddr, fill_inside}
use os.Pagetable.Tables.{IsPagetable}
use os.Pagetable.Tables.{translate}
use os.Pagetable.Frame.{translate-free, update-other, update_self}
use os.Coremap.Fresh.{NoneFree}
use os.Pagetable.Create.{NewTable, table_at, no_table, create_table-NewTable}
use os.Coremap.Fresh.{setpagefixed-SameUse}
use os.Pagetable.{pt_create}

pub data Created (m : Machine) : Outcome (ℕ × Machine) → Type 0 where
  created :
      {role : ℕ → ℕ} {root : ℕ} {m' : Machine}
      → IsPagetable role root m'
      → used_at m.coremap.pages root ≡ false
      → ((i j : ℕ) → i < idx_count → translate m'.words root i j ≡ 1)
      → Created m (ok (kaddr root, m'))
  no_memory : NoneFree m.coremap → Created m panic

role-used :
    (page k : ℕ) (c c0 : Coremap)
    → ((x : ℕ) → used_at c.pages x ≡ ((x == page) || used_at c0.pages x))
    → update (λ x. 0) page 1 k ≢ 0
    → used_at c.pages k ≡ true
role-used page k c c0 uses ne = elim (Bool-cases (page == k)) [
  | inl e ↦ ground (arith, uses k, e)
  | inr e ↦ absurd (ne (update-other (λ x. 0) page 1 k (ground (arith, e))))
]

module _ (space : ℕ) (m : Machine) (valid : IsCoremap m.coremap)
    (small : length m.coremap.pages ≤ 2 ^ 19) (z : used_at m.coremap.pages 0 ≡ true) where
  from_table :
      (r : Outcome (ℕ × Machine))
      → create_table space 0 0 m ≡ r
      → NewTable 0 0 m r
      → Created m (pt_create space m)
  unfolding pt_create
  from_table r e (table_at {page} {c} lt u uses len v) =
      let words = fill_words idx_count (kaddr page) 1 m.words in
      let back : (kaddr page + 2 ^ 32 - kernel_base) % 2 ^ 32 ≡ page * page_size =
        omega (arith, lt, small) in
      let used : used_at c.pages page ≡ true = ground (arith, uses page) in
      let (c2, e2, s) = setpagefixed-SameUse c page true v used in
      let role = update (λ k. 0) page 1 in
      let other : 0 ≢ page = λ q. ground (arith, z, u, q) in
      let free_word : (i : ℕ) → i < idx_count → words (kaddr page + 4 * i) % 2 ≡ 1 =
        λ i hi. ap (λ w. w % 2) (fill_inside idx_count (kaddr page) 1 m.words i hi) in
      rw (e, ◌>>=◌, back, e2, ◌>>=◌)
        (created {role = role} {root = page}
          (record {
            valid = s.valid;
            small = omega (arith, s.same_length, len, small);
            kernel_page = s.same_use 0 ∙ ground (arith, uses 0, z);
            no_role = ground (arith, other);
            used = λ k ne. s.same_use k ∙ role-used page k c m.coremap uses ne;
            root_role = update_self (λ k. 0) page 1;
            entries = λ i hi. inl (free_word i hi);
          })
          u (λ i j hi. translate-free words page i j (free_word i hi)))
  from_table r e (no_table full) = rw (e, ◌>>=◌) (no_memory full)

  -- On a well-formed coremap of at most 2 GB with page 0 in use, pt_create makes a well-formed
  -- page table on a page that nobody used, which maps no address; it panics only when every page
  -- of memory is in use.
  pub pt_create-Created : Created m (pt_create space m)
  pt_create-Created = from_table _ refl (create_table-NewTable space 0 0 m valid small z 0)
