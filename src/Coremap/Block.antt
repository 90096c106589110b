-- ===== src/Coremap/Block.antt =====
-- Marking a block of free pages, and releasing a block of used ones.
use os.Base.{
  ℕ, zero, suc, ◌+◌, ◌-◌, ◌≤◌, ◌<◌, ◌≡◌, refl, ◌∙◌, Bool, true, false, not, Option, none, some,
  List, arith, ◌==◌, if◌then◌else◌, length, get_elem?, set, get_elem?-of_lt, length-set,
  lt_of_get_elem?,
}
use os.Base.Outcome.{ok}
use os.Coremap.{CoremapPage, free, allocated, entry, is_free, mark_block, release}
use os.Coremap.Scan.{AllFree}
use os.Coremap.Fill.{
  count_used, count_used-set, store-set, get_elem?-set, fill-Filled, fill-count, Filled, in_range,
}

abbrev pub used_at : List CoremapPage → ℕ → Bool
used_at pages k = elim (get_elem? pages k) [ none ↦ false | some p ↦ not (is_free p.state) ]

abbrev pub AllUsed : List CoremapPage → ℕ → ℕ → Type 0
AllUsed pages start stop = (k : ℕ) → start ≤ k → k < stop → used_at pages k ≡ true

-- `pages'` has a block of `npages` pages at `page`, and else what `pages` has.
pub record Blocked (npages page : ℕ) (pages pages' : List CoremapPage) : Type 0 where
  pub same_length : length pages' ≡ length pages
  pub entries :
      (k : ℕ)
      → get_elem? pages' k ≡ (
          if k == page
          then some (entry npages allocated)
          else if in_range page npages k
          then some (entry 0 allocated)
          else get_elem? pages k)
  pub counted : count_used pages' ≡ count_used pages + npages

pub mark_block-Blocked :
    (npages page : ℕ) (pages : List CoremapPage)
    → 0 < npages
    → page + npages ≤ length pages
    → AllFree pages page (page + npages)
    → (pages' : List CoremapPage) × (mark_block npages page pages ≡ ok pages')
      × Blocked npages page pages pages'
unfolding mark_block
mark_block-Blocked npages page pages pos fits all =
    let lt : page < length pages = omega arith in
    let head = entry npages allocated in
    let now = set pages page head in
    let room : page + 1 + (npages - 1) ≤ length now = omega (arith, length-set pages page head) in
    let (pages', done, f) = fill-Filled (npages - 1) (page + 1) (entry 0 allocated) now room in
    let (x, at) = get_elem?-of_lt pages page lt in
    let was_free : is_free x.state ≡ true = ground (arith, all page (omega arith) (omega arith)) in
    let rest : AllFree now (page + 1) (page + 1 + (npages - 1)) = λ k lo hi.
      ground (arith, all k (omega arith) (omega arith), get_elem?-set pages page k head lt) in
    let more =
      fill-count (npages - 1) (page + 1) (entry 0 allocated) now pages' room refl rest done in
    (
      pages',
      rw (store-set pages page head lt) done,
      record {
        same_length = f.same_length ∙ length-set pages page head;
        entries = λ k. ground (arith, f.entries k, get_elem?-set pages page k head lt);
        counted = ground (arith, more, count_used-set pages page head x at);
      },
    )

pub lt_of_used : (pages : List CoremapPage) (k : ℕ) → used_at pages k ≡ true → k < length pages
lt_of_used pages k h = go (get_elem? pages k) refl h
  where
    go :
        (o : Option CoremapPage)
        → get_elem? pages k ≡ o
        → elim o as (λ _. Bool) [ none ↦ false | some p ↦ not (is_free p.state) ] ≡ true
        → k < length pages
    go none e h = cc
    go (some p) e h = lt_of_get_elem? pages k e

release_step :
    (left start : ℕ) (pages : List CoremapPage) (x : CoremapPage) {pages' : List CoremapPage}
    → get_elem? pages start ≡ some x
    → used_at pages start ≡ true
    → release left (start + 1) (set pages start (entry 0 free)) ≡ ok pages'
    → release (suc left) start pages ≡ ok pages'
unfolding release
release_step left start pages x e used done =
    let stored = store-set pages start (entry 0 free) (lt_of_get_elem? pages start e) in
    ground (arith, stored, done)

-- Releasing used pages.
pub release-Filled :
    (left start : ℕ) (pages : List CoremapPage)
    → AllUsed pages start (start + left)
    → (pages' : List CoremapPage) × (release left start pages ≡ ok pages')
      × Filled start left (entry 0 free) pages pages'
      × (count_used pages' + left ≡ count_used pages)
unfolding release
release-Filled zero start pages all =
    (pages, refl, record { same_length = refl; entries = λ k. ground arith }, omega arith)
release-Filled (suc left) start pages all =
    let here = all start (omega arith) (omega arith) in
    let lt = lt_of_used pages start here in
    let (x, at) = get_elem?-of_lt pages start lt in
    let p = entry 0 free in
    let now = set pages start p in
    let rest : AllUsed now (start + 1) (start + 1 + left) = λ k lo hi.
      ground (arith, all k (omega arith) (omega arith), get_elem?-set pages start k p lt) in
    let (pages', done, f, count) = release-Filled left (start + 1) now rest in
    (
      pages',
      release_step left start pages x at here done,
      record {
        same_length = f.same_length ∙ length-set pages start p;
        entries = λ k. ground (arith, f.entries k, get_elem?-set pages start k p lt);
      },
      ground (arith, count, count_used-set pages start p x at, here),
    )
