-- ===== src/Coremap/Fill.antt =====
-- Writing and releasing a range of entries.
use os.Base.{
  ℕ, zero, suc, ◌+◌, ◌≤◌, ◌<◌, ◌≡◌, refl, ◌∙◌, Bool, true, false, some, List, [], ◌∷◌, arith, ltb,
  leb, ◌==◌, ◌&&◌, Bool-cases, lt→ltb, inl, inr, if◌then◌else◌, length, get_elem?, set,
  get_elem?-of_lt, get_elem?-set_self, get_elem?-set_ne, length-set,
}
use os.Base.Outcome.{ok}
use os.Coremap.{CoremapPage, is_free, store, fill}
use os.Coremap.Scan.{AllFree}

-- The number of pages that are not free.
unfoldable pub count_used : List CoremapPage → ℕ
count_used [] = 0
count_used (p ∷ ps) = (if is_free p.state then 0 else 1) + count_used ps

abbrev pub weight : CoremapPage → ℕ
weight p = if is_free p.state then 0 else 1

pub count_used-set :
    (pages : List CoremapPage) (k : ℕ) (p x : CoremapPage)
    → get_elem? pages k ≡ some x
    → count_used (set pages k p) + weight x ≡ count_used pages + weight p
unfolding count_used
count_used-set [] k p x e = cc
count_used-set (q ∷ pages) zero p x e = ground arith
count_used-set (q ∷ pages) (suc k) p x e = omega (arith, count_used-set pages k p x e)

abbrev pub in_range : ℕ → ℕ → ℕ → Bool
in_range start left k = leb start k && ltb k (start + left)

pub store-set :
    (pages : List CoremapPage) (i : ℕ) (p : CoremapPage)
    → i < length pages
    → store pages i p ≡ ok (set pages i p)
unfolding store
store-set pages i p lt = rw (lt→ltb i (length pages) lt) refl

pub get_elem?-set :
    (pages : List CoremapPage) (i k : ℕ) (p : CoremapPage)
    → i < length pages
    → get_elem? (set pages i p) k ≡ (if k == i then some p else get_elem? pages k)
get_elem?-set pages i k p lt = elim (Bool-cases (k == i)) [
  | inl same ↦
      let there : k ≡ i = ground arith in rw (same, there) (get_elem?-set_self pages i p lt)
  | inr other ↦ rw other (get_elem?-set_ne pages i k p (ground arith))
]

-- `pages'` has the entry `p` from `start` on for `left` entries, and else what `pages` has.
pub record Filled (start left : ℕ) (p : CoremapPage) (pages pages' : List CoremapPage)
    : Type 0 where
  pub same_length : length pages' ≡ length pages
  pub entries :
      (k : ℕ) → get_elem? pages' k ≡ (if in_range start left k then some p else get_elem? pages k)

pub fill-Filled :
    (left start : ℕ) (p : CoremapPage) (pages : List CoremapPage)
    → start + left ≤ length pages
    → (pages' : List CoremapPage) × (fill left start p pages ≡ ok pages')
      × Filled start left p pages pages'
unfolding fill
fill-Filled zero start p pages fits =
    (pages, refl, record { same_length = refl; entries = λ k. ground arith })
fill-Filled (suc left) start p pages fits =
    let lt : start < length pages = omega arith in
    let now = set pages start p in
    let (pages', done, f) =
      fill-Filled left (start + 1) p now (omega (arith, length-set pages start p)) in
    (
      pages',
      rw (store-set pages start p lt) done,
      record {
        same_length = f.same_length ∙ length-set pages start p;
        entries = λ k. ground (arith, f.entries k, get_elem?-set pages start k p lt);
      },
    )

-- Filling free entries with one that is not free makes that many more used.
pub fill-count :
    (left start : ℕ) (p : CoremapPage) (pages pages' : List CoremapPage)
    → start + left ≤ length pages
    → is_free p.state ≡ false
    → AllFree pages start (start + left)
    → fill left start p pages ≡ ok pages'
    → count_used pages' ≡ count_used pages + left
unfolding fill
fill-count zero start p pages pages' fits used all e = ground arith
fill-count (suc left) start p pages pages' fits used all e =
    let lt : start < length pages = omega arith in
    let now = set pages start p in
    let (x, at) = get_elem?-of_lt pages start lt in
    let was_free : is_free x.state ≡ true = ground (arith, all start (omega arith) (omega arith)) in
    let rest : AllFree now (start + 1) (start + 1 + left) = λ k lo hi.
      ground (arith, all k (omega arith) (omega arith), get_elem?-set pages start k p lt) in
    let more =
      fill-count left (start + 1) p now pages' (omega (arith, length-set pages start p)) used rest
        (rw (store-set pages start p lt) at e) in
    ground (arith, more, count_used-set pages start p x at)
