-- ===== src/Coremap/Fresh.antt =====
-- What the callers of the coremap rely on: which pages are in use, before and after a call.
use os.Base.{
  ℕ, ◌*◌, ◌/◌, ◌%◌, ◌^◌, ◌<◌, ◌≡◌, refl, Bool, true, false, ◌||◌, some, arith, ◌==◌, Option-cases,
  inl, inr, if◌then◌else◌, length, get_elem?, set, length-set, lt_of_get_elem?,
}
use os.Base.Outcome.{Outcome, ok, panic}
use os.Coremap.{
  CoremapPage, allocated, fixed, is_free, Coremap, page_size, coremap_getpages,
  coremap_setpagefixed, coremap_setpagevaddr,
}
use os.Coremap.Fill.{get_elem?-set}
use os.Coremap.Invariant.{IsCoremap}
use os.Coremap.Block.{used_at, Blocked}
use os.Coremap.Scan.{Busy, free_at}
use os.Base.{ap, sym, ◌∙◌, ◌≤◌, ◌+◌, ◌≢◌, ◌⊎◌, Bool-cases, leb, get_elem?-of_lt}
use os.Coremap.Alloc.{Allocated, block_at, exhausted, coremap_getpages-Allocated}
use os.Coremap.Pages.{replaced-IsCoremap}

-- Every page is in use.
abbrev pub NoneFree : Coremap → Type 0
NoneFree c = (k : ℕ) → k < length c.pages → used_at c.pages k ≡ true

-- At most one page is not in use.
abbrev pub OneLeft : Coremap → Type 0
OneLeft c = (spare : ℕ) × ((k : ℕ) → k < length c.pages → k ≢ spare → used_at c.pages k ≡ true)

-- At most one page was taken.
pub record OneMore (c c' : Coremap) : Type 0 where
  pub spare : ℕ
  pub length_eq : length c'.pages ≡ length c.pages
  pub old_use : (k : ℕ) → used_at c'.pages k ≡ true → k ≢ spare → used_at c.pages k ≡ true

pub one_left : (c c' : Coremap) → OneMore c c' → NoneFree c' → OneLeft c
one_left c c' o none_free =
    (o.spare, λ k lt ne. o.old_use k (none_free k (omega (arith, lt, o.length_eq))) ne)

-- One page, free before and in use after, or a panic when every page is in use.
pub data OnePage (c : Coremap) : Outcome (ℕ × Coremap) → Type 0 where
  taken :
      {page : ℕ} {c' : Coremap}
      → page < length c.pages
      → used_at c.pages page ≡ false
      → ((k : ℕ) → used_at c'.pages k ≡ ((k == page) || used_at c.pages k))
      → length c'.pages ≡ length c.pages
      → IsCoremap c'
      → OnePage c (ok (page * page_size, c'))
  none_left : NoneFree c → OnePage c panic

used_at-Blocked :
    (c c' : Coremap) (page k : ℕ)
    → Blocked 1 page c.pages c'.pages
    → used_at c'.pages k ≡ ((k == page) || used_at c.pages k)
used_at-Blocked c c' page k b = ground (arith, b.entries k)

pub none_free :
    (c : Coremap)
    → ((j : ℕ)
        → j + 1 ≤ length c.pages
        → (c.last_page_used ≤ j) ⊎ (j + 1 ≤ c.last_page_used)
        → Busy c.pages j (j + 1) (length c.pages))
    → NoneFree c
none_free c busy k lt =
    let either : (c.last_page_used ≤ k) ⊎ (k + 1 ≤ c.last_page_used) =
      elim (Bool-cases (leb c.last_page_used k)) [
        | inl e ↦ inl (ground (arith, e))
        | inr e ↦ inr (ground (arith, e))
      ] in
    let (j, ge, lt', below, f) = busy k (omega (arith, lt)) either in
    let same : j ≡ k = omega (arith, ge, lt') in
    let (p, at) = get_elem?-of_lt c.pages k lt in
    let not_free : free_at c.pages k ≡ false = ap (free_at c.pages) (sym same) ∙ f in
    ground (arith, not_free, at)

one_of_Allocated :
    (c : Coremap) (r : Outcome (ℕ × Coremap)) → IsCoremap c → Allocated 1 c r → OnePage c r
one_of_Allocated c r h (block_at {page} {c'} fits all b count valid) =
    let small : page * page_size % 2 ^ 32 ≡ page * page_size = omega (arith, h.small) in
    rw small (
      taken (omega arith) (ground (arith, all page (omega arith) (omega arith)))
        (λ k. used_at-Blocked c c' page k b) b.same_length valid)
one_of_Allocated c r h (exhausted busy) = none_left (none_free c busy)

-- An allocation of one page takes a page that was free and nothing else; it panics only when
-- every page is in use.
pub coremap_getpages_one : (c : Coremap) → IsCoremap c → OnePage c (coremap_getpages 1 c)
coremap_getpages_one c h = one_of_Allocated c _ h (coremap_getpages-Allocated 1 c h (omega arith))

-- What a call that only changes the entry of a page in use leaves.
pub record SameUse (c c' : Coremap) : Type 0 where
  pub valid : IsCoremap c'
  pub same_length : length c'.pages ≡ length c.pages
  pub same_use : (k : ℕ) → used_at c'.pages k ≡ used_at c.pages k

used-entry :
    (c : Coremap) (page : ℕ)
    → used_at c.pages page ≡ true
    → (p : CoremapPage) × (get_elem? c.pages page ≡ some p) × (is_free p.state ≡ false)
used-entry c page u = elim (Option-cases (get_elem? c.pages page)) [
  | inl e ↦ ground (arith, e, u)
  | inr (p, e) ↦ (p, e, ground (arith, e, u))
]

replaced-SameUse :
    (c : Coremap) (page : ℕ) (p p' : CoremapPage)
    → IsCoremap c
    → get_elem? c.pages page ≡ some p
    → is_free p.state ≡ false
    → is_free p'.state ≡ false
    → p'.page_count ≡ p.page_count
    → SameUse c (record c { pages = set c.pages page p' })
replaced-SameUse c page p p' h e used still count = record {
  valid = replaced-IsCoremap c h page p p' e used still count;
  same_length = length-set c.pages page p';
  same_use = λ k.
      ground
        (arith, get_elem?-set c.pages page k p' (lt_of_get_elem? c.pages page e), e, used, still);
}

at_page : (page : ℕ) → page * page_size / page_size ≡ page
at_page page = omega arith

pub setpagevaddr-SameUse :
    (c : Coremap) (page addrspace vaddr : ℕ)
    → IsCoremap c
    → used_at c.pages page ≡ true
    → (c' : Coremap) × (coremap_setpagevaddr (page * page_size) addrspace vaddr c ≡ ok c')
      × SameUse c c'
unfolding coremap_setpagevaddr
setpagevaddr-SameUse c page addrspace vaddr h u =
    let (p, e, used) = used-entry c page u in
    let p' = record p { addrspace = addrspace; addr = vaddr } in
    (
      record c { pages = set c.pages page p' },
      rw (at_page page, e) (ground arith),
      replaced-SameUse c page p p' h e used used refl,
    )

pub setpagefixed-SameUse :
    (c : Coremap) (page : ℕ) (fix : Bool)
    → IsCoremap c
    → used_at c.pages page ≡ true
    → (c' : Coremap) × (coremap_setpagefixed (page * page_size) fix c ≡ ok c') × SameUse c c'
unfolding coremap_setpagefixed
setpagefixed-SameUse c page fix h u =
    let (p, e, used) = used-entry c page u in
    let p' = record p { state = if fix then fixed else allocated } in
    let still : is_free p'.state ≡ false = ground arith in
    (
      record c { pages = set c.pages page p' },
      rw (at_page page, e) (ground arith),
      replaced-SameUse c page p p' h e used still refl,
    )
