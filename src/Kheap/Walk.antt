-- ===== src/Kheap/Walk.antt =====
-- The walks of subpage_kmalloc and subpage_kfree along the lists of pagerefs.
use os.Base.{
  ℕ, zero, suc, ◌+◌, ◌%◌, ◌^◌, ◌≤◌, ◌<◌, ◌≡◌, inl, inr, refl, sym, ap, subst, ◌∙◌, Bool, true,
  arith, ◌==◌, ◌&&◌, Option, none, some, List, [], ◌∷◌, length, Bool-cases, ==_iff, get_elem?,
  lt→ltb, ltb, leb,
}
use os.Base.Outcome.{Outcome, ok}
use os.Coremap.{page_size}
use os.Kheap.{Kheap, sizes, pr_blocktype, pr_pageaddr, nsizes}
use os.Kheap.Subpage.{find_loop, page_loop, size_loop, blocktype}
use os.Kheap.Blocks.{has, got}
use os.Kheap.Chain.{Chain, stop, node}

below :
    (sz y : ℕ) (xs : List ℕ) (j : ℕ)
    → y < sz
    → ((c other : ℕ) → c < j → get_elem? xs c ≡ some other → other < sz)
    → (c other : ℕ) → c < suc j
    → get_elem? (y ∷ xs) c ≡ some other
    → other < sz
below sz y xs j lt least zero other h e = ground (arith, got e, lt)
below sz y xs j lt least (suc c) other h e = least c other (omega arith) e

-- The first size that is large enough.
size_loop-fits :
    (sz : ℕ) (xs : List ℕ) (i k x : ℕ)
    → get_elem? xs k ≡ some x
    → sz ≤ x
    → (j : ℕ) × (size : ℕ) × (size_loop sz xs i ≡ ok (i + j))
      × (get_elem? xs j ≡ some size)
      × (sz ≤ size)
      × ((c other : ℕ) → c < j → get_elem? xs c ≡ some other → other < sz)
unfolding size_loop
size_loop-fits sz [] i k x at le = ground (arith, at)
size_loop-fits sz (y ∷ xs) i zero x at le =
    let fits : leb sz y ≡ true = ground (arith, got at, le) in
    (
      0,
      y,
      rw fits (ap ok (omega arith)),
      refl,
      ground (arith, fits),
      λ c o h e. absurd (omega arith),
    )
size_loop-fits sz (y ∷ xs) i (suc k) x at le = elim (Bool-cases (leb sz y)) [
  | inl fits ↦ (
    0,
    y,
    rw fits (ap ok (omega arith)),
    refl,
    ground (arith, fits),
    λ c o h e. absurd (omega arith),
  )
  | inr small ↦
      let (j, size, e, there, large, least) = size_loop-fits sz xs (suc i) k x at le in
      (
        suc j,
        size,
        rw small (e ∙ ap ok (omega arith)),
        there,
        large,
        below sz y xs j (ground (arith, small)) least,
      )
]

-- The type of a block has the least size that is large enough.
pub blocktype-fits :
    (sz : ℕ)
    → sz ≤ 2048
    → (b : ℕ) × (size : ℕ) × (blocktype sz ≡ ok b)
      × (get_elem? sizes b ≡ some size)
      × (sz ≤ size)
      × ((c other : ℕ) → c < b → get_elem? sizes c ≡ some other → other < sz)
unfolding blocktype
blocktype-fits sz h =
    let (j, size, e, at, large, least) = size_loop-fits sz sizes 0 7 2048 refl h in
    (j, size, e ∙ ap ok (omega arith), at, large, least)

-- The first page of the list with a free block, if there is one.
pub data Found (s : Kheap) (xs : List ℕ) : Outcome (Option ℕ) → Type 0 where
  found : {p : ℕ} → has p xs ≡ true → 0 < s.nfree p → Found s xs (ok (some p))
  no_page : ((p : ℕ) → has p xs ≡ true → s.nfree p ≡ 0) → Found s xs (ok none)

find_loop_end : (fuel b : ℕ) (s : Kheap) → find_loop fuel b none s ≡ ok none
unfolding find_loop
find_loop_end zero b s = refl
find_loop_end (suc fuel) b s = refl

later :
    (s : Kheap) (p : ℕ) (xs : List ℕ) (o : Outcome (Option ℕ))
    → s.nfree p ≡ 0
    → Found s xs o
    → Found s (p ∷ xs) o
later s p xs _ full (found m pos) = found (ground (arith, m)) pos
later s p xs _ full (no_page all) = no_page (λ q m. elim (Bool-cases (q == p)) [
  | inl e ↦ ap s.nfree ((==_iff q p).0 e) ∙ full
  | inr e ↦ all q (ground (arith, m, e))
])

-- The page of the list that an address is in, if there is one.
pub data Within (s : Kheap) (a : ℕ) (xs : List ℕ) : Outcome (Option ℕ) → Type 0 where
  within :
      {p : ℕ}
      → has p xs ≡ true
      → pr_pageaddr s p ≤ a
      → a < (pr_pageaddr s p + page_size) % 2 ^ 32
      → Within s a xs (ok (some p))
  outside :
      ((p : ℕ)
        → has p xs ≡ true
        → (pr_pageaddr s p ≤ a → (pr_pageaddr s p + page_size) % 2 ^ 32 ≤ a))
      → Within s a xs (ok none)

beyond :
    (s : Kheap) (a p : ℕ) (xs : List ℕ) (o : Outcome (Option ℕ))
    → (pr_pageaddr s p ≤ a → (pr_pageaddr s p + page_size) % 2 ^ 32 ≤ a)
    → Within s a xs o
    → Within s a (p ∷ xs) o
beyond s a p xs _ far (within m lo hi) = within (ground (arith, m)) lo hi
beyond s a p xs _ far (outside all) = outside (λ q m. elim (Bool-cases (q == p)) [
  | inl e ↦
      subst (λ r. pr_pageaddr s r ≤ a → (pr_pageaddr s r + page_size) % 2 ^ 32 ≤ a)
        (sym ((==_iff q p).0 e)) far
  | inr e ↦ all q (ground (arith, m, e))
])

page_loop_end : (fuel a : ℕ) (s : Kheap) → page_loop fuel a none s ≡ ok none
unfolding page_loop
page_loop_end zero a s = refl
page_loop_end (suc fuel) a s = refl

module _ (s : Kheap) where
  pub find_loop-Found :
      (fuel b : ℕ) (h : Option ℕ) (xs : List ℕ)
      → length xs ≤ fuel
      → ((p : ℕ) → has p xs ≡ true → pr_blocktype s p ≡ b)
      → Chain s.next_samesize h xs
      → Found s xs (find_loop fuel b h s)
  unfolding find_loop
  find_loop-Found fuel b h _ few types (stop e) =
      subst (λ x. Found s [] (find_loop fuel b x s)) (sym e)
        (subst (Found s []) (sym (find_loop_end fuel b s)) (no_page (λ p m. ground (arith, m))))
  find_loop-Found zero b h _ few types (node e out c) = absurd (omega arith)
  find_loop-Found (suc fuel) b h _ few types (node {p = p} {xs = xs} e out c) =
      let typed : (pr_blocktype s p == b) ≡ true = (==_iff _ b).1 (types p (ground arith)) in
      subst (λ x. Found s (p ∷ xs) (find_loop (suc fuel) b x s)) (sym e)
        (elim (Bool-cases (ltb 0 (s.nfree p))) [
          | inl some_free ↦ rw (typed, some_free) (found (ground arith) (ground (arith, some_free)))
          | inr full ↦
              rw (typed, full)
                (later s p xs _ (ground (arith, full)) (
                  find_loop-Found fuel b (s.next_samesize p) xs (omega arith)
                    (λ q m. types q (ground (arith, m))) c))
        ])

  pub page_loop-Within :
      (fuel a : ℕ) (h : Option ℕ) (xs : List ℕ)
      → length xs ≤ fuel
      → ((p : ℕ) → has p xs ≡ true → pr_blocktype s p < nsizes)
      → Chain s.next_all h xs
      → Within s a xs (page_loop fuel a h s)
  unfolding page_loop
  page_loop-Within fuel a h _ few types (stop e) =
      subst (λ x. Within s a [] (page_loop fuel a x s)) (sym e)
        (subst (Within s a []) (sym (page_loop_end fuel a s)) (outside (λ p m. ground (arith, m))))
  page_loop-Within zero a h _ few types (node e out c) = absurd (omega arith)
  page_loop-Within (suc fuel) a h _ few types (node {p = p} {xs = xs} e out c) =
      let typed : ltb (pr_blocktype s p) nsizes ≡ true = lt→ltb _ nsizes (types p (ground arith)) in
      let inside : Bool =
        leb (pr_pageaddr s p) a && ltb a ((pr_pageaddr s p + page_size) % 2 ^ 32) in
      subst (λ x. Within s a (p ∷ xs) (page_loop (suc fuel) a x s)) (sym e)
        (elim (Bool-cases inside) [
          | inl i ↦ rw (typed, i) (within (ground arith) (ground (arith, i)) (ground (arith, i)))
          | inr i ↦
              rw (typed, i)
                (beyond s a p xs _ (λ lo. ground (arith, i, lo))
                  (page_loop-Within fuel a (s.next_all p) xs (omega arith)
                    (λ q m. types q (ground (arith, m))) c))
        ])
