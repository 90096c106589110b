-- ===== src/Kheap/Refs.antt =====
-- allocpageref and freepageref, and how many elements a list without repetitions has.
use os.Base.{
  ℕ, zero, suc, ◌+◌, ◌*◌, ◌/◌, ◌%◌, ◌≤◌, ◌<◌, ◌≡◌, ◌≢◌, inl, inr, refl, sym, ap, ◌∙◌, Bool, true,
  false, arith, ◌==◌, Option, none, some, List, [], ◌∷◌, length, Bool-cases, ==_iff, get_elem?,
  lt→ltb, ltb,
}
use os.Base.Outcome.{Outcome, ok}
use os.Coremap.{page_size}
use os.Kheap.{
  Kheap, sizes, change, npagerefs, inuse_words, is_full, bit_loop, word_loop, allocpageref,
  freepageref,
}
use os.Kheap.Blocks.{has, FreeList, ends, link, FreeList-has, size-cases}
use os.Kheap.Chain.{Chain, stop, node, remove, has-remove}

abbrev pub Distinct : List ℕ → Type 0
Distinct [] = Unit
Distinct (x ∷ xs) = (has x xs ≡ false) × Distinct xs

pub remove-Distinct : (p : ℕ) (xs : List ℕ) → Distinct xs → Distinct (remove p xs)
remove-Distinct p [] d = tt
remove-Distinct p (x ∷ xs) d = ground (arith, has-remove p x xs, remove-Distinct p xs, d)

pub length-remove : (p : ℕ) (xs : List ℕ) → length xs ≤ suc (length (remove p xs))
length-remove p [] = omega arith
length-remove p (x ∷ xs) = ground (arith, length-remove p xs)

pub has_of_remove :
    (p q : ℕ) (xs : List ℕ) → Distinct xs → has q (remove p xs) ≡ true → (has q xs ≡ true) × (q ≢ p)
has_of_remove p q [] d m = ground (arith, m)
has_of_remove p q (x ∷ xs) d m = elim (Bool-cases (x == p)) [
  | inl s ↦
      let here : has q xs ≡ true = ground (arith, s, m) in
      (
        ground (arith, here),
        λ e. ground (arith, d.0, here, s, ap (λ y. has y xs) (e ∙ sym ((==_iff x p).0 s))),
      )
  | inr s ↦ elim (Bool-cases (q == x)) [
    | inl t ↦ (ground (arith, t), ground (arith, s, t))
    | inr t ↦
        let (here, ne) = has_of_remove p q xs d.1 (ground (arith, s, t, m)) in
        (ground (arith, here), ne)
  ]
]

-- A list without repetitions of things that n slots hold has at most n elements.
pub length-le_slots :
    (slot : ℕ → ℕ) (n : ℕ) (xs : List ℕ)
    → Distinct xs
    → ((q : ℕ) → has q xs ≡ true → (i : ℕ) × (i < n) × (q ≡ slot i))
    → length xs ≤ n
length-le_slots slot zero [] d all = omega arith
length-le_slots slot zero (x ∷ xs) d all =
    let (i, lt, e) = all x (ground arith) in absurd (omega arith)
length-le_slots slot (suc n) xs d all =
    let few = length-le_slots slot n (remove (slot n) xs) (remove-Distinct (slot n) xs d) (λ q m.
      let (here, ne) = has_of_remove (slot n) q xs d m in
      let (i, lt, e) = all q here in
      (
        i,
        elim (Bool-cases (i == n)) [
          | inl k ↦ absurd (ne (e ∙ ap slot ((==_iff i n).0 k)))
          | inr k ↦ ground (arith, k, lt)
        ],
        e,
      )) in
    omega (arith, few, length-remove (slot n) xs)

pub Chain-Distinct :
    (next : ℕ → Option ℕ) (h : Option ℕ) (xs : List ℕ) → Chain next h xs → Distinct xs
Chain-Distinct next h _ (stop e) = tt
Chain-Distinct next h _ (node {p = p} {xs = xs} e out c) = (out, Chain-Distinct next (next p) xs c)

pub FreeList-Distinct :
    (words : ℕ → ℕ) (base size fl : ℕ) (free : List ℕ)
    → FreeList words base size fl free
    → Distinct free
FreeList-Distinct words base size fl _ (ends e) = tt
FreeList-Distinct words base size fl _ (link {rest = rest} e lt al out l) =
    (out, FreeList-Distinct words base size (words fl) rest l)

pub slot_of :
    (b size o : ℕ)
    → get_elem? sizes b ≡ some size
    → o < page_size
    → o % size ≡ 0
    → (o / size < page_size / size) × (o ≡ o / size * size)
slot_of b size o e =
    size-cases b size e (λ k. o < page_size → o % k ≡ 0 → (o / k < page_size / k) × (o ≡ o / k * k))
      (λ x y. omega arith) (λ x y. omega arith) (λ x y. omega arith) (λ x y. omega arith)
      (λ x y. omega arith) (λ x y. omega arith) (λ x y. omega arith) (λ x y. omega arith)

-- A page with a block in use has fewer free blocks than it has blocks.
pub free-lt :
    (b size o : ℕ) (words : ℕ → ℕ) (base fl : ℕ) (free : List ℕ)
    → get_elem? sizes b ≡ some size
    → FreeList words base size fl free
    → o < page_size
    → o % size ≡ 0
    → has o free ≡ false
    → length free < page_size / size
free-lt b size o words base fl free e l lt al out =
    length-le_slots (λ i. i * size) (page_size / size) (o ∷ free)
      (out, FreeList-Distinct words base size fl free l)
      (λ q m. elim (Bool-cases (q == o)) [
        | inl k ↦
            let there : q ≡ o = (==_iff q o).0 k in
            let (ilt, ieq) = slot_of b size o e lt al in (o / size, ilt, there ∙ ieq)
        | inr k ↦
            let (qlt, qal) = FreeList-has words base size fl q free l (ground (arith, k, m)) in
            let (ilt, ieq) = slot_of b size q e qlt qal in (q / size, ilt, ieq)
      ])

is_full-all :
    (left p : ℕ) (inuse : ℕ → Bool)
    → is_full left inuse p ≡ true
    → (q : ℕ) → p ≤ q
    → q < p + left
    → inuse q ≡ true
unfolding is_full
is_full-all zero p inuse h q lo hi = absurd (omega arith)
is_full-all (suc left) p inuse h q lo hi = elim (Bool-cases (p == q)) [
  | inl e ↦ let k : p ≡ q = (==_iff p q).0 e in rw (← k) (ground (arith, h))
  | inr e ↦ is_full-all left (suc p) inuse (ground (arith, h)) q (ground (arith, e)) (omega arith)
]

abbrev pub marked : ℕ → Kheap → Kheap
marked p s = record s { pagerefs_inuse = change s.pagerefs_inuse p true }

bit_loop-found :
    (left p : ℕ) (s : Kheap)
    → is_full left s.pagerefs_inuse p ≡ false
    → (q : ℕ) × (p ≤ q)
      × (q < p + left)
      × (s.pagerefs_inuse q ≡ false)
      × (bit_loop left p s ≡ ok (some q, marked q s))
unfolding is_full bit_loop
bit_loop-found zero p s h = ground (arith, h)
bit_loop-found (suc left) p s h = elim (Bool-cases (s.pagerefs_inuse p)) [
  | inr f ↦ (p, omega arith, omega arith, f, rw f refl)
  | inl u ↦
      let (q, lo, hi, f, e) = bit_loop-found left (suc p) s (ground (arith, h, u)) in
      (q, omega arith, omega arith, f, rw (u) e)
]

-- A pageref that was not in use, or none, when all are in use.
pub data RefFound (s : Kheap) : Outcome (Option ℕ × Kheap) → Type 0 where
  found :
      {p : ℕ} → p < npagerefs → s.pagerefs_inuse p ≡ false → RefFound s (ok (some p, marked p s))
  all_used : ((p : ℕ) → p < npagerefs → s.pagerefs_inuse p ≡ true) → RefFound s (ok (none, s))

word_loop-RefFound :
    (left i : ℕ) (s : Kheap)
    → i + left ≡ inuse_words
    → ((p : ℕ) → p < i * 32 → s.pagerefs_inuse p ≡ true)
    → RefFound s (word_loop left i s)
unfolding word_loop
word_loop-RefFound zero i s all before = all_used (λ p lt. before p (omega arith))
word_loop-RefFound (suc left) i s all before =
    elim (Bool-cases (is_full 32 s.pagerefs_inuse (i * 32))) [
      | inl f ↦ rw (f) (
          word_loop-RefFound left (suc i) s (omega arith) (λ p lt.
            elim (Bool-cases (ltb p (i * 32))) [
              | inl h ↦ before p (ground (arith, h))
              | inr h ↦
                  is_full-all 32 (i * 32) s.pagerefs_inuse f p (ground (arith, h)) (omega arith)
            ]))
      | inr f ↦
          let (q, lo, hi, u, e) = bit_loop-found 32 (i * 32) s f in
          rw (f, e) (found (omega arith) u)
    ]

pub allocpageref-RefFound : (s : Kheap) → RefFound s (allocpageref s)
unfolding allocpageref
allocpageref-RefFound s = word_loop-RefFound inuse_words 0 s refl (λ p lt. absurd (omega arith))

pub freepageref-ok :
    (p : ℕ) (s : Kheap)
    → p < npagerefs
    → s.pagerefs_inuse p ≡ true
    → freepageref p s ≡ ok (record s { pagerefs_inuse = change s.pagerefs_inuse p false })
unfolding freepageref
freepageref-ok p s lt u = rw (lt→ltb p npagerefs lt, u) refl
