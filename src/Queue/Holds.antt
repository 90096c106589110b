-- ===== src/Queue/Holds.antt =====
-- Which elements a ring buffer holds, in order.
use os.Base.{
  ℕ, ◌+◌, ◌%◌, ◌<◌, ◌≡◌, sym, refl, true, ◌≢◌, ◌↔◌, ◌∙◌, Option, some, List, [], ◌∷◌, ◌++◌, arith,
  ◌==◌, length, get_elem?, set, get_elem?-set_ne,
}
use os.Base.Circular.{after_index, after-lt, after-ne, gap, gap_step}
use os.Queue.{Queue}

module _ {ℓ} {A : Type ℓ} where
  -- From index `r` round to the write index `w` the slots hold the elements of the list.
  pub data Run (items : List (Option A)) (size w : ℕ) : ℕ → List A → Type ℓ where
    stop : Run items size w w []
    step :
        {r : ℕ} {x : A} {xs : List A}
        → r ≢ w
        → get_elem? items r ≡ some (some x)
        → Run items size w ((r + 1) % size) xs
        → Run items size w r (x ∷ xs)

  pub record Holds (q : Queue A) (xs : List A) : Type ℓ where
    pub pos : 0 < q.size
    pub read_lt : q.nextread < q.size
    pub write_lt : q.nextwrite < q.size
    pub slots : length q.items ≡ q.size
    pub run : Run q.items q.size q.nextwrite q.nextread xs

  module _ {items : List (Option A)} {size w : ℕ} where
    pub Run-head :
        {r : ℕ} {x : A} {xs : List A}
        → Run items size w r (x ∷ xs)
        → (r ≢ w) × (get_elem? items r ≡ some (some x)) × Run items size w ((r + 1) % size) xs
    Run-head (step ne e run) = (ne, e, run)

    pub empty_iff : {r : ℕ} {xs : List A} → Run items size w r xs → ((w == r) ≡ true) ↔ (xs ≡ [])
    empty_iff stop = (λ h. refl, λ h. ground arith)
    empty_iff (step ne e run) = (λ h. absurd (ne (ground arith)), λ h. cc)

    -- A write at the write index spares the elements.
    pub Run-set :
        {r : ℕ} {xs : List A} (c : Option A)
        → Run items size w r xs
        → Run (set items w c) size w r xs
    Run-set c stop = stop
    Run-set c (step {r} ne e run) =
        step ne (get_elem?-set_ne items w r c (λ h. ne (sym h)) ∙ e) (Run-set c run)

    pub Run-snoc :
        {r : ℕ} {xs : List A} (x : A)
        → w < size
        → r < size
        → r ≢ (w + 1) % size
        → get_elem? items w ≡ some (some x)
        → Run items size w r xs
        → Run items size ((w + 1) % size) r (xs ++ x ∷ [])
    Run-snoc x hw hr ne e stop = step ne e stop
    Run-snoc x hw hr ne e (step {r} away found run) =
        step ne found (Run-snoc x hw (after-lt r size hr) (after-ne r w size hr hw away) e run)

    pub Run-length :
        {r : ℕ} {xs : List A}
        → w < size
        → r < size
        → Run items size w r xs
        → length xs ≡ gap size w r
    Run-length hw hr stop = ground arith
    Run-length hw hr (step {r} {xs} ne e run) =
        omega (arith, Run-length hw (after-lt r size hr) run, gap_step size w r hr hw ne)

  module _ {q : Queue A} {xs : List A} (h : Holds q xs) where
    pub Holds-length : length xs ≡ gap q.size q.nextwrite q.nextread
    Holds-length = Run-length h.write_lt h.read_lt h.run

    pub Holds-lt : length xs < q.size
    Holds-lt = ground (arith, Holds-length, h.write_lt, h.read_lt)

    -- The next write index meets the read index exactly when one slot is left.
    pub full_iff : ((q.nextwrite + 1) % q.size ≡ q.nextread) ↔ (length xs + 1 ≡ q.size)
    full_iff =
        ground
          (arith, Holds-length, after_index q.nextwrite q.size h.write_lt, h.write_lt, h.read_lt)
