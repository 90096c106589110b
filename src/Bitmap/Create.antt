-- ===== src/Bitmap/Create.antt =====
-- bitmap_create: every bit is free, and those behind the last one are in use.
use Prim.Native.Nat.{bit_or}
use os.Base.{
  ℕ, zero, suc, ◌+◌, ◌-◌, ◌*◌, ◌/◌, ◌%◌, ◌^◌, ◌≤◌, ◌<◌, ◌≡◌, refl, ◌∙◌, inl, inr, true, false, ◌&&◌,
  ◌||◌, arith, ltb, leb, ◌==◌, Bool-cases, some, List, get_elem?, set, length, length-set,
  get_elem?-of_lt, replicate, length-replicate, get_elem?-replicate, lt_of_get_elem?,
}
use os.Base.Outcome.{ok}
use os.Bitmap.{Bitmap, words_for, or_word, mark_over, mark_leftover, bitmap_create}
use os.Bitmap.Bytes.{or-lt}
use os.Bitmap.Bits.{IsBitmap, bit_at, bit_at-replicate, bit_at-with_bit, bytes-set}

module _ (nbits words : ℕ) (fits : nbits ≤ words * 8) (tight : words * 8 < nbits + 8) where
  -- The state of the marking loop at bit number `next`.
  record Marked (v : List ℕ) (next : ℕ) : Type 0 where
    covered : length v ≡ words
    bytes : (k w : ℕ) → get_elem? v k ≡ some w → w < 256
    bits : (i : ℕ) → bit_at v i ≡ (leb nbits i && (ltb i next || leb (words * 8) i))

  Marked-zero : Marked (replicate words 0) nbits
  Marked-zero = record {
    covered = length-replicate words 0;
    bytes = λ k w e.
        let inside = lt_of_get_elem? {A = ℕ} (replicate words 0) k e in
        ground (
          arith,
          get_elem?-replicate {A = ℕ} words 0 k
              (omega (arith, inside, length-replicate {A = ℕ} words 0)),
        );
    bits = λ i. ground (arith, bit_at-replicate words i);
  }

  Marked-next :
      (j ix w : ℕ) (v : List ℕ)
      → j < 8
      → ix + 1 ≡ words
      → nbits ≤ ix * 8 + j
      → get_elem? v ix ≡ some w
      → Marked v (ix * 8 + j)
      → Marked (set v ix (bit_or w (2 ^ j))) (ix * 8 + (j + 1))
  Marked-next j ix w v lt last late e m =
      let i = ix * 8 + j in
      let byte : i / 8 ≡ ix = omega arith in
      let offset : i % 8 ≡ j = omega arith in
      let here : get_elem? v (i / 8) ≡ some w = rw byte e in
      let small = m.bytes ix w e in
      record {
        covered = length-set v ix _ ∙ m.covered;
        bytes = bytes-set v ix _ m.bytes (or-lt w j small lt);
        bits = λ k.
            let new = rw (byte, offset) at (bit_at-with_bit v i w here small k) in
            ground (arith, new, m.bits k);
      }

  mark_over-Marked :
      (left j ix : ℕ) (v : List ℕ)
      → j + left ≡ 8
      → ix + 1 ≡ words
      → nbits ≤ ix * 8 + j
      → Marked v (ix * 8 + j)
      → (v' : List ℕ) × (mark_over left j ix v ≡ ok v') × Marked v' (words * 8)
  unfolding mark_over or_word
  mark_over-Marked zero j ix v total last late m =
      let end : ix * 8 + j ≡ words * 8 = omega arith in (v, refl, rw (← end) m)
  mark_over-Marked (suc left) j ix v total last late m =
      let (w, e) = get_elem?-of_lt v ix (omega (arith, m.covered)) in
      let next = Marked-next j ix w v (omega arith) last late e m in
      let (v', done, m') =
        mark_over-Marked left (j + 1) ix _ (omega arith) last (omega arith) next in
      (v', rw e done, m')

  mark_leftover-Marked :
      (v : List ℕ) × (mark_leftover nbits words (replicate words 0) ≡ ok v) × Marked v (words * 8)
  unfolding mark_leftover
  mark_leftover-Marked = elim (Bool-cases (ltb (nbits / 8) words)) [
    | inl partly ↦
        let over = nbits - (words - 1) * 8 in
        let whole : (nbits / 8 == words - 1) ≡ true = ground arith in
        let some_over : ltb 0 over ≡ true = ground arith in
        let few_over : ltb over 8 ≡ true = ground arith in
        let start : (words - 1) * 8 + over ≡ nbits = ground arith in
        let (v, done, m) =
          mark_over-Marked (8 - over) over (words - 1) (replicate words 0) (ground arith)
            (ground arith) (ground arith) (rw start Marked-zero) in
        (v, rw (partly, whole, some_over, few_over) done, m)
    | inr exactly ↦
        let end : nbits ≡ words * 8 = ground arith in
        (replicate words 0, rw exactly refl, rw (← end) Marked-zero)
  ]

-- With memory at hand, bitmap_create makes a bitmap of the given size with every bit free.
pub bitmap_create-IsBitmap :
    (nbits : ℕ)
    → nbits + 7 < 2 ^ 32
    → (b : Bitmap) × (bitmap_create true true nbits ≡ ok (some b))
      × (b.nbits ≡ nbits)
      × IsBitmap b
      × ((i : ℕ) → i < nbits → bit_at b.v i ≡ false)
unfolding bitmap_create
bitmap_create-IsBitmap nbits small =
    let (v, made, m) =
      mark_leftover-Marked nbits (words_for nbits) (omega (arith, small)) (omega (arith, small)) in
    (
      record { nbits = nbits; v = v },
      rw made refl,
      refl,
      record {
        small = small;
        covered = omega (arith, m.covered, small);
        bytes = m.bytes;
        leftover = λ i h. ground (arith, m.bits i);
      },
      λ i h. ground (arith, m.bits i),
    )
