-- ===== src/Bitmap/Alloc.antt =====
-- bitmap_alloc takes the first free bit.
use os.Base.{
  ℕ, zero, suc, ◌+◌, ◌*◌, ◌/◌, ◌%◌, ◌<◌, ◌≡◌, refl, ◌∙◌, ◌≢◌, inl, inr, Bool, true, false, not,
  ◌&&◌, ◌||◌, arith, ltb, leb, ◌==◌, Bool-cases, Option, some, none, get_elem?, length,
  get_elem?-of_lt,
}
use os.Base.Outcome.{Outcome, ok, err, enospc}
use os.Bitmap.{Bitmap, clear_offset, or_word, take_bit, alloc_loop, bitmap_alloc}
use os.Bitmap.Bytes.{bit, all_below, all_below_sound, bit-allbits}
use os.Bitmap.Bits.{IsBitmap, bit_at, bit_at_lem, words_lem}
use os.Bitmap.Mark.{Updated, with_bit-Updated}

-- `o` is the first clear bit of the byte `w`.
record FirstClear (w o : ℕ) : Type 0 where
  small : o < 8
  clear : bit w o ≡ false
  before : (p : ℕ) → p < o → bit w p ≡ true

finds : ℕ → Bool
finds w = elim (clear_offset 8 0 w) [
  | none ↦ w == 0xff
  | some o ↦ ltb o 8 && (not (bit w o) && all_below 8 (λ p. leb o p || bit w p))
]

finds_all : (w : ℕ) → w < 256 → finds w ≡ true
unfolding finds clear_offset all_below
finds_all = all_below_sound 256 finds refl

clear_offset-FirstClear :
    (w : ℕ) → w < 256 → w ≢ 0xff → (o : ℕ) × (clear_offset 8 0 w ≡ some o) × FirstClear w o
unfolding finds
clear_offset-FirstClear w byte ne = go (clear_offset 8 0 w) refl
  where
    go :
        (r : Option ℕ)
        → clear_offset 8 0 w ≡ r
        → (o : ℕ) × (clear_offset 8 0 w ≡ some o) × FirstClear w o
    go none e = absurd (ground (arith, finds_all w byte))
    go (some o) e =
        let all : all_below 8 (λ p. leb o p || bit w p) ≡ true = ground (arith, finds_all w byte) in
        let small : o < 8 = ground (arith, finds_all w byte) in
        (
          o,
          e,
          record {
            small = small;
            clear = ground (arith, finds_all w byte);
            before = λ p lt.
                ground (arith, all_below_sound 8 (λ p. leb o p || bit w p) all p (omega arith));
          },
        )

-- What bitmap_alloc may come to: it takes the first free bit, or there is none.
pub data FirstFree (b : Bitmap) : Outcome (ℕ × Bitmap) → Type 0 where
  taken :
      {i : ℕ} {b' : Bitmap}
      → i < b.nbits
      → bit_at b.v i ≡ false
      → ((j : ℕ) → j < i → bit_at b.v j ≡ true)
      → Updated b b' (λ j. (j == i) || bit_at b.v j)
      → FirstFree b (ok (i, b'))
  exhausted : ((j : ℕ) → j < b.nbits → bit_at b.v j ≡ true) → FirstFree b (err enospc)

module _ {b : Bitmap} (h : IsBitmap b) where
  take_bit-FirstFree :
      (ix w : ℕ)
      → get_elem? b.v ix ≡ some w
      → w ≢ 0xff
      → ((j : ℕ) → j < ix * 8 → bit_at b.v j ≡ true)
      → FirstFree b (take_bit b ix w)
  unfolding take_bit or_word
  take_bit-FirstFree ix w e ne before =
      let (o, found, first) = clear_offset-FirstClear w (h.bytes ix w e) ne in
      let i = ix * 8 + o in
      let byte : i / 8 ≡ ix = omega (arith, first.small) in
      let offset : i % 8 ≡ o = omega (arith, first.small) in
      let here : get_elem? b.v (i / 8) ≡ some w = rw byte e in
      let free : bit_at b.v i ≡ false = bit_at_lem b.v i here ∙ rw offset first.clear in
      let inside : i < b.nbits = ground (arith, h.leftover i, free) in
      let test : ltb i b.nbits ≡ true = ground arith in
      let lower : (j : ℕ) → j < i → bit_at b.v j ≡ true = λ j lt.
        elim (Bool-cases (ltb j (ix * 8))) [
          | inl early ↦ before j (ground arith)
          | inr late ↦
              let same : j / 8 ≡ ix = ground (arith, first.small) in
              bit_at_lem b.v j (rw same e) ∙ first.before (j % 8) (ground arith)
        ] in
      rw (found, take_bit, e, test)
        (taken inside free lower (rw (byte, offset) at (with_bit-Updated h i w here)))

  full_byte :
      (ix w : ℕ)
      → get_elem? b.v ix ≡ some w
      → w ≡ 0xff
      → ((j : ℕ) → j < ix * 8 → bit_at b.v j ≡ true)
      → (j : ℕ) → j < (ix + 1) * 8
      → bit_at b.v j ≡ true
  full_byte ix w e ones before j lt = elim (Bool-cases (ltb j (ix * 8))) [
    | inl early ↦ before j (ground arith)
    | inr late ↦
        let same : j / 8 ≡ ix = ground arith in
        let here : get_elem? b.v (j / 8) ≡ some 0xff = rw (same, ← ones) e in
        bit_at_lem b.v j here ∙ bit-allbits (j % 8) (omega arith)
  ]

  alloc_loop-FirstFree :
      (left ix : ℕ)
      → ix + left ≡ length b.v
      → ((j : ℕ) → j < ix * 8 → bit_at b.v j ≡ true)
      → FirstFree b (alloc_loop left ix b)
  unfolding alloc_loop
  alloc_loop-FirstFree zero ix total before =
      exhausted (λ j lt. before j (omega (arith, h.covered)))
  alloc_loop-FirstFree (suc left) ix total before =
      let (w, e) = get_elem?-of_lt b.v ix (omega arith) in
      elim (Bool-cases (w == 0xff)) [
        | inl full ↦
            rw (e, full)
              (alloc_loop-FirstFree left (ix + 1) (omega arith)
                (full_byte ix w e (ground arith) before))
        | inr free ↦ rw (e, free) (take_bit-FirstFree ix w e (ground arith) before)
      ]

  -- bitmap_alloc returns the first free bit, marks it and no other, and fails with ENOSPC exactly
  -- when every bit is in use. It never panics.
  pub bitmap_alloc-FirstFree : FirstFree b (bitmap_alloc b)
  unfolding bitmap_alloc
  bitmap_alloc-FirstFree =
      alloc_loop-FirstFree _ 0 (omega (arith, words_lem h)) (λ j lt. absurd (omega arith))
