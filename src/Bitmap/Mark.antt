-- ===== src/Bitmap/Mark.antt =====
-- bitmap_mark, bitmap_unmark and bitmap_isset.
use Prim.Native.Nat.{bit_and, bit_or}
use os.Base.{
  ℕ, ◌/◌, ◌%◌, ◌^◌, ◌<◌, ◌≡◌, refl, ◌∙◌, ◌≢◌, ◌↔◌, Bool, true, false, not, ◌&&◌, ◌||◌, arith, ltb,
  ◌==◌, some, get_elem?, set, length-set, get_elem?-set_self, lt_of_get_elem?, set-set,
  set-get_elem?,
}
use os.Base.Outcome.{ok, panic, ◌>>=◌}
use os.Bitmap.{Bitmap, bitmap_mark, bitmap_unmark, bitmap_isset}
use os.Bitmap.Bytes.{bit, bit-or, or-lt, clear-lt, clear-or}
use os.Bitmap.Bits.{
  IsBitmap, bit_at, bit_at_lem, with_bit, without_bit, bit_at-with_bit, bit_at-without_bit,
  bytes-set, byte_of,
}

-- `b'` is `b` with the bits as `f` says, and a bitmap again.
pub record Updated (b b' : Bitmap) (f : ℕ → Bool) : Type 0 where
  pub same_size : b'.nbits ≡ b.nbits
  pub bits : (j : ℕ) → bit_at b'.v j ≡ f j
  pub kept : IsBitmap b'

module _ {b : Bitmap} (h : IsBitmap b) (i w : ℕ) (e : get_elem? b.v (i / 8) ≡ some w) where
  abbrev pub byte : w < 256
  byte = h.bytes (i / 8) w e

  pub with_bit-Updated :
      Updated b (record b { v = with_bit b.v i w e byte }) (λ j. (j == i) || bit_at b.v j)
  with_bit-Updated = record {
    same_size = refl;
    bits = bit_at-with_bit b.v i w e byte;
    kept = record {
      small = h.small;
      covered = length-set b.v (i / 8) _ ∙ h.covered;
      bytes = bytes-set b.v (i / 8) _ h.bytes (or-lt w (i % 8) byte (omega arith));
      leftover = λ j out. rw (bit_at-with_bit b.v i w e byte j) (ground (arith, h.leftover j out));
    };
  }

module _ {b : Bitmap} (h : IsBitmap b) (i : ℕ) (lt : i < b.nbits) where
  abbrev pub at : (w : ℕ) × (get_elem? b.v (i / 8) ≡ some w) × (w < 256)
  at = byte_of h i lt

  inside : ltb i b.nbits ≡ true
  inside = ground (arith, lt)

  tested : bit_at b.v i ≡ bit at.0 (i % 8)
  tested = bit_at_lem b.v i at.1

  cleared-Updated :
      Updated b
        (record b { v = without_bit b.v i at.0 at.1 at.2 })
        (λ j. not (j == i) && bit_at b.v j)
  cleared-Updated = record {
    same_size = refl;
    bits = bit_at-without_bit b.v i at.0 at.1 at.2;
    kept = record {
      small = h.small;
      covered = length-set b.v (i / 8) _ ∙ h.covered;
      bytes = bytes-set b.v (i / 8) _ h.bytes (clear-lt at.0 (i % 8) at.2 (omega arith));
      leftover = λ j out.
          rw (bit_at-without_bit b.v i at.0 at.1 at.2 j) (ground (arith, h.leftover j out, lt));
    };
  }

  -- bitmap_mark sets a clear bit and no other, and panics on a bit that is set.
  pub bitmap_mark-Updated :
      (bit_at b.v i ≡ false
        → (b' : Bitmap) × (bitmap_mark b i ≡ ok b') × Updated b b' (λ j. (j == i) || bit_at b.v j))
      × (bit_at b.v i ≡ true → bitmap_mark b i ≡ panic)
  unfolding bitmap_mark
  bitmap_mark-Updated = (
    λ free.
        let clear : (bit_and at.0 (2 ^ (i % 8)) == 0) ≡ true = ground (arith, tested) in
        (
          record b { v = with_bit b.v i at.0 at.1 at.2 },
          rw (inside, at.1, clear) refl,
          with_bit-Updated h i at.0 at.1,
        ),
    λ taken.
        let busy : (bit_and at.0 (2 ^ (i % 8)) == 0) ≡ false = ground (arith, tested) in
        rw (inside, at.1, busy) refl,
  )

  -- bitmap_unmark clears a set bit and no other, and panics on a bit that is clear.
  pub bitmap_unmark-Updated :
      (bit_at b.v i ≡ true
        → (b' : Bitmap) × (bitmap_unmark b i ≡ ok b')
          × Updated b b' (λ j. not (j == i) && bit_at b.v j))
      × (bit_at b.v i ≡ false → bitmap_unmark b i ≡ panic)
  unfolding bitmap_unmark
  bitmap_unmark-Updated = (
    λ taken.
        let busy : (bit_and at.0 (2 ^ (i % 8)) == 0) ≡ false = ground (arith, tested) in
        (
          record b { v = without_bit b.v i at.0 at.1 at.2 },
          rw (inside, at.1, busy) refl,
          cleared-Updated,
        ),
    λ free.
        let clear : (bit_and at.0 (2 ^ (i % 8)) == 0) ≡ true = ground (arith, tested) in
        rw (inside, at.1, clear) refl,
  )

  -- bitmap_isset is nonzero exactly on a set bit.
  pub bitmap_isset_lem : (r : ℕ) × (bitmap_isset b i ≡ ok r) × ((r ≢ 0) ↔ (bit_at b.v i ≡ true))
  unfolding bitmap_isset
  bitmap_isset_lem = (bit_and at.0 (2 ^ (i % 8)), rw at.1 refl, ground (arith, tested))

  -- Marking a clear bit and unmarking it again gives the bitmap back.
  pub unmark-mark : bit_at b.v i ≡ false → (bitmap_mark b i >>= λ b'. bitmap_unmark b' i) ≡ ok b
  unfolding bitmap_mark bitmap_unmark
  unmark-mark free =
      let clear : (bit_and at.0 (2 ^ (i % 8)) == 0) ≡ true = ground (arith, tested) in
      let w' = bit_or at.0 (2 ^ (i % 8)) in
      let back = get_elem?-set_self b.v (i / 8) w' (lt_of_get_elem? b.v (i / 8) at.1) in
      let now : (bit_and w' (2 ^ (i % 8)) == 0) ≡ false =
        ground (arith, bit-or at.0 (i % 8) (i % 8) at.2 (omega arith) (omega arith)) in
      let whole : set (set b.v (i / 8) w') (i / 8) at.0 ≡ b.v =
        set-set b.v (i / 8) w' at.0 ∙ set-get_elem? b.v (i / 8) at.0 at.1 in
      let byte = clear-or at.0 (i % 8) at.2 (omega arith) (ground (arith, tested)) in
      rw (inside, at.1, clear) (rw (inside, back, now) (rw (byte, whole) refl))
