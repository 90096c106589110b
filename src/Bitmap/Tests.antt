-- ===== src/Bitmap/Tests.antt =====
-- Runs of the bitmap functions, and each theorem at an input.
use os.Base.{ℕ, zero, suc, ◌<◌, ◌≡◌, refl, true, false, some, [], ◌∷◌, arith, get_elem?}
use os.Base.Outcome.{ok}
use os.Bitmap.{
  Bitmap, bitmap_create, bitmap_alloc, mark_leftover, mark_over, or_word, alloc_loop, take_bit,
  clear_offset,
}
use os.Bitmap.Bits.{IsBitmap, bit_at, bit_at-replicate}
use os.Bitmap.Alloc.{FirstFree, bitmap_alloc-FirstFree}

create_eleven : bitmap_create true true 11 ≡ ok (some (record { nbits = 11; v = 0 ∷ 0xf8 ∷ [] }))
unfolding bitmap_create mark_leftover mark_over or_word
create_eleven = refl

alloc_ninth :
    bitmap_alloc (record { nbits = 11; v = 0xff ∷ 0xf9 ∷ [] })
    ≡ ok (9, record { nbits = 11; v = 0xff ∷ 0xfb ∷ [] })
unfolding bitmap_alloc alloc_loop take_bit clear_offset or_word
alloc_ninth = refl

-- A bitmap of one byte with every bit free.
abbrev free_byte : Bitmap
free_byte = record { nbits = 8; v = 0 ∷ [] }

free_byte-IsBitmap : IsBitmap free_byte
free_byte-IsBitmap = record {
  small = omega arith;
  covered = refl;
  bytes = zero_byte;
  leftover = λ i h. ground (arith, bit_at-replicate 1 i);
}
  where
    zero_byte : (k w : ℕ) → get_elem? (0 ∷ []) k ≡ some w → w < 256
    zero_byte zero w e = ground arith
    zero_byte (suc k) w e = cc

free_third : bit_at (0 ∷ []) 3 ≡ false
free_third = bit_at-replicate 1 3

bitmap_alloc-FirstFree_example : FirstFree free_byte (bitmap_alloc free_byte)
bitmap_alloc-FirstFree_example = bitmap_alloc-FirstFree free_byte-IsBitmap
