-- ===== src/Bitmap.antt =====
-- os161-1.11/kern/lib/bitmap.c: arrays of bits, packed into bytes. `mem_bitmap` and `mem_bits` say
-- whether kmalloc finds memory.
pub mod Bytes
pub mod Bits
pub mod Alloc
pub mod Mark
pub mod Create
mod Tests
use Prim.Native.Nat.{bit_and, bit_or}
use os.Base.{
  ℕ, zero, suc, ◌+◌, ◌-◌, ◌*◌, ◌/◌, ◌%◌, ◌^◌, Bool, not, ◌&&◌, Option, none, some, List, ltb, ◌==◌,
  if◌then◌else◌, get_elem?, set, replicate,
}
use os.Base.Outcome.{enospc, Outcome, ok, err, panic, out_of_fuel, ◌>>=◌, ◌>>◌, assert, deref}

abbrev pub bits_per_word : ℕ
bits_per_word = 8

abbrev pub word_allbits : ℕ
word_allbits = 0xff

-- `v` holds bytes.
pub record Bitmap : Type 0 where
  pub nbits : ℕ
  pub v : List ℕ

-- DIVROUNDUP(n, BITS_PER_WORD) on 32-bit numbers.
abbrev pub words_for : ℕ → ℕ
words_for n = (n + 7) % 2 ^ 32 / bits_per_word

-- (WORD_TYPE)1 << offset
abbrev pub bit_mask : ℕ → ℕ
bit_mask offset = 2 ^ offset

-- v[ix] |= mask
pub or_word : List ℕ → ℕ → ℕ → Outcome (List ℕ)
or_word v ix mask = do w ← deref (get_elem? v ix); ok (set v ix (bit_or w mask))

-- for (j = overbits; j < BITS_PER_WORD; j++) v[ix] |= 1 << j; `left` rounds are left.
pub mark_over : ℕ → ℕ → ℕ → List ℕ → Outcome (List ℕ)
mark_over zero j ix v = ok v
mark_over (suc left) j ix v = do v' ← or_word v ix (bit_mask j); mark_over left (j + 1) ix v'

-- The bits behind the last one are marked in use.
pub mark_leftover : ℕ → ℕ → List ℕ → Outcome (List ℕ)
mark_leftover nbits words v =
    let overbits = nbits - (words - 1) * bits_per_word in
    let marked : Outcome (List ℕ) = do
      assert (nbits / bits_per_word == words - 1)
      assert (ltb 0 overbits && ltb overbits bits_per_word)
      mark_over (bits_per_word - overbits) overbits (words - 1) v
    in if ltb (nbits / bits_per_word) words then marked else ok v

pub bitmap_create : Bool → Bool → ℕ → Outcome (Option Bitmap)
bitmap_create mem_bitmap mem_bits nbits =
    let made : Outcome (Option Bitmap) = do
      v ← mark_leftover nbits (words_for nbits) (replicate (words_for nbits) 0)
      ok (some (record { nbits = nbits; v = v }))
    in if mem_bitmap && mem_bits then made else ok none

-- for (offset = 0; offset < BITS_PER_WORD; offset++), up to the first clear bit of the byte.
pub clear_offset : ℕ → ℕ → ℕ → Option ℕ
clear_offset zero offset w = none
clear_offset (suc left) offset w =
    let rest = clear_offset left (offset + 1) w in
    if bit_and w (bit_mask offset) == 0 then some offset else rest

-- Sets the first clear bit of byte `ix`, whose value is `w`; assert(0) if there is none.
pub take_bit : Bitmap → ℕ → ℕ → Outcome (ℕ × Bitmap)
take_bit b ix w = elim (clear_offset bits_per_word 0 w) [
  | none ↦ panic
  | some offset ↦ do
    v' ← or_word b.v ix (bit_mask offset)
    assert (ltb (ix * bits_per_word + offset) b.nbits)
    ok (ix * bits_per_word + offset, record b { v = v' })
]

-- for (ix = 0; ix < maxix; ix++)
pub alloc_loop : ℕ → ℕ → Bitmap → Outcome (ℕ × Bitmap)
alloc_loop zero ix b = err enospc
alloc_loop (suc left) ix b =
    let rest = alloc_loop left (ix + 1) b in
    do w ← deref (get_elem? b.v ix); if w == word_allbits then rest else take_bit b ix w

pub bitmap_alloc : Bitmap → Outcome (ℕ × Bitmap)
bitmap_alloc b = alloc_loop (words_for b.nbits) 0 b

-- The byte of a bit and its mask.
abbrev pub bitmap_translate : ℕ → ℕ × ℕ
bitmap_translate bitno = (bitno / bits_per_word, bit_mask (bitno % bits_per_word))

pub bitmap_mark : Bitmap → ℕ → Outcome Bitmap
bitmap_mark b index = do
  assert (ltb index b.nbits)
  let (ix, mask) = bitmap_translate index
  w ← deref (get_elem? b.v ix)
  assert (bit_and w mask == 0)
  ok (record b { v = set b.v ix (bit_or w mask) })

-- ~mask is 0xff - mask on a byte.
pub bitmap_unmark : Bitmap → ℕ → Outcome Bitmap
bitmap_unmark b index = do
  assert (ltb index b.nbits)
  let (ix, mask) = bitmap_translate index
  w ← deref (get_elem? b.v ix)
  assert (not (bit_and w mask == 0))
  ok (record b { v = set b.v ix (bit_and w (word_allbits - mask)) })

-- There is no check of the index: beyond the bytes the read is undefined.
pub bitmap_isset : Bitmap → ℕ → Outcome ℕ
bitmap_isset b index = do
  let (ix, mask) = bitmap_translate index
  w ← deref (get_elem? b.v ix)
  ok (bit_and w mask)
