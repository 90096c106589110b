-- ===== src/Bitmap/Bits.antt =====
-- A bitmap as a function from bit numbers to bits, and what the operations keep.
use Prim.Native.Nat.{bit_and, bit_or}
use os.Base.{
  ℕ, ◌+◌, ◌-◌, ◌*◌, ◌/◌, ◌%◌, ◌^◌, ◌≤◌, ◌<◌, ◌≡◌, refl, sym, ◌∙◌, ◌≢◌, inl, inr, Bool, true, false,
  not, ◌&&◌, ◌||◌, arith, ltb, ◌==◌, Bool-cases, none, some, List, get_elem?, set, length,
  get_elem?-set_self, get_elem?-set_ne, lt_of_get_elem?, leb, replicate, get_elem?-replicate,
  get_elem?-of_ge, length-replicate, length-set, get_elem?-of_lt,
}
use os.Bitmap.{Bitmap, words_for}
use os.Bitmap.Bytes.{bit, bit-zero, bit-or, bit-clear}

-- Bit `i` of the bytes; there is no free bit behind them.
pub bit_at : List ℕ → ℕ → Bool
bit_at v i = elim (get_elem? v (i / 8)) [ none ↦ true | some w ↦ bit w (i % 8) ]

-- The bytes of a bitmap cover its bits, and those behind the last one are in use.
pub record IsBitmap (b : Bitmap) : Type 0 where
  pub small : b.nbits + 7 < 2 ^ 32
  pub covered : length b.v ≡ (b.nbits + 7) / 8
  pub bytes : (k w : ℕ) → get_elem? b.v k ≡ some w → w < 256
  pub leftover : (i : ℕ) → b.nbits ≤ i → bit_at b.v i ≡ true

pub bit_at_lem :
    (v : List ℕ) {w : ℕ} (i : ℕ) → get_elem? v (i / 8) ≡ some w → bit_at v i ≡ bit w (i % 8)
unfolding bit_at
bit_at_lem v i e = rw (e, bit_at)

-- Bytes of zero have every bit free.
pub bit_at-replicate : (n i : ℕ) → bit_at (replicate n 0) i ≡ leb (n * 8) i
unfolding bit_at
bit_at-replicate n i = elim (Bool-cases (ltb (i / 8) n)) [
  | inl inside ↦
      let free : leb (n * 8) i ≡ false = ground arith in
      rw (get_elem?-replicate {A = ℕ} n 0 (i / 8) (ground arith), bit_at, free)
        (bit-zero (i % 8) (omega arith))
  | inr beyond ↦
      let behind : leb (n * 8) i ≡ true = ground arith in
      let out =
        get_elem?-of_ge {A = ℕ} (replicate n 0) (i / 8)
          (ground (arith, length-replicate {A = ℕ} n 0)) in
      rw (out, bit_at, behind) refl
]

same_byte :
    (v : List ℕ) (ix w w' j : ℕ)
    → get_elem? v ix ≡ some w
    → j / 8 ≡ ix
    → bit_at (set v ix w') j ≡ bit w' (j % 8)
unfolding bit_at
same_byte v ix w w' j e h =
    let new : get_elem? (set v ix w') (j / 8) ≡ some w' =
      rw h (get_elem?-set_self v ix w' (lt_of_get_elem? v ix e)) in
    rw (new, bit_at)

other_byte : (v : List ℕ) (ix w' j : ℕ) → ix ≢ j / 8 → bit_at (set v ix w') j ≡ bit_at v j
unfolding bit_at
other_byte v ix w' j ne = rw (get_elem?-set_ne v ix (j / 8) w' ne, bit_at)

module _ (v : List ℕ) (i w : ℕ) (e : get_elem? v (i / 8) ≡ some w) (byte : w < 256) where
  -- `v` with bit `i` set, and with bit `i` cleared.
  abbrev pub with_bit : List ℕ
  with_bit = set v (i / 8) (bit_or w (2 ^ (i % 8)))

  abbrev pub without_bit : List ℕ
  without_bit = set v (i / 8) (bit_and w (0xff - 2 ^ (i % 8)))

  pub bit_at-with_bit : (j : ℕ) → bit_at with_bit j ≡ ((j == i) || bit_at v j)
  bit_at-with_bit j = elim (Bool-cases (j / 8 == i / 8)) [
    | inl hit ↦
        let there : j / 8 ≡ i / 8 = ground arith in
        let old : bit_at v j ≡ bit w (j % 8) = bit_at_lem v j (rw there e) in
        let number : (j % 8 == i % 8) ≡ (j == i) = ground arith in
        same_byte v (i / 8) w (bit_or w (2 ^ (i % 8))) j e there
        ∙ (bit-or w (i % 8) (j % 8) byte (omega arith) (omega arith) ∙ rw (number, old) refl)
    | inr miss ↦
        let number : (j == i) ≡ false = ground arith in
        rw number (other_byte v (i / 8) (bit_or w (2 ^ (i % 8))) j (ground arith))
  ]

  pub bit_at-without_bit : (j : ℕ) → bit_at without_bit j ≡ (not (j == i) && bit_at v j)
  bit_at-without_bit j = elim (Bool-cases (j / 8 == i / 8)) [
    | inl hit ↦
        let there : j / 8 ≡ i / 8 = ground arith in
        let old : bit_at v j ≡ bit w (j % 8) = bit_at_lem v j (rw there e) in
        let number : (j % 8 == i % 8) ≡ (j == i) = ground arith in
        same_byte v (i / 8) w (bit_and w (0xff - 2 ^ (i % 8))) j e there
        ∙ (bit-clear w (i % 8) (j % 8) byte (omega arith) (omega arith) ∙ rw (number, old) refl)
    | inr miss ↦
        let number : (j == i) ≡ false = ground arith in
        rw number (other_byte v (i / 8) (bit_and w (0xff - 2 ^ (i % 8))) j (ground arith))
  ]

-- Replacing a byte by a byte leaves bytes.
pub bytes-set :
    (v : List ℕ) (ix w' : ℕ)
    → ((k w : ℕ) → get_elem? v k ≡ some w → w < 256)
    → w' < 256
    → (k w : ℕ) → get_elem? (set v ix w') k ≡ some w
    → w < 256
bytes-set v ix w' bytes small k w e = elim (Bool-cases (ix == k)) [
  | inl hit ↦
      let there : ix ≡ k = ground arith in
      let inside : k < length v =
        omega (arith, lt_of_get_elem? (set v ix w') k e, length-set v ix w') in
      ground (arith, get_elem?-set_self v ix w' (omega arith))
  | inr miss ↦ bytes k w (sym (get_elem?-set_ne v ix k w' (ground arith)) ∙ e)
]

module _ {b : Bitmap} (h : IsBitmap b) where
  -- The byte of a bit of the map.
  pub byte_of : (i : ℕ) → i < b.nbits → (w : ℕ) × (get_elem? b.v (i / 8) ≡ some w) × (w < 256)
  byte_of i lt =
      let (w, e) = get_elem?-of_lt b.v (i / 8) (omega (arith, h.covered)) in
      (w, e, h.bytes (i / 8) w e)

  pub words_lem : words_for b.nbits ≡ length b.v
  words_lem = omega (arith, h.covered, h.small)
