-- ===== src/Bitmap/Bytes.antt =====
-- The bits of a byte, by tables over all bytes.
use Prim.Native.Nat.{bit_and, bit_or}
use os.Base.{
  ℕ, zero, suc, ◌-◌, ◌^◌, ◌<◌, ◌≡◌, refl, Bool, true, false, not, ◌&&◌, ◌||◌, arith, ltb, ◌==◌,
}

-- Whether bit `p` of a byte is set.
abbrev pub bit : ℕ → ℕ → Bool
bit w p = not (bit_and w (2 ^ p) == 0)

unfoldable pub all_below : ℕ → (ℕ → Bool) → Bool
all_below zero p = true
all_below (suc n) p = p n && all_below n p

pub all_below_sound : (n : ℕ) (p : ℕ → Bool) → all_below n p ≡ true → (x : ℕ) → x < n → p x ≡ true
unfolding all_below
all_below_sound zero p h x lt = absurd (omega arith)
all_below_sound (suc n) p h x lt = ground (arith, all_below_sound n p (ground arith) x)

abbrev same : Bool → Bool → Bool
same true b = b
same false b = not b

same_sound : (a b : Bool) → same a b ≡ true → a ≡ b
same_sound true b h = ground arith
same_sound false b h = ground arith

-- A table over a byte and two bit numbers.
byte_table :
    (f g : ℕ → ℕ → ℕ → Bool)
    → all_below 256 (λ w. all_below 8 (λ o. all_below 8 (λ p. same (f w o p) (g w o p)))) ≡ true
    → (w o p : ℕ) → w < 256
    → o < 8
    → p < 8
    → f w o p ≡ g w o p
byte_table f g table w o p hw ho hp =
    same_sound _ _
      (all_below_sound 8 _ (all_below_sound 8 _ (all_below_sound 256 _ table w hw) o ho) p hp)

pub bit-or :
    (w o p : ℕ) → w < 256 → o < 8 → p < 8 → bit (bit_or w (2 ^ o)) p ≡ ((p == o) || bit w p)
unfolding all_below
bit-or = byte_table (λ w o p. bit (bit_or w (2 ^ o)) p) (λ w o p. (p == o) || bit w p) refl

pub bit-clear :
    (w o p : ℕ)
    → w < 256
    → o < 8
    → p < 8
    → bit (bit_and w (0xff - 2 ^ o)) p ≡ (not (p == o) && bit w p)
unfolding all_below
bit-clear =
    byte_table (λ w o p. bit (bit_and w (0xff - 2 ^ o)) p) (λ w o p. not (p == o) && bit w p) refl

pub or-lt : (w o : ℕ) → w < 256 → o < 8 → bit_or w (2 ^ o) < 256
unfolding all_below
or-lt w o hw ho = ground (
  arith,
  byte_table (λ w o p. ltb (bit_or w (2 ^ o)) 256) (λ w o p. true) refl w o 0 hw ho (omega arith),
)

pub clear-lt : (w o : ℕ) → w < 256 → o < 8 → bit_and w (0xff - 2 ^ o) < 256
unfolding all_below
clear-lt w o hw ho = ground (
  arith,
  byte_table (λ w o p. ltb (bit_and w (0xff - 2 ^ o)) 256) (λ w o p. true) refl w o 0 hw ho
      (omega arith),
)

-- Setting a clear bit and clearing it again gives the byte back.
pub clear-or :
    (w o : ℕ) → w < 256 → o < 8 → bit w o ≡ false → bit_and (bit_or w (2 ^ o)) (0xff - 2 ^ o) ≡ w
unfolding all_below
clear-or w o hw ho free = ground (
  arith,
  byte_table (λ w o p. bit w o || (bit_and (bit_or w (2 ^ o)) (0xff - 2 ^ o) == w)) (λ w o p. true)
      refl w o 0 hw ho (omega arith),
  free,
)

-- A byte is 0xff exactly when all its bits are set.
pub bit-allbits : (p : ℕ) → p < 8 → bit 0xff p ≡ true
unfolding all_below
bit-allbits p hp =
    byte_table (λ w o p. bit 0xff p) (λ w o p. true) refl 0 0 p (omega arith) (omega arith) hp

pub bit-zero : (p : ℕ) → p < 8 → bit 0 p ≡ false
unfolding all_below
bit-zero p hp =
    byte_table (λ w o p. bit 0 p) (λ w o p. false) refl 0 0 p (omega arith) (omega arith) hp
