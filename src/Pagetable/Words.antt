-- ===== src/Pagetable/Words.antt =====
-- Words of a table and their flags.
use os.Base.{ℕ, zero, suc, ◌+◌, ◌*◌, ◌/◌, ◌%◌, ◌<◌, ◌≡◌, ◌≢◌, refl, ◌∙◌, true, false, arith, ◌==◌}
use os.Base.Outcome.{ok}
use os.Coremap.{page_size}
use os.Pagetable.{
  Machine, page_free, page_in_mem, update, fill_words, get_offset, get_value, set_value,
  get_page_state_by_value, kernel_base,
}

-- The kernel address of a page.
abbrev pub kaddr : ℕ → ℕ
kaddr page = kernel_base + page * page_size

-- Permissions are made of PAGE_W_MASK, PAGE_R_MASK and PAGE_X_MASK.
pub record IsPermissions (permissions : ℕ) : Type 0 where
  pub below : permissions < 32
  pub whole : permissions % 4 ≡ 0

-- The word of a page in memory.
abbrev pub page_word : ℕ → ℕ → ℕ
page_word page permissions = page * page_size + 2 + permissions

pub fill_outside :
    (left a v : ℕ) (words : ℕ → ℕ) (b : ℕ)
    → ((k : ℕ) → k < left → a + 4 * k ≢ b)
    → fill_words left a v words b ≡ words b
unfolding fill_words
fill_outside zero a v words b h = refl
fill_outside (suc left) a v words b h =
    fill_outside left (a + 4) v (update words a v) b
      (λ k l e. h (suc k) (omega (arith, l)) (omega (arith, e)))
    ∙ ground (arith, h 0 (omega arith))

pub fill_inside :
    (left a v : ℕ) (words : ℕ → ℕ) (k : ℕ) → k < left → fill_words left a v words (a + 4 * k) ≡ v
unfolding fill_words
fill_inside zero a v words k h = absurd (omega arith)
fill_inside (suc left) a v words zero h =
    let start : a + 4 * 0 ≡ a = omega arith in
    rw (start)
      (fill_outside left (a + 4) v (update words a v) a (λ k l e. omega (arith, e)) ∙ ground arith)
fill_inside (suc left) a v words (suc k) h =
    let next : a + 4 * suc k ≡ a + 4 + 4 * k = omega arith in
    rw (next) (fill_inside left (a + 4) v (update words a v) k (omega arith))

pub state-free : (w : ℕ) → w % 2 ≡ 1 → get_page_state_by_value w ≡ page_free
unfolding get_page_state_by_value
state-free w h = ground (arith, h)

pub state-mem : (w : ℕ) → w % 4 ≡ 2 → get_page_state_by_value w ≡ page_in_mem
unfolding get_page_state_by_value
state-mem w h =
    let odd : (w % 2 == 1) ≡ false = ground (arith, h) in
    let second : (w / 2 % 2 == 1) ≡ true = ground (arith, h) in rw (odd, second) refl

pub get_value-ok :
    (page offset : ℕ) (m : Machine)
    → get_value (kaddr page) offset m ≡ ok (m.words (kaddr page + 4 * offset))
unfolding get_value
get_value-ok page offset m =
    let whole : (kaddr page % 4 == 0) ≡ true = ground arith in rw (whole) refl

pub set_value-ok :
    (page offset value : ℕ) (m : Machine)
    → set_value (kaddr page) offset value m
      ≡ ok (record m { words = update m.words (kaddr page + 4 * offset) value })
unfolding set_value
set_value-ok page offset value m =
    let whole : (kaddr page % 4 == 0) ≡ true = ground arith in rw (whole) refl

pub get_offset-lt : (vaddr shift : ℕ) → get_offset vaddr shift < 1024
unfolding get_offset
get_offset-lt vaddr shift = omega arith
