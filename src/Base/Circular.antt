-- ===== src/Base/Circular.antt =====
-- Indices that wrap around: i = (i + 1) % size.
use Prim.Native.Nat.{ℕ, suc, ◌+◌, ◌-◌, ◌%◌, ◌<◌}
use mathlib.Core.Path.{◌≡◌}
use mathlib.Core.Logic.{◌≢◌}
use native.Mathlib.Omega.{arith}
use os.Base.Tests.{leb, ◌==◌, if◌then◌else◌}

-- The index after `i`.
pub after_index : (i size : ℕ) → i < size → (i + 1) % size ≡ (if i + 1 == size then 0 else i + 1)
after_index i size h = grind arith

pub after-lt : (i size : ℕ) → i < size → (i + 1) % size < size
after-lt i size h = omega arith

pub after-ne : (i j size : ℕ) → i < size → j < size → i ≢ j → (i + 1) % size ≢ (j + 1) % size
after-ne i j size hi hj ne = ground (arith, after_index i size hi, after_index j size hj)

-- How many slots lie between the read index and the write index.
abbrev pub gap : ℕ → ℕ → ℕ → ℕ
gap size w r = if leb r w then w - r else w + size - r

pub gap_step :
    (size w r : ℕ) → r < size → w < size → r ≢ w → gap size w r ≡ suc (gap size w ((r + 1) % size))
gap_step size w r hr hw ne = ground (arith, after_index r size hr)

pub gap-lt : (size w r : ℕ) → r < size → w < size → gap size w r < size
gap-lt size w r hr hw = ground arith

pub gap_injective :
    (size w r s : ℕ) → r < size → s < size → w < size → gap size w r ≡ gap size w s → r ≡ s
gap_injective size w r s hr hs hw e = ground arith
