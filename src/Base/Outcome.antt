-- ===== src/Base/Outcome.antt =====
-- What a call of a kernel function comes to, with the error numbers of kern/include/kern/errno.h.
use mathlib.Core.Path.{◌≡◌, refl, ap}
use mathlib.Core.Bool.{Bool, true, false}
use native.Mathlib.Omega.{arith}
use mathlib.Core.Option.{Option, none, some}

-- kern/include/kern/errno.h, in the order of the header.
pub data Errno : Type 0 where
  einval efault enametoolong enomem eio enoent enotdir eisdir eexist exdev eagain espipe : Errno
  eunimp enxio enodev ebusy eioctl enotempty erange enospc emfile enfile enosys enoexec : Errno
  e2big ebadf : Errno

-- `panic` is a failed assertion or a call of panic(); `fault` is behaviour that C leaves undefined,
-- such as a read outside an allocation; `out_of_fuel` marks a loop that was cut off.
pub data Outcome {ℓ} (A : Type ℓ) : Type ℓ where
  ok : A → Outcome A
  err : Errno → Outcome A
  panic fault out_of_fuel : Outcome A

infixl 5 ◌>>=◌ ◌>>◌
abbrev pub ◌>>=◌ {ℓ κ} : {A : Type ℓ} {B : Type κ} → Outcome A → (A → Outcome B) → Outcome B
ok a >>= f = f a
err e >>= f = err e
panic >>= f = panic
fault >>= f = fault
out_of_fuel >>= f = out_of_fuel

abbrev pub ◌>>◌ {ℓ} : {B : Type ℓ} → Outcome (Unit {0}) → Outcome B → Outcome B
m >> k = m >>= λ _. k

-- The macro assert of kern/include/lib.h.
abbrev pub assert : Bool → Outcome (Unit {0})
assert true = ok tt
assert false = panic

-- The contents of a cell that must exist.
abbrev pub deref {ℓ} : {A : Type ℓ} → Option A → Outcome A
deref none = fault
deref (some a) = ok a

-- A result, or else a given value.
abbrev pub value {ℓ} : {A : Type ℓ} → A → Outcome A → A
value a (ok b) = b
value a _ = a

-- What returns behind an assertion had the assertion hold.
pub assert-ok {ℓ} :
    {A : Type ℓ} (b : Bool) (x y : A) → (assert b >> ok x) ≡ ok y → (b ≡ true) × (x ≡ y)
assert-ok true x y h = (refl, ap (value x) h)
assert-ok false x y h = ground arith

-- What two calls in a row return, each returns.
pub bind-ok {ℓ κ} :
    {A : Type ℓ} {B : Type κ} (m : Outcome A) (f : A → Outcome B) (y : B)
    → (m >>= f) ≡ ok y
    → (a : A) × (m ≡ ok a) × (f a ≡ ok y)
bind-ok (ok a) f y h = (a, refl, h)
bind-ok (err e) f y h = ground arith
bind-ok panic f y h = ground arith
bind-ok fault f y h = ground arith
bind-ok out_of_fuel f y h = ground arith
