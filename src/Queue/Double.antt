-- ===== src/Queue/Double.antt =====
-- The loop of q_grow that doubles the size.
use native.Mathlib.Nat.{pow-suc}
use os.Base.{ℕ, zero, suc, ◌*◌, ◌^◌, ◌≤◌, ◌<◌, ◌≡◌, refl, ap, ◌⊎◌, inl, inr, arith, ltb, Bool-cases}
use os.Base.Outcome.{ok}
use os.Queue.{double_until}

-- The size that the loop ends with.
pub record Doubled (target nsize result : ℕ) : Type 0 where
  pub enough : target ≤ result
  pub least : (result ≡ nsize) ⊎ (result < 2 * target)
  pub grows : nsize ≤ result

double_step :
    (target nsize result : ℕ)
    → nsize < target
    → Doubled target (nsize * 2) result
    → Doubled target nsize result
double_step target nsize result h d = ground arith

-- With `2 ^ fuel` times the size above the target, the loop ends and does not overflow.
pub double_until-ok :
    (fuel target nsize : ℕ)
    → 0 < nsize
    → target ≤ nsize * 2 ^ fuel
    → target ≤ 2 ^ 30
    → (result : ℕ) × (double_until (suc fuel) target nsize ≡ ok result)
      × Doubled target nsize result
unfolding double_until
double_until-ok zero target nsize pos fuel small =
    let big : target ≤ nsize = omega (arith, fuel) in
    (nsize, ground arith, record { enough = big; least = inl refl; grows = omega arith })
double_until-ok (suc fuel) target nsize pos enough small = elim (Bool-cases (ltb nsize target)) [
  | inl less ↦
      let fits : target ≤ (nsize * 2) * 2 ^ fuel =
        omega (arith, ap (λ (t : ℕ). nsize * t) (pow-suc 2 fuel)) in
      let (result, e, d) = double_until-ok fuel target (nsize * 2) (omega arith) fits small in
      (result, ground (arith, e), double_step target nsize result (ground arith) d)
  | inr done ↦
      (nsize, rw done refl, record { enough = ground arith; least = inl refl; grows = omega arith })
]
