-- ===== src/Kheap/Only.antt =====
-- The pagerefs of one type, when one is added or removed.
use os.Base.{
  Bool, ℕ, ◌≡◌, ◌≢◌, inl, inr, refl, ap, ◌∙◌, true, false, arith, ◌==◌, List, [], ◌∷◌, Bool-cases,
  ==_iff,
}
use os.Kheap.{change}
use os.Kheap.Blocks.{has}
use os.Kheap.Chain.{remove}
use os.Kheap.Refs.{Distinct, has_of_remove}
use os.Kheap.Invariant.{only, has-only}
use os.Kheap.Chain.{change-other}

pub only-change :
    (kind : ℕ → ℕ) (p b c : ℕ) (xs : List ℕ)
    → has p xs ≡ false
    → only (change kind p b) c xs ≡ only kind c xs
only-change kind p b c [] out = refl
only-change kind p b c (x ∷ xs) out =
    let e = change-other kind p b x (ground (arith, out)) in
    let ih = only-change kind p b c xs (ground (arith, out)) in rw (e, ih) refl

pub clash : {b : Bool} → b ≡ true → b ≡ false → ⊥
clash t f = ground (arith, t, f)

pub only-out :
    (kind : ℕ → ℕ) (b p : ℕ) (xs : List ℕ) → has p xs ≡ false → has p (only kind b xs) ≡ false
only-out kind b p xs out = elim (Bool-cases (has p (only kind b xs))) [
  | inl m ↦ let (h, k) = has-only kind b p xs m in ground (arith, out, h)
  | inr m ↦ m
]

pub remove-has : (p q : ℕ) (xs : List ℕ) → p ≢ q → has q xs ≡ true → has q (remove p xs) ≡ true
remove-has p q [] ne m = ground (arith, m)
remove-has p q (x ∷ xs) ne m = elim (Bool-cases (x == p)) [
  | inl t ↦ rw t (ground (arith, m, t, ne))
  | inr t ↦ elim (Bool-cases (q == x)) [
    | inl u ↦ rw t (ground (arith, u))
    | inr u ↦ rw t (ground (arith, u, remove-has p q xs ne (ground (arith, m, u))))
  ]
]

pub removed-out : (p : ℕ) (xs : List ℕ) → Distinct xs → has p (remove p xs) ≡ false
removed-out p xs d = elim (Bool-cases (has p (remove p xs))) [
  | inl m ↦ let (here, ne) = has_of_remove p p xs d m in absurd (ne refl)
  | inr m ↦ m
]

pub only-remove_same :
    (kind : ℕ → ℕ) (b p : ℕ) (xs : List ℕ)
    → kind p ≡ b
    → only kind b (remove p xs) ≡ remove p (only kind b xs)
only-remove_same kind b p [] k = refl
only-remove_same kind b p (x ∷ xs) k = elim (Bool-cases (x == p)) [
  | inl t ↦
      let same : (kind x == b) ≡ true = (==_iff (kind x) b).1 (ap kind ((==_iff x p).0 t) ∙ k) in
      rw (t, same, t) refl
  | inr t ↦ elim (Bool-cases (kind x == b)) [
    | inl u ↦ rw (t, u, t, only-remove_same kind b p xs k) refl
    | inr u ↦ rw (t, u, only-remove_same kind b p xs k) refl
  ]
]

pub only-remove_other :
    (kind : ℕ → ℕ) (b p : ℕ) (xs : List ℕ) → kind p ≢ b → only kind b (remove p xs) ≡ only kind b xs
only-remove_other kind b p [] k = refl
only-remove_other kind b p (x ∷ xs) k = elim (Bool-cases (x == p)) [
  | inl t ↦
      let other : (kind x == b) ≡ false = ground (arith, k, ap kind ((==_iff x p).0 t)) in
      rw (t, other) refl
  | inr t ↦ rw (t, only-remove_other kind b p xs k) refl
]
