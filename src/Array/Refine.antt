-- ===== src/Array/Refine.antt =====
-- An array is the list of its first `num` slots.
use os.Base.{
  ℕ, zero, suc, ◌+◌, ◌-◌, ◌*◌, ◌/◌, ◌%◌, ◌^◌, ◌≤◌, ◌<◌, true, false, Option, none, some, List, [],
  ◌∷◌, ◌++◌, ltb, leb, length, get_elem?, ◌≡◌, refl, sym, ap, ◌∙◌, arith, Bool-cases, inl, inr,
  length-replicate,
}
use os.Base.Outcome.{ok, panic}
use os.Array.{Array, slots, new_slots, array_preallocate, array_remove}
use os.Array.Slots.{max_loop-ok, copy_slots-ok, move_down-ok}

module _ {ℓ} {A : Type ℓ} where
  -- The list xs is in the array, which has room for fewer than 2^30 pointers.
  pub record Holds (a : Array A) (xs : List (Option A)) : Type ℓ where
    pub num_eq : a.num ≡ length xs
    pub num_le : a.num ≤ a.max
    pub max_lt : a.max < 2 ^ 30
    pub room : length (slots a.v) ≡ a.max
    pub same : (k : ℕ) → k < a.num → get_elem? (slots a.v) k ≡ get_elem? xs k

  -- What array_remove and array_add do to the list.
  abbrev pub remove : List (Option A) → ℕ → List (Option A)
  remove [] i = []
  remove (x ∷ xs) zero = xs
  remove (x ∷ xs) (suc i) = x ∷ remove xs i

  length-remove :
      (xs : List (Option A)) (i : ℕ) → i < length xs → length (remove xs i) ≡ length xs - 1
  length-remove [] i h = refl
  length-remove (x ∷ xs) zero h = omega arith
  length-remove (x ∷ xs) (suc i) h = omega (arith, length-remove xs i (omega arith))

  get_elem?-remove_below :
      (xs : List (Option A)) (i k : ℕ) → k < i → get_elem? (remove xs i) k ≡ get_elem? xs k
  get_elem?-remove_below [] i k h = refl
  get_elem?-remove_below (x ∷ xs) zero k h = absurd (omega arith)
  get_elem?-remove_below (x ∷ xs) (suc i) zero h = refl
  get_elem?-remove_below (x ∷ xs) (suc i) (suc k) h = get_elem?-remove_below xs i k (omega arith)

  get_elem?-remove_next :
      (xs : List (Option A)) (i k : ℕ) → i ≤ k → get_elem? (remove xs i) k ≡ get_elem? xs (suc k)
  get_elem?-remove_next [] i k h = refl
  get_elem?-remove_next (x ∷ xs) zero k h = refl
  get_elem?-remove_next (x ∷ xs) (suc i) zero h = absurd (omega arith)
  get_elem?-remove_next (x ∷ xs) (suc i) (suc k) h = get_elem?-remove_next xs i k (omega arith)

  get_elem?-remove_above :
      (xs : List (Option A)) (i k : ℕ) → i ≤ k → get_elem? (remove xs i) k ≡ get_elem? xs (k + 1)
  get_elem?-remove_above xs i k h =
      get_elem?-remove_next xs i k h ∙ ap (get_elem? xs) {x = suc k} {y = k + 1} (omega arith)

  pub get_elem?-append :
      (xs ys : List (Option A)) (k : ℕ) → k < length xs → get_elem? (xs ++ ys) k ≡ get_elem? xs k
  get_elem?-append [] ys k h = absurd (omega arith)
  get_elem?-append (x ∷ xs) ys zero h = refl
  get_elem?-append (x ∷ xs) ys (suc k) h = get_elem?-append xs ys k (omega arith)

  pub get_elem?-append_end :
      (xs : List (Option A)) (y : Option A) → get_elem? (xs ++ y ∷ []) (length xs) ≡ some y
  get_elem?-append_end [] y = refl
  get_elem?-append_end (x ∷ xs) y = get_elem?-append_end xs y

  -- array_remove takes the element at an index out and closes the gap; out of range it panics.
  pub array_remove-Holds :
      (a : Array A) (xs : List (Option A)) (index : ℕ)
      → Holds a xs
      → (index < length xs
          → (a' : Array A) × (array_remove a index ≡ ok a') × Holds a' (remove xs index))
        × (length xs ≤ index → array_remove a index ≡ panic)
  unfolding array_remove
  array_remove-Holds a xs index h =
      let fits : leb a.num a.max ≡ true = ground (arith, h.num_le) in
      (
        (λ l.
            let inside : ltb index a.num ≡ true = ground (arith, h.num_eq, l) in
            let (vs, run, len, below, above) =
              move_down-ok (a.num - (index + 1)) index (slots a.v)
                (omega (arith, h.num_eq, l, h.room, h.num_le)) in
            (
              record a { num = a.num - 1; v = some vs },
              rw (fits, inside, run) refl,
              record {
                num_eq = omega (arith, length-remove xs index l, h.num_eq);
                num_le = omega (arith, h.num_le);
                max_lt = h.max_lt;
                room = len ∙ h.room;
                same = λ k g. elim (Bool-cases (ltb k index)) [
                  | inl q ↦
                      below k (ground arith)
                      ∙ (h.same k (omega arith)
                          ∙ sym (get_elem?-remove_below xs index k (ground arith)))
                  | inr q ↦
                      above k (ground arith) (omega arith)
                      ∙ (h.same (k + 1) (omega arith)
                          ∙ sym (get_elem?-remove_above xs index k (ground arith)))
                ];
              },
            )),
        λ l.
            let outside : ltb index a.num ≡ false = ground (arith, h.num_eq, l) in
            rw (fits, outside) refl,
      )

  -- Growing keeps the list; the array has room for the size that is asked for.
  pub array_preallocate-Holds :
      (a : Array A) (xs : List (Option A)) (nguys : ℕ)
      → Holds a xs
      → nguys < 2 ^ 29
      → (a' : Array A) × (array_preallocate true a nguys ≡ ok a')
        × Holds a' xs
        × (nguys ≤ a'.max)
        × (a'.num ≡ a.num)
  unfolding array_preallocate new_slots
  array_preallocate-Holds a xs nguys h l =
      let fits : leb a.num a.max ≡ true = ground (arith, h.num_le) in
      let (newmax, e, enough, grows, less) = max_loop-ok 31 nguys a.max (omega arith) l h.max_lt in
      let len : length (new_slots {A = A} newmax) ≡ newmax =
        length-replicate {A = Option A} (newmax * 4 % 2 ^ 32 / 4) none ∙ omega arith in
      let (vs, run, vlen, same) =
        copy_slots-ok a.num 0 (slots a.v) (new_slots newmax) (omega (arith, h.room, h.num_le))
          (omega (arith, len, h.num_le)) (λ k g. absurd (omega arith)) in
      (
        record a { max = newmax; v = some vs },
        rw (fits, e, run) refl,
        record {
          num_eq = h.num_eq;
          num_le = omega (arith, h.num_le);
          max_lt = less;
          room = vlen ∙ len;
          same = λ k g. same k (omega arith) ∙ h.same k g;
        },
        enough,
        refl,
      )
