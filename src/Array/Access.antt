-- ===== src/Array/Access.antt =====
-- array_getguy and array_setguy read and write one element.
use os.Base.{
  ℕ, ◌≤◌, ◌<◌, true, false, Option, some, List, ltb, leb, length, get_elem?, set, ◌≡◌, refl, sym,
  ap, ◌∙◌, arith, Bool-cases, inl, inr, length-set, get_elem?-set_self, get_elem?-set_ne, subst,
  ==_iff, ◌==◌,
}
use os.Base.Outcome.{ok, panic, deref}
use os.Array.{Array, slots, read_slot, array_getguy, array_setguy}
use os.Array.Slots.{write_slot-ok}
use os.Array.Refine.{Holds}

module _ {ℓ} {A : Type ℓ} where
  -- array_getguy gives the element at an index, and panics out of range.
  pub array_getguy-Holds :
      (a : Array A) (xs : List (Option A)) (index : ℕ)
      → Holds a xs
      → (index < length xs → array_getguy a index ≡ deref (get_elem? xs index))
        × (length xs ≤ index → array_getguy a index ≡ panic)
  unfolding array_getguy read_slot
  array_getguy-Holds a xs index h =
      let fits : leb a.num a.max ≡ true = ground (arith, h.num_le) in
      (
        (λ l.
            let inside : ltb index a.num ≡ true = ground (arith, h.num_eq, l) in
            rw (fits, inside) (ap deref (h.same index (omega (arith, h.num_eq))))),
        λ l.
            let outside : ltb index a.num ≡ false = ground (arith, h.num_eq, l) in
            rw (fits, outside) refl,
      )

  get_elem?-set_both :
      (vs xs : List (Option A)) (i k : ℕ) (x : Option A)
      → i < length vs
      → i < length xs
      → get_elem? vs k ≡ get_elem? xs k
      → get_elem? (set vs i x) k ≡ get_elem? (set xs i x) k
  get_elem?-set_both vs xs i k x h l e = elim (Bool-cases (i == k)) [
    | inl q ↦
        subst (λ j. get_elem? (set vs i x) j ≡ get_elem? (set xs i x) j) ((==_iff i k).0 q)
          (get_elem?-set_self vs i x h ∙ sym (get_elem?-set_self xs i x l))
    | inr q ↦
        get_elem?-set_ne vs i k x (ground arith)
        ∙ (e ∙ sym (get_elem?-set_ne xs i k x (ground arith)))
  ]

  -- array_setguy replaces the element at an index, and panics out of range.
  pub array_setguy-Holds :
      (a : Array A) (xs : List (Option A)) (index : ℕ) (ptr : A)
      → Holds a xs
      → (index < length xs
          → (a' : Array A) × (array_setguy a index ptr ≡ ok a')
            × Holds a' (set xs index (some ptr)))
        × (length xs ≤ index → array_setguy a index ptr ≡ panic)
  unfolding array_setguy
  array_setguy-Holds a xs index ptr h =
      let fits : leb a.num a.max ≡ true = ground (arith, h.num_le) in
      (
        (λ l.
            let inside : ltb index a.num ≡ true = ground (arith, h.num_eq, l) in
            let w =
              write_slot-ok (slots a.v) index (some ptr)
                (omega (arith, h.num_eq, h.room, h.num_le)) in
            (
              record a { v = some (set (slots a.v) index (some ptr)) },
              rw (fits, inside, w) refl,
              record {
                num_eq = h.num_eq ∙ sym (length-set xs index (some ptr));
                num_le = h.num_le;
                max_lt = h.max_lt;
                room = length-set (slots a.v) index (some ptr) ∙ h.room;
                same = λ k g.
                    get_elem?-set_both (slots a.v) xs index k (some ptr)
                      (omega (arith, h.num_eq, h.room, h.num_le)) l (h.same k g);
              },
            )),
        λ l.
            let outside : ltb index a.num ≡ false = ground (arith, h.num_eq, l) in
            rw (fits, outside) refl,
      )
