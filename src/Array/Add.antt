-- ===== src/Array/Add.antt =====
-- array_add puts an element behind the others.
use os.Base.{
  ◌+◌, ◌^◌, ◌<◌, Bool, true, false, Option, some, List, [], ◌∷◌, ◌++◌, ltb, leb, length, get_elem?,
  set, ◌≡◌, ◌≢◌, refl, sym, ◌∙◌, arith, Bool-cases, inl, inr, length-set, get_elem?-set_self,
  get_elem?-set_ne, subst, ==_iff, ◌==◌, length-append,
}
use os.Base.Outcome.{ok, err, enomem}
use os.Array.{Array, slots, write_slot, array_preallocate, array_setsize, array_add}
use os.Array.Slots.{max_loop-ok, write_slot-ok}
use os.Array.Refine.{Holds, array_preallocate-Holds, get_elem?-append, get_elem?-append_end}

module _ {ℓ} {A : Type ℓ} where
  -- Writing the element where there is room.
  store-Holds :
      (a : Array A) (xs : List (Option A)) (guy : A)
      → Holds a xs
      → a.num < a.max
      → Holds
          (record a { num = a.num + 1; v = some (set (slots a.v) a.num (some guy)) })
          (xs ++ some guy ∷ [])
  store-Holds a xs guy h l = record {
    num_eq = omega (arith, h.num_eq, length-append xs (some guy ∷ []));
    num_le = omega arith;
    max_lt = h.max_lt;
    room = length-set (slots a.v) a.num (some guy) ∙ h.room;
    same = λ k g. elim (Bool-cases (a.num == k)) [
      | inl q ↦
          subst
            (λ j.
              get_elem? (set (slots a.v) a.num (some guy)) j ≡ get_elem? (xs ++ some guy ∷ []) j)
            ((==_iff a.num k).0 q)
            (get_elem?-set_self (slots a.v) a.num (some guy) (omega (arith, h.room))
              ∙ subst (λ j. some (some guy) ≡ get_elem? (xs ++ some guy ∷ []) j) (sym h.num_eq)
                  (sym (get_elem?-append_end xs (some guy))))
      | inr q ↦
          get_elem?-set_ne (slots a.v) a.num k (some guy) (ground arith)
          ∙ (h.same k (ground arith)
              ∙ sym (get_elem?-append xs (some guy ∷ []) k (ground (arith, h.num_eq))))
    ];
  }

  -- With room for one more, array_add asks for no memory.
  add_inside :
      (mem : Bool) (a : Array A) (xs : List (Option A)) (guy : A)
      → Holds a xs
      → a.num < a.max
      → (a' : Array A) × (array_add mem a guy ≡ ok a') × Holds a' (xs ++ some guy ∷ [])
  unfolding array_add array_setsize
  add_inside mem a xs guy h l =
      let fits : leb a.num a.max ≡ true = ground arith in
      let inside : ltb a.max (a.num + 1) ≡ false = ground arith in
      let some_left : (a.num + 1 == 0) ≡ false = ground arith in
      let w = write_slot-ok (slots a.v) a.num (some guy) (omega (arith, h.room)) in
      (
        record a { num = a.num + 1; v = some (set (slots a.v) a.num (some guy)) },
        rw (fits, inside, some_left, w) refl,
        store-Holds a xs guy h l,
      )

  add_grown :
      (a : Array A) (xs : List (Option A)) (guy : A)
      → Holds a xs
      → a.num ≡ a.max
      → a.num + 1 < 2 ^ 29
      → (a' : Array A) × (array_add true a guy ≡ ok a') × Holds a' (xs ++ some guy ∷ [])
  unfolding array_add array_setsize
  add_grown a xs guy h l less =
      let fits : leb a.num a.max ≡ true = ground arith in
      let full : ltb a.max (a.num + 1) ≡ true = ground arith in
      let (b, e, hb, big, same_num) = array_preallocate-Holds a xs (a.num + 1) h less in
      let w : write_slot (slots b.v) a.num (some guy) ≡ ok (set (slots b.v) a.num (some guy)) =
        write_slot-ok (slots b.v) a.num (some guy) (omega (arith, hb.room, big)) in
      (
        record b { num = a.num + 1; v = some (set (slots b.v) a.num (some guy)) },
        rw (fits, full, e, w) refl,
        subst
            (λ n.
              Holds (record b { num = n + 1; v = some (set (slots b.v) n (some guy)) })
                (xs ++ some guy ∷ []))
            same_num (store-Holds b xs guy hb (omega (arith, big, same_num))),
      )

  -- With fewer than 2^29 - 1 elements and memory at hand, array_add puts the element behind the
  -- others.
  pub array_add-append :
      (a : Array A) (xs : List (Option A)) (guy : A)
      → Holds a xs
      → length xs + 1 < 2 ^ 29
      → (a' : Array A) × (array_add true a guy ≡ ok a') × Holds a' (xs ++ some guy ∷ [])
  array_add-append a xs guy h less = elim (Bool-cases (ltb a.num a.max)) [
    | inl l ↦ add_inside true a xs guy h (ground arith)
    | inr l ↦ add_grown a xs guy h (ground (arith, h.num_le)) (omega (arith, h.num_eq))
  ]

  -- With fewer than 2^29 - 1 elements and no memory, array_add fails with ENOMEM on an array whose
  -- slots are all used, and otherwise puts the element behind the others.
  pub array_add-no_memory :
      (a : Array A) (xs : List (Option A)) (guy : A)
      → Holds a xs
      → length xs + 1 < 2 ^ 29
      → (a.num ≡ a.max → array_add false a guy ≡ err enomem)
        × (a.num ≢ a.max
            → (a' : Array A) × (array_add false a guy ≡ ok a') × Holds a' (xs ++ some guy ∷ []))
  unfolding array_add array_setsize array_preallocate
  array_add-no_memory a xs guy h less = (
    (λ l.
        let fits : leb a.num a.max ≡ true = ground arith in
        let full : ltb a.max (a.num + 1) ≡ true = ground arith in
        let (newmax, e, _, _, _) =
          max_loop-ok 31 (a.num + 1) a.max (omega arith) (omega (arith, h.num_eq)) h.max_lt in
        rw (fits, full, e) refl),
    λ ne. add_inside false a xs guy h (omega (arith, h.num_le)),
  )
