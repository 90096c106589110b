-- ===== src/Array/Slots.antt =====
-- The loops of array.c over the slots.
use os.Base.{
  ℕ, zero, suc, ◌+◌, ◌*◌, ◌^◌, ◌≤◌, ◌<◌, true, false, Option, some, List, ltb, length, get_elem?,
  set, ◌≡◌, refl, sym, ap, ◌∙◌, arith, Bool-cases, inl, inr, length-set, get_elem?-set_self,
  get_elem?-set_ne, get_elem?-of_lt, subst, ==_iff, ◌==◌,
}
use os.Base.Outcome.{ok, ◌>>=◌, deref}
use native.Mathlib.Nat.{pow-suc}
use os.Array.{max_loop, read_slot, write_slot, copy_slots, move_down}

-- With enough doublings to reach the target, the loop ends and does not overflow.
pub max_loop-ok :
    (fuel nguys newmax : ℕ)
    → nguys + 2 ≤ (newmax + 2) * 2 ^ fuel
    → nguys < 2 ^ 29
    → newmax < 2 ^ 30
    → (result : ℕ) × (max_loop (suc fuel) nguys newmax ≡ ok result)
      × (nguys ≤ result)
      × (newmax ≤ result)
      × (result < 2 ^ 30)
unfolding max_loop
max_loop-ok zero nguys newmax enough small less =
    let done : ltb newmax nguys ≡ false = ground arith in
    (newmax, rw (done) refl, omega arith, omega arith, less)
max_loop-ok (suc fuel) nguys newmax enough small less = elim (Bool-cases (ltb newmax nguys)) [
  | inr done ↦ (newmax, rw (done) refl, ground arith, omega arith, less)
  | inl more ↦
      let fits : nguys + 2 ≤ ((newmax + 1) * 2 + 2) * 2 ^ fuel =
        omega (arith, ap (λ (t : ℕ). (newmax + 2) * t) (pow-suc 2 fuel)) in
      let below : newmax < nguys = ground arith in
      let fine : ltb ((newmax + 1) * 2) (2 ^ 31) ≡ true = ground arith in
      let (r, e, h1, h2, h3) = max_loop-ok fuel nguys ((newmax + 1) * 2) fits small (omega arith) in
      (r, rw (more, fine) e, h1, omega arith, h3)
]

module _ {ℓ} {A : Type ℓ} where
  pub read_slot-ok :
      (vs : List (Option A)) (i : ℕ)
      → i < length vs
      → (slot : Option A) × (read_slot vs i ≡ ok slot) × (get_elem? vs i ≡ some slot)
  unfolding read_slot
  read_slot-ok vs i h = let r = get_elem?-of_lt vs i h in (r.0, ap deref r.1, r.1)

  pub write_slot-ok :
      (vs : List (Option A)) (i : ℕ) (slot : Option A)
      → i < length vs
      → write_slot vs i slot ≡ ok (set vs i slot)
  unfolding write_slot
  write_slot-ok vs i slot h = ground (arith, h)

  same_set :
      (i : ℕ) (slot : Option A) (old newv : List (Option A))
      → i < length newv
      → get_elem? old i ≡ some slot
      → ((k : ℕ) → k < i → get_elem? newv k ≡ get_elem? old k)
      → (k : ℕ) → k < i + 1
      → get_elem? (set newv i slot) k ≡ get_elem? old k
  same_set i slot old newv h f same k l = elim (Bool-cases (i == k)) [
    | inl q ↦
        subst (λ j. get_elem? (set newv i slot) j ≡ get_elem? old j) ((==_iff i k).0 q)
          (get_elem?-set_self newv i slot h ∙ sym f)
    | inr q ↦ get_elem?-set_ne newv i k slot (ground arith) ∙ same k (ground arith)
  ]

  -- What copying leaves: slots below the upper end are the old ones.
  pub copy_slots-ok :
      (left i : ℕ) (old newv : List (Option A))
      → i + left ≤ length old
      → i + left ≤ length newv
      → ((k : ℕ) → k < i → get_elem? newv k ≡ get_elem? old k)
      → (vs : List (Option A)) × (copy_slots left i old newv ≡ ok vs)
        × (length vs ≡ length newv)
        × ((k : ℕ) → k < i + left → get_elem? vs k ≡ get_elem? old k)
  unfolding copy_slots
  copy_slots-ok zero i old newv ho hn same = (newv, refl, refl, λ k h. same k (omega arith))
  copy_slots-ok (suc left) i old newv ho hn same =
      let (slot, e, f) = read_slot-ok old i (omega arith) in
      let w = write_slot-ok newv i slot (omega arith) in
      let (vs, run, len, rest) =
        copy_slots-ok left (i + 1) old (set newv i slot) (omega arith)
          (omega (arith, length-set newv i slot)) (same_set i slot old newv (omega arith) f same) in
      (
        vs,
        ap (λ o. o >>= λ x. write_slot newv i x >>= copy_slots left (i + 1) old) e
            ∙ (ap (λ o. o >>= copy_slots left (i + 1) old) w ∙ run),
        len ∙ length-set newv i slot,
        λ k h. rest k (omega arith),
      )

  -- What moving down leaves: the slots from the index on are those one further up.
  pub move_down-ok :
      (nmove index : ℕ) (vs : List (Option A))
      → index + nmove < length vs
      → (ws : List (Option A)) × (move_down nmove index vs ≡ ok ws)
        × (length ws ≡ length vs)
        × ((k : ℕ) → k < index → get_elem? ws k ≡ get_elem? vs k)
        × ((k : ℕ) → index ≤ k → k < index + nmove → get_elem? ws k ≡ get_elem? vs (k + 1))
  unfolding move_down
  move_down-ok zero index vs h = (vs, refl, refl, λ k e. refl, λ k e f. absurd (omega arith))
  move_down-ok (suc nmove) index vs h =
      let (slot, e, f) = read_slot-ok vs (index + 1) (omega arith) in
      let w = write_slot-ok vs index slot (omega arith) in
      let (ws, run, len, below, above) =
        move_down-ok nmove (index + 1) (set vs index slot)
          (omega (arith, length-set vs index slot)) in
      (
        ws,
        ap (λ o. o >>= λ x. write_slot vs index x >>= move_down nmove (index + 1)) e
            ∙ (ap (λ o. o >>= move_down nmove (index + 1)) w ∙ run),
        len ∙ length-set vs index slot,
        (λ k h. below k (omega arith) ∙ get_elem?-set_ne vs index k slot (λ g. omega (arith, g))),
        λ k g0 l. elim (Bool-cases (index == k)) [
          | inl q ↦
              let g : index ≡ k = (==_iff index k).0 q in
              subst (λ j. get_elem? ws j ≡ get_elem? vs (j + 1)) g
                (below index (omega arith)
                  ∙ (get_elem?-set_self vs index slot (omega arith) ∙ sym f))
          | inr q ↦
              above k (ground arith) (omega arith)
              ∙ get_elem?-set_ne vs index (k + 1) slot (λ g. omega (arith, g))
        ],
      )
