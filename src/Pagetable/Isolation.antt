-- ===== src/Pagetable/Isolation.antt =====
-- No page is mapped twice, and no page of the table itself is mapped; what that means for the pages
-- that pt_get_paddr hands out.
use os.Base.{ℕ, ◌+◌, ◌*◌, ◌<◌, ◌≡◌, ◌≢◌, sym, ap, ◌∙◌, arith, inl, inr}
use os.Coremap.{page_size}
use os.Pagetable.{Machine, idx_count}
use os.Pagetable.Words.{kaddr, IsPermissions}
use os.Pagetable.Tables.{IsPagetable}
use os.Pagetable.Tables.{page_role, slot_paddr, translate}
use os.Pagetable.Frame.{translate-free, translate-table}
use os.Pagetable.Place.{slot-word}
use os.Base.{Bool-cases, ◌==◌, ==_iff, ◌%◌, ◌/◌, ◌^◌, ◌↔◌, true, subst}
use os.Base.Outcome.{Outcome, ok, value}
use os.Pagetable.{pt_get_paddr}
use os.Pagetable.Mapped.{up, low}
use os.Pagetable.Assign.{Assigned, OldOrNew, Mapped, mapped, no_memory, pt_get_paddr-Mapped}

module _ (role : ℕ → ℕ) (root : ℕ) (m : Machine) (h : IsPagetable role root m) where
  mapped-role :
      (i j page p : ℕ)
      → i < idx_count
      → j < idx_count
      → IsPermissions p
      → translate m.words root i j ≡ page * page_size + p
      → role page ≡ page_role i j
  mapped-role i j page p hi hj legal e = elim (h.entries i hi) [
    | inl f ↦ omega (arith, sym (translate-free m.words root i j f) ∙ e, legal.whole)
    | inr (k, t) ↦
        let at = translate-table m.words root i j k t.word_eq in
        elim (t.slots j hj) [
          | inl f ↦
              let none_there : slot_paddr (m.words (kaddr k + 4 * j)) ≡ 1 = ground (arith, f) in
              omega (arith, sym (at ∙ none_there) ∙ e, legal.whole)
          | inr (x, q, s) ↦
              let there = at ∙ (ap slot_paddr s.word_eq ∙ slot-word x q s.legal) in
              let same : x ≡ page = omega (arith, sym there ∙ e, legal.below, s.legal.below) in
              sym (ap role same) ∙ s.role_eq
        ]
  ]

  -- Two addresses of a well-formed page table that are mapped to the same page lie in the same page.
  pub translate_injective :
      (i j i' j' page p p' : ℕ)
      → i < idx_count
      → j < idx_count
      → i' < idx_count
      → j' < idx_count
      → IsPermissions p
      → IsPermissions p'
      → translate m.words root i j ≡ page * page_size + p
      → translate m.words root i' j' ≡ page * page_size + p'
      → (i ≡ i') × (j ≡ j')
  translate_injective i j i' j' page p p' hi hj hi' hj' l l' e e' =
      let r = mapped-role i j page p hi hj l e in
      let r' = mapped-role i' j' page p' hi' hj' l' e' in
      (omega (arith, r, r'), omega (arith, r, r'))

  -- The pages of the page table itself are mapped nowhere.
  pub tables-unmapped :
      (i j page p : ℕ)
      → i < idx_count
      → j < idx_count
      → IsPermissions p
      → translate m.words root i j ≡ page * page_size + p
      → (page ≢ root) × ((i' : ℕ) → i' < idx_count → m.words (kaddr root + 4 * i') ≢ kaddr page + 2)
  tables-unmapped i j page p hi hj l e =
      let r = mapped-role i j page p hi hj l e in
      (
        (λ z. omega (arith, r, ap role z, h.root_role)),
        λ i' hi' w. elim (h.entries i' hi') [
          | inl f ↦ omega (arith, f, w)
          | inr (k, t) ↦
              let same : k ≡ page = omega (arith, t.word_eq, w) in
              omega (arith, r, sym (ap role same) ∙ t.role_eq)
        ],
      )

-- What a call that returns left.
record Returned (root i j q a : ℕ) (m m1 : Machine) : Type 0 where
  page : ℕ
  p : ℕ
  address : a / 4 * 4 ≡ page * page_size + p
  legal : IsPermissions p
  assigned : Assigned root i j page p m m1
  origin : OldOrNew root i j q page p m

returned :
    (root i j q a : ℕ) (m m1 : Machine) (r : Outcome (ℕ × Machine))
    → Mapped root i j q m r
    → r ≡ ok (a, m1)
    → Returned root i j q a m m1
returned root i j q a m m1 _ (mapped {paddr} {page} {p} {m'} pa even legal new which) e =
    let pair : ◌≡◌ {A = ℕ × Machine} (paddr, m') (a, m1) =
      ap (value {A = ℕ × Machine} (paddr, m')) e in
    let same_a : paddr ≡ a = ap (λ (x : ℕ × Machine). x.0) pair in
    let same_m : m' ≡ m1 = ap (λ (x : ℕ × Machine). x.1) pair in
    record {
      page = page;
      p = p;
      address = omega (arith, pa, same_a);
      legal = legal;
      assigned = subst (λ x. Assigned root i j page p m x) same_m new;
      origin = which;
    }
returned root i j q a m m1 _ (no_memory few) e = ground (arith, e)

module _ (root i j i' j' q a b : ℕ) (m m1 m2 : Machine) (hi : i < idx_count) (hj : j < idx_count)
    (hi' : i' < idx_count) (hj' : j' < idx_count) (x : Returned root i j q a m m1)
    (y : Returned root i' j' q b m1 m2) where
  returned_frames : (a / page_size ≡ x.page) × (b / page_size ≡ y.page)
  returned_frames =
      (omega (arith, x.address, x.legal.below), omega (arith, y.address, y.legal.below))

  same_slot : a / page_size ≡ b / page_size → ¬ (¬ ((i' ≡ i) × (j' ≡ j)))
  same_slot e ne =
      let (role, h) = y.assigned.well_formed in
      let there : translate m2.words root i j ≡ x.page * page_size + x.p =
        y.assigned.others i j hi hj ne ∙ x.assigned.there in
      let same : y.page ≡ x.page = sym returned_frames.1 ∙ sym e ∙ returned_frames.0 in
      let (si, sj) =
        translate_injective role root m2 h i' j' i j x.page y.p x.p hi' hj' hi hj y.legal x.legal
          (y.assigned.there ∙ ap (λ z. z * page_size + y.p) same) there in
      ne (si, sj)

  same_frame : i' ≡ i → j' ≡ j → a / page_size ≡ b / page_size
  same_frame ei ej =
      let there : translate m1.words root i' j' ≡ x.page * page_size + x.p =
        ap (λ z. translate m1.words root z j') ei
        ∙ ap (translate m1.words root i) ej
        ∙ x.assigned.there in
      elim y.origin [
        | inl old ↦ omega (
          arith,
          returned_frames.0,
          returned_frames.1,
          sym there ∙ old,
          x.legal.below,
          y.legal.below,
        )
        | inr (none_there, u, g) ↦ absurd (omega (arith, sym there ∙ none_there, x.legal.whole))
      ]

index_lt : (v d : ℕ) → v / d % 1024 < idx_count
index_lt v d = omega arith

page_of :
    (v w : ℕ)
    → v < 2 ^ 32
    → w < 2 ^ 32
    → up w ≡ up v
    → low w ≡ low v
    → v / page_size ≡ w / page_size
page_of v w hv hw e f = omega (arith, hv, hw, e, f)

-- On a well-formed page table, with leave to create and legal permissions, when a call of
-- pt_get_paddr for one address and then one for a second return, they give the same page of memory
-- exactly when the addresses lie in the same page.
pub pt_get_paddr-same_page :
    (space root v w q a b : ℕ) (role : ℕ → ℕ) (m m1 m2 : Machine)
    → IsPagetable role root m
    → IsPermissions q
    → v < 2 ^ 32
    → w < 2 ^ 32
    → pt_get_paddr space (kaddr root) v true q m ≡ ok (a, m1)
    → pt_get_paddr space (kaddr root) w true q m1 ≡ ok (b, m2)
    → (a / page_size ≡ b / page_size) ↔ (v / page_size ≡ w / page_size)
pt_get_paddr-same_page space root v w q a b role m m1 m2 h legal hv hw e f =
    let x =
      returned root (up v) (low v) q a m m1 _ (pt_get_paddr-Mapped space root v role m h q legal)
        e in
    let (role1, h1) = x.assigned.well_formed in
    let y =
      returned root (up w) (low w) q b m1 m2 _
        (pt_get_paddr-Mapped space root w role1 m1 h1 q legal) f in
    let hi = index_lt v 0x40_0000 in
    let hj = index_lt v 0x1000 in
    let hi' = index_lt w 0x40_0000 in
    let hj' = index_lt w 0x1000 in
    (
      λ same. elim (Bool-cases (v / page_size == w / page_size)) [
        | inl t ↦ (==_iff _ _).0 t
        | inr t ↦ absurd (
            same_slot root (up v) (low v) (up w) (low w) q a b m m1 m2 hi hj hi' hj' x y same
              (λ s. ground (arith, t, page_of v w hv hw s.0 s.1)))
      ],
      λ same.
          same_frame root (up v) (low v) (up w) (low w) q a b m m1 m2 hi hj hi' hj' x y
            (omega (arith, same)) (omega (arith, same)),
    )
