-- ===== src/Queue/Refine.antt =====
-- The ring buffer refines a first-in first-out list.
use os.Base.{
  ℕ, suc, ◌+◌, ◌-◌, ◌%◌, ◌^◌, ◌≤◌, ◌<◌, ◌≡◌, refl, ◌≢◌, ◌↔◌, Bool, true, false, some, List, [], ◌∷◌,
  ◌++◌, arith, inl, inr, ◌==◌, ltb, length, Bool-cases,
}
use os.Base.Outcome.{ok, err, panic, enomem, ◌>>=◌}
use os.Queue.{
  Queue, kmalloc_slots, fetch, q_create, q_empty, q_grow, write_tail, addtail_rec, q_addtail,
  q_preallocate, q_remhead,
}
use os.Base.Circular.{after-lt}
use os.Queue.Holds.{stop, Holds, Run-head, empty_iff, Holds-lt, full_iff}
use os.Queue.Grow.{
  pushed, write_tail-pushed, pushed-Holds, addtail_rec-pushed, q_grow-Holds, length-kmalloc_slots,
  q_grow-enomem,
}

-- So many elements a queue may hold when one more is added.
abbrev pub max_elements : ℕ
max_elements = 2 ^ 29 - 1

module _ {ℓ} {A : Type ℓ} where
  -- When both allocations succeed, q_create returns a queue of the given size that holds nothing.
  pub q_create-Holds :
      (size : ℕ)
      → 0 < size
      → size < 2 ^ 30
      → (q : Queue A) × (q_create true true size ≡ some q) × Holds q [] × (q.size ≡ size)
  unfolding q_create
  q_create-Holds size pos small = (
    record { size = size; nextwrite = 0; nextread = 0; items = kmalloc_slots size },
    refl,
    record {
      pos = pos;
      read_lt = pos;
      write_lt = pos;
      slots = length-kmalloc_slots A size small;
      run = stop;
    },
    refl,
  )

  module _ {q : Queue A} where
    pub q_empty_iff : {xs : List A} → Holds q xs → (q_empty q ≡ true) ↔ (xs ≡ [])
    unfolding q_empty
    q_empty_iff h = empty_iff h.run

    full-addtail_rec :
        (depth : ℕ) (mem : Bool) (x : A) {xs : List A}
        → Holds q xs
        → length xs + 1 ≡ q.size
        → addtail_rec (suc depth) mem q x ≡ (
            q_grow (addtail_rec depth mem) mem q (q.size + 1) >>= λ q'.
            write_tail q' x ((q'.nextwrite + 1) % q'.size))
    unfolding addtail_rec
    full-addtail_rec depth mem x h full =
        let some_size : ltb 0 q.size ≡ true = ground (arith, h.pos) in
        let at_end : ((q.nextwrite + 1) % q.size == q.nextread) ≡ true =
          ground (arith, full_iff h) in
        rw (some_size, at_end)

    -- With memory at hand, q_addtail puts the element behind the others, whether or not the queue
    -- has to grow.
    pub q_addtail-append :
        (x : A) (xs : List A)
        → Holds q xs
        → length xs < max_elements
        → (q' : Queue A) × (q_addtail true q x ≡ ok q') × Holds q' (xs ++ x ∷ [])
    unfolding q_addtail
    q_addtail-append x xs h few = elim (Bool-cases (length xs + 1 == q.size)) [
      | inl full ↦
          let (q', grown, h', enough, _) =
            q_grow-Holds 0 (q.size + 1) q xs h (omega arith) (ground arith) in
          let room : length xs + 1 < q'.size = ground arith in
          (
            pushed q' x,
            rw (full-addtail_rec 1 true x h (ground arith), grown) (write_tail-pushed h' x),
            pushed-Holds h' x room,
          )
      | inr spare ↦
          let room : length xs + 1 < q.size = ground (arith, Holds-lt h) in
          (pushed q x, addtail_rec-pushed h 1 true x room, pushed-Holds h x room)
    ]

    -- Without memory, q_addtail fails with ENOMEM on a queue with one slot left, and on any other
    -- queue it puts the element behind the others.
    pub q_addtail-no_memory :
        (x : A) (xs : List A)
        → Holds q xs
        → length xs < max_elements
        → (length xs + 1 ≡ q.size → q_addtail false q x ≡ err enomem)
          × (length xs + 1 ≢ q.size
              → (q' : Queue A) × (q_addtail false q x ≡ ok q') × Holds q' (xs ++ x ∷ []))
    unfolding q_addtail
    q_addtail-no_memory x xs h few = (
      λ full.
          rw
            (
              full-addtail_rec 1 false x h full,
              q_grow-enomem (addtail_rec 1 false) (q.size + 1) q h.pos (ground arith),
            )
            refl,
      λ spare.
          let room : length xs + 1 < q.size = omega (arith, Holds-lt h) in
          (pushed q x, addtail_rec-pushed h 1 false x room, pushed-Holds h x room),
    )

    -- With more than one slot left q_addtail needs no memory, and the queue keeps its size.
    pub q_addtail-room :
        (mem : Bool) (x : A) (xs : List A)
        → Holds q xs
        → length xs + 1 < q.size
        → (q' : Queue A) × (q_addtail mem q x ≡ ok q')
          × Holds q' (xs ++ x ∷ [])
          × (q'.size ≡ q.size)
    unfolding q_addtail
    q_addtail-room mem x xs h room =
        (pushed q x, addtail_rec-pushed h 1 mem x room, pushed-Holds h x room, refl)

    -- q_remhead takes the first element off, and panics on an empty queue.
    pub q_remhead-head :
        (x : A) (xs : List A)
        → Holds q (x ∷ xs)
        → (q' : Queue A) × (q_remhead q ≡ ok (x, q')) × Holds q' xs
    unfolding q_remhead q_empty fetch
    q_remhead-head x xs h =
        let (ne, e, run) = Run-head h.run in
        let some_size : ltb 0 q.size ≡ true = ground (arith, h.pos) in
        let more : (q.nextwrite == q.nextread) ≡ false = ground arith in
        (
          record q { nextread = (q.nextread + 1) % q.size },
          rw (some_size, more, e) refl,
          record {
            pos = h.pos;
            read_lt = after-lt q.nextread q.size h.read_lt;
            write_lt = h.write_lt;
            slots = h.slots;
            run = run;
          },
        )

    pub q_remhead-panic : Holds q [] → q_remhead q ≡ panic
    unfolding q_remhead
    q_remhead-panic h =
        let some_size : ltb 0 q.size ≡ true = ground (arith, h.pos) in
        rw (some_size, (q_empty_iff h).1 refl) refl

  -- With memory at hand, q_preallocate makes room for the size asked for and keeps the elements.
  pub q_preallocate-Holds :
      (size : ℕ) (q : Queue A) (xs : List A)
      → Holds q xs
      → size ≤ 2 ^ 29
      → (q' : Queue A) × (q_preallocate true q size ≡ ok q') × Holds q' xs × (size ≤ q'.size)
  unfolding q_preallocate q_addtail
  q_preallocate-Holds size q xs h small = elim (Bool-cases (ltb q.size size)) [
    | inl less ↦
        let some_size : ltb 0 q.size ≡ true = ground (arith, h.pos) in
        let (q', grown, h', enough, _) = q_grow-Holds 1 size q xs h (ground arith) small in
        (q', rw (some_size, less) grown, h', enough)
    | inr enough ↦
        let some_size : ltb 0 q.size ≡ true = ground (arith, h.pos) in
        (q, rw (some_size, enough) refl, h, ground arith)
  ]
