-- ===== src/Queue/Grow.antt =====
-- Adding to a queue with room, and moving a queue into a larger allocation.
use os.Base.{
  ℕ, zero, suc, ◌+◌, ◌*◌, ◌/◌, ◌%◌, ◌^◌, ◌≤◌, ◌<◌, ◌≡◌, refl, sym, ◌∙◌, Bool, true, false, Option,
  none, some, List, [], ◌∷◌, ◌++◌, arith, ltb, ◌==◌, length, set, get_elem?-set_self, length-set,
  length-replicate, length-append,
}
use mathlib.Core.List.{append-nil, append_assoc}
use os.Base.Outcome.{Outcome, ok, err, enomem}
use os.Queue.{
  Queue, kmalloc_slots, store, fetch, asserted, copy_loop, q_grow, write_tail, addtail_rec,
}
use os.Base.Circular.{after-lt}
use os.Queue.Holds.{Run, stop, step, Run-set, Run-snoc, Holds, full_iff, Holds-lt}
use os.Queue.Double.{double_until-ok}

pub length-kmalloc_slots {ℓ} :
    (A : Type ℓ) (n : ℕ) → n < 2 ^ 30 → length (kmalloc_slots {A = A} n) ≡ n
unfolding kmalloc_slots
length-kmalloc_slots A n h =
    omega (arith, length-replicate {A = Option A} (n * 4 % 2 ^ 32 / 4) none)

module _ {ℓ} {A : Type ℓ} where
  -- The queue with one more element in the slot at the write index.
  abbrev pub pushed : Queue A → A → Queue A
  pushed q x = record q {
    items = set q.items q.nextwrite (some x);
    nextwrite = (q.nextwrite + 1) % q.size;
  }

  module _ {q : Queue A} {xs : List A} (h : Holds q xs) where
    pub write_tail-pushed : (x : A) → write_tail q x ((q.nextwrite + 1) % q.size) ≡ ok (pushed q x)
    unfolding write_tail store
    write_tail-pushed x =
        let inside : ltb q.nextwrite (length q.items) ≡ true =
          ground (arith, h.write_lt, h.slots) in
        rw inside

    pub pushed-Holds : (x : A) → length xs + 1 < q.size → Holds (pushed q x) (xs ++ x ∷ [])
    pushed-Holds x room = record {
      pos = h.pos;
      read_lt = h.read_lt;
      write_lt = after-lt q.nextwrite q.size h.write_lt;
      slots = length-set q.items q.nextwrite (some x) ∙ h.slots;
      run =
          Run-snoc x h.write_lt h.read_lt (λ e. absurd (omega (arith, (full_iff h).0 (sym e))))
            (get_elem?-set_self q.items q.nextwrite (some x) (omega (arith, h.slots, h.write_lt)))
            (Run-set (some x) h.run);
    }

    -- With a slot to spare, adding needs no memory.
    pub addtail_rec-pushed :
        (depth : ℕ) (mem : Bool) (x : A)
        → length xs + 1 < q.size
        → addtail_rec (suc depth) mem q x ≡ ok (pushed q x)
    unfolding addtail_rec
    addtail_rec-pushed depth mem x room =
        let some_size : ltb 0 q.size ≡ true = ground (arith, h.pos) in
        let not_full : ((q.nextwrite + 1) % q.size == q.nextread) ≡ false =
          ground (arith, full_iff h) in
        rw (some_size, not_full) (write_tail-pushed x)

  -- What the copying loop has after it moved the elements `ys`.
  pub record Copied (q : Queue A) (nsize : ℕ) (ys : List A) : Type ℓ where
    pub holds : Holds q ys
    pub same_size : q.size ≡ nsize

  copy_loop-Copied :
      (fuel depth : ℕ) (mem : Bool) {old : List (Option A)} {osize onw i nsize : ℕ} {ys : List A}
      (q : Queue A) (xs : List A)
      → Run old osize onw i ys
      → length ys < fuel
      → length xs + length ys < nsize
      → Copied q nsize xs
      → (q' : Queue A) × (copy_loop (addtail_rec (suc depth) mem) fuel old osize onw i q ≡ ok q')
        × Copied q' nsize (xs ++ ys)
  unfolding copy_loop fetch asserted
  copy_loop-Copied zero depth mem q xs run fuel room c = absurd (omega arith)
  copy_loop-Copied (suc fuel) depth mem {i} q xs stop enough room c =
      (q, ground arith, rw append-nil c)
  copy_loop-Copied (suc fuel) depth mem {osize} {onw} {i} {nsize} q xs (step {x} {xs = ys} ne e run)
        enough room c =
      let more : (i == onw) ≡ false = ground arith in
      let free : length xs + 1 < q.size = omega (arith, c.same_size) in
      let added = addtail_rec-pushed c.holds depth mem x free in
      let c' : Copied (pushed q x) nsize (xs ++ x ∷ []) = record {
        holds = pushed-Holds c.holds x free;
        same_size = c.same_size;
      } in
      let (q', done, c'') =
        copy_loop-Copied fuel depth mem (pushed q x) (xs ++ x ∷ []) run (omega arith)
          (omega (arith, length-append xs (x ∷ []))) c' in
      (q', rw (more, e, added) done, rw append_assoc at c'')

  pub q_grow-enomem :
      (add : Queue A → A → Outcome (Queue A)) (target : ℕ) (q : Queue A)
      → 0 < q.size
      → target ≤ 2 ^ 30
      → q_grow add false q target ≡ err enomem
  unfolding q_grow
  q_grow-enomem add target q pos small =
      let (nsize, doubled, d) = double_until-ok 31 target q.size pos (omega (arith, pos)) small in
      rw doubled

  -- Growing keeps the elements and their order, and gives at least the size asked for.
  pub q_grow-Holds :
      (depth target : ℕ) (q : Queue A) (xs : List A)
      → Holds q xs
      → q.size < target
      → target ≤ 2 ^ 29
      → (q' : Queue A) × (q_grow (addtail_rec (suc depth) true) true q target ≡ ok q')
        × Holds q' xs
        × (target ≤ q'.size)
        × (q'.size < 2 * target)
  unfolding q_grow
  q_grow-Holds depth target q xs h less small =
      let (nsize, doubled, d) =
        double_until-ok 31 target q.size h.pos (omega (arith, h.pos)) (omega arith) in
      let bounds : (target ≤ nsize) × (nsize < 2 * target) =
        (d.enough, ground (arith, d.least, d.enough)) in
      let empty : Queue A = record {
        size = nsize;
        nextwrite = 0;
        nextread = 0;
        items = kmalloc_slots nsize;
      } in
      let fresh : Copied empty nsize [] = record {
        holds = record {
          pos = omega arith;
          read_lt = omega arith;
          write_lt = omega arith;
          slots = length-kmalloc_slots A nsize (omega arith);
          run = stop;
        };
        same_size = refl;
      } in
      let (q', copied, c) =
        copy_loop-Copied (suc q.size) depth true empty [] h.run (omega (arith, Holds-lt h))
          (omega (arith, Holds-lt h)) fresh in
      (q', rw doubled copied, c.holds, omega (arith, c.same_size), omega (arith, c.same_size))
