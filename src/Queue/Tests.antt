-- ===== src/Queue/Tests.antt =====
-- Runs of the ring buffer, and each theorem at an input.
use os.Base.{ℕ, ◌≡◌, refl, true, none, some, [], ◌∷◌, arith}
use os.Base.Outcome.{ok}
use os.Queue.{
  Queue, q_addtail, q_remhead, store, fetch, asserted, copy_loop, q_grow, write_tail, addtail_rec,
  double_until, kmalloc_slots,
}
use os.Queue.Holds.{Holds, stop, step}
use os.Queue.Refine.{q_addtail-append, q_remhead-head}

-- Three slots, the elements 7 and 8 in the last and the first: one more makes it grow.
abbrev wrapped : Queue ℕ
wrapped = record { size = 3; nextwrite = 1; nextread = 2; items = some 8 ∷ none ∷ some 7 ∷ [] }

wrapped-Holds : Holds wrapped (7 ∷ 8 ∷ [])
wrapped-Holds = record {
  pos = omega arith;
  read_lt = omega arith;
  write_lt = omega arith;
  slots = refl;
  run = step (omega arith) refl (step (omega arith) refl stop);
}

grows :
    q_addtail true wrapped 9
    ≡ ok (record {
      size = 6;
      nextwrite = 3;
      nextread = 0;
      items = some 7 ∷ some 8 ∷ some 9 ∷ none ∷ none ∷ none ∷ [];
    })
unfolding q_addtail addtail_rec q_grow double_until kmalloc_slots copy_loop write_tail store fetch
    asserted
grows = refl

q_addtail-append_example :
    (q : Queue ℕ) × (q_addtail true wrapped 9 ≡ ok q) × Holds q (7 ∷ 8 ∷ 9 ∷ [])
q_addtail-append_example = q_addtail-append 9 (7 ∷ 8 ∷ []) wrapped-Holds (omega arith)

q_remhead-head_example : (q : Queue ℕ) × (q_remhead wrapped ≡ ok (7, q)) × Holds q (8 ∷ [])
q_remhead-head_example = q_remhead-head 7 (8 ∷ []) wrapped-Holds
