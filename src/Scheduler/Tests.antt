-- ===== src/Scheduler/Tests.antt =====
-- Each theorem at an input.
use os.Base.{ℕ, ◌≡◌, refl, none, some, [], ◌∷◌, arith}
use os.Base.Outcome.{ok}
use os.Queue.{Queue}
use os.Queue.Holds.{Holds, stop, step}
use os.Scheduler.{scheduler}
use os.Scheduler.Turns.{now, later, scheduler-first}

-- Threads 7 and 8 are ready, and the queue has one slot left.
abbrev two_ready : Queue ℕ
two_ready = record { size = 3; nextwrite = 2; nextread = 0; items = some 7 ∷ some 8 ∷ none ∷ [] }

two_ready-Holds : Holds two_ready (7 ∷ 8 ∷ [])
two_ready-Holds = record {
  pos = omega arith;
  read_lt = omega arith;
  write_lt = omega arith;
  slots = refl;
  run = step (omega arith) refl (step (omega arith) refl stop);
}

-- No thread is ready.
abbrev none_ready : Queue ℕ
none_ready = record { size = 3; nextwrite = 2; nextread = 2; items = some 7 ∷ some 8 ∷ none ∷ [] }

none_ready-Holds : Holds none_ready []
none_ready-Holds = record {
  pos = omega arith;
  read_lt = omega arith;
  write_lt = omega arith;
  slots = refl;
  run = stop;
}

-- An interrupt in cpu_idle makes 7 and 8 ready.
abbrev interrupt : Queue ℕ → Queue ℕ
interrupt q = two_ready

scheduler-first_example :
    (r : Queue ℕ) × (scheduler interrupt 2 15 none_ready ≡ ok (7, r)) × Holds r (8 ∷ [])
scheduler-first_example =
    scheduler-first interrupt 15 none_ready 1 7 (8 ∷ []) (omega arith)
      (later none_ready-Holds (now two_ready-Holds))
