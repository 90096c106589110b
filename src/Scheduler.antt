-- ===== src/Scheduler.antt =====
-- os161-1.11/kern/thread/scheduler.c: the run queue. `spl` is the interrupt level and `mem` says
-- whether kmalloc finds memory; cpu_idle is a parameter, since what it lets happen to the run queue
-- is up to the interrupts.
pub mod Turns
mod Tests
use os.Base.{ℕ, zero, suc, Bool, Option, none, some, List, [], ◌∷◌, ltb, if◌then◌else◌}
use os.Base.Outcome.{Outcome, ok, panic, out_of_fuel, ◌>>=◌, ◌>>◌, assert}
use os.Queue.{Queue, q_create, q_preallocate, q_empty, q_remhead, q_destroy, q_addtail}

module _ {ℓ} {A : Type ℓ} where
  pub scheduler_bootstrap : Bool → Bool → Outcome (Queue A)
  scheduler_bootstrap mem_queue mem_data = elim (q_create {A = A} mem_queue mem_data 32) [
    | none ↦ panic
    | some q ↦ ok q
  ]

  pub scheduler_preallocate : ℕ → Bool → Queue A → ℕ → Outcome (Queue A)
  scheduler_preallocate spl mem runqueue nthreads = do
    assert (ltb 0 spl)
    q_preallocate mem runqueue nthreads

  -- while (!q_empty(runqueue)) { t = q_remhead(runqueue); ... }
  pub killall_loop : ℕ → Queue A → Outcome (Queue A)
  killall_loop zero runqueue = out_of_fuel
  killall_loop (suc fuel) runqueue =
      let rest : Outcome (Queue A) = q_remhead runqueue >>= λ r. killall_loop fuel r.1 in
      if q_empty runqueue then ok runqueue else rest

  -- A queue holds fewer elements than it has slots.
  pub scheduler_killall : ℕ → Queue A → Outcome (Queue A)
  scheduler_killall spl runqueue = do assert (ltb 0 spl); killall_loop runqueue.size runqueue

  pub scheduler_shutdown : ℕ → Queue A → Outcome (Unit {0})
  scheduler_shutdown spl runqueue = do
    empty ← scheduler_killall spl runqueue
    assert (ltb 0 spl)
    q_destroy empty

  -- while (q_empty(runqueue)) cpu_idle();
  pub idle_loop : (Queue A → Queue A) → ℕ → Queue A → Outcome (Queue A)
  idle_loop cpu_idle zero runqueue = out_of_fuel
  idle_loop cpu_idle (suc fuel) runqueue =
      let rest = idle_loop cpu_idle fuel (cpu_idle runqueue) in
      if q_empty runqueue then rest else ok runqueue

  pub scheduler : (Queue A → Queue A) → ℕ → ℕ → Queue A → Outcome (A × Queue A)
  scheduler cpu_idle fuel spl runqueue = do
    assert (ltb 0 spl)
    ready ← idle_loop cpu_idle fuel runqueue
    q_remhead ready

  pub make_runnable : ℕ → Bool → Queue A → A → Outcome (Queue A)
  make_runnable spl mem runqueue t = do assert (ltb 0 spl); q_addtail mem runqueue t

  -- One thread after the other is made runnable.
  pub make_all_runnable : ℕ → Bool → Queue A → List A → Outcome (Queue A)
  make_all_runnable spl mem runqueue [] = ok runqueue
  make_all_runnable spl mem runqueue (t ∷ ts) = do
    runqueue' ← make_runnable spl mem runqueue t
    make_all_runnable spl mem runqueue' ts
