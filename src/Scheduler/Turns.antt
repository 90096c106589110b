-- ===== src/Scheduler/Turns.antt =====
-- Threads run in the order in which they were made runnable, and preallocation keeps its promise.
use os.Base.{
  ℕ, zero, suc, ◌+◌, ◌^◌, ◌≤◌, ◌<◌, Bool, true, false, List, [], ◌∷◌, ◌++◌, ltb, length,
  length-append, ◌≡◌, refl, sym, ap, subst, arith, Bool-cases, inl, inr,
}
use os.Base.Outcome.{ok, ◌>>=◌}
use os.Queue.{Queue, q_empty, q_destroy}
use os.Queue.Holds.{Holds, Holds-lt}
use os.Queue.Refine.{q_empty_iff, q_remhead-head, q_preallocate-Holds, q_addtail-room}
use os.Scheduler.{
  scheduler_preallocate, killall_loop, scheduler_killall, scheduler_shutdown, idle_loop, scheduler,
  make_runnable, make_all_runnable,
}

append_assoc {ℓ} :
    {A : Type ℓ} (xs : List A) (t : A) (ts : List A) → (xs ++ t ∷ []) ++ ts ≡ xs ++ t ∷ ts
append_assoc [] t ts = refl
append_assoc (x ∷ xs) t ts = ap (λ ys. x ∷ ys) (append_assoc xs t ts)

append_nil {ℓ} : {A : Type ℓ} (xs : List A) → xs ++ [] ≡ xs
append_nil [] = refl
append_nil (x ∷ xs) = ap (λ ys. x ∷ ys) (append_nil xs)

module _ {ℓ} {A : Type ℓ} where
  nonempty : {q : Queue A} {t : A} {ts : List A} → Holds q (t ∷ ts) → q_empty q ≡ false
  nonempty {q = q} h = elim (Bool-cases (q_empty q)) [
    | inl e ↦ ground (arith, (q_empty_iff h).0 e)
    | inr e ↦ e
  ]

  -- The number of times cpu_idle is called before a thread is ready, and the queue then.
  pub data Ready (cpu_idle : Queue A → Queue A) : Queue A → ℕ → A → List A → Type ℓ where
    now : {q : Queue A} {t : A} {ts : List A} → Holds q (t ∷ ts) → Ready cpu_idle q 0 t ts
    later :
        {q : Queue A} {n : ℕ} {t : A} {ts : List A}
        → Holds q []
        → Ready cpu_idle (cpu_idle q) n t ts
        → Ready cpu_idle q (suc n) t ts

  idle_loop-Ready :
      (cpu_idle : Queue A → Queue A) (q : Queue A) (n : ℕ) (t : A) (ts : List A)
      → Ready cpu_idle q n t ts
      → (r : Queue A) × (idle_loop cpu_idle (suc n) q ≡ ok r) × Holds r (t ∷ ts)
  unfolding idle_loop
  idle_loop-Ready cpu_idle q zero t ts (now h) = (q, rw (nonempty h) refl, h)
  idle_loop-Ready cpu_idle q (suc n) t ts (later h r) =
      let (r', e, h') = idle_loop-Ready cpu_idle (cpu_idle q) n t ts r in
      (r', rw ((q_empty_iff h).1 refl) e, h')

  -- When cpu_idle, called n times, makes threads ready, scheduler returns the first of them and
  -- leaves the others in order.
  pub scheduler-first :
      (cpu_idle : Queue A → Queue A) (spl : ℕ) (q : Queue A) (n : ℕ) (t : A) (ts : List A)
      → 0 < spl
      → Ready cpu_idle q n t ts
      → (r : Queue A) × (scheduler cpu_idle (suc n) spl q ≡ ok (t, r)) × Holds r ts
  unfolding scheduler
  scheduler-first cpu_idle spl q n t ts h ready =
      let off : ltb 0 spl ≡ true = ground (arith, h) in
      let (r, e, hr) = idle_loop-Ready cpu_idle q n t ts ready in
      let (r', e', hr') = q_remhead-head t ts hr in (r', rw (off, e) e', hr')

  make_all_runnable-room :
      (spl : ℕ) (mem : Bool) (q : Queue A) (xs ts : List A)
      → 0 < spl
      → Holds q xs
      → length xs + length ts < q.size
      → (r : Queue A) × (make_all_runnable spl mem q ts ≡ ok r) × Holds r (xs ++ ts)
  unfolding make_all_runnable make_runnable
  make_all_runnable-room spl mem q xs [] h hq room =
      (q, refl, subst (Holds q) (sym (append_nil xs)) hq)
  make_all_runnable-room spl mem q xs (t ∷ ts) h hq room =
      let off : ltb 0 spl ≡ true = ground (arith, h) in
      let (q', e, h', size) = q_addtail-room mem t xs hq (omega arith) in
      let (r, e', hr) =
        make_all_runnable-room spl mem q' (xs ++ t ∷ []) ts h h'
          (omega (arith, size, length-append xs (t ∷ []))) in
      (r, rw (off, e) e', subst (Holds r) (append_assoc xs t ts) hr)

  -- After scheduler_preallocate for at most 2^29 threads has found memory, fewer threads than that
  -- can be made runnable, those that are ready already included, and need no memory.
  pub preallocate-make_all_runnable :
      (spl nthreads : ℕ) (q : Queue A) (xs ts : List A)
      → 0 < spl
      → Holds q xs
      → nthreads ≤ 2 ^ 29
      → length xs + length ts < nthreads
      → (r : Queue A) × ((scheduler_preallocate spl true q nthreads >>= λ q'.
            make_all_runnable spl false q' ts)
          ≡ ok r)
        × Holds r (xs ++ ts)
  unfolding scheduler_preallocate
  preallocate-make_all_runnable spl nthreads q xs ts h hq small few =
      let off : ltb 0 spl ≡ true = ground (arith, h) in
      let (q', e, h', enough) = q_preallocate-Holds nthreads q xs hq small in
      let (r, e', hr) = make_all_runnable-room spl false q' xs ts h h' (omega (arith, enough)) in
      (r, rw (off, e) e', hr)

  killall_loop-empty :
      (fuel : ℕ) (q : Queue A) (xs : List A)
      → Holds q xs
      → length xs < fuel
      → (r : Queue A) × (killall_loop fuel q ≡ ok r) × Holds r []
  unfolding killall_loop
  killall_loop-empty zero q xs h few = absurd (omega arith)
  killall_loop-empty (suc fuel) q [] h few = (q, rw ((q_empty_iff h).1 refl) refl, h)
  killall_loop-empty (suc fuel) q (x ∷ xs) h few =
      let (q', e, h') = q_remhead-head x xs h in
      let (r, e', hr) = killall_loop-empty fuel q' xs h' (omega arith) in
      (r, rw (nonempty h, e) e', hr)

  -- With interrupts off, scheduler_shutdown drops every thread, whatever the run queue holds, and
  -- destroys the empty queue without a panic.
  pub scheduler_shutdown-ok :
      (spl : ℕ) (q : Queue A) (xs : List A)
      → 0 < spl
      → Holds q xs
      → scheduler_shutdown spl q ≡ ok tt
  unfolding scheduler_shutdown scheduler_killall q_destroy
  scheduler_shutdown-ok spl q xs h hq =
      let off : ltb 0 spl ≡ true = ground (arith, h) in
      let (r, e, hr) = killall_loop-empty q.size q xs hq (Holds-lt hq) in
      rw (off, e, (q_empty_iff hr).1 refl) refl
