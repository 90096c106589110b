-- ===== src/Synch/Tests.antt =====
-- Runs of a lock with a condition variable and of a semaphore, and each theorem at an input.
use os.Base.{ℕ, true, false, none, some, [], ◌∷◌, ◌⊎◌, ◌≡◌, refl}
use os.Base.Outcome.{ok}
use os.Synch.{
  System, outside, acquiring, blocked, holding, waiting, update, acquire_turn, lock_do_i_hold,
  lock_acquire, lock_release, cv_wait, cv_signal, acquire, release, wait, Reliable, init, Reach,
  here, next,
}
use os.Synch.Inv.{IsConsistent}
use os.Synch.Safety.{Step-IsConsistent, init-IsConsistent, Reach-IsConsistent}
use os.Synch.Exclusion.{WakesOne, Reach-exclusion, Reach-no_lost_wakeup}
use os.Synch.Wakeup.{cv_signal-wakes}
use os.Synch.Lost.{IsForgotten, Reach-IsForgotten}
use os.Synch.Semaphore.{
  Semaphore, sem_create, p_turn, v, Run, start, passes, sleeps, wakes, IsBalanced, Run-IsBalanced,
}

-- Thread 7 has the lock.
abbrev taken : System
taken = record {
  owner = some 7;
  lock_queue = [];
  cv_queue = [];
  phase = update (λ t. outside) 7 holding;
}

take_7 : lock_acquire true 7 init ≡ ok taken
unfolding lock_acquire lock_do_i_hold acquire_turn
take_7 = refl

-- Thread 7 waits.
abbrev waited : System
waited = record {
  owner = none;
  lock_queue = [];
  cv_queue = 7 ∷ [];
  phase = update (update taken.phase 7 outside) 7 waiting;
}

wait_7 : cv_wait true 7 taken ≡ ok waited
unfolding cv_wait lock_release lock_do_i_hold
wait_7 = refl

-- And thread 5 has the lock.
abbrev handed : System
handed = record {
  owner = some 5;
  lock_queue = [];
  cv_queue = 7 ∷ [];
  phase = update waited.phase 5 holding;
}

take_5 : lock_acquire true 5 waited ≡ ok handed
unfolding lock_acquire lock_do_i_hold acquire_turn
take_5 = refl

-- And thread 9 sleeps on it.
abbrev contended : System
contended = record {
  owner = some 5;
  lock_queue = 9 ∷ [];
  cv_queue = 7 ∷ [];
  phase = update handed.phase 9 blocked;
}

block_9 : lock_acquire true 9 handed ≡ ok contended
unfolding lock_acquire lock_do_i_hold acquire_turn
block_9 = refl

Reach-handed : Reach Reliable init handed
Reach-handed =
    next (next (next here (acquire 7 true refl refl take_7)) (wait 7 true refl refl wait_7))
      (acquire 5 true refl refl take_5)

Reach-contended : Reach Reliable init contended
Reach-contended = next Reach-handed (acquire 9 true refl refl block_9)

Step-IsConsistent_example : IsConsistent taken
Step-IsConsistent_example =
    Step-IsConsistent init taken init-IsConsistent (acquire 7 true refl refl take_7)

Reach-exclusion_example : ◌≡◌ {A = ℕ} 5 5
Reach-exclusion_example = Reach-exclusion contended 5 5 Reach-contended refl refl

Reach-no_lost_wakeup_example :
    ((t : ℕ) × WakesOne t contended) ⊎ ((t : ℕ) × (contended.phase t ≡ acquiring))
Reach-no_lost_wakeup_example = Reach-no_lost_wakeup contended 9 Reach-contended refl

cv_signal-wakes_example :
    (s' : System) × (cv_signal true 5 contended ≡ ok s')
    × (s'.owner ≡ some 5)
    × (s'.cv_queue ≡ [])
    × (s'.phase 7 ≡ acquiring)
cv_signal-wakes_example =
    cv_signal-wakes true 5 7 [] contended
      ((Reach-IsConsistent init-IsConsistent Reach-contended).agrees) refl refl

-- Thread 9 asks for the lock that 7 has, and q_addtail has no memory; then 7 gives it up.
abbrev forgotten : System
forgotten = record {
  owner = some 7;
  lock_queue = [];
  cv_queue = [];
  phase = update taken.phase 9 blocked;
}

forget_9 : lock_acquire false 9 taken ≡ ok forgotten
unfolding lock_acquire lock_do_i_hold acquire_turn
forget_9 = refl

abbrev free_again : System
free_again = record {
  owner = none;
  lock_queue = [];
  cv_queue = [];
  phase = update forgotten.phase 7 outside;
}

free_7 : lock_release 7 forgotten ≡ ok free_again
unfolding lock_release lock_do_i_hold
free_7 = refl

Reach-IsForgotten_example : IsForgotten 9 free_again
Reach-IsForgotten_example =
    Reach-IsForgotten 9 forgotten free_again
      (record { asleep = refl; not_blocked = refl; not_waiting = refl })
      (next here (release 7 refl free_7))

-- Of one unit, 3 takes it, 4 sleeps, and V wakes 4.
abbrev one_unit : Semaphore
one_unit = record { count = 1; sleepers = [] }

run : Run 1 1 1 one_unit
unfolding sem_create p_turn v
run =
    wakes
      (sleeps {s' = record { count = 0; sleepers = 4 ∷ [] }} 4
        (passes {s' = record { count = 0; sleepers = [] }} 3 (start {s = one_unit} refl) refl) refl)
      refl

Run-IsBalanced_example : IsBalanced 1 1 1 one_unit
Run-IsBalanced_example = Run-IsBalanced 1 1 1 one_unit run
