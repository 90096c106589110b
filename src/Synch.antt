-- ===== src/Synch.antt =====
-- os161-1.11/kern/thread/synch.c: semaphores (Synch/Semaphore), and a lock with a condition
-- variable. Interrupts are off from the start of a function until it sleeps, so what a thread does
-- between two sleeps is one step. Threads are numbers. A queue is the list of what it holds, as
-- Queue/Refine has it; `mem` says whether q_addtail succeeds, whose result the code ignores.
pub mod Semaphore
pub mod Inv
pub mod Turns
pub mod Steps
pub mod Safety
pub mod Exclusion
pub mod Wakeup
pub mod Destroy
pub mod Lost
mod Tests
use os.Base.{
  ℕ, Bool, true, false, not, Option, none, some, List, [], ◌∷◌, ◌++◌, ◌==◌, if◌then◌else◌, ◌≡◌,
}
use os.Base.Outcome.{Outcome, ok, ◌>>=◌, ◌>>◌, assert}

-- Where a thread is: outside; in lock_acquire, runnable and about to test the owner; asleep in
-- lock_acquire; holding the lock; or asleep in cv_wait.
pub data Phase : Type 0 where
  outside acquiring blocked holding waiting : Phase

-- struct lock and struct cv, and the phase of every thread.
pub record System : Type 0 where
  pub owner : Option ℕ
  pub lock_queue : List ℕ
  pub cv_queue : List ℕ
  pub phase : ℕ → Phase

abbrev pub update : (ℕ → Phase) → ℕ → Phase → ℕ → Phase
update f t p j = if t == j then p else f j

-- q_addtail, with its result ignored.
abbrev pub enqueue : Bool → ℕ → List ℕ → List ℕ
enqueue mem t q = if mem then q ++ t ∷ [] else q

abbrev pub is_awake : Phase → Bool
is_awake blocked = false
is_awake waiting = false
is_awake _ = true

-- thread_wakeup on the thread's own address; both kinds of sleepers go on to test the owner.
abbrev pub woken : Phase → Phase
woken blocked = acquiring
woken waiting = acquiring
woken p = p

unfoldable pub thread_wakeup : ℕ → System → System
thread_wakeup t s = record s { phase = update s.phase t (woken (s.phase t)) }

unfoldable pub lock_do_i_hold : ℕ → System → Bool
lock_do_i_hold t s = elim s.owner [ none ↦ false | some u ↦ u == t ]

-- One turn of the loop of lock_acquire: take the lock, or queue up and sleep.
unfoldable pub acquire_turn : Bool → ℕ → System → System
acquire_turn mem t s = elim s.owner [
  | none ↦ record s { owner = some t; phase = update s.phase t holding }
  | some u ↦ record s { lock_queue = enqueue mem t s.lock_queue; phase = update s.phase t blocked }
]

-- lock_acquire up to its end or its first sleep, and from a sleep to its end or the next one.
unfoldable pub lock_acquire : Bool → ℕ → System → Outcome System
unfolding acquire_turn lock_do_i_hold
lock_acquire mem t s = do assert (not (lock_do_i_hold t s)); ok (acquire_turn mem t s)

unfoldable pub lock_release : ℕ → System → Outcome System
unfolding lock_do_i_hold thread_wakeup
lock_release t s = do
  assert (lock_do_i_hold t s)
  let s' = record s { owner = none; phase = update s.phase t outside }
  ok (elim s.lock_queue [ [] ↦ s' | w ∷ ws ↦ thread_wakeup w (record s' { lock_queue = ws }) ])

-- cv_wait up to its sleep; from there it goes on with lock_acquire.
unfoldable pub cv_wait : Bool → ℕ → System → Outcome System
unfolding lock_release
cv_wait mem t s = do
  s' ← lock_release t s
  ok (record s' { cv_queue = enqueue mem t s'.cv_queue; phase = update s'.phase t waiting })

-- Wakes the first waiting thread, if there is one.
unfoldable pub wake_first : System → System
unfolding thread_wakeup
wake_first s = elim s.cv_queue [ [] ↦ s | w ∷ ws ↦ thread_wakeup w (record s { cv_queue = ws }) ]

unfoldable pub cv_signal : Bool → ℕ → System → Outcome System
unfolding lock_release wake_first lock_acquire
cv_signal mem t s = do s' ← lock_release t s; lock_acquire mem t (wake_first s')

-- while (!q_empty(queue)) thread_wakeup(q_remhead(queue));
unfoldable pub wake_all : List ℕ → System → System
unfolding thread_wakeup
wake_all [] s = s
wake_all (w ∷ ws) s = wake_all ws (thread_wakeup w s)

unfoldable pub cv_broadcast : Bool → ℕ → System → Outcome System
unfolding lock_release wake_all lock_acquire
cv_broadcast mem t s = do
  s' ← lock_release t s
  lock_acquire mem t (wake_all s'.cv_queue (record s' { cv_queue = [] }))

abbrev pub is_free : Option ℕ → Bool
is_free none = true
is_free (some t) = false

-- q_empty.
abbrev pub is_empty : List ℕ → Bool
is_empty [] = true
is_empty (t ∷ q) = false

unfoldable pub lock_destroy : System → Outcome (Unit {0})
lock_destroy s = do assert (is_free s.owner); assert (is_empty s.lock_queue)

unfoldable pub cv_destroy : System → Outcome (Unit {0})
cv_destroy s = assert (is_empty s.cv_queue)

-- A thread that is not asleep makes a call. `Allowed` says which results q_addtail may have.
pub data Step (Allowed : Bool → Type 0) : System → System → Type 0 where
  acquire :
      {s s' : System} (t : ℕ) (mem : Bool)
      → Allowed mem
      → is_awake (s.phase t) ≡ true
      → lock_acquire mem t s ≡ ok s'
      → Step Allowed s s'
  release :
      {s s' : System} (t : ℕ)
      → is_awake (s.phase t) ≡ true
      → lock_release t s ≡ ok s'
      → Step Allowed s s'
  wait :
      {s s' : System} (t : ℕ) (mem : Bool)
      → Allowed mem
      → is_awake (s.phase t) ≡ true
      → cv_wait mem t s ≡ ok s'
      → Step Allowed s s'
  signal :
      {s s' : System} (t : ℕ) (mem : Bool)
      → Allowed mem
      → is_awake (s.phase t) ≡ true
      → cv_signal mem t s ≡ ok s'
      → Step Allowed s s'
  broadcast :
      {s s' : System} (t : ℕ) (mem : Bool)
      → Allowed mem
      → is_awake (s.phase t) ≡ true
      → cv_broadcast mem t s ≡ ok s'
      → Step Allowed s s'

-- lock_create and cv_create.
abbrev pub init : System
init = record { owner = none; lock_queue = []; cv_queue = []; phase = λ t. outside }

pub data Reach (Allowed : Bool → Type 0) (s : System) : System → Type 0 where
  here : Reach Allowed s s
  next : {s' s'' : System} → Reach Allowed s s' → Step Allowed s' s'' → Reach Allowed s s''

-- Every q_addtail succeeds; or any may fail.
abbrev pub Reliable : Bool → Type 0
Reliable mem = mem ≡ true

abbrev pub Lossy : Bool → Type 0
Lossy mem = Unit {0}
