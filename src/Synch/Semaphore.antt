-- ===== src/Synch/Semaphore.antt =====
-- os161-1.11/kern/thread/synch.c: sem_create, P and V. Interrupts are off but for the sleep, so one
-- turn of the loop of P and the whole of V are each one step.
use os.Base.{
  ℕ, suc, ◌+◌, ◌-◌, ◌^◌, ◌<◌, Bool, true, false, not, List, [], ◌∷◌, ◌++◌, ◌==◌, ltb, if◌then◌else◌,
  ◌≡◌, arith, refl, sym, ap, ◌∙◌, subst, Bool-cases, inl, inr, Option, none, some,
}
use os.Synch.{is_empty}
use os.Base.Outcome.{Outcome, ok, fault, ◌>>◌, assert, value}

-- struct semaphore, with the threads that sleep on its address.
pub record Semaphore : Type 0 where
  pub count : ℕ
  pub sleepers : List ℕ

-- What a turn of P comes to: the thread is through, or asleep.
pub data Turn : Type 0 where
  through asleep : Turn

-- kmalloc and kstrdup succeed as the two arguments say; an int that is negative fails the assertion
-- and is not a ℕ.
unfoldable pub sem_create : Bool → Bool → ℕ → Option Semaphore
sem_create memory name_memory initial_count =
    if memory
    then (if name_memory then some (record { count = initial_count; sleepers = [] }) else none)
    else none

unfoldable pub p_turn : Bool → ℕ → Semaphore → Outcome (Turn × Semaphore)
p_turn in_interrupt t s =
    assert (not in_interrupt)
    >> (if s.count == 0
        then ok (asleep, record s { sleepers = s.sleepers ++ t ∷ [] })
        else assert (ltb 0 s.count) >> ok (through, record s { count = s.count - 1 }))

-- The count is an int: past the largest one C leaves the sum undefined.
unfoldable pub v : Semaphore → Outcome Semaphore
v s =
    if ltb (s.count + 1) (2 ^ 31)
    then assert (ltb 0 (s.count + 1)) >> ok (record { count = s.count + 1; sleepers = [] })
    else fault

unfoldable pub sem_destroy : Semaphore → Outcome (Unit {0})
sem_destroy s = assert (is_empty s.sleepers)

-- What may happen to a semaphore that starts at k: `ps` times a thread got through P, and `vs` times
-- V was called. A thread that was woken takes its turn again.
pub data Run (k : ℕ) : ℕ → ℕ → Semaphore → Type 0 where
  start : {s : Semaphore} → sem_create true true k ≡ some s → Run k 0 0 s
  passes :
      {ps vs : ℕ} {s s' : Semaphore} (t : ℕ)
      → Run k ps vs s
      → p_turn false t s ≡ ok (through, s')
      → Run k (suc ps) vs s'
  sleeps :
      {ps vs : ℕ} {s s' : Semaphore} (t : ℕ)
      → Run k ps vs s
      → p_turn false t s ≡ ok (asleep, s')
      → Run k ps vs s'
  wakes : {ps vs : ℕ} {s s' : Semaphore} → Run k ps vs s → v s ≡ ok s' → Run k ps (suc vs) s'

p_turn-asleep :
    (t : ℕ) (s : Semaphore)
    → s.count ≡ 0
    → p_turn false t s ≡ ok (asleep, record s { sleepers = s.sleepers ++ t ∷ [] })
unfolding p_turn
p_turn-asleep t s e = rw (e) refl

p_turn-through :
    (t : ℕ) (s : Semaphore)
    → 0 < s.count
    → p_turn false t s ≡ ok (through, record s { count = s.count - 1 })
unfolding p_turn
p_turn-through t s h =
    let pos : ltb 0 s.count ≡ true = ground arith in
    let ne : (s.count == 0) ≡ false = ground arith in rw (ne, pos) refl

v_below :
    (s : Semaphore)
    → ltb (s.count + 1) (2 ^ 31) ≡ true
    → v s ≡ ok (record { count = s.count + 1; sleepers = [] })
unfolding v
v_below s e = let pos : ltb 0 (s.count + 1) ≡ true = ground arith in rw (e, pos) refl

v_above : (s : Semaphore) → ltb (s.count + 1) (2 ^ 31) ≡ false → v s ≡ fault
unfolding v
v_above s e = rw (e) refl

v_result :
    (s s' : Semaphore)
    → ok (record { count = s.count + 1; sleepers = [] }) ≡ ok s'
    → (s'.count ≡ s.count + 1) × (s'.sleepers ≡ [])
v_result s s' h =
    let e = ap (value s') h in (ap (λ r. r.count) (sym e), ap (λ r. r.sleepers) (sym e))

v-ok : (s s' : Semaphore) → v s ≡ ok s' → (s'.count ≡ s.count + 1) × (s'.sleepers ≡ [])
unfolding v
v-ok s s' h = elim (Bool-cases (ltb (s.count + 1) (2 ^ 31))) [
  | inl e ↦ v_result s s' (sym (v_below s e) ∙ h)
  | inr e ↦ ground (arith, sym (v_above s e) ∙ h)
]

-- What a semaphore keeps: units are neither lost nor made, and nobody sleeps while there is one.
pub record IsBalanced (k ps vs : ℕ) (s : Semaphore) : Type 0 where
  pub balance : s.count + ps ≡ k + vs
  pub no_sleeper : 0 < s.count → s.sleepers ≡ []

passes-IsBalanced :
    (k ps vs t : ℕ) (s s' : Semaphore)
    → IsBalanced k ps vs s
    → p_turn false t s ≡ ok (through, s')
    → IsBalanced k (suc ps) vs s'
passes-IsBalanced k ps vs t s s' b h = elim (Bool-cases (s.count == 0)) [
  | inl e ↦ ground (
    arith,
    ap (λ o. (value {A = Turn × Semaphore} (asleep, s') o).0)
        (sym (p_turn-asleep t s (ground arith)) ∙ h),
  )
  | inr e ↦
      let pos : 0 < s.count = ground arith in
      let q =
        ap (λ o. (value {A = Turn × Semaphore} (asleep, s') o).1)
          (sym (p_turn-through t s pos) ∙ h) in
      subst (IsBalanced k (suc ps) vs) q
        (record { balance = omega (arith, b.balance); no_sleeper = λ g. b.no_sleeper pos })
]

sleeps-IsBalanced :
    (k ps vs t : ℕ) (s s' : Semaphore)
    → IsBalanced k ps vs s
    → p_turn false t s ≡ ok (asleep, s')
    → IsBalanced k ps vs s'
sleeps-IsBalanced k ps vs t s s' b h = elim (Bool-cases (s.count == 0)) [
  | inl e ↦
      let z : s.count ≡ 0 = ground arith in
      let q =
        ap (λ o. (value {A = Turn × Semaphore} (through, s') o).1)
          (sym (p_turn-asleep t s z) ∙ h) in
      subst (IsBalanced k ps vs) q
        (record { balance = b.balance; no_sleeper = λ g. ground (arith, g, z) })
  | inr e ↦ ground (
    arith,
    ap (λ o. (value {A = Turn × Semaphore} (asleep, s') o).0)
        (sym (p_turn-through t s (ground arith)) ∙ h),
  )
]

abbrev some_or : Semaphore → Option Semaphore → Semaphore
some_or s none = s
some_or s (some r) = r

sem_create-IsBalanced :
    (k : ℕ) (s : Semaphore) → sem_create true true k ≡ some s → IsBalanced k 0 0 s
unfolding sem_create
sem_create-IsBalanced k s h =
    subst (IsBalanced k 0 0) (ap (some_or s) h)
      (record { balance = omega arith; no_sleeper = λ g. refl })

-- When a semaphore that started at k let ps calls of P through and V was called vs times, its count
-- and ps add up to k and vs, and nobody sleeps on it while the count is above 0.
pub Run-IsBalanced : (k ps vs : ℕ) (s : Semaphore) → Run k ps vs s → IsBalanced k ps vs s
Run-IsBalanced k ps vs s (start h) = sem_create-IsBalanced k s h
Run-IsBalanced k (suc ps) vs s (passes t r h) =
    passes-IsBalanced k ps vs t _ s (Run-IsBalanced k ps vs _ r) h
Run-IsBalanced k ps vs s (sleeps t r h) =
    sleeps-IsBalanced k ps vs t _ s (Run-IsBalanced k ps vs _ r) h
Run-IsBalanced k ps (suc vs) s (wakes r h) =
    let b = Run-IsBalanced k ps vs _ r in
    let q = v-ok _ s h in record { balance = omega (arith, b.balance, q.0); no_sleeper = λ g. q.1 }

-- A semaphore with a count above 0 can be destroyed, whatever happened to it.
pub Run-sem_destroy :
    (k ps vs : ℕ) (s : Semaphore) → Run k ps vs s → 0 < s.count → sem_destroy s ≡ ok tt
unfolding sem_destroy
Run-sem_destroy k ps vs s r h =
    ap (λ q. assert (is_empty q)) ((Run-IsBalanced k ps vs s r).no_sleeper h)
