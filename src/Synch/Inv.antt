-- ===== src/Synch/Inv.antt =====
-- When a lock and its condition variable agree with what the threads are doing.
use os.Base.{
  ℕ, ◌+◌, Bool, true, false, Option, none, some, List, [], ◌∷◌, ◌++◌, ◌==◌, if◌then◌else◌, ◌≡◌, ◌⊎◌,
  arith, refl,
}
use os.Synch.{System, Phase, outside, acquiring, blocked, holding, waiting, is_awake, woken}

abbrev pub is_holding : Phase → Bool
is_holding holding = true
is_holding _ = false

abbrev pub is_blocked : Phase → ℕ
is_blocked blocked = 1
is_blocked _ = 0

abbrev pub is_waiting : Phase → ℕ
is_waiting waiting = 1
is_waiting _ = 0

-- Whether thread t is the owner.
abbrev pub owns : Option ℕ → ℕ → Bool
owns none t = false
owns (some u) t = u == t

-- How often a thread stands in a queue.
abbrev pub occurs : ℕ → List ℕ → ℕ
occurs t [] = 0
occurs t (u ∷ q) = (if u == t then 1 else 0) + occurs t q

-- The owner is the one thread that holds the lock, and a thread stands in a queue exactly once
-- while it sleeps there.
pub record Agrees (s : System) : Type 0 where
  pub holder : (t : ℕ) → owns s.owner t ≡ is_holding (s.phase t)
  pub blocked_in : (t : ℕ) → occurs t s.lock_queue ≡ is_blocked (s.phase t)
  pub waiting_in : (t : ℕ) → occurs t s.cv_queue ≡ is_waiting (s.phase t)

-- And when threads sleep on a free lock, some thread is about to take it.
pub record IsConsistent (s : System) : Type 0 where
  pub agrees : Agrees s
  pub handoff : s.owner ≡ none → (s.lock_queue ≡ []) ⊎ ((t : ℕ) × (s.phase t ≡ acquiring))

-- A thread in none of the three places.
pub record IsIdle (p : Phase) : Type 0 where
  pub not_holding : is_holding p ≡ false
  pub not_blocked : is_blocked p ≡ 0
  pub not_waiting : is_waiting p ≡ 0

pub occurs-append :
    (t u : ℕ) (q : List ℕ) → occurs t (q ++ u ∷ []) ≡ occurs t q + (if u == t then 1 else 0)
occurs-append t u [] = omega arith
occurs-append t u (v ∷ q) = omega (arith, occurs-append t u q)

pub awake-IsIdle : (p : Phase) → is_awake p ≡ true → is_holding p ≡ false → IsIdle p
awake-IsIdle outside a h = record { not_holding = refl; not_blocked = refl; not_waiting = refl }
awake-IsIdle acquiring a h = record { not_holding = refl; not_blocked = refl; not_waiting = refl }
awake-IsIdle blocked a h = record {
  not_holding = refl;
  not_blocked = ground arith;
  not_waiting = refl;
}
awake-IsIdle holding a h = ground arith
awake-IsIdle waiting a h = ground arith

-- The thread at the head of a queue sleeps there, and stands in it only once.
pub head-is_blocked :
    (w : ℕ) (ws : List ℕ) (p : Phase)
    → occurs w (w ∷ ws) ≡ is_blocked p
    → (p ≡ blocked) × (occurs w ws ≡ 0)
head-is_blocked w ws outside h = ground arith
head-is_blocked w ws acquiring h = ground arith
head-is_blocked w ws blocked h = (refl, ground arith)
head-is_blocked w ws holding h = ground arith
head-is_blocked w ws waiting h = ground arith

pub head-is_waiting :
    (w : ℕ) (ws : List ℕ) (p : Phase)
    → occurs w (w ∷ ws) ≡ is_waiting p
    → (p ≡ waiting) × (occurs w ws ≡ 0)
head-is_waiting w ws outside h = ground arith
head-is_waiting w ws acquiring h = ground arith
head-is_waiting w ws blocked h = ground arith
head-is_waiting w ws holding h = ground arith
head-is_waiting w ws waiting h = (refl, ground arith)

pub woken-awake : (p : Phase) → is_awake (woken p) ≡ true
woken-awake outside = refl
woken-awake acquiring = refl
woken-awake blocked = refl
woken-awake holding = refl
woken-awake waiting = refl

pub is_holding-holding : (p : Phase) → is_holding p ≡ true → p ≡ holding
is_holding-holding outside h = ground arith
is_holding-holding acquiring h = ground arith
is_holding-holding blocked h = ground arith
is_holding-holding holding h = refl
is_holding-holding waiting h = ground arith
