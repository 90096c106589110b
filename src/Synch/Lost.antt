-- ===== src/Synch/Lost.antt =====
-- What becomes of a thread that q_addtail could not put into its queue.
use os.Base.{
  ℕ, Bool, true, false, none, some, List, [], ◌∷◌, ◌≡◌, ◌≢◌, arith, refl, sym, ap, ◌∙◌, subst,
}
use os.Base.Outcome.{ok, bind-ok, value}
use os.Synch.{
  System, Phase, is_awake, enqueue, thread_wakeup, acquire_turn, wake_first, wake_all, lock_acquire,
  lock_release, cv_wait, cv_signal, cv_broadcast, Step, acquire, release, wait, signal, broadcast,
  Lossy, Reach, here, next,
}
use os.Synch.Inv.{occurs, occurs-append}
use os.Synch.Steps.{released, lock_release-owner, lock_acquire-turn}

-- A thread asleep that no queue remembers.
pub record IsForgotten (i : ℕ) (s : System) : Type 0 where
  pub asleep : is_awake (s.phase i) ≡ false
  pub not_blocked : occurs i s.lock_queue ≡ 0
  pub not_waiting : occurs i s.cv_queue ≡ 0

-- Another thread changes its phase, and others are added to the queues or taken from them.
wakeup-IsForgotten :
    (i w : ℕ) (s : System) → w ≢ i → IsForgotten i s → IsForgotten i (thread_wakeup w s)
unfolding thread_wakeup
wakeup-IsForgotten i w s ne f = record {
  asleep = ground (arith, f.asleep, ne);
  not_blocked = f.not_blocked;
  not_waiting = f.not_waiting;
}

released-IsForgotten :
    (i t : ℕ) (s : System) → t ≢ i → IsForgotten i s → IsForgotten i (released t s)
released-IsForgotten i t s ne f =
    elim s.lock_queue
        as (λ q. occurs i q ≡ 0 → IsForgotten i (released t (record s { lock_queue = q }))) [
          | [] ↦ λ e. record {
            asleep = ground (arith, f.asleep, ne);
            not_blocked = refl;
            not_waiting = f.not_waiting;
          }
          | w ∷ ws ↦ λ e.
              wakeup-IsForgotten i w _ (λ g. ground (arith, e, g))
                (record {
                  asleep = ground (arith, f.asleep, ne);
                  not_blocked = ground (arith, e);
                  not_waiting = f.not_waiting;
                })
        ]
      f.not_blocked

wake_first-IsForgotten : (i : ℕ) (s : System) → IsForgotten i s → IsForgotten i (wake_first s)
unfolding wake_first
wake_first-IsForgotten i s f =
    elim s.cv_queue
        as (λ q. occurs i q ≡ 0 → IsForgotten i (wake_first (record s { cv_queue = q }))) [
          | [] ↦ λ e. record { asleep = f.asleep; not_blocked = f.not_blocked; not_waiting = refl }
          | w ∷ ws ↦ λ e.
              wakeup-IsForgotten i w (record s { cv_queue = ws }) (λ g. ground (arith, e, g))
                (record {
                  asleep = f.asleep;
                  not_blocked = f.not_blocked;
                  not_waiting = ground (arith, e);
                })
        ]
      f.not_waiting

wake_all-IsForgotten :
    (i : ℕ) (q : List ℕ) (s : System)
    → occurs i q ≡ 0
    → IsForgotten i s
    → IsForgotten i (wake_all q s)
unfolding wake_all
wake_all-IsForgotten i [] s e f = f
wake_all-IsForgotten i (w ∷ ws) s e f =
    wake_all-IsForgotten i ws (thread_wakeup w s) (ground (arith, e))
      (wakeup-IsForgotten i w s (λ g. ground (arith, e, g)) f)

enqueue-other :
    (mem : Bool) (i t : ℕ) (q : List ℕ) → t ≢ i → occurs i q ≡ 0 → occurs i (enqueue mem t q) ≡ 0
enqueue-other true i t q ne e = ground (arith, occurs-append i t q, ne, e)
enqueue-other false i t q ne e = e

acquire_turn-IsForgotten :
    (mem : Bool) (i t : ℕ) (s : System)
    → t ≢ i
    → IsForgotten i s
    → IsForgotten i (acquire_turn mem t s)
unfolding acquire_turn
acquire_turn-IsForgotten mem i t s ne f =
    elim s.owner as (λ o. IsForgotten i (acquire_turn mem t (record s { owner = o }))) [
      | none ↦ record {
        asleep = ground (arith, f.asleep, ne);
        not_blocked = f.not_blocked;
        not_waiting = f.not_waiting;
      }
      | some u ↦ record {
        asleep = ground (arith, f.asleep, ne);
        not_blocked = enqueue-other mem i t s.lock_queue ne f.not_blocked;
        not_waiting = f.not_waiting;
      }
    ]

acquire-IsForgotten :
    (mem : Bool) (i t : ℕ) (s s' : System)
    → t ≢ i
    → IsForgotten i s
    → lock_acquire mem t s ≡ ok s'
    → IsForgotten i s'
acquire-IsForgotten mem i t s s' ne f h =
    subst (IsForgotten i) ((lock_acquire-turn mem t s s' h).1)
      (acquire_turn-IsForgotten mem i t s ne f)

release-IsForgotten :
    (i t : ℕ) (s s' : System)
    → t ≢ i
    → IsForgotten i s
    → lock_release t s ≡ ok s'
    → IsForgotten i s'
release-IsForgotten i t s s' ne f h =
    subst (IsForgotten i) ((lock_release-owner t s s' h).1) (released-IsForgotten i t s ne f)

wait-IsForgotten :
    (mem : Bool) (i t : ℕ) (s s' : System)
    → t ≢ i
    → IsForgotten i s
    → cv_wait mem t s ≡ ok s'
    → IsForgotten i s'
unfolding cv_wait
wait-IsForgotten mem i t s s' ne f h =
    let b = bind-ok (lock_release t s) _ s' h in
    let g = release-IsForgotten i t s b.0 ne f b.1 in
    subst (IsForgotten i) (ap (value s') b.2) (record {
      asleep = ground (arith, g.asleep, ne);
      not_blocked = g.not_blocked;
      not_waiting = enqueue-other mem i t (b.0).cv_queue ne g.not_waiting;
    })

signal-IsForgotten :
    (mem : Bool) (i t : ℕ) (s s' : System)
    → t ≢ i
    → IsForgotten i s
    → cv_signal mem t s ≡ ok s'
    → IsForgotten i s'
unfolding cv_signal
signal-IsForgotten mem i t s s' ne f h =
    let b = bind-ok (lock_release t s) (λ r. lock_acquire mem t (wake_first r)) s' h in
    acquire-IsForgotten mem i t (wake_first b.0) s' ne
      (wake_first-IsForgotten i b.0 (release-IsForgotten i t s b.0 ne f b.1)) b.2

broadcast-IsForgotten :
    (mem : Bool) (i t : ℕ) (s s' : System)
    → t ≢ i
    → IsForgotten i s
    → cv_broadcast mem t s ≡ ok s'
    → IsForgotten i s'
unfolding cv_broadcast
broadcast-IsForgotten mem i t s s' ne f h =
    let b =
      bind-ok (lock_release t s)
        (λ r. lock_acquire mem t (wake_all r.cv_queue (record r { cv_queue = [] }))) s' h in
    let g = release-IsForgotten i t s b.0 ne f b.1 in
    acquire-IsForgotten mem i t _ s' ne
      (wake_all-IsForgotten i (b.0).cv_queue (record (b.0) { cv_queue = [] }) g.not_waiting
        (record { asleep = g.asleep; not_blocked = g.not_blocked; not_waiting = refl }))
      b.2

awake-different : (i t : ℕ) (f : ℕ → Phase) → is_awake (f t) ≡ true → is_awake (f i) ≡ false → t ≢ i
awake-different i t f a b e = ground (arith, sym a ∙ (ap (λ k. is_awake (f k)) e ∙ b))

step-IsForgotten : (i : ℕ) (s s' : System) → IsForgotten i s → Step Lossy s s' → IsForgotten i s'
step-IsForgotten i s s' f (acquire t mem r a h) =
    acquire-IsForgotten mem i t s s' (awake-different i t s.phase a f.asleep) f h
step-IsForgotten i s s' f (release t a h) =
    release-IsForgotten i t s s' (awake-different i t s.phase a f.asleep) f h
step-IsForgotten i s s' f (wait t mem r a h) =
    wait-IsForgotten mem i t s s' (awake-different i t s.phase a f.asleep) f h
step-IsForgotten i s s' f (signal t mem r a h) =
    signal-IsForgotten mem i t s s' (awake-different i t s.phase a f.asleep) f h
step-IsForgotten i s s' f (broadcast t mem r a h) =
    broadcast-IsForgotten mem i t s s' (awake-different i t s.phase a f.asleep) f h

-- A thread asleep in neither queue is asleep in neither queue in every system reached from there,
-- whatever the others do.
pub Reach-IsForgotten :
    (i : ℕ) (s s' : System) → IsForgotten i s → Reach Lossy s s' → IsForgotten i s'
Reach-IsForgotten i s s' f here = f
Reach-IsForgotten i s s' f (next r st) = step-IsForgotten i _ s' (Reach-IsForgotten i s _ f r) st
