-- ===== src/Synch/Wakeup.antt =====
-- Whom cv_signal and cv_broadcast wake.
use os.Base.{
  ℕ, Bool, none, some, List, [], ◌∷◌, ◌==◌, ◌≡◌, ◌≢◌, ◌⊎◌, arith, refl, sym, ap, ◌∙◌, subst,
  Bool-cases, inl, inr, ==_iff,
}
use os.Base.Outcome.{ok, ◌>>=◌, ◌>>◌, assert}
use os.Synch.{
  System, Phase, outside, acquiring, blocked, holding, waiting, update, woken, thread_wakeup,
  acquire_turn, wake_first, wake_all, lock_do_i_hold, lock_acquire, lock_release, cv_signal,
  cv_broadcast,
}
use os.Synch.Inv.{is_holding, is_waiting, owns, occurs, Agrees, head-is_blocked, head-is_waiting}
use os.Synch.Turns.{pointwise}
use os.Synch.Steps.{released}

-- Waking w leaves the phase of j, unless j is w and was asleep.
wakeup-other :
    (w j : ℕ) (p : Phase) (s : System)
    → s.phase j ≡ p
    → woken p ≡ p
    → (thread_wakeup w s).phase j ≡ p
unfolding thread_wakeup
wakeup-other w j p s h e =
    pointwise (λ k q. s.phase k ≡ p → q ≡ p) s.phase w (woken (s.phase w)) (λ g. ap woken g ∙ e)
      (λ k ne g. g) j h

wakeup-different : (w j : ℕ) (s : System) → w ≢ j → (thread_wakeup w s).phase j ≡ s.phase j
unfolding thread_wakeup
wakeup-different w j s ne = ground (arith, ne)

wakeup-waiting :
    (w : ℕ) (s : System) → s.phase w ≡ waiting → (thread_wakeup w s).phase w ≡ acquiring
unfolding thread_wakeup
wakeup-waiting w s h = ground (arith, ap woken h)

wakeup-head :
    (w j : ℕ) (s : System) → w ≡ j → s.phase j ≡ waiting → (thread_wakeup w s).phase j ≡ acquiring
wakeup-head w j s e h =
    subst (λ k. (thread_wakeup w s).phase k ≡ acquiring) e (wakeup-waiting w s (ap s.phase e ∙ h))

pub update-different : (f : ℕ → Phase) (t j : ℕ) (p : Phase) → t ≢ j → update f t p j ≡ f j
update-different f t j p ne = ground (arith, ne)

blocked-different : (w j : ℕ) (f : ℕ → Phase) → f w ≡ blocked → f j ≡ waiting → w ≢ j
blocked-different w j f g h e = ground (arith, sym g ∙ (ap f e ∙ h))

waiting-different :
    (t j : ℕ) (s : System) → Agrees s → s.owner ≡ some t → s.phase j ≡ waiting → t ≢ j
waiting-different t j s c e h eq =
    ground (arith, ap (λ o. owns o j) e, c.holder j, ap is_holding h, eq)

-- lock_release frees the lock and leaves those who wait on the condition variable.
released-waiting :
    (t j : ℕ) (s : System)
    → Agrees s
    → s.owner ≡ some t
    → s.phase j ≡ waiting
    → (released t s).phase j ≡ waiting
released-waiting t j s c e h =
    let ne = waiting-different t j s c e h in
    elim s.lock_queue
        as (λ q.
          Agrees (record s { lock_queue = q })
          → (released t (record s { lock_queue = q })).phase j ≡ waiting) [
            | [] ↦ λ d. update-different s.phase t j outside ne ∙ h
            | w ∷ ws ↦ λ d.
                let g = head-is_blocked w ws (s.phase w) (d.blocked_in w) in
                wakeup-different w j _ (blocked-different w j s.phase g.0 h)
                ∙ (update-different s.phase t j outside ne ∙ h)
          ]
      c

released-free :
    (t : ℕ) (s : System) → ((released t s).owner ≡ none) × ((released t s).cv_queue ≡ s.cv_queue)
unfolding thread_wakeup
released-free t s =
    elim s.lock_queue
      as (λ q.
        ((released t (record s { lock_queue = q })).owner ≡ none)
        × ((released t (record s { lock_queue = q })).cv_queue ≡ s.cv_queue)) [
          | [] ↦ (refl, refl)
          | w ∷ ws ↦ (refl, refl)
        ]

pub lock_release-ok : (t : ℕ) (s : System) → s.owner ≡ some t → lock_release t s ≡ ok (released t s)
unfolding lock_release lock_do_i_hold thread_wakeup
lock_release-ok t s e =
    subst (λ o. lock_release t (record s { owner = o }) ≡ ok (released t s)) (sym e)
      (ap (λ b. assert b >> ok (released t s)) ((==_iff t t).1 refl))

lock_acquire-free :
    (mem : Bool) (t : ℕ) (r : System)
    → r.owner ≡ none
    → lock_acquire mem t r ≡ ok (record r { owner = some t; phase = update r.phase t holding })
unfolding lock_acquire lock_do_i_hold acquire_turn
lock_acquire-free mem t r e =
    subst
      (λ o.
        lock_acquire mem t (record r { owner = o })
        ≡ ok (record r { owner = some t; phase = update r.phase t holding }))
      (sym e) refl

wake_first-head :
    (w : ℕ) (ws : List ℕ) (r : System)
    → r.cv_queue ≡ w ∷ ws
    → wake_first r ≡ thread_wakeup w (record r { cv_queue = ws })
unfolding wake_first
wake_first-head w ws r e =
    subst
      (λ q. wake_first (record r { cv_queue = q }) ≡ thread_wakeup w (record r { cv_queue = ws }))
      (sym e) refl

-- When the caller owns the lock and w is the first thread that waits, cv_signal returns, whether or
-- not q_addtail could: the caller owns the lock, and w is off the queue and about to take the lock.
pub cv_signal-wakes :
    (mem : Bool) (t w : ℕ) (ws : List ℕ) (s : System)
    → Agrees s
    → s.owner ≡ some t
    → s.cv_queue ≡ w ∷ ws
    → (s' : System) × (cv_signal mem t s ≡ ok s')
      × (s'.owner ≡ some t)
      × (s'.cv_queue ≡ ws)
      × (s'.phase w ≡ acquiring)
unfolding cv_signal thread_wakeup
cv_signal-wakes mem t w ws s c e q =
    let h = head-is_waiting w ws (s.phase w) (sym (ap (occurs w) q) ∙ c.waiting_in w) in
    let r = released t s in
    let f = released-free t s in
    let x = thread_wakeup w (record r { cv_queue = ws }) in
    (
      record x { owner = some t; phase = update x.phase t holding },
      ap (λ m. m >>= λ y. lock_acquire mem t (wake_first y)) (lock_release-ok t s e)
          ∙ (ap (lock_acquire mem t) (wake_first-head w ws r (f.1 ∙ q))
              ∙ lock_acquire-free mem t x f.0),
      refl,
      refl,
      update-different x.phase t w holding (waiting-different t w s c e h.0)
          ∙ wakeup-waiting w (record r { cv_queue = ws }) (released-waiting t w s c e h.0),
    )

-- A thread of the queue that waits, or one that is on its way already, ends on its way.
wake_all-acquiring :
    (q : List ℕ) (j : ℕ) (s : System)
    → (s.phase j ≡ acquiring) ⊎ ((s.phase j ≡ waiting) × (occurs j q ≢ 0))
    → (wake_all q s).phase j ≡ acquiring
unfolding wake_all
wake_all-acquiring [] j s (inl h) = h
wake_all-acquiring [] j s (inr h) = ground (arith, h.1)
wake_all-acquiring (w ∷ ws) j s (inl h) =
    wake_all-acquiring ws j (thread_wakeup w s) (inl (wakeup-other w j acquiring s h refl))
wake_all-acquiring (w ∷ ws) j s (inr h) =
    wake_all-acquiring ws j (thread_wakeup w s) (elim (Bool-cases (w == j)) [
      | inl e ↦ inl (wakeup-head w j s ((==_iff w j).0 e) h.0)
      | inr e ↦ inr (wakeup-different w j s (ground arith) ∙ h.0, ground (arith, h.1, e))
    ])

wake_all-rest :
    (q : List ℕ) (s : System)
    → ((wake_all q s).owner ≡ s.owner) × ((wake_all q s).cv_queue ≡ s.cv_queue)
unfolding wake_all thread_wakeup
wake_all-rest [] s = (refl, refl)
wake_all-rest (w ∷ ws) s = wake_all-rest ws (thread_wakeup w s)

-- When the caller owns the lock, cv_broadcast returns, whether or not q_addtail could: the caller
-- owns the lock, nobody waits any more, and whoever waited is about to take the lock.
pub cv_broadcast-wakes :
    (mem : Bool) (t : ℕ) (s : System)
    → Agrees s
    → s.owner ≡ some t
    → (s' : System) × (cv_broadcast mem t s ≡ ok s')
      × (s'.owner ≡ some t)
      × (s'.cv_queue ≡ [])
      × ((j : ℕ) → s.phase j ≡ waiting → s'.phase j ≡ acquiring)
unfolding cv_broadcast
cv_broadcast-wakes mem t s c e =
    let r = released t s in
    let f = released-free t s in
    let x = wake_all r.cv_queue (record r { cv_queue = [] }) in
    let z = wake_all-rest r.cv_queue (record r { cv_queue = [] }) in
    (
      record x { owner = some t; phase = update x.phase t holding },
      ap (λ m. m >>= λ y. lock_acquire mem t (wake_all y.cv_queue (record y { cv_queue = [] })))
            (lock_release-ok t s e)
          ∙ lock_acquire-free mem t x (z.0 ∙ f.0),
      refl,
      z.1,
      λ j h.
          update-different x.phase t j holding (waiting-different t j s c e h)
          ∙ wake_all-acquiring r.cv_queue j (record r { cv_queue = [] })
              (inr (
                released-waiting t j s c e h,
                λ n.
                    ground (
                      arith,
                      sym (c.waiting_in j ∙ ap is_waiting h) ∙ (ap (occurs j) (sym f.1) ∙ n),
                    ),
              )),
    )
