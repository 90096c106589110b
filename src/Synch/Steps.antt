-- ===== src/Synch/Steps.antt =====
-- What lock_release and lock_acquire do when they return, and that they, wake_first and wake_all
-- keep a system consistent and the caller awake.
use os.Base.{
  ℕ, Bool, true, false, not, none, some, List, [], ◌∷◌, ◌≡◌, arith, refl, ap, inl, ==_iff,
}
use os.Base.Outcome.{ok, assert-ok}
use os.Synch.{
  System, outside, is_awake, update, woken, thread_wakeup, acquire_turn, wake_first, wake_all,
  lock_do_i_hold, lock_acquire, lock_release,
}
use os.Synch.Inv.{Agrees, IsConsistent, head-is_blocked, head-is_waiting, woken-awake}
use os.Synch.Turns.{pointwise, wake_blocked-IsConsistent, wake_waiting-IsConsistent, give_up-Agrees}

-- lock_release, after its assertion.
abbrev pub released : ℕ → System → System
released t s = elim s.lock_queue [
  | [] ↦ record s { owner = none; phase = update s.phase t outside }
  | w ∷ ws ↦
      thread_wakeup w (record s { owner = none; phase = update s.phase t outside; lock_queue = ws })
]

pub released-IsConsistent :
    (t : ℕ) (s : System) → Agrees s → s.owner ≡ some t → IsConsistent (released t s)
released-IsConsistent t s c e =
    elim s.lock_queue
        as (λ q.
          Agrees (record s { lock_queue = q; owner = none; phase = update s.phase t outside })
          → IsConsistent (released t (record s { lock_queue = q }))) [
            | [] ↦ λ d. record { agrees = d; handoff = λ n. inl refl }
            | w ∷ ws ↦ λ d.
                let h = head-is_blocked w ws _ (d.blocked_in w) in
                wake_blocked-IsConsistent w ws
                  (record s { owner = none; phase = update s.phase t outside }) d h.0 h.1
          ]
      (give_up-Agrees t s c e)

-- lock_do_i_hold says who the owner is.
lock_do_i_hold-owner : (t : ℕ) (s : System) → lock_do_i_hold t s ≡ true → s.owner ≡ some t
unfolding lock_do_i_hold
lock_do_i_hold-owner t s h =
    elim s.owner as (λ o. lock_do_i_hold t (record s { owner = o }) ≡ true → o ≡ some t) [
      | none ↦ λ e. ground arith
      | some u ↦ λ e. ap some ((==_iff u t).0 e)
    ]
      h

-- When lock_release returns, the caller held the lock.
pub lock_release-owner :
    (t : ℕ) (s s' : System) → lock_release t s ≡ ok s' → (s.owner ≡ some t) × (released t s ≡ s')
unfolding lock_release thread_wakeup
lock_release-owner t s s' h =
    let r = assert-ok (lock_do_i_hold t s) (released t s) s' h in
    (lock_do_i_hold-owner t s r.0, r.1)

pub lock_acquire-turn :
    (mem : Bool) (t : ℕ) (s s' : System)
    → lock_acquire mem t s ≡ ok s'
    → (lock_do_i_hold t s ≡ false) × (acquire_turn mem t s ≡ s')
unfolding lock_acquire
lock_acquire-turn mem t s s' h =
    let r = assert-ok (not (lock_do_i_hold t s)) (acquire_turn mem t s) s' h in
    (ground (arith, r.0), r.1)

pub wake_first-IsConsistent : (s : System) → IsConsistent s → IsConsistent (wake_first s)
unfolding wake_first
wake_first-IsConsistent s c =
    elim s.cv_queue
        as (λ q.
          IsConsistent (record s { cv_queue = q })
          → IsConsistent (wake_first (record s { cv_queue = q }))) [
            | [] ↦ λ d. d
            | w ∷ ws ↦ λ d.
                let h = head-is_waiting w ws _ (d.agrees.waiting_in w) in
                wake_waiting-IsConsistent w ws s d.agrees h.0 h.1
          ]
      c

pub wake_all-IsConsistent :
    (q : List ℕ) (s : System)
    → IsConsistent (record s { cv_queue = q })
    → IsConsistent (wake_all q (record s { cv_queue = [] }))
unfolding wake_all thread_wakeup wake_first
wake_all-IsConsistent [] s c = c
wake_all-IsConsistent (w ∷ ws) s c =
    wake_all-IsConsistent ws (thread_wakeup w s)
      (wake_first-IsConsistent (record s { cv_queue = w ∷ ws }) c)

-- Waking others leaves a thread awake.
thread_wakeup-awake :
    (w t : ℕ) (s : System)
    → is_awake (s.phase t) ≡ true
    → is_awake ((thread_wakeup w s).phase t) ≡ true
unfolding thread_wakeup
thread_wakeup-awake w t s h =
    pointwise (λ j p. is_awake (s.phase j) ≡ true → is_awake p ≡ true) s.phase w (woken (s.phase w))
      (λ e. woken-awake (s.phase w)) (λ j ne e. e) t h

pub released-awake : (t : ℕ) (s : System) → is_awake ((released t s).phase t) ≡ true
released-awake t s =
    elim s.lock_queue
      as (λ q. is_awake ((released t (record s { lock_queue = q })).phase t) ≡ true) [
        | [] ↦ ground arith
        | w ∷ ws ↦ thread_wakeup-awake w t _ (ground arith)
      ]

pub wake_first-awake :
    (t : ℕ) (s : System) → is_awake (s.phase t) ≡ true → is_awake ((wake_first s).phase t) ≡ true
unfolding wake_first
wake_first-awake t s h =
    elim s.cv_queue as (λ q. is_awake ((wake_first (record s { cv_queue = q })).phase t) ≡ true) [
      | [] ↦ h
      | w ∷ ws ↦ thread_wakeup-awake w t (record s { cv_queue = ws }) h
    ]

pub wake_all-awake :
    (q : List ℕ) (t : ℕ) (s : System)
    → is_awake (s.phase t) ≡ true
    → is_awake ((wake_all q s).phase t) ≡ true
unfolding wake_all
wake_all-awake [] t s h = h
wake_all-awake (w ∷ ws) t s h =
    wake_all-awake ws t (thread_wakeup w s) (thread_wakeup-awake w t s h)
