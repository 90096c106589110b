-- ===== src/Synch/Exclusion.antt =====
-- What callers of locks and condition variables rely on.
use os.Base.{ℕ, true, Option, none, some, ◌≡◌, ◌⊎◌, arith, refl, sym, ap, ◌∙◌, inl, inr}
use os.Synch.{System, acquiring, blocked, holding, Reliable, init, Reach}
use os.Synch.Inv.{is_holding, is_blocked, owns, occurs, Agrees}
use os.Synch.Inv.{is_holding-holding, head-is_blocked}
use os.Base.{List, [], ◌∷◌, ◌≢◌}
use os.Base.Outcome.{ok}
use os.Synch.{lock_release, thread_wakeup, update, outside, woken}
use os.Synch.Steps.{released}
use os.Synch.Wakeup.{lock_release-ok, update-different}
use os.Synch.Safety.{init-IsConsistent, Reach-IsConsistent}

owns_unique : (o : Option ℕ) (i j : ℕ) → owns o i ≡ true → owns o j ≡ true → i ≡ j
owns_unique none i j h k = ground arith
owns_unique (some u) i j h k = ground arith

-- In every system that is reached with q_addtail succeeding, at most one thread holds the lock.
pub Reach-exclusion :
    (s : System) (i j : ℕ)
    → Reach Reliable init s
    → s.phase i ≡ holding
    → s.phase j ≡ holding
    → i ≡ j
Reach-exclusion s i j r h k =
    let c = Reach-IsConsistent init-IsConsistent r in
    owns_unique s.owner i j (c.agrees.holder i ∙ ap is_holding h)
      (c.agrees.holder j ∙ ap is_holding k)

owner-holding :
    (s : System)
    → Agrees s
    → (s.owner ≡ none) ⊎ ((t : ℕ) × (s.owner ≡ some t) × (s.phase t ≡ holding))
owner-holding s c =
    elim s.owner
        as (λ o.
          Agrees (record s { owner = o })
          → (o ≡ none) ⊎ ((t : ℕ) × (o ≡ some t) × (s.phase t ≡ holding))) [
            | none ↦ λ d. inl refl
            | some u ↦
                λ d. inr (u, refl, is_holding-holding (s.phase u) (sym (d.holder u) ∙ ground arith))
          ]
      c

-- Thread t holds the lock, and lock_release by it wakes a thread asleep in lock_acquire.
abbrev pub WakesOne : ℕ → System → Type 0
WakesOne t s =
    (s.phase t ≡ holding)
    × (s' : System) × (lock_release t s ≡ ok s')
    × (w : ℕ) × (s.phase w ≡ blocked)
    × (s'.phase w ≡ acquiring)

blocked-wakes :
    (t w : ℕ) (s : System)
    → s.phase t ≡ holding
    → s.phase w ≡ blocked
    → (thread_wakeup w (record s { phase = update s.phase t outside })).phase w ≡ acquiring
unfolding thread_wakeup
blocked-wakes t w s h b =
    let ne : t ≢ w = λ e. ground (arith, sym h ∙ (ap s.phase e ∙ b)) in
    let asleep = update-different s.phase t w outside ne ∙ b in ground (arith, ap woken asleep)

release-WakesOne :
    (t i : ℕ) (s : System) (q : List ℕ)
    → Agrees s
    → s.owner ≡ some t
    → s.phase t ≡ holding
    → s.phase i ≡ blocked
    → s.lock_queue ≡ q
    → WakesOne t s
unfolding thread_wakeup
release-WakesOne t i s [] c e h b q =
    ground (arith, sym (ap (occurs i) q) ∙ (c.blocked_in i ∙ ap is_blocked b))
release-WakesOne t i s (w ∷ ws) c e h b q =
    let head = head-is_blocked w ws (s.phase w) (sym (ap (occurs w) q) ∙ c.blocked_in w) in
    (
      h,
      released t s,
      lock_release-ok t s e,
      w,
      head.0,
      ap (λ x. (released t (record s { lock_queue = x })).phase w) q ∙ blocked-wakes t w s h head.0,
    )

-- In every system that is reached with q_addtail succeeding, while a thread is asleep in
-- lock_acquire, some thread holds the lock and lock_release by it succeeds and wakes a thread
-- asleep there, or some thread is awake and about to test the owner.
pub Reach-no_lost_wakeup :
    (s : System) (i : ℕ)
    → Reach Reliable init s
    → s.phase i ≡ blocked
    → ((t : ℕ) × WakesOne t s) ⊎ ((t : ℕ) × (s.phase t ≡ acquiring))
Reach-no_lost_wakeup s i r h =
    let c = Reach-IsConsistent init-IsConsistent r in
    elim (owner-holding s c.agrees) [
      | inr (t, e, x) ↦ inl (t, release-WakesOne t i s s.lock_queue c.agrees e x h refl)
      | inl n ↦ elim (c.handoff n) [
        | inr x ↦ inr x
        | inl q ↦ ground (arith, sym (ap (occurs i) q) ∙ (c.agrees.blocked_in i ∙ ap is_blocked h))
      ]
    ]
