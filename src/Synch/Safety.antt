-- ===== src/Synch/Safety.antt =====
-- A lock is safe and no wakeup is lost, as long as q_addtail succeeds.
use os.Base.{
  ℕ, true, false, none, some, [], ◌∷◌, ◌++◌, ◌==◌, ◌≡◌, arith, refl, sym, ap, ◌∙◌, subst,
  Bool-cases, inl, inr, ==_iff,
}
use os.Base.Outcome.{ok}
use os.Synch.{
  System, outside, waiting, is_awake, update, woken, thread_wakeup, wake_first, wake_all,
  lock_do_i_hold, lock_acquire, lock_release, cv_wait, cv_signal, cv_broadcast, Step, acquire,
  release, wait, signal, broadcast, Reliable,
}
use os.Synch.Inv.{
  is_holding, is_blocked, is_waiting, owns, occurs, IsConsistent, occurs-append, awake-IsIdle,
}
use os.Synch.{init, Reach, here, next}
use os.Synch.Turns.{pointwise, acquire_turn-IsConsistent}
use os.Synch.Steps.{
  released, released-IsConsistent, lock_release-owner, lock_acquire-turn, wake_first-IsConsistent,
  wake_all-IsConsistent, released-awake, wake_first-awake, wake_all-awake,
}
use os.Base.Outcome.{bind-ok, value}

lock_do_i_hold-owns : (t : ℕ) (s : System) → lock_do_i_hold t s ≡ owns s.owner t
unfolding lock_do_i_hold
lock_do_i_hold-owns t s =
    elim s.owner as (λ o. lock_do_i_hold t (record s { owner = o }) ≡ owns o t) [
      | none ↦ refl
      | some u ↦ refl
    ]

acquire-IsConsistent :
    (t : ℕ) (s s' : System)
    → IsConsistent s
    → is_awake (s.phase t) ≡ true
    → lock_acquire true t s ≡ ok s'
    → IsConsistent s'
acquire-IsConsistent t s s' c a h =
    let r = lock_acquire-turn true t s s' h in
    subst IsConsistent r.1 (
      acquire_turn-IsConsistent t s c.agrees (
        awake-IsIdle (s.phase t) a
          (sym (c.agrees.holder t) ∙ (sym (lock_do_i_hold-owns t s) ∙ r.0))))

release-IsConsistent :
    (t : ℕ) (s s' : System) → IsConsistent s → lock_release t s ≡ ok s' → IsConsistent s'
release-IsConsistent t s s' c h =
    let r = lock_release-owner t s s' h in
    subst IsConsistent r.1 (released-IsConsistent t s c.agrees r.0)

release-awake : (t : ℕ) (s s' : System) → lock_release t s ≡ ok s' → is_awake (s'.phase t) ≡ true
release-awake t s s' h =
    subst (λ r. is_awake (r.phase t) ≡ true) ((lock_release-owner t s s' h).1) (released-awake t s)

signal-IsConsistent :
    (t : ℕ) (s s' : System) → IsConsistent s → cv_signal true t s ≡ ok s' → IsConsistent s'
unfolding cv_signal
signal-IsConsistent t s s' c h =
    let b = bind-ok (lock_release t s) (λ r. lock_acquire true t (wake_first r)) s' h in
    acquire-IsConsistent t (wake_first b.0) s'
      (wake_first-IsConsistent b.0 (release-IsConsistent t s b.0 c b.1))
      (wake_first-awake t b.0 (release-awake t s b.0 b.1)) b.2

broadcast-IsConsistent :
    (t : ℕ) (s s' : System) → IsConsistent s → cv_broadcast true t s ≡ ok s' → IsConsistent s'
unfolding cv_broadcast
broadcast-IsConsistent t s s' c h =
    let b =
      bind-ok (lock_release t s)
        (λ r. lock_acquire true t (wake_all r.cv_queue (record r { cv_queue = [] }))) s' h in
    acquire-IsConsistent t _ s'
      (wake_all-IsConsistent (b.0).cv_queue b.0 (release-IsConsistent t s b.0 c b.1))
      (wake_all-awake (b.0).cv_queue t _ (release-awake t s b.0 b.1)) b.2

-- The thread that releases the lock is left outside.
released-outside : (t : ℕ) (s : System) → (released t s).phase t ≡ outside
unfolding thread_wakeup
released-outside t s =
    elim s.lock_queue as (λ q. (released t (record s { lock_queue = q })).phase t ≡ outside) [
      | [] ↦ ground arith
      | w ∷ ws ↦
          pointwise (λ j p. j ≡ t → p ≡ outside) (update s.phase t outside) w
            (woken (update s.phase t outside w)) (λ e. ground (arith, e))
            (λ j ne e. ground (arith, e)) t refl
    ]

-- Thread t goes to sleep on the condition variable.
sleep-IsConsistent :
    (t : ℕ) (s : System)
    → IsConsistent s
    → s.phase t ≡ outside
    → IsConsistent (record s { cv_queue = s.cv_queue ++ t ∷ []; phase = update s.phase t waiting })
sleep-IsConsistent t s c e = record {
  agrees = record {
    holder =
        pointwise (λ j p. owns s.owner j ≡ is_holding p) s.phase t waiting
          (c.agrees.holder t ∙ ap is_holding e) (λ j ne. c.agrees.holder j);
    blocked_in =
        pointwise (λ j p. occurs j s.lock_queue ≡ is_blocked p) s.phase t waiting
          (c.agrees.blocked_in t ∙ ap is_blocked e) (λ j ne. c.agrees.blocked_in j);
    waiting_in =
        pointwise (λ j p. occurs j (s.cv_queue ++ t ∷ []) ≡ is_waiting p) s.phase t waiting
          (ground (arith, c.agrees.waiting_in t ∙ ap is_waiting e, occurs-append t t s.cv_queue))
          (λ j ne. ground (arith, c.agrees.waiting_in j, occurs-append j t s.cv_queue));
  };
  handoff = λ n. elim (c.handoff n) [
    | inl q ↦ inl q
    | inr (v, a) ↦ inr (
      v,
      elim (Bool-cases (t == v)) [
        | inl q ↦ ground (arith, sym e ∙ (ap s.phase ((==_iff t v).0 q) ∙ a))
        | inr q ↦ rw (q) a
      ],
    )
  ];
}

wait-IsConsistent :
    (t : ℕ) (s s' : System) → IsConsistent s → cv_wait true t s ≡ ok s' → IsConsistent s'
unfolding cv_wait
wait-IsConsistent t s s' c h =
    let b = bind-ok (lock_release t s) _ s' h in
    let r = lock_release-owner t s b.0 b.1 in
    subst IsConsistent (ap (value s') b.2) (
      sleep-IsConsistent t b.0 (release-IsConsistent t s b.0 c b.1)
        (subst (λ r. r.phase t ≡ outside) r.1 (released-outside t s)))

pub Step-IsConsistent : (s s' : System) → IsConsistent s → Step Reliable s s' → IsConsistent s'
Step-IsConsistent s s' c (acquire t true r a h) = acquire-IsConsistent t s s' c a h
Step-IsConsistent s s' c (acquire t false r a h) = ground arith
Step-IsConsistent s s' c (release t a h) = release-IsConsistent t s s' c h
Step-IsConsistent s s' c (wait t true r a h) = wait-IsConsistent t s s' c h
Step-IsConsistent s s' c (wait t false r a h) = ground arith
Step-IsConsistent s s' c (signal t true r a h) = signal-IsConsistent t s s' c h
Step-IsConsistent s s' c (signal t false r a h) = ground arith
Step-IsConsistent s s' c (broadcast t true r a h) = broadcast-IsConsistent t s s' c h
Step-IsConsistent s s' c (broadcast t false r a h) = ground arith

pub init-IsConsistent : IsConsistent init
init-IsConsistent = record {
  agrees = record { holder = λ j. refl; blocked_in = λ j. refl; waiting_in = λ j. refl };
  handoff = λ n. inl refl;
}

pub Reach-IsConsistent : {s s' : System} → IsConsistent s → Reach Reliable s s' → IsConsistent s'
Reach-IsConsistent c here = c
Reach-IsConsistent c (next r st) = Step-IsConsistent _ _ (Reach-IsConsistent c r) st
