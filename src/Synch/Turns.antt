-- ===== src/Synch/Turns.antt =====
-- Taking the lock, sleeping on it, giving it up and being woken keep a system consistent.
use os.Base.{
  ℕ, true, none, some, List, [], ◌∷◌, ◌++◌, ◌==◌, ◌≡◌, ◌≢◌, arith, refl, ap, ◌∙◌, subst, Bool-cases,
  inl, inr, ==_iff,
}
use os.Synch.{
  System, Phase, outside, acquiring, blocked, holding, waiting, update, woken, thread_wakeup,
  acquire_turn,
}
use os.Synch.Inv.{
  is_holding, is_blocked, is_waiting, owns, occurs, Agrees, IsConsistent, IsIdle, occurs-append,
}

-- What holds of thread t in its new phase and of the others in theirs holds of all.
pub pointwise :
    (P : ℕ → Phase → Type 0) (f : ℕ → Phase) (t : ℕ) (p : Phase)
    → P t p
    → ((j : ℕ) → t ≢ j → P j (f j))
    → (j : ℕ) → P j (update f t p j)
pointwise P f t p here rest j = elim (Bool-cases (t == j)) [
  | inl e ↦ rw (e) (subst (λ k. P k p) ((==_iff t j).0 e) here)
  | inr e ↦ rw (e) (rest j (ground arith))
]

-- Thread t takes the free lock.
take-IsConsistent :
    (t : ℕ) (s : System)
    → Agrees s
    → IsIdle (s.phase t)
    → s.owner ≡ none
    → IsConsistent (record s { owner = some t; phase = update s.phase t holding })
take-IsConsistent t s c i e = record {
  agrees = record {
    holder =
        pointwise (λ j p. owns (some t) j ≡ is_holding p) s.phase t holding (ground arith)
          (λ j ne. ground (arith, c.holder j, e, ap (λ o. owns o j) e));
    blocked_in =
        pointwise (λ j p. occurs j s.lock_queue ≡ is_blocked p) s.phase t holding
          (c.blocked_in t ∙ i.not_blocked) (λ j ne. c.blocked_in j);
    waiting_in =
        pointwise (λ j p. occurs j s.cv_queue ≡ is_waiting p) s.phase t holding
          (c.waiting_in t ∙ i.not_waiting) (λ j ne. c.waiting_in j);
  };
  handoff = λ n. ground arith;
}

-- Thread t goes to sleep on a lock that somebody has.
block-IsConsistent :
    (t u : ℕ) (s : System)
    → Agrees s
    → IsIdle (s.phase t)
    → s.owner ≡ some u
    → IsConsistent
        (record s { lock_queue = s.lock_queue ++ t ∷ []; phase = update s.phase t blocked })
block-IsConsistent t u s c i e = record {
  agrees = record {
    holder =
        pointwise (λ j p. owns s.owner j ≡ is_holding p) s.phase t blocked
          (c.holder t ∙ i.not_holding) (λ j ne. c.holder j);
    blocked_in =
        pointwise (λ j p. occurs j (s.lock_queue ++ t ∷ []) ≡ is_blocked p) s.phase t blocked
          (ground (arith, c.blocked_in t, i.not_blocked, occurs-append t t s.lock_queue))
          (λ j ne. ground (arith, c.blocked_in j, occurs-append j t s.lock_queue));
    waiting_in =
        pointwise (λ j p. occurs j s.cv_queue ≡ is_waiting p) s.phase t blocked
          (c.waiting_in t ∙ i.not_waiting) (λ j ne. c.waiting_in j);
  };
  handoff = λ n. ground (arith, e, n);
}

pub acquire_turn-IsConsistent :
    (t : ℕ) (s : System) → Agrees s → IsIdle (s.phase t) → IsConsistent (acquire_turn true t s)
unfolding acquire_turn
acquire_turn-IsConsistent t s c i =
    (elim s.owner
        as (λ o.
          Agrees (record s { owner = o })
          → IsConsistent (acquire_turn true t (record s { owner = o }))) [
            | none ↦ λ d. take-IsConsistent t (record s { owner = none }) d i refl
            | some u ↦ λ d. block-IsConsistent t u (record s { owner = some u }) d i refl
          ])
      c

-- A thread that sleeps on the lock, at the head of the queue, goes on to test the owner.
pub wake_blocked-IsConsistent :
    (w : ℕ) (ws : List ℕ) (s : System)
    → Agrees (record s { lock_queue = w ∷ ws })
    → s.phase w ≡ blocked
    → occurs w ws ≡ 0
    → IsConsistent (thread_wakeup w (record s { lock_queue = ws }))
unfolding thread_wakeup
wake_blocked-IsConsistent w ws s c e o = rw (ap woken e) (record {
  agrees = record {
    holder =
        pointwise (λ j p. owns s.owner j ≡ is_holding p) s.phase w acquiring
          (c.holder w ∙ ap is_holding e) (λ j ne. c.holder j);
    blocked_in =
        pointwise (λ j p. occurs j ws ≡ is_blocked p) s.phase w acquiring o
          (λ j ne. ground (arith, c.blocked_in j));
    waiting_in =
        pointwise (λ j p. occurs j s.cv_queue ≡ is_waiting p) s.phase w acquiring
          (c.waiting_in w ∙ ap is_waiting e) (λ j ne. c.waiting_in j);
  };
  handoff = λ n. inr (w, ground arith);
})

-- A thread that sleeps on the condition variable, at the head of the queue, goes on to the lock.
pub wake_waiting-IsConsistent :
    (w : ℕ) (ws : List ℕ) (s : System)
    → Agrees (record s { cv_queue = w ∷ ws })
    → s.phase w ≡ waiting
    → occurs w ws ≡ 0
    → IsConsistent (thread_wakeup w (record s { cv_queue = ws }))
unfolding thread_wakeup
wake_waiting-IsConsistent w ws s c e o = rw (ap woken e) (record {
  agrees = record {
    holder =
        pointwise (λ j p. owns s.owner j ≡ is_holding p) s.phase w acquiring
          (c.holder w ∙ ap is_holding e) (λ j ne. c.holder j);
    blocked_in =
        pointwise (λ j p. occurs j s.lock_queue ≡ is_blocked p) s.phase w acquiring
          (c.blocked_in w ∙ ap is_blocked e) (λ j ne. c.blocked_in j);
    waiting_in =
        pointwise (λ j p. occurs j ws ≡ is_waiting p) s.phase w acquiring o
          (λ j ne. ground (arith, c.waiting_in j));
  };
  handoff = λ n. inr (w, ground arith);
})

-- The owner gives up the lock, before anybody is woken.
pub give_up-Agrees :
    (t : ℕ) (s : System)
    → Agrees s
    → s.owner ≡ some t
    → Agrees (record s { owner = none; phase = update s.phase t outside })
give_up-Agrees t s c e = record {
  holder =
      pointwise (λ j p. owns none j ≡ is_holding p) s.phase t outside refl
        (λ j ne. ground (arith, c.holder j, ap (λ o. owns o j) e));
  blocked_in =
      pointwise (λ j p. occurs j s.lock_queue ≡ is_blocked p) s.phase t outside
        (ground (arith, c.blocked_in t, c.holder t, ap (λ o. owns o t) e)) (λ j ne. c.blocked_in j);
  waiting_in =
      pointwise (λ j p. occurs j s.cv_queue ≡ is_waiting p) s.phase t outside
        (ground (arith, c.waiting_in t, c.holder t, ap (λ o. owns o t) e)) (λ j ne. c.waiting_in j);
}
