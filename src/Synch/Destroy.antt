-- ===== src/Synch/Destroy.antt =====
-- When lock_destroy and cv_destroy return.
use os.Base.{ℕ, none, some, [], ◌∷◌, ◌≡◌, ◌≢◌, ◌↔◌, arith, refl, sym, ap, ◌∙◌}
use os.Base.Outcome.{ok}
use os.Synch.{System, blocked, holding, waiting, lock_destroy, cv_destroy}
use os.Synch.Inv.{
  is_holding, is_blocked, is_waiting, Agrees, head-is_blocked, head-is_waiting, is_holding-holding,
}

owned-holding : (u : ℕ) (s : System) → Agrees (record s { owner = some u }) → s.phase u ≡ holding
owned-holding u s c = is_holding-holding (s.phase u) (sym (c.holder u) ∙ ground arith)

-- An empty queue has no thread asleep.
empty-blocked : (s : System) (t : ℕ) → Agrees (record s { lock_queue = [] }) → s.phase t ≢ blocked
empty-blocked s t c h = ground (arith, c.blocked_in t ∙ ap is_blocked h)

empty-waiting : (s : System) (t : ℕ) → Agrees (record s { cv_queue = [] }) → s.phase t ≢ waiting
empty-waiting s t c h = ground (arith, c.waiting_in t ∙ ap is_waiting h)

free-holding : (s : System) (t : ℕ) → Agrees (record s { owner = none }) → s.phase t ≢ holding
free-holding s t c h = ground (arith, c.holder t ∙ ap is_holding h)

-- cv_destroy returns exactly when no thread waits.
pub cv_destroy_iff :
    (s : System) → Agrees s → (cv_destroy s ≡ ok tt) ↔ ((t : ℕ) → s.phase t ≢ waiting)
unfolding cv_destroy
cv_destroy_iff s c =
    elim s.cv_queue
        as (λ q.
          Agrees (record s { cv_queue = q })
          → (cv_destroy (record s { cv_queue = q }) ≡ ok tt) ↔ ((t : ℕ) → s.phase t ≢ waiting)) [
            | [] ↦ λ d. (λ e t. empty-waiting s t d, λ n. refl)
            | w ∷ ws ↦ λ d. (
              λ e. ground (arith, e),
              λ n. absurd (n w (head-is_waiting w ws (s.phase w) (d.waiting_in w)).0),
            )
          ]
      c

lock_destroy_free :
    (s : System)
    → Agrees (record s { owner = none })
    → (lock_destroy (record s { owner = none }) ≡ ok tt)
      ↔ ((t : ℕ) → (s.phase t ≢ holding) × (s.phase t ≢ blocked))
unfolding lock_destroy
lock_destroy_free s c =
    elim s.lock_queue
        as (λ q.
          Agrees (record s { owner = none; lock_queue = q })
          → (lock_destroy (record s { owner = none; lock_queue = q }) ≡ ok tt)
            ↔ ((t : ℕ) → (s.phase t ≢ holding) × (s.phase t ≢ blocked))) [
              | [] ↦ λ d. (
                λ e t. (free-holding s t c, empty-blocked (record s { owner = none }) t d),
                λ n. refl,
              )
              | w ∷ ws ↦ λ d. (
                λ e. ground (arith, e),
                λ n. absurd ((n w).1 (head-is_blocked w ws (s.phase w) (d.blocked_in w)).0),
              )
            ]
      c

-- lock_destroy returns exactly when no thread holds the lock or is asleep on it.
pub lock_destroy_iff :
    (s : System)
    → Agrees s
    → (lock_destroy s ≡ ok tt) ↔ ((t : ℕ) → (s.phase t ≢ holding) × (s.phase t ≢ blocked))
unfolding lock_destroy
lock_destroy_iff s c =
    elim s.owner
        as (λ o.
          Agrees (record s { owner = o })
          → (lock_destroy (record s { owner = o }) ≡ ok tt)
            ↔ ((t : ℕ) → (s.phase t ≢ holding) × (s.phase t ≢ blocked))) [
              | none ↦ lock_destroy_free s
              | some u ↦ λ d. (λ e. ground (arith, e), λ n. absurd ((n u).0 (owned-holding u s d)))
            ]
      c
