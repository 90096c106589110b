-- ===== src/Uio/Ended.antt =====
-- The loops of uiomove and uiomovezeros come to an end.
use os.Base.{
  ℕ, zero, suc, ◌+◌, ◌-◌, ◌%◌, ◌^◌, ◌≤◌, ◌≡◌, inl, inr, Bool, false, not, ◌&&◌, arith, ◌==◌, ◌||◌,
  Bool-cases, if◌then◌else◌, ltb, leb, Option, none,
}
use os.Base.Outcome.{Outcome, ok, err, panic, fault, out_of_fuel, efault}
use os.Uio.{
  Cpu, Uio, usertop, after, transfer_bytes, is_sysspace, is_read, move_loop, uiomove, zeros_loop,
  uiomovezeros, copyin, copyout, memcpy, copycheck, copyfail, same_space, no_handler, catching,
}

-- The loop was not cut off.
abbrev pub Ended {ℓ κ} : {A : Type ℓ} {S : Type κ} → Outcome A × S → Type 0
Ended r = elim r.0 as (λ o. Type 0) [
  | ok a ↦ Unit {0}
  | err e ↦ Unit {0}
  | panic ↦ Unit {0}
  | fault ↦ Unit {0}
  | out_of_fuel ↦ ⊥
]

memcpy-Ended : (faults : ℕ → Bool) (n dest src : ℕ) (s : Cpu) → Ended (memcpy faults n dest src s)
unfolding memcpy copyfail
memcpy-Ended faults zero dest src s = tt
memcpy-Ended faults (suc n) dest src s = elim (Bool-cases (faults src || faults dest)) [
  | inl f ↦ elim (Bool-cases s.badfaultfunc) [ inl b ↦ rw (f, b) tt | inr b ↦ rw (f, b) tt ]
  | inr f ↦ rw f (memcpy-Ended faults n (suc dest) (suc src) _)
]

after-Ended :
    {A : Type 0} {S : Type 0} (r : Outcome A × S) (f : A → S → Outcome (Unit {0}) × S)
    → Ended r
    → ((a : A) (s : S) → Ended (f a s))
    → Ended (after r f)
after-Ended (ok a, s) f e g = g a s
after-Ended (err x, s) f e g = tt
after-Ended (panic, s) f e g = tt
after-Ended (fault, s) f e g = tt
after-Ended (out_of_fuel, s) f e g = e

copycheck-Ended : (userptr len : ℕ) (s : Cpu) → Ended (copycheck userptr len, s)
unfolding copycheck
copycheck-Ended userptr len s =
    elim (Bool-cases (ltb ((userptr + len + 2 ^ 32 - 1) % 2 ^ 32) userptr)) [
      | inl e ↦ rw e tt
      | inr e ↦ elim (Bool-cases (leb usertop userptr)) [
        | inl f ↦ rw (e, f) tt
        | inr f ↦ elim (Bool-cases (leb usertop ((userptr + len + 2 ^ 32 - 1) % 2 ^ 32))) [
          | inl g ↦ rw (e, f, g) tt
          | inr g ↦ rw (e, f, g) tt
        ]
      ]
    ]

copy-Ended :
    (faults : ℕ → Bool) (user n dest src : ℕ) (s : Cpu)
    → Ended (
        after
          (copycheck user n, s)
          (λ stoplen s.
            if not (stoplen == n)
            then (err efault, s)
            else no_handler (memcpy faults n dest src (catching s))))
copy-Ended faults user n dest src s = after-Ended _ _ (copycheck-Ended user n s) (λ stoplen s.
    elim (Bool-cases (stoplen == n)) [
      | inl e ↦ rw e (memcpy-Ended faults n dest src (catching s))
      | inr e ↦ rw e tt
    ])

transfer_bytes-Ended :
    (faults : ℕ → Bool) (ptr size : ℕ) (u : Uio) (s : Cpu)
    → Ended (transfer_bytes faults ptr size u s)
unfolding transfer_bytes copyin copyout
transfer_bytes-Ended faults ptr size u s = elim (Bool-cases (is_sysspace u.uio_segflg)) [
  | inl e ↦ elim (Bool-cases (is_read u.uio_rw)) [ inl f ↦ rw (e, f) tt | inr f ↦ rw (e, f) tt ]
  | inr e ↦ elim (Bool-cases (is_read u.uio_rw)) [
    | inl f ↦ rw (e, f) (copy-Ended faults u.iov_base size u.iov_base ptr s)
    | inr f ↦ rw (e, f) (copy-Ended faults u.iov_base size ptr u.iov_base s)
  ]
]

module _ (faults : ℕ → Bool) where
  move_loop-Ended :
      (fuel ptr n : ℕ) (u : Uio) (s : Cpu) → n ≤ fuel → Ended (move_loop faults fuel ptr n u s)
  unfolding move_loop
  move_loop-Ended zero ptr n u s le =
      let none_left : ltb 0 n ≡ false = ground (arith, le) in rw none_left tt
  move_loop-Ended (suc fuel) ptr n u s le = elim (Bool-cases (ltb 0 n && ltb 0 u.uio_resid)) [
    | inr stop ↦ rw stop tt
    | inl more ↦
        let size : ℕ = if ltb n u.iov_len then n else u.iov_len in
        elim (Bool-cases (size == 0)) [
          | inl z ↦ rw (more, z) tt
          | inr z ↦
              rw (more, z)
                (after-Ended _ _ (transfer_bytes-Ended faults ptr size u s)
                  (λ x r. move_loop-Ended fuel _ (n - size) _ r.1 (ground (arith, le, more, z))))
        ]
  ]

pub uiomove-Ended :
    (faults : ℕ → Bool) (vmspace : Option ℕ) (ptr n : ℕ) (u : Uio) (s : Cpu)
    → Ended (uiomove faults vmspace ptr n u s)
unfolding uiomove
uiomove-Ended faults vmspace ptr n u s =
    elim (Bool-cases
      (same_space u.uio_space (if is_sysspace u.uio_segflg then none else vmspace))) [
        | inl e ↦ rw e (move_loop-Ended faults n ptr n u s (omega arith))
        | inr e ↦ rw e tt
      ]

zeros_loop-Ended :
    (faults : ℕ → Bool) (vmspace : Option ℕ) (zbuf fuel n : ℕ) (u : Uio) (s : Cpu)
    → n ≤ fuel
    → Ended (zeros_loop faults vmspace zbuf fuel n u s)
unfolding zeros_loop
zeros_loop-Ended faults vmspace zbuf zero n u s le =
    let none_left : ltb 0 n ≡ false = ground (arith, le) in rw none_left tt
zeros_loop-Ended faults vmspace zbuf (suc fuel) n u s le = elim (Bool-cases (ltb 0 n)) [
  | inr stop ↦ rw stop tt
  | inl more ↦
      let amt : ℕ = if ltb n 16 then n else 16 in
      rw more (
        after-Ended _ _ (uiomove-Ended faults vmspace zbuf amt u s) (λ x r.
          zeros_loop-Ended faults vmspace zbuf fuel (n - amt) r.0 r.1 (ground (arith, le, more))))
]

-- For every uio, n and memory, uiomovezeros and the calls of uiomove in it come to an end: the
-- fuel n of each loop is enough.
pub uiomovezeros-Ended :
    (faults : ℕ → Bool) (vmspace : Option ℕ) (zbuf n : ℕ) (u : Uio) (s : Cpu)
    → Ended (uiomovezeros faults vmspace zbuf n u s)
unfolding uiomovezeros
uiomovezeros-Ended faults vmspace zbuf n u s = elim (Bool-cases (is_read u.uio_rw)) [
  | inl e ↦ rw e (zeros_loop-Ended faults vmspace zbuf n n u s (omega arith))
  | inr e ↦ rw e tt
]
