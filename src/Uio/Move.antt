-- ===== src/Uio/Move.antt =====
-- uiomove on a buffer in the kernel.
use os.Base.{
  ℕ, zero, suc, ◌+◌, ◌-◌, ◌%◌, ◌^◌, ◌≤◌, ◌<◌, ◌≡◌, ◌⊎◌, inl, inr, refl, sym, ap, subst, ◌∙◌, Bool,
  true, false, ◌&&◌, arith, ◌==◌, Bool-cases, if◌then◌else◌, ==_iff, ltb, Option, none,
}
use os.Base.Outcome.{ok}
use os.Uio.{
  Cpu, Uio, Rw, uio_read, uio_write, uio_sysspace, memmove, transfer_bytes, advance, is_sysspace,
  is_read, move_loop, uiomove, same_space,
}

module _ (faults : ℕ → Bool) where
  loop_stop :
      (fuel ptr n : ℕ) (u : Uio) (s : Cpu)
      → (n ≡ 0) ⊎ (u.uio_resid ≡ 0)
      → move_loop faults fuel ptr n u s ≡ (ok tt, (u, s))
  unfolding move_loop
  loop_stop fuel ptr n u s e = go fuel
    where
      still : (ltb 0 n && ltb 0 u.uio_resid) ≡ false
      still = elim e [ inl z ↦ ground (arith, z) | inr z ↦ ground (arith, z) ]

      go : (fuel : ℕ) → move_loop faults fuel ptr n u s ≡ (ok tt, (u, s))
      go zero = rw still refl
      go (suc fuel) = rw still refl

-- The bytes of a transfer: to the buffer of the uio when it reads, from it when it writes.
abbrev pub moved_mem : Rw → ℕ → ℕ → ℕ → (ℕ → ℕ) → ℕ → ℕ
moved_mem uio_read k base ptr mem = memmove k base ptr mem
moved_mem uio_write k base ptr mem = memmove k ptr base mem

-- k bytes of the uio's buffer, which is in the kernel, are behind it.
pub record MovedOn (k ptr : ℕ) (u : Uio) (s : Cpu) (u' : Uio) (s' : Cpu) : Type 0 where
  pub base : u'.iov_base ≡ u.iov_base + k
  pub rest : u'.iov_len + k ≡ u.iov_len
  pub offset : u'.uio_offset ≡ u.uio_offset + k
  pub resid : u'.uio_resid + k ≡ u.uio_resid
  pub kept : (u'.uio_segflg ≡ u.uio_segflg) × (u'.uio_rw ≡ u.uio_rw) × (u'.uio_space ≡ u.uio_space)
  pub bytes : (y : ℕ) → s'.mem y ≡ moved_mem u.uio_rw k u.iov_base ptr s.mem y

-- A buffer in the kernel, with sizes and offsets that do not overflow.
pub record IsKernelUio (u : Uio) : Type 0 where
  pub sysspace : u.uio_segflg ≡ uio_sysspace
  pub no_space : u.uio_space ≡ none
  pub ends_below : u.iov_base + u.iov_len < 2 ^ 32
  pub resid_lt : u.uio_resid < 2 ^ 32
  pub offset_lt : u.uio_offset + u.uio_resid < 2 ^ 31

abbrev pub least : ℕ → ℕ → ℕ
least n m = if ltb n m then n else m

moved_none :
    (rw' : Rw) (base ptr : ℕ) (mem : ℕ → ℕ) (y : ℕ) → mem y ≡ moved_mem rw' 0 base ptr mem y
moved_none uio_read base ptr mem y = ground arith
moved_none uio_write base ptr mem y = ground arith

abbrev written : ℕ → ℕ → Uio → Cpu → Cpu
written size ptr u s = record s { mem = moved_mem u.uio_rw size u.iov_base ptr s.mem }

transfer_bytes-kernel :
    (faults : ℕ → Bool) (ptr size : ℕ) (u : Uio) (s : Cpu)
    → u.uio_segflg ≡ uio_sysspace
    → transfer_bytes faults ptr size u s ≡ (ok tt, written size ptr u s)
unfolding transfer_bytes
transfer_bytes-kernel faults ptr size u s e = go u.uio_rw refl
  where
    go :
        (r : Rw) → u.uio_rw ≡ r → transfer_bytes faults ptr size u s ≡ (ok tt, written size ptr u s)
    go uio_read q = rw (ap is_sysspace e, ap is_read q, q) refl
    go uio_write q = rw (ap is_sysspace e, ap is_read q, q) refl

module _ (faults : ℕ → Bool) (ptr : ℕ) (u : Uio) (s : Cpu) (h : IsKernelUio u) where
  advance-MovedOn :
      (k : ℕ)
      → k ≤ u.uio_resid
      → k ≤ u.iov_len
      → MovedOn k ptr u s (advance k u) (written k ptr u s)
  advance-MovedOn k small fits = record {
    base = omega (arith, h.ends_below, fits);
    rest = omega (arith, fits);
    offset = omega (arith, h.offset_lt, small);
    resid = omega (arith, h.resid_lt, small);
    kept = (refl, refl, refl);
    bytes = λ y. refl;
  }

  -- A round that moves k bytes, with no bytes or no room behind it.
  one_round :
      (fuel m k : ℕ)
      → 0 < k
      → k ≤ u.uio_resid
      → k ≤ suc m
      → k ≡ (if ltb (suc m) u.iov_len then suc m else u.iov_len)
      → (suc m ≡ k) ⊎ (u.uio_resid ≡ k)
      → move_loop faults (suc fuel) ptr (suc m) u s ≡ (ok tt, (advance k u, written k ptr u s))
  unfolding move_loop
  one_round fuel m k pos small le size last =
      let more : (ltb 0 (suc m) && ltb 0 u.uio_resid) ≡ true = ground (arith, pos, small) in
      let some_bytes : (k == 0) ≡ false = ground (arith, pos) in
      rw (more, sym size, some_bytes, transfer_bytes-kernel faults ptr k u s h.sysspace)
        (loop_stop faults fuel ((ptr + k) % 2 ^ 32) (suc m - k) (advance k u) (written k ptr u s)
          (elim last [
            | inl e ↦ inl (omega (arith, e))
            | inr e ↦ inr (omega (arith, e, h.resid_lt))
          ]))

  move_loop-MovedOn :
      (n : ℕ)
      → ((n ≤ u.uio_resid) × (n ≤ u.iov_len)) ⊎ (u.uio_resid ≡ u.iov_len)
      → (u' : Uio) × (s' : Cpu) × (move_loop faults n ptr n u s ≡ (ok tt, (u', s')))
        × MovedOn (least n u.uio_resid) ptr u s u' s'
  move_loop-MovedOn n fits = elim (Bool-cases (least n u.uio_resid == 0)) [
    | inl z ↦
        let none_moved : least n u.uio_resid ≡ 0 = (==_iff _ 0).0 z in
        (
          u,
          s,
          loop_stop faults n ptr n u s (elim (Bool-cases (ltb n u.uio_resid)) [
            | inl e ↦ inl (ground (arith, e, none_moved))
            | inr e ↦ inr (ground (arith, e, none_moved))
          ]),
          subst (λ k. MovedOn k ptr u s u s) (sym none_moved)
              (record {
                base = omega arith;
                rest = omega arith;
                offset = omega arith;
                resid = omega arith;
                kept = (refl, refl, refl);
                bytes = λ y. moved_none u.uio_rw u.iov_base ptr s.mem y;
              }),
        )
    | inr z ↦ some_moved n fits (ground (arith, z))
  ]
    where
      some_moved :
          (n : ℕ)
          → ((n ≤ u.uio_resid) × (n ≤ u.iov_len)) ⊎ (u.uio_resid ≡ u.iov_len)
          → 0 < least n u.uio_resid
          → (u' : Uio) × (s' : Cpu) × (move_loop faults n ptr n u s ≡ (ok tt, (u', s')))
            × MovedOn (least n u.uio_resid) ptr u s u' s'
      some_moved zero fits pos = ground (arith, pos)
      some_moved (suc m) fits pos =
          let k : ℕ = least (suc m) u.uio_resid in
          let small : k ≤ u.uio_resid = ground arith in
          let le : k ≤ suc m = ground arith in
          let room : k ≤ u.iov_len = elim fits [
            | inl (a, b) ↦ omega (arith, le, b)
            | inr e ↦ omega (arith, small, e)
          ] in
          let size : k ≡ (if ltb (suc m) u.iov_len then suc m else u.iov_len) = elim fits [
            | inl (a, b) ↦ ground (arith, a, b)
            | inr e ↦ ap (λ x. if ltb (suc m) x then suc m else x) e
          ] in
          let last : (suc m ≡ k) ⊎ (u.uio_resid ≡ k) = elim (Bool-cases (ltb (suc m) u.uio_resid)) [
            | inl e ↦ inl (ground (arith, e))
            | inr e ↦ inr (ground (arith, e))
          ] in
          (
            advance k u,
            written k ptr u s,
            one_round m m k pos small le size last,
            advance-MovedOn k small room,
          )

-- uiomove of n bytes with a uio for kernel memory that does not overflow, when n is at most its
-- resid and its length or these are equal, succeeds and moves the least of n and resid bytes: they
-- are copied in the direction of the uio, nothing else changes in memory, base and offset grow by
-- their number, and length and resid shrink by it.
pub uiomove-MovedOn :
    (faults : ℕ → Bool) (vmspace : Option ℕ) (ptr n : ℕ) (u : Uio) (s : Cpu)
    → IsKernelUio u
    → ((n ≤ u.uio_resid) × (n ≤ u.iov_len)) ⊎ (u.uio_resid ≡ u.iov_len)
    → (u' : Uio) × (s' : Cpu) × (uiomove faults vmspace ptr n u s ≡ (ok tt, (u', s')))
      × MovedOn (least n u.uio_resid) ptr u s u' s'
unfolding uiomove
uiomove-MovedOn faults vmspace ptr n u s h fits =
    let right_space : same_space u.uio_space (if is_sysspace u.uio_segflg then none else vmspace)
        ≡ true =
      ap (λ x. same_space x (if is_sysspace u.uio_segflg then none else vmspace)) h.no_space
      ∙ ap (λ x. same_space none (if is_sysspace x then none else vmspace)) h.sysspace in
    rw right_space (move_loop-MovedOn faults ptr u s h n fits)
