-- ===== src/Uio/Zeros.antt =====
-- uiomovezeros on a buffer in the kernel.
use os.Base.{
  ℕ, zero, suc, ◌+◌, ◌-◌, ◌≤◌, ◌<◌, ◌≡◌, ◌⊎◌, inl, inr, refl, ap, subst, ◌∙◌, Bool, false, ◌&&◌,
  arith, Bool-cases, if◌then◌else◌, ltb, leb, Option,
}
use os.Base.Outcome.{ok}
use os.Uio.{Cpu, Uio, uio_read, is_read, zeros_loop, uiomovezeros}
use os.Uio.Move.{IsKernelUio, MovedOn, moved_mem, least, uiomove-MovedOn}

-- n zeros are in the uio's buffer, and behind it.
pub record Zeroed (n : ℕ) (u : Uio) (s : Cpu) (u' : Uio) (s' : Cpu) : Type 0 where
  pub base : u'.iov_base ≡ u.iov_base + n
  pub rest : u'.iov_len + n ≡ u.iov_len
  pub offset : u'.uio_offset ≡ u.uio_offset + n
  pub resid : u'.uio_resid + n ≡ u.uio_resid
  pub bytes :
      (y : ℕ) → s'.mem y ≡ (if leb u.iov_base y && ltb y (u.iov_base + n) then 0 else s.mem y)

-- The sixteen zeros, away from the buffer.
pub record IsZeros (zbuf : ℕ) (u : Uio) (s : Cpu) : Type 0 where
  pub zeros : (k : ℕ) → k < 16 → s.mem (zbuf + k) ≡ 0
  pub apart : (zbuf + 16 ≤ u.iov_base) ⊎ (u.iov_base + u.iov_len ≤ zbuf)

kept-IsKernelUio :
    (k ptr : ℕ) (u : Uio) (s : Cpu) (u' : Uio) (s' : Cpu)
    → IsKernelUio u
    → MovedOn k ptr u s u' s'
    → IsKernelUio u'
kept-IsKernelUio k ptr u s u' s' h m = record {
  sysspace = m.kept.0 ∙ h.sysspace;
  no_space = m.kept.2 ∙ h.no_space;
  ends_below = omega (arith, h.ends_below, m.base, m.rest);
  resid_lt = omega (arith, h.resid_lt, m.resid);
  offset_lt = omega (arith, h.offset_lt, m.offset, m.resid);
}

module _ (faults : ℕ → Bool) (vmspace : Option ℕ) (zbuf : ℕ) where
  -- A round reads zeros only.
  round_bytes :
      (k : ℕ) (u : Uio) (s : Cpu) (u' : Uio) (s' : Cpu)
      → k ≤ 16
      → k ≤ u.iov_len
      → u.uio_rw ≡ uio_read
      → IsZeros zbuf u s
      → MovedOn k zbuf u s u' s'
      → (y : ℕ) → s'.mem y ≡ (if leb u.iov_base y && ltb y (u.iov_base + k) then 0 else s.mem y)
  round_bytes k u s u' s' le fits read z m y =
      m.bytes y
      ∙ ap (λ r. moved_mem r k u.iov_base zbuf s.mem y) read
      ∙ elim (Bool-cases (leb u.iov_base y && ltb y (u.iov_base + k))) [
        | inl i ↦ rw (i) (z.zeros (y - u.iov_base) (ground (arith, i, le)))
        | inr i ↦ rw (i) refl
      ]

  round-IsZeros :
      (k : ℕ) (u : Uio) (s : Cpu) (u' : Uio) (s' : Cpu)
      → k ≤ 16
      → k ≤ u.iov_len
      → u.uio_rw ≡ uio_read
      → IsZeros zbuf u s
      → MovedOn k zbuf u s u' s'
      → IsZeros zbuf u' s'
  round-IsZeros k u s u' s' le fits read z m = record {
    zeros = λ j lt.
        let outside : (leb u.iov_base (zbuf + j) && ltb (zbuf + j) (u.iov_base + k)) ≡ false =
          ground (arith, z.apart, lt, fits) in
        round_bytes k u s u' s' le fits read z m (zbuf + j) ∙ rw outside (z.zeros j lt);
    apart = elim z.apart [
      | inl e ↦ inl (omega (arith, e, m.base))
      | inr e ↦ inr (omega (arith, e, m.base, m.rest))
    ];
  }

  no_bytes : (n : ℕ) (u : Uio) (s : Cpu) → n ≡ 0 → Zeroed n u s u s
  no_bytes n u s e = record {
    base = omega (arith, e);
    rest = omega (arith, e);
    offset = omega (arith, e);
    resid = omega (arith, e);
    bytes = λ y. ground (arith, e);
  }

  both_rounds :
      (k n : ℕ) (u u' : Uio) (s s' : Cpu)
      → k ≤ n
      → u'.iov_base ≡ u.iov_base + k
      → ((y : ℕ) → s'.mem y ≡ (if leb u.iov_base y && ltb y (u.iov_base + k) then 0 else s.mem y))
      → (y : ℕ)
      → (if leb u'.iov_base y && ltb y (u'.iov_base + (n - k)) then 0 else s'.mem y)
        ≡ (if leb u.iov_base y && ltb y (u.iov_base + n) then 0 else s.mem y)
  both_rounds k n u u' s s' le base first y = ground (arith, le, base, first y)

  zeros_loop-Zeroed :
      (fuel n : ℕ) (u : Uio) (s : Cpu)
      → n ≤ fuel
      → n ≤ u.uio_resid
      → n ≤ u.iov_len
      → u.uio_rw ≡ uio_read
      → IsKernelUio u
      → IsZeros zbuf u s
      → (u' : Uio) × (s' : Cpu) × (zeros_loop faults vmspace zbuf fuel n u s ≡ (ok tt, (u', s')))
        × Zeroed n u s u' s'
  unfolding zeros_loop
  zeros_loop-Zeroed zero n u s enough small fits read h z =
      let none_left : ltb 0 n ≡ false = ground (arith, enough) in
      (u, s, rw none_left refl, no_bytes n u s (omega (arith, enough)))
  zeros_loop-Zeroed (suc fuel) n u s enough small fits read h z = elim (Bool-cases (ltb 0 n)) [
    | inr stop ↦ (u, s, rw stop refl, no_bytes n u s (ground (arith, stop)))
    | inl more ↦
        let amt : ℕ = least n 16 in
        let le : amt ≤ n = ground arith in
        let few : amt ≤ 16 = ground arith in
        let pos : 0 < amt = ground (arith, more) in
        let room : amt ≤ u.iov_len = omega (arith, le, fits) in
        let whole : least amt u.uio_resid ≡ amt = ground (arith, le, small) in
        let (u1, s1, e, m') =
          uiomove-MovedOn faults vmspace zbuf amt u s h (inl (omega (arith, le, small), room)) in
        let m : MovedOn amt zbuf u s u1 s1 = subst (λ k. MovedOn k zbuf u s u1 s1) whole m' in
        let (u2, s2, e2, t) =
          zeros_loop-Zeroed fuel (n - amt) u1 s1 (omega (arith, enough, pos))
            (omega (arith, small, le, m.resid)) (omega (arith, fits, le, m.rest)) (m.kept.1 ∙ read)
            (kept-IsKernelUio amt zbuf u s u1 s1 h m)
            (round-IsZeros amt u s u1 s1 few room read z m) in
        (
          u2,
          s2,
          rw (more, e, e2) refl,
          record {
            base = omega (arith, t.base, m.base, le);
            rest = omega (arith, t.rest, m.rest, le);
            offset = omega (arith, t.offset, m.offset, le);
            resid = omega (arith, t.resid, m.resid, le);
            bytes = λ y.
                t.bytes y
                ∙ both_rounds amt n u u1 s s1 le m.base
                    (round_bytes amt u s u1 s1 few room read z m) y;
          },
        )
  ]

-- uiomovezeros of n bytes to a uio that reads into kernel memory, does not overflow and has room
-- for n, with the array of zeros away from the buffer, succeeds: the next n bytes of the buffer
-- are 0, other memory is unchanged, and base, offset, length and resid move by n.
pub uiomovezeros-Zeroed :
    (faults : ℕ → Bool) (vmspace : Option ℕ) (zbuf n : ℕ) (u : Uio) (s : Cpu)
    → n ≤ u.uio_resid
    → n ≤ u.iov_len
    → u.uio_rw ≡ uio_read
    → IsKernelUio u
    → IsZeros zbuf u s
    → (u' : Uio) × (s' : Cpu) × (uiomovezeros faults vmspace zbuf n u s ≡ (ok tt, (u', s')))
      × Zeroed n u s u' s'
unfolding uiomovezeros
uiomovezeros-Zeroed faults vmspace zbuf n u s small fits read h z =
    let (u', s', e, t) =
      zeros_loop-Zeroed faults vmspace zbuf n n u s (omega arith) small fits read h z in
    (u', s', rw (ap is_read read) e, t)
