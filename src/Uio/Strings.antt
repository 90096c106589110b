-- ===== src/Uio/Strings.antt =====
-- copyinstr and copyoutstr.
use os.Base.{
  ℕ, zero, suc, ◌+◌, ◌-◌, ◌^◌, ◌≤◌, ◌<◌, ◌≡◌, ◌≢◌, ◌⊎◌, inl, inr, refl, sym, ap, subst, ◌∙◌, Bool,
  true, false, ◌&&◌, arith, ◌==◌, ◌||◌, Bool-cases, ==_iff, ltb, leb,
}
use os.Base.Outcome.{Outcome, ok, err, efault, enametoolong}
use os.Pagetable.{update}
use os.Uio.{Cpu, usertop, copyfail, copystr, copyinstr, copyoutstr, after, no_handler, catching}
use os.Uio.Bytes.{Clear, Moved, Checked, inside, cut, outside, copycheck-Checked}

-- The first n bytes are not zero.
abbrev pub NonZero : (ℕ → ℕ) → ℕ → ℕ → Type 0
NonZero mem src n = (k : ℕ) → k < n → mem (src + k) ≢ 0

-- What a copy of a string may come to, when at most `room` bytes may be copied and the caller gave
-- `maxlen`: the string with its zero, and their number; no zero in them, with ENAMETOOLONG if there was
-- room for maxlen bytes and EFAULT if not; or an access that faults.
pub data StringCopy (faults : ℕ → Bool) (maxlen room dest src : ℕ) (mem : ℕ → ℕ)
    : Outcome ℕ × Cpu → Type 0 where
  terminated :
      {i : ℕ} {s' : Cpu}
      → i < room
      → Clear faults dest src (suc i)
      → NonZero mem src i
      → mem (src + i) ≡ 0
      → Moved (suc i) dest src mem s'.mem
      → StringCopy faults maxlen room dest src mem (ok (i + 1), s')
  too_long :
      {s' : Cpu}
      → room ≡ maxlen
      → NonZero mem src maxlen
      → Moved maxlen dest src mem s'.mem
      → StringCopy faults maxlen room dest src mem (err enametoolong, s')
  at_boundary :
      {s' : Cpu}
      → room < maxlen
      → NonZero mem src room
      → Moved room dest src mem s'.mem
      → StringCopy faults maxlen room dest src mem (err efault, s')
  at_fault :
      {k : ℕ} {s' : Cpu}
      → k < room
      → Clear faults dest src k
      → NonZero mem src k
      → (faults (src + k) || faults (dest + k)) ≡ true
      → Moved k dest src mem s'.mem
      → StringCopy faults maxlen room dest src mem (err efault, s')

module _ (faults : ℕ → Bool) (maxlen room dest src : ℕ) (mem : ℕ → ℕ) (few : room ≤ maxlen)
    (apart : (src + room ≤ dest) ⊎ (dest + room ≤ src)) where
  source_same :
      (i : ℕ) (mem' : ℕ → ℕ) → i < room → Moved i dest src mem mem' → mem' (src + i) ≡ mem (src + i)
  source_same i mem' lt m =
      let out : (leb dest (src + i) && ltb (src + i) (dest + i)) ≡ false =
        ground (arith, lt, apart) in
      m (src + i) ∙ rw out refl

  one_more :
      (i : ℕ) (mem' : ℕ → ℕ)
      → i < room
      → Moved i dest src mem mem'
      → Moved (suc i) dest src mem (update mem' (dest + i) (mem' (src + i)))
  one_more i mem' lt m y = elim (Bool-cases (dest + i == y)) [
    | inl t ↦
        let in_range : (leb dest y && ltb y (dest + suc i)) ≡ true = ground (arith, t) in
        rw (t, in_range) (source_same i mem' lt m ∙ ap mem (ground (arith, t)))
    | inr t ↦
        let same : (leb dest y && ltb y (dest + suc i)) ≡ (leb dest y && ltb y (dest + i)) =
          ground (arith, t) in
        rw (t, same) (m y)
  ]

  extend : {P : ℕ → Type 0} (i : ℕ) → ((k : ℕ) → k < i → P k) → P i → (k : ℕ) → k < suc i → P k
  extend {P = P} i below here k lt = elim (Bool-cases (k == i)) [
    | inl t ↦ subst P (sym ((==_iff k i).0 t)) here
    | inr t ↦ below k (ground (arith, t, lt))
  ]

  copystr-StringCopy :
      (left i : ℕ) (s : Cpu)
      → i + left ≡ maxlen
      → i ≤ room
      → s.badfaultfunc ≡ true
      → Clear faults dest src i
      → NonZero mem src i
      → Moved i dest src mem s.mem
      → StringCopy faults maxlen room dest src mem (copystr faults left i dest src maxlen room s)
  unfolding copystr copyfail
  copystr-StringCopy zero i s total le h c nz m =
      let all : (ltb room maxlen) ≡ false = ground (arith, total, le, few) in
      let same : i ≡ maxlen = omega (arith, total) in
      rw all (
        too_long (omega (arith, total, le, few)) (subst (NonZero mem src) same nz)
          (subst (λ x. Moved x dest src mem s.mem) same m))
  copystr-StringCopy (suc left) i s total le h c nz m = elim (Bool-cases (ltb i room)) [
    | inr end ↦
        let same : i ≡ room = ground (arith, end, le) in
        let less : (ltb room maxlen) ≡ true = ground (arith, total, same) in
        rw (end, less)
          (at_boundary (ground (arith, less)) (subst (NonZero mem src) same nz)
            (subst (λ x. Moved x dest src mem s.mem) same m))
    | inl within ↦
        let lt : i < room = ground (arith, within) in
        elim (Bool-cases (faults (src + i) || faults (dest + i))) [
          | inl f ↦ rw (within, f, h) (at_fault lt c nz f m)
          | inr f ↦
              let byte = source_same i s.mem lt m in
              let clear = extend {P = λ k. (faults (src + k) || faults (dest + k)) ≡ false} i c f in
              elim (Bool-cases (s.mem (src + i) == 0)) [
                | inl z ↦
                    rw (within, f, z)
                      (terminated lt clear nz (sym byte ∙ (==_iff _ 0).0 z) (one_more i s.mem lt m))
                | inr z ↦
                    rw (within, f, z)
                      (copystr-StringCopy left (suc i) _ (omega (arith, total)) (omega (arith, lt))
                        h clear
                        (extend {P = λ k. mem (src + k) ≢ 0} i nz (λ e. ground (arith, z, byte, e)))
                        (one_more i s.mem lt m))
              ]
        ]
  ]

-- What a call for a string of at most len bytes, zero included, comes to: a copy within the `room`
-- that there is below usertop, or a refusal with nothing changed.
pub data UserString (faults : ℕ → Bool) (user len dest src : ℕ) (s : Cpu)
    : Outcome ℕ × Cpu → Type 0 where
  ran :
      {room : ℕ} {r : Outcome ℕ × Cpu}
      → user + room ≤ usertop
      → (room ≡ len) ⊎ ((room < len) × (user + room ≡ usertop))
      → StringCopy faults len room dest src s.mem r
      → UserString faults user len dest src s (no_handler r)
  refused : usertop < user + len → UserString faults user len dest src s (err efault, s)

module _ (faults : ℕ → Bool) (user len dest src : ℕ) (s : Cpu) (pos : 0 < len) where
  checked_string :
      (r : Outcome ℕ)
      → Checked user len r
      → ((room : ℕ) → user + room ≤ usertop → (src + room ≤ dest) ⊎ (dest + room ≤ src))
      → UserString faults user len dest src s (
          after
            (r, s)
            (λ stoplen s. no_handler (copystr faults len 0 dest src len stoplen (catching s))))
  checked_string _ (inside p le) apart = ran le (inl refl) (
      copystr-StringCopy faults len len dest src s.mem (omega arith) (apart len le) len 0
        (catching s) (omega arith) (omega arith) refl (λ k lt. absurd (omega arith))
        (λ k lt. absurd (omega arith)) (λ y. ground arith))
  checked_string _ (cut lt o) apart =
      let room : ℕ = usertop - user in
      let low : user + room ≤ usertop = omega (arith, lt) in
      let over : usertop < user + len = elim o [
        | inl e ↦ absurd (omega (arith, e, pos))
        | inr h ↦ h
      ] in
      ran low (inr (omega (arith, over, lt), omega (arith, lt))) (
        copystr-StringCopy faults len room dest src s.mem (omega (arith, over, lt)) (apart room low)
          len 0 (catching s) (omega arith) (omega arith) refl (λ k h. absurd (omega arith))
          (λ k h. absurd (omega arith)) (λ y. ground arith))
  checked_string _ (outside o) apart =
      refused (elim o [ inl e ↦ absurd (omega (arith, e, pos)) | inr h ↦ h ])

-- copyinstr of at most len bytes, len not 0, from usersrc to the kernel, both below 2 ^ 32, copies
-- the string with its zero and returns their number; without a zero, it fails with ENAMETOOLONG
-- behind len bytes, and with EFAULT at USERTOP or at a byte that faults, with the bytes before
-- copied; and it fails with EFAULT and changes nothing only when the len bytes do not end at or
-- below USERTOP.
pub copyinstr-UserString :
    (faults : ℕ → Bool) (usersrc dest len : ℕ) (s : Cpu)
    → usersrc < 2 ^ 32
    → len < 2 ^ 32
    → 0 < len
    → usertop ≤ dest
    → UserString faults usersrc len dest usersrc s (copyinstr faults usersrc dest len s)
unfolding copyinstr
copyinstr-UserString faults usersrc dest len s hu hl pos kernel =
    checked_string faults usersrc len dest usersrc s pos _ (copycheck-Checked usersrc len hu hl)
      (λ room le. inl (omega arith))

pub copyoutstr-UserString :
    (faults : ℕ → Bool) (src userdest len : ℕ) (s : Cpu)
    → userdest < 2 ^ 32
    → len < 2 ^ 32
    → 0 < len
    → usertop ≤ src
    → UserString faults userdest len userdest src s (copyoutstr faults src userdest len s)
unfolding copyoutstr
copyoutstr-UserString faults src userdest len s hu hl pos kernel =
    checked_string faults userdest len userdest src s pos _ (copycheck-Checked userdest len hu hl)
      (λ room le. inr (omega arith))
