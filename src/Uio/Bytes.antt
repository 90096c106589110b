-- ===== src/Uio/Bytes.antt =====
-- What memcpy and copycheck come to.
use os.Base.{
  ℕ, zero, suc, ◌+◌, ◌-◌, ◌%◌, ◌^◌, ◌≤◌, ◌<◌, ◌≡◌, ◌⊎◌, inl, inr, refl, ap, ◌∙◌, Bool, true, false,
  arith, ◌==◌, ◌||◌, ◌&&◌, Bool-cases, ltb, leb, ==_iff,
}
use os.Base.Outcome.{Outcome, ok, err, efault}
use os.Pagetable.{update}
use os.Uio.{Cpu, usertop, copycheck, copyfail, memcpy, memmove}

-- The first n bytes can be accessed.
abbrev pub Clear : (ℕ → Bool) → ℕ → ℕ → ℕ → Type 0
Clear faults dest src n = (k : ℕ) → k < n → (faults (src + k) || faults (dest + k)) ≡ false

-- Memory behind a copy of n bytes.
abbrev pub Moved : ℕ → ℕ → ℕ → (ℕ → ℕ) → (ℕ → ℕ) → Type 0
Moved n dest src mem mem' = (y : ℕ) → mem' y ≡ memmove n dest src mem y

-- With a handler, a copy of n bytes copies them all, or those before the first that faults.
pub data Copied (faults : ℕ → Bool) (n dest src : ℕ) (s : Cpu)
    : Outcome (Unit {0}) × Cpu → Type 0 where
  whole :
      {s' : Cpu}
      → Clear faults dest src n
      → Moved n dest src s.mem s'.mem
      → Copied faults n dest src s (ok tt, s')
  part :
      {k : ℕ} {s' : Cpu}
      → k < n
      → Clear faults dest src k
      → (faults (src + k) || faults (dest + k)) ≡ true
      → Moved k dest src s.mem s'.mem
      → Copied faults n dest src s (err efault, s')

module _ (faults : ℕ → Bool) where
  ap2 : {a b c d : ℕ} → a ≡ b → c ≡ d → (faults a || faults c) ≡ (faults b || faults d)
  ap2 {a = a} {d = d} e f = ap (λ x. faults a || faults x) f ∙ ap (λ x. faults x || faults d) e

  free_of_faults :
      (dest src n : ℕ)
      → (faults src || faults dest) ≡ false
      → Clear faults (suc dest) (suc src) n
      → Clear faults dest src (suc n)
  free_of_faults dest src n here c zero lt = ap2 (omega arith) (omega arith) ∙ here
  free_of_faults dest src n here c (suc k) lt = ap2 (omega arith) (omega arith) ∙ c k (omega arith)

  -- A first byte, and n more.
  mem_suc :
      (n dest src : ℕ) (mem mem' : ℕ → ℕ)
      → (src + suc n ≤ dest) ⊎ (dest + suc n ≤ src)
      → Moved n (suc dest) (suc src) (update mem dest (mem src)) mem'
      → Moved (suc n) dest src mem mem'
  mem_suc n dest src mem mem' apart m y = m y ∙ elim (Bool-cases (dest == y)) [
    | inl t ↦
        let before : leb (suc dest) y ≡ false = ground (arith, t) in
        let from : leb dest y ≡ true = ground (arith, t) in
        let to : ltb y (dest + suc n) ≡ true = ground (arith, t) in
        rw (before, t, from, to) (ap mem (ground (arith, t)))
    | inr t ↦ elim (Bool-cases (leb (suc dest) y && ltb y (suc dest + n))) [
      | inl i ↦
          let from : leb dest y ≡ true = ground (arith, i) in
          let to : ltb y (dest + suc n) ≡ true = ground (arith, i) in
          let source : (dest == suc src + (y - suc dest)) ≡ false = ground (arith, i, apart) in
          rw (i, source, from, to) (ap mem (ground (arith, i)))
      | inr i ↦
          let outside : (leb dest y && ltb y (dest + suc n)) ≡ false = ground (arith, i, t) in
          rw (i, t, outside) refl
    ]
  ]

  memcpy-Copied_of :
      (n dest src : ℕ) (s : Cpu)
      → (src + suc n ≤ dest) ⊎ (dest + suc n ≤ src)
      → (faults src || faults dest) ≡ false
      → (r : Outcome (Unit {0}) × Cpu)
      → Copied faults n (suc dest) (suc src) (record s { mem = update s.mem dest (s.mem src) }) r
      → Copied faults (suc n) dest src s r
  memcpy-Copied_of n dest src s apart here _ (whole c m) =
      whole (free_of_faults dest src n here c) (mem_suc n dest src s.mem _ apart m)
  memcpy-Copied_of n dest src s apart here _ (part {k} lt c f m) =
      part {k = suc k} (omega arith) (free_of_faults dest src k here c)
        (ap2 (omega arith) (omega arith) ∙ f) (mem_suc k dest src s.mem _ (shorter apart) m)
    where
      shorter :
          (src + suc n ≤ dest) ⊎ (dest + suc n ≤ src) → (src + suc k ≤ dest) ⊎ (dest + suc k ≤ src)
      shorter (inl h) = inl (omega (arith, h, lt))
      shorter (inr h) = inr (omega (arith, h, lt))

  pub memcpy-Copied :
      (n dest src : ℕ) (s : Cpu)
      → s.badfaultfunc ≡ true
      → (src + n ≤ dest) ⊎ (dest + n ≤ src)
      → Copied faults n dest src s (memcpy faults n dest src s)
  unfolding memcpy copyfail
  memcpy-Copied zero dest src s h apart = whole (λ k lt. absurd (omega arith)) (λ y. ground arith)
  memcpy-Copied (suc n) dest src s h apart = elim (Bool-cases (faults src || faults dest)) [
    | inl f ↦
        rw (f, h)
          (part {k = 0} (omega arith) (λ k lt. absurd (omega arith))
            (ap2 (omega arith) (omega arith) ∙ f) (λ y. ground arith))
    | inr f ↦ rw f (
        memcpy-Copied_of n dest src s apart f _ (
          memcpy-Copied n (suc dest) (suc src) (record s { mem = update s.mem dest (s.mem src) }) h
            (elim apart [ inl x ↦ inl (omega arith) | inr x ↦ inr (omega arith) ])))
  ]

-- No byte, or bytes at or above usertop.
abbrev pub Outside : ℕ → ℕ → Type 0
Outside userptr len = (len ≡ 0) ⊎ (usertop < userptr + len)

-- copycheck lets through what lies below usertop and is not empty; what starts below it may be cut.
pub data Checked (userptr len : ℕ) : Outcome ℕ → Type 0 where
  inside : 0 < len → userptr + len ≤ usertop → Checked userptr len (ok len)
  cut : userptr < usertop → Outside userptr len → Checked userptr len (ok (usertop - userptr))
  outside : Outside userptr len → Checked userptr len (err efault)

pub copycheck-Checked :
    (userptr len : ℕ)
    → userptr < 2 ^ 32
    → len < 2 ^ 32
    → Checked userptr len (copycheck userptr len)
unfolding copycheck
copycheck-Checked userptr len hu hl =
    let top : ℕ = (userptr + len + 2 ^ 32 - 1) % 2 ^ 32 in
    elim (Bool-cases (ltb top userptr)) [
      | inl wraps ↦ rw wraps (
          outside (elim (Bool-cases (len == 0)) [
            | inl e ↦ inl ((==_iff len 0).0 e)
            | inr e ↦ inr (ground (arith, wraps, e, hu, hl))
          ]))
      | inr flat ↦ elim (Bool-cases (leb usertop userptr)) [
        | inl high ↦
            rw (flat, high)
              (outside (elim (Bool-cases (len == 0)) [
                | inl e ↦ inl ((==_iff len 0).0 e)
                | inr e ↦ inr (ground (arith, high, e))
              ]))
        | inr low ↦ elim (Bool-cases (leb usertop top)) [
          | inl over ↦
              rw (flat, low, over)
                (cut (ground (arith, low)) (elim (Bool-cases (len == 0)) [
                  | inl e ↦ inl ((==_iff len 0).0 e)
                  | inr e ↦ inr (ground (arith, flat, low, over, e, hu, hl))
                ]))
          | inr under ↦
              rw (flat, low, under)
                (inside (ground (arith, flat, low, under, hu, hl))
                  (ground (arith, flat, low, under, hu, hl)))
        ]
      ]
    ]
