-- ===== src/Uio/Copy.antt =====
-- copyin and copyout.
use os.Base.{
  ℕ, ◌+◌, ◌-◌, ◌^◌, ◌≤◌, ◌<◌, ◌≡◌, ◌⊎◌, inl, inr, refl, Bool, true, false, not, arith, ◌==◌, ◌||◌,
  if◌then◌else◌, ==_iff,
}
use os.Base.Outcome.{Outcome, ok, err, efault}
use os.Uio.{Cpu, usertop, memcpy, copyin, copyout, after, no_handler, catching}
use os.Uio.Bytes.{
  Clear, Moved, Copied, whole, part, memcpy-Copied, Outside, Checked, inside, cut, outside,
  copycheck-Checked,
}

-- What a copy of n bytes, n > 0 of them below usertop, may come to: all of them are copied; or those
-- before the first that faults, with EFAULT; and any other copy is refused with nothing changed.
pub data UserCopy (faults : ℕ → Bool) (user n dest src : ℕ) (s : Cpu)
    : Outcome (Unit {0}) × Cpu → Type 0 where
  copied :
      {s' : Cpu}
      → 0 < n
      → user + n ≤ usertop
      → Clear faults dest src n
      → Moved n dest src s.mem s'.mem
      → s'.badfaultfunc ≡ false
      → UserCopy faults user n dest src s (ok tt, s')
  faulted :
      {k : ℕ} {s' : Cpu}
      → k < n
      → user + n ≤ usertop
      → Clear faults dest src k
      → (faults (src + k) || faults (dest + k)) ≡ true
      → Moved k dest src s.mem s'.mem
      → s'.badfaultfunc ≡ false
      → UserCopy faults user n dest src s (err efault, s')
  refused : Outside user n → UserCopy faults user n dest src s (err efault, s)

module _ (faults : ℕ → Bool) (user n dest src : ℕ) (s : Cpu) where
  finished :
      (r : Outcome (Unit {0}) × Cpu)
      → 0 < n
      → user + n ≤ usertop
      → Copied faults n dest src (catching s) r
      → UserCopy faults user n dest src s (no_handler r)
  finished _ pos le (whole c m) = copied pos le c m refl
  finished _ pos le (part lt c f m) = faulted lt le c f m refl

  checked_copy :
      (r : Outcome ℕ)
      → Checked user n r
      → (user + n ≤ usertop → (src + n ≤ dest) ⊎ (dest + n ≤ src))
      → UserCopy faults user n dest src s (
          after
            (r, s)
            (λ stoplen s.
              if not (stoplen == n)
              then (err efault, s)
              else no_handler (memcpy faults n dest src (catching s))))
  checked_copy _ (inside pos le) apart =
      let same : (n == n) ≡ true = (==_iff n n).1 refl in
      rw same (finished _ pos le (memcpy-Copied faults n dest src (catching s) refl (apart le)))
  checked_copy _ (cut lt o) apart =
      let other : (usertop - user == n) ≡ false = ground (arith, lt, o) in rw other (refused o)
  checked_copy _ (outside o) apart = refused o

-- copyin of len bytes from usersrc to the kernel, both below 2 ^ 32, copies them all when len is
-- not 0, they end at or below USERTOP and none faults; if one faults, the bytes before it are
-- copied and the result is EFAULT; and when len is 0 or they end above USERTOP, the result is
-- EFAULT and nothing changes. A call that copies leaves no handler set.
pub copyin-UserCopy :
    (faults : ℕ → Bool) (usersrc dest len : ℕ) (s : Cpu)
    → usersrc < 2 ^ 32
    → len < 2 ^ 32
    → usertop ≤ dest
    → UserCopy faults usersrc len dest usersrc s (copyin faults usersrc dest len s)
unfolding copyin
copyin-UserCopy faults usersrc dest len s hu hl kernel =
    checked_copy faults usersrc len dest usersrc s _ (copycheck-Checked usersrc len hu hl)
      (λ le. inl (omega arith))

pub copyout-UserCopy :
    (faults : ℕ → Bool) (src userdest len : ℕ) (s : Cpu)
    → userdest < 2 ^ 32
    → len < 2 ^ 32
    → usertop ≤ src
    → UserCopy faults userdest len userdest src s (copyout faults src userdest len s)
unfolding copyout
copyout-UserCopy faults src userdest len s hu hl kernel =
    checked_copy faults userdest len userdest src s _ (copycheck-Checked userdest len hu hl)
      (λ le. inr (omega arith))
