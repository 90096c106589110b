-- ===== src/Uio.antt =====
-- os161-1.11/kern/lib/copyinout.c and os161-1.11/kern/userprog/uio.c: copying between the kernel and a
-- user process, over the bytes of memory. `faults` says at which addresses an access cannot be resolved
-- by vm_fault; one that can leaves the bytes as they are, so it is not a step of its own. A uio_rw and a
-- uio_segflg have no values but those of their enumerations.
pub mod Bytes
pub mod Copy
pub mod Strings
pub mod Ended
pub mod Move
pub mod Zeros
mod Tests
use os.Base.{
  ℕ, zero, suc, ◌+◌, ◌-◌, ◌%◌, ◌^◌, Bool, true, false, not, ◌&&◌, ◌||◌, Option, none, some, ltb,
  leb, ◌==◌, if◌then◌else◌,
}
use os.Base.Outcome.{Outcome, ok, err, panic, fault, out_of_fuel, Errno, efault, enametoolong}
use os.Pagetable.{update}

abbrev pub usertop : ℕ
usertop = 0x8000_0000

-- Memory, and whether pcb_badfaultfunc is copyfail.
pub record Cpu : Type 0 where
  pub mem : ℕ → ℕ
  pub badfaultfunc : Bool

-- A call, and what follows it if it returns a value.
abbrev pub after {ℓ κ μ} :
    {S : Type μ} {A : Type ℓ} {B : Type κ}
    → (Outcome A × S)
    → (A → S → Outcome B × S)
    → Outcome B × S
after (ok a, s) f = f a s
after (err e, s) f = (err e, s)
after (panic, s) f = (panic, s)
after (fault, s) f = (fault, s)
after (out_of_fuel, s) f = (out_of_fuel, s)

unfoldable pub copycheck : ℕ → ℕ → Outcome ℕ
copycheck userptr len =
    let top : ℕ = (userptr + len + 2 ^ 32 - 1) % 2 ^ 32 in
    if ltb top userptr
    then err efault
    else (if leb usertop userptr
        then err efault
        else (if leb usertop top then ok (usertop - userptr) else ok len))

-- An access that faults for good: copyfail jumps back to the setjmp, which then returns 1.
unfoldable pub copyfail {ℓ} : {A : Type ℓ} → Cpu → Outcome A × Cpu
copyfail s = if s.badfaultfunc then (err efault, record s { badfaultfunc = false }) else (panic, s)

-- memcpy of bytes in the order of their addresses, up to an access that faults.
unfoldable pub memcpy : (ℕ → Bool) → ℕ → ℕ → ℕ → Cpu → Outcome (Unit {0}) × Cpu
memcpy faults zero dest src s = (ok tt, s)
memcpy faults (suc left) dest src s =
    let rest : Outcome (Unit {0}) × Cpu =
      memcpy faults left (suc dest) (suc src) (record s { mem = update s.mem dest (s.mem src) }) in
    if faults src || faults dest then copyfail s else rest

abbrev pub catching : Cpu → Cpu
catching s = record s { badfaultfunc = true }

-- curthread->t_pcb.pcb_badfaultfunc = NULL
abbrev pub no_handler {ℓ} : {A : Type ℓ} → Outcome A × Cpu → Outcome A × Cpu
no_handler r = (r.0, record r.1 { badfaultfunc = false })

unfoldable pub copyin : (ℕ → Bool) → ℕ → ℕ → ℕ → Cpu → Outcome (Unit {0}) × Cpu
copyin faults usersrc dest len s =
    after (copycheck usersrc len, s)
      (λ stoplen s.
        if not (stoplen == len)
        then (err efault, s)
        else no_handler (memcpy faults len dest usersrc (catching s)))

unfoldable pub copyout : (ℕ → Bool) → ℕ → ℕ → ℕ → Cpu → Outcome (Unit {0}) × Cpu
copyout faults src userdest len s =
    after (copycheck userdest len, s)
      (λ stoplen s.
        if not (stoplen == len)
        then (err efault, s)
        else no_handler (memcpy faults len userdest src (catching s)))

-- for (i=0; i<maxlen && i<stoplen; i++), with `left` more i below maxlen. The result is *gotlen.
unfoldable pub copystr : (ℕ → Bool) → ℕ → ℕ → ℕ → ℕ → ℕ → ℕ → Cpu → Outcome ℕ × Cpu
copystr faults zero i dest src maxlen stoplen s =
    if ltb stoplen maxlen then (err efault, s) else (err enametoolong, s)
copystr faults (suc left) i dest src maxlen stoplen s =
    let s' : Cpu = record s { mem = update s.mem (dest + i) (s.mem (src + i)) } in
    let rest : Outcome ℕ × Cpu = copystr faults left (suc i) dest src maxlen stoplen s' in
    if ltb i stoplen
    then (if faults (src + i) || faults (dest + i)
        then copyfail s
        else (if s.mem (src + i) == 0 then (ok (i + 1), s') else rest))
    else (if ltb stoplen maxlen then (err efault, s) else (err enametoolong, s))

unfoldable pub copyinstr : (ℕ → Bool) → ℕ → ℕ → ℕ → Cpu → Outcome ℕ × Cpu
copyinstr faults usersrc dest len s =
    after (copycheck usersrc len, s)
      (λ stoplen s. no_handler (copystr faults len 0 dest usersrc len stoplen (catching s)))

unfoldable pub copyoutstr : (ℕ → Bool) → ℕ → ℕ → ℕ → Cpu → Outcome ℕ × Cpu
copyoutstr faults src userdest len s =
    after (copycheck userdest len, s)
      (λ stoplen s. no_handler (copystr faults len 0 userdest src len stoplen (catching s)))

pub data Rw : Type 0 where
  uio_read uio_write : Rw

pub data Seg : Type 0 where
  uio_userspace uio_sysspace uio_userispace : Seg

pub record Uio : Type 0 where
  pub iov_base : ℕ
  pub iov_len : ℕ
  pub uio_offset : ℕ
  pub uio_resid : ℕ
  pub uio_segflg : Seg
  pub uio_rw : Rw
  pub uio_space : Option ℕ

abbrev pub is_read : Rw → Bool
is_read uio_read = true
is_read uio_write = false

abbrev pub is_sysspace : Seg → Bool
is_sysspace uio_sysspace = true
is_sysspace _ = false

abbrev pub memmove : ℕ → ℕ → ℕ → (ℕ → ℕ) → ℕ → ℕ
memmove n dest src mem y = if leb dest y && ltb y (dest + n) then mem (src + (y - dest)) else mem y

-- switch (uio->uio_segflg)
unfoldable pub transfer_bytes : (ℕ → Bool) → ℕ → ℕ → Uio → Cpu → Outcome (Unit {0}) × Cpu
transfer_bytes faults ptr size u s =
    if is_sysspace u.uio_segflg
    then (if is_read u.uio_rw
        then (ok tt, record s { mem = memmove size u.iov_base ptr s.mem })
        else (ok tt, record s { mem = memmove size ptr u.iov_base s.mem }))
    else (if is_read u.uio_rw
        then copyout faults ptr u.iov_base size s
        else copyin faults u.iov_base ptr size s)

abbrev pub advance : ℕ → Uio → Uio
advance size u = record u {
  iov_base = (u.iov_base + size) % 2 ^ 32;
  iov_len = u.iov_len - size;
  uio_resid = (u.uio_resid + 2 ^ 32 - size) % 2 ^ 32;
  uio_offset = (u.uio_offset + size) % 2 ^ 32;
}

-- One round of the loop, and the rest of it.
unfoldable pub move_loop : (ℕ → Bool) → ℕ → ℕ → ℕ → Uio → Cpu → Outcome (Unit {0}) × (Uio × Cpu)
move_loop faults zero ptr n u s =
    if ltb 0 n && ltb 0 u.uio_resid then (out_of_fuel, (u, s)) else (ok tt, (u, s))
move_loop faults (suc fuel) ptr n u s =
    let size : ℕ = if ltb n u.iov_len then n else u.iov_len in
    let moved : Outcome (Unit {0}) × Cpu = transfer_bytes faults ptr size u s in
    let rest : Outcome (Unit {0}) × (Uio × Cpu) =
      after (moved.0, (u, moved.1))
        (λ x r. move_loop faults fuel ((ptr + size) % 2 ^ 32) (n - size) (advance size u) r.1) in
    if ltb 0 n && ltb 0 u.uio_resid
    then (if size == 0 then (panic, (u, s)) else rest)
    else (ok tt, (u, s))

abbrev pub same_space : Option ℕ → Option ℕ → Bool
same_space none none = true
same_space (some a) (some b) = a == b
same_space _ _ = false

-- Every round moves a byte or more, so there are at most n.
unfoldable pub uiomove :
    (ℕ → Bool) → Option ℕ → ℕ → ℕ → Uio → Cpu → Outcome (Unit {0}) × (Uio × Cpu)
uiomove faults vmspace ptr n u s =
    if same_space u.uio_space (if is_sysspace u.uio_segflg then none else vmspace)
    then move_loop faults n ptr n u s
    else (panic, (u, s))

-- `zbuf` is the address of the array zeros.
unfoldable pub zeros_loop :
    (ℕ → Bool) → Option ℕ → ℕ → ℕ → ℕ → Uio → Cpu → Outcome (Unit {0}) × (Uio × Cpu)
zeros_loop faults vmspace zbuf zero n u s =
    if ltb 0 n then (out_of_fuel, (u, s)) else (ok tt, (u, s))
zeros_loop faults vmspace zbuf (suc fuel) n u s =
    let amt : ℕ = if ltb n 16 then n else 16 in
    let rest : Outcome (Unit {0}) × (Uio × Cpu) =
      after (uiomove faults vmspace zbuf amt u s)
        (λ x r. zeros_loop faults vmspace zbuf fuel (n - amt) r.0 r.1) in
    if ltb 0 n then rest else (ok tt, (u, s))

unfoldable pub uiomovezeros :
    (ℕ → Bool) → Option ℕ → ℕ → ℕ → Uio → Cpu → Outcome (Unit {0}) × (Uio × Cpu)
uiomovezeros faults vmspace zbuf n u s =
    if is_read u.uio_rw then zeros_loop faults vmspace zbuf n n u s else (panic, (u, s))

unfoldable pub mk_kuio : ℕ → ℕ → ℕ → Rw → Uio
mk_kuio kbuf len pos rw = record {
  iov_base = kbuf;
  iov_len = len;
  uio_offset = pos;
  uio_resid = len;
  uio_segflg = uio_sysspace;
  uio_rw = rw;
  uio_space = none;
}
