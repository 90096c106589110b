-- ===== src/Uio/Tests.antt =====
-- Each theorem at an input.
use os.Base.{ℕ, ◌≡◌, ◌≤◌, refl, false, Bool, none, arith, inl}
use os.Base.Outcome.{ok}
use os.Uio.{Cpu, Uio, copyin, copyinstr, uiomove, uiomovezeros, uio_read, mk_kuio}
use os.Uio.Copy.{UserCopy, copyin-UserCopy}
use os.Uio.Strings.{UserString, copyinstr-UserString}
use os.Uio.Ended.{Ended, uiomovezeros-Ended}
use os.Uio.Move.{IsKernelUio, MovedOn, least, uiomove-MovedOn}
use os.Uio.Zeros.{IsZeros, Zeroed, uiomovezeros-Zeroed}

abbrev no_faults : ℕ → Bool
no_faults a = false

abbrev cpu : Cpu
cpu = record { mem = λ a. 0; badfaultfunc = false }

abbrev buffer : Uio
buffer = mk_kuio 0x8000_1000 40 100 uio_read

buffer-IsKernelUio : IsKernelUio buffer
unfolding mk_kuio
buffer-IsKernelUio = record {
  sysspace = refl;
  no_space = refl;
  ends_below = omega arith;
  resid_lt = omega arith;
  offset_lt = omega arith;
}

array_apart : IsZeros 0x8000_0000 buffer cpu
unfolding mk_kuio
array_apart = record { zeros = λ k lt. refl; apart = inl (omega arith) }

buffer_fits : (20 ≤ buffer.uio_resid) × (20 ≤ buffer.iov_len)
unfolding mk_kuio
buffer_fits = (omega arith, omega arith)

buffer_read : buffer.uio_rw ≡ uio_read
unfolding mk_kuio
buffer_read = refl

copyin-UserCopy_example :
    UserCopy no_faults 4096 8 0x8000_0000 4096 cpu (copyin no_faults 4096 0x8000_0000 8 cpu)
copyin-UserCopy_example =
    copyin-UserCopy no_faults 4096 0x8000_0000 8 cpu (omega arith) (omega arith) (omega arith)

copyinstr-UserString_example :
    UserString no_faults 4096 8 0x8000_0000 4096 cpu (copyinstr no_faults 4096 0x8000_0000 8 cpu)
copyinstr-UserString_example =
    copyinstr-UserString no_faults 4096 0x8000_0000 8 cpu (omega arith) (omega arith) (omega arith)
      (omega arith)

uiomovezeros-Ended_example : Ended (uiomovezeros no_faults none 0x8000_0000 100 buffer cpu)
uiomovezeros-Ended_example = uiomovezeros-Ended no_faults none 0x8000_0000 100 buffer cpu

uiomove-MovedOn_example :
    (u : Uio) × (s : Cpu) × (uiomove no_faults none 0x8000_0000 20 buffer cpu ≡ (ok tt, (u, s)))
    × MovedOn (least 20 buffer.uio_resid) 0x8000_0000 buffer cpu u s
uiomove-MovedOn_example =
    uiomove-MovedOn no_faults none 0x8000_0000 20 buffer cpu buffer-IsKernelUio (inl buffer_fits)

uiomovezeros-Zeroed_example :
    (u : Uio) × (s : Cpu) × (uiomovezeros no_faults none 0x8000_0000 20 buffer cpu
      ≡ (ok tt, (u, s)))
    × Zeroed 20 buffer cpu u s
uiomovezeros-Zeroed_example =
    uiomovezeros-Zeroed no_faults none 0x8000_0000 20 buffer cpu buffer_fits.0 buffer_fits.1
      buffer_read buffer-IsKernelUio array_apart
