-- ===== src/Files/Calls.antt =====
-- What sys_read and sys_write do, and the system calls on files one after the other.
use os.Base.{
  ℕ, ◌-◌, ◌^◌, ◌≤◌, ◌<◌, ◌≡◌, refl, Bool, true, false, arith, inl, inr, Option, none, some, List,
  ltb, leb, length, ◌==◌, Bool-cases, ◌||◌,
}
use os.Base.Outcome.{Errno, ebadf, efault, ok}
use os.Pagetable.{Machine}
use os.Addrspace.{AddressSpace, as_valid_ptr}
use os.Files.{
  Fd, Vfs, Answer, max_file_handles, acquire_process, release_process, fail, sys_read, sys_write,
  is_negative, o_rdonly, o_wronly,
}
use os.Files.Open.{idle}
use os.Files.Transfer.{error_answer, Served, Returns, body-Served}

module _ {ℓ} {Name Node V : Type ℓ} (vfs : Vfs Name Node V) where
  -- What sys_read or sys_write makes of table t and VFS state v: `valid` is the answer of
  -- as_valid_ptr, `banned` says that the call never takes the handle, and `own` that it opens it.
  pub data Called (vop : Node → ℕ → ℕ → V → (Option Errno × ℕ) × V) (forbidden mode fd buflen : ℕ)
      (banned own : Bool) (t : List (Option (Fd Name Node))) (v : V)
      : Option Errno → Answer → List (Option (Fd Name Node)) → V → Type ℓ where
    bad_pointer :
        {e : Errno}
        → Called vop forbidden mode fd buflen banned own t v (some e) (error_answer efault) t v
    no_handle :
        max_file_handles ≤ fd
        → Called vop forbidden mode fd buflen banned own t v none (error_answer ebadf) t v
    banned_handle :
        banned ≡ true
        → Called vop forbidden mode fd buflen banned own t v none (error_answer ebadf) t v
    served :
        {a : Answer} {t' : List (Option (Fd Name Node))} {v' : V}
        → fd < max_file_handles
        → banned ≡ false
        → Served vfs vop forbidden mode fd buflen t v own a t' v'
        → Called vop forbidden mode fd buflen banned own t v none a t' v'

  module _ (mem : ℕ → Bool) (enough : (k : ℕ) → mem k ≡ true) (space : ℕ)
      (vmspace : Option AddressSpace) (machine : Machine) (fd buf buflen : ℕ)
      (t : List (Option (Fd Name Node))) (v : V) (len : length t ≡ max_file_handles) where
    -- With memory at hand, both locks free and an answer of as_valid_ptr, sys_read on a table of
    -- 32 handles fails with EFAULT for a bad pointer and with EBADF for a handle that is out of
    -- range, 1 or 2. Handle 0 is opened as the console if it was not. Then a closed or write-only
    -- file gives EBADF, an error of VOP_READ is passed on, and else the position moves on by the
    -- bytes that are answered. Both locks are free behind it.
    pub sys_read-Called :
        (r : Option Errno)
        → as_valid_ptr space vmspace buf machine ≡ ok r
        → Returns vfs vfs.vop_read o_wronly o_rdonly fd buflen
            (Called vfs.vop_read o_wronly o_rdonly fd buflen
              ((fd == 1) || (fd == 2))
              (fd == 0)
              t
              v
              r)
            (sys_read vfs mem space vmspace machine fd buf buflen (idle t v))
    unfolding sys_read acquire_process fail release_process is_negative
    sys_read-Called (some e) h = (error_answer efault, t, v, rw (h) refl, bad_pointer)
    sys_read-Called none h = elim (Bool-cases (ltb fd max_file_handles)) [
      | inr far ↦
          let e : (leb (2 ^ 31) fd || ltb (max_file_handles - 1) fd) ≡ true = ground (arith, far) in
          (error_answer ebadf, t, v, rw (h, e) refl, no_handle (ground (arith, far)))
      | inl near ↦
          let e : (leb (2 ^ 31) fd || ltb (max_file_handles - 1) fd) ≡ false =
            ground (arith, near) in
          elim (Bool-cases ((fd == 1) || (fd == 2))) [
            | inl b ↦ (error_answer ebadf, t, v, rw (h, e, b) refl, banned_handle b)
            | inr b ↦
                let (a, t', v', q, p) =
                  body-Served vfs vfs.vop_read o_wronly o_rdonly fd buflen mem enough (fd == 0) t v
                    len (ground (arith, near)) in
                (a, t', v', rw (h, e, b) q, served (ground (arith, near)) b p)
          ]
    ]

    -- With memory at hand, both locks free and an answer of as_valid_ptr, sys_write on a table of
    -- 32 handles fails with EFAULT for a bad pointer and with EBADF for a handle that is out of
    -- range or 0. Handles 1 and 2 are opened as the console if they were not. Then a closed or
    -- read-only file gives EBADF, an error of VOP_WRITE is passed on, and else the position moves
    -- on by the bytes that are answered. Both locks are free behind it.
    pub sys_write-Called :
        (r : Option Errno)
        → as_valid_ptr space vmspace buf machine ≡ ok r
        → Returns vfs vfs.vop_write o_rdonly o_wronly fd buflen
            (Called vfs.vop_write o_rdonly o_wronly fd buflen
              (fd == 0)
              ((fd == 1) || (fd == 2))
              t
              v
              r)
            (sys_write vfs mem space vmspace machine fd buf buflen (idle t v))
    unfolding sys_write acquire_process fail release_process is_negative
    sys_write-Called (some e) h = (error_answer efault, t, v, rw (h) refl, bad_pointer)
    sys_write-Called none h = elim (Bool-cases (ltb fd max_file_handles)) [
      | inr far ↦
          let e : (leb (2 ^ 31) fd || ltb (max_file_handles - 1) fd) ≡ true = ground (arith, far) in
          (error_answer ebadf, t, v, rw (h, e) refl, no_handle (ground (arith, far)))
      | inl near ↦
          let e : (leb (2 ^ 31) fd || ltb (max_file_handles - 1) fd) ≡ false =
            ground (arith, near) in
          elim (Bool-cases (fd == 0)) [
            | inl b ↦ (error_answer ebadf, t, v, rw (h, e, b) refl, banned_handle b)
            | inr b ↦
                let (a, t', v', q, p) =
                  body-Served vfs vfs.vop_write o_rdonly o_wronly fd buflen mem enough
                    ((fd == 1) || (fd == 2)) t v len (ground (arith, near)) in
                (a, t', v', rw (h, e, b) q, served (ground (arith, near)) b p)
          ]
    ]
