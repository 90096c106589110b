-- ===== src/Files.antt =====
-- os161-1.11/kern/arch/mips/mips/syscall/open.c, close.c and readwrite.c: the file table of a process
-- and the system calls on it. The VFS layer is a parameter. `mem` says which kmalloc finds memory;
-- the code does not look, so without memory it writes through NULL.
pub mod Open
pub mod Close
pub mod Transfer
pub mod Calls
pub mod Sequence
mod Tests
use os.Base.{
  ℕ, zero, suc, ◌+◌, ◌-◌, ◌%◌, ◌^◌, Bool, true, false, not, ◌&&◌, ◌||◌, Option, none, some, List,
  ltb, leb, ◌==◌, if◌then◌else◌, get_elem?, set, ◌⊎◌, inl, inr,
}
use os.Base.Outcome.{
  Errno, efault, ebadf, emfile, Outcome, ok, panic, fault, out_of_fuel, ◌>>=◌, ◌>>◌, assert, deref,
}
use os.Pagetable.{Machine}
use os.Addrspace.{AddressSpace, as_valid_ptr}

-- MAX_FILE_HANDLES and FIRST_FILE_HANDLE of kern/include/fd.h.
abbrev pub max_file_handles : ℕ
max_file_handles = 32

abbrev pub first_file_handle : ℕ
first_file_handle = 3

-- O_RDONLY and O_WRONLY of kern/include/kern/unistd.h.
abbrev pub o_rdonly : ℕ
o_rdonly = 0

abbrev pub o_wronly : ℕ
o_wronly = 1

-- kstrdup may give NULL for the name.
pub record Fd {ℓ} (Name Node : Type ℓ) : Type ℓ where
  pub name : Option Name
  pub flags : ℕ
  pub position : ℕ
  pub node : Node

-- The VFS layer with its state V: `vop_read node offset resid` is the result of VOP_READ and the
-- uio_offset that it leaves. An error 0 is `none`.
pub record Vfs {ℓ} (Name Node V : Type ℓ) : Type ℓ where
  pub con : Name
  pub vfs_open : Name → ℕ → V → (Errno ⊎ Node) × V
  pub vfs_close : Node → V → V
  pub vop_read : Node → ℕ → ℕ → V → (Option Errno × ℕ) × V
  pub vop_write : Node → ℕ → ℕ → V → (Option Errno × ℕ) × V

-- One process: its file table, whether it holds process_lock and its file table's lock, and the VFS.
pub record Files {ℓ} (Name Node V : Type ℓ) : Type ℓ where
  pub file_table : List (Option (Fd Name Node))
  pub process_lock : Bool
  pub file_table_lock : Bool
  pub vfs_state : V

-- What a system call gives: a value, where `none` is -1, and the error, where `none` is 0.
pub record Answer : Type 0 where
  pub retval : Option ℕ
  pub error : Option Errno

-- A handle is the number of an int's bits.
unfoldable pub is_negative : ℕ → Bool
is_negative fd = leb (2 ^ 31) fd

abbrev pub is_null {ℓ} : {A : Type ℓ} → Option A → Bool
is_null none = true
is_null (some a) = false

module _ {ℓ} {Name Node V : Type ℓ} where
  -- A thread that waits for a lock of its own waits for ever.
  unfoldable pub acquire_process : Files Name Node V → Outcome (Files Name Node V)
  acquire_process s = if s.process_lock then out_of_fuel else ok (record s { process_lock = true })

  unfoldable pub acquire_table : Files Name Node V → Outcome (Files Name Node V)
  acquire_table s =
      if s.file_table_lock then out_of_fuel else ok (record s { file_table_lock = true })

  unfoldable pub release_process : Files Name Node V → Outcome (Files Name Node V)
  release_process s = do assert s.process_lock; ok (record s { process_lock = false })

  unfoldable pub release_table : Files Name Node V → Outcome (Files Name Node V)
  release_table s = do assert s.file_table_lock; ok (record s { file_table_lock = false })

  -- file_table[fd] = entry
  unfoldable pub put : ℕ → Option (Fd Name Node) → Files Name Node V → Files Name Node V
  put fd entry s = record s { file_table = set s.file_table fd entry }

  -- The labels error: of sys_read and sys_write.
  unfoldable pub fail : Errno → Files Name Node V → Outcome (Answer × Files Name Node V)
  fail e s = do
    s' ← if s.file_table_lock then release_table s else ok s
    s'' ← release_process s'
    ok (record { retval = none; error = some e }, s'')

module _ {ℓ} {Name Node V : Type ℓ} (vfs : Vfs Name Node V) (mem : ℕ → Bool) where
  -- `_open`. mem 0 is the kmalloc, mem 1 and mem 2 are the two kstrdups; vfs_open reads the second.
  unfoldable pub open_fd :
      ℕ → Name → ℕ → Files Name Node V → Outcome (Option Errno × Files Name Node V)
  open_fd fd filename flags s = do
    assert (ltb fd max_file_handles)
    entry ← deref (get_elem? s.file_table fd)
    assert (is_null entry)
    if mem 0 && mem 2 then ok tt else fault
    let name : Option Name = if mem 1 then some filename else none
    let opened : (Errno ⊎ Node) × V = vfs.vfs_open filename flags s.vfs_state
    let s' : Files Name Node V = record s { vfs_state = opened.1 }
    elim opened.0 [
      | inl e ↦ ok (some e, put fd none s')
      | inr n ↦ ok (
        none,
        put fd (some (record { name = name; flags = flags % 4; position = 0; node = n })) s',
      )
    ]

  -- `_close`.
  unfoldable pub close_fd : ℕ → Files Name Node V → Outcome (Files Name Node V)
  close_fd fd s = do
    entry ← deref (get_elem? s.file_table fd)
    f ← deref entry
    ok (put fd none (record s { vfs_state = vfs.vfs_close f.node s.vfs_state }))

  -- for (i = FIRST_FILE_HANDLE; i < MAX_FILE_HANDLES; i++) with the test behind it; the first
  -- number is how many handles are left.
  unfoldable pub open_loop :
      Name → ℕ → ℕ → ℕ → Files Name Node V → Outcome (Answer × Files Name Node V)
  open_loop filename flags zero i s = ok (record { retval = none; error = some emfile }, s)
  open_loop filename flags (suc left) i s = do
    entry ← deref (get_elem? s.file_table i)
    elim entry [
      | none ↦ do
        (e, s') ← open_fd i filename flags s
        ok (record { retval = some i; error = e }, s')
      | some f ↦ open_loop filename flags left (suc i) s
    ]

  unfoldable pub sys_open : Name → ℕ → Files Name Node V → Outcome (Answer × Files Name Node V)
  sys_open filename flags s = do
    s ← acquire_process s
    s ← acquire_table s
    (a, s) ← open_loop filename flags (max_file_handles - first_file_handle) first_file_handle s
    s ← release_table s
    s ← release_process s
    ok (a, s)

  -- The part of sys_close between the locks.
  unfoldable pub close_body : ℕ → Files Name Node V → Outcome (Option Errno × Files Name Node V)
  close_body fd s =
      let slot : Outcome (Option Errno × Files Name Node V) = do
        entry ← deref (get_elem? s.file_table fd)
        if is_null entry then ok (some ebadf, s) else (do s' ← close_fd fd s; ok (none, s'))
      in if not (is_negative fd) && leb fd 2
        then ok (some ebadf, s)
        else if is_negative fd || leb max_file_handles fd
        then ok (some ebadf, s)
        else slot

  unfoldable pub sys_close : ℕ → Files Name Node V → Outcome (Option Errno × Files Name Node V)
  sys_close fd s = do
    s ← acquire_process s
    s ← acquire_table s
    (e, s) ← close_body fd s
    s ← release_table s
    s ← release_process s
    ok (e, s)

  -- What sys_read and sys_write share behind the checks of their arguments: `flags` is what the file
  -- must not have been opened with, and `vop` is VOP_READ or VOP_WRITE. The kmalloc of constructUio is
  -- mem 3.
  unfoldable pub transfer :
      (Node → ℕ → ℕ → V → (Option Errno × ℕ) × V)
      → ℕ
      → ℕ
      → ℕ
      → Files Name Node V
      → Outcome (Answer × Files Name Node V)
  transfer vop forbidden fd buflen s = do
    s ← acquire_table s
    entry ← deref (get_elem? s.file_table fd)
    elim entry [
      | none ↦ fail ebadf s
      | some f ↦
          let result : (Option Errno × ℕ) × V = vop f.node f.position buflen s.vfs_state in
          let s' : Files Name Node V = record s { vfs_state = result.1 } in
          let length : ℕ = (result.0.1 + 2 ^ 32 - f.position) % 2 ^ 32 in
          let moved : Fd Name Node = record f { position = (f.position + length) % 2 ^ 32 } in
          let done : Outcome (Answer × Files Name Node V) = do
            s'' ← release_table (put fd (some moved) s')
            s''' ← release_process s''
            ok (record { retval = some length; error = none }, s''')
          in let run : Outcome (Answer × Files Name Node V) = elim result.0.0 [
            | none ↦ done
            | some e ↦ fail e s'
          ] in
            if f.flags == forbidden then fail ebadf s else if mem 3 then run else fault
    ]

  -- A handle of the console is opened by its first use.
  unfoldable pub console : ℕ → ℕ → Files Name Node V → Outcome (Option Errno × Files Name Node V)
  console fd flags s = do
    entry ← deref (get_elem? s.file_table fd)
    if is_null entry then open_fd fd vfs.con flags s else ok (none, s)

module _ {ℓ} {Name Node V : Type ℓ} (vfs : Vfs Name Node V) (mem : ℕ → Bool) (space : ℕ)
    (vmspace : Option AddressSpace) (machine : Machine) where
  unfoldable pub sys_read : ℕ → ℕ → ℕ → Files Name Node V → Outcome (Answer × Files Name Node V)
  sys_read fd buf buflen s = do
    s ← acquire_process s
    valid ← as_valid_ptr space vmspace buf machine
    let opened : Outcome (Option Errno × Files Name Node V) =
        if fd == 0 then console vfs mem fd o_rdonly s else ok (none, s)
    let checked : Outcome (Answer × Files Name Node V) = do
      (e, s') ← opened
      elim e [ none ↦ transfer vfs mem vfs.vop_read o_wronly fd buflen s' | some e' ↦ fail e' s' ]
    if not (is_null valid)
        then fail efault s
        else if is_negative fd || ltb (max_file_handles - 1) fd
        then fail ebadf s
        else if (fd == 1) || (fd == 2)
        then fail ebadf s
        else checked

  unfoldable pub sys_write : ℕ → ℕ → ℕ → Files Name Node V → Outcome (Answer × Files Name Node V)
  sys_write fd buf nbytes s = do
    s ← acquire_process s
    valid ← as_valid_ptr space vmspace buf machine
    let opened : Outcome (Option Errno × Files Name Node V) =
        if (fd == 1) || (fd == 2) then console vfs mem fd o_wronly s else ok (none, s)
    let checked : Outcome (Answer × Files Name Node V) = do
      (e, s') ← opened
      elim e [ none ↦ transfer vfs mem vfs.vop_write o_rdonly fd nbytes s' | some e' ↦ fail e' s' ]
    if not (is_null valid)
        then fail efault s
        else if is_negative fd || ltb (max_file_handles - 1) fd
        then fail ebadf s
        else if fd == 0
        then fail ebadf s
        else checked
