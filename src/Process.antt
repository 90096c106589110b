-- ===== src/Process.antt =====
-- os161-1.11/kern/arch/mips/mips/syscall/fork.c, exit.c and waitpid.c: the table of processes. A step
-- of the model is what one thread does with process_lock held. `mem` says which kmalloc, cv_create or
-- lock_create finds memory. A process stands for its struct; its condition variable and its locks are
-- those of Synch and are left out, but for process_lock.
pub mod Create
pub mod Exit
pub mod Start
pub mod Fork
pub mod Others
pub mod Restore
mod Tests
use os.Base.{
  ℕ, zero, suc, ◌+◌, ◌-◌, ◌^◌, Bool, true, false, not, ◌||◌, Option, none, some, List, ltb, leb,
  ◌==◌, if◌then◌else◌, get_elem?, set, replicate,
}
use os.Base.Outcome.{
  Errno, einval, efault, enomem, eagain, Outcome, ok, panic, fault, out_of_fuel, ◌>>=◌, ◌>>◌,
  assert, deref,
}
use os.Files.{open_fd, Fd, Vfs, Files, max_file_handles, first_file_handle, close_fd, is_null}

-- MAX_PROCESSES of kern/include/process.h.
abbrev pub max_processes : ℕ
max_processes = 128

pub record Process {ℓ} (Name Node : Type ℓ) : Type ℓ where
  pub p_pid : ℕ
  pub p_parentpid : ℕ
  pub p_finished : Bool
  pub p_exitcode : ℕ
  pub p_file_table : List (Option (Fd Name Node))

-- An entry of runningprocesses: NULL, a pointer to a process, or one to memory that was freed.
pub data Slot {ℓ} (Name Node : Type ℓ) : Type ℓ where
  null dangling : Slot Name Node
  running : Process Name Node → Slot Name Node

pub record Processes {ℓ} (Name Node V : Type ℓ) : Type ℓ where
  pub runningprocesses : List (Slot Name Node)
  pub process_lock : Bool
  pub vfs_state : V

-- sys_waitpid goes to sleep, fails, or answers the exit code.
pub data Waited : Type 0 where
  asleep : Waited
  failed : Errno → Waited
  exited : ℕ → Waited

-- The process of an entry that is not NULL.
abbrev pub process_of {ℓ} : {Name Node : Type ℓ} → Slot Name Node → Outcome (Process Name Node)
process_of null = panic
process_of dangling = fault
process_of (running p) = ok p

module _ {ℓ} {Name Node V : Type ℓ} where
  unfoldable pub acquire_lock : Processes Name Node V → Outcome (Processes Name Node V)
  acquire_lock s = if s.process_lock then out_of_fuel else ok (record s { process_lock = true })

  unfoldable pub release_lock : Processes Name Node V → Outcome (Processes Name Node V)
  release_lock s = do assert s.process_lock; ok (record s { process_lock = false })

  -- runningprocesses[pid] = slot
  unfoldable pub put_slot : ℕ → Slot Name Node → Processes Name Node V → Processes Name Node V
  put_slot pid slot s = record s { runningprocesses = set s.runningprocesses pid slot }

  -- An error 0 is `none`.
  unfoldable pub process_create_for_id :
      (ℕ → Bool)
      → ℕ
      → ℕ
      → Bool
      → Processes Name Node V
      → Outcome (Option Errno × Processes Name Node V)
  process_create_for_id mem curpid pid p_lock s = do
    if mem 0 then ok tt else fault
    let p : Process Name Node = record {
      p_pid = pid;
      p_parentpid = curpid;
      p_finished = false;
      p_exitcode = 0;
      p_file_table = replicate max_file_handles none;
    }
    let no_memory : Outcome (Option Errno × Processes Name Node V) = do
      s' ← if p_lock then release_lock s else ok s
      ok (some enomem, s')
    let kept : Outcome (Option Errno × Processes Name Node V) = do
      s' ←
          if p_lock
          then release_lock (put_slot pid (running p) s)
          else ok (put_slot pid (running p) s)
      if mem 3 then ok (none, s') else ok (some enomem, put_slot pid dangling s')
    if not (mem 1) then no_memory else if not (mem 2) then no_memory else kept

  -- for (pid = 1; pid < MAX_PROCESSES; pid++) with the test behind it; the first number is how many
  -- process ids are left.
  unfoldable pub create_loop :
      (ℕ → Bool)
      → ℕ
      → ℕ
      → ℕ
      → Processes Name Node V
      → Outcome ((Option ℕ × Option Errno) × Processes Name Node V)
  create_loop mem curpid zero pid s = do s' ← release_lock s; ok ((none, some eagain), s')
  create_loop mem curpid (suc left) pid s = do
    slot ← deref (get_elem? s.runningprocesses pid)
    elim slot [
      | null ↦ do (e, s') ← process_create_for_id mem curpid pid true s; ok ((some pid, e), s')
      | dangling ↦ create_loop mem curpid left (suc pid) s
      | running p ↦ create_loop mem curpid left (suc pid) s
    ]

  -- The process id of *dst and the error.
  unfoldable pub process_create :
      (ℕ → Bool)
      → ℕ
      → Processes Name Node V
      → Outcome ((Option ℕ × Option Errno) × Processes Name Node V)
  process_create mem curpid s = do
    s ← acquire_lock s
    create_loop mem curpid (max_processes - 1) 1 s

module _ {ℓ} {Name Node V : Type ℓ} (vfs : Vfs Name Node V) where
  -- for (i = FIRST_FILE_HANDLE; i < MAX_FILE_HANDLES; i++) if (file_table[i] != NULL) _close(...)
  unfoldable pub close_loop : ℕ → ℕ → Files Name Node V → Outcome (Files Name Node V)
  close_loop zero i f = ok f
  close_loop (suc left) i f = do
    entry ← deref (get_elem? f.file_table i)
    f' ← if is_null entry then ok f else close_fd vfs (λ k. true) i f
    close_loop left (suc i) f'

  -- The loop on the file table of process p.
  unfoldable pub close_files : Process Name Node → V → Outcome (Files Name Node V)
  close_files p v = close_loop (max_file_handles - first_file_handle) first_file_handle (record {
    file_table = p.p_file_table;
    process_lock = true;
    file_table_lock = true;
    vfs_state = v;
  })

  unfoldable pub process_remove : ℕ → Processes Name Node V → Outcome (Processes Name Node V)
  process_remove pid s = do
    slot ← deref (get_elem? s.runningprocesses pid)
    p ← process_of slot
    s ← acquire_lock s
    f ← close_files p s.vfs_state
    release_lock (put_slot pid null (record s { vfs_state = f.vfs_state }))

  -- What sys__exit does with process_lock held.
  unfoldable pub exit_body : ℕ → ℕ → Processes Name Node V → Outcome (Processes Name Node V)
  exit_body curpid exitcode s = do
    slot ← deref (get_elem? s.runningprocesses curpid)
    elim slot [
      | null ↦ ok s
      | dangling ↦ fault
      | running p ↦ do
        f ← close_files p s.vfs_state
        ok (
            put_slot curpid
              (running (record p {
                p_file_table = f.file_table;
                p_finished = true;
                p_exitcode = exitcode;
              }))
              (record s { vfs_state = f.vfs_state }))
    ]

  -- Up to thread_exit; `as_v` is the vnode of the address space.
  unfoldable pub sys__exit : Node → ℕ → ℕ → Processes Name Node V → Outcome (Processes Name Node V)
  sys__exit as_v curpid exitcode s = do
    s ← acquire_lock s
    s ← exit_body curpid exitcode s
    s ← release_lock s
    ok (record s { vfs_state = vfs.vfs_close as_v s.vfs_state })

  -- A process id is the number of an int's bits. A call that goes to sleep is made again by the
  -- broadcast of sys__exit, from the test of p_finished on.
  unfoldable pub sys_waitpid :
      ℕ → ℕ → ℕ → Processes Name Node V → Outcome (Waited × Processes Name Node V)
  sys_waitpid curpid pid options s =
      let look : Outcome (Waited × Processes Name Node V) = do
        slot ← deref (get_elem? s.runningprocesses pid)
        elim slot [
          | null ↦ ok (failed efault, s)
          | dangling ↦ fault
          | running p ↦
              let over : Outcome (Waited × Processes Name Node V) = do
                s' ← process_remove pid s
                ok (exited p.p_exitcode, s')
              in if not (p.p_parentpid == curpid)
                then ok (failed efault, s)
                else if p.p_finished
                then over
                else ok (asleep, s)
        ]
      in if not (options == 0)
        then ok (failed einval, s)
        else if ltb pid 1 || (leb (2 ^ 31) pid || leb max_processes pid)
        then ok (failed efault, s)
        else look
