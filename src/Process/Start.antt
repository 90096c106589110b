-- ===== src/Process/Start.antt =====
-- sys_fork of os161-1.11/kern/arch/mips/mips/syscall/fork.c.
use os.Base.{
  ℕ, zero, suc, ◌-◌, Bool, true, false, not, Option, none, some, List, if◌then◌else◌, get_elem?,
}
use os.Base.Outcome.{Errno, enomem, Outcome, ok, fault, ◌>>=◌, deref}
use os.Files.{open_fd, Fd, Vfs, Files, max_file_handles, first_file_handle}
use os.Process.{
  Process, null, dangling, running, Processes, acquire_lock, release_lock, put_slot, process_of,
  process_create, close_loop, process_remove,
}

module _ {ℓ} {Name Node V : Type ℓ} (vfs : Vfs Name Node V) where
  -- for (i = 0; i < MAX_FILE_HANDLES; i++) of sys_fork: the open files of the parent's table are
  -- opened again for the child. `mem i` is the memory at hand for handle i.
  unfoldable pub copy_loop :
      (ℕ → ℕ → Bool)
      → List (Option (Fd Name Node))
      → ℕ
      → ℕ
      → Files Name Node V
      → Outcome (Option Errno × Files Name Node V)
  copy_loop mem parent zero i f = ok (none, f)
  copy_loop mem parent (suc left) i f = do
    entry ← deref (get_elem? parent i)
    elim entry [
      | none ↦ copy_loop mem parent left (suc i) f
      | some d ↦ do
        name ← deref d.name
        (e, f') ← open_fd vfs (mem i) i name d.flags f
        elim e [ none ↦ copy_loop mem parent left (suc i) f' | some e' ↦ ok (some e', f') ]
    ]

  -- The rest of sys_fork behind the loop, whose error and file table for the child are `copies`.
  -- `forked` is the error of thread_fork, and `late` is what other threads do behind lock_release.
  unfoldable pub fork_end :
      (Processes Name Node V → Processes Name Node V)
      → Option Errno
      → ℕ
      → Process Name Node
      → Processes Name Node V
      → Option Errno × Files Name Node V
      → Outcome ((Option ℕ × Option Errno) × Processes Name Node V)
  fork_end late forked pid child s (e, f) = elim e [
    | some e' ↦ do
      f ← close_loop vfs (max_file_handles - first_file_handle) first_file_handle f
      s ← release_lock (
          put_slot pid (running (record child { p_file_table = f.file_table }))
            (record s { vfs_state = f.vfs_state }))
      s ← process_remove vfs pid (late s)
      ok ((none, some e'), s)
    | none ↦ do
      s ← release_lock (
          put_slot pid (running (record child { p_file_table = f.file_table }))
            (record s { vfs_state = f.vfs_state }))
      elim forked [
        | none ↦ ok ((some pid, none), late s)
        | some e' ↦ do s ← process_remove vfs pid (late s); ok ((none, some e'), s)
      ]
  ]

  -- What sys_fork does when as_copy and process_create have succeeded. The address spaces and trap frames are left out.
  unfoldable pub fork_body :
      (ℕ → ℕ → Bool)
      → (Processes Name Node V → Processes Name Node V)
      → Option Errno
      → ℕ
      → ℕ
      → Processes Name Node V
      → Outcome ((Option ℕ × Option Errno) × Processes Name Node V)
  fork_body mem late forked curpid pid s = do
    s ← acquire_lock s
    parent_slot ← deref (get_elem? s.runningprocesses curpid)
    parent ← elim parent_slot [ null ↦ fault | dangling ↦ fault | running p ↦ ok p ]
    child_slot ← deref (get_elem? s.runningprocesses pid)
    child ← process_of child_slot
    copies ← copy_loop mem parent.p_file_table max_file_handles 0 (record {
      file_table = child.p_file_table;
      process_lock = true;
      file_table_lock = false;
      vfs_state = s.vfs_state;
    })
    fork_end late forked pid child s copies

  -- `frame` says whether kmalloc finds memory for the trap frame, `copied` is the error of as_copy,
  -- and `mem` and `mem_files` are the memory of process_create and of the files. `early` and `late`
  -- are what other threads do while process_lock is free: behind process_create, and behind the copy.
  unfoldable pub sys_fork :
      Bool
      → Option Errno
      → (ℕ → Bool)
      → (ℕ → ℕ → Bool)
      → (Processes Name Node V → Processes Name Node V)
      → (Processes Name Node V → Processes Name Node V)
      → Option Errno
      → ℕ
      → Processes Name Node V
      → Outcome ((Option ℕ × Option Errno) × Processes Name Node V)
  sys_fork frame copied mem mem_files early late forked curpid s =
      let made : Outcome ((Option ℕ × Option Errno) × Processes Name Node V) = do
        ((dst, e), s) ← process_create mem curpid s
        elim e [
          | some e' ↦ ok ((none, some e'), s)
          | none ↦ do pid ← deref dst; fork_body mem_files late forked curpid pid (early s)
        ]
      in if not frame
        then ok ((none, some enomem), s)
        else elim copied [ some e ↦ ok ((none, some e), s) | none ↦ made ]
