-- ===== src/Process/Restore.antt =====
-- sys_fork makes a child or leaves the table of processes as it was.
use os.Base.{ℕ, ◌≡◌, ◌≢◌, Bool, true, false, Option, some, List, length, get_elem?, set}
use os.Base.Outcome.{Errno, Outcome, ok}
use os.Files.{Fd, Vfs, Files, max_file_handles}
use os.Process.{Process, Slot, running, Processes, max_processes}
use os.Process.Create.{free, LowestFree}
use os.Process.Others.{KeepsSlot, IsOthers, Forked}

module _ {ℓ} {Name Node V : Type ℓ} (vfs : Vfs Name Node V)
    (early late : Processes Name Node V → Processes Name Node V) (curpid : ℕ)
    (e_others : IsOthers curpid early) (l_others : IsOthers curpid late) (r : List (Slot Name Node))
    (pid : ℕ) (len : length r ≡ max_processes) (mem : ℕ → Bool) (mem_files : ℕ → ℕ → Bool)
    (enough : (i k : ℕ) → mem_files i k ≡ true) (p : Process Name Node)
    (lowest : LowestFree mem curpid r pid) (parent_at : get_elem? r curpid ≡ some (running p))
    (files : length p.p_file_table ≡ max_file_handles)
    (named : (i : ℕ) (d : Fd Name Node)
      → get_elem? p.p_file_table i ≡ some (some d)
      → (name : Name) × (d.name ≡ some name)) where
  -- A run of sys_fork's body that makes a child or takes it back.
  abbrev Forks : Outcome ((Option ℕ × Option Errno) × Processes Name Node V) → Type ℓ
  Forks o =
      (a : Option ℕ × Option Errno) × (s' : Processes Name Node V) × (o ≡ ok (a, s'))
      × (s'.process_lock ≡ false)
      × Forked mem early late curpid p r a s'.runningprocesses

  abbrev child : List (Option (Fd Name Node)) → Process Name Node
  child t = record {
    p_pid = pid;
    p_parentpid = curpid;
    p_finished = false;
    p_exitcode = 0;
    p_file_table = t;
  }

  -- Behind the copy, at table r2 with the child's process in it, and what the others do then.
  module _ (r2 : List (Slot Name Node)) (len2 : length r2 ≡ max_processes)
      (same2 : (j : ℕ) → j ≢ pid → KeepsSlot early j → get_elem? r2 j ≡ get_elem? r j)
      (t : List (Option (Fd Name Node))) (v : V) (l : length t ≡ max_file_handles) where
    abbrev r3 : List (Slot Name Node)
    r3 = set r2 pid (running (child t))

    abbrev s4 : Processes Name Node V
    s4 = late (free r3 v)

module _ {ℓ} {Name Node V : Type ℓ} (vfs : Vfs Name Node V) (frame : Bool)
    (copied_space : Option Errno) (mem : ℕ → Bool) (enough : (k : ℕ) → mem k ≡ true)
    (mem_files : ℕ → ℕ → Bool) (enough_files : (i k : ℕ) → mem_files i k ≡ true)
    (early late : Processes Name Node V → Processes Name Node V) (thread : Option Errno)
    (curpid : ℕ) (e_others : IsOthers curpid early) (l_others : IsOthers curpid late)
    (r : List (Slot Name Node)) (v : V) (p : Process Name Node) (len : length r ≡ max_processes)
    (parent_at : get_elem? r curpid ≡ some (running p))
    (files : length p.p_file_table ≡ max_file_handles)
    (named : (i : ℕ) (d : Fd Name Node)
      → get_elem? p.p_file_table i ≡ some (some d)
      → (name : Name) × (d.name ≡ some name)) where
  -- A run of sys_fork that makes a child or leaves none.
  abbrev Done : Outcome ((Option ℕ × Option Errno) × Processes Name Node V) → Type ℓ
  Done o =
      (a : Option ℕ × Option Errno) × (s' : Processes Name Node V) × (o ≡ ok (a, s'))
      × (s'.process_lock ≡ false)
      × Forked mem early late curpid p r a s'.runningprocesses
