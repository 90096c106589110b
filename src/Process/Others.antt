-- ===== src/Process/Others.antt =====
-- What sys_fork leaves, while other threads run whenever process_lock is free.
use os.Base.{ℕ, ◌≡◌, ◌≢◌, ap, Bool, false, Option, none, some, List, length, get_elem?}
use os.Base.Outcome.{Errno}
use os.Files.{Fd, max_file_handles}
use os.Process.{Process, Slot, null, running, Processes}
use os.Process.Create.{free, LowestFree}
use os.Process.Fork.{CopyOf}

module _ {ℓ} {Name Node V : Type ℓ} where
  -- What other threads do leaves entry j as it is.
  abbrev pub KeepsSlot : (Processes Name Node V → Processes Name Node V) → ℕ → Type ℓ
  KeepsSlot f j =
      (r : List (Slot Name Node)) (v : V)
      → get_elem? (f (free r v)).runningprocesses j ≡ get_elem? r j

  -- What threads of other processes may do when process_lock is free: they give it back, and leave the
  -- process curpid and its children that have not finished alone.
  pub record IsOthers (curpid : ℕ) (f : Processes Name Node V → Processes Name Node V)
      : Type ℓ where
    pub lock_free : (r : List (Slot Name Node)) (v : V) → (f (free r v)).process_lock ≡ false
    pub length_same :
        (r : List (Slot Name Node)) (v : V) → length (f (free r v)).runningprocesses ≡ length r
    pub own : KeepsSlot f curpid
    pub children :
        (r : List (Slot Name Node)) (v : V) (pid : ℕ) (c : Process Name Node)
        → get_elem? r pid ≡ some (running c)
        → c.p_parentpid ≡ curpid
        → c.p_finished ≡ false
        → get_elem? (f (free r v)).runningprocesses pid ≡ some (running c)

  pub freed :
      (s : Processes Name Node V) → s.process_lock ≡ false → s ≡ free s.runningprocesses s.vfs_state
  freed s e = ap (λ b. record s { process_lock = b }) e

module _ {ℓ} {Name Node V : Type ℓ} (mem : ℕ → Bool)
    (early late : Processes Name Node V → Processes Name Node V) (curpid : ℕ)
    (p : Process Name Node) where
  -- Entries but pid's are as they were, unless other threads change them.
  abbrev pub SameOthers : ℕ → List (Slot Name Node) → List (Slot Name Node) → Type ℓ
  SameOthers pid r r' =
      (j : ℕ) → j ≢ pid → KeepsSlot early j → KeepsSlot late j → get_elem? r' j ≡ get_elem? r j

  -- What sys_fork makes of table r, for process p with id curpid.
  pub data Forked (r : List (Slot Name Node))
      : Option ℕ × Option Errno → List (Slot Name Node) → Type ℓ where
    forked :
        (pid : ℕ) (t : List (Option (Fd Name Node))) {r' : List (Slot Name Node)}
        → LowestFree mem curpid r pid
        → length t ≡ max_file_handles
        → ((j : ℕ) (d c : Option (Fd Name Node))
            → get_elem? p.p_file_table j ≡ some d
            → get_elem? t j ≡ some c
            → CopyOf d c)
        → get_elem? r' pid
          ≡ some (
              running (record {
                p_pid = pid;
                p_parentpid = curpid;
                p_finished = false;
                p_exitcode = 0;
                p_file_table = t;
              }))
        → SameOthers pid r r'
        → Forked r (some pid, none) r'
    taken_back :
        {pid : ℕ} {e : Errno} {r' : List (Slot Name Node)}
        → LowestFree mem curpid r pid
        → get_elem? r' pid ≡ some null
        → SameOthers pid r r'
        → Forked r (none, some e) r'
    unchanged : {e : Errno} → Forked r (none, some e) r
