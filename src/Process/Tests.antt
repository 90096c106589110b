-- ===== src/Process/Tests.antt =====
-- Each theorem at an input.
use os.Base.{
  ℕ, ◌+◌, ◌≡◌, ◌==◌, refl, Bool, false, not, arith, none, some, List, ◌∷◌, set, replicate, inr,
}
use os.Base.Outcome.{ok}
use os.Files.{Fd, Vfs}
use os.Process.{Processes, Process, Slot, null, running, sys__exit, sys_waitpid, asleep, exited}
use os.Process.Create.{free}
use os.Process.Exit.{sys_waitpid-sys__exit}

-- Every file exists; the state counts the closed files.
abbrev vfs : Vfs ℕ ℕ ℕ
vfs = record {
  con = 99;
  vfs_open = λ name flags v. (inr name, v);
  vfs_close = λ node v. v + 1;
  vop_read = λ node offset resid v. ((none, offset + resid), v);
  vop_write = λ node offset resid v. ((none, offset + resid), v);
}

abbrev seven : Fd ℕ ℕ
seven = record { name = some 7; flags = 2; position = 10; node = 7 }

-- Process 2, a child of process 1, has a file open at handle 4.
abbrev child : Process ℕ ℕ
child = record {
  p_pid = 2;
  p_parentpid = 1;
  p_finished = false;
  p_exitcode = 0;
  p_file_table = set (replicate 32 none) 4 (some seven);
}

abbrev table : List (Slot ℕ ℕ)
table =
    null
    ∷ running (record child { p_pid = 1; p_parentpid = 0 })
    ∷ running child
    ∷ replicate 125 null

-- The second lock is not allocated.
abbrev mem : ℕ → Bool
mem k = not (k == 3)

sys_waitpid-sys__exit_example :
    (false ≡ false → sys_waitpid vfs 1 2 0 (free table 0) ≡ ok (asleep, free table 0))
    × ((v' : ℕ) × (r' : List (Slot ℕ ℕ)) × (sys__exit vfs 50 2 7 (free table 0) ≡ ok (free r' v'))
        × (sys_waitpid vfs 1 2 0 (free r' v') ≡ ok (exited 7, free (set table 2 null) v')))
sys_waitpid-sys__exit_example =
    sys_waitpid-sys__exit vfs 50 1 2 7 table 0 child (omega arith) (omega arith) refl refl refl refl

-- Another process closes a file.
abbrev closes : Processes ℕ ℕ ℕ → Processes ℕ ℕ ℕ
closes s = record s { vfs_state = s.vfs_state + 1 }
