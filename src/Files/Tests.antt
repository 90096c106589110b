-- ===== src/Files/Tests.antt =====
-- Each theorem at an input.
use os.Base.{
  ℕ, ◌+◌, ◌≡◌, refl, Bool, true, false, arith, Option, none, some, List, [], ◌∷◌, length, set,
  replicate, if◌then◌else◌, ◌==◌, inl, inr,
}
use os.Base.Outcome.{enoent, ok}
use os.Pagetable.Words.{kaddr}
use os.Pagetable.Sample.{machine, roles, machine-IsPagetable}
use os.Addrspace.{Region, AddressSpace, as_valid_ptr}
use os.Addrspace.Regions.{as_valid_ptr_iff, as_valid_ptr-returns}
use os.Files.{
  Fd, Vfs, Files, Answer, max_file_handles, acquire_process, acquire_table, open_loop, open_fd, put,
  release_table, release_process, sys_open, sys_close, sys_read, o_rdonly, o_wronly,
}
use os.Files.Open.{idle, new_fd, vfs_result, Opened, sys_open-Opened}
use os.Files.Close.{sys_close-sys_open}
use os.Files.Calls.{Called, sys_read-Called}
use os.Files.Sequence.{
  Call, open_call, close_call, read_call, write_call, run_calls, run_calls-idle,
}

-- Files are numbered, and file 0 does not exist; the state counts the open files.
abbrev vfs : Vfs ℕ ℕ ℕ
vfs = record {
  con = 99;
  vfs_open = λ name flags v. (if name == 0 then inl enoent else inr name, v + 1);
  vfs_close = λ node v. v;
  vop_read = λ node offset resid v. ((none, offset + resid), v);
  vop_write = λ node offset resid v. ((none, offset + resid), v);
}

abbrev mem : ℕ → Bool
mem k = true

abbrev text : Region
text = record { offset = 0; memsize = 8192; filesize = 5000; vaddr = 0x40_0000; permissions = 24 }

abbrev program : AddressSpace
program = record { as_pt = kaddr 1; as_regions = text ∷ [] }

-- Handle 3 is open for reading and writing.
abbrev seven : Fd ℕ ℕ
seven = record { name = some 7; flags = 2; position = 10; node = 7 }

abbrev table : List (Option (Fd ℕ ℕ))
table = none ∷ none ∷ none ∷ some seven ∷ replicate 28 none

sys_open-Opened_example :
    (a : Answer) × (t' : List (Option (Fd ℕ ℕ))) × (v' : ℕ) × (sys_open vfs mem 5 1 (idle table 1)
      ≡ ok (a, idle t' v'))
    × Opened vfs 5 1 table 1 a t' v'
sys_open-Opened_example = sys_open-Opened vfs 5 1 mem (λ k. refl) table 1 refl

open_five :
    (s' : Files ℕ ℕ ℕ) × (sys_open vfs mem 5 1 (idle table 1)
      ≡ ok (record { retval = some 4; error = none }, s'))
unfolding sys_open acquire_process acquire_table open_loop open_fd put release_table release_process
open_five = (idle (set table 4 (some (new_fd vfs 5 1 5))) 2, refl)

sys_close-sys_open_example :
    (n : ℕ) × ((vfs_result vfs 5 1 1).0 ≡ inr n)
    × (sys_close vfs mem 4 open_five.0 ≡ ok (none, idle table 2))
sys_close-sys_open_example =
    sys_close-sys_open vfs mem (λ k. refl) 5 1 table 1 refl 4 open_five.0 open_five.1

text_valid : as_valid_ptr 0 (some program) 0x40_1234 machine ≡ ok none
text_valid =
    (as_valid_ptr_iff 0 1 0x40_1234 roles program machine machine-IsPagetable refl).1
      (inl (0, text, refl, omega arith, omega arith))

sys_read-Called_example :
    (a : Answer) × (t' : List (Option (Fd ℕ ℕ))) × (v' : ℕ) × (sys_read vfs mem 0
        (some program)
        machine
        3
        0x40_1234
        20
        (idle table 1)
      ≡ ok (a, idle t' v'))
    × Called vfs vfs.vop_read o_wronly o_rdonly 3 20 false false table 1 none a t' v'
sys_read-Called_example =
    sys_read-Called vfs mem (λ k. refl) 0 (some program) machine 3 0x40_1234 20 table 1 refl none
      text_valid

abbrev calls : List (Call ℕ)
calls = open_call 5 1 ∷ write_call 1 0x40_0000 6 ∷ read_call 3 0x50_0000 9 ∷ close_call 4 ∷ []

run_calls-idle_example :
    (t' : List (Option (Fd ℕ ℕ))) × (v' : ℕ) × (run_calls vfs mem 0
        (some program)
        machine
        calls
        (idle table 1)
      ≡ ok (idle t' v'))
    × (length t' ≡ max_file_handles)
run_calls-idle_example =
    run_calls-idle vfs mem 0 (some program) machine (λ k. refl)
      (as_valid_ptr-returns 0 1 roles program machine machine-IsPagetable refl) calls table 1 refl
