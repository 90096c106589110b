-- ===== src/Process/Exit.antt =====
-- sys__exit, and sys_waitpid behind it.
use os.Base.{
  ℕ, zero, suc, ◌+◌, ◌-◌, ◌≤◌, ◌<◌, ◌≡◌, refl, ap, ◌∙◌, true, false, arith, inl, inr, none, some,
  List, length, get_elem?, set, get_elem?-of_lt, ◌==◌, Bool-cases, ==_iff, set_twice, length-set,
  get_elem?-set_self, get_elem?-set_ne, ltb, leb, ◌||◌, ◌^◌,
}
use os.Base.Outcome.{Outcome, ok, ◌>>=◌}
use os.Files.{Vfs, Files, max_file_handles, first_file_handle, close_fd, put}
use os.Process.{
  Process, Slot, null, running, max_processes, asleep, exited, acquire_lock, release_lock, put_slot,
  close_loop, close_files, process_of, process_remove, exit_body, sys__exit, sys_waitpid,
}
use os.Process.Create.{free}

module _ {ℓ} {Name Node V : Type ℓ} (vfs : Vfs Name Node V) where
  -- What the loop leaves of f when it starts at handle i.
  pub record Emptied (i : ℕ) (f : Files Name Node V) (o : Outcome (Files Name Node V))
      : Type ℓ where
    pub f' : Files Name Node V
    pub result : o ≡ ok f'
    pub len : length f'.file_table ≡ max_file_handles
    pub empty : (j : ℕ) → i ≤ j → j < max_file_handles → get_elem? f'.file_table j ≡ some none
    pub kept : (j : ℕ) → j < i → get_elem? f'.file_table j ≡ get_elem? f.file_table j

  step :
      (left i : ℕ) (f : Files Name Node V)
      → length f.file_table ≡ max_file_handles
      → i < max_file_handles
      → (g : Files Name Node V) × (close_loop vfs (suc left) i f ≡ close_loop vfs left (suc i) g)
        × (length g.file_table ≡ max_file_handles)
        × (get_elem? g.file_table i ≡ some none)
        × ((j : ℕ) → j < i → get_elem? g.file_table j ≡ get_elem? f.file_table j)
  unfolding close_loop close_fd put
  step left i f len lt =
      let (x, at) = get_elem?-of_lt f.file_table i (omega arith) in
      elim x
          as (λ x.
            get_elem? f.file_table i ≡ some x
            → (g : Files Name Node V) × (close_loop vfs (suc left) i f
                ≡ close_loop vfs left (suc i) g)
              × (length g.file_table ≡ max_file_handles)
              × (get_elem? g.file_table i ≡ some none)
              × ((j : ℕ) → j < i → get_elem? g.file_table j ≡ get_elem? f.file_table j)) [
                | none ↦ λ at. (f, rw (at) refl, len, at, λ j h. refl)
                | some d ↦ λ at. (
                  put i none (record f { vfs_state = vfs.vfs_close d.node f.vfs_state }),
                  rw (at) refl,
                  omega (arith, length-set f.file_table i none),
                  get_elem?-set_self f.file_table i none (omega arith),
                  λ j h. get_elem?-set_ne f.file_table i j none (omega arith),
                )
              ]
        at

  pub close_loop-Emptied :
      (left i : ℕ) (f : Files Name Node V)
      → length f.file_table ≡ max_file_handles
      → i + left ≡ max_file_handles
      → Emptied i f (close_loop vfs left i f)
  unfolding close_loop
  close_loop-Emptied zero i f len all = record {
    f' = f;
    result = refl;
    len = len;
    empty = λ j lo hi. absurd (omega arith);
    kept = λ j h. refl;
  }
  close_loop-Emptied (suc left) i f len all =
      let (g, e, glen, gat, gkept) = step left i f len (omega arith) in
      let rest = close_loop-Emptied left (suc i) g glen (omega arith) in
      record {
        f' = rest.f';
        result = e ∙ rest.result;
        len = rest.len;
        empty = λ j lo hi. elim (Bool-cases (j == i)) [
          | inl q ↦
              ap (get_elem? rest.f'.file_table) ((==_iff j i).0 q) ∙ rest.kept i (omega arith) ∙ gat
          | inr q ↦ rest.empty j (ground (arith, q)) hi
        ];
        kept = λ j h. rest.kept j (omega arith) ∙ gkept j h;
      }

  -- A table without open files from i on is left alone.
  close_loop-none :
      (left i : ℕ) (f : Files Name Node V)
      → i + left ≡ max_file_handles
      → ((j : ℕ) → i ≤ j → j < max_file_handles → get_elem? f.file_table j ≡ some none)
      → close_loop vfs left i f ≡ ok f
  unfolding close_loop
  close_loop-none zero i f all h = refl
  close_loop-none (suc left) i f all h =
      rw (h i (omega arith) (omega arith))
        (close_loop-none left (suc i) f (omega arith) (λ j lo hi. h j (omega arith) hi))

  module _ (as_v : Node) (curpid pid exitcode : ℕ) (r : List (Slot Name Node)) (v : V)
      (p : Process Name Node) (positive : 1 ≤ pid) (small : pid < max_processes)
      (len : length r ≡ max_processes) (at : get_elem? r pid ≡ some (running p))
      (parent : p.p_parentpid ≡ curpid) (files : length p.p_file_table ≡ max_file_handles) where
    -- The files of the process behind the loop of sys__exit.
    closing :
        Emptied first_file_handle
          (record {
            file_table = p.p_file_table;
            process_lock = true;
            file_table_lock = true;
            vfs_state = v;
          })
          (close_files vfs p v)
    unfolding close_files
    closing =
        close_loop-Emptied (max_file_handles - first_file_handle) first_file_handle _ files refl

    abbrev over : Process Name Node
    over = record p {
      p_file_table = closing.f'.file_table;
      p_finished = true;
      p_exitcode = exitcode;
    }

    abbrev gone : V
    gone = vfs.vfs_close as_v closing.f'.vfs_state

    exits : sys__exit vfs as_v pid exitcode (free r v) ≡ ok (free (set r pid (running over)) gone)
    unfolding sys__exit exit_body acquire_lock release_lock put_slot
    exits = rw (at, closing.result) refl

    nothing_left :
        close_files vfs over gone
        ≡ ok (record {
          file_table = over.p_file_table;
          process_lock = true;
          file_table_lock = true;
          vfs_state = gone;
        })
    unfolding close_files
    nothing_left =
        close_loop-none (max_file_handles - first_file_handle) first_file_handle _ refl
          closing.empty

    removes :
        process_remove vfs pid (free (set r pid (running over)) gone)
        ≡ ok (free (set r pid null) gone)
    unfolding process_remove acquire_lock release_lock put_slot
    removes =
        rw
          (
            get_elem?-set_self r pid (running over) (omega arith),
            ◌>>=◌,
            process_of,
            ◌>>=◌,
            nothing_left,
            set_twice r pid (running over) null,
          )
          refl

    waits :
        sys_waitpid vfs curpid pid 0 (free (set r pid (running over)) gone)
        ≡ ok (exited exitcode, free (set r pid null) gone)
    unfolding sys_waitpid
    waits =
        let lo : ltb pid 1 ≡ false = ground arith in
        let hi : (leb (2 ^ 31) pid || leb max_processes pid) ≡ false = ground arith in
        let mine : (p.p_parentpid == curpid) ≡ true = (==_iff p.p_parentpid curpid).1 parent in
        rw (lo, hi, get_elem?-set_self r pid (running over) (omega arith), mine, removes) refl

    -- For a process in a table of 128 entries with process_lock free, sys_waitpid of its parent
    -- goes to sleep while the process has not finished. sys__exit of the process returns, and
    -- sys_waitpid then answers its exit code and sets its entry to NULL, with the rest of the
    -- table and the VFS as sys__exit left them, so that no file is closed twice.
    pub sys_waitpid-sys__exit :
        (p.p_finished ≡ false → sys_waitpid vfs curpid pid 0 (free r v) ≡ ok (asleep, free r v))
        × ((v' : V) × (r' : List (Slot Name Node)) × (sys__exit vfs as_v pid exitcode (free r v)
              ≡ ok (free r' v'))
            × (sys_waitpid vfs curpid pid 0 (free r' v')
                ≡ ok (exited exitcode, free (set r pid null) v')))
    unfolding sys_waitpid
    sys_waitpid-sys__exit =
        let lo : ltb pid 1 ≡ false = ground arith in
        let hi : (leb (2 ^ 31) pid || leb max_processes pid) ≡ false = ground arith in
        let mine : (p.p_parentpid == curpid) ≡ true = (==_iff p.p_parentpid curpid).1 parent in
        (λ going. rw (lo, hi, at, mine, going) refl, (gone, set r pid (running over), exits, waits))
