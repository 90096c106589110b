-- ===== src/Process/Create.antt =====
-- process_create on a table whose lock is free.
use os.Base.{
  ℕ, zero, suc, ◌+◌, ◌-◌, ◌≤◌, ◌<◌, ◌≡◌, ◌≢◌, ◌⊎◌, refl, sym, ap, ◌∙◌, Bool, true, false, arith,
  inl, inr, Option, none, some, List, length, get_elem?, set, get_elem?-of_lt, ◌==◌, Bool-cases,
  ==_iff, replicate, set_twice,
}
use os.Base.Outcome.{Errno, enomem, eagain, Outcome, ok, ◌>>=◌}
use os.Files.{max_file_handles}
use os.Process.{
  Process, Slot, null, dangling, running, Processes, max_processes, acquire_lock, release_lock,
  put_slot, process_create_for_id, create_loop, process_create,
}

module _ {ℓ} {Name Node V : Type ℓ} where
  -- process_lock is free, or held.
  abbrev pub free : List (Slot Name Node) → V → Processes Name Node V
  free r v = record { runningprocesses = r; process_lock = false; vfs_state = v }

  abbrev pub held : List (Slot Name Node) → V → Processes Name Node V
  held r v = record { runningprocesses = r; process_lock = true; vfs_state = v }

module _ {ℓ} {Name Node : Type ℓ} (mem : ℕ → Bool) (curpid : ℕ) where
  abbrev pub new_process : ℕ → Process Name Node
  new_process pid = record {
    p_pid = pid;
    p_parentpid = curpid;
    p_finished = false;
    p_exitcode = 0;
    p_file_table = replicate max_file_handles none;
  }

  -- The lowest process id that is not in use.
  pub record LowestFree (r : List (Slot Name Node)) (pid : ℕ) : Type ℓ where
    pub positive : 1 ≤ pid
    pub small : pid < max_processes
    pub is_null : get_elem? r pid ≡ some null
    pub before : (j : ℕ) → 1 ≤ j → j < pid → get_elem? r j ≢ some null

  -- What process_create makes of table r, as the process id with the error and the table.
  pub data Created (r : List (Slot Name Node))
      : Option ℕ × Option Errno → List (Slot Name Node) → Type ℓ where
    created :
        {pid : ℕ}
        → LowestFree r pid
        → mem 1 ≡ true
        → mem 2 ≡ true
        → mem 3 ≡ true
        → Created r (some pid, none) (set r pid (running (new_process pid)))
    no_memory :
        {pid : ℕ}
        → LowestFree r pid
        → (mem 1 ≡ false) ⊎ (mem 2 ≡ false)
        → Created r (some pid, some enomem) r
    left_dangling :
        {pid : ℕ}
        → LowestFree r pid
        → mem 1 ≡ true
        → mem 2 ≡ true
        → mem 3 ≡ false
        → Created r (some pid, some enomem) (set r pid dangling)
    full :
        ((j : ℕ) → 1 ≤ j → j < max_processes → get_elem? r j ≢ some null)
        → Created r (none, some eagain) r

  module _ {V : Type ℓ} (r : List (Slot Name Node)) (v : V) (allocated : mem 0 ≡ true)
      (len : length r ≡ max_processes) where
    abbrev Creates : Outcome ((Option ℕ × Option Errno) × Processes Name Node V) → Type ℓ
    Creates o =
        (a : Option ℕ × Option Errno) × (r' : List (Slot Name Node)) × (o ≡ ok (a, free r' v))
        × Created r a r'

    create_at :
        (pid : ℕ)
        → LowestFree r pid
        → Creates (do
          (e, s') ← process_create_for_id mem curpid pid true (held r v)
          ok ((some pid, e), s'))
    unfolding process_create_for_id release_lock put_slot
    create_at pid h = elim (Bool-cases (mem 1)) [
      | inr e ↦ ((some pid, some enomem), r, rw (allocated, e) refl, no_memory h (inl e))
      | inl e ↦ elim (Bool-cases (mem 2)) [
        | inr f ↦ ((some pid, some enomem), r, rw (allocated, e, f) refl, no_memory h (inr f))
        | inl f ↦ elim (Bool-cases (mem 3)) [
          | inr g ↦ (
            (some pid, some enomem),
            set r pid dangling,
            rw (allocated, e, f, g, set_twice r pid (running (new_process pid)) dangling) refl,
            left_dangling h e f g,
          )
          | inl g ↦ (
            (some pid, none),
            set r pid (running (new_process pid)),
            rw (allocated, e, f, g) refl,
            created h e f g,
          )
        ]
      ]
    ]

    abbrev Full : ℕ → Type ℓ
    Full i = (j : ℕ) → 1 ≤ j → j < i → get_elem? r j ≢ some null

    grow : (i : ℕ) (x : Slot Name Node) → get_elem? r i ≡ some x → x ≢ null → Full i → Full (suc i)
    grow i x at ne before j lo hi e = elim (Bool-cases (j == i)) [
      | inl q ↦ ne (same (sym at ∙ ap (get_elem? r) (sym ((==_iff j i).0 q)) ∙ e))
      | inr q ↦ before j lo (ground (arith, q)) e
    ]
      where
        same : {x y : Slot Name Node} → some x ≡ some y → x ≡ y
        same {x} {y} q = ap (λ o. elim o [ none ↦ x | some z ↦ z ]) q

    create_loop-Creates :
        (left i : ℕ)
        → 1 ≤ i
        → i + left ≡ max_processes
        → Full i
        → Creates (create_loop mem curpid left i (held r v))
    unfolding create_loop release_lock
    create_loop-Creates zero i lo all before =
        ((none, some eagain), r, refl, full (λ j jl jh. before j jl (omega arith)))
    create_loop-Creates (suc left) i lo all before =
        let (x, at) = get_elem?-of_lt r i (omega arith) in
        elim x
            as (λ x.
              get_elem? r i ≡ some x → Creates (create_loop mem curpid (suc left) i (held r v))) [
                | null ↦ λ at. rw (at) (
                    create_at i (record {
                      positive = lo;
                      small = omega arith;
                      is_null = at;
                      before = before;
                    }))
                | dangling ↦ λ at. rw (at) (
                    create_loop-Creates left (suc i) (omega arith) (omega arith)
                      (grow i dangling at (λ e. ground (arith, e)) before))
                | running p ↦ λ at. rw (at) (
                    create_loop-Creates left (suc i) (omega arith) (omega arith)
                      (grow i (running p) at (λ e. ground (arith, e)) before))
              ]
          at

    -- With process_lock free, a table of 128 entries and memory for the struct, process_create
    -- takes the lowest process id from 1 on that is not in use and puts a new process there. With
    -- none it fails with EAGAIN. Without memory for the condition variable or the first lock it
    -- fails with ENOMEM and leaves the table as it was; without memory for the lock of the file
    -- table it fails with ENOMEM and leaves a pointer to freed memory in the entry. process_lock
    -- is free behind it.
    pub process_create-Created :
        (a : Option ℕ × Option Errno) × (r' : List (Slot Name Node)) × (process_create mem curpid
            (free r v)
          ≡ ok (a, free r' v))
        × Created r a r'
    unfolding process_create acquire_lock
    process_create-Created =
        create_loop-Creates (max_processes - 1) 1 (omega arith) refl
          (λ j lo hi. absurd (omega arith))
