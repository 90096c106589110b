-- ===== src/Files/Open.antt =====
-- sys_open on a file table whose locks are free.
use os.Base.{
  ℕ, zero, suc, ◌+◌, ◌-◌, ◌%◌, ◌≤◌, ◌<◌, ◌≡◌, refl, Bool, true, false, arith, inl, inr, Option,
  none, some, List, if◌then◌else◌, length, get_elem?, set, get_elem?-of_lt, ◌⊎◌, ◌==◌, lt→ltb,
  set_same, Bool-cases, ==_iff,
}
use os.Base.Outcome.{Errno, emfile, Outcome, ok, ◌>>=◌}
use os.Files.{
  Fd, Vfs, Files, Answer, max_file_handles, first_file_handle, acquire_process, acquire_table,
  release_process, release_table, put, open_fd, open_loop, sys_open,
}

module _ {ℓ} {Name Node V : Type ℓ} where
  -- The state between two system calls, and the one in which both locks are held.
  abbrev pub idle : List (Option (Fd Name Node)) → V → Files Name Node V
  idle t v = record { file_table = t; process_lock = false; file_table_lock = false; vfs_state = v }

  abbrev pub locked : List (Option (Fd Name Node)) → V → Files Name Node V
  locked t v = record { file_table = t; process_lock = true; file_table_lock = true; vfs_state = v }

abbrev pub IsOpen {ℓ} : {Name Node : Type ℓ} → List (Option (Fd Name Node)) → ℕ → Type ℓ
IsOpen {Name} {Node} t j = (f : Fd Name Node) × (get_elem? t j ≡ some (some f))

module _ {ℓ} {Name Node V : Type ℓ} (vfs : Vfs Name Node V) (filename : Name) (flags : ℕ) where
  abbrev pub new_fd : Node → Fd Name Node
  new_fd n = record { name = some filename; flags = flags % 4; position = 0; node = n }

  abbrev pub vfs_result : V → (Errno ⊎ Node) × V
  vfs_result v = vfs.vfs_open filename flags v

  -- What sys_open makes of table t and VFS state v, as its answer, table and state.
  pub data Opened (t : List (Option (Fd Name Node))) (v : V)
      : Answer → List (Option (Fd Name Node)) → V → Type ℓ where
    opened :
        (i : ℕ) (n : Node)
        → first_file_handle ≤ i
        → i < max_file_handles
        → get_elem? t i ≡ some none
        → ((j : ℕ) → first_file_handle ≤ j → j < i → IsOpen t j)
        → (vfs_result v).0 ≡ inr n
        → Opened t v
            (record { retval = some i; error = none })
            (set t i (some (new_fd n)))
            (vfs_result v).1
    refused :
        (i : ℕ) (e : Errno)
        → first_file_handle ≤ i
        → i < max_file_handles
        → get_elem? t i ≡ some none
        → ((j : ℕ) → first_file_handle ≤ j → j < i → IsOpen t j)
        → (vfs_result v).0 ≡ inl e
        → Opened t v (record { retval = some i; error = some e }) t (vfs_result v).1
    full :
        ((j : ℕ) → first_file_handle ≤ j → j < max_file_handles → IsOpen t j)
        → Opened t v (record { retval = none; error = some emfile }) t v

  module _ (mem : ℕ → Bool) (enough : (k : ℕ) → mem k ≡ true) (t : List (Option (Fd Name Node)))
      (v : V) (len : length t ≡ max_file_handles) where
    -- How the loop ends on the table.
    abbrev Ends : Outcome (Answer × Files Name Node V) → Type ℓ
    Ends r =
        (a : Answer) × (t' : List (Option (Fd Name Node))) × (v' : V) × (r ≡ ok (a, locked t' v'))
        × Opened t v a t' v'

    abbrev named : Node → Fd Name Node
    named n = record {
      name = if mem 1 then some filename else none;
      flags = flags % 4;
      position = 0;
      node = n;
    }

    open_at :
        (i : ℕ)
        → first_file_handle ≤ i
        → i < max_file_handles
        → get_elem? t i ≡ some none
        → ((j : ℕ) → first_file_handle ≤ j → j < i → IsOpen t j)
        → Ends (do
          (e, s') ← open_fd vfs mem i filename flags (locked t v)
          ok (record { retval = some i; error = e }, s'))
    unfolding open_fd put
    open_at i lo hi at before =
        rw (lt→ltb i max_file_handles hi, at, enough 0, enough 2)
          (elim (vfs_result v).0
              as (λ o.
                (vfs_result v).0 ≡ o
                → Ends (do
                  (e, s') ← elim o [
                    | inl e ↦ ok (some e, locked (set t i none) (vfs_result v).1)
                    | inr n ↦ ok (none, locked (set t i (some (named n))) (vfs_result v).1)
                  ]
                  ok (record { retval = some i; error = e }, s'))) [
                    | inl e ↦ λ q. (
                      record { retval = some i; error = some e },
                      t,
                      (vfs_result v).1,
                      rw (set_same t i none at) refl,
                      refused i e lo hi at before q,
                    )
                    | inr n ↦ λ q. (
                      record { retval = some i; error = none },
                      set t i (some (new_fd n)),
                      (vfs_result v).1,
                      rw (enough 1) refl,
                      opened i n lo hi at before q,
                    )
                  ]
            refl)

    open_loop-Ends :
        (left i : ℕ)
        → first_file_handle ≤ i
        → i + left ≡ max_file_handles
        → ((j : ℕ) → first_file_handle ≤ j → j < i → IsOpen t j)
        → Ends (open_loop vfs mem filename flags left i (locked t v))
    unfolding open_loop
    open_loop-Ends zero i lo all before = (
      record { retval = none; error = some emfile },
      t,
      v,
      refl,
      full (λ j jl jh. before j jl (omega arith)),
    )
    open_loop-Ends (suc left) i lo all before =
        let (x, at) = get_elem?-of_lt t i (omega arith) in
        elim x
            as (λ x.
              get_elem? t i ≡ some x
              → Ends (open_loop vfs mem filename flags (suc left) i (locked t v))) [
                | none ↦ λ at. rw (at) (open_at i lo (omega arith) at before)
                | some f ↦ λ at. rw (at) (
                    open_loop-Ends left (suc i) (omega arith) (omega arith) (λ j jl jh.
                      elim (Bool-cases (j == i)) [
                        | inl e ↦ (f, rw ((==_iff j i).0 e) at)
                        | inr e ↦ before j jl (ground (arith, e))
                      ]))
              ]
          at

    -- With memory at hand and both locks free, sys_open on a table of 32 handles takes the lowest
    -- free handle from 3 on: it puts the opened file there, at position 0, and answers the
    -- handle, or, when vfs_open fails, leaves the table as it was and answers the handle with the
    -- error. With no handle free it answers -1 and EMFILE and changes nothing. Both locks are
    -- free behind it.
    pub sys_open-Opened :
        (a : Answer) × (t' : List (Option (Fd Name Node))) × (v' : V) × (sys_open vfs mem filename
            flags
            (idle t v)
          ≡ ok (a, idle t' v'))
        × Opened t v a t' v'
    unfolding sys_open acquire_process acquire_table release_process release_table
    sys_open-Opened =
        let (a, t', v', e, o) =
          open_loop-Ends (max_file_handles - first_file_handle) first_file_handle (omega arith) refl
            (λ j jl jh. ground arith) in
        (a, t', v', rw (e) refl, o)
