-- ===== src/Files/Transfer.antt =====
-- sys_read and sys_write on a file table whose locks are free.
use os.Base.{
  ℕ, ◌+◌, ◌-◌, ◌%◌, ◌^◌, ◌<◌, ◌≡◌, ◌≢◌, refl, Bool, true, false, arith, inl, inr, Option, none,
  some, List, if◌then◌else◌, length, get_elem?, set, get_elem?-of_lt, ◌⊎◌, ◌==◌, lt→ltb, Bool-cases,
  ==_iff, length-set, Option-cases, set_same,
}
use os.Base.Outcome.{Errno, ebadf, Outcome, ok, ◌>>=◌}
use os.Files.{
  Fd, Vfs, Files, Answer, max_file_handles, acquire_table, release_process, release_table, put,
  fail, open_fd, console, transfer,
}
use os.Files.Open.{idle, IsOpen, new_fd, vfs_result}

module _ {ℓ} {Name Node V : Type ℓ} where
  -- process_lock is held, the table's lock is not.
  abbrev pub entered : List (Option (Fd Name Node)) → V → Files Name Node V
  entered t v = record {
    file_table = t;
    process_lock = true;
    file_table_lock = false;
    vfs_state = v;
  }

module _ {ℓ} {Name Node : Type ℓ} where
  -- How many bytes were moved, as an int, and the file behind them.
  abbrev pub moved_bytes : Fd Name Node → ℕ → ℕ
  moved_bytes f offset = (offset + 2 ^ 32 - f.position) % 2 ^ 32

  abbrev pub advanced : Fd Name Node → ℕ → Fd Name Node
  advanced f offset = record f { position = (f.position + moved_bytes f offset) % 2 ^ 32 }

abbrev pub error_answer : Errno → Answer
error_answer e = record { retval = none; error = some e }

module _ {ℓ} {Name Node V : Type ℓ} (vfs : Vfs Name Node V)
    (vop : Node → ℕ → ℕ → V → (Option Errno × ℕ) × V) (forbidden mode fd buflen : ℕ) where
  -- What a transfer makes of table t and VFS state v.
  pub data Moved (t : List (Option (Fd Name Node))) (v : V)
      : Answer → List (Option (Fd Name Node)) → V → Type ℓ where
    moved :
        (f : Fd Name Node)
        → get_elem? t fd ≡ some (some f)
        → f.flags ≢ forbidden
        → (vop f.node f.position buflen v).0.0 ≡ none
        → Moved t v
            (record {
              retval = some (moved_bytes f (vop f.node f.position buflen v).0.1);
              error = none;
            })
            (set t fd (some (advanced f (vop f.node f.position buflen v).0.1)))
            (vop f.node f.position buflen v).1
    vop_failed :
        (f : Fd Name Node) (e : Errno)
        → get_elem? t fd ≡ some (some f)
        → f.flags ≢ forbidden
        → (vop f.node f.position buflen v).0.0 ≡ some e
        → Moved t v (error_answer e) t (vop f.node f.position buflen v).1
    wrong_mode :
        (f : Fd Name Node)
        → get_elem? t fd ≡ some (some f)
        → f.flags ≡ forbidden
        → Moved t v (error_answer ebadf) t v
    no_file : get_elem? t fd ≡ some none → Moved t v (error_answer ebadf) t v

  -- What sys_read or sys_write makes of them, with its own console handles opened on the way.
  pub data Served (t : List (Option (Fd Name Node))) (v : V)
      : Bool → Answer → List (Option (Fd Name Node)) → V → Type ℓ where
    file :
        {a : Answer} {t' : List (Option (Fd Name Node))} {v' : V}
        → Moved t v a t' v'
        → Served t v false a t' v'
    console_open :
        {a : Answer} {t' : List (Option (Fd Name Node))} {v' : V}
        → IsOpen t fd
        → Moved t v a t' v'
        → Served t v true a t' v'
    console_refused :
        (e : Errno)
        → get_elem? t fd ≡ some none
        → (vfs_result vfs vfs.con mode v).0 ≡ inl e
        → Served t v true (error_answer e) t (vfs_result vfs vfs.con mode v).1
    console_opened :
        {a : Answer} {t' : List (Option (Fd Name Node))} {v' : V} (n : Node)
        → get_elem? t fd ≡ some none
        → (vfs_result vfs vfs.con mode v).0 ≡ inr n
        → Moved
            (set t fd (some (new_fd vfs vfs.con mode n)))
            (vfs_result vfs vfs.con mode v).1
            a
            t'
            v'
        → Served t v true a t' v'

  -- A call returns with the locks free, having done what P says.
  abbrev pub Returns :
      (Answer → List (Option (Fd Name Node)) → V → Type ℓ)
      → Outcome (Answer × Files Name Node V)
      → Type ℓ
  Returns P r =
      (a : Answer) × (t' : List (Option (Fd Name Node))) × (v' : V) × (r ≡ ok (a, idle t' v'))
      × P a t' v'

  module _ (mem : ℕ → Bool) (enough : (k : ℕ) → mem k ≡ true) where
    abbrev named : Node → Fd Name Node
    named n = record {
      name = if mem 1 then some vfs.con else none;
      flags = mode % 4;
      position = 0;
      node = n;
    }

    moves :
        (t : List (Option (Fd Name Node))) (v : V) (f : Fd Name Node)
        → get_elem? t fd ≡ some (some f)
        → Returns (Moved t v) (transfer vfs mem vop forbidden fd buflen (entered t v))
    unfolding transfer acquire_table release_table release_process fail put
    moves t v f at = elim (Bool-cases (f.flags == forbidden)) [
      | inl e ↦ (
        error_answer ebadf,
        t,
        v,
        rw (at, e) refl,
        wrong_mode f at ((==_iff f.flags forbidden).0 e),
      )
      | inr e ↦
          let ne : f.flags ≢ forbidden = ground (arith, e) in
          let r = vop f.node f.position buflen v in
          elim (Option-cases r.0.0) [
            | inl q ↦ (
              record { retval = some (moved_bytes f r.0.1); error = none },
              set t fd (some (advanced f r.0.1)),
              r.1,
              rw (at, e, enough 3, q) refl,
              moved f at ne q,
            )
            | inr (x, q) ↦
                (error_answer x, t, r.1, rw (at, e, enough 3, q) refl, vop_failed f x at ne q)
          ]
    ]

    transfer-Moved :
        (t : List (Option (Fd Name Node))) (v : V)
        → fd < length t
        → Returns (Moved t v) (transfer vfs mem vop forbidden fd buflen (entered t v))
    unfolding transfer acquire_table release_table release_process fail
    transfer-Moved t v lt =
        let (x, at) = get_elem?-of_lt t fd lt in
        elim x
            as (λ x.
              get_elem? t fd ≡ some x
              → Returns (Moved t v) (transfer vfs mem vop forbidden fd buflen (entered t v))) [
                | none ↦ λ at. (error_answer ebadf, t, v, rw (at) refl, no_file at)
                | some f ↦ λ at. moves t v f at
              ]
          at

    -- What follows the checks of the arguments.
    abbrev body : Bool → List (Option (Fd Name Node)) → V → Outcome (Answer × Files Name Node V)
    body own t v = do
      (e, s') ← if own then console vfs mem fd mode (entered t v) else ok (none, entered t v)
      elim e [ none ↦ transfer vfs mem vop forbidden fd buflen s' | some e' ↦ fail e' s' ]

    -- What open_fd makes of the result of vfs_open.
    abbrev console_result :
        List (Option (Fd Name Node)) → V → Errno ⊎ Node → Outcome (Option Errno × Files Name Node V)
    console_result t v (inl e) =
        ok (some e, entered (set t fd none) (vfs_result vfs vfs.con mode v).1)
    console_result t v (inr n) =
        ok (none, entered (set t fd (some (named n))) (vfs_result vfs vfs.con mode v).1)

    body-console :
        (t : List (Option (Fd Name Node))) (v : V) (x : Option (Fd Name Node))
        → length t ≡ max_file_handles
        → fd < max_file_handles
        → get_elem? t fd ≡ some x
        → Returns (Served t v true) (body true t v)
    unfolding console open_fd put fail release_process
    body-console t v (some f) len lt at =
        let (a, t', v', q, p) = transfer-Moved t v (omega arith) in
        (a, t', v', rw (at) q, console_open (f, at) p)
    body-console t v none len lt at =
        rw (at, lt→ltb fd max_file_handles lt, enough 0, enough 2)
          (elim (vfs_result vfs vfs.con mode v).0
              as (λ o.
                (vfs_result vfs vfs.con mode v).0 ≡ o
                → Returns (Served t v true) (do
                  (e, s') ← console_result t v o
                  elim e [
                    | none ↦ transfer vfs mem vop forbidden fd buflen s'
                    | some e' ↦ fail e' s'
                  ])) [
                    | inl e ↦ λ q. (
                      error_answer e,
                      t,
                      (vfs_result vfs vfs.con mode v).1,
                      rw (set_same t fd none at) refl,
                      console_refused e at q,
                    )
                    | inr n ↦ λ q.
                        let (a, t', v', r, p) =
                          transfer-Moved (set t fd (some (new_fd vfs vfs.con mode n)))
                            (vfs_result vfs vfs.con mode v).1
                            (omega (arith, length-set t fd (some (new_fd vfs vfs.con mode n)))) in
                        (a, t', v', rw (enough 1) r, console_opened n at q p)
                  ]
            refl)

    pub body-Served :
        (own : Bool) (t : List (Option (Fd Name Node))) (v : V)
        → length t ≡ max_file_handles
        → fd < max_file_handles
        → Returns (Served t v own) (body own t v)
    body-Served true t v len lt =
        let (x, at) = get_elem?-of_lt t fd (omega arith) in body-console t v x len lt at
    body-Served false t v len lt =
        let (a, t', v', q, p) = transfer-Moved t v (omega arith) in (a, t', v', q, file p)
