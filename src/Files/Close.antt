-- ===== src/Files/Close.antt =====
-- sys_close, and sys_close behind sys_open.
use os.Base.{
  ℕ, ◌^◌, ◌≤◌, ◌<◌, ◌≡◌, refl, sym, ap, subst, ◌∙◌, Bool, true, false, arith, inl, inr, Option,
  none, some, List, ltb, leb, length, get_elem?, set, get_elem?-of_lt, Bool-cases, ◌&&◌, ◌||◌, not,
  set_same, set_twice, get_elem?-set_self,
}
use os.Base.Outcome.{Errno, ebadf, Outcome, ok, value}
use os.Files.{
  Fd, Vfs, Files, Answer, max_file_handles, first_file_handle, acquire_process, acquire_table,
  release_process, release_table, put, close_fd, close_body, sys_open, sys_close, is_negative,
}
use os.Files.Open.{idle, locked, new_fd, vfs_result, Opened, opened, refused, full, sys_open-Opened}

module _ {ℓ} {Name Node V : Type ℓ} (vfs : Vfs Name Node V) where
  -- What sys_close makes of handle fd, table t and VFS state v.
  pub data Closed (fd : ℕ) (t : List (Option (Fd Name Node))) (v : V)
      : Option Errno → List (Option (Fd Name Node)) → V → Type ℓ where
    closed :
        (f : Fd Name Node)
        → first_file_handle ≤ fd
        → get_elem? t fd ≡ some (some f)
        → Closed fd t v none (set t fd none) (vfs.vfs_close f.node v)
    below : fd < first_file_handle → Closed fd t v (some ebadf) t v
    beyond : max_file_handles ≤ fd → Closed fd t v (some ebadf) t v
    not_open : get_elem? t fd ≡ some none → Closed fd t v (some ebadf) t v

  module _ (mem : ℕ → Bool) (fd : ℕ) (t : List (Option (Fd Name Node))) (v : V)
      (len : length t ≡ max_file_handles) where
    abbrev Closes : Outcome (Option Errno × Files Name Node V) → Type ℓ
    Closes r =
        (e : Option Errno) × (t' : List (Option (Fd Name Node))) × (v' : V) × (r
          ≡ ok (e, locked t' v'))
        × Closed fd t v e t' v'

    close_body-low : fd < first_file_handle → Closes (close_body vfs mem fd (locked t v))
    unfolding close_body is_negative
    close_body-low h =
        let e : (not (leb (2 ^ 31) fd) && leb fd 2) ≡ true = ground arith in
        (some ebadf, t, v, rw (e) refl, below h)

    close_body-high : max_file_handles ≤ fd → Closes (close_body vfs mem fd (locked t v))
    unfolding close_body is_negative
    close_body-high h =
        let e : (not (leb (2 ^ 31) fd) && leb fd 2) ≡ false = ground arith in
        let f : (leb (2 ^ 31) fd || leb max_file_handles fd) ≡ true = ground arith in
        (some ebadf, t, v, rw (e, f) refl, beyond h)

    close_body-slot :
        first_file_handle ≤ fd → fd < max_file_handles → Closes (close_body vfs mem fd (locked t v))
    unfolding close_body is_negative close_fd put
    close_body-slot lo hi =
        let e : (not (leb (2 ^ 31) fd) && leb fd 2) ≡ false = ground arith in
        let f : (leb (2 ^ 31) fd || leb max_file_handles fd) ≡ false = ground arith in
        let (x, at) = get_elem?-of_lt t fd (omega arith) in
        elim x as (λ x. get_elem? t fd ≡ some x → Closes (close_body vfs mem fd (locked t v))) [
          | none ↦ λ at. (some ebadf, t, v, rw (e, f, at) refl, not_open at)
          | some g ↦ λ at.
              (none, set t fd none, vfs.vfs_close g.node v, rw (e, f, at) refl, closed g lo at)
        ]
          at

    close_body-Closes : Closes (close_body vfs mem fd (locked t v))
    close_body-Closes = elim (Bool-cases (ltb fd first_file_handle)) [
      | inl h ↦ close_body-low (ground (arith, h))
      | inr h ↦ elim (Bool-cases (ltb fd max_file_handles)) [
        | inl g ↦ close_body-slot (ground (arith, h)) (ground (arith, g))
        | inr g ↦ close_body-high (ground (arith, g))
      ]
    ]

    -- With both locks free, sys_close on a table of 32 handles closes the file of an open handle
    -- from 3 on and empties its slot; for every other handle it fails with EBADF and changes
    -- nothing. Both locks are free behind it.
    pub sys_close-Closed :
        (e : Option Errno) × (t' : List (Option (Fd Name Node))) × (v' : V) × (sys_close vfs mem fd
            (idle t v)
          ≡ ok (e, idle t' v'))
        × Closed fd t v e t' v'
    unfolding sys_close acquire_process acquire_table release_process release_table
    sys_close-Closed = let (e, t', v', q, c) = close_body-Closes in (e, t', v', rw (q) refl, c)

  module _ (mem : ℕ → Bool) (enough : (k : ℕ) → mem k ≡ true) (filename : Name) (flags : ℕ)
      (t : List (Option (Fd Name Node))) (v : V) (len : length t ≡ max_file_handles) where
    close_opened :
        (i : ℕ) (n : Node)
        → first_file_handle ≤ i
        → i < max_file_handles
        → get_elem? t i ≡ some none
        → (w : V)
        → sys_close vfs mem i (idle (set t i (some (new_fd vfs filename flags n))) w)
          ≡ ok (none, idle t (vfs.vfs_close n w))
    unfolding sys_close acquire_process acquire_table release_process release_table close_body
        is_negative close_fd put
    close_opened i n lo hi at w =
        let e : (not (leb (2 ^ 31) i) && leb i 2) ≡ false = ground arith in
        let f : (leb (2 ^ 31) i || leb max_file_handles i) ≡ false = ground arith in
        rw
          (
            e,
            f,
            get_elem?-set_self t i (some (new_fd vfs filename flags n)) (omega arith),
            set_twice t i (some (new_fd vfs filename flags n)) none,
            set_same t i none at,
          )
          refl

    -- What sys_close makes of a handle that sys_open answered.
    abbrev Undone : ℕ → Files Name Node V → Type ℓ
    Undone i s' =
        (n : Node) × ((vfs_result vfs filename flags v).0 ≡ inr n)
        × (sys_close vfs mem i s'
            ≡ ok (none, idle t (vfs.vfs_close n (vfs_result vfs filename flags v).1)))

    reopened :
        (a : Answer) (t' : List (Option (Fd Name Node))) (v' : V)
        → Opened vfs filename flags t v a t' v'
        → (i : ℕ) (s' : Files Name Node V)
        → ◌≡◌ {A = Outcome (Answer × Files Name Node V)}
            (ok (a, idle t' v'))
            (ok (record { retval = some i; error = none }, s'))
        → Undone i s'
    reopened _ _ _ (opened j n lo hi at before r) i s' q =
        let p = ap (value (record { retval = some i; error = none }, s')) q in
        let k : j ≡ i = ap (λ x. elim x.0.retval [ none ↦ 0 | some k ↦ k ]) p in
        subst (λ i. Undone i s') k
          (subst (Undone j) (ap (λ x. x.1) p) (n, r, close_opened j n lo hi at _))
    reopened _ _ _ (refused j e lo hi at before r) i s' q =
        let p = ap (value (record { retval = some i; error = none }, s')) q in
        ground (arith, ap (λ x. x.0.error) p)
    reopened _ _ _ (full before) i s' q =
        let p = ap (value (record { retval = some i; error = none }, s')) q in
        ground (arith, ap (λ x. x.0.error) p)

    -- With memory at hand, closing the handle that sys_open answered without an error gives back
    -- the table as it was before and closes the vnode that vfs_open gave.
    pub sys_close-sys_open :
        (i : ℕ) (s' : Files Name Node V)
        → sys_open vfs mem filename flags (idle t v)
          ≡ ok (record { retval = some i; error = none }, s')
        → (n : Node) × ((vfs_result vfs filename flags v).0 ≡ inr n)
          × (sys_close vfs mem i s'
              ≡ ok (none, idle t (vfs.vfs_close n (vfs_result vfs filename flags v).1)))
    sys_close-sys_open i s' e =
        let (a, t', v', q, o) = sys_open-Opened vfs filename flags mem enough t v len in
        reopened a t' v' o i s' (sym q ∙ e)
