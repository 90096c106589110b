-- ===== src/Files/Sequence.antt =====
-- System calls on files, one after the other.
use os.Base.{
  ℕ, ◌≡◌, refl, Bool, true, ◌∙◌, Option, some, none, List, [], ◌∷◌, length, set, length-set,
}
use os.Base.Outcome.{Errno, Outcome, ok, ◌>>=◌}
use os.Pagetable.{Machine}
use os.Addrspace.{AddressSpace, as_valid_ptr}
use os.Files.{Fd, Vfs, Files, Answer, max_file_handles, sys_open, sys_close, sys_read, sys_write}
use os.Files.Open.{idle, new_fd, Opened, opened, refused, full, sys_open-Opened}
use os.Files.Close.{Closed, closed, below, beyond, not_open, sys_close-Closed}
use os.Files.Transfer.{
  Moved, moved, vop_failed, wrong_mode, no_file, Served, file, console_open, console_refused,
  console_opened,
}
use os.Files.Calls.{
  Called, bad_pointer, no_handle, banned_handle, served, sys_read-Called, sys_write-Called,
}

-- A system call with its arguments.
pub data Call {ℓ} (Name : Type ℓ) : Type ℓ where
  open_call : Name → ℕ → Call Name
  close_call : ℕ → Call Name
  read_call write_call : ℕ → ℕ → ℕ → Call Name

module _ {ℓ} {Name Node V : Type ℓ} (vfs : Vfs Name Node V) where
  length-Opened :
      (filename : Name) (flags : ℕ) (t t' : List (Option (Fd Name Node))) (v v' : V) (a : Answer)
      → Opened vfs filename flags t v a t' v'
      → length t' ≡ length t
  length-Opened filename flags t _ v _ _ (opened i n lo hi at before r) =
      length-set t i (some (new_fd vfs filename flags n))
  length-Opened filename flags t _ v _ _ (refused i e lo hi at before r) = refl
  length-Opened filename flags t _ v _ _ (full before) = refl

  length-Closed :
      (fd : ℕ) (t t' : List (Option (Fd Name Node))) (v v' : V) (e : Option Errno)
      → Closed vfs fd t v e t' v'
      → length t' ≡ length t
  length-Closed fd t _ v _ _ (closed f lo at) = length-set t fd none
  length-Closed fd t _ v _ _ (below h) = refl
  length-Closed fd t _ v _ _ (beyond h) = refl
  length-Closed fd t _ v _ _ (not_open h) = refl

  module _ (vop : Node → ℕ → ℕ → V → (Option Errno × ℕ) × V) (forbidden mode fd buflen : ℕ) where
    length-Moved :
        (t : List (Option (Fd Name Node))) (v : V) (t' : List (Option (Fd Name Node))) (v' : V)
        (a : Answer)
        → Moved vfs vop forbidden mode fd buflen t v a t' v'
        → length t' ≡ length t
    length-Moved t v _ _ _ (moved f at ne r) = length-set t fd _
    length-Moved t v _ _ _ (vop_failed f e at ne r) = refl
    length-Moved t v _ _ _ (wrong_mode f at eq) = refl
    length-Moved t v _ _ _ (no_file at) = refl

    length-Served :
        (t t' : List (Option (Fd Name Node))) (v v' : V) (own : Bool) (a : Answer)
        → Served vfs vop forbidden mode fd buflen t v own a t' v'
        → length t' ≡ length t
    length-Served t t' v v' _ a (file m) = length-Moved t v t' v' a m
    length-Served t t' v v' _ a (console_open o m) = length-Moved t v t' v' a m
    length-Served t _ v _ _ _ (console_refused e at r) = refl
    length-Served t t' v v' _ a (console_opened n at r m) =
        length-Moved (set t fd (some (new_fd vfs vfs.con mode n))) _ t' v' a m
        ∙ length-set t fd (some (new_fd vfs vfs.con mode n))

    length-Called :
        (banned own : Bool) (t t' : List (Option (Fd Name Node))) (v v' : V) (r : Option Errno)
        (a : Answer)
        → Called vfs vop forbidden mode fd buflen banned own t v r a t' v'
        → length t' ≡ length t
    length-Called banned own t _ v _ _ _ bad_pointer = refl
    length-Called banned own t _ v _ _ _ (no_handle h) = refl
    length-Called banned own t _ v _ _ _ (banned_handle h) = refl
    length-Called banned own t t' v v' _ a (served lt b s) = length-Served t t' v v' own a s

  module _ (mem : ℕ → Bool) (space : ℕ) (vmspace : Option AddressSpace) (machine : Machine) where
    -- The answers are dropped.
    unfoldable pub run_call : Call Name → Files Name Node V → Outcome (Files Name Node V)
    run_call (open_call filename flags) s = do (_, s') ← sys_open vfs mem filename flags s; ok s'
    run_call (close_call fd) s = do (_, s') ← sys_close vfs mem fd s; ok s'
    run_call (read_call fd buf buflen) s = do
      (_, s') ← sys_read vfs mem space vmspace machine fd buf buflen s
      ok s'
    run_call (write_call fd buf nbytes) s = do
      (_, s') ← sys_write vfs mem space vmspace machine fd buf nbytes s
      ok s'

    unfoldable pub run_calls : List (Call Name) → Files Name Node V → Outcome (Files Name Node V)
    run_calls [] s = ok s
    run_calls (c ∷ cs) s = do s' ← run_call c s; run_calls cs s'

    -- A call that leaves a table of the same length and both locks free.
    abbrev Quiet : Outcome (Files Name Node V) → Type ℓ
    Quiet r =
        (t : List (Option (Fd Name Node))) × (v : V) × (r ≡ ok (idle t v))
        × (length t ≡ max_file_handles)

    module _ (enough : (k : ℕ) → mem k ≡ true)
        (checks : (buf : ℕ)
          → (r : Option Errno) × (as_valid_ptr space vmspace buf machine ≡ ok r)) where
      run_call-Quiet :
          (c : Call Name) (t : List (Option (Fd Name Node))) (v : V)
          → length t ≡ max_file_handles
          → Quiet (run_call c (idle t v))
      unfolding run_call
      run_call-Quiet (open_call filename flags) t v len =
          let (a, t', v', e, o) = sys_open-Opened vfs filename flags mem enough t v len in
          (t', v', rw (e) refl, length-Opened filename flags t t' v v' a o ∙ len)
      run_call-Quiet (close_call fd) t v len =
          let (a, t', v', e, o) = sys_close-Closed vfs mem fd t v len in
          (t', v', rw (e) refl, length-Closed fd t t' v v' a o ∙ len)
      run_call-Quiet (read_call fd buf buflen) t v len =
          let (r, h) = checks buf in
          let (a, t', v', e, o) =
            sys_read-Called vfs mem enough space vmspace machine fd buf buflen t v len r h in
          (t', v', rw (e) refl, length-Called _ _ _ _ _ _ _ t t' v v' r a o ∙ len)
      run_call-Quiet (write_call fd buf nbytes) t v len =
          let (r, h) = checks buf in
          let (a, t', v', e, o) =
            sys_write-Called vfs mem enough space vmspace machine fd buf nbytes t v len r h in
          (t', v', rw (e) refl, length-Called _ _ _ _ _ _ _ t t' v v' r a o ∙ len)

      -- With memory at hand and as_valid_ptr returning for every pointer, any sequence of
      -- sys_open, sys_close, sys_read and sys_write on a table of 32 handles returns, on every
      -- error path too, with both locks free and a table of 32 handles.
      pub run_calls-idle :
          (cs : List (Call Name)) (t : List (Option (Fd Name Node))) (v : V)
          → length t ≡ max_file_handles
          → (t' : List (Option (Fd Name Node))) × (v' : V) × (run_calls cs (idle t v)
              ≡ ok (idle t' v'))
            × (length t' ≡ max_file_handles)
      unfolding run_calls
      run_calls-idle [] t v len = (t, v, refl, len)
      run_calls-idle (c ∷ cs) t v len =
          let (t', v', e, len') = run_call-Quiet c t v len in rw (e) (run_calls-idle cs t' v' len')
