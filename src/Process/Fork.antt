-- ===== src/Process/Fork.antt =====
-- sys_fork: the child's file table, and what an error leaves.
use os.Base.{
  ℕ, zero, suc, ◌+◌, ◌%◌, ◌≤◌, ◌<◌, ◌≡◌, ◌≢◌, ◌⊎◌, refl, sym, ap, subst, ◌∙◌, Bool, true, arith,
  inl, inr, Option, none, some, List, [], ◌∷◌, length, get_elem?, set, get_elem?-of_lt, ◌==◌,
  Bool-cases, ==_iff, set_same, if◌then◌else◌, length-set, get_elem?-set_self, get_elem?-set_ne,
  lt→ltb,
}
use os.Base.Outcome.{Errno, Outcome, ok, ◌>>=◌}
use os.Files.{Fd, Vfs, Files, max_file_handles, open_fd, put}
use os.Files.Open.{new_fd}
use os.Process.Start.{copy_loop}

module _ {ℓ} {Name Node : Type ℓ} where
  -- The child's entry for an entry of the parent: the same name and mode, at position 0.
  pub data CopyOf : Option (Fd Name Node) → Option (Fd Name Node) → Type ℓ where
    not_open : CopyOf none none
    reopened :
        {d : Fd Name Node} (n : Node)
        → CopyOf
            (some d)
            (some (record { name = d.name; flags = d.flags % 4; position = 0; node = n }))

module _ {ℓ} {Name Node V : Type ℓ} (vfs : Vfs Name Node V) where
  -- What open_fd makes of a free handle i of f.
  data Opens (name : Name) (flags i : ℕ) (f : Files Name Node V)
      : Outcome (Option Errno × Files Name Node V) → Type ℓ where
    opens :
        (n : Node) (v : V)
        → Opens name flags i f
            (ok (none, put i (some (new_fd vfs name flags n)) (record f { vfs_state = v })))
    refuses : (e : Errno) (v : V) → Opens name flags i f (ok (some e, record f { vfs_state = v }))

  -- The end of open_fd.
  abbrev result :
      (ℕ → Bool)
      → Name
      → ℕ
      → ℕ
      → Files Name Node V
      → Errno ⊎ Node
      → Outcome (Option Errno × Files Name Node V)
  result mem name flags i f (inl e) = ok (some e, put i none f)
  result mem name flags i f (inr n) = ok (
    none,
    put i
        (some (record {
          name = if mem 1 then some name else none;
          flags = flags % 4;
          position = 0;
          node = n;
        }))
        f,
  )

  open_fd-Opens :
      (mem : ℕ → Bool)
      → ((k : ℕ) → mem k ≡ true)
      → (name : Name) (flags i : ℕ) (f : Files Name Node V) → i < max_file_handles
      → get_elem? f.file_table i ≡ some none
      → Opens name flags i f (open_fd vfs mem i name flags f)
  unfolding open_fd put
  open_fd-Opens mem enough name flags i f lt at =
      let v = (vfs.vfs_open name flags f.vfs_state).1 in
      rw (lt→ltb i max_file_handles lt, at, enough 0, enough 2)
        (elim (vfs.vfs_open name flags f.vfs_state).0
          as (λ o. Opens name flags i f (result mem name flags i (record f { vfs_state = v }) o)) [
            | inl e ↦
                subst
                  (λ t.
                    Opens name flags i f (ok (some e, record f { file_table = t; vfs_state = v })))
                  (sym (set_same f.file_table i none at)) (refuses e v)
            | inr n ↦ rw (enough 1) (opens n v)
          ])

  same : {A : Type ℓ} {x y : A} → some x ≡ some y → x ≡ y
  same {x = x} q = ap (λ o. elim o [ none ↦ x | some z ↦ z ]) q

  module _ (mem : ℕ → ℕ → Bool) (enough : (i k : ℕ) → mem i k ≡ true)
      (parent : List (Option (Fd Name Node))) (len : length parent ≡ max_file_handles)
      (named : (i : ℕ) (d : Fd Name Node)
        → get_elem? parent i ≡ some (some d)
        → (name : Name) × (d.name ≡ some name)) where
    -- What the loop makes of the child's files f, from handle i on.
    pub data Copied (i : ℕ) (f : Files Name Node V)
        : Outcome (Option Errno × Files Name Node V) → Type ℓ where
      copied :
          {f' : Files Name Node V}
          → length f'.file_table ≡ max_file_handles
          → ((j : ℕ) → j < i → get_elem? f'.file_table j ≡ get_elem? f.file_table j)
          → ((j : ℕ) (d c : Option (Fd Name Node))
              → i ≤ j
              → get_elem? parent j ≡ some d
              → get_elem? f'.file_table j ≡ some c
              → CopyOf d c)
          → Copied i f (ok (none, f'))
      stopped :
          {e : Errno} {f' : Files Name Node V}
          → length f'.file_table ≡ max_file_handles
          → Copied i f (ok (some e, f'))

    beyond :
        (t : List (Option (Fd Name Node))) (j : ℕ) (d : Option (Fd Name Node))
        → length t ≤ j
        → get_elem? t j ≢ some d
    beyond [] j d h e = ground (arith, e)
    beyond (x ∷ t) zero d h e = absurd (omega arith)
    beyond (x ∷ t) (suc j) d h e = beyond t j d (omega arith) e

    abbrev Step : ℕ → ℕ → Files Name Node V → Type ℓ
    Step left i f =
        length f.file_table ≡ max_file_handles
        → i + left ≡ max_file_handles
        → ((j : ℕ) → i ≤ j → j < max_file_handles → get_elem? f.file_table j ≡ some none)
        → Copied i f (copy_loop vfs mem parent left i f)

    -- A handle that is done with, and those behind it.
    extend :
        (i : ℕ) (f g : Files Name Node V) (o : Outcome (Option Errno × Files Name Node V))
        (d c : Option (Fd Name Node))
        → get_elem? parent i ≡ some d
        → get_elem? g.file_table i ≡ some c
        → CopyOf d c
        → ((j : ℕ) → j < i → get_elem? g.file_table j ≡ get_elem? f.file_table j)
        → Copied (suc i) g o
        → Copied i f o
    extend i f g _ d c at gat copy kept (copied {f'} l k all) =
        copied {f' = f'} l (λ j h. k j (omega arith) ∙ kept j h)
          (λ j d' c' lo e e'. elim (Bool-cases (j == i)) [
            | inl q ↦
                let q' = (==_iff j i).0 q in
                subst (λ d'. CopyOf d' c') (same (sym at ∙ ap (get_elem? parent) (sym q') ∙ e))
                  (subst (CopyOf d)
                    (same (
                      sym gat
                      ∙ sym (k i (omega arith))
                      ∙ ap (get_elem? f'.file_table) (sym q')
                      ∙ e'))
                    copy)
            | inr q ↦ all j d' c' (ground (arith, q)) e e'
          ])
    extend i f g _ d c at gat copy kept (stopped l) = stopped l

    open_step :
        (left i : ℕ) (f : Files Name Node V) (name : Name) (d : Fd Name Node)
        → get_elem? parent i ≡ some (some d)
        → d.name ≡ some name
        → length f.file_table ≡ max_file_handles
        → i + suc left ≡ max_file_handles
        → ((j : ℕ) → i ≤ j → j < max_file_handles → get_elem? f.file_table j ≡ some none)
        → ((g : Files Name Node V) → Step left (suc i) g)
        → (o : Outcome (Option Errno × Files Name Node V)) → Opens name d.flags i f o
        → Copied i f (do
          (e, f') ← o
          elim e [ none ↦ copy_loop vfs mem parent left (suc i) f' | some e' ↦ ok (some e', f') ])
    unfolding put
    open_step left i f name d at nm l all free next _ (opens n v) =
        let entry = some (new_fd vfs name d.flags n) in
        let g : Files Name Node V = record f {
          file_table = set f.file_table i entry;
          vfs_state = v;
        } in
        extend i f g _ (some d) entry at (get_elem?-set_self f.file_table i entry (omega arith))
          (subst
            (λ m.
              CopyOf (some d)
                (some (record { name = m; flags = d.flags % 4; position = 0; node = n })))
            nm (reopened n))
          (λ j h. get_elem?-set_ne f.file_table i j entry (omega arith))
          (next g (omega (arith, length-set f.file_table i entry)) (omega arith) (λ j lo hi.
            get_elem?-set_ne f.file_table i j entry (omega arith) ∙ free j (omega arith) hi))
    open_step left i f name d at nm l all free next _ (refuses e v) = stopped l

    pub copy_loop-Copied : (left i : ℕ) (f : Files Name Node V) → Step left i f
    unfolding copy_loop
    copy_loop-Copied zero i f l all free =
        copied l (λ j h. refl) (λ j d c lo e e'. absurd (beyond parent j d (omega arith) e))
    copy_loop-Copied (suc left) i f l all free =
        let (x, at) = get_elem?-of_lt parent i (omega arith) in
        elim x
            as (λ x.
              get_elem? parent i ≡ some x → Copied i f (copy_loop vfs mem parent (suc left) i f)) [
                | none ↦ λ at. rw (at) (
                    extend i f f _ none none at (free i (omega arith) (omega arith)) not_open
                      (λ j h. refl)
                      (copy_loop-Copied left (suc i) f l (omega arith)
                        (λ j lo hi. free j (omega arith) hi)))
                | some d ↦ λ at.
                    let (name, nm) = named i d at in
                    rw (at, nm)
                      (open_step left i f name d at nm l all free (copy_loop-Copied left (suc i)) _
                        (open_fd-Opens (mem i) (enough i) name d.flags i f (omega arith)
                          (free i (omega arith) (omega arith))))
              ]
          at
