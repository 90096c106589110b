-- ===== src/Array.antt =====
-- os161-1.11/kern/lib/array.c: the growing array of pointers. `mem` says whether kmalloc finds
-- memory.
pub mod Slots
pub mod Refine
pub mod Add
pub mod Access
mod Tests
use os.Base.{
  ℕ, zero, suc, ◌+◌, ◌-◌, ◌*◌, ◌/◌, ◌%◌, ◌^◌, Bool, true, false, not, ◌&&◌, Option, none, some,
  List, [], ltb, leb, ◌==◌, if◌then◌else◌, length, get_elem?, set, replicate,
}
use os.Base.Outcome.{
  enomem, Outcome, ok, err, panic, fault, out_of_fuel, ◌>>=◌, ◌>>◌, assert, deref,
}

-- `v` is the allocation, if there is one. A slot that was never written is `none`.
pub record Array {ℓ} (A : Type ℓ) : Type ℓ where
  pub num : ℕ
  pub max : ℕ
  pub v : Option (List (Option A))

-- while (nguys > newmax) { newmax = (newmax+1)*2; }
unfoldable pub max_loop : ℕ → ℕ → ℕ → Outcome ℕ
max_loop zero nguys newmax = out_of_fuel
max_loop (suc fuel) nguys newmax =
    let rest = max_loop fuel nguys ((newmax + 1) * 2) in
    if ltb newmax nguys
    then (if ltb ((newmax + 1) * 2) (2 ^ 31) then rest else fault)
    else ok newmax

module _ {ℓ} {A : Type ℓ} where
  -- The slots behind v, where NULL has none.
  abbrev pub slots : Option (List (Option A)) → List (Option A)
  slots none = []
  slots (some vs) = vs

  -- The slots that kmalloc(n * sizeof(void *)) gives: the product is a 32-bit number.
  unfoldable pub new_slots : ℕ → List (Option A)
  new_slots n = replicate (n * 4 % 2 ^ 32 / 4) none

  unfoldable pub array_create : Bool → Option (Array A)
  array_create mem = if mem then some (record { num = 0; max = 0; v = none }) else none

  unfoldable pub array_getnum : Array A → ℕ
  array_getnum a = a.num

  -- a->v[index], whatever stands in it.
  unfoldable pub read_slot : List (Option A) → ℕ → Outcome (Option A)
  read_slot vs i = deref (get_elem? vs i)

  unfoldable pub write_slot : List (Option A) → ℕ → Option A → Outcome (List (Option A))
  write_slot vs i slot = if ltb i (length vs) then ok (set vs i slot) else fault

  unfoldable pub array_getguy : Array A → ℕ → Outcome (Option A)
  array_getguy a index = do
    assert (leb a.num a.max)
    assert (ltb index a.num)
    read_slot (slots a.v) index

  -- for (i = 0; i < a->num; i++) newv[i] = a->v[i], from i on with `left` slots to go.
  unfoldable pub copy_slots : ℕ → ℕ → List (Option A) → List (Option A) → Outcome (List (Option A))
  copy_slots zero i old newv = ok newv
  copy_slots (suc left) i old newv = do
    slot ← read_slot old i
    newv' ← write_slot newv i slot
    copy_slots left (i + 1) old newv'

  unfoldable pub array_preallocate : Bool → Array A → ℕ → Outcome (Array A)
  array_preallocate mem a nguys = do
    assert (leb a.num a.max)
    newmax ← max_loop 32 nguys a.max
    newv ← if mem then copy_slots a.num 0 (slots a.v) (new_slots newmax) else err enomem
    ok (record a { max = newmax; v = some newv })

  -- Whether v is not NULL.
  abbrev pub is_allocated : Option (List (Option A)) → Bool
  is_allocated none = false
  is_allocated (some vs) = true

  unfoldable pub array_setsize : Bool → Array A → ℕ → Outcome (Array A)
  array_setsize mem a nguys = do
    assert (leb a.num a.max)
    a' ←
        if ltb a.max nguys
        then array_preallocate mem a nguys
        else (if (nguys == 0) && ltb 16 a.max
            then assert (is_allocated a.v) >> ok (record a { v = none; max = 0 })
            else ok a)
    ok (record a' { num = nguys })

  unfoldable pub array_setguy : Array A → ℕ → A → Outcome (Array A)
  array_setguy a index ptr = do
    assert (leb a.num a.max)
    assert (ltb index a.num)
    v ← write_slot (slots a.v) index (some ptr)
    ok (record a { v = some v })

  unfoldable pub array_add : Bool → Array A → A → Outcome (Array A)
  array_add mem a guy = do
    a' ← array_setsize mem a (a.num + 1)
    v ← write_slot (slots a'.v) a.num (some guy)
    ok (record a' { v = some v })

  -- memmove of nmove slots down by one, to index.
  unfoldable pub move_down : ℕ → ℕ → List (Option A) → Outcome (List (Option A))
  move_down zero index vs = ok vs
  move_down (suc nmove) index vs = do
    slot ← read_slot vs (index + 1)
    vs' ← write_slot vs index slot
    move_down nmove (index + 1) vs'

  unfoldable pub array_remove : Array A → ℕ → Outcome (Array A)
  array_remove a index = do
    assert (leb a.num a.max)
    assert (ltb index a.num)
    v ← move_down (a.num - (index + 1)) index (slots a.v)
    ok (record a { num = a.num - 1; v = some v })
