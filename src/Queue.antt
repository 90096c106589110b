-- ===== src/Queue.antt =====
-- os161-1.11/kern/lib/queue.c: the growing ring buffer of pointers behind the run queue, the locks
-- and the condition variables. `mem` says whether kmalloc finds memory.
pub mod Holds
pub mod Double
pub mod Grow
pub mod Refine
mod Tests
use os.Base.{
  ℕ, zero, suc, ◌+◌, ◌*◌, ◌/◌, ◌%◌, ◌^◌, Bool, not, ◌&&◌, Option, none, some, List, ltb, ◌==◌,
  if◌then◌else◌, length, get_elem?, set, replicate,
}
use os.Base.Outcome.{
  enomem, Outcome, ok, err, panic, fault, out_of_fuel, ◌>>=◌, ◌>>◌, assert, deref,
}

-- An int above this limit would be negative.
abbrev pub int_limit : ℕ
int_limit = 2 ^ 31

-- `items` is the allocation behind `data`; a slot that was never written is `none`.
pub record Queue {ℓ} (A : Type ℓ) : Type ℓ where
  pub size : ℕ
  pub nextwrite : ℕ
  pub nextread : ℕ
  pub items : List (Option A)

-- while (nsize < targetsize) { nsize *= 2; assert(nsize > 0); }
pub double_until : ℕ → ℕ → ℕ → Outcome ℕ
double_until zero target nsize = out_of_fuel
double_until (suc fuel) target nsize =
    let rest : Outcome ℕ = do
      assert (ltb 0 (nsize * 2) && ltb (nsize * 2) int_limit)
      double_until fuel target (nsize * 2)
    in if ltb nsize target then rest else ok nsize

-- The slots that kmalloc(n * sizeof(void *)) gives: the product is a 32-bit number.
pub kmalloc_slots {ℓ} : {A : Type ℓ} → ℕ → List (Option A)
kmalloc_slots n = replicate (n * 4 % 2 ^ 32 / 4) none

module _ {ℓ} {A : Type ℓ} where
  -- data[i] = ptr
  pub store : List (Option A) → ℕ → A → Outcome (List (Option A))
  store items i ptr = if ltb i (length items) then ok (set items i (some ptr)) else fault

  -- data[i]
  pub fetch : List (Option A) → ℕ → Outcome A
  fetch items i = do slot ← deref (get_elem? items i); deref slot

  -- assert(result == 0)
  pub asserted : Outcome (Queue A) → Outcome (Queue A)
  asserted (err e) = panic
  asserted r = r

  -- The loop of q_grow that moves the elements over; `add` is q_addtail.
  pub copy_loop :
      (Queue A → A → Outcome (Queue A))
      → ℕ
      → List (Option A)
      → ℕ
      → ℕ
      → ℕ
      → Queue A
      → Outcome (Queue A)
  copy_loop add zero olddata osize onw i q = out_of_fuel
  copy_loop add (suc fuel) olddata osize onw i q =
      let rest : Outcome (Queue A) = do
        ptr ← fetch olddata i
        q' ← asserted (add q ptr)
        copy_loop add fuel olddata osize onw ((i + 1) % osize) q'
      in if i == onw then ok q else rest

  pub q_grow : (Queue A → A → Outcome (Queue A)) → Bool → Queue A → ℕ → Outcome (Queue A)
  q_grow add mem q targetsize = do
    nsize ← double_until 32 targetsize q.size
    if mem
        then copy_loop add (suc q.size) q.items q.size q.nextwrite q.nextread
            (record { size = nsize; nextwrite = 0; nextread = 0; items = kmalloc_slots nsize })
        else err enomem

  pub q_create : Bool → Bool → ℕ → Option (Queue A)
  q_create mem_queue mem_data size =
      if mem_queue && mem_data
      then some (record { size = size; nextwrite = 0; nextread = 0; items = kmalloc_slots size })
      else none

  pub q_empty : Queue A → Bool
  q_empty q = q.nextwrite == q.nextread

  -- q->data[q->nextwrite] = ptr; q->nextwrite = nextnext;
  pub write_tail : Queue A → A → ℕ → Outcome (Queue A)
  write_tail q ptr nextnext = do
    items ← store q.items q.nextwrite ptr
    ok (record q { items = items; nextwrite = nextnext })

  -- q_addtail and q_grow call one another; `depth` bounds how deep.
  pub addtail_rec : ℕ → Bool → Queue A → A → Outcome (Queue A)
  addtail_rec zero mem q ptr = out_of_fuel
  addtail_rec (suc depth) mem q ptr =
      let grown : Outcome (Queue A) = do
        q' ← q_grow (addtail_rec depth mem) mem q (q.size + 1)
        write_tail q' ptr ((q'.nextwrite + 1) % q'.size)
      in do
        assert (ltb 0 q.size)
        if (q.nextwrite + 1) % q.size == q.nextread
            then grown
            else write_tail q ptr ((q.nextwrite + 1) % q.size)

  pub q_addtail : Bool → Queue A → A → Outcome (Queue A)
  q_addtail = addtail_rec 2

  pub q_preallocate : Bool → Queue A → ℕ → Outcome (Queue A)
  q_preallocate mem q size = do
    assert (ltb 0 q.size)
    if ltb q.size size then q_grow (q_addtail mem) mem q size else ok q

  pub q_remhead : Queue A → Outcome (A × Queue A)
  q_remhead q = do
    assert (ltb 0 q.size)
    assert (not (q_empty q))
    ptr ← fetch q.items q.nextread
    ok (ptr, record q { nextread = (q.nextread + 1) % q.size })

  unfoldable pub q_destroy : Queue A → Outcome (Unit {0})
  q_destroy q = assert (q_empty q)

  pub q_getstart : Queue A → ℕ
  q_getstart q = q.nextread

  pub q_getend : Queue A → ℕ
  q_getend q = q.nextwrite

  pub q_getsize : Queue A → ℕ
  q_getsize q = q.size

  pub q_getguy : Queue A → ℕ → Outcome A
  q_getguy q index = do assert (ltb index q.size); fetch q.items index
