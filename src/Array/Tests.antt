-- ===== src/Array/Tests.antt =====
-- Runs of the array, and each theorem at an input.
use os.Base.{ℕ, ◌≡◌, refl, true, none, some, [], ◌∷◌, arith}
use os.Base.Outcome.{ok, panic}
use os.Array.{
  Array, max_loop, new_slots, read_slot, write_slot, copy_slots, array_getguy, array_preallocate,
  array_setsize, array_add,
}
use os.Array.Refine.{Holds}
use os.Array.Add.{array_add-append}

-- Two slots, both used.
abbrev pair : Array ℕ
pair = record { num = 2; max = 2; v = some (some 7 ∷ some 8 ∷ []) }

pair-Holds : Holds pair (some 7 ∷ some 8 ∷ [])
pair-Holds = record {
  num_eq = refl;
  num_le = omega arith;
  max_lt = omega arith;
  room = refl;
  same = λ k h. refl;
}

grows :
    array_add true pair 9
    ≡ ok
        (record { num = 3; max = 6; v = some (some 7 ∷ some 8 ∷ some 9 ∷ none ∷ none ∷ none ∷ []) })
unfolding array_add array_setsize array_preallocate max_loop new_slots copy_slots read_slot
    write_slot
grows = refl

array_add-append_example :
    (a' : Array ℕ) × (array_add true pair 9 ≡ ok a') × Holds a' (some 7 ∷ some 8 ∷ some 9 ∷ [])
array_add-append_example = array_add-append pair (some 7 ∷ some 8 ∷ []) 9 pair-Holds (omega arith)

reads : (array_getguy pair 1 ≡ ok (some 8)) × (array_getguy pair 2 ≡ panic)
unfolding array_getguy read_slot
reads = (refl, refl)
