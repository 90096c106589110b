-- ===== src/Pagetable/Tables.antt =====
-- When a page table is well formed, and what it maps.
use os.Base.{
  ℕ, ◌+◌, ◌*◌, ◌/◌, ◌%◌, ◌^◌, ◌≤◌, ◌<◌, ◌≡◌, ◌≢◌, ◌⊎◌, true, false, List, Option-cases, get_elem?,
  lt_of_get_elem?, arith, ◌==◌, Bool-cases, inl, inr, if◌then◌else◌, length,
}
use os.Coremap.{CoremapPage}
use os.Coremap.Invariant.{IsCoremap}
use os.Coremap.Block.{used_at}
use os.Pagetable.{Machine, page_frame, idx_count}
use os.Pagetable.Words.{kaddr, IsPermissions, page_word}

-- What a page of memory is used for: 0 for nothing in this page table, 1 for its first level, and
-- the numbers below for the table that entry i points to, and the page that entry j of it points to.
abbrev pub table_role : ℕ → ℕ
table_role i = 2 + i

abbrev pub page_role : ℕ → ℕ → ℕ
page_role i j = 2048 + i * idx_count + j

-- A word for a page is free, or has the address of the page.
pub record Slot (role : ℕ → ℕ) (i j word page permissions : ℕ) : Type 0 where
  pub word_eq : word ≡ page_word page permissions
  pub legal : IsPermissions permissions
  pub role_eq : role page ≡ page_role i j

abbrev pub IsSlot : (ℕ → ℕ) → ℕ → ℕ → ℕ → Type 0
IsSlot role i j word =
    (word % 2 ≡ 1) ⊎ ((page : ℕ) × (permissions : ℕ) × Slot role i j word page permissions)

-- Table i stands at a page of memory.
pub record Table (role : ℕ → ℕ) (words : ℕ → ℕ) (i word page : ℕ) : Type 0 where
  pub word_eq : word ≡ kaddr page + 2
  pub role_eq : role page ≡ table_role i
  pub slots : (j : ℕ) → j < idx_count → IsSlot role i j (words (kaddr page + 4 * j))

abbrev pub IsEntry : (ℕ → ℕ) → (ℕ → ℕ) → ℕ → ℕ → Type 0
IsEntry role words i word = (word % 2 ≡ 1) ⊎ ((page : ℕ) × Table role words i word page)

-- The first level stands at page `root`. Every page with a role is in use, page 0 has none, and
-- memory is at most 2 GB, what the kernel's addresses reach.
pub record IsPagetable (role : ℕ → ℕ) (root : ℕ) (m : Machine) : Type 0 where
  pub valid : IsCoremap m.coremap
  pub small : length m.coremap.pages ≤ 2 ^ 19
  pub kernel_page : used_at m.coremap.pages 0 ≡ true
  pub no_role : role 0 ≡ 0
  pub used : (k : ℕ) → role k ≢ 0 → used_at m.coremap.pages k ≡ true
  pub root_role : role root ≡ 1
  pub entries : (i : ℕ) → i < idx_count → IsEntry role m.words i (m.words (kaddr root + 4 * i))

-- The physical address and the permissions of page j of table i, or 1 where there is none.
abbrev pub slot_paddr : ℕ → ℕ
slot_paddr word = if word % 2 == 1 then 1 else word / 4 * 4

abbrev pub translate : (ℕ → ℕ) → ℕ → ℕ → ℕ → ℕ
translate words root i j =
    let entry = words (kaddr root + 4 * i) in
    if entry % 2 == 1 then 1 else slot_paddr (words (page_frame entry + 4 * j))

-- The permissions that page j of table i gets when it is made: those asked for if the table is made
-- with it, and else those that its word holds.
abbrev pub first_permissions : (ℕ → ℕ) → ℕ → ℕ → ℕ → ℕ → ℕ
first_permissions words root i j permissions =
    let entry = words (kaddr root + 4 * i) in
    if entry % 2 == 1 then permissions else words (page_frame entry + 4 * j) / 4 % 8 * 4

-- A page in use is inside memory.
pub used_at-lt : (pages : List CoremapPage) (k : ℕ) → used_at pages k ≡ true → k < length pages
used_at-lt pages k h = elim (Option-cases (get_elem? pages k)) [
  | inl e ↦ ground (arith, e, h)
  | inr (p, e) ↦ lt_of_get_elem? pages k e
]

-- A new page is not page 0 and has no role yet.
pub fresh-role :
    (role : ℕ → ℕ) (root : ℕ) (m : Machine) (k : ℕ)
    → IsPagetable role root m
    → used_at m.coremap.pages k ≡ false
    → role k ≡ 0
fresh-role role root m k h u = elim (Bool-cases (role k == 0)) [
  | inl e ↦ ground (arith, e)
  | inr e ↦ ground (arith, h.used k (ground (arith, e)), u)
]
