-- ===== src/Pagetable/Sample.antt =====
-- Two page tables for the tests: an empty one in page 1 of a memory of eight pages, and one that maps a
-- page.
use os.Base.{
  zero, suc, ◌^◌, ℕ, ◌+◌, ◌*◌, ◌≤◌, ◌<◌, ◌≡◌, ◌≢◌, refl, true, false, if◌then◌else◌, ◌==◌, arith,
  inl, inr, length, Bool-cases, ==_iff, subst, sym, ◌%◌,
}
use os.Coremap.{coremap_bootstrap}
use os.Coremap.Boot.{coremap_bootstrap-IsCoremap}
use os.Coremap.Block.{used_at}
use os.Coremap.Invariant.{IsCoremap}
use os.Pagetable.{Machine}
use os.Pagetable.Words.{kaddr, IsPermissions}
use os.Pagetable.Tables.{IsPagetable, Table, IsSlot, IsEntry}

abbrev pub machine : Machine
machine = record { coremap = coremap_bootstrap 8192 32768; words = λ a. 1 }

abbrev pub roles : ℕ → ℕ
roles k = if k == 1 then 1 else 0

pub machine_valid : IsCoremap machine.coremap
machine_valid = (coremap_bootstrap-IsCoremap 8192 32768 (omega arith) (omega arith)).0

pub machine_small : length machine.coremap.pages ≤ 2 ^ 19
machine_small =
    omega (arith, (coremap_bootstrap-IsCoremap 8192 32768 (omega arith) (omega arith)).1)

pub page_zero : used_at machine.coremap.pages 0 ≡ true
unfolding coremap_bootstrap
page_zero = refl

page_one : used_at machine.coremap.pages 1 ≡ true
unfolding coremap_bootstrap
page_one = refl

roles_used : (k : ℕ) → roles k ≢ 0 → used_at machine.coremap.pages k ≡ true
roles_used zero ne = page_zero
roles_used (suc zero) ne = page_one
roles_used (suc (suc k)) ne = absurd (ne (ground arith))

pub machine-IsPagetable : IsPagetable roles 1 machine
machine-IsPagetable = record {
  valid = machine_valid;
  small = machine_small;
  kernel_page = page_zero;
  no_role = refl;
  used = roles_used;
  root_role = refl;
  entries = λ i hi. inl refl;
}

pub write_only : IsPermissions 4
write_only = record { below = omega arith; whole = refl }

-- Entry 1 points to a table in page 2, whose first word points to page 3, for writing.
abbrev pub one_page : Machine
one_page = record {
  coremap = coremap_bootstrap 16384 32768;
  words = λ a. if a == 0x8000_1004 then 0x8000_2002 else (if a == 0x8000_2000 then 0x3006 else 1);
}

abbrev pub one_page_roles : ℕ → ℕ
one_page_roles k = if k == 1 then 1 else (if k == 2 then 3 else (if k == 3 then 3072 else 0))

one_page_used : (k : ℕ) → k < 4 → used_at one_page.coremap.pages k ≡ true
unfolding coremap_bootstrap
one_page_used zero h = refl
one_page_used (suc zero) h = refl
one_page_used (suc (suc zero)) h = refl
one_page_used (suc (suc (suc zero))) h = refl
one_page_used (suc (suc (suc (suc k)))) h = absurd (omega arith)

other_entry : (i : ℕ) → i < 1024 → (i == 1) ≡ false → one_page.words (kaddr 1 + 4 * i) % 2 ≡ 1
other_entry i hi e = ground (arith, hi, e)

other_slot : (j : ℕ) → j < 1024 → (j == 0) ≡ false → one_page.words (kaddr 2 + 4 * j) % 2 ≡ 1
other_slot j hj e = ground (arith, hj, e)

one_page-Table : Table one_page_roles one_page.words 1 (kaddr 2 + 2) 2
one_page-Table = record {
  word_eq = refl;
  role_eq = refl;
  slots = λ j hj. elim (Bool-cases (j == 0)) [
    | inl e ↦
        subst (λ x. IsSlot one_page_roles 1 x (one_page.words (kaddr 2 + 4 * x)))
          (sym ((==_iff j 0).0 e))
          (inr (3, 4, record { word_eq = refl; legal = write_only; role_eq = refl }))
    | inr e ↦ inl (other_slot j hj e)
  ];
}

pub one_page-IsPagetable : IsPagetable one_page_roles 1 one_page
one_page-IsPagetable = record {
  valid = (coremap_bootstrap-IsCoremap 16384 32768 (omega arith) (omega arith)).0;
  small = omega (arith, (coremap_bootstrap-IsCoremap 16384 32768 (omega arith) (omega arith)).1);
  kernel_page = one_page_used 0 (omega arith);
  no_role = refl;
  used = λ k ne. one_page_used k (ground (arith, ne));
  root_role = refl;
  entries = λ i hi. elim (Bool-cases (i == 1)) [
    | inl e ↦
        subst (λ x. IsEntry one_page_roles one_page.words x (one_page.words (kaddr 1 + 4 * x)))
          (sym ((==_iff i 1).0 e)) (inr (2, one_page-Table))
    | inr e ↦ inl (other_entry i hi e)
  ];
}
