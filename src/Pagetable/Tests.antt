-- ===== src/Pagetable/Tests.antt =====
-- Each theorem at an input.
use os.Base.{ℕ, ◌≡◌, ◌⊎◌, ◌↔◌, refl, true, false, arith}
use os.Base.Outcome.{ok}
use os.Pagetable.{pt_get_paddr, pt_set_permissions, vaddr_overlap}
use os.Pagetable.Words.{kaddr}
use os.Pagetable.Tables.{translate}
use os.Pagetable.Mapped.{up, low, pt_get_paddr-translate}
use os.Pagetable.Assign.{Mapped, pt_get_paddr-Mapped}
use os.Pagetable.Permissions.{Granted, pt_set_permissions-Granted}
use os.Pagetable.Isolation.{pt_get_paddr-same_page}
use os.Coremap.{page_size}
use os.Base.{◌/◌, ◌*◌, ◌+◌}
use os.Pagetable.{get_pagetable, get_page, get_value, get_page_state_by_value, get_offset}
use os.Pagetable.Overlap.{Meets, Inside, vaddr_overlap_iff}
use os.Pagetable.Sample.{
  machine, roles, machine-IsPagetable, write_only, one_page, one_page_roles, one_page-IsPagetable,
}

pt_get_paddr-translate_example :
    pt_get_paddr 0 (kaddr 1) 0x40_1000 false 0 machine
    ≡ ok (translate machine.words 1 (up 0x40_1000) (low 0x40_1000), machine)
pt_get_paddr-translate_example =
    pt_get_paddr-translate 0 1 0x40_1000 roles machine machine-IsPagetable 0

pt_get_paddr-Mapped_example :
    Mapped 1
      (up 0x40_1000)
      (low 0x40_1000)
      4
      machine
      (pt_get_paddr 0 (kaddr 1) 0x40_1000 true 4 machine)
pt_get_paddr-Mapped_example =
    pt_get_paddr-Mapped 0 1 0x40_1000 roles machine machine-IsPagetable 4 write_only

pt_set_permissions-Granted_example :
    Granted 1
      (up 0x40_1000)
      (low 0x40_1000)
      4
      machine
      (pt_set_permissions 0 (kaddr 1) 0x40_1000 true 4 machine)
pt_set_permissions-Granted_example =
    pt_set_permissions-Granted 0 1 0x40_1000 roles machine machine-IsPagetable 4 write_only

paddr_there :
    (v : ℕ)
    → up v ≡ 1
    → low v ≡ 0
    → pt_get_paddr 0 (kaddr 1) v true 4 one_page ≡ ok (3 * 4096 + 4, one_page)
unfolding pt_get_paddr get_pagetable get_page get_value get_page_state_by_value get_offset
paddr_there v e f = rw (e, f) refl

pt_get_paddr-same_page_example :
    ((3 * 4096 + 4) / page_size ≡ (3 * 4096 + 4) / page_size)
    ↔ (0x40_0010 / page_size ≡ 0x40_0ff0 / page_size)
pt_get_paddr-same_page_example =
    pt_get_paddr-same_page 0 1 0x40_0010 0x40_0ff0 4 (3 * 4096 + 4) (3 * 4096 + 4) one_page_roles
      one_page one_page one_page one_page-IsPagetable write_only (omega arith) (omega arith)
      (paddr_there 0x40_0010 refl refl) (paddr_there 0x40_0ff0 refl refl)

vaddr_overlap_iff_example :
    (vaddr_overlap 4096 8192 0 12288 ≡ true)
    ↔ ((Meets 4096 8192 0 12288 × ¬ Inside 4096 8192 0 12288) ⊎ (◌≡◌ {A = ℕ} 12288 4096))
vaddr_overlap_iff_example = vaddr_overlap_iff 4096 8192 0 12288 (omega arith) (omega arith)
