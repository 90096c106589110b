-- ===== src/Vm/Tests.antt =====
-- Each theorem at an input.
use os.Base.{◌+◌, ◌-◌, ◌*◌, ◌%◌, ◌≤◌, ◌<◌, ◌≡◌, ◌↔◌, refl, true, arith, some, [], replicate}
use os.Base.Outcome.{ok, Outcome}
use os.Pagetable.Words.{kaddr}
use os.Pagetable.Sample.{machine, one_page, one_page_roles, one_page-IsPagetable, write_only}
use os.Addrspace.{Region, AddressSpace}
use os.Pagetable.Tables.{translate}
use os.Pagetable.Mapped.{up, low}
use os.Vm.{is_fault_type}
use os.Pagetable.{get_offset}
use os.Vm.{State, Plan, load_plan, vm_fault, vm_fault_write, num_tlb}
use os.Vm.Load.{IsUserPage, Within, load_plan-exact, load_plan-offset}
use os.Vm.Resolve.{answer, vm_fault-resident}

abbrev data_region : Region
data_region = record {
  offset = 100;
  memsize = 8192;
  filesize = 5000;
  vaddr = 0x1000_0064;
  permissions = 12;
}

second_page : IsUserPage 0x1000_1000 data_region
second_page = record {
  page_start = refl;
  page_end = omega arith;
  region_end = omega arith;
  file_part = omega arith;
  meets_above = omega arith;
  meets_below = omega arith;
}

load_plan-exact_example :
    let q = load_plan 0x1000_1000 data_region in
    (Within q.vaddr q.memsize 0x1000_1388
      ↔ (Within 0x1000_1000 4096 0x1000_1388 × Within 0x1000_0064 8192 0x1000_1388))
    × (Within q.vaddr q.filesize 0x1000_1388
        ↔ (Within 0x1000_1000 4096 0x1000_1388 × Within 0x1000_0064 5000 0x1000_1388))
load_plan-exact_example = load_plan-exact 0x1000_1000 data_region second_page 0x1000_1388

load_plan-offset_example :
    let q = load_plan 0x1000_1000 data_region in
    (0x1000_1000 ≤ 0x1000_0064 → q.offset ≡ 100)
    × (0x1000_0064 < 0x1000_1000 → q.offset ≡ 100 + (q.vaddr - 0x1000_0064) + 0x1000_0064 % 4096)
load_plan-offset_example = load_plan-offset 0x1000_1000 data_region second_page (omega arith)

abbrev program : AddressSpace
program = record { as_pt = kaddr 1; as_regions = [] }

abbrev mapped_state : State
mapped_state = record { machine = one_page; tlb = replicate num_tlb (0, 0); next = 63; spl = 0 }

abbrev empty_state : State
empty_state = record { machine = machine; tlb = replicate num_tlb (0, 0); next = 63; spl = 0 }

abbrev no_load : Plan → State → Outcome State
no_load plan s = ok s

write_type : is_fault_type vm_fault_write ≡ true
unfolding is_fault_type
write_type = refl

one_page_mapped : translate one_page.words 1 (up 0x40_0010) (low 0x40_0010) ≡ 3 * 4096 + 4
unfolding get_offset
one_page_mapped = refl

vm_fault-resident_example :
    vm_fault no_load 0 (some program) vm_fault_write 0x40_0010 mapped_state
    ≡ ok (answer vm_fault_write 0x40_0010 3 4 mapped_state)
vm_fault-resident_example =
    vm_fault-resident no_load 0 1 0x40_0010 one_page_roles program mapped_state vm_fault_write
      one_page-IsPagetable refl write_type 3 4 write_only one_page_mapped
