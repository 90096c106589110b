-- ===== src/Addrspace/Tests.antt =====
-- Each theorem at an input.
use os.Base.{◌%◌, ◌≡◌, ◌≢◌, ◌⊎◌, ◌↔◌, refl, none, some, [], ◌∷◌}
use os.Base.Outcome.{ok}
use os.Pagetable.{page_frame}
use os.Pagetable.Words.{kaddr}
use os.Pagetable.Tables.{translate}
use os.Pagetable.Mapped.{up, low}
use os.Pagetable.Sample.{machine, roles, machine-IsPagetable}
use os.Addrspace.{Region, AddressSpace, as_valid_ptr}
use os.Addrspace.Regions.{InRegions, as_valid_ptr_iff}

abbrev text : Region
text = record { offset = 0; memsize = 8192; filesize = 5000; vaddr = 0x40_0000; permissions = 24 }

abbrev program : AddressSpace
program = record { as_pt = kaddr 1; as_regions = text ∷ [] }

as_valid_ptr_iff_example : (as_valid_ptr 0 (some program) 0x40_1234 machine ≡ ok none) ↔ (
    InRegions 0x40_1234 program.as_regions
    ⊎ (translate machine.words 1 (up (page_frame 0x40_1234)) (low (page_frame 0x40_1234)) % 2 ≢ 1))
as_valid_ptr_iff_example =
    as_valid_ptr_iff 0 1 0x40_1234 roles program machine machine-IsPagetable refl
