-- ===== src/Pagetable/Mapped.antt =====
-- What pt_get_paddr and pt_set_permissions do on a well-formed page table.
use os.Base.{ℕ, ◌+◌, ◌*◌, ◌/◌, ◌%◌, ◌≡◌, refl, false, arith, ◌==◌, inl, inr}
use os.Base.Outcome.{ok, ◌>>=◌}
use os.Pagetable.{Machine, page_frame}
use os.Pagetable.Words.{kaddr}
use os.Pagetable.Tables.{IsPagetable}
use os.Pagetable.Tables.{IsSlot, slot_paddr, translate}
use os.Pagetable.Frame.{translate-free, translate-table}
use os.Pagetable.Words.{state-free, state-mem, get_value-ok, get_offset-lt}
use os.Pagetable.{get_offset, get_pagetable, get_page, pt_get_paddr, addr_up_shift, addr_low_shift}

-- Bits 22 to 31 of an address, and bits 12 to 21.
abbrev pub up : ℕ → ℕ
up vaddr = vaddr / 0x40_0000 % 1024

abbrev pub low : ℕ → ℕ
low vaddr = vaddr / 0x1000 % 1024

module _ (space root vaddr : ℕ) (role : ℕ → ℕ) (m : Machine) (h : IsPagetable role root m) where
  at_slot :
      (k : ℕ)
      → m.words (kaddr root + 4 * up vaddr) ≡ kaddr k + 2
      → IsSlot role (up vaddr) (low vaddr) (m.words (kaddr k + 4 * low vaddr))
      → (permissions : ℕ)
      → pt_get_paddr space (kaddr root) vaddr false permissions m
        ≡ ok (translate m.words root (up vaddr) (low vaddr), m)
  unfolding pt_get_paddr get_pagetable get_page get_offset
  at_slot k e s permissions =
      let flag : m.words (kaddr root + 4 * up vaddr) % 4 ≡ 2 = omega (arith, e) in
      let frame : page_frame (m.words (kaddr root + 4 * up vaddr)) ≡ kaddr k = omega (arith, e) in
      let some_table : (kaddr k == 0) ≡ false = ground arith in
      let same = translate-table m.words root (up vaddr) (low vaddr) k e in
      elim s [
        | inl f ↦
            let none_there : slot_paddr (m.words (kaddr k + 4 * low vaddr)) ≡ 1 =
              ground (arith, f) in
            rw
              (
                same,
                none_there,
                get_value-ok root (up vaddr) m,
                ◌>>=◌,
                state-mem _ flag,
                frame,
                some_table,
                get_value-ok k (low vaddr) m,
                ◌>>=◌,
                state-free _ f,
              )
              refl
        | inr (page, p, t) ↦
            let mem : m.words (kaddr k + 4 * low vaddr) % 4 ≡ 2 =
              omega (arith, t.word_eq, t.legal.whole) in
            let there : slot_paddr (m.words (kaddr k + 4 * low vaddr))
                ≡ m.words (kaddr k + 4 * low vaddr) / 4 * 4 =
              ground (arith, mem) in
            rw
              (
                same,
                there,
                get_value-ok root (up vaddr) m,
                ◌>>=◌,
                state-mem _ flag,
                frame,
                some_table,
                get_value-ok k (low vaddr) m,
                ◌>>=◌,
                state-mem _ mem,
              )
              refl
      ]

  -- Without leave to create, pt_get_paddr returns what the page table maps the address to, with the
  -- permissions, or 1 where there is no page, and changes nothing.
  pub pt_get_paddr-translate :
      (permissions : ℕ)
      → pt_get_paddr space (kaddr root) vaddr false permissions m
        ≡ ok (translate m.words root (up vaddr) (low vaddr), m)
  unfolding pt_get_paddr get_pagetable get_page get_offset
  pt_get_paddr-translate permissions =
      elim (h.entries (up vaddr) (get_offset-lt vaddr addr_up_shift)) [
        | inl f ↦
            let same = translate-free m.words root (up vaddr) (low vaddr) f in
            rw (same, get_value-ok root (up vaddr) m, ◌>>=◌, state-free _ f) refl
        | inr (k, t) ↦
            at_slot k t.word_eq (t.slots (low vaddr) (get_offset-lt vaddr addr_low_shift))
              permissions
      ]
