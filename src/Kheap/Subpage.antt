-- ===== src/Kheap/Subpage.antt =====
-- os161-1.11/kern/lib/kheap.c: taking blocks and giving them back.
use os.Base.{
  ℕ, zero, suc, ◌+◌, ◌-◌, ◌*◌, ◌/◌, ◌%◌, ◌^◌, not, ◌&&◌, ◌||◌, Option, none, some, List, [], ◌∷◌,
  ltb, leb, ◌==◌, if◌then◌else◌, get_elem?,
}
use os.Base.Outcome.{Outcome, ok, panic, out_of_fuel, ◌>>=◌, ◌>>◌, assert, deref}
use os.Coremap.{page_size}
use os.Pagetable.{alloc_kpages, free_kpages, page_frame, update, fill_words}
use os.Kheap.{
  Kheap, sizes, nsizes, largest_subpage_size, npagerefs, invalid_offset, change, pr_pageaddr,
  pr_blocktype, same_links, all_links, with_same, with_all, push, allocpageref, freepageref,
  remove_lists,
}

unfoldable pub size_loop : ℕ → List ℕ → ℕ → Outcome ℕ
size_loop sz [] i = panic
size_loop sz (size ∷ rest) i =
    let later = size_loop sz rest (suc i) in if leb sz size then ok i else later

unfoldable pub blocktype : ℕ → Outcome ℕ
blocktype sz = size_loop sz sizes 0

-- The first page of the list with a free block.
unfoldable pub find_loop : ℕ → ℕ → Option ℕ → Kheap → Outcome (Option ℕ)
find_loop fuel blktype none s = ok none
find_loop zero blktype (some pr) s = out_of_fuel
find_loop (suc fuel) blktype (some pr) s = do
  assert (pr_blocktype s pr == blktype)
  let rest : Outcome (Option ℕ) = find_loop fuel blktype (s.next_samesize pr) s
  if ltb 0 (s.nfree pr) then ok (some pr) else rest

-- The code behind the label doalloc: the block and what is left.
unfoldable pub doalloc : ℕ → Kheap → Outcome (ℕ × Kheap)
doalloc pr s = do
  assert (ltb (s.freelist_offset pr) page_size)
  let prpage : ℕ = pr_pageaddr s pr
  let fla : ℕ = prpage + s.freelist_offset pr
  let fl : ℕ = s.machine.words fla
  let nfree' : ℕ = s.nfree pr - 1
  let s' : Kheap = record s { nfree = change s.nfree pr nfree' }
  let some_left : Outcome (ℕ × Kheap) = do
    assert (ltb 0 nfree')
    assert (ltb ((fl + 2 ^ 32 - prpage) % 2 ^ 32) page_size)
    let offset : ℕ = (fl + 2 ^ 32 - prpage) % 2 ^ 32
    ok (fla, record s' { freelist_offset = change s.freelist_offset pr offset })
  let none_left : Outcome (ℕ × Kheap) = do
    assert (nfree' == 0)
    ok (fla, record s' { freelist_offset = change s.freelist_offset pr invalid_offset })
  if fl == 0 then none_left else some_left

-- for (i=1; i<pr->nfree; i++), with `left` rounds to go.
unfoldable pub init_loop : ℕ → ℕ → ℕ → ℕ → (ℕ → ℕ) → ℕ → ℕ
init_loop zero i fla size words = words
init_loop (suc left) i fla size words =
    init_loop left (suc i) fla size (update words (fla + i * size) (fla + (i - 1) * size))

-- A fresh page at prpage: its blocks are linked from the last to the first, and it heads both lists.
unfoldable pub init_page : ℕ → ℕ → ℕ → ℕ → Kheap → Kheap
init_page pr prpage blktype size s =
    let nfree' : ℕ = page_size / size in
    let words' : ℕ → ℕ = init_loop (nfree' - 1) 1 prpage size (update s.machine.words prpage 0) in
    with_all (push pr (all_links s)) (
      with_same blktype (push pr (same_links blktype s)) (record s {
        machine = record { coremap = s.machine.coremap; words = words' };
        pageaddr_and_blocktype =
            change s.pageaddr_and_blocktype pr (page_frame prpage + blktype % page_size);
        nfree = change s.nfree pr nfree';
        freelist_offset = change s.freelist_offset pr ((nfree' - 1) * size);
      }))

-- A page for blocks of the type, and its first block; 0 is NULL.
unfoldable pub fresh_block : ℕ → ℕ → Kheap → Outcome (ℕ × Kheap)
fresh_block blktype size s = do
  (ref, s) ← allocpageref s
  elim ref [
    | none ↦ ok (0, s)
    | some pr ↦ do
      (prpage, c) ← alloc_kpages 1 s.machine.coremap
      let s' : Kheap = record s { machine = record { coremap = c; words = s.machine.words } }
      let no_page : Outcome (ℕ × Kheap) = do s'' ← freepageref pr s'; ok (0, s'')
      if prpage == 0 then no_page else doalloc pr (init_page pr prpage blktype size s')
  ]

unfoldable pub subpage_kmalloc : ℕ → Kheap → Outcome (ℕ × Kheap)
subpage_kmalloc sz s = do
  blktype ← blocktype sz
  size ← deref (get_elem? sizes blktype)
  found ← find_loop npagerefs blktype (s.sizebases blktype) s
  elim found [ some pr ↦ doalloc pr s | none ↦ fresh_block blktype size s ]

-- The page that the address is in.
unfoldable pub page_loop : ℕ → ℕ → Option ℕ → Kheap → Outcome (Option ℕ)
page_loop fuel ptraddr none s = ok none
page_loop zero ptraddr (some pr) s = out_of_fuel
page_loop (suc fuel) ptraddr (some pr) s = do
  assert (ltb (pr_blocktype s pr) nsizes)
  let rest : Outcome (Option ℕ) = page_loop fuel ptraddr (s.next_all pr) s
  if leb (pr_pageaddr s pr) ptraddr && ltb ptraddr ((pr_pageaddr s pr + page_size) % 2 ^ 32)
      then ok (some pr)
      else rest

-- Behind the checks: the block goes to the head of the page's free list.
unfoldable pub free_block : ℕ → ℕ → ℕ → Kheap → Kheap
free_block pr ptraddr size s =
    let prpage : ℕ = pr_pageaddr s pr in
    let next : ℕ =
      if s.freelist_offset pr == invalid_offset then 0 else prpage + s.freelist_offset pr in
    record s {
      machine = record {
        coremap = s.machine.coremap;
        words = update (fill_words (size / 4) ptraddr 0xdeadbeef s.machine.words) ptraddr next;
      };
      freelist_offset = change s.freelist_offset pr (ptraddr - prpage);
      nfree = change s.nfree pr ((s.nfree pr + 1) % 2 ^ 16);
    }

-- if (pr->nfree == PAGE_SIZE / sizes[blktype])
unfoldable pub release_page : ℕ → ℕ → ℕ → Kheap → Outcome Kheap
release_page pr blktype size s = do
  assert (leb (s.nfree pr) (page_size / size))
  let whole : Outcome Kheap = do
    s' ← remove_lists pr blktype s
    c ← free_kpages (pr_pageaddr s pr) s'.machine.coremap
    freepageref pr (record s' { machine = record { coremap = c; words = s'.machine.words } })
  if s.nfree pr == page_size / size then whole else ok s

-- The result -1 is `none`.
unfoldable pub subpage_kfree : ℕ → Kheap → Outcome (Option Kheap)
subpage_kfree ptraddr s = do
  found ← page_loop npagerefs ptraddr s.allbase s
  elim found [
    | none ↦ ok none
    | some pr ↦ do
      size ← deref (get_elem? sizes (pr_blocktype s pr))
      let offset : ℕ = ptraddr - pr_pageaddr s pr
      if leb page_size offset || not (offset % size == 0) then panic else ok tt
      s' ← release_page pr (pr_blocktype s pr) size (free_block pr ptraddr size s)
      ok (some s')
  ]

unfoldable pub kmalloc : ℕ → Kheap → Outcome (ℕ × Kheap)
kmalloc sz s =
    let large : Outcome (ℕ × Kheap) = do
      (address, c) ← alloc_kpages ((sz + page_size - 1) % 2 ^ 32 / page_size) s.machine.coremap
      ok (address, record s { machine = record { coremap = c; words = s.machine.words } })
    in if leb largest_subpage_size sz then large else subpage_kmalloc sz s

unfoldable pub kfree : ℕ → Kheap → Outcome Kheap
kfree ptr s =
    let large : Outcome Kheap = do
      assert (ptr % page_size == 0)
      c ← free_kpages ptr s.machine.coremap
      ok (record s { machine = record { coremap = c; words = s.machine.words } })
    in let tried : Outcome Kheap = do
      freed ← subpage_kfree ptr s
      elim freed [ some s' ↦ ok s' | none ↦ large ]
      in if ptr == 0 then ok s else tried
