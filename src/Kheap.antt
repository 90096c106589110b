-- ===== src/Kheap.antt =====
-- os161-1.11/kern/lib/kheap.c: the subpage allocator. A pageref is its index in the table, and each
-- field of the table is a function on the indices; `none` is NULL. A bit of pagerefs_inuse is known by
-- its number. SLOW and SLOWER are not defined, so the consistency checks are compiled out.
pub mod Subpage
pub mod Kpage
pub mod Only
pub mod Blocks
pub mod Page
pub mod Fresh
pub mod Chain
pub mod Refs
pub mod Walk
pub mod Invariant
pub mod Take
pub mod Grown
pub mod Grow
pub mod Alloc
pub mod Give
pub mod Drop
pub mod Free
mod Tests
use os.Base.{
  ℕ, zero, suc, ◌+◌, ◌-◌, ◌*◌, ◌/◌, ◌%◌, ◌^◌, Bool, true, false, not, ◌&&◌, ◌||◌, Option, none,
  some, List, [], ◌∷◌, ltb, leb, ◌==◌, if◌then◌else◌, get_elem?,
}
use os.Base.Outcome.{Outcome, ok, panic, out_of_fuel, ◌>>=◌, ◌>>◌, assert, deref}
use os.Coremap.{page_size}
use os.Pagetable.{Machine, alloc_kpages, free_kpages, page_frame, update, fill_words}

abbrev pub sizes : List ℕ
sizes = 16 ∷ 32 ∷ 64 ∷ 128 ∷ 256 ∷ 512 ∷ 1024 ∷ 2048 ∷ []

abbrev pub nsizes : ℕ
nsizes = 8

abbrev pub largest_subpage_size : ℕ
largest_subpage_size = 2048

-- PAGE_SIZE / sizeof(struct pageref)
abbrev pub npagerefs : ℕ
npagerefs = 256

abbrev pub inuse_words : ℕ
inuse_words = 8

abbrev pub invalid_offset : ℕ
invalid_offset = 0xffff

-- A list of pagerefs through one of the two link fields.
pub record Links : Type 0 where
  pub head : Option ℕ
  pub next : ℕ → Option ℕ

pub record Kheap : Type 0 where
  pub machine : Machine
  pub pagerefs_inuse : ℕ → Bool
  pub sizebases : ℕ → Option ℕ
  pub allbase : Option ℕ
  pub next_samesize : ℕ → Option ℕ
  pub next_all : ℕ → Option ℕ
  pub pageaddr_and_blocktype : ℕ → ℕ
  pub freelist_offset : ℕ → ℕ
  pub nfree : ℕ → ℕ

-- f[p] = v
abbrev pub change {ℓ} : {A : Type ℓ} → (ℕ → A) → ℕ → A → ℕ → A
change f p v q = if p == q then v else f q

abbrev pub pr_pageaddr : Kheap → ℕ → ℕ
pr_pageaddr s pr = page_frame (s.pageaddr_and_blocktype pr)

abbrev pub pr_blocktype : Kheap → ℕ → ℕ
pr_blocktype s pr = s.pageaddr_and_blocktype pr % page_size

abbrev pub same_links : ℕ → Kheap → Links
same_links blktype s = record { head = s.sizebases blktype; next = s.next_samesize }

abbrev pub all_links : Kheap → Links
all_links s = record { head = s.allbase; next = s.next_all }

abbrev pub with_same : ℕ → Links → Kheap → Kheap
with_same blktype l s = record s {
  sizebases = change s.sizebases blktype l.head;
  next_samesize = l.next;
}

abbrev pub with_all : Links → Kheap → Kheap
with_all l s = record s { allbase = l.head; next_all = l.next }

-- pr->next = base; base = pr
unfoldable pub push : ℕ → Links → Links
push pr l = record { head = some pr; next = change l.next pr l.head }

-- The 32 bits of a word, from bit p on, are set.
unfoldable pub is_full : ℕ → (ℕ → Bool) → ℕ → Bool
is_full zero inuse p = true
is_full (suc left) inuse p = inuse p && is_full left inuse (suc p)

-- for (k=1,j=0; k!=0; k<<=1,j++)
unfoldable pub bit_loop : ℕ → ℕ → Kheap → Outcome (Option ℕ × Kheap)
bit_loop zero p s = panic
bit_loop (suc left) p s =
    let rest = bit_loop left (suc p) s in
    if s.pagerefs_inuse p
    then rest
    else ok (some p, record s { pagerefs_inuse = change s.pagerefs_inuse p true })

-- for (i=0; i<INUSE_WORDS; i++)
unfoldable pub word_loop : ℕ → ℕ → Kheap → Outcome (Option ℕ × Kheap)
word_loop zero i s = ok (none, s)
word_loop (suc left) i s =
    let rest = word_loop left (suc i) s in
    if is_full 32 s.pagerefs_inuse (i * 32) then rest else bit_loop 32 (i * 32) s

unfoldable pub allocpageref : Kheap → Outcome (Option ℕ × Kheap)
allocpageref s = word_loop inuse_words 0 s

unfoldable pub freepageref : ℕ → Kheap → Outcome Kheap
freepageref pr s = do
  assert (ltb pr npagerefs)
  assert (s.pagerefs_inuse pr)
  ok (record s { pagerefs_inuse = change s.pagerefs_inuse pr false })

-- One of the loops of remove_lists behind the node `before`, which leads to `guy`.
unfoldable pub unlink_loop : ℕ → ℕ → ℕ → Links → Outcome Links
unlink_loop zero pr before l = out_of_fuel
unlink_loop (suc fuel) pr before l = elim (l.next before) [
  | none ↦ ok l
  | some guy ↦
      let rest : Outcome Links = unlink_loop fuel pr guy l in
      if guy == pr then ok (record l { next = change l.next before (l.next pr) }) else rest
]

-- A list has at most as many nodes as there are pagerefs.
unfoldable pub unlink : ℕ → Links → Outcome Links
unlink pr l = elim l.head [
  | none ↦ ok l
  | some guy ↦
      if guy == pr then ok (record l { head = l.next pr }) else unlink_loop npagerefs pr guy l
]

unfoldable pub remove_lists : ℕ → ℕ → Kheap → Outcome Kheap
remove_lists pr blktype s = do
  assert (ltb blktype nsizes)
  same ← unlink pr (same_links blktype s)
  all ← unlink pr (all_links s)
  ok (with_all all (with_same blktype same s))
