-- ===== src/Disk/Create.antt =====
-- What `fmem_create_new` has put on the store.
use memthing.Base.{
  Bool, List, [], ap, arith, false, if◌then◌else◌, length, ltb, refl, subst, sym, to_ptr, true, u64,
  ℕ, ◌+◌, ◌-◌, ◌<◌, ◌^◌, ◌∙◌, ◌∷◌, ◌≡◌, ◌≢◌, ◌≤◌,
}
use memthing.Blocks.{block}
use memthing.Disk.{IsSaving, Saved, covers, write}
use memthing.Disk.Row.{Saved-IsHeap}
use memthing.Disk.Write.{commit-write, write-SavedAt}
use memthing.Fmem.{
  CommitRange, Committers, commit, create, e_commit_failed, fmem_create_new, fmem_unlock, range,
}
use memthing.Heap.Create.{create-IsHeap}
use memthing.Heap.Invariant.{IsHeap, fmem_at}
use memthing.LinkedList.{list_add_after, list_head_init}
use memthing.Memory.{Memory, null, ptr_add}
use memthing.Page.{
  Build, checked, fpage_set_busy, fpage_set_free, fpage_set_magic, mem_from_fpage, plain,
}

module _ (base : ℕ) where
  abbrev header : List CommitRange
  header = range base 120 ∷ []

  header-covers : (k n : ℕ) → k + n ≤ 120 → covers header (base + k) n ≡ true
  header-covers k n h = ground arith

  header-fmem : (m store : Memory) → (write header m store).fmem (base + 24) ≡ m.fmem (base + 24)
  unfolding write
  header-fmem m store = ground arith

  header-Saved :
      (m store : Memory) (n : ℕ) → Saved m (write header m store) base (block n false ∷ [])
  header-Saved m store n = (
    write-SavedAt header m store base (ground arith) (ground arith) (ground arith) (ground arith),
    (
      write-SavedAt header m store (base + 96) (ground arith) (ground arith) (ground arith)
          (ground arith),
      tt,
    ),
  )

create-committer :
    (build : Build) (m : Memory) (base length min_alloc committer : ℕ)
    → committer ≢ null
    → ((create build m base length min_alloc committer).fmem (mem_from_fpage base)).committer
      ≡ committer
unfolding create fmem_unlock list_head_init list_add_after fpage_set_busy fpage_set_free
    fpage_set_magic
create-committer plain m base length min_alloc committer set = ground (arith, set)
create-committer checked m base length min_alloc committer set = ground (arith, set)

-- Where `fmem_create_new` succeeds with a committer that saves what it is asked to, under the
-- conditions under which it makes a well-formed allocator, the store has the headers of the memory,
-- and holds that allocator: read back, it is well formed with its one free block.
pub fmem_create_new-Saved :
    {W : Type 0} (committers : Committers W) (disk : W → Memory) (build : Build) (m : Memory)
    (w : W) (base length min_alloc committer : ℕ)
    → IsSaving committers disk
    → 144 ≤ length
    → min_alloc + 120 ≤ length
    → length < 2 ^ 32
    → base + length < 2 ^ 64
    → m.flags base < 2 ^ 32
    → m.flags (base + 96) < 2 ^ 32
    → committer ≢ null
    → (fmem_create_new committers build m w base length min_alloc committer).0 ≡ fmem_at base
    → let (_, m', w') = fmem_create_new committers build m w base length min_alloc committer in
      Saved m' (disk w') base (block (length - 96) false ∷ [])
      × IsHeap build (disk w') base (block (length - 96) false ∷ [])
unfolding fmem_create_new mem_from_fpage
fmem_create_new-Saved committers disk build m w base length min_alloc committer saving least room
      small high word word' set ok =
    let e : ltb length 144 ≡ false = ground arith in
    let e' : ltb length (u64 (min_alloc + 48 + 72)) ≡ false = ground arith in
    let here : ptr_add base 24 ≡ base + 24 = omega arith in
    let m' = create build m base length min_alloc committer in
    let heap =
      create-IsHeap m base length min_alloc committer build least small high (omega arith) word
        word' in
    let run = commit committers m' w (fmem_at base) (range base 120 ∷ []) 1 in
    let pointer = create-committer build m base length min_alloc committer set in
    let set' : (m'.fmem (base + 24)).committer ≢ null =
      λ z. set (sym pointer ∙ ap (λ p. (m'.fmem p).committer) here ∙ z) in
    let went : run.0 ≡ true = succeeded run.0 (rw (e, e', here) at ok) in
    let saved = commit-write committers m' w (base + 24) (header base) 1 disk saving set' went in
    let b = block (length - 96) false in
    rw (e, e', here)
      (subst (λ d. Saved m' d base (b ∷ []) × IsHeap build d base (b ∷ [])) (sym saved)
        (
          header-Saved base m' (disk w) (length - 96),
          Saved-IsHeap build m' (write (header base) m' (disk w)) base (b ∷ [])
              (header-Saved base m' (disk w) (length - 96)) (header-fmem base m' (disk w)) heap,
        ))
  where
    succeeded :
        (f : Bool) → (if f then base + 24 else to_ptr e_commit_failed) ≡ base + 24 → f ≡ true
    succeeded true h = refl
    succeeded false h = absurd (omega arith)
