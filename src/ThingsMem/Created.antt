-- ===== src/ThingsMem/Created.antt =====
-- What the example programs make on new memory.
use memthing.Fmem.{range, commit, Committers, create, fmem_create_new, fmem_unlock}
use memthing.Base.{
  [], arith, false, if◌then◌else◌, ltb, true, ◌==◌, length, refl, subst, ℕ, ◌+◌, ◌-◌, ◌<◌, ◌^◌, ◌∙◌,
  ◌∷◌, ◌≡◌,
}
use memthing.Heap.Create.{create-IsHeap}
use memthing.Heap.Invariant.{fmem_at}
use memthing.LinkedList.{list_add_after, list_head_init}
use memthing.Memory.{Memory, null, ptr_add}
use memthing.Page.{
  Build, checked, fpage_set_busy, fpage_set_free, fpage_set_magic, mem_from_fpage, plain,
}
use memthing.Things.{Store, with_memory}
use memthing.ThingsMem.Init.{IsOwner}

-- The object of a new allocator.
create-fixed :
    (build : Build) (m : Memory) (base length pointer : ℕ)
    → let f = (create build m base length 0 pointer).fmem (mem_from_fpage base) in
      (f.committer
        ≡ (if pointer == null then (m.fmem (mem_from_fpage base)).committer else pointer))
      × (f.min_alloc ≡ 24)
      × (f.total_size ≡ length)
unfolding create fmem_unlock list_head_init list_add_after fpage_set_busy fpage_set_free
    fpage_set_magic
create-fixed plain m base length pointer = (ground arith, ground arith, ground arith)
create-fixed checked m base length pointer = (ground arith, ground arith, ground arith)

-- A new allocator on `bytes` bytes, whose committer is `pointer`, or for NULL the one in memory.
module _ {W : Type 0} (committers : Committers W) (build : Build) (s : Store) (w v : W)
    (base bytes pointer target : ℕ) (large : 1440 < bytes) (small : bytes < 2 ^ 32)
    (high : base + bytes < 2 ^ 64) (word : s.memory.flags base < 2 ^ 32)
    (word' : s.memory.flags (base + 96) < 2 ^ 32)
    (called : (if pointer == null then (s.memory.fmem (fmem_at base)).committer else pointer)
      ≡ target) where
  abbrev made : Memory
  made = create build s.memory base bytes 0 pointer

  pub made-fixed :
      ((made.fmem (fmem_at base)).committer ≡ target)
      × ((made.fmem (fmem_at base)).min_alloc ≡ 24)
      × ((made.fmem (fmem_at base)).total_size ≡ bytes)
  unfolding mem_from_fpage
  made-fixed =
      let here : ptr_add base 24 ≡ base + 24 = omega (arith, high) in
      let fixed = create-fixed build s.memory base bytes pointer in
      let at = λ (p : ℕ).
        ((made.fmem p).committer
          ≡ (if pointer == null then (s.memory.fmem p).committer else pointer))
        × ((made.fmem p).min_alloc ≡ 24)
        × ((made.fmem p).total_size ≡ bytes) in
      let (e, d, d') = subst at here fixed in (e ∙ called, d, d')

  pub create-run :
      commit committers made w (fmem_at base) (range base 120 ∷ []) 1 ≡ (true, v)
      → fmem_create_new committers build s.memory w base bytes 0 pointer ≡ (fmem_at base, made, v)
  unfolding fmem_create_new mem_from_fpage
  create-run commits =
      let here : ptr_add base 24 ≡ base + 24 = omega (arith, high) in
      let e : ltb bytes 144 ≡ false = ground (arith, large) in
      let e' : ltb bytes 120 ≡ false = ground (arith, large) in rw (here, e, e', commits) refl

  -- Room for 27 things.
  pub made-IsOwner : IsOwner build base bytes target 27 (with_memory s made) []
  made-IsOwner = record {
    free_size = bytes - 96;
    others = [];
    heap =
        create-IsHeap s.memory base bytes 0 pointer build (omega (arith, large)) small high
          (omega arith) word word';
    room = omega (arith, large);
    least = made-fixed.1;
    committer = made-fixed.0;
    size = made-fixed.2;
    owned = tt;
  }
