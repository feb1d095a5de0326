-- ===== src/Heap/CreateNew.antt =====
-- `fmem_create_new` makes a well-formed allocator.
use memthing.Base.{
  Bool, [], arith, false, if◌then◌else◌, inl, inr, ltb, refl, to_ptr, true, u64, ℕ, ◌+◌, ◌-◌, ◌<◌,
  ◌^◌, ◌∷◌, ◌≡◌, ◌≢◌, ◌≤◌, ◌⊎◌,
}
use memthing.Blocks.{block}
use memthing.Fmem.{Committers, create, e_commit_failed, fmem_create_new, range}
use memthing.Heap.Create.{create-IsHeap}
use memthing.Heap.Grant.{commit-ok}
use memthing.Heap.Invariant.{IsHeap, fmem_at}
use memthing.Memory.{Memory, null, ptr_add}
use memthing.Page.{Build, mem_from_fpage}

module _ {W : Type 0} (committers : Committers W) (build : Build) (m : Memory) (w : W)
    (base length min_alloc committer : ℕ) where
  -- At least 144 bytes, at least `min_alloc` + 120, fewer than 2^32 and below the end of the address
  -- space, whatever the memory held in 32-bit flags, become a well-formed allocator with one free
  -- block of all but the first 96 bytes. The object's address is returned, or, if the object has a
  -- committer, perhaps the error of the commit.
  pub fmem_create_new-IsHeap :
      144 ≤ length
      → min_alloc + 120 ≤ length
      → length < 2 ^ 32
      → base + length < 2 ^ 64
      → m.flags base < 2 ^ 32
      → m.flags (base + 96) < 2 ^ 32
      → let (r, m', w') = fmem_create_new committers build m w base length min_alloc committer in
        ((r ≡ fmem_at base)
          ⊎ (((m'.fmem (fmem_at base)).committer ≢ null) × (r ≡ to_ptr e_commit_failed)))
        × IsHeap build m' base (block (length - 96) false ∷ [])
  unfolding fmem_create_new mem_from_fpage
  fmem_create_new-IsHeap least room small high word word' =
      let e : ltb length 144 ≡ false = ground arith in
      let e' : ltb length (u64 (min_alloc + 48 + 72)) ≡ false = ground arith in
      let here : ptr_add base 24 ≡ base + 24 = omega arith in
      let m' = create build m base length min_alloc committer in
      let heap =
        create-IsHeap m base length min_alloc committer build least small high (omega arith) word
          word' in
      rw (e, e', here)
        (outcome (commit-ok committers m' w (fmem_at base) (range base 120 ∷ []) 1), heap)
    where
      outcome :
          {ok : Bool} {p : ℕ}
          → (ok ≡ true) ⊎ (p ≢ null)
          → ((if ok then fmem_at base else to_ptr e_commit_failed) ≡ fmem_at base)
            ⊎ ((p ≢ null)
                × ((if ok then fmem_at base else to_ptr e_commit_failed) ≡ to_ptr e_commit_failed))
      outcome {ok = true} c = inl refl
      outcome {ok = false} (inl f) = absurd (cc)
      outcome {ok = false} (inr f) = inr (f, refl)
