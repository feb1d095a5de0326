-- ===== src/Heap/Existing.antt =====
-- `fmem_from_existing` on memory that holds an allocator, as after a restart of the program.
use memthing.Base.{List, ap, arith, if◌then◌else◌, refl, subst, sym, true, ℕ, ◌+◌, ◌==◌, ◌∙◌, ◌≡◌}
use memthing.Blocks.{Block, block}
use memthing.Fmem.{fmem_from_existing}
use memthing.Heap.Invariant.{IsAccount, IsHeap, IsRow-set_fmem, fmem_at, head_size}
use memthing.Heap.Layout.{check_passes}
use memthing.Heap.Lock.{IsHeld, fmem-set_fmem, unlock-IsHeap}
use memthing.Memory.{Fmem, Memory, null, set_fmem}
use memthing.Page.{Build, mem_from_fpage}

IsAccount-committer :
    (base : ℕ) (f : Fmem) (bs : List Block) (c : ℕ)
    → IsAccount base f bs
    → IsAccount base (record f { committer = c }) bs
IsAccount-committer base f bs c h = record {
  span = h.span;
  small = h.small;
  fits = h.fits;
  least = h.least;
  most = h.most;
  available = h.available;
  objects = h.objects;
}

module _ (build : Build) (m : Memory) (base : ℕ) (bs : List Block) (pointer : ℕ) where
  -- Memory that holds the pages and the accounting object of an allocator, its lock free or still
  -- held by a caller that is gone, is opened: the object's address is returned, the committer is
  -- the given one or, for NULL, the one that was, and the allocator is well formed and unlocked
  -- with the same blocks.
  pub fmem_from_existing-IsHeap :
      IsHeld build m base bs
      → let (r, m') = fmem_from_existing build m base pointer in
        (r ≡ fmem_at base)
        × ((m'.fmem (fmem_at base)).committer
            ≡ (if pointer == null then (m.fmem (fmem_at base)).committer else pointer))
        × IsHeap build m' base bs
  unfolding fmem_from_existing
  fmem_from_existing-IsHeap h =
      let fm = fmem_at base in
      let here : mem_from_fpage base ≡ base + 24 = omega (arith, h.account.span, h.account.fits) in
      let c = if pointer == null then (m.fmem fm).committer else pointer in
      let f = record (m.fmem fm) { committer = c } in
      let m1 = set_fmem m fm f in
      let held : IsHeld build m1 base bs = record {
        row = IsRow-set_fmem build m base bs fm f h.row;
        account =
            subst (λ g. IsAccount base g bs) (sym (fmem-set_fmem m fm f))
              (IsAccount-committer base (m.fmem fm) bs c h.account);
      } in
      rw (check_passes build m base (block head_size true) h.row.head, here)
        (
          refl,
          ap (λ f. f.committer) (fmem-set_fmem m1 fm (record (m1.fmem fm) { lock = 0 }))
              ∙ ap (λ f. f.committer) (fmem-set_fmem m fm f),
          unlock-IsHeap build m1 base bs held,
        )
