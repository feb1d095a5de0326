-- ===== src/Heap/Twice.antt =====
-- `fmem_free` of a block of the row that is free already.
use memthing.Base.{
  if◌then◌else◌, sub32, ◌∙◌, List, ap, arith, false, pos, some, ℕ, ℤ, ◌%◌, ◌++◌, ◌+◌, ◌-◌, ◌<◌, ◌^◌,
  ◌∷◌, ◌≡◌, ◌≢◌, ◌⊎◌,
}
use memthing.Blocks.{Block, busy_count, release, total}
use memthing.Blocks.Row.{busy_count-bound, busy_count-append, total-append}
use memthing.Fmem.{
  Committers, commit, e_commit_failed, fmem_free, fmem_unlock, free_ranges, give_page,
}
use memthing.Blocks.Release.{busy_count-release, total-release}
use memthing.Heap.Lock.{fmem-set_fmem, lock-IsHeld, with_lock}
use memthing.Heap.GiveBack.{free-run, free-value, given, give_page-account, give_page-IsRow}
use memthing.Heap.Invariant.{IsHeap, IsRow, IsRow-set_fmem, fmem_at, head_size}
use memthing.Heap.Unique.{Headers-unique}
use memthing.Memory.{Memory, null}
use memthing.Page.{Build}

module _ {W : Type 0} (committers : Committers W) (build : Build) (m : Memory) (w : W) (base : ℕ)
    (xs : List Block) (b : Block) (ys : List Block) where
  -- What such a call returns and leaves.
  abbrev pub FreedTwice : ℤ × Memory × W → Type 0
  FreedTwice (r, m', w') =
      ((r ≡ pos b.size) ⊎ (((m.fmem (fmem_at base)).committer ≢ null) × (r ≡ e_commit_failed)))
      × IsRow build m' base (release xs b.size ys)
      × ((m'.fmem (fmem_at base)).lock ≡ 0)
      × ((m'.fmem (fmem_at base)).alloc_objects
          ≡ (busy_count (release xs b.size ys) + 2 ^ 32 - 1) % 2 ^ 32)
      × ((bs : List Block) → ¬ IsHeap build m' base bs)

  -- A row that is well formed has no account in which an object is missing.
  miscounted :
      (m' : Memory) (rs : List Block)
      → IsRow build m' base rs
      → head_size + total rs ≡ (m'.fmem (fmem_at base)).total_size
      → total rs < 2 ^ 32
      → (m'.fmem (fmem_at base)).alloc_objects ≡ (busy_count rs + 2 ^ 32 - 1) % 2 ^ 32
      → (bs : List Block) → ¬ IsHeap build m' base bs
  miscounted m' rs row span small objects bs heap =
      let same : bs ≡ rs =
        Headers-unique build m' (base + head_size) bs rs heap.row.headers row.headers heap.row.sized
          row.sized (omega (arith, heap.account.span, span)) in
      let few = busy_count-bound rs row.sized in
      omega (arith, heap.account.objects, ap busy_count same, objects, few, small)

  -- On a well-formed allocator, `fmem_free` of the address behind the header of a block that is
  -- free already, as after it was given back once, returns as if it were busy: with the size of
  -- the block or, if there is a committer, perhaps the error of the commit. The lock is free, and
  -- the row is well formed, the block joined with its free neighbours; but one object less is
  -- counted than the row has, in 32 bits, so that the allocator is well formed with no row any
  -- more.
  pub fmem_free-twice :
      (fuel : ℕ)
      → IsHeap build m base (xs ++ b ∷ ys)
      → b.busy ≡ false
      → 0 < fuel
      → (out : ℤ × Memory × W) × (fmem_free committers build fuel m w
            (fmem_at base)
            (base + head_size + total xs + 24)
          ≡ some out)
        × FreedTwice out
  unfolding fmem_unlock
  fmem_free-twice fuel h unused some_fuel =
      let page : ℕ = base + head_size + total xs in
      let fm = fmem_at base in
      let m1 = with_lock 1 m fm in
      let held = lock-IsHeld build m base (xs ++ b ∷ ys) h in
      let (m2, modified) = give_page m1 fm page in
      let run = commit committers m2 w fm (free_ranges m2 page modified) 3 in
      let f = record (m2.fmem fm) { lock = 0 } in
      let rs = release xs b.size ys in
      let row = IsRow-set_fmem build m2 base rs fm f (give_page-IsRow build m1 base xs b ys held) in
      let after : (fmem_unlock m2 fm).fmem fm ≡ f = fmem-set_fmem m2 fm f in
      let gave : m2.fmem fm ≡ given (m1.fmem fm) b.size =
        give_page-account build m1 base xs b ys held in
      let bytes = total-append xs (b ∷ ys) in
      let count : busy_count (xs ++ b ∷ ys) ≡ busy_count rs =
        ground (arith, busy_count-append xs (b ∷ ys), busy_count-release xs b.size ys) in
      let objects : ((fmem_unlock m2 fm).fmem fm).alloc_objects
          ≡ (busy_count rs + 2 ^ 32 - 1) % 2 ^ 32 =
        ap (λ g. g.alloc_objects) after
        ∙ ap (λ g. g.alloc_objects) gave
        ∙ ap (λ n. sub32 n 1) (held.account.objects ∙ count) in
      let span : head_size + total rs ≡ ((fmem_unlock m2 fm).fmem fm).total_size = omega (
        arith,
        total-release xs b.size ys,
        bytes,
        held.account.span,
        ap (λ g. g.total_size) gave,
        ap (λ g. g.total_size) after,
      ) in
      (
        (if run.0 then pos b.size else e_commit_failed, fmem_unlock m2 fm, run.1),
        free-run committers build m w base xs b ys fuel h some_fuel,
        (
          free-value committers build m w base xs b ys,
          row,
          ap (λ g. g.lock) after,
          objects,
          miscounted (fmem_unlock m2 fm) rs row span
              (omega (
                arith,
                span,
                held.account.small,
                held.account.span,
                total-release xs b.size ys,
                bytes,
              ))
              objects,
        ),
      )
