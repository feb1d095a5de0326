-- ===== src/Sessions/Returned.antt =====
-- A session on a new allocator that has given back what it was given.
use memthing.Sessions.Leaks.{one_free, Steps-IsExact}
use memthing.Sessions.Safety.{IsSound}
use memthing.Sessions.Reachable.{Steps-IsSound}
use memthing.Blocks.{busy_count, total, block, Block}
use memthing.Blocks.Apart.{Apart}
use memthing.Base.{
  List, ap, subst, ◌-◌, [], arith, false, length, refl, ℕ, ◌+◌, ◌<◌, ◌^◌, ◌∙◌, ◌∷◌, ◌≡◌, ◌≤◌,
}
use memthing.Sessions.{Steps, Session}
use memthing.Fmem.{Committers}
use memthing.Heap.CreateNew.{fmem_create_new-IsHeap}
use memthing.Heap.Invariant.{IsHeap, fmem_at}
use memthing.Memory.{Memory}
use memthing.Page.{Build}
use memthing.Sessions.Counted.{IsExact, lost}
use memthing.Sessions.Created.{begun, begun-IsSound}

module _ {W : Type 0} (committers : Committers W) (build : Build) (m : Memory) (w : W)
    (base bytes min_alloc committer : ℕ) (least : 144 ≤ bytes) (room : min_alloc + 120 ≤ bytes)
    (small : bytes < 2 ^ 32) (high : base + bytes < 2 ^ 64) (word : m.flags base < 2 ^ 32)
    (word' : m.flags (base + 96) < 2 ^ 32) (fuel : ℕ) (enough : 2 ^ 28 ≤ fuel) where
  abbrev start : Session W
  start = begun committers build m w base bytes min_alloc committer

  sound : IsSound build base bytes start
  sound =
      begun-IsSound committers build m w base bytes min_alloc committer least room small high word
        word' fuel enough

  exact :
      (t : Session W) (steps : Steps committers build fuel base start t)
      → IsExact build base (lost committers build fuel base steps) t
  exact t steps = Steps-IsExact committers build fuel base bytes enough steps sound (record {
    blocks = block (bytes - 96) false ∷ [];
    heap =
        (fmem_create_new-IsHeap committers build m w base bytes min_alloc committer least room small
          high word word').1;
    apart = tt;
    counted = refl;
  })

  -- Whatever calls a program makes on an allocator that `fmem_create_new` has made, under the
  -- conditions under which that is well formed, with 2^28 rounds of fuel or more, the object counts
  -- as many allocations as the program has and has not given back, and one more for each call of
  -- `fmem_alloc` that returned the error of a failed commit.
  pub Steps-counts :
      (t : Session W) (steps : Steps committers build fuel base start t)
      → (t.memory.fmem (fmem_at base)).alloc_objects
        ≡ length t.live + lost committers build fuel base steps
  Steps-counts t steps = let x = exact t steps in x.heap.account.objects ∙ x.counted

  -- In every state that a program reaches through any calls on such an allocator, no two neighbouring
  -- blocks of its row are both free.
  pub Steps-IsTidy :
      (t : Session W)
      → Steps committers build fuel base start t
      → (bs : List Block) × Apart bs × IsHeap build t.memory base bs
  Steps-IsTidy t steps = let x = exact t steps in (x.blocks, x.apart, x.heap)

  -- When a program that has used such an allocator, through any calls in any order, has given back
  -- all that it was given, and no call of `fmem_alloc` has returned the error of a failed commit, the
  -- allocator is as it was when new: well formed with one free block of all but the first 96 bytes,
  -- no object, and all but 120 bytes available.
  pub Steps-returned :
      (t : Session W) (steps : Steps committers build fuel base start t)
      → t.live ≡ []
      → lost committers build fuel base steps ≡ 0
      → IsHeap build t.memory base (block (bytes - 96) false ∷ [])
        × ((t.memory.fmem (fmem_at base)).alloc_objects ≡ 0)
        × ((t.memory.fmem (fmem_at base)).total_available ≡ bytes - 120)
  Steps-returned t steps none_live none_lost =
      let x = exact t steps in
      let extent = (Steps-IsSound committers build fuel base bytes enough steps sound).extent in
      let span =
        (Steps-IsSound committers build fuel base bytes enough steps sound).heap.account.span in
      let none_busy : busy_count x.blocks ≡ 0 =
        omega (arith, x.counted, ap length none_live, none_lost) in
      let size : total x.blocks ≡ bytes - 96 = omega (arith, extent, span, x.heap.account.span) in
      let row =
        one_free x.blocks x.apart none_busy (omega (arith, size, least))
        ∙ ap (λ n. block n false ∷ []) size in
      let heap = subst (IsHeap build t.memory base) row x.heap in
      (heap, heap.account.objects, omega (arith, heap.account.available, least, small))
