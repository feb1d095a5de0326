-- ===== src/Heap/Run.antt =====
-- `fmem_alloc` on a well-formed allocator is its loop over the pages, run on the row.
use memthing.Base.{
  Bool-cases, List, Option, arith, inl, inr, length, ltb, ltb→lt, refl, some, true, ℕ, ◌+◌, ◌<◌,
  ◌>>=◌, ◌^◌, ◌∙◌, ◌≡◌,
}
use memthing.Blocks.{Block, free_bytes}
use memthing.Blocks.Row.{free_bytes-le}
use memthing.Fmem.{Committers, adjusted_alloc, alloc_found, alloc_round, fmem_alloc, fmem_lock}
use memthing.Heap.Alloc.{loop-scan, nothing_fits}
use memthing.Heap.Invariant.{IsHeap, fmem_at, head_size}
use memthing.Heap.Lock.{IsHeld, fmem_lock-free, lock-IsHeld, with_lock}
use memthing.Heap.Search.{scan}
use memthing.LinkedList.{finished, list_for_each}
use memthing.Memory.{Memory, list_of}
use memthing.Page.{Build, fpage_from_mem}

module _ {W : Type 0} (committers : Committers W) where
  -- `fmem_alloc` without its early test of the available bytes.
  abbrev pub untested_alloc :
      Build → (fuel : ℕ) → Memory → W → (fm size : ℕ) → Option (ℕ × Memory × W)
  untested_alloc build fuel m w fm size = do
    let adjusted = adjusted_alloc m fm size
    m1 ← fmem_lock fuel m fm
    let head = list_of (fpage_from_mem fm)
    alloc_found committers build m1 w fm adjusted
        (list_for_each m1 head (alloc_round build m1 adjusted) fuel tt)

module _ {W : Type 0} (committers : Committers W) (build : Build) (m : Memory) (w : W) (base : ℕ)
    (bs : List Block) (h : IsHeap build m base bs) (fuel size : ℕ) (enough : length bs < fuel)
    (small : size < 2 ^ 32) where
  abbrev fm : ℕ
  fm = fmem_at base

  abbrev need : ℕ
  need = adjusted_alloc m fm size

  abbrev locked : Memory
  locked = with_lock 1 m fm

  held : IsHeld build locked base bs
  held = lock-IsHeld build m base bs h

  -- Where the early test fails, the loop would have found nothing.
  few-scan :
      ltb (locked.fmem fm).total_available need ≡ true
      → scan need (base + head_size) bs ≡ finished tt
  few-scan e =
      let lt = ltb→lt (locked.fmem fm).total_available need e in
      let a = held.account in
      let few : free_bytes bs < need + 24 =
        omega (arith, lt, a.available, a.span, a.small, free_bytes-le bs) in
      (nothing_fits need (base + head_size) bs few).0

  loop :
      list_for_each locked (list_of (fpage_from_mem fm)) (alloc_round build locked need) fuel tt
      ≡ scan need (base + head_size) bs
  loop = loop-scan build locked base bs held need fuel (ground (arith, h.account.most)) enough

  taken_lock : fmem_lock fuel m fm ≡ some locked
  taken_lock = fmem_lock-free fuel m fm (omega arith) h.unlocked

  pub fmem_alloc-scan :
      fmem_alloc committers build fuel m w fm size
      ≡ alloc_found committers build locked w fm need (scan need (base + head_size) bs)
  unfolding fmem_alloc alloc_found
  fmem_alloc-scan =
      rw (taken_lock, loop)
        (elim (Bool-cases (ltb (locked.fmem fm).total_available need)) [
          | inl e ↦ rw (e, few-scan e) refl
          | inr e ↦ rw e refl
        ])

  -- On a well-formed allocator, with more fuel than blocks, the early test of the available bytes
  -- changes nothing: for a size below 2^32 `fmem_alloc` is what it is without that test.
  pub fmem_alloc-untested :
      fmem_alloc committers build fuel m w fm size
      ≡ untested_alloc committers build fuel m w fm size
  fmem_alloc-untested = fmem_alloc-scan ∙ rw (taken_lock, loop) refl
