-- ===== src/Tests/Calls.antt =====
-- The allocator's functions on the stores of `Tests.Heaps`.
use memthing.Base.{
  List, [], ap, arith, false, if◌then◌else◌, ltb, refl, some, to_ptr, true, ℕ, ℤ, ◌+◌, ◌<◌, ◌==◌,
  ◌^◌, ◌∙◌, ◌∷◌, ◌≡◌, ◌≢◌, ◌⊎◌,
}
use memthing.Blocks.{Block, block, first_fit}
use memthing.Fmem.{
  adjusted_alloc, e_commit_failed, fmem_alloc, fmem_commit_mem, fmem_create_new, fmem_free,
  fmem_from_existing,
}
use memthing.Heap.Commit.{committed, fmem_commit_mem-inside}
use memthing.Heap.CreateNew.{fmem_create_new-IsHeap}
use memthing.Heap.Existing.{fmem_from_existing-IsHeap}
use memthing.Heap.Free.{Released, fmem_free-release}
use memthing.Heap.Twice.{FreedTwice, fmem_free-twice}
use memthing.Heap.Grant.{Grants, fmem_alloc-first_fit}
use memthing.Heap.Invariant.{IsHeap, fmem_at}
use memthing.Heap.Joined.{Merged, fpage_merge-IsRow}
use memthing.Heap.Large.{fmem_create_new-cut}
use memthing.Heap.Lock.{IsHeld, lock-IsHeld, with_lock}
use memthing.Heap.RoundTrip.{Taken, alloc_free-IsHeap}
use memthing.Heap.Run.{fmem_alloc-untested, untested_alloc}
use memthing.Memory.{Memory, null}
use memthing.Page.{checked, fpage_merge, plain}
use memthing.Tests.Heaps.{made-IsHeap, made-fit, made-need, no_committers, used, used-IsHeap, made}
use memthing.Tests.Lists.{zeros}

fmem_create_new-IsHeap_example :
    let (r, m', w') = fmem_create_new no_committers checked zeros tt 8192 500 64 0 in
    ((r ≡ fmem_at 8192)
      ⊎ (((m'.fmem (fmem_at 8192)).committer ≢ null) × (r ≡ to_ptr e_commit_failed)))
    × IsHeap checked m' 8192 (block 404 false ∷ [])
fmem_create_new-IsHeap_example =
    fmem_create_new-IsHeap no_committers checked zeros tt 8192 500 64 0 (omega arith) (omega arith)
      (omega arith) (omega arith) (omega arith) (omega arith)

fmem_alloc-first_fit_example :
    Grants plain 4096
      (made.fmem 4120).committer
      (first_fit (adjusted_alloc made 4120 100) 4192 (block 904 false ∷ []))
      (block 904 false ∷ [])
      (fmem_alloc no_committers plain 2 made tt 4120 100)
fmem_alloc-first_fit_example =
    fmem_alloc-first_fit no_committers plain made tt 4096 (block 904 false ∷ []) 2 100 made-IsHeap
      (omega arith) (omega arith)

fmem_free-release_example :
    (out : ℤ × Memory × Unit {0}) × (fmem_free no_committers plain 1 used tt 4120 4996 ≡ some out)
    × Released no_committers plain used tt 4096 (block 780 false ∷ []) (block 124 true) [] out
fmem_free-release_example =
    fmem_free-release no_committers plain used tt 4096 (block 780 false ∷ []) (block 124 true) [] 1
      used-IsHeap refl (omega arith)

fmem_free-twice_example :
    (out : ℤ × Memory × Unit {0}) × (fmem_free no_committers plain 1 used tt 4120 4216 ≡ some out)
    × FreedTwice no_committers plain used tt 4096 [] (block 780 false) (block 124 true ∷ []) out
fmem_free-twice_example =
    fmem_free-twice no_committers plain used tt 4096 [] (block 780 false) (block 124 true ∷ []) 1
      used-IsHeap refl (omega arith)

alloc_free-IsHeap_example :
    (out : ℕ × Memory × Unit {0}) × (out' : ℤ × Memory × Unit {0}) × (fmem_alloc no_committers plain
        2 made tt 4120 100
      ≡ some out)
    × (fmem_free no_committers plain 2 out.1 out.2 4120 4996 ≡ some out')
    × Taken
        (adjusted_alloc made 4120 100)
        4192
        4972
        (block 904 false ∷ [])
        (block 780 false ∷ block 124 true ∷ [])
    × IsHeap plain out.1 4096 (block 780 false ∷ block 124 true ∷ [])
    × IsHeap plain out'.1 4096 (block 904 false ∷ [])
alloc_free-IsHeap_example =
    alloc_free-IsHeap no_committers plain made tt 4096 (block 904 false ∷ [])
      (block 780 false ∷ block 124 true ∷ []) 4972 2 100 made-IsHeap tt (omega arith) (omega arith)
      (ap (λ n. first_fit n 4192 (block 904 false ∷ [])) made-need ∙ made-fit)

-- The object of a store whose lock was left held.
held : IsHeld plain (with_lock 1 used 4120) 4096 (block 780 false ∷ block 124 true ∷ [])
held = lock-IsHeld plain used 4096 (block 780 false ∷ block 124 true ∷ []) used-IsHeap

fmem_from_existing-IsHeap_example :
    let (r, m') = fmem_from_existing plain (with_lock 1 used 4120) 4096 7 in
    (r ≡ 4120)
    × ((m'.fmem 4120).committer ≡ 7)
    × IsHeap plain m' 4096 (block 780 false ∷ block 124 true ∷ [])
fmem_from_existing-IsHeap_example =
    fmem_from_existing-IsHeap plain (with_lock 1 used 4120) 4096
      (block 780 false ∷ block 124 true ∷ []) 7 held

-- A page that was marked free between two busy neighbours, the head and nothing.
fpage_merge-IsRow_example : Merged plain made 4096 [] 904 [] (fpage_merge made 4192).0
fpage_merge-IsRow_example =
    fpage_merge-IsRow plain made 4096 [] 904 [] (omega arith, omega arith) made-IsHeap.row

abbrev row : List Block
row = block 780 false ∷ block 124 true ∷ []

fmem_commit_mem-inside_example : fmem_commit_mem no_committers plain used tt 4120 4996 60 ≡ (
    if (used.fmem 4120).committer == null
    then (e_commit_failed, tt)
    else (if ltb 100 60
        then (e_commit_failed, tt)
        else committed no_committers plain used tt 4096 4996 60))
fmem_commit_mem-inside_example =
    fmem_commit_mem-inside no_committers plain used tt 4096 (block 780 false ∷ []) (block 124 true)
      [] 60 used-IsHeap (omega (arith, used-IsHeap.account.small)) (omega arith)

fmem_create_new-cut_example :
    let size = (fmem_create_new no_committers plain zeros tt 4096 (2 ^ 32 + 100) 0 0).1.size in
    (size 4192 ≡ 4) × (size 4192 < 2 ^ 32 + 4)
fmem_create_new-cut_example =
    fmem_create_new-cut no_committers plain zeros tt 4096 (2 ^ 32 + 100) 0 0 (omega arith)
      (omega arith) (omega arith)

fmem_alloc-untested_example :
    fmem_alloc no_committers plain 2 made tt 4120 100
    ≡ untested_alloc no_committers plain 2 made tt 4120 100
fmem_alloc-untested_example =
    fmem_alloc-untested no_committers plain made tt 4096 (block 904 false ∷ []) made-IsHeap 2 100
      (omega arith) (omega arith)
