-- ===== src/Tests/Heaps.antt =====
-- An allocator on 1000 bytes at 4096, without a committer: as it is made, and with one block taken.
use memthing.Base.{[], ap, arith, false, pos, refl, some, subst, true, ◌∙◌, ◌∷◌, ◌≡◌}
use memthing.Blocks.{block, first_fit}
use memthing.Fmem.{
  Committers, adjusted_alloc, commit, create, fmem_alloc, fmem_create_new, fmem_unlock,
}
use memthing.Heap.CreateNew.{fmem_create_new-IsHeap}
use memthing.Heap.Grant.{Grants, fmem_alloc-first_fit}
use memthing.Heap.Invariant.{IsHeap, fmem_at}
use memthing.LinkedList.{list_add_after, list_head_init}
use memthing.Memory.{Memory}
use memthing.Page.{fpage_set_busy, fpage_set_free, mem_from_fpage, plain}
use memthing.Tests.Lists.{zeros}

abbrev pub no_committers : Committers (Unit {0})
no_committers pointer ranges count m w = (pos 0, w, ranges)

abbrev pub made : Memory
made = (fmem_create_new no_committers plain zeros tt 4096 1000 0 0).1

pub made-IsHeap : IsHeap plain made 4096 (block 904 false ∷ [])
made-IsHeap =
    (fmem_create_new-IsHeap no_committers plain zeros tt 4096 1000 0 0 (omega arith) (omega arith)
      (omega arith) (omega arith) (omega arith) (omega arith)).1

-- What a request for 100 bytes needs, and gets.
pub made-need : adjusted_alloc made (fmem_at 4096) 100 ≡ 100
unfolding fmem_create_new create mem_from_fpage list_head_init list_add_after fpage_set_busy
    fpage_set_free fmem_unlock commit
made-need = refl

pub made-fit :
    first_fit 100 4192 (block 904 false ∷ []) ≡ some (4972, block 780 false ∷ block 124 true ∷ [])
unfolding first_fit
made-fit = refl

-- The allocator after that request.
pub given :
    Grants plain 4096
      (made.fmem 4120).committer
      (some (4972, block 780 false ∷ block 124 true ∷ []))
      (block 904 false ∷ [])
      (fmem_alloc no_committers plain 2 made tt 4120 100)
given =
    subst
      (λ o.
        Grants plain 4096 (made.fmem 4120).committer o (block 904 false ∷ [])
          (fmem_alloc no_committers plain 2 made tt 4120 100))
      (ap (λ n. first_fit n 4192 (block 904 false ∷ [])) made-need ∙ made-fit)
      (fmem_alloc-first_fit no_committers plain made tt 4096 (block 904 false ∷ []) 2 100
        made-IsHeap (omega arith) (omega arith))

abbrev pub used : Memory
used = given.0.1

pub used-IsHeap : IsHeap plain used 4096 (block 780 false ∷ block 124 true ∷ [])
used-IsHeap = given.2.1
