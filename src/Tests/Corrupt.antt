-- ===== src/Tests/Corrupt.antt =====
-- A page whose magic number was overwritten, in an allocator on 1000 bytes.
use memthing.Base.{[], arith, false, refl, some, to_ptr, ◌∷◌, ◌≡◌}
use memthing.Blocks.{block}
use memthing.Fmem.{commit, create, fmem_alloc, fmem_create_new, fmem_unlock}
use memthing.Heap.Corrupt.{fmem_alloc-corrupt}
use memthing.Heap.CreateNew.{fmem_create_new-IsHeap}
use memthing.Heap.Invariant.{IsHeap}
use memthing.LinkedList.{list_add_after, list_head_init}
use memthing.LinkedList.Ring.{Ring-same}
use memthing.Memory.{Memory, set_flags}
use memthing.Page.{
  checked, ee_bad_mem, fpage_get_magic, fpage_set_busy, fpage_set_free, fpage_set_magic,
  mem_from_fpage,
}
use memthing.Tests.Heaps.{no_committers}
use memthing.Tests.Lists.{zeros}

abbrev made_checked : Memory
made_checked = (fmem_create_new no_committers checked zeros tt 4096 1000 0 0).1

-- The magic number of the only free page is overwritten.
abbrev spoilt : Memory
spoilt = set_flags made_checked 4192 0

spoilt-magic : fpage_get_magic spoilt 4192 ≡ 0
unfolding fpage_get_magic
spoilt-magic = refl

spoilt-IsHeap : IsHeap checked made_checked 4096 (block 904 false ∷ [])
spoilt-IsHeap =
    (fmem_create_new-IsHeap no_committers checked zeros tt 4096 1000 0 0 (omega arith) (omega arith)
      (omega arith) (omega arith) (omega arith) (omega arith)).1

spoilt-object :
    ((spoilt.fmem 4120).lock ≡ 0)
    × ((spoilt.fmem 4120).min_alloc ≡ 24)
    × ((spoilt.fmem 4120).total_available ≡ 880)
unfolding fmem_create_new create mem_from_fpage list_head_init list_add_after fpage_set_busy
    fpage_set_free fmem_unlock commit fpage_set_magic
spoilt-object = (refl, refl, refl)

fmem_alloc-corrupt_example :
    fmem_alloc no_committers checked 2 spoilt tt 4120 100 ≡ some (to_ptr ee_bad_mem, spoilt, tt)
fmem_alloc-corrupt_example =
    fmem_alloc-corrupt no_committers spoilt tt 4096 [] (block 904 false) [] 2 100 (omega arith)
      (omega arith) spoilt-object.0 (omega (arith, spoilt-object.1)) (ground (arith, spoilt-object))
      (Ring-same made_checked spoilt 4104 (4200 ∷ []) (λ p. refl) (λ p. refl)
        spoilt-IsHeap.row.ring)
      tt tt tt (omega arith) (omega arith) (λ e. absurd (omega (arith, e, spoilt-magic)))
