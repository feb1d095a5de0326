-- ===== src/Tests/Disks.antt =====
-- The theorems on the backing store, at an allocator on 1000 bytes with a committer that saves.
use memthing.Heap.Invariant.{IsRow, IsHeap}
use memthing.Blocks.{Block, block, first_fit, release}
use memthing.Base.{List, ◌^◌, [], arith, false, pos, refl, some, true, ℕ, ℤ, ◌∷◌, ◌≡◌, ◌≢◌}
use memthing.Disk.{first, IsSaving, Saved, write}
use memthing.Disk.Alloc.{fmem_alloc-Stored}
use memthing.Disk.Create.{fmem_create_new-Saved}
use memthing.Disk.Done.{IsTaken}
use memthing.Disk.Free.{IsFreed, fmem_free-Saved}
use memthing.Disk.Torn.{fmem_free-torn}
use memthing.Tests.Modes.{obliging}
use memthing.System.{System}
use memthing.Things.{done}
use memthing.ThingsMemPersisted.{committers}
use memthing.ThingsMemPersisted.Widened.{fmem_commit_user_data-widened}
use memthing.Fmem.{
  fmem_commit_user_data, Committers, adjusted_alloc, commit, create, fmem_alloc, fmem_create_new,
  fmem_free, fmem_unlock, take_page,
}
use memthing.Disk.Row.{Saved-self}
use memthing.Heap.Alloc.{take-IsHeld}
use memthing.Heap.CreateNew.{fmem_create_new-IsHeap}
use memthing.Heap.Lock.{lock-IsHeld, unlock-IsHeap, with_lock}
use memthing.LinkedList.{list_add_after, list_head_init}
use memthing.Memory.{Memory}
use memthing.Page.{fpage_set_busy, fpage_set_free, mem_from_fpage, plain}
use memthing.Tests.Lists.{zeros}

-- The world is the store itself, and each call writes what it is told to.
abbrev saver : Committers Memory
saver pointer ranges count m w = (pos 0, write (first count ranges) m w, ranges)

saver-IsSaving : IsSaving saver (λ w. w)
saver-IsSaving = record { saves = λ pointer ranges count m w e. refl }

abbrev born : ℕ × Memory × Memory
born = fmem_create_new saver plain zeros zeros 4096 1000 0 1

born-called : (born.0 ≡ 4120) × ((born.1.fmem 4120).committer ≡ 1)
unfolding fmem_create_new create mem_from_fpage list_head_init list_add_after fpage_set_busy
    fpage_set_free fmem_unlock commit
born-called = (refl, refl)

fmem_create_new-Saved_example :
    Saved born.1 born.2 4096 (block 904 false ∷ [])
    × IsHeap plain born.2 4096 (block 904 false ∷ [])
fmem_create_new-Saved_example =
    fmem_create_new-Saved saver (λ w. w) plain zeros zeros 4096 1000 0 1 saver-IsSaving
      (omega arith) (omega arith) (omega arith) (omega arith) (omega arith) (omega arith)
      (omega arith) born-called.0

born-IsHeap : IsHeap plain born.1 4096 (block 904 false ∷ [])
born-IsHeap =
    (fmem_create_new-IsHeap saver plain zeros zeros 4096 1000 0 1 (omega arith) (omega arith)
      (omega arith) (omega arith) (omega arith) (omega arith)).1

born-Saved : Saved born.1 born.2 4096 (block 904 false ∷ [])
born-Saved =
    (fmem_create_new-Saved saver (λ w. w) plain zeros zeros 4096 1000 0 1 saver-IsSaving
      (omega arith) (omega arith) (omega arith) (omega arith) (omega arith) (omega arith)
      (omega arith) born-called.0).0

set : (born.1.fmem 4120).committer ≢ 0
set e = absurd (omega (arith, born-called.1, e))

fmem_alloc-Stored_example :
    (out : ℕ × Memory × Memory) × (fmem_alloc saver plain 2 born.1 born.2 4120 900 ≡ some out)
    × IsTaken
        (λ w. w)
        plain
        born.1
        born.2
        4096
        (block 904 false ∷ [])
        (first_fit (adjusted_alloc born.1 4120 900) 4192 (block 904 false ∷ []))
        out
fmem_alloc-Stored_example =
    fmem_alloc-Stored saver (λ w. w) saver-IsSaving plain born.1 born.2 4096 (block 904 false ∷ [])
      2 900 born-IsHeap (omega arith) (omega arith) set born-Saved

-- The allocator after its only block was taken.
abbrev sold : Memory
sold = fmem_unlock (take_page plain (with_lock 1 born.1 4120) 4120 4192) 4120

sold-IsHeap : IsHeap plain sold 4096 (block 904 true ∷ [])
sold-IsHeap =
    unlock-IsHeap plain (take_page plain (with_lock 1 born.1 4120) 4120 4192) 4096
      (block 904 true ∷ [])
      (take-IsHeld plain (with_lock 1 born.1 4120) 4096 [] (block 904 false) []
        (lock-IsHeld plain born.1 4096 (block 904 false ∷ []) born-IsHeap) refl)

sold-called : (sold.fmem 4120).committer ≡ 1
unfolding fmem_create_new create mem_from_fpage list_head_init list_add_after fpage_set_busy
    fpage_set_free fmem_unlock commit take_page
sold-called = refl

fmem_free-Saved_example :
    (out : ℤ × Memory × Memory) × (fmem_free saver plain 1 sold sold 4120 4216 ≡ some out)
    × IsFreed (λ w. w) plain 4096 904 (release [] 904 []) out
fmem_free-Saved_example =
    fmem_free-Saved saver (λ w. w) saver-IsSaving plain sold sold 4096 [] (block 904 true) [] 1
      sold-IsHeap refl (omega arith) (λ e. absurd (omega (arith, sold-called, e)))
      (Saved-self sold 4096 (block 904 true ∷ []))

born-least : (born.1.fmem 4120).min_alloc ≡ 24
unfolding fmem_create_new create mem_from_fpage list_head_init list_add_after fpage_set_busy
    fpage_set_free fmem_unlock commit
born-least = refl

-- Two blocks of 100 bytes are taken, and the first is given back.
fmem_free-torn_example :
    (out1 : ℕ × Memory × Memory) × (fmem_alloc saver plain (2 ^ 28) born.1 born.2 4120 100
      ≡ some out1)
    × (out2 : ℕ × Memory × Memory) × (fmem_alloc saver plain (2 ^ 28) out1.1 out1.2 4120 100
        ≡ some out2)
    × (out3 : ℤ × Memory × Memory) × (fmem_free saver plain (2 ^ 28) out2.1 out2.2 4120 out1.0
        ≡ some out3)
    × IsHeap plain out3.1 4096 (block 656 false ∷ block 124 true ∷ block 124 false ∷ [])
    × ((bs : List Block) → ¬ IsRow plain out3.2 4096 bs)
fmem_free-torn_example =
    fmem_free-torn saver (λ w. w) saver-IsSaving (λ pointer ranges count m w. refl) plain (2 ^ 28)
      (omega arith) born.1 born.2 4096 904 born-IsHeap 100 100 (omega arith) (omega arith)
      (omega arith) (omega arith) born-least set fmem_create_new-Saved_example.1.row

-- A system with pages of 4096 bytes.
abbrev paged : System ℕ
paged = record obliging { getpagesize = 4096 }

fmem_commit_user_data-widened_example :
    fmem_commit_user_data (committers paged 4096 (pos 3)) plain born.1 (done 7) 4120
    ≡ (pos 80, done 7)
fmem_commit_user_data-widened_example =
    fmem_commit_user_data-widened paged (pos 3) 4096 plain born.1 7 (block 904 false ∷ [])
      born-IsHeap set (omega arith) refl
