-- ===== src/Tests/Sessions.antt =====
-- The theorems on sessions, where a program has taken 100 bytes of an allocator on 1000 bytes.
use memthing.Sessions.{Step, Steps, AllDisjoint, Allocation, Inside, Session}
use memthing.Tests.Heaps.{made, made-IsHeap, made-fit, made-need, no_committers}
use memthing.Blocks.Apart.{Apart}
use memthing.Base.{
  All, List, [], ap, arith, false, inl, inr, refl, some, subst, true, ℕ, ℤ, ◌^◌, ◌∙◌, ◌∷◌, ◌≡◌, ◌+◌,
}
use memthing.Blocks.{Block, block, first_fit}
use memthing.Fmem.{
  adjusted_alloc, commit, create, fmem_alloc, fmem_create_new, fmem_free, fmem_unlock,
}
use memthing.Heap.Grant.{Granted, Grants, fmem_alloc-first_fit}
use memthing.Heap.Invariant.{IsHeap}
use memthing.LinkedList.{list_add_after, list_head_init}
use memthing.Memory.{Memory}
use memthing.Page.{fpage_set_busy, fpage_set_free, mem_from_fpage, plain}
use memthing.Sessions.Returned.{Steps-IsTidy, Steps-counts, Steps-returned}
use memthing.Sessions.Counted.{lost}
use memthing.Sessions.Created.{ComesBack, Steps-AllDisjoint, Steps-returns, begun}
use memthing.Tests.Lists.{zeros}

abbrev pub start : Session (Unit {0})
start = begun no_committers plain zeros tt 4096 1000 0 0

-- The first call.
pub ran :
    Grants plain 4096
      (made.fmem 4120).committer
      (first_fit (adjusted_alloc made 4120 100) 4192 (block 904 false ∷ []))
      (block 904 false ∷ [])
      (fmem_alloc no_committers plain (2 ^ 28) made tt 4120 100)
ran =
    fmem_alloc-first_fit no_committers plain made tt 4096 (block 904 false ∷ []) (2 ^ 28) 100
      made-IsHeap (omega arith) (omega arith)

uncommitted : (made.fmem 4120).committer ≡ 0
unfolding fmem_create_new create mem_from_fpage list_head_init list_add_after fpage_set_busy
    fpage_set_free fmem_unlock commit
uncommitted = refl

result : ran.0.0 ≡ 4996
result = value (
    subst (λ o. Granted plain 4096 (made.fmem 4120).committer o (block 904 false ∷ []) ran.0)
      (ap (λ n. first_fit n 4192 (block 904 false ∷ [])) made-need ∙ made-fit) ran.2)
  where
    value :
        Granted plain 4096
          (made.fmem 4120).committer
          (some (4972, block 780 false ∷ block 124 true ∷ []))
          (block 904 false ∷ [])
          ran.0
        → ran.0.0 ≡ 4996
    value (inl e, h) = e
    value (inr (set, e), h) = absurd (set uncommitted)

abbrev taken : Allocation
taken = record { at = ran.0.0; size = 100 }

abbrev state : Session (Unit {0})
state = record { memory = ran.0.1; world = ran.0.2; live = taken ∷ [] }

abbrev one_step : Steps no_committers plain (2 ^ 28) 4096 start state
one_step =
    Steps.then_ Steps.stay
      (Step.granted 100 ran.0.0 ran.0.1 ran.0.2 (omega arith) ran.1 (omega (arith, result)))

Steps-AllDisjoint_example :
    ((bs : List Block) × IsHeap plain state.memory 4096 bs)
    × All (Inside 4096 1000) (taken ∷ [])
    × AllDisjoint (taken ∷ [])
Steps-AllDisjoint_example =
    Steps-AllDisjoint no_committers plain zeros tt 4096 1000 0 0 (omega arith) (omega arith)
      (omega arith) (omega arith) (omega arith) (omega arith) (2 ^ 28) (omega arith) state one_step

Steps-returns_example :
    ((out : ℕ × Memory × Unit {0}) × (fmem_alloc no_committers plain
          (2 ^ 28)
          state.memory
          tt
          4120
          30
        ≡ some out))
    × All (ComesBack no_committers plain (2 ^ 28) 4096 state) state.live
Steps-returns_example =
    Steps-returns no_committers plain zeros tt 4096 1000 0 0 (omega arith) (omega arith)
      (omega arith) (omega arith) (omega arith) (omega arith) (2 ^ 28) (omega arith) state one_step
      30 (omega arith)

Steps-counts_example :
    (state.memory.fmem 4120).alloc_objects ≡ 1 + lost no_committers plain (2 ^ 28) 4096 one_step
Steps-counts_example =
    Steps-counts no_committers plain zeros tt 4096 1000 0 0 (omega arith) (omega arith)
      (omega arith) (omega arith) (omega arith) (omega arith) (2 ^ 28) (omega arith) state one_step

Steps-IsTidy_example : (bs : List Block) × Apart bs × IsHeap plain state.memory 4096 bs
Steps-IsTidy_example =
    Steps-IsTidy no_committers plain zeros tt 4096 1000 0 0 (omega arith) (omega arith)
      (omega arith) (omega arith) (omega arith) (omega arith) (2 ^ 28) (omega arith) state one_step

-- The allocation is given back.
freed :
    (out : ℤ × Memory × Unit {0}) × (fmem_free no_committers plain
        (2 ^ 28)
        state.memory
        tt
        4120
        taken.at
      ≡ some out)
freed =
    let (out, run, _) =
      (Steps-returns no_committers plain zeros tt 4096 1000 0 0 (omega arith) (omega arith)
        (omega arith) (omega arith) (omega arith) (omega arith) (2 ^ 28) (omega arith) state
        one_step 30 (omega arith)).1.0 in
    (out, run)

abbrev emptied : Session (Unit {0})
emptied = record { memory = freed.0.1; world = freed.0.2; live = [] }

abbrev two_steps : Steps no_committers plain (2 ^ 28) 4096 start emptied
two_steps =
    Steps.then_ one_step (Step.given_back [] taken [] freed.0.0 freed.0.1 freed.0.2 refl freed.1)

Steps-returned_example :
    IsHeap plain emptied.memory 4096 (block 904 false ∷ [])
    × ((emptied.memory.fmem 4120).alloc_objects ≡ 0)
    × ((emptied.memory.fmem 4120).total_available ≡ 880)
Steps-returned_example =
    Steps-returned no_committers plain zeros tt 4096 1000 0 0 (omega arith) (omega arith)
      (omega arith) (omega arith) (omega arith) (omega arith) (2 ^ 28) (omega arith) emptied
      two_steps refl refl
