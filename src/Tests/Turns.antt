-- ===== src/Tests/Turns.antt =====
-- Two callers of an allocator on 1000 bytes: both ask for 100 bytes, the first takes the lock and is
-- given its memory.
use memthing.Base.{
  ℕ, ◌⊎◌, ◌≢◌, Bool, [], ap, arith, if◌then◌else◌, ltb, refl, some, sym, to_ptr, true, ◌^◌, ◌∙◌,
  ◌∷◌, ◌≡◌,
}
use memthing.Callers.Turns.{
  allocs, idle, Request, Shared, Turn, Turns, alloc, inside, locked_alloc, waiting,
}
use memthing.Callers.Calls.{Calls}
use memthing.Sessions.{AllDisjoint, Session}
use memthing.Callers.Interleaved.{Turns-progress, Turns-serial, gathered}
use memthing.Callers.Progress.{Ends}
use memthing.Callers.Locked.{fmem_alloc-locked}
use memthing.Callers.Serial.{Locking, swap-free}
use memthing.Fmem.{adjusted_alloc, atomic_compare_swap, e_commit_failed}
use memthing.Heap.Lock.{with_lock}
use memthing.Memory.{Memory, update}
use memthing.Page.{plain}
use memthing.Tests.Heaps.{made-IsHeap, no_committers, made}
use memthing.Tests.Lists.{zeros}
use memthing.Tests.Sessions.{start, ran}

abbrev request : Request
request = alloc 100 (adjusted_alloc made 4120 100)

abbrev first_asked : Shared (Unit {0})
first_asked = record {
  memory = made;
  world = tt;
  live = [];
  stage = update (λ t. idle) 0 (waiting request);
  ended = [];
}

abbrev both_asked : Shared (Unit {0})
both_asked = record first_asked { stage = update first_asked.stage 1 (waiting request) }

abbrev swapped : Bool × Memory
swapped = atomic_compare_swap made 4120 0 1

abbrev first_holds : Shared (Unit {0})
first_holds = record both_asked {
  memory = swapped.1;
  stage = update both_asked.stage 0 (if swapped.0 then inside request else waiting request);
}

abbrev first_done : Shared (Unit {0})
first_done = record {
  memory = ran.0.1;
  world = ran.0.2;
  live =
      if ltb ran.0.0 (to_ptr e_commit_failed)
      then (record { at = ran.0.0; size = 100 }) ∷ []
      else [];
  stage = update first_holds.stage 0 idle;
  ended = allocs 0 100 ran.0.0 ∷ [];
}

swap : swapped ≡ (true, with_lock 1 made 4120)
swap = swap-free made 4120 made-IsHeap.unlocked

holds : first_holds.stage 0 ≡ inside request
holds = ap (λ (c : Bool × Memory). if c.0 then inside request else waiting request) swap

behind_lock :
    locked_alloc no_committers plain (2 ^ 28) swapped.1 tt 4120 (adjusted_alloc made 4120 100)
    ≡ some (ran.0.0, ran.0.1, ran.0.2)
behind_lock =
    ap
      (λ (c : Bool × Memory).
        locked_alloc no_committers plain (2 ^ 28) c.1 tt 4120 (adjusted_alloc made 4120 100))
      swap
    ∙ sym (
        fmem_alloc-locked no_committers plain made tt 4120 (2 ^ 28) 100 (omega arith)
          made-IsHeap.unlocked)
    ∙ ran.1

two_ask : Turns no_committers plain (2 ^ 28) 4120 (gathered start) first_holds
two_ask =
    Turns.then_
      (Turns.then_ (Turns.then_ Turns.stay (Turn.ask_alloc 0 100 refl (omega arith)))
        (Turn.ask_alloc 1 100 refl (omega arith)))
      (Turn.spin 0 request refl)

turns : Turns no_committers plain (2 ^ 28) 4120 (gathered start) first_done
turns =
    Turns.then_ two_ask (
      Turn.allocated 0 100 (adjusted_alloc made 4120 100) ran.0.0 ran.0.1 ran.0.2 holds behind_lock)

Turns-serial_example :
    ((q : Session (Unit {0})) × Calls no_committers plain (2 ^ 28) 4096 start first_done.ended q
      × (q.world ≡ first_done.world)
      × (q.live ≡ first_done.live)
      × Locking 4120 q.memory first_done)
    × AllDisjoint first_done.live
Turns-serial_example =
    Turns-serial no_committers plain zeros tt 4096 1000 0 0 (omega arith) (omega arith)
      (omega arith) (omega arith) (omega arith) (omega arith) (2 ^ 28) (omega arith) first_done
      turns

Turns-progress_example :
    ((atomic_compare_swap swapped.1 4120 0 1).0 ≡ true)
    ⊎ ((h : ℕ) × (q : Request) × (h ≢ 1)
        × (first_holds.stage h ≡ inside q)
        × Ends no_committers plain (2 ^ 28) 4120 first_holds q)
Turns-progress_example =
    Turns-progress no_committers plain zeros tt 4096 1000 0 0 (omega arith) (omega arith)
      (omega arith) (omega arith) (omega arith) (omega arith) (2 ^ 28) (omega arith) first_holds
      two_ask 1 request refl
