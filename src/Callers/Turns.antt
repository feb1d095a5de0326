-- ===== src/Callers/Turns.antt =====
-- Several callers of one allocator who ask for memory and give it back, and take turns in any order:
-- what `fmem_alloc` and `fmem_free` of fmem/fmem.c do before they hold the lock, each round of the
-- lock, and what they do from then until the lock is free are one step each. While one caller holds
-- the lock the others do nothing to the memory, so that it does not matter when they spin.
use memthing.Base.{
  List, Option, if◌then◌else◌, ltb, pos, some, to_ptr, ℕ, ℤ, ◌++◌, ◌<◌, ◌^◌, ◌∷◌, ◌≡◌, ◌≢◌,
}
use memthing.Fmem.{
  Committers, adjusted_alloc, alloc_failed, alloc_found, alloc_round, atomic_compare_swap, commit,
  e_commit_failed, fmem_unlock, free_ranges, give_page,
}
use memthing.LinkedList.{list_for_each}
use memthing.Memory.{Memory, list_of, null, update}
use memthing.Page.{Build, fail_on_poison_check, fpage_from_mem, fpage_get_magic, poison}
use memthing.Sessions.{Allocation}

pub data Request : Type 0 where
  alloc : (size adjusted : ℕ) → Request
  free : Allocation → Request

pub data Stage : Type 0 where
  idle : Stage
  waiting : Request → Stage
  inside : Request → Stage

-- A call that has ended: by whom, with what it was asked and what it returned. `refuses` is a call of
-- `fmem_free` that returned before the lock.
pub data Ended : Type 0 where
  allocs : (caller size result : ℕ) → Ended
  frees : (caller : ℕ) (a : Allocation) (result : ℤ) → Ended
  refuses : (caller : ℕ) (a : Allocation) (result : ℤ) → Ended

-- The allocator, what its callers have of it, and the calls that have ended, the last one first.
pub record Shared (W : Type 0) : Type 0 where
  pub memory : Memory
  pub world : W
  pub live : List Allocation
  pub stage : ℕ → Stage
  pub ended : List Ended

module _ {W : Type 0} (committers : Committers W) where
  -- `fmem_free` behind its lock.
  unfoldable pub locked_free : Memory → W → (fm mem : ℕ) → ℤ × Memory × W
  locked_free m w fm mem =
      let fpage = fpage_from_mem mem in
      let to_free = m.size fpage in
      let (m1, modified) = give_page m fm fpage in
      let (ok, w') = commit committers m1 w fm (free_ranges m1 fpage modified) 3 in
      (if ok then pos to_free else e_commit_failed, fmem_unlock m1 fm, w')

module _ {W : Type 0} (committers : Committers W) (build : Build) where
  -- `fmem_alloc` behind its lock.
  unfoldable pub locked_alloc :
      (fuel : ℕ) → Memory → W → (fm adjusted : ℕ) → Option (ℕ × Memory × W)
  locked_alloc fuel m w fm adjusted =
      let head = list_of (fpage_from_mem fm) in
      if ltb (m.fmem fm).total_available adjusted
      then some (alloc_failed committers m w fm null)
      else alloc_found committers build m w fm adjusted
          (list_for_each m head (alloc_round build m adjusted) fuel tt)

  module _ (fuel fm : ℕ) where
    -- A caller gives back only what is live when it holds the lock.
    pub data Turn : Shared W → Shared W → Type 0 where
      ask_alloc :
          {s : Shared W} (t size : ℕ)
          → s.stage t ≡ idle
          → size < 2 ^ 32
          → Turn s (record s {
            stage = update s.stage t (waiting (alloc size (adjusted_alloc s.memory fm size)));
          })
      ask_free :
          {s : Shared W} (t : ℕ) (a : Allocation)
          → s.stage t ≡ idle
          → fail_on_poison_check build (fpage_get_magic s.memory (fpage_from_mem a.at)) poison
            ≡ pos 0
          → Turn s (record s { stage = update s.stage t (waiting (free a)) })
      turned_away :
          {s : Shared W} (t : ℕ) (a : Allocation)
          → s.stage t ≡ idle
          → fail_on_poison_check build (fpage_get_magic s.memory (fpage_from_mem a.at)) poison
            ≢ pos 0
          → Turn s (record s {
            ended =
                refuses t a (
                  fail_on_poison_check build
                    (fpage_get_magic s.memory (fpage_from_mem a.at))
                    poison)
                ∷ s.ended;
          })
      spin :
          {s : Shared W} (t : ℕ) (r : Request)
          → s.stage t ≡ waiting r
          → Turn s (record s {
            memory = (atomic_compare_swap s.memory fm 0 1).1;
            stage =
                update s.stage t
                  (if (atomic_compare_swap s.memory fm 0 1).0 then inside r else waiting r);
          })
      allocated :
          {s : Shared W} (t size adjusted r : ℕ) (m : Memory) (w : W)
          → s.stage t ≡ inside (alloc size adjusted)
          → locked_alloc fuel s.memory s.world fm adjusted ≡ some (r, m, w)
          → Turn s (record {
            memory = m;
            world = w;
            live =
                if ltb r (to_ptr e_commit_failed)
                then (record { at = r; size = size }) ∷ s.live
                else s.live;
            stage = update s.stage t idle;
            ended = allocs t size r ∷ s.ended;
          })
      freed :
          {s : Shared W} (t : ℕ) (xs : List Allocation) (a : Allocation) (ys : List Allocation)
          → s.stage t ≡ inside (free a)
          → s.live ≡ xs ++ a ∷ ys
          → Turn s (record {
            memory = (locked_free committers s.memory s.world fm a.at).1;
            world = (locked_free committers s.memory s.world fm a.at).2;
            live = xs ++ ys;
            stage = update s.stage t idle;
            ended = frees t a (locked_free committers s.memory s.world fm a.at).0 ∷ s.ended;
          })

    pub data Turns : Shared W → Shared W → Type 0 where
      stay : {s : Shared W} → Turns s s
      then_ : {s t u : Shared W} → Turns s t → Turn t u → Turns s u
