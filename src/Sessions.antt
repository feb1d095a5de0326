-- ===== src/Sessions.antt =====
-- A program that uses one allocator of fmem/fmem.c through the calls of fmem/fmem.h: it takes
-- memory and gives back what it was given and has not given back, in any order, commits, and opens
-- the allocator again. Each call is a step.
pub mod Takes
pub mod Live
pub mod Safety
pub mod Released
pub mod Reachable
pub mod Counted
pub mod Exact
pub mod Leaks
pub mod Created
pub mod Returned
use memthing.Base.{
  All, List, [], length, some, to_ptr, ℕ, ℤ, ◌++◌, ◌+◌, ◌<◌, ◌^◌, ◌∷◌, ◌≡◌, ◌≤◌, ◌⊎◌,
}
use memthing.Blocks.{overhead}
use memthing.Fmem.{
  Committers, e_commit_failed, fmem_alloc, fmem_commit_mem, fmem_commit_user_data, fmem_free,
  fmem_from_existing,
}
use memthing.Heap.Invariant.{fmem_at, head_size}
use memthing.Memory.{Memory, set_fmem}
use memthing.Page.{Build}

-- Memory that a call of `fmem_alloc` returned, with the size that was asked for.
pub record Allocation : Type 0 where
  pub at : ℕ
  pub size : ℕ

pub record Session (W : Type 0) : Type 0 where
  pub memory : Memory
  pub world : W
  pub live : List Allocation

-- The user's pointers in the accounting object are written.
abbrev pub stash : Memory → (fm user1 user2 user3 user4 : ℕ) → Memory
stash m fm user1 user2 user3 user4 =
    set_fmem m fm
      (record (m.fmem fm) { user1 = user1; user2 = user2; user3 = user3; user4 = user4 })

module _ {W : Type 0} (committers : Committers W) (build : Build) (fuel base : ℕ) where
  -- The steps. A call of `fmem_alloc` whose result is not one of the two errors adds to what is
  -- live; what is given back is not live any more, also if its commit fails.
  pub data Step : Session W → Session W → Type 0 where
    granted :
        {s : Session W} (size r : ℕ) (m : Memory) (w : W)
        → size < 2 ^ 32
        → fmem_alloc committers build fuel s.memory s.world (fmem_at base) size ≡ some (r, m, w)
        → r < to_ptr e_commit_failed
        → Step s
            (record { memory = m; world = w; live = (record { at = r; size = size }) ∷ s.live })
    refused :
        {s : Session W} (size r : ℕ) (m : Memory) (w : W)
        → size < 2 ^ 32
        → fmem_alloc committers build fuel s.memory s.world (fmem_at base) size ≡ some (r, m, w)
        → to_ptr e_commit_failed ≤ r
        → Step s (record { memory = m; world = w; live = s.live })
    given_back :
        {s : Session W} (xs : List Allocation) (a : Allocation) (ys : List Allocation) (r : ℤ)
        (m : Memory) (w : W)
        → s.live ≡ xs ++ a ∷ ys
        → fmem_free committers build fuel s.memory s.world (fmem_at base) a.at ≡ some (r, m, w)
        → Step s (record { memory = m; world = w; live = xs ++ ys })
    user_data :
        {s : Session W} (user1 user2 user3 user4 : ℕ)
        → Step s (record s { memory = stash s.memory (fmem_at base) user1 user2 user3 user4 })
    user_data_saved :
        {s : Session W}
        → Step s (record s {
          world = (fmem_commit_user_data committers build s.memory s.world (fmem_at base)).1;
        })
    saved :
        {s : Session W} (mem len : ℕ)
        → Step s (record s {
          world = (fmem_commit_mem committers build s.memory s.world (fmem_at base) mem len).1;
        })
    opened :
        {s : Session W} (committer : ℕ)
        → Step s (record s { memory = (fmem_from_existing build s.memory base committer).1 })

  pub data Steps : Session W → Session W → Type 0 where
    stay : {s : Session W} → Steps s s
    then_ : {s t u : Session W} → Steps s t → Step t u → Steps s u

-- One ends at least a header before the other begins.
abbrev pub Disjoint : Allocation → Allocation → Type 0
Disjoint a b = (a.at + a.size + overhead ≤ b.at) ⊎ (b.at + b.size + overhead ≤ a.at)

-- No two of them meet.
abbrev pub AllDisjoint : List Allocation → Type 0
AllDisjoint [] = Unit
AllDisjoint (a ∷ rest) = All (Disjoint a) rest × AllDisjoint rest

-- All of it lies between the head page and the end of the block of memory.
abbrev pub Inside : (base length : ℕ) → Allocation → Type 0
Inside base length a = (base + head_size + overhead ≤ a.at) × (a.at + a.size ≤ base + length)
