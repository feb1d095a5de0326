-- ===== src/Disk.antt =====
-- The backing store that committers write to, as fmem/fmem.h describes it: what a committer is asked
-- to write is there once it has returned. A store holds what a memory holds.
pub mod Write
pub mod Row
pub mod Frame
pub mod Create
pub mod Merge
pub mod Joined
pub mod Release
pub mod Free
pub mod Take
pub mod Done
pub mod Alloc
pub mod Split
pub mod Given
pub mod Torn
use memthing.Base.{
  ◌⊎◌, Bool, List, [], false, if◌then◌else◌, is_negative, leb, suc, zero, ℕ, ◌&&◌, ◌+◌, ◌||◌, ◌∷◌,
  ◌≡◌,
}
use memthing.Blocks.{Block}
use memthing.Fmem.{CommitRange, Committers}
use memthing.Heap.Invariant.{IsRow, head_size}
use memthing.Page.{Build}
use memthing.Memory.{Fmem, Memory}

-- Whether one of the ranges holds the `n` bytes at `p`.
abbrev pub covers : List CommitRange → (p n : ℕ) → Bool
covers [] p n = false
covers (r ∷ rs) p n = (leb r.start p && leb (p + n) (r.start + r.len)) || covers rs p n

-- The accounting object at `p` on a store, after some ranges of `f` were written over `old`.
abbrev write_fmem : List CommitRange → (p : ℕ) (f old : Fmem) → Fmem
write_fmem rs p f old = record {
  total_size = if covers rs p 8 then f.total_size else old.total_size;
  total_available = if covers rs (p + 8) 8 then f.total_available else old.total_available;
  alloc_objects = if covers rs (p + 16) 4 then f.alloc_objects else old.alloc_objects;
  min_alloc = if covers rs (p + 20) 4 then f.min_alloc else old.min_alloc;
  user1 = if covers rs (p + 24) 8 then f.user1 else old.user1;
  user2 = if covers rs (p + 32) 8 then f.user2 else old.user2;
  user3 = if covers rs (p + 40) 8 then f.user3 else old.user3;
  user4 = if covers rs (p + 48) 8 then f.user4 else old.user4;
  committer = if covers rs (p + 56) 8 then f.committer else old.committer;
  lock = if covers rs (p + 64) 4 then f.lock else old.lock;
}

-- The store after the ranges of `m` were written to it: the fields that lie in the ranges.
unfoldable pub write : List CommitRange → (m store : Memory) → Memory
write rs m store = record {
  next = λ l. if covers rs l 8 then m.next l else store.next l;
  prev = λ l. if covers rs (l + 8) 8 then m.prev l else store.prev l;
  flags = λ p. if covers rs p 4 then m.flags p else store.flags p;
  size = λ p. if covers rs (p + 4) 4 then m.size p else store.size p;
  fmem = λ p. write_fmem rs p (m.fmem p) (store.fmem p);
}

abbrev pub first : ℕ → List CommitRange → List CommitRange
first zero rs = []
first (suc n) [] = []
first (suc n) (r ∷ rs) = r ∷ first n rs

-- Committers that do what fmem/fmem.h assumes of them: where the result is not negative, the first
-- `count` ranges have been written to the store, which is a part `disk` of their world.
pub record IsSaving {W : Type 0} (committers : Committers W) (disk : W → Memory) : Type 0 where
  pub saves :
      (pointer : ℕ) (ranges : List CommitRange) (count : ℕ) (m : Memory) (w : W)
      → is_negative (committers pointer ranges count m w).0 ≡ false
      → disk (committers pointer ranges count m w).1 ≡ write (first count ranges) m (disk w)

-- A store has the header of the page at `q` as the memory has it.
abbrev pub SavedAt : (m store : Memory) → ℕ → Type 0
SavedAt m store q =
    (store.size q ≡ m.size q)
    × (store.flags q ≡ m.flags q)
    × (store.next (q + 8) ≡ m.next (q + 8))
    × (store.prev (q + 8) ≡ m.prev (q + 8))

-- The same for each page of a row whose first page is at `a`.
abbrev pub SavedRow : (m store : Memory) (a : ℕ) → List Block → Type 0
SavedRow m store a [] = Unit
SavedRow m store a (b ∷ bs) = SavedAt m store a × SavedRow m store (a + b.size) bs

-- A store has all headers of an allocator.
abbrev pub Saved : (m store : Memory) (base : ℕ) → List Block → Type 0
Saved m store base bs = SavedAt m store base × SavedRow m store (base + head_size) bs

-- What a change of memory leaves of the page at `x`: all of its header, but that its `prev` may
-- change if its links stand at `next`.
abbrev pub Kept : (m m' : Memory) (next x : ℕ) → Type 0
Kept m m' next x =
    (m'.size x ≡ m.size x)
    × (m'.flags x ≡ m.flags x)
    × (m'.next (x + 8) ≡ m.next (x + 8))
    × ((m'.prev (x + 8) ≡ m.prev (x + 8)) ⊎ (x + 8 ≡ next))

-- A store has all headers of an allocator, and they make the row, well formed.
abbrev pub Stored : (build : Build) (m store : Memory) (base : ℕ) → List Block → Type 0
Stored build m store base bs = Saved m store base bs × IsRow build store base bs
