-- ===== src/Heap/Invariant.antt =====
-- The invariant of an allocator on the memory from `base` on: its accounting object behind the
-- first page, and the other pages a row without gaps up to the end.
use memthing.Base.{ℕ, ◌+◌, ◌-◌, ◌%◌, ◌^◌, ◌≤◌, ◌<◌, ◌≡◌, refl, true, List}
use memthing.Memory.{Memory, Fmem, set_fmem}
use memthing.LinkedList.Ring.{Ring, Ring-same}
use memthing.Page.{Build}
use memthing.Blocks.{Block, block, total, free_bytes, busy_count, Sized}
use memthing.Heap.Layout.{nodes, PageAt, Headers, PageAt-same, Headers-same}

-- The bytes before the first page that can be taken: a header and a `struct fmem`.
abbrev pub head_size : ℕ
head_size = 96

-- Where the accounting object is.
abbrev pub fmem_at : ℕ → ℕ
fmem_at base = base + 24

-- The first page, the row behind it and the ring through all.
pub record IsRow (build : Build) (m : Memory) (base : ℕ) (bs : List Block) : Type 0 where
  pub head : PageAt build m base (block head_size true)
  pub ring : Ring m (base + 8) (nodes (base + head_size) bs)
  pub headers : Headers build m (base + head_size) bs
  pub sized : Sized bs

-- What the accounting object says of the row. The available bytes are those of the free blocks
-- less one header, in 64 bits, so that they wrap where no block is free.
pub record IsAccount (base : ℕ) (f : Fmem) (bs : List Block) : Type 0 where
  pub span : head_size + total bs ≡ f.total_size
  pub small : f.total_size < 2 ^ 32
  pub fits : base + f.total_size < 2 ^ 64
  pub least : 24 ≤ f.min_alloc
  pub most : f.min_alloc < 2 ^ 32
  pub available : f.total_available ≡ (free_bytes bs + 2 ^ 64 - 24) % 2 ^ 64
  pub objects : f.alloc_objects ≡ busy_count bs

pub record IsHeap (build : Build) (m : Memory) (base : ℕ) (bs : List Block) : Type 0 where
  pub row : IsRow build m base bs
  pub account : IsAccount base (m.fmem (fmem_at base)) bs
  pub unlocked : (m.fmem (fmem_at base)).lock ≡ 0

-- A row does not depend on the accounting object.
pub IsRow-set_fmem :
    (build : Build) (m : Memory) (base : ℕ) (bs : List Block) (p : ℕ) (f : Fmem)
    → IsRow build m base bs
    → IsRow build (set_fmem m p f) base bs
IsRow-set_fmem build m base bs p f r = record {
  head = PageAt-same build m (set_fmem m p f) base (block head_size true) (refl, refl) r.head;
  ring =
      Ring-same m (set_fmem m p f) (base + 8) (nodes (base + head_size) bs) (λ q. refl) (λ q. refl)
        r.ring;
  headers =
      Headers-same build m (set_fmem m p f) (base + head_size) bs (λ q _ _. (refl, refl)) r.sized
        r.headers;
  sized = r.sized;
}
