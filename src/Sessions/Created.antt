-- ===== src/Sessions/Created.antt =====
-- Sessions on a new allocator.
use memthing.Base.{
  All, All-map, List, [], arith, false, length, pos, some, ℕ, ℤ, ◌+◌, ◌-◌, ◌<◌, ◌^◌, ◌∷◌, ◌≡◌, ◌≤◌,
  ◌⊎◌,
}
use memthing.Blocks.{Block, Sized, block, overhead, total}
use memthing.Blocks.Busy.{BusyAt-range}
use memthing.Fmem.{Committers, e_commit_failed, fmem_alloc, fmem_create_new, fmem_free}
use memthing.Heap.CreateNew.{fmem_create_new-IsHeap}
use memthing.Heap.Invariant.{IsHeap, fmem_at, head_size}
use memthing.Memory.{Memory}
use memthing.Page.{Build}
use memthing.Sessions.{AllDisjoint, Allocation, Inside, Session, Steps}
use memthing.Sessions.Live.{Held}
use memthing.Sessions.Reachable.{Steps-IsSound, alloc-Grants}
use memthing.Sessions.Released.{freed-returns}
use memthing.Sessions.Safety.{IsSound}

-- Held allocations are inside the row.
Held-Inside :
    (bs : List Block) (base length : ℕ) (live : List Allocation)
    → head_size + total bs ≡ length
    → Sized bs
    → All (Held bs (base + head_size)) live
    → All (Inside base length) live
Held-Inside bs base length live extent sized =
    All-map (Held bs (base + head_size)) (Inside base length)
      (λ a h.
        let range = BusyAt-range bs (base + head_size) h.page h.bytes sized h.busy in
        (omega (arith, h.place, range), omega (arith, h.place, h.room, range, extent)))
      live

-- `fmem_free` of an allocation returns, with at least its size and a header, or the error.
abbrev pub ComesBack :
    {W : Type 0} → Committers W → Build → (fuel base : ℕ) → Session W → Allocation → Type 0
ComesBack {W} committers build fuel base t a =
    (out : ℤ × Memory × W) × (fmem_free committers build fuel t.memory t.world (fmem_at base) a.at
      ≡ some out)
    × ((out.0 ≡ e_commit_failed) ⊎ ((n : ℕ) × (a.size + overhead ≤ n) × (out.0 ≡ pos n)))

module _ {W : Type 0} (committers : Committers W) (build : Build) (m : Memory) (w : W)
    (base length min_alloc committer : ℕ) where
  -- The session before the first call.
  abbrev pub begun : Session W
  begun =
      let (_, m', w') = fmem_create_new committers build m w base length min_alloc committer in
      record { memory = m'; world = w'; live = [] }

module _ {W : Type 0} (committers : Committers W) (build : Build) (m : Memory) (w : W)
    (base length min_alloc committer : ℕ) (least : 144 ≤ length) (room : min_alloc + 120 ≤ length)
    (small : length < 2 ^ 32) (high : base + length < 2 ^ 64) (word : m.flags base < 2 ^ 32)
    (word' : m.flags (base + 96) < 2 ^ 32) (fuel : ℕ) (enough : 2 ^ 28 ≤ fuel) where
  abbrev start : Session W
  start = begun committers build m w base length min_alloc committer

  pub begun-IsSound : IsSound build base length start
  begun-IsSound = record {
    blocks = block (length - 96) false ∷ [];
    heap =
        (fmem_create_new-IsHeap committers build m w base length min_alloc committer least room
          small high word word').1;
    extent = omega (arith, least);
    held = tt;
    apart = tt;
  }

  -- Whatever calls a program makes on an allocator that `fmem_create_new` has made, under the
  -- conditions under which that is well formed, the allocator stays well formed. What the program
  -- was given and has not given back lies in the block of memory behind the head page, and no two
  -- such allocations meet, their headers included. Fuel of 2^28 is enough for any call.
  pub Steps-AllDisjoint :
      (t : Session W)
      → Steps committers build fuel base start t
      → ((bs : List Block) × IsHeap build t.memory base bs)
        × All (Inside base length) t.live
        × AllDisjoint t.live
  Steps-AllDisjoint t steps =
      let sound = Steps-IsSound committers build fuel base length enough steps begun-IsSound in
      (
        (sound.blocks, sound.heap),
        Held-Inside sound.blocks base length t.live sound.extent sound.heap.row.sized sound.held,
        sound.apart,
      )

  -- In every such state `fmem_alloc` of a size below 2^32 comes back, and `fmem_free` of each live
  -- allocation does, and returns at least the size that was asked for and a header, or the error of
  -- a failed commit.
  pub Steps-returns :
      (t : Session W)
      → Steps committers build fuel base start t
      → (size : ℕ) → size < 2 ^ 32
      → ((out : ℕ × Memory × W) × (fmem_alloc committers build fuel t.memory t.world
              (fmem_at base)
              size
            ≡ some out))
        × All (ComesBack committers build fuel base t) t.live
  Steps-returns t steps size lt =
      let sound = Steps-IsSound committers build fuel base length enough steps begun-IsSound in
      let (out, returns, _) =
        alloc-Grants committers build fuel base length enough t sound size lt in
      (
        (out, returns),
        All-map (Held sound.blocks (base + head_size)) (ComesBack committers build fuel base t)
            (freed-returns committers build fuel base length (omega (arith, enough)) t sound) t.live
            sound.held,
      )
