-- ===== src/Sessions/Exact.antt =====
-- What a session's allocator has busy is what is live, but for the pages that were lost.
use memthing.Base.{
  List, Option, arith, if◌then◌else◌, inl, inr, length, none, some, to_ptr, ℕ, ◌+◌, ◌<◌, ◌==◌, ◌∷◌,
  ◌≡◌, ◌≤◌,
}
use memthing.Blocks.{Block, busy_count}
use memthing.Blocks.Apart.{Apart}
use memthing.Fmem.{e_commit_failed}
use memthing.Heap.Grant.{Granted}
use memthing.Heap.Invariant.{head_size}
use memthing.Heap.Tidy.{ApartBy}
use memthing.Memory.{Memory}
use memthing.Page.{Build}
use memthing.Sessions.{Allocation, Session}
use memthing.Sessions.Counted.{CountedBy, IsExact, IsExact-row}
use memthing.Sessions.Safety.{IsSound, taken_page}
use memthing.Sessions.Takes.{Takes}

module _ {W : Type 0} (build : Build) (base size : ℕ) (s : Session W) (need : ℕ) (least : 24 ≤ need)
    (le : size ≤ need) (bytes pointer k : ℕ) (sound : IsSound build base bytes s)
    (exact : IsExact build base k s) where
  abbrev start : ℕ
  start = base + head_size

  abbrev after : Memory → W → List Allocation → Session W
  after m w live = record { memory = m; world = w; live = live }

  row : Apart sound.blocks × (busy_count sound.blocks ≡ length s.live + k)
  row = IsExact-row build base k s sound.blocks sound.heap exact

  pub take-IsExact :
      (spec : Option (ℕ × List Block)) (r : ℕ) (m : Memory) (w : W)
      → ApartBy spec
      → CountedBy (busy_count sound.blocks) spec
      → Granted build base pointer spec sound.blocks (r, m, w)
      → r < to_ptr e_commit_failed
      → IsExact build base k (after m w (record { at = r; size = size } ∷ s.live))
  take-IsExact none r m w a c (e, heap) lt = absurd (omega (arith, e, lt))
  take-IsExact (some (p, bs)) r m w a c (_, heap) lt = record {
    blocks = bs;
    heap = heap;
    apart = a;
    counted = omega (arith, c, row.1);
  }

  pub refuse-IsExact :
      (spec : Option (ℕ × List Block)) (r : ℕ) (m : Memory) (w : W)
      → Takes need start sound.blocks spec
      → ApartBy spec
      → CountedBy (busy_count sound.blocks) spec
      → Granted build base pointer spec sound.blocks (r, m, w)
      → to_ptr e_commit_failed ≤ r
      → IsExact build base (k + (if r == to_ptr e_commit_failed then 1 else 0)) (after m w s.live)
  refuse-IsExact none r m w t a c (e, heap) le = record {
    blocks = sound.blocks;
    heap = heap;
    apart = row.0;
    counted = ground (arith, e, row.1);
  }
  refuse-IsExact (some (p, bs)) r m w t a c (inl e, heap) ge = absurd (
      omega (
        arith,
        e,
        ge,
        taken_page build base size s need least le bytes pointer sound p bs m t heap,
      ))
  refuse-IsExact (some (p, bs)) r m w t a c (inr (_, e), heap) le = record {
    blocks = bs;
    heap = heap;
    apart = a;
    counted = ground (arith, e, c, row.1);
  }
