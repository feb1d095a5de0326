-- ===== src/Sessions/Safety.antt =====
-- What holds in every state of a session.
use memthing.Base.{
  All, List, Option, [], arith, inl, inr, length, none, some, subst, sym, to_ptr, ℕ, ◌*◌, ◌+◌, ◌<◌,
  ◌∷◌, ◌≡◌, ◌≤◌,
}
use memthing.Blocks.{Block, Sized, overhead, total}
use memthing.Blocks.Busy.{BusyAt-range}
use memthing.Fmem.{e_commit_failed}
use memthing.Heap.Grant.{Granted}
use memthing.Heap.Invariant.{IsHeap, head_size}
use memthing.Memory.{Memory}
use memthing.Page.{Build}
use memthing.Sessions.{AllDisjoint, Disjoint, Session}
use memthing.Sessions.Live.{Held, Held-map, taken-Disjoint}
use memthing.Sessions.Takes.{IsTaking, Takes}

-- The allocator is well formed, and each live allocation is in a busy block, apart from the others.
pub record IsSound {W : Type 0} (build : Build) (base length : ℕ) (s : Session W) : Type 0 where
  pub blocks : List Block
  pub heap : IsHeap build s.memory base blocks
  pub extent : head_size + total blocks ≡ length
  pub held : All (Held blocks (base + head_size)) s.live
  pub apart : AllDisjoint s.live

-- There are no more blocks than headers fit.
pub length-bound : (bs : List Block) → Sized bs → 24 * length bs ≤ total bs
length-bound [] s = omega arith
length-bound (b ∷ bs) s = omega (arith, s.0, length-bound bs s.1)

module _ {W : Type 0} (build : Build) (base size : ℕ) (s : Session W) (need : ℕ) (least : 24 ≤ need)
    (le : size ≤ need) (length pointer : ℕ) (sound : IsSound build base length s) where
  abbrev start : ℕ
  start = base + head_size

  abbrev fails : ℕ
  fails = to_ptr e_commit_failed

  -- What is left by a call of `fmem_alloc`, by what first fit says.
  pub taken_page :
      (p : ℕ) (bs : List Block) (m : Memory)
      → IsTaking need start sound.blocks p bs
      → IsHeap build m base bs
      → p + overhead < fails
  taken_page p bs m t heap =
      let range = BusyAt-range bs start p t.size heap.row.sized t.here in
      omega (arith, range.2, t.room, least, heap.account.span, heap.account.fits)

  abbrev after : ℕ → Memory → W → Session W
  after r m w = record { memory = m; world = w; live = (record { at = r; size = size }) ∷ s.live }

  pub granted-IsSound :
      (spec : Option (ℕ × List Block)) (r : ℕ) (m : Memory) (w : W)
      → Takes need start sound.blocks spec
      → Granted build base pointer spec sound.blocks (r, m, w)
      → r < fails
      → IsSound build base length (after r m w)
  granted-IsSound none r m w t (e, heap) lt = absurd (omega (arith, e, lt))
  granted-IsSound (some (p, bs)) r m w t (inr (c, e), heap) lt = absurd (omega (arith, e, lt))
  granted-IsSound (some (p, bs)) r m w t (inl e, heap) lt = record {
    blocks = bs;
    heap = heap;
    extent = omega (arith, sound.extent, t.same);
    held = (
      record {
        page = p;
        bytes = t.size;
        place = e;
        room = omega (arith, le, t.room);
        busy = t.here;
      },
      Held-map sound.blocks bs start s.live t.others sound.held,
    );
    apart = (
      subst (λ r. All (Disjoint (record { at = r; size = size })) s.live) (sym e)
          (taken-Disjoint need start sound.blocks p bs size t le s.live sound.held),
      sound.apart,
    );
  }

  pub refused-IsSound :
      (spec : Option (ℕ × List Block)) (r : ℕ) (m : Memory) (w : W)
      → Takes need start sound.blocks spec
      → Granted build base pointer spec sound.blocks (r, m, w)
      → fails ≤ r
      → IsSound build base length (record { memory = m; world = w; live = s.live })
  refused-IsSound none r m w t (e, heap) le = record {
    blocks = sound.blocks;
    heap = heap;
    extent = sound.extent;
    held = sound.held;
    apart = sound.apart;
  }
  refused-IsSound (some (p, bs)) r m w t (inl e, heap) le =
      absurd (omega (arith, e, le, taken_page p bs m t heap))
  refused-IsSound (some (p, bs)) r m w t (inr c, heap) le = record {
    blocks = bs;
    heap = heap;
    extent = omega (arith, sound.extent, t.same);
    held = Held-map sound.blocks bs start s.live t.others sound.held;
    apart = sound.apart;
  }
