-- ===== src/Sessions/Reachable.antt =====
-- Every state that a session can reach.
use memthing.Base.{arith, subst, ℕ, ◌+◌, ◌<◌, ◌^◌, ◌≤◌}
use memthing.Blocks.{first_fit}
use memthing.Fmem.{Committers, adjusted_alloc, fmem_alloc}
use memthing.Heap.Grant.{Granted, Grants, fmem_alloc-first_fit}
use memthing.Heap.Invariant.{fmem_at, head_size}
use memthing.Page.{Build}
use memthing.Sessions.{Session, Step, Steps}
use memthing.Sessions.Released.{given_back-IsSound, opened-IsSound, same_out, stash-IsSound}
use memthing.Sessions.Safety.{IsSound, granted-IsSound, length-bound, refused-IsSound}
use memthing.Sessions.Takes.{first_fit-Takes}

module _ {W : Type 0} (committers : Committers W) (build : Build) (fuel base length : ℕ)
    (enough : 2 ^ 28 ≤ fuel) where
  abbrev start : ℕ
  start = base + head_size

  abbrev world_only :
      (s : Session W) (w : W)
      → IsSound build base length s
      → IsSound build base length (record s { world = w })
  world_only s w sound = record {
    blocks = sound.blocks;
    heap = sound.heap;
    extent = sound.extent;
    held = sound.held;
    apart = sound.apart;
  }

  module _ (s : Session W) (sound : IsSound build base length s) where
    abbrev fm : ℕ
    fm = fmem_at base

    -- A call of `fmem_alloc` does what first fit does.
    pub alloc-Grants :
        (size : ℕ)
        → size < 2 ^ 32
        → Grants build base
            (s.memory.fmem fm).committer
            (first_fit (adjusted_alloc s.memory fm size) start sound.blocks)
            sound.blocks
            (fmem_alloc committers build fuel s.memory s.world fm size)
    alloc-Grants size small =
        fmem_alloc-first_fit committers build s.memory s.world base sound.blocks fuel size
          sound.heap
          (omega (
            arith,
            enough,
            length-bound sound.blocks sound.heap.row.sized,
            sound.heap.account.span,
            sound.heap.account.small,
          ))
          small

    pub needs :
        (size : ℕ)
        → (24 ≤ adjusted_alloc s.memory fm size) × (size ≤ adjusted_alloc s.memory fm size)
    needs size = (ground (arith, sound.heap.account.least), ground arith)

  Step-IsSound :
      {s t : Session W}
      → Step committers build fuel base s t
      → IsSound build base length s
      → IsSound build base length t
  Step-IsSound {s} (Step.granted size r m w small run lt) sound =
      let spec = first_fit (adjusted_alloc s.memory (fmem_at base) size) start sound.blocks in
      let need = adjusted_alloc s.memory (fmem_at base) size in
      let pointer = (s.memory.fmem (fmem_at base)).committer in
      let (out, returns, ends) = alloc-Grants s sound size small in
      let (least, le) = needs s sound size in
      granted-IsSound build base size s need least le length pointer sound spec r m w
        (first_fit-Takes need start sound.blocks sound.heap.row.sized)
        (subst (Granted build base pointer spec sound.blocks) (same_out out (r, m, w) returns run)
          ends)
        lt
  Step-IsSound {s} (Step.refused size r m w small run lt) sound =
      let spec = first_fit (adjusted_alloc s.memory (fmem_at base) size) start sound.blocks in
      let need = adjusted_alloc s.memory (fmem_at base) size in
      let pointer = (s.memory.fmem (fmem_at base)).committer in
      let (out, returns, ends) = alloc-Grants s sound size small in
      let (least, le) = needs s sound size in
      refused-IsSound build base size s need least le length pointer sound spec r m w
        (first_fit-Takes need start sound.blocks sound.heap.row.sized)
        (subst (Granted build base pointer spec sound.blocks) (same_out out (r, m, w) returns run)
          ends)
        lt
  Step-IsSound {s} (Step.given_back xs a ys r m w live run) sound =
      given_back-IsSound committers build fuel base length (omega (arith, enough)) s sound xs a ys r
        m w live run
  Step-IsSound {s} (Step.user_data u1 u2 u3 u4) sound =
      stash-IsSound committers build fuel base length (omega (arith, enough)) s sound u1 u2 u3 u4
  Step-IsSound {s} Step.user_data_saved sound = world_only s _ sound
  Step-IsSound {s} (Step.saved mem len) sound = world_only s _ sound
  Step-IsSound {s} (Step.opened committer) sound =
      opened-IsSound committers build fuel base length (omega (arith, enough)) s sound committer

  pub Steps-IsSound :
      {s t : Session W}
      → Steps committers build fuel base s t
      → IsSound build base length s
      → IsSound build base length t
  Steps-IsSound Steps.stay sound = sound
  Steps-IsSound (Steps.then_ before step) sound = Step-IsSound step (Steps-IsSound before sound)
