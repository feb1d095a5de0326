-- ===== src/Sessions/Leaks.antt =====
-- What a session has taken and lost, and what is left when it has given all back.
use memthing.Fmem.{adjusted_alloc, Committers, fmem_free}
use memthing.Blocks.{Block, block, first_fit, total, busy_count, release}
use memthing.Heap.Grant.{Granted}
use memthing.Heap.Tidy.{first_fit-Apart}
use memthing.Sessions.Exact.{take-IsExact, refuse-IsExact}
use memthing.Sessions.Counted.{first_fit-Counted, lost, IsExact, IsExact-row, lost_at}
use memthing.Sessions.Takes.{first_fit-Takes}
use memthing.Sessions.{Step, Steps, Allocation, Session}
use memthing.Sessions.Released.{behind, Place, held-Place, same_out, stash-IsHeap}
use memthing.Sessions.Reachable.{Steps-IsSound, alloc-Grants, needs}
use memthing.Base.{
  [], false, ◌<◌, All, List, ap, arith, length, length-append, some, subst, ℕ, ℤ, ◌++◌, ◌+◌, ◌^◌,
  ◌∙◌, ◌∷◌, ◌≡◌, ◌≤◌,
}
use memthing.Blocks.Apart.{Apart, release-Apart}
use memthing.Blocks.Release.{busy_count-release}
use memthing.Blocks.Row.{busy_count-append}
use memthing.Heap.Existing.{fmem_from_existing-IsHeap}
use memthing.Heap.Free.{fmem_free-release}
use memthing.Heap.Invariant.{IsHeap, fmem_at, head_size}
use memthing.Memory.{Memory}
use memthing.Page.{Build}
use memthing.Sessions.Live.{All-remove, Held}
use memthing.Sessions.Safety.{IsSound}

module _ {W : Type 0} (committers : Committers W) (build : Build) (fuel base bytes : ℕ)
    (enough : 2 ^ 28 ≤ fuel) where
  given_back-IsExact :
      {s : Session W} (k : ℕ) (xs : List Allocation) (a : Allocation) (ys : List Allocation) (r : ℤ)
      (m : Memory) (w : W)
      → s.live ≡ xs ++ a ∷ ys
      → fmem_free committers build fuel s.memory s.world (fmem_at base) a.at ≡ some (r, m, w)
      → IsSound build base bytes s
      → IsExact build base k s
      → IsExact build base k (record { memory = m; world = w; live = xs ++ ys })
  given_back-IsExact {s} k xs a ys r m w live run sound exact =
      let start = base + head_size in
      let held = subst (All (Held sound.blocks start)) live sound.held in
      let one = (All-remove (Held sound.blocks start) xs a ys held).0 in
      let (apart, counted) = IsExact-row build base k s sound.blocks sound.heap exact in
      by apart counted
        (held-Place committers build fuel base bytes (omega (arith, enough)) s sound a one)
    where
      by :
          Apart sound.blocks
          → busy_count sound.blocks ≡ length s.live + k
          → Place committers build fuel base bytes (omega (arith, enough)) s sound a
          → IsExact build base k (record { memory = m; world = w; live = xs ++ ys })
      by apart counted (behind us b vs e busy at room) =
          let heap = subst (IsHeap build s.memory base) e sound.heap in
          let (out, returns, ends) =
            fmem_free-release committers build s.memory s.world base us b vs fuel heap busy
              (omega (arith, enough)) in
          let call = λ (p : ℕ). fmem_free committers build fuel s.memory s.world (fmem_at base) p in
          let same = same_out out (r, m, w) (ap call at ∙ returns) run in
          record {
            blocks = release us b.size vs;
            heap = subst (λ o. IsHeap build o.1 base (release us b.size vs)) same ends.1;
            apart = release-Apart us b vs busy (subst Apart e apart);
            counted = ground (
              arith,
              ap length live,
              length-append xs (a ∷ ys),
              length-append xs ys,
              busy_count-release us b.size vs,
              busy_count-append us (b ∷ vs),
              ap busy_count e,
            );
          }

  Step-IsExact :
      {s t : Session W} (k : ℕ) (step : Step committers build fuel base s t)
      → IsSound build base bytes s
      → IsExact build base k s
      → IsExact build base (k + lost_at committers build fuel base step) t
  Step-IsExact {s} k (Step.granted size r m w small run lt) sound exact =
      let fm = fmem_at base in
      let start = base + head_size in
      let need = adjusted_alloc s.memory fm size in
      let pointer = (s.memory.fmem fm).committer in
      let spec = first_fit need start sound.blocks in
      let (out, returns, ends) =
        alloc-Grants committers build fuel base bytes enough s sound size small in
      let (least, le) = needs committers build fuel base bytes enough s sound size in
      let row = IsExact-row build base k s sound.blocks sound.heap exact in
      subst
        (λ k.
          IsExact build base k
            (record { memory = m; world = w; live = (record { at = r; size = size }) ∷ s.live }))
        (omega arith)
        (take-IsExact build base size s need least le bytes pointer k sound exact spec r m w
          (first_fit-Apart need start sound.blocks row.0)
          (first_fit-Counted need start sound.blocks)
          (subst (Granted build base pointer spec sound.blocks) (same_out out (r, m, w) returns run)
            ends)
          lt)
  Step-IsExact {s} k (Step.refused size r m w small run ge) sound exact =
      let fm = fmem_at base in
      let start = base + head_size in
      let need = adjusted_alloc s.memory fm size in
      let pointer = (s.memory.fmem fm).committer in
      let spec = first_fit need start sound.blocks in
      let (out, returns, ends) =
        alloc-Grants committers build fuel base bytes enough s sound size small in
      let (least, le) = needs committers build fuel base bytes enough s sound size in
      let row = IsExact-row build base k s sound.blocks sound.heap exact in
      refuse-IsExact build base size s need least le bytes pointer k sound exact spec r m w
        (first_fit-Takes need start sound.blocks sound.heap.row.sized)
        (first_fit-Apart need start sound.blocks row.0) (first_fit-Counted need start sound.blocks)
        (subst (Granted build base pointer spec sound.blocks) (same_out out (r, m, w) returns run)
          ends)
        ge
  Step-IsExact {s} k (Step.given_back xs a ys r m w live run) sound exact =
      subst (λ k. IsExact build base k (record { memory = m; world = w; live = xs ++ ys }))
        (omega arith) (given_back-IsExact k xs a ys r m w live run sound exact)
  Step-IsExact {s} k (Step.user_data u1 u2 u3 u4) sound exact = record {
    blocks = exact.blocks;
    heap = stash-IsHeap build s.memory base exact.blocks u1 u2 u3 u4 exact.heap;
    apart = exact.apart;
    counted = omega (arith, exact.counted);
  }
  Step-IsExact {s} k Step.user_data_saved sound exact = record {
    blocks = exact.blocks;
    heap = exact.heap;
    apart = exact.apart;
    counted = omega (arith, exact.counted);
  }
  Step-IsExact {s} k (Step.saved mem len) sound exact = record {
    blocks = exact.blocks;
    heap = exact.heap;
    apart = exact.apart;
    counted = omega (arith, exact.counted);
  }
  Step-IsExact {s} k (Step.opened committer) sound exact = record {
    blocks = exact.blocks;
    heap =
        (fmem_from_existing-IsHeap build s.memory base exact.blocks committer
          (record { row = exact.heap.row; account = exact.heap.account })).2;
    apart = exact.apart;
    counted = omega (arith, exact.counted);
  }

  pub Steps-IsExact :
      {s t : Session W} (steps : Steps committers build fuel base s t)
      → IsSound build base bytes s
      → IsExact build base 0 s
      → IsExact build base (lost committers build fuel base steps) t
  Steps-IsExact Steps.stay sound exact = exact
  Steps-IsExact (Steps.then_ before step) sound exact =
      Step-IsExact (lost committers build fuel base before) step
        (Steps-IsSound committers build fuel base bytes enough before sound)
        (Steps-IsExact before sound exact)

-- A row without busy blocks and without neighbouring free blocks is one free block.
pub one_free :
    (bs : List Block)
    → Apart bs
    → busy_count bs ≡ 0
    → 0 < total bs
    → bs ≡ block (total bs) false ∷ []
one_free [] a c lt = absurd (omega (arith, lt))
one_free (x ∷ []) a c lt = ap (λ b. b ∷ []) (ground (arith, c))
one_free (x ∷ y ∷ ys) a c lt = absurd (ground (arith, a.0, c))
