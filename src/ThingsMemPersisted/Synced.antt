-- ===== src/ThingsMemPersisted/Synced.antt =====
-- A committer of things_mem_persisted.c whose calls of `msync` succeed.
use memthing.Base.{
  ◌∙◌, List, [], arith, false, ne→==, pos, refl, true, ℕ, ℤ, ◌%◌, ◌+◌, ◌<◌, ◌==◌, ◌^◌, ◌∷◌, ◌≡◌,
  ◌≢◌, ◌≤◌,
}
use memthing.Blocks.{Block}
use memthing.Fmem.{fmem_commit_user_data, to_int64, range, CommitRange, commit}
use memthing.ThingsMemPersisted.{committers, align_addr, the_committer, map_size}
use memthing.Heap.Commit.{fmem_commit_user_data-pointers, committed}
use memthing.Heap.Invariant.{IsHeap, fmem_at}
use memthing.Memory.{Memory, null}
use memthing.Page.{Build}
use memthing.System.{System, to_int}
use memthing.Things.{Run, done}
use memthing.ThingsMem.Init.{Saves}
use memthing.ThingsMemPersisted.Align.{align_addr-covers}

-- The process has not ended.
abbrev pub Runs : {W : Type 0} → Run W → Type 0
Runs {W} run = (v : W) × (run ≡ done v)

module _ {W : Type 0} (system : System W) (map_to : ℕ) (fd : ℤ) (page : 0 < system.getpagesize)
    (aligned : map_to % system.getpagesize ≡ 0) (high : map_to + map_size + 2 ^ 32 ≤ 2 ^ 64)
    (syncs : (start len : ℕ) (w : W) → (system.msync start len true w).0 ≡ pos 0) where
  to_int64_small : (n : ℕ) → n < 2 ^ 31 → to_int64 n ≡ pos n
  to_int64_small n lt = ground (arith, lt)

  to_int_small : (n : ℕ) → n < 2 ^ 31 → to_int n ≡ pos n
  to_int_small n lt = ground (arith, lt)

  -- One range inside the mapped memory is written, and left as it was aligned.
  the_committer-one :
      (r : CommitRange) (rest : List CommitRange) (w : W)
      → map_to ≤ r.start
      → r.start + r.len ≤ map_to + map_size
      → let a = align_addr system.getpagesize map_to r in
        (a.len < 2 ^ 31)
        × (v : W) × (the_committer system map_to fd (r ∷ rest) 1 w ≡ done (pos a.len, v, a ∷ rest))
  unfolding the_committer
  the_committer-one r rest w lo hi =
      let a = align_addr system.getpagesize map_to r in
      let (_, low, _, same) =
        align_addr-covers system.getpagesize map_to r page aligned lo (omega (arith, hi, high)) in
      let small : a.len < 2 ^ 31 = omega (arith, low, same, hi) in
      (
        small,
        (system.msync a.start a.len true w).1,
        rw (syncs a.start a.len w, to_int_small a.len small) refl,
      )

  pub commits-Saves :
      (pointer : ℕ)
      → pointer ≢ null
      → Saves (committers system map_to fd) Runs map_to map_size pointer
  unfolding commit
  commits-Saves pointer set m w p n rest e (v, run) lo hi =
      let called : ((m.fmem (fmem_at map_to)).committer == null) ≡ false =
        rw e (ne→== pointer null set) in
      let (_, u, wrote) = the_committer-one (range p n) rest v lo hi in
      (done u, rw (called, run, wrote) refl, (u, refl))

  -- What the allocator's own commits return.
  pub committed-synced :
      (build : Build) (m : Memory) (w : W) (start len : ℕ)
      → map_to ≤ start
      → start + len ≤ map_to + map_size
      → (v : W) × (committed (committers system map_to fd) build m (done w) map_to start len
          ≡ (pos len, done v))
  committed-synced build m w start len lo hi =
      let (_, u, wrote) = the_committer-one (range start len) [] w lo hi in (u, rw wrote refl)

  -- So does the commit of the user's pointers.
  pub user_data-synced :
      (build : Build) (m : Memory) (w : W) (bs : List Block)
      → IsHeap build m map_to bs
      → (m.fmem (fmem_at map_to)).committer ≢ null
      → (n : ℕ) × (v : W) × (fmem_commit_user_data
            (committers system map_to fd)
            build
            m
            (done w)
            (fmem_at map_to)
          ≡ (pos n, done v))
  user_data-synced build m w bs heap set =
      let (small, u, wrote) =
        the_committer-one (range (fmem_at map_to + 24) 32) [] w (omega arith) (omega arith) in
      let n = (align_addr system.getpagesize map_to (range (fmem_at map_to + 24) 32)).len in
      (
        n,
        u,
        fmem_commit_user_data-pointers (committers system map_to fd) build m (done w) map_to bs heap
              set
            ∙ rw (wrote, to_int64_small n small) refl,
      )
