-- ===== src/Sessions/Released.antt =====
-- The calls of a session other than `fmem_alloc`, in a sound state.
use memthing.Base.{
  All, List, Option, ap, arith, inl, inr, none, pos, some, subst, sym, true, ℕ, ℤ, ◌++◌, ◌+◌, ◌<◌,
  ◌∙◌, ◌∷◌, ◌≡◌, ◌≤◌, ◌⊎◌,
}
use memthing.Blocks.{Block, overhead, release, total}
use memthing.Blocks.Busy.{BusyAt-Found, Found, between}
use memthing.Blocks.Release.{total-release}
use memthing.Blocks.Row.{total-append}
use memthing.Fmem.{Committers, e_commit_failed, fmem_free, fmem_from_existing}
use memthing.Heap.Existing.{fmem_from_existing-IsHeap}
use memthing.Heap.Free.{fmem_free-release}
use memthing.Heap.Invariant.{IsAccount, IsHeap, IsRow-set_fmem, fmem_at, head_size}
use memthing.Heap.Lock.{fmem-set_fmem}
use memthing.Memory.{Memory}
use memthing.Page.{Build}
use memthing.Sessions.{AllDisjoint, Allocation, Disjoint, Session, stash}
use memthing.Sessions.Live.{All-remove, AllDisjoint-remove, Held, release-Held_each}
use memthing.Sessions.Safety.{IsSound}

-- A run that returns one thing returns no other.
pub same_out :
    {A : Type 0} {run : Option A} (out out' : A) → run ≡ some out → run ≡ some out' → out ≡ out'
same_out out out' e d = ap (or_else out) (sym e ∙ d)
  where
    or_else : {A : Type 0} → A → Option A → A
    or_else a none = a
    or_else a (some b) = b

-- The user's pointers are no part of the allocator.
pub stash-IsHeap :
    (build : Build) (m : Memory) (base : ℕ) (bs : List Block) (user1 user2 user3 user4 : ℕ)
    → IsHeap build m base bs
    → IsHeap build (stash m (fmem_at base) user1 user2 user3 user4) base bs
stash-IsHeap build m base bs user1 user2 user3 user4 h =
    let fm = fmem_at base in
    let a = h.account in
    let f = record (m.fmem fm) { user1 = user1; user2 = user2; user3 = user3; user4 = user4 } in
    let e = fmem-set_fmem m fm f in
    record {
      row = IsRow-set_fmem build m base bs fm f h.row;
      account =
          subst (λ f. IsAccount base f bs) (sym e)
            (record {
              span = a.span;
              small = a.small;
              fits = a.fits;
              least = a.least;
              most = a.most;
              available = a.available;
              objects = a.objects;
            });
      unlocked = ap (λ f. f.lock) e ∙ h.unlocked;
    }

module _ {W : Type 0} (committers : Committers W) (build : Build) (fuel base length : ℕ)
    (some_fuel : 0 < fuel) (s : Session W) (sound : IsSound build base length s) where
  abbrev start : ℕ
  start = base + head_size

  -- A live allocation is behind the header of a busy block.
  pub data Place (a : Allocation) : Type 0 where
    behind :
        (xs : List Block) (b : Block) (ys : List Block)
        → sound.blocks ≡ xs ++ b ∷ ys
        → b.busy ≡ true
        → a.at ≡ start + total xs + overhead
        → a.size + overhead ≤ b.size
        → Place a

  pub held-Place : (a : Allocation) → Held sound.blocks start a → Place a
  held-Place a h = by (BusyAt-Found sound.blocks start h.page h.bytes h.busy)
    where
      by : Found sound.blocks start h.page h.bytes → Place a
      by (between xs b ys e busy d n) =
          behind xs b ys e busy (omega (arith, h.place, d)) (omega (arith, h.room, n))

  -- Giving back a held allocation comes to an end.
  pub freed-returns :
      (a : Allocation)
      → Held sound.blocks start a
      → (out : ℤ × Memory × W) × (fmem_free committers build fuel s.memory s.world
            (fmem_at base)
            a.at
          ≡ some out)
        × ((out.0 ≡ e_commit_failed) ⊎ ((n : ℕ) × (a.size + overhead ≤ n) × (out.0 ≡ pos n)))
  freed-returns a h = by (held-Place a h)
    where
      by :
          Place a
          → (out : ℤ × Memory × W) × (fmem_free committers build fuel s.memory s.world
                (fmem_at base)
                a.at
              ≡ some out)
            × ((out.0 ≡ e_commit_failed) ⊎ ((n : ℕ) × (a.size + overhead ≤ n) × (out.0 ≡ pos n)))
      by (behind us b vs e busy at room) =
          let heap = subst (IsHeap build s.memory base) e sound.heap in
          let (out, returns, ends) =
            fmem_free-release committers build s.memory s.world base us b vs fuel heap busy
              some_fuel in
          let call = λ (p : ℕ). fmem_free committers build fuel s.memory s.world (fmem_at base) p in
          (
            out,
            ap call at ∙ returns,
            elim ends.0 [ inl e ↦ inr (b.size, room, e) | inr (c, e) ↦ inl e ],
          )

  -- Giving a live allocation back.
  pub given_back-IsSound :
      (xs : List Allocation) (a : Allocation) (ys : List Allocation) (r : ℤ) (m : Memory) (w : W)
      → s.live ≡ xs ++ a ∷ ys
      → fmem_free committers build fuel s.memory s.world (fmem_at base) a.at ≡ some (r, m, w)
      → IsSound build base length (record { memory = m; world = w; live = xs ++ ys })
  given_back-IsSound xs a ys r m w live run =
      let held = subst (All (Held sound.blocks start)) live sound.held in
      let apart = subst AllDisjoint live sound.apart in
      let (one, rest) = All-remove (Held sound.blocks start) xs a ys held in
      let (away, others) = AllDisjoint-remove xs a ys apart in
      by one rest away others (held-Place a one)
    where
      by :
          Held sound.blocks start a
          → All (Held sound.blocks start) (xs ++ ys)
          → All (Disjoint a) (xs ++ ys)
          → AllDisjoint (xs ++ ys)
          → Place a
          → IsSound build base length (record { memory = m; world = w; live = xs ++ ys })
      by one rest away others (behind us b vs e busy at room) =
          let heap = subst (IsHeap build s.memory base) e sound.heap in
          let (out, returns, ends) =
            fmem_free-release committers build s.memory s.world base us b vs fuel heap busy
              some_fuel in
          let call = λ (p : ℕ). fmem_free committers build fuel s.memory s.world (fmem_at base) p in
          let same = same_out out (r, m, w) (ap call at ∙ returns) run in
          record {
            blocks = release us b.size vs;
            heap = subst (λ o. IsHeap build o.1 base (release us b.size vs)) same ends.1;
            extent = omega (
              arith,
              total-release us b.size vs,
              total-append us (b ∷ vs),
              ap total e,
              sound.extent,
            );
            held =
                release-Held_each start us b vs a at (xs ++ ys) away
                  (subst (λ bs. All (Held bs start) (xs ++ ys)) e rest);
            apart = others;
          }

  -- Writing the user's pointers.
  pub stash-IsSound :
      (user1 user2 user3 user4 : ℕ)
      → IsSound build base length
          (record s { memory = stash s.memory (fmem_at base) user1 user2 user3 user4 })
  stash-IsSound user1 user2 user3 user4 = record {
    blocks = sound.blocks;
    heap = stash-IsHeap build s.memory base sound.blocks user1 user2 user3 user4 sound.heap;
    extent = sound.extent;
    held = sound.held;
    apart = sound.apart;
  }

  -- Opening the allocator again.
  pub opened-IsSound :
      (committer : ℕ)
      → IsSound build base length
          (record s { memory = (fmem_from_existing build s.memory base committer).1 })
  opened-IsSound committer = record {
    blocks = sound.blocks;
    heap =
        (fmem_from_existing-IsHeap build s.memory base sound.blocks committer
          (record { row = sound.heap.row; account = sound.heap.account })).2;
    extent = sound.extent;
    held = sound.held;
    apart = sound.apart;
  }
