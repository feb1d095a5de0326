-- ===== src/ThingsMem/Init.antt =====
-- The allocator of things_mem.c does what `make_wellknown_things` needs.
use memthing.Base.{
  All, All-map, Fresh, List, [], ap, arith, false, inl, inr, none, refl, some, subst, suc, sym,
  true, ℕ, ◌*◌, ◌+◌, ◌-◌, ◌<◌, ◌^◌, ◌∙◌, ◌∷◌, ◌≡◌, ◌≢◌, ◌≤◌,
}
use memthing.Blocks.{Block, block}
use memthing.Blocks.Busy.{BusyAt-range}
use memthing.Fmem.{CommitRange, Committers, alloc_ranges, commit, fmem_alloc, range}
use memthing.Heap.Invariant.{IsHeap, fmem_at, head_size}
use memthing.Memory.{Memory, list_entry, list_of, null}
use memthing.Page.{Build}
use memthing.System.{System}
use memthing.Things.{Store, with_memory}
use memthing.Things.Make.{IsLawful, OnlyAt, SameThing}
use memthing.ThingsMem.{alloc_using_fm}
use memthing.Heap.Gives.{
  after-IsHeap, after-fixed, after-links, after_alloc, alloc-run, commit_none, taken_page,
  taken_page-committer,
}
use memthing.ThingsMem.Owned.{OnlyAt-IsHeap, Owned}

-- The memory that the allocator has is large enough for `n` more things, and what was given is in
-- busy blocks behind the free one. It has all `bytes`, and its committer is `pointer`.
pub record IsOwner (build : Build) (base bytes pointer n : ℕ) (s : Store) (taken : List ℕ)
    : Type 0 where
  pub free_size : ℕ
  pub others : List Block
  pub heap : IsHeap build s.memory base (block free_size false ∷ others)
  pub room : 48 * n + 48 < free_size
  pub least : (s.memory.fmem (fmem_at base)).min_alloc ≡ 24
  pub committer : (s.memory.fmem (fmem_at base)).committer ≡ pointer
  pub size : (s.memory.fmem (fmem_at base)).total_size ≡ bytes
  pub owned : All (Owned others (base + head_size + free_size)) taken

-- In worlds that are `Ok`, the commit of one range inside the memory does not fail.
abbrev pub Saves :
    {W : Type 0} → Committers W → (Ok : W → Type 0) → (base bytes pointer : ℕ) → Type 0
Saves {W} committers Ok base bytes pointer =
    (m : Memory) (w : W) (p n : ℕ) (rest : List CommitRange)
    → (m.fmem (fmem_at base)).committer ≡ pointer
    → Ok w
    → base ≤ p
    → p + n ≤ base + bytes
    → (v : W) × (commit committers m w (fmem_at base) (range p n ∷ rest) 1 ≡ (true, v)) × Ok v

Owned-behind :
    (b : Block) (others : List Block) (start : ℕ) (taken : List ℕ)
    → All (Owned others (start + b.size)) taken
    → All (Owned (b ∷ others) start) taken
Owned-behind b others start taken =
    All-map (Owned others (start + b.size)) (Owned (b ∷ others) start)
      (λ x o. record {
        page = o.page;
        bytes = o.bytes;
        place = o.place;
        room = o.room;
        busy = inr o.busy;
      })
      taken

module _ {W : Type 0} (committers : Committers W) (build : Build) (fuel : ℕ)
    (enough : 2 ^ 28 ≤ fuel) (base bytes pointer : ℕ) where
  abbrev fm : ℕ
  fm = fmem_at base

  abbrev start : ℕ
  start = base + head_size

  abbrev Good : ℕ → Store → List ℕ → Type 0
  Good n s taken = IsOwner build base bytes pointer n s taken

  -- The next call of `fmem_alloc` for a thing.
  pub fmem_alloc-gives :
      {Ok : W → Type 0} (saves : Saves committers Ok base bytes pointer) (n : ℕ) (s : Store) (w : W)
      (taken : List ℕ)
      → Good (suc n) s taken
      → Ok w
      → (out : ℕ × Memory × W) × (fmem_alloc committers build fuel s.memory w fm 24 ≡ some out)
        × (out.0 ≢ null)
        × Fresh out.0 taken
        × All (SameThing s (with_memory s out.1)) taken
        × Good n (with_memory s out.1) (out.0 ∷ taken)
        × Ok out.2
  unfolding alloc_ranges
  fmem_alloc-gives saves n s w taken g ok =
      let large : 96 < g.free_size = omega (arith, g.room) in
      let rest : ℕ = g.free_size - 48 in
      let before = taken_page build s.memory base g.free_size 24 in
      let span = g.heap.account.span in
      let list = list_of (start + rest) in
      let (v, commits, ok') =
        saves before w (start + rest) 24
          (range (list_entry (before.prev list)) 24 ∷ range (before.next list) 16 ∷ [])
          (taken_page-committer build s.memory base g.free_size 24 ∙ g.committer) ok (omega arith)
          (omega (arith, span, g.size, large)) in
      let m =
        after_alloc committers build fuel enough s.memory w v base g.free_size g.others g.heap 24
          (omega arith) large g.least commits in
      let run =
        alloc-run committers build fuel enough s.memory w v base g.free_size g.others g.heap 24
          (omega arith) large g.least commits in
      let fixed =
        after-fixed committers build fuel enough s.memory w v base g.free_size g.others g.heap 24
          (omega arith) large g.least commits in
      let heap =
        after-IsHeap committers build fuel enough s.memory w v base g.free_size g.others g.heap 24
          (omega arith) large g.least commits in
      let place : start + rest + 48 ≡ start + g.free_size = omega (arith, large) in
      let sized = g.heap.row.sized.1 in
      (
        (start + rest + 24, m, v),
        run,
        omega arith,
        All-map (Owned g.others (start + g.free_size)) (λ x. start + rest + 24 ≢ x)
            (λ x o.
              let range = BusyAt-range g.others (start + g.free_size) o.page o.bytes sized o.busy in
              omega (arith, o.place, range.0, large))
            taken g.owned,
        All-map (Owned g.others (start + g.free_size)) (SameThing s (with_memory s m))
            (λ x o.
              let (next, prev) =
                after-links committers build fuel enough s.memory w v base g.free_size g.others
                  g.heap 24 (omega arith) large g.least commits o.page o.bytes o.busy in
              subst (SameThing s (with_memory s m)) (sym o.place) (next, prev, refl, refl))
            taken g.owned,
        record {
          free_size = rest;
          others = block 48 true ∷ g.others;
          heap = heap;
          room = omega (arith, g.room);
          least = fixed.1;
          committer = fixed.0 ∙ g.committer;
          size = omega (arith, heap.account.span, span, g.size, large);
          owned = (
            record {
              page = start + rest;
              bytes = 48;
              place = refl;
              room = omega arith;
              busy = inl (refl, refl, refl);
            },
            Owned-behind (block 48 true) g.others (start + rest) taken
                (subst (λ k. All (Owned g.others k) taken) (sym place) g.owned),
          );
        },
        ok',
      )

  pub OnlyAt-IsOwner :
      (n : ℕ) (s t : Store) (taken : List ℕ) → Good n s taken → OnlyAt taken s t → Good n t taken
  OnlyAt-IsOwner n s t taken g only =
      let here = ap (λ f. f fm) only.fmem in
      record {
        free_size = g.free_size;
        others = g.others;
        heap =
            OnlyAt-IsHeap build base (block g.free_size false ∷ g.others) taken s t
              (Owned-behind (block g.free_size false) g.others start taken g.owned) only g.heap;
        room = g.room;
        least = ap (λ f. f.min_alloc) here ∙ g.least;
        committer = ap (λ f. f.committer) here ∙ g.committer;
        size = ap (λ f. f.total_size) here ∙ g.size;
        owned = g.owned;
      }

-- Without a committer, and without a callback.
pub alloc-IsLawful :
    {W : Type 0} (system : System W) (committers : Committers W) (build : Build) (fuel : ℕ)
    (enough : 2 ^ 28 ≤ fuel) (base bytes : ℕ)
    → IsLawful
        (alloc_using_fm system committers build fuel (fmem_at base))
        none
        (λ n s w taken. IsOwner build base bytes null n s taken)
alloc-IsLawful {W = W} system committers build fuel enough base bytes = record {
  gives = λ n s w taken g.
      let (out, run, set, fresh, same, good, _) =
        fmem_alloc-gives committers build fuel enough base bytes null {Ok = λ w. Unit}
          (λ m w p k rest e ok lo hi.
            (w, commit_none committers m w (fmem_at base) (range p k ∷ rest) 1 e, tt))
          n s w taken g tt in
      ((out.0, with_memory s out.1, out.2), rw (run, alloc_using_fm) refl, set, fresh, same, good);
  writes = λ n s t w taken g only.
      OnlyAt-IsOwner committers build fuel enough base bytes null n s t taken g only;
  tells = λ n s w taken each g i. (w, refl, g);
}
