-- ===== src/Heap/Free.antt =====
-- `fmem_free` gives a busy block of the row back.
use memthing.Heap.GiveBack.{give_page-IsRow, give_page-account, free-run, free-value}
use memthing.Base.{
  List, arith, if◌then◌else◌, pos, some, subst, sym, true, ℕ, ℤ, ◌++◌, ◌+◌, ◌<◌, ◌∷◌, ◌≡◌, ◌≢◌, ◌⊎◌,
}
use memthing.Blocks.{Block, busy_count, free_bytes, release, total}
use memthing.Blocks.Release.{busy_count-release, free_bytes-release, total-release}
use memthing.Blocks.Row.{busy_count-append, free_bytes-append, total-append}
use memthing.Fmem.{
  Committers, commit, e_commit_failed, fmem_free, fmem_unlock, free_ranges, give_page,
}
use memthing.Heap.Account.{given-IsAccount}
use memthing.Heap.Invariant.{IsAccount, IsHeap, fmem_at, head_size}
use memthing.Heap.Lock.{IsHeld, lock-IsHeld, unlock-IsHeap, with_lock}
use memthing.Memory.{Memory, null}
use memthing.Page.{Build}

free_bytes-middle :
    (xs : List Block) (b : Block) (ys : List Block)
    → b.busy ≡ true
    → free_bytes (xs ++ b ∷ ys) ≡ free_bytes xs + free_bytes ys
free_bytes-middle xs b ys busy = ground (arith, free_bytes-append xs (b ∷ ys))

busy_count-middle :
    (xs : List Block) (b : Block) (ys : List Block)
    → b.busy ≡ true
    → busy_count (xs ++ b ∷ ys) ≡ busy_count xs + busy_count ys + 1
busy_count-middle xs b ys busy = ground (arith, busy_count-append xs (b ∷ ys))

pub give_page-IsHeld :
    (build : Build) (m : Memory) (base : ℕ) (xs : List Block) (b : Block) (ys : List Block)
    → IsHeld build m base (xs ++ b ∷ ys)
    → b.busy ≡ true
    → IsHeld build
        (give_page m (fmem_at base) (base + head_size + total xs)).0
        base
        (release xs b.size ys)
give_page-IsHeld build m base xs b ys h busy =
    let bytes = total-append xs (b ∷ ys) in
    let row = give_page-IsRow build m base xs b ys h in
    record {
      row = row;
      account =
          subst (λ f. IsAccount base f (release xs b.size ys))
            (sym (give_page-account build m base xs b ys h))
            (given-IsAccount base (m.fmem (fmem_at base)) (xs ++ b ∷ ys) (release xs b.size ys)
              b.size (omega (arith, total-release xs b.size ys, bytes)) row.sized h.account
              (omega (arith, free_bytes-release xs b.size ys, free_bytes-middle xs b ys busy))
              (omega (arith, busy_count-release xs b.size ys, busy_count-middle xs b ys busy)));
    }

module _ {W : Type 0} (committers : Committers W) (build : Build) (m : Memory) (w : W) (base : ℕ)
    (xs : List Block) (b : Block) (ys : List Block) where
  -- What a call of `fmem_free` on the block returns and leaves.
  abbrev pub Released : ℤ × Memory × W → Type 0
  Released (r, m', w') =
      ((r ≡ pos b.size) ⊎ (((m.fmem (fmem_at base)).committer ≢ null) × (r ≡ e_commit_failed)))
      × IsHeap build m' base (release xs b.size ys)

  -- On a well-formed allocator, `fmem_free` of the address behind a busy block's header returns,
  -- whatever the neighbours are. It returns the size of the block, header included, or, if there is
  -- a committer, perhaps the error of the commit; and in both cases it leaves the allocator well
  -- formed with the block free and joined with its free neighbours, as `release` says.
  pub fmem_free-release :
      (fuel : ℕ)
      → IsHeap build m base (xs ++ b ∷ ys)
      → b.busy ≡ true
      → 0 < fuel
      → (out : ℤ × Memory × W) × (fmem_free committers build fuel m w
            (fmem_at base)
            (base + head_size + total xs + 24)
          ≡ some out)
        × Released out
  fmem_free-release fuel h busy some_fuel =
      let page : ℕ = base + head_size + total xs in
      let fm = fmem_at base in
      let m1 = with_lock 1 m fm in
      let held = lock-IsHeld build m base (xs ++ b ∷ ys) h in
      let (m2, modified) = give_page m1 fm page in
      let run = commit committers m2 w fm (free_ranges m2 page modified) 3 in
      (
        (if run.0 then pos b.size else e_commit_failed, fmem_unlock m2 fm, run.1),
        free-run committers build m w base xs b ys fuel h some_fuel,
        (
          free-value committers build m w base xs b ys,
          unlock-IsHeap build m2 base (release xs b.size ys)
              (give_page-IsHeld build m1 base xs b ys held busy),
        ),
      )
