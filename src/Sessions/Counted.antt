-- ===== src/Sessions/Counted.antt =====
-- The busy blocks of a session's allocator: one for each live allocation, and one for each page
-- whose commit failed after it was taken.
use memthing.Sessions.{Steps, Step, Session}
use memthing.Base.{
  List, Option, ap, arith, false, if◌then◌else◌, length, none, some, subst, sym, to_ptr, true, ℕ,
  ◌+◌, ◌-◌, ◌==◌, ◌∷◌, ◌≡◌,
}
use memthing.Blocks.{Block, block, busy_count, first_fit}
use memthing.Blocks.Apart.{Apart}
use memthing.Blocks.Row.{busy_count-append}
use memthing.Fmem.{Committers, e_commit_failed}
use memthing.Heap.Carve.{}
use memthing.Heap.Invariant.{IsHeap}
use memthing.Heap.Search.{nothing, search, split, whole}
use memthing.Heap.Unique.{IsHeap-unique}
use memthing.Page.{Build}

module _ {W : Type 0} (committers : Committers W) (build : Build) (fuel base : ℕ) where
  -- The calls of `fmem_alloc` that took a page and returned the error of its commit.
  abbrev pub lost_at : {s t : Session W} → Step committers build fuel base s t → ℕ
  lost_at (Step.granted size r m w small run lt) = 0
  lost_at (Step.refused size r m w small run le) = if r == to_ptr e_commit_failed then 1 else 0
  lost_at (Step.given_back xs a ys r m w live run) = 0
  lost_at (Step.user_data user1 user2 user3 user4) = 0
  lost_at Step.user_data_saved = 0
  lost_at (Step.saved mem len) = 0
  lost_at (Step.opened committer) = 0

  abbrev pub lost : {s t : Session W} → Steps committers build fuel base s t → ℕ
  lost Steps.stay = 0
  lost (Steps.then_ before step) = lost before + lost_at step

-- What first fit makes of the number of busy blocks.
abbrev pub CountedBy : ℕ → Option (ℕ × List Block) → Type 0
CountedBy n none = Unit
CountedBy n (some (p, bs)) = busy_count bs ≡ n + 1

pub first_fit-Counted :
    (need a : ℕ) (bs : List Block) → CountedBy (busy_count bs) (first_fit need a bs)
first_fit-Counted need a bs = elim (search need a bs) [
  | nothing _ f ↦ subst (CountedBy (busy_count bs)) (sym f) tt
  | whole xs b ys c unused fits _ f ↦ subst (CountedBy (busy_count bs)) (sym f) (
      ground (
        arith,
        ap busy_count c,
        busy_count-append xs (b ∷ ys),
        busy_count-append xs (block b.size true ∷ ys),
      ))
  | split xs b ys c unused large _ f ↦
      let parts = block (b.size - (need + 24)) false ∷ block (need + 24) true ∷ ys in
      subst (CountedBy (busy_count bs)) (sym f)
        (ground (arith, ap busy_count c, busy_count-append xs (b ∷ ys), busy_count-append xs parts))
]

-- The row of the allocator has no neighbouring free blocks, and a busy block for each live
-- allocation and `k` more.
pub record IsExact {W : Type 0} (build : Build) (base k : ℕ) (s : Session W) : Type 0 where
  pub blocks : List Block
  pub heap : IsHeap build s.memory base blocks
  pub apart : Apart blocks
  pub counted : busy_count blocks ≡ length s.live + k

-- The same of the row that is known.
pub IsExact-row :
    {W : Type 0} (build : Build) (base k : ℕ) (s : Session W) (bs : List Block)
    → IsHeap build s.memory base bs
    → IsExact build base k s
    → Apart bs × (busy_count bs ≡ length s.live + k)
IsExact-row build base k s bs heap x =
    let same = IsHeap-unique build s.memory base x.blocks bs x.heap heap in
    (subst Apart same x.apart, subst (λ r. busy_count r ≡ length s.live + k) same x.counted)
