-- ===== src/Disk/Split.antt =====
-- What `fmem_alloc` writes where it splits the first block, with a committer that never fails.
use memthing.Fmem.{range, CommitRange, Committers, alloc_ranges, commit, fmem_alloc}
use memthing.Base.{
  Bool-cases, List, [], false, inl, inr, is_negative, refl, some, sym, true, ℕ, ◌+◌, ◌-◌, ◌<◌, ◌==◌,
  ◌^◌, ◌∙◌, ◌∷◌, ◌≡◌, ◌≢◌, ◌≤◌,
}
use memthing.Blocks.{Block, block}
use memthing.Disk.{IsSaving, write}
use memthing.Disk.Write.{commit-write}
use memthing.Heap.Gives.{
  after-IsHeap, after-fixed, after_alloc, alloc-run, taken_page, taken_page-committer,
}
use memthing.Heap.Invariant.{IsHeap, fmem_at, head_size}
use memthing.Memory.{Memory, null}
use memthing.Page.{Build}

-- A committer that never fails.
abbrev pub Unfailing : {W : Type 0} → Committers W → Type 0
Unfailing {W} committers =
    (pointer : ℕ) (ranges : List CommitRange) (count : ℕ) (m : Memory) (w : W)
    → is_negative (committers pointer ranges count m w).0 ≡ false

pub commit-Unfailing :
    {W : Type 0} (committers : Committers W) (m : Memory) (w : W) (fm : ℕ)
    (ranges : List CommitRange) (count : ℕ)
    → Unfailing committers
    → (commit committers m w fm ranges count).0 ≡ true
unfolding commit
commit-Unfailing committers m w fm ranges count never =
    elim (Bool-cases ((m.fmem fm).committer == null)) [
      | inl e ↦ rw e refl
      | inr e ↦ rw (e, never (m.fmem fm).committer ranges count m w) refl
    ]

module _ {W : Type 0} (committers : Committers W) (disk : W → Memory)
    (saving : IsSaving committers disk) (never : Unfailing committers) (build : Build) (fuel : ℕ)
    (enough : 2 ^ 28 ≤ fuel) (m : Memory) (w : W) (base free_size : ℕ) (others : List Block)
    (heap : IsHeap build m base (block free_size false ∷ others)) (size : ℕ) (min : 24 ≤ size)
    (large : size + 72 < free_size) (least : (m.fmem (fmem_at base)).min_alloc ≡ 24)
    (set : (m.fmem (fmem_at base)).committer ≢ null) where
  abbrev fm : ℕ
  fm = fmem_at base

  abbrev page : ℕ
  page = base + head_size + (free_size - (size + 24))

  -- A block is split off the first, and only its header is written.
  pub record IsSplit (out : ℕ × Memory × W) : Type 0 where
    pub row :
        IsHeap build out.1 base
          (block (free_size - (size + 24)) false ∷ block (size + 24) true ∷ others)
    pub pointer : (out.1.fmem fm).committer ≡ (m.fmem fm).committer
    pub smallest : (out.1.fmem fm).min_alloc ≡ 24
    pub at : out.0 ≡ page + 24
    pub taken : Memory
    pub written : disk out.2 ≡ write (range page 24 ∷ []) taken (disk w)

  pub fmem_alloc-IsSplit :
      (out : ℕ × Memory × W) × (fmem_alloc committers build fuel m w fm size ≡ some out)
      × IsSplit out
  unfolding alloc_ranges
  fmem_alloc-IsSplit =
      let t = taken_page build m base free_size size in
      let ranges = alloc_ranges t page true in
      let ok = commit-Unfailing committers t w fm ranges 1 never in
      let set' : (t.fmem fm).committer ≢ null =
        λ z. set (sym (taken_page-committer build m base free_size size) ∙ z) in
      let w' = (commit committers t w fm ranges 1).1 in
      let commits : commit committers t w fm ranges 1 ≡ (true, w') = λ i. (ok i, w') in
      let m' =
        after_alloc committers build fuel enough m w w' base free_size others heap size min large
          least commits in
      let fixed =
        after-fixed committers build fuel enough m w w' base free_size others heap size min large
          least commits in
      (
        (page + 24, m', w'),
        alloc-run committers build fuel enough m w w' base free_size others heap size min large
            least commits,
        record {
          row =
              after-IsHeap committers build fuel enough m w w' base free_size others heap size min
                large least commits;
          pointer = fixed.0;
          smallest = fixed.1;
          at = refl;
          taken = t;
          written = commit-write committers t w fm ranges 1 disk saving set' ok;
        },
      )
