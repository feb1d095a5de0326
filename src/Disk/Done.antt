-- ===== src/Disk/Done.antt =====
-- The end of `fmem_alloc` on the store: a block that is taken whole, and one that is split.
use memthing.Disk.{first, IsSaving, Saved, Stored, write}
use memthing.Base.{
  Bool, Bool-cases, List, Option, [], ap, arith, false, inl, inr, length, length-append, none, refl,
  some, subst, suc, sym, to_ptr, true, ℕ, ◌++◌, ◌+◌, ◌<◌, ◌^◌, ◌∙◌, ◌∷◌, ◌≡◌, ◌≢◌, ◌≤◌, ◌⊎◌,
}
use memthing.Blocks.{Block, block, total}
use memthing.Blocks.Row.{total-append}
use memthing.Disk.Row.{Saved-IsRow, Saved-map}
use memthing.Disk.Take.{inside-Saved, marked-Saved}
use memthing.Disk.Write.{commit-write}
use memthing.Fmem.{
  Committers, alloc_done, alloc_ranges, commit, e_commit_failed, fmem_e_nomem, fmem_unlock, range,
  take_page,
}
use memthing.Heap.Alloc.{take-IsHeld}
use memthing.Heap.Take.{take_page-fixed, busy_page-links}
use memthing.Heap.Invariant.{IsRow, fmem_at, head_size}
use memthing.Heap.Lock.{IsHeld, unlock-IsHeap}
use memthing.Heap.Status.{busy_page-same}
use memthing.Memory.{Memory, null}
use memthing.Page.{Build, mem_from_fpage}

module _ {W : Type 0} (disk : W → Memory) (build : Build) (m : Memory) (w : W) (base : ℕ)
    (bs : List Block) where
  -- What is on the store after a call of `fmem_alloc` on the row `bs`, by what `first_fit` says.
  -- Where nothing fits it has the row as before. Else the commit failed, or the block was taken
  -- whole and the store has the new row, or it was split and the store still has the old one; the
  -- accounting object on the store stays as it was.
  abbrev pub IsTaken : Option (ℕ × List Block) → ℕ × Memory × W → Type 0
  IsTaken none (r, m', w') = (r ≡ to_ptr fmem_e_nomem) × Stored build m' (disk w') base bs
  IsTaken (some (p, bs')) (r, m', w') =
      (r ≡ to_ptr e_commit_failed)
      ⊎ ((r ≡ p + 24)
          × ((disk w').fmem (fmem_at base) ≡ (disk w).fmem (fmem_at base))
          × (((length bs' ≡ length bs) × Stored build m' (disk w') base bs')
              ⊎ ((length bs' ≡ suc (length bs)) × Stored build m (disk w') base bs)))

-- A header that lies behind an accounting object is written.
write-fmem :
    (m store : Memory) (base p : ℕ)
    → base + 96 ≤ p
    → (write (range p 24 ∷ []) m store).fmem (base + 24) ≡ store.fmem (base + 24)
unfolding write
write-fmem m store base p h = ground (arith, h)

module _ {W : Type 0} (committers : Committers W) (disk : W → Memory)
    (saving : IsSaving committers disk) (build : Build) (m : Memory) (w : W) (fm selected : ℕ)
    (carved : Bool) (set : (m.fmem fm).committer ≢ null) (high : selected + 24 < 2 ^ 64) where
  abbrev out : ℕ × Memory × W
  out = alloc_done committers build m w fm selected carved

  abbrev taken : Memory
  taken = take_page build m fm selected

  -- The end of `fmem_alloc` writes the header of the page that it takes, and nothing else.
  done-store :
      (out.0 ≡ to_ptr e_commit_failed)
      ⊎ ((out.0 ≡ selected + 24) × (disk out.2 ≡ write (range selected 24 ∷ []) taken (disk w)))
  unfolding alloc_done alloc_ranges mem_from_fpage
  done-store =
      let ranges = alloc_ranges taken selected carved in
      let run = commit committers taken w fm ranges 1 in
      let set' : (taken.fmem fm).committer ≢ null =
        λ z. set (sym ((take_page-fixed build m fm selected).0) ∙ z) in
      let one : first 1 ranges ≡ range selected 24 ∷ [] = elim (Bool-cases carved) [
        | inl e ↦ rw e refl
        | inr e ↦ rw e refl
      ] in
      elim (Bool-cases run.0) [
        | inl e ↦ inr (
          rw e (ground arith),
          commit-write committers taken w fm ranges 1 disk saving set' e
              ∙ ap (λ rs. write rs taken (disk w)) one,
        )
        | inr e ↦ inl (rw e refl)
      ]

module _ {W : Type 0} (committers : Committers W) (disk : W → Memory)
    (saving : IsSaving committers disk) (build : Build) (before m : Memory) (w : W) (base : ℕ)
    (xs : List Block) (b : Block) (ys : List Block) (h : IsHeld build m base (xs ++ b ∷ ys))
    (unused : b.busy ≡ false) (set : (m.fmem (fmem_at base)).committer ≢ null)
    (old : Saved m (disk w) base (xs ++ b ∷ ys)) where
  abbrev page : ℕ
  page = base + head_size + total xs

  page_high : (k : ℕ) → k + 24 ≤ b.size → page + k + 24 < 2 ^ 64
  page_high k le = omega (arith, h.account.span, h.account.fits, total-append xs (b ∷ ys), le)

  -- The block is taken whole.
  pub whole-IsTaken :
      24 ≤ b.size
      → IsTaken disk build before w base
          (xs ++ b ∷ ys)
          (some (page, xs ++ block b.size true ∷ ys))
          (alloc_done committers build m w (fmem_at base) page false)
  unfolding alloc_done take_page fmem_unlock
  whole-IsTaken least =
      let fm = fmem_at base in
      let bs' = xs ++ block b.size true ∷ ys in
      let m1 = take_page build m fm page in
      let store = write (range page 24 ∷ []) m1 (disk w) in
      let links = busy_page-links build m page in
      let saved =
        Saved-map m1 (fmem_unlock m1 fm) store store base bs' (λ q h. h)
          (marked-Saved m m1 (disk w) base xs b ys true links.0 links.1
            (busy_page-same build m page) h.row.sized old) in
      let row = (unlock-IsHeap build m1 base bs' (take-IsHeld build m base xs b ys h unused)).row in
      let same : length bs' ≡ length (xs ++ b ∷ ys) =
        omega (arith, length-append xs (b ∷ ys), length-append xs (block b.size true ∷ ys)) in
      let stored : Stored build (fmem_unlock m1 fm) store base bs' =
        (saved, Saved-IsRow build (fmem_unlock m1 fm) store base bs' saved row) in
      elim (done-store committers disk saving build m w fm page false set
        (omega (arith, page_high 0 least))) [
          | inl e ↦ inl e
          | inr (e, d) ↦ inr (
            e,
            ap (λ d. d.fmem fm) d ∙ write-fmem m1 (disk w) base page (omega arith),
            inl (same, subst (λ d. Stored build (fmem_unlock m1 fm) d base bs') (sym d) stored),
          )
        ]

module _ {W : Type 0} (committers : Committers W) (disk : W → Memory)
    (saving : IsSaving committers disk) (build : Build) (before m : Memory) (w : W) (base : ℕ)
    (xs : List Block) (b : Block) (ys : List Block) (row : IsRow build before base (xs ++ b ∷ ys))
    (set : (m.fmem (fmem_at base)).committer ≢ null)
    (old : Saved before (disk w) base (xs ++ b ∷ ys)) where
  abbrev start : ℕ
  start = base + head_size + total xs

  -- The block is split, and the page that is taken begins behind `rest` bytes of it.
  pub split-IsTaken :
      (rest n : ℕ)
      → 24 ≤ rest
      → 24 ≤ n
      → rest + n ≡ b.size
      → start + rest + 24 < 2 ^ 64
      → IsTaken disk build before w base
          (xs ++ b ∷ ys)
          (some (start + rest, xs ++ block rest false ∷ block n true ∷ ys))
          (alloc_done committers build m w (fmem_at base) (start + rest) true)
  split-IsTaken rest n room fits cut high =
      let m1 = take_page build m (fmem_at base) (start + rest) in
      let store = write (range (start + rest) 24 ∷ []) m1 (disk w) in
      let bs = xs ++ b ∷ ys in
      let saved =
        inside-Saved before m1 (disk w) base xs b ys (start + rest) (omega arith) (omega arith)
          row.sized old in
      let more : length (xs ++ block rest false ∷ block n true ∷ ys) ≡ suc (length bs) = ground (
        arith,
        length-append xs bs,
        length-append xs (b ∷ ys),
        length-append xs (block rest false ∷ block n true ∷ ys),
      ) in
      let stored : Stored build before store base bs =
        (saved, Saved-IsRow build before store base bs saved row) in
      elim (done-store committers disk saving build m w (fmem_at base) (start + rest) true set
        high) [
          | inl e ↦ inl e
          | inr (e, d) ↦ inr (
            e,
            ap (λ d. d.fmem (fmem_at base)) d
                ∙ write-fmem m1 (disk w) base (start + rest) (omega arith),
            inr (more, subst (λ d. Stored build before d base bs) (sym d) stored),
          )
        ]
