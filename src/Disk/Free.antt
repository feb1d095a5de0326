-- ===== src/Disk/Free.antt =====
-- What `fmem_free` has put on the store.
use memthing.Base.{
  Bool, List, ap, arith, false, if◌then◌else◌, inl, inr, pos, refl, some, subst, sym, true, ℕ, ℤ,
  ◌++◌, ◌+◌, ◌<◌, ◌∙◌, ◌∷◌, ◌≡◌, ◌≢◌, ◌⊎◌,
}
use memthing.Blocks.{Block, release, total}
use memthing.Blocks.Row.{total-append}
use memthing.Disk.{IsSaving, Stored, Saved, write}
use memthing.Disk.Joined.{freed}
use memthing.Disk.Release.{merged-Saved}
use memthing.Disk.Row.{Saved-IsRow, Saved-map}
use memthing.Disk.Write.{commit-write}
use memthing.Fmem.{
  Committers, commit, e_commit_failed, fmem_free, fmem_unlock, free_ranges, give_page,
}
use memthing.Heap.Free.{give_page-IsHeld}
use memthing.Heap.GiveBack.{free-run, give_page-fixed}
use memthing.Heap.Invariant.{IsHeap, fmem_at, head_size}
use memthing.Heap.Lock.{IsHeld, fmem-set_fmem, lock-IsHeld, unlock-IsHeap, with_lock}
use memthing.Heap.Sides.{Small}
use memthing.Memory.{Memory, null}
use memthing.Page.{Build, fpage_merge, fpage_set_free}

module _ {W : Type 0} (disk : W → Memory) (build : Build) (base : ℕ) (n : ℕ) (bs : List Block) where
  -- A call of `fmem_free` failed to commit, or returned `n`, and the store has the allocator.
  abbrev pub IsFreed : ℤ × Memory × W → Type 0
  IsFreed (r, m', w') = (r ≡ e_commit_failed) ⊎ ((r ≡ pos n) × Stored build m' (disk w') base bs)

saved_or_failed :
    (P : Type 0) (f : Bool) (n : ℕ)
    → (f ≡ true → P)
    → ((if f then pos n else e_commit_failed) ≡ e_commit_failed)
      ⊎ (((if f then pos n else e_commit_failed) ≡ pos n) × P)
saved_or_failed P true n went = inr (refl, went refl)
saved_or_failed P false n went = inl refl

module _ {W : Type 0} (committers : Committers W) (disk : W → Memory)
    (saving : IsSaving committers disk) (build : Build) (m : Memory) (w : W) (base : ℕ)
    (xs : List Block) (b : Block) (ys : List Block) (fuel : ℕ)
    (h : IsHeap build m base (xs ++ b ∷ ys)) (busy : b.busy ≡ true) (some_fuel : 0 < fuel)
    (set : (m.fmem (fmem_at base)).committer ≢ null)
    (old : Saved m (disk w) base (xs ++ b ∷ ys)) where
  abbrev page : ℕ
  page = base + head_size + total xs

  abbrev locked : Memory
  locked = with_lock 1 m (fmem_at base)

  abbrev gave : Memory × ℕ
  gave = give_page locked (fmem_at base) page

  abbrev bs : List Block
  bs = release xs b.size ys

  held : IsHeld build locked base (xs ++ b ∷ ys)
  held = lock-IsHeld build m base (xs ++ b ∷ ys) h

  gave-Saved : Saved (fmem_unlock gave.0 (fmem_at base)) (freed gave.0 (disk w) page gave.1) base bs
  unfolding fmem_unlock give_page write free_ranges
  gave-Saved =
      let bytes = total-append xs (b ∷ ys) in
      let small : Small base (xs ++ b ∷ ys) =
        omega (arith, h.account.span, h.account.small, h.account.fits) in
      let same = Saved-map m locked (disk w) (disk w) base (xs ++ b ∷ ys) (λ q h. h) old in
      let r = fpage_merge (fpage_set_free locked page) page in
      Saved-map r.0 (fmem_unlock gave.0 (fmem_at base)) (freed r.0 (disk w) page r.1)
        (freed gave.0 (disk w) page gave.1) base bs (λ q h. h)
        (merged-Saved build locked (disk w) base xs b ys held.row small same)

  -- On a well-formed allocator whose headers are all on the store, with a committer that saves what
  -- it is asked to, `fmem_free` of the address behind a busy block's header returns. Either the
  -- commit failed, or it returns the size of the block and all headers of the allocator that it
  -- leaves are on the store, which holds the same row, well formed.
  pub fmem_free-Saved :
      (out : ℤ × Memory × W) × (fmem_free committers build fuel m w (fmem_at base) (page + 24)
        ≡ some out)
      × IsFreed disk build base b.size bs out
  unfolding free_ranges
  fmem_free-Saved =
      let fm = fmem_at base in
      let ranges = free_ranges gave.0 page gave.1 in
      let run = commit committers gave.0 w fm ranges 3 in
      let set' : (gave.0.fmem fm).committer ≢ null = λ z. set (
        sym ((give_page-fixed locked fm page).0 ∙ ap (λ f. f.committer) (fmem-set_fmem m fm _))
        ∙ z) in
      let heap =
        unlock-IsHeap build gave.0 base bs (give_page-IsHeld build locked base xs b ys held busy) in
      (
        (if run.0 then pos b.size else e_commit_failed, fmem_unlock gave.0 fm, run.1),
        free-run committers build m w base xs b ys fuel h some_fuel,
        saved_or_failed (Stored build (fmem_unlock gave.0 fm) (disk run.1) base bs) run.0 b.size
            (λ went.
              let e = commit-write committers gave.0 w fm ranges 3 disk saving set' went in
              let saved = subst (λ d. Saved (fmem_unlock gave.0 fm) d base bs) (sym e) gave-Saved in
              (
                saved,
                Saved-IsRow build (fmem_unlock gave.0 fm) (disk run.1) base bs saved heap.row,
              )),
      )
