-- ===== src/Disk/Given.antt =====
-- What `fmem_free` writes, with a committer that never fails.
use memthing.Base.{
  [], List, ap, arith, if◌then◌else◌, pos, refl, some, sym, true, ℕ, ℤ, ◌++◌, ◌+◌, ◌<◌, ◌∙◌, ◌∷◌,
  ◌≡◌, ◌≢◌, ◌⊎◌,
}
use memthing.Fmem.{
  range, Committers, commit, e_commit_failed, fmem_free, fmem_unlock, free_ranges, give_page,
}
use memthing.Blocks.{Block, release, total}
use memthing.Disk.Split.{commit-Unfailing, Unfailing}
use memthing.Disk.{IsSaving, write}
use memthing.Disk.Write.{commit-write}
use memthing.Heap.Free.{give_page-IsHeld}
use memthing.Heap.GiveBack.{free-run, give_page-fixed}
use memthing.Heap.Invariant.{IsHeap, fmem_at, head_size}
use memthing.Heap.Lock.{fmem-set_fmem, lock-IsHeld, unlock-IsHeap, with_lock}
use memthing.Memory.{Memory, list_entry, list_of, null}
use memthing.Page.{Build, fpage_merge, fpage_set_free}

module _ {W : Type 0} (committers : Committers W) (disk : W → Memory)
    (saving : IsSaving committers disk) (never : Unfailing committers) (build : Build) (fuel : ℕ)
    (some_fuel : 0 < fuel) (m : Memory) (w : W) (base : ℕ) (xs : List Block) (b : Block)
    (ys : List Block) (heap : IsHeap build m base (xs ++ b ∷ ys)) (busy : b.busy ≡ true)
    (set : (m.fmem (fmem_at base)).committer ≢ null) where
  abbrev fm : ℕ
  fm = fmem_at base

  abbrev page : ℕ
  page = base + head_size + total xs

  abbrev gave : Memory × ℕ
  gave = give_page (with_lock 1 m fm) fm page

  -- The page that is written is the one that is given back, or the one before it.
  gave-modified : (gave.1 ≡ page) ⊎ (gave.1 ≡ list_entry (m.prev (list_of page)))
  unfolding give_page fpage_merge fpage_set_free
  gave-modified = ground arith

  -- A block is given back, and the ranges are written.
  pub record IsGiven (out : ℤ × Memory × W) : Type 0 where
    pub row : IsHeap build out.1 base (release xs b.size ys)
    pub given : Memory
    pub modified : ℕ
    pub which : (modified ≡ page) ⊎ (modified ≡ list_entry (m.prev (list_of page)))
    pub next : (l : ℕ) → given.next l ≡ out.1.next l
    pub prev : (l : ℕ) → given.prev l ≡ out.1.prev l
    pub written :
        disk out.2
        ≡ write
            (range modified 24
              ∷ range (out.1.prev (list_of page)) 16
              ∷ range (out.1.next (list_of page)) 16
              ∷ [])
            given
            (disk w)

  pub fmem_free-IsGiven :
      (out : ℤ × Memory × W) × (fmem_free committers build fuel m w fm (page + 24) ≡ some out)
      × IsGiven out
  unfolding free_ranges fmem_unlock
  fmem_free-IsGiven =
      let locked = with_lock 1 m fm in
      let ranges = free_ranges gave.0 page gave.1 in
      let run = commit committers gave.0 w fm ranges 3 in
      let ok = commit-Unfailing committers gave.0 w fm ranges 3 never in
      let set' : (gave.0.fmem fm).committer ≢ null = λ z. set (
        sym ((give_page-fixed locked fm page).0 ∙ ap (λ f. f.committer) (fmem-set_fmem m fm _))
        ∙ z) in
      (
        (if run.0 then pos b.size else e_commit_failed, fmem_unlock gave.0 fm, run.1),
        free-run committers build m w base xs b ys fuel heap some_fuel,
        record {
          row = unlock-IsHeap build gave.0 base (release xs b.size ys) (
              give_page-IsHeld build locked base xs b ys
                (lock-IsHeld build m base (xs ++ b ∷ ys) heap) busy);
          next = λ l. refl;
          prev = λ l. refl;
          written = commit-write committers gave.0 w fm ranges 3 disk saving set' ok;
          given = gave.0;
          modified = gave.1;
          which = gave-modified;
        },
      )
