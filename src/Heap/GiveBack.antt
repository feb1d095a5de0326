-- ===== src/Heap/GiveBack.antt =====
-- What `fmem_free` does with a page of the row, whether it is busy or not.
use memthing.Heap.Invariant.{IsRow, IsHeap, IsRow-set_fmem, fmem_at, head_size}
use memthing.Base.{
  Bool, List, add64, ap, arith, false, if◌then◌else◌, inl, inr, pos, refl, some, sub32, subst, true,
  ℕ, ◌++◌, ◌+◌, ◌<◌, ◌∙◌, ◌∷◌, ◌≡◌, ◌≢◌, ◌⊎◌,
}
use memthing.Blocks.{Block, block, release, total}
use memthing.Blocks.Row.{total-append}
use memthing.Fmem.{
  Committers, commit, e_commit_failed, fmem_free, fmem_unlock, free_ranges, give_page,
}
use memthing.Heap.Carve.{page}
use memthing.Heap.Grant.{commit-ok}
use memthing.Heap.Joined.{fpage_merge-IsRow}
use memthing.Heap.Layout.{check_passes}
use memthing.Heap.Lock.{IsHeld, fmem-set_fmem, fmem_lock-free, with_lock}
use memthing.Heap.Sides.{Small}
use memthing.Heap.Take.{PageAt-middle, free_page-IsRow}
use memthing.LinkedList.{list_remove_at}
use memthing.Memory.{Fmem, Memory, null}
use memthing.Page.{Build, fpage_from_mem, fpage_merge, fpage_set_free}

set_free-fmem : (m : Memory) (p : ℕ) → (fpage_set_free m p).fmem ≡ m.fmem
unfolding fpage_set_free
set_free-fmem m p = refl

-- The accounting object after `n` bytes were given back.
abbrev pub given : Fmem → ℕ → Fmem
given f n = record f {
  alloc_objects = sub32 f.alloc_objects 1;
  total_available = add64 f.total_available n;
}

fpage_merge-fmem : (m : Memory) (p : ℕ) → (fpage_merge m p).0.fmem ≡ m.fmem
unfolding fpage_merge list_remove_at
fpage_merge-fmem m p = ground arith

-- What the object keeps when a page is given back.
pub give_page-fixed :
    (m : Memory) (fm page : ℕ)
    → let f = (give_page m fm page).0.fmem fm in
      (f.committer ≡ (m.fmem fm).committer) × (f.min_alloc ≡ (m.fmem fm).min_alloc)
unfolding give_page
give_page-fixed m fm page =
    let merged = (fpage_merge (fpage_set_free m page) page).0 in
    let e = fmem-set_fmem merged fm (given (merged.fmem fm) (m.size page)) in
    let d = fpage_merge-fmem (fpage_set_free m page) page ∙ set_free-fmem m page in
    (
      ap (λ f. f.committer) e ∙ ap (λ h. (h fm).committer) d,
      ap (λ f. f.min_alloc) e ∙ ap (λ h. (h fm).min_alloc) d,
    )

-- The page is free afterwards and joined with its free neighbours, whatever it was.
pub give_page-IsRow :
    (build : Build) (m : Memory) (base : ℕ) (xs : List Block) (b : Block) (ys : List Block)
    → IsHeld build m base (xs ++ b ∷ ys)
    → IsRow build
        (give_page m (fmem_at base) (base + head_size + total xs)).0
        base
        (release xs b.size ys)
unfolding give_page
give_page-IsRow build m base xs b ys h =
    let page : ℕ = base + head_size + total xs in
    let m1 = fpage_set_free m page in
    let bytes = total-append xs (b ∷ ys) in
    let bytes' = total-append xs (block b.size false ∷ ys) in
    let small : Small base (xs ++ block b.size false ∷ ys) =
      omega (arith, bytes, bytes', h.account.span, h.account.small, h.account.fits) in
    let merged = (fpage_merge m1 page).0 in
    IsRow-set_fmem build merged base (release xs b.size ys) (fmem_at base)
      (given (merged.fmem (fmem_at base)) (m.size page))
      (fpage_merge-IsRow build m1 base xs b.size ys small
        (free_page-IsRow build m base xs b ys h.row)).0

pub give_page-account :
    (build : Build) (m : Memory) (base : ℕ) (xs : List Block) (b : Block) (ys : List Block)
    → IsHeld build m base (xs ++ b ∷ ys)
    → (give_page m (fmem_at base) (base + head_size + total xs)).0.fmem (fmem_at base)
      ≡ given (m.fmem (fmem_at base)) b.size
unfolding give_page
give_page-account build m base xs b ys h =
    let page : ℕ = base + head_size + total xs in
    let fm = fmem_at base in
    let merged = (fpage_merge (fpage_set_free m page) page).0 in
    let same = fpage_merge-fmem (fpage_set_free m page) page ∙ set_free-fmem m page in
    let size = (PageAt-middle (base + head_size) xs b ys h.row.headers).size in
    fmem-set_fmem merged fm (given (merged.fmem fm) (m.size page))
    ∙ (λ i. given (same i fm) (size i))

free_value-cases :
    (ok : Bool) (n pointer : ℕ)
    → (ok ≡ true) ⊎ (pointer ≢ null)
    → ((if ok then pos n else e_commit_failed) ≡ pos n)
      ⊎ ((pointer ≢ null) × ((if ok then pos n else e_commit_failed) ≡ e_commit_failed))
free_value-cases true n pointer c = inl refl
free_value-cases false n pointer (inl c) = absurd (cc)
free_value-cases false n pointer (inr c) = inr (c, refl)

module _ {W : Type 0} (committers : Committers W) (build : Build) (m : Memory) (w : W) (base : ℕ)
    (xs : List Block) (b : Block) (ys : List Block) where
  pub free-run :
      (fuel : ℕ)
      → IsHeap build m base (xs ++ b ∷ ys)
      → 0 < fuel
      → let fm = fmem_at base in
        let page = base + head_size + total xs in
        let (m2, modified) = give_page (with_lock 1 m fm) fm page in
        let run = commit committers m2 w fm (free_ranges m2 page modified) 3 in
        fmem_free committers build fuel m w fm (page + 24)
        ≡ some (if run.0 then pos b.size else e_commit_failed, fmem_unlock m2 fm, run.1)
  unfolding fmem_free fpage_from_mem
  free-run fuel h some_fuel =
      let page : ℕ = base + head_size + total xs in
      let bytes = total-append xs (b ∷ ys) in
      let back : fpage_from_mem (page + 24) ≡ page =
        omega (arith, bytes, h.account.span, h.account.fits) in
      let at = PageAt-middle (base + head_size) xs b ys h.row.headers in
      rw
        (
          back,
          check_passes build m page b at,
          fmem_lock-free fuel m (fmem_at base) some_fuel h.unlocked,
          at.size,
        )
        refl

  -- What is returned, by whether the commit succeeded.
  pub free-value :
      let fm = fmem_at base in
      let page = base + head_size + total xs in
      let (m2, modified) = give_page (with_lock 1 m fm) fm page in
      let run = commit committers m2 w fm (free_ranges m2 page modified) 3 in
      ((if run.0 then pos b.size else e_commit_failed) ≡ pos b.size)
      ⊎ (((m.fmem fm).committer ≢ null)
          × ((if run.0 then pos b.size else e_commit_failed) ≡ e_commit_failed))
  free-value =
      let fm = fmem_at base in
      let page : ℕ = base + head_size + total xs in
      let m1 = with_lock 1 m fm in
      let (m2, modified) = give_page m1 fm page in
      let run = commit committers m2 w fm (free_ranges m2 page modified) 3 in
      let pointer : (m2.fmem fm).committer ≡ (m.fmem fm).committer =
        (give_page-fixed m1 fm page).0 ∙ ap (λ f. f.committer) (fmem-set_fmem m fm _) in
      free_value-cases run.0 b.size _ (
        subst (λ q. (run.0 ≡ true) ⊎ (q ≢ null)) pointer
          (commit-ok committers m2 w fm (free_ranges m2 page modified) 3))
