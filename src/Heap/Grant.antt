-- ===== src/Heap/Grant.antt =====
-- `fmem_alloc` hands out what `first_fit` hands out of the row, or says that there is no memory.
use memthing.Base.{
  ℕ, ◌+◌, ◌-◌, ◌^◌, ◌≤◌, ◌<◌, ◌≡◌, ◌≢◌, refl, ap, subst, Bool, true, false, ◌⊎◌, inl, inr,
  Bool-cases, Option, none, some, List, ◌∷◌, ◌++◌, arith, ◌==◌, if◌then◌else◌, length, to_ptr,
}
use memthing.Memory.{Memory, null}
use memthing.Page.{Build, mem_from_fpage, fpage_carve}
use memthing.Fmem.{
  Committers, commit, take_page, alloc_ranges, alloc_done, alloc_failed, alloc_found,
  adjusted_alloc, fmem_alloc, fmem_unlock, e_commit_failed, fmem_e_nomem, CommitRange,
}
use memthing.Blocks.{Block, block, first_fit, total}
use memthing.Blocks.Row.{total-append}
use memthing.Heap.Invariant.{IsHeap, head_size, fmem_at}
use memthing.Heap.Status.{}
use memthing.Heap.Take.{take_page-fixed}
use memthing.Heap.Carve.{fpage_carve-fmem}
use memthing.Heap.Search.{Search, nothing, whole, split, search, scan}
use memthing.Heap.Lock.{IsHeld, with_lock, lock-IsHeld, unlock-IsHeap, fmem-set_fmem}
use memthing.Heap.Alloc.{take-IsHeld, carve-IsHeld}
use memthing.Heap.Run.{fmem_alloc-scan}

module _ {W : Type 0} (build : Build) (base pointer : ℕ) where
  -- What a call of `fmem_alloc` returns and leaves, by what `first_fit` says of the row. Once a
  -- page was taken the call can still fail, if `pointer` stands for a committer.
  abbrev pub Granted : Option (ℕ × List Block) → List Block → ℕ × Memory × W → Type 0
  Granted none bs (r, m', w') = (r ≡ to_ptr fmem_e_nomem) × IsHeap build m' base bs
  Granted (some (p, bs')) bs (r, m', w') =
      ((r ≡ p + 24) ⊎ ((pointer ≢ null) × (r ≡ to_ptr e_commit_failed))) × IsHeap build m' base bs'

  -- A run that ends so.
  abbrev pub Grants : Option (ℕ × List Block) → List Block → Option (ℕ × Memory × W) → Type 0
  Grants spec bs run = (out : ℕ × Memory × W) × (run ≡ some out) × Granted spec bs out

-- Only a committer can fail a commit.
pub commit-ok :
    {W : Type 0} (committers : Committers W) (m : Memory) (w : W) (fm : ℕ)
    (ranges : List CommitRange) (count : ℕ)
    → ((commit committers m w fm ranges count).0 ≡ true) ⊎ ((m.fmem fm).committer ≢ null)
unfolding commit
commit-ok committers m w fm ranges count = elim (Bool-cases ((m.fmem fm).committer == null)) [
  | inl e ↦ inl (rw e)
  | inr e ↦ inr (ground arith)
]

-- The result of `alloc_done`: no page is at an address that would make it NULL.
done_value : Bool → ℕ → ℕ
done_value ok selected =
    let ret = if ok then mem_from_fpage selected else to_ptr e_commit_failed in
    if ret == null then to_ptr fmem_e_nomem else ret

done_value-cases :
    (ok : Bool) (pointer selected : ℕ)
    → selected + 24 < 2 ^ 64
    → (ok ≡ true) ⊎ (pointer ≢ null)
    → (done_value ok selected ≡ selected + 24)
      ⊎ ((pointer ≢ null) × (done_value ok selected ≡ to_ptr e_commit_failed))
unfolding done_value mem_from_fpage
done_value-cases true pointer selected high c = inl (ground arith)
done_value-cases false pointer selected high (inl e) = absurd (cc)
done_value-cases false pointer selected high (inr e) = inr (e, refl)

module _ {W : Type 0} (committers : Committers W) (build : Build) (m : Memory) (w : W)
    (base : ℕ) where
  abbrev fm : ℕ
  fm = fmem_at base

  abbrev pointer : ℕ
  pointer = (m.fmem fm).committer

  failed-Grants :
      (bs : List Block) (c : ℕ)
      → IsHeld build m base bs
      → Grants build base c none bs (some (alloc_failed committers m w fm null))
  unfolding alloc_failed
  failed-Grants bs c h =
      ((to_ptr fmem_e_nomem, fmem_unlock m fm, w), refl, (refl, unlock-IsHeap build m base bs h))

  done-Grants :
      (selected : ℕ) (carved : Bool) (bs bs' : List Block)
      → selected + 24 < 2 ^ 64
      → IsHeld build (take_page build m fm selected) base bs'
      → Grants build base pointer
          (some (selected, bs'))
          bs
          (some (alloc_done committers build m w fm selected carved))
  unfolding alloc_done done_value
  done-Grants selected carved bs bs' high h =
      let m1 = take_page build m fm selected in
      let ranges = alloc_ranges m1 selected carved in
      let c =
        subst (λ q. ((commit committers m1 w fm ranges 1).0 ≡ true) ⊎ (q ≢ null))
          (take_page-fixed build m fm selected).0 (commit-ok committers m1 w fm ranges 1) in
      (
        alloc_done committers build m w fm selected carved,
        refl,
        (
          done_value-cases (commit committers m1 w fm ranges 1).0 pointer selected high c,
          unlock-IsHeap build m1 base bs' h,
        ),
      )

module _ {W : Type 0} (committers : Committers W) (build : Build) (m : Memory) (w : W)
    (base : ℕ) where
  -- What follows the loop, by what the loop found.
  found-Grants :
      (need : ℕ) (bs : List Block)
      → 24 ≤ need
      → IsHeld build m base bs
      → Search need (base + head_size) bs
      → Grants build base
          (m.fmem (fmem_at base)).committer
          (first_fit need (base + head_size) bs)
          bs
          (alloc_found committers build m w (fmem_at base) need (scan need (base + head_size) bs))
  unfolding alloc_found
  found-Grants need bs least h (nothing p q) =
      rw (p, q) (failed-Grants committers build m w base bs (m.fmem (fmem_at base)).committer h)
  found-Grants need bs least h (whole xs b ys e idle fits p q) =
      let page : ℕ = base + head_size + total xs in
      let held = subst (IsHeld build m base) e h in
      let bytes = total-append xs (b ∷ ys) in
      let high : page + 24 < 2 ^ 64 =
        omega (arith, h.account.span, h.account.fits, ap total e, bytes) in
      rw (p, q)
        (done-Grants committers build m w base page false bs (xs ++ block b.size true ∷ ys) high
          (take-IsHeld build m base xs b ys held idle))
  found-Grants need bs least h (split xs b ys e idle large p q) =
      let page : ℕ = base + head_size + total xs in
      let left : ℕ = b.size - (need + 24) in
      let held = subst (IsHeld build m base) e h in
      let bytes = total-append xs (b ∷ ys) in
      let high : page + left + 24 < 2 ^ 64 =
        omega (arith, h.account.span, h.account.fits, ap total e, bytes) in
      let (created, after) = carve-IsHeld build m base xs b ys held idle need least large in
      let carved = (fpage_carve m page need).0 in
      rw (p, q)
        (rw created (
          subst
            (λ f.
              Grants build base f.committer
                (some (page + left, xs ++ block left false ∷ block (need + 24) true ∷ ys)) bs
                (some (alloc_done committers build carved w (fmem_at base) (page + left) true)))
            (fpage_carve-fmem m page need (fmem_at base))
            (done-Grants committers build carved w base (page + left) true bs _ high after)))

module _ {W : Type 0} (committers : Committers W) (build : Build) (m : Memory) (w : W) (base : ℕ)
    (bs : List Block) where
  -- On a well-formed allocator, `fmem_alloc` with enough fuel returns. It takes the block that
  -- `first_fit` takes, returns the address behind its header, and leaves the allocator well formed
  -- with the row that `first_fit` leaves; or, where nothing fits, it returns the error and leaves
  -- the row as it was. If the page's commit fails it returns that error, with the page taken.
  pub fmem_alloc-first_fit :
      (fuel size : ℕ)
      → IsHeap build m base bs
      → length bs < fuel
      → size < 2 ^ 32
      → Grants build base
          (m.fmem (fmem_at base)).committer
          (first_fit (adjusted_alloc m (fmem_at base) size) (base + head_size) bs)
          bs
          (fmem_alloc committers build fuel m w (fmem_at base) size)
  fmem_alloc-first_fit fuel size h enough small =
      let fm = fmem_at base in
      let need = adjusted_alloc m fm size in
      rw (fmem_alloc-scan committers build m w base bs h fuel size enough small) (
        subst
          (λ p. Grants build base p (first_fit need (base + head_size) bs) bs (
            alloc_found committers build (with_lock 1 m fm) w fm need
              (scan need (base + head_size) bs)))
          (ap (λ f. f.committer) (fmem-set_fmem m fm _))
          (found-Grants committers build (with_lock 1 m fm) w base need bs
            (ground (arith, h.account.least)) (lock-IsHeld build m base bs h)
            (search need (base + head_size) bs)))
