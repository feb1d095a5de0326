-- ===== src/Disk/Alloc.antt =====
-- What `fmem_alloc` has put on the store.
use memthing.Base.{
  List, Option, ap, arith, false, length, none, refl, some, subst, sym, to_ptr, true, ℕ, ◌++◌, ◌+◌,
  ◌-◌, ◌<◌, ◌^◌, ◌∙◌, ◌∷◌, ◌≡◌, ◌≢◌, ◌≤◌,
}
use memthing.Blocks.{Block, block, first_fit, total}
use memthing.Blocks.Row.{total-append}
use memthing.Disk.{IsSaving, Saved}
use memthing.Disk.Done.{IsTaken, split-IsTaken, whole-IsTaken}
use memthing.Disk.Row.{Saved-IsRow, Saved-map}
use memthing.Fmem.{
  Committers, adjusted_alloc, alloc_done, alloc_failed, alloc_found, fmem_alloc, fmem_e_nomem,
  fmem_unlock,
}
use memthing.Heap.Alloc.{carve-IsHeld}
use memthing.Heap.Carve.{fpage_carve-fmem}
use memthing.Heap.Invariant.{IsHeap, IsRow, fmem_at, head_size}
use memthing.Heap.Lock.{IsHeld, fmem-set_fmem, lock-IsHeld, with_lock}
use memthing.Heap.Run.{fmem_alloc-scan}
use memthing.Heap.Search.{Search, nothing, scan, search, split, whole}
use memthing.Memory.{Memory, null}
use memthing.Page.{Build, fpage_carve}

module _ {W : Type 0} (committers : Committers W) (disk : W → Memory)
    (saving : IsSaving committers disk) (build : Build) (m : Memory) (w : W) (base : ℕ)
    (bs : List Block) (fuel size : ℕ) (h : IsHeap build m base bs) (enough : length bs < fuel)
    (small : size < 2 ^ 32) (set : (m.fmem (fmem_at base)).committer ≢ null)
    (old : Saved m (disk w) base bs) where
  abbrev fm : ℕ
  fm = fmem_at base

  abbrev need : ℕ
  need = adjusted_alloc m fm size

  abbrev locked : Memory
  locked = with_lock 1 m fm

  abbrev Ends : Option (ℕ × List Block) → Option (ℕ × Memory × W) → Type 0
  Ends spec run =
      (out : ℕ × Memory × W) × (run ≡ some out) × IsTaken disk build m w base bs spec out

  held : IsHeld build locked base bs
  held = lock-IsHeld build m base bs h

  held-Saved : Saved locked (disk w) base bs
  held-Saved = Saved-map m locked (disk w) (disk w) base bs (λ q h. h) old

  set_locked : (locked.fmem fm).committer ≢ null
  set_locked z = set (sym (ap (λ f. f.committer) (fmem-set_fmem m fm _)) ∙ z)

  failed-Ends : Ends none (some (alloc_failed committers locked w fm null))
  unfolding alloc_failed fmem_unlock
  failed-Ends =
      let m' = fmem_unlock locked fm in
      let saved = Saved-map m m' (disk w) (disk w) base bs (λ q h. h) old in
      (
        (to_ptr fmem_e_nomem, m', w),
        refl,
        (refl, (saved, Saved-IsRow build m (disk w) base bs old h.row)),
      )

  found-Ends :
      Search need (base + head_size) bs
      → Ends
          (first_fit need (base + head_size) bs)
          (alloc_found committers build locked w fm need (scan need (base + head_size) bs))
  unfolding alloc_found
  found-Ends (nothing p q) = rw (p, q) failed-Ends
  found-Ends (whole xs b ys e unused fits p q) =
      let out = alloc_done committers build locked w fm (base + head_size + total xs) false in
      rw (p, q)
        (
          out,
          refl,
          subst
              (λ bs.
                IsTaken disk build m w base bs
                  (some (base + head_size + total xs, xs ++ block b.size true ∷ ys)) out)
              (sym e)
              (whole-IsTaken committers disk saving build m locked w base xs b ys
                (subst (IsHeld build locked base) e held) unused set_locked
                (subst (Saved locked (disk w) base) e held-Saved) (omega (arith, fits))),
        )
  found-Ends (split xs b ys e unused large p q) =
      let page : ℕ = base + head_size + total xs in
      let rest : ℕ = b.size - (need + 24) in
      let held' = subst (IsHeld build locked base) e held in
      let least : 24 ≤ need = ground (arith, h.account.least) in
      let (created, _) = carve-IsHeld build locked base xs b ys held' unused need least large in
      let m1 = (fpage_carve locked page need).0 in
      let out = alloc_done committers build m1 w fm (page + rest) true in
      let high : page + rest + 24 < 2 ^ 64 =
        omega (arith, held'.account.span, held'.account.fits, total-append xs (b ∷ ys)) in
      let set1 : (m1.fmem fm).committer ≢ null =
        λ z. set_locked (sym (ap (λ f. f.committer) (fpage_carve-fmem locked page need fm)) ∙ z) in
      rw (p, q)
        (rw created (
          out,
          refl,
          subst
              (λ bs.
                IsTaken disk build m w base bs
                  (some (page + rest, xs ++ block rest false ∷ block (need + 24) true ∷ ys)) out)
              (sym e)
              (split-IsTaken committers disk saving build m m1 w base xs b ys
                (subst (IsRow build m base) e h.row) set1 (subst (Saved m (disk w) base) e old) rest
                (need + 24) (omega (arith, large)) (omega (arith, least)) (omega (arith, large))
                high),
        ))

  -- On a well-formed allocator whose headers are all on the store, with a committer that saves what
  -- it is asked to and more fuel than blocks, `fmem_alloc` of a size below 2^32 returns. Where
  -- nothing fits, it returns the error for no memory and the store has the row as before. Else the
  -- commit failed; or the block was taken whole, and the store has the row that first fit leaves;
  -- or the block was split, and the store has still the row of before the call, in which it is free.
  -- Where a block was taken, the store's accounting object is as it was before the call.
  pub fmem_alloc-Stored :
      Ends (first_fit need (base + head_size) bs) (fmem_alloc committers build fuel m w fm size)
  fmem_alloc-Stored =
      rw (fmem_alloc-scan committers build m w base bs h fuel size enough small)
        (found-Ends (search need (base + head_size) bs))
