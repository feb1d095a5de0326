-- ===== src/Disk/Take.antt =====
-- What `fmem_alloc` has put on the store: a page that it takes whole, and nothing of a row that it
-- has split.
use memthing.Base.{
  All-append_left, All-append_right, Bool, List, [], arith, inl, inr, ℕ, ◌++◌, ◌+◌, ◌∷◌, ◌≡◌, ◌≢◌,
  ◌≤◌, ◌⊎◌,
}
use memthing.Blocks.{Block, Sized, block, total}
use memthing.Disk.{Saved, SavedAt, write}
use memthing.Disk.Row.{SavedRow-append, SavedRow-same, SavedRow-split}
use memthing.Disk.Write.{write-SavedAt, write-SavedAt_same}
use memthing.Fmem.{range}
use memthing.Heap.Invariant.{head_size}
use memthing.Heap.Layout.{SameAt}
use memthing.Memory.{Memory}

module _ (m m' store : Memory) (base : ℕ) (xs : List Block) (b : Block) (ys : List Block) where
  abbrev page : ℕ
  page = base + head_size + total xs

  -- The header of one page was written anew.
  pub marked-Saved :
      (busy : Bool)
      → ((q : ℕ) → m'.next q ≡ m.next q)
      → ((q : ℕ) → m'.prev q ≡ m.prev q)
      → ((q : ℕ) → q ≢ page → SameAt m m' q)
      → Sized (xs ++ b ∷ ys)
      → Saved m store base (xs ++ b ∷ ys)
      → Saved m' (write (range page 24 ∷ []) m' store) base (xs ++ block b.size busy ∷ ys)
  marked-Saved busy next prev same sized old =
      let a = base + head_size in
      let rs = range page 24 ∷ [] in
      let store' = write rs m' store in
      let (front, rest) = SavedRow-split m store a xs (b ∷ ys) old.1 in
      let sized_xs = All-append_left (λ b. 24 ≤ b.size) xs (b ∷ ys) sized in
      let sized_b = All-append_right (λ b. 24 ≤ b.size) xs (b ∷ ys) sized in
      let step = λ (q : ℕ) (ne : q ≢ page).
        write-SavedAt_same rs m m' store q (same q ne).0 (same q ne).1 (inl (next (q + 8)))
          (inl (prev (q + 8))) in
      (
        step base (omega arith) old.0,
        SavedRow-append m' store' a xs (block b.size busy ∷ ys)
            (SavedRow-same m m' store store' a xs (λ q lo hi. step q (omega arith)) sized_xs front)
            (
              write-SavedAt rs m' store page (ground arith) (ground arith) (ground arith)
                  (ground arith),
              SavedRow-same m m' store store' (page + b.size) ys
                  (λ q lo hi. step q (omega (arith, sized_b.0))) sized_b.1 rest.1,
            ),
      )

  -- A header that lies apart from what is written stays as it was.
  apart-SavedAt :
      (p q : ℕ)
      → (q + 24 ≤ p) ⊎ (p + 24 ≤ q)
      → SavedAt m store q
      → SavedAt m (write (range p 24 ∷ []) m' store) q
  unfolding write
  apart-SavedAt p q apart h = (
    ground (arith, apart, h),
    ground (arith, apart, h),
    ground (arith, apart, h),
    ground (arith, apart, h),
  )

  -- A header was written inside a block.
  pub inside-Saved :
      (p : ℕ)
      → page + 24 ≤ p
      → p + 24 ≤ page + b.size
      → Sized (xs ++ b ∷ ys)
      → Saved m store base (xs ++ b ∷ ys)
      → Saved m (write (range p 24 ∷ []) m' store) base (xs ++ b ∷ ys)
  inside-Saved p lo hi sized old =
      let a = base + head_size in
      let store' = write (range p 24 ∷ []) m' store in
      let (front, rest) = SavedRow-split m store a xs (b ∷ ys) old.1 in
      let sized_xs = All-append_left (λ b. 24 ≤ b.size) xs (b ∷ ys) sized in
      let sized_b = All-append_right (λ b. 24 ≤ b.size) xs (b ∷ ys) sized in
      (
        apart-SavedAt p base (inl (omega arith)) old.0,
        SavedRow-append m store' a xs (b ∷ ys)
            (SavedRow-same m m store store' a xs
              (λ q lo' hi'. apart-SavedAt p q (inl (omega arith))) sized_xs front)
            (
              apart-SavedAt p page (inl lo) rest.0,
              SavedRow-same m m store store' (page + b.size) ys
                  (λ q lo' hi'. apart-SavedAt p q (inr (omega arith))) sized_b.1 rest.1,
            ),
      )
