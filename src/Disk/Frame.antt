-- ===== src/Disk/Frame.antt =====
-- A row on the store after a page has taken over the pages behind it, as `fmem_free` commits it.
use memthing.Base.{
  All-append_left, All-append_right, List, [], arith, inl, inr, subst, sym, true, ℕ, ◌++◌, ◌+◌, ◌<◌,
  ◌∷◌, ◌≡◌, ◌≢◌, ◌≤◌, ◌⊎◌,
}
use memthing.Blocks.{Block, Sized, total}
use memthing.Disk.{Kept, Saved, SavedAt, SavedRow, covers, write}
use memthing.Disk.Row.{SavedRow-append, SavedRow-same, SavedRow-split}
use memthing.Disk.Write.{write-SavedAt, write-SavedAt_same}
use memthing.Fmem.{CommitRange, range}
use memthing.Heap.Invariant.{head_size}
use memthing.Memory.{Memory}

-- The ranges of `fmem_free`: the header of the page, and the links at `prev` and at `next`.
abbrev pub ranges : (page prev next : ℕ) → List CommitRange
ranges page prev next = range page 24 ∷ range prev 16 ∷ range next 16 ∷ []

module _ (m m' store : Memory) (p prev next : ℕ) where
  ranges-SavedAt : SavedAt m' (write (ranges p prev next) m' store) p
  ranges-SavedAt =
      write-SavedAt (ranges p prev next) m' store p (ground arith) (ground arith) (ground arith)
        (ground arith)

  links-covers : (x : ℕ) → x ≡ next → covers (ranges p prev next) (x + 8) 8 ≡ true
  links-covers x e = ground (arith, e)

  Kept-SavedAt :
      (x : ℕ)
      → Kept m m' next x
      → SavedAt m store x
      → SavedAt m' (write (ranges p prev next) m' store) x
  Kept-SavedAt x k h =
      write-SavedAt_same (ranges p prev next) m m' store x k.0 k.1 (inl k.2) (last k.3) h
    where
      last :
          {A : Type 0} → A ⊎ (x + 8 ≡ next) → A ⊎ (covers (ranges p prev next) (x + 8 + 8) 8 ≡ true)
      last (inl e) = inl e
      last (inr e) = inr (links-covers (x + 8) e)

-- The page behind `us` has taken over the pages `mid`, and is all that was changed but for links.
pub absorbed-Saved :
    (m m' store : Memory) (base : ℕ) (us mid vs : List Block) (b : Block) (page prev next : ℕ)
    → ((x : ℕ) → x ≢ base + head_size + total us → x ≢ page → Kept m m' next x)
    → base + head_size + total us ≤ page
    → page < base + head_size + total us + total mid
    → b.size ≡ total mid
    → Sized (us ++ (mid ++ vs))
    → Saved m store base (us ++ (mid ++ vs))
    → Saved m' (write (ranges (base + head_size + total us) prev next) m' store) base (us ++ b ∷ vs)
absorbed-Saved m m' store base us mid vs b page prev next kept lo hi size sized h =
    let a = base + head_size in
    let p = a + total us in
    let store' = write (ranges p prev next) m' store in
    let (front, rest) = SavedRow-split m store a us (mid ++ vs) h.1 in
    let (_, back) = SavedRow-split m store p mid vs rest in
    let sized_us = All-append_left (λ b. 24 ≤ b.size) us (mid ++ vs) sized in
    let sized_vs =
      All-append_right (λ b. 24 ≤ b.size) mid vs
        (All-append_right (λ b. 24 ≤ b.size) us (mid ++ vs) sized) in
    let step = λ (x : ℕ) (ne : x ≢ p) (ne' : x ≢ page).
      Kept-SavedAt m m' store p prev next x (kept x ne ne') in
    (
      step base (omega arith) (omega arith) h.0,
      SavedRow-append m' store' a us (b ∷ vs)
          (SavedRow-same m m' store store' a us (λ q lo' hi'. step q (omega arith) (omega arith))
            sized_us front)
          (
            ranges-SavedAt m m' store p prev next,
            subst (λ k. SavedRow m' store' (p + k) vs) (sym size)
                (SavedRow-same m m' store store' (p + total mid) vs
                  (λ q lo' hi'. step q (omega arith) (omega arith)) sized_vs back),
          ),
    )
