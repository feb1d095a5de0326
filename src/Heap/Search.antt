-- ===== src/Heap/Search.antt =====
-- The loop of `fmem_alloc` over the pages finds what `first_fit` finds in the row.
use memthing.Base.{
  Bool-cases, List, [], ap, arith, false, if◌then◌else◌, inl, inr, leb, none, refl, some, true, ℕ,
  ◌++◌, ◌+◌, ◌-◌, ◌<◌, ◌^◌, ◌∷◌, ◌≡◌, ◌≤◌,
}
use memthing.Blocks.{Block, Sized, block, can_hold, first_fit, overhead, slack, total}
use memthing.Fmem.{Found, alloc_round, as_is, to_carve}
use memthing.Heap.Layout.{Headers, PageAt, check_passes, nodes}
use memthing.LinkedList.{Loop, Round, after, finished, go_on, leave, left}
use memthing.LinkedList.Iterate.{walk}
use memthing.Memory.{Memory, list_entry}
use memthing.Page.{Build, fpage_can_fit}

-- What a round of the loop does at a block.
abbrev pub block_round : (need a : ℕ) → Block → Round (Unit {0}) Found
block_round need a b =
    if can_hold need b
    then (if leb b.size (need + overhead + slack) then leave (as_is a) else leave (to_carve a))
    else go_on tt

-- What the loop does on a row.
abbrev pub scan : (need a : ℕ) → List Block → Loop (Unit {0}) Found
scan need a [] = finished tt
scan need a (b ∷ bs) = after (block_round need a b) λ _. scan need (a + b.size) bs

module _ (build : Build) (m : Memory) (need : ℕ) (small : need < 2 ^ 32) where
  pub alloc_round-block :
      (a : ℕ) (b : Block)
      → PageAt build m a b
      → a + 8 < 2 ^ 64
      → 24 ≤ b.size
      → b.size < 2 ^ 32
      → alloc_round build m need (a + 8) tt ≡ block_round need a b
  unfolding alloc_round fpage_can_fit
  alloc_round-block a b h high least most =
      let back : list_entry (a + 8) ≡ a = omega arith in
      rw (back, check_passes build m a b h, h.free) (ground (arith, h.size))

  pub walk-scan :
      (a : ℕ) (bs : List Block)
      → Headers build m a bs
      → Sized bs
      → total bs < 2 ^ 32
      → a + total bs < 2 ^ 64
      → walk (alloc_round build m need) (nodes a bs) tt ≡ scan need a bs
  walk-scan a [] h s lt high = refl
  walk-scan a (b ∷ bs) h s lt high =
      let here = alloc_round-block a b h.0 (omega (arith, s.0)) s.0 (omega arith) in
      let rest = walk-scan (a + b.size) bs h.1 s.1 (omega arith) (omega arith) in rw (here, rest)

-- Where the loop stops, and what `first_fit` says there.
pub data Search (need a : ℕ) (bs : List Block) : Type 0 where
  nothing : scan need a bs ≡ finished tt → first_fit need a bs ≡ none → Search need a bs
  whole :
      (xs : List Block) (b : Block) (ys : List Block)
      → bs ≡ xs ++ b ∷ ys
      → b.busy ≡ false
      → need + 24 ≤ b.size
      → scan need a bs ≡ left (as_is (a + total xs))
      → first_fit need a bs ≡ some (a + total xs, xs ++ block b.size true ∷ ys)
      → Search need a bs
  split :
      (xs : List Block) (b : Block) (ys : List Block)
      → bs ≡ xs ++ b ∷ ys
      → b.busy ≡ false
      → need + 72 < b.size
      → scan need a bs ≡ left (to_carve (a + total xs))
      → first_fit need a bs
        ≡ some (
          a + total xs + (b.size - (need + 24)),
          xs ++ block (b.size - (need + 24)) false ∷ block (need + 24) true ∷ ys,
        )
      → Search need a bs

module _ (need a : ℕ) (b : Block) (bs : List Block) where
  Search-here : can_hold need b ≡ true → Search need a (b ∷ bs)
  unfolding first_fit
  Search-here e = elim (Bool-cases (leb b.size (need + 72))) [
    | inl fits ↦ whole [] b bs refl (ground arith) (ground arith) (ground arith) (ground arith)
    | inr large ↦ split [] b bs refl (ground arith) (ground arith) (ground arith) (ground arith)
  ]

  Search-later : can_hold need b ≡ false → Search need (a + b.size) bs → Search need a (b ∷ bs)
  unfolding first_fit
  Search-later e (nothing p q) = nothing (rw e p) (ground arith)
  Search-later e (whole xs c ys d i f p q) =
      whole (b ∷ xs) c ys (ap (λ zs. b ∷ zs) d) i f (ground arith) (ground arith)
  Search-later e (split xs c ys d i f p q) =
      split (b ∷ xs) c ys (ap (λ zs. b ∷ zs) d) i f (ground arith) (ground arith)

pub search : (need a : ℕ) (bs : List Block) → Search need a bs
unfolding first_fit
search need a [] = nothing refl refl
search need a (b ∷ bs) = elim (Bool-cases (can_hold need b)) [
  | inl e ↦ Search-here need a b bs e
  | inr e ↦ Search-later need a b bs e (search need (a + b.size) bs)
]
