-- ===== src/Blocks.antt =====
-- The allocator as its clients see it: a row of blocks, each free or busy, which are found first fit,
-- split from their upper end, and joined with their free neighbours when they are given back.
-- fmem/fmem.c describes this policy in its comments; nothing here reads its memory.
pub mod Row
pub mod Release
pub mod Apart
pub mod Busy
use memthing.Base.{
  ℕ, ◌+◌, ◌-◌, ◌≤◌, ◌<◌, Bool, true, false, not, ◌&&◌, Option, none, some, List, [], ◌∷◌, ltb, leb,
  if◌then◌else◌, All,
}

-- A block with the `overhead` bytes of its header.
pub record Block : Type 0 where
  pub size : ℕ
  pub busy : Bool

abbrev pub block : ℕ → Bool → Block
block n b = record { size = n; busy = b }

-- The bytes of a header, and how much more than a request a block may hold and not be split.
abbrev pub overhead : ℕ
overhead = 24

abbrev pub slack : ℕ
slack = 48

abbrev pub total : List Block → ℕ
total [] = 0
total (b ∷ bs) = b.size + total bs

-- The bytes in free blocks, and the number of busy blocks.
abbrev pub free_bytes : List Block → ℕ
free_bytes [] = 0
free_bytes (b ∷ bs) = (if b.busy then 0 else b.size) + free_bytes bs

abbrev pub busy_count : List Block → ℕ
busy_count [] = 0
busy_count (b ∷ bs) = (if b.busy then 1 else 0) + busy_count bs

-- Every block has room for its header.
abbrev pub Sized : List Block → Type 0
Sized = All (λ b. overhead ≤ b.size)

abbrev pub can_hold : ℕ → Block → Bool
can_hold need b = not b.busy && leb (need + overhead) b.size

-- The first free block that can hold `need` bytes. It is taken whole unless more than `slack` bytes
-- would be left; else its upper end is split off. The result is the address of the taken block, if
-- the first of the row is at `a`, and the row that is left.
unfoldable pub first_fit : (need a : ℕ) → List Block → Option (ℕ × List Block)
first_fit need a [] = none
first_fit need a (b ∷ bs) =
    let rest = first_fit need (a + b.size) bs in
    if can_hold need b
    then (if leb b.size (need + overhead + slack)
        then some (a, block b.size true ∷ bs)
        else (let left = b.size - (need + overhead) in
            some (a + left, block left false ∷ block (need + overhead) true ∷ bs)))
    else elim rest [ none ↦ none | some (p, bs') ↦ some (p, b ∷ bs') ]

-- A free block of `n` bytes in front of a row, joined with the first block if that is free.
abbrev pub join_right : ℕ → List Block → List Block
join_right n [] = block n false ∷ []
join_right n (y ∷ ys) = if y.busy then block n false ∷ y ∷ ys else block (n + y.size) false ∷ ys

-- The same behind a row, joined with its last block if that is free.
abbrev pub join_left : List Block → ℕ → List Block → List Block
join_left [] n ys = join_right n ys
join_left (x ∷ []) n ys = if x.busy then x ∷ join_right n ys else join_right (x.size + n) ys
join_left (x ∷ x' ∷ xs) n ys = x ∷ join_left (x' ∷ xs) n ys

-- The row after the busy block of `n` bytes between `xs` and `ys` is given back.
unfoldable pub release : List Block → ℕ → List Block → List Block
release = join_left
