-- ===== src/Blocks/Busy.antt =====
-- The busy blocks of a row and where they are: apart from each other, and left alone while other
-- blocks are taken and given back.
use memthing.Base.{
  Bool-cases, List, [], ap, arith, false, inl, inr, refl, subst, sym, true, ℕ, ◌++◌, ◌+◌, ◌∷◌, ◌≡◌,
  ◌≢◌, ◌≤◌, ◌⊎◌,
}
use memthing.Blocks.{Block, Sized, block, join_right, release, total}
use memthing.Blocks.Row.{join_left-busy, join_left-free, join_right-busy, join_right-free}

-- In the row `bs` from `a` on, a busy block of `n` bytes is at `p`.
abbrev pub BusyAt : (bs : List Block) (a p n : ℕ) → Type 0
BusyAt [] a p n = ⊥
BusyAt (b ∷ bs) a p n = ((b.busy ≡ true) × (p ≡ a) × (n ≡ b.size)) ⊎ BusyAt bs (a + b.size) p n

pub BusyAt-range :
    (bs : List Block) (a p n : ℕ)
    → Sized bs
    → BusyAt bs a p n
    → (a ≤ p) × (24 ≤ n) × (p + n ≤ a + total bs)
BusyAt-range [] a p n s h = elim h [ ]
BusyAt-range (b ∷ bs) a p n s (inl h) = (omega (arith, h), omega (arith, h, s.0), omega (arith, h))
BusyAt-range (b ∷ bs) a p n s (inr h) =
    let (lo, least, hi) = BusyAt-range bs (a + b.size) p n s.1 h in
    (omega (arith, lo), least, omega (arith, hi))

-- A busy block splits its row.
pub data Found (bs : List Block) (a p n : ℕ) : Type 0 where
  between :
      (xs : List Block) (b : Block) (ys : List Block)
      → bs ≡ xs ++ b ∷ ys
      → b.busy ≡ true
      → p ≡ a + total xs
      → n ≡ b.size
      → Found bs a p n

pub BusyAt-Found : (bs : List Block) (a p n : ℕ) → BusyAt bs a p n → Found bs a p n
BusyAt-Found [] a p n h = elim h [ ]
BusyAt-Found (b ∷ bs) a p n (inl (busy, e, d)) = between [] b bs refl busy (omega (arith, e)) d
BusyAt-Found (b ∷ bs) a p n (inr h) = further (BusyAt-Found bs (a + b.size) p n h)
  where
    further : Found bs (a + b.size) p n → Found (b ∷ bs) a p n
    further (between xs c ys e busy d d') =
        between (b ∷ xs) c ys (ap (λ r. b ∷ r) e) busy (omega (arith, d)) d'

pub BusyAt-right :
    (a p n : ℕ) (xs ys : List Block) → BusyAt ys (a + total xs) p n → BusyAt (xs ++ ys) a p n
BusyAt-right a p n [] ys h = subst (λ k. BusyAt ys k p n) (omega arith) h
BusyAt-right a p n (x ∷ xs) ys h =
    inr (BusyAt-right (a + x.size) p n xs ys (subst (λ k. BusyAt ys k p n) (omega arith) h))

pub BusyAt-left : (a p n : ℕ) (xs ys : List Block) → BusyAt xs a p n → BusyAt (xs ++ ys) a p n
BusyAt-left a p n [] ys h = elim h [ ]
BusyAt-left a p n (x ∷ xs) ys (inl h) = inl h
BusyAt-left a p n (x ∷ xs) ys (inr h) = inr (BusyAt-left (a + x.size) p n xs ys h)

pub BusyAt-cases :
    (a p n : ℕ) (xs ys : List Block)
    → BusyAt (xs ++ ys) a p n
    → BusyAt xs a p n ⊎ BusyAt ys (a + total xs) p n
BusyAt-cases a p n [] ys h = inr (subst (λ k. BusyAt ys k p n) (omega arith) h)
BusyAt-cases a p n (x ∷ xs) ys (inl h) = inl (inl h)
BusyAt-cases a p n (x ∷ xs) ys (inr h) = elim (BusyAt-cases (a + x.size) p n xs ys h) [
  | inl k ↦ inl (inr k)
  | inr k ↦ inr (subst (λ k. BusyAt ys k p n) (omega arith) k)
]

-- The blocks around a block `b` whose place is taken by the blocks `mid`.
pub BusyAt-replace :
    (a p n : ℕ) (xs : List Block) (b : Block) (mid ys : List Block)
    → total mid ≡ b.size
    → BusyAt (xs ++ b ∷ ys) a p n
    → (b.busy ≡ false) ⊎ (p ≢ a + total xs)
    → BusyAt (xs ++ (mid ++ ys)) a p n
BusyAt-replace a p n xs b mid ys same h other = elim (BusyAt-cases a p n xs (b ∷ ys) h) [
  | inl k ↦ BusyAt-left a p n xs (mid ++ ys) k
  | inr k ↦ BusyAt-right a p n xs (mid ++ ys) (behind k)
]
  where
    here : (b.busy ≡ false) ⊎ (p ≢ a + total xs) → b.busy ≡ true → p ≡ a + total xs → ⊥
    here (inl unused) busy e = absurd (cc)
    here (inr ne) busy e = ne e

    behind : BusyAt (b ∷ ys) (a + total xs) p n → BusyAt (mid ++ ys) (a + total xs) p n
    behind (inl (busy, e, d)) = absurd (here other busy e)
    behind (inr k) =
        BusyAt-right (a + total xs) p n mid ys
          (subst (λ j. BusyAt ys (a + total xs + j) p n) (sym same) k)

BusyAt-join_right :
    (a p k n : ℕ) (ys : List Block) → BusyAt ys (a + n) p k → BusyAt (join_right n ys) a p k
BusyAt-join_right a p k n [] h = elim h [ ]
BusyAt-join_right a p k n (y ∷ ys) h = elim (Bool-cases y.busy) [
  | inl e ↦ subst (λ r. BusyAt r a p k) (sym (join_right-busy n y ys e)) (inr h)
  | inr e ↦ subst (λ r. BusyAt r a p k) (sym (join_right-free n y ys e)) (inr (joined h e))
]
  where
    joined :
        ((y.busy ≡ true) × (p ≡ a + n) × (k ≡ y.size)) ⊎ BusyAt ys (a + n + y.size) p k
        → y.busy ≡ false
        → BusyAt ys (a + (n + y.size)) p k
    joined (inl (busy, e, d)) unused = absurd (cc)
    joined (inr h) unused = subst (λ j. BusyAt ys j p k) (omega arith) h

-- Joining a free block with its neighbours leaves the busy blocks where they are.
pub BusyAt-release :
    (a p k : ℕ) (xs : List Block) (n : ℕ) (ys : List Block)
    → BusyAt (xs ++ block n false ∷ ys) a p k
    → BusyAt (release xs n ys) a p k
unfolding release
BusyAt-release a p k [] n ys (inl (busy, e, d)) = absurd (cc)
BusyAt-release a p k [] n ys (inr h) = BusyAt-join_right a p k n ys h
BusyAt-release a p k (x ∷ []) n ys h = elim (Bool-cases x.busy) [
  | inl e ↦ subst (λ r. BusyAt r a p k) (sym (join_left-busy x n ys e)) (kept h)
  | inr e ↦ subst (λ r. BusyAt r a p k) (sym (join_left-free x n ys e)) (joined h e)
]
  where
    kept :
        ((x.busy ≡ true) × (p ≡ a) × (k ≡ x.size)) ⊎ BusyAt (block n false ∷ ys) (a + x.size) p k
        → BusyAt (x ∷ join_right n ys) a p k
    kept (inl h) = inl h
    kept (inr (inl (busy, e, d))) = absurd (cc)
    kept (inr (inr h)) = inr (BusyAt-join_right (a + x.size) p k n ys h)

    joined :
        ((x.busy ≡ true) × (p ≡ a) × (k ≡ x.size)) ⊎ BusyAt (block n false ∷ ys) (a + x.size) p k
        → x.busy ≡ false
        → BusyAt (join_right (x.size + n) ys) a p k
    joined (inl (busy, e, d)) unused = absurd (cc)
    joined (inr (inl (busy, e, d))) unused = absurd (cc)
    joined (inr (inr h)) unused =
        BusyAt-join_right a p k (x.size + n) ys (subst (λ j. BusyAt ys j p k) (omega arith) h)
BusyAt-release a p k (x ∷ x' ∷ xs) n ys (inl h) = inl h
BusyAt-release a p k (x ∷ x' ∷ xs) n ys (inr h) =
    inr (BusyAt-release (a + x.size) p k (x' ∷ xs) n ys h)
