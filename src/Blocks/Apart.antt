-- ===== src/Blocks/Apart.antt =====
-- Rows in which no two neighbours are both free. Both operations keep rows so.
use memthing.Base.{
  Bool, Bool-cases, List, [], ap, arith, false, if◌then◌else◌, inl, inr, refl, subst, sym, true, ℕ,
  ◌++◌, ◌+◌, ◌∙◌, ◌∷◌, ◌≡◌,
}
use memthing.Blocks.{Block, block, join_left, join_right, release}
use memthing.Blocks.Row.{
  join_left-busy, join_left-free, join_left-snoc, join_right-busy, join_right-free,
}

abbrev pub busy_of : Block → Bool → Bool
busy_of b f = if b.busy then true else f

abbrev pub Apart : List Block → Type 0
Apart [] = Unit
Apart (x ∷ []) = Unit
Apart (x ∷ y ∷ ys) = (busy_of x y.busy ≡ true) × Apart (y ∷ ys)

pub Apart-tail : (x : Block) (xs : List Block) → Apart (x ∷ xs) → Apart xs
Apart-tail x [] h = tt
Apart-tail x (y ∷ ys) h = h.1

pub Apart-right : (xs ys : List Block) → Apart (xs ++ ys) → Apart ys
Apart-right [] ys h = h
Apart-right (x ∷ xs) ys h = Apart-right xs ys (Apart-tail x (xs ++ ys) h)

pub Apart-cons : (x : Block) (xs : List Block) → x.busy ≡ true → Apart xs → Apart (x ∷ xs)
Apart-cons x [] e h = tt
Apart-cons x (y ∷ ys) e h = (simp e refl, h)

-- A block before a row whose first block is known.
Apart-under :
    (x y : Block) (row ys : List Block)
    → row ≡ y ∷ ys
    → busy_of x y.busy ≡ true
    → Apart row
    → Apart (x ∷ row)
Apart-under x y row ys e d h = subst (λ r. Apart (x ∷ r)) (sym e) (d, subst Apart e h)

-- A free block in place of a block behind which the row is apart.
Apart-resize :
    (x : Block) (n : ℕ) (ys : List Block)
    → x.busy ≡ false
    → Apart (x ∷ ys)
    → Apart (block n false ∷ ys)
Apart-resize x n [] e h = tt
Apart-resize x n (y ∷ ys) e h = (simp e at (h.0), h.1)

Apart-join_right : (n : ℕ) (ys : List Block) → Apart ys → Apart (join_right n ys)
Apart-join_right n [] h = tt
Apart-join_right n (y ∷ ys) h = elim (Bool-cases y.busy) [
  | inl e ↦
      subst Apart (sym (join_right-busy n y ys e))
        (Apart-under (block n false) y (y ∷ ys) ys refl e h)
  | inr e ↦ subst Apart (sym (join_right-free n y ys e)) (Apart-resize y (n + y.size) ys e h)
]

join_left-first :
    (x : Block) (xs : List Block) (n : ℕ) (ys : List Block)
    → x.busy ≡ true
    → (zs : List Block) × (join_left (x ∷ xs) n ys ≡ x ∷ zs)
join_left-first x [] n ys e = (join_right n ys, simp e refl)
join_left-first x (x' ∷ xs) n ys e = (join_left (x' ∷ xs) n ys, refl)

pub release-Apart :
    (xs : List Block) (b : Block) (ys : List Block)
    → b.busy ≡ true
    → Apart (xs ++ b ∷ ys)
    → Apart (release xs b.size ys)
unfolding release
release-Apart [] b ys e h = Apart-join_right b.size ys (Apart-tail b ys h)
release-Apart (x ∷ []) b ys e h =
    let rest = Apart-tail b ys h.1 in
    elim (Bool-cases x.busy) [
      | inl d ↦
          subst Apart (sym (join_left-busy x b.size ys d))
            (Apart-cons x (join_right b.size ys) d (Apart-join_right b.size ys rest))
      | inr d ↦
          subst Apart (sym (join_left-free x b.size ys d))
            (Apart-join_right (x.size + b.size) ys rest)
    ]
release-Apart (x ∷ x' ∷ xs) b ys e h =
    let rest = release-Apart (x' ∷ xs) b ys e h.1 in
    elim (Bool-cases x'.busy) [
      | inl d ↦
          let (zs, f) = join_left-first x' xs b.size ys d in
          Apart-under x x' (join_left (x' ∷ xs) b.size ys) zs f h.0 rest
      | inr d ↦ Apart-cons x (join_left (x' ∷ xs) b.size ys) (ground (arith, h.0)) rest
    ]

-- The block before a free block is busy, and so is the block behind it.
pub Apart-before :
    (us : List Block) (t b : Block) (ys : List Block)
    → b.busy ≡ false
    → Apart (us ++ t ∷ b ∷ ys)
    → t.busy ≡ true
Apart-before us t b ys e h = ground (arith, (Apart-right us (t ∷ b ∷ ys) h).0)

pub join_right-alone :
    (n : ℕ) (b : Block) (ys : List Block)
    → b.busy ≡ false
    → Apart (b ∷ ys)
    → join_right n ys ≡ block n false ∷ ys
join_right-alone n b [] e h = refl
join_right-alone n b (y ∷ ys) e h = join_right-busy n y ys (ground (arith, h.0))

-- A block put back where a free block stood alone.
pub release-alone :
    (xs : List Block) (n : ℕ) (b : Block) (ys : List Block)
    → b.busy ≡ false
    → Apart (xs ++ b ∷ ys)
    → release xs n ys ≡ xs ++ block n false ∷ ys
unfolding release
release-alone [] n b ys e h = join_right-alone n b ys e h
release-alone (x ∷ []) n b ys e h =
    join_left-busy x n ys (Apart-before [] x b ys e h)
    ∙ ap (λ r. x ∷ r) (join_right-alone n b ys e h.1)
release-alone (x ∷ x' ∷ xs) n b ys e h = ap (λ r. x ∷ r) (release-alone (x' ∷ xs) n b ys e h.1)

-- A block put back behind the rest that it was split from.
pub release-split :
    (xs : List Block) (k n : ℕ) (b : Block) (ys : List Block)
    → b.busy ≡ false
    → Apart (xs ++ b ∷ ys)
    → release (xs ++ block k false ∷ []) n ys ≡ xs ++ block (k + n) false ∷ ys
unfolding release
release-split xs k n b ys e h =
    join_left-snoc xs (block k false) n ys
    ∙ ap (λ r. xs ++ r) (join_right-alone (k + n) b ys e (Apart-right xs (b ∷ ys) h))
