-- ===== src/Blocks/Row.antt =====
-- Rows put together and cut: their bytes, and that no size gets lost.
use memthing.Base.{
  All-append, All-append_left, All-append_right, List, [], ap, arith, false, if◌then◌else◌, refl,
  true, ℕ, ◌*◌, ◌++◌, ◌+◌, ◌∷◌, ◌≡◌, ◌≤◌,
}
use memthing.Blocks.{Block, Sized, block, busy_count, free_bytes, join_left, join_right, total}

pub total-append : (xs ys : List Block) → total (xs ++ ys) ≡ total xs + total ys
total-append [] ys = omega arith
total-append (x ∷ xs) ys = omega (arith, total-append xs ys)

pub free_bytes-append : (xs ys : List Block) → free_bytes (xs ++ ys) ≡ free_bytes xs + free_bytes ys
free_bytes-append [] ys = omega arith
free_bytes-append (x ∷ xs) ys = omega (arith, free_bytes-append xs ys)

pub busy_count-append : (xs ys : List Block) → busy_count (xs ++ ys) ≡ busy_count xs + busy_count ys
busy_count-append [] ys = omega arith
busy_count-append (x ∷ xs) ys = omega (arith, busy_count-append xs ys)

-- There are no more busy blocks than headers fit.
pub busy_count-bound : (bs : List Block) → Sized bs → busy_count bs * 24 ≤ total bs
busy_count-bound [] s = omega arith
busy_count-bound (b ∷ bs) s = ground (arith, s.0, busy_count-bound bs s.1)

pub free_bytes-le : (bs : List Block) → free_bytes bs ≤ total bs
free_bytes-le [] = omega arith
free_bytes-le (b ∷ bs) = ground (arith, free_bytes-le bs)

-- The middle of a row is replaced by sized blocks.
pub Sized-replace :
    (xs mid mid' ys : List Block)
    → Sized mid'
    → Sized (xs ++ (mid ++ ys))
    → Sized (xs ++ (mid' ++ ys))
Sized-replace xs mid mid' ys new old =
    let rest = All-append_right (λ b. 24 ≤ b.size) xs (mid ++ ys) old in
    All-append (λ b. 24 ≤ b.size) xs (mid' ++ ys)
      (All-append_left (λ b. 24 ≤ b.size) xs (mid ++ ys) old)
      (All-append (λ b. 24 ≤ b.size) mid' ys new (All-append_right (λ b. 24 ≤ b.size) mid ys rest))

-- Joining to the left, where the last block is shown.
pub join_left-snoc :
    (us : List Block) (t : Block) (n : ℕ) (ys : List Block)
    → join_left (us ++ t ∷ []) n ys
      ≡ us ++ (if t.busy then t ∷ join_right n ys else join_right (t.size + n) ys)
join_left-snoc [] t n ys = refl
join_left-snoc (u ∷ []) t n ys = refl
join_left-snoc (u ∷ u' ∷ us) t n ys = ap (λ r. u ∷ r) (join_left-snoc (u' ∷ us) t n ys)

-- Joining to the right of a row whose first block is shown.
pub join_right-busy :
    (n : ℕ) (y : Block) (ys : List Block)
    → y.busy ≡ true
    → join_right n (y ∷ ys) ≡ block n false ∷ y ∷ ys
join_right-busy n y ys e = simp e refl

pub join_right-free :
    (n : ℕ) (y : Block) (ys : List Block)
    → y.busy ≡ false
    → join_right n (y ∷ ys) ≡ block (n + y.size) false ∷ ys
join_right-free n y ys e = simp e refl

pub join_left-busy :
    (x : Block) (n : ℕ) (ys : List Block)
    → x.busy ≡ true
    → join_left (x ∷ []) n ys ≡ x ∷ join_right n ys
join_left-busy x n ys e = simp e refl

pub join_left-free :
    (x : Block) (n : ℕ) (ys : List Block)
    → x.busy ≡ false
    → join_left (x ∷ []) n ys ≡ join_right (x.size + n) ys
join_left-free x n ys e = simp e refl
