-- ===== src/Blocks/Release.antt =====
-- What `release` does to the bytes and the blocks of a row.
use memthing.Base.{List, [], arith, refl, ℕ, ◌+◌, ◌∷◌, ◌≡◌}
use memthing.Blocks.{Block, busy_count, free_bytes, join_right, release, total}

total-join_right : (n : ℕ) (ys : List Block) → total (join_right n ys) ≡ n + total ys
total-join_right n [] = omega arith
total-join_right n (y ∷ ys) = ground arith

free_bytes-join_right : (n : ℕ) (ys : List Block) → free_bytes (join_right n ys) ≡ n + free_bytes ys
free_bytes-join_right n [] = omega arith
free_bytes-join_right n (y ∷ ys) = ground arith

busy_count-join_right : (n : ℕ) (ys : List Block) → busy_count (join_right n ys) ≡ busy_count ys
busy_count-join_right n [] = refl
busy_count-join_right n (y ∷ ys) = ground arith

pub total-release :
    (xs : List Block) (n : ℕ) (ys : List Block) → total (release xs n ys) ≡ total xs + n + total ys
unfolding release
total-release [] n ys = omega (arith, total-join_right n ys)
total-release (x ∷ []) n ys =
    ground (arith, total-join_right n ys, total-join_right (x.size + n) ys)
total-release (x ∷ x' ∷ xs) n ys = omega (arith, total-release (x' ∷ xs) n ys)

pub free_bytes-release :
    (xs : List Block) (n : ℕ) (ys : List Block)
    → free_bytes (release xs n ys) ≡ free_bytes xs + n + free_bytes ys
unfolding release
free_bytes-release [] n ys = omega (arith, free_bytes-join_right n ys)
free_bytes-release (x ∷ []) n ys =
    ground (arith, free_bytes-join_right n ys, free_bytes-join_right (x.size + n) ys)
free_bytes-release (x ∷ x' ∷ xs) n ys = omega (arith, free_bytes-release (x' ∷ xs) n ys)

pub busy_count-release :
    (xs : List Block) (n : ℕ) (ys : List Block)
    → busy_count (release xs n ys) ≡ busy_count xs + busy_count ys
unfolding release
busy_count-release [] n ys = omega (arith, busy_count-join_right n ys)
busy_count-release (x ∷ []) n ys =
    ground (arith, busy_count-join_right n ys, busy_count-join_right (x.size + n) ys)
busy_count-release (x ∷ x' ∷ xs) n ys = omega (arith, busy_count-release (x' ∷ xs) n ys)
