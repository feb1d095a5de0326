-- ===== src/LinkedList/Remove.antt =====
-- `list_remove_at` on rings.
use memthing.Base.{
  ℕ, ◌≢◌, sym, subst, List, [], ◌∷◌, ◌++◌, append-nil, append_assoc, arith, Fresh, Distinct,
}
use memthing.Memory.{Memory, set_next, set_prev}
use memthing.LinkedList.{list_remove_at}
use memthing.LinkedList.Ring.{Seg, Ring, Ring-rotate}

-- The last link of a segment does not start at a node that the segment lacks.
prev-ne :
    (m : Memory) (a x : ℕ) (xs : List ℕ) (b : ℕ) → Seg m x xs b → Fresh a (x ∷ xs) → m.prev b ≢ a
prev-ne m a x [] b s f = λ e. f.0 (cc)
prev-ne m a x (y ∷ xs) b s f = prev-ne m a y xs b s.2 f.1

-- Turning the last link of a segment to another end, as `list_remove_at` does.
Seg-retarget :
    (m : Memory) (a : ℕ) (xs : List ℕ) (c b : ℕ)
    → Seg m a xs c
    → Distinct (a ∷ xs)
    → Fresh b xs
    → Seg (set_prev (set_next m (m.prev c) b) b (m.prev c)) a xs b
Seg-retarget m a [] c b s d f = ground arith
Seg-retarget m a (x ∷ xs) c b s d f =
    let ne = prev-ne m a x xs c s.2 d.0 in
    (ground arith, ground arith, Seg-retarget m x xs c b s.2 d.1 f.1)

-- Reading the ring from the node that is taken out.
remove_head :
    (m : Memory) (c z : ℕ) (zs : List ℕ) → Ring m c (z ∷ zs) → Ring (list_remove_at m c) z zs
unfolding list_remove_at
remove_head m c z zs r = record {
  links =
      subst (λ y. Seg (set_prev (set_next m (m.prev c) y) y (m.prev c)) z zs z) (sym r.links.0)
        (Seg-retarget m z zs c z r.links.2 r.distinct.1 r.distinct.1.0);
  distinct = r.distinct.1;
}

-- `list_remove_at` of a node of a ring other than the head leaves a ring of exactly the other nodes,
-- in their order.
pub list_remove_at-Ring :
    (m : Memory) (h : ℕ) (xs : List ℕ) (c : ℕ) (ys : List ℕ)
    → Ring m h (xs ++ c ∷ ys)
    → Ring (list_remove_at m c) h (xs ++ ys)
list_remove_at-Ring m h xs c [] r = rw append-nil (remove_head m c h xs (Ring-rotate h xs c [] r))
list_remove_at-Ring m h xs c (y ∷ ys) r =
    Ring-rotate y ys h xs (remove_head m c y (ys ++ h ∷ xs) (Ring-rotate h xs c (y ∷ ys) r))

-- The second and the third of a run of nodes.
pub list_remove_at-second :
    (m : Memory) (h : ℕ) (xs : List ℕ) (a c : ℕ) (ys : List ℕ)
    → Ring m h (xs ++ a ∷ c ∷ ys)
    → Ring (list_remove_at m c) h (xs ++ a ∷ ys)
list_remove_at-second m h xs a c ys r =
    subst (Ring (list_remove_at m c) h) (append_assoc xs (a ∷ []) ys) (
      list_remove_at-Ring m h (xs ++ a ∷ []) c ys
        (subst (Ring m h) (sym (append_assoc xs (a ∷ []) (c ∷ ys))) r))

pub list_remove_at-third :
    (m : Memory) (h : ℕ) (xs : List ℕ) (a b c : ℕ) (ys : List ℕ)
    → Ring m h (xs ++ a ∷ b ∷ c ∷ ys)
    → Ring (list_remove_at m c) h (xs ++ a ∷ b ∷ ys)
list_remove_at-third m h xs a b c ys r =
    subst (Ring (list_remove_at m c) h) (append_assoc xs (a ∷ []) (b ∷ ys)) (
      list_remove_at-second m h (xs ++ a ∷ []) b c ys
        (subst (Ring m h) (sym (append_assoc xs (a ∷ []) (b ∷ c ∷ ys))) r))
