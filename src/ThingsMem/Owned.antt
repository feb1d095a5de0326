-- ===== src/ThingsMem/Owned.antt =====
-- Things in memory that the allocator has handed out, and the allocator around them.
use memthing.Base.{
  All, All-map, Fresh, List, [], ap, arith, inl, inr, subst, sym, true, ℕ, ◌+◌, ◌∙◌, ◌∷◌, ◌≡◌, ◌≢◌,
  ◌≤◌,
}
use memthing.Blocks.{Block, Sized, block, overhead}
use memthing.Blocks.Busy.{BusyAt, BusyAt-range}
use memthing.Heap.Invariant.{IsAccount, IsHeap, fmem_at, head_size}
use memthing.Heap.Layout.{SameAt, Fresh-below, Headers-same, PageAt-same, nodes}
use memthing.Page.{Build}
use memthing.Things.{Store}
use memthing.Things.Make.{OnlyAt}
use memthing.Things.Put.{Seg-at}

-- The memory behind the header of a busy block with room for a thing.
pub record Owned (bs : List Block) (start x : ℕ) : Type 0 where
  pub page : ℕ
  pub bytes : ℕ
  pub place : x ≡ page + overhead
  pub room : 48 ≤ bytes
  pub busy : BusyAt bs start page bytes

-- No page's links stand there.
Owned-Fresh :
    (bs : List Block) (a p n : ℕ)
    → Sized bs
    → 48 ≤ n
    → BusyAt bs a p n
    → Fresh (p + 24) (nodes a bs)
Owned-Fresh [] a p n s le h = tt
Owned-Fresh (b ∷ bs) a p n s le (inl (busy, e, d)) =
    (omega (arith, e), Fresh-below (p + 24) (a + b.size) bs (omega (arith, e, d, le)))
Owned-Fresh (b ∷ bs) a p n s le (inr h) =
    let range = BusyAt-range bs (a + b.size) p n s.1 h in
    (omega (arith, range.0), Owned-Fresh bs (a + b.size) p n s.1 le h)

-- The same said of the nodes.
Fresh-flip : (xs ys : List ℕ) → All (λ x. Fresh x ys) xs → All (λ y. Fresh y xs) ys
Fresh-flip [] ys h = none_of ys
  where
    none_of : (ys : List ℕ) → All (λ y. Fresh y []) ys
    none_of [] = tt
    none_of (y ∷ ys) = (tt, none_of ys)
Fresh-flip (x ∷ xs) ys h = both ys h.0 (Fresh-flip xs ys h.1)
  where
    both : (ys : List ℕ) → Fresh x ys → All (λ y. Fresh y xs) ys → All (λ y. Fresh y (x ∷ xs)) ys
    both [] f g = tt
    both (y ∷ ys) f g = (((λ e. f.0 (sym e)), g.0), both ys f.1 g.1)

-- The allocator does not depend on what the program writes to its things.
pub OnlyAt-IsHeap :
    (build : Build) (base : ℕ) (bs : List Block) (taken : List ℕ) (s t : Store)
    → All (Owned bs (base + head_size)) taken
    → OnlyAt taken s t
    → IsHeap build s.memory base bs
    → IsHeap build t.memory base bs
OnlyAt-IsHeap build base bs taken s t owned only heap =
    let a = base + head_size in
    let m = s.memory in
    let n = t.memory in
    let row = heap.row in
    let apart = Fresh-flip taken (nodes a bs) (
      All-map (Owned bs a) (λ x. Fresh x (nodes a bs))
        (λ x o.
          subst (λ x. Fresh x (nodes a bs)) (sym o.place)
            (Owned-Fresh bs a o.page o.bytes row.sized o.room o.busy))
        taken owned) in
    let head_apart : Fresh (base + 8) taken =
      All-map (Owned bs a) (λ x. base + 8 ≢ x)
        (λ x o.
          let range = BusyAt-range bs a o.page o.bytes row.sized o.busy in
          omega (arith, o.place, range.0))
        taken owned in
    let same : (q : ℕ) → SameAt m n q = λ q. (ap (λ f. f q) only.size, ap (λ f. f q) only.flags) in
    let here = ap (λ f. f (fmem_at base)) only.fmem in
    record {
      row = record {
        head = PageAt-same build m n base (block head_size true) (same base) row.head;
        ring = record {
          links =
              Seg-at m n (base + 8) (nodes a bs) (base + 8) (only.next (base + 8) head_apart)
                (All-map (λ y. Fresh y taken) (λ x. (n.next x ≡ m.next x) × (n.prev x ≡ m.prev x))
                  (λ x f. (only.next x f, only.prev x f)) (nodes a bs) apart)
                (only.prev (base + 8) head_apart) row.ring.links;
          distinct = row.ring.distinct;
        };
        headers = Headers-same build m n a bs (λ p lo hi. same p) row.sized row.headers;
        sized = row.sized;
      };
      account = subst (λ f. IsAccount base f bs) (sym here) heap.account;
      unlocked = ap (λ f. f.lock) here ∙ heap.unlocked;
    }
