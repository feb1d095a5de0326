-- ===== src/Heap/Merge.antt =====
-- `fpage_merge` joins a free page of the row with its free neighbours.
use memthing.Base.{
  All-append_right, Bool, List, [], add32, arith, false, if◌then◌else◌, ne→==, refl, subst, sym,
  true, ℕ, ◌&&◌, ◌++◌, ◌+◌, ◌<◌, ◌^◌, ◌∷◌, ◌≡◌, ◌≢◌, ◌≤◌,
}
use memthing.Blocks.{Block, block, total}
use memthing.Blocks.Row.{Sized-replace, total-append}
use memthing.Heap.Invariant.{IsRow, head_size}
use memthing.Heap.Layout.{
  Headers-replace, Headers-split, PageAt-resize, PageAt-same, nodes, nodes-append,
}
use memthing.Heap.Take.{PageAt-middle}
use memthing.LinkedList.{list_remove_at}
use memthing.LinkedList.Remove.{list_remove_at-second}
use memthing.LinkedList.Ring.{Ring, Ring-same}
use memthing.Memory.{Memory, list_entry, list_of, set_size}
use memthing.Page.{Build, fpage_is_free, fpage_merge}

-- What `fpage_merge` does, by whether the page before `p` and the page behind it can be joined.
unfoldable pub merge_by : Memory → (p prev next : ℕ) (prev_free next_free : Bool) → Memory × ℕ
merge_by m p prev next true true =
    let m1 = set_size m prev (add32 (add32 (m.size prev) (m.size p)) (m.size next)) in
    (list_remove_at (list_remove_at m1 (list_of next)) (list_of p), prev)
merge_by m p prev next true false =
    let m1 = set_size m prev (add32 (m.size prev) (m.size p)) in
    (list_remove_at m1 (list_of p), prev)
merge_by m p prev next false true =
    let m1 = set_size m p (add32 (m.size p) (m.size next)) in (list_remove_at m1 (list_of next), p)
merge_by m p prev next false false = (m, p)

pub fpage_merge-by :
    (m : Memory) (p prev next : ℕ) (f g : Bool)
    → list_entry (m.prev (list_of p)) ≡ prev
    → list_entry (m.next (list_of p)) ≡ next
    → prev ≢ p
    → next ≢ p
    → fpage_is_free m prev ≡ f
    → fpage_is_free m next ≡ g
    → fpage_merge m p ≡ merge_by m p prev next f g
unfolding fpage_merge merge_by
fpage_merge-by m p prev next f g e d ne ne' u v =
    rw (e, d, ne→== prev p ne, ne→== next p ne', u, v) (cases f g)
  where
    cases :
        (f g : Bool)
        → (if f && g
            then merge_by m p prev next true true
            else (if f
                then merge_by m p prev next true false
                else (if g
                    then merge_by m p prev next false true
                    else merge_by m p prev next false false)))
          ≡ merge_by m p prev next f g
    cases true true = refl
    cases true false = refl
    cases false true = refl
    cases false false = refl

-- A page `u` of the row takes over the pages `mid` behind it, which leave the ring.
pub absorbed-IsRow :
    (build : Build) (m m' : Memory) (base : ℕ) (us : List Block) (u : Block) (mid vs : List Block)
    → let a = base + head_size in
      let p = a + total us in
      let n = u.size + total mid in
      IsRow build m base (us ++ (u ∷ mid ++ vs))
      → Ring m' (base + 8) (nodes a us ++ (p + 8) ∷ nodes (p + n) vs)
      → m'.size p ≡ n
      → ((q : ℕ) → q ≢ p → m'.size q ≡ m.size q)
      → ((q : ℕ) → m'.flags q ≡ m.flags q)
      → IsRow build m' base (us ++ block n u.busy ∷ vs)
absorbed-IsRow build m m' base us u mid vs row ring size same flags =
    let a = base + head_size in
    let p = a + total us in
    let old = PageAt-middle a us u (mid ++ vs) row.headers in
    let n : ℕ = u.size + total mid in
    let least = (All-append_right (λ b. 24 ≤ b.size) us (u ∷ mid ++ vs) row.sized).0 in
    record {
      head =
          PageAt-same build m m' base (block head_size true) (same base (omega arith), flags base)
            row.head;
      ring = subst (Ring m' (base + 8)) (sym (nodes-append a us (block n u.busy ∷ vs))) ring;
      headers =
          Headers-replace build m m' a us (u ∷ mid) (block n u.busy ∷ []) vs (omega arith) row.sized
            (λ q lo hi. (same q (omega arith), flags q))
            (λ q lo hi. (same q (omega (arith, least)), flags q))
            (PageAt-resize build m m' p u n size (flags p) old, tt) row.headers;
      sized =
          Sized-replace us (u ∷ mid) (block n u.busy ∷ []) vs (omega (arith, least), tt) row.sized;
    }

-- The headers after the first page of a join got its size and a node was taken out.
module _ (m : Memory) (p n node : ℕ) where
  remove_size_self : (list_remove_at (set_size m p n) node).size p ≡ n
  unfolding list_remove_at
  remove_size_self = ground arith

  remove_size_other : (q : ℕ) → q ≢ p → (list_remove_at (set_size m p n) node).size q ≡ m.size q
  unfolding list_remove_at
  remove_size_other q ne = ground arith

  remove_size_flags : (q : ℕ) → (list_remove_at (set_size m p n) node).flags q ≡ m.flags q
  unfolding list_remove_at
  remove_size_flags q = refl

-- The three joins, on a row whose pages stand at `p` and behind it.
module _ (build : Build) (m : Memory) (base : ℕ) (us : List Block) (u v : Block)
    (vs : List Block) where
  abbrev p : ℕ
  p = base + head_size + total us

  abbrev q : ℕ
  q = p + u.size

  abbrev Small : List Block → Type 0
  Small bs = (total bs < 2 ^ 32) × (base + head_size + total bs < 2 ^ 64)

  -- `v` into `u`, which keeps its place.
  -- What is left where the node of `v` is taken out.
  removed-two :
      Ring m (base + 8) (nodes (base + head_size) (us ++ u ∷ v ∷ vs))
      → (n : ℕ)
      → Ring
          (list_remove_at (set_size m p n) (q + 8))
          (base + 8)
          (nodes (base + head_size) us ++ (p + 8) ∷ nodes (q + v.size) vs)
  removed-two ring n =
      let m1 = set_size m p n in
      let old = subst (Ring m (base + 8)) (nodes-append (base + head_size) us (u ∷ v ∷ vs)) ring in
      list_remove_at-second m1 (base + 8) (nodes (base + head_size) us) (p + 8) (q + 8)
        (nodes (q + v.size) vs) (Ring-same m m1 (base + 8) _ (λ _. refl) (λ _. refl) old)

  pub join_two :
      Small (us ++ u ∷ v ∷ vs)
      → IsRow build m base (us ++ u ∷ v ∷ vs)
      → IsRow build
          (list_remove_at (set_size m p (add32 (m.size p) (m.size q))) (list_of q))
          base
          (us ++ block (u.size + v.size) u.busy ∷ vs)
  join_two small row =
      let bytes = total-append us (u ∷ v ∷ vs) in
      let (at_u, (at_v, _)) =
        (Headers-split build m (base + head_size) us (u ∷ v ∷ vs) row.headers).1 in
      let least = (All-append_right (λ b. 24 ≤ b.size) us (u ∷ v ∷ vs) row.sized).1.0 in
      let e : list_of q ≡ q + 8 = omega (arith, bytes, least) in
      let n : ℕ = u.size + (v.size + 0) in
      let d : add32 (m.size p) (m.size q) ≡ n = omega (arith, bytes, at_u.size, at_v.size) in
      let m' = list_remove_at (set_size m p n) (q + 8) in
      let place : q + v.size ≡ p + n = omega arith in
      let ring =
        subst (λ k. Ring m' (base + 8) (nodes (base + head_size) us ++ (p + 8) ∷ nodes k vs)) place
          (removed-two row.ring n) in
      let sum : n ≡ u.size + v.size = omega arith in
      rw (e, d)
        (subst (λ k. IsRow build m' base (us ++ block k u.busy ∷ vs)) sum
          (absorbed-IsRow build m m' base us u (v ∷ []) vs row ring (remove_size_self m p n (q + 8))
            (remove_size_other m p n (q + 8)) (remove_size_flags m p n (q + 8))))
