-- ===== src/Heap/JoinThree.antt =====
-- `fpage_merge` joins three pages of the row.
use memthing.Base.{
  All-append_right, List, [], add32, arith, refl, subst, ℕ, ◌++◌, ◌+◌, ◌<◌, ◌^◌, ◌∷◌, ◌≡◌, ◌≢◌, ◌≤◌,
}
use memthing.Blocks.{Block, block, total}
use memthing.Blocks.Row.{total-append}
use memthing.Heap.Invariant.{IsRow, head_size}
use memthing.Heap.Layout.{Headers-split, nodes, nodes-append}
use memthing.Heap.Merge.{absorbed-IsRow}
use memthing.LinkedList.{list_remove_at}
use memthing.LinkedList.Remove.{list_remove_at-second, list_remove_at-third}
use memthing.LinkedList.Ring.{Ring, Ring-same}
use memthing.Memory.{Memory, list_of, set_size}
use memthing.Page.{Build}

-- `v` and `t` behind it into `u`.
module _ (build : Build) (m : Memory) (base : ℕ) (us : List Block) (u v t : Block)
    (vs : List Block) where
  abbrev first : ℕ
  first = base + head_size + total us

  abbrev second : ℕ
  second = first + u.size

  abbrev third : ℕ
  third = second + v.size

  abbrev joined : ℕ → Memory
  joined n = list_remove_at (list_remove_at (set_size m first n) (third + 8)) (second + 8)

  removed-three :
      Ring m (base + 8) (nodes (base + head_size) (us ++ u ∷ v ∷ t ∷ vs))
      → (n : ℕ)
      → Ring
          (joined n)
          (base + 8)
          (nodes (base + head_size) us ++ (first + 8) ∷ nodes (third + t.size) vs)
  removed-three ring n =
      let m1 = set_size m first n in
      let front = nodes (base + head_size) us in
      let back = nodes (third + t.size) vs in
      let old =
        subst (Ring m (base + 8)) (nodes-append (base + head_size) us (u ∷ v ∷ t ∷ vs)) ring in
      list_remove_at-second (list_remove_at m1 (third + 8)) (base + 8) front (first + 8)
        (second + 8) back
        (list_remove_at-third m1 (base + 8) front (first + 8) (second + 8) (third + 8) back
          (Ring-same m m1 (base + 8) _ (λ _. refl) (λ _. refl) old))

  joined-headers :
      (n : ℕ)
      → ((joined n).size first ≡ n)
        × ((q : ℕ) → q ≢ first → (joined n).size q ≡ m.size q)
        × ((q : ℕ) → (joined n).flags q ≡ m.flags q)
  unfolding list_remove_at
  joined-headers n = (ground arith, λ q ne. ground arith, λ q. refl)

  pub join_three :
      (total (us ++ u ∷ v ∷ t ∷ vs) < 2 ^ 32)
        × (base + head_size + total (us ++ u ∷ v ∷ t ∷ vs) < 2 ^ 64)
      → IsRow build m base (us ++ u ∷ v ∷ t ∷ vs)
      → IsRow build
          (list_remove_at
            (list_remove_at
              (set_size m first (add32 (add32 (m.size first) (m.size second)) (m.size third)))
              (list_of third))
            (list_of second))
          base
          (us ++ block (u.size + v.size + t.size) u.busy ∷ vs)
  join_three small row =
      let bytes = total-append us (u ∷ v ∷ t ∷ vs) in
      let (at_u, (at_v, (at_t, _))) =
        (Headers-split build m (base + head_size) us (u ∷ v ∷ t ∷ vs) row.headers).1 in
      let least = (All-append_right (λ b. 24 ≤ b.size) us (u ∷ v ∷ t ∷ vs) row.sized).1 in
      let e : list_of second ≡ second + 8 = omega (arith, bytes, least.0, least.1.0) in
      let e' : list_of third ≡ third + 8 = omega (arith, bytes, least.0, least.1.0) in
      let n : ℕ = u.size + (v.size + (t.size + 0)) in
      let d : add32 (add32 (m.size first) (m.size second)) (m.size third) ≡ n =
        omega (arith, bytes, at_u.size, at_v.size, at_t.size) in
      let sum : n ≡ u.size + v.size + t.size = omega arith in
      let place : third + t.size ≡ first + n = omega arith in
      let ring =
        subst
          (λ k.
            Ring (joined n) (base + 8) (nodes (base + head_size) us ++ (first + 8) ∷ nodes k vs))
          place (removed-three row.ring n) in
      let (self, others, flags) = joined-headers n in
      rw (e, e', d)
        (subst (λ k. IsRow build (joined n) base (us ++ block k u.busy ∷ vs)) sum
          (absorbed-IsRow build m (joined n) base us u (v ∷ t ∷ []) vs row ring self others flags))
