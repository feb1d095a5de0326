-- ===== src/Heap/Sides.antt =====
-- What `fpage_merge` reads on both sides of a page of the row.
use memthing.Base.{
  append_assoc, sym, snoc_cases, All-append_right, Bool-cases, List, [], ap, arith, false, inl, inr,
  not, refl, subst, true, ℕ, ◌++◌, ◌+◌, ◌<◌, ◌^◌, ◌∙◌, ◌∷◌, ◌≡◌, ◌≢◌, ◌≤◌,
}
use memthing.Blocks.Row.{join_left-snoc, total-append}
use memthing.LinkedList.Ring.{Ring-prev_first, Ring-prev, Ring, Ring-next, Ring-next_last}
use memthing.Blocks.{Block, block, join_left, join_right, total}
use memthing.Heap.Invariant.{IsRow, head_size}
use memthing.Heap.Layout.{Headers-split, nodes, nodes-append}
use memthing.Memory.{Memory, list_entry, list_of}
use memthing.Page.{Build, fpage_is_free}

module _ (build : Build) (m : Memory) (base : ℕ) (xs : List Block) (b : Block)
    (ys : List Block) where
  abbrev pub page : ℕ
  page = base + head_size + total xs

  -- The page behind is busy, or the head; or it is free.
  pub data Right : Type 0 where
    shut :
        (next : ℕ)
        → list_entry (m.next (list_of page)) ≡ next
        → next ≢ page
        → fpage_is_free m next ≡ false
        → ((n : ℕ) → join_right n ys ≡ block n false ∷ ys)
        → Right
    free :
        (y : Block) (zs : List Block)
        → ys ≡ y ∷ zs
        → list_entry (m.next (list_of page)) ≡ page + b.size
        → fpage_is_free m (page + b.size) ≡ true
        → y.busy ≡ false
        → Right

  -- The page before, in the same way.
  pub data Left : Type 0 where
    shut :
        (prev : ℕ)
        → list_entry (m.prev (list_of page)) ≡ prev
        → prev ≢ page
        → fpage_is_free m prev ≡ false
        → ((n : ℕ) → join_left xs n ys ≡ xs ++ join_right n ys)
        → Left
    free :
        (us : List Block) (t : Block)
        → xs ≡ us ++ t ∷ []
        → list_entry (m.prev (list_of page)) ≡ base + head_size + total us
        → fpage_is_free m (base + head_size + total us) ≡ true
        → t.busy ≡ false
        → ((n : ℕ) → join_left xs n ys ≡ us ++ join_right (t.size + n) ys)
        → Left

-- Every page of a row is below the limit.
abbrev pub Small : ℕ → List Block → Type 0
Small base bs = (total bs < 2 ^ 32) × (base + head_size + total bs < 2 ^ 64)

module _ (build : Build) (m : Memory) (base : ℕ) (xs : List Block) (b : Block) where
  abbrev at : ℕ
  at = base + head_size + total xs

  Ring-nodes :
      (ys : List Block)
      → IsRow build m base (xs ++ b ∷ ys)
      → Ring m (base + 8) (nodes (base + head_size) xs ++ (at + 8) ∷ nodes (at + b.size) ys)
  Ring-nodes ys row =
      subst (Ring m (base + 8)) (nodes-append (base + head_size) xs (b ∷ ys)) row.ring

  node-eq :
      (ys : List Block)
      → Small base (xs ++ b ∷ ys)
      → IsRow build m base (xs ++ b ∷ ys)
      → list_of at ≡ at + 8
  node-eq ys small row =
      let least = (All-append_right (λ b. 24 ≤ b.size) xs (b ∷ ys) row.sized).0 in
      omega (arith, total-append xs (b ∷ ys), least)

  pub right_side :
      (ys : List Block)
      → Small base (xs ++ b ∷ ys)
      → IsRow build m base (xs ++ b ∷ ys)
      → Right build m base xs b ys
  right_side [] small row =
      let node = node-eq [] small row in
      let link =
        Ring-next_last m (base + 8) (nodes (base + head_size) xs) (at + 8) (Ring-nodes [] row) in
      let back : list_entry (base + 8) ≡ base = omega arith in
      Right.shut base (rw (node, link) back) (omega arith) row.head.free (λ n. refl)
  right_side (y ∷ ys) small row =
      let node = node-eq (y ∷ ys) small row in
      let link =
        Ring-next m (base + 8) (nodes (base + head_size) xs) (at + 8) (at + b.size + 8)
          (nodes (at + b.size + y.size) ys) (Ring-nodes (y ∷ ys) row) in
      let bytes = total-append xs (b ∷ y ∷ ys) in
      let least = (All-append_right (λ b. 24 ≤ b.size) xs (b ∷ y ∷ ys) row.sized) in
      let back : list_entry (at + b.size + 8) ≡ at + b.size =
        omega (arith, bytes, least.0, least.1.0) in
      let header = (Headers-split build m (base + head_size) xs (b ∷ y ∷ ys) row.headers).1.1.0 in
      elim (Bool-cases y.busy) [
        | inl e ↦
            Right.shut (at + b.size) (rw (node, link) back) (omega (arith, least.0))
              (header.free ∙ ap not e) (λ n. ground arith)
        | inr e ↦ Right.free y ys refl (rw (node, link) back) (header.free ∙ ap not e) e
      ]

  left_side_first :
      (ys : List Block)
      → Small base (b ∷ ys)
      → IsRow build m base (b ∷ ys)
      → Left build m base [] b ys
  left_side_first ys small row =
      let node : list_of (base + head_size + 0) ≡ base + head_size + 8 =
        omega (arith, row.sized.0) in
      let link =
        Ring-prev_first m (base + 8) (base + head_size + 8) (nodes (base + head_size + b.size) ys)
          row.ring in
      let back : list_entry (base + 8) ≡ base = omega arith in
      Left.shut base (rw (node, link) back) (omega arith) row.head.free (λ n. refl)

left_side_snoc :
    (build : Build) (m : Memory) (base : ℕ) (us : List Block) (t b : Block) (ys : List Block)
    → Small base (us ++ t ∷ b ∷ ys)
    → IsRow build m base (us ++ t ∷ b ∷ ys)
    → Left build m base (us ++ t ∷ []) b ys
left_side_snoc build m base us t b ys small row =
    let a = base + head_size in
    let p : ℕ = a + total us in
    let least = All-append_right (λ b. 24 ≤ b.size) us (t ∷ b ∷ ys) row.sized in
    let bytes = total-append us (t ∷ b ∷ ys) in
    let place = total-append us (t ∷ []) in
    let node : list_of (a + total (us ++ t ∷ [])) ≡ p + t.size + 8 =
      omega (arith, bytes, place, least.1.0) in
    let link =
      Ring-prev m (base + 8) (nodes a us) (p + 8) (p + t.size + 8) (nodes (p + t.size + b.size) ys)
        (subst (Ring m (base + 8)) (nodes-append a us (t ∷ b ∷ ys)) row.ring) in
    let back : list_entry (p + 8) ≡ p = omega (arith, bytes, least.1.0) in
    let header = (Headers-split build m a us (t ∷ b ∷ ys) row.headers).1.0 in
    elim (Bool-cases t.busy) [
      | inl e ↦
          Left.shut p (rw (node, link) back) (omega (arith, place, least.0))
            (header.free ∙ ap not e)
            (λ n.
              join_left-snoc us t n ys ∙ simp e (sym (append_assoc us (t ∷ []) (join_right n ys))))
      | inr e ↦
          Left.free us t refl (rw (node, link) back) (header.free ∙ ap not e) e
            (λ n. join_left-snoc us t n ys ∙ simp e refl)
    ]

pub left_side :
    (build : Build) (m : Memory) (base : ℕ) (xs : List Block) (b : Block) (ys : List Block)
    → Small base (xs ++ b ∷ ys)
    → IsRow build m base (xs ++ b ∷ ys)
    → Left build m base xs b ys
left_side build m base xs b ys small row = elim (snoc_cases xs) [
  | inl e ↦
      subst
        (λ xs.
          Small base (xs ++ b ∷ ys) → IsRow build m base (xs ++ b ∷ ys) → Left build m base xs b ys)
        (sym e) (left_side_first build m base [] b ys) small row
  | inr (us, t, e) ↦
      subst
        (λ xs.
          Small base (xs ++ b ∷ ys) → IsRow build m base (xs ++ b ∷ ys) → Left build m base xs b ys)
        (sym e)
        (λ small row.
          left_side_snoc build m base us t b ys
            (subst (Small base) (append_assoc us (t ∷ []) (b ∷ ys)) small)
            (subst (IsRow build m base) (append_assoc us (t ∷ []) (b ∷ ys)) row))
        small row
]
