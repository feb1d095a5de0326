-- ===== src/Heap/Joined.antt =====
-- The row after `fpage_merge`, whatever the neighbours of the page are.
use memthing.Base.{
  All-append_left, All-append_right, Bool, List, [], add32, ap, append_assoc, arith, false, refl,
  subst, sym, true, ℕ, ◌++◌, ◌+◌, ◌∙◌, ◌∷◌, ◌≡◌, ◌≢◌, ◌≤◌,
}
use memthing.Blocks.{Block, Sized, block, join_left, join_right, release, total}
use memthing.Blocks.Row.{total-append}
use memthing.Heap.Invariant.{IsRow, head_size}
use memthing.Heap.JoinThree.{join_three}
use memthing.Heap.Merge.{fpage_merge-by, join_two, merge_by}
use memthing.Heap.Sides.{Left, Right, Small, left_side, right_side}
use memthing.LinkedList.{list_remove_at}
use memthing.Memory.{Memory, list_entry, list_of, set_size}
use memthing.Page.{Build, fpage_is_free, fpage_merge}

pub join_right-cons :
    (n : ℕ) (ys : List Block) (y : Block) (zs : List Block)
    → ys ≡ y ∷ zs
    → y.busy ≡ false
    → join_right n ys ≡ block (n + y.size) false ∷ zs
join_right-cons n ys y zs e d = ap (join_right n) e ∙ simp d refl

merge_by-fmem :
    (m : Memory) (p prev next : ℕ) (f g : Bool) → (merge_by m p prev next f g).0.fmem ≡ m.fmem
unfolding merge_by list_remove_at
merge_by-fmem m p prev next true true = refl
merge_by-fmem m p prev next true false = refl
merge_by-fmem m p prev next false true = refl
merge_by-fmem m p prev next false false = refl

-- What a merge at the page between `xs` and `ys` leaves.
abbrev pub Merged : Build → Memory → ℕ → List Block → ℕ → List Block → Memory → Type 0
Merged build m base xs n ys m' = IsRow build m' base (release xs n ys) × (m'.fmem ≡ m.fmem)

module _ (build : Build) (m : Memory) (base : ℕ) (xs : List Block) (n : ℕ) (ys : List Block)
    (small : Small base (xs ++ block n false ∷ ys))
    (row : IsRow build m base (xs ++ block n false ∷ ys)) where
  abbrev page : ℕ
  page = base + head_size + total xs

  fpage_merge-Merged :
      (prev next : ℕ) (f g : Bool)
      → list_entry (m.prev (list_of page)) ≡ prev
      → list_entry (m.next (list_of page)) ≡ next
      → prev ≢ page
      → next ≢ page
      → fpage_is_free m prev ≡ f
      → fpage_is_free m next ≡ g
      → IsRow build (merge_by m page prev next f g).0 base (release xs n ys)
      → Merged build m base xs n ys (fpage_merge m page).0
  fpage_merge-Merged prev next f g e d ne ne' u v r =
      subst (λ r. Merged build m base xs n ys r.0)
        (sym (fpage_merge-by m page prev next f g e d ne ne' u v))
        (r, merge_by-fmem m page prev next f g)

  -- A busy page before, and `y` behind.
  right-IsRow :
      (y : Block) (zs : List Block)
      → ys ≡ y ∷ zs
      → y.busy ≡ false
      → ((n : ℕ) → join_left xs n ys ≡ xs ++ join_right n ys)
      → (prev : ℕ)
      → IsRow build (merge_by m page prev (page + n) false true).0 base (release xs n ys)
  unfolding release merge_by
  right-IsRow y zs c busy join prev =
      let row_is : xs ++ block n false ∷ ys ≡ xs ++ block n false ∷ y ∷ zs =
        ap (λ r. xs ++ block n false ∷ r) c in
      subst (IsRow build _ base)
        (sym (join n ∙ ap (λ r. xs ++ r) (join_right-cons n ys y zs c busy)))
        (join_two build m base xs (block n false) y zs (subst (Small base) row_is small)
          (subst (IsRow build m base) row_is row))

  module _ (us : List Block) (t : Block) (e : xs ≡ us ++ t ∷ []) (busy : t.busy ≡ false)
      (join : (n : ℕ) → join_left xs n ys ≡ us ++ join_right (t.size + n) ys) where
    abbrev before : ℕ
    before = base + head_size + total us

    place : before + t.size ≡ page
    place = omega (arith, ap total e, total-append us (t ∷ []))

    -- `t` before, and a busy page behind.
    left-IsRow :
        (next : ℕ)
        → ((n : ℕ) → join_right n ys ≡ block n false ∷ ys)
        → IsRow build (merge_by m page before next true false).0 base (release xs n ys)
    unfolding release merge_by
    left-IsRow next join' =
        let row_is : xs ++ block n false ∷ ys ≡ us ++ t ∷ block n false ∷ ys =
          ap (λ r. r ++ block n false ∷ ys) e ∙ append_assoc us (t ∷ []) (block n false ∷ ys) in
        subst (IsRow build _ base)
          (ap (λ f. us ++ block (t.size + n) f ∷ ys) busy
            ∙ sym (join n ∙ ap (λ r. us ++ r) (join' (t.size + n))))
          (subst
            (λ q.
              IsRow build
                (list_remove_at (set_size m before (add32 (m.size before) (m.size q))) (list_of q))
                base (us ++ block (t.size + n) t.busy ∷ ys))
            place
            (join_two build m base us t (block n false) ys (subst (Small base) row_is small)
              (subst (IsRow build m base) row_is row)))

    -- `t` before, and `y` behind.
    both-IsRow :
        (y : Block) (zs : List Block)
        → ys ≡ y ∷ zs
        → y.busy ≡ false
        → IsRow build (merge_by m page before (page + n) true true).0 base (release xs n ys)
    unfolding release merge_by
    both-IsRow y zs c busy' =
        let row_is : xs ++ block n false ∷ ys ≡ us ++ t ∷ block n false ∷ y ∷ zs =
          ap (λ r. r ++ block n false ∷ ys) e
          ∙ append_assoc us (t ∷ []) (block n false ∷ ys)
          ∙ ap (λ r. us ++ t ∷ block n false ∷ r) c in
        subst (IsRow build _ base)
          (ap (λ f. us ++ block (t.size + n + y.size) f ∷ zs) busy
            ∙ sym (join n ∙ ap (λ r. us ++ r) (join_right-cons (t.size + n) ys y zs c busy')))
          (subst
            (λ q.
              IsRow build
                (list_remove_at
                  (list_remove_at
                    (set_size m before (add32 (add32 (m.size before) (m.size q)) (m.size (q + n))))
                    (list_of (q + n)))
                  (list_of q))
                base (us ++ block (t.size + n + y.size) t.busy ∷ zs))
            place
            (join_three build m base us t (block n false) y zs (subst (Small base) row_is small)
              (subst (IsRow build m base) row_is row)))

  not_self : (k : ℕ) → 24 ≤ k → page + k ≢ page
  not_self k h = omega arith

  sizes : (24 ≤ n) × Sized xs
  sizes = (
    (All-append_right (λ b. 24 ≤ b.size) xs (block n false ∷ ys) row.sized).0,
    All-append_left (λ b. 24 ≤ b.size) xs (block n false ∷ ys) row.sized,
  )

  not_before :
      (us : List Block) (t : Block) → xs ≡ us ++ t ∷ [] → base + head_size + total us ≢ page
  not_before us t e =
      let least = (All-append_right (λ b. 24 ≤ b.size) us (t ∷ []) (subst Sized e sizes.1)).0 in
      omega (arith, ap total e, total-append us (t ∷ []), least)

  merge_sides :
      Left build m base xs (block n false) ys
      → Right build m base xs (block n false) ys
      → Merged build m base xs n ys (fpage_merge m page).0
  unfolding release merge_by
  merge_sides (Left.shut prev e ne u join) (Right.shut next d ne' v join') =
      fpage_merge-Merged prev next false false e d ne ne' u v
        (subst (IsRow build m base) (sym (join n ∙ ap (λ r. xs ++ r) (join' n))) row)
  merge_sides (Left.shut prev e ne u join) (Right.free y zs c d v busy) =
      fpage_merge-Merged prev (page + n) false true e d ne (not_self n sizes.0) u v
        (right-IsRow y zs c busy join prev)
  merge_sides (Left.free us t c e u busy join) (Right.shut next d ne' v join') =
      fpage_merge-Merged (base + head_size + total us) next true false e d (not_before us t c) ne' u
        v (left-IsRow us t c busy join next join')
  merge_sides (Left.free us t c e u busy join) (Right.free y zs c' d v busy') =
      fpage_merge-Merged (base + head_size + total us) (page + n) true true e d (not_before us t c)
        (not_self n sizes.0) u v (both-IsRow us t c busy join y zs c' busy')

  -- `fpage_merge` at a free page of a row below the limits joins it with its free neighbours,
  -- whichever they are: in each of the four cases a well-formed row with the joined blocks is left,
  -- and no accounting object is changed.
  pub fpage_merge-IsRow : Merged build m base xs n ys (fpage_merge m page).0
  fpage_merge-IsRow =
      merge_sides (left_side build m base xs (block n false) ys small row)
        (right_side build m base xs (block n false) ys small row)
