-- ===== src/Disk/Release.antt =====
-- The store after a page is set free and merged, whatever its neighbours are.
use memthing.Base.{
  All-append_left, All-append_right, List, [], ap, append_assoc, arith, false, inl, inr, refl,
  subst, sym, true, ℕ, ◌++◌, ◌+◌, ◌∙◌, ◌∷◌, ◌≡◌, ◌≢◌, ◌≤◌,
}
use memthing.Blocks.{Block, Sized, block, release, total}
use memthing.Blocks.Row.{total-append}
use memthing.Disk.{Saved}
use memthing.Disk.Frame.{absorbed-Saved}
use memthing.Disk.Joined.{freed, three-Saved, two-Saved}
use memthing.Fmem.{free_ranges}
use memthing.Heap.Invariant.{IsRow, head_size}
use memthing.Heap.Joined.{join_right-cons}
use memthing.Heap.Merge.{fpage_merge-by, merge_by}
use memthing.Heap.Sides.{Left, Right, Small, left_side, right_side}
use memthing.Heap.Take.{free_page-IsRow}
use memthing.LinkedList.{list_remove_at}
use memthing.Memory.{Memory, list_of, set_size}
use memthing.Page.{Build, fpage_merge, fpage_set_free}

module _ (build : Build) (m store : Memory) (base : ℕ) (xs : List Block) (b : Block)
    (ys : List Block) (row : IsRow build m base (xs ++ b ∷ ys)) (small : Small base (xs ++ b ∷ ys))
    (old : Saved m store base (xs ++ b ∷ ys)) where
  abbrev page : ℕ
  page = base + head_size + total xs

  abbrev m1 : Memory
  m1 = fpage_set_free m page

  abbrev Result : Memory × ℕ → List Block → Type 0
  Result (m', modified) bs = Saved m' (freed m' store page modified) base bs

  conclude :
      (r : Memory × ℕ) (bs : List Block)
      → fpage_merge m1 page ≡ r
      → release xs b.size ys ≡ bs
      → Result r bs
      → Result (fpage_merge m1 page) (release xs b.size ys)
  conclude r bs e d h =
      subst (λ r. Result r (release xs b.size ys)) (sym e) (subst (Result r) (sym d) h)

  -- No neighbour is free.
  none-Result : Result (m1, page) (xs ++ block b.size false ∷ ys)
  unfolding free_ranges fpage_set_free
  none-Result =
      let least = (All-append_right (λ b. 24 ≤ b.size) xs (b ∷ ys) row.sized).0 in
      absorbed-Saved m m1 store base xs (b ∷ []) ys (block b.size false) page
        (m1.prev (list_of page)) (m1.next (list_of page))
        (λ x ne ne'. (refl, ground (arith, ne), refl, inl refl)) (omega arith)
        (omega (arith, least)) (omega arith) row.sized old

  -- `y` behind is free.
  right-Result :
      (n : ℕ) (y : Block) (zs : List Block)
      → ys ≡ y ∷ zs
      → Result
          (list_remove_at (set_size m1 page n) (list_of (page + b.size)), page)
          (xs ++ block (b.size + y.size) false ∷ zs)
  right-Result n y zs e =
      let move = ap (λ r. xs ++ b ∷ r) e in
      two-Saved build m store base xs b y zs (subst (IsRow build m base) move row)
        (subst (Small base) move small) (subst (Saved m store base) move old) n
        (block (b.size + y.size) false) (omega arith) page (inl refl)

  module _ (us : List Block) (t : Block) (e : xs ≡ us ++ t ∷ []) where
    abbrev before : ℕ
    before = base + head_size + total us

    place : before + t.size ≡ page
    place = omega (arith, ap total e, total-append us (t ∷ []))

    move_left : xs ++ b ∷ ys ≡ us ++ t ∷ b ∷ ys
    move_left = ap (λ r. r ++ b ∷ ys) e ∙ append_assoc us (t ∷ []) (b ∷ ys)

    -- `t` before is free.
    left-Result :
        (n : ℕ)
        → Result
            (list_remove_at (set_size m1 before n) (list_of page), before)
            (us ++ block (t.size + b.size) false ∷ ys)
    left-Result n =
        subst
          (λ q.
            Result (list_remove_at (set_size m1 before n) (list_of q), before)
              (us ++ block (t.size + b.size) false ∷ ys))
          place
          (two-Saved build m store base us t b ys (subst (IsRow build m base) move_left row)
            (subst (Small base) move_left small) (subst (Saved m store base) move_left old) n
            (block (t.size + b.size) false) (omega arith) page (inr (sym place)))

    -- Both are.
    both-Result :
        (n : ℕ) (y : Block) (zs : List Block)
        → ys ≡ y ∷ zs
        → Result
            (
              list_remove_at
                  (list_remove_at (set_size m1 before n) (list_of (page + b.size)))
                  (list_of page),
              before,
            )
            (us ++ block (t.size + b.size + y.size) false ∷ zs)
    both-Result n y zs d =
        let move = move_left ∙ ap (λ r. us ++ t ∷ b ∷ r) d in
        subst
          (λ q.
            let m' =
              list_remove_at
                (list_remove_at (set_size (fpage_set_free m q) before n) (list_of (q + b.size)))
                (list_of q) in
            Saved m' (freed m' store q before) base
              (us ++ block (t.size + b.size + y.size) false ∷ zs))
          place
          (three-Saved build m store base us t b y zs (subst (IsRow build m base) move row)
            (subst (Small base) move small) (subst (Saved m store base) move old) n
            (block (t.size + b.size + y.size) false) (omega arith))

  least_size : 24 ≤ b.size
  least_size = (All-append_right (λ b. 24 ≤ b.size) xs (b ∷ ys) row.sized).0

  ne_before : (us : List Block) (t : Block) → xs ≡ us ++ t ∷ [] → base + head_size + total us ≢ page
  ne_before us t e =
      let sized = All-append_left (λ b. 24 ≤ b.size) xs (b ∷ ys) row.sized in
      let least = (All-append_right (λ b. 24 ≤ b.size) us (t ∷ []) (subst Sized e sized)).0 in
      omega (arith, ap total e, total-append us (t ∷ []), least)

  sides-Result :
      Left build m1 base xs (block b.size false) ys
      → Right build m1 base xs (block b.size false) ys
      → Result (fpage_merge m1 page) (release xs b.size ys)
  unfolding merge_by release
  sides-Result (Left.shut prev e ne u join) (Right.shut next d ne' v join') =
      conclude (m1, page) (xs ++ block b.size false ∷ ys)
        (fpage_merge-by m1 page prev next false false e d ne ne' u v)
        (join b.size ∙ ap (λ r. xs ++ r) (join' b.size)) none-Result
  sides-Result (Left.shut prev e ne u join) (Right.free y zs c d v busy) =
      conclude _ (xs ++ block (b.size + y.size) false ∷ zs)
        (fpage_merge-by m1 page prev (page + b.size) false true e d ne (omega (arith, least_size)) u
          v)
        (join b.size ∙ ap (λ r. xs ++ r) (join_right-cons b.size ys y zs c busy))
        (right-Result _ y zs c)
  sides-Result (Left.free us t c e u busy join) (Right.shut next d ne' v join') =
      conclude _ (us ++ block (t.size + b.size) false ∷ ys)
        (fpage_merge-by m1 page (base + head_size + total us) next true false e d (ne_before us t c)
          ne' u v)
        (join b.size ∙ ap (λ r. us ++ r) (join' (t.size + b.size))) (left-Result us t c _)
  sides-Result (Left.free us t c e u busy join) (Right.free y zs c' d v busy') =
      conclude _ (us ++ block (t.size + b.size + y.size) false ∷ zs)
        (fpage_merge-by m1 page (base + head_size + total us) (page + b.size) true true e d
          (ne_before us t c) (omega (arith, least_size)) u v)
        (join b.size ∙ ap (λ r. us ++ r) (join_right-cons (t.size + b.size) ys y zs c' busy'))
        (both-Result us t c _ y zs c')

  -- A row that was on the store is there again, with the block at `page` given back.
  pub merged-Saved : Result (fpage_merge m1 page) (release xs b.size ys)
  merged-Saved =
      let bytes = total-append xs (b ∷ ys) in
      let bytes' = total-append xs (block b.size false ∷ ys) in
      let small' : Small base (xs ++ block b.size false ∷ ys) =
        omega (arith, bytes, bytes', small) in
      let row' = free_page-IsRow build m base xs b ys row in
      sides-Result (left_side build m1 base xs (block b.size false) ys small' row')
        (right_side build m1 base xs (block b.size false) ys small' row')
