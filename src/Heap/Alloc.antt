-- ===== src/Heap/Alloc.antt =====
-- `fmem_alloc` hands out what `first_fit` hands out of the row.
use memthing.Base.{
  ℕ, suc, ◌+◌, ◌-◌, ◌^◌, ◌≤◌, ◌<◌, ◌≡◌, ◌≢◌, ◌∙◌, refl, sym, ap, subst, true, false, none, List, [],
  ◌∷◌, ◌++◌, arith, length,
}
use memthing.Memory.{Memory, list_of}
use memthing.LinkedList.{finished, list_for_each}
use memthing.LinkedList.Iterate.{list_for_each-walk}
use memthing.Page.{Build, fpage_from_mem, fpage_carve}
use memthing.Fmem.{take_page, alloc_round}
use memthing.Blocks.{Block, block, total, free_bytes, busy_count, first_fit}
use memthing.Blocks.Row.{total-append, free_bytes-append, busy_count-append}
use memthing.Heap.Layout.{nodes}
use memthing.Heap.Invariant.{IsRow, IsAccount, head_size, fmem_at, IsRow-set_fmem}
use memthing.Heap.Status.{busy_page}
use memthing.Heap.Account.{taken-IsAccount}
use memthing.Heap.Take.{busy_page-IsRow, busy_page-links, PageAt-middle}
use memthing.Heap.Carve.{carve-IsRow, fpage_carve-eq, linked, linked-fmem, result-size}
use memthing.Heap.Search.{Search, nothing, whole, split, search, scan, walk-scan}
use memthing.Heap.Lock.{IsHeld, fmem-set_fmem}

pub length-nodes : (a : ℕ) (bs : List Block) → length (nodes a bs) ≡ length bs
length-nodes a [] = refl
length-nodes a (b ∷ bs) = ap suc (length-nodes (a + b.size) bs)

-- With too little space available no block can hold the request.
pub nothing_fits :
    (need a : ℕ) (bs : List Block)
    → free_bytes bs < need + 24
    → (scan need a bs ≡ finished tt) × (first_fit need a bs ≡ none)
nothing_fits need a bs h = by (search need a bs)
  where
    crowded :
        (xs : List Block) (b : Block) (ys : List Block)
        → bs ≡ xs ++ b ∷ ys
        → b.busy ≡ false
        → b.size ≤ free_bytes bs
    crowded xs b ys e idle = rw e (ground (arith, free_bytes-append xs (b ∷ ys)))

    by : Search need a bs → (scan need a bs ≡ finished tt) × (first_fit need a bs ≡ none)
    by (nothing p q) = (p, q)
    by (whole xs b ys e idle f p q) = absurd (omega (arith, crowded xs b ys e idle))
    by (split xs b ys e idle f p q) = absurd (omega (arith, crowded xs b ys e idle))

module _ (build : Build) (m : Memory) (base : ℕ) (bs : List Block)
    (h : IsHeld build m base bs) where
  -- The loop, given more rounds than there are pages.
  pub loop-scan :
      (need fuel : ℕ)
      → need < 2 ^ 32
      → length bs < fuel
      → list_for_each m (list_of (fpage_from_mem (fmem_at base))) (alloc_round build m need) fuel tt
        ≡ scan need (base + head_size) bs
  unfolding fpage_from_mem
  loop-scan need fuel small enough =
      let a = h.account in
      let head : list_of (fpage_from_mem (fmem_at base)) ≡ base + 8 =
        omega (arith, a.span, a.fits) in
      rw head (
        list_for_each-walk (alloc_round build m need) m (base + 8) (nodes (base + head_size) bs)
          fuel tt h.row.ring (omega (arith, length-nodes (base + head_size) bs))
        ∙ walk-scan build m need small (base + head_size) bs h.row.headers h.row.sized
            (omega (arith, a.span, a.small)) (omega (arith, a.span, a.fits)))

-- The page `selected` is marked and accounted for, where marking it gives the row `bs'`.
taken-IsHeld :
    (build : Build) (m : Memory) (base selected : ℕ) (bs bs' : List Block)
    → IsRow build (busy_page build m selected) base bs'
    → IsAccount base (m.fmem (fmem_at base)) bs
    → total bs' ≡ total bs
    → free_bytes bs' + (busy_page build m selected).size selected ≡ free_bytes bs
    → busy_count bs' ≡ busy_count bs + 1
    → IsHeld build (take_page build m (fmem_at base) selected) base bs'
unfolding take_page
taken-IsHeld build m base selected bs bs' row acc same free busy =
    let m1 = busy_page build m selected in
    let fm = fmem_at base in
    let old =
      subst (λ f. IsAccount base f bs) (sym ((busy_page-links build m selected).2 fm)) acc in
    let n = m1.size selected in
    record {
      row = IsRow-set_fmem build m1 base bs' fm _ row;
      account =
          subst (λ f. IsAccount base f bs') (sym (fmem-set_fmem m1 fm _))
            (taken-IsAccount base (m1.fmem fm) bs bs' n same row.sized old free busy);
    }

module _ (build : Build) (m : Memory) (base : ℕ) (xs : List Block) (b : Block) (ys : List Block)
    (h : IsHeld build m base (xs ++ b ∷ ys)) (idle : b.busy ≡ false) where
  abbrev page : ℕ
  page = base + head_size + total xs

  abbrev whole_row : List Block
  whole_row = xs ++ block b.size true ∷ ys

  pub take-IsHeld : IsHeld build (take_page build m (fmem_at base) page) base whole_row
  take-IsHeld =
      let row = busy_page-IsRow build m base xs b ys h.row in
      let size = PageAt-middle (base + head_size) xs (block b.size true) ys row.headers in
      taken-IsHeld build m base page (xs ++ b ∷ ys) whole_row row h.account
        (omega (arith, total-append xs (b ∷ ys), total-append xs (block b.size true ∷ ys)))
        (ground (
          arith,
          size.size,
          free_bytes-append xs (b ∷ ys),
          free_bytes-append xs (block b.size true ∷ ys),
        ))
        (ground
          (arith, busy_count-append xs (b ∷ ys), busy_count-append xs (block b.size true ∷ ys)))

  pub carve-IsHeld :
      (need : ℕ)
      → 24 ≤ need
      → need + 72 < b.size
      → let left = b.size - (need + 24) in
        ((fpage_carve m page need).1 ≡ page + left)
        × IsHeld build
            (take_page build (fpage_carve m page need).0 (fmem_at base) (page + left))
            base
            (xs ++ block left false ∷ block (need + 24) true ∷ ys)
  carve-IsHeld need least large =
      let a = h.account in
      let left : ℕ = b.size - (need + 24) in
      let c = page + left in
      let ne : c ≢ page = omega arith in
      let old = PageAt-middle (base + head_size) xs b ys h.row.headers in
      let bytes = total-append xs (b ∷ ys) in
      let parts = block left false ∷ block (need + 24) true ∷ [] in
      let e =
        fpage_carve-eq m page b.size need old.size (omega arith)
          (omega (arith, bytes, a.span, a.small)) (omega (arith, bytes, a.span, a.fits)) in
      let m1 = linked m page c left (need + 24) ne in
      let row =
        carve-IsRow build m base xs b ys left (need + 24) (omega arith) (omega arith) (omega arith)
          idle h.row in
      rw e (
        refl,
        taken-IsHeld build m1 base c (xs ++ b ∷ ys) (xs ++ (parts ++ ys)) row
            (subst (λ f. IsAccount base f (xs ++ b ∷ ys))
              (sym (linked-fmem m page c left (need + 24) ne (fmem_at base))) a)
            (omega (arith, bytes, total-append xs (parts ++ ys)))
            (ground (
              arith,
              idle,
              result-size build m base xs b ys left (need + 24) (omega arith) (omega arith)
                  (omega arith) idle h.row,
              free_bytes-append xs (b ∷ ys),
              free_bytes-append xs (parts ++ ys),
            ))
            (ground
              (arith, idle, busy_count-append xs (b ∷ ys), busy_count-append xs (parts ++ ys))),
      )
