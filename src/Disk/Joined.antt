-- ===== src/Disk/Joined.antt =====
-- The rows that `fpage_merge` leaves, on a store that has the ranges of `fmem_free`.
use memthing.Base.{
  All-append_right, List, [], ap, arith, inl, inr, subst, sym, ℕ, ◌++◌, ◌+◌, ◌∙◌, ◌∷◌, ◌≡◌, ◌≢◌,
  ◌≤◌, ◌⊎◌,
}
use memthing.Blocks.{Block, total}
use memthing.Blocks.Row.{total-append}
use memthing.Disk.{Kept, Saved, write}
use memthing.Disk.Frame.{absorbed-Saved}
use memthing.Disk.Merge.{three, three-Kept, three-next, two, two-Kept, two-next}
use memthing.Fmem.{free_ranges}
use memthing.Heap.Invariant.{IsRow, head_size}
use memthing.Heap.Layout.{nodes, nodes-append}
use memthing.Heap.Sides.{Small}
use memthing.LinkedList.{list_remove_at}
use memthing.LinkedList.Ring.{Ring, Ring-prev, Seg, Seg-split}
use memthing.Memory.{Memory, list_of, set_size}
use memthing.Page.{Build, fpage_set_free}

-- Setting a page free touches its flags only.
Kept-set_free :
    (m m' : Memory) (page next next' x : ℕ)
    → next' ≡ next
    → x ≢ page
    → Kept (fpage_set_free m page) m' next x
    → Kept m m' next' x
unfolding fpage_set_free
Kept-set_free m m' page next next' x e ne k = (
  k.0,
  k.1 ∙ ground (arith, ne),
  k.2,
  subst (λ n. (m'.prev (x + 8) ≡ m.prev (x + 8)) ⊎ (x + 8 ≡ n)) (sym e) k.3,
)

-- The store after `fmem_free` of the page at `page`, which `modified` has taken over.
abbrev pub freed : (m store : Memory) (page modified : ℕ) → Memory
freed m store page modified = write (free_ranges m page modified) m store

module _ (build : Build) (m store : Memory) (base : ℕ) (us : List Block) (u v : Block)
    (vs : List Block) (row : IsRow build m base (us ++ u ∷ v ∷ vs))
    (small : Small base (us ++ u ∷ v ∷ vs)) (old : Saved m store base (us ++ u ∷ v ∷ vs)) (n : ℕ)
    (b : Block) (size : b.size ≡ u.size + (v.size + 0)) where
  abbrev p : ℕ
  p = base + head_size + total us

  abbrev q : ℕ
  q = p + u.size

  before : m.prev (q + 8) ≡ p + 8
  before =
      Ring-prev m (base + 8) (nodes (base + head_size) us) (p + 8) (q + 8) (nodes (q + v.size) vs)
        (subst (Ring m (base + 8)) (nodes-append (base + head_size) us (u ∷ v ∷ vs)) row.ring)

  least : (24 ≤ u.size) × (24 ≤ v.size)
  least = let l = All-append_right (λ b. 24 ≤ b.size) us (u ∷ v ∷ vs) row.sized in (l.0, l.1.0)

  node-eq : (list_of p ≡ p + 8) × (list_of q ≡ q + 8)
  node-eq =
      let bytes = total-append us (u ∷ v ∷ vs) in
      (omega (arith, bytes, least), omega (arith, bytes, least))

  -- Two pages are joined, of which the one at `page` was set free.
  pub two-Saved :
      (page : ℕ)
      → (page ≡ p) ⊎ (page ≡ q)
      → Saved
          (list_remove_at (set_size (fpage_set_free m page) p n) (list_of q))
          (freed (list_remove_at (set_size (fpage_set_free m page) p n) (list_of q)) store page p)
          base
          (us ++ b ∷ vs)
  unfolding free_ranges fpage_set_free
  two-Saved page which =
      let m1 = fpage_set_free m page in
      let m' = two m1 p n (q + 8) before in
      let links = two-next m1 p n (q + 8) before (omega (arith, least)) in
      let node : m'.next (list_of page) ≡ m.next (q + 8) = elim which [
        | inl e ↦ ap m'.next (ap list_of e ∙ node-eq.0) ∙ links.1
        | inr e ↦ ap m'.next (ap list_of e ∙ node-eq.1) ∙ links.0
      ] in
      rw node-eq.1 (
        absorbed-Saved m m' store base us (u ∷ v ∷ []) vs b page (m'.prev (list_of page))
          (m'.next (list_of page))
          (λ x ne ne'.
            Kept-set_free m m' page (m.next (q + 8)) (m'.next (list_of page)) x node ne'
              (two-Kept m1 p n (q + 8) before x ne))
          (omega (arith, which)) (omega (arith, which, least)) size row.sized old)

-- Where the links of a segment lead first.
pub Seg-next :
    (m : Memory) (x y a : ℕ) (bs : List Block)
    → Seg m x (nodes a bs) y
    → (m.next x ≡ y) ⊎ (m.next x ≡ a + 8)
Seg-next m x y a [] s = inl s.0
Seg-next m x y a (b ∷ bs) s = inr s.0

module _ (build : Build) (m store : Memory) (base : ℕ) (us : List Block) (t u v : Block)
    (vs : List Block) (row : IsRow build m base (us ++ t ∷ u ∷ v ∷ vs))
    (small : Small base (us ++ t ∷ u ∷ v ∷ vs)) (old : Saved m store base (us ++ t ∷ u ∷ v ∷ vs))
    (n : ℕ) (b : Block) (size : b.size ≡ t.size + (u.size + (v.size + 0))) where
  abbrev start : ℕ
  start = base + head_size + total us

  abbrev page : ℕ
  page = start + t.size

  abbrev behind : ℕ
  behind = page + u.size

  abbrev m1 : Memory
  m1 = fpage_set_free m page

  sizes : (24 ≤ t.size) × (24 ≤ u.size) × (24 ≤ v.size)
  sizes =
      let l = All-append_right (λ b. 24 ≤ b.size) us (t ∷ u ∷ v ∷ vs) row.sized in
      (l.0, l.1.0, l.1.1.0)

  list_of-eq : (list_of page ≡ page + 8) × (list_of behind ≡ behind + 8)
  list_of-eq =
      let bytes = total-append us (t ∷ u ∷ v ∷ vs) in
      (omega (arith, bytes, sizes), omega (arith, bytes, sizes))

  neighbours :
      (m.prev (page + 8) ≡ start + 8)
      × (m.prev (behind + 8) ≡ page + 8)
      × (m.next (behind + 8) ≢ page + 8)
  neighbours =
      let ring =
        subst (Ring m (base + 8)) (nodes-append (base + head_size) us (t ∷ u ∷ v ∷ vs)) row.ring in
      let seg =
        (Seg-split m (base + 8) (nodes (base + head_size) us) (start + 8) (nodes page (u ∷ v ∷ vs))
          (base + 8) ring.links).1 in
      let out = Seg-next m (behind + 8) (base + 8) (behind + v.size) vs seg.2.2 in
      (seg.1, seg.2.1, omega (arith, out, sizes))

  -- The pages before and behind the one at `page` are joined with it.
  pub three-Saved :
      let m' =
        list_remove_at (list_remove_at (set_size m1 start n) (list_of behind)) (list_of page) in
      Saved m' (freed m' store page start) base (us ++ b ∷ vs)
  unfolding free_ranges fpage_set_free
  three-Saved =
      let (e, e', ne) = neighbours in
      let apart : page + 8 ≢ start + 8 = omega (arith, sizes) in
      let m' = three m1 start n (page + 8) (behind + 8) e e' apart ne in
      let node : m'.next (list_of page) ≡ m.next (behind + 8) =
        ap m'.next list_of-eq.0 ∙ three-next m1 start n (page + 8) (behind + 8) e e' apart ne in
      rw (list_of-eq.1, list_of-eq.0)
        (absorbed-Saved m m' store base us (t ∷ u ∷ v ∷ []) vs b page (m'.prev (page + 8))
          (m'.next (page + 8))
          (λ x away away'.
            Kept-set_free m m' page (m.next (behind + 8)) (m'.next (page + 8)) x
              (three-next m1 start n (page + 8) (behind + 8) e e' apart ne) away'
              (three-Kept m1 start n (page + 8) (behind + 8) e e' apart ne x away (omega arith)))
          (omega arith) (omega (arith, sizes)) size row.sized old)
