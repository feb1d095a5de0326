-- ===== src/Heap/Take.antt =====
-- Taking a free page of the row whole.
use memthing.Heap.Lock.{fmem-set_fmem}
use memthing.Fmem.{take_page}
use memthing.Base.{
  ap, ◌∙◌, All-append_right, Bool, List, [], arith, false, refl, subst, sym, true, ℕ, ◌++◌, ◌+◌,
  ◌∷◌, ◌≡◌, ◌≢◌, ◌≤◌,
}
use memthing.Blocks.{Block, block, total}
use memthing.Blocks.Row.{Sized-replace}
use memthing.Heap.Invariant.{IsRow, head_size}
use memthing.Heap.Layout.{
  Headers, Headers-replace, Headers-split, PageAt, PageAt-same, SameAt, nodes, nodes-append,
}
use memthing.Heap.Status.{
  busy_page, busy_page-PageAt, busy_page-same, free_page-PageAt, free_page-same,
}
use memthing.LinkedList.Ring.{Ring, Ring-same}
use memthing.Memory.{Memory}
use memthing.Page.{Build, checked, fpage_set_busy, fpage_set_free, fpage_set_magic, plain}

-- The header of the block behind `xs`.
pub PageAt-middle :
    {build : Build} {m : Memory} (a : ℕ) (xs : List Block) (b : Block) (ys : List Block)
    → Headers build m a (xs ++ b ∷ ys)
    → PageAt build m (a + total xs) b
PageAt-middle {build} {m} a xs b ys h = (Headers-split build m a xs (b ∷ ys) h).1.0

pub busy_page-links :
    (build : Build) (m : Memory) (p : ℕ)
    → ((q : ℕ) → (busy_page build m p).next q ≡ m.next q)
      × ((q : ℕ) → (busy_page build m p).prev q ≡ m.prev q)
      × ((q : ℕ) → (busy_page build m p).fmem q ≡ m.fmem q)
unfolding fpage_set_busy fpage_set_magic
busy_page-links plain m p = (λ q. refl, λ q. refl, λ q. refl)
busy_page-links checked m p = (λ q. refl, λ q. refl, λ q. refl)

module _ (build : Build) (m : Memory) (base : ℕ) (xs : List Block) (b : Block)
    (ys : List Block) where
  abbrev page : ℕ
  page = base + head_size + total xs

  -- The row after the status of a page is written, and nothing else.
  status-IsRow :
      (m' : Memory) (busy : Bool)
      → ((q : ℕ) → m'.next q ≡ m.next q)
      → ((q : ℕ) → m'.prev q ≡ m.prev q)
      → ((q : ℕ) → q ≢ page → SameAt m m' q)
      → PageAt build m' page (block b.size busy)
      → IsRow build m base (xs ++ b ∷ ys)
      → IsRow build m' base (xs ++ block b.size busy ∷ ys)
  status-IsRow m' busy next prev same new r =
      let a = base + head_size in
      let least = (All-append_right (λ b. 24 ≤ b.size) xs (b ∷ ys) r.sized).0 in
      let same_nodes =
        nodes-append a xs (b ∷ ys) ∙ sym (nodes-append a xs (block b.size busy ∷ ys)) in
      record {
        head = PageAt-same build m m' base (block head_size true) (same base (omega arith)) r.head;
        ring =
            subst (Ring m' (base + 8)) same_nodes
              (Ring-same m m' (base + 8) (nodes a (xs ++ b ∷ ys)) next prev r.ring);
        headers =
            Headers-replace build m m' a xs (b ∷ []) (block b.size busy ∷ []) ys refl r.sized
              (λ p lo hi. same p (omega arith)) (λ p lo hi. same p (omega (arith, least))) (new, tt)
              r.headers;
        sized = Sized-replace xs (b ∷ []) (block b.size busy ∷ []) ys (least, tt) r.sized;
      }

  pub busy_page-IsRow :
      IsRow build m base (xs ++ b ∷ ys)
      → IsRow build (busy_page build m page) base (xs ++ block b.size true ∷ ys)
  busy_page-IsRow r =
      let links = busy_page-links build m page in
      let old = PageAt-middle (base + head_size) xs b ys r.headers in
      status-IsRow (busy_page build m page) true links.0 links.1 (busy_page-same build m page)
        (subst (λ n. PageAt build (busy_page build m page) page (block n true)) old.size
          (busy_page-PageAt build m page old.word))
        r

  pub free_page-IsRow :
      IsRow build m base (xs ++ b ∷ ys)
      → IsRow build (fpage_set_free m page) base (xs ++ block b.size false ∷ ys)
  unfolding fpage_set_free
  free_page-IsRow r =
      let old = PageAt-middle (base + head_size) xs b ys r.headers in
      status-IsRow (fpage_set_free m page) false (λ q. refl) (λ q. refl) (free_page-same m page)
        (free_page-PageAt build m page b old) r

-- The object after a page was taken.
pub take_page-fixed :
    (build : Build) (m : Memory) (fm selected : ℕ)
    → let f = (take_page build m fm selected).fmem fm in
      (f.committer ≡ (m.fmem fm).committer) × (f.min_alloc ≡ (m.fmem fm).min_alloc)
unfolding take_page
take_page-fixed build m fm selected =
    let e = fmem-set_fmem (busy_page build m selected) fm _ in
    let d = (busy_page-links build m selected).2 fm in
    (
      ap (λ f. f.committer) e ∙ ap (λ f. f.committer) d,
      ap (λ f. f.min_alloc) e ∙ ap (λ f. f.min_alloc) d,
    )
