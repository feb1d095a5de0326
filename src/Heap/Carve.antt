-- ===== src/Heap/Carve.antt =====
-- Splitting a free page of the row: what is taken is its upper end.
use memthing.Base.{
  ℕ, ◌+◌, ◌-◌, ◌^◌, ◌≤◌, ◌<◌, ◌≡◌, ◌≢◌, ◌∙◌, ◌==◌, refl, sym, ap, subst, true, false, List, [], ◌∷◌,
  ◌++◌, arith, if◌then◌else◌, Fresh, All-append, All-append_left, u32, add64, sub32,
}
use memthing.Memory.{Memory, set_size, set_flags, set_next, set_prev, ptr_add, list_of}
use memthing.LinkedList.{list_add_after}
use memthing.LinkedList.Ring.{Ring, Ring-same, Ring-set_next, Ring-set_prev}
use memthing.LinkedList.Insert.{list_add_after-Ring}
use memthing.Page.{Build, fpage_carve}
use memthing.Blocks.{Block, block, total}
use memthing.Blocks.Row.{Sized-replace}
use memthing.Heap.Layout.{
  nodes, nodes-append, PageAt, Headers, PageAt-same, PageAt-resize, SameAt, Headers-replace,
  Fresh-below, Fresh-above,
}
use memthing.Heap.Invariant.{IsRow, head_size}
use memthing.Heap.Status.{busy_page, busy_page-PageAt, busy_page-same}
use memthing.Heap.Take.{PageAt-middle, busy_page-links}

-- `fpage_carve` before it links the new page, where nothing wraps: `p` keeps `left` bytes, and a
-- page of `n` bytes begins at `c`.
abbrev pub carved : Memory → (p c left n : ℕ) → Memory
carved m p c left n =
    let m1 = set_size m p left in
    let m2 = set_size (set_flags m1 c 0) c 0 in
    set_size (set_prev (set_next m2 (c + 8) 0) (c + 8) 0) c n

pub fpage_carve-eq :
    (m : Memory) (p size need : ℕ)
    → m.size p ≡ size
    → need + 24 ≤ size
    → size < 2 ^ 32
    → p + size < 2 ^ 64
    → let left = size - (need + 24) in
      fpage_carve m p need
      ≡ (list_add_after (carved m p (p + left) left (need + 24)) (p + 8) (p + left + 8), p + left)
unfolding fpage_carve
fpage_carve-eq m p size need e fits small high =
    let left : ℕ = size - (need + 24) in
    let e1 : u32 (add64 need 24) ≡ need + 24 = omega arith in
    let e2 : sub32 (m.size p) (need + 24) ≡ left = omega arith in
    let e3 : (if p == p then left else m.size p) ≡ left = ground arith in
    let e4 : ptr_add p left ≡ p + left = omega arith in
    let e5 : list_of p ≡ p + 8 = omega arith in
    let e6 : list_of (p + left) ≡ p + left + 8 = omega arith in rw (e1, e2, e3, e4, e5, e6)

pub fpage_carve-fmem : (m : Memory) (p need q : ℕ) → (fpage_carve m p need).0.fmem q ≡ m.fmem q
unfolding fpage_carve list_add_after
fpage_carve-fmem m p need q = refl

-- The headers after the new page is linked.
module _ (m : Memory) (p c left n : ℕ) (ne : c ≢ p) where
  abbrev pub linked : Memory
  linked = list_add_after (carved m p c left n) (p + 8) (c + 8)

  linked-left : (linked.size p ≡ left) × (linked.flags p ≡ m.flags p)
  unfolding list_add_after
  linked-left = (ground arith, ground arith)

  pub linked-new : (linked.size c ≡ n) × (linked.flags c ≡ 0)
  unfolding list_add_after
  linked-new = (ground arith, ground arith)

  linked-same : (q : ℕ) → q ≢ p → q ≢ c → SameAt m linked q
  unfolding list_add_after
  linked-same q np nc = (ground arith, ground arith)

  pub linked-fmem : (q : ℕ) → linked.fmem q ≡ m.fmem q
  unfolding list_add_after
  linked-fmem q = refl

  -- The ring takes the new node behind that of `p`.
  linked-Ring :
      (h : ℕ) (xs ys : List ℕ)
      → Ring m h (xs ++ (p + 8) ∷ ys)
      → Fresh (c + 8) (h ∷ xs ++ (p + 8) ∷ ys)
      → Ring linked h (xs ++ (p + 8) ∷ (c + 8) ∷ ys)
  linked-Ring h xs ys r f =
      let m2 = set_size (set_flags (set_size m p left) c 0) c 0 in
      let m3 = set_next m2 (c + 8) 0 in
      let m4 = set_prev m3 (c + 8) 0 in
      let all = xs ++ (p + 8) ∷ ys in
      let r2 = Ring-same m m2 h all (λ q. refl) (λ q. refl) r in
      let r4 = Ring-set_prev m3 h all (c + 8) 0 f (Ring-set_next m2 h all (c + 8) 0 f r2) in
      let r5 = Ring-same m4 (set_size m4 c n) h all (λ q. refl) (λ q. refl) r4 in
      list_add_after-Ring (set_size m4 c n) h xs (p + 8) ys (c + 8) r5 f

module _ (build : Build) (m : Memory) (base : ℕ) (xs : List Block) (b : Block) (ys : List Block)
    (left n : ℕ) (cut : left + n ≡ b.size) (room : 24 ≤ left) (fits : 24 ≤ n)
    (idle : b.busy ≡ false) (row : IsRow build m base (xs ++ b ∷ ys)) where
  abbrev pub page : ℕ
  page = base + head_size + total xs

  abbrev pub created : ℕ
  created = page + left

  abbrev pub result : Memory
  result = busy_page build (linked m page created left n (omega arith)) created

  abbrev pub parts : List Block
  parts = block left false ∷ block n true ∷ []

  created-Fresh : Fresh (created + 8) ((base + 8) ∷ nodes (base + head_size) (xs ++ b ∷ ys))
  created-Fresh =
      let sized_xs = All-append_left (λ b. 24 ≤ b.size) xs (b ∷ ys) row.sized in
      rw (nodes-append (base + head_size) xs (b ∷ ys)) (
        omega arith,
        All-append (λ x. created + 8 ≢ x) (nodes (base + head_size) xs) (nodes page (b ∷ ys))
            (Fresh-above (created + 8) (base + head_size) xs sized_xs (omega arith))
            (omega arith, Fresh-below (created + 8) (page + b.size) ys (omega arith)),
      )

  result-Ring : Ring result (base + 8) (nodes (base + head_size) (xs ++ (parts ++ ys)))
  result-Ring =
      let before = linked m page created left n (omega arith) in
      let links = busy_page-links build before created in
      let old = nodes-append (base + head_size) xs (b ∷ ys) in
      let new = nodes-append (base + head_size) xs (parts ++ ys) in
      let tail =
        λ (e : ℕ). nodes (base + head_size) xs ++ (page + 8) ∷ (created + 8) ∷ nodes e ys in
      let ring =
        linked-Ring m page created left n (omega arith) (base + 8) (nodes (base + head_size) xs)
          (nodes (page + b.size) ys) (subst (Ring m (base + 8)) old row.ring)
          (subst (λ ns. Fresh (created + 8) ((base + 8) ∷ ns)) old created-Fresh) in
      let there = ap tail (omega arith) ∙ sym new in
      subst (Ring result (base + 8)) there
        (Ring-same before result (base + 8) (tail (page + b.size)) links.0 links.1 ring)

  result-same : (q : ℕ) → q ≢ page → q ≢ created → SameAt m result q
  result-same q np nc =
      let s = linked-same m page created left n (omega arith) q np nc in
      let t = busy_page-same build (linked m page created left n (omega arith)) created q nc in
      (t.0 ∙ s.0, t.1 ∙ s.1)

  result-parts : Headers build result page parts
  result-parts =
      let before = linked m page created left n (omega arith) in
      let old = PageAt-middle (base + head_size) xs b ys row.headers in
      let kept = linked-left m page created left n (omega arith) in
      let fresh = linked-new m page created left n (omega arith) in
      let apart = busy_page-same build before created page (omega arith) in
      (
        subst (λ s. PageAt build result page (block left s)) idle
            (PageAt-resize build m result page b left (apart.0 ∙ kept.0) (apart.1 ∙ kept.1) old),
        (
          subst (λ s. PageAt build result created (block s true)) fresh.0
              (busy_page-PageAt build before created (omega (arith, fresh.1))),
          tt,
        ),
      )

  pub carve-IsRow : IsRow build result base (xs ++ (parts ++ ys))
  carve-IsRow = record {
    head =
        PageAt-same build m result base (block head_size true)
          (result-same base (omega arith) (omega arith)) row.head;
    ring = result-Ring;
    headers =
        Headers-replace build m result (base + head_size) xs (b ∷ []) parts ys (omega arith)
          row.sized (λ p lo hi. result-same p (omega arith) (omega arith))
          (λ p lo hi. result-same p (omega arith) (omega arith)) result-parts row.headers;
    sized = Sized-replace xs (b ∷ []) parts ys (room, (fits, tt)) row.sized;
  }

  -- The size of the new page, which `fmem_alloc` accounts for.
  pub result-size : result.size created ≡ n
  result-size = result-parts.1.0.size
