-- ===== src/Disk/Row.antt =====
-- Rows of saved headers: put together, kept, and read back.
use memthing.Base.{
  refl, List, [], ap, arith, subst, sym, true, ℕ, ◌++◌, ◌+◌, ◌<◌, ◌∙◌, ◌∷◌, ◌≡◌, ◌≤◌,
}
use memthing.Blocks.{Block, Sized, block, total}
use memthing.Disk.{Saved, SavedAt, SavedRow}
use memthing.Heap.Invariant.{IsAccount, IsHeap, IsRow, fmem_at, head_size}
use memthing.Heap.Layout.{Headers, PageAt-same, nodes}
use memthing.LinkedList.Ring.{Seg}
use memthing.Memory.{Memory}
use memthing.Page.{Build}

module _ (m store : Memory) where
  pub SavedRow-append :
      (a : ℕ) (xs ys : List Block)
      → SavedRow m store a xs
      → SavedRow m store (a + total xs) ys
      → SavedRow m store a (xs ++ ys)
  SavedRow-append a [] ys h k = subst (λ e. SavedRow m store e ys) (omega arith) k
  SavedRow-append a (x ∷ xs) ys h k = (
    h.0,
    SavedRow-append (a + x.size) xs ys h.1 (subst (λ e. SavedRow m store e ys) (omega arith) k),
  )

  pub SavedRow-split :
      (a : ℕ) (xs ys : List Block)
      → SavedRow m store a (xs ++ ys)
      → SavedRow m store a xs × SavedRow m store (a + total xs) ys
  SavedRow-split a [] ys h = (tt, subst (λ e. SavedRow m store e ys) (omega arith) h)
  SavedRow-split a (x ∷ xs) ys h =
      let (k, l) = SavedRow-split (a + x.size) xs ys h.1 in
      ((h.0, k), subst (λ e. SavedRow m store e ys) (omega arith) l)

-- Headers from `a` up to the end of a row that stay saved one by one.
pub SavedRow-same :
    (m m' store store' : Memory) (a : ℕ) (bs : List Block)
    → ((q : ℕ) → a ≤ q → q < a + total bs → SavedAt m store q → SavedAt m' store' q)
    → Sized bs
    → SavedRow m store a bs
    → SavedRow m' store' a bs
SavedRow-same m m' store store' a [] same s h = tt
SavedRow-same m m' store store' a (b ∷ bs) same s h = (
  same a (omega arith) (omega (arith, s.0)) h.0,
  SavedRow-same m m' store store' (a + b.size) bs (λ q lo hi. same q (omega arith) (omega arith))
      s.1 h.1,
)

pub Saved-map :
    (m m' store store' : Memory) (base : ℕ) (bs : List Block)
    → ((q : ℕ) → SavedAt m store q → SavedAt m' store' q)
    → Saved m store base bs
    → Saved m' store' base bs
Saved-map m m' store store' base bs same h = (same base h.0, row (base + head_size) bs h.1)
  where
    row : (a : ℕ) (bs : List Block) → SavedRow m store a bs → SavedRow m' store' a bs
    row a [] h = tt
    row a (b ∷ bs) h = (same a h.0, row (a + b.size) bs h.1)

-- A store that is the memory has all of it.
pub Saved-self : (m : Memory) (base : ℕ) (bs : List Block) → Saved m m base bs
Saved-self m base bs = ((refl, refl, refl, refl), row (base + head_size) bs)
  where
    row : (a : ℕ) (bs : List Block) → SavedRow m m a bs
    row a [] = tt
    row a (b ∷ bs) = ((refl, refl, refl, refl), row (a + b.size) bs)

-- A segment of linked nodes reads the links of its own nodes only.
Seg-read :
    (m store : Memory) (base a x : ℕ) (bs : List Block)
    → store.next x ≡ m.next x
    → store.prev (base + 8) ≡ m.prev (base + 8)
    → SavedRow m store a bs
    → Seg m x (nodes a bs) (base + 8)
    → Seg store x (nodes a bs) (base + 8)
Seg-read m store base a x [] e d h g = (e ∙ g.0, d ∙ g.1)
Seg-read m store base a x (b ∷ bs) e d h g =
    (e ∙ g.0, h.0.3 ∙ g.1, Seg-read m store base (a + b.size) (a + 8) bs h.0.2 d h.1 g.2)

Headers-read :
    (build : Build) (m store : Memory) (a : ℕ) (bs : List Block)
    → SavedRow m store a bs
    → Headers build m a bs
    → Headers build store a bs
Headers-read build m store a [] h k = tt
Headers-read build m store a (b ∷ bs) h k = (
  PageAt-same build m store a b (h.0.0, h.0.1) k.0,
  Headers-read build m store (a + b.size) bs h.1 k.1,
)

-- A store that has all headers of a well-formed row holds that row, and well formed.
pub Saved-IsRow :
    (build : Build) (m store : Memory) (base : ℕ) (bs : List Block)
    → Saved m store base bs
    → IsRow build m base bs
    → IsRow build store base bs
Saved-IsRow build m store base bs h row = record {
  head = PageAt-same build m store base (block head_size true) (h.0.0, h.0.1) row.head;
  ring = record {
    links = Seg-read m store base (base + head_size) (base + 8) bs h.0.2 h.0.3 h.1 row.ring.links;
    distinct = row.ring.distinct;
  };
  headers = Headers-read build m store (base + head_size) bs h.1 row.headers;
  sized = row.sized;
}

-- If it has the accounting object as well, it holds the allocator.
pub Saved-IsHeap :
    (build : Build) (m store : Memory) (base : ℕ) (bs : List Block)
    → Saved m store base bs
    → store.fmem (fmem_at base) ≡ m.fmem (fmem_at base)
    → IsHeap build m base bs
    → IsHeap build store base bs
Saved-IsHeap build m store base bs h e heap = record {
  row = Saved-IsRow build m store base bs h heap.row;
  account = subst (λ f. IsAccount base f bs) (sym e) heap.account;
  unlocked = ap (λ f. f.lock) e ∙ heap.unlocked;
}
