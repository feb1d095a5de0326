-- ===== src/Heap/Layout.antt =====
-- How a row of blocks lies in memory: page after page with no gap, each with its size and status,
-- and linked in the order of the addresses.
use memthing.Base.{
  All-append_left, All-append_right, Fresh, List, [], ap, arith, bit_and, false, if◌then◌else◌, ltb,
  not, pos, refl, subst, sym, true, ℕ, ◌++◌, ◌+◌, ◌<◌, ◌^◌, ◌∙◌, ◌∷◌, ◌≡◌, ◌≤◌,
}
use memthing.Blocks.{Block, Sized, block, total}
use memthing.Memory.{Memory}
use memthing.Page.{
  Build, checked, fail_on_poison_check, fpage_get_magic, fpage_is_free, plain, poison,
}

-- The list nodes of the pages of a row whose first page is at `a`.
abbrev pub nodes : ℕ → List Block → List ℕ
nodes a [] = []
nodes a (b ∷ bs) = (a + 8) ∷ nodes (a + b.size) bs

-- What a build that checks for corruption wants of a magic number.
abbrev pub Poisoned : Build → ℕ → Type 0
Poisoned plain magic = Unit
Poisoned checked magic = magic ≡ poison

module _ (build : Build) where
  pub record PageAt (m : Memory) (a : ℕ) (b : Block) : Type 0 where
    pub size : m.size a ≡ b.size
    pub free : fpage_is_free m a ≡ not b.busy
    pub word : m.flags a < 2 ^ 32
    pub magic : Poisoned build (fpage_get_magic m a)

  abbrev pub Headers : Memory → ℕ → List Block → Type 0
  Headers m a [] = Unit
  Headers m a (b ∷ bs) = PageAt m a b × Headers m (a + b.size) bs

-- Two memories have the same header at `p`.
abbrev pub SameAt : Memory → Memory → ℕ → Type 0
SameAt m m' p = (m'.size p ≡ m.size p) × (m'.flags p ≡ m.flags p)

-- Two memories have the same headers from `lo` up to `hi`.
abbrev pub SameHeaders : Memory → Memory → ℕ → ℕ → Type 0
SameHeaders m m' lo hi = (p : ℕ) → lo ≤ p → p < hi → SameAt m m' p

module _ (m m' : Memory) (a : ℕ) where
  -- The status and the magic number of a page are read from its flags.
  is_free-same : m'.flags a ≡ m.flags a → fpage_is_free m' a ≡ fpage_is_free m a
  unfolding fpage_is_free
  is_free-same e = ap (λ f. if ltb 0 (bit_and f (2 ^ 15)) then false else true) e

  get_magic-same : m'.flags a ≡ m.flags a → fpage_get_magic m' a ≡ fpage_get_magic m a
  unfolding fpage_get_magic
  get_magic-same e = omega (arith, e)

module _ (build : Build) (m m' : Memory) where
  -- A page whose flags are kept and whose size is written.
  pub PageAt-resize :
      (a : ℕ) (b : Block) (n : ℕ)
      → m'.size a ≡ n
      → m'.flags a ≡ m.flags a
      → PageAt build m a b
      → PageAt build m' a (block n b.busy)
  PageAt-resize a b n e d h = record {
    size = e;
    free = is_free-same m m' a d ∙ h.free;
    word = omega (arith, h.word);
    magic = subst (Poisoned build) (sym (get_magic-same m m' a d)) h.magic;
  }

  pub PageAt-same :
      (a : ℕ) (b : Block)
      → (m'.size a ≡ m.size a) × (m'.flags a ≡ m.flags a)
      → PageAt build m a b
      → PageAt build m' a b
  PageAt-same a b e h = PageAt-resize a b b.size (e.0 ∙ h.size) e.1 h

  pub Headers-same :
      (a : ℕ) (bs : List Block)
      → SameHeaders m m' a (a + total bs)
      → Sized bs
      → Headers build m a bs
      → Headers build m' a bs
  Headers-same a [] same s h = tt
  Headers-same a (b ∷ bs) same s h = (
    PageAt-same a b (same a (omega arith) (omega arith)) h.0,
    Headers-same (a + b.size) bs (λ p lo hi. same p (omega arith) (omega arith)) s.1 h.1,
  )

module _ (build : Build) (m : Memory) where
  pub Headers-append :
      (a : ℕ) (xs ys : List Block)
      → Headers build m a xs
      → Headers build m (a + total xs) ys
      → Headers build m a (xs ++ ys)
  Headers-append a [] ys h k = subst (λ e. Headers build m e ys) (omega arith) k
  Headers-append a (x ∷ xs) ys h k = (
    h.0,
    Headers-append (a + x.size) xs ys h.1 (subst (λ e. Headers build m e ys) (omega arith) k),
  )

  pub Headers-split :
      (a : ℕ) (xs ys : List Block)
      → Headers build m a (xs ++ ys)
      → Headers build m a xs × Headers build m (a + total xs) ys
  Headers-split a [] ys h = (tt, subst (λ e. Headers build m e ys) (omega arith) h)
  Headers-split a (x ∷ xs) ys h =
      let (k, l) = Headers-split (a + x.size) xs ys h.1 in
      ((h.0, k), subst (λ e. Headers build m e ys) (omega arith) l)

-- The middle of a row is written anew, and what stands around it is left alone.
pub Headers-replace :
    (build : Build) (m m' : Memory) (a : ℕ) (xs mid mid' ys : List Block)
    → total mid' ≡ total mid
    → Sized (xs ++ (mid ++ ys))
    → SameHeaders m m' a (a + total xs)
    → SameHeaders m m' (a + total xs + total mid) (a + total xs + total mid + total ys)
    → Headers build m' (a + total xs) mid'
    → Headers build m a (xs ++ (mid ++ ys))
    → Headers build m' a (xs ++ (mid' ++ ys))
Headers-replace build m m' a xs mid mid' ys e sized below above new old =
    let (front, rest) = Headers-split build m a xs (mid ++ ys) old in
    let (_, back) = Headers-split build m (a + total xs) mid ys rest in
    let sized_xs = All-append_left (λ b. 24 ≤ b.size) xs (mid ++ ys) sized in
    let sized_rest = All-append_right (λ b. 24 ≤ b.size) xs (mid ++ ys) sized in
    let sized_ys = All-append_right (λ b. 24 ≤ b.size) mid ys sized_rest in
    Headers-append build m' a xs (mid' ++ ys) (Headers-same build m m' a xs below sized_xs front) (
      Headers-append build m' (a + total xs) mid' ys new (
        subst (λ k. Headers build m' (a + total xs + k) ys) (sym e)
          (Headers-same build m m' (a + total xs + total mid) ys above sized_ys back)))

pub nodes-append :
    (a : ℕ) (xs ys : List Block) → nodes a (xs ++ ys) ≡ nodes a xs ++ nodes (a + total xs) ys
nodes-append a [] ys = ap (λ e. nodes e ys) (omega arith)
nodes-append a (x ∷ xs) ys =
    ap (λ ns. (a + 8) ∷ ns) (nodes-append (a + x.size) xs ys)
    ∙ ap (λ e. (a + 8) ∷ nodes (a + x.size) xs ++ nodes e ys) (omega arith)

-- A node below or above a row is none of its nodes.
pub Fresh-below : (n a : ℕ) (bs : List Block) → n < a + 8 → Fresh n (nodes a bs)
Fresh-below n a [] h = tt
Fresh-below n a (b ∷ bs) h = (omega arith, Fresh-below n (a + b.size) bs (omega arith))

pub Fresh-above : (n a : ℕ) (bs : List Block) → Sized bs → a + total bs ≤ n → Fresh n (nodes a bs)
Fresh-above n a [] s h = tt
Fresh-above n a (b ∷ bs) s h = (omega arith, Fresh-above n (a + b.size) bs s.1 (omega arith))

-- No page of a well-formed row fails the check for corruption.
pub check_passes :
    (build : Build) (m : Memory) (a : ℕ) (b : Block)
    → PageAt build m a b
    → fail_on_poison_check build (fpage_get_magic m a) poison ≡ pos 0
unfolding fail_on_poison_check
check_passes build m a b h = passes build (fpage_get_magic m a) h.magic
  where
    passes : (k : Build) (x : ℕ) → Poisoned k x → fail_on_poison_check k x poison ≡ pos 0
    passes plain x g = refl
    passes checked x g = ground arith
