-- ===== src/LinkedList/Ring.antt =====
-- The shape that list/list.c keeps: from a head the `next` links go round the listed nodes and
-- back, the `prev` links go the other way, and no node stands twice.
use memthing.Base.{
  ℕ, ◌≡◌, ◌≢◌, sym, ◌∙◌, List, [], ◌∷◌, ◌++◌, append-nil, arith, All-append, All-append_left,
  All-append_right, Fresh, Distinct,
}
use memthing.Memory.{Memory, set_next, set_prev}

-- From `a` the links lead through the nodes to `b`.
abbrev pub Seg : Memory → ℕ → List ℕ → ℕ → Type 0
Seg m a [] b = (m.next a ≡ b) × (m.prev b ≡ a)
Seg m a (x ∷ xs) b = (m.next a ≡ x) × (m.prev x ≡ a) × Seg m x xs b

pub record Ring (m : Memory) (h : ℕ) (xs : List ℕ) : Type 0 where
  pub links : Seg m h xs h
  pub distinct : Distinct (h ∷ xs)

module _ (m : Memory) where
  pub Seg-append :
      (a : ℕ) (xs : List ℕ) (x : ℕ) (ys : List ℕ) (b : ℕ)
      → Seg m a xs x
      → Seg m x ys b
      → Seg m a (xs ++ x ∷ ys) b
  Seg-append a [] x ys b s t = (s.0, s.1, t)
  Seg-append a (y ∷ xs) x ys b s t = (s.0, s.1, Seg-append y xs x ys b s.2 t)

  pub Seg-split :
      (a : ℕ) (xs : List ℕ) (x : ℕ) (ys : List ℕ) (b : ℕ)
      → Seg m a (xs ++ x ∷ ys) b
      → Seg m a xs x × Seg m x ys b
  Seg-split a [] x ys b s = ((s.0, s.1), s.2)
  Seg-split a (y ∷ xs) x ys b s = let (t, u) = Seg-split y xs x ys b s.2 in ((s.0, s.1, t), u)

  -- A write to a link that the segment does not use leaves it.
  pub Seg-set_next :
      (c v a : ℕ) (xs : List ℕ) (b : ℕ)
      → c ≢ a
      → Fresh c xs
      → Seg m a xs b
      → Seg (set_next m c v) a xs b
  Seg-set_next c v a [] b ne out s = ground arith
  Seg-set_next c v a (x ∷ xs) b ne out s =
      (ground arith, s.1, Seg-set_next c v x xs b out.0 out.1 s.2)

  pub Seg-set_prev :
      (c v a : ℕ) (xs : List ℕ) (b : ℕ)
      → c ≢ b
      → Fresh c xs
      → Seg m a xs b
      → Seg (set_prev m c v) a xs b
  Seg-set_prev c v a [] b ne out s = ground arith
  Seg-set_prev c v a (x ∷ xs) b ne out s = (s.0, ground arith, Seg-set_prev c v x xs b ne out.1 s.2)

-- A ring lies in every memory with the same links.
Seg-same :
    (m m' : Memory)
    → ((p : ℕ) → m'.next p ≡ m.next p)
    → ((p : ℕ) → m'.prev p ≡ m.prev p)
    → (a : ℕ) (xs : List ℕ) (b : ℕ) → Seg m a xs b
    → Seg m' a xs b
Seg-same m m' e d a [] b s = (e a ∙ s.0, d b ∙ s.1)
Seg-same m m' e d a (x ∷ xs) b s = (e a ∙ s.0, d x ∙ s.1, Seg-same m m' e d x xs b s.2)

pub Ring-same :
    (m m' : Memory) (h : ℕ) (xs : List ℕ)
    → ((p : ℕ) → m'.next p ≡ m.next p)
    → ((p : ℕ) → m'.prev p ≡ m.prev p)
    → Ring m h xs
    → Ring m' h xs
Ring-same m m' h xs e d r = record {
  links = Seg-same m m' e d h xs h r.links;
  distinct = r.distinct;
}

-- A write to a node outside the ring leaves the ring.
pub Ring-set_next :
    (m : Memory) (h : ℕ) (xs : List ℕ) (c v : ℕ)
    → Fresh c (h ∷ xs)
    → Ring m h xs
    → Ring (set_next m c v) h xs
Ring-set_next m h xs c v f r = record {
  links = Seg-set_next m c v h xs h f.0 f.1 r.links;
  distinct = r.distinct;
}

pub Ring-set_prev :
    (m : Memory) (h : ℕ) (xs : List ℕ) (c v : ℕ)
    → Fresh c (h ∷ xs)
    → Ring m h xs
    → Ring (set_prev m c v) h xs
Ring-set_prev m h xs c v f r = record {
  links = Seg-set_prev m c v h xs h f.0 f.1 r.links;
  distinct = r.distinct;
}

-- Distinctness does not depend on where the round begins.
Distinct-insert :
    (xs : List ℕ) (x : ℕ) (ys : List ℕ)
    → Fresh x (xs ++ ys)
    → Distinct (xs ++ ys)
    → Distinct (xs ++ x ∷ ys)
Distinct-insert [] x ys f d = (f, d)
Distinct-insert (y ∷ xs) x ys f d =
    let front = All-append_left (λ z. y ≢ z) xs ys d.0 in
    let back = All-append_right (λ z. y ≢ z) xs ys d.0 in
    (
      All-append (λ z. y ≢ z) xs (x ∷ ys) front (λ e. f.0 (sym e), back),
      Distinct-insert xs x ys f.1 d.1,
    )

Fresh-swap : (a : ℕ) (xs ys : List ℕ) → Fresh a (xs ++ ys) → Fresh a (ys ++ xs)
Fresh-swap a xs ys f =
    All-append (λ y. a ≢ y) ys xs (All-append_right (λ y. a ≢ y) xs ys f)
      (All-append_left (λ y. a ≢ y) xs ys f)

Distinct-swap : (xs ys : List ℕ) → Distinct (xs ++ ys) → Distinct (ys ++ xs)
Distinct-swap [] ys d = rw append-nil d
Distinct-swap (x ∷ xs) ys d =
    Distinct-insert ys x xs (Fresh-swap x xs ys d.0) (Distinct-swap xs ys d.1)

-- A ring may be read from any of its nodes.
pub Ring-rotate :
    {m : Memory} (h : ℕ) (xs : List ℕ) (c : ℕ) (ys : List ℕ)
    → Ring m h (xs ++ c ∷ ys)
    → Ring m c (ys ++ h ∷ xs)
Ring-rotate {m} h xs c ys r =
    let (s, t) = Seg-split m h xs c ys h r.links in
    record {
      links = Seg-append m c ys h xs c t s;
      distinct = Distinct-swap (h ∷ xs) (c ∷ ys) r.distinct;
    }

-- A node that the whole ring lacks stays away from it after a rotation.
pub Fresh-rotate :
    (a h : ℕ) (xs : List ℕ) (c : ℕ) (ys : List ℕ)
    → Fresh a (h ∷ xs ++ c ∷ ys)
    → Fresh a (c ∷ ys ++ h ∷ xs)
Fresh-rotate a h xs c ys f = Fresh-swap a (h ∷ xs) (c ∷ ys) f

-- The neighbours of a node.
pub Ring-next :
    (m : Memory) (h : ℕ) (xs : List ℕ) (c : ℕ) (y : ℕ) (ys : List ℕ)
    → Ring m h (xs ++ c ∷ y ∷ ys)
    → m.next c ≡ y
Ring-next m h xs c y ys r = (Seg-split m h xs c (y ∷ ys) h r.links).1.0

pub Ring-next_last :
    (m : Memory) (h : ℕ) (xs : List ℕ) (c : ℕ) → Ring m h (xs ++ c ∷ []) → m.next c ≡ h
Ring-next_last m h xs c r = (Seg-split m h xs c [] h r.links).1.0

pub Ring-prev :
    (m : Memory) (h : ℕ) (xs : List ℕ) (x c : ℕ) (ys : List ℕ)
    → Ring m h (xs ++ x ∷ c ∷ ys)
    → m.prev c ≡ x
Ring-prev m h xs x c ys r = (Seg-split m h xs x (c ∷ ys) h r.links).1.1

pub Ring-prev_first : (m : Memory) (h c : ℕ) (ys : List ℕ) → Ring m h (c ∷ ys) → m.prev c ≡ h
Ring-prev_first m h c ys r = r.links.1
