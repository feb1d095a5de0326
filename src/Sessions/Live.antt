-- ===== src/Sessions/Live.antt =====
-- The live allocations of a session: each in a busy block of its own.
use memthing.Base.{
  All, All-append, All-append_left, All-append_right, All-map, List, [], arith, false, inl, inr, ℕ,
  ◌++◌, ◌+◌, ◌∷◌, ◌≡◌, ◌≢◌, ◌≤◌, ◌⊎◌,
}
use memthing.Blocks.{Block, block, overhead, release, total}
use memthing.Blocks.Busy.{BusyAt, BusyAt-release, BusyAt-replace}
use memthing.Sessions.{AllDisjoint, Allocation, Disjoint}
use memthing.Sessions.Takes.{IsTaking}

-- A busy block holds the allocation behind its header.
pub record Held (bs : List Block) (start : ℕ) (a : Allocation) : Type 0 where
  pub page : ℕ
  pub bytes : ℕ
  pub place : a.at ≡ page + overhead
  pub room : a.size + overhead ≤ bytes
  pub busy : BusyAt bs start page bytes

-- It stays where its block does.
pub Held-map :
    (bs bs' : List Block) (start : ℕ) (others : List Allocation)
    → ((p n : ℕ) → BusyAt bs start p n → BusyAt bs' start p n)
    → All (Held bs start) others
    → All (Held bs' start) others
Held-map bs bs' start others kept =
    All-map (Held bs start) (Held bs' start)
      (λ a h. record {
        page = h.page;
        bytes = h.bytes;
        place = h.place;
        room = h.room;
        busy = kept h.page h.bytes h.busy;
      })
      others

-- What is said of each of a list is said of each but one.
pub All-remove :
    {A : Type 0} (P : A → Type 0) (xs : List A) (a : A) (ys : List A)
    → All P (xs ++ a ∷ ys)
    → P a × All P (xs ++ ys)
All-remove P xs a ys h =
    let back = All-append_right P xs (a ∷ ys) h in
    (back.0, All-append P xs ys (All-append_left P xs (a ∷ ys) h) back.1)

Disjoint-sym : (a b : Allocation) → Disjoint a b → Disjoint b a
Disjoint-sym a b (inl h) = inr h
Disjoint-sym a b (inr h) = inl h

-- One that is given back was apart from the others, which are apart from each other.
pub AllDisjoint-remove :
    (xs : List Allocation) (a : Allocation) (ys : List Allocation)
    → AllDisjoint (xs ++ a ∷ ys)
    → All (Disjoint a) (xs ++ ys) × AllDisjoint (xs ++ ys)
AllDisjoint-remove [] a ys h = h
AllDisjoint-remove (x ∷ xs) a ys h =
    let (first, rest) = All-remove (Disjoint x) xs a ys h.0 in
    let (apart, others) = AllDisjoint-remove xs a ys h.1 in
    ((Disjoint-sym x a first, apart), (rest, others))

-- The block that first fit takes is apart from what is held.
pub taken-Disjoint :
    (need start : ℕ) (bs : List Block) (p : ℕ) (bs' : List Block) (size : ℕ)
    (t : IsTaking need start bs p bs')
    → size ≤ need
    → (others : List Allocation) → All (Held bs start) others
    → All (Disjoint (record { at = p + overhead; size = size })) others
taken-Disjoint need start bs p bs' size t le others =
    All-map (Held bs start) (Disjoint (record { at = p + overhead; size = size }))
      (λ a h. apart a h (t.apart h.page h.bytes h.busy)) others
  where
    apart :
        (a : Allocation) (h : Held bs start a)
        → (h.page + h.bytes ≤ p) ⊎ (p + t.size ≤ h.page)
        → Disjoint (record { at = p + overhead; size = size }) a
    apart a h (inl lt) = inr (omega (arith, h.place, h.room, lt))
    apart a h (inr lt) = inl (omega (arith, h.place, t.room, lt, le))

-- While a block is given back, what is held elsewhere stays.
pub released-Held :
    (start : ℕ) (xs : List Block) (b : Block) (ys : List Block) (a : Allocation)
    → a.at ≢ start + total xs + overhead
    → Held (xs ++ b ∷ ys) start a
    → Held (release xs b.size ys) start a
released-Held start xs b ys a ne h = record {
  page = h.page;
  bytes = h.bytes;
  place = h.place;
  room = h.room;
  busy = BusyAt-release start h.page h.bytes xs b.size ys (
      BusyAt-replace start h.page h.bytes xs b (block b.size false ∷ []) ys (omega arith) h.busy
        (inr (λ e. ne (omega (arith, h.place, e)))));
}

pub release-Held_each :
    (start : ℕ) (xs : List Block) (b : Block) (ys : List Block) (a : Allocation)
    → a.at ≡ start + total xs + overhead
    → (others : List Allocation) → All (Disjoint a) others
    → All (Held (xs ++ b ∷ ys) start) others
    → All (Held (release xs b.size ys) start) others
release-Held_each start xs b ys a e [] d h = tt
release-Held_each start xs b ys a e (c ∷ others) d h = (
  released-Held start xs b ys c (λ f. omega (arith, e, f, d.0)) h.0,
  release-Held_each start xs b ys a e others d.1 h.1,
)
