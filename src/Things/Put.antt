-- ===== src/Things/Put.antt =====
-- Rings of things while other things are made.
use memthing.Base.{
  All, All-append_left, All-append_right, All-map, Fresh, List, [], arith, refl, ℕ, ◌++◌, ◌∙◌, ◌∷◌,
  ◌≡◌, ◌≢◌,
}
use memthing.LinkedList.{list_add_after}
use memthing.LinkedList.Ring.{Seg}
use memthing.Memory.{Memory}
use memthing.Things.{Store}
use memthing.Things.Make.{IsThings, Letters-same, OnlyAt, SameThing, put_thing}

-- A segment reads its own nodes only.
pub Seg-at :
    (m n : Memory) (a : ℕ) (xs : List ℕ) (b : ℕ)
    → n.next a ≡ m.next a
    → All (λ x. (n.next x ≡ m.next x) × (n.prev x ≡ m.prev x)) xs
    → n.prev b ≡ m.prev b
    → Seg m a xs b
    → Seg n a xs b
Seg-at m n a [] b e same d g = (e ∙ g.0, d ∙ g.1)
Seg-at m n a (x ∷ xs) b e same d g =
    (e ∙ g.0, same.0.1 ∙ g.1, Seg-at m n x xs b same.0.0 same.1 d g.2)

-- A list of things stays where what is at its addresses stays.
pub IsThings-same :
    (s t : Store) (header : ℕ) (xs rest : List ℕ) (k : ℕ)
    → All (SameThing s t) (xs ++ header ∷ rest)
    → IsThings s header xs k
    → IsThings t header xs k
IsThings-same s t header xs rest k same h =
    let at_xs = All-append_left (SameThing s t) xs (header ∷ rest) same in
    let at_header = (All-append_right (SameThing s t) xs (header ∷ rest) same).0 in
    record {
      ring = record {
        links =
            Seg-at s.memory t.memory header xs header at_header.0
              (All-map (SameThing s t)
                (λ x. (t.memory.next x ≡ s.memory.next x) × (t.memory.prev x ≡ s.memory.prev x))
                (λ x h. (h.0, h.1)) xs at_xs)
              at_header.1 h.ring.links;
        distinct = h.ring.distinct;
      };
      letters =
          Letters-same s t xs k
            (All-map (SameThing s t) (λ x. t.value x ≡ s.value x) (λ x h. h.3) xs at_xs) h.letters;
      count = at_header.2 ∙ h.count;
    }

module _ (s : Store) (header p v : ℕ) where
  -- A link that is written is at one of the things.
  put_thing-links :
      (xs rest : List ℕ) (k x : ℕ)
      → IsThings s header xs k
      → Fresh p (header ∷ xs)
      → Fresh x (p ∷ (xs ++ header ∷ rest))
      → ((put_thing s header p v).memory.next x ≡ s.memory.next x)
        × ((put_thing s header p v).memory.prev x ≡ s.memory.prev x)
  unfolding list_add_after
  put_thing-links [] rest k x h f g =
      (ground (arith, g, f, h.ring.links), ground (arith, g, f, h.ring.links))
  put_thing-links (y ∷ ys) rest k x h f g =
      let out = All-append_right (λ z. x ≢ z) ys (header ∷ rest) g.1.1 in
      (
        ground (arith, g.0, g.1.0, out.0, f, h.ring.links.0),
        ground (arith, g.0, g.1.0, out.0, f, h.ring.links.0),
      )

  pub put_thing-OnlyAt :
      (xs rest : List ℕ) (k : ℕ)
      → IsThings s header xs k
      → Fresh p (header ∷ xs)
      → OnlyAt (p ∷ (xs ++ header ∷ rest)) s (put_thing s header p v)
  unfolding list_add_after
  put_thing-OnlyAt xs rest k h f = record {
    next = λ x g. (put_thing-links xs rest k x h f g).0;
    prev = λ x g. (put_thing-links xs rest k x h f g).1;
    flags = refl;
    size = refl;
    fmem = refl;
  }

  -- What is elsewhere stays.
  pub put_thing-SameThing :
      (xs : List ℕ) (k x : ℕ)
      → IsThings s header xs k
      → Fresh p (header ∷ xs)
      → Fresh x (p ∷ (xs ++ header ∷ []))
      → SameThing s (put_thing s header p v) x
  put_thing-SameThing xs k x h f g =
      let (next, prev) = put_thing-links xs [] k x h f g in
      let out = All-append_right (λ z. x ≢ z) xs (header ∷ []) g.1 in
      (next, prev, ground (arith, out.0), ground (arith, g.0))
