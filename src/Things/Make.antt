-- ===== src/Things/Make.antt =====
-- What `make_wellknown_things` makes, with any allocator that keeps what it has given.
use memthing.Base.{
  All, Fresh, List, Option, [], arith, length, suc, ℕ, ◌%◌, ◌+◌, ◌<◌, ◌^◌, ◌∙◌, ◌∷◌, ◌≡◌, ◌≢◌, ◌⊎◌,
}
use memthing.LinkedList.{list_add_after}
use memthing.LinkedList.Insert.{list_add_after-head}
use memthing.LinkedList.Ring.{Ring, Ring-set_next, Ring-set_prev}
use memthing.Memory.{null, set_next, set_prev, update}
use memthing.Things.{Alloc, Oneach, Store, call_oneach, done}

-- `x` is one of the list.
abbrev pub In : ℕ → List ℕ → Type 0
In x [] = ⊥
In x (y ∷ ys) = (x ≡ y) ⊎ In x ys

-- Two stores agree on what is at `x`.
abbrev pub SameThing : Store → Store → ℕ → Type 0
SameThing s t x =
    (t.memory.next x ≡ s.memory.next x)
    × (t.memory.prev x ≡ s.memory.prev x)
    × (t.count x ≡ s.count x)
    × (t.value x ≡ s.value x)

-- A change of the store that leaves everything but the things at the given addresses.
pub record OnlyAt (taken : List ℕ) (s t : Store) : Type 0 where
  pub next : (x : ℕ) → Fresh x taken → t.memory.next x ≡ s.memory.next x
  pub prev : (x : ℕ) → Fresh x taken → t.memory.prev x ≡ s.memory.prev x
  pub flags : t.memory.flags ≡ s.memory.flags
  pub size : t.memory.size ≡ s.memory.size
  pub fmem : t.memory.fmem ≡ s.memory.fmem

-- What `make_wellknown_things` needs of its allocator and of `oneach`, in states that are `Good`:
-- where `n` more calls are good and the addresses in `taken` were given, the next call gives another
-- one that is not NULL and leaves what is at those; the program may write to what it was given; and
-- `oneach` of a thing that was given returns.
pub record IsLawful {W : Type 0} (allocator : Alloc W) (oneach : Option (Oneach W))
    (Good : ℕ → Store → W → List ℕ → Type 0) : Type 0 where
  pub gives :
      (n : ℕ) (s : Store) (w : W) (taken : List ℕ)
      → Good (suc n) s w taken
      → (out : ℕ × Store × W) × (allocator 24 s w ≡ done out)
        × (out.0 ≢ null)
        × Fresh out.0 taken
        × All (SameThing s out.1) taken
        × Good n out.1 out.2 (out.0 ∷ taken)
  pub writes :
      (n : ℕ) (s t : Store) (w : W) (taken : List ℕ)
      → Good n s w taken
      → OnlyAt taken s t
      → Good n t w taken
  pub tells :
      (n : ℕ) (s : Store) (w : W) (taken : List ℕ) (each : ℕ)
      → Good n s w taken
      → In each taken
      → (v : W) × (call_oneach oneach each 24 s w ≡ done v) × Good n s v taken

-- The letters from the one after `64 + k` on.
abbrev pub Letters : Store → List ℕ → ℕ → Type 0
Letters s [] k = Unit
Letters s (x ∷ xs) k = (s.value x ≡ 64 + suc k) × Letters s xs (suc k)

-- A list of things from the letter after `64 + k` on.
pub record IsThings (s : Store) (header : ℕ) (xs : List ℕ) (k : ℕ) : Type 0 where
  pub ring : Ring s.memory header xs
  pub letters : Letters s xs k
  pub count : s.count header ≡ length xs

-- One more thing in front.
abbrev pub put_thing : Store → (header this_thing value : ℕ) → Store
put_thing s header this_thing value =
    let m = set_prev (set_next s.memory this_thing 0) this_thing 0 in
    record {
      memory = list_add_after m header this_thing;
      value = update (update s.value this_thing 0) this_thing value;
      count = update s.count header ((s.count header + 1) % 2 ^ 8);
    }

pub Letters-same :
    (s t : Store) (xs : List ℕ) (k : ℕ)
    → All (λ x. t.value x ≡ s.value x) xs
    → Letters s xs k
    → Letters t xs k
Letters-same s t [] k e h = tt
Letters-same s t (x ∷ xs) k e h = (e.0 ∙ h.0, Letters-same s t xs (suc k) e.1 h.1)

put_thing-value :
    (s : Store) (header p v : ℕ) (xs : List ℕ)
    → Fresh p xs
    → All (λ x. (put_thing s header p v).value x ≡ s.value x) xs
put_thing-value s header p v [] f = tt
put_thing-value s header p v (x ∷ xs) f = (ground (arith, f.0), put_thing-value s header p v xs f.1)

pub put_thing-IsThings :
    (s : Store) (header p k : ℕ) (xs : List ℕ)
    → Fresh p (header ∷ xs)
    → length xs < 255
    → IsThings s header xs (suc k)
    → IsThings (put_thing s header p (64 + suc k)) header (p ∷ xs) k
put_thing-IsThings s header p k xs f few h = record {
  ring =
      list_add_after-head (set_prev (set_next s.memory p 0) p 0) header p xs
        (Ring-set_prev (set_next s.memory p 0) header xs p 0 f
          (Ring-set_next s.memory header xs p 0 f h.ring))
        f;
  letters = (
    ground arith,
    Letters-same s (put_thing s header p (64 + suc k)) xs (suc k)
        (put_thing-value s header p (64 + suc k) xs f.1) h.letters,
  );
  count = ground (arith, h.count, few);
}
