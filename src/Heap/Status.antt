-- ===== src/Heap/Status.antt =====
-- The header of a page after its status is set.
use memthing.Base.{bit_and, ℕ, ◌%◌, ◌^◌, ◌<◌, ◌≢◌, ◌∙◌, refl, true, false, arith, bit_or}
use memthing.Base.Bits.{or_bit15, and_low16, and_not15, or_high16}
use memthing.Memory.{Memory}
use memthing.Page.{
  fpage_set_magic, fpage_set_busy, fpage_set_free, poison_page, Build, plain, checked, poison,
}
use memthing.Page.Flags.{set_busy-get, set_magic-get, set_free-get}
use memthing.Blocks.{Block, block}
use memthing.Heap.Layout.{PageAt, SameAt}

-- Taking a page: busy, and in a checked build with the magic number.
abbrev pub busy_page : Build → Memory → ℕ → Memory
busy_page build m p = poison_page build (fpage_set_busy m p) p

pub busy_page-PageAt :
    (build : Build) (m : Memory) (p : ℕ)
    → m.flags p < 2 ^ 32
    → PageAt build (busy_page build m p) p (block (m.size p) true)
unfolding fpage_set_magic fpage_set_busy
busy_page-PageAt plain m p h = record {
  size = refl;
  free = (set_busy-get m p).0;
  word = ground (arith, or_bit15 (m.flags p));
  magic = tt;
}
busy_page-PageAt checked m p h = record {
  size = refl;
  free = (set_magic-get (fpage_set_busy m p) p poison (omega arith)).1 ∙ (set_busy-get m p).0;
  word = ground (
    arith,
    and_low16 (bit_or (m.flags p) (2 ^ 15)),
    or_high16 (bit_or (m.flags p) (2 ^ 15) % 2 ^ 16) poison,
  );
  magic = (set_magic-get (fpage_set_busy m p) p poison (omega arith)).0;
}

pub busy_page-same :
    (build : Build) (m : Memory) (p q : ℕ) → q ≢ p → SameAt m (busy_page build m p) q
unfolding fpage_set_magic fpage_set_busy
busy_page-same plain m p q ne = (refl, ground arith)
busy_page-same checked m p q ne = (refl, ground arith)

-- Freeing a page keeps its magic number.
pub free_page-PageAt :
    (build : Build) (m : Memory) (p : ℕ) (b : Block)
    → PageAt build m p b
    → PageAt build (fpage_set_free m p) p (block b.size false)
unfolding fpage_set_free
free_page-PageAt plain m p b h = record {
  size = h.size;
  free = (set_free-get m p h.word).0;
  word = ground (arith, h.word, and_not15 (m.flags p));
  magic = tt;
}
free_page-PageAt checked m p b h = record {
  size = h.size;
  free = (set_free-get m p h.word).0;
  word = ground (arith, h.word, and_not15 (m.flags p));
  magic = (set_free-get m p h.word).1 ∙ h.magic;
}

pub free_page-same : (m : Memory) (p q : ℕ) → q ≢ p → SameAt m (fpage_set_free m p) q
unfolding fpage_set_free
free_page-same m p q ne = (refl, ground arith)

-- A page that is made free, and in a checked build gets the magic number.
abbrev pub clean_page : Build → Memory → ℕ → Memory
clean_page build m p = poison_page build (fpage_set_free m p) p

pub clean_page-PageAt :
    (build : Build) (m : Memory) (p : ℕ)
    → m.flags p < 2 ^ 32
    → PageAt build (clean_page build m p) p (block (m.size p) false)
unfolding fpage_set_magic fpage_set_free
clean_page-PageAt plain m p h = record {
  size = refl;
  free = (set_free-get m p h).0;
  word = ground (arith, and_not15 (m.flags p));
  magic = tt;
}
clean_page-PageAt checked m p h = record {
  size = refl;
  free = (set_magic-get (fpage_set_free m p) p poison (omega arith)).1 ∙ (set_free-get m p h).0;
  word = ground (
    arith,
    and_low16 (bit_and (m.flags p) 0xffff7fff),
    or_high16 (bit_and (m.flags p) 0xffff7fff % 2 ^ 16) poison,
  );
  magic = (set_magic-get (fpage_set_free m p) p poison (omega arith)).0;
}
