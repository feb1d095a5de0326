-- ===== src/ThingsMem/Holds.antt =====
-- The letters that the first user pointer of an allocator leads to.
-- The pointer leads to the letters, in memory that the allocator has handed out.
use memthing.Base.{List, [], ap, false, length, pos, refl, ℕ, ℤ, ◌++◌, ◌∙◌, ◌∷◌, ◌≡◌, ◌≢◌}
use memthing.Blocks.{block}
use memthing.Heap.Invariant.{fmem_at}
use memthing.Heap.Lock.{fmem-set_fmem}
use memthing.LinkedList.Ring.{Ring-same}
use memthing.Memory.{null, set_fmem}
use memthing.Page.{Build}
use memthing.Sessions.Released.{stash-IsHeap}
use memthing.Things.{Run, Store, done, with_memory}
use memthing.Things.Make.{IsThings, Letters-same}
use memthing.ThingsMem.{set_user1}
use memthing.ThingsMem.Init.{IsOwner}
use memthing.ThingsMem.Reopened.{IsStored, values_self}

pub record HoldsLetters (build : Build) (base bytes pointer : ℕ) (s : Store) : Type 0 where
  pub things : List ℕ
  pub header : ℕ
  pub user1 : (s.memory.fmem (fmem_at base)).user1 ≡ header
  pub not_null : header ≢ null
  pub letters : IsThings s header things 0
  pub many : length things ≡ 26
  pub owner : IsOwner build base bytes pointer 0 s (things ++ header ∷ [])

-- A program run that returns 0 with the letters in memory.
abbrev pub LeavesLetters :
    {W : Type 0} → Build → (base bytes pointer : ℕ) → Run (ℤ × Store × W) → Type 0
LeavesLetters {W} build base bytes pointer run =
    (out : ℤ × Store × W) × (run ≡ done out)
    × (out.0 ≡ pos 0)
    × HoldsLetters build base bytes pointer out.1

pub set_user1-HoldsLetters :
    (build : Build) (base bytes pointer : ℕ) (s : Store) (header : ℕ) (ys : List ℕ)
    → header ≢ null
    → IsThings s header ys 0
    → length ys ≡ 26
    → IsOwner build base bytes pointer 0 s (ys ++ header ∷ [])
    → HoldsLetters build base bytes pointer (set_user1 s (fmem_at base) header)
set_user1-HoldsLetters build base bytes pointer s header ys set things many owner =
    let fm = fmem_at base in
    let f = s.memory.fmem fm in
    let m = set_fmem s.memory fm (record f { user1 = header }) in
    let e = fmem-set_fmem s.memory fm (record f { user1 = header }) in
    record {
      things = ys;
      header = header;
      user1 = ap (λ f. f.user1) e;
      not_null = set;
      letters = record {
        ring = Ring-same s.memory m header ys (λ p. refl) (λ p. refl) things.ring;
        letters = Letters-same s (with_memory s m) ys 0 (values_self s ys) things.letters;
        count = things.count;
      };
      many = many;
      owner = record {
        free_size = owner.free_size;
        others = owner.others;
        heap =
            stash-IsHeap build s.memory base (block owner.free_size false ∷ owner.others) header
              f.user2 f.user3 f.user4 owner.heap;
        room = owner.room;
        least = ap (λ f. f.min_alloc) e ∙ owner.least;
        committer = ap (λ f. f.committer) e ∙ owner.committer;
        size = ap (λ f. f.total_size) e ∙ owner.size;
        owned = owner.owned;
      };
    }

abbrev pub as_stored :
    (build : Build) (base bytes pointer : ℕ) (s : Store)
    → HoldsLetters build base bytes pointer s
    → IsStored build base s
as_stored build base bytes pointer s h = record {
  blocks = block h.owner.free_size false ∷ h.owner.others;
  heap = h.owner.heap;
  things = h.things;
  header = h.header;
  pointer = h.user1;
  not_null = h.not_null;
  letters = h.letters;
  many = h.many;
}
