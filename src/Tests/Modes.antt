-- ===== src/Tests/Modes.antt =====
-- The lists of letters and the modes of the example programs, with a `malloc` and a system that do
-- what they must. The world is the next address that `malloc` gives.
use memthing.Base.{
  ◌*◌, All, All-map, List, [], arith, none, pos, refl, some, ℕ, ◌++◌, ◌+◌, ◌<◌, ◌^◌, ◌∷◌, ◌≡◌, ◌≢◌,
  ◌≤◌,
}
use memthing.Blocks.{}
use memthing.Blocks.Busy.{BusyAt-range}
use memthing.Fmem.{Committers}
use memthing.Page.{plain}
use memthing.System.{System}
use memthing.Tests.Lists.{zeros}
use memthing.Things.{Alloc, Store, done, make_wellknown_things}
use memthing.Things.Make.{IsLawful, SameThing}
use memthing.Things.Wellknown.{MakesLetters, make_wellknown_things-Letters}
use memthing.ThingsMem.{mode_init, mode_read}
use memthing.ThingsMem.Holds.{HoldsLetters, LeavesLetters}
use memthing.ThingsMem.Modes.{mode_init-LeavesLetters, mode_read-finds}
use memthing.ThingsMem.Owned.{Owned}
use memthing.ThingsMem.Reopened.{}
use memthing.ThingsMemPersisted.Modes.{mode_init-synced}
use memthing.ThingsMemPersisted.RoundTrip.{mode_read-mode_init}
use memthing.ThingsMemPersisted

abbrev bump : Alloc ℕ
bump size s w = done (w, s, w + 24)

-- All that was given is below what will be.
abbrev Below : ℕ → Store → ℕ → List ℕ → Type 0
Below n s w taken = (0 < w) × All (λ x. x < w) taken

bump-IsLawful : IsLawful bump none Below
bump-IsLawful = record {
  gives = λ n s w taken g. (
    (w, s, w + 24),
    refl,
    omega (arith, g.0),
    All-map (λ x. x < w) (λ x. w ≢ x) (λ x lt. omega (arith, lt)) taken g.1,
    All-map (λ x. x < w) (SameThing s s) (λ x lt. (refl, refl, refl, refl)) taken g.1,
    (
      omega (arith, g.0),
      (omega arith, All-map (λ x. x < w) (λ x. x < w + 24) (λ x lt. omega (arith, lt)) taken g.1),
    ),
  );
  writes = λ n s t w taken g only. g;
  tells = λ n s w taken each g i. (w, refl, g);
}

abbrev bare : Store
bare = record { memory = zeros; count = λ p. 0; value = λ p. 0 }

make_wellknown_things-Letters_example :
    MakesLetters bump-IsLawful [] bare (make_wellknown_things 0 (some bump) none bare 5000)
make_wellknown_things-Letters_example =
    make_wellknown_things-Letters bump-IsLawful 0 bare 5000 [] (omega arith, tt)

-- A system on which every call succeeds, and memory is mapped as it is.
abbrev pub obliging : System ℕ
obliging = record {
  getpagesize = 1;
  shm_open = λ w. (pos 3, w);
  open_file = λ create w. (pos 3, w);
  ftruncate = λ fd len w. (pos 0, w);
  mmap = λ addr len fd s w. (addr, s, w);
  msync = λ start len wait w. (pos 0, w);
  fsync = λ fd w. (pos 0, w);
  shm_unlink = λ w. (pos 0, w);
  remove = λ w. (pos 0, w);
}

abbrev idlers : Committers ℕ
idlers pointer ranges count m w = (pos 0, w, ranges)

mode_init-LeavesLetters_example :
    LeavesLetters plain 1000000
      (1024 * 100)
      0
      (mode_init obliging idlers plain (2 ^ 28) bare (2 ^ 64))
mode_init-LeavesLetters_example =
    mode_init-LeavesLetters obliging idlers plain (2 ^ 28) (omega arith) bare bare (2 ^ 64) (2 ^ 64)
      (2 ^ 64) (2 ^ 64) (pos 3) 1000000 refl refl refl refl (omega arith) (omega arith)
      (omega arith) (omega arith) refl

-- What the first program leaves, and the second maps.
started :
    LeavesLetters plain 1000000
      (1024 * 100)
      0
      (mode_init obliging idlers plain (2 ^ 28) bare (2 ^ 64))
started =
    mode_init-LeavesLetters obliging idlers plain (2 ^ 28) (omega arith) bare bare (2 ^ 64) (2 ^ 64)
      (2 ^ 64) (2 ^ 64) (pos 3) 1000000 refl refl refl refl (omega arith) (omega arith)
      (omega arith) (omega arith) refl

abbrev left_over : Store
left_over = started.0.1

abbrev found : HoldsLetters plain 1000000 (1024 * 100) 0 left_over
found = started.3

-- The addresses that `malloc` gives are behind the memory.
HoldsLetters-Below :
    (bytes pointer : ℕ) (s : Store) (h : HoldsLetters plain 1000000 bytes pointer s)
    → Below 27 s (2 ^ 64) (h.things ++ h.header ∷ [])
HoldsLetters-Below bytes pointer s h =
    let o = h.owner in
    (
      omega arith,
      All-map (Owned o.others (1000096 + o.free_size)) (λ x. x < 2 ^ 64)
          (λ x owned.
            let range =
              BusyAt-range o.others (1000096 + o.free_size) owned.page owned.bytes
                o.heap.row.sized.1 owned.busy in
            omega (arith, range, owned.place, owned.room, o.heap.account.span, o.heap.account.fits))
          (h.things ++ h.header ∷ []) o.owned,
    )

found-Below : Below 27 left_over (2 ^ 64) (found.things ++ found.header ∷ [])
found-Below = HoldsLetters-Below (1024 * 100) 0 left_over found

mode_read-finds_example :
    (out : Store × ℕ) × (mode_read obliging idlers plain (2 ^ 28) bump left_over (2 ^ 64)
      ≡ done (pos 0, out.0, out.1))
mode_read-finds_example =
    mode_read-finds obliging idlers plain (2 ^ 28) (omega arith) bump-IsLawful left_over left_over
      (2 ^ 64) (2 ^ 64) (2 ^ 64) (pos 3) 1000000 refl refl refl (omega arith) found found-Below

mode_init-synced_example :
    LeavesLetters plain 1000000
      (1024 * 1024 * 10)
      4096
      (ThingsMemPersisted.mode_init obliging plain (2 ^ 28) 4096 bare (2 ^ 64))
mode_init-synced_example =
    mode_init-synced obliging plain (2 ^ 28) (omega arith) 4096 bare bare (2 ^ 64) (2 ^ 64) (2 ^ 64)
      (2 ^ 64) (pos 3) 1000000 refl refl refl (λ start len v. refl) refl (omega arith) (omega arith)
      (omega arith) (omega arith) (omega arith) (omega arith)

-- What the program leaves in the file, and maps from it.
filed :
    LeavesLetters plain 1000000
      (1024 * 1024 * 10)
      4096
      (ThingsMemPersisted.mode_init obliging plain (2 ^ 28) 4096 bare (2 ^ 64))
filed =
    mode_init-synced obliging plain (2 ^ 28) (omega arith) 4096 bare bare (2 ^ 64) (2 ^ 64) (2 ^ 64)
      (2 ^ 64) (pos 3) 1000000 refl refl refl (λ start len v. refl) refl (omega arith) (omega arith)
      (omega arith) (omega arith) (omega arith) (omega arith)

abbrev file : Store
file = filed.0.1

mapped-Below :
    (taken : List ℕ)
    → All (λ x. (1000000 ≤ x) × (x < 1000000 + 1024 * 1024 * 10)) taken
    → Below 27 file (2 ^ 64) taken
mapped-Below taken inside = (
  omega arith,
  All-map (λ x. (1000000 ≤ x) × (x < 1000000 + 1024 * 1024 * 10)) (λ x. x < 2 ^ 64)
      (λ x h. omega (arith, h)) taken inside,
)

mode_read-mode_init_example :
    (out : Store × ℕ) × (ThingsMemPersisted.mode_read obliging plain (2 ^ 28) bump file (2 ^ 64)
      ≡ done (pos 0, out.0, out.1))
mode_read-mode_init_example =
    mode_read-mode_init obliging plain (2 ^ 28) (omega arith) bump-IsLawful 4096 bare bare file file
      file (2 ^ 64) (2 ^ 64) (2 ^ 64) (2 ^ 64) (2 ^ 64) (2 ^ 64) (2 ^ 64) (2 ^ 64) (2 ^ 64) (pos 3)
      (pos 3) 1000000 1000000 1000000 filed.0 refl refl refl (λ start len x. refl) refl
      (omega arith) (omega arith) (omega arith) (omega arith) (omega arith) (omega arith) filed.1
      refl refl refl refl refl (omega arith) (omega arith) refl mapped-Below
