-- ===== src/ThingsMem/Modes.antt =====
-- The modes of things_mem.c: what `-i` leaves, and what `-r` finds.
use memthing.Base.{
  List, [], arith, false, ne→==, none, pos, refl, ℕ, ℤ, ◌++◌, ◌+◌, ◌<◌, ◌==◌, ◌^◌, ◌∷◌, ◌≡◌, ◌≢◌,
  ◌≤◌,
}
use memthing.Fmem.{Committers, create, range, fmem_from_existing}
use memthing.Heap.Invariant.{fmem_at}
use memthing.Memory.{null}
use memthing.Page.{Build}
use memthing.System.{System, is_minus_one, map_failed}
use memthing.Things.{Alloc, Store, done, with_memory}
use memthing.Things.Make.{IsLawful}
use memthing.Things.Wellknown.{make_wellknown_things-Letters}
use memthing.ThingsMem.{get_map_address, init_mapped, map_size, mode_init, mode_read, set_user1}
use memthing.ThingsMem.Created.{create-run, made-IsOwner}
use memthing.ThingsMem.Holds.{HoldsLetters, as_stored, LeavesLetters, set_user1-HoldsLetters}
use memthing.ThingsMem.Reopened.{stored-agrees}
use memthing.Heap.Gives.{commit_none}
use memthing.ThingsMem.Init.{alloc-IsLawful}

module _ {W : Type 0} (system : System W) (committers : Committers W) (build : Build) (fuel : ℕ)
    (enough : 2 ^ 28 ≤ fuel) where
  abbrev base : ℕ
  base = get_map_address system committers build fuel

  abbrev fm : ℕ
  fm = fmem_at base

  module _ (s : Store) (w : W) (high : base + map_size < 2 ^ 64)
      (word : s.memory.flags base < 2 ^ 32) (word' : s.memory.flags (base + 96) < 2 ^ 32)
      (uncommitted : (s.memory.fmem fm).committer ≡ null) where
    init_mapped-LeavesLetters :
        LeavesLetters build base map_size null (init_mapped system committers build fuel base s w)
    unfolding init_mapped
    init_mapped-LeavesLetters =
        let made = create build s.memory base map_size 0 null in
        let lawful = alloc-IsLawful system committers build fuel enough base map_size in
        let owner =
          made-IsOwner committers build s w w base map_size null null (omega arith) (omega arith)
            high word word' uncommitted in
        let run =
          create-run committers build s w w base map_size null null (omega arith) (omega arith) high
            word word' uncommitted
            (commit_none committers made w fm (range base 120 ∷ []) 1 owner.committer) in
        let (out, ran, value, set, ys, things, many, _, owner') =
          make_wellknown_things-Letters lawful null (with_memory s made) w [] owner in
        let here : (fm == null) ≡ false = ground arith in
        (
          (pos 0, set_user1 out.2 fm out.1, out.3),
          rw (run, here, ran, value) refl,
          refl,
          set_user1-HoldsLetters build base map_size null out.2 out.1 ys set things many owner',
        )

  -- Where the system's calls succeed and map, at an address with room behind it, memory whose flags
  -- are words and whose committer is NULL, as new memory is, the program with `-i` returns 0. It
  -- leaves a well-formed allocator whose first user pointer leads to a list of 26 things, linked both
  -- ways, with the letters from A to Z in their order and their number, all in blocks of its own.
  pub mode_init-LeavesLetters :
      (s t : Store) (w w1 w2 w3 : W) (fd : ℤ) (mapped : ℕ)
      → system.shm_open w ≡ (fd, w1)
      → system.ftruncate fd map_size w1 ≡ (pos 0, w2)
      → system.mmap base map_size fd s w2 ≡ (mapped, t, w3)
      → is_minus_one fd ≡ false
      → mapped ≢ map_failed
      → base + map_size < 2 ^ 64
      → t.memory.flags base < 2 ^ 32
      → t.memory.flags (base + 96) < 2 ^ 32
      → (t.memory.fmem fm).committer ≡ null
      → LeavesLetters build base map_size null (mode_init system committers build fuel s w)
  unfolding mode_init
  mode_init-LeavesLetters s t w w1 w2 w3 fd mapped opens truncates maps good there high word word'
        uncommitted =
      rw (opens, truncates, maps, good, ne→== mapped map_failed there)
        (init_mapped-LeavesLetters t w3 high word word' uncommitted)

  -- Where the system's calls succeed and map memory that holds the letters, and `malloc` does what it
  -- must in 27 calls and leaves them alone, the program with `-r` finds no difference and returns 0.
  pub mode_read-finds :
      {malloc : Alloc W} {Good : ℕ → Store → W → List ℕ → Type 0}
      (lawful : IsLawful malloc none Good) (s t : Store) (w w1 w2 : W) (fd : ℤ) (mapped : ℕ)
      → system.shm_open w ≡ (fd, w1)
      → system.mmap base map_size fd s w1 ≡ (mapped, t, w2)
      → is_minus_one fd ≡ false
      → mapped ≢ map_failed
      → (h : HoldsLetters build base map_size null t)
      → Good 27
          (with_memory t (fmem_from_existing build t.memory base null).1)
          w2
          (h.things ++ h.header ∷ [])
      → (out : Store × W) × (mode_read system committers build fuel malloc s w
          ≡ done (pos 0, out.0, out.1))
  unfolding mode_read
  mode_read-finds lawful s t w w1 w2 fd mapped opens maps good there h g =
      let stored = as_stored build base map_size null t h in
      let (out, object, agrees) = stored-agrees lawful build base fuel enough t w2 stored g in
      let here : (fm == null) ≡ false = ground arith in
      (out, rw (opens, maps, good, ne→== mapped map_failed there, object, here, agrees) refl)
