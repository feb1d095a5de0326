-- ===== src/ThingsMemPersisted/Modes.antt =====
-- The modes of things_mem_persisted.c: what `-i` leaves, and what `-r` finds.
use memthing.Base.{
  ◌+◌, ◌<◌, ap, true, ◌%◌, ◌*◌, ◌∙◌, arith, false, ne→==, none, pos, refl, ℕ, ℤ, List, ◌++◌, ◌==◌,
  ◌^◌, ◌∷◌, ◌≡◌, ◌≢◌, ◌≤◌, [],
}
use memthing.Fmem.{fmem_from_existing}
use memthing.Heap.Invariant.{fmem_at}
use memthing.Memory.{null}
use memthing.Page.{Build}
use memthing.System.{System, is_minus_one, map_failed}
use memthing.Things.{Alloc, Store, done, with_memory}
use memthing.Things.Make.{IsLawful}
use memthing.ThingsMem.Reopened.{IsStored, stored-agrees}
use memthing.ThingsMemPersisted.{get_map_address, map_size, mode_init, mode_read}
use memthing.ThingsMemPersisted.Init.{init_mapped-synced}
use memthing.ThingsMem.Holds.{LeavesLetters}
use native.Mathlib.Nat.{add-mul-mod_self_left, zero-mod}

-- The address is a multiple of the page size.
map_address-mod : (p : ℕ) → p * 1000000 < 2 ^ 64 → (p * 1000000 % 2 ^ 64) % p ≡ 0
map_address-mod p high =
    let e : p * 1000000 % 2 ^ 64 ≡ 0 + p * 1000000 = omega (arith, high) in
    ap (λ k. k % p) e ∙ add-mul-mod_self_left 0 p 1000000 ∙ zero-mod p

module _ {W : Type 0} (system : System W) (build : Build) (fuel : ℕ) (enough : 2 ^ 28 ≤ fuel) where
  abbrev base : ℕ
  base = get_map_address system

  -- Where the calls of the system succeed, and the file maps, the second time, to a well-formed
  -- allocator whose first user pointer leads to the letters, and `malloc` does what it must in 27
  -- calls and leaves them alone, the program with `-r`, on fuel of 2^28 or more, opens the
  -- allocator, finds no difference and returns 0.
  pub mode_read-finds_stored :
      {malloc : Alloc W} {Good : ℕ → Store → W → List ℕ → Type 0}
      (lawful : IsLawful malloc none Good) (s t u : Store) (w w1 w2 w3 w4 : W) (fd : ℤ)
      (mapped again : ℕ)
      → system.open_file false w ≡ (fd, w1)
      → system.ftruncate fd map_size w1 ≡ (pos 0, w2)
      → system.mmap base map_size fd s w2 ≡ (mapped, t, w3)
      → system.mmap base map_size fd t w3 ≡ (again, u, w4)
      → is_minus_one fd ≡ false
      → mapped ≢ map_failed
      → again ≢ map_failed
      → (h : IsStored build base u)
      → Good 27
          (with_memory u (fmem_from_existing build u.memory base null).1)
          w4
          (h.things ++ h.header ∷ [])
      → (out : Store × W) × (mode_read system build fuel malloc s w ≡ done (pos 0, out.0, out.1))
  unfolding mode_read
  mode_read-finds_stored lawful s t u w w1 w2 w3 w4 fd mapped again opens truncates maps maps_again
        good there there_again h g =
      let (out, object, agrees) = stored-agrees lawful build base fuel enough u w4 h g in
      let here : (fmem_at base == null) ≡ false = ground arith in
      (
        out,
        rw
            (
              opens,
              truncates,
              maps,
              maps_again,
              good,
              ne→== mapped map_failed there,
              ne→== again map_failed there_again,
              object,
              here,
              agrees,
            )
            refl,
      )

  -- Where the calls of the system succeed, every `msync` that waits included, and map, at an
  -- address that is not cut to 64 bits with 2^32 bytes behind the map, memory whose flags are words,
  -- and the page size is not 0 and the committer's pointer not NULL, the program with `-i` returns
  -- 0, on fuel of 2^28 or more: no allocation, no commit of a thing and no commit of the user data
  -- fails. It leaves a well-formed allocator with that committer, whose first user pointer leads to
  -- a list of 26 things, linked both ways, with the letters from A to Z in their order and their
  -- number in the header, all in busy blocks of the allocator.
  pub mode_init-synced :
      (pointer : ℕ) (s t : Store) (w w1 w2 w3 : W) (fd : ℤ) (mapped : ℕ)
      → system.open_file true w ≡ (fd, w1)
      → system.ftruncate fd map_size w1 ≡ (pos 0, w2)
      → system.mmap base map_size fd s w2 ≡ (mapped, t, w3)
      → ((start len : ℕ) (v : W) → (system.msync start len true v).0 ≡ pos 0)
      → is_minus_one fd ≡ false
      → mapped ≢ map_failed
      → pointer ≢ null
      → 0 < system.getpagesize
      → system.getpagesize * 1000000 + map_size + 2 ^ 32 ≤ 2 ^ 64
      → t.memory.flags base < 2 ^ 32
      → t.memory.flags (base + 96) < 2 ^ 32
      → LeavesLetters build base map_size pointer (mode_init system build fuel pointer s w)
  unfolding mode_init
  mode_init-synced pointer s t w w1 w2 w3 fd mapped opens truncates maps syncs good there set page
        high word word' =
      rw (opens, truncates, maps, good, ne→== mapped map_failed there)
        (init_mapped-synced system build fuel enough fd base pointer page
          (map_address-mod system.getpagesize (omega (arith, high))) (omega (arith, high)) set syncs
          t w3 word word')
