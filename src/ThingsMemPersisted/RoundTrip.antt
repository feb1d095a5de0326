-- ===== src/ThingsMemPersisted/RoundTrip.antt =====
-- `-i` of things_mem_persisted.c, and then `-r`.
use memthing.Base.{
  All, All-map, List, [], ap, arith, false, none, pos, subst, sym, true, ℕ, ℤ, ◌*◌, ◌++◌, ◌+◌, ◌<◌,
  ◌^◌, ◌∙◌, ◌∷◌, ◌≡◌, ◌≢◌, ◌≤◌,
}
use memthing.Blocks.Busy.{BusyAt-range}
use memthing.Fmem.{fmem_from_existing}
use memthing.Heap.Invariant.{head_size}
use memthing.Memory.{null}
use memthing.Page.{Build}
use memthing.System.{System, is_minus_one, map_failed}
use memthing.Things.{Alloc, Run, Store, done, exits, spins, with_memory}
use memthing.Things.Make.{IsLawful}
use memthing.ThingsMemPersisted.{get_map_address, map_size, mode_init, mode_read}
use memthing.ThingsMem.Holds.{HoldsLetters, as_stored}
use memthing.ThingsMem.Owned.{Owned}
use memthing.ThingsMemPersisted.Modes.{mode_init-synced, mode_read-finds_stored}

-- The letters and their header are in the mapped memory.
letters_inside :
    (build : Build) (base bytes pointer : ℕ) (s : Store)
    (h : HoldsLetters build base bytes pointer s)
    → All (λ x. (base ≤ x) × (x < base + bytes)) (h.things ++ h.header ∷ [])
letters_inside build base bytes pointer s h =
    let o = h.owner in
    All-map (Owned o.others (base + head_size + o.free_size)) (λ x. (base ≤ x) × (x < base + bytes))
      (λ x owned.
        let range =
          BusyAt-range o.others (base + head_size + o.free_size) owned.page owned.bytes
            o.heap.row.sized.1 owned.busy in
        omega (arith, range, owned.place, owned.room, o.heap.account.span, o.size))
      (h.things ++ h.header ∷ []) o.owned

same_end : {A : Type 0} {run : Run A} (a b : A) → run ≡ done a → run ≡ done b → a ≡ b
same_end a b e d = ap (ended a) (sym e ∙ d)
  where
    ended : {A : Type 0} → A → Run A → A
    ended a (done b) = b
    ended a exits = a
    ended a spins = a

module _ {W : Type 0} (system : System W) (build : Build) (fuel : ℕ) (enough : 2 ^ 28 ≤ fuel) where
  abbrev base : ℕ
  base = get_map_address system

  -- What the program with `-i` leaves, under the conditions under which it returns 0, the program
  -- with `-r` finds, on fuel of 2^28 or more: where the calls of the system succeed then too, the
  -- second mapping has what was left in memory, and `malloc` does what it must in 27 calls for
  -- memory outside of the mapped memory, it returns 0.
  pub mode_read-mode_init :
      {malloc : Alloc W} {Good : ℕ → Store → W → List ℕ → Type 0}
      (lawful : IsLawful malloc none Good) (pointer : ℕ) (s t s' t' u : Store)
      (w w1 w2 w3 v v1 v2 v3 v4 : W) (fd fd' : ℤ) (mapped mapped' again : ℕ)
      (kept_run : ℤ × Store × W)
      → system.open_file true w ≡ (fd, w1)
      → system.ftruncate fd map_size w1 ≡ (pos 0, w2)
      → system.mmap base map_size fd s w2 ≡ (mapped, t, w3)
      → ((start len : ℕ) (x : W) → (system.msync start len true x).0 ≡ pos 0)
      → is_minus_one fd ≡ false
      → mapped ≢ map_failed
      → pointer ≢ null
      → 0 < system.getpagesize
      → system.getpagesize * 1000000 + map_size + 2 ^ 32 ≤ 2 ^ 64
      → t.memory.flags base < 2 ^ 32
      → t.memory.flags (base + 96) < 2 ^ 32
      → mode_init system build fuel pointer s w ≡ done kept_run
      → system.open_file false v ≡ (fd', v1)
      → system.ftruncate fd' map_size v1 ≡ (pos 0, v2)
      → system.mmap base map_size fd' s' v2 ≡ (mapped', t', v3)
      → system.mmap base map_size fd' t' v3 ≡ (again, u, v4)
      → is_minus_one fd' ≡ false
      → mapped' ≢ map_failed
      → again ≢ map_failed
      → u ≡ kept_run.1
      → ((taken : List ℕ)
          → All (λ x. (base ≤ x) × (x < base + map_size)) taken
          → Good 27 (with_memory u (fmem_from_existing build u.memory base null).1) v4 taken)
      → (out : Store × W) × (mode_read system build fuel malloc s' v ≡ done (pos 0, out.0, out.1))
  mode_read-mode_init lawful pointer s t s' t' u w w1 w2 w3 v v1 v2 v3 v4 fd fd' mapped mapped'
        again kept_run opens truncates maps syncs good there set page high word word' ran opens'
        truncates' maps' maps_again good' there' there_again kept spare =
      let (end, ran', _, holds) =
        mode_init-synced system build fuel enough pointer s t w w1 w2 w3 fd mapped opens truncates
          maps syncs good there set page high word word' in
      let same = ap (λ (o : ℤ × Store × W). o.1) (same_end end kept_run ran' ran) ∙ sym kept in
      let h = subst (HoldsLetters build base map_size pointer) same holds in
      mode_read-finds_stored system build fuel enough lawful s' t' u v v1 v2 v3 v4 fd' mapped' again
        opens' truncates' maps' maps_again good' there' there_again
        (as_stored build base map_size pointer u h)
        (spare (h.things ++ h.header ∷ []) (letters_inside build base map_size pointer u h))
