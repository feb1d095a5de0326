-- ===== src/ThingsMemPersisted/Init.antt =====
-- What `-i` of things_mem_persisted.c leaves, where the file is written.
use memthing.Base.{
  All, if◌then◌else◌, length, List, [], arith, false, inl, inr, ltb, ne→==, pos, refl, some, subst,
  sym, true, ℕ, ℤ, ◌%◌, ◌++◌, ◌+◌, ◌-◌, ◌<◌, ◌==◌, ◌^◌, ◌∙◌, ◌∷◌, ◌≡◌, ◌≢◌, ◌≤◌,
}
use memthing.Blocks.{Block, block, total}
use memthing.Blocks.Busy.{BusyAt-Found, between}
use memthing.Blocks.Row.{total-append}
use memthing.Fmem.{create, fmem_commit_mem}
use memthing.Heap.Commit.{fmem_commit_mem-inside}
use memthing.Heap.Invariant.{IsHeap, fmem_at, head_size}
use memthing.Memory.{Memory, null}
use memthing.Page.{Build}
use memthing.System.{System}
use memthing.Things.{Store, done, with_memory}
use memthing.Things.Make.{In, IsLawful, IsThings}
use memthing.ThingsMem.Init.{IsOwner, OnlyAt-IsOwner, Saves, fmem_alloc-gives}
use memthing.ThingsMem.{set_user1}
use memthing.ThingsMem.Holds.{LeavesLetters, set_user1-HoldsLetters}
use memthing.ThingsMem.Created.{create-run, made-IsOwner}
use memthing.Things.Wellknown.{make_wellknown_things-Letters}
use memthing.ThingsMem.Owned.{Owned}
use memthing.ThingsMemPersisted.{
  init_mapped, keep_header, alloc_using_fm, committers, map_size, things_maker_oneach,
}
use memthing.ThingsMemPersisted.Synced.{Runs, commits-Saves, committed-synced, user_data-synced}

-- What was given is in a busy block.
In-Owned :
    (others : List Block) (start x : ℕ) (taken : List ℕ)
    → All (Owned others start) taken
    → In x taken
    → Owned others start x
In-Owned others start x [] owned h = elim h [ ]
In-Owned others start x (y ∷ ys) owned (inl e) = subst (Owned others start) (sym e) owned.0
In-Owned others start x (y ∷ ys) owned (inr h) = In-Owned others start x ys owned.1 h

module _ {W : Type 0} (system : System W) (build : Build) (fuel : ℕ) (enough : 2 ^ 28 ≤ fuel)
    (fd : ℤ) (map_to pointer : ℕ) (page : 0 < system.getpagesize)
    (aligned : map_to % system.getpagesize ≡ 0) (high : map_to + map_size + 2 ^ 32 ≤ 2 ^ 64)
    (set : pointer ≢ null)
    (syncs : (start len : ℕ) (w : W) → (system.msync start len true w).0 ≡ pos 0) where
  abbrev fm : ℕ
  fm = fmem_at map_to

  abbrev Good : ℕ → Store → W → List ℕ → Type 0
  Good n s w taken = IsOwner build map_to map_size pointer n s taken

  called : (m : Memory) → (m.fmem fm).committer ≡ pointer → ((m.fmem fm).committer == null) ≡ false
  called m e = rw e (ne→== pointer null set)

  saves : Saves (committers system map_to fd) Runs map_to map_size pointer
  saves = commits-Saves system map_to fd page aligned high syncs pointer set

  -- The thing is written.
  tells :
      (n : ℕ) (s : Store) (w : W) (taken : List ℕ) (each : ℕ)
      → Good n s w taken
      → In each taken
      → (v : W) × (things_maker_oneach system build fuel map_to fd fm each 24 s w ≡ done v)
        × Good n s v taken
  tells n s w taken each g h =
      let start = map_to + head_size + g.free_size in
      let o = In-Owned g.others start each taken g.owned h in
      let free = block g.free_size false in
      elim (BusyAt-Found g.others start o.page o.bytes o.busy) [
        | between xs b ys e busy place bytes ↦
            let heap : IsHeap build s.memory map_to ((free ∷ xs) ++ b ∷ ys) =
              subst (λ r. IsHeap build s.memory map_to (free ∷ r)) e g.heap in
            let span = heap.account.span in
            let sums = total-append xs (b ∷ ys) in
            let mem = map_to + head_size + total (free ∷ xs) + 24 in
            let here : mem ≡ each = omega (arith, place, o.place) in
            let room : ltb (b.size - 24) 24 ≡ false = ground (arith, o.room, bytes) in
            let (v, wrote) =
              committed-synced system map_to fd page aligned high syncs build s.memory w mem 24
                (omega arith) (omega (arith, span, sums, o.room, bytes, g.size)) in
            let run =
              subst
                (λ p.
                  fmem_commit_mem (committers system map_to fd) build s.memory (done w) fm p 24
                  ≡ (pos 24, done v))
                here
                (fmem_commit_mem-inside (committers system map_to fd) build s.memory (done w) map_to
                    (free ∷ xs) b ys 24 heap (omega (arith, high, g.size)) (omega arith)
                  ∙ rw (called s.memory g.committer, room) wrote) in
            (v, rw run refl, g)
      ]

  -- The allocator and the callback do what `make_wellknown_things` needs.
  pub synced-IsLawful :
      IsLawful
        (alloc_using_fm system build fuel map_to fd fm)
        (some (things_maker_oneach system build fuel map_to fd fm))
        Good
  synced-IsLawful = record {
    gives = λ n s w taken g.
        let (out, run, value, fresh, same, good, (v, e)) =
          fmem_alloc-gives (committers system map_to fd) build fuel enough map_to map_size pointer
            saves n s (done w) taken g (w, refl) in
        (
          (out.0, with_memory s out.1, v),
          rw (run, alloc_using_fm, e) refl,
          value,
          fresh,
          same,
          good,
        );
    writes = λ n s t w taken g only.
        OnlyAt-IsOwner (committers system map_to fd) build fuel enough map_to map_size pointer n s t
          taken g only;
    tells = tells;
  }

  -- The header is kept, and the user's pointers are written.
  keep_header-synced :
      (s : Store) (w : W) (header : ℕ) (ys : List ℕ)
      → header ≢ null
      → IsThings s header ys 0
      → length ys ≡ 26
      → IsOwner build map_to map_size pointer 0 s (ys ++ header ∷ [])
      → LeavesLetters build map_to map_size pointer
          (keep_header system build fuel map_to fd fm header s w)
  keep_header-synced s w header ys value things many owner =
      let s1 = set_user1 s fm header in
      let holds =
        set_user1-HoldsLetters build map_to map_size pointer s header ys value things many owner in
      let o = holds.owner in
      let (n, v, run) =
        user_data-synced system map_to fd page aligned high syncs build s1.memory w
          (block o.free_size false ∷ o.others) o.heap (λ e. set (sym o.committer ∙ e)) in
      ((pos 0, s1, v), rw run refl, refl, holds)

  pub init_mapped-synced :
      (s : Store) (w : W)
      → s.memory.flags map_to < 2 ^ 32
      → s.memory.flags (map_to + 96) < 2 ^ 32
      → LeavesLetters build map_to map_size pointer
          (init_mapped system build fuel map_to fd pointer s w)
  unfolding init_mapped
  init_mapped-synced s w word word' =
      let made = create build s.memory map_to map_size 0 pointer in
      let target : (if pointer == null then (s.memory.fmem fm).committer else pointer) ≡ pointer =
        rw (ne→== pointer null set) refl in
      let owner =
        made-IsOwner (committers system map_to fd) build s (done w) (done w) map_to map_size pointer
          pointer (omega arith) (omega arith) (omega (arith, high)) word word' target in
      let (v, commits, (u, e)) =
        saves made (done w) map_to 120 [] owner.committer (w, refl) (omega arith) (omega arith) in
      let run =
        create-run (committers system map_to fd) build s (done w) v map_to map_size pointer pointer
          (omega arith) (omega arith) (omega (arith, high)) word word' target commits in
      let (out, ran, allocated, value, ys, things, many, _, owner') =
        make_wellknown_things-Letters synced-IsLawful null (with_memory s made) u [] owner in
      let here : (fm == null) ≡ false = ground arith in
      let (last, kept, zero, holds) =
        keep_header-synced out.2 out.3 out.1 ys value things many owner' in
      (last, rw (run, e, here, ran, allocated) kept, zero, holds)
