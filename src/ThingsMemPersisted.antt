-- ===== src/ThingsMemPersisted.antt =====
-- things_mem_persisted.c: things in a file that is mapped, with a committer that writes the changed
-- ranges to it. `exits` is where it ends by `errExit`, and its messages are left out. The global
-- variables `fm`, `fd` and `map_to` are arguments here.
pub mod Align
pub mod Synced
pub mod Widened
pub mod Init
pub mod Modes
pub mod RoundTrip
use memthing.Base.{
  List, [], add64, false, if◌then◌else◌, is_negative, is_nonzero, leb_zero, ltb, negsuc, none, pos,
  some, sub64, suc, true, u32, u64, zero, ℕ, ℤ, ◌%◌, ◌*◌, ◌-◌, ◌==◌, ◌∷◌,
}
use memthing.Fmem.{
  CommitRange, Committers, fmem_alloc, fmem_commit_mem, fmem_commit_user_data, fmem_create_new,
  fmem_from_existing, range,
}
use memthing.Memory.{null, set_fmem}
use memthing.Page.{Build}
use memthing.System.{System, is_minus_one, map_failed, to_int}
use memthing.Things.{
  ◌>>=◌, Alloc, Oneach, Run, Store, done, exits, make_wellknown_things, spins, verify_things,
  with_memory,
}

abbrev pub map_size : ℕ
map_size = 1024 * 1024 * 10

unfoldable pub align_addr : (page_size map_to : ℕ) → CommitRange → CommitRange
align_addr page_size map_to r =
    let original = r.start in
    let down = original - original % page_size in
    let start = if ltb down map_to then map_to else down in
    range start (add64 (sub64 original start) r.len)

module _ {W : Type 0} (system : System W) where
  abbrev pub get_map_address : ℕ
  get_map_address = u64 (system.getpagesize * 1000000)

  module _ (map_to : ℕ) (fd : ℤ) where
    -- The loop of `the_committer` over the first `count` ranges.
    abbrev pub msync_all : (count : ℕ) → List CommitRange → W → Run W
    msync_all zero ranges w = done w
    msync_all (suc count) [] w = done w
    msync_all (suc count) (r ∷ ranges) w =
        let aligned = align_addr system.getpagesize map_to r in
        let (res, w') = system.msync aligned.start aligned.len false w in
        let rest = msync_all count ranges w' in if is_nonzero res then exits else rest

    -- The array after that loop.
    abbrev pub align_all : (count : ℕ) → List CommitRange → List CommitRange
    align_all zero ranges = ranges
    align_all (suc count) [] = []
    align_all (suc count) (r ∷ ranges) =
        align_addr system.getpagesize map_to r ∷ align_all count ranges

    -- Several ranges are written without waiting, and then all waited for.
    abbrev sync_many : (count : ℕ) → List CommitRange → W → Run (ℤ × W × List CommitRange)
    sync_many count ranges w = do
      w1 ← msync_all count ranges w
      let (res, w2) = system.fsync fd w1
      if is_nonzero res then exits else done (pos 1, w2, align_all count ranges)

    abbrev sync_one : CommitRange → List CommitRange → W → Run (ℤ × W × List CommitRange)
    sync_one r rest w =
        let aligned = align_addr system.getpagesize map_to r in
        let (res, w') = system.msync aligned.start aligned.len true w in
        if is_nonzero res then exits else done (to_int aligned.len, w', aligned ∷ rest)

    unfoldable pub the_committer :
        List CommitRange → (count : ℕ) → W → Run (ℤ × W × List CommitRange)
    the_committer [] count w = sync_many count [] w
    the_committer (r ∷ ranges) count w =
        if count == 1 then sync_one r ranges w else sync_many count (r ∷ ranges) w

  -- What a committer's call leaves for the caller, which does not go on if the process ended.
  abbrev handed_back : Run (ℤ × W × List CommitRange) → ℤ × Run W × List CommitRange
  handed_back (done (r, w, ranges)) = (r, done w, ranges)
  handed_back exits = (negsuc 0, exits, [])
  handed_back spins = (negsuc 0, spins, [])

  -- `the_committer` as the allocator sees it, whatever pointer it is called by. Its world tells
  -- whether the process has ended.
  abbrev pub committers : (map_to : ℕ) (fd : ℤ) → Committers (Run W)
  committers map_to fd pointer ranges count m (done w) =
      handed_back (the_committer map_to fd ranges count w)
  committers map_to fd pointer ranges count m exits = (negsuc 0, exits, ranges)
  committers map_to fd pointer ranges count m spins = (negsuc 0, spins, ranges)

  module _ (build : Build) (fuel : ℕ) (map_to : ℕ) (fd : ℤ) where
    abbrev pub alloc_using_fm : (fm : ℕ) → Alloc W
    alloc_using_fm fm size s w =
        elim (fmem_alloc (committers map_to fd) build fuel s.memory (done w) fm (u32 size)) [
          | none ↦ spins
          | some (p, m, ran) ↦ ran >>= (λ w'. done (p, with_memory s m, w'))
        ]

    abbrev pub things_maker_oneach : (fm : ℕ) → Oneach W
    things_maker_oneach fm each len s w =
        let (res, ran) =
          fmem_commit_mem (committers map_to fd) build s.memory (done w) fm each (u32 len) in
        ran >>= (λ w'. if leb_zero res then exits else done w')

    -- `fm->user1 = header`, and the commit of the user data.
    abbrev keep_header : (fm header : ℕ) → Store → W → Run (ℤ × Store × W)
    keep_header fm header s w =
        let f = s.memory.fmem fm in
        let s' = with_memory s (set_fmem s.memory fm (record f { user1 = header })) in
        let (res, ran) = fmem_commit_user_data (committers map_to fd) build s'.memory (done w) fm in
        ran >>= (λ w'. if is_negative res then exits else done (pos 0, s', w'))

    -- What is made on the mapped memory; `pointer` is the address of `the_committer`.
    unfoldable pub init_mapped : (pointer : ℕ) → Store → W → Run (ℤ × Store × W)
    init_mapped pointer s w =
        let (fm, m, ran) =
          fmem_create_new (committers map_to fd) build s.memory (done w) map_to map_size 0
            pointer in
        ran >>= (λ w1. if fm == null then exits else do
          (allocated, header, s1, w2) ←
              make_wellknown_things null (some (alloc_using_fm fm)) (some (things_maker_oneach fm))
                (with_memory s m) w1
          if leb_zero allocated then exits else keep_header fm header s1 w2)

  module _ (build : Build) (fuel : ℕ) where
    unfoldable pub mode_init : (pointer : ℕ) → Store → W → Run (ℤ × Store × W)
    mode_init pointer s w =
        let (fd, w1) = system.open_file true w in
        let (truncated, w2) = system.ftruncate fd map_size w1 in
        let (mapped, s1, w3) = system.mmap get_map_address map_size fd s w2 in
        if is_minus_one fd
        then exits
        else (if is_nonzero truncated
            then exits
            else (if mapped == map_failed
                then exits
                else init_mapped build fuel get_map_address fd pointer s1 w3))

    -- The file is mapped twice, at the same address.
    unfoldable pub mode_read : (malloc : Alloc W) → Store → W → Run (ℤ × Store × W)
    mode_read malloc s w =
        let (fd, w1) = system.open_file false w in
        let (truncated, w2) = system.ftruncate fd map_size w1 in
        let (mapped, s1, w3) = system.mmap get_map_address map_size fd s w2 in
        let (again, s2, w4) = system.mmap get_map_address map_size fd s1 w3 in
        let (fm, m) = fmem_from_existing build s2.memory get_map_address null in
        if is_minus_one fd
        then exits
        else (if is_nonzero truncated
            then exits
            else (if mapped == map_failed
                then exits
                else (if again == map_failed
                    then exits
                    else (if fm == null
                        then exits
                        else (verify_things fuel malloc (m.fmem fm).user1 (with_memory s2 m) w4
                            >>= (λ (r, s3, w5).
                                if is_nonzero r then exits else done (pos 0, s3, w5)))))))

    unfoldable pub mode_cleanup : Store → W → Run (ℤ × Store × W)
    mode_cleanup s w = let (removed, w1) = system.remove w in done (pos 0, s, w1)

    -- `option` is what the first call of `getopt` returns; every option ends the program.
    unfoldable pub main :
        (pointer : ℕ) (malloc : Alloc W) (argc : ℕ) (option : ℤ) → Store → W → Run (ℤ × Store × W)
    main pointer malloc argc option s w =
        if argc == 2
        then elim option [
          | pos n ↦
              if n == 105
              then mode_init pointer s w
              else (if n == 114
                  then mode_read malloc s w
                  else (if n == 99 then mode_cleanup s w else exits))
          | negsuc n ↦ exits
        ]
        else exits
