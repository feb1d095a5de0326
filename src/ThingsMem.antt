-- ===== src/ThingsMem.antt =====
-- things_mem.c: things in a shared memory object. `exits` is where it ends by `errExit`, and its
-- messages are left out. The object `fm` that is a global variable there is a local one here.
pub mod Owned
pub mod Reopened
pub mod Holds
pub mod Init
pub mod Created
pub mod Modes
use memthing.Base.{
  if◌then◌else◌, is_nonzero, leb_zero, negsuc, none, pos, some, u32, u64, ℕ, ℤ, ◌*◌, ◌==◌,
}
use memthing.Fmem.{Committers, fmem_alloc, fmem_create_new, fmem_from_existing}
use memthing.Memory.{null, set_fmem}
use memthing.Page.{Build}
use memthing.System.{System, is_minus_one, map_failed}
use memthing.Things.{
  ◌>>=◌, Alloc, Run, Store, done, exits, make_wellknown_things, spins, verify_things, with_memory,
}

abbrev pub map_size : ℕ
map_size = 1024 * 100

-- `fm->user1 = header`
abbrev pub set_user1 : Store → (fm header : ℕ) → Store
set_user1 s fm header =
    let f = s.memory.fmem fm in with_memory s (set_fmem s.memory fm (record f { user1 = header }))

module _ {W : Type 0} (system : System W) (committers : Committers W) (build : Build)
    (fuel : ℕ) where
  abbrev pub get_map_address : ℕ
  get_map_address = u64 (system.getpagesize * 1000000)

  -- The size is cut to the 32 bits that `fmem_alloc` takes.
  abbrev pub alloc_using_fm : (fm : ℕ) → Alloc W
  alloc_using_fm fm size s w = elim (fmem_alloc committers build fuel s.memory w fm (u32 size)) [
    | none ↦ spins
    | some (p, m, w') ↦ done (p, with_memory s m, w')
  ]

  -- What is made on the mapped memory.
  unfoldable pub init_mapped : (map_to : ℕ) → Store → W → Run (ℤ × Store × W)
  init_mapped map_to s w =
      let (fm, m, w1) = fmem_create_new committers build s.memory w map_to map_size 0 null in
      if fm == null then exits else do
        (allocated, header, s1, w2) ←
            make_wellknown_things null (some (alloc_using_fm fm)) none (with_memory s m) w1
        if leb_zero allocated then exits else done (pos 0, set_user1 s1 fm header, w2)

  unfoldable pub mode_init : Store → W → Run (ℤ × Store × W)
  mode_init s w =
      let (fd, w1) = system.shm_open w in
      let (truncated, w2) = system.ftruncate fd map_size w1 in
      let (mapped, s1, w3) = system.mmap get_map_address map_size fd s w2 in
      if is_minus_one fd
      then exits
      else (if is_nonzero truncated
          then exits
          else (if mapped == map_failed then exits else init_mapped get_map_address s1 w3))

  unfoldable pub mode_read : (malloc : Alloc W) → Store → W → Run (ℤ × Store × W)
  mode_read malloc s w =
      let (fd, w1) = system.shm_open w in
      let (mapped, s1, w2) = system.mmap get_map_address map_size fd s w1 in
      let (fm, m) = fmem_from_existing build s1.memory get_map_address null in
      if is_minus_one fd
      then exits
      else (if mapped == map_failed
          then exits
          else (if fm == null
              then exits
              else (verify_things fuel malloc (m.fmem fm).user1 (with_memory s1 m) w2
                  >>= (λ (r, s2, w3). if is_nonzero r then exits else done (pos 0, s2, w3)))))

  unfoldable pub mode_cleanup : Store → W → Run (ℤ × Store × W)
  mode_cleanup s w =
      let (fd, w1) = system.shm_open w in
      let (unlinked, w2) = system.shm_unlink w1 in
      if is_minus_one fd then exits else done (pos 0, s, w2)

  -- `option` is what the first call of `getopt` returns; every option ends the program.
  unfoldable pub main : (malloc : Alloc W) (argc : ℕ) (option : ℤ) → Store → W → Run (ℤ × Store × W)
  main malloc argc option s w =
      if argc == 2
      then elim option [
        | pos n ↦
            if n == 105
            then mode_init s w
            else (if n == 114
                then mode_read malloc s w
                else (if n == 99 then mode_cleanup s w else exits))
        | negsuc n ↦ exits
      ]
      else exits
