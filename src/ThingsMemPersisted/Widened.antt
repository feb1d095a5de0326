-- ===== src/ThingsMemPersisted/Widened.antt =====
-- What `fmem_commit_user_data` returns with the committer of things_mem_persisted.c, which aligns the
-- range in place.
use memthing.Base.{
  ◌/◌, ap, Bool-cases, List, add64, arith, false, if◌then◌else◌, inl, inr, is_nonzero, ltb, pos,
  refl, sub64, true, ℕ, ℤ, ◌%◌, ◌+◌, ◌-◌, ◌<◌, ◌^◌, ◌∙◌, ◌≡◌, ◌≢◌,
}
use memthing.ThingsMemPersisted.{committers, align_addr, the_committer}
use memthing.Fmem.{range, e_commit_failed, fmem_commit_user_data}
use native.Mathlib.Nat.{div-add-mod, add-mul-mod_self_left, mod-eq_of_lt}
use memthing.Blocks.{Block}
use memthing.Heap.Commit.{fmem_commit_user_data-pointers}
use memthing.Heap.Invariant.{IsHeap, fmem_at}
use memthing.Memory.{Memory, null}
use memthing.Page.{Build}
use memthing.System.{System}
use memthing.Things.{done, exits}

module _ {W : Type 0} (system : System W) (fd : ℤ) (map_to : ℕ) where
  -- The user's pointers stand 48 bytes behind the start of a page, from which on they are written.
  user_range :
      48 < system.getpagesize
      → map_to % system.getpagesize ≡ 0
      → map_to + 96 < 2 ^ 64
      → align_addr system.getpagesize map_to (range (fmem_at map_to + 24) 32) ≡ range map_to 80
  unfolding align_addr
  user_range large aligned high =
      let rest : (map_to + 48) % system.getpagesize ≡ 48 =
        ap (λ k. k % system.getpagesize)
          (omega (arith, aligned, div-add-mod map_to system.getpagesize))
        ∙ add-mul-mod_self_left 48 system.getpagesize (map_to / system.getpagesize)
        ∙ mod-eq_of_lt large in
      let start : fmem_at map_to + 24 ≡ map_to + 48 = omega arith in
      let same : map_to + 48 - 48 ≡ map_to = omega arith in
      let down : ltb map_to map_to ≡ false = ground arith in
      let len : add64 (sub64 (map_to + 48) map_to) 32 ≡ 80 = omega (arith, high) in
      rw (start, rest, same, down, len) refl

  -- On a well-formed allocator at the start of a page of more than 48 bytes, with a committer,
  -- `fmem_commit_user_data` with the committer of things_mem_persisted.c writes from the start of
  -- that page to the end of the user's pointers, in one `msync` that waits. Where that succeeds
  -- it returns 80, not the 32 bytes of the four pointers that were to be written, since the
  -- committer has widened the range; where it fails the process ends.
  pub fmem_commit_user_data-widened :
      (build : Build) (m : Memory) (w : W) (bs : List Block)
      → IsHeap build m map_to bs
      → (m.fmem (fmem_at map_to)).committer ≢ null
      → 48 < system.getpagesize
      → map_to % system.getpagesize ≡ 0
      → let (res, v) = system.msync map_to 80 true w in
        fmem_commit_user_data (committers system map_to fd) build m (done w) (fmem_at map_to)
        ≡ (if is_nonzero res then (e_commit_failed, exits) else (pos 80, done v))
  unfolding the_committer
  fmem_commit_user_data-widened build m w bs heap set large aligned =
      let (res, v) = system.msync map_to 80 true w in
      let bytes = heap.account.span in
      fmem_commit_user_data-pointers (committers system map_to fd) build m (done w) map_to bs heap
        set
      ∙ rw (user_range large aligned (omega (arith, bytes, heap.account.fits)))
          (elim (Bool-cases (is_nonzero res)) [ inl e ↦ rw e refl | inr e ↦ rw e refl ])
