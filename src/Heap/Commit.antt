-- ===== src/Heap/Commit.antt =====
-- `fmem_commit_mem` and `fmem_commit_user_data` under the invariant.
use memthing.Base.{
  ne→==, ◌≢◌, All-append_right, Bool, List, [], arith, false, if◌then◌else◌, is_negative, ltb,
  negsuc, pos, refl, true, ℕ, ℤ, ◌++◌, ◌+◌, ◌-◌, ◌<◌, ◌==◌, ◌^◌, ◌∷◌, ◌≡◌, ◌≤◌,
}
use memthing.Fmem.{
  first_or, to_int64, CommitRange, Committers, commit, e_commit_failed, fmem_commit_mem,
  fmem_commit_user_data, range,
}
use memthing.Blocks.{Block, block, total}
use memthing.Blocks.Row.{total-append}
use memthing.Heap.Invariant.{IsHeap, fmem_at, head_size}
use memthing.Heap.Layout.{check_passes}
use memthing.Heap.Take.{PageAt-middle}
use memthing.Memory.{offsetof_user1, Memory, null, ptr_add}
use memthing.Page.{Build, fpage_actual, fpage_from_mem}

module _ {W : Type 0} (committers : Committers W) (build : Build) (m : Memory) (w : W)
    (base : ℕ) where
  abbrev pointer : ℕ
  pointer = (m.fmem (fmem_at base)).committer

  -- What the committer is asked to write, and what is returned.
  abbrev pub committed : (start len : ℕ) → ℤ × W
  committed start len =
      let (res, w', _) = committers pointer (range start len ∷ []) 1 m w in
      (if is_negative res then e_commit_failed else pos len, w')

  -- `fmem_commit_mem` of a block of a well-formed allocator that ends 2^32 bytes before the end of
  -- the address space or earlier, for a length below 2^32: without a committer, and for a length
  -- that the block does not have behind its header, it returns the error and asks for no write.
  -- Otherwise it asks the committer for one write, from the start of the block's memory and inside
  -- the block, of the length, or of all of the block's memory for a length of 0; it returns what
  -- was written, or the error if the committer fails.
  pub fmem_commit_mem-inside :
      (xs : List Block) (b : Block) (ys : List Block) (len : ℕ)
      → IsHeap build m base (xs ++ b ∷ ys)
      → base + (m.fmem (fmem_at base)).total_size + 2 ^ 32 ≤ 2 ^ 64
      → len < 2 ^ 32
      → let mem = base + head_size + total xs + 24 in
        let room = b.size - 24 in
        fmem_commit_mem committers build m w (fmem_at base) mem len ≡ (
          if pointer == null
          then (e_commit_failed, w)
          else (if ltb room len
              then (e_commit_failed, w)
              else committed mem (if len == 0 then room else len)))
  unfolding fmem_commit_mem commit fpage_actual fpage_from_mem
  fmem_commit_mem-inside xs b ys len h apart small =
      let page : ℕ = base + head_size + total xs in
      let bytes = total-append xs (b ∷ ys) in
      let back : fpage_from_mem (page + 24) ≡ page =
        omega (arith, bytes, h.account.span, h.account.fits) in
      let at = PageAt-middle (base + head_size) xs b ys h.row.headers in
      let least = (All-append_right (λ b. 24 ≤ b.size) xs (b ∷ ys) h.row.sized).0 in
      let room : fpage_actual m page ≡ b.size - 24 =
        omega (arith, at.size, least, bytes, h.account.span, h.account.small) in
      let n = if len == 0 then b.size - 24 else len in
      let inside : ltb (ptr_add (ptr_add page 24) (b.size - 24)) (ptr_add (page + 24) n)
          ≡ ltb (b.size - 24) len =
        ground (arith, bytes, least, h.account.span, h.account.small) in
      rw (back, check_passes build m page b at, room, inside)
        (branches (pointer == null) (ltb (b.size - 24) len) n
          (committers pointer (range (page + 24) n ∷ []) 1 m w))
    where
      branches :
          (f g : Bool) (n : ℕ) (run : ℤ × W × List CommitRange)
          → ◌≡◌ {A = ℤ × W}
              (if f
                then (e_commit_failed, w)
                else (if g
                    then (e_commit_failed, w)
                    else (let done : Bool × W =
                          if f
                          then (true, w)
                          else (if is_negative run.0 then false else true, run.1) in
                        (if done.0 then pos n else e_commit_failed, done.1))))
              (if f
                then (e_commit_failed, w)
                else (if g
                    then (e_commit_failed, w)
                    else (if is_negative run.0 then e_commit_failed else pos n, run.1)))
      branches true g n run = refl
      branches false true n run = refl
      branches false false n (pos k, w', _) = refl
      branches false false n (negsuc k, w', _) = refl

  -- `fmem_commit_user_data` on a well-formed allocator with a committer asks for one write, of the 32
  -- bytes of the user's pointers inside the accounting object, and returns the length that the
  -- committer leaves in the range, or the error if it fails.
  pub fmem_commit_user_data-pointers :
      (bs : List Block)
      → IsHeap build m base bs
      → pointer ≢ null
      → let r = range (fmem_at base + 24) 32 in
        let (res, w', ranges) = committers pointer (r ∷ []) 1 m w in
        fmem_commit_user_data committers build m w (fmem_at base)
        ≡ (if is_negative res then e_commit_failed else to_int64 (first_or r ranges).len, w')
  unfolding fmem_commit_user_data fpage_from_mem
  fmem_commit_user_data-pointers bs h set =
      let back : fpage_from_mem (base + 24) ≡ base = omega (arith, h.account.fits) in
      let user : ptr_add (fmem_at base) offsetof_user1 ≡ fmem_at base + 24 =
        omega (arith, h.account.fits) in
      rw
        (
          ne→== pointer null set,
          back,
          check_passes build m base (block head_size true) h.row.head,
          user,
        )
        refl
