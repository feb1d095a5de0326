-- ===== src/Heap/Large.antt =====
-- `fmem_create_new` on 2^32 bytes and more.
use memthing.Base.{
  arith, false, length, ltb, sub64, u32, u64, ℕ, ◌%◌, ◌+◌, ◌-◌, ◌<◌, ◌^◌, ◌∙◌, ◌≡◌, ◌≤◌,
}
use memthing.Fmem.{Committers, create, fmem_create_new}
use memthing.Heap.Create.{head_page, head_page-size, statuses-links}
use memthing.LinkedList.{list_add_after}
use memthing.Memory.{Memory, list_of, ptr_add, set_size}
use memthing.Page.{Build, mem_from_fpage}
use memthing.ThingsMemPersisted.{committers}

-- What is written to the page behind the head page.
main-size :
    (m : Memory) (base n : ℕ)
    → (list_add_after (set_size m (base + 96) n) (base + 8) (base + 96 + 8)).size (base + 96) ≡ n
unfolding list_add_after
main-size m base n = ground arith

create-size :
    (build : Build) (m : Memory) (base length min_alloc committer : ℕ)
    → base + 144 < 2 ^ 64
    → (create build m base length min_alloc committer).size (base + 96) ≡ u32 (sub64 length 96)
unfolding create mem_from_fpage
create-size build m base length min_alloc committer high =
    let e1 : ptr_add base 24 ≡ base + 24 = omega arith in
    let e2 : list_of base ≡ base + 8 = omega arith in
    let e3 = head_page-size m base length min_alloc committer in
    let e4 : ptr_add base 96 ≡ base + 96 = omega arith in
    let e6 : list_of (base + 96) ≡ base + 96 + 8 = omega arith in
    let head = head_page m base length min_alloc committer in
    let linked =
      list_add_after (set_size head (base + 96) (u32 (sub64 length 96))) (base + 8)
        (base + 96 + 8) in
    rw (e1, e2, e3, e4, e6)
      ((statuses-links build linked base).3 (base + 96)
        ∙ main-size head base (u32 (sub64 length 96)))

-- For 2^32 + 96 bytes and more, below the end of the address space, and a `min_alloc` below
-- 2^32 - 24, the size of the free page that `fmem_create_new` makes is what is behind the head page,
-- cut to 32 bits, and so less than that.
pub fmem_create_new-cut :
    {W : Type 0} (committers : Committers W) (build : Build) (m : Memory) (w : W)
    (base length min_alloc committer : ℕ)
    → min_alloc < 2 ^ 32 - 24
    → 2 ^ 32 + 96 ≤ length
    → base + length < 2 ^ 64
    → let size = (fmem_create_new committers build m w base length min_alloc committer).1.size in
      (size (base + 96) ≡ (length - 96) % 2 ^ 32) × (size (base + 96) < length - 96)
unfolding fmem_create_new
fmem_create_new-cut committers build m w base length min_alloc committer small large high =
    let e : ltb length 144 ≡ false = ground arith in
    let e' : ltb length (u64 (min_alloc + 48 + 72)) ≡ false = ground arith in
    let cut = create-size build m base length min_alloc committer (omega arith) in
    rw (e, e') (omega (arith, cut), omega (arith, cut))
