-- ===== src/Heap/Create.antt =====
-- A new allocator: one free page behind the head page.
use memthing.Heap.Status.{clean_page-PageAt, clean_page, busy_page, busy_page-PageAt}
use memthing.Heap.Layout.{PageAt-resize, PageAt}
use memthing.Base.{
  ℕ, ◌+◌, ◌-◌, ◌^◌, ◌≤◌, ◌<◌, ◌≡◌, ◌∙◌, refl, sym, ap, subst, true, false, [], ◌∷◌, arith, ltb,
  ◌==◌, if◌then◌else◌, u32, sub64,
}
use memthing.Memory.{Memory, Fmem, null, list_of, set_size, set_fmem, ptr_add}
use memthing.LinkedList.{list_head_init, list_add_after}
use memthing.LinkedList.Ring.{Ring, Ring-same}
use memthing.LinkedList.Insert.{list_head_init-Ring, list_add_after-head}
use memthing.Page.{
  Build, plain, checked, mem_from_fpage, fpage_set_busy, fpage_set_free, fpage_set_magic,
  poison_page,
}
use memthing.Fmem.{create, fmem_unlock, default_min_alloc}
use memthing.Blocks.{block}
use memthing.Heap.Invariant.{IsAccount, IsHeap}
use memthing.Heap.Lock.{fmem-set_fmem}

-- The accounting object that `fmem_create_new` writes over `f`, but for the lock.
abbrev new_fmem : Fmem → (length min_alloc committer : ℕ) → Fmem
new_fmem f length min_alloc committer = record f {
  total_size = length;
  total_available = sub64 length 120;
  min_alloc = if ltb min_alloc default_min_alloc then default_min_alloc else min_alloc;
  alloc_objects = 0;
  committer = if committer == null then f.committer else committer;
}

abbrev unlocked : Fmem → Fmem
unlocked f = record f { lock = 0 }

-- The head page and the accounting object, where nothing wraps.
abbrev pub head_page : Memory → (base length min_alloc committer : ℕ) → Memory
head_page m base length min_alloc committer =
    let m1 = list_head_init (set_size m base 96) (base + 8) in
    let f = new_fmem (m1.fmem (base + 24)) length min_alloc committer in
    fmem_unlock (set_fmem m1 (base + 24) f) (base + 24)

-- The page behind it, before the flags are set.
abbrev main_page : Memory → (base length : ℕ) → Memory
main_page m base length =
    list_add_after (set_size m (base + 96) (length - 96)) (base + 8) (base + 96 + 8)

-- The flags of the head page and of the page behind it.
abbrev pub statuses : Build → Memory → (base : ℕ) → Memory
statuses build m base =
    let m1 = fpage_set_free (fpage_set_busy m base) (base + 96) in
    poison_page build (poison_page build m1 base) (base + 96)

pub head_page-size :
    (m : Memory) (base length min_alloc committer : ℕ)
    → (head_page m base length min_alloc committer).size base ≡ 96
unfolding fmem_unlock list_head_init
head_page-size m base length min_alloc committer = ground arith

create-eq :
    (build : Build) (m : Memory) (base length min_alloc committer : ℕ)
    → 144 ≤ length
    → length < 2 ^ 32
    → base + length < 2 ^ 64
    → create build m base length min_alloc committer
      ≡ statuses build (main_page (head_page m base length min_alloc committer) base length) base
unfolding create mem_from_fpage
create-eq build m base length min_alloc committer least small high =
    let e1 : ptr_add base 24 ≡ base + 24 = omega arith in
    let e2 : list_of base ≡ base + 8 = omega arith in
    let e3 = head_page-size m base length min_alloc committer in
    let e4 : ptr_add base 96 ≡ base + 96 = omega arith in
    let e5 : u32 (sub64 length 96) ≡ length - 96 = omega arith in
    let e6 : list_of (base + 96) ≡ base + 96 + 8 = omega arith in rw (e1, e2, e3, e4, e5, e6)

-- Setting the flags of both pages writes to nothing else.
pub statuses-links :
    (build : Build) (m : Memory) (base : ℕ)
    → ((q : ℕ) → (statuses build m base).next q ≡ m.next q)
      × ((q : ℕ) → (statuses build m base).prev q ≡ m.prev q)
      × ((q : ℕ) → (statuses build m base).fmem q ≡ m.fmem q)
      × ((q : ℕ) → (statuses build m base).size q ≡ m.size q)
unfolding fpage_set_busy fpage_set_free fpage_set_magic
statuses-links plain m base = (λ q. refl, λ q. refl, λ q. refl, λ q. refl)
statuses-links checked m base = (λ q. refl, λ q. refl, λ q. refl, λ q. refl)

-- The flags of each page are those that it gets by itself.
statuses-flags :
    (build : Build) (m : Memory) (base : ℕ)
    → let m' = statuses build m base in
      let main = base + 96 in
      (m'.flags base ≡ (busy_page build m base).flags base)
      × (m'.flags main ≡ (poison_page build (fpage_set_free m main) main).flags main)
unfolding fpage_set_busy fpage_set_free fpage_set_magic
statuses-flags plain m base = (ground arith, ground arith)
statuses-flags checked m base = (ground arith, ground arith)

statuses-pages :
    (build : Build) (m : Memory) (base n : ℕ)
    → m.size base ≡ 96
    → m.size (base + 96) ≡ n
    → m.flags base < 2 ^ 32
    → m.flags (base + 96) < 2 ^ 32
    → let m' = statuses build m base in
      PageAt build m' base (block 96 true) × PageAt build m' (base + 96) (block n false)
statuses-pages build m base n e d word word' =
    let m' = statuses build m base in
    let (_, _, _, sizes) = statuses-links build m base in
    let flags = statuses-flags build m base in
    (
      PageAt-resize build (busy_page build m base) m' base (block (m.size base) true) 96
          (sizes base ∙ e) flags.0 (busy_page-PageAt build m base word),
      PageAt-resize build (clean_page build m (base + 96)) m' (base + 96)
          (block (m.size (base + 96)) false) n (sizes (base + 96) ∙ d) flags.1
          (clean_page-PageAt build m (base + 96) word'),
    )

module _ (m : Memory) (base length min_alloc committer : ℕ) where
  abbrev before : Memory
  before = main_page (head_page m base length min_alloc committer) base length

  before-flags : (q : ℕ) → before.flags q ≡ m.flags q
  unfolding list_add_after fmem_unlock list_head_init
  before-flags q = refl

  before-size : (before.size base ≡ 96) × (before.size (base + 96) ≡ length - 96)
  unfolding list_add_after fmem_unlock list_head_init
  before-size = (ground arith, ground arith)

  before-Ring : Ring before (base + 8) ((base + 96 + 8) ∷ [])
  unfolding fmem_unlock
  before-Ring =
      let m1 = list_head_init (set_size m base 96) (base + 8) in
      let m2 = set_size (head_page m base length min_alloc committer) (base + 96) (length - 96) in
      let r =
        Ring-same m1 m2 (base + 8) [] (λ q. refl) (λ q. refl)
          (list_head_init-Ring (set_size m base 96) (base + 8)) in
      list_add_after-head m2 (base + 8) (base + 96 + 8) [] r (omega arith)

  -- The accounting object.
  abbrev object : Fmem
  object =
      new_fmem ((list_head_init (set_size m base 96) (base + 8)).fmem (base + 24)) length min_alloc
        committer

  before-fmem : before.fmem (base + 24) ≡ unlocked object
  unfolding list_add_after fmem_unlock
  before-fmem =
      let m1 = list_head_init (set_size m base 96) (base + 8) in
      let m2 = set_fmem m1 (base + 24) object in
      fmem-set_fmem m2 (base + 24) _ ∙ ap unlocked (fmem-set_fmem m1 (base + 24) object)

  object-IsAccount :
      144 ≤ length
      → length < 2 ^ 32
      → base + length < 2 ^ 64
      → min_alloc < 2 ^ 32
      → IsAccount base (unlocked object) (block (length - 96) false ∷ [])
  object-IsAccount least small high min = record {
    span = omega arith;
    small = small;
    fits = high;
    least = ground arith;
    most = ground arith;
    available = omega arith;
    objects = refl;
  }

  -- The new allocator is well formed, with one free block that holds all the rest.
  pub create-IsHeap :
      (build : Build)
      → 144 ≤ length
      → length < 2 ^ 32
      → base + length < 2 ^ 64
      → min_alloc < 2 ^ 32
      → m.flags base < 2 ^ 32
      → m.flags (base + 96) < 2 ^ 32
      → IsHeap build
          (create build m base length min_alloc committer)
          base
          (block (length - 96) false ∷ [])
  create-IsHeap build least small high min word word' =
      let m' = statuses build before base in
      let (next, prev, fmems, _) = statuses-links build before base in
      let sizes = before-size in
      let (head, main) =
        statuses-pages build before base (length - 96) sizes.0 sizes.1
          (omega (arith, before-flags base)) (omega (arith, before-flags (base + 96))) in
      let e = fmems (base + 24) ∙ before-fmem in
      rw (create-eq build m base length min_alloc committer least small high) (record {
        row = record {
          head = head;
          ring = Ring-same before m' (base + 8) ((base + 96 + 8) ∷ []) next prev before-Ring;
          headers = (main, tt);
          sized = (omega arith, tt);
        };
        account =
            subst (λ f. IsAccount base f (block (length - 96) false ∷ [])) (sym e)
              (object-IsAccount least small high min);
        unlocked = subst (λ f. f.lock ≡ 0) (sym e) refl;
      })
