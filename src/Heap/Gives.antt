-- ===== src/Heap/Gives.antt =====
-- A call of `fmem_alloc` where the first block is free and large enough to be split.
use memthing.Base.{
  [], subst, List, ap, arith, eq→==, false, length, refl, some, true, ℕ, ◌+◌, ◌-◌, ◌<◌, ◌^◌, ◌∙◌,
  ◌∷◌, ◌≡◌, ◌≢◌, ◌≤◌,
}
use memthing.Heap.Alloc.{carve-IsHeld}
use memthing.Heap.Carve.{linked, fpage_carve-eq, fpage_carve-fmem}
use memthing.Blocks.{Block, block}
use memthing.Blocks.Busy.{BusyAt, BusyAt-range}
use memthing.Disk.Joined.{Seg-next}
use memthing.Fmem.{
  CommitRange, Committers, adjusted_alloc, alloc_done, alloc_found, alloc_ranges, commit,
  fmem_alloc, fmem_unlock, take_page, to_carve,
}
use memthing.Heap.Invariant.{IsHeap, fmem_at, head_size}
use memthing.Heap.Lock.{IsHeld, fmem-set_fmem, lock-IsHeld, unlock-IsHeap, with_lock}
use memthing.Heap.Run.{fmem_alloc-scan}
use memthing.Heap.Search.{scan}
use memthing.Heap.Status.{}
use memthing.Heap.Take.{busy_page-links, take_page-fixed}
use memthing.LinkedList.{left, list_add_after}
use memthing.Memory.{Memory, null}
use memthing.Page.{Build, fpage_carve, mem_from_fpage}
use memthing.Sessions.Safety.{length-bound}

-- Without a committer nothing is committed.
pub commit_none :
    {W : Type 0} (committers : Committers W) (m : Memory) (w : W) (fm : ℕ)
    (ranges : List CommitRange) (count : ℕ)
    → (m.fmem fm).committer ≡ null
    → commit committers m w fm ranges count ≡ (true, w)
unfolding commit
commit_none committers m w fm ranges count e = rw (eq→== (m.fmem fm).committer null e) refl

-- Where a page is split, the links elsewhere stay.
carve-links :
    (m : Memory) (p c kept n x : ℕ) (ne : c ≢ p)
    → x ≢ p + 8
    → x ≢ c + 8
    → x ≢ m.next (p + 8)
    → ((linked m p c kept n ne).next x ≡ m.next x) × ((linked m p c kept n ne).prev x ≡ m.prev x)
unfolding list_add_after
carve-links m p c kept n x ne away away' away'' =
    (ground (arith, ne, away, away', away''), ground (arith, ne, away, away', away''))

-- The memory in which the page is committed.
abbrev pub taken_page : (build : Build) (m : Memory) (base free_size size : ℕ) → Memory
taken_page build m base free_size size =
    let fm = fmem_at base in
    let start = base + head_size in
    take_page build (fpage_carve (with_lock 1 m fm) start size).0 fm
      (start + (free_size - (size + 24)))

pub taken_page-committer :
    (build : Build) (m : Memory) (base free_size size : ℕ)
    → ((taken_page build m base free_size size).fmem (fmem_at base)).committer
      ≡ (m.fmem (fmem_at base)).committer
taken_page-committer build m base free_size size =
    let fm = fmem_at base in
    let start = base + head_size in
    let locked = with_lock 1 m fm in
    (take_page-fixed build (fpage_carve locked start size).0 fm
      (start + (free_size - (size + 24)))).0
    ∙ ap (λ f. f.committer) (fpage_carve-fmem locked start size fm ∙ fmem-set_fmem m fm _)

module _ {W : Type 0} (committers : Committers W) (build : Build) (fuel : ℕ)
    (enough : 2 ^ 28 ≤ fuel) (m : Memory) (w w' : W) (base free_size : ℕ) (others : List Block)
    (heap : IsHeap build m base (block free_size false ∷ others)) (size : ℕ) (min : 24 ≤ size)
    (large : size + 72 < free_size) (least : (m.fmem (fmem_at base)).min_alloc ≡ 24)
    (commits : commit committers
        (taken_page build m base free_size size)
        w
        (fmem_at base)
        (alloc_ranges
          (taken_page build m base free_size size)
          (base + head_size + (free_size - (size + 24)))
          true)
        1
      ≡ (true, w')) where
  abbrev fm : ℕ
  fm = fmem_at base

  abbrev start : ℕ
  start = base + head_size

  abbrev rest : ℕ
  rest = free_size - (size + 24)

  abbrev locked : Memory
  locked = with_lock 1 m fm

  abbrev carved_page : Memory
  carved_page = (fpage_carve locked start size).0

  -- The memory after the call.
  abbrev pub after_alloc : Memory
  after_alloc = fmem_unlock (take_page build carved_page fm (start + rest)) fm

  held : IsHeld build locked base (block free_size false ∷ others)
  held = lock-IsHeld build m base (block free_size false ∷ others) heap

  carved_row :
      ((fpage_carve locked start size).1 ≡ start + rest)
      × IsHeld build
          (take_page build (fpage_carve locked start size).0 fm (start + rest))
          base
          (block rest false ∷ block (size + 24) true ∷ others)
  carved_row =
      let here : start + 0 ≡ start = omega arith in
      subst
        (λ p.
          ((fpage_carve locked p size).1 ≡ p + rest)
          × IsHeld build (take_page build (fpage_carve locked p size).0 fm (p + rest)) base
              (block rest false ∷ block (size + 24) true ∷ others))
        here
        (carve-IsHeld build locked base [] (block free_size false) others held refl size min large)

  pub after-IsHeap :
      IsHeap build after_alloc base (block rest false ∷ block (size + 24) true ∷ others)
  after-IsHeap =
      unlock-IsHeap build (take_page build carved_page fm (start + rest)) base
        (block rest false ∷ block (size + 24) true ∷ others) carved_row.1

  fixed :
      ((carved_page.fmem fm).committer ≡ (m.fmem fm).committer)
      × ((carved_page.fmem fm).min_alloc ≡ 24)
  fixed =
      let e = fpage_carve-fmem locked start size fm ∙ fmem-set_fmem m fm _ in
      (ap (λ f. f.committer) e, ap (λ f. f.min_alloc) e ∙ least)

  pub after-fixed :
      ((after_alloc.fmem fm).committer ≡ (m.fmem fm).committer)
      × ((after_alloc.fmem fm).min_alloc ≡ 24)
  unfolding fmem_unlock
  after-fixed =
      let m1 = take_page build carved_page fm (start + rest) in
      let e = fmem-set_fmem m1 fm (record (m1.fmem fm) { lock = 0 }) in
      let taken = take_page-fixed build carved_page fm (start + rest) in
      (ap (λ f. f.committer) e ∙ taken.0 ∙ fixed.0, ap (λ f. f.min_alloc) e ∙ taken.1 ∙ fixed.1)

  pub alloc-run :
      fmem_alloc committers build fuel m w fm size ≡ some (start + rest + 24, after_alloc, w')
  unfolding alloc_found alloc_done mem_from_fpage
  alloc-run =
      let bs = block free_size false ∷ others in
      let need : adjusted_alloc m fm size ≡ size = ground (arith, least, min) in
      let few : length bs < fuel =
        omega
          (arith, enough, length-bound bs heap.row.sized, heap.account.span, heap.account.small) in
      let found : scan size start bs ≡ left (to_carve start) = ground (arith, large) in
      let high : start + rest + 24 < 2 ^ 64 =
        omega (arith, heap.account.span, heap.account.fits, large) in
      fmem_alloc-scan committers build m w base bs heap fuel size few
        (omega (arith, large, heap.account.span, heap.account.small))
      ∙ ap (λ k. alloc_found committers build locked w fm k (scan k start bs)) need
      ∙ ap (alloc_found committers build locked w fm size) found
      ∙ rw (carved_row.0, commits) (ground (arith, high))

  -- The links of what stands behind another header stay.
  pub after-links :
      (q n : ℕ)
      → BusyAt others (start + free_size) q n
      → (after_alloc.next (q + 24) ≡ m.next (q + 24))
        × (after_alloc.prev (q + 24) ≡ m.prev (q + 24))
  unfolding take_page fmem_unlock
  after-links q n busy =
      let range = BusyAt-range others (start + free_size) q n heap.row.sized.1 busy in
      let page = heap.row.headers.0 in
      let behind =
        Seg-next m (start + 8) (base + 8) (start + free_size) others heap.row.ring.links.2 in
      let ne : start + rest ≢ start = omega (arith, large) in
      let carve =
        fpage_carve-eq locked start free_size size page.size (omega (arith, large))
          (omega (arith, heap.account.span, heap.account.small))
          (omega (arith, heap.account.span, heap.account.fits)) in
      let links =
        carve-links locked start (start + rest) rest (size + 24) (q + 24) ne
          (omega (arith, range.0)) (omega (arith, range.0, large))
          (omega (arith, range.0, behind)) in
      let busy_links = busy_page-links build carved_page (start + rest) in
      (
        busy_links.0 (q + 24) ∙ ap (λ r. r.0.next (q + 24)) carve ∙ links.0,
        busy_links.1 (q + 24) ∙ ap (λ r. r.0.prev (q + 24)) carve ∙ links.1,
      )
