-- ===== src/Disk/Torn.antt =====
-- A store whose list is torn: two blocks were split off, and the first was given back.
use memthing.Base.{
  inr, inl, subst, ◌-◌, false, ◌^◌, ◌≤◌, List, [], ap, arith, refl, some, sym, true, ℕ, ℤ, ◌+◌, ◌<◌,
  ◌∙◌, ◌∷◌, ◌≡◌, ◌≢◌, ◌⊎◌,
}
use memthing.Disk.Given.{fmem_free-IsGiven}
use memthing.Disk.Split.{fmem_alloc-IsSplit, Unfailing}
use memthing.Fmem.{fmem_alloc, range, Committers, fmem_free}
use memthing.Blocks.{block, Block, release}
use memthing.Disk.{IsSaving, write}
use memthing.Heap.Invariant.{IsHeap, IsRow, fmem_at, head_size}
use memthing.Memory.{Memory, list_entry, list_of, null}
use memthing.Page.{Build}

-- A store on which the list goes from the head page to the first page and to the head page again,
-- but from there back to another, holds no well-formed row.
torn-IsRow :
    (build : Build) (store : Memory) (base last : ℕ)
    → store.next (base + 8) ≡ base + head_size + 8
    → store.next (base + head_size + 8) ≡ base + 8
    → store.prev (base + 8) ≡ last
    → last ≢ base + head_size + 8
    → (bs : List Block) → IsRow build store base bs
    → ⊥
torn-IsRow build store base last first second back ne [] row =
    absurd (omega (arith, first, row.ring.links.0))
torn-IsRow build store base last first second back ne (b ∷ []) row =
    absurd (ne (sym back ∙ row.ring.links.2.1))
torn-IsRow build store base last first second back ne (b ∷ c ∷ bs) row =
    absurd (omega (arith, second, row.ring.links.2.0))

-- What three writes leave on the store of the links of the head page and the first page behind it.
torn-links :
    (m1 m2 m3 store : Memory) (base a b x : ℕ)
    → base + head_size + 24 ≤ b
    → base + head_size + 24 ≤ a
    → (x ≡ a) ⊎ (x ≡ b)
    → let s3 =
        write
          (range x 24 ∷ range (b + 8) 16 ∷ range (base + 8) 16 ∷ [])
          m3
          (write (range b 24 ∷ []) m2 (write (range a 24 ∷ []) m1 store)) in
      (s3.next (base + 8) ≡ m3.next (base + 8))
      × (s3.prev (base + 8) ≡ m3.prev (base + 8))
      × (s3.next (base + head_size + 8) ≡ store.next (base + head_size + 8))
unfolding write
torn-links m1 m2 m3 store base a b x h k e = (ground arith, ground arith, ground arith)

-- After such writes the store's list is torn, if the memory's went through a row that ends at `a`,
-- and the store's ended at the first page.
torn-store :
    (build : Build) (m1 m2 m3 store : Memory) (base a b x : ℕ)
    → base + head_size + 24 ≤ b
    → base + head_size + 24 ≤ a
    → (x ≡ a) ⊎ (x ≡ b)
    → m3.next (base + 8) ≡ base + head_size + 8
    → m3.prev (base + 8) ≡ a + 8
    → store.next (base + head_size + 8) ≡ base + 8
    → (bs : List Block)
    → ¬ IsRow build
        (write
          (range x 24 ∷ range (b + 8) 16 ∷ range (base + 8) 16 ∷ [])
          m3
          (write (range b 24 ∷ []) m2 (write (range a 24 ∷ []) m1 store)))
        base
        bs
torn-store build m1 m2 m3 store base a b x high higher which first back second bs row =
    let (next, prev, kept) = torn-links m1 m2 m3 store base a b x high higher which in
    torn-IsRow build _ base (a + 8) (next ∙ first) (kept ∙ second) (prev ∙ back)
      (λ e. absurd (omega (arith, e, higher))) bs row

module _ {W : Type 0} (committers : Committers W) (disk : W → Memory)
    (saving : IsSaving committers disk) (never : Unfailing committers) (build : Build) (fuel : ℕ)
    (some_fuel : 0 < fuel) (m : Memory) (w : W) (base left two one : ℕ)
    (heap : IsHeap build m base (block left false ∷ block two true ∷ block one true ∷ []))
    (set : (m.fmem (fmem_at base)).committer ≢ null) where
  abbrev b : ℕ
  b = base + head_size + left

  abbrev a : ℕ
  a = base + head_size + (left + (two + 0))

  -- The last of two blocks is given back, of which the store has the headers, and nothing else.
  free-torn :
      (m1 m2 old : Memory)
      → disk w ≡ write (range b 24 ∷ []) m2 (write (range a 24 ∷ []) m1 old)
      → old.next (base + head_size + 8) ≡ base + 8
      → 24 ≤ left
      → (out : ℤ × Memory × W) × (fmem_free committers build fuel m w (fmem_at base) (a + 24)
          ≡ some out)
        × IsHeap build out.1 base (block left false ∷ block two true ∷ block one false ∷ [])
        × ((bs : List Block) → ¬ IsRow build (disk out.2) base bs)
  unfolding release
  free-torn m1 m2 old written ends least =
      let (out, run, given) =
        fmem_free-IsGiven committers disk saving never build fuel some_fuel m w base
          (block left false ∷ block two true ∷ []) (block one true) [] heap refl set in
      let row : IsHeap build out.1 base (block left false ∷ block two true ∷ block one false ∷ []) =
        given.row in
      let list : list_of a ≡ b + two + 8 = omega (arith, row.account.span, row.account.fits) in
      let first = row.row.ring.links.0 in
      let (to_a, from_a, last) = row.row.ring.links.2.2 in
      let before : out.1.prev (list_of a) ≡ b + 8 = ap out.1.prev list ∙ from_a in
      let behind : out.1.next (list_of a) ≡ base + 8 = ap out.1.next list ∙ last.0 in
      let entry : list_entry (b + 8) ≡ b = omega (arith, row.account.span, row.account.fits) in
      let which : (given.modified ≡ a) ⊎ (given.modified ≡ b) = elim given.which [
        | inl e ↦ inl e
        | inr e ↦ inr (e ∙ ap list_entry (ap m.prev list ∙ heap.row.ring.links.2.2.1) ∙ entry)
      ] in
      let store : disk out.2
          ≡ write (range given.modified 24 ∷ range (b + 8) 16 ∷ range (base + 8) 16 ∷ [])
              given.given (write (range b 24 ∷ []) m2 (write (range a 24 ∷ []) m1 old)) =
        given.written ∙ (λ i.
          write (range given.modified 24 ∷ range (before i) 16 ∷ range (behind i) 16 ∷ [])
            given.given (written i)) in
      (
        out,
        run,
        row,
        λ bs stale.
            torn-store build m1 m2 given.given old base a b given.modified (omega (arith, least))
              (omega (arith, least)) which (given.next (base + 8) ∙ first)
              (given.prev (base + 8) ∙ last.1 ∙ omega arith) ends bs
              (subst (λ s. IsRow build s base bs) store stale),
      )

module _ {W : Type 0} (committers : Committers W) (disk : W → Memory)
    (saving : IsSaving committers disk) (never : Unfailing committers) (build : Build) (fuel : ℕ)
    (enough : 2 ^ 28 ≤ fuel) (m : Memory) (w : W) (base free_size : ℕ)
    (heap : IsHeap build m base (block free_size false ∷ [])) (one two : ℕ) (min_one : 24 ≤ one)
    (min_two : 24 ≤ two) (large_one : one + 72 < free_size)
    (large_two : two + 72 < free_size - (one + 24)) (least : (m.fmem (fmem_at base)).min_alloc ≡ 24)
    (set : (m.fmem (fmem_at base)).committer ≢ null)
    (stored : IsRow build (disk w) base (block free_size false ∷ [])) where
  abbrev left : ℕ
  left = free_size - (one + 24) - (two + 24)

  abbrev fm : ℕ
  fm = fmem_at base

  -- On a well-formed allocator with one free block and a minimum of 24 bytes, whose row is on the
  -- store, with a committer that saves what it is asked to and never fails, and 2^28 rounds of
  -- fuel or more: two calls of `fmem_alloc`, of 24 bytes or more, which both split the first
  -- block and leave more than 48 bytes of it, and `fmem_free` of what the first of them returned,
  -- all return, and leave the allocator well formed, with the free rest, the second block busy
  -- and the first one free. The store is then torn: it holds no well-formed row of blocks,
  -- whichever.
  pub fmem_free-torn :
      (out1 : ℕ × Memory × W) × (fmem_alloc committers build fuel m w fm one ≡ some out1)
      × (out2 : ℕ × Memory × W) × (fmem_alloc committers build fuel out1.1 out1.2 fm two
          ≡ some out2)
      × (out3 : ℤ × Memory × W) × (fmem_free committers build fuel out2.1 out2.2 fm out1.0
          ≡ some out3)
      × IsHeap build out3.1 base
          (block left false ∷ block (two + 24) true ∷ block (one + 24) false ∷ [])
      × ((bs : List Block) → ¬ IsRow build (disk out3.2) base bs)
  fmem_free-torn =
      let (out1, run1, split1) =
        fmem_alloc-IsSplit committers disk saving never build fuel enough m w base free_size [] heap
          one min_one large_one least set in
      let set1 : (out1.1.fmem (fmem_at base)).committer ≢ null =
        λ z. set (sym split1.pointer ∙ z) in
      let (out2, run2, split2) =
        fmem_alloc-IsSplit committers disk saving never build fuel enough out1.1 out1.2 base
          (free_size - (one + 24)) (block (one + 24) true ∷ []) split1.row two min_two large_two
          split1.smallest set1 in
      let set2 : (out2.1.fmem (fmem_at base)).committer ≢ null =
        λ z. set1 (sym split2.pointer ∙ z) in
      let a = base + head_size + (free_size - (one + 24)) in
      let b = base + head_size + left in
      let last = base + head_size + (left + (two + 24 + 0)) in
      let same : a ≡ last = omega (arith, large_one, large_two) in
      let (out3, run3, row, torn) =
        free-torn committers disk saving never build fuel (omega arith) out2.1 out2.2 base left
          (two + 24) (one + 24) split2.row set2 split1.taken split2.taken (disk w)
          (split2.written
            ∙ (λ i. write (range b 24 ∷ []) split2.taken (split1.written i))
            ∙ ap
                (λ p.
                  write (range b 24 ∷ []) split2.taken
                    (write (range p 24 ∷ []) split1.taken (disk w)))
                same)
          stored.ring.links.2.0 (omega (arith, large_two)) in
      (
        out1,
        run1,
        out2,
        run2,
        out3,
        subst (λ k. fmem_free committers build fuel out2.1 out2.2 fm k ≡ some out3)
            (omega (arith, same, split1.at)) run3,
        row,
        torn,
      )
