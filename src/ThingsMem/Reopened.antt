-- ===== src/ThingsMem/Reopened.antt =====
-- Memory with the letters that is opened again.
use memthing.Base.{
  All, List, [], ap, arith, length, none, pos, refl, subst, true, ℕ, ◌++◌, ◌+◌, ◌^◌, ◌∙◌, ◌∷◌, ◌≡◌,
  ◌≢◌, ◌≤◌,
}
use memthing.Blocks.{Block, block}
use memthing.Fmem.{fmem_from_existing, fmem_unlock}
use memthing.Heap.Invariant.{IsHeap, fmem_at, head_size}
use memthing.Heap.Layout.{check_passes}
use memthing.Heap.Lock.{fmem-set_fmem}
use memthing.LinkedList.Ring.{Ring-same}
use memthing.Memory.{Memory, null, set_fmem}
use memthing.Page.{Build, mem_from_fpage}
use memthing.Things.{Alloc, Store, done, verify_things, with_memory}
use memthing.Things.Agrees.{verify_things-agrees}
use memthing.Things.Make.{IsLawful, IsThings, Letters-same}

pub values_self : (s : Store) (ys : List ℕ) → All (λ x. s.value x ≡ s.value x) ys
values_self s [] = tt
values_self s (y ∷ ys) = (refl, values_self s ys)

-- Opening a well-formed allocator for NULL writes its committer back and frees its lock.
existing-eq :
    (build : Build) (m : Memory) (base : ℕ) (bs : List Block)
    → IsHeap build m base bs
    → let f = m.fmem (fmem_at base) in
      fmem_from_existing build m base null ≡ (
        fmem_at base,
        fmem_unlock
            (set_fmem m (fmem_at base) (record f { committer = f.committer }))
            (fmem_at base),
      )
unfolding fmem_from_existing
existing-eq build m base bs h =
    let here : mem_from_fpage base ≡ base + 24 = omega (arith, h.account.span, h.account.fits) in
    rw (check_passes build m base (block head_size true) h.row.head, here) refl

-- A well-formed allocator whose first user pointer leads to the letters.
pub record IsStored (build : Build) (base : ℕ) (s : Store) : Type 0 where
  pub blocks : List Block
  pub heap : IsHeap build s.memory base blocks
  pub things : List ℕ
  pub header : ℕ
  pub pointer : (s.memory.fmem (fmem_at base)).user1 ≡ header
  pub not_null : header ≢ null
  pub letters : IsThings s header things 0
  pub many : length things ≡ 26

-- What `fmem_from_existing` gives for it, and what `verify_things` finds behind its first pointer.
pub stored-agrees :
    {W : Type 0} {malloc : Alloc W} {Good : ℕ → Store → W → List ℕ → Type 0}
    (lawful : IsLawful malloc none Good) (build : Build) (base fuel : ℕ) (enough : 2 ^ 28 ≤ fuel)
    (s : Store) (w : W) (h : IsStored build base s)
    → let opened = fmem_from_existing build s.memory base null in
      Good 27 (with_memory s opened.1) w (h.things ++ h.header ∷ [])
      → (out : Store × W) × (opened.0 ≡ fmem_at base)
        × (verify_things fuel malloc (opened.1.fmem (fmem_at base)).user1 (with_memory s opened.1) w
            ≡ done (pos 0, out.0, out.1))
unfolding fmem_unlock
stored-agrees {malloc = malloc} {Good = Good} lawful build base fuel enough s w h g =
    let fm = fmem_at base in
    let opened = existing-eq build s.memory base h.blocks h.heap in
    let m = s.memory in
    let f = m.fmem fm in
    let m1 = set_fmem m fm (record f { committer = f.committer }) in
    let m2 = fmem_unlock m1 fm in
    let s2 = with_memory s m2 in
    let user1 : (m2.fmem fm).user1 ≡ h.header =
      ap (λ f. f.user1) (fmem-set_fmem m1 fm (record (m1.fmem fm) { lock = 0 }))
      ∙ ap (λ f. f.user1) (fmem-set_fmem m fm (record f { committer = f.committer }))
      ∙ h.pointer in
    let things : IsThings s2 h.header h.things 0 = record {
      ring = Ring-same m m2 h.header h.things (λ p. refl) (λ p. refl) h.letters.ring;
      letters = Letters-same s s2 h.things 0 (values_self s h.things) h.letters.letters;
      count = h.letters.count;
    } in
    let start = subst (λ r. Good 27 (with_memory s r.1) w (h.things ++ h.header ∷ [])) opened g in
    let (out, agrees) =
      verify_things-agrees lawful fuel h.header 0 h.things s2 w (omega (arith, enough)) h.not_null
        things h.many start in
    (out, ap (λ r. r.0) opened, rw (opened, user1) agrees)
