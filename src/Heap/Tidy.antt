-- ===== src/Heap/Tidy.antt =====
-- No call leaves two neighbouring free pages.
use memthing.Base.{
  List, Option, [], arith, false, length, none, refl, some, subst, sym, true, ℕ, ℤ, ◌++◌, ◌+◌, ◌-◌,
  ◌<◌, ◌^◌, ◌∷◌, ◌≡◌,
}
use memthing.Blocks.{Block, block, first_fit, release, total}
use memthing.Blocks.Apart.{Apart, Apart-cons, Apart-right, Apart-tail, busy_of, release-Apart}
use memthing.Fmem.{Committers, adjusted_alloc, fmem_alloc, fmem_free}
use memthing.Heap.Free.{fmem_free-release}
use memthing.Heap.Grant.{Grants, fmem_alloc-first_fit}
use memthing.Heap.Invariant.{IsHeap, fmem_at, head_size}
use memthing.Heap.Search.{nothing, search, split, whole}
use memthing.Memory.{Memory}
use memthing.Page.{Build}

-- A block in the place of another, which suits the blocks before it as well.
Apart-replace :
    (xs : List Block) (b c : Block) (ys zs : List Block)
    → ((x : Block) → busy_of x b.busy ≡ true → busy_of x c.busy ≡ true)
    → Apart (c ∷ zs)
    → Apart (xs ++ b ∷ ys)
    → Apart (xs ++ c ∷ zs)
Apart-replace [] b c ys zs suits new h = new
Apart-replace (x ∷ []) b c ys zs suits new h = (suits x h.0, new)
Apart-replace (x ∷ x' ∷ xs) b c ys zs suits new h =
    (h.0, Apart-replace (x' ∷ xs) b c ys zs suits new h.1)

busy_of-true : (x : Block) → busy_of x true ≡ true
busy_of-true x = ground arith

abbrev pub ApartBy : Option (ℕ × List Block) → Type 0
ApartBy none = Unit
ApartBy (some (p, bs)) = Apart bs

pub first_fit-Apart : (need a : ℕ) (bs : List Block) → Apart bs → ApartBy (first_fit need a bs)
first_fit-Apart need a bs h = elim (search need a bs) [
  | nothing _ f ↦ subst ApartBy (sym f) tt
  | whole xs b ys c unused fits _ f ↦
      let h' = subst Apart c h in
      subst ApartBy (sym f) (
        Apart-replace xs b (block b.size true) ys ys (λ x _. busy_of-true x)
          (Apart-cons (block b.size true) ys refl (Apart-tail b ys (Apart-right xs (b ∷ ys) h')))
          h')
  | split xs b ys c unused large _ f ↦
      let h' = subst Apart c h in
      let n : ℕ = need + 24 in
      subst ApartBy (sym f) (
        Apart-replace xs b (block (b.size - n) false) ys (block n true ∷ ys)
          (λ x e. subst (λ k. busy_of x k ≡ true) unused e)
          (refl, Apart-cons (block n true) ys refl (Apart-tail b ys (Apart-right xs (b ∷ ys) h')))
          h')
]

module _ {W : Type 0} (committers : Committers W) (build : Build) (m : Memory) (w : W)
    (base : ℕ) where
  -- An allocator that is well formed and has no neighbouring free blocks.
  abbrev pub IsTidy : Memory → Type 0
  IsTidy m = (bs : List Block) × Apart bs × IsHeap build m base bs

  -- On a well-formed allocator without neighbouring free blocks, `fmem_alloc` of a size below 2^32
  -- with more fuel than blocks returns, and leaves an allocator that is so again.
  pub fmem_alloc-IsTidy :
      (bs : List Block) (fuel size : ℕ)
      → IsHeap build m base bs
      → Apart bs
      → length bs < fuel
      → size < 2 ^ 32
      → (out : ℕ × Memory × W) × (fmem_alloc committers build fuel m w (fmem_at base) size
          ≡ some out)
        × IsTidy out.1
  fmem_alloc-IsTidy bs fuel size h apart enough small =
      let need = adjusted_alloc m (fmem_at base) size in
      tidy (m.fmem (fmem_at base)).committer (first_fit need (base + head_size) bs)
        (first_fit-Apart need (base + head_size) bs apart)
        (fmem_alloc-first_fit committers build m w base bs fuel size h enough small)
    where
      tidy :
          {run : Option (ℕ × Memory × W)} (c : ℕ) (spec : Option (ℕ × List Block))
          → ApartBy spec
          → Grants build base c spec bs run
          → (out : ℕ × Memory × W) × (run ≡ some out) × IsTidy out.1
      tidy c none _ (out, e, (_, heap)) = (out, e, (bs, apart, heap))
      tidy c (some (p, bs')) x (out, e, (_, heap)) = (out, e, (bs', x, heap))

  -- The same for `fmem_free` of the address behind a busy block's header.
  pub fmem_free-IsTidy :
      (xs : List Block) (b : Block) (ys : List Block) (fuel : ℕ)
      → IsHeap build m base (xs ++ b ∷ ys)
      → Apart (xs ++ b ∷ ys)
      → b.busy ≡ true
      → 0 < fuel
      → (out : ℤ × Memory × W) × (fmem_free committers build fuel m w
            (fmem_at base)
            (base + head_size + total xs + 24)
          ≡ some out)
        × IsTidy out.1
  fmem_free-IsTidy xs b ys fuel h apart busy some_fuel =
      let (out, e, (_, heap)) =
        fmem_free-release committers build m w base xs b ys fuel h busy some_fuel in
      (out, e, (release xs b.size ys, release-Apart xs b ys busy apart, heap))
