-- ===== src/Heap/RoundTrip.antt =====
-- A block that `first_fit` takes and `release` gives back.
use memthing.Base.{
  List, Option, [], ap, append_assoc, arith, false, length, none, refl, some, subst, sym, true, ℕ,
  ℤ, ◌++◌, ◌+◌, ◌-◌, ◌<◌, ◌^◌, ◌∙◌, ◌∷◌, ◌≡◌, ◌≤◌,
}
use memthing.Blocks.{Block, block, first_fit, release, total}
use memthing.Blocks.Apart.{Apart, release-alone, release-split}
use memthing.Blocks.Row.{total-append}
use memthing.Fmem.{Committers, adjusted_alloc, fmem_alloc, fmem_free}
use memthing.Heap.Free.{fmem_free-release}
use memthing.Heap.Grant.{Grants, fmem_alloc-first_fit}
use memthing.Heap.Invariant.{IsHeap, fmem_at, head_size}
use memthing.Heap.Search.{nothing, search, split, whole}
use memthing.Memory.{Memory}
use memthing.Page.{Build}

-- The place of a block in a row whose first block is at `a`, and the row that is left when the
-- block is given back.
pub record Taken (need a p : ℕ) (bs bs' : List Block) : Type 0 where
  pub before : List Block
  pub taken : Block
  pub behind : List Block
  pub row : bs' ≡ before ++ taken ∷ behind
  pub busy : taken.busy ≡ true
  pub room : need + 24 ≤ taken.size
  pub place : p ≡ a + total before
  pub back : release before taken.size behind ≡ bs

whole-Taken :
    (need a : ℕ) (xs : List Block) (b : Block) (ys : List Block)
    → Apart (xs ++ b ∷ ys)
    → b.busy ≡ false
    → need + 24 ≤ b.size
    → Taken need a (a + total xs) (xs ++ b ∷ ys) (xs ++ block b.size true ∷ ys)
whole-Taken need a xs b ys h idle fits = record {
  before = xs;
  taken = block b.size true;
  behind = ys;
  row = refl;
  busy = refl;
  room = fits;
  place = refl;
  back = release-alone xs b.size b ys idle h ∙ ap (λ f. xs ++ block b.size f ∷ ys) (sym idle);
}

split-Taken :
    (need a k : ℕ) (xs : List Block) (b : Block) (ys : List Block)
    → Apart (xs ++ b ∷ ys)
    → b.busy ≡ false
    → k + (need + 24) ≡ b.size
    → Taken need a
        (a + total xs + k)
        (xs ++ b ∷ ys)
        (xs ++ block k false ∷ block (need + 24) true ∷ ys)
split-Taken need a k xs b ys h idle fits = record {
  before = xs ++ block k false ∷ [];
  taken = block (need + 24) true;
  behind = ys;
  row = sym (append_assoc xs (block k false ∷ []) (block (need + 24) true ∷ ys));
  busy = refl;
  room = omega arith;
  place = omega (arith, total-append xs (block k false ∷ []));
  back =
      release-split xs k (need + 24) b ys idle h
      ∙ ap (λ n. xs ++ block n false ∷ ys) fits
      ∙ ap (λ f. xs ++ block b.size f ∷ ys) (sym idle);
}

abbrev TakenBy : (need a : ℕ) → List Block → Option (ℕ × List Block) → Type 0
TakenBy need a bs none = Unit
TakenBy need a bs (some (p, bs')) = Taken need a p bs bs'

-- What `first_fit` hands out is a busy block of the row it leaves, with room for the request; and
-- where no two neighbours were free, giving it back brings back the row there was.
pub first_fit-Taken :
    (need a p : ℕ) (bs bs' : List Block)
    → Apart bs
    → first_fit need a bs ≡ some (p, bs')
    → Taken need a p bs bs'
first_fit-Taken need a p bs bs' h e = elim (search need a bs) [
  | nothing _ f ↦ absurd (cc)
  | whole xs b ys c idle fits _ f ↦ subst (TakenBy need a bs) (sym f ∙ e) (
      subst (λ r. Taken need a (a + total xs) r (xs ++ block b.size true ∷ ys)) (sym c)
        (whole-Taken need a xs b ys (subst Apart c h) idle fits))
  | split xs b ys c idle large _ f ↦
      let k : ℕ = b.size - (need + 24) in
      subst (TakenBy need a bs) (sym f ∙ e) (
        subst
          (λ r.
            Taken need a (a + total xs + k) r (xs ++ block k false ∷ block (need + 24) true ∷ ys))
          (sym c) (split-Taken need a k xs b ys (subst Apart c h) idle (omega arith)))
]

module _ {W : Type 0} (committers : Committers W) (build : Build) (m : Memory) (w : W) (base : ℕ)
    (bs bs' : List Block) (p : ℕ) where
  -- On a well-formed allocator without neighbouring free blocks, a request that `first_fit` can
  -- meet at `p` is met: `fmem_alloc` returns, and so does `fmem_free` of the address behind the
  -- header at `p` then. In between, the block is a busy block of the row with room for what was
  -- asked for; in the end the allocator is well formed with the row that it had.
  pub alloc_free-IsHeap :
      (fuel size : ℕ)
      → IsHeap build m base bs
      → Apart bs
      → length bs < fuel
      → size < 2 ^ 32
      → first_fit (adjusted_alloc m (fmem_at base) size) (base + head_size) bs ≡ some (p, bs')
      → (out : ℕ × Memory × W) × (out' : ℤ × Memory × W) × (fmem_alloc committers build fuel m w
            (fmem_at base)
            size
          ≡ some out)
        × (fmem_free committers build fuel out.1 out.2 (fmem_at base) (p + 24) ≡ some out')
        × Taken (adjusted_alloc m (fmem_at base) size) (base + head_size) p bs bs'
        × IsHeap build out.1 base bs'
        × IsHeap build out'.1 base bs
  alloc_free-IsHeap fuel size h apart enough small e =
      let fm = fmem_at base in
      let need = adjusted_alloc m fm size in
      let t = first_fit-Taken need (base + head_size) p bs bs' apart e in
      let (out, run, (_, heap)) =
        subst
          (λ o.
            Grants build base (m.fmem fm).committer o bs
              (fmem_alloc committers build fuel m w fm size))
          e (fmem_alloc-first_fit committers build m w base bs fuel size h enough small) in
      let (out', run', (_, heap')) =
        fmem_free-release committers build out.1 out.2 base t.before t.taken t.behind fuel
          (subst (IsHeap build out.1 base) t.row heap) t.busy (omega arith) in
      let place : base + head_size + total t.before + 24 ≡ p + 24 = omega (arith, t.place) in
      (
        out,
        out',
        run,
        subst (λ q. fmem_free committers build fuel out.1 out.2 fm q ≡ some out') place run',
        t,
        heap,
        subst (IsHeap build out'.1 base) t.back heap',
      )
