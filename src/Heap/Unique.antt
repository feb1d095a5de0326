-- ===== src/Heap/Unique.antt =====
-- The row that a memory holds is determined by its headers.
use memthing.Base.{Bool, List, [], arith, false, not, refl, subst, sym, true, ℕ, ◌+◌, ◌∙◌, ◌∷◌, ◌≡◌}
use memthing.Blocks.{Block, Sized, total}
use memthing.Heap.Invariant.{IsHeap, head_size}
use memthing.Heap.Layout.{Headers}
use memthing.Memory.{Memory}
use memthing.Page.{Build}

Block-eq : (b c : Block) → b.size ≡ c.size → b.busy ≡ c.busy → b ≡ c
Block-eq b c e d = λ i. record { size = e i; busy = d i }

not-injective : (a b : Bool) → not a ≡ not b → a ≡ b
not-injective true true e = refl
not-injective true false e = cc
not-injective false true e = cc
not-injective false false e = refl

module _ (build : Build) (m : Memory) where
  pub Headers-unique :
      (a : ℕ) (bs cs : List Block)
      → Headers build m a bs
      → Headers build m a cs
      → Sized bs
      → Sized cs
      → total bs ≡ total cs
      → bs ≡ cs
  Headers-unique a [] [] h k s r e = refl
  Headers-unique a [] (c ∷ cs) h k s r e = absurd (omega (arith, e, r.0))
  Headers-unique a (b ∷ bs) [] h k s r e = absurd (omega (arith, e, s.0))
  Headers-unique a (b ∷ bs) (c ∷ cs) h k s r e =
      let size = sym h.0.size ∙ k.0.size in
      let same = Block-eq b c size (not-injective b.busy c.busy (sym h.0.free ∙ k.0.free)) in
      let behind = subst (λ n. Headers build m (a + n) cs) (sym size) k.1 in
      let rest = Headers-unique (a + b.size) bs cs h.1 behind s.1 r.1 (omega (arith, e, size)) in
      λ i. same i ∷ rest i

  -- A well-formed allocator is so with one row only.
  pub IsHeap-unique :
      (base : ℕ) (bs cs : List Block) → IsHeap build m base bs → IsHeap build m base cs → bs ≡ cs
  IsHeap-unique base bs cs h k =
      Headers-unique (base + head_size) bs cs h.row.headers k.row.headers h.row.sized k.row.sized
        (omega (arith, h.account.span, k.account.span))
