-- ===== src/Sessions/Takes.antt =====
-- What first fit takes: a busy block apart from the other busy blocks, which stay where they are.
use memthing.Base.{
  All-append_left, All-append_right, List, Option, [], arith, false, inl, inr, none, refl, some,
  subst, sym, true, ℕ, ◌++◌, ◌+◌, ◌-◌, ◌∷◌, ◌≡◌, ◌≤◌, ◌⊎◌,
}
use memthing.Blocks.{Block, Sized, block, first_fit, total}
use memthing.Blocks.Busy.{BusyAt, BusyAt-cases, BusyAt-range, BusyAt-replace, BusyAt-right}
use memthing.Blocks.Row.{total-append}
use memthing.Heap.Search.{Search, nothing, search, split, whole}

pub record IsTaking (need a : ℕ) (bs : List Block) (p : ℕ) (bs' : List Block) : Type 0 where
  pub size : ℕ
  pub room : need + 24 ≤ size
  pub here : BusyAt bs' a p size
  pub same : total bs' ≡ total bs
  pub others : (q k : ℕ) → BusyAt bs a q k → BusyAt bs' a q k
  pub apart : (q k : ℕ) → BusyAt bs a q k → (q + k ≤ p) ⊎ (p + size ≤ q)

abbrev pub Takes : (need a : ℕ) → List Block → Option (ℕ × List Block) → Type 0
Takes need a bs none = Unit
Takes need a bs (some (p, bs')) = IsTaking need a bs p bs'

-- A free block gives its place to blocks of which the last, at `p`, is busy.
module _ (need a : ℕ) (xs : List Block) (b : Block) (ys : List Block) (unused : b.busy ≡ false)
    (sized : Sized (xs ++ b ∷ ys)) where
  busy-around :
      (q k : ℕ) → BusyAt (xs ++ b ∷ ys) a q k → (q + k ≤ a + total xs) ⊎ (a + total xs + b.size ≤ q)
  busy-around q k h = elim (BusyAt-cases a q k xs (b ∷ ys) h) [
    | inl l ↦ inl (BusyAt-range xs a q k (All-append_left (λ b. 24 ≤ b.size) xs (b ∷ ys) sized) l).2
    | inr r ↦ inr (behind r)
  ]
    where
      behind : BusyAt (b ∷ ys) (a + total xs) q k → a + total xs + b.size ≤ q
      behind (inl (busy, e, d)) = absurd (cc)
      behind (inr r) =
          (BusyAt-range ys (a + total xs + b.size) q k
            (All-append_right (λ b. 24 ≤ b.size) xs (b ∷ ys) sized).1 r).0

  whole-IsTaking :
      need + 24 ≤ b.size
      → IsTaking need a (xs ++ b ∷ ys) (a + total xs) (xs ++ block b.size true ∷ ys)
  whole-IsTaking room = record {
    size = b.size;
    room = room;
    here =
        BusyAt-right a (a + total xs) b.size xs (block b.size true ∷ ys) (inl (refl, refl, refl));
    same = omega (arith, total-append xs (b ∷ ys), total-append xs (block b.size true ∷ ys));
    others =
        λ q k h. BusyAt-replace a q k xs b (block b.size true ∷ []) ys (omega arith) h (inl unused);
    apart = busy-around;
  }

  split-IsTaking :
      (rest n : ℕ)
      → rest + n ≡ b.size
      → need + 24 ≤ n
      → IsTaking need a
          (xs ++ b ∷ ys)
          (a + total xs + rest)
          (xs ++ block rest false ∷ block n true ∷ ys)
  split-IsTaking rest n cut room = record {
    size = n;
    room = room;
    here =
        BusyAt-right a (a + total xs + rest) n xs (block rest false ∷ block n true ∷ ys)
          (inr (inl (refl, refl, refl)));
    same = omega (
      arith,
      cut,
      total-append xs (b ∷ ys),
      total-append xs (block rest false ∷ block n true ∷ ys),
    );
    others = λ q k h.
        BusyAt-replace a q k xs b (block rest false ∷ block n true ∷ []) ys (omega (arith, cut)) h
          (inl unused);
    apart = λ q k h. omega (arith, cut, busy-around q k h);
  }

pub first_fit-Takes :
    (need a : ℕ) (bs : List Block) → Sized bs → Takes need a bs (first_fit need a bs)
first_fit-Takes need a bs sized = by (search need a bs)
  where
    by : Search need a bs → Takes need a bs (first_fit need a bs)
    by (nothing p q) = rw q tt
    by (whole xs b ys e unused fits p q) = rw q (
        subst (λ bs. IsTaking need a bs (a + total xs) (xs ++ block b.size true ∷ ys)) (sym e)
          (whole-IsTaking need a xs b ys unused (subst Sized e sized) fits))
    by (split xs b ys e unused large p q) = rw q (
        subst
          (λ bs.
            IsTaking need a bs (a + total xs + (b.size - (need + 24)))
              (xs ++ block (b.size - (need + 24)) false ∷ block (need + 24) true ∷ ys))
          (sym e)
          (split-IsTaking need a xs b ys unused (subst Sized e sized) (b.size - (need + 24))
            (need + 24) (omega (arith, large)) (omega arith)))
