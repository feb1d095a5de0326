-- ===== src/Heap/Lock.antt =====
-- Taking and releasing the lock when nobody else runs, and what both leave alone.
use memthing.Base.{ℕ, zero, suc, ◌<◌, ◌≡◌, ◌≢◌, refl, none, some, List, arith, sym, subst}
use memthing.Memory.{Memory, Fmem, set_fmem}
use memthing.Page.{Build}
use memthing.Fmem.{fmem_lock, fmem_unlock}
use memthing.Blocks.{Block}
use memthing.Heap.Invariant.{IsRow, IsAccount, IsHeap, fmem_at, IsRow-set_fmem}

pub fmem-set_fmem : (m : Memory) (p : ℕ) (f : Fmem) → (set_fmem m p f).fmem p ≡ f
fmem-set_fmem m p f = ground arith

-- The memory with the lock set to `k`.
abbrev pub with_lock : ℕ → Memory → ℕ → Memory
with_lock k m fm = set_fmem m fm (record (m.fmem fm) { lock = k })

-- A free lock is taken in the first round.
pub fmem_lock-free :
    (fuel : ℕ) (m : Memory) (fm : ℕ)
    → 0 < fuel
    → (m.fmem fm).lock ≡ 0
    → fmem_lock fuel m fm ≡ some (with_lock 1 m fm)
unfolding fmem_lock
fmem_lock-free zero m fm h e = absurd (omega arith)
fmem_lock-free (suc fuel) m fm h e = ground arith

-- A lock that is held is never taken by spinning on it alone: `fmem_lock` runs out of fuel however
-- much it is given.
pub fmem_lock-held :
    (fuel : ℕ) (m : Memory) (fm : ℕ) → (m.fmem fm).lock ≢ 0 → fmem_lock fuel m fm ≡ none
unfolding fmem_lock
fmem_lock-held zero m fm h = refl
fmem_lock-held (suc fuel) m fm h = ground (arith, fmem_lock-held fuel m fm h)

IsAccount-lock :
    (base : ℕ) (f : Fmem) (bs : List Block) (k : ℕ)
    → IsAccount base f bs
    → IsAccount base (record f { lock = k }) bs
IsAccount-lock base f bs k h = record {
  span = h.span;
  small = h.small;
  fits = h.fits;
  least = h.least;
  most = h.most;
  available = h.available;
  objects = h.objects;
}

-- The two halves of the invariant while the lock is held.
pub record IsHeld (build : Build) (m : Memory) (base : ℕ) (bs : List Block) : Type 0 where
  pub row : IsRow build m base bs
  pub account : IsAccount base (m.fmem (fmem_at base)) bs

module _ (build : Build) (m : Memory) (base : ℕ) (bs : List Block) where
  pub lock-IsHeld : IsHeap build m base bs → IsHeld build (with_lock 1 m (fmem_at base)) base bs
  lock-IsHeld h =
      let f = record (m.fmem (fmem_at base)) { lock = 1 } in
      record {
        row = IsRow-set_fmem build m base bs (fmem_at base) f h.row;
        account =
            subst (λ g. IsAccount base g bs) (sym (fmem-set_fmem m (fmem_at base) f))
              (IsAccount-lock base (m.fmem (fmem_at base)) bs 1 h.account);
      }

  pub unlock-IsHeap : IsHeld build m base bs → IsHeap build (fmem_unlock m (fmem_at base)) base bs
  unfolding fmem_unlock
  unlock-IsHeap h =
      let f = record (m.fmem (fmem_at base)) { lock = 0 } in
      let e = sym (fmem-set_fmem m (fmem_at base) f) in
      record {
        row = IsRow-set_fmem build m base bs (fmem_at base) f h.row;
        account =
            subst (λ g. IsAccount base g bs) e
              (IsAccount-lock base (m.fmem (fmem_at base)) bs 0 h.account);
        unlocked = subst (λ g. g.lock ≡ 0) e refl;
      }
