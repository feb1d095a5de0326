-- ===== src/Heap/Corrupt.antt =====
-- Pages whose magic number was overwritten, in a build that checks for it.
use memthing.Base.{
  All, List, [], ap, arith, false, fun_ext, length, ltb, ne→==, refl, some, subst, sym, to_ptr, ℕ,
  ◌++◌, ◌+◌, ◌<◌, ◌^◌, ◌∙◌, ◌∷◌, ◌≡◌, ◌≢◌, ◌≤◌,
}
use memthing.Blocks.{Block, Sized, can_hold, total}
use memthing.Fmem.{
  Committers, adjusted_alloc, alloc_failed, alloc_found, alloc_round, corrupt, fmem_alloc,
  fmem_unlock,
}
use memthing.Heap.Alloc.{length-nodes}
use memthing.Heap.Invariant.{fmem_at, head_size}
use memthing.Heap.Layout.{Headers, Headers-same, nodes}
use memthing.Heap.Lock.{fmem-set_fmem, fmem_lock-free, with_lock}
use memthing.Heap.Search.{alloc_round-block}
use memthing.LinkedList.{leave, left}
use memthing.LinkedList.Iterate.{list_for_each-walk, walk}
use memthing.LinkedList.Ring.{Ring, Ring-same}
use memthing.Memory.{Fmem, Memory, list_entry, list_of}
use memthing.Page.{
  checked, ee_bad_mem, fail_on_poison_check, fpage_from_mem, fpage_get_magic, poison,
}
use native.Mathlib.Decide.{ℕ_discrete}

check_fails :
    (m : Memory) (p : ℕ)
    → fpage_get_magic m p ≢ poison
    → fail_on_poison_check checked (fpage_get_magic m p) poison ≡ ee_bad_mem
unfolding fail_on_poison_check
check_fails m p bad = rw (ne→== (fpage_get_magic m p) poison bad) refl

module _ (m : Memory) (need : ℕ) (small : need < 2 ^ 32) (b : Block) (ys : List Block) where
  -- The loop of `fmem_alloc` stops at the page.
  corrupt_round :
      (a : ℕ)
      → a + 8 < 2 ^ 64
      → fpage_get_magic m a ≢ poison
      → alloc_round checked m need (a + 8) tt ≡ leave (corrupt ee_bad_mem)
  unfolding alloc_round
  corrupt_round a high bad =
      let back : list_entry (a + 8) ≡ a = omega (arith, high) in rw (back, check_fails m a bad) refl

  walk-corrupt :
      (a : ℕ) (xs : List Block)
      → Headers checked m a xs
      → Sized xs
      → All (λ b. can_hold need b ≡ false) xs
      → total xs < 2 ^ 32
      → a + total xs + 8 < 2 ^ 64
      → fpage_get_magic m (a + total xs) ≢ poison
      → walk (alloc_round checked m need) (nodes a (xs ++ b ∷ ys)) tt ≡ left (corrupt ee_bad_mem)
  walk-corrupt a [] h s full lt high bad =
      let here : a + 0 ≡ a = omega arith in
      let round =
        corrupt_round a (omega (arith, high))
          (subst (λ k. fpage_get_magic m k ≢ poison) here bad) in
      rw round refl
  walk-corrupt a (x ∷ xs) h s full lt high bad =
      let here =
        alloc_round-block checked m need small a x h.0 (omega (arith, high)) s.0
          (omega (arith, lt)) in
      let there : a + (x.size + total xs) ≡ a + x.size + total xs = omega arith in
      let rest =
        walk-corrupt (a + x.size) xs h.1 s.1 full.1 (omega (arith, lt)) (omega (arith, high))
          (subst (λ k. fpage_get_magic m k ≢ poison) there bad) in
      rw (here, full.0) rest

-- The lock taken and released leaves the memory that there was.
relocked-same : (m : Memory) (fm : ℕ) → (m.fmem fm).lock ≡ 0 → fmem_unlock (with_lock 1 m fm) fm ≡ m
unfolding fmem_unlock
relocked-same m fm unlocked = let fmems = fun_ext λ q. same q in λ i. record m { fmem = fmems i }
  where
    cleared : (f : Fmem) → f.lock ≡ 0 → record f { lock = 0 } ≡ f
    cleared f e = λ i. record f { lock = sym e i }

    here : (fmem_unlock (with_lock 1 m fm) fm).fmem fm ≡ m.fmem fm
    here =
        let m1 = with_lock 1 m fm in
        fmem-set_fmem m1 fm (record (m1.fmem fm) { lock = 0 })
        ∙ ap {A = Fmem} {B = Fmem} (λ f. record f { lock = 0 })
            (fmem-set_fmem m fm (record (m.fmem fm) { lock = 1 }))
        ∙ cleared (m.fmem fm) unlocked

    same : (q : ℕ) → (fmem_unlock (with_lock 1 m fm) fm).fmem q ≡ m.fmem q
    same q = elim (ℕ_discrete fm q) [
      | yes e ↦ subst (λ q. (fmem_unlock (with_lock 1 m fm) fm).fmem q ≡ m.fmem q) e here
      | no ne ↦ ground (arith, ne)
    ]

module _ {W : Type 0} (committers : Committers W) (m : Memory) (w : W) (base : ℕ) (xs : List Block)
    (b : Block) (ys : List Block) where
  -- In a build that checks magic numbers, where the list goes through the pages of a row and
  -- back, those before one whose number was overwritten are well formed, none of them can hold
  -- the request, and the lock is free: `fmem_alloc` of a size below 2^32, which adjusted to a
  -- minimum below 2^32 is not more than the bytes counted as available, with more fuel than the
  -- row has pages, returns the error for corrupt memory as a pointer, leaves the memory as it
  -- was, the lock included, and asks for no write. The pages before the overwritten one have less
  -- than 2^32 bytes together, and its header ends below the end of the address space.
  pub fmem_alloc-corrupt :
      (fuel size : ℕ)
      → size < 2 ^ 32
      → length (xs ++ b ∷ ys) < fuel
      → (m.fmem (fmem_at base)).lock ≡ 0
      → (m.fmem (fmem_at base)).min_alloc < 2 ^ 32
      → adjusted_alloc m (fmem_at base) size ≤ (m.fmem (fmem_at base)).total_available
      → Ring m (base + 8) (nodes (base + head_size) (xs ++ b ∷ ys))
      → Headers checked m (base + head_size) xs
      → Sized xs
      → All (λ x. can_hold (adjusted_alloc m (fmem_at base) size) x ≡ false) xs
      → total xs < 2 ^ 32
      → base + head_size + total xs + 24 < 2 ^ 64
      → fpage_get_magic m (base + head_size + total xs) ≢ poison
      → fmem_alloc committers checked fuel m w (fmem_at base) size ≡ some (to_ptr ee_bad_mem, m, w)
  unfolding fmem_alloc alloc_found alloc_failed fpage_from_mem fpage_get_magic
  fmem_alloc-corrupt fuel size lt enough unlocked most available ring headers sized full small high
        bad =
      let fm = fmem_at base in
      let start = base + head_size in
      let need = adjusted_alloc m fm size in
      let m1 = with_lock 1 m fm in
      let head : list_of (fpage_from_mem fm) ≡ base + 8 = omega (arith, high) in
      let tested : ltb (m1.fmem fm).total_available need ≡ false = ground (arith, available) in
      let ring1 =
        Ring-same m m1 (base + 8) (nodes start (xs ++ b ∷ ys)) (λ p. refl) (λ p. refl) ring in
      let headers1 = Headers-same checked m m1 start xs (λ p lo hi. (refl, refl)) sized headers in
      let run =
        list_for_each-walk (alloc_round checked m1 need) m1 (base + 8) (nodes start (xs ++ b ∷ ys))
          fuel tt ring1 (omega (arith, enough, length-nodes start (xs ++ b ∷ ys)))
        ∙ walk-corrupt m1 need (ground (arith, lt, most)) b ys start xs headers1 sized full small
            (omega (arith, high)) bad in
      rw
        (
          fmem_lock-free fuel m fm (omega (arith, enough)) unlocked,
          tested,
          head,
          run,
          relocked-same m fm unlocked,
        )
        refl
