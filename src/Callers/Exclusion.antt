-- ===== src/Callers/Exclusion.antt =====
-- No two callers hold the lock at once.
use memthing.Base.{
  ap, arith, eq→==, if◌then◌else◌, inl, inr, ne→==, pos, refl, subst, sym, ℕ, ◌+◌, ◌<◌, ◌==◌, ◌^◌,
  ◌∙◌, ◌≡◌, ◌≢◌, ◌⊎◌,
}
use memthing.Callers.{Phase, State, Step, Steps, holding, idle, move, spinning, try_lock}
use memthing.Fmem.{atomic_compare_swap, fmem_from_existing, fmem_unlock}
use memthing.Heap.Lock.{fmem-set_fmem, with_lock}
use memthing.Memory.{Memory, null, set_fmem}
use memthing.Page.{Build, fail_on_poison_check, fpage_get_magic, mem_from_fpage, poison}

-- Nobody holds a free lock, and one caller alone a taken one.
pub data Exclusive (fm : ℕ) (s : State) : Type 0 where
  free : (s.memory.fmem fm).lock ≡ 0 → ((t : ℕ) → s.phase t ≢ holding) → Exclusive fm s
  taken :
      (h : ℕ)
      → (s.memory.fmem fm).lock ≢ 0
      → ((t : ℕ) → s.phase t ≡ holding → t ≡ h)
      → Exclusive fm s

-- Only the caller that moved to `holding` holds the lock anew.
move-holding :
    (phase : ℕ → Phase) (t u : ℕ) (p : Phase)
    → p ≢ holding
    → move phase t p u ≡ holding
    → phase u ≡ holding
move-holding phase t u p ne e = ground arith

move-others :
    (phase : ℕ → Phase) (t u : ℕ) (p : Phase)
    → move phase t p u ≡ holding
    → (u ≡ t) ⊎ (phase u ≡ holding)
move-others phase t u p e = ground arith

pub idle≢holding : idle ≢ holding
idle≢holding e = cc

spinning≢holding : spinning ≢ holding
spinning≢holding e = cc

lock-set : (m : Memory) (fm k : ℕ) → ((with_lock k m fm).fmem fm).lock ≡ k
lock-set m fm k = ap (λ f. f.lock) (fmem-set_fmem m fm (record (m.fmem fm) { lock = k }))

try_lock-free :
    (fm t : ℕ) (s : State)
    → (s.memory.fmem fm).lock ≡ 0
    → try_lock fm t s ≡ record { memory = with_lock 1 s.memory fm; phase = move s.phase t holding }
unfolding try_lock atomic_compare_swap
try_lock-free fm t s e = rw (eq→== (s.memory.fmem fm).lock 0 e) refl

try_lock-taken :
    (fm t : ℕ) (s : State)
    → (s.memory.fmem fm).lock ≢ 0
    → try_lock fm t s ≡ record { memory = s.memory; phase = move s.phase t spinning }
unfolding try_lock atomic_compare_swap
try_lock-taken fm t s e = rw (ne→== (s.memory.fmem fm).lock 0 e) refl

Step-Exclusive : (fm : ℕ) (s s' : State) → Step fm s s' → Exclusive fm s → Exclusive fm s'
unfolding fmem_unlock
Step-Exclusive fm s s' (Step.call t e) (free l h) =
    free l (λ u e'. h u (move-holding s.phase t u spinning spinning≢holding e'))
Step-Exclusive fm s s' (Step.call t e) (taken o l h) =
    taken o l (λ u e'. h u (move-holding s.phase t u spinning spinning≢holding e'))
Step-Exclusive fm s s' (Step.spin t e) (free l h) =
    subst (Exclusive fm) (sym (try_lock-free fm t s l)) (
      taken t (λ z. absurd (omega (arith, lock-set s.memory fm 1, z)))
        (λ u e'. elim (move-others s.phase t u holding e') [ inl d ↦ d | inr d ↦ absurd (h u d) ]))
Step-Exclusive fm s s' (Step.spin t e) (taken o l h) =
    subst (Exclusive fm) (sym (try_lock-taken fm t s l))
      (taken o l (λ u e'. h u (move-holding s.phase t u spinning spinning≢holding e')))
Step-Exclusive fm s s' (Step.work t m e l') (free l h) = free (l' ∙ l) h
Step-Exclusive fm s s' (Step.work t m e l') (taken o l h) = taken o (λ z. l (sym l' ∙ z)) h
Step-Exclusive fm s s' (Step.unlock t e) (free l h) = absurd (h t e)
Step-Exclusive fm s s' (Step.unlock t e) (taken o l h) =
    free (lock-set s.memory fm 0)
      (λ u e'. alone u (move-holding s.phase t u idle idle≢holding e') e')
  where
    alone : (u : ℕ) → s.phase u ≡ holding → move s.phase t idle u ≢ holding
    alone u d e' = ground (arith, h u d, h t e)

Steps-Exclusive : (fm : ℕ) (s s' : State) → Steps fm s s' → Exclusive fm s → Exclusive fm s'
Steps-Exclusive fm s s' Steps.stay x = x
Steps-Exclusive fm s s' (Steps.then_ {t = t} steps step) x =
    Step-Exclusive fm t s' step (Steps-Exclusive fm s t steps x)

-- However callers take turns from a state where the lock is free and nobody holds it, no two of
-- them ever hold it at once.
pub Steps-holding :
    (fm : ℕ) (s s' : State) (t u : ℕ)
    → (s.memory.fmem fm).lock ≡ 0
    → ((v : ℕ) → s.phase v ≢ holding)
    → Steps fm s s'
    → s'.phase t ≡ holding
    → s'.phase u ≡ holding
    → t ≡ u
Steps-holding fm s s' t u l h steps a b = elim (Steps-Exclusive fm s s' steps (free l h)) [
  | free l' h' ↦ absurd (h' t a)
  | taken o l' h' ↦ h' t a ∙ sym (h' u b)
]

existing-lock :
    (build : Build) (m : Memory) (base pointer : ℕ)
    → base + 24 < 2 ^ 64
    → fail_on_poison_check build (fpage_get_magic m base) poison ≡ pos 0
    → ((fmem_from_existing build m base pointer).1.fmem (base + 24)).lock ≡ 0
unfolding fmem_from_existing fmem_unlock
existing-lock build m base pointer high check =
    let here : mem_from_fpage base ≡ base + 24 = omega arith in
    let c = if pointer == null then (m.fmem (base + 24)).committer else pointer in
    let m1 = set_fmem m (base + 24) (record (m.fmem (base + 24)) { committer = c }) in
    rw (check, here) (lock-set m1 (base + 24) 0)

-- While one caller holds the lock and another spins, `fmem_from_existing` on memory below the end of
-- the address space whose first page passes the check for corruption frees the lock, so that the
-- next round of the second caller takes it while the first still holds it.
pub existing-holding :
    (build : Build) (base pointer : ℕ) (s : State) (t u : ℕ)
    → base + 24 < 2 ^ 64
    → fail_on_poison_check build (fpage_get_magic s.memory base) poison ≡ pos 0
    → t ≢ u
    → s.phase t ≡ holding
    → s.phase u ≡ spinning
    → let opened = record s { memory = (fmem_from_existing build s.memory base pointer).1 } in
      let after = try_lock (base + 24) u opened in
      (after.phase t ≡ holding) × (after.phase u ≡ holding)
existing-holding build base pointer s t u high check ne a b =
    let opened = record s { memory = (fmem_from_existing build s.memory base pointer).1 } in
    let lock = existing-lock build s.memory base pointer high check in
    subst (λ v. (v.phase t ≡ holding) × (v.phase u ≡ holding))
      (sym (try_lock-free (base + 24) u opened lock)) (ground arith, ground arith)
