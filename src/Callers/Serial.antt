-- ===== src/Callers/Serial.antt =====
-- Callers who take turns do to the allocator what their calls do one after another.
use memthing.Base.{
  subst, sym, Bool-cases, ap, arith, eq→==, false, if◌then◌else◌, inl, inr, ltb, refl, true, ℕ, ◌<◌,
  ◌==◌, ◌^◌, ◌∙◌, ◌≡◌, ◌≢◌, ◌⊎◌,
}
use memthing.Callers.Turns.{Request, Shared, Stage, alloc, free, idle, inside, waiting}
use memthing.Fmem.{atomic_compare_swap}
use memthing.Heap.Lock.{fmem-set_fmem, with_lock}
use memthing.Memory.{Memory, update}

-- A caller has asked for `r`.
abbrev pub Asks : Stage → Request → Type 0
Asks p r = (p ≡ waiting r) ⊎ (p ≡ inside r)

-- What is asked for was adjusted for objects whose `min_alloc` is `k`.
abbrev pub Fits : (k : ℕ) → Request → Type 0
Fits k (alloc size adjusted) = (size < 2 ^ 32) × (adjusted ≡ (if ltb size k then k else size))
Fits k (free a) = Unit

pub Asks-waiting : (q r : Request) → Asks (waiting q) r → q ≡ r
Asks-waiting q r (inl e) = cc
Asks-waiting q r (inr e) = cc

pub Asks-inside : (q r : Request) → Asks (inside q) r → q ≡ r
Asks-inside q r (inl e) = cc
Asks-inside q r (inr e) = cc

pub Asks-idle : (r : Request) → Asks idle r → ⊥
Asks-idle r (inl e) = cc
Asks-idle r (inr e) = cc

pub Asks-update :
    (stage : ℕ → Stage) (k t : ℕ) (p : Stage)
    → ((u : ℕ) (r : Request) → Asks (stage u) r → Fits k r)
    → ((r : Request) → Asks p r → Fits k r)
    → (u : ℕ) (r : Request) → Asks (update stage t p u) r
    → Fits k r
Asks-update stage k t p old new u r h = elim (Bool-cases (t == u)) [
  | inl e ↦ new r (rw e at h)
  | inr e ↦ old u r (rw e at h)
]

pub update-inside :
    (stage : ℕ → Stage) (t u : ℕ) (p : Stage) (r : Request)
    → p ≢ inside r
    → update stage t p u ≡ inside r
    → stage u ≡ inside r
update-inside stage t u p r ne h = elim (Bool-cases (t == u)) [
  | inl e ↦ absurd (ne (rw e at h))
  | inr e ↦ rw e at h
]

pub update-outside :
    (stage : ℕ → Stage) (t u : ℕ) (p : Stage) (r : Request)
    → ((q : Request) → stage t ≢ inside q)
    → stage u ≡ inside r
    → update stage t p u ≡ inside r
update-outside stage t u p r out h = elim (Bool-cases (t == u)) [
  | inl e ↦ absurd (out r (subst (λ v. stage v ≡ inside r) (sym (ground (arith, e))) h))
  | inr e ↦ rw e h
]

pub update_self : (stage : ℕ → Stage) (t : ℕ) (p : Stage) → update stage t p t ≡ p
update_self stage t p = rw (eq→== t t refl) refl

-- The memory that the callers share, by that of the calls that are over: the same, or with the lock
-- taken by one caller, who alone is behind it.
pub data Locking {W : Type 0} (fm : ℕ) (m : Memory) (s : Shared W) : Type 0 where
  unlocked : s.memory ≡ m → ((t : ℕ) (r : Request) → s.stage t ≢ inside r) → Locking fm m s
  locked :
      (h : ℕ) (q : Request)
      → s.stage h ≡ inside q
      → s.memory ≡ with_lock 1 m fm
      → ((t : ℕ) (r : Request) → s.stage t ≡ inside r → t ≡ h)
      → Locking fm m s

pub swap-free :
    (m : Memory) (fm : ℕ)
    → (m.fmem fm).lock ≡ 0
    → atomic_compare_swap m fm 0 1 ≡ (true, with_lock 1 m fm)
unfolding atomic_compare_swap
swap-free m fm e = rw (eq→== (m.fmem fm).lock 0 e) refl

pub swap-taken :
    (m : Memory) (fm : ℕ)
    → atomic_compare_swap (with_lock 1 m fm) fm 0 1 ≡ (false, with_lock 1 m fm)
unfolding atomic_compare_swap
swap-taken m fm =
    let e : ((with_lock 1 m fm).fmem fm).lock ≡ 1 =
      ap (λ f. f.lock) (fmem-set_fmem m fm (record (m.fmem fm) { lock = 1 })) in
    let ne : (((with_lock 1 m fm).fmem fm).lock == 0) ≡ false = ground (arith, e) in rw ne refl

pub Locking-least :
    {W : Type 0} (fm : ℕ) (m : Memory) (s : Shared W)
    → Locking fm m s
    → (s.memory.fmem fm).min_alloc ≡ (m.fmem fm).min_alloc
Locking-least fm m s (unlocked e alone) = ap (λ m. (m.fmem fm).min_alloc) e
Locking-least fm m s (locked h q here e alone) =
    ap (λ m. (m.fmem fm).min_alloc) e
    ∙ ap (λ f. f.min_alloc) (fmem-set_fmem m fm (record (m.fmem fm) { lock = 1 }))
