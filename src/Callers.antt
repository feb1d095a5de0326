-- ===== src/Callers.antt =====
-- Several callers of one allocator, who take turns in any order. Here between `fmem_lock` and
-- `fmem_unlock` of fmem/fmem.c a caller may write anything but the lock; each round of the spin
-- lock and the unlock is one step.
pub mod Exclusion
pub mod Turns
pub mod Calls
pub mod Locked
pub mod Serial
pub mod Sequential
pub mod Behind
pub mod Progress
pub mod Interleaved
use memthing.Base.{if◌then◌else◌, ℕ, ◌≡◌}
use memthing.Fmem.{atomic_compare_swap, fmem_unlock}
use memthing.Memory.{Memory, update}

pub data Phase : Type 0 where
  idle spinning holding : Phase

pub record State : Type 0 where
  pub memory : Memory
  pub phase : ℕ → Phase

abbrev pub move : (ℕ → Phase) → ℕ → Phase → ℕ → Phase
move = update

-- A round of `fmem_lock` by the caller `t`.
unfoldable pub try_lock : (fm t : ℕ) → State → State
try_lock fm t s =
    let (exchanged, m) = atomic_compare_swap s.memory fm 0 1 in
    record { memory = m; phase = move s.phase t (if exchanged then holding else spinning) }

module _ (fm : ℕ) where
  pub data Step : State → State → Type 0 where
    call :
        {s : State} (t : ℕ)
        → s.phase t ≡ idle
        → Step s (record s { phase = move s.phase t spinning })
    spin : {s : State} (t : ℕ) → s.phase t ≡ spinning → Step s (try_lock fm t s)
    work :
        {s : State} (t : ℕ) (m : Memory)
        → s.phase t ≡ holding
        → (m.fmem fm).lock ≡ (s.memory.fmem fm).lock
        → Step s (record s { memory = m })
    unlock :
        {s : State} (t : ℕ)
        → s.phase t ≡ holding
        → Step s (record { memory = fmem_unlock s.memory fm; phase = move s.phase t idle })

  pub data Steps : State → State → Type 0 where
    stay : {s : State} → Steps s s
    then_ : {s t u : State} → Steps s t → Step t u → Steps s u
