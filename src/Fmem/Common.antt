-- ===== src/Fmem/Common.antt =====
-- What the operations of fmem/fmem.c share: errors, commit ranges, the spin lock and the call of
-- the committer.
use memthing.Base.{
  ℕ, zero, suc, ◌+◌, ◌*◌, Bool, true, false, Option, none, some, List, ◌==◌, if◌then◌else◌, ℤ,
  negsuc, is_negative,
}
use memthing.Memory.{Memory, set_fmem, null, sizeof_fmem_page, sizeof_fmem}

abbrev pub min_total_allocation : ℕ
min_total_allocation = 3 * sizeof_fmem_page + sizeof_fmem

abbrev pub default_min_alloc : ℕ
default_min_alloc = sizeof_fmem_page

-- The errors, as the integers that the macros stand for.
abbrev pub e_total_allocation_size_too_small : ℤ
e_total_allocation_size_too_small = negsuc 0

abbrev pub e_commit_failed : ℤ
e_commit_failed = negsuc 1

abbrev pub e_bad_init_mem : ℤ
e_bad_init_mem = negsuc 1

abbrev pub fmem_e_nomem : ℤ
fmem_e_nomem = negsuc 0

-- A range of memory to be written to the backing store.
pub record CommitRange : Type 0 where
  pub start : ℕ
  pub len : ℕ

abbrev pub range : ℕ → ℕ → CommitRange
range p n = record { start = p; len = n }

-- `__atomic_compare_exchange_n` on the lock: whether it was exchanged, and the memory.
unfoldable pub atomic_compare_swap : Memory → (fm compare exchange : ℕ) → Bool × Memory
atomic_compare_swap m fm compare exchange =
    if (m.fmem fm).lock == compare
    then (true, set_fmem m fm (record (m.fmem fm) { lock = exchange }))
    else (false, m)

-- The spin lock, on fuel; nobody else runs between two rounds (`Callers` has others).
unfoldable pub fmem_lock : ℕ → Memory → ℕ → Option Memory
unfolding atomic_compare_swap
fmem_lock zero m fm = none
fmem_lock (suc fuel) m fm =
    let (done, m') = atomic_compare_swap m fm 0 1 in
    elim done [ true ↦ some m' | false ↦ fmem_lock fuel m' fm ]

unfoldable pub fmem_unlock : Memory → ℕ → Memory
fmem_unlock m fm = set_fmem m fm (record (m.fmem fm) { lock = 0 })

-- The committers that function pointers stand for: each reads an array of ranges, how many of them
-- to write, and the memory, and returns a status, a new world (the backing store) and the array as
-- it leaves it, since it may change the ranges in place. It does not write to the allocator's memory.
abbrev pub Committers : Type 0 → Type 0
Committers W =
    (pointer : ℕ) → List CommitRange → (count : ℕ) → Memory → W → ℤ × W × List CommitRange

module _ {W : Type 0} (committers : Committers W) where
  -- `if (fm->committer != NULL && fm->committer(ranges, count) < 0)`: whether nothing failed.
  unfoldable pub commit : Memory → W → (fm : ℕ) → List CommitRange → (count : ℕ) → Bool × W
  commit m w fm ranges count =
      let pointer = (m.fmem fm).committer in
      if pointer == null
      then (true, w)
      else (let (res, w', _) = committers pointer ranges count m w in
          (if is_negative res then false else true, w'))
