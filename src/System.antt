-- ===== src/System.antt =====
-- What the example programs things_mem.c and things_mem_persisted.c ask of the operating system.
-- Its calls are parameters; a world `W` stands for its state.
use memthing.Base.{
  Bool, true, false, ℕ, ◌-◌, ◌^◌, ℤ, pos, negsuc, zero, suc, ltb, ◌%◌, if◌then◌else◌,
}
use memthing.Things.{Store}

pub record System (W : Type 0) : Type 0 where
  pub getpagesize : ℕ
  -- `shm_open` of the shared memory's path, `open` of the file (with `O_CREAT` or not)
  pub shm_open : W → ℤ × W
  pub open_file : (create : Bool) → W → ℤ × W
  pub ftruncate : (fd : ℤ) (len : ℕ) → W → ℤ × W
  -- The memory after it holds what the mapped object holds.
  pub mmap : (addr len : ℕ) (fd : ℤ) → Store → W → ℕ × Store × W
  -- with `MS_SYNC` or with `MS_ASYNC`
  pub msync : (start len : ℕ) (wait : Bool) → W → ℤ × W
  pub fsync : (fd : ℤ) → W → ℤ × W
  pub shm_unlink : W → ℤ × W
  pub remove : W → ℤ × W

-- `x == -1`
abbrev pub is_minus_one : ℤ → Bool
is_minus_one (pos n) = false
is_minus_one (negsuc zero) = true
is_minus_one (negsuc (suc n)) = false

abbrev pub map_failed : ℕ
map_failed = 2 ^ 64 - 1

-- `(int) n`
abbrev pub to_int : ℕ → ℤ
to_int n = let v = n % 2 ^ 32 in if ltb v (2 ^ 31) then pos v else negsuc (2 ^ 32 - 1 - v)
