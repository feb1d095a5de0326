-- ===== src/Memory.antt =====
-- The memory that list/list.c and fmem/fmem.c work on. A pointer is a 64-bit number. Each field of
-- `struct list_head`, `struct fmem_page` and `struct fmem` (fmem/fmem.h) has a map from the address
-- of its structure to its value, so that structures at different addresses do not overlap.
use memthing.Base.{ℕ, ◌+◌, ◌==◌, if◌then◌else◌, u64, sub64}

-- What an allocator keeps about itself, `struct fmem`; `lock` is 0 or 1, and a `committer` of 0 is
-- NULL.
pub record Fmem : Type 0 where
  pub total_size : ℕ
  pub total_available : ℕ
  pub alloc_objects : ℕ
  pub min_alloc : ℕ
  pub user1 : ℕ
  pub user2 : ℕ
  pub user3 : ℕ
  pub user4 : ℕ
  pub committer : ℕ
  pub lock : ℕ

-- `next` and `prev` go by the address of a `struct list_head`, `flags` and `size` by that of a
-- `struct fmem_page`, `fmem` by that of a `struct fmem`.
pub record Memory : Type 0 where
  pub next : ℕ → ℕ
  pub prev : ℕ → ℕ
  pub flags : ℕ → ℕ
  pub size : ℕ → ℕ
  pub fmem : ℕ → Fmem

abbrev pub update {ℓ} : {A : Type ℓ} → (ℕ → A) → ℕ → A → ℕ → A
update f p v q = if p == q then v else f q

abbrev pub set_next : Memory → ℕ → ℕ → Memory
set_next m p v = record m { next = update m.next p v }

abbrev pub set_prev : Memory → ℕ → ℕ → Memory
set_prev m p v = record m { prev = update m.prev p v }

abbrev pub set_flags : Memory → ℕ → ℕ → Memory
set_flags m p v = record m { flags = update m.flags p v }

abbrev pub set_size : Memory → ℕ → ℕ → Memory
set_size m p v = record m { size = update m.size p v }

abbrev pub set_fmem : Memory → ℕ → Fmem → Memory
set_fmem m p v = record m { fmem = update m.fmem p v }

abbrev pub null : ℕ
null = 0

-- `(char *) p + n` and `(char *) p - n`
abbrev pub ptr_add : ℕ → ℕ → ℕ
ptr_add p n = u64 (p + n)

abbrev pub ptr_sub : ℕ → ℕ → ℕ
ptr_sub p n = sub64 p n

-- The sizes and the offsets of the structures: two pointers; two uint32_t and a list_head; two
-- size_t, two uint32_t, five pointers and a uint32_t, padded to a multiple of 8.
abbrev pub sizeof_list_head : ℕ
sizeof_list_head = 16

abbrev pub sizeof_fmem_page : ℕ
sizeof_fmem_page = 24

abbrev pub sizeof_fmem : ℕ
sizeof_fmem = 72

-- `offsetof(struct fmem_page, list)` and `offsetof(struct fmem, user1)`
abbrev pub offsetof_list : ℕ
offsetof_list = 8

abbrev pub offsetof_user1 : ℕ
offsetof_user1 = 24

-- `&fpage->list`, and back by `list_entry(l, struct fmem_page, list)`.
abbrev pub list_of : ℕ → ℕ
list_of p = ptr_add p offsetof_list

abbrev pub list_entry : ℕ → ℕ
list_entry l = ptr_sub l offsetof_list
