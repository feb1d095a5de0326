-- ===== src/Fmem.antt =====
-- The allocator of fmem/fmem.c: one circular list of pages over a block of memory, whose first page
-- holds the accounting object. The children state its functions; `Heap` proves them.
mod Common
mod Create
mod Alloc
mod Free
mod Commit
unfoldable pub use Common.*
unfoldable pub use Create.*
unfoldable pub use Alloc.*
unfoldable pub use Free.*
unfoldable pub use Commit.*
