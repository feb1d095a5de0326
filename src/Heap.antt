-- ===== src/Heap.antt =====
-- The invariant that the functions of fmem/fmem.c keep, and what they do under it.
pub mod Layout
pub mod Invariant
pub mod Status
pub mod Account
pub mod Take
pub mod Carve
pub mod Search
pub mod Lock
pub mod Alloc
pub mod Run
pub mod Grant
pub mod Create
pub mod CreateNew
pub mod Large
pub mod Merge
pub mod JoinThree
pub mod Sides
pub mod Joined
pub mod GiveBack
pub mod Free
pub mod Twice
pub mod Existing
pub mod Commit
pub mod Corrupt
pub mod RoundTrip
pub mod Unique
pub mod Gives
pub mod Tidy
