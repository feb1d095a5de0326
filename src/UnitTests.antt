-- ===== src/UnitTests.antt =====
-- The unit tests at the end of list/list.c and fmem/fmem.c, as runs of the model.
pub mod Lists
pub mod Pages
pub mod Calls
pub mod Makes
mod Results
