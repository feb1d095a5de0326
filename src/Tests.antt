-- ===== src/Tests.antt =====
-- Runs of the code on small inputs, and the theorems at such inputs.
mod Lists
mod Flags
mod Heaps
mod Calls
mod Disks
mod Sessions
mod Turns
mod Modes
mod Corrupt
mod Programs
