-- ===== src/Lib.antt =====
-- Memthing keeps program data in a block of memory that outlives the process: shared memory, or a
-- file mapped at a fixed address. This library models its allocator and the list that the
-- allocator is built on, from the C code, and proves them.
--
-- The parts of the program and the files that model them:
--
--   list/list.c, list/list.h        LinkedList.antt
--   fmem/fmem.h (structures)        Memory.antt, Fmem/Common.antt
--   fmem/fmem.c (fpage_*)           Page.antt
--   fmem/fmem.c (fmem_*)            Fmem.antt and its children; Callers.antt for several callers
--   things.h                        Things.antt
--   things_mem.c                    ThingsMem.antt
--   things_mem_persisted.c          ThingsMemPersisted.antt
--
-- The allocator keeps a circular list of pages over the block, in the order of their addresses.
-- The first page holds the accounting object, struct fmem, and is never handed out. fmem_alloc
-- looks for the first free page that is large enough, and takes it whole or carves its upper end
-- off; fmem_free marks a page free and merges it with its free neighbours. Where a committer is
-- set, each call hands it the ranges of memory to write to the backing store.
--
-- Memory is a record of maps, one for each field of each structure, from addresses (64-bit
-- numbers) to values; a write to a field is a new map. A function of the program is a function of
-- the same name that takes the memory and returns the new one. Sizes and flags are natural numbers
-- with the wrap at 32 or 64 bits written out. The structures' sizes and offsets are those of a
-- 64-bit machine. Errors that the program returns as pointers are the numbers that these pointers
-- have. The committer is a parameter, a function by the pointer that the object holds; it sees the
-- ranges, their count and the memory, and changes a world of its own. A build is plain, or checked,
-- with __UNIT_TESTING__ and __BAD_MEM__.
--
-- Loops run on fuel, and out of fuel a call returns none. The loop of fmem_alloc needs one round
-- for each page and one more; the lock one round where it is free.
--
--   Base            names of the standard library, words and bits, lists
--   Memory          the memory
--   LinkedList      the list functions; Ring, Insert, Remove and Iterate: lists as rings
--   Page            the page functions; Flags: the bits of the flags
--   Fmem            the calls: create, open, alloc, free, commit, and the lock
--   Blocks          the allocator as a row of blocks, free or busy; first fit and release
--   Heap            the invariant that ties the memory to a row, and what each call does under it
--   Disk            the backing store, and what the calls have put on it
--   Sessions        a program's calls on one allocator, in any order, and what it holds
--   Callers         several callers of the lock, and of fmem_alloc and fmem_free, who take turns
--   Things          the lists of letters that the examples keep
--   System          the operating system's calls, as parameters
--   ThingsMem       the example on shared memory
--   ThingsMemPersisted  the example on a mapped file, with its committer
--   UnitTests       the unit tests at the end of list/list.c and fmem/fmem.c, and their results
--   Tests           the theorems at concrete inputs, and runs of the code
--
-- The invariant, IsHeap, says: the pages stand one behind the other without a gap from the first to
-- the end of the block, the list goes through them in that order and back, each has its size and
-- status in its header (and the magic number in a checked build), the counters of the accounting
-- object agree with the row, and the lock is free.
--
-- The operating system, malloc and getopt are parameters of the examples. A call of theirs that
-- ends the process gives `exits`; a committer that does so leaves a world that says so, and the
-- examples stop there.
--
-- Disk takes the words of fmem/fmem.h on committers as a hypothesis: what a committer is asked to
-- write is on the store once it has returned a result that is not negative. A store holds what a
-- memory holds. Sessions is a step relation: a program calls the functions of fmem/fmem.h, gives back
-- only what it was given and has not given back, and writes nothing but its own memory and the user's
-- pointers. Each call gets 2^28 rounds of fuel, more than pages of 24 bytes fit into 2^32 bytes.
--
-- In Callers each caller is idle, waits for the lock, or is behind it. What a call does before the
-- lock, each round of the lock, and what it does from then until the lock is free are one step each:
-- while one caller is behind the lock, the rounds of the others fail and change nothing. The calls
-- that have ended are kept in their order, with what they returned; Calls makes the same calls whole,
-- one after another.
--
-- Things takes an allocator and a callback as a record of what they must do, which ThingsMem meets
-- with fmem_alloc, and ThingsMemPersisted with fmem_alloc and fmem_commit_mem. A committer
-- returns the array of ranges as it leaves it: that of the persisted example rounds them in place,
-- which the length that fmem_commit_user_data returns shows.
--
-- Not modelled: munit (a third-party library), and what the examples and the tests print. But for
-- Callers, one caller runs at a time.
pub mod Base
pub mod Memory
pub mod LinkedList
pub mod Page
pub mod Fmem
pub mod Blocks
pub mod Heap
pub mod Things
pub mod Disk
pub mod Sessions
pub mod Callers
pub mod System
pub mod ThingsMem
pub mod ThingsMemPersisted
pub mod UnitTests
pub mod Tests
