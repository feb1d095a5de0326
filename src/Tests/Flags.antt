-- ===== src/Tests/Flags.antt =====
-- The flags of a page whose magic number is 0xbeef.
use memthing.Base.{arith, false, refl, true, ◌≡◌}
use memthing.Memory.{Memory, set_flags}
use memthing.Page.{fpage_get_magic, fpage_is_free, fpage_set_busy, fpage_set_free, fpage_set_magic}
use memthing.Page.Flags.{status_and_magic}
use memthing.Tests.Lists.{zeros}

abbrev marked : Memory
marked = set_flags zeros 64 0xbeef0001

status_and_magic_example :
    (fpage_is_free (fpage_set_busy marked 64) 64 ≡ false)
    × (fpage_get_magic (fpage_set_busy marked 64) 64 ≡ fpage_get_magic marked 64)
    × (fpage_is_free (fpage_set_free marked 64) 64 ≡ true)
    × (fpage_get_magic (fpage_set_free marked 64) 64 ≡ fpage_get_magic marked 64)
    × (fpage_get_magic (fpage_set_magic marked 64 7) 64 ≡ 7)
    × (fpage_is_free (fpage_set_magic marked 64 7) 64 ≡ fpage_is_free marked 64)
status_and_magic_example = status_and_magic marked 64 7 (omega arith) (omega arith)

magic : fpage_get_magic (fpage_set_busy marked 64) 64 ≡ 0xbeef
unfolding fpage_get_magic fpage_set_busy
magic = refl
