-- ===== src/Page/Flags.antt =====
-- The flags of a page: the status bit and the magic number do not disturb each other.
use memthing.Base.{ℕ, ◌*◌, ◌%◌, ◌^◌, ◌<◌, ◌≡◌, true, false, arith, bit_and, bit_or, u32}
use memthing.Base.Bits.{and_bit15, or_bit15, and_low16, and_not15, or_high16}
use memthing.Memory.{Memory}
use memthing.Page.{fpage_set_magic, fpage_get_magic, fpage_is_free, fpage_set_busy, fpage_set_free}

module _ (m : Memory) (p : ℕ) where
  -- Marking a page busy makes it busy and keeps its magic number.
  pub set_busy-get :
      (fpage_is_free (fpage_set_busy m p) p ≡ false)
      × (fpage_get_magic (fpage_set_busy m p) p ≡ fpage_get_magic m p)
  unfolding fpage_is_free fpage_set_busy fpage_get_magic
  set_busy-get = (
    ground (arith, or_bit15 (m.flags p), and_bit15 (bit_or (m.flags p) (2 ^ 15))),
    ground (arith, or_bit15 (m.flags p)),
  )

  -- On 32-bit flags, marking a page free makes it free and keeps its magic number.
  pub set_free-get :
      m.flags p < 2 ^ 32
      → (fpage_is_free (fpage_set_free m p) p ≡ true)
        × (fpage_get_magic (fpage_set_free m p) p ≡ fpage_get_magic m p)
  unfolding fpage_is_free fpage_set_free fpage_get_magic
  set_free-get h = (
    ground (arith, and_not15 (m.flags p), and_bit15 (bit_and (m.flags p) 0xffff7fff)),
    ground (arith, and_not15 (m.flags p)),
  )

  -- A magic number of 16 bits is read back, and writing it keeps the status.
  pub set_magic-get :
      (magic : ℕ)
      → magic < 2 ^ 16
      → (fpage_get_magic (fpage_set_magic m p magic) p ≡ magic)
        × (fpage_is_free (fpage_set_magic m p magic) p ≡ fpage_is_free m p)
  unfolding fpage_is_free fpage_set_magic fpage_get_magic
  set_magic-get magic h = (
    ground (arith, and_low16 (m.flags p), or_high16 (m.flags p % 2 ^ 16) magic),
    ground (
      arith,
      and_low16 (m.flags p),
      or_high16 (m.flags p % 2 ^ 16) magic,
      and_bit15 (m.flags p),
      and_bit15 (bit_or (bit_and (m.flags p) 0xffff) (u32 (magic * 2 ^ 16))),
    ),
  )

  -- On 32-bit flags the status and the magic number of a page do not disturb each other: marking it
  -- busy makes it busy and marking it free makes it free, and both keep its magic number; and a
  -- magic number of 16 bits that is written is read back, and keeps the status.
  pub status_and_magic :
      (magic : ℕ)
      → m.flags p < 2 ^ 32
      → magic < 2 ^ 16
      → (fpage_is_free (fpage_set_busy m p) p ≡ false)
        × (fpage_get_magic (fpage_set_busy m p) p ≡ fpage_get_magic m p)
        × (fpage_is_free (fpage_set_free m p) p ≡ true)
        × (fpage_get_magic (fpage_set_free m p) p ≡ fpage_get_magic m p)
        × (fpage_get_magic (fpage_set_magic m p magic) p ≡ magic)
        × (fpage_is_free (fpage_set_magic m p magic) p ≡ fpage_is_free m p)
  status_and_magic magic word small =
      let busy = set_busy-get in
      let free = set_free-get word in
      let written = set_magic-get magic small in
      (busy.0, busy.1, free.0, free.1, written.0, written.1)
