-- ===== src/Page.antt =====
-- The pages of fmem/fmem.c: a header of `page_overhead` bytes in front of the memory that the page
-- owns. A page is free or busy by bit 15 of its flags, and carries a magic number in the upper
-- half of them. The functions are stated here; the children prove them.
pub mod Flags
use memthing.Base.{
  ℕ, ◌*◌, ◌/◌, ◌^◌, ◌-◌, ◌%◌, Bool, true, false, not, ◌&&◌, ◌==◌, ltb, leb, if◌then◌else◌, bit_and,
  bit_or, u32, add32, sub32, add64, sub64, ℤ, pos, negsuc,
}
use memthing.Memory.{
  Memory, set_next, set_prev, set_flags, set_size, ptr_add, ptr_sub, sizeof_fmem_page, list_of,
  list_entry,
}
use memthing.LinkedList.{list_add_after, list_remove_at}

-- minimum overhead that each page carries
abbrev pub page_overhead : ℕ
page_overhead = sizeof_fmem_page

-- what has to remain for a page to be split
abbrev pub page_remain_free : ℕ
page_remain_free = 2 * sizeof_fmem_page

abbrev pub poison : ℕ
poison = 0xbeef

-- `CAN_NOT_FIT`, `FIT_AS_IS` and `FIT_WITH_CARVE`
pub data Fit : Type 0 where
  can_not_fit fit_as_is fit_with_carve : Fit

-- The difference is a `size_t`, cut to the 32 bits of the result.
unfoldable pub fpage_actual : Memory → ℕ → ℕ
fpage_actual m fpage = u32 (sub64 (m.size fpage) page_overhead)

unfoldable pub fpage_can_fit : Memory → (fpage size_needed : ℕ) → Fit
unfolding fpage_actual
fpage_can_fit m fpage size_needed =
    let actual = fpage_actual m fpage in
    if ltb actual size_needed
    then can_not_fit
    else (if leb actual (add64 size_needed page_remain_free) then fit_as_is else fit_with_carve)

-- `memset(fpage, 0, sizeof(struct fmem_page))`
abbrev pub clear_page : Memory → ℕ → Memory
clear_page m fpage =
    set_prev (set_next (set_size (set_flags m fpage 0) fpage 0) (list_of fpage) 0) (list_of fpage) 0

-- The memory after it, and `*created`.
unfoldable pub fpage_carve : Memory → (fpage to_carve : ℕ) → Memory × ℕ
fpage_carve m fpage to_carve =
    let actual_needed = u32 (add64 to_carve page_overhead) in
    let m1 = set_size m fpage (sub32 (m.size fpage) actual_needed) in
    let created = ptr_add fpage (m1.size fpage) in
    let m2 = clear_page m1 created in
    let m3 = set_size m2 created actual_needed in
    (list_add_after m3 (list_of fpage) (list_of created), created)

-- `flags &= low_mask; flags |= (uint32_t) magic << 16`
unfoldable pub fpage_set_magic : Memory → (fpage magic : ℕ) → Memory
fpage_set_magic m fpage magic =
    set_flags m fpage (bit_or (bit_and (m.flags fpage) 0xffff) (u32 (magic * 2 ^ 16)))

-- a `uint16_t`
unfoldable pub fpage_get_magic : Memory → ℕ → ℕ
fpage_get_magic m fpage = m.flags fpage / 2 ^ 16 % 2 ^ 16

unfoldable pub fpage_is_free : Memory → ℕ → Bool
fpage_is_free m fpage = if ltb 0 (bit_and (m.flags fpage) (2 ^ 15)) then false else true

unfoldable pub fpage_set_busy : Memory → ℕ → Memory
fpage_set_busy m fpage = set_flags m fpage (bit_or (m.flags fpage) (2 ^ 15))

-- The mask is `~(1 << 15)`.
unfoldable pub fpage_set_free : Memory → ℕ → Memory
fpage_set_free m fpage = set_flags m fpage (bit_and (m.flags fpage) (2 ^ 32 - 1 - 2 ^ 15))

-- The memory after it, and the page that holds the merged space.
unfoldable pub fpage_merge : Memory → ℕ → Memory × ℕ
fpage_merge m fpage =
    let prev = list_entry (m.prev (list_of fpage)) in
    let next = list_entry (m.next (list_of fpage)) in
    let prev_is_same = prev == fpage in
    let next_is_same = next == fpage in
    if (not prev_is_same && fpage_is_free m prev) && (not next_is_same && fpage_is_free m next)
    then (let m1 = set_size m prev (add32 (add32 (m.size prev) (m.size fpage)) (m.size next)) in
        (list_remove_at (list_remove_at m1 (list_of next)) (list_of fpage), prev))
    else (if not prev_is_same && fpage_is_free m prev
        then (let m1 = set_size m prev (add32 (m.size prev) (m.size fpage)) in
            (list_remove_at m1 (list_of fpage), prev))
        else (if not next_is_same && fpage_is_free m next
            then (let m1 = set_size m fpage (add32 (m.size fpage) (m.size next)) in
                (list_remove_at m1 (list_of next), fpage))
            else (m, fpage)))

unfoldable pub mem_from_fpage : ℕ → ℕ
mem_from_fpage fpage = ptr_add fpage page_overhead

unfoldable pub fpage_from_mem : ℕ → ℕ
fpage_from_mem mem = ptr_sub mem page_overhead

-- How the program was built: `plain` without `__BAD_MEM__`, `checked` with `__UNIT_TESTING__` and
-- `__BAD_MEM__`. With `__BAD_MEM__` alone the check does not compile (`if if`).
pub data Build : Type 0 where
  plain checked : Build

-- `EE_BAD_MEM`
abbrev pub ee_bad_mem : ℤ
ee_bad_mem = negsuc 1

unfoldable pub fail_on_poison_check : Build → (found expected : ℕ) → ℤ
fail_on_poison_check plain found expected = pos 0
fail_on_poison_check checked found expected = if found == expected then pos 0 else ee_bad_mem

-- What `__BAD_MEM__` adds where a page is made or taken.
abbrev pub poison_page : Build → Memory → ℕ → Memory
poison_page plain m fpage = m
poison_page checked m fpage = fpage_set_magic m fpage poison
