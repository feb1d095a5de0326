-- ===== src/UnitTests/Pages.antt =====
-- The unit tests of fmem/fmem.c on pages, which run in a checked build. A test is true if every
-- assertion in it holds. Memory that a test declares is zero at first, and at 8192.
use memthing.Base.{
  Bool, List, Option, [], add32, false, none, not, some, u32, ℕ, ◌&&◌, ◌*◌, ◌+◌, ◌-◌, ◌==◌, ◌∷◌,
}
use memthing.Heap.Carve.{created}
use memthing.LinkedList.{
  Round, finished, for_each, go_on, left, list_add_after, list_for_each, list_head_init,
  list_remove_at, out_of_fuel,
}
use memthing.Memory.{
  Memory, list_entry, list_of, null, ptr_add, ptr_sub, set_flags, set_size, sizeof_fmem_page,
}
use memthing.Page.{
  Fit, can_not_fit, fit_as_is, fit_with_carve, fpage_actual, fpage_can_fit, fpage_carve,
  fpage_from_mem, fpage_get_magic, fpage_is_free, fpage_merge, fpage_set_busy, fpage_set_free,
  fpage_set_magic, mem_from_fpage, page_overhead, page_remain_free,
}
use memthing.UnitTests.Lists.{empty}

abbrev buffer : ℕ
buffer = 8192

abbrev pub make_fpage : Memory → (fpage size : ℕ) → Memory
make_fpage m fpage size =
    list_head_init (set_size (set_flags m fpage 0) fpage (u32 size)) (list_of fpage)

-- `count_pages`; none where the loop goes on for too long.
unfoldable pub count_pages : Memory → ℕ → Option ℕ
unfolding list_for_each for_each
count_pages m fpage =
    let count_one : ℕ → ℕ → Round ℕ Bool = λ current count. go_on (count + 1) in
    elim (list_for_each m (list_of fpage) count_one 9 0) [
      | finished count ↦ some (count + 1)
      | left result ↦ none
      | out_of_fuel ↦ none
    ]

-- `count_pages(fpage) == count`
abbrev pub has_pages : Memory → (fpage count : ℕ) → Bool
has_pages m fpage count = elim (count_pages m fpage) [ none ↦ false | some n ↦ n == count ]

unfoldable pub test_fpage_mem_handling : Bool
unfolding mem_from_fpage fpage_from_mem
test_fpage_mem_handling =
    let mem = mem_from_fpage buffer in
    let other_p = fpage_from_mem mem in
    (mem == ptr_add buffer page_overhead)
    && ((other_p == ptr_sub mem page_overhead) && (other_p == buffer))

unfoldable pub test_fpage_flags_handling : Bool
unfolding fpage_set_magic fpage_get_magic fpage_set_busy fpage_set_free fpage_is_free list_head_init
test_fpage_flags_handling =
    let p = buffer in
    let magic : ℕ = 2022 in
    let m1 = fpage_set_magic (make_fpage empty p 200) p magic in
    let m2 = fpage_set_busy m1 p in
    let m3 = fpage_set_magic m2 p 123 in
    let m4 = fpage_set_free (fpage_set_magic m3 p magic) p in
    let m5 = fpage_set_magic m4 p 123 in
    (magic == fpage_get_magic m1 p)
    && (not (fpage_is_free m2 p)
        && ((magic == fpage_get_magic m2 p)
            && ((123 == fpage_get_magic m3 p)
                && (not (fpage_is_free m3 p)
                    && (fpage_is_free m4 p
                        && ((magic == fpage_get_magic m4 p)
                            && ((123 == fpage_get_magic m5 p) && fpage_is_free m5 p)))))))

-- The pages A to D of the tests on merging, each of them declared with a size of ten headers.
abbrev page_a : ℕ
page_a = 8192

abbrev page_b : ℕ
page_b = 8216

abbrev page_c : ℕ
page_c = 8240

abbrev page_d : ℕ
page_d = 8264

unfoldable pub four_pages : Memory
unfolding list_head_init list_add_after
four_pages =
    let n = 10 * sizeof_fmem_page in
    let m0 = set_size (set_size (set_size (set_size empty page_a n) page_b n) page_c n) page_d n in
    let m1 = list_head_init m0 (list_of page_a) in
    let m2 = list_add_after m1 (list_of page_a) (list_of page_b) in
    let m3 = list_add_after m2 (list_of page_b) (list_of page_c) in
    list_add_after m3 (list_of page_c) (list_of page_d)

-- What these tests assert once C is merged. The assertion on the size of B assigns it.
unfoldable pub merged_to : Memory → (expected_total_size_after count : ℕ) → Bool
unfolding fpage_merge fpage_is_free list_remove_at
merged_to m expected_total_size_after count =
    let m1 = (fpage_merge m page_c).0 in
    let m2 = set_size m1 page_b expected_total_size_after in
    has_pages m1 page_a count
    && (not (expected_total_size_after == 0) && (list_entry (m2.next (list_of page_a)) == page_b))

unfoldable pub test_fpage_merge_all : Bool
unfolding merged_to four_pages fpage_set_busy
test_fpage_merge_all =
    let m = fpage_set_busy four_pages page_a in
    merged_to m (add32 (add32 (m.size page_b) (m.size page_c)) (m.size page_d)) 2

unfoldable pub test_fpage_merge_left : Bool
unfolding merged_to four_pages fpage_set_busy
test_fpage_merge_left =
    let m = fpage_set_busy (fpage_set_busy four_pages page_a) page_d in
    merged_to m (add32 (m.size page_b) (m.size page_c)) 3

unfoldable pub test_fpage_merge_right : Bool
unfolding merged_to four_pages fpage_set_busy
test_fpage_merge_right =
    let m = fpage_set_busy (fpage_set_busy four_pages page_a) page_b in
    merged_to m (add32 (m.size page_c) (m.size page_d)) 3

unfoldable pub test_fpage_merge_none : Bool
unfolding merged_to four_pages fpage_set_busy
test_fpage_merge_none =
    let m = fpage_set_busy (fpage_set_busy (fpage_set_busy four_pages page_a) page_b) page_d in
    merged_to m (m.size page_c) 4

-- One case of `test_fpage_carving`.
unfoldable pub carving_case : (size_before carve size_after carved_size : ℕ) → Bool
unfolding fpage_carve list_add_after list_head_init
carving_case size_before carve size_after carved_size =
    let (m, created) = fpage_carve (make_fpage empty buffer size_before) buffer carve in
    not (created == null)
    && ((m.next (list_of buffer) == list_of created)
        && ((m.size buffer == size_after)
            && ((m.size created == carved_size) && (created == ptr_add buffer (m.size buffer)))))

unfoldable pub test_fpage_carving : Bool
unfolding carving_case
test_fpage_carving =
    let n = sizeof_fmem_page in
    carving_case (10 * n) (5 * n) (4 * n) (5 * n + page_overhead)
    && (carving_case (10 * n) (2 * n) (7 * n) (2 * n + page_overhead)
        && carving_case (10 * n) (7 * n) (2 * n) (7 * n + page_overhead))

-- One case of `test_fpage_fit`; the numbers are those of CAN_NOT_FIT, FIT_AS_IS, FIT_WITH_CARVE.
abbrev fit_number : Fit → ℕ
fit_number can_not_fit = 0
fit_number fit_as_is = 1
fit_number fit_with_carve = 2

unfoldable pub fit_case : (size needed : ℕ) → Fit → Bool
unfolding fpage_can_fit list_head_init
fit_case size needed expected =
    let m = make_fpage empty buffer size in
    fit_number (fpage_can_fit m buffer needed) == fit_number expected

unfoldable pub test_fpage_fit : Bool
unfolding fit_case
test_fpage_fit =
    let n = sizeof_fmem_page in
    fit_case (5 * n) (10 * n) can_not_fit
    && (fit_case (10 * n) (2 * n) fit_with_carve
        && fit_case (5 * n) (5 * n - (page_overhead + page_remain_free)) fit_as_is)

unfoldable pub test_fmem_get_size : Bool
unfolding fpage_actual list_head_init
test_fmem_get_size =
    let n = sizeof_fmem_page in
    (fpage_actual (make_fpage empty buffer (10 * n)) buffer == 9 * n)
    && (fpage_actual (make_fpage empty buffer (15 * n)) buffer == 14 * n)

-- The first part of `fmem_tests`.
unfoldable pub page_tests : List Bool
page_tests =
    test_fmem_get_size ∷ test_fpage_fit ∷ test_fpage_carving ∷ test_fpage_merge_all
    ∷ test_fpage_merge_left ∷ test_fpage_merge_right ∷ test_fpage_merge_none
    ∷ test_fpage_flags_handling ∷ test_fpage_mem_handling ∷ []
