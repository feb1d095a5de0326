-- ===== src/UnitTests/Calls.antt =====
-- The unit tests of fmem/fmem.c on the calls, in a checked build. A test gives `some true` if every
-- assertion in it holds, and `none` if a call does not return. The buffer is at 8192 and zero at
-- first; the committers' world is what `test_committer` has saved.
use memthing.Base.{
  Bool, List, Option, [], false, if◌then◌else◌, length, ltb, negsuc, not, pos, some, sub64, suc,
  to_ptr, true, zero, ℕ, ℤ, ◌&&◌, ◌*◌, ◌++◌, ◌+◌, ◌/◌, ◌==◌, ◌>>=◌, ◌∷◌,
}
use memthing.Fmem.{
  CommitRange, Committers, default_min_alloc, e_bad_init_mem, fmem_alloc, fmem_create_new,
  fmem_e_nomem, fmem_free, fmem_from_existing, min_total_allocation,
}
use memthing.Memory.{Memory, list_entry, list_of, null, set_fmem, sizeof_fmem, sizeof_fmem_page}
use memthing.Page.{
  checked, ee_bad_mem, fpage_from_mem, fpage_is_free, fpage_set_magic, page_overhead,
}
use memthing.UnitTests.Lists.{empty}
use memthing.UnitTests.Pages.{has_pages}

abbrev pub buffer : ℕ
buffer = 8192

abbrev pub large_buffer_size : ℕ
large_buffer_size = 50 * 1024

-- `&failed_test_committer` and `&test_committer`
abbrev pub failed_test_committer : ℕ
failed_test_committer = 1

abbrev pub test_committer : ℕ
test_committer = 2

abbrev pub take : ℕ → List CommitRange → List CommitRange
take zero rs = []
take (suc n) [] = []
take (suc n) (r ∷ rs) = r ∷ take n rs

abbrev pub max_commit : ℕ
max_commit = 3

-- What the test committers do when they are called.
abbrev pub test_committers : Committers (List CommitRange)
test_committers pointer ranges count m saved =
    if pointer == failed_test_committer
    then (negsuc 0, saved, ranges)
    else (if count == 0
        then (negsuc 0, saved, ranges)
        else (if ltb max_commit (length saved + count)
            then (negsuc 0, saved, ranges)
            else (pos 0, saved ++ take count ranges, ranges)))

-- `test_committer_compare_to`, with the ranges or of their number alone
abbrev pub same_ranges : (saved expected : List CommitRange) → Bool
same_ranges [] [] = true
same_ranges [] (e ∷ es) = false
same_ranges (r ∷ rs) [] = false
same_ranges (r ∷ rs) (e ∷ es) = (r.start == e.start) && ((r.len == e.len) && same_ranges rs es)

-- The calls, as the tests make them.
abbrev pub make :
    (length min_alloc committer : ℕ) → Memory → List CommitRange → ℕ × Memory × List CommitRange
make length min_alloc committer m saved =
    fmem_create_new test_committers checked m saved buffer length min_alloc committer

abbrev pub alloc :
    Memory → List CommitRange → (fm size : ℕ) → Option (ℕ × Memory × List CommitRange)
alloc m saved fm size = fmem_alloc test_committers checked 9 m saved fm size

abbrev pub free : Memory → List CommitRange → (fm mem : ℕ) → Option (ℤ × Memory × List CommitRange)
free m saved fm mem = fmem_free test_committers checked 9 m saved fm mem

-- `fm->committer = committer`
abbrev pub with_committer : Memory → (fm committer : ℕ) → Memory
with_committer m fm committer = set_fmem m fm (record (m.fmem fm) { committer = committer })

abbrev pub same_int : ℤ → ℤ → Bool
same_int (pos a) (pos b) = a == b
same_int (negsuc a) (negsuc b) = a == b
same_int (pos a) (negsuc b) = false
same_int (negsuc a) (pos b) = false

unfoldable pub test_fmem_poison : Option Bool
unfolding fmem_create_new fmem_alloc fmem_from_existing fpage_from_mem fpage_set_magic
test_fmem_poison =
    let (original_fm, m1, _) = make large_buffer_size 0 null empty [] in
    let m2 = fpage_set_magic m1 (fpage_from_mem original_fm) 0 in
    let (reused, m3) = fmem_from_existing checked m2 buffer null in
    let (fm, m4, _) = make large_buffer_size 0 null m3 [] in
    let head_page = fpage_from_mem fm in
    let main_page = list_entry (m4.next (list_of head_page)) in
    let m5 = fpage_set_magic m4 main_page 0 in
    alloc m5 [] fm (large_buffer_size / 2) >>= λ (mem, _, _).
    some
      (not (original_fm == null) && ((reused == to_ptr ee_bad_mem) && (mem == to_ptr ee_bad_mem)))

unfoldable pub test_fmem_free_poison : Option Bool
unfolding fmem_create_new fmem_alloc fmem_free fpage_from_mem fpage_set_magic
test_fmem_free_poison =
    let (fm, m1, _) = make large_buffer_size page_overhead null empty [] in
    alloc m1 [] fm page_overhead >>= λ (mem, m2, _).
    let m3 = fpage_set_magic m2 (fpage_from_mem mem) 0 in
    free m3 [] fm mem >>= λ (freed, _, _).
    some (not (fm == null) && (not (mem == null) && same_int freed ee_bad_mem))

-- `MIN_TOTAL_ALLOCATION/ 2` halves the last term of the macro only.
unfoldable pub test_fmem_alloc_fails : Option Bool
unfolding fmem_create_new fmem_alloc
test_fmem_alloc_fails =
    let half = large_buffer_size / 2 in
    let (bad, m1, _) =
      make min_total_allocation (3 * sizeof_fmem_page + sizeof_fmem / 2) null empty [] in
    let (fm_fails, m2, _) = make large_buffer_size default_min_alloc null m1 [] in
    alloc m2 [] fm_fails large_buffer_size >>= λ (large, m3, _).
    alloc m3 [] fm_fails half >>= λ (first, m4, _). alloc m4 [] fm_fails half >>= λ (second, _, _).
    some (
      (bad == to_ptr e_bad_init_mem)
      && ((large == to_ptr fmem_e_nomem)
          && (not (first == null) && (second == to_ptr fmem_e_nomem))))

unfoldable pub test_fmem_alloc_free_simple : Option Bool
unfolding fmem_create_new fmem_alloc fmem_free fpage_from_mem fpage_is_free
test_fmem_alloc_free_simple =
    let (fm, m1, _) = make large_buffer_size page_overhead null empty [] in
    let original_available = (m1.fmem fm).total_available in
    let head_page = fpage_from_mem fm in
    alloc m1 [] fm page_overhead >>= λ (mem1, m2, _).
    let second = m2.next (list_of head_page) in
    let third_page = list_entry (m2.next second) in
    free m2 [] fm mem1 >>= λ (freed, m3, _). some (
      not (fm == null)
      && (((m1.fmem fm).alloc_objects == 0)
          && (not (mem1 == null)
              && (((m2.fmem fm).alloc_objects == 1)
                  && (has_pages m2 head_page 3
                      && (not (fpage_is_free m2 third_page)
                          && (((m2.fmem fm).total_available
                                == sub64 original_available (m2.size third_page))
                              && (((m3.fmem fm).alloc_objects == 0)
                                  && (has_pages m3 head_page 2
                                      && (original_available
                                          == (m3.fmem fm).total_available))))))))))
