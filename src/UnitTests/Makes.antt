-- ===== src/UnitTests/Makes.antt =====
-- The unit tests of fmem/fmem.c on making an allocator, and on what is committed.
use memthing.Base.{
  Bool, Option, [], leb_zero, length, not, some, to_ptr, ℕ, ◌&&◌, ◌*◌, ◌+◌, ◌-◌, ◌==◌, ◌>>=◌, ◌∷◌,
}
use memthing.UnitTests.Calls.{
  free, alloc, buffer, failed_test_committer, large_buffer_size, make, same_int, same_ranges,
  test_committer, test_committers, with_committer,
}
use memthing.Fmem.{
  default_min_alloc, e_commit_failed, e_total_allocation_size_too_small, fmem_alloc,
  fmem_commit_mem, fmem_commit_user_data, fmem_create_new, fmem_free, fmem_from_existing, range,
}
use memthing.Memory.{
  Memory, list_entry, list_of, null, offsetof_user1, ptr_add, sizeof_fmem, sizeof_fmem_page,
}
use memthing.Page.{checked, fpage_from_mem, fpage_get_magic, fpage_is_free, page_overhead, poison}
use memthing.UnitTests.Lists.{empty}
use memthing.UnitTests.Pages.{has_pages}

abbrev small_buffer_size : ℕ
small_buffer_size = 10

-- The tests' buffer, of `large_buffer_size` bytes.
unfoldable pub test_fmem_creation : Bool
unfolding fmem_create_new fmem_from_existing fpage_from_mem fpage_get_magic fpage_is_free
test_fmem_creation =
    let (bad_fm, _, _) = make small_buffer_size 5 null empty [] in
    let (fm, m, _) = make large_buffer_size 10 null empty [] in
    let f = m.fmem fm in
    let head_page = fpage_from_mem fm in
    let main_page = list_entry (m.next (list_of head_page)) in
    let (fm_other, m1) = fmem_from_existing checked m buffer null in
    let (fm_large, m2, _) = make large_buffer_size (5 * sizeof_fmem_page) null m1 [] in
    let (fm_with, m3, _) = make large_buffer_size 10 test_committer m2 [] in
    let (fm_again, m4) =
      fmem_from_existing checked (with_committer m3 fm_with null) buffer test_committer in
    (bad_fm == to_ptr e_total_allocation_size_too_small)
    && (not (fm == null)
        && ((f.committer == null)
            && ((poison == fpage_get_magic m head_page)
                && (not (fpage_is_free m head_page)
                    && (has_pages m head_page 2
                        && ((head_page == buffer)
                            && ((poison == fpage_get_magic m main_page)
                                && (fpage_is_free m main_page
                                    && ((f.total_size == large_buffer_size)
                                        && ((f.min_alloc == default_min_alloc)
                                            && ((f.total_available
                                                  == large_buffer_size
                                                    - (2 * page_overhead + sizeof_fmem))
                                                && ((m.size main_page
                                                      == large_buffer_size
                                                        - (page_overhead + sizeof_fmem))
                                                    && ((fm_other == fm)
                                                        && (((m1.fmem fm_other).committer == null)
                                                            && (((m2.fmem fm_large).min_alloc
                                                            == 5 * sizeof_fmem_page)
                                                            && (not (fm_large == null)
                                                            && (((m3.fmem fm_with).committer
                                                            == test_committer)
                                                            && ((m4.fmem fm_again).committer
                                                            == test_committer))))))))))))))))))

-- `test_fmem_commit` up to the user's data: making with either committer, and committing the data.
unfoldable pub commit_user_data_cases : Bool
unfolding fmem_create_new fmem_commit_user_data
commit_user_data_cases =
    let (bad, m1, _) = make large_buffer_size 0 failed_test_committer empty [] in
    let (fm, m2, saved) = make large_buffer_size 0 test_committer m1 [] in
    let header = page_overhead + sizeof_fmem + page_overhead in
    let m3 = with_committer m2 fm failed_test_committer in
    let (failed, _) = fmem_commit_user_data test_committers checked m3 [] fm in
    let m4 = with_committer m3 fm test_committer in
    let (written, saved') = fmem_commit_user_data test_committers checked m4 [] fm in
    (bad == to_ptr e_commit_failed)
    && (same_ranges saved (range buffer header ∷ [])
        && (same_int failed e_commit_failed
            && (not (leb_zero written)
                && same_ranges saved' (range (ptr_add fm offsetof_user1) (4 * 8) ∷ []))))

-- The rest of `test_fmem_commit`. The page of `alloc3`, whose failed free gave it back, is the one
-- that `alloc4` is taken from, so that freeing `alloc3` once more frees `alloc4`.
unfoldable pub commit_page_cases : Option Bool
unfolding fmem_create_new fmem_alloc fmem_free fmem_commit_mem
commit_page_cases =
    let (fm, m0, _) = make large_buffer_size 0 test_committer empty [] in
    let good : Memory → Memory = λ m. with_committer m fm test_committer in
    let bad : Memory → Memory = λ m. with_committer m fm failed_test_committer in
    alloc (bad m0) [] fm 10 >>= λ (alloc0, m1, _). alloc (good m1) [] fm 10 >>= λ (alloc1, m2, _).
    let failed = (fmem_commit_mem test_committers checked (bad m2) [] fm alloc1 0).0 in
    alloc (good m2) [] fm 10 >>= λ (alloc2, m3, _).
    let (written, saved) = fmem_commit_mem test_committers checked m3 [] fm alloc2 0 in
    alloc (good m3) [] fm 10 >>= λ (alloc3, m4, _).
    free (bad m4) [] fm alloc3 >>= λ (freed3, m5, _).
    alloc (good m5) [] fm 10 >>= λ (alloc4, m6, _). free m6 [] fm alloc3 >>= λ (freed4, m7, saved').
    some (
      (alloc0 == to_ptr e_commit_failed)
      && (not (alloc1 == null)
          && (same_int failed e_commit_failed
              && (not (alloc2 == null)
                  && (not (leb_zero written)
                      && (same_ranges saved (range alloc2 24 ∷ [])
                          && (not (alloc3 == null)
                              && (same_int freed3 e_commit_failed
                                  && (not (alloc4 == null)
                                      && (not (leb_zero freed4) && (length saved' == 3)))))))))))
