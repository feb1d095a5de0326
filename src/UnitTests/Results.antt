-- ===== src/UnitTests/Results.antt =====
-- The unit tests pass on the model.
use memthing.Base.{[], refl, some, true, ◌∷◌, ◌≡◌}
use memthing.Fmem.{
  alloc_done, alloc_failed, alloc_found, alloc_ranges, alloc_round, atomic_compare_swap, commit,
  create, fmem_alloc, fmem_commit_mem, fmem_commit_user_data, fmem_create_new, fmem_free,
  fmem_from_existing, fmem_lock, fmem_unlock, free_ranges, give_page, take_page,
}
use memthing.LinkedList.{for_each, list_add_after, list_for_each, list_head_init, list_remove_at}
use memthing.Page.{
  fail_on_poison_check, fpage_actual, fpage_can_fit, fpage_carve, fpage_from_mem, fpage_get_magic,
  fpage_is_free, fpage_merge, fpage_set_busy, fpage_set_free, fpage_set_magic, mem_from_fpage,
}
use memthing.UnitTests.Calls.{
  test_fmem_alloc_fails, test_fmem_alloc_free_simple, test_fmem_free_poison, test_fmem_poison,
}
use memthing.UnitTests.Lists.{
  list_tests, test_add, test_add_before, test_container_of, test_init, test_iterator_backward,
  test_iterator_forward, test_remove_at,
}
use memthing.UnitTests.Makes.{commit_page_cases, commit_user_data_cases, test_fmem_creation}
use memthing.UnitTests.Pages.{
  count_pages, page_tests, test_fmem_get_size, test_fpage_carving, test_fpage_fit,
  test_fpage_flags_handling, test_fpage_mem_handling, test_fpage_merge_all, test_fpage_merge_left,
  test_fpage_merge_none, test_fpage_merge_right,
}

lists_pass : list_tests ≡ true ∷ true ∷ true ∷ true ∷ true ∷ true ∷ true ∷ []
unfolding list_tests test_init test_container_of test_add test_add_before test_remove_at
    test_iterator_forward test_iterator_backward
lists_pass = refl

pages_pass : page_tests ≡ true ∷ true ∷ true ∷ true ∷ true ∷ true ∷ true ∷ true ∷ true ∷ []
unfolding page_tests test_fmem_get_size test_fpage_fit test_fpage_carving test_fpage_merge_all
    test_fpage_merge_left test_fpage_merge_right test_fpage_merge_none test_fpage_flags_handling
    test_fpage_mem_handling count_pages
pages_pass = refl

calls_pass :
    test_fmem_poison ∷ test_fmem_free_poison ∷ test_fmem_alloc_fails ∷ test_fmem_alloc_free_simple
      ∷ []
    ≡ some true ∷ some true ∷ some true ∷ some true ∷ []
unfolding test_fmem_poison test_fmem_free_poison test_fmem_alloc_fails test_fmem_alloc_free_simple
    count_pages fmem_create_new create commit fmem_unlock mem_from_fpage fpage_set_magic
    fpage_set_busy fpage_set_free list_head_init list_add_after fpage_get_magic fpage_from_mem
    fmem_lock atomic_compare_swap list_for_each for_each alloc_round alloc_found alloc_failed
    alloc_done take_page alloc_ranges fpage_carve fpage_merge list_remove_at give_page free_ranges
    fail_on_poison_check fpage_can_fit fpage_actual fpage_is_free fmem_alloc fmem_free
calls_pass = refl

makes_pass : (test_fmem_creation ≡ true) × (commit_user_data_cases ≡ true)
unfolding test_fmem_creation commit_user_data_cases count_pages fmem_create_new create commit
    fmem_unlock mem_from_fpage fpage_set_magic fpage_set_busy fpage_set_free list_head_init
    list_add_after fpage_get_magic fpage_from_mem list_for_each for_each fail_on_poison_check
    fpage_is_free fmem_from_existing fmem_commit_user_data
makes_pass = (refl, refl)

commits_pass : commit_page_cases ≡ some true
unfolding commit_page_cases fmem_create_new create commit fmem_unlock mem_from_fpage fpage_set_magic
    fpage_set_busy fpage_set_free list_head_init list_add_after fpage_get_magic fpage_from_mem
    fmem_lock atomic_compare_swap list_for_each for_each alloc_round alloc_found alloc_failed
    alloc_done take_page alloc_ranges fpage_carve fpage_merge list_remove_at give_page free_ranges
    fail_on_poison_check fpage_can_fit fpage_actual fpage_is_free fmem_alloc fmem_free
    fmem_commit_mem
commits_pass = refl
