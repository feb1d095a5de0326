-- ===== src/Fmem/Alloc.antt =====
-- `fmem_alloc`: its loop over the pages, and what it does with the page that the loop selects.
use memthing.Base.{
  ◌>>=◌, ℕ, Bool, true, false, Option, none, some, List, [], ◌∷◌, ◌==◌, ltb, if◌then◌else◌, add32,
  sub64, ℤ, is_nonzero, to_ptr,
}
use memthing.Memory.{
  Memory, set_fmem, null, sizeof_fmem_page, sizeof_list_head, list_of, list_entry,
}
use memthing.LinkedList.{Round, go_on, leave, Loop, finished, left, out_of_fuel, list_for_each}
use memthing.Page.{
  poison, can_not_fit, fit_as_is, fit_with_carve, fpage_can_fit, fpage_carve, fpage_get_magic,
  fpage_is_free, fpage_set_busy, mem_from_fpage, fpage_from_mem, Build, fail_on_poison_check,
  poison_page,
}
use memthing.Fmem.Common.{
  e_commit_failed, fmem_e_nomem, CommitRange, range, fmem_lock, fmem_unlock, Committers, commit,
}

-- The page that a round of `fmem_alloc`'s loop settles on.
pub data Found : Type 0 where
  corrupt : ℤ → Found
  as_is : ℕ → Found
  to_carve : ℕ → Found

-- The body of the loop at a list node.
unfoldable pub alloc_round :
    Build → Memory → (adjusted node : ℕ) → Unit {0} → Round (Unit {0}) Found
unfolding fail_on_poison_check fpage_get_magic fpage_is_free fpage_can_fit
alloc_round build m adjusted node s =
    let this_page = list_entry node in
    let check = fail_on_poison_check build (fpage_get_magic m this_page) poison in
    if is_nonzero check
    then leave (corrupt check)
    else (if fpage_is_free m this_page
        then elim (fpage_can_fit m this_page adjusted) [
          | can_not_fit ↦ go_on s
          | fit_as_is ↦ leave (as_is this_page)
          | fit_with_carve ↦ leave (to_carve this_page)
        ]
        else go_on s)

abbrev pub adjusted_alloc : Memory → (fm size : ℕ) → ℕ
adjusted_alloc m fm size = if ltb size (m.fmem fm).min_alloc then (m.fmem fm).min_alloc else size

-- What is committed once `selected` has been taken: its header, and for a page that was carved the
-- header before it and the links behind it. The committer is told to write the first only.
unfoldable pub alloc_ranges : Memory → (selected : ℕ) (carved : Bool) → List CommitRange
alloc_ranges m selected true =
    range selected sizeof_fmem_page
    ∷ range (list_entry (m.prev (list_of selected))) sizeof_fmem_page
    ∷ range (m.next (list_of selected)) sizeof_list_head
    ∷ []
alloc_ranges m selected false = range selected sizeof_fmem_page ∷ []

-- The accounting under `done:` in `fmem_alloc`.
unfoldable pub take_page : Build → Memory → (fm selected : ℕ) → Memory
take_page build m fm selected =
    let m1 = poison_page build (fpage_set_busy m selected) selected in
    let f = m1.fmem fm in
    set_fmem m1 fm (record f {
      total_available = sub64 f.total_available (m1.size selected);
      alloc_objects = add32 f.alloc_objects 1;
    })

module _ {W : Type 0} (committers : Committers W) where
  -- The end of `fmem_alloc`, from `done:` on, where a page was selected.
  unfoldable pub alloc_done :
      Build → Memory → W → (fm selected : ℕ) (carved : Bool) → ℕ × Memory × W
  alloc_done build m w fm selected carved =
      let m1 = take_page build m fm selected in
      let (ok, w') = commit committers m1 w fm (alloc_ranges m1 selected carved) 1 in
      let ret = if ok then mem_from_fpage selected else to_ptr e_commit_failed in
      (if ret == null then to_ptr fmem_e_nomem else ret, fmem_unlock m1 fm, w')

  -- The same where none was; `ret` is NULL or the result of a failed check.
  unfoldable pub alloc_failed : Memory → W → (fm ret : ℕ) → ℕ × Memory × W
  unfolding fmem_unlock
  alloc_failed m w fm ret = (if ret == null then to_ptr fmem_e_nomem else ret, fmem_unlock m fm, w)

  -- What follows the loop of `fmem_alloc`.
  unfoldable pub alloc_found :
      Build → Memory → W → (fm adjusted : ℕ) → Loop (Unit {0}) Found → Option (ℕ × Memory × W)
  alloc_found build m w fm adjusted (finished s) = some (alloc_failed m w fm null)
  alloc_found build m w fm adjusted (left (corrupt check)) =
      some (alloc_failed m w fm (to_ptr check))
  alloc_found build m w fm adjusted (left (as_is this_page)) =
      some (alloc_done build m w fm this_page false)
  alloc_found build m w fm adjusted (left (to_carve this_page)) =
      let (m', created) = fpage_carve m this_page adjusted in
      some (alloc_done build m' w fm created true)
  alloc_found build m w fm adjusted out_of_fuel = none

  -- `none` when the fuel ran out in the lock or in the loop.
  unfoldable pub fmem_alloc :
      Build → (fuel : ℕ) → Memory → W → (fm size : ℕ) → Option (ℕ × Memory × W)
  fmem_alloc build fuel m w fm size = do
    let adjusted = adjusted_alloc m fm size
    m1 ← fmem_lock fuel m fm
    let head = list_of (fpage_from_mem fm)
    if ltb (m1.fmem fm).total_available adjusted
        then some (alloc_failed m1 w fm null)
        else alloc_found build m1 w fm adjusted
            (list_for_each m1 head (alloc_round build m1 adjusted) fuel tt)
