-- ===== src/LinkedList.antt =====
-- list/list.c and the loops of list/list.h: circular doubly linked lists threaded through memory.
-- The functions are stated here; the children prove them.
pub mod Ring
pub mod Insert
pub mod Remove
pub mod Iterate
use memthing.Base.{ℕ, zero, suc, ◌==◌, if◌then◌else◌, Bool, true, false}
use memthing.Memory.{Memory, set_next, set_prev}

unfoldable pub list_head_init : Memory → ℕ → Memory
list_head_init m l = let m1 = set_next m l l in set_prev m1 l l

unfoldable pub list_add_after : Memory → (current new : ℕ) → Memory
list_add_after m current new =
    let next = m.next current in
    let m1 = set_prev m next new in
    let m2 = set_next m1 new next in let m3 = set_prev m2 new current in set_next m3 current new

unfoldable pub list_add_before : Memory → (current new : ℕ) → Memory
list_add_before m current new =
    let prev = m.prev current in
    let m1 = set_prev m new prev in
    let m2 = set_next m1 new current in let m3 = set_prev m2 current new in set_next m3 prev new

unfoldable pub list_remove_at : Memory → ℕ → Memory
list_remove_at m current =
    let prev = m.prev current in
    let next = m.next current in let m1 = set_next m prev next in set_prev m1 next prev

-- One round of a loop goes on with a new value of the loop's variables, or leaves the loop.
pub data Round (S R : Type 0) : Type 0 where
  go_on : S → Round S R
  leave : R → Round S R

-- What a loop that is given some fuel has done.
pub data Loop (S R : Type 0) : Type 0 where
  finished : S → Loop S R
  left : R → Loop S R
  out_of_fuel : Loop S R

module _ {S R : Type 0} where
  -- What follows the body: the next round, or the end of the loop.
  abbrev pub after : Round S R → (S → Loop S R) → Loop S R
  after (go_on s) next = next s
  after (leave r) next = left r

  -- `list_for_each(pos, head)` from `pos` on, along the links that `step` reads. The bodies in
  -- the program write to memory only in the round that leaves the loop.
  unfoldable pub for_each :
      (step : ℕ → ℕ) (head : ℕ) (body : ℕ → S → Round S R) → ℕ → (pos : ℕ) → S → Loop S R
  for_each step head body zero pos s = out_of_fuel
  for_each step head body (suc fuel) pos s = elim (pos == head) [
    | true ↦ finished s
    | false ↦ after (body pos s) λ t. for_each step head body fuel (step pos) t
  ]

  unfoldable pub list_for_each :
      Memory → (head : ℕ) (body : ℕ → S → Round S R) → (fuel : ℕ) → S → Loop S R
  unfolding for_each
  list_for_each m head body fuel s = for_each m.next head body fuel (m.next head) s

  unfoldable pub list_for_each_backward :
      Memory → (head : ℕ) (body : ℕ → S → Round S R) → (fuel : ℕ) → S → Loop S R
  unfolding for_each
  list_for_each_backward m head body fuel s = for_each m.prev head body fuel (m.prev head) s
