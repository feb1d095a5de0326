-- ===== src/Tests/Lists.antt =====
-- Lists in a memory that was all zeros: the head is at 10, the nodes at 20, 30 and 40.
use memthing.Base.{Fresh, List, [], arith, if◌then◌else◌, ltb, refl, ℕ, ◌++◌, ◌+◌, ◌∷◌, ◌≡◌}
use memthing.LinkedList.{
  Round, finished, for_each, go_on, leave, list_add_after, list_add_before, list_for_each,
  list_for_each_backward, list_head_init, list_remove_at,
}
use memthing.LinkedList.Insert.{
  list_add_before-eq, list_add_after-Ring, list_add_before-Ring, list_add_before-head,
  list_head_init-Ring,
}
use memthing.LinkedList.Iterate.{list_for_each-walk, list_for_each_backward-walk}
use memthing.LinkedList.Remove.{list_remove_at-Ring}
use memthing.LinkedList.Ring.{Ring}
use memthing.Memory.{Memory, set_next, set_prev}

-- A memory where everything is zero.
abbrev pub zeros : Memory
zeros = record {
  next = λ p. 0;
  prev = λ p. 0;
  flags = λ p. 0;
  size = λ p. 0;
  fmem = λ p. record {
    total_size = 0;
    total_available = 0;
    alloc_objects = 0;
    min_alloc = 0;
    user1 = 0;
    user2 = 0;
    user3 = 0;
    user4 = 0;
    committer = 0;
    lock = 0;
  };
}

abbrev m0 : Memory
m0 = list_head_init zeros 10

abbrev m1 : Memory
m1 = list_add_before m0 10 20

abbrev m2 : Memory
m2 = list_add_before m1 10 30

two_nodes : Ring m2 10 (20 ∷ 30 ∷ [])
two_nodes =
    list_add_before-head m1 10 30 (20 ∷ [])
      (list_add_before-head m0 10 20 [] (list_head_init-Ring zeros 10) (omega arith, tt))
      (omega arith, (omega arith, tt))

apart : Fresh 40 (10 ∷ 20 ∷ 30 ∷ [])
apart = (omega arith, (omega arith, (omega arith, tt)))

list_head_init-Ring_example : Ring (list_head_init zeros 10) 10 []
list_head_init-Ring_example = list_head_init-Ring zeros 10

list_add_after-Ring_example : Ring (list_add_after m2 20 40) 10 (20 ∷ 40 ∷ 30 ∷ [])
list_add_after-Ring_example = list_add_after-Ring m2 10 [] 20 (30 ∷ []) 40 two_nodes apart

list_add_before-Ring_example : Ring (list_add_before m2 30 40) 10 (20 ∷ 40 ∷ 30 ∷ [])
list_add_before-Ring_example = list_add_before-Ring m2 10 (20 ∷ []) 30 [] 40 two_nodes apart

list_remove_at-Ring_example : Ring (list_remove_at m2 20) 10 (30 ∷ [])
list_remove_at-Ring_example = list_remove_at-Ring m2 10 [] 20 (30 ∷ []) two_nodes

-- A loop body that adds up the nodes and leaves at one above 100.
abbrev add_up : ℕ → ℕ → Round ℕ ℕ
add_up node sum = if ltb 100 node then leave node else go_on (sum + node)

list_for_each-walk_example : list_for_each m2 10 add_up 3 0 ≡ finished 50
list_for_each-walk_example =
    list_for_each-walk add_up m2 10 (20 ∷ 30 ∷ []) 3 0 two_nodes (omega arith)

list_for_each_backward-walk_example : list_for_each_backward m2 10 add_up 3 0 ≡ finished 50
list_for_each_backward-walk_example =
    list_for_each_backward-walk add_up m2 10 (20 ∷ 30 ∷ []) 3 0 two_nodes (omega arith)

-- The nodes after the three operations, read forwards.
abbrev collect : ℕ → List ℕ → Round (List ℕ) ℕ
collect node seen = go_on (seen ++ node ∷ [])

added : list_for_each (list_add_after m2 20 40) 10 collect 9 [] ≡ finished (20 ∷ 40 ∷ 30 ∷ [])
unfolding list_for_each for_each list_add_after list_add_before list_head_init
added = refl

removed : list_for_each (list_remove_at m2 20) 10 collect 9 [] ≡ finished (30 ∷ [])
unfolding list_for_each for_each list_remove_at list_add_before list_head_init
removed = refl

-- Two nodes that are linked to each other one way.
abbrev pair : Memory
pair = set_prev (set_next zeros 8 16) 16 8

list_add_before-eq_example : list_add_before pair 16 40 ≡ list_add_after pair 8 40
list_add_before-eq_example = list_add_before-eq pair 8 16 40 refl refl (omega arith) (omega arith)
