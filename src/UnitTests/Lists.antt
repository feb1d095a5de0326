-- ===== src/UnitTests/Lists.antt =====
-- The unit tests of list/list.c. A test is true if every assertion in it holds. The carriers of a
-- test lie one behind the other from 4096 on; each has its letter and then, 8 bytes behind its
-- start, its list node.
use memthing.Base.{
  Bool, List, [], false, if◌then◌else◌, ltb, true, ℕ, ◌&&◌, ◌*◌, ◌+◌, ◌-◌, ◌/◌, ◌==◌, ◌∷◌,
}
use memthing.LinkedList.{
  Loop, Round, finished, for_each, go_on, leave, left, list_add_after, list_add_before,
  list_for_each, list_for_each_backward, list_head_init, list_remove_at, out_of_fuel,
}
use memthing.Memory.{Memory, list_entry, list_of}

abbrev sizeof_carrier : ℕ
sizeof_carrier = 24

-- `&carriers[i]`
abbrev carrier : ℕ → ℕ
carrier i = 4096 + i * sizeof_carrier

-- `carrier->content`: the letters from A on.
abbrev content : ℕ → ℕ
content p = 65 + (p - 4096) / sizeof_carrier

-- A memory that holds nothing yet.
abbrev pub empty : Memory
empty = record {
  next = λ p. 0;
  prev = λ p. 0;
  flags = λ p. 0;
  size = λ p. 0;
  fmem = λ p. record {
    total_size = 0;
    total_available = 0;
    alloc_objects = 0;
    min_alloc = 0;
    user1 = 0;
    user2 = 0;
    user3 = 0;
    user4 = 0;
    committer = 0;
    lock = 0;
  };
}

-- The five carriers of most tests, the first of them the head.
unfoldable pub five_after : Memory
unfolding list_head_init list_add_after
five_after =
    let m0 = list_head_init empty (list_of (carrier 0)) in
    let m1 = list_add_after m0 (list_of (carrier 0)) (list_of (carrier 1)) in
    let m2 = list_add_after m1 (list_of (carrier 1)) (list_of (carrier 2)) in
    let m3 = list_add_after m2 (list_of (carrier 2)) (list_of (carrier 3)) in
    list_add_after m3 (list_of (carrier 3)) (list_of (carrier 4))

unfoldable pub five_before : Memory
unfolding list_head_init list_add_before
five_before =
    let m0 = list_head_init empty (list_of (carrier 0)) in
    let m1 = list_add_before m0 (list_of (carrier 0)) (list_of (carrier 1)) in
    let m2 = list_add_before m1 (list_of (carrier 1)) (list_of (carrier 2)) in
    let m3 = list_add_before m2 (list_of (carrier 2)) (list_of (carrier 3)) in
    list_add_before m3 (list_of (carrier 3)) (list_of (carrier 4))

-- The loops of the tests along the links `link`: each carrier has the next of the letters. In the
-- end the loop has to be at the first carrier again.
abbrev laps : (link : ℕ → ℕ) → List ℕ → (current : ℕ) → Bool
laps link [] current = content current == content (carrier 0)
laps link (letter ∷ letters) current =
    (content current == letter) && laps link letters (list_entry (link (list_of current)))

unfoldable pub test_init : Bool
unfolding list_head_init
test_init =
    let m = list_head_init empty 4096 in (m.next 4096 == m.prev 4096) && (m.next 4096 == 4096)

unfoldable pub test_container_of : Bool
test_container_of =
    let marker = list_of (carrier 0) in
    let got_carrier = list_entry marker in got_carrier == carrier 0

unfoldable pub test_add : Bool
unfolding five_after
test_add = laps five_after.next (65 ∷ 66 ∷ 67 ∷ 68 ∷ 69 ∷ []) (carrier 0)

unfoldable pub test_add_before : Bool
unfolding five_before
test_add_before = laps five_before.prev (65 ∷ 66 ∷ 67 ∷ 68 ∷ 69 ∷ []) (carrier 0)

unfoldable pub test_remove_at : Bool
unfolding five_after list_remove_at
test_remove_at =
    let current = carrier 0 in
    let b = list_entry (five_after.next (list_of current)) in
    let m = list_remove_at five_after (list_of b) in
    (content current == 65) && laps m.next (65 ∷ 67 ∷ 68 ∷ 69 ∷ []) current

-- What an iterator test makes of its loop.
abbrev passed : Loop ℕ Bool → Bool
passed (finished i) = true
passed (left result) = result
passed out_of_fuel = false

unfoldable pub test_iterator_forward : Bool
unfolding five_after list_for_each for_each
test_iterator_forward =
    let body : ℕ → ℕ → Round ℕ Bool = λ current i.
      (if ltb 4 i
        then leave false
        else (if content (list_entry current) == content (carrier i)
            then go_on (i + 1)
            else leave false)) in
    passed (list_for_each five_after (list_of (carrier 0)) body 9 1)

unfoldable pub test_iterator_backward : Bool
unfolding five_after list_for_each_backward for_each
test_iterator_backward =
    let body : ℕ → ℕ → Round ℕ Bool = λ current i.
      (if ltb i 1
        then leave false
        else (if content (list_entry current) == content (carrier i)
            then go_on (i - 1)
            else leave false)) in
    passed (list_for_each_backward five_after (list_of (carrier 0)) body 9 4)

-- `list_tests` and its suite
unfoldable pub list_tests : List Bool
list_tests =
    test_init ∷ test_container_of ∷ test_add ∷ test_add_before ∷ test_remove_at
    ∷ test_iterator_forward ∷ test_iterator_backward ∷ []
