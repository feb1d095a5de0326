-- ===== src/Things.antt =====
-- things.h: a list of letters that the example programs make, keep and compare.
pub mod Verify
pub mod Make
pub mod Put
pub mod Wellknown
pub mod Agrees
use memthing.Base.{
  Option, if◌then◌else◌, leb_zero, negsuc, none, pos, some, suc, zero, ℕ, ℤ, ◌%◌, ◌+◌, ◌==◌, ◌^◌,
}
use memthing.LinkedList.{
  Loop, Round, finished, go_on, leave, left, list_add_after, list_for_each, list_head_init,
  out_of_fuel,
}
use memthing.Memory.{Memory, null, set_next, set_prev, update}

-- The memory that the things live in: besides the fields of the lists and of the allocator, the
-- `count` of a `struct things` and the `value` of a `struct thing`, by the structure's address.
pub record Store : Type 0 where
  pub memory : Memory
  pub count : ℕ → ℕ
  pub value : ℕ → ℕ

abbrev pub with_memory : Store → Memory → Store
with_memory s m = record s { memory = m }

-- What a call did: it returned, it ended the process, or its fuel ran out.
pub data Run (A : Type 0) : Type 0 where
  done : A → Run A
  exits : Run A
  spins : Run A

infixl 1 ◌>>=◌
abbrev pub ◌>>=◌ : {A B : Type 0} → Run A → (A → Run B) → Run B
done a >>= f = f a
exits >>= f = exits
spins >>= f = spins

-- `alloc_t` and `oneach_t`
abbrev pub Alloc : Type 0 → Type 0
Alloc W = (size : ℕ) → Store → W → Run (ℕ × Store × W)

abbrev pub Oneach : Type 0 → Type 0
Oneach W = (each len : ℕ) → Store → W → Run W

-- Two pointers and a byte, padded to a multiple of 8; the list is the first field of both.
abbrev pub sizeof_things : ℕ
sizeof_things = 24

abbrev pub sizeof_thing : ℕ
sizeof_thing = 24

-- `memset` of a new `struct things` and of a new `struct thing`
abbrev clear_list : Memory → ℕ → Memory
clear_list m p = set_prev (set_next m p 0) p 0

abbrev clear_things : Store → ℕ → Store
clear_things s p = record s { memory = clear_list s.memory p; count = update s.count p 0 }

abbrev clear_thing : Store → ℕ → Store
clear_thing s p = record s { memory = clear_list s.memory p; value = update s.value p 0 }

module _ {W : Type 0} where
  -- `if(oneach != NULL) oneach(each, len)`
  abbrev pub call_oneach : Option (Oneach W) → (each len : ℕ) → Store → W → Run W
  call_oneach none each len s w = done w
  call_oneach (some oneach) each len s w = oneach each len s w

  -- The loop of `make_wellknown_things`, where `n` letters are left to make: the last that is
  -- made is A. What was allocated, the memory and the world.
  unfoldable pub make_letters :
      Alloc W → Option (Oneach W) → (header n allocated : ℕ) → Store → W → Run (ℤ × Store × W)
  unfolding list_add_after
  make_letters allocator oneach header zero allocated s w = done (pos allocated, s, w)
  make_letters allocator oneach header (suc n) allocated s w = do
    (this_thing, s1, w1) ← allocator sizeof_thing s w
    let s2 = clear_thing s1 this_thing
    let s3 = record s2 {
      value = update s2.value this_thing (64 + suc n);
      memory = list_add_after s2.memory header this_thing;
      count = update s2.count header ((s2.count header + 1) % 2 ^ 8);
    }
    let rest : W → Run (ℤ × Store × W) =
        λ w. make_letters allocator oneach header n (allocated + sizeof_thing) s3 w
    if this_thing == null then done (negsuc 0, s1, w1) else do
      w2 ← call_oneach oneach header sizeof_things s3 w1
      w3 ← call_oneach oneach this_thing sizeof_thing s3 w2
      rest w3

  -- The result, `*where`, the memory and the world.
  unfoldable pub make_wellknown_things :
      (place : ℕ) → Option (Alloc W) → Option (Oneach W) → Store → W → Run (ℤ × ℕ × Store × W)
  make_wellknown_things place none oneach s w = done (negsuc 0, place, s, w)
  make_wellknown_things place (some allocator) oneach s w = do
    (header, s1, w1) ← allocator sizeof_things s w
    let s2 = clear_things s1 header
    let s3 = with_memory s2 (list_head_init s2.memory header)
    if header == null then done (negsuc 0, place, s1, w1) else do
      (allocated, s4, w2) ← make_letters allocator oneach header 26 sizeof_things s3 w1
      done (allocated, header, s4, w2)

-- The body of the loop of `verify_things`, which moves `to_current` along.
unfoldable pub verify_round : Store → (current to_current : ℕ) → Round ℕ ℤ
verify_round s current to_current =
    if s.value current == s.value to_current
    then go_on (s.memory.next to_current)
    else leave (negsuc 0)

-- What `verify_things` returns after its loop.
abbrev pub verify_result : Loop ℕ ℤ → Run ℤ
verify_result (finished to_current) = done (pos 0)
verify_result (left result) = done result
verify_result out_of_fuel = spins

unfoldable pub verify_loop : (fuel : ℕ) → Store → (what : ℕ) → Run ℤ
verify_loop fuel s what =
    verify_result (list_for_each s.memory what (verify_round s) fuel (s.memory.next what))

module _ {W : Type 0} where
  -- `malloc` is a parameter.
  unfoldable pub verify_things :
      (fuel : ℕ) (malloc : Alloc W) (what : ℕ) → Store → W → Run (ℤ × Store × W)
  verify_things fuel malloc what s w = if what == null then done (negsuc 0, s, w) else do
    (made, to, s1, w1) ← make_wellknown_things null (some malloc) none s w
    let compare = verify_loop fuel s1 what
    if leb_zero made
        then done (negsuc 0, s1, w1)
        else (if s1.count to == s1.count what
            then (compare >>= (λ result. done (result, s1, w1)))
            else done (negsuc 0, s1, w1))
