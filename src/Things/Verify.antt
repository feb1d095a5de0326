-- ===== src/Things/Verify.antt =====
-- `verify_things` compares the list that it is given with itself.
use memthing.Base.{List, [], ap, arith, length, pos, refl, ℕ, ◌<◌, ◌∙◌, ◌∷◌, ◌≡◌}
use memthing.LinkedList.{finished, go_on}
use memthing.LinkedList.Iterate.{list_for_each-walk, walk}
use memthing.LinkedList.Ring.{Ring, Seg}
use memthing.Things.{Store, done, verify_loop, verify_result, verify_round}

verify_round_self : (s : Store) (x : ℕ) → verify_round s x x ≡ go_on (s.memory.next x)
unfolding verify_round
verify_round_self s x = ground arith

verify_walk :
    (s : Store) (a : ℕ) (xs : List ℕ) (h : ℕ)
    → Seg s.memory a xs h
    → (to : ℕ) × (walk (verify_round s) xs (s.memory.next a) ≡ finished to)
verify_walk s a [] h g = (s.memory.next a, refl)
verify_walk s a (x ∷ xs) h g =
    let (to, e) = verify_walk s x xs h g.2 in (to, rw (g.0, verify_round_self s x) e)

-- On any ring of things, with more fuel than things, the loop that compares the letters finds no
-- difference, whatever their values are: it compares the list with itself.
pub verify_loop-agrees :
    (fuel : ℕ) (s : Store) (what : ℕ) (xs : List ℕ)
    → Ring s.memory what xs
    → length xs < fuel
    → verify_loop fuel s what ≡ done (pos 0)
unfolding verify_loop
verify_loop-agrees fuel s what xs ring enough =
    let (to, e) = verify_walk s what xs what ring.links in
    ap verify_result (
      list_for_each-walk (verify_round s) s.memory what xs fuel (s.memory.next what) ring enough
      ∙ e)
