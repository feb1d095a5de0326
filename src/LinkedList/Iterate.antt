-- ===== src/LinkedList/Iterate.antt =====
-- The loops `list_for_each` and `list_for_each_backward` on rings.
use memthing.Base.{
  All-append, Fresh, List, [], ap, arith, fun_ext, length, length-append, refl, suc, sym, zero, ℕ,
  ◌++◌, ◌<◌, ◌∙◌, ◌∷◌, ◌≡◌, ◌≢◌,
}
use memthing.LinkedList.{
  Loop, Round, after, finished, for_each, list_for_each, list_for_each_backward,
}
use memthing.LinkedList.Ring.{Ring, Seg, Seg-append}
use memthing.Memory.{Memory}

-- The nodes from the last to the first.
abbrev pub backward : List ℕ → List ℕ
backward [] = []
backward (x ∷ xs) = backward xs ++ x ∷ []

-- A memory whose links are turned round.
abbrev mirror : Memory → Memory
mirror m = record m { next = m.prev; prev = m.next }

Seg-mirror :
    (m : Memory) (a : ℕ) (xs : List ℕ) (b : ℕ) → Seg m a xs b → Seg (mirror m) b (backward xs) a
Seg-mirror m a [] b g = (g.1, g.0)
Seg-mirror m a (x ∷ xs) b g =
    Seg-append (mirror m) b (backward xs) x [] a (Seg-mirror m x xs b g.2) (g.1, g.0)

Fresh-backward : (n : ℕ) (xs : List ℕ) → Fresh n xs → Fresh n (backward xs)
Fresh-backward n [] f = tt
Fresh-backward n (x ∷ xs) f =
    All-append (λ y. n ≢ y) (backward xs) (x ∷ []) (Fresh-backward n xs f.1) (f.0, tt)

length-backward : (xs : List ℕ) → length (backward xs) ≡ length xs
length-backward [] = refl
length-backward (x ∷ xs) = omega (arith, length-append (backward xs) (x ∷ []), length-backward xs)

module _ {S R : Type 0} (body : ℕ → S → Round S R) where
  -- The loop's body at each node of a list, until it leaves.
  abbrev pub walk : List ℕ → S → Loop S R
  walk [] s = finished s
  walk (x ∷ xs) s = after (body x s) λ t. walk xs t

  module _ (step : ℕ → ℕ) (h : ℕ) (fuel : ℕ) (pos : ℕ) (s : S) where
    for_each-end : pos ≡ h → for_each step h body (suc fuel) pos s ≡ finished s
    unfolding for_each
    for_each-end e = ground arith

    for_each-round :
        pos ≢ h
        → for_each step h body (suc fuel) pos s
          ≡ after (body pos s) (λ t. for_each step h body fuel (step pos) t)
    unfolding for_each
    for_each-round ne = ground arith

  for_each-walk :
      (m : Memory) (h a : ℕ) (xs : List ℕ) (fuel : ℕ) (s : S)
      → Seg m a xs h
      → Fresh h xs
      → length xs < fuel
      → for_each m.next h body fuel (m.next a) s ≡ walk xs s
  for_each-walk m h a [] zero s g f le = absurd (omega arith)
  for_each-walk m h a (x ∷ xs) zero s g f le = absurd (omega arith)
  for_each-walk m h a [] (suc fuel) s g f le = for_each-end m.next h fuel (m.next a) s g.0
  for_each-walk m h a (x ∷ xs) (suc fuel) s g f le = rw (g.0) (
      for_each-round m.next h fuel x s (λ e. f.0 (sym e))
      ∙ ap (after (body x s)) (fun_ext λ t. for_each-walk m h x xs fuel t g.2 f.1 (omega arith)))

  -- Given more fuel than the ring has nodes, `list_for_each` visits each node of the ring but the
  -- head, once and in order, until the body leaves the loop.
  pub list_for_each-walk :
      (m : Memory) (h : ℕ) (xs : List ℕ) (fuel : ℕ) (s : S)
      → Ring m h xs
      → length xs < fuel
      → list_for_each m h body fuel s ≡ walk xs s
  unfolding list_for_each
  list_for_each-walk m h xs fuel s r le = for_each-walk m h h xs fuel s r.links r.distinct.0 le

  -- Given more fuel than the ring has nodes, `list_for_each_backward` visits each node of the ring
  -- but the head, once and in the opposite order, until the body leaves the loop.
  pub list_for_each_backward-walk :
      (m : Memory) (h : ℕ) (xs : List ℕ) (fuel : ℕ) (s : S)
      → Ring m h xs
      → length xs < fuel
      → list_for_each_backward m h body fuel s ≡ walk (backward xs) s
  unfolding list_for_each_backward
  list_for_each_backward-walk m h xs fuel s r le =
      for_each-walk (mirror m) h h (backward xs) fuel s (Seg-mirror m h xs h r.links)
        (Fresh-backward h xs r.distinct.0) (omega (arith, length-backward xs))
