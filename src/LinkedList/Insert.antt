-- ===== src/LinkedList/Insert.antt =====
-- `list_head_init`, `list_add_after` and `list_add_before` on rings.
use memthing.Base.{
  ℕ, ◌≡◌, ◌≢◌, sym, inl, inr, fun_ext, subst, List, [], ◌∷◌, ◌++◌, arith, Fresh, All-append_right,
  append_assoc, snoc_cases,
}
use memthing.Memory.{Memory, set_next, set_prev, update}
use memthing.LinkedList.{list_head_init, list_add_after, list_add_before}
use memthing.LinkedList.Ring.{
  Seg-split, Seg, Ring, Seg-set_next, Seg-set_prev, Ring-rotate, Fresh-rotate,
}

-- `list_head_init` makes the ring with no node but the head, whatever the memory held before.
pub list_head_init-Ring : (m : Memory) (l : ℕ) → Ring (list_head_init m l) l []
unfolding list_head_init
list_head_init-Ring m l = record { links = ground arith; distinct = (tt, tt) }

-- Behind the head.
add_after_head :
    (m : Memory) (h n : ℕ) (xs : List ℕ)
    → Ring m h xs
    → Fresh n (h ∷ xs)
    → Ring (list_add_after m h n) h (n ∷ xs)
unfolding list_add_after
add_after_head m h n [] r f = record {
  links = ground (arith, r.links);
  distinct = ((λ e. f.0 (sym e), tt), (tt, tt));
}
add_after_head m h n (x ∷ xs) r f =
    let apart = r.distinct.0 in
    let links = r.links in
    let s1 = Seg-set_prev m x n x xs h (λ e. apart.0 (sym e)) r.distinct.1.0 links.2 in
    let m1 = set_prev m x n in
    let s2 = Seg-set_next m1 n x x xs h f.1.0 f.1.1 s1 in
    let m2 = set_next m1 n x in
    let s3 = Seg-set_prev m2 n h x xs h f.0 f.1.1 s2 in
    let m3 = set_prev m2 n h in
    let s4 = Seg-set_next m3 h n x xs h apart.0 apart.1 s3 in
    record {
      links =
          subst
            (λ y.
              Seg (set_next (set_prev (set_next (set_prev m y n) n y) n h) h n) h (n ∷ x ∷ xs) h)
            (sym links.0) (ground arith, ground arith, (ground arith, ground arith, s4));
      distinct = ((λ e. f.0 (sym e), apart), (f.1, r.distinct.1));
    }

-- Behind the head of the ring.
pub list_add_after-head :
    (m : Memory) (h n : ℕ) (xs : List ℕ)
    → Ring m h xs
    → Fresh n (h ∷ xs)
    → Ring (list_add_after m h n) h (n ∷ xs)
list_add_after-head = add_after_head

-- `list_add_after` of a node that is not in a ring, at a node of the ring other than the head, leaves
-- a ring in which it stands right behind that node and the others keep their order.
pub list_add_after-Ring :
    (m : Memory) (h : ℕ) (xs : List ℕ) (c : ℕ) (ys : List ℕ) (n : ℕ)
    → Ring m h (xs ++ c ∷ ys)
    → Fresh n (h ∷ xs ++ c ∷ ys)
    → Ring (list_add_after m c n) h (xs ++ c ∷ n ∷ ys)
list_add_after-Ring m h xs c ys n r f =
    Ring-rotate c (n ∷ ys) h xs
      (add_after_head m c n (ys ++ h ∷ xs) (Ring-rotate h xs c ys r) (Fresh-rotate n h xs c ys f))

-- Where `p` and `c` are neighbours and the new node is apart, adding before `c` is adding after
-- `p`: the writes differ only in their order.
pub list_add_before-eq :
    (m : Memory) (p c n : ℕ)
    → m.next p ≡ c
    → m.prev c ≡ p
    → n ≢ c
    → n ≢ p
    → list_add_before m c n ≡ list_add_after m p n
unfolding list_add_before list_add_after
list_add_before-eq m p c n e d ne_c ne_p =
    let nexts = fun_ext λ a. same_next a in
    let prevs = fun_ext λ a. same_prev a in λ i. record m { next = nexts i; prev = prevs i }
  where
    same_next :
        (a : ℕ)
        → update (update m.next n c) (m.prev c) n a ≡ update (update m.next n (m.next p)) p n a
    same_next a = ground arith

    same_prev :
        (a : ℕ)
        → update (update m.prev n (m.prev c)) c n a ≡ update (update m.prev (m.next p) n) n p a
    same_prev a = ground arith

-- The node before `b` at the end of a segment.
Seg-last :
    (m : Memory) (a : ℕ) (xs : List ℕ) (l b : ℕ)
    → Seg m a (xs ++ l ∷ []) b
    → (m.next l ≡ b) × (m.prev b ≡ l)
Seg-last m a xs l b s = (Seg-split m a xs l [] b s).1

before_lone :
    (m : Memory) (h n : ℕ)
    → Ring m h []
    → Fresh n (h ∷ [])
    → Ring (list_add_before m h n) h (n ∷ [])
before_lone m h n r f =
    subst (λ m'. Ring m' h (n ∷ [])) (sym (list_add_before-eq m h h n r.links.0 r.links.1 f.0 f.0))
      (add_after_head m h n [] r f)

before_last :
    (m : Memory) (h n : ℕ) (ys : List ℕ) (l : ℕ)
    → Ring m h (ys ++ l ∷ [])
    → Fresh n (h ∷ ys ++ l ∷ [])
    → Ring (list_add_before m h n) h ((ys ++ l ∷ []) ++ n ∷ [])
before_last m h n ys l r f =
    let (to, from) = Seg-last m h ys l h r.links in
    let apart = All-append_right (λ y. n ≢ y) ys (l ∷ []) f.1 in
    subst (λ m'. Ring m' h ((ys ++ l ∷ []) ++ n ∷ []))
      (sym (list_add_before-eq m l h n to from f.0 apart.0))
      (rw append_assoc (list_add_after-Ring m h ys l [] n r f))

-- Before the head is behind the last node.
pub list_add_before-head :
    (m : Memory) (h n : ℕ) (xs : List ℕ)
    → Ring m h xs
    → Fresh n (h ∷ xs)
    → Ring (list_add_before m h n) h (xs ++ n ∷ [])
list_add_before-head m h n xs r f = elim (snoc_cases xs) [
  | inl e ↦ rw e (before_lone m h n (rw e at r) (rw e at f))
  | inr (ys, l, e) ↦ rw e (before_last m h n ys l (rw e at r) (rw e at f))
]

-- `list_add_before` of a node that is not in a ring, at a node of the ring other than the head,
-- leaves a ring in which it stands right before that node and the others keep their order.
pub list_add_before-Ring :
    (m : Memory) (h : ℕ) (xs : List ℕ) (c : ℕ) (ys : List ℕ) (n : ℕ)
    → Ring m h (xs ++ c ∷ ys)
    → Fresh n (h ∷ xs ++ c ∷ ys)
    → Ring (list_add_before m c n) h (xs ++ n ∷ c ∷ ys)
list_add_before-Ring m h xs c ys n r f =
    subst (Ring (list_add_before m c n) h) (append_assoc xs (n ∷ []) (c ∷ ys)) (
      Ring-rotate c ys h (xs ++ n ∷ []) (
        subst (Ring (list_add_before m c n) c) (append_assoc ys (h ∷ xs) (n ∷ [])) (
          list_add_before-head m c n (ys ++ h ∷ xs) (Ring-rotate h xs c ys r)
            (Fresh-rotate n h xs c ys f))))
