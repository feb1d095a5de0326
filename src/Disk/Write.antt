-- ===== src/Disk/Write.antt =====
-- What is on a store after ranges were written.
use memthing.Base.{
  Bool, List, ap, arith, false, if◌then◌else◌, inl, inr, is_negative, ne→==, refl, sym, true, ℕ, ℤ,
  ◌+◌, ◌∙◌, ◌≡◌, ◌≢◌, ◌⊎◌,
}
use memthing.Disk.{IsSaving, SavedAt, covers, write, first}
use memthing.Fmem.{CommitRange, Committers, commit}
use memthing.Memory.{Memory, null}

module _ (rs : List CommitRange) (m store : Memory) (q : ℕ) where
  -- A field that the store had already, or that lies in the ranges, is on the store afterwards.
  write-size :
      (store.size q ≡ m.size q) ⊎ (covers rs (q + 4) 4 ≡ true)
      → (write rs m store).size q ≡ m.size q
  unfolding write
  write-size h = ground (arith, h)

  write-flags :
      (store.flags q ≡ m.flags q) ⊎ (covers rs q 4 ≡ true) → (write rs m store).flags q ≡ m.flags q
  unfolding write
  write-flags h = ground (arith, h)

  write-next :
      (store.next q ≡ m.next q) ⊎ (covers rs q 8 ≡ true) → (write rs m store).next q ≡ m.next q
  unfolding write
  write-next h = ground (arith, h)

  write-prev :
      (store.prev q ≡ m.prev q) ⊎ (covers rs (q + 8) 8 ≡ true)
      → (write rs m store).prev q ≡ m.prev q
  unfolding write
  write-prev h = ground (arith, h)

-- A header that one of the ranges holds is saved.
pub write-SavedAt :
    (rs : List CommitRange) (m store : Memory) (q : ℕ)
    → covers rs q 4 ≡ true
    → covers rs (q + 4) 4 ≡ true
    → covers rs (q + 8) 8 ≡ true
    → covers rs (q + 8 + 8) 8 ≡ true
    → SavedAt m (write rs m store) q
write-SavedAt rs m store q a b c d = (
  write-size rs m store q (inr b),
  write-flags rs m store q (inr a),
  write-next rs m store (q + 8) (inr c),
  write-prev rs m store (q + 8) (inr d),
)

-- A header that was saved, and of which only what lies in the ranges has changed, is saved.
pub write-SavedAt_same :
    (rs : List CommitRange) (m m' store : Memory) (q : ℕ)
    → (m'.size q ≡ m.size q)
    → (m'.flags q ≡ m.flags q)
    → (m'.next (q + 8) ≡ m.next (q + 8)) ⊎ (covers rs (q + 8) 8 ≡ true)
    → (m'.prev (q + 8) ≡ m.prev (q + 8)) ⊎ (covers rs (q + 8 + 8) 8 ≡ true)
    → SavedAt m store q
    → SavedAt m' (write rs m' store) q
write-SavedAt_same rs m m' store q size flags next prev h = (
  write-size rs m' store q (inl (h.0 ∙ sym size)),
  write-flags rs m' store q (inl (h.1 ∙ sym flags)),
  write-next rs m' store (q + 8) (or_covered h.2 next),
  write-prev rs m' store (q + 8) (or_covered h.3 prev),
)
  where
    or_covered : {a b c : ℕ} {f : Bool} → a ≡ b → (c ≡ b) ⊎ (f ≡ true) → (a ≡ c) ⊎ (f ≡ true)
    or_covered e (inl d) = inl (e ∙ sym d)
    or_covered e (inr d) = inr d

module _ {W : Type 0} (committers : Committers W) (m : Memory) (w : W) (fm : ℕ)
    (ranges : List CommitRange) (count : ℕ) where
  abbrev called : ℤ × W × List CommitRange
  called = committers (m.fmem fm).committer ranges count m w

  commit-called :
      (m.fmem fm).committer ≢ null
      → commit committers m w fm ranges count
        ≡ (if is_negative called.0 then false else true, called.1)
  unfolding commit
  commit-called set = rw (ne→== (m.fmem fm).committer null set) refl

  -- A commit that succeeds through a committer has written its ranges.
  pub commit-write :
      (disk : W → Memory)
      → IsSaving committers disk
      → (m.fmem fm).committer ≢ null
      → (commit committers m w fm ranges count).0 ≡ true
      → disk (commit committers m w fm ranges count).1 ≡ write (first count ranges) m (disk w)
  commit-write disk saving set ok =
      let e = commit-called set in
      ap (λ r. disk r.1) e
      ∙ saving.saves (m.fmem fm).committer ranges count m w
          (not_negative (is_negative called.0) (sym (ap (λ r. r.0) e) ∙ ok))
    where
      not_negative : (f : Bool) → (if f then false else true) ≡ true → f ≡ false
      not_negative true h = absurd (cc)
      not_negative false h = refl
