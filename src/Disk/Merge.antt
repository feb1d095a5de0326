-- ===== src/Disk/Merge.antt =====
-- What `fpage_merge` leaves of the pages that it does not join.
use memthing.Base.{arith, inl, inr, refl, sym, ℕ, ◌+◌, ◌≡◌, ◌≢◌, ◌⊎◌}
use native.Mathlib.Decide.{ℕ_discrete}
use memthing.Disk.{Kept}
use memthing.LinkedList.{list_remove_at}
use memthing.Memory.{Memory, set_size}

-- The node `c` behind the page at `p` is taken out, and the page gets a new size.
module _ (m : Memory) (p n c : ℕ) (before : m.prev c ≡ p + 8) where
  abbrev pub two : Memory
  two = list_remove_at (set_size m p n) c

  two-prev : (x : ℕ) → (two.prev x ≡ m.prev x) ⊎ (x ≡ m.next c)
  unfolding list_remove_at
  two-prev x = elim (ℕ_discrete (m.next c) x) [
    | yes e ↦ inr (sym e)
    | no ne ↦ inl (ground (arith, ne))
  ]

  pub two-Kept : (x : ℕ) → x ≢ p → Kept m two (m.next c) x
  unfolding list_remove_at
  two-Kept x ne = (ground (arith, ne), refl, ground (arith, ne, before), two-prev (x + 8))

  pub two-next : c ≢ p + 8 → (two.next c ≡ m.next c) × (two.next (p + 8) ≡ m.next c)
  unfolding list_remove_at
  two-next ne = (ground (arith, ne, before), ground (arith, ne, before))

-- The node `c` behind the page at `p` and the node `d` behind `c` are taken out.
module _ (m : Memory) (p n c d : ℕ) (before : m.prev c ≡ p + 8) (between : m.prev d ≡ c)
    (apart : c ≢ p + 8) (apart' : m.next d ≢ c) where
  abbrev pub three : Memory
  three = list_remove_at (list_remove_at (set_size m p n) d) c

  three-prev : (x : ℕ) → (three.prev x ≡ m.prev x) ⊎ (x ≡ m.next d)
  unfolding list_remove_at
  three-prev x = elim (ℕ_discrete (m.next d) x) [
    | yes e ↦ inr (sym e)
    | no ne ↦ inl (ground (arith, ne, between))
  ]

  pub three-Kept : (x : ℕ) → x ≢ p → x + 8 ≢ c → Kept m three (m.next d) x
  unfolding list_remove_at
  three-Kept x ne ne' = (
    ground (arith, ne),
    refl,
    ground (arith, ne, ne', before, between, apart, apart'),
    three-prev (x + 8),
  )

  pub three-next : three.next c ≡ m.next d
  unfolding list_remove_at
  three-next = ground (arith, before, between, apart, apart')
