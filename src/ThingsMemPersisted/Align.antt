-- ===== src/ThingsMemPersisted/Align.antt =====
-- The ranges that `the_committer` writes.
use memthing.Base.{
  Bool-cases, ap, arith, inl, inr, ltb, ltb→le, ℕ, ◌%◌, ◌*◌, ◌+◌, ◌-◌, ◌/◌, ◌<◌, ◌^◌, ◌∙◌, ◌≡◌, ◌≤◌,
}
use memthing.Fmem.{CommitRange}
use memthing.ThingsMemPersisted.{align_addr}
use native.Mathlib.Nat.{zero-mod, div-add-mod, add-mul-mod_self_left, mod-le}

-- Rounding down gives a multiple of the page size.
round_down-mod : (n p : ℕ) → (n - n % p) % p ≡ 0
round_down-mod n p =
    let e : n - n % p ≡ 0 + p * (n / p) = omega (arith, div-add-mod n p) in
    ap (λ k. k % p) e ∙ add-mul-mod_self_left 0 p (n / p) ∙ zero-mod p

-- For a page size that is not 0 and divides the address of the mapped memory, and a range that
-- begins in the mapped memory and ends within the address space, the aligned range begins at the
-- start of a page, not before the mapped memory nor behind the range, and ends where it ended.
pub align_addr-covers :
    (page_size map_to : ℕ) (r : CommitRange)
    → 0 < page_size
    → map_to % page_size ≡ 0
    → map_to ≤ r.start
    → r.start + r.len < 2 ^ 64
    → let a = align_addr page_size map_to r in
      (a.start % page_size ≡ 0)
      × (map_to ≤ a.start)
      × (a.start ≤ r.start)
      × (a.start + a.len ≡ r.start + r.len)
unfolding align_addr
align_addr-covers page_size map_to r page aligned inside high =
    let down = round_down-mod r.start page_size in
    let below = mod-le r.start page_size in
    elim (Bool-cases (ltb (r.start - r.start % page_size) map_to)) [
      | inl e ↦ rw e (aligned, omega arith, inside, omega arith)
      | inr e ↦
          rw e (
            down,
            ltb→le (r.start - r.start % page_size) map_to e,
            omega arith,
            omega (arith, below),
          )
    ]
