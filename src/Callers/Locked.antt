-- ===== src/Callers/Locked.antt =====
-- `fmem_alloc` and `fmem_free` are the lock and what follows it, which keeps the object's `min_alloc`.
use memthing.Fmem.{
  Found, Committers, adjusted_alloc, alloc_done, alloc_failed, alloc_found, alloc_round, as_is,
  corrupt, fmem_alloc, fmem_free, fmem_unlock, give_page, take_page, to_carve,
}
use memthing.Base.{
  ℤ, is_nonzero, negsuc, zero, suc, ◌≢◌, Bool, Bool-cases, Option, ap, false, inl, inr, ltb, none,
  pos, refl, some, subst, to_ptr, true, ℕ, ◌<◌, ◌∙◌, ◌≡◌,
}
use memthing.Callers.Turns.{locked_alloc, locked_free}
use memthing.Heap.Carve.{fpage_carve-fmem}
use memthing.Heap.GiveBack.{give_page-fixed}
use memthing.Heap.Lock.{fmem-set_fmem, fmem_lock-free, with_lock}
use memthing.Heap.Take.{take_page-fixed}
use memthing.LinkedList.{Loop, finished, left, list_for_each, out_of_fuel}
use memthing.Memory.{Memory, list_of, null}
use memthing.Page.{
  Build, fail_on_poison_check, fpage_carve, fpage_from_mem, fpage_get_magic, poison,
}

module _ {W : Type 0} (committers : Committers W) (build : Build) (m : Memory) (w : W)
    (fm : ℕ) where
  pub fmem_alloc-locked :
      (fuel size : ℕ)
      → 0 < fuel
      → (m.fmem fm).lock ≡ 0
      → fmem_alloc committers build fuel m w fm size
        ≡ locked_alloc committers build fuel (with_lock 1 m fm) w fm (adjusted_alloc m fm size)
  unfolding fmem_alloc locked_alloc
  fmem_alloc-locked fuel size lt unlocked = rw (fmem_lock-free fuel m fm lt unlocked) refl

  pub fmem_free-locked :
      (fuel mem : ℕ)
      → 0 < fuel
      → (m.fmem fm).lock ≡ 0
      → fail_on_poison_check build (fpage_get_magic m (fpage_from_mem mem)) poison ≡ pos 0
      → fmem_free committers build fuel m w fm mem
        ≡ some (locked_free committers (with_lock 1 m fm) w fm mem)
  unfolding fmem_free locked_free
  fmem_free-locked fuel mem lt unlocked passes =
      rw (passes, fmem_lock-free fuel m fm lt unlocked) refl

nonzero : (r : ℤ) → r ≢ pos 0 → is_nonzero r ≡ true
nonzero (pos zero) ne = absurd (ne refl)
nonzero (pos (suc n)) ne = refl
nonzero (negsuc n) ne = refl

-- Where the check fails, `fmem_free` does nothing.
pub fmem_free-refused :
    {W : Type 0} (committers : Committers W) (build : Build) (fuel : ℕ) (m : Memory) (w : W)
    (fm mem : ℕ)
    → let check = fail_on_poison_check build (fpage_get_magic m (fpage_from_mem mem)) poison in
      check ≢ pos 0 → fmem_free committers build fuel m w fm mem ≡ some (check, m, w)
unfolding fmem_free
fmem_free-refused committers build fuel m w fm mem fails =
    rw (nonzero (fail_on_poison_check build (fpage_get_magic m (fpage_from_mem mem)) poison) fails)
      refl

-- The object's `min_alloc` in a memory.
abbrev least : Memory → ℕ → ℕ
least m fm = (m.fmem fm).min_alloc

unlock-least : (m : Memory) (fm : ℕ) → least (fmem_unlock m fm) fm ≡ least m fm
unfolding fmem_unlock
unlock-least m fm = ap (λ f. f.min_alloc) (fmem-set_fmem m fm (record (m.fmem fm) { lock = 0 }))

module _ {W : Type 0} (committers : Committers W) (build : Build) where
  -- A run that returns keeps it.
  abbrev Keeps : (fm k : ℕ) → Option (ℕ × Memory × W) → Type 0
  Keeps fm k none = Unit
  Keeps fm k (some (r, m, w)) = least m fm ≡ k

  done-Keeps :
      (m : Memory) (w : W) (fm selected : ℕ) (carved : Bool)
      → Keeps fm (least m fm) (some (alloc_done committers build m w fm selected carved))
  unfolding alloc_done
  done-Keeps m w fm selected carved =
      unlock-least (take_page build m fm selected) fm ∙ (take_page-fixed build m fm selected).1

  failed-Keeps :
      (m : Memory) (w : W) (fm ret : ℕ)
      → Keeps fm (least m fm) (some (alloc_failed committers m w fm ret))
  unfolding alloc_failed
  failed-Keeps m w fm ret = unlock-least m fm

  found-Keeps :
      (m : Memory) (w : W) (fm adjusted : ℕ) (loop : Loop (Unit {0}) Found)
      → Keeps fm (least m fm) (alloc_found committers build m w fm adjusted loop)
  unfolding alloc_found
  found-Keeps m w fm adjusted (finished s) = failed-Keeps m w fm null
  found-Keeps m w fm adjusted (left (corrupt check)) = failed-Keeps m w fm (to_ptr check)
  found-Keeps m w fm adjusted (left (as_is p)) = done-Keeps m w fm p false
  found-Keeps m w fm adjusted (left (to_carve p)) =
      let (m', created) = fpage_carve m p adjusted in
      done-Keeps m' w fm created true ∙ ap (λ f. f.min_alloc) (fpage_carve-fmem m p adjusted fm)
  found-Keeps m w fm adjusted out_of_fuel = tt

  pub locked_alloc-least :
      (fuel : ℕ) (m : Memory) (w : W) (fm adjusted r : ℕ) (m' : Memory) (w' : W)
      → locked_alloc committers build fuel m w fm adjusted ≡ some (r, m', w')
      → least m' fm ≡ least m fm
  unfolding locked_alloc
  locked_alloc-least fuel m w fm adjusted r m' w' run = subst (Keeps fm (least m fm)) run keeps
    where
      keeps : Keeps fm (least m fm) (locked_alloc committers build fuel m w fm adjusted)
      keeps = elim (Bool-cases (ltb (m.fmem fm).total_available adjusted)) [
        | inl e ↦ rw e (failed-Keeps m w fm null)
        | inr e ↦ rw e (
            found-Keeps m w fm adjusted (
              list_for_each m (list_of (fpage_from_mem fm)) (alloc_round build m adjusted) fuel tt))
      ]

  pub locked_free-least :
      (m : Memory) (w : W) (fm mem : ℕ)
      → least (locked_free committers m w fm mem).1 fm ≡ least m fm
  unfolding locked_free
  locked_free-least m w fm mem =
      unlock-least (give_page m fm (fpage_from_mem mem)).0 fm
      ∙ (give_page-fixed m fm (fpage_from_mem mem)).1
