-- ===== src/Tests/Programs.antt =====
-- The lock with several callers, and the example programs' own functions.
use memthing.Callers.{
  spin, call, stay, then_, State, Steps, holding, idle, move, spinning, try_lock,
}
use memthing.Base.{[], arith, pos, refl, ℕ, ◌%◌, ◌+◌, ◌∷◌, ◌≡◌, ◌≤◌}
use memthing.Callers.Exclusion.{Steps-holding, existing-holding, idle≢holding}
use memthing.Fmem.{atomic_compare_swap, fmem_from_existing, range}
use memthing.Heap.Lock.{with_lock}
use memthing.LinkedList.{list_add_before, list_head_init}
use memthing.LinkedList.Insert.{list_add_before-head, list_head_init-Ring}
use memthing.LinkedList.Ring.{Ring}
use memthing.Memory.{update}
use memthing.Page.{fail_on_poison_check, fpage_get_magic, plain, poison}
use memthing.Tests.Lists.{zeros}
use memthing.Things.{Store, done, verify_loop}
use memthing.Things.Verify.{verify_loop-agrees}
use memthing.ThingsMemPersisted.{align_addr}
use memthing.ThingsMemPersisted.Align.{align_addr-covers}

-- The caller 1 holds the lock of the object at 120, and the caller 2 spins.
abbrev contended : State
contended = record {
  memory = with_lock 1 zeros 120;
  phase = move (move (λ t. idle) 1 holding) 2 spinning;
}

-- Nobody holds the lock; the caller 1 asks for it.
abbrev quiet : State
quiet = record { memory = zeros; phase = λ t. idle }

abbrev asked : State
asked = record quiet { phase = move quiet.phase 1 spinning }

steps : Steps 120 quiet (try_lock 120 1 asked)
steps = then_ (then_ stay (call 1 refl)) (spin 1 refl)

got : (try_lock 120 1 asked).phase 1 ≡ holding
unfolding try_lock atomic_compare_swap
got = refl

Steps-holding_example : ◌≡◌ {A = ℕ} 1 1
Steps-holding_example =
    Steps-holding 120 quiet (try_lock 120 1 asked) 1 1 refl (λ v e. idle≢holding e) steps got got

passes : fail_on_poison_check plain (fpage_get_magic contended.memory 96) poison ≡ pos 0
unfolding fail_on_poison_check
passes = refl

existing-holding_example :
    let opened = record contended { memory = (fmem_from_existing plain contended.memory 96 0).1 } in
    let after = try_lock 120 2 opened in (after.phase 1 ≡ holding) × (after.phase 2 ≡ holding)
existing-holding_example =
    existing-holding plain 96 0 contended 1 2 (omega arith) passes (omega arith) refl refl

-- Two things with other letters than the well-known ones.
abbrev letters : Store
letters = record {
  memory = list_add_before (list_add_before (list_head_init zeros 10) 10 20) 10 30;
  count = λ p. 0;
  value = update (λ p. 90) 20 33;
}

letters-Ring : Ring letters.memory 10 (20 ∷ 30 ∷ [])
letters-Ring =
    list_add_before-head (list_add_before (list_head_init zeros 10) 10 20) 10 30 (20 ∷ [])
      (list_add_before-head (list_head_init zeros 10) 10 20 [] (list_head_init-Ring zeros 10)
        (omega arith, tt))
      (omega arith, (omega arith, tt))

verify_loop-agrees_example : verify_loop 3 letters 10 ≡ done (pos 0)
verify_loop-agrees_example =
    verify_loop-agrees 3 letters 10 (20 ∷ 30 ∷ []) letters-Ring (omega arith)

align_addr-covers_example :
    let a = align_addr 4096 8192 (range 12300 24) in
    (a.start % 4096 ≡ 0) × (8192 ≤ a.start) × (a.start ≤ 12300) × (a.start + a.len ≡ 12324)
align_addr-covers_example =
    align_addr-covers 4096 8192 (range 12300 24) (omega arith) refl (omega arith) (omega arith)

aligned : align_addr 4096 8192 (range 12300 24) ≡ range 12288 36
unfolding align_addr
aligned = refl
