-- ===== src/Callers/Calls.antt =====
-- Calls of `fmem_alloc` and `fmem_free`, one after another, with what each returned.
use memthing.Base.{
  Bool-cases, List, [], if◌then◌else◌, inl, inr, ltb, ltb→le, ltb→lt, some, to_ptr, ℕ, ℤ, ◌++◌, ◌<◌,
  ◌^◌, ◌∷◌, ◌≡◌,
}
use memthing.Callers.Turns.{Ended, allocs, frees, refuses}
use memthing.Fmem.{Committers, e_commit_failed, fmem_alloc, fmem_free}
use memthing.Heap.Invariant.{fmem_at}
use memthing.Memory.{Memory}
use memthing.Page.{Build}
use memthing.Sessions.{Allocation, Session, Step, Steps}

module _ {W : Type 0} (committers : Committers W) (build : Build) (fuel base : ℕ) where
  -- The sessions that the ended calls make, the last of them first in the list.
  pub data Calls (start : Session W) : List Ended → Session W → Type 0 where
    no_calls : Calls start [] start
    then_alloc :
        {es : List Ended} {s : Session W} (t size r : ℕ) (m : Memory) (w : W)
        → Calls start es s
        → size < 2 ^ 32
        → fmem_alloc committers build fuel s.memory s.world (fmem_at base) size ≡ some (r, m, w)
        → Calls start (allocs t size r ∷ es) (record {
          memory = m;
          world = w;
          live =
              if ltb r (to_ptr e_commit_failed)
              then (record { at = r; size = size }) ∷ s.live
              else s.live;
        })
    then_free :
        {es : List Ended} {s : Session W} (t : ℕ) (xs : List Allocation) (a : Allocation)
        (ys : List Allocation) (r : ℤ) (m : Memory) (w : W)
        → Calls start es s
        → s.live ≡ xs ++ a ∷ ys
        → fmem_free committers build fuel s.memory s.world (fmem_at base) a.at ≡ some (r, m, w)
        → Calls start (frees t a r ∷ es) (record { memory = m; world = w; live = xs ++ ys })
    then_refused :
        {es : List Ended} {s : Session W} (t : ℕ) (a : Allocation) (r : ℤ)
        → Calls start es s
        → fmem_free committers build fuel s.memory s.world (fmem_at base) a.at
          ≡ some (r, s.memory, s.world)
        → Calls start (refuses t a r ∷ es) s

  -- They are steps of a session.
  pub Calls-Steps :
      {start s : Session W} (es : List Ended)
      → Calls start es s
      → Steps committers build fuel base start s
  Calls-Steps es Calls.no_calls = Steps.stay
  Calls-Steps {start} _ (Calls.then_alloc {es} {s} t size r m w before lt run) =
      let a : Allocation = record { at = r; size = size } in
      let after = λ (live : List Allocation).
        Steps committers build fuel base start (record { memory = m; world = w; live = live }) in
      elim (Bool-cases (ltb r (to_ptr e_commit_failed))) [
        | inl e ↦ rw e (
            Steps.then_ (Calls-Steps es before)
              (Step.granted size r m w lt run (ltb→lt r (to_ptr e_commit_failed) e)))
        | inr e ↦ rw e (
            Steps.then_ (Calls-Steps es before)
              (Step.refused size r m w lt run (ltb→le r (to_ptr e_commit_failed) e)))
      ]
  Calls-Steps _ (Calls.then_free {es} t xs a ys r m w before live run) =
      Steps.then_ (Calls-Steps es before) (Step.given_back xs a ys r m w live run)
  Calls-Steps _ (Calls.then_refused {es} t a r before run) = Calls-Steps es before
