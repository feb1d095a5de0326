-- ===== src/Callers/Progress.antt =====
-- A caller who waits is kept from the lock only by one whose call ends.
use memthing.Callers.Turns.{free, Request, Shared, alloc, inside, locked_alloc, locked_free}
use memthing.Base.{
  Bool, List, Option, ap, arith, if◌then◌else◌, inl, inr, ltb, none, some, sym, true, ℕ, ◌+◌, ◌^◌,
  ◌∙◌, ◌≡◌, ◌≤◌, ◌⊎◌,
}
use memthing.Blocks.{Block, first_fit}
use memthing.Callers.Behind.{alone_inside, now_sound}
use memthing.Callers.Locked.{fmem_alloc-locked}
use memthing.Callers.Sequential.{IsSerial}
use memthing.Callers.Serial.{locked, swap-free, unlocked}
use memthing.Fmem.{Committers, adjusted_alloc, atomic_compare_swap, fmem_unlock, give_page}
use memthing.Heap.Grant.{Granted}
use memthing.Heap.Invariant.{fmem_at, head_size}
use memthing.Heap.Lock.{fmem-set_fmem, with_lock}
use memthing.Memory.{Memory}
use memthing.Page.{Build, fpage_from_mem}
use memthing.Sessions.{Session}
use memthing.Sessions.Reachable.{alloc-Grants}
use memthing.Sessions.Safety.{IsSound}

-- What a caller does behind the lock ends, and leaves the lock free.
abbrev pub Ends : {W : Type 0} → Committers W → Build → (fuel fm : ℕ) → Shared W → Request → Type 0
Ends {W} committers build fuel fm s (alloc size adjusted) =
    (out : ℕ × Memory × W) × (locked_alloc committers build fuel s.memory s.world fm adjusted
      ≡ some out)
    × ((out.1.fmem fm).lock ≡ 0)
Ends committers build fuel fm s (free a) =
    ((locked_free committers s.memory s.world fm a.at).1.fmem fm).lock ≡ 0

Granted-lock :
    {W : Type 0} (build : Build) (base pointer : ℕ) (spec : Option (ℕ × List Block))
    (bs : List Block) (out : ℕ × Memory × W)
    → Granted build base pointer spec bs out
    → (out.1.fmem (fmem_at base)).lock ≡ 0
Granted-lock build base pointer none bs out (_, heap) = heap.unlocked
Granted-lock build base pointer (some (p, bs')) bs out (_, heap) = heap.unlocked

locked_free-lock :
    {W : Type 0} (committers : Committers W) (m : Memory) (w : W) (fm mem : ℕ)
    → ((locked_free committers m w fm mem).1.fmem fm).lock ≡ 0
unfolding locked_free fmem_unlock
locked_free-lock committers m w fm mem =
    let m1 = (give_page m fm (fpage_from_mem mem)).0 in
    ap (λ f. f.lock) (fmem-set_fmem m1 fm (record (m1.fmem fm) { lock = 0 }))

module _ {W : Type 0} (committers : Committers W) (build : Build) (fuel base bytes : ℕ)
    (enough : 2 ^ 28 ≤ fuel) (start : Session W) (sound : IsSound build base bytes start)
    (s : Shared W) (x : IsSerial committers build fuel base bytes enough start sound s) where
  abbrev fm : ℕ
  fm = fmem_at base

  alloc-Ends :
      (h size adjusted : ℕ)
      → s.stage h ≡ inside (alloc size adjusted)
      → Ends committers build fuel fm s (alloc size adjusted)
  alloc-Ends h size adjusted e =
      let q = x.session in
      let now = now_sound committers build fuel base bytes enough start sound s x in
      let same =
        (alone_inside committers build fuel base bytes enough start sound s x h
          (alloc size adjusted) e).0 in
      let fits = x.asked h (alloc size adjusted) (inr e) in
      let need : adjusted_alloc q.memory fm size ≡ adjusted =
        ap (λ k. if ltb size k then k else size) x.least ∙ sym fits.1 in
      let (out, returns, ends) =
        alloc-Grants committers build fuel base bytes enough q now size fits.0 in
      let pointer = (q.memory.fmem fm).committer in
      let spec = first_fit (adjusted_alloc q.memory fm size) (base + head_size) now.blocks in
      (
        out,
        ap (λ m. locked_alloc committers build fuel m s.world fm adjusted) same
            ∙ ap (λ w. locked_alloc committers build fuel (with_lock 1 q.memory fm) w fm adjusted)
                (sym x.world)
            ∙ ap (locked_alloc committers build fuel (with_lock 1 q.memory fm) q.world fm)
                (sym need)
            ∙ sym (
                fmem_alloc-locked committers build q.memory q.world fm fuel size
                  (omega (arith, enough)) now.heap.unlocked)
            ∙ returns,
        Granted-lock build base pointer spec now.blocks out ends,
      )

  inside-Ends : (h : ℕ) (r : Request) → s.stage h ≡ inside r → Ends committers build fuel fm s r
  inside-Ends h (alloc size adjusted) e = alloc-Ends h size adjusted e
  inside-Ends h (free a) e = locked_free-lock committers s.memory s.world fm a.at

  pub waiting-progress :
      ((atomic_compare_swap s.memory fm 0 1).0 ≡ true)
      ⊎ ((h : ℕ) × (r : Request) × (s.stage h ≡ inside r) × Ends committers build fuel fm s r)
  waiting-progress = elim x.locking [
    | unlocked same alone ↦ inl (
        ap (λ m. (atomic_compare_swap m fm 0 1).0) same
        ∙ ap (λ (c : Bool × Memory). c.0)
            (swap-free x.session.memory fm
              (now_sound committers build fuel base bytes enough start sound s x).heap.unlocked))
    | locked h r here same alone ↦ inr (h, r, here, inside-Ends h r here)
  ]
