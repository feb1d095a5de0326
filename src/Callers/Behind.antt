-- ===== src/Callers/Behind.antt =====
-- What a caller does behind the lock is one call of a session.
use memthing.Base.{
  ◌≢◌, All, Bool-cases, List, ap, arith, if◌then◌else◌, inl, inr, ltb, pos, refl, some, subst, sym,
  to_ptr, ℕ, ℤ, ◌++◌, ◌+◌, ◌==◌, ◌^◌, ◌∙◌, ◌∷◌, ◌≡◌, ◌≤◌,
}
use memthing.Sessions.Released.{behind, Place, held-Place}
use memthing.Blocks.{total}
use memthing.Blocks.Row.{total-append}
use memthing.Callers.Locked.{
  fmem_free-refused, fmem_alloc-locked, fmem_free-locked, locked_alloc-least, locked_free-least,
}
use memthing.Callers.Sequential.{IsSerial, session_sound}
use memthing.Callers.Serial.{Asks-idle, Asks-update, locked, unlocked}
use memthing.Callers.Turns.{
  Ended, allocs, frees, refuses, Request, Shared, alloc, free, idle, inside, locked_alloc,
  locked_free,
}
use memthing.Fmem.{Committers, adjusted_alloc, e_commit_failed}
use memthing.Heap.Invariant.{IsHeap, fmem_at, head_size}
use memthing.Heap.Layout.{check_passes}
use memthing.Heap.Lock.{fmem-set_fmem, with_lock}
use memthing.Heap.Take.{PageAt-middle}
use memthing.Memory.{Memory, update}
use memthing.Page.{Build, fail_on_poison_check, fpage_from_mem, fpage_get_magic, poison}
use memthing.Callers.Calls.{Calls}
use memthing.Sessions.{Allocation, Session}
use memthing.Sessions.Live.{All-remove, Held}
use memthing.Sessions.Safety.{IsSound}

module _ {W : Type 0} (committers : Committers W) (build : Build) (fuel base bytes : ℕ)
    (enough : 2 ^ 28 ≤ fuel) (start : Session W) (sound : IsSound build base bytes start)
    (s : Shared W) (x : IsSerial committers build fuel base bytes enough start sound s) where
  abbrev fm : ℕ
  fm = fmem_at base

  abbrev Serial : Shared W → Type 0
  Serial = IsSerial committers build fuel base bytes enough start sound

  pub now_sound : IsSound build base bytes x.session
  now_sound = session_sound committers build fuel base bytes enough start sound s x

  -- A caller behind the lock is alone there.
  pub alone_inside :
      (t : ℕ) (r : Request)
      → s.stage t ≡ inside r
      → (s.memory ≡ with_lock 1 x.session.memory fm)
        × ((u : ℕ) (q : Request) → s.stage u ≡ inside q → u ≡ t)
  alone_inside t r e = elim x.locking [
    | unlocked same alone ↦ absurd (alone t r e)
    | locked o p here same alone ↦ (same, λ u q h. alone u q h ∙ sym (alone t r e))
  ]

  ended-IsSerial :
      (t : ℕ) (r : Request) (m : Memory) (w : W) (live : List Allocation) (done : Ended)
      → s.stage t ≡ inside r
      → Calls committers build fuel base start
          (done ∷ s.ended)
          (record { memory = m; world = w; live = live })
      → (m.fmem fm).min_alloc ≡ (x.session.memory.fmem fm).min_alloc
      → Serial (record {
        memory = m;
        world = w;
        live = live;
        stage = update s.stage t idle;
        ended = done ∷ s.ended;
      })
  ended-IsSerial t r m w live done e calls kept = record {
    session = record { memory = m; world = w; live = live };
    calls = calls;
    world = refl;
    live = refl;
    locking = unlocked refl (λ u q h. elim (Bool-cases (t == u)) [
      | inl d ↦ left_lock q (rw d at h)
      | inr d ↦ absurd (ground (arith, d, (alone_inside t r e).1 u q (rw d at h)))
    ]);
    least = kept ∙ x.least;
    asked =
        Asks-update s.stage ((start.memory.fmem fm).min_alloc) t idle x.asked
          (λ q h. absurd (Asks-idle q h));
  }
    where
      left_lock : (q : Request) → idle ≡ inside q → ⊥
      left_lock q h = cc

  least_locked : (m : Memory) → ((with_lock 1 m fm).fmem fm).min_alloc ≡ (m.fmem fm).min_alloc
  least_locked m = ap (λ f. f.min_alloc) (fmem-set_fmem m fm (record (m.fmem fm) { lock = 1 }))

  pub allocated-IsSerial :
      (t size adjusted r : ℕ) (m : Memory) (w : W)
      → s.stage t ≡ inside (alloc size adjusted)
      → locked_alloc committers build fuel s.memory s.world fm adjusted ≡ some (r, m, w)
      → Serial (record {
        memory = m;
        world = w;
        live =
            if ltb r (to_ptr e_commit_failed)
            then (record { at = r; size = size }) ∷ s.live
            else s.live;
        stage = update s.stage t idle;
        ended = allocs t size r ∷ s.ended;
      })
  allocated-IsSerial t size adjusted r m w e run =
      let q = x.session in
      let same = (alone_inside t (alloc size adjusted) e).0 in
      let fits = x.asked t (alloc size adjusted) (inr e) in
      let need : adjusted_alloc q.memory fm size ≡ adjusted =
        ap (λ k. if ltb size k then k else size) x.least ∙ sym fits.1 in
      let here : locked_alloc committers build fuel (with_lock 1 q.memory fm) q.world fm adjusted
          ≡ some (r, m, w) =
        ap (λ m. locked_alloc committers build fuel m q.world fm adjusted) (sym same)
        ∙ ap (λ w. locked_alloc committers build fuel s.memory w fm adjusted) x.world
        ∙ run in
      let call =
        fmem_alloc-locked committers build q.memory q.world fm fuel size (omega (arith, enough))
          now_sound.heap.unlocked
        ∙ ap (locked_alloc committers build fuel (with_lock 1 q.memory fm) q.world fm) need
        ∙ here in
      let kept =
        locked_alloc-least committers build fuel (with_lock 1 q.memory fm) q.world fm adjusted r m w
          here
        ∙ least_locked q.memory in
      let a : Allocation = record { at = r; size = size } in
      subst
        (λ (live : List Allocation). Serial (record {
          memory = m;
          world = w;
          live = if ltb r (to_ptr e_commit_failed) then a ∷ live else live;
          stage = update s.stage t idle;
          ended = allocs t size r ∷ s.ended;
        }))
        x.live
        (ended-IsSerial t (alloc size adjusted) m w
          (if ltb r (to_ptr e_commit_failed) then a ∷ q.live else q.live) (allocs t size r) e
          (Calls.then_alloc t size r m w x.calls fits.0 call) kept)

  -- The page of what is live passes the check.
  live_passes :
      (xs : List Allocation) (a : Allocation) (ys : List Allocation)
      → x.session.live ≡ xs ++ a ∷ ys
      → fail_on_poison_check build (fpage_get_magic x.session.memory (fpage_from_mem a.at)) poison
        ≡ pos 0
  unfolding fpage_from_mem
  live_passes xs a ys live =
      let q = x.session in
      let held = subst (All (Held now_sound.blocks (base + head_size))) live now_sound.held in
      let one = (All-remove (Held now_sound.blocks (base + head_size)) xs a ys held).0 in
      by (held-Place committers build fuel base bytes (omega (arith, enough)) q now_sound a one)
    where
      by :
          Place committers build fuel base bytes (omega (arith, enough)) x.session now_sound a
          → fail_on_poison_check build
              (fpage_get_magic x.session.memory (fpage_from_mem a.at))
              poison
            ≡ pos 0
      by (behind us b vs e busy at room) =
          let heap = subst (IsHeap build x.session.memory base) e now_sound.heap in
          let bytes' = total-append us (b ∷ vs) in
          let back : fpage_from_mem a.at ≡ base + head_size + total us =
            omega (arith, at, bytes', heap.account.span, heap.account.fits) in
          rw back (
            check_passes build x.session.memory (base + head_size + total us) b
              (PageAt-middle (base + head_size) us b vs heap.row.headers))

  pub freed-IsSerial :
      (t : ℕ) (xs : List Allocation) (a : Allocation) (ys : List Allocation)
      → s.stage t ≡ inside (free a)
      → s.live ≡ xs ++ a ∷ ys
      → Serial (record {
        memory = (locked_free committers s.memory s.world fm a.at).1;
        world = (locked_free committers s.memory s.world fm a.at).2;
        live = xs ++ ys;
        stage = update s.stage t idle;
        ended = frees t a (locked_free committers s.memory s.world fm a.at).0 ∷ s.ended;
      })
  freed-IsSerial t xs a ys e live =
      let q = x.session in
      let same = (alone_inside t (free a) e).0 in
      let out = locked_free committers (with_lock 1 q.memory fm) q.world fm a.at in
      let here : out ≡ locked_free committers s.memory s.world fm a.at =
        ap (λ m. locked_free committers m q.world fm a.at) (sym same)
        ∙ ap (λ w. locked_free committers s.memory w fm a.at) x.world in
      let call =
        fmem_free-locked committers build q.memory q.world fm fuel a.at (omega (arith, enough))
          now_sound.heap.unlocked (live_passes xs a ys (x.live ∙ live)) in
      subst
        (λ (o : ℤ × Memory × W). Serial (record {
          memory = o.1;
          world = o.2;
          live = xs ++ ys;
          stage = update s.stage t idle;
          ended = frees t a o.0 ∷ s.ended;
        }))
        here
        (ended-IsSerial t (free a) out.1 out.2 (xs ++ ys) (frees t a out.0) e
          (Calls.then_free t xs a ys out.0 out.1 out.2 x.calls (x.live ∙ live) call)
          (locked_free-least committers build (with_lock 1 q.memory fm) q.world fm a.at
            ∙ least_locked q.memory))

  -- A call of `fmem_free` whose check fails returns what it would with nobody behind the lock.
  pub refused-IsSerial :
      (t : ℕ) (a : Allocation)
      → let check =
          fail_on_poison_check build (fpage_get_magic s.memory (fpage_from_mem a.at)) poison in
        check ≢ pos 0 → Serial (record s { ended = refuses t a check ∷ s.ended })
  unfolding fpage_get_magic
  refused-IsSerial t a fails = record {
    session = x.session;
    calls = Calls.then_refused t a _ x.calls (
        fmem_free-refused committers build fuel x.session.memory x.session.world fm a.at
          (λ e. fails (same_check ∙ e))
        ∙ ap (λ r. some (r, x.session.memory, x.session.world)) (sym same_check));
    world = x.world;
    live = x.live;
    locking = elim x.locking [
      | unlocked e alone ↦ unlocked e alone
      | locked o p here e alone ↦ locked o p here e alone
    ];
    least = x.least;
    asked = x.asked;
  }
    where
      check_in : Memory → ℤ
      check_in m = fail_on_poison_check build (fpage_get_magic m (fpage_from_mem a.at)) poison

      locked_magic : (m : Memory) → check_in (with_lock 1 m fm) ≡ check_in m
      locked_magic m = refl

      same_check : check_in s.memory ≡ check_in x.session.memory
      same_check = elim x.locking [
        | unlocked e alone ↦ ap check_in e
        | locked o p here e alone ↦ ap check_in e ∙ locked_magic x.session.memory
      ]
