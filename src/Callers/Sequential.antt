-- ===== src/Callers/Sequential.antt =====
-- A session of calls, one after another, behind the turns of the callers.
use memthing.Base.{
  Bool-cases, ap, arith, false, if◌then◌else◌, inl, inr, refl, subst, sym, ℕ, ◌==◌, ◌^◌, ◌∙◌, ◌≡◌,
  ◌≢◌, ◌≤◌,
}
use memthing.Callers.Serial.{
  update_self, update-outside, update-inside, Asks-update, Asks-waiting, Asks-inside, swap-free,
  swap-taken, Asks, Fits, Locking, locked, unlocked,
}
use memthing.Callers.Turns.{Request, Shared, inside, waiting}
use memthing.Fmem.{Committers, atomic_compare_swap}
use memthing.Heap.Invariant.{fmem_at}
use memthing.Heap.Lock.{with_lock}
use memthing.Memory.{update}
use memthing.Page.{Build}
use memthing.Callers.Calls.{Calls, Calls-Steps}
use memthing.Sessions.{Session}
use memthing.Sessions.Reachable.{Steps-IsSound}
use memthing.Sessions.Safety.{IsSound}

module _ {W : Type 0} (committers : Committers W) (build : Build) (fuel base bytes : ℕ)
    (enough : 2 ^ 28 ≤ fuel) (start : Session W) (sound : IsSound build base bytes start) where
  abbrev fm : ℕ
  fm = fmem_at base

  abbrev k : ℕ
  k = (start.memory.fmem fm).min_alloc

  -- The calls that are over make a session, with what is live and the world, and its memory is that
  -- of the callers but for the lock.
  pub record IsSerial (s : Shared W) : Type 0 where
    pub session : Session W
    pub calls : Calls committers build fuel base start s.ended session
    pub world : session.world ≡ s.world
    pub live : session.live ≡ s.live
    pub locking : Locking fm session.memory s
    pub least : (session.memory.fmem fm).min_alloc ≡ k
    pub asked : (t : ℕ) (r : Request) → Asks (s.stage t) r → Fits k r

  module _ (s : Shared W) (x : IsSerial s) where
    pub session_sound : IsSound build base bytes x.session
    session_sound =
        Steps-IsSound committers build fuel base bytes enough
          (Calls-Steps committers build fuel base s.ended x.calls) sound

    -- A request that waits.
    pub asks-IsSerial :
        (t : ℕ) (r : Request)
        → ((q : Request) → s.stage t ≢ inside q)
        → Fits k r
        → IsSerial (record s { stage = update s.stage t (waiting r) })
    asks-IsSerial t r out fits = record {
      session = x.session;
      calls = x.calls;
      world = x.world;
      live = x.live;
      locking = elim x.locking [
        | unlocked e alone ↦
            unlocked e (λ u q h. alone u q (update-inside s.stage t u (waiting r) q (cc) h))
        | locked o p here e alone ↦
            locked o p (update-outside s.stage t o (waiting r) p out here) e
              (λ u q h. alone u q (update-inside s.stage t u (waiting r) q (cc) h))
      ];
      least = x.least;
      asked =
          Asks-update s.stage k t (waiting r) x.asked
            (λ q h. subst (Fits k) (Asks-waiting r q h) fits);
    }

    pub spin-IsSerial :
        (t : ℕ) (r : Request)
        → s.stage t ≡ waiting r
        → IsSerial (record s {
          memory = (atomic_compare_swap s.memory fm 0 1).1;
          stage =
              update s.stage t
                (if (atomic_compare_swap s.memory fm 0 1).0 then inside r else waiting r);
        })
    spin-IsSerial t r e = by x.locking
      where
        not_inside : (q : Request) → waiting r ≢ inside q
        not_inside q d = cc

        fits : Fits k r
        fits = x.asked t r (inl e)

        taken :
            s.memory ≡ x.session.memory
            → ((u : ℕ) (q : Request) → s.stage u ≢ inside q)
            → IsSerial (record s {
              memory = with_lock 1 x.session.memory fm;
              stage = update s.stage t (inside r);
            })
        taken same alone = record {
          session = x.session;
          calls = x.calls;
          world = x.world;
          live = x.live;
          locking = locked t r (update_self s.stage t (inside r)) refl (λ u q h. mine u q h);
          least = x.least;
          asked =
              Asks-update s.stage k t (inside r) x.asked
                (λ q h. subst (Fits k) (Asks-inside r q h) fits);
        }
          where
            mine : (u : ℕ) (q : Request) → update s.stage t (inside r) u ≡ inside q → u ≡ t
            mine u q h = elim (Bool-cases (t == u)) [
              | inl d ↦ ground (arith, d)
              | inr d ↦ absurd (alone u q (rw d at h))
            ]

        by :
            Locking fm x.session.memory s
            → IsSerial (record s {
              memory = (atomic_compare_swap s.memory fm 0 1).1;
              stage =
                  update s.stage t
                    (if (atomic_compare_swap s.memory fm 0 1).0 then inside r else waiting r);
            })
        by (unlocked same alone) =
            let swap =
              ap (λ m. atomic_compare_swap m fm 0 1) same
              ∙ swap-free x.session.memory fm session_sound.heap.unlocked in
            subst
              (λ c. IsSerial (record s {
                memory = c.1;
                stage = update s.stage t (if c.0 then inside r else waiting r);
              }))
              (sym swap) (taken same alone)
        by (locked o p here same alone) =
            let swap =
              ap (λ m. atomic_compare_swap m fm 0 1) same
              ∙ swap-taken x.session.memory fm
              ∙ ap (λ m. (false, m)) (sym same) in
            subst
              (λ c. IsSerial (record s {
                memory = c.1;
                stage = update s.stage t (if c.0 then inside r else waiting r);
              }))
              (sym swap) (asks-IsSerial t r (λ q d. not_inside q (sym e ∙ d)) fits)
