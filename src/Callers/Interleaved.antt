-- ===== src/Callers/Interleaved.antt =====
-- Callers who take turns on a new allocator.
use memthing.Base.{
  [], true, ◌⊎◌, inl, inr, sym, ap, if◌then◌else◌, ltb, refl, subst, ℕ, ◌+◌, ◌<◌, ◌^◌, ◌∙◌, ◌≡◌,
  ◌≢◌, ◌≤◌,
}
use memthing.Callers.Progress.{Ends, waiting-progress}
use memthing.Callers.Turns.{waiting, idle, free, Request, Shared, Turn, Turns, alloc, inside}
use memthing.Fmem.{atomic_compare_swap, Committers, adjusted_alloc}
use memthing.Callers.Calls.{Calls}
use memthing.Sessions.{AllDisjoint, Session}
use memthing.Callers.Behind.{refused-IsSerial, allocated-IsSerial, freed-IsSerial}
use memthing.Callers.Sequential.{IsSerial, asks-IsSerial, session_sound, spin-IsSerial}
use memthing.Callers.Serial.{Asks-idle, Locking, Locking-least, unlocked}
use memthing.Heap.Invariant.{fmem_at}
use memthing.Memory.{Memory}
use memthing.Page.{Build}
use memthing.Sessions.Created.{begun, begun-IsSound}
use memthing.Sessions.Safety.{IsSound}

nobody : (r : Request) → idle ≢ inside r
nobody r e = cc

module _ {W : Type 0} (committers : Committers W) (build : Build) (fuel base bytes : ℕ)
    (enough : 2 ^ 28 ≤ fuel) (start : Session W) (sound : IsSound build base bytes start) where
  abbrev fm : ℕ
  fm = fmem_at base

  abbrev Serial : Shared W → Type 0
  Serial = IsSerial committers build fuel base bytes enough start sound

  Turn-IsSerial :
      {s t : Shared W} → Turn committers build fuel (fmem_at base) s t → Serial s → Serial t
  Turn-IsSerial {s} (Turn.ask_alloc t size e small) x =
      let least = Locking-least fm x.session.memory s x.locking ∙ x.least in
      asks-IsSerial committers build fuel base bytes enough start sound s x t
        (alloc size (adjusted_alloc s.memory fm size)) (λ q d. nobody q (sym e ∙ d))
        (small, ap (λ k. if ltb size k then k else size) least)
  Turn-IsSerial {s} (Turn.ask_free t a e passes) x =
      asks-IsSerial committers build fuel base bytes enough start sound s x t (free a)
        (λ q d. nobody q (sym e ∙ d)) tt
  Turn-IsSerial {s} (Turn.turned_away t a e fails) x =
      refused-IsSerial committers build fuel base bytes enough start sound s x t a fails
  Turn-IsSerial {s} (Turn.spin t r e) x =
      spin-IsSerial committers build fuel base bytes enough start sound s x t r e
  Turn-IsSerial {s} (Turn.allocated t size adjusted r m w e run) x =
      allocated-IsSerial committers build fuel base bytes enough start sound s x t size adjusted r m
        w e run
  Turn-IsSerial {s} (Turn.freed t xs a ys e live) x =
      freed-IsSerial committers build fuel base bytes enough start sound s x t xs a ys e live

  pub Turns-IsSerial :
      {s t : Shared W} → Turns committers build fuel (fmem_at base) s t → Serial s → Serial t
  Turns-IsSerial Turns.stay x = x
  Turns-IsSerial (Turns.then_ before turn) x = Turn-IsSerial turn (Turns-IsSerial before x)

-- Before the first call nobody has asked for anything.
abbrev pub gathered : {W : Type 0} → Session W → Shared W
gathered s = record {
  memory = s.memory;
  world = s.world;
  live = s.live;
  stage = λ t. idle;
  ended = [];
}

module _ {W : Type 0} (committers : Committers W) (build : Build) (m : Memory) (w : W)
    (base bytes min_alloc committer : ℕ) (least : 144 ≤ bytes) (room : min_alloc + 120 ≤ bytes)
    (small : bytes < 2 ^ 32) (high : base + bytes < 2 ^ 64) (word : m.flags base < 2 ^ 32)
    (word' : m.flags (base + 96) < 2 ^ 32) (fuel : ℕ) (enough : 2 ^ 28 ≤ fuel) where
  abbrev start : Session W
  start = begun committers build m w base bytes min_alloc committer

  sound : IsSound build base bytes start
  sound =
      begun-IsSound committers build m w base bytes min_alloc committer least room small high word
        word' fuel enough

  turned :
      (s : Shared W)
      → Turns committers build fuel (fmem_at base) (gathered start) s
      → IsSerial committers build fuel base bytes enough start sound s
  turned s turns =
      Turns-IsSerial committers build fuel base bytes enough start sound turns (record {
        session = start;
        calls = Calls.no_calls;
        world = refl;
        live = refl;
        locking = unlocked refl (λ t r e. nobody r e);
        least = refl;
        asked = λ t r h. absurd (Asks-idle r h);
      })

  -- However several callers take turns on an allocator that `fmem_create_new` has made, under the
  -- conditions under which that is well formed, with `fmem_alloc` of sizes below 2^32 and
  -- `fmem_free` of what is live when they hold the lock, and 2^28 rounds of fuel or more for a
  -- loop: the calls of `fmem_alloc` and `fmem_free` that have ended, made one after another in
  -- the order in which they ended, each whole and with nobody else about, return what they have
  -- returned to their callers, and give the same world and the same live allocations, and the
  -- same memory but for the lock, which is free where nobody is behind it, and else taken by the
  -- one caller who is. No two live allocations meet, whoever made them.
  pub Turns-serial :
      (s : Shared W)
      → Turns committers build fuel (fmem_at base) (gathered start) s
      → ((q : Session W) × Calls committers build fuel base start s.ended q
          × (q.world ≡ s.world)
          × (q.live ≡ s.live)
          × Locking (fmem_at base) q.memory s)
        × AllDisjoint s.live
  Turns-serial s turns =
      let x = turned s turns in
      let now = session_sound committers build fuel base bytes enough start sound s x in
      ((x.session, x.calls, x.world, x.live, x.locking), subst AllDisjoint x.live now.apart)

  -- In every such state, where a caller waits for the lock: its next round takes the lock, or another
  -- caller is behind the lock, and what that one does there ends and leaves the lock free.
  pub Turns-progress :
      (s : Shared W)
      → Turns committers build fuel (fmem_at base) (gathered start) s
      → (t : ℕ) (r : Request) → s.stage t ≡ waiting r
      → ((atomic_compare_swap s.memory (fmem_at base) 0 1).0 ≡ true)
        ⊎ ((h : ℕ) × (q : Request) × (h ≢ t)
            × (s.stage h ≡ inside q)
            × Ends committers build fuel (fmem_at base) s q)
  Turns-progress s turns t r waits =
      elim (waiting-progress committers build fuel base bytes enough start sound s
        (turned s turns)) [
          | inl e ↦ inl e
          | inr (h, q, here, ends) ↦ inr (h, q, other h q here, here, ends)
        ]
    where
      apart : (q : Request) → waiting r ≢ inside q
      apart q e = cc

      other : (h : ℕ) (q : Request) → s.stage h ≡ inside q → h ≢ t
      other h q here e = apart q (sym waits ∙ ap s.stage (sym e) ∙ here)
