-- ===== src/Things/Agrees.antt =====
-- `verify_things` of a list that `make_wellknown_things` made.
use memthing.Base.{
  List, [], arith, eq→==, length, ne→==, none, pos, refl, ℕ, ◌++◌, ◌<◌, ◌∷◌, ◌≡◌, ◌≢◌,
}
use memthing.Memory.{null}
use memthing.Things.{Alloc, Store, done, verify_things}
use memthing.Things.Make.{IsLawful, IsThings}
use memthing.Things.Put.{IsThings-same}
use memthing.Things.Verify.{verify_loop-agrees}
use memthing.Things.Wellknown.{make_wellknown_things-Letters}

module _ {W : Type 0} {malloc : Alloc W} {Good : ℕ → Store → W → List ℕ → Type 0}
    (lawful : IsLawful malloc none Good) where
  -- With a `malloc` that does what it must in 27 calls and leaves the list alone, `verify_things` of
  -- a list of 26 things finds no difference.
  pub verify_things-agrees :
      (fuel what k : ℕ) (xs : List ℕ) (s : Store) (w : W)
      → 26 < fuel
      → what ≢ null
      → IsThings s what xs k
      → length xs ≡ 26
      → Good 27 s w (xs ++ what ∷ [])
      → (out : Store × W) × (verify_things fuel malloc what s w ≡ done (pos 0, out.0, out.1))
  unfolding verify_things
  verify_things-agrees fuel what k xs s w enough set things many good =
      let (out, ran, value, _, ys, made, many', same, _) =
        make_wellknown_things-Letters lawful null s w (xs ++ what ∷ []) good in
      let kept = IsThings-same s out.2 what xs [] k same things in
      let counts : out.2.count out.1 ≡ out.2.count what =
        omega (arith, made.count, kept.count, many, many') in
      let compared =
        verify_loop-agrees fuel out.2 what xs kept.ring (omega (arith, enough, many)) in
      (
        (out.2, out.3),
        rw
            (
              ne→== what null set,
              ran,
              value,
              eq→== (out.2.count out.1) (out.2.count what) counts,
              compared,
            )
            refl,
      )
