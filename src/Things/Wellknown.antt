-- ===== src/Things/Wellknown.antt =====
-- `make_wellknown_things` makes the letters from A to Z, in this order.
use memthing.Base.{
  All, All-append_left, All-append_right, All-map, Fresh, List, Option, [], ap, arith, inl, inr,
  length, ne→==, pos, refl, some, suc, sym, zero, ℕ, ℤ, ◌*◌, ◌++◌, ◌+◌, ◌<◌, ◌∙◌, ◌∷◌, ◌≡◌, ◌≢◌,
}
use memthing.LinkedList.{list_head_init}
use memthing.LinkedList.Insert.{list_head_init-Ring}
use memthing.Memory.{null, set_next, set_prev, update}
use memthing.Things.{Alloc, Oneach, Run, Store, done, make_letters, make_wellknown_things}
use memthing.Things.Make.{In, IsLawful, IsThings, OnlyAt, SameThing, put_thing, put_thing-IsThings}
use memthing.Things.Put.{IsThings-same, put_thing-OnlyAt, put_thing-SameThing}

module _ {W : Type 0} {allocator : Alloc W} {oneach : Option (Oneach W)}
    {Good : ℕ → Store → W → List ℕ → Type 0} (lawful : IsLawful allocator oneach Good) where
  -- What was there before stays away from what is made.
  abbrev Away : (xs : List ℕ) (header : ℕ) (rest : List ℕ) → Type 0
  Away xs header rest = All (λ x. Fresh x (xs ++ header ∷ [])) rest

  -- The end of a run that leaves a list of `count` things.
  abbrev Makes :
      (header count allocated : ℕ) (rest : List ℕ) (s : Store) → Run (ℤ × Store × W) → Type 0
  Makes header count allocated rest s run =
      (out : ℤ × Store × W) × (run ≡ done out)
      × (out.0 ≡ pos allocated)
      × (ys : List ℕ) × IsThings out.1 header ys 0
      × (length ys ≡ count)
      × All (SameThing s out.1) rest
      × Good 0 out.1 out.2 (ys ++ header ∷ rest)

  SameThing-trans :
      (s t u : Store) (xs : List ℕ)
      → All (SameThing s t) xs
      → All (SameThing t u) xs
      → All (SameThing s u) xs
  SameThing-trans s t u [] h k = tt
  SameThing-trans s t u (x ∷ xs) h k = (
    (k.0.0 ∙ h.0.0, k.0.1 ∙ h.0.1, k.0.2 ∙ h.0.2, k.0.3 ∙ h.0.3),
    SameThing-trans s t u xs h.1 k.1,
  )

  Away-more :
      (p : ℕ) (xs : List ℕ) (header : ℕ) (rest : List ℕ)
      → Fresh p rest
      → Away xs header rest
      → Away (p ∷ xs) header rest
  Away-more p xs header [] f h = tt
  Away-more p xs header (x ∷ rest) f h =
      (((λ e. f.0 (sym e)), h.0), Away-more p xs header rest f.1 h.1)

  put_rest :
      (s : Store) (header p v k : ℕ) (xs rest : List ℕ)
      → IsThings s header xs k
      → Fresh p (header ∷ xs)
      → Away (p ∷ xs) header rest
      → All (SameThing s (put_thing s header p v)) rest
  put_rest s header p v k xs rest h f away =
      All-map (λ x. Fresh x (p ∷ (xs ++ header ∷ []))) (SameThing s (put_thing s header p v))
        (λ x g. put_thing-SameThing s header p v xs k x h f g) rest away

  make_letters-Makes :
      (n header allocated : ℕ) (xs rest : List ℕ) (s : Store) (w : W)
      → Good n s w (xs ++ header ∷ rest)
      → IsThings s header xs n
      → Away xs header rest
      → n + length xs < 256
      → Makes header
          (n + length xs)
          (allocated + 24 * n)
          rest
          s
          (make_letters allocator oneach header n allocated s w)
  unfolding make_letters
  make_letters-Makes zero header allocated xs rest s w good things away few = (
    (pos allocated, s, w),
    refl,
    ap pos (omega arith),
    xs,
    things,
    omega arith,
    All-map (λ x. Fresh x (xs ++ header ∷ [])) (SameThing s s) (λ x g. (refl, refl, refl, refl))
        rest away,
    good,
  )
  make_letters-Makes (suc n) header allocated xs rest s w good things away few =
      let taken = xs ++ header ∷ rest in
      let (out, run, set, fresh, same, good1) = lawful.gives n s w taken good in
      let (p, s1, w1) = out in
      let things1 = IsThings-same s s1 header xs rest (suc n) same things in
      let s2 = put_thing s1 header p (64 + suc n) in
      let apart_xs = All-append_left (λ x. p ≢ x) xs (header ∷ rest) fresh in
      let apart = All-append_right (λ x. p ≢ x) xs (header ∷ rest) fresh in
      let f : Fresh p (header ∷ xs) = (apart.0, apart_xs) in
      let things2 = put_thing-IsThings s1 header p n xs f (omega arith) things1 in
      let good2 =
        lawful.writes n s1 s2 w1 (p ∷ taken) good1
          (put_thing-OnlyAt s1 header p (64 + suc n) xs rest (suc n) things1 f) in
      let (v, told, good3) = lawful.tells n s2 w1 (p ∷ taken) header good2 (inr (In-middle xs)) in
      let (v', told', good4) = lawful.tells n s2 v (p ∷ taken) p good3 (inl refl) in
      let away' = Away-more p xs header rest apart.1 away in
      let (end, ran, value, ys, made, many, kept, good5) =
        make_letters-Makes n header (allocated + 24) (p ∷ xs) rest s2 v' good4 things2 away'
          (omega arith) in
      let same_rest = (All-append_right (SameThing s s1) xs (header ∷ rest) same).1 in
      (
        end,
        rw (run, ne→== p null set, told, told') ran,
        value ∙ ap pos (omega arith),
        ys,
        made,
        many ∙ omega arith,
        SameThing-trans s s1 end.1 rest same_rest (
            SameThing-trans s1 s2 end.1 rest
              (put_rest s1 header p (64 + suc n) (suc n) xs rest things1 f away') kept),
        good5,
      )
    where
      In-middle : (xs : List ℕ) → In header (xs ++ header ∷ rest)
      In-middle [] = inl refl
      In-middle (x ∷ xs) = inr (In-middle xs)

  -- A new header.
  abbrev header_put : Store → (header : ℕ) → Store
  header_put s header =
      let m = set_prev (set_next s.memory header 0) header 0 in
      record s { memory = list_head_init m header; count = update s.count header 0 }

  header_put-OnlyAt :
      (s : Store) (header : ℕ) (rest : List ℕ) → OnlyAt (header ∷ rest) s (header_put s header)
  unfolding list_head_init
  header_put-OnlyAt s header rest = record {
    next = λ x f. ground (arith, f.0);
    prev = λ x f. ground (arith, f.0);
    flags = refl;
    size = refl;
    fmem = refl;
  }

  header_put-SameThing :
      (s : Store) (header x : ℕ) → x ≢ header → SameThing s (header_put s header) x
  unfolding list_head_init
  header_put-SameThing s header x ne =
      (ground (arith, ne), ground (arith, ne), ground (arith, ne), refl)

  -- The letters from A to Z: the address of the list, and what is at the addresses in `rest`.
  abbrev pub MakesLetters : (rest : List ℕ) (s : Store) → Run (ℤ × ℕ × Store × W) → Type 0
  MakesLetters rest s run =
      (out : ℤ × ℕ × Store × W) × (run ≡ done out)
      × (out.0 ≡ pos 648)
      × (out.1 ≢ null)
      × (ys : List ℕ) × IsThings out.2 out.1 ys 0
      × (length ys ≡ 26)
      × All (SameThing s out.2) rest
      × Good 0 out.2 out.3 (ys ++ out.1 ∷ rest)

  -- With an allocator and a callback that do what they must in 27 calls, `make_wellknown_things`
  -- returns 648, the bytes of a header and 26 things, and a list of 26 things that is linked both
  -- ways and holds the letters from A to Z in their order, with their number in the header. What was
  -- given before is left alone.
  pub make_wellknown_things-Letters :
      (place : ℕ) (s : Store) (w : W) (rest : List ℕ)
      → Good 27 s w rest
      → MakesLetters rest s (make_wellknown_things place (some allocator) oneach s w)
  unfolding make_wellknown_things
  make_wellknown_things-Letters place s w rest good =
      let (out, run, set, fresh, same, good1) = lawful.gives 26 s w rest good in
      let (header, s1, w1) = out in
      let s2 = header_put s1 header in
      let good2 =
        lawful.writes 26 s1 s2 w1 (header ∷ rest) good1 (header_put-OnlyAt s1 header rest) in
      let m = set_prev (set_next s1.memory header 0) header 0 in
      let things : IsThings s2 header [] 26 = record {
        ring = list_head_init-Ring m header;
        letters = tt;
        count = ground arith;
      } in
      let (end, ran, value, ys, made, many, kept, good3) =
        make_letters-Makes 26 header 24 [] rest s2 w1 good2 things (alone header rest fresh)
          (omega arith) in
      (
        (end.0, header, end.1, end.2),
        rw (run, ne→== header null set, ran) refl,
        value,
        set,
        ys,
        made,
        many,
        SameThing-trans s s1 end.1 rest same (
            SameThing-trans s1 s2 end.1 rest
              (All-map (λ x. header ≢ x) (SameThing s1 s2)
                (λ x ne. header_put-SameThing s1 header x (λ e. ne (sym e))) rest fresh)
              kept),
        good3,
      )
    where
      alone : (h : ℕ) (rest : List ℕ) → Fresh h rest → All (λ x. Fresh x (h ∷ [])) rest
      alone h [] f = tt
      alone h (x ∷ rest) f = (((λ e. f.0 (sym e)), tt), alone h rest f.1)
