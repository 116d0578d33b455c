-- ===== src/Base/Minimum.antt =====
-- The loop that looks for the least key among the elements that pass a test:
-- `TAILQ_FOREACH (x) if (test x && key x < least) { least = key x; chosen = x; }`.
use Prim.Native.Nat.{ℕ, zero, suc, ◌+◌, ◌≤◌, ◌<◌}
use mathlib.Core.Path.{◌≡◌, refl, ap, ◌∙◌}
use mathlib.Core.Logic.{◌⊎◌, inl, inr}
use mathlib.Core.Bool.{Bool, true, false, ◌&&◌}
use mathlib.Core.List.{List, [], ◌∷◌}
use mathlib.Core.Option.{Option, none, some}
use native.Mathlib.Omega.{arith}
use sump.Base.Tests.{if◌then◌else◌, Bool-cases, ltb}
use sump.Base.Lists.{get_elem?}

module _ {A : Type 0} (test : A → Bool) (key : A → ℕ) where
  -- `least` is the least key so far, `chosen` the place of the element that has it, `place` the
  -- place of the list's head.
  unfoldable pub minimum_loop : ℕ → Option ℕ → ℕ → List A → Option ℕ
  minimum_loop least chosen place [] = chosen
  minimum_loop least chosen place (p ∷ ps) =
      let hit = test p && ltb (key p) least in
      minimum_loop (if hit then key p else least) (if hit then some place else chosen) (suc place)
        ps

  -- The loop ends at the element at `i` of the list: it passes the test, its key is below the bound, no
  -- element that passes has a smaller key, and those before it have larger ones.
  pub record IsLeast (bound : ℕ) (paths : List A) (i : ℕ) : Type 0 where
    pub path : A
    pub found : get_elem? paths i ≡ some path
    pub up : test path ≡ true
    pub below : key path < bound
    pub least : (j : ℕ) (p : A) → get_elem? paths j ≡ some p → test p ≡ true → key path ≤ key p
    pub earlier :
        (j : ℕ) (p : A) → j < i → get_elem? paths j ≡ some p → test p ≡ true → key path < key p

  -- No element that passes the test has a key below the bound.
  abbrev pub NoneBelow : ℕ → List A → Type 0
  NoneBelow bound paths =
      (j : ℕ) (p : A) → get_elem? paths j ≡ some p → test p ≡ true → bound ≤ key p

  abbrev pub Ends : ℕ → Option ℕ → ℕ → List A → Option ℕ → Type 0
  Ends least chosen place paths r =
      ((r ≡ chosen) × NoneBelow least paths)
      ⊎ ((i : ℕ) × (r ≡ some (place + i)) × IsLeast least paths i)

  -- One more element in front, that is not taken.
  skip :
      (least : ℕ) (chosen : Option ℕ) (place : ℕ) (p : A) (ps : List A) (r : Option ℕ)
      → (test p && ltb (key p) least) ≡ false
      → Ends least chosen (suc place) ps r
      → Ends least chosen place (p ∷ ps) r
  skip least chosen place p ps r miss (inl (e, h)) = inl (e, passed)
    where
      passed : NoneBelow least (p ∷ ps)
      passed zero q at up = ground arith
      passed (suc j) q at up = h j q at up
  skip least chosen place p ps r miss (inr (i, e, m)) = inr (
    suc i,
    ground arith,
    record {
      path = m.path;
      found = m.found;
      up = m.up;
      below = m.below;
      least = passed_least;
      earlier = passed_earlier;
    },
  )
    where
      passed_least :
          (j : ℕ) (q : A) → get_elem? (p ∷ ps) j ≡ some q → test q ≡ true → key m.path ≤ key q
      passed_least zero q at up = ground (arith, m.below)
      passed_least (suc j) q at up = m.least j q at up

      passed_earlier :
          (j : ℕ) (q : A)
          → j < suc i
          → get_elem? (p ∷ ps) j ≡ some q
          → test q ≡ true
          → key m.path < key q
      passed_earlier zero q lt at up = ground (arith, m.below)
      passed_earlier (suc j) q lt at up = m.earlier j q (omega arith) at up

  -- One more element in front, that is taken.
  take :
      (least : ℕ) (chosen : Option ℕ) (place : ℕ) (p : A) (ps : List A) (r : Option ℕ)
      → test p ≡ true
      → key p < least
      → Ends (key p) (some place) (suc place) ps r
      → Ends least chosen place (p ∷ ps) r
  take least chosen place p ps r up lt (inl (e, h)) = inr (
    0,
    ground arith,
    record {
      path = p;
      found = refl;
      up = up;
      below = lt;
      least = first_least;
      earlier = λ j q lt at on. elim lt [ ];
    },
  )
    where
      first_least : (j : ℕ) (q : A) → get_elem? (p ∷ ps) j ≡ some q → test q ≡ true → key p ≤ key q
      first_least zero q at on = ground arith
      first_least (suc j) q at on = h j q at on
  take least chosen place p ps r up lt (inr (i, e, m)) = inr (
    suc i,
    ground arith,
    record {
      path = m.path;
      found = m.found;
      up = m.up;
      below = omega (arith, m.below);
      least = later_least;
      earlier = later_earlier;
    },
  )
    where
      later_least :
          (j : ℕ) (q : A) → get_elem? (p ∷ ps) j ≡ some q → test q ≡ true → key m.path ≤ key q
      later_least zero q at on = ground (arith, m.below)
      later_least (suc j) q at on = m.least j q at on

      later_earlier :
          (j : ℕ) (q : A)
          → j < suc i
          → get_elem? (p ∷ ps) j ≡ some q
          → test q ≡ true
          → key m.path < key q
      later_earlier zero q lt at on = ground (arith, m.below)
      later_earlier (suc j) q lt at on = m.earlier j q (omega arith) at on

  pub minimum_loop-Ends :
      (ps : List A) (least : ℕ) (chosen : Option ℕ) (place : ℕ)
      → Ends least chosen place ps (minimum_loop least chosen place ps)
  unfolding minimum_loop
  minimum_loop-Ends [] least chosen place = inl (refl, λ j p at up. cc)
  minimum_loop-Ends (p ∷ ps) least chosen place = elim (Bool-cases (test p && ltb (key p) least)) [
    | inl hit ↦ rw hit (
        take least chosen place p ps _ (ground arith) (ground arith)
          (minimum_loop-Ends ps (key p) (some place) (suc place)))
    | inr miss ↦
        rw miss
          (skip least chosen place p ps _ miss (minimum_loop-Ends ps least chosen (suc place)))
  ]

  -- What the minimum of a whole list comes to, with nothing chosen at the start.
  pub minimum_loop-whole :
      (bound : ℕ) (paths : List A)
      → ((i : ℕ) × (minimum_loop bound none 0 paths ≡ some i) × IsLeast bound paths i)
        ⊎ ((minimum_loop bound none 0 paths ≡ none) × NoneBelow bound paths)
  minimum_loop-whole bound paths = elim (minimum_loop-Ends paths bound none 0) [
    | inl (e, h) ↦ inr (e, h)
    | inr (i, e, m) ↦ inl (i, e ∙ ap some (omega arith), m)
  ]
