-- ===== src/Base/Search.antt =====
-- The loop `TAILQ_FOREACH (x) if (test x) return x;`, as the place of the element that it returns.
use Prim.Native.Nat.{ℕ, zero, suc, ◌<◌}
use mathlib.Core.Path.{◌≡◌, refl}
use mathlib.Core.Logic.{inl, inr}
use mathlib.Core.Bool.{Bool, true, false}
use mathlib.Core.List.{List, [], ◌∷◌}
use mathlib.Core.Option.{Option, none, some}
use native.Mathlib.Omega.{arith}
use sump.Base.Tests.{if◌then◌else◌, Bool-cases, Option-cases}
use sump.Base.Lists.{get_elem?}

-- A place in the tail of a list, seen from its head.
abbrev pub next : Option ℕ → Option ℕ
next none = none
next (some i) = some (suc i)

module _ {ℓ} {A : Type ℓ} (test : A → Bool) where
  unfoldable pub first : List A → Option ℕ
  first [] = none
  first (x ∷ xs) = if test x then some 0 else next (first xs)

  pub first-some :
      (xs : List A) {i : ℕ}
      → first xs ≡ some i
      → (a : A) × (get_elem? xs i ≡ some a) × (test a ≡ true)
  unfolding first
  first-some [] e = cc
  first-some (x ∷ xs) {i} e = elim (Bool-cases (test x)) [
    | inl hit ↦ (x, ground arith, hit)
    | inr miss ↦ elim (Option-cases (first xs)) [
      | inl gone ↦ absurd (ground arith)
      | inr (j, found) ↦ let (a, at, t) = first-some xs found in (a, ground arith, t)
    ]
  ]

  -- Whatever the loop passes over fails the test.
  pub first_least :
      (xs : List A) {i : ℕ} (j : ℕ) {a : A}
      → first xs ≡ some i
      → j < i
      → get_elem? xs j ≡ some a
      → test a ≡ false
  unfolding first
  first_least [] j e h at = cc
  first_least (x ∷ xs) zero e h at = ground arith
  first_least (x ∷ xs) (suc j) e h at = elim (Option-cases (first xs)) [
    | inl gone ↦ absurd (ground arith)
    | inr (k, found) ↦ first_least xs {i = k} j found (ground arith) at
  ]

  pub first-none :
      (xs : List A) (j : ℕ) {a : A} → first xs ≡ none → get_elem? xs j ≡ some a → test a ≡ false
  unfolding first
  first-none [] j e at = cc
  first-none (x ∷ xs) zero e at = ground arith
  first-none (x ∷ xs) (suc j) e at = first-none xs j (ground arith) at

  -- The first place that passes the test is the one that is returned.
  pub first_of_least :
      (xs : List A) (i : ℕ) {a : A}
      → get_elem? xs i ≡ some a
      → test a ≡ true
      → ((j : ℕ) (b : A) → j < i → get_elem? xs j ≡ some b → test b ≡ false)
      → first xs ≡ some i
  unfolding first
  first_of_least [] i at t h = cc
  first_of_least (x ∷ xs) zero at t h = ground arith
  first_of_least (x ∷ xs) (suc i) at t h =
      rw (
        h 0 x (omega arith) refl,
        first_of_least xs i at t (λ j b lt e. h (suc j) b (omega arith) e),
      )
