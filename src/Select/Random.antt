-- ===== src/Select/Random.antt =====
-- `ump_find_iopath_random`.
use sump.Base.{
  ℕ, zero, suc, ◌+◌, ◌%◌, ◌≤◌, ◌<◌, ◌≡◌, refl, ◌∙◌, false, List, [], ◌∷◌, Option, none, some, arith,
  get_elem?, get_elem?-lt, length, Bool-cases, ◌==◌, ok, inl, inr, ◌⊎◌, if◌then◌else◌, ◌++◌,
}
use sump.IoPath.{IoPath, Channel}
use sump.Select.{Draw, found, gives_up, again, random_loop, find_iopath_random}
use sump.Select.Hash.{Available, AllDown, HasIds}

Draw-cases : (d : Draw) → ((k : ℕ) × (d ≡ found k)) ⊎ ((d ≡ gives_up) ⊎ (d ≡ again))
Draw-cases (found k) = inl (k, refl)
Draw-cases gives_up = inr (inl refl)
Draw-cases again = inr (inr refl)

-- The paths of a list are numbered from `place` on.
abbrev Numbered : ℕ → List IoPath → Type 0
Numbered place paths = (i : ℕ) (p : IoPath) → get_elem? paths i ≡ some p → p.id ≡ place + i

Numbered-tail :
    (place : ℕ) (p : IoPath) (ps : List IoPath) → Numbered place (p ∷ ps) → Numbered (suc place) ps
Numbered-tail place p ps h i q at = h (suc i) q at ∙ (omega arith)

-- A draw of an available path ends the loop with it.
random_loop_hit :
    (n turn count place j : ℕ) (ps : List IoPath)
    → Numbered place ps
    → turn ≡ place + j
    → Available ps j
    → random_loop n turn count place ps ≡ found turn
unfolding random_loop
random_loop_hit n turn count place j [] h e (p, at, up) = cc
random_loop_hit n turn count place zero (q ∷ ps) h e (p, at, up) =
    let id : q.id ≡ place + 0 = h 0 q refl in ground arith
random_loop_hit n turn count place (suc j) (q ∷ ps) h e (p, at, up) =
    let id : q.id ≡ place + 0 = h 0 q refl in
    ground (
      arith,
      random_loop_hit n turn (if q.available then count else suc count) (suc place) j ps
          (Numbered-tail place q ps h) (omega arith) (p, at, up),
    )

random_loop-found :
    (n turn count place : ℕ) (ps : List IoPath) {k : ℕ}
    → random_loop n turn count place ps ≡ found k
    → (j : ℕ) × (k ≡ place + j) × Available ps j
unfolding random_loop
random_loop-found n turn count place [] e = cc
random_loop-found n turn count place (p ∷ ps) {k} e = elim (Bool-cases (p.id == turn)) [
  | inl here ↦ (0, ground arith, (p, refl, ground arith))
  | inr away ↦
      let count' : ℕ = if p.available then count else suc count in
      let rest : random_loop n turn count' (suc place) ps ≡ found k = rw (away, random_loop) at e in
      let (j, sum, a) = random_loop-found n turn count' (suc place) ps rest in
      (suc j, omega arith, a)
]

-- The loop gives up only if it has counted every path of the channel as down.
random_loop-gives_up :
    (n turn count place : ℕ) (ps : List IoPath)
    → n ≡ place + length ps
    → count ≤ place
    → random_loop n turn count place ps ≡ gives_up
    → (count ≡ place) × AllDown ps
unfolding random_loop
random_loop-gives_up n turn count place [] size le e = cc
random_loop-gives_up n turn count place (p ∷ ps) size le e = elim (Bool-cases p.available) [
  | inl up ↦ elim (Bool-cases (p.id == turn)) [
    | inl here ↦ absurd (ground arith)
    | inr away ↦
        let (same, _) =
          random_loop-gives_up n turn count (suc place) ps (omega arith) (omega arith)
            (ground arith) in
        absurd (omega arith)
  ]
  | inr down ↦ elim (Bool-cases (p.id == turn)) [
    | inl here ↦ (ground arith, alone down (ground arith))
    | inr away ↦
        let (same, rest) =
          random_loop-gives_up n turn (suc count) (suc place) ps (omega arith) (omega arith)
            (ground arith) in
        (omega arith, both down rest)
  ]
]
  where
    both : p.available ≡ false → AllDown ps → AllDown (p ∷ ps)
    both down rest zero q at = ground arith
    both down rest (suc i) q at = rest i q at

    alone : p.available ≡ false → length ps ≡ 0 → AllDown (p ∷ ps)
    alone down none_left = both down (λ i q at. absurd (omega (arith, get_elem?-lt ps i at)))

-- When `ump_find_iopath_random` returns a path, that path is available; when it returns NULL, no
-- path of the channel is.
pub find_iopath_random_sound :
    (rs : List ℕ) (ch : Channel) {r : Option ℕ}
    → HasIds ch
    → find_iopath_random rs ch ≡ ok (some r)
    → ((i : ℕ) × (r ≡ some i) × Available ch.iopath_list i) ⊎ ((r ≡ none) × AllDown ch.iopath_list)
unfolding find_iopath_random
find_iopath_random_sound [] ch ids e = cc
find_iopath_random_sound (d ∷ ds) ch {r} ids e = elim (Bool-cases (ch.max_id == 0)) [
  | inl zero_paths ↦ absurd (ground arith)
  | inr some_paths ↦ elim (Draw-cases (random_loop ch.max_id (d % ch.max_id) 0 0 ch.iopath_list)) [
    | inl (k, hit) ↦
        let (j, sum, a) = random_loop-found _ _ _ _ ch.iopath_list hit in
        let back : k ≡ j = omega arith in inl (j, ground arith, a)
    | inr (inl lost) ↦
        let (_, down) =
          random_loop-gives_up _ _ 0 0 ch.iopath_list (omega (arith, ids.count)) (omega arith)
            lost in
        inr (ground arith, down)
    | inr (inr more) ↦
        find_iopath_random_sound ds ch ids (rw (some_paths, more, find_iopath_random) at e)
  ]
]

-- `ump_find_iopath_random` ends as soon as a number is drawn that stands for an available path,
-- whatever was drawn before.
pub find_iopath_random_ends :
    (before : List ℕ) (d : ℕ) (after : List ℕ) (ch : Channel)
    → HasIds ch
    → 0 < ch.max_id
    → Available ch.iopath_list (d % ch.max_id)
    → (r : Option ℕ) × (find_iopath_random (before ++ (d ∷ after)) ch ≡ ok (some r))
unfolding find_iopath_random
find_iopath_random_ends [] d after ch ids pos a =
    let n : ℕ = ch.max_id in
    let hit : random_loop n (d % n) 0 0 ch.iopath_list ≡ found (d % n) =
      random_loop_hit n (d % n) 0 0 (d % n) ch.iopath_list
        (λ i p at. ids.places i p at ∙ omega arith) (omega arith) a in
    (some (d % n), ground arith)
find_iopath_random_ends (b ∷ before) d after ch ids pos a =
    let (r, e) = find_iopath_random_ends before d after ch ids pos a in
    elim (Draw-cases (random_loop ch.max_id (b % ch.max_id) 0 0 ch.iopath_list)) [
      | inl (k, hit) ↦ (some k, ground arith)
      | inr (inl lost) ↦ (none, ground arith)
      | inr (inr more) ↦ (r, ground arith)
    ]
