-- ===== src/Nvme/Paths/Round.antt =====
-- nvme/bdev_nvme.c `_bdev_nvme_find_io_path`: the loop round the list.
use sump.Base.{
  ℕ, zero, suc, ◌+◌, ◌-◌, ◌<◌, ◌≡◌, ◌≢◌, ◌⊎◌, inl, inr, refl, ap, subst, ◌∙◌, Bool, true, false,
  List, Option, none, some, arith, length, get_elem?, get_elem?-of_lt, ok, Bool-cases, dec_lt, ltb,
  if◌then◌else◌, ◌==◌,
}
use sump.Nvme.Paths.{
  AnaState, optimized, non_optimized, inaccessible, NvmePath, is_usable, Found, best, fallback,
  visit, keep_first, get_next, find_loop,
}
use sump.Nvme.Paths.Depth.{is_optimized, is_non_optimized}

-- The body of the loop, by the kind of the path.
visit_lem :
    (p : NvmePath) (i : ℕ) (r : Option ℕ)
    → ((is_optimized p ≡ true) × (visit p i r ≡ best i))
      ⊎ (((is_optimized p ≡ false)
            × (is_non_optimized p ≡ true)
            × (visit p i r ≡ fallback (keep_first r i)))
          ⊎ ((is_optimized p ≡ false) × (is_non_optimized p ≡ false) × (visit p i r ≡ fallback r)))
unfolding visit
visit_lem p i r = elim (Bool-cases (is_usable p)) [
  | inl on ↦ ana on p.ana_state refl
  | inr off ↦ inr (inr (ground arith, ground arith, ground arith))
]
  where
    ana :
        is_usable p ≡ true
        → (a : AnaState) → p.ana_state ≡ a
        → ((is_optimized p ≡ true) × (visit p i r ≡ best i))
          ⊎ (((is_optimized p ≡ false)
                × (is_non_optimized p ≡ true)
                × (visit p i r ≡ fallback (keep_first r i)))
              ⊎ ((is_optimized p ≡ false)
                  × (is_non_optimized p ≡ false)
                  × (visit p i r ≡ fallback r)))
    ana on optimized e = inl (ground arith, ground arith)
    ana on non_optimized e = inr (inl (ground arith, ground arith, ground arith))
    ana on inaccessible e = inr (inr (ground arith, ground arith, ground arith))

-- The place that is `e` places after `start` in a circle of `n`, for `e < n`.
abbrev pub around : ℕ → ℕ → ℕ → ℕ
around n start e = if ltb (start + e) n then start + e else start + e - n

-- The path at `i` is met within `e` places from `start`, and no path before it passes the test.
abbrev pub First : (NvmePath → Bool) → List NvmePath → ℕ → ℕ → ℕ → Type 0
First test paths start e i =
    (d : ℕ) × (d < e)
    × (around (length paths) start d ≡ i)
    × ((d' : ℕ) (q : NvmePath)
        → d' < d
        → get_elem? paths (around (length paths) start d') ≡ some q
        → test q ≡ false)

-- What is held in `r` is the first non-optimized path of the first `e` places from `start`.
abbrev Held : List NvmePath → ℕ → ℕ → Option ℕ → Type 0
Held paths start e r =
    (i : ℕ)
    → r ≡ some i
    → (p : NvmePath) × (get_elem? paths i ≡ some p)
      × (is_non_optimized p ≡ true)
      × First is_non_optimized paths start e i

-- Of the first `e` places after `start`, none holds an optimized path, and `r` is what is
-- remembered of the others.
pub record Seen (paths : List NvmePath) (start e : ℕ) (r : Option ℕ) : Type 0 where
  pub no_best :
      (d : ℕ) (p : NvmePath)
      → d < e
      → get_elem? paths (around (length paths) start d) ≡ some p
      → is_optimized p ≡ false
  pub no_other :
      r ≡ none
      → (d : ℕ) (p : NvmePath) → d < e
      → get_elem? paths (around (length paths) start d) ≡ some p
      → is_non_optimized p ≡ false
  pub held : Held paths start e r

Seen-more :
    (paths : List NvmePath) (start e : ℕ) (r r' : Option ℕ) (p : NvmePath)
    → get_elem? paths (around (length paths) start e) ≡ some p
    → is_optimized p ≡ false
    → (r' ≡ none → (r ≡ none) × (is_non_optimized p ≡ false))
    → Held paths start (suc e) r'
    → Seen paths start e r
    → Seen paths start (suc e) r'
Seen-more paths start e r r' p at worse same held' seen = record {
  no_best = λ d q lt at_q. elim (dec_lt d e) [
    | yes old ↦ seen.no_best d q old at_q
    | no new ↦
        let here : d ≡ e = omega arith in
        let one : p ≡ q =
          ground (arith, ap (λ x. get_elem? paths (around (length paths) start x)) here) in
        rw (← one) worse
  ];
  no_other = λ gone d q lt at_q. elim (dec_lt d e) [
    | yes old ↦ seen.no_other (same gone).0 d q old at_q
    | no new ↦
        let here : d ≡ e = omega arith in
        let one : p ≡ q =
          ground (arith, ap (λ x. get_elem? paths (around (length paths) start x)) here) in
        rw (← one) (same gone).1
  ];
  held = held';
}

next_lem :
    (n start e : ℕ)
    → start < n
    → e < n
    → (suc e < n
        → (get_next n (some (around n start e)) ≡ around n start (suc e))
          × ((get_next n (some (around n start e)) == start) ≡ false))
      × (suc e ≡ n → (get_next n (some (around n start e)) == start) ≡ true)
unfolding get_next
next_lem n start e hs he = (λ more. (ground arith, ground arith), λ last. ground arith)

unfoldable pub Sought : List NvmePath → ℕ → Found → Type 0
Sought paths start (best i) =
    (p : NvmePath) × (get_elem? paths i ≡ some p)
    × (is_optimized p ≡ true)
    × First is_optimized paths start (length paths) i
Sought paths start (fallback r) = Seen paths start (length paths) r

keep_first-some : (r : Option ℕ) (i : ℕ) → keep_first r i ≢ none
keep_first-some none i h = cc
keep_first-some (some j) i h = cc

Held-more :
    (paths : List NvmePath) (start e : ℕ) (r : Option ℕ)
    → Held paths start e r
    → Held paths start (suc e) r
Held-more paths start e r old i got =
    let (p, at, other, (d, lt, same, before)) = old i got in
    (p, at, other, (d, omega (arith, lt), same, before))

-- What is remembered is the first non-optimized path, also when the path of this place is that one.
held_first :
    (paths : List NvmePath) (start e : ℕ) (r : Option ℕ) (p : NvmePath)
    → get_elem? paths (around (length paths) start e) ≡ some p
    → is_non_optimized p ≡ true
    → Seen paths start e r
    → Held paths start (suc e) (keep_first r (around (length paths) start e))
held_first paths start e none p at other seen i got =
    let same : around (length paths) start e ≡ i = ground arith in
    (p, rw (← same) at, other, (e, omega arith, same, λ d q lt. seen.no_other refl d q lt))
held_first paths start e (some j) p at other seen i got =
    Held-more paths start e (some j) seen.held i got

module _ (fuel : ℕ) (paths : List NvmePath) (start i : ℕ) (r : Option ℕ) (p : NvmePath)
    (at : get_elem? paths i ≡ some p) where
  find_loop-best :
      {j : ℕ} → visit p i r ≡ best j → find_loop (suc fuel) paths start i r ≡ ok (some (best j))
  unfolding find_loop
  find_loop-best e = ground arith

  find_loop-stop :
      {r' : Option ℕ}
      → visit p i r ≡ fallback r'
      → (get_next (length paths) (some i) == start) ≡ true
      → find_loop (suc fuel) paths start i r ≡ ok (some (fallback r'))
  unfolding find_loop
  find_loop-stop e stop = ground arith

  find_loop-next :
      {r' : Option ℕ}
      → visit p i r ≡ fallback r'
      → (get_next (length paths) (some i) == start) ≡ false
      → find_loop (suc fuel) paths start i r
        ≡ find_loop fuel paths start (get_next (length paths) (some i)) r'
  unfolding find_loop
  find_loop-next e more = ground arith

-- The loop ends: with an optimized path, or after it has seen every path.
pub find_loop-Sought :
    (fuel e : ℕ) (paths : List NvmePath) (start : ℕ) (r : Option ℕ)
    → e + fuel ≡ length paths
    → e < length paths
    → start < length paths
    → Seen paths start e r
    → (f : Found) × (find_loop fuel paths start (around (length paths) start e) r ≡ ok (some f))
      × Sought paths start f
unfolding find_loop Sought
find_loop-Sought zero e paths start r sum he hs seen = absurd (omega arith)
find_loop-Sought (suc fuel) e paths start r sum he hs seen =
    let n : ℕ = length paths in
    let here : ℕ = around n start e in
    let inside : here < n = ground arith in
    let (p, at) = get_elem?-of_lt paths here inside in
    elim (visit_lem p here r) [
      | inl (good, e1) ↦ (
        best here,
        find_loop-best fuel paths start here r p at e1,
        (p, at, good, (e, he, refl, seen.no_best)),
      )
      | inr (inl (worse, other, e1)) ↦
          let r' : Option ℕ = keep_first r here in
          go fuel p at e1
            (Seen-more paths start e r r' p at worse (λ gone. absurd (keep_first-some r here gone))
              (held_first paths start e r p at other seen) seen)
            (find_loop-Sought fuel (suc e) paths start r' (omega arith))
      | inr (inr (worse, off, e1)) ↦
          go fuel p at e1
            (Seen-more paths start e r r p at worse (λ gone. (gone, off))
              (Held-more paths start e r seen.held) seen)
            (find_loop-Sought fuel (suc e) paths start r (omega arith))
    ]
  where
    go :
        (fuel : ℕ) (p : NvmePath)
        → get_elem? paths (around (length paths) start e) ≡ some p
        → {r' : Option ℕ} → visit p (around (length paths) start e) r ≡ fallback r'
        → Seen paths start (suc e) r'
        → (suc e < length paths
            → start < length paths
            → Seen paths start (suc e) r'
            → (f : Found) × (find_loop fuel paths start (around (length paths) start (suc e)) r'
                ≡ ok (some f))
              × Sought paths start f)
        → (f : Found) × (find_loop (suc fuel) paths start (around (length paths) start e) r
            ≡ ok (some f))
          × Sought paths start f
    go fuel p at {r'} e1 seen' later = elim (dec_lt (suc e) (length paths)) [
      | yes more ↦
          let (same, off) = (next_lem (length paths) start e hs he).0 more in
          let (f, e2, sought) = later more hs seen' in
          (
            f,
            find_loop-next fuel paths start (around (length paths) start e) r p at e1 off
                ∙ ap (λ x. find_loop fuel paths start x r') same
                ∙ e2,
            sought,
          )
      | no last ↦
          let end : suc e ≡ length paths = omega arith in
          let stop : (get_next (length paths) (some (around (length paths) start e)) == start)
              ≡ true =
            (next_lem (length paths) start e hs he).1 end in
          (
            fallback r',
            find_loop-stop fuel paths start (around (length paths) start e) r p at e1 stop,
            subst (λ k. Seen paths start k r') end seen',
          )
    ]
