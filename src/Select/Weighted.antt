-- ===== src/Select/Weighted.antt =====
-- sump_ctrl.c `ump_find_iopath_random_weight_static`.
use sump.Base.{
  ℕ, ◌*◌, ◌%◌, ◌^◌, ◌<◌, ◌≡◌, ◌≢◌, inl, inr, refl, ◌∙◌, Bool, true, false, List, [], ◌∷◌, Option,
  none, some, arith, u32, ◌==◌, if◌then◌else◌, first, first-some, get_elem?, Bool-cases,
  Option-cases, Outcome, ok, fault, Fault, ◌>>=◌,
}
use sump.IoPath.{IoPath, Channel}
use sump.Select.{is_available, is_chosen}
use sump.Select.Hash.{AllDown}

-- The arithmetic of C's `float`, as the function uses it: the literals 0.5, 0.2 and 0.1, the sum, the
-- quotient by an `int`, the value of an `int`, and `<`.
pub record Floats (F : Type 0) : Type 0 where
  pub half : F
  pub fifth : F
  pub tenth : F
  pub plus : F → F → F
  pub over : F → ℕ → F
  pub of_int : ℕ → F
  pub below : F → F → Bool

-- `factor1`, an `int`, where it is below 2^31.
abbrev pub factor1 : Channel → ℕ
factor1 ch = u32 (4 * ch.max_id)

-- Of the ids, none or one below 4.
abbrev IsLow : Option ℕ → Type 0
IsLow none = Unit {0}
IsLow (some i) = i < 4

-- A path of low id can be used.
abbrev pub Reachable : List IoPath → ℕ → Type 0
Reachable paths i = (p : IoPath) × (get_elem? paths i ≡ some p) × (p.available ≡ true) × (p.id < 4)

module _ {F : Type 0} (c : Floats F) where
  -- `s[0]` to `s[3]`
  abbrev pub s0 : F
  s0 = c.half

  abbrev pub s1 : F
  s1 = c.plus s0 c.fifth

  abbrev pub s2 : F
  s2 = c.plus s1 c.fifth

  abbrev pub s3 : F
  s3 = c.plus s2 c.tenth

  -- The tests on `factor2`: `chose_id` keeps the value that it had (`none` if never assigned) when
  -- none of them holds.
  unfoldable pub weight_id : F → Option ℕ → Option ℕ
  weight_id factor2 old =
      if c.below factor2 s0
      then some 0
      else if c.below factor2 s1
      then some 1
      else if c.below factor2 s2
      then some 2
      else if c.below factor2 s3
      then some 3
      else old

  -- The loop over the paths: `chose_id` is read only where a path is available.
  unfoldable pub weight_loop : Option ℕ → List IoPath → Outcome (Option ℕ)
  weight_loop (some chose_id) paths = ok (first (is_chosen chose_id) paths)
  weight_loop none paths = elim (first is_available paths) [
    | none ↦ ok none
    | some i ↦ fault Fault.no_value
  ]

  -- The loop that draws: the numbers that `rand` returns are a list, and `none` says that they ran out
  -- while it was still going. The remainder traps at 0.
  unfoldable pub weight_rounds : Option ℕ → List ℕ → Channel → Outcome (Option ℕ)
  unfolding weight_id weight_loop
  weight_rounds old [] ch = ok none
  weight_rounds old (r ∷ rs) ch =
      let chose_id = weight_id (c.over (c.of_int (r % factor1 ch)) (factor1 ch)) old in
      let rest = weight_rounds chose_id rs ch in
      if factor1 ch == 0
      then fault Fault.div_by_zero
      else (weight_loop chose_id ch.iopath_list >>= λ found. elim found [
        | none ↦ rest
        | some i ↦ ok (some i)
      ])

  -- `ump_find_iopath_random_weight_static`
  unfoldable pub find_iopath_random_weight_static : List ℕ → Channel → Outcome (Option ℕ)
  unfolding weight_rounds
  find_iopath_random_weight_static rs ch = weight_rounds none rs ch

  weight_id-IsLow : (x : F) (old : Option ℕ) → IsLow old → IsLow (weight_id x old)
  unfolding weight_id
  weight_id-IsLow x old low = elim (Bool-cases (c.below x s0)) [
    | inl b0 ↦ rw b0 (omega arith)
    | inr n0 ↦ elim (Bool-cases (c.below x s1)) [
      | inl b1 ↦ rw (n0, b1) (omega arith)
      | inr n1 ↦ elim (Bool-cases (c.below x s2)) [
        | inl b2 ↦ rw (n0, n1, b2) (omega arith)
        | inr n2 ↦ elim (Bool-cases (c.below x s3)) [
          | inl b3 ↦ rw (n0, n1, n2, b3) (omega arith)
          | inr n3 ↦ rw (n0, n1, n2, n3) low
        ]
      ]
    ]
  ]

  weight_loop-Reachable :
      (chose_id : Option ℕ) (paths : List IoPath) {i : ℕ}
      → IsLow chose_id
      → weight_loop chose_id paths ≡ ok (some i)
      → Reachable paths i
  unfolding weight_loop
  weight_loop-Reachable (some k) paths {i} low e =
      let (p, at, t) = first-some (is_chosen k) paths (ground arith) in
      (p, at, ground arith, ground (arith, t))
  weight_loop-Reachable none paths low e = elim (Option-cases (first is_available paths)) [
    | inl gone ↦ absurd (ground arith)
    | inr (j, found) ↦ absurd (ground arith)
  ]

  weight_rounds-Reachable :
      (old : Option ℕ) (rs : List ℕ) (ch : Channel) {i : ℕ}
      → IsLow old
      → weight_rounds old rs ch ≡ ok (some i)
      → Reachable ch.iopath_list i
  unfolding weight_rounds
  weight_rounds-Reachable old [] ch low e = cc
  weight_rounds-Reachable old (r ∷ rs) ch {i} low e = elim (Bool-cases (factor1 ch == 0)) [
    | inl trap ↦ absurd (ground arith)
    | inr fine ↦
        let id : Option ℕ = weight_id (c.over (c.of_int (r % factor1 ch)) (factor1 ch)) old in
        let low' : IsLow id = weight_id-IsLow _ old low in
        by_found id low' (λ e'. weight_rounds-Reachable id rs ch low' e')
          (weight_loop id ch.iopath_list) refl (rw (fine, weight_rounds) at e)
  ]
    where
      by_found :
          (id : Option ℕ)
          → IsLow id
          → (weight_rounds id rs ch ≡ ok (some i) → Reachable ch.iopath_list i)
          → (o : Outcome (Option ℕ)) → weight_loop id ch.iopath_list ≡ o
          → (o >>= λ found. elim found [ none ↦ weight_rounds id rs ch | some i ↦ ok (some i) ])
            ≡ ok (some i)
          → Reachable ch.iopath_list i
      by_found id low' later (ok none) e' e = later e
      by_found id low' later (ok (some j)) e' e =
          weight_loop-Reachable id ch.iopath_list low' (e' ∙ e)
      by_found id low' later (fault f) e' e = cc

  -- With no available path, or with none of low id and a loop that has drawn one, a round is lost.
  weight_rounds-none :
      (old : Option ℕ) (rs : List ℕ) (ch : Channel)
      → factor1 ch ≢ 0
      → AllDown ch.iopath_list
      → weight_rounds old rs ch ≡ ok none
  unfolding weight_rounds
  weight_rounds-none old [] ch ne down = refl
  weight_rounds-none old (r ∷ rs) ch ne down =
      let id : Option ℕ = weight_id (c.over (c.of_int (r % factor1 ch)) (factor1 ch)) old in
      let lost : weight_loop id ch.iopath_list ≡ ok none =
        weight_loop-none id ch.iopath_list down in
      let rest : weight_rounds id rs ch ≡ ok none = weight_rounds-none id rs ch ne down in
      let fine : (factor1 ch == 0) ≡ false = ground (arith, ne) in rw (fine, lost) rest
    where
      first_none :
          (test : IoPath → Bool) (paths : List IoPath)
          → ((p : IoPath) → test p ≡ true → p.available ≡ true)
          → AllDown paths
          → first test paths ≡ none
      first_none test paths needs down = elim (Option-cases (first test paths)) [
        | inl gone ↦ gone
        | inr (i, found) ↦
            let (p, at, t) = first-some test paths found in
            let up : p.available ≡ true = needs p t in
            let off : p.available ≡ false = down i p at in cc
      ]

      weight_loop-none :
          (id : Option ℕ) (paths : List IoPath) → AllDown paths → weight_loop id paths ≡ ok none
      weight_loop-none (some k) paths down =
          rw (first_none (is_chosen k) paths (λ p t. ground arith) down, weight_loop) refl
      weight_loop-none none paths down =
          rw (first_none is_available paths (λ p t. t) down, weight_loop) refl

  -- The weights are for four paths: a path that `ump_find_iopath_random_weight_static` returns is
  -- available and has an id below 4, whatever `float` does; and with no available path, whatever is
  -- drawn, it does not return. The channel has at least one path, and fewer than 2^29.
  pub find_iopath_random_weight_static-Reachable :
      (rs : List ℕ) (ch : Channel)
      → 0 < ch.max_id
      → ch.max_id < 2 ^ 29
      → ((i : ℕ)
          → find_iopath_random_weight_static rs ch ≡ ok (some i)
          → Reachable ch.iopath_list i)
        × (AllDown ch.iopath_list → find_iopath_random_weight_static rs ch ≡ ok none)
  unfolding find_iopath_random_weight_static
  find_iopath_random_weight_static-Reachable rs ch some_path small = (
    λ i e. weight_rounds-Reachable none rs ch tt e,
    λ down. weight_rounds-none none rs ch (λ z. omega (arith, z)) down,
  )
