-- ===== src/Select/RoundRobin.antt =====
-- `ump_find_iopath_round_robin`, over a sequence of calls.
use native.Mathlib.Nat.{mod-lt, mod-eq_of_lt, mod_self, add-zero, mod-add-mod}
use sump.Base.{
  ℕ, zero, suc, ◌+◌, ◌%◌, ◌≤◌, ◌<◌, ◌≡◌, refl, ap, ◌∙◌, ◌≢◌, false, ◌&&◌, List, [], ◌∷◌, some,
  arith, first, first-some, first-none, first_least, first_of_least, get_elem?, length, Bool-cases,
  dec_lt, Option-cases, ◌==◌, Outcome, ok, ◌>>=◌, get_elem?-lt, inl, inr,
}
use sump.IoPath.{IoPath, Channel}
use sump.Select.{is_available, turn_loop, find_iopath_round_robin}
use sump.Select.Hash.{Available}

-- The path that the call number `k` returns, with the new `turn`, for a channel that stays the
-- same: earlier calls only pass their `turn` on.
pub call : ℕ → ℕ → Channel → Outcome (ℕ × ℕ)
call zero turn ch = find_iopath_round_robin turn ch
call (suc k) turn ch = do (i, turn') ← find_iopath_round_robin turn ch; call k turn' ch

-- The first loop returns the path at place `turn`, if that is available, and nothing else.
turn_loop-some :
    (turn idx : ℕ) (ps : List IoPath) {r : ℕ}
    → turn_loop turn idx ps ≡ some r
    → (j : ℕ) × (r ≡ turn) × (turn ≡ idx + j) × Available ps j
unfolding turn_loop
turn_loop-some turn idx [] e = cc
turn_loop-some turn idx (p ∷ ps) {r} e = elim (Bool-cases (p.available && (idx == turn))) [
  | inl hit ↦ (0, ground arith, ground arith, (p, refl, ground arith))
  | inr miss ↦
      let (j, same, sum, a) =
        turn_loop-some turn (suc idx) ps {r = r} (rw (miss, turn_loop) at e) in
      (suc j, same, omega arith, a)
]

turn_loop_hit :
    (turn idx j : ℕ) (ps : List IoPath)
    → turn ≡ idx + j
    → Available ps j
    → turn_loop turn idx ps ≡ some turn
unfolding turn_loop
turn_loop_hit turn idx j [] e (p, at, up) = cc
turn_loop_hit turn idx zero (q ∷ ps) e (p, at, up) = ground arith
turn_loop_hit turn idx (suc j) (q ∷ ps) e (p, at, up) =
    ground (arith, turn_loop_hit turn (suc idx) j ps (omega arith) (p, at, up))

-- With every path available, one call returns the path at `turn`, or starts again at the first.
step :
    (turn : ℕ) (ch : Channel)
    → ((i : ℕ) → i < length ch.iopath_list → Available ch.iopath_list i)
    → 0 < length ch.iopath_list
    → turn ≤ length ch.iopath_list
    → find_iopath_round_robin turn ch
      ≡ ok (turn % length ch.iopath_list, suc (turn % length ch.iopath_list))
unfolding find_iopath_round_robin
step turn ch up some_path le = elim (dec_lt turn n) [
  | yes lt ↦
      let hit : turn_loop turn 0 ch.iopath_list ≡ some turn =
        turn_loop_hit turn 0 turn ch.iopath_list (omega arith) (up turn lt) in
      rw (hit, find_iopath_round_robin, mod-eq_of_lt lt)
  | no ge ↦ elim (Option-cases (turn_loop turn 0 ch.iopath_list)) [
    | inl miss ↦
        let (p, at, on) = up 0 some_path in
        let start : first is_available ch.iopath_list ≡ some 0 =
          first_of_least is_available ch.iopath_list 0 at on (λ j b lt e. elim lt [ ]) in
        let wrap : turn % n ≡ 0 = (let e : turn ≡ n = omega arith in rw (e, mod_self)) in
        rw (miss, start, find_iopath_round_robin, wrap)
    | inr (r, found) ↦
        let (j, _, sum, (p, at, _)) = turn_loop-some turn 0 ch.iopath_list found in
        absurd (omega (arith, get_elem?-lt ch.iopath_list j at))
  ]
]
  where
    n : ℕ
    n = length ch.iopath_list

-- As long as every one of the paths is available, the calls take them in turn, for ever: the call
-- number `k` since the start returns the path at place `k` modulo the number of paths.
pub call-rotates :
    (k turn : ℕ) (ch : Channel)
    → ((i : ℕ) → i < length ch.iopath_list → Available ch.iopath_list i)
    → 0 < length ch.iopath_list
    → turn ≤ length ch.iopath_list
    → call k turn ch
      ≡ ok ((turn + k) % length ch.iopath_list, suc ((turn + k) % length ch.iopath_list))
unfolding call
call-rotates zero turn ch up some_path le = rw (add-zero turn, call) (step turn ch up some_path le)
call-rotates (suc k) turn ch up some_path le =
    let small : turn % n < n = mod-lt turn some_path in
    rw (step turn ch up some_path le) (
      call-rotates k (suc (turn % n)) ch up some_path (omega arith) ∙ ap (λ m. ok (m, suc m)) shift)
  where
    n : ℕ
    n = length ch.iopath_list

    sums : suc (turn % n) + k ≡ turn % n + suc k
    sums = omega arith

    shift : (suc (turn % n) + k) % n ≡ (turn + suc k) % n
    shift = ap (λ x. x % n) sums ∙ mod-add-mod turn n (suc k)

-- One call, where the path at `m` is down and an earlier one is up.
step_below :
    (turn m a : ℕ) (ch : Channel) (p : IoPath)
    → get_elem? ch.iopath_list m ≡ some p
    → p.available ≡ false
    → Available ch.iopath_list a
    → a < m
    → turn ≤ m
    → (i : ℕ) × (turn' : ℕ) × (find_iopath_round_robin turn ch ≡ ok (i, turn'))
      × (i < m)
      × (turn' ≤ m)
      × Available ch.iopath_list i
unfolding find_iopath_round_robin
step_below turn m a ch p at_m down (q, at_a, up) lt le =
    elim (Option-cases (turn_loop turn 0 ch.iopath_list)) [
      | inr (r, found) ↦
          let (j, same, sum, (b, at, on)) = turn_loop-some turn 0 ch.iopath_list found in
          let ne : j ≢ m = (λ e. ground (arith, ap (get_elem? ch.iopath_list) e)) in
          let at_r : get_elem? ch.iopath_list r ≡ some b =
            (let back : r ≡ j = omega arith in rw back at) in
          (
            r,
            suc turn,
            rw (found, find_iopath_round_robin),
            omega arith,
            omega arith,
            (b, at_r, on),
          )
      | inl miss ↦ elim (Option-cases (first is_available ch.iopath_list)) [
        | inl none_up ↦
            let off : q.available ≡ false = first-none is_available ch.iopath_list a none_up at_a in
            absurd (cc)
        | inr (i, found) ↦
            let low : ¬ (a < i) = (λ far.
              let off : q.available ≡ false =
                first_least is_available ch.iopath_list a found far at_a in
              cc) in
            (
              i,
              1 + i,
              rw (miss, found, find_iopath_round_robin),
              omega arith,
              omega arith,
              first-some is_available ch.iopath_list found,
            )
      ]
    ]

-- Where a path is down, an earlier one is up and the turn is not past the one that is down, no call
-- ever returns a path after it, however many are available there, nor that path: the turn never gets
-- past the path that is down.
pub call-starves :
    (k turn m a : ℕ) (ch : Channel) (p : IoPath)
    → get_elem? ch.iopath_list m ≡ some p
    → p.available ≡ false
    → Available ch.iopath_list a
    → a < m
    → turn ≤ m
    → (i : ℕ) × (turn' : ℕ) × (call k turn ch ≡ ok (i, turn')) × (i < m)
unfolding call
call-starves zero turn m a ch p at down up lt le =
    let (i, turn', e, small, _, _) = step_below turn m a ch p at down up lt le in
    (i, turn', e, small)
call-starves (suc k) turn m a ch p at down up lt le =
    let (i, turn', e, _, small, _) = step_below turn m a ch p at down up lt le in
    let (j, t, e', lt') = call-starves k turn' m a ch p at down up lt small in (j, t, rw e e', lt')
