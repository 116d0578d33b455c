-- ===== src/DataPath/Traffic/Success.antt =====
-- sump_data.c and sump_ctrl.c: what the callers are told.
use sump.Base.{
  ℕ, zero, suc, ◌≡◌, subst, Bool, true, List, [], ◌∷◌, some, Outcome, ok, >>=-eq-ok, arith,
  Option-cases, inl, inr,
}
use sump.Bdev.{Io, Callback}
use sump.DataPath.{Lane, Reply, Effect, submit_request, io_completion_cb}
use sump.DataPath.Traffic.{
  Traffic, Move, asks, ends, probes, note, pick, noted, finish, probe, move, moves, quiet,
}
use sump.DataPath.Traffic.Callbacks.{
  is_wrapped, Carries, submit_request-Carries, io_completion_cb-Carries,
}

-- Every callback that was called was told of a success.
abbrev pub AllSucceed : List (Callback × Bool) → Type 0
AllSucceed [] = Unit {0}
AllSucceed ((cb, success) ∷ cbs) = (success ≡ true) × AllSucceed cbs

-- The I/O that a path's bdev has calls sump back.
abbrev pub AllWrapped : List Io → Type 0
AllWrapped [] = Unit {0}
AllWrapped (io ∷ ios) = (is_wrapped io.cb ≡ true) × AllWrapped ios

abbrev pub IsQuiet : Traffic → Type 0
IsQuiet t = AllWrapped t.in_flight × AllSucceed t.finished

note-IsQuiet :
    (real : Callback) (e : Effect) (t : Traffic)
    → Carries real e
    → IsQuiet t
    → IsQuiet (note real e t)
unfolding note
note-IsQuiet real Effect.nothing t c q = q
note-IsQuiet real (Effect.submitted path io_channel bdev io) t c (w, s) = ((c.1, w), s)
note-IsQuiet real (Effect.completed cb success io) t c (w, s) = (w, (c.1, s))

noted-IsQuiet :
    (real : Callback) (t : Traffic) (o : Outcome (Lane × Effect)) {t' : Traffic}
    → ((le : Lane × Effect) → o ≡ ok le → Carries real le.1)
    → noted real t o ≡ ok t'
    → IsQuiet t
    → IsQuiet t'
noted-IsQuiet real t o {t'} c e q =
    let (le, e1, e2) = >>=-eq-ok o _ e in
    let same : note real le.1 (record t { lane = le.0 }) ≡ t' = ground arith in
    subst IsQuiet same (note-IsQuiet real le.1 (record t { lane = le.0 }) (c le e1) q)

pick-AllWrapped :
    (k : ℕ) (ios : List Io) {p : Io × List Io}
    → pick k ios ≡ some p
    → AllWrapped ios
    → (is_wrapped p.0.cb ≡ true) × AllWrapped p.1
unfolding pick
pick-AllWrapped k [] e w = cc
pick-AllWrapped zero (x ∷ xs) {p} e w =
    let same : (x, xs) ≡ p = ground arith in
    subst (λ (q : Io × List Io). (is_wrapped q.0.cb ≡ true) × AllWrapped q.1) same w
pick-AllWrapped (suc k) (x ∷ xs) {p} e (wx, w) = elim (Option-cases (pick k xs)) [
  | inl gone ↦ absurd (ground arith)
  | inr ((y, l), got) ↦
      let same : (y, x ∷ l) ≡ p = ground arith in
      let (wy, wl) = pick-AllWrapped k xs got w in
      subst (λ (q : Io × List Io). (is_wrapped q.0.cb ≡ true) × AllWrapped q.1) same (wy, (wx, wl))
]

finish-IsQuiet :
    (r : Reply) (io : Io) (cb : Callback) (success : Bool) (t : Traffic) {t' : Traffic}
    → is_wrapped cb ≡ true
    → finish r io cb success t ≡ ok t'
    → IsQuiet t
    → IsQuiet t'
unfolding finish
finish-IsQuiet r io (Callback.ump ch path real) success t w e q =
    noted-IsQuiet real t (io_completion_cb r t.lane io success path real)
      (λ le. io_completion_cb-Carries r t.lane io success path real) e q
finish-IsQuiet r io (Callback.caller n) success t w e q = absurd (ground arith)
finish-IsQuiet r io (Callback.failback ch path) success t w e q = absurd (ground arith)

move-IsQuiet :
    (r : Reply) (m : Move) (t : Traffic) {t' : Traffic}
    → move r m t ≡ ok t'
    → IsQuiet t
    → IsQuiet t'
unfolding move
move-IsQuiet r (asks io) t e q =
    noted-IsQuiet io.cb t (submit_request r t.lane io) (λ le. submit_request-Carries r t.lane io) e
      q
move-IsQuiet r (ends k success) t {t'} e (w, s) = elim (Option-cases (pick k t.in_flight)) [
  | inl gone ↦ let same : t ≡ t' = ground arith in subst IsQuiet same (w, s)
  | inr ((io, rest), got) ↦
      let (wio, wrest) = pick-AllWrapped k t.in_flight got w in
      finish-IsQuiet r io io.cb success (record t { in_flight = rest }) wio (rw (got, move) at e)
        (wrest, s)
]
move-IsQuiet r (probes e') t {t'} e q =
    let (lane, _, e1) = >>=-eq-ok (probe r e' t.lane) _ e in
    let same : record t { lane = lane } ≡ t' = ground arith in subst IsQuiet same q

pub moves-IsQuiet :
    (ms : List (Reply × Move)) (t : Traffic) {t' : Traffic}
    → moves ms t ≡ ok t'
    → IsQuiet t
    → IsQuiet t'
unfolding moves
moves-IsQuiet [] t {t'} e q = let same : t ≡ t' = ground arith in subst IsQuiet same q
moves-IsQuiet ((r, m) ∷ ms) t e q =
    let (t1, e1, e2) = >>=-eq-ok (move r m t) _ e in
    moves-IsQuiet ms t1 e2 (move-IsQuiet r m t e1 q)

-- No caller is ever told that its I/O failed: in any sequence of requests, completions, failures,
-- polls and probes that runs into no fault, from a channel with no I/O, every callback that is
-- called is told of a success.
pub moves-AllSucceed :
    (ms : List (Reply × Move)) (lane : Lane) (t : Traffic)
    → moves ms (quiet lane) ≡ ok t
    → AllSucceed t.finished
moves-AllSucceed ms lane t e = (moves-IsQuiet ms (quiet lane) e (tt, tt)).1
