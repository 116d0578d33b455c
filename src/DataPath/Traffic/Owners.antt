-- ===== src/DataPath/Traffic/Owners.antt =====
-- sump_data.c and sump_ctrl.c: whose I/O is where.
use mathlib.Core.Quot
use mathlib.Core.Quot.{Quot, Quot-set}
use sump.Base.{
  ℕ, zero, suc, ◌+◌, ◌≡◌, refl, sym, ap, ◌∙◌, Bool, true, List, [], ◌∷◌, ◌++◌, some, Outcome, ok,
  >>=-eq-ok, arith, inl, inr, Option-cases,
}
use sump.Bdev.{Io, Callback}
use sump.DataPath.{Lane, Reply, Effect, submit_request, io_completion_cb}
use sump.DataPath.Traffic.{
  Traffic, Move, asks, ends, probes, note, pick, noted, finish, probe, move, moves,
}
use sump.DataPath.Traffic.Callbacks.{
  count, Owners, owner, held, told, owned, asked, Carries, submit_request-Carries,
  io_completion_cb-Carries, IsKept, AllAlloc, submit_request-IsKept, io_completion_cb-IsKept,
}

module _ (f : Callback → Bool) where
  pub count-append : (xs ys : List Callback) → count f (xs ++ ys) ≡ count f xs + count f ys
  count-append [] ys = omega arith
  count-append (x ∷ xs) ys = omega (arith, count-append xs ys)

  count-owned :
      (t : Traffic)
      → count f (owned t)
        ≡ count f (held t.in_flight) + count f (told t.finished) + count f t.dropped
  count-owned t = omega (
    arith,
    count-append (held t.in_flight ++ told t.finished) t.dropped,
    count-append (held t.in_flight) (told t.finished),
  )

  -- What is noted of an effect adds the one callback that it is about.
  note-owned :
      (real : Callback) (e : Effect) (t : Traffic)
      → Carries real e
      → count f (owned (note real e t)) ≡ count f (real ∷ []) + count f (owned t)
  unfolding note
  note-owned real Effect.nothing t c =
      omega (arith, count-owned t, count-owned (note real Effect.nothing t))
  note-owned real (Effect.submitted path io_channel bdev io) t c =
      let n = note real (Effect.submitted path io_channel bdev io) t in
      let same : count f (owner io.cb ∷ []) ≡ count f (real ∷ []) =
        ap (λ cb. count f (cb ∷ [])) c.0 in
      omega (arith, count-owned t, count-owned n, same)
  note-owned real (Effect.completed cb success io) t (c, s) =
      let n = note real (Effect.completed cb success io) t in
      let same : count f (cb ∷ []) ≡ count f (real ∷ []) = ap (λ cb. count f (cb ∷ [])) c in
      omega (arith, count-owned t, count-owned n, same)

  abbrev picked : Io × List Io → ℕ
  picked (io, rest) = count f (owner io.cb ∷ held rest)

  pick-held :
      (k : ℕ) (ios : List Io) {p : Io × List Io}
      → pick k ios ≡ some p
      → count f (held ios) ≡ picked p
  unfolding pick
  pick-held k [] e = cc
  pick-held zero (x ∷ xs) {p} e = let same : (x, xs) ≡ p = ground arith in ap picked same
  pick-held (suc k) (x ∷ xs) {p} e = elim (Option-cases (pick k xs)) [
    | inl gone ↦ absurd (ground arith)
    | inr ((y, l), got) ↦
        let same : (y, x ∷ l) ≡ p = ground arith in
        let less : count f (held xs) ≡ picked (y, l) = pick-held k xs got in
        (let swap : count f (held (x ∷ xs)) ≡ picked (y, x ∷ l) = omega arith in
          swap ∙ ap picked same)
  ]

  noted-owned :
      (real : Callback) (t : Traffic) (o : Outcome (Lane × Effect)) {t' : Traffic}
      → ((le : Lane × Effect) → o ≡ ok le → Carries real le.1)
      → noted real t o ≡ ok t'
      → count f (owned t') ≡ count f (real ∷ []) + count f (owned t)
  noted-owned real t o {t'} c e =
      let (le, e1, e2) = >>=-eq-ok o _ e in
      let same : note real le.1 (record t { lane = le.0 }) ≡ t' = ground arith in
      ap (λ x. count f (owned x)) (sym same)
      ∙ note-owned real le.1 (record t { lane = le.0 }) (c le e1)

  finish-owned :
      (r : Reply) (io : Io) (cb : Callback) (success : Bool) (t : Traffic) {t' : Traffic}
      → finish r io cb success t ≡ ok t'
      → count f (owned t') ≡ count f (owner cb ∷ []) + count f (owned t)
  unfolding finish
  finish-owned r io (Callback.ump ch path real) success t e =
      noted-owned real t (io_completion_cb r t.lane io success path real)
        (λ le. io_completion_cb-Carries r t.lane io success path real) e
  finish-owned r io (Callback.caller n) success t {t'} e =
      let done : Traffic = record t { finished = (Callback.caller n, success) ∷ t.finished } in
      let same : done ≡ t' = ground arith in
      ap (λ x. count f (owned x)) (sym same) ∙ omega (arith, count-owned done, count-owned t)
  finish-owned r io (Callback.failback ch path) success t {t'} e =
      let done : Traffic = record t {
        finished = (Callback.failback ch path, success) ∷ t.finished;
      } in
      let same : done ≡ t' = ground arith in
      ap (λ x. count f (owned x)) (sym same) ∙ omega (arith, count-owned done, count-owned t)

  move-owned :
      (r : Reply) (m : Move) (t : Traffic) {t' : Traffic}
      → move r m t ≡ ok t'
      → count f (owned t') ≡ count f (asked ((r, m) ∷ [])) + count f (owned t)
  unfolding move
  move-owned r (asks io) t e =
      noted-owned io.cb t (submit_request r t.lane io) (λ le. submit_request-Carries r t.lane io) e
  move-owned r (ends k success) t {t'} e = elim (Option-cases (pick k t.in_flight)) [
    | inl gone ↦
        let same : t ≡ t' = ground arith in ap (λ x. count f (owned x)) (sym same) ∙ omega arith
    | inr ((io, rest), got) ↦
        let less : Traffic = record t { in_flight = rest } in
        omega (
          arith,
          pick-held k t.in_flight got,
          finish-owned r io io.cb success less (rw (got, move) at e),
          count-owned t,
          count-owned less,
        )
  ]
  move-owned r (probes e') t {t'} e =
      let (lane, _, e1) = >>=-eq-ok (probe r e' t.lane) _ e in
      let same : record t { lane = lane } ≡ t' = ground arith in
      ap (λ x. count f (owned x)) (sym same) ∙ omega arith

  asked-cons :
      (r : Reply) (m : Move) (ms : List (Reply × Move))
      → count f (asked ((r, m) ∷ ms)) ≡ count f (asked ((r, m) ∷ [])) + count f (asked ms)
  asked-cons r (asks io) ms = omega arith
  asked-cons r (ends k success) ms = omega arith
  asked-cons r (probes e) ms = omega arith

  pub moves-owned :
      (ms : List (Reply × Move)) (t : Traffic) {t' : Traffic}
      → moves ms t ≡ ok t'
      → count f (owned t') ≡ count f (asked ms) + count f (owned t)
  unfolding moves
  moves-owned [] t {t'} e =
      let same : t ≡ t' = ground arith in ap (λ x. count f (owned x)) (sym same) ∙ omega arith
  moves-owned ((r, m) ∷ ms) t {t'} e =
      let (t1, e1, e2) = >>=-eq-ok (move r m t) _ e in
      omega (arith, asked-cons r m ms, move-owned r m t e1, moves-owned ms t1 e2)

noted-dropped :
    (real : Callback) (t : Traffic) (o : Outcome (Lane × Effect)) {t' : Traffic}
    → ((le : Lane × Effect) → o ≡ ok le → IsKept le.1)
    → noted real t o ≡ ok t'
    → t'.dropped ≡ t.dropped
unfolding note
noted-dropped real t o {t'} kept e =
    let (le, e1, e2) = >>=-eq-ok o _ e in
    let same : note real le.1 (record t { lane = le.0 }) ≡ t' = ground arith in
    ap (λ x. x.dropped) (sym same) ∙ note-dropped le.1 le.0 (kept le e1)
  where
    note-dropped :
        (x : Effect) (lane : Lane)
        → IsKept x
        → (note real x (record t { lane = lane })).dropped ≡ t.dropped
    note-dropped Effect.nothing lane k = absurd k
    note-dropped (Effect.submitted path io_channel bdev io) lane k = refl
    note-dropped (Effect.completed cb success io) lane k = refl

finish-dropped :
    (r : Reply) (io : Io) (cb : Callback) (success : Bool) (t : Traffic) {t' : Traffic}
    → r.alloc_ctx ≡ true
    → finish r io cb success t ≡ ok t'
    → t'.dropped ≡ t.dropped
unfolding finish
finish-dropped r io (Callback.ump ch path real) success t got e =
    noted-dropped real t (io_completion_cb r t.lane io success path real)
      (λ le. io_completion_cb-IsKept r t.lane io success path real got) e
finish-dropped r io (Callback.caller n) success t {t'} got e =
    let done : Traffic = record t { finished = (Callback.caller n, success) ∷ t.finished } in
    let same : done ≡ t' = ground arith in ap (λ x. x.dropped) (sym same)
finish-dropped r io (Callback.failback ch path) success t {t'} got e =
    let done : Traffic = record t {
      finished = (Callback.failback ch path, success) ∷ t.finished;
    } in
    let same : done ≡ t' = ground arith in ap (λ x. x.dropped) (sym same)

move-dropped :
    (r : Reply) (m : Move) (t : Traffic) {t' : Traffic}
    → r.alloc_ctx ≡ true
    → move r m t ≡ ok t'
    → t'.dropped ≡ t.dropped
unfolding move
move-dropped r (asks io) t got e =
    noted-dropped io.cb t (submit_request r t.lane io) (λ le. submit_request-IsKept r t.lane io got)
      e
move-dropped r (ends k success) t {t'} got e = elim (Option-cases (pick k t.in_flight)) [
  | inl gone ↦ let same : t ≡ t' = ground arith in ap (λ x. x.dropped) (sym same)
  | inr ((io, rest), at) ↦
      finish-dropped r io io.cb success (record t { in_flight = rest }) got (rw (at, move) at e)
]
move-dropped r (probes e') t {t'} got e =
    let (lane, _, e1) = >>=-eq-ok (probe r e' t.lane) _ e in
    let same : record t { lane = lane } ≡ t' = ground arith in ap (λ x. x.dropped) (sym same)

moves-dropped :
    (ms : List (Reply × Move)) (t : Traffic) {t' : Traffic}
    → AllAlloc ms
    → moves ms t ≡ ok t'
    → t'.dropped ≡ t.dropped
unfolding moves
moves-dropped [] t {t'} got e = let same : t ≡ t' = ground arith in ap (λ x. x.dropped) (sym same)
moves-dropped ((r, m) ∷ ms) t {t'} (now, later) e =
    let (t1, e1, e2) = >>=-eq-ok (move r m t) _ e in
    moves-dropped ms t1 later e2 ∙ move-dropped r m t now e1

-- More callbacks, whatever the order.
unfoldable pub join : List Callback → Owners → Owners
join cbs =
    Quot.lift Quot-set (λ xs. Quot.mk (cbs ++ xs))
      λ xs ys same.
        Quot.sound λ f. omega (arith, count-append f cbs xs, count-append f cbs ys, same f)

-- The abstract view of the traffic of a channel: whose I/O is in flight or finished.
unfoldable pub view : Traffic → Owners
view t = Quot.mk (held t.in_flight ++ told t.finished)

-- No I/O is lost: after any sequence of requests, completions in any order, failures, polls and
-- probes that runs into no fault, and in which the context of every I/O is allocated, the callbacks
-- of the I/O that the bdevs have or that is finished are those that there were and those of the new
-- requests, each as often.
pub moves-view :
    (ms : List (Reply × Move)) (t t' : Traffic)
    → AllAlloc ms
    → moves ms t ≡ ok t'
    → view t' ≡ join (asked ms) (view t)
unfolding view join
moves-view ms t t' got e =
    let before : List Callback = held t.in_flight ++ told t.finished in
    let after : List Callback = held t'.in_flight ++ told t'.finished in
    Quot.sound λ f. omega (
      arith,
      moves-owned f ms t e,
      count-append f (asked ms) before,
      count-append f before t.dropped,
      count-append f after t'.dropped,
      ap (count f) (moves-dropped ms t got e),
    )
