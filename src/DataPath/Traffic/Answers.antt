-- ===== src/DataPath/Traffic/Answers.antt =====
-- sump_data.c and sump_ctrl.c: every caller is answered once, and told of a success.
use sump.Base.{
  ℕ, ◌+◌, ◌≡◌, refl, sym, ap, subst, ◌∙◌, true, List, [], ◌∷◌, none, some, arith, length, ok,
}
use sump.Bdev.{Io, Callback}
use sump.DataPath.{Lane, Reply}
use sump.DataPath.Traffic.{Traffic, Move, ends, note, pick, finish, move, moves, quiet}
use sump.DataPath.Traffic.Callbacks.{count, SameItems, asked, told, owned}
use sump.DataPath.Traffic.Owners.{count-append, moves-owned}
use sump.DataPath.Traffic.Success.{AllSucceed, moves-IsQuiet}
use sump.DataPath.Traffic.Serve.{Serves, HasPath, success-Serves}
use sump.DataPath.Traffic.Progress.{AllSent, IsServed, AllReliable, AllSent-length, moves-IsServed}

-- Each I/O in flight completes well, the latest first.
abbrev pub drain : Reply → List Io → List (Reply × Move)
drain r [] = []
drain r (io ∷ ios) = (r, ends 0 true) ∷ drain r ios

asked-drain : (r : Reply) (ios : List Io) → asked (drain r ios) ≡ []
asked-drain r [] = refl
asked-drain r (io ∷ ios) = asked-drain r ios

-- A success takes its I/O out of what is in flight, and adds nothing.
finish_well :
    (a : ℕ) (r : Reply) (io : Io) (cb : Callback) (t : Traffic)
    → IsServed a t
    → HasPath (length t.lane.channel.iopath_list) cb
    → (t' : Traffic) × (finish r io cb true t ≡ ok t')
      × IsServed a t'
      × (t'.in_flight ≡ t.in_flight)
      × (t'.dropped ≡ t.dropped)
unfolding finish note
finish_well a r io (Callback.ump ch (some i) real) t (s, flight) lt =
    let (lane', e, s', size) = success-Serves a i r t.lane io real s lt in
    (
      record t { lane = lane'; finished = (real, true) ∷ t.finished },
      rw e refl,
      (s', AllSent-length _ _ t.in_flight (sym size) flight),
      refl,
      refl,
    )
finish_well a r io (Callback.ump ch none real) t s lt = absurd lt
finish_well a r io (Callback.caller k) t s lt = absurd lt
finish_well a r io (Callback.failback ch path) t s lt = absurd lt

drain-empties :
    (a : ℕ) (r : Reply) (ios : List Io) (t : Traffic)
    → t.in_flight ≡ ios
    → IsServed a t
    → (t' : Traffic) × (moves (drain r ios) t ≡ ok t')
      × (t'.in_flight ≡ [])
      × (t'.dropped ≡ t.dropped)
unfolding moves move pick
drain-empties a r [] t e s = (t, refl, e, refl)
drain-empties a r (io ∷ ios) t e (s, flight) =
    let ((blocks, path), others) = subst (AllSent (length t.lane.channel.iopath_list)) e flight in
    let (t1, e1, s1, f1, d1) =
      finish_well a r io io.cb (record t { in_flight = ios }) (s, others) path in
    let first : move r (ends 0 true) t ≡ ok t1 = ground (arith, e, e1) in
    let (t2, e2, f2, d2) = drain-empties a r ios t1 f1 s1 in (t2, rw first e2, f2, d2 ∙ d1)

-- On a channel with one path whose I/O never fails, every caller is answered, once, and with a
-- success: after any requests, completions and failures on the other paths, and any polls and
-- probes, no fault is met, and once the bdevs complete what is in flight, nothing is in flight, the
-- callbacks called are those of the requests, each as often, and all were told of a success. The
-- channel is ready and has no I/O at first, its probers have paths of it, each with a reconnect
-- poller, memory can be had, every I/O has at least one block, and no prober whose context was freed
-- runs or is answered with a success.
pub moves-drain :
    (a : ℕ) (ms : List (Reply × Move)) (lane : Lane) (r : Reply)
    → Serves a lane
    → AllReliable a ms (quiet lane)
    → (t t' : Traffic) × (moves ms (quiet lane) ≡ ok t)
      × (moves (drain r t.in_flight) t ≡ ok t')
      × (t'.in_flight ≡ [])
      × SameItems (told t'.finished) (asked ms)
      × AllSucceed t'.finished
moves-drain a ms lane r s reliable =
    let (t, e, served, d) = moves-IsServed a ms (quiet lane) (s, tt) reliable in
    let (t', e', empty, d') = drain-empties a r t.in_flight t refl served in
    (
      t,
      t',
      e,
      e',
      empty,
      (λ f.
          let before : count f (owned t) ≡ count f (asked ms) + 0 =
            moves-owned f ms (quiet lane) e in
          let after : count f (owned t')
              ≡ count f (asked (drain r t.in_flight)) + count f (owned t) =
            moves-owned f (drain r t.in_flight) t e' in
          let none_new : count f (asked (drain r t.in_flight)) ≡ 0 =
            ap (count f) (asked-drain r t.in_flight) in
          let all_told : count f (owned t') ≡ count f (told t'.finished) + 0 =
            rw (empty, d' ∙ d) (count-append f (told t'.finished) []) in
          omega (arith, before, after, none_new, all_told)),
      (moves-IsQuiet (drain r t.in_flight) t e' (moves-IsQuiet ms (quiet lane) e (tt, tt))).1,
    )
