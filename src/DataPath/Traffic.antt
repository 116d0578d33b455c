-- ===== src/DataPath/Traffic.antt =====
-- sump_data.c and sump_ctrl.c: the I/O of a channel together with the I/O that the bdevs of its
-- paths have not completed yet, and with what the callers have been told.
pub mod Callbacks
pub mod Owners
pub mod Success
pub mod Serve
pub mod Probes
pub mod Progress
pub mod Answers
use sump.Base.{ℕ, zero, suc, Bool, List, [], ◌∷◌, ◌++◌, map, Option, none, some, Outcome, ok, ◌>>=◌}
use sump.Bdev.{Io, Callback}
use sump.DataPath.{Lane, Reply, Effect, submit_request, io_completion_cb}
use sump.DataPath.Events
use sump.DataPath.Events.{Event}

-- `in_flight` was handed to the bdevs of paths, `finished` are the callbacks that were called, with
-- their results, and `dropped` those of the I/O that went nowhere, latest first.
pub record Traffic : Type 0 where
  pub lane : Lane
  pub in_flight : List Io
  pub finished : List (Callback × Bool)
  pub dropped : List Callback

-- A caller submits an I/O; a bdev completes one of those that it has; a poller of a path that is
-- down runs, or its probe comes back.
pub data Move : Type 0 where
  asks : Io → Move
  ends : ℕ → Bool → Move
  probes : Event → Move

-- What a function did with the I/O of a caller, whose callback is given.
unfoldable pub note : Callback → Effect → Traffic → Traffic
note real Effect.nothing t = record t { dropped = real ∷ t.dropped }
note real (Effect.submitted path io_channel bdev io) t = record t { in_flight = io ∷ t.in_flight }
note real (Effect.completed cb success io) t = record t { finished = (cb, success) ∷ t.finished }

unfoldable pub pick : ℕ → List Io → Option (Io × List Io)
pick k [] = none
pick zero (io ∷ ios) = some (io, ios)
pick (suc k) (io ∷ ios) = elim (pick k ios) [ none ↦ none | some (x, rest) ↦ some (x, io ∷ rest) ]

abbrev pub noted : Callback → Traffic → Outcome (Lane × Effect) → Outcome Traffic
noted real t o = o >>= λ le. ok (note real le.1 (record t { lane = le.0 }))

-- A bdev completes an I/O: its callback is called.
unfoldable pub finish : Reply → Io → Callback → Bool → Traffic → Outcome Traffic
finish r io (Callback.ump ch path real) success t =
    noted real t (io_completion_cb r t.lane io success path real)
finish r io (Callback.caller n) success t =
    ok (record t { finished = (Callback.caller n, success) ∷ t.finished })
finish r io (Callback.failback ch path) success t =
    ok (record t { finished = (Callback.failback ch path, success) ∷ t.finished })

-- The events of the probers that are not about the I/O of callers.
unfoldable pub probe : Reply → Event → Lane → Outcome Lane
probe r (Event.polls k) lane = Events.step r (Event.polls k) lane
probe r (Event.probed k success) lane = Events.step r (Event.probed k success) lane
probe r (Event.request io) lane = ok lane
probe r (Event.completes io success path real) lane = ok lane

unfoldable pub move : Reply → Move → Traffic → Outcome Traffic
unfolding finish probe pick
move r (asks io) t = noted io.cb t (submit_request r t.lane io)
move r (ends k success) t = elim (pick k t.in_flight) [
  | none ↦ ok t
  | some (io, rest) ↦ finish r io io.cb success (record t { in_flight = rest })
]
move r (probes e) t = probe r e t.lane >>= λ lane. ok (record t { lane = lane })

unfoldable pub moves : List (Reply × Move) → Traffic → Outcome Traffic
moves [] t = ok t
moves ((r, m) ∷ ms) t = move r m t >>= moves ms

-- The channel before any I/O.
abbrev pub quiet : Lane → Traffic
quiet lane = record { lane = lane; in_flight = []; finished = []; dropped = [] }
