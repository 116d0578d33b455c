-- ===== src/Tests/Exchange.antt =====
-- The I/O of a channel and of its bdevs, in concrete runs.
use sump.Base.{
  ℕ, ◌≡◌, refl, true, false, List, [], ◌∷◌, some, arith, Outcome, ok, fault, first, subst, ap, ◌∙◌,
}
use sump.Tests.Data.{path_of, two_paths-HasIds, read_at, reply, lane_of}
use sump.Bdev.{Io, Callback}
use sump.TimeQueue
use sump.Select.{find_iopath, find_iopath_hash, hash_loops, hash_id}
use sump.Channels.{set_count}
use sump.DataPath.{
  Lane, Reply, submit_request, io_completion_cb, complete_success, complete_failure, failback,
  update_io_time,
}
use sump.DataPath.Events.{Event}
use sump.DataPath.Traffic.{
  Traffic, Move, asks, ends, probes, note, pick, finish, move, moves, quiet,
}
use sump.DataPath.Traffic.Callbacks.{asked, told, SameItems}
use sump.DataPath.Traffic.Owners.{view, join, moves-view}
use sump.DataPath.Traffic.Serve.{Serves}
use sump.DataPath.Traffic.Progress.{AllReliable, Elsewhere}
use sump.DataPath.Traffic.Success.{AllSucceed}
use sump.DataPath.Traffic.Answers.{drain, moves-drain}

abbrev sent_to_1 : Io
sent_to_1 = record (read_at 8) { cb = Callback.ump 40 (some 1) (Callback.caller 3) }

-- Two paths, and a read on the second one.
abbrev busy : Traffic
busy = record { lane = lane_of true; in_flight = sent_to_1 ∷ []; finished = []; dropped = [] }

abbrev then_of : Outcome Traffic → Traffic
then_of (ok t) = t
then_of (fault f) = busy

-- The read fails, is sent on the other path, and is done.
abbrev fails_over : List (Reply × Move)
fails_over = (reply, ends 0 false) ∷ (reply, ends 0 true) ∷ []

abbrev over : Traffic
unfolding moves move pick finish io_completion_cb complete_failure failback complete_success
    submit_request find_iopath find_iopath_hash hash_loops hash_id set_count first update_io_time
    sump.TimeQueue.update_io_time_detail sump.TimeQueue.init note
over = then_of (moves fails_over busy)

over_run : moves fails_over busy ≡ ok over
unfolding moves move pick finish io_completion_cb complete_failure failback complete_success
    submit_request find_iopath find_iopath_hash hash_loops hash_id set_count first update_io_time
    sump.TimeQueue.update_io_time_detail sump.TimeQueue.init note
over_run = refl

both-Serves : Serves 0 (lane_of true)
both-Serves = record {
  ready = record { ids = two_paths-HasIds true; four = refl; room = omega arith };
  spare = (path_of 0 true, refl, refl);
  inside = λ k q e. cc;
  polled = λ k q p e on. cc;
}

moves-view_example :
    let ms : List (Reply × Move) = fails_over in
    let t : Traffic = busy in let t' : Traffic = over in view t' ≡ join (asked ms) (view t)
moves-view_example = moves-view (fails_over) (busy) (over) (refl, (refl, tt)) (over_run)

-- A read goes to the second path, and fails; the probe of that path fails too.
abbrev asks_and_fails : List (Reply × Move)
asks_and_fails =
    (reply, asks (read_at 8)) ∷ (reply, ends 0 false) ∷ (reply, probes (Event.probed 0 false)) ∷ []

its_path :
    (t : Traffic)
    → move reply (asks (read_at 8)) (quiet (lane_of true)) ≡ ok t
    → (io : Io) (rest : List Io) → pick 0 t.in_flight ≡ some (io, rest)
    → Elsewhere 0 io.cb
unfolding move pick submit_request find_iopath find_iopath_hash hash_loops hash_id set_count first
    note
its_path t e io rest p =
    let flight : sent_to_1 ∷ [] ≡ t.in_flight = ground arith in
    let there : some (sent_to_1, []) ≡ some (io, rest) = ap (pick 0) flight ∙ p in
    let same : sent_to_1 ≡ io = ground arith in
    subst (λ (x : Io). Elsewhere 0 x.cb) same (λ q. ground (arith, q))

asks_and_fails-AllReliable : AllReliable 0 asks_and_fails (quiet (lane_of true))
unfolding AllReliable
asks_and_fails-AllReliable = (
  (refl, (λ z. omega (arith, z))),
  λ t e. ((refl, refl, its_path t e), λ t' e'. (tt, λ t2 e2. tt)),
)

moves-drain_example :
    let a : ℕ = 0 in
    let ms : List (Reply × Move) = asks_and_fails in
    let lane : Lane = lane_of true in
    let r : Reply = reply in
    (t t' : Traffic) × (moves ms (quiet lane) ≡ ok t)
    × (moves (drain r t.in_flight) t ≡ ok t')
    × (t'.in_flight ≡ [])
    × SameItems (told t'.finished) (asked ms)
    × AllSucceed t'.finished
moves-drain_example =
    moves-drain (0) (asks_and_fails) (lane_of true) (reply) (both-Serves)
      (asks_and_fails-AllReliable)
