-- ===== src/Tests/Traffic.antt =====
-- The I/O of a channel, on concrete requests, failures and probes.
use sump.Base.{
  ℕ, ◌≡◌, ◌⊎◌, refl, true, false, List, [], ◌∷◌, some, arith, ok, fault, Fault, get_elem?, u64_max,
  first,
}
use sump.Tests.Data.{path_of, two_paths-HasIds, read_at, reply, lane_of, marked_lane}
use sump.Bdev.{Io, Callback}
use sump.IoPath.{IoPath}
use sump.Select.{find_iopath, find_iopath_hash, hash_loops, hash_id}
use sump.Select.Hash.{AllDown}
use sump.Channels.{set_count}
use sump.DataPath.{
  Lane, Reply, Effect, submitted, completed, Prober, submit_request, io_completion_cb,
  complete_failure, failback, failback_io_completion_cb,
}
use sump.DataPath.Submit.{IsReady, Sent, submit_request_lem}
use sump.DataPath.Failover.{fail_times, fail_times-exhausts}
use sump.DataPath.Down.{available_count}
use sump.DataPath.Complete.{io_incomplete-wraps}
use sump.DataPath.Events.{Event, request, completes, step, run, IsDead}
use sump.DataPath.Recovery.{IsRecovered, second_failure, probe-recovers}

both-IsReady : IsReady (lane_of true)
both-IsReady = record { ids = two_paths-HasIds true; four = refl; room = omega arith }

sent_at_8 : Sent reply (lane_of true) (read_at 8) 1
unfolding submit_request find_iopath find_iopath_hash hash_loops hash_id set_count first
sent_at_8 = record { path = path_of 1 true; found = refl; up = refl; result = refl }

abbrev prober : Prober
prober = record { path = 1; probe = read_at 8; poller = 60; paused = false; freed = false }

-- What spdk answers later, with another poller.
abbrev later_reply : Reply
later_reply = record reply { ticks = 35; poller = 61 }

-- A path that the poller 60 reconnects.
abbrev polled_path : IoPath
polled_path = record (path_of 1 false) { reconnecting = true; reconnect_poller = some 60 }

abbrev polled_lane : Lane
polled_lane = record (lane_of true) {
  channel = record (lane_of true).channel { iopath_list = path_of 0 true ∷ polled_path ∷ [] };
  probers = prober ∷ [];
}

abbrev after_one : List ℕ
after_one = 4096 ∷ 0 ∷ 0 ∷ 0 ∷ []

marked_down-IsDead : IsDead 1 (marked_lane false (0 ∷ 0 ∷ 0 ∷ 0 ∷ []))
marked_down-IsDead = record {
  down = λ p at. ground arith;
  marked = λ p at. ground arith;
  freed = tt;
}

run_request :
    run ((reply, request (read_at 8)) ∷ []) (marked_lane false (0 ∷ 0 ∷ 0 ∷ 0 ∷ []))
    ≡ ok (marked_lane false after_one)
unfolding run step submit_request find_iopath find_iopath_hash hash_loops hash_id set_count first
run_request = refl

run_failure :
    run
      ((reply, completes (read_at 8) false (some 1) (Callback.caller 3)) ∷ [])
      (marked_lane true (0 ∷ 0 ∷ 0 ∷ 0 ∷ []))
    ≡ ok (marked_lane false after_one)
unfolding run step io_completion_cb complete_failure failback submit_request find_iopath
    find_iopath_hash hash_loops hash_id set_count first
run_failure = refl

submit_request_lem_example :
    let r : Reply = reply in
    let lane : Lane = lane_of true in
    let io : Io = read_at 8 in
    ((i : ℕ) × Sent r lane io i)
    ⊎ (AllDown lane.channel.iopath_list × (submit_request r lane io ≡ fault Fault.null_deref))
submit_request_lem_example =
    submit_request_lem (reply) (lane_of true) (read_at 8) (both-IsReady) (omega arith) (refl)

fail_times-exhausts_example :
    let r0 : Reply = reply in
    let rs : List Reply = reply ∷ later_reply ∷ [] in
    let lane : Lane = lane_of true in
    let io : Io = read_at 8 in fail_times rs (submit_request r0 lane io) ≡ fault Fault.null_deref
unfolding available_count
fail_times-exhausts_example =
    fail_times-exhausts (reply) (reply ∷ later_reply ∷ []) (lane_of true) (read_at 8) (both-IsReady)
      (omega arith) (refl) ((refl, refl), ((refl, refl), tt)) (refl)

io_incomplete-wraps_example :
    let r : Reply = reply in
    let r' : Reply = reply in
    let lane : Lane = lane_of true in
    let io : Io = read_at 8 in
    let i : ℕ = 1 in
    let s : Sent r lane io i = sent_at_8 in
    (lane1 lane2 : Lane) × (io' : Io) × (q : IoPath) × (submit_request r lane io
      ≡ ok (lane1, Effect.submitted i s.path.io_channel s.path.bdev io'))
    × (io'.cb ≡ Callback.ump lane.channel.address (some i) io.cb)
    × (io_completion_cb r' lane1 io' true (some i) io.cb ≡ ok (lane2, completed io.cb true io'))
    × (get_elem? lane2.channel.iopath_list i ≡ some q)
    × (q.io_incomplete ≡ u64_max)
unfolding sent_at_8
io_incomplete-wraps_example =
    io_incomplete-wraps (reply) (reply) (lane_of true) (read_at 8) (1) (sent_at_8) (refl)

second_failure_example :
    let i : ℕ = 1 in
    let r : Reply = reply in
    let io : Io = read_at 8 in
    let real : Callback = Callback.caller 3 in
    let es : List (Reply × Event) = [] in
    let lane : Lane = marked_lane true (0 ∷ 0 ∷ 0 ∷ 0 ∷ []) in
    let lane' : Lane = marked_lane false after_one in
    let p : IoPath = record (path_of 1 false) { reconnecting = true } in p.available ≡ false
second_failure_example =
    second_failure (1) (reply) (read_at 8) (Callback.caller 3) ([])
      (marked_lane true (0 ∷ 0 ∷ 0 ∷ 0 ∷ [])) (marked_lane false after_one)
      (record {
        path = record (path_of 1 true) { reconnecting = true };
        found = refl;
        up = refl;
        marked = refl;
        freed = tt;
      })
      (run_failure) (record (path_of 1 false) { reconnecting = true }) (refl)

probe-recovers_example :
    let i : ℕ = 1 in
    let k : ℕ = 0 in
    let h : ℕ = 60 in
    let lane : Lane = polled_lane in
    let q : Prober = prober in
    let p : IoPath = polled_path in
    (lane' : Lane) × (failback_io_completion_cb k true lane ≡ ok lane')
    × IsRecovered i lane'
    × ((j : ℕ) (x : Prober) → get_elem? lane'.probers j ≡ some x → x.poller ≡ h → x.paused ≡ true)
    × (failback_io_completion_cb k true lane' ≡ fault Fault.use_after_free)
probe-recovers_example =
    probe-recovers (1) (0) (60) (polled_lane) (prober) (polled_path) (refl) (refl) (refl) (tt)
      (refl) (refl) (refl)
