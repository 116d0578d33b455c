-- ===== src/DataPath.antt =====
-- sump_data.c `ump_bdev_submit_request`; sump_ctrl.c `ump_bdev_io_completion_cb`, `update_io_time`,
-- `ump_failback`, `ump_failback_io_fn` and `ump_failback_io_completion_cb`: the I/O of one channel.
pub mod Events
pub mod Down
pub mod Submit
pub mod Failover
pub mod Failback
pub mod Complete
pub mod Recovery
pub mod Traffic
use sump.Base.{
  ℕ, ◌+◌, ◌*◌, Bool, true, false, not, List, [], ◌∷◌, ◌++◌, map, Option, none, some, if◌then◌else◌,
  ◌==◌, modify, get_elem?, Outcome, ok, fault, Fault, ◌>>=◌, deref, u64, sub64,
}
use sump.Bdev.{Bdev, Io, IoType, Callback}
use sump.TimeQueue
use sump.IoPath.{IoPath, Channel}
use sump.Select.{find_iopath}
use sump.Channels.{set_count}

-- A `struct ump_failback_ctx` with the poller that probes its path: `probe` is the copy of the I/O
-- that failed, `freed` says that both were freed, `paused` that the poller is.
pub record Prober : Type 0 where
  pub path : ℕ
  pub probe : Io
  pub poller : ℕ
  pub paused : Bool
  pub freed : Bool

-- What the I/O of a channel works on: the channel, the array `count`, and the probers.
pub record Lane : Type 0 where
  pub channel : Channel
  pub count : List ℕ
  pub probers : List Prober

-- What other code answers: whether the `calloc` of the completion context, of an element of the
-- delay queue and of a failback context succeeds, the clock, and the poller that is registered.
pub record Reply : Type 0 where
  pub alloc_ctx : Bool
  pub alloc_time : Bool
  pub alloc_failback : Bool
  pub ticks : ℕ
  pub poller : ℕ

-- What a function does with an I/O: nothing, hand it to a path's bdev through the path's I/O
-- channel, or call a callback with the result.
pub data Effect : Type 0 where
  nothing : Effect
  submitted : (path : ℕ) → Option ℕ → Bdev → Io → Effect
  completed : Callback → Bool → Io → Effect

-- `ump_bdev_submit_request`. The number of bytes is added to `count` before the test for NULL.
unfoldable pub submit_request : Reply → Lane → Io → Outcome (Lane × Effect)
submit_request r lane io = if not r.alloc_ctx then ok (lane, nothing) else (do
  found ← find_iopath lane.channel io
  i ← deref found
  p ← deref (get_elem? lane.channel.iopath_list i)
  count ← set_count (λ c. u64 (c + u64 (io.num_blocks * io.io_bdev.blocklen))) p.id lane.count
  ok (
    record lane { count = count },
    submitted i p.io_channel p.bdev
        (record io { cb = Callback.ump lane.channel.address (some i) io.cb }),
  ))

-- `update_io_time`
unfoldable pub update_io_time : Reply → Io → IoPath → IoPath
update_io_time r io p =
    let delay = sub64 r.ticks io.submit_tsc in
    if not r.alloc_time then p else elim io.io_type [
      | IoType.read ↦ record p {
        io_read_time = TimeQueue.update_io_time_detail delay p.io_read_time;
      }
      | IoType.other _ ↦ record p {
        io_write_time = TimeQueue.update_io_time_detail delay p.io_write_time;
      }
    ]

abbrev pub set_paths : List IoPath → Lane → Lane
set_paths paths lane = record lane { channel = record (lane.channel) { iopath_list = paths } }

abbrev pub change_path : ℕ → (IoPath → IoPath) → Lane → Lane
change_path i f lane = set_paths (modify lane.channel.iopath_list i f) lane

-- `iopath->io_incomplete--`, on `uint64_t`
abbrev pub uncount_io : IoPath → IoPath
uncount_io p = record p { io_incomplete = sub64 p.io_incomplete 1 }

abbrev pub start_reconnect : ℕ → IoPath → IoPath
start_reconnect poller p = record p { reconnecting = true; reconnect_poller = some poller }

-- `ump_failback`, for the path at a place of the channel.
unfoldable pub failback : Reply → ℕ → Io → Lane → Outcome Lane
failback r i io lane = do
  p ← deref (get_elem? lane.channel.iopath_list i)
  if p.reconnecting
      then ok lane
      else if not r.alloc_failback
      then fault Fault.null_deref
      else ok (record (change_path i (start_reconnect r.poller) lane) {
        probers =
            lane.probers
            ++ (record { path = i; probe = io; poller = r.poller; paused = false; freed = false }
                ∷ []);
      })

abbrev pub mark_down : IoPath → IoPath
mark_down p = record p { available = false }

-- The branches of `ump_bdev_io_completion_cb`: the path of the context, and the callback in it.
unfoldable pub complete_success : Reply → Lane → Io → Option ℕ → Callback → Outcome (Lane × Effect)
unfolding update_io_time
complete_success r lane io path real = do
  i ← deref path
  p ← deref (get_elem? lane.channel.iopath_list i)
  ok (change_path i (λ q. uncount_io (update_io_time r io q)) lane, completed real true io)

unfoldable pub complete_failure : Reply → Lane → Io → Option ℕ → Callback → Outcome (Lane × Effect)
unfolding failback submit_request
complete_failure r lane io path real = do
  i ← deref path
  p ← deref (get_elem? lane.channel.iopath_list i)
  lane' ← failback r i io (change_path i mark_down lane)
  submit_request r lane' (record io { cb = real; submit_tsc = r.ticks })

-- `ump_bdev_io_completion_cb`
unfoldable pub io_completion_cb :
    Reply → Lane → Io → Bool → Option ℕ → Callback → Outcome (Lane × Effect)
unfolding complete_success complete_failure
io_completion_cb r lane io true path real = complete_success r lane io path real
io_completion_cb r lane io false path real = complete_failure r lane io path real

abbrev pub set_probe : Callback → Prober → Prober
set_probe cb q = record q { probe = record (q.probe) { cb = cb } }

-- `ump_failback_io_fn`, the function of a prober's poller.
unfoldable pub failback_io_fn : ℕ → Lane → Outcome (Lane × Effect)
failback_io_fn k lane = do
  q ← deref (get_elem? lane.probers k)
  if q.freed then fault Fault.use_after_free else (do
    p ← deref (get_elem? lane.channel.iopath_list q.path)
    let cb : Callback = Callback.failback lane.channel.address q.path
    ok (
      record lane { probers = modify lane.probers k (set_probe cb) },
      submitted q.path p.io_channel p.bdev (record (q.probe) { cb = cb }),
    ))

abbrev pub mark_up : IoPath → IoPath
mark_up p = record p { available = true }

-- `spdk_poller_pause`: the poller with the handle stops.
unfoldable pub pause : ℕ → Prober → Prober
pause h q = if q.poller == h then record q { paused = true } else q

abbrev pub free_probe : Prober → Prober
free_probe q = record q { freed = true }

-- `ump_failback_io_completion_cb`, for the I/O of a prober. `spdk_poller_pause` reads its argument.
unfoldable pub failback_io_completion_cb : ℕ → Bool → Lane → Outcome Lane
unfolding pause
failback_io_completion_cb k false lane = ok lane
failback_io_completion_cb k true lane = do
  q ← deref (get_elem? lane.probers k)
  if q.freed then fault Fault.use_after_free else (do
    p ← deref (get_elem? lane.channel.iopath_list q.path)
    let lane' : Lane = change_path q.path mark_up lane
    h ← deref p.reconnect_poller
    ok (record lane' { probers = modify (map (pause h) lane.probers) k free_probe }))
