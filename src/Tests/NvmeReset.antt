-- ===== src/Tests/NvmeReset.antt =====
-- The reset of an NVMe controller and the I/O that waits, on concrete values.
use sump.Base.{
  ℕ, ◌+◌, ◌≡◌, refl, Bool, true, false, List, [], ◌∷◌, ◌++◌, Option, none, some, arith, ok, fault,
  Fault, ℤ, pos,
}
use sump.Nvme.Reset.{
  Ctrlr, PathId, Timeouts, AfterReset, reconnect_ctrlr_poll, check_op_after_reset,
  check_ctrlr_loss_timeout, can_be_unregistered,
}
use sump.Nvme.Reset.Rotation.{AllFabrics, IsFirst}
use sump.Nvme.Reset.Cycle.{
  Event, reset_asked, reset_ended, polled, step, run, run-polled, reset_ended-reset_asked,
}
use sump.Nvme.Retry.{Retry, retry_ios}
use sump.Nvme.Retry.Life.{
  Call, queues, retries, aborts, aborts_all, calls, queued, Accounts, calls-Accounts,
}
use sump.Nvme.Retry.Order.{IsValid, AllDue, AllLater, Rise, retry_ios_lem}

abbrev path_id : ℕ → PathId
path_id n = record { name = n; trid = 10 + n; is_pcie = false; is_failed = false }

abbrev timeouts : ℤ → Timeouts
timeouts loss = record {
  ctrlr_loss_timeout_sec = loss;
  reconnect_delay_sec = 2;
  fast_io_fail_timeout_sec = 4;
}

-- A controller with two paths, with the ticks at which its reset started.
abbrev ctrlr_of : ℤ → Bool → ℕ → Ctrlr
ctrlr_of loss resetting start = record {
  destruct = false;
  ref = 1;
  resetting = resetting;
  ana_log_page_updating = false;
  io_path_cache_clearing = false;
  fast_io_fail_timedout = false;
  reconnect_is_delayed = false;
  reset_start_tsc = start;
  opts = timeouts loss;
  trids = path_id 1 ∷ path_id 2 ∷ [];
  active_path_id = 1;
  disconnected_cb = false;
  reconnect_delay_timer = false;
  reset_detach_poller = false;
}

abbrev pub idle : Ctrlr
idle = ctrlr_of (pos 8) false 0

-- After eight seconds, a loss timeout of eight seconds destroys the controller, if it is still on.
lost_when_on :
    check_op_after_reset 100 900 false (ctrlr_of (pos 8) false 100)
    ≡ ok (AfterReset.op_destruct, ctrlr_of (pos 8) false 100, [])
unfolding check_op_after_reset can_be_unregistered check_ctrlr_loss_timeout
lost_when_on = refl

run_poll :
    run 100 (polled 900 none ∷ []) (ctrlr_of (pos 8) true 100) ≡ ok (ctrlr_of (pos 0) true 100)
unfolding run step reconnect_ctrlr_poll check_ctrlr_loss_timeout
run_poll = refl

abbrev waiting : Retry
waiting = record {
  retry_io_list =
      record { name = 1; retry_ticks = 50 } ∷ record { name = 2; retry_ticks = 70 } ∷ [];
  retry_io_poller = some 9;
}

waiting-IsValid : IsValid waiting
unfolding IsValid Rise
waiting-IsValid = ((omega arith, (omega arith, tt)), λ _ e. cc)

run-polled_example :
    let hz : ℕ = 100 in
    let now : ℕ = 900 in
    let poll : Option ℤ = none in
    let es : List Event = [] in
    let c : Ctrlr = ctrlr_of (pos 8) true 100 in
    let d : Ctrlr = ctrlr_of (pos 0) true 100 in
    (d.destruct ≡ c.destruct) × (d.opts.ctrlr_loss_timeout_sec ≡ pos 0)
run-polled_example =
    run-polled (100) (900) (none) ([]) (ctrlr_of (pos 8) true 100) {d = ctrlr_of (pos 0) true 100}
      (run_poll)

reset_ended-reset_asked_example :
    let hz : ℕ = 100 in
    let now : ℕ = 900 in
    let later : ℕ = 901 in
    let c : Ctrlr = ctrlr_of (pos 0) true 100 in
    run hz (reset_ended now false (pos 0) ∷ reset_asked later ∷ []) c ≡ fault Fault.failed_assert
unfolding IsFirst AllFabrics
reset_ended-reset_asked_example =
    reset_ended-reset_asked (100) (900) (901) (ctrlr_of (pos 0) true 100) (refl) (omega arith)
      (refl) (omega arith) (refl) (refl) (refl) (refl, (refl, tt))

retry_ios_lem_example :
    let hz : ℕ = 1000 in
    let now : ℕ = 60 in
    let r : Retry = waiting in
    AllDue now (retry_ios hz now r).0
    × AllLater now (retry_ios hz now r).1.retry_io_list
    × ((retry_ios hz now r).0 ++ (retry_ios hz now r).1.retry_io_list ≡ r.retry_io_list)
    × IsValid (retry_ios hz now r).1
retry_ios_lem_example = retry_ios_lem (1000) (60) (waiting) (waiting-IsValid)

abbrev some_calls : List Call
some_calls = queues 1000 55 3 20 ∷ retries 1000 60 ∷ aborts 2 ∷ aborts_all ∷ []

calls-Accounts_example : Accounts (queued some_calls) waiting (calls some_calls waiting)
calls-Accounts_example = calls-Accounts some_calls waiting waiting-IsValid
