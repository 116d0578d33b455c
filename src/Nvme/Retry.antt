-- ===== src/Nvme/Retry.antt =====
-- nvme/bdev_nvme.c: the I/O that waits on a channel for another attempt.
pub mod Order
pub mod Life
use sump.Base.{
  ℕ, zero, suc, ◌+◌, ◌-◌, ◌*◌, ◌/◌, Bool, true, false, List, [], ◌∷◌, ◌++◌, Option, none, some,
  if◌then◌else◌, ltb, leb, ◌==◌, u64, sub64, ℤ, pos, negsuc,
}

-- One `struct nvme_bdev_io` that waits, named by a number that stands for its address in memory.
pub record Waiting : Type 0 where
  pub name : ℕ
  pub retry_ticks : ℕ

-- The list, and the period in microseconds with which its poller is registered.
pub record Retry : Type 0 where
  pub retry_io_list : List Waiting
  pub retry_io_poller : Option ℕ

-- Walked from its end, the list gets the new I/O after the last one that is not later; `none` says
-- that there is no such one.
unfoldable pub insert_after : Waiting → List Waiting → Option (List Waiting)
insert_after w [] = none
insert_after w (v ∷ vs) = elim (insert_after w vs) [
  | some ws ↦ some (v ∷ ws)
  | none ↦ if leb v.retry_ticks w.retry_ticks then some (v ∷ w ∷ vs) else none
]

-- The end of `bdev_nvme_queue_retry_io`: the I/O is in the list, or becomes its head, and then the
-- poller is registered again.
unfoldable pub put : Waiting → (delay_ms : ℕ) → Option (List Waiting) → Retry → Retry
put w delay_ms (some l) r = record r { retry_io_list = l }
put w delay_ms none r = record {
  retry_io_list = w ∷ r.retry_io_list;
  retry_io_poller = some (u64 (delay_ms * 1000));
}

-- `spdk_get_ticks() + delay_ms * spdk_get_ticks_hz() / 1000`
abbrev pub wait_for : (hz now io delay_ms : ℕ) → Waiting
wait_for hz now io delay_ms = record {
  name = io;
  retry_ticks = u64 (now + u64 (delay_ms * hz) / 1000);
}

-- `bdev_nvme_queue_retry_io`, at `now` of `hz` ticks a second.
unfoldable pub queue_retry_io : (hz now io delay_ms : ℕ) → Retry → Retry
unfolding put insert_after
queue_retry_io hz now io delay_ms r =
    let w = wait_for hz now io delay_ms in put w delay_ms (insert_after w r.retry_io_list) r

-- The loop of `bdev_nvme_retry_ios`: the I/O that is tried again, and what stays.
unfoldable pub take_due : ℕ → List Waiting → List Waiting × List Waiting
take_due now [] = ([], [])
take_due now (w ∷ ws) =
    let rest = take_due now ws in
    if ltb now w.retry_ticks then ([], w ∷ ws) else (w ∷ rest.0, rest.1)

-- `bdev_nvme_retry_ios`: what it tries again is handed to `bdev_nvme_retry_io`, which queues
-- nothing on this list, since `any_io_path_may_become_available` is false.
unfoldable pub retry_ios : (hz now : ℕ) → Retry → List Waiting × Retry
unfolding take_due
retry_ios hz now r =
    let (due, later) = take_due now r.retry_io_list in
    (
      due,
      record {
        retry_io_list = later;
        retry_io_poller = elim later [
          | [] ↦ none
          | w ∷ ws ↦ some (u64 (sub64 w.retry_ticks now * 1000000) / hz)
        ];
      },
    )

-- `bdev_nvme_abort_retry_ios`: all complete as aborted.
unfoldable pub abort_retry_ios : Retry → List Waiting × Retry
abort_retry_ios r = (r.retry_io_list, record { retry_io_list = []; retry_io_poller = none })

-- `bdev_nvme_abort_retry_io`: the first entry of that name completes as aborted; `none` is -ENOENT.
unfoldable pub abort_from : ℕ → List Waiting → Option (Waiting × List Waiting)
abort_from io [] = none
abort_from io (w ∷ ws) =
    if w.name == io
    then some (w, ws)
    else elim (abort_from io ws) [ none ↦ none | some (v, vs) ↦ some (v, w ∷ vs) ]

unfoldable pub abort_retry_io : ℕ → Retry → Option (Waiting × Retry)
unfolding abort_from
abort_retry_io io r = elim (abort_from io r.retry_io_list) [
  | none ↦ none
  | some (w, ws) ↦ some (w, record r { retry_io_list = ws })
]
