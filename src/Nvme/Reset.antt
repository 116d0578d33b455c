-- ===== src/Nvme/Reset.antt =====
-- nvme/bdev_nvme.c: the reset, failover and reconnect of one controller, with its timeouts.
-- The mutex and the threads are left out: an operation is one step, and what it starts
-- elsewhere (messages, pollers, calls of spdk) is in the list of effects that it returns.
pub mod Rotation
pub mod Cycle
pub mod Params
use sump.Base.{
  ℕ, zero, suc, ◌+◌, ◌-◌, ◌/◌, Bool, true, false, not, ◌&&◌, ◌||◌, List, [], ◌∷◌, ◌++◌, Option,
  none, some, if◌then◌else◌, ltb, leb, ◌==◌, Outcome, ok, fault, Fault, ◌>>=◌, deref, assert, u32,
  sub64, ℤ, pos, negsuc, is_zero, geb, to_i32, modify,
}

-- `struct nvme_path_id`, named by a number that stands for its address in memory.
pub record PathId : Type 0 where
  pub name : ℕ
  pub trid : ℕ
  pub is_pcie : Bool
  pub is_failed : Bool

-- The timeouts of `struct nvme_ctrlr_opts`, in seconds.
pub record Timeouts : Type 0 where
  pub ctrlr_loss_timeout_sec : ℤ
  pub reconnect_delay_sec : ℕ
  pub fast_io_fail_timeout_sec : ℕ

-- `struct nvme_ctrlr`: the fields of the reset sequence. `disconnected_cb`,
-- `reconnect_delay_timer` and `reset_detach_poller` tell whether the pointer is set.
pub record Ctrlr : Type 0 where
  pub destruct : Bool
  pub ref : ℕ
  pub resetting : Bool
  pub ana_log_page_updating : Bool
  pub io_path_cache_clearing : Bool
  pub fast_io_fail_timedout : Bool
  pub reconnect_is_delayed : Bool
  pub reset_start_tsc : ℕ
  pub opts : Timeouts
  pub trids : List PathId
  pub active_path_id : ℕ
  pub disconnected_cb : Bool
  pub reconnect_delay_timer : Bool
  pub reset_detach_poller : Bool

-- `enum bdev_nvme_op_after_reset`
pub data AfterReset : Type 0 where
  op_none op_complete_pending_destruct op_destruct op_delayed_reconnect : AfterReset

-- What an operation starts: `send_reset` is the message `_bdev_nvme_reset`, `complete_resets b` the
-- walk over the channels of `bdev_nvme_reset_complete`, `set_trid` and `ctrlr_fail` calls of spdk.
pub data Effect : Type 0 where
  send_reset ctrlr_fail unregister start_destruct : Effect
  pause_adminq resume_adminq fast_adminq : Effect
  reconnect_async create_qpairs : Effect
  set_trid : ℕ → Effect
  complete_resets : Bool → Effect

-- The results that the operations return; `busy` is -EBUSY, `no_device` -ENXIO.
pub data Answer : Type 0 where
  done busy no_device : Answer

-- `nvme_ctrlr_can_be_unregistered`
unfoldable pub can_be_unregistered : Ctrlr → Bool
can_be_unregistered c =
    if not c.destruct
    then false
    else if ltb 0 c.ref
    then false
    else if c.resetting
    then false
    else if c.ana_log_page_updating
    then false
    else if c.io_path_cache_clearing
    then false
    else true

abbrev pub fail_path : PathId → PathId
fail_path p = record p { is_failed = true }

-- `bdev_nvme_failover_trid`
unfoldable pub failover_trid : Bool → Ctrlr → Outcome (Ctrlr × List Effect)
failover_trid remove c = elim c.trids [
  | [] ↦ fault Fault.null_deref
  | p ∷ [] ↦ assert (p.name == c.active_path_id) (ok (record c { trids = fail_path p ∷ [] }, []))
  | p ∷ q ∷ rest ↦ assert (p.name == c.active_path_id && not p.is_pcie) (
      ok (
        record c {
          active_path_id = q.name;
          trids = if remove then q ∷ rest else q ∷ (rest ++ fail_path p ∷ []);
        },
        ctrlr_fail ∷ set_trid q.trid ∷ [],
      ))
]

-- `(spdk_get_ticks() - reset_start_tsc) / spdk_get_ticks_hz()`, at `now` ticks and `hz` a second.
abbrev pub elapsed : (hz now : ℕ) → Ctrlr → ℕ
elapsed hz now c = sub64 now c.reset_start_tsc / hz

-- `bdev_nvme_check_ctrlr_loss_timeout`
unfoldable pub check_ctrlr_loss_timeout : (hz now : ℕ) → Ctrlr → Bool
check_ctrlr_loss_timeout hz now c = elim c.opts.ctrlr_loss_timeout_sec [
  | pos zero ↦ false
  | negsuc zero ↦ false
  | pos (suc n) ↦ geb (to_i32 (elapsed hz now c)) (pos (suc n))
  | negsuc (suc n) ↦ geb (to_i32 (elapsed hz now c)) (negsuc (suc n))
]

-- `bdev_nvme_check_fast_io_fail_timeout`
unfoldable pub check_fast_io_fail_timeout : (hz now : ℕ) → Ctrlr → Bool
check_fast_io_fail_timeout hz now c =
    if c.opts.fast_io_fail_timeout_sec == 0
    then false
    else leb c.opts.fast_io_fail_timeout_sec (u32 (elapsed hz now c))

-- `bdev_nvme_check_op_after_reset`
unfoldable pub check_op_after_reset :
    (hz now : ℕ) → Bool → Ctrlr → Outcome (AfterReset × Ctrlr × List Effect)
unfolding can_be_unregistered check_ctrlr_loss_timeout check_fast_io_fail_timeout failover_trid
check_op_after_reset hz now success c =
    if can_be_unregistered c
    then ok (op_complete_pending_destruct, c, [])
    else if success || c.opts.reconnect_delay_sec == 0
    then ok (op_none, record c { reset_start_tsc = 0 }, [])
    else if check_ctrlr_loss_timeout hz now c
    then ok (op_destruct, c, [])
    else let c =
        if check_fast_io_fail_timeout hz now c
        then record c { fast_io_fail_timedout = true }
        else c in
      do (c, es) ← failover_trid false c; ok (op_delayed_reconnect, c, es)

-- `nvme_ctrlr_disconnect`, with the result of `spdk_nvme_ctrlr_disconnect`.
unfoldable pub nvme_ctrlr_disconnect : ℤ → Ctrlr → Outcome (Ctrlr × List Effect)
nvme_ctrlr_disconnect rc c =
    if not (is_zero rc)
    then ok (c, complete_resets false ∷ [])
    else assert (not c.disconnected_cb) (ok (record c { disconnected_cb = true }, fast_adminq ∷ []))

-- `bdev_nvme_start_reconnect_delay_timer`, once the controller is disconnected: the caller has
-- cleared `disconnected_cb`.
unfoldable pub start_reconnect_delay_timer : Ctrlr → Outcome (Ctrlr × List Effect)
start_reconnect_delay_timer c = assert (not c.reconnect_is_delayed) (
    assert (not c.reconnect_delay_timer) (
      ok (
        record c { reconnect_is_delayed = true; reconnect_delay_timer = true },
        pause_adminq ∷ [],
      )))

-- `bdev_nvme_reconnect_ctrlr`
unfoldable pub reconnect_ctrlr : Ctrlr → Outcome (Ctrlr × List Effect)
reconnect_ctrlr c =
    assert (not c.reset_detach_poller)
      (ok (record c { reset_detach_poller = true }, reconnect_async ∷ []))

-- `bdev_nvme_reconnect_delay_timer_expired`
unfoldable pub reconnect_delay_timer_expired : Ctrlr → Outcome (Ctrlr × List Effect)
unfolding reconnect_ctrlr
reconnect_delay_timer_expired c =
    let d = record c { reconnect_delay_timer = false; reconnect_is_delayed = false } in
    assert c.reconnect_is_delayed (
      if c.destruct
      then ok (d, [])
      else assert (not c.resetting) (do
        (d, es) ← reconnect_ctrlr (record d { resetting = true })
        ok (d, resume_adminq ∷ es)))

-- `_bdev_nvme_delete` with `hotplug` false, of a controller that is not PCIe or whose entry is allocated.
unfoldable pub nvme_delete : Ctrlr → Ctrlr × List Effect
nvme_delete c = if c.destruct then (c, []) else (record c { destruct = true }, start_destruct ∷ [])

-- `path_id->is_failed = !success`, of the first path.
abbrev pub mark_first : Bool → List PathId → List PathId
mark_first failed ps = modify ps 0 (λ p. record p { is_failed = failed })

-- `_bdev_nvme_reset_complete`, with the result of `spdk_nvme_ctrlr_disconnect` if it is called.
-- The callback of the caller is left out.
unfoldable pub reset_complete :
    (hz now : ℕ) (success : Bool) (rc : ℤ) → Ctrlr → Outcome (Ctrlr × List Effect)
unfolding check_op_after_reset nvme_delete nvme_ctrlr_disconnect
reset_complete hz now success rc c = do
  p ← deref (first_trid c.trids)
  assert (p.name == c.active_path_id) (do
    (op, c, es) ←
        check_op_after_reset hz now success
          (record c { resetting = false; trids = mark_first (not success) c.trids })
    elim op [
      | op_complete_pending_destruct ↦ ok (c, es ++ unregister ∷ [])
      | op_destruct ↦ let (c, more) = nvme_delete c in ok (c, es ++ more)
      | op_delayed_reconnect ↦ do (c, more) ← nvme_ctrlr_disconnect rc c; ok (c, es ++ more)
      | op_none ↦ ok (c, es)
    ])
  where
    first_trid : List PathId → Option PathId
    first_trid [] = none
    first_trid (p ∷ ps) = some p

-- `bdev_nvme_reconnect_ctrlr_poll`, as it is patched: the loss timeout is set to 0 first. `poll`
-- is the result of `spdk_nvme_ctrlr_reconnect_poll_async`, where `none` stands for -EAGAIN; the
-- code's own -ETIMEDOUT is a failure.
unfoldable pub reconnect_ctrlr_poll : (hz now : ℕ) → Option ℤ → Ctrlr → Ctrlr × List Effect
unfolding check_ctrlr_loss_timeout
reconnect_ctrlr_poll hz now poll c =
    let d = record c { opts = record (c.opts) { ctrlr_loss_timeout_sec = pos 0 } } in
    let off = record d { reset_detach_poller = false } in
    if check_ctrlr_loss_timeout hz now d then (off, complete_resets false ∷ []) else elim poll [
      | none ↦ (d, [])
      | some rc ↦
          if is_zero rc then (off, create_qpairs ∷ []) else (off, complete_resets false ∷ [])
    ]

-- `bdev_nvme_reset`
unfoldable pub nvme_reset : (now : ℕ) → Ctrlr → Outcome (Answer × Ctrlr × List Effect)
nvme_reset now c =
    if c.destruct
    then ok (no_device, c, [])
    else if c.resetting
    then ok (busy, c, [])
    else if c.reconnect_is_delayed
    then ok (busy, c, [])
    else assert (c.reset_start_tsc == 0)
        (ok (done, record c { resetting = true; reset_start_tsc = now }, send_reset ∷ []))

-- `bdev_nvme_failover`
unfoldable pub failover : (now : ℕ) → Bool → Ctrlr → Outcome (Answer × Ctrlr × List Effect)
unfolding failover_trid
failover now remove c =
    if c.destruct then ok (no_device, c, []) else if c.resetting then ok (busy, c, []) else do
      (c, es) ← failover_trid remove c
      (if c.reconnect_is_delayed
          then ok (done, c, es)
          else assert (c.reset_start_tsc == 0) (
              ok (
                done,
                record c { resetting = true; reset_start_tsc = now },
                es ++ send_reset ∷ [],
              )))
