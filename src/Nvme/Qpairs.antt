-- ===== src/Nvme/Qpairs.antt =====
-- nvme/bdev_nvme.c: the walks of a reset over the queue pairs of a controller, from
-- `_bdev_nvme_reset` to the call of `_bdev_nvme_reset_complete`, which is `reset_complete` of
-- Nvme/Reset.antt. `spdk_for_each_channel` sends one message after the other, the next one when
-- `spdk_for_each_channel_continue` is called, and calls the function for its end last. The channels
-- of the controller stay the same during the walks.
pub mod Good
pub mod Adminq
pub mod Disconnects
pub mod Visits
pub mod Valid
pub mod Messages
pub mod Polls
pub mod Run
pub mod Ends
pub mod Stalls
pub mod Success
use sump.Base.{
  ℕ, zero, suc, Bool, true, false, not, List, [], ◌∷◌, ◌++◌, map, Option, none, some, if◌then◌else◌,
  ◌==◌, next, get_elem?, modify, Outcome, ok, fault, ◌>>=◌, deref, assert, ℤ, pos, negsuc, is_zero,
}
use sump.Nvme.Paths.{NvmeChannel, clear_current_io_path}
use sump.Nvme.Reset.{
  Ctrlr, Effect, complete_resets, create_qpairs, Answer, nvme_ctrlr_disconnect, reconnect_ctrlr,
  reconnect_ctrlr_poll, start_reconnect_delay_timer, failover,
}

-- `struct nvme_ctrlr_channel` with its `nvme_qpair`: the qpair of spdk, whether `reset_iter` is set,
-- the bdev channels of the I/O paths, and the reset I/O that waits, each named by a number.
pub record CtrlrChannel : Type 0 where
  pub qpair : Option ℕ
  pub reset_iter : Bool
  pub io_path_list : List NvmeChannel
  pub pending_resets : List ℕ

-- The functions that `nvme_ctrlr_disconnect` is called with: `bdev_nvme_reset_destroy_qpairs` and
-- `bdev_nvme_reconnect_ctrlr`.
pub data DisconnectedCb : Type 0 where
  destroy_qpairs reconnect : DisconnectedCb

-- The walks over the channels: `bdev_nvme_reset_destroy_qpair` up to `bdev_nvme_reset_ctrlr` or,
-- after a failure, up to `bdev_nvme_reset_create_qpairs_failed`; `bdev_nvme_reset_create_qpair` up to
-- `bdev_nvme_reset_create_qpairs_done`, and the same once it was ended by a status that is not 0; and
-- `bdev_nvme_complete_pending_resets` with its success.
pub data Walk : Type 0 where
  creates stops : Walk
  destroys : (failed : Bool) → Walk
  completes : Bool → Walk

-- What a reset waits for: nothing, the controller to be disconnected, the message of a walk to the
-- channel at a place (`held` says that the walk goes on with `reset_iter`), the poller of
-- `bdev_nvme_reconnect_ctrlr_poll`; or `_bdev_nvme_reset_complete` was called, with its success.
pub data Stage : Type 0 where
  rests polls : Stage
  awaits : DisconnectedCb → Stage
  walks : (w : Walk) (place : ℕ) (held : Bool) → Stage
  ended : Bool → Stage

-- `is_fabrics` is what `spdk_nvme_ctrlr_is_fabrics` says, `disable_auto_failback` that of `g_opts`;
-- `effects` is what was started elsewhere, and `completed` the reset I/O that were completed.
pub record Sequence : Type 0 where
  pub ctrlr : Ctrlr
  pub is_fabrics : Bool
  pub disable_auto_failback : Bool
  pub channels : List CtrlrChannel
  pub stage : Stage
  pub effects : List Effect
  pub completed : List (ℕ × Bool)

-- What spdk answers when `bdev_nvme_create_qpair` allocates a qpair, adds it to the poll group and
-- connects it.
pub record Attempt : Type 0 where
  pub alloc : Option ℕ
  pub add_rc : ℤ
  pub connect_rc : ℤ

-- `_bdev_nvme_clear_io_path_cache`
unfoldable pub clear_io_path_cache : CtrlrChannel → CtrlrChannel
unfolding clear_current_io_path
clear_io_path_cache ch = record ch { io_path_list = map clear_current_io_path ch.io_path_list }

-- `bdev_nvme_create_qpair`. The options of the qpair are not modelled.
unfoldable pub create_qpair : Bool → Attempt → CtrlrChannel → ℤ × CtrlrChannel
create_qpair disable_auto_failback a ch = elim a.alloc [
  | none ↦ (negsuc 0, ch)
  | some q ↦
      if not (is_zero a.add_rc)
      then (a.add_rc, ch)
      else if not (is_zero a.connect_rc)
      then (a.connect_rc, ch)
      else (
        pos 0,
        (let with_qpair = record ch { qpair = some q } in
            if disable_auto_failback then with_qpair else clear_io_path_cache with_qpair),
      )
]

-- `bdev_nvme_reset_destroy_qpair`, and whether the walk is held until the qpair is disconnected.
unfoldable pub destroy_qpair : CtrlrChannel → Outcome (CtrlrChannel × Bool)
unfolding clear_io_path_cache
destroy_qpair ch = elim ch.qpair [
  | some q ↦
      assert (not ch.reset_iter) (ok (record (clear_io_path_cache ch) { reset_iter = true }, true))
  | none ↦ ok (clear_io_path_cache ch, false)
]

-- `nvme_ctrlr_disconnect` with a function to call, for the result of `spdk_nvme_ctrlr_disconnect`.
unfoldable pub disconnect : ℤ → DisconnectedCb → Sequence → Outcome Sequence
unfolding nvme_ctrlr_disconnect
disconnect rc cb s = do
  (c, es) ← nvme_ctrlr_disconnect rc s.ctrlr
  ok (
      if is_zero rc
      then record s { ctrlr = c; stage = awaits cb; effects = s.effects ++ es }
      else record s { ctrlr = c; stage = walks (completes false) 0 false })

-- `bdev_nvme_reset_destroy_qpairs`
abbrev pub start_destroy : Sequence → Sequence
start_destroy s = record s { stage = walks (destroys false) 0 false }

-- `_bdev_nvme_reset`
unfoldable pub start_reset : ℤ → Sequence → Outcome Sequence
unfolding disconnect
start_reset rc s =
    assert s.ctrlr.resetting
      (if not s.is_fabrics then disconnect rc destroy_qpairs s else ok (start_destroy s))

-- `bdev_nvme_reconnect_ctrlr`
unfoldable pub begin_reconnect : Sequence → Outcome Sequence
unfolding reconnect_ctrlr
begin_reconnect s = do
  (c, es) ← reconnect_ctrlr s.ctrlr
  ok (record s { ctrlr = c; stage = polls; effects = s.effects ++ es })

-- `bdev_nvme_reset_ctrlr`
unfoldable pub reset_ctrlr : ℤ → Sequence → Outcome Sequence
unfolding begin_reconnect disconnect
reset_ctrlr rc s = if not s.is_fabrics then begin_reconnect s else disconnect rc reconnect s

-- The channel at a place is changed, and the walk is at a stage.
abbrev pub put_channel : ℕ → CtrlrChannel → Stage → Sequence → Sequence
put_channel i ch stage s = record s { channels = modify s.channels i (λ old. ch); stage = stage }

-- The function of a walk on one channel, and the message that comes next.
unfoldable pub visit_channel : Walk → Attempt → ℕ → CtrlrChannel → Sequence → Outcome Sequence
unfolding destroy_qpair create_qpair
visit_channel (destroys failed) a i ch s = do
  (ch', held) ← destroy_qpair ch
  ok (put_channel i ch' (walks (destroys failed) (if held then i else suc i) held) s)
visit_channel creates a i ch s =
    let created = create_qpair s.disable_auto_failback a ch in
    ok (
      put_channel i created.1
        (if is_zero created.0 then walks creates (suc i) false else walks stops i false) s)
visit_channel stops a i ch s = ok (record s { stage = walks (destroys true) 0 false })
visit_channel (completes b) a i ch s =
    ok
      (record (put_channel i (record ch { pending_resets = [] }) (walks (completes b) (suc i) false)
        s) { completed = s.completed ++ map (λ bio. (bio, b)) ch.pending_resets })

-- The function for the end of a walk.
unfoldable pub end_walk : Walk → ℤ → Sequence → Outcome Sequence
unfolding reset_ctrlr
end_walk (destroys false) rc s = reset_ctrlr rc s
end_walk creates rc s = ok (record s { stage = walks (completes true) 0 false })
end_walk stops rc s = ok (record s { stage = walks (destroys true) 0 false })
end_walk (destroys true) rc s = ok (record s { stage = walks (completes false) 0 false })
end_walk (completes b) rc s = ok (record s { stage = ended b })

-- spdk runs the next message of the walk, unless it is held.
unfoldable pub run_message_at : Attempt → ℤ → Stage → Sequence → Outcome Sequence
unfolding visit_channel end_walk
run_message_at a rc (walks w i held) s = if held then ok s else elim (get_elem? s.channels i) [
  | none ↦ end_walk w rc s
  | some ch ↦ visit_channel w a i ch s
]
run_message_at a rc rests s = ok s
run_message_at a rc polls s = ok s
run_message_at a rc (awaits cb) s = ok s
run_message_at a rc (ended b) s = ok s

abbrev pub run_message : Attempt → ℤ → Sequence → Outcome Sequence
run_message a rc s = run_message_at a rc s.stage s

-- `nvme_poll_group_get_qpair`, as the place of the channel.
unfoldable pub get_qpair : ℕ → List CtrlrChannel → Option ℕ
get_qpair q [] = none
get_qpair q (ch ∷ chs) = elim ch.qpair [
  | none ↦ next (get_qpair q chs)
  | some p ↦ if p == q then some 0 else next (get_qpair q chs)
]

-- `spdk_for_each_channel_continue` of a walk that is held.
abbrev pub go_on : Stage → Stage
go_on (walks w i held) = walks w (suc i) false
go_on rests = rests
go_on polls = polls
go_on (awaits cb) = awaits cb
go_on (ended b) = ended b

-- `bdev_nvme_failover`
unfoldable pub fail_over : ℕ → Sequence → Outcome Sequence
unfolding failover
fail_over now s = do
  (answer, c, es) ← failover now false s.ctrlr
  ok (record s { ctrlr = c; effects = s.effects ++ es })

-- `bdev_nvme_disconnected_qpair_cb`
unfoldable pub disconnected_qpair_cb : (q now : ℕ) → Sequence → Outcome Sequence
unfolding get_qpair clear_io_path_cache fail_over
disconnected_qpair_cb q now s = elim (get_qpair q s.channels) [
  | none ↦ ok s
  | some i ↦ do
    ch ← deref (get_elem? s.channels i)
    let freed = record (clear_io_path_cache ch) { qpair = none; reset_iter = false }
    if ch.reset_iter
        then ok (put_channel i freed (go_on s.stage) s)
        else fail_over now (put_channel i freed s.stage s)
]

-- The controller has no `disconnected_cb` any more.
abbrev pub no_cb : Sequence → Sequence
no_cb s = record s { ctrlr = record (s.ctrlr) { disconnected_cb = false } }

-- The call of a `disconnected_cb` of the controller, which has been cleared. One that this sequence
-- has not set is `bdev_nvme_start_reconnect_delay_timer`.
unfoldable pub call_cb : Stage → Sequence → Outcome Sequence
unfolding begin_reconnect start_reconnect_delay_timer
call_cb (awaits destroy_qpairs) s = ok (start_destroy s)
call_cb (awaits reconnect) s = begin_reconnect s
call_cb other s = do
  (c, es) ← start_reconnect_delay_timer s.ctrlr
  ok (record s { ctrlr = c; effects = s.effects ++ es })

-- A `disconnected_cb` that is cleared and not called leaves nothing that the reset waits for.
abbrev pub forgets : Stage → Stage
forgets (awaits cb) = rests
forgets rests = rests
forgets polls = polls
forgets (walks w i held) = walks w i held
forgets (ended b) = ended b

-- `bdev_nvme_poll_adminq` when spdk returns an error, and whether that is -ENXIO.
unfoldable pub poll_adminq : (enxio : Bool) (now : ℕ) → Sequence → Outcome Sequence
unfolding call_cb fail_over
poll_adminq enxio now s =
    if enxio
    then (if s.ctrlr.disconnected_cb then call_cb s.stage (no_cb s) else fail_over now (no_cb s))
    else fail_over now (record (no_cb s) { stage = forgets s.stage })

-- The walk that the poller starts.
abbrev pub begun : List Effect → Stage → Stage
begun (create_qpairs ∷ es) st = walks creates 0 false
begun (complete_resets b ∷ es) st = walks (completes b) 0 false
begun es st = st

-- `bdev_nvme_reconnect_ctrlr_poll`
abbrev pub poll_now : (hz now : ℕ) → Option ℤ → Sequence → Sequence
poll_now hz now poll s = record s {
  ctrlr = (reconnect_ctrlr_poll hz now poll s.ctrlr).0;
  stage = begun (reconnect_ctrlr_poll hz now poll s.ctrlr).1 s.stage;
}

-- Its poller runs, if it is registered.
unfoldable pub poll_reconnect : (hz now : ℕ) → Option ℤ → Sequence → Sequence
poll_reconnect hz now poll s = if not s.ctrlr.reset_detach_poller then s else poll_now hz now poll s
