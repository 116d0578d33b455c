-- ===== src/Nvme/Reset/Cycle.antt =====
-- nvme/bdev_nvme.c: the reset sequence of one controller as a sequence of the steps that the
-- callers, the pollers and spdk's callbacks take.
use sump.Base.{
  ℕ, ◌≡◌, ◌<◌, refl, ◌∙◌, Bool, true, false, List, [], ◌∷◌, Option, none, some, Outcome, ok, fault,
  Fault, ◌>>=◌, >>=-eq-ok, ℤ, pos, arith,
}
use sump.Nvme.Reset.{
  Ctrlr, PathId, mark_first, nvme_reset, failover, reset_complete, check_op_after_reset,
  can_be_unregistered, check_ctrlr_loss_timeout, failover_trid, nvme_ctrlr_disconnect,
  start_reconnect_delay_timer, reconnect_delay_timer_expired, reconnect_ctrlr, reconnect_ctrlr_poll,
}
use sump.Nvme.Reset.Rotation.{IsFirst, AllFabrics}

-- What happens to a controller, with the ticks at that time and the answers of spdk.
pub data Event : Type 0 where
  reset_asked : (now : ℕ) → Event
  failover_asked : (now : ℕ) (remove : Bool) → Event
  reset_ended : (now : ℕ) (success : Bool) (rc : ℤ) → Event
  disconnected reconnect_started timer_expired : Event
  polled : (now : ℕ) (poll : Option ℤ) → Event

-- One step; `disconnected` is the adminq poller calling the delay timer's start.
unfoldable pub step : (hz : ℕ) → Event → Ctrlr → Outcome Ctrlr
step hz (reset_asked now) c = do (a, d, es) ← nvme_reset now c; ok d
step hz (failover_asked now remove) c = do (a, d, es) ← failover now remove c; ok d
step hz (reset_ended now success rc) c = do (d, es) ← reset_complete hz now success rc c; ok d
step hz disconnected c = do
  (d, es) ← start_reconnect_delay_timer (record c { disconnected_cb = false })
  ok d
step hz reconnect_started c = do (d, es) ← reconnect_ctrlr c; ok d
step hz timer_expired c = do (d, es) ← reconnect_delay_timer_expired c; ok d
step hz (polled now poll) c = ok ((reconnect_ctrlr_poll hz now poll c).0)

unfoldable pub run : (hz : ℕ) → List Event → Ctrlr → Outcome Ctrlr
run hz [] c = ok c
run hz (e ∷ es) c = do d ← step hz e c; run hz es d

-- The loss timeout is off in both, and neither or both are being destructed.
unfoldable pub Keeps : Ctrlr → Ctrlr → Type 0
Keeps c d = (d.destruct ≡ c.destruct) × (d.opts.ctrlr_loss_timeout_sec ≡ pos 0)

reset_complete-Keeps :
    (hz now : ℕ) (success : Bool) (rc : ℤ) (c : Ctrlr) (ps : List PathId) {d : Ctrlr}
    → c.trids ≡ ps
    → c.opts.ctrlr_loss_timeout_sec ≡ pos 0
    → step hz (reset_ended now success rc) c ≡ ok d
    → Keeps c d
unfolding step reset_complete check_op_after_reset can_be_unregistered check_ctrlr_loss_timeout
    failover_trid nvme_ctrlr_disconnect Keeps
reset_complete-Keeps hz now success rc c [] t z h = ground arith
reset_complete-Keeps hz now success rc c (p ∷ []) t z h = ground arith
reset_complete-Keeps hz now success rc c (p ∷ q ∷ ps) t z h = ground arith

failover-Keeps :
    (hz now : ℕ) (remove : Bool) (c : Ctrlr) (ps : List PathId) {d : Ctrlr}
    → c.trids ≡ ps
    → c.opts.ctrlr_loss_timeout_sec ≡ pos 0
    → step hz (failover_asked now remove) c ≡ ok d
    → Keeps c d
unfolding step failover failover_trid Keeps
failover-Keeps hz now remove c [] t z h = ground arith
failover-Keeps hz now remove c (p ∷ []) t z h = ground arith
failover-Keeps hz now remove c (p ∷ q ∷ ps) t z h = ground arith

step-Keeps :
    (hz : ℕ) (e : Event) (c : Ctrlr) {d : Ctrlr}
    → c.opts.ctrlr_loss_timeout_sec ≡ pos 0
    → step hz e c ≡ ok d
    → Keeps c d
unfolding step nvme_reset start_reconnect_delay_timer reconnect_ctrlr reconnect_delay_timer_expired
    reconnect_ctrlr_poll Keeps
step-Keeps hz (reset_asked now) c z h = ground arith
step-Keeps hz (failover_asked now remove) c z h = failover-Keeps hz now remove c c.trids refl z h
step-Keeps hz (reset_ended now success rc) c z h =
    reset_complete-Keeps hz now success rc c c.trids refl z h
step-Keeps hz disconnected c z h = ground arith
step-Keeps hz reconnect_started c z h = ground arith
step-Keeps hz timer_expired c z h = ground arith
step-Keeps hz (polled now none) c z h = ground arith
step-Keeps hz (polled now (some rc)) c z h = ground arith

run-Keeps :
    (hz : ℕ) (es : List Event) (c : Ctrlr) {d : Ctrlr}
    → c.opts.ctrlr_loss_timeout_sec ≡ pos 0
    → run hz es c ≡ ok d
    → Keeps c d
unfolding run Keeps
run-Keeps hz [] c z h = ground arith
run-Keeps hz (e ∷ es) c z h =
    let (b, s, r) = >>=-eq-ok (step hz e c) (run hz es) h in
    let (same, off) = step-Keeps hz e c z s in
    let (more, off') = run-Keeps hz es b off r in (more ∙ same, off')

polled-Keeps :
    (hz now : ℕ) (poll : Option ℤ) (c : Ctrlr) → Keeps c ((reconnect_ctrlr_poll hz now poll c).0)
unfolding Keeps reconnect_ctrlr_poll
polled-Keeps hz now none c = (refl, refl)
polled-Keeps hz now (some rc) c = ground arith

-- Once a reconnect has been polled, no sequence of resets, failovers, failed attempts and expired
-- timers, however long it takes, makes the controller destruct itself: its loss timeout is off.
pub run-polled :
    (hz now : ℕ) (poll : Option ℤ) (es : List Event) (c : Ctrlr) {d : Ctrlr}
    → run hz (polled now poll ∷ es) c ≡ ok d
    → (d.destruct ≡ c.destruct) × (d.opts.ctrlr_loss_timeout_sec ≡ pos 0)
unfolding run step Keeps
run-polled hz now poll es c h =
    let (same, off) = polled-Keeps hz now poll c in
    let (more, off') = run-Keeps hz es _ off h in (more ∙ same, off')

fail_window :
    (hz now later : ℕ) (c : Ctrlr) (ps : List PathId)
    → c.destruct ≡ false
    → 0 < c.opts.reconnect_delay_sec
    → c.opts.ctrlr_loss_timeout_sec ≡ pos 0
    → 0 < c.reset_start_tsc
    → c.reconnect_is_delayed ≡ false
    → c.disconnected_cb ≡ false
    → c.trids ≡ ps
    → IsFirst c.active_path_id ps
    → AllFabrics ps
    → run hz (reset_ended now false (pos 0) ∷ reset_asked later ∷ []) c ≡ fault Fault.failed_assert
unfolding run step nvme_reset reset_complete check_op_after_reset can_be_unregistered
    check_ctrlr_loss_timeout failover_trid nvme_ctrlr_disconnect IsFirst AllFabrics
fail_window hz now later c [] e r z s l b t i f = absurd i
fail_window hz now later c (p ∷ []) e r z s l b t i f = ground arith
fail_window hz now later c (p ∷ q ∷ ps) e r z s l b t i f = ground (arith, f.0)

-- Between a failed attempt to reconnect and the start of the delay timer, which waits for the
-- disconnection, neither flag is set: a reset that is asked for then fails the code's assertion
-- that `reset_start_tsc` is 0.
pub reset_ended-reset_asked :
    (hz now later : ℕ) (c : Ctrlr)
    → c.destruct ≡ false
    → 0 < c.opts.reconnect_delay_sec
    → c.opts.ctrlr_loss_timeout_sec ≡ pos 0
    → 0 < c.reset_start_tsc
    → c.reconnect_is_delayed ≡ false
    → c.disconnected_cb ≡ false
    → IsFirst c.active_path_id c.trids
    → AllFabrics c.trids
    → run hz (reset_ended now false (pos 0) ∷ reset_asked later ∷ []) c ≡ fault Fault.failed_assert
reset_ended-reset_asked hz now later c e r z s l b i f =
    fail_window hz now later c c.trids e r z s l b refl i f

start_complete :
    (hz now later : ℕ) (rc : ℤ) (c : Ctrlr) (ps : List PathId)
    → c.destruct ≡ false
    → c.resetting ≡ false
    → c.reconnect_is_delayed ≡ false
    → c.reset_start_tsc ≡ 0
    → c.trids ≡ ps
    → IsFirst c.active_path_id ps
    → run hz (reset_asked now ∷ reset_ended later true rc ∷ []) c
      ≡ ok (record c { trids = mark_first false ps })
unfolding run step nvme_reset reset_complete check_op_after_reset can_be_unregistered IsFirst
start_complete hz now later rc c [] d r l s t i = absurd i
start_complete hz now later rc c (p ∷ ps) d r l s t i = ground (arith, d, r, l, s, t, i)

-- A reset of an idle controller that succeeds brings it back as it was, but for its active path,
-- which is not failed any more.
pub reset_complete-nvme_reset :
    (hz now later : ℕ) (rc : ℤ) (c : Ctrlr)
    → c.destruct ≡ false
    → c.resetting ≡ false
    → c.reconnect_is_delayed ≡ false
    → c.reset_start_tsc ≡ 0
    → IsFirst c.active_path_id c.trids
    → run hz (reset_asked now ∷ reset_ended later true rc ∷ []) c
      ≡ ok (record c { trids = mark_first false c.trids })
reset_complete-nvme_reset hz now later rc c d r l s i =
    start_complete hz now later rc c c.trids d r l s refl i
