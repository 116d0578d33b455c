-- ===== src/Nvme/Qpairs/Adminq.antt =====
-- nvme/bdev_nvme.c, `bdev_nvme_poll_adminq`: an error of the admin queue keeps a reset valid.
use sump.Base.{
  ℕ, ◌≡◌, inl, inr, refl, sym, ap, ◌∙◌, Bool, true, false, List, [], ◌++◌, arith, if◌then◌else◌, ok,
  Bool-cases, true_apart,
}
use sump.Nvme.Reset.{Ctrlr}
use sump.Nvme.Qpairs.{
  CtrlrChannel, destroy_qpairs, reconnect, destroys, Stage, rests, polls, awaits, walks, ended,
  Sequence, fail_over, no_cb, start_destroy, call_cb, forgets, poll_adminq,
}
use sump.Nvme.Qpairs.Valid.{
  Fits, Fits-stage, IsValid, Down, Holds, Waits, is_awaiting, is_polling, Handled, Advances,
  Advances-Handled, fail_over-resetting,
}
use sump.Nvme.Qpairs.Messages.{reconnect-Advances}

-- A `disconnected_cb` that is set is one of this sequence, and it is called.
pub call_cb-Advances :
    (s : Sequence) (st : Stage)
    → Fits s.ctrlr s.channels st
    → s.ctrlr.disconnected_cb ≡ true
    → Advances s.channels st (call_cb st (no_cb s))
unfolding call_cb
call_cb-Advances s rests f set = absurd (true_apart set f.cb)
call_cb-Advances s polls f set = absurd (true_apart set f.cb)
call_cb-Advances s (walks w i held) f set = absurd (true_apart set f.cb)
call_cb-Advances s (ended b) f set = absurd (true_apart set f.cb)
call_cb-Advances s (awaits destroy_qpairs) f set = (
  start_destroy (no_cb s),
  refl,
  Fits-stage s.ctrlr (record (s.ctrlr) { disconnected_cb = false }) s.channels
      (awaits destroy_qpairs) (walks (destroys false) 0 false) f f.resetting refl f.detach
      (λ k ch at l. absurd (omega (arith, l))) (λ k h. h) tt,
  refl,
  omega arith,
)
call_cb-Advances s (awaits reconnect) f set =
    reconnect-Advances s.ctrlr (no_cb s) (awaits reconnect) f f.resetting refl f.detach (λ k h. h)
      (λ k ch at. tt) (omega arith)

forgets-Fits :
    (c : Ctrlr) (chs : List CtrlrChannel) (st : Stage)
    → Fits c chs st
    → Fits (record c { disconnected_cb = false }) chs (forgets st)
forgets-Fits c chs st f =
    Fits-stage c (record c { disconnected_cb = false }) chs st (forgets st) f f.resetting (unset st)
      (f.detach ∙ still st) (λ k ch at d. downs st k d) (λ k h. holds st k h) (waits st f.waits)
  where
    unset : (st : Stage) → false ≡ is_awaiting (forgets st)
    unset rests = refl
    unset polls = refl
    unset (awaits cb) = refl
    unset (walks w i held) = refl
    unset (ended b) = refl

    still : (st : Stage) → is_polling st ≡ is_polling (forgets st)
    still rests = refl
    still polls = refl
    still (awaits cb) = refl
    still (walks w i held) = refl
    still (ended b) = refl

    downs : (st : Stage) (k : ℕ) → Down (forgets st) k → Down st k
    downs rests k d = d
    downs polls k d = d
    downs (awaits cb) k d = absurd d
    downs (walks w i held) k d = d
    downs (ended b) k d = d

    holds : (st : Stage) (k : ℕ) → Holds st k → Holds (forgets st) k
    holds rests k h = h
    holds polls k h = h
    holds (awaits cb) k h = h
    holds (walks w i held) k h = h
    holds (ended b) k h = h

    waits : (st : Stage) → Waits st chs → Waits (forgets st) chs
    waits rests w = w
    waits polls w = w
    waits (awaits cb) w = w
    waits (walks x i held) w = w
    waits (ended b) w = w

-- The controller is disconnected, and `disconnected_cb` is called.
pub poll_adminq-Advances :
    (now : ℕ) (s : Sequence)
    → IsValid s
    → s.ctrlr.disconnected_cb ≡ true
    → Advances s.channels s.stage (poll_adminq true now s)
unfolding poll_adminq
poll_adminq-Advances now s v set =
    let (s', run, v', same, less) = call_cb-Advances s s.stage v set in
    (
      s',
      ap (λ b. if b then call_cb s.stage (no_cb s) else fail_over now (no_cb s)) set ∙ run,
      v',
      same,
      less,
    )

-- An error other than -ENXIO: the `disconnected_cb` is dropped, and the failover changes nothing.
pub poll_adminq_failed :
    (now : ℕ) (s : Sequence)
    → s.ctrlr.resetting ≡ true
    → let failed : Sequence = record (no_cb s) { stage = forgets s.stage } in
      poll_adminq false now s ≡ ok (record failed { effects = failed.effects ++ [] })
unfolding poll_adminq
poll_adminq_failed now s resetting =
    fail_over-resetting now (record (no_cb s) { stage = forgets s.stage }) resetting

pub poll_adminq-Handled :
    (enxio : Bool) (now : ℕ) (s : Sequence) → IsValid s → Handled (poll_adminq enxio now s)
unfolding poll_adminq
poll_adminq-Handled false now s v =
    let failed : Sequence = record (no_cb s) { stage = forgets s.stage } in
    (
      record failed { effects = failed.effects ++ [] },
      poll_adminq_failed now s v.resetting,
      forgets-Fits s.ctrlr s.channels s.stage v,
    )
poll_adminq-Handled true now s v = elim (Bool-cases s.ctrlr.disconnected_cb) [
  | inl set ↦
      Advances-Handled s.channels s.stage (poll_adminq true now s)
        (poll_adminq-Advances now s v set)
  | inr clear ↦ (
    record (no_cb s) { effects = (no_cb s).effects ++ [] },
    ap (λ b. if b then call_cb s.stage (no_cb s) else fail_over now (no_cb s)) clear
        ∙ fail_over-resetting now (no_cb s) v.resetting,
    Fits-stage s.ctrlr (record (s.ctrlr) { disconnected_cb = false }) s.channels s.stage s.stage v
        v.resetting (sym clear ∙ v.cb) v.detach (λ k ch at d. d) (λ k h. h) v.waits,
  )
]
