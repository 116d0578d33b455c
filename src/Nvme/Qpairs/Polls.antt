-- ===== src/Nvme/Qpairs/Polls.antt =====
-- nvme/bdev_nvme.c: a poll of the reconnect keeps a reset valid.
use sump.Base.{
  ℕ, ◌<◌, ◌≡◌, inl, inr, refl, sym, ap, subst, ◌∙◌, true, false, not, List, [], ◌∷◌, Option, none,
  some, arith, if◌then◌else◌, length, ok, ℤ, is_zero, Bool-cases, true_apart,
}
use sump.Nvme.Reset.{
  Ctrlr, Effect, complete_resets, create_qpairs, reconnect_ctrlr_poll, check_ctrlr_loss_timeout,
}
use sump.Nvme.Qpairs.{
  CtrlrChannel, creates, completes, Stage, rests, polls, awaits, walks, ended, Sequence, begun,
  poll_now, poll_reconnect,
}
use sump.Nvme.Qpairs.Valid.{Fits, Fits-stage, IsValid, is_polling, left, Advances}

-- What a poll of the reconnect leaves.
data Polled (c : Ctrlr) (out : Ctrlr × List Effect) : Type 0 where
  waits_on : out.1 ≡ [] → out.0.reset_detach_poller ≡ c.reset_detach_poller → Polled c out
  creates_now : out.1 ≡ create_qpairs ∷ [] → out.0.reset_detach_poller ≡ false → Polled c out
  gives_up : out.1 ≡ complete_resets false ∷ [] → out.0.reset_detach_poller ≡ false → Polled c out

reconnect_ctrlr_poll-cases :
    (hz now : ℕ) (poll : Option ℤ) (c : Ctrlr) → Polled c (reconnect_ctrlr_poll hz now poll c)
unfolding reconnect_ctrlr_poll check_ctrlr_loss_timeout
reconnect_ctrlr_poll-cases hz now none c = waits_on refl refl
reconnect_ctrlr_poll-cases hz now (some rc) c = elim (Bool-cases (is_zero rc)) [
  | inl good ↦ creates_now (rw good refl) (rw good refl)
  | inr bad ↦ gives_up (rw bad refl) (rw bad refl)
]

reconnect_ctrlr_poll-same :
    (hz now : ℕ) (poll : Option ℤ) (c : Ctrlr)
    → ((reconnect_ctrlr_poll hz now poll c).0.resetting ≡ c.resetting)
      × ((reconnect_ctrlr_poll hz now poll c).0.disconnected_cb ≡ c.disconnected_cb)
unfolding reconnect_ctrlr_poll check_ctrlr_loss_timeout
reconnect_ctrlr_poll-same hz now none c = (refl, refl)
reconnect_ctrlr_poll-same hz now (some rc) c = elim (Bool-cases (is_zero rc)) [
  | inl good ↦ rw good (refl, refl)
  | inr bad ↦ rw bad (refl, refl)
]

poll-Fits :
    (c c' : Ctrlr) (chs : List CtrlrChannel) (st : Stage) (es : List Effect)
    → Fits c chs st
    → c.reset_detach_poller ≡ true
    → c'.resetting ≡ c.resetting
    → c'.disconnected_cb ≡ c.disconnected_cb
    → Polled c (c', es)
    → Fits c' chs (begun es st)
poll-Fits c c' chs rests es f set on cb p = absurd (true_apart set f.detach)
poll-Fits c c' chs (awaits x) es f set on cb p = absurd (true_apart set f.detach)
poll-Fits c c' chs (walks w i held) es f set on cb p = absurd (true_apart set f.detach)
poll-Fits c c' chs (ended b) es f set on cb p = absurd (true_apart set f.detach)
poll-Fits c c' chs polls es f set on cb (waits_on nothing same) =
    subst (λ (l : List Effect). Fits c' chs (begun l polls)) (sym nothing)
      (Fits-stage c c' chs polls polls f (on ∙ f.resetting) (cb ∙ f.cb) (same ∙ f.detach)
        (λ k ch at d. d) (λ k h. h) tt)
poll-Fits c c' chs polls es f set on cb (creates_now begins off) =
    subst (λ (l : List Effect). Fits c' chs (begun l polls)) (sym begins)
      (Fits-stage c c' chs polls (walks creates 0 false) f (on ∙ f.resetting) (cb ∙ f.cb) off
        (λ k ch at d. tt) (λ k h. h) tt)
poll-Fits c c' chs polls es f set on cb (gives_up begins off) =
    subst (λ (l : List Effect). Fits c' chs (begun l polls)) (sym begins)
      (Fits-stage c c' chs polls (walks (completes false) 0 false) f (on ∙ f.resetting) (cb ∙ f.cb)
        off (λ k ch at d. tt) (λ k h. h) tt)

pub poll_reconnect-IsValid :
    (hz now : ℕ) (poll : Option ℤ) (s : Sequence)
    → IsValid s
    → IsValid (poll_reconnect hz now poll s)
unfolding poll_reconnect
poll_reconnect-IsValid hz now poll s v = elim (Bool-cases s.ctrlr.reset_detach_poller) [
  | inr off ↦ subst IsValid (ap (λ b. if not b then s else poll_now hz now poll s) (sym off)) v
  | inl on ↦
      let (resetting, cb) = reconnect_ctrlr_poll-same hz now poll s.ctrlr in
      let fits =
        poll-Fits s.ctrlr (reconnect_ctrlr_poll hz now poll s.ctrlr).0 s.channels s.stage
          (reconnect_ctrlr_poll hz now poll s.ctrlr).1 v on resetting cb
          (reconnect_ctrlr_poll-cases hz now poll s.ctrlr) in
      subst IsValid (ap (λ b. if not b then s else poll_now hz now poll s) (sym on)) fits
]

begun-left :
    (hz now : ℕ) (rc : ℤ) (n : ℕ) (c : Ctrlr) (st : Stage)
    → left n (begun (reconnect_ctrlr_poll hz now (some rc) c).1 st) < left n polls
unfolding reconnect_ctrlr_poll check_ctrlr_loss_timeout
begun-left hz now rc n c st = elim (Bool-cases (is_zero rc)) [
  | inl good ↦ rw good (omega arith)
  | inr bad ↦ rw bad (omega arith)
]

-- A poll that spdk answers brings the reset on.
pub poll_reconnect-Advances :
    (hz now : ℕ) (rc : ℤ) (s : Sequence)
    → IsValid s
    → s.stage ≡ polls
    → Advances s.channels polls (ok (poll_reconnect hz now (some rc) s))
unfolding poll_reconnect
poll_reconnect-Advances hz now rc s v at =
    let on : s.ctrlr.reset_detach_poller ≡ true = v.detach ∙ ap is_polling at in
    let n : ℕ = length s.channels in
    let runs : poll_reconnect hz now (some rc) s ≡ poll_now hz now (some rc) s =
      ap (λ b. if not b then s else poll_now hz now (some rc) s) on in
    (
      poll_reconnect hz now (some rc) s,
      refl,
      poll_reconnect-IsValid hz now (some rc) s v,
      ap (λ x. length x.channels) runs,
      subst (λ (x : Sequence). left n x.stage < left n polls) (sym runs)
          (begun-left hz now rc n s.ctrlr s.stage),
    )
