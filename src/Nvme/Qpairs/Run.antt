-- ===== src/Nvme/Qpairs/Run.antt =====
-- nvme/bdev_nvme.c: a reset of the queue pairs from its start, in any order of messages.
use sump.Base.{
  ℕ, ◌≤◌, ◌≡◌, inl, inr, refl, ap, subst, ◌∙◌, Bool, true, false, not, List, [], ◌∷◌, Option, none,
  some, arith, if◌then◌else◌, get_elem?, Outcome, ok, ◌>>=◌, assert, ℤ, Bool-cases, true_apart,
}
use sump.Nvme.Qpairs.{
  CtrlrChannel, destroy_qpairs, creates, destroys, rests, polls, walks, Sequence, Attempt,
  run_message, disconnected_qpair_cb, disconnect, start_destroy, start_reset, poll_adminq,
  poll_reconnect,
}
use sump.Nvme.Qpairs.Valid.{Fits, Fits-stage, IsValid, Handled, Advances}
use sump.Nvme.Qpairs.Messages.{disconnect-Advances, run_message-Handled}
use sump.Nvme.Qpairs.Disconnects.{disconnected_qpair_cb-Handled}
use sump.Nvme.Qpairs.Adminq.{poll_adminq-Handled}
use sump.Nvme.Qpairs.Polls.{poll_reconnect-IsValid}

-- What spdk does next: it runs a message of a walk, reports a qpair that is disconnected or an error
-- of the admin queue, or runs the poller of the reconnect.
pub data Event : Type 0 where
  visits : (a : Attempt) (rc : ℤ) → Event
  disconnects : (q now : ℕ) → Event
  reports : (enxio : Bool) (now : ℕ) → Event
  reconnects : (hz now : ℕ) (poll : Option ℤ) → Event

unfoldable pub step : Event → Sequence → Outcome Sequence
step (visits a rc) s = run_message a rc s
step (disconnects q now) s = disconnected_qpair_cb q now s
step (reports enxio now) s = poll_adminq enxio now s
step (reconnects hz now poll) s = ok (poll_reconnect hz now poll s)

unfoldable pub run : List Event → Sequence → Outcome Sequence
unfolding step
run [] s = ok s
run (e ∷ es) s = step e s >>= run es

pub step-Handled : (e : Event) (s : Sequence) → IsValid s → Handled (step e s)
unfolding step
step-Handled (visits a rc) s v = run_message-Handled a rc s v
step-Handled (disconnects q now) s v = disconnected_qpair_cb-Handled q now s v
step-Handled (reports enxio now) s v = poll_adminq-Handled enxio now s v
step-Handled (reconnects hz now poll) s v =
    (poll_reconnect hz now poll s, refl, poll_reconnect-IsValid hz now poll s v)

run-Handled : (es : List Event) (s : Sequence) → IsValid s → Handled (run es s)
unfolding run
run-Handled [] s v = (s, refl, v)
run-Handled (e ∷ es) s v =
    let (s1, first, v1) = step-Handled e s v in
    let (s2, rest, v2) = run-Handled es s1 v1 in (s2, ap (λ o. o >>= run es) first ∙ rest, v2)

-- `_bdev_nvme_reset` was sent: the controller is marked as being reset, and nothing of an earlier
-- reset is left.
pub record IsAsked (s : Sequence) : Type 0 where
  pub resetting : s.ctrlr.resetting ≡ true
  pub cb : s.ctrlr.disconnected_cb ≡ false
  pub detach : s.ctrlr.reset_detach_poller ≡ false
  pub iter : (k : ℕ) (ch : CtrlrChannel) → get_elem? s.channels k ≡ some ch → ch.reset_iter ≡ false

-- `_bdev_nvme_reset` behind its assertion.
abbrev pub start_with : ℤ → Sequence → Bool → Outcome Sequence
start_with rc s fabrics =
    if not fabrics then disconnect rc destroy_qpairs s else ok (start_destroy s)

pub start_reset_on :
    (rc : ℤ) (s : Sequence) {b : Bool}
    → IsAsked s
    → s.is_fabrics ≡ b
    → start_reset rc s ≡ start_with rc s b
unfolding start_reset
start_reset_on rc s a e =
    ap (λ b. assert b (start_with rc s s.is_fabrics)) a.resetting ∙ ap (start_with rc s) e

pub start_reset-Advances :
    (rc : ℤ) (s : Sequence) → IsAsked s → Advances s.channels rests (start_reset rc s)
start_reset-Advances rc s a =
    let f : Fits s.ctrlr s.channels rests = record {
      resetting = a.resetting;
      cb = a.cb;
      detach = a.detach;
      down = λ k ch at d. absurd d;
      iter = λ k ch at on. true_apart on (a.iter k ch at);
      waits = tt;
    } in
    elim (Bool-cases s.is_fabrics) [
      | inl fabrics ↦ (
        start_destroy s,
        start_reset_on rc s a fabrics,
        Fits-stage s.ctrlr s.ctrlr s.channels rests (walks (destroys false) 0 false) f a.resetting
            a.cb a.detach (λ k ch at l. absurd (omega (arith, l))) (λ k h. h) tt,
        refl,
        omega arith,
      )
      | inr local ↦
          let (s', e, v, same, less) =
            disconnect-Advances rc destroy_qpairs s rests f a.cb a.detach (λ k h. h)
              (λ k ch at d. d) (omega arith) in
          (s', start_reset_on rc s a local ∙ e, v, same, less)
    ]

-- A reset meets no failed assertion, whatever spdk runs and reports, and in whatever order: the
-- messages of the walks, disconnected qpairs, errors of the admin queue, polls of the reconnect. The
-- controller stays marked as being reset up to the call of `_bdev_nvme_reset_complete`; while it is
-- reconnected no channel has a qpair; and in the walk that creates the qpairs no channel from its
-- place on has one, so that no qpair is overwritten. The controller was marked when the reset was
-- sent, and nothing of an earlier reset is left.
pub run-start_reset :
    (rc : ℤ) (es : List Event) (s : Sequence)
    → IsAsked s
    → (s' : Sequence) × ((start_reset rc s >>= run es) ≡ ok s')
      × (s'.ctrlr.resetting ≡ true)
      × ((k : ℕ) (ch : CtrlrChannel)
          → s'.stage ≡ polls
          → get_elem? s'.channels k ≡ some ch
          → ch.qpair ≡ none)
      × ((i k : ℕ) (ch : CtrlrChannel)
          → s'.stage ≡ walks creates i false
          → i ≤ k
          → get_elem? s'.channels k ≡ some ch
          → ch.qpair ≡ none)
run-start_reset rc es s asked =
    let (s1, first, v1, _, _) = start_reset-Advances rc s asked in
    let (s2, rest, v2) = run-Handled es s1 v1 in
    (
      s2,
      ap (λ o. o >>= run es) first ∙ rest,
      v2.resetting,
      (λ k ch at_polls at. (subst (Fits s2.ctrlr s2.channels) at_polls v2).down k ch at tt),
      (λ i k ch creating l at. (subst (Fits s2.ctrlr s2.channels) creating v2).down k ch at l),
    )
