-- ===== src/Nvme/Qpairs/Stalls.antt =====
-- nvme/bdev_nvme.c, `bdev_nvme_poll_adminq`: an error other than -ENXIO drops the function that was
-- to be called once the controller is disconnected.
use sump.Base.{
  ℕ, ◌≡◌, inl, inr, refl, sym, ap, subst, ◌∙◌, true, false, not, List, [], ◌∷◌, ◌++◌, none, arith,
  if◌then◌else◌, Outcome, ok, ◌>>=◌, Bool-cases, Option-cases,
}
use sump.Nvme.Reset.{busy, nvme_reset}
use sump.Nvme.Qpairs.{
  CtrlrChannel, DisconnectedCb, Stage, rests, awaits, Sequence, put_channel, clear_io_path_cache,
  get_qpair, fail_over, no_cb, forgets, call_cb, run_message_at, disconnected_qpair_cb, poll_adminq,
  poll_now, poll_reconnect,
}
use sump.Nvme.Qpairs.Valid.{IsValid, Holds, is_awaiting, is_polling, fail_over-resetting}
use sump.Nvme.Qpairs.Disconnects.{get_qpair-at, disconnected_off}
use sump.Nvme.Qpairs.Adminq.{poll_adminq_failed}
use sump.Nvme.Qpairs.Run.{Event, visits, disconnects, reports, reconnects, step, run, step-Handled}

pub ok-eq : {s s' : Sequence} {o : Outcome Sequence} → o ≡ ok s → o ≡ ok s' → s ≡ s'
ok-eq {s} {s'} a b = let same : ok s ≡ ok s' = sym a ∙ b in ground arith

-- What rests goes on resting.
step-rests :
    (e : Event) (s s' : Sequence)
    → IsValid s
    → s.stage ≡ rests
    → step e s ≡ ok s'
    → s'.stage ≡ rests
unfolding step poll_reconnect poll_adminq disconnected_qpair_cb run_message_at
step-rests (visits a rc) s s' v at e =
    let same : s ≡ s' = ok-eq (ap (λ st. run_message_at a rc st s) at) e in
    subst (λ (x : Sequence). x.stage ≡ rests) same at
step-rests (reconnects hz now poll) s s' v at e =
    let off : s.ctrlr.reset_detach_poller ≡ false = v.detach ∙ ap is_polling at in
    let same : s ≡ s' = ok-eq (ap (λ b. ok (if not b then s else poll_now hz now poll s)) off) e in
    subst (λ (x : Sequence). x.stage ≡ rests) same at
step-rests (reports true now) s s' v at e =
    let clear : s.ctrlr.disconnected_cb ≡ false = v.cb ∙ ap is_awaiting at in
    let same : record (no_cb s) { effects = (no_cb s).effects ++ [] } ≡ s' =
      ok-eq
        (ap (λ b. if b then call_cb s.stage (no_cb s) else fail_over now (no_cb s)) clear
          ∙ fail_over-resetting now (no_cb s) v.resetting)
        e in
    subst (λ (x : Sequence). x.stage ≡ rests) same at
step-rests (reports false now) s s' v at e =
    let failed : Sequence = record (no_cb s) { stage = forgets s.stage } in
    let same : record failed { effects = failed.effects ++ [] } ≡ s' =
      ok-eq (fail_over-resetting now failed v.resetting) e in
    subst (λ (x : Sequence). x.stage ≡ rests) same (ap forgets at)
step-rests (disconnects q now) s s' v at e = elim (Option-cases (get_qpair q s.channels)) [
  | inl out ↦
      let same : s ≡ s' = ok-eq (rw (out, disconnected_qpair_cb) refl) e in
      subst (λ (x : Sequence). x.stage ≡ rests) same at
  | inr (i, found) ↦
      let (ch, there, up) = get_qpair-at q s.channels found in
      elim (Bool-cases ch.reset_iter) [
        | inl on ↦ absurd (subst (λ (st : Stage). Holds st i) at (v.iter i ch there on))
        | inr off ↦
            let freed : CtrlrChannel = record (clear_io_path_cache ch) {
              qpair = none;
              reset_iter = false;
            } in
            let put : Sequence = put_channel i freed s.stage s in
            let same : record put { effects = put.effects ++ [] } ≡ s' =
              ok-eq (disconnected_off q now s found there off v.resetting) e in
            subst (λ (x : Sequence). x.stage ≡ rests) same at
      ]
]

run-rests :
    (es : List Event) (s : Sequence)
    → IsValid s
    → s.stage ≡ rests
    → (s' : Sequence) × (run es s ≡ ok s') × IsValid s' × (s'.stage ≡ rests)
unfolding run
run-rests [] s v at = (s, refl, v, at)
run-rests (e ∷ es) s v at =
    let (s1, first, v1) = step-Handled e s v in
    let (s2, rest, v2, at2) = run-rests es s1 v1 (step-rests e s s1 v at first) in
    (s2, ap (λ o. o >>= run es) first ∙ rest, v2, at2)

-- If the admin queue reports an error other than -ENXIO while a reset waits for the controller to be
-- disconnected, the reset never ends: whatever spdk runs and reports afterwards, the reset waits for
-- nothing any more, and another one is refused as busy for as long as the controller is not destroyed.
-- The reset was valid before, as every reset is from its start on.
pub poll_adminq-stalls :
    (now : ℕ) (es : List Event) (s : Sequence) (cb : DisconnectedCb)
    → IsValid s
    → s.stage ≡ awaits cb
    → (s' : Sequence) × ((poll_adminq false now s >>= run es) ≡ ok s')
      × (s'.stage ≡ rests)
      × ((t : ℕ) → s'.ctrlr.destruct ≡ false → nvme_reset t s'.ctrlr ≡ ok (busy, s'.ctrlr, []))
unfolding nvme_reset step
poll_adminq-stalls now es s cb v at =
    let failed : Sequence = record (no_cb s) { stage = forgets s.stage } in
    let s1 : Sequence = record failed { effects = failed.effects ++ [] } in
    let (s2, first, v2) = step-Handled (reports false now) s v in
    let same : s1 ≡ s2 = ok-eq (poll_adminq_failed now s v.resetting) first in
    let at2 : s2.stage ≡ rests = subst (λ (x : Sequence). x.stage ≡ rests) same (ap forgets at) in
    let (s', rest, v', at') = run-rests es s2 v2 at2 in
    (
      s',
      ap (λ o. o >>= run es) first ∙ rest,
      at',
      λ t live. rw (live, v'.resetting, nvme_reset) refl,
    )
