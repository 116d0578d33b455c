-- ===== src/Nvme/Qpairs/Messages.antt =====
-- nvme/bdev_nvme.c: the ends of the walks, and every message of a reset, keep it valid.
use sump.Base.{
  ℕ, zero, suc, ◌<◌, ◌≡◌, inl, inr, refl, ap, subst, ◌∙◌, Bool, true, false, not, List, [], ◌∷◌,
  ◌++◌, none, some, arith, if◌then◌else◌, get_elem?, get_elem?-lt, length, length-modify, ℤ,
  is_zero, Bool-cases, Option-cases,
}
use sump.Nvme.Reset.{Ctrlr, fast_adminq, reconnect_async, nvme_ctrlr_disconnect, reconnect_ctrlr}
use sump.Nvme.Qpairs.{
  CtrlrChannel, DisconnectedCb, destroy_qpairs, reconnect, Walk, creates, stops, destroys,
  completes, Stage, rests, polls, awaits, walks, ended, Sequence, Attempt, disconnect,
  begin_reconnect, reset_ctrlr, visit_channel, end_walk, run_message_at, run_message,
}
use sump.Nvme.Qpairs.Valid.{
  Fits, Fits-stage, Fits-put, IsValid, Down, Holds, Handled, left, Advances, Advances-Handled,
}
use sump.Nvme.Qpairs.Visits.{destroy-Advances, create-Advances, stage-Fits}

awaits-left :
    (cb : DisconnectedCb) (n : ℕ) → left n (walks (completes false) 0 false) < left n (awaits cb)
awaits-left destroy_qpairs n = omega arith
awaits-left reconnect n = omega arith

-- `nvme_ctrlr_disconnect`, when no walk is held.
pub disconnect-Advances :
    (rc : ℤ) (cb : DisconnectedCb) (s : Sequence) (st : Stage)
    → Fits s.ctrlr s.channels st
    → s.ctrlr.disconnected_cb ≡ false
    → s.ctrlr.reset_detach_poller ≡ false
    → ((k : ℕ) → Holds st k → ⊥)
    → ((k : ℕ) (ch : CtrlrChannel)
        → get_elem? s.channels k ≡ some ch
        → Down (awaits cb) k
        → Down st k)
    → left (length s.channels) (awaits cb) < left (length s.channels) st
    → Advances s.channels st (disconnect rc cb s)
unfolding disconnect nvme_ctrlr_disconnect
disconnect-Advances rc cb s st f none_set detach free downs less = elim (Bool-cases (is_zero rc)) [
  | inl good ↦ (
    record s {
      ctrlr = record (s.ctrlr) { disconnected_cb = true };
      stage = awaits cb;
      effects = s.effects ++ (fast_adminq ∷ []);
    },
    rw (good, none_set) refl,
    Fits-stage s.ctrlr (record (s.ctrlr) { disconnected_cb = true }) s.channels st (awaits cb) f
        f.resetting refl detach downs (λ k h. free k h) tt,
    refl,
    less,
  )
  | inr bad ↦ (
    record s { stage = walks (completes false) 0 false },
    rw bad refl,
    stage-Fits st (completes false) 0 f none_set detach free (λ k ch at d. absurd d),
    refl,
    (let few = awaits-left cb (length s.channels) in omega (arith, few, less)),
  )
]

pub reconnect-Advances :
    (c : Ctrlr) (s : Sequence) (st : Stage)
    → Fits c s.channels st
    → s.ctrlr.resetting ≡ true
    → s.ctrlr.disconnected_cb ≡ false
    → s.ctrlr.reset_detach_poller ≡ false
    → ((k : ℕ) → Holds st k → ⊥)
    → ((k : ℕ) (ch : CtrlrChannel) → get_elem? s.channels k ≡ some ch → Down st k)
    → left (length s.channels) polls < left (length s.channels) st
    → Advances s.channels st (begin_reconnect s)
unfolding begin_reconnect reconnect_ctrlr
reconnect-Advances c s st f on none_set detach free downs less = (
  record s {
    ctrlr = record (s.ctrlr) { reset_detach_poller = true };
    stage = polls;
    effects = s.effects ++ (reconnect_async ∷ []);
  },
  rw detach refl,
  Fits-stage c (record (s.ctrlr) { reset_detach_poller = true }) s.channels st polls f on none_set
      refl (λ k ch at d. downs k ch at) (λ k h. free k h) tt,
  refl,
  less,
)

pub passed_end :
    (chs : List CtrlrChannel) (i k : ℕ) {ch : CtrlrChannel}
    → get_elem? chs i ≡ none
    → get_elem? chs k ≡ some ch
    → k < i
passed_end [] i k out at = cc
passed_end (c ∷ cs) zero k out at = cc
passed_end (c ∷ cs) (suc i) zero out at = omega arith
passed_end (c ∷ cs) (suc i) (suc k) out at = let l = passed_end cs i k out at in omega (arith, l)

end_walk-Advances :
    (w : Walk) (i : ℕ) (rc : ℤ) (s : Sequence)
    → Fits s.ctrlr s.channels (walks w i false)
    → get_elem? s.channels i ≡ none
    → Advances s.channels (walks w i false) (end_walk w rc s)
unfolding end_walk reset_ctrlr
end_walk-Advances creates i rc s f out = (
  _,
  refl,
  stage-Fits (walks creates i false) (completes true) 0 f f.cb f.detach (λ k h. h)
      (λ k ch at d. absurd d),
  refl,
  omega arith,
)
end_walk-Advances stops i rc s f out = (
  _,
  refl,
  stage-Fits (walks stops i false) (destroys true) 0 f f.cb f.detach (λ k h. h)
      (λ k ch at l. absurd (omega (arith, l))),
  refl,
  omega arith,
)
end_walk-Advances (destroys true) i rc s f out = (
  _,
  refl,
  stage-Fits (walks (destroys true) i false) (completes false) 0 f f.cb f.detach (λ k h. h)
      (λ k ch at d. absurd d),
  refl,
  omega arith,
)
end_walk-Advances (completes b) i rc s f out = (
  _,
  refl,
  Fits-stage s.ctrlr s.ctrlr s.channels (walks (completes b) i false) (ended b) f f.resetting f.cb
      f.detach (λ k ch at d. absurd d) (λ k h. h) tt,
  refl,
  omega arith,
)
end_walk-Advances (destroys false) i rc s f out =
    let passed : (k : ℕ) (ch : CtrlrChannel) → get_elem? s.channels k ≡ some ch → k < i =
      λ k ch at. passed_end s.channels i k out at in
    elim (Bool-cases s.is_fabrics) [
      | inl fabrics ↦
          let (s', e, v, same, less) =
            disconnect-Advances rc reconnect s (walks (destroys false) i false) f f.cb f.detach
              (λ k h. h) (λ k ch at d. passed k ch at) (omega arith) in
          (
            s',
            ap (λ b. if not b then begin_reconnect s else disconnect rc reconnect s) fabrics ∙ e,
            v,
            same,
            less,
          )
      | inr local ↦
          let (s', e, v, same, less) =
            reconnect-Advances s.ctrlr s (walks (destroys false) i false) f f.resetting f.cb
              f.detach (λ k h. h) passed (omega arith) in
          (
            s',
            ap (λ b. if not b then begin_reconnect s else disconnect rc reconnect s) local ∙ e,
            v,
            same,
            less,
          )
    ]

complete-Advances :
    (b : Bool) (a : Attempt) (i : ℕ) (ch : CtrlrChannel) (s : Sequence)
    → Fits s.ctrlr s.channels (walks (completes b) i false)
    → get_elem? s.channels i ≡ some ch
    → Advances s.channels (walks (completes b) i false) (visit_channel (completes b) a i ch s)
unfolding visit_channel
complete-Advances b a i ch s f at = (
  _,
  refl,
  Fits-put s.ctrlr s.channels i (record ch { pending_resets = [] }) (walks (completes b) i false)
      (walks (completes b) (suc i) false) f refl refl (λ k apart d. d) (λ d. absurd d)
      (λ k apart h. h) (λ on. f.iter i ch at on) tt,
  length-modify s.channels i (λ old. record ch { pending_resets = [] }),
  (let l = get_elem?-lt s.channels i at in omega (arith, l)),
)

visit_channel-Advances :
    (w : Walk) (a : Attempt) (i : ℕ) (ch : CtrlrChannel) (s : Sequence)
    → Fits s.ctrlr s.channels (walks w i false)
    → get_elem? s.channels i ≡ some ch
    → Advances s.channels (walks w i false) (visit_channel w a i ch s)
unfolding visit_channel
visit_channel-Advances (destroys failed) a i ch s f at = destroy-Advances failed a i ch s f at
visit_channel-Advances creates a i ch s f at = create-Advances a i ch s f at
visit_channel-Advances stops a i ch s f at = (
  _,
  refl,
  stage-Fits (walks stops i false) (destroys true) 0 f f.cb f.detach (λ k h. h)
      (λ k x y l. absurd (omega (arith, l))),
  refl,
  omega arith,
)
visit_channel-Advances (completes b) a i ch s f at = complete-Advances b a i ch s f at

pub run_message_at-Advances :
    (a : Attempt) (rc : ℤ) (w : Walk) (i : ℕ) (s : Sequence)
    → Fits s.ctrlr s.channels (walks w i false)
    → Advances s.channels (walks w i false) (run_message_at a rc (walks w i false) s)
unfolding run_message_at
run_message_at-Advances a rc w i s f = elim (Option-cases (get_elem? s.channels i)) [
  | inl out ↦
      let (s', run, v, same, less) = end_walk-Advances w i rc s f out in
      (s', rw (out, run_message_at) run, v, same, less)
  | inr (ch, at) ↦
      let (s', run, v, same, less) = visit_channel-Advances w a i ch s f at in
      (s', rw (at, run_message_at) run, v, same, less)
]

run_message_at-Handled :
    (a : Attempt) (rc : ℤ) (st : Stage) (s : Sequence)
    → IsValid s
    → s.stage ≡ st
    → Handled (run_message_at a rc st s)
unfolding run_message_at
run_message_at-Handled a rc rests s v e = (s, refl, v)
run_message_at-Handled a rc polls s v e = (s, refl, v)
run_message_at-Handled a rc (awaits cb) s v e = (s, refl, v)
run_message_at-Handled a rc (ended b) s v e = (s, refl, v)
run_message_at-Handled a rc (walks w i true) s v e = (s, refl, v)
run_message_at-Handled a rc (walks w i false) s v e =
    Advances-Handled s.channels (walks w i false) (run_message_at a rc (walks w i false) s)
      (run_message_at-Advances a rc w i s (subst (Fits s.ctrlr s.channels) e v))

pub run_message-Handled :
    (a : Attempt) (rc : ℤ) (s : Sequence) → IsValid s → Handled (run_message a rc s)
run_message-Handled a rc s v = run_message_at-Handled a rc s.stage s v refl
