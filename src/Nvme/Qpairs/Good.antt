-- ===== src/Nvme/Qpairs/Good.antt =====
-- nvme/bdev_nvme.c: what is created at each stage of a reset in which every call succeeds.
use sump.Base.{
  ℕ, suc, ◌<◌, ◌≡◌, inl, inr, refl, sym, ap, subst, ◌∙◌, Bool, true, false, not, List, [], ◌∷◌,
  ◌++◌, map, some, arith, if◌then◌else◌, get_elem?, get_elem?-modify_inv, Outcome, ok, ℤ, is_zero,
  Bool-cases, Option-cases,
}
use sump.Nvme.Reset.{
  fast_adminq, reconnect_async, reconnect_ctrlr, reconnect_ctrlr_poll, check_ctrlr_loss_timeout,
  nvme_ctrlr_disconnect,
}
use sump.Nvme.Qpairs.{
  CtrlrChannel, reconnect, Walk, creates, stops, destroys, completes, Stage, rests, polls, awaits,
  walks, ended, Sequence, create_qpair, clear_io_path_cache, put_channel, disconnect,
  begin_reconnect, reset_ctrlr, visit_channel, end_walk, run_message_at, poll_now, poll_reconnect,
}
use sump.Nvme.Qpairs.Valid.{Fits}
use sump.Nvme.Qpairs.Messages.{passed_end}
use sump.Nvme.Qpairs.Visits.{destroy_none, destroy_some}
use sump.Nvme.Qpairs.Ends.{Turn}

-- Every call of a turn succeeds.
pub record Succeeds (t : Turn) : Type 0 where
  pub qpair : ℕ
  pub alloc : t.attempt.alloc ≡ some qpair
  pub add : is_zero t.attempt.add_rc ≡ true
  pub connect : is_zero t.attempt.connect_rc ≡ true
  pub rc : is_zero t.rc ≡ true
  pub poll_rc : is_zero t.poll_rc ≡ true

abbrev pub IsUp : CtrlrChannel → Type 0
IsUp ch = (q : ℕ) × (ch.qpair ≡ some q)

-- The channels that have got their new qpair at a stage of a reset that has not failed.
abbrev pub Good : Stage → List CtrlrChannel → Type 0
Good rests chs = ⊥
Good polls chs = Unit {0}
Good (awaits cb) chs = Unit {0}
Good (walks (destroys false) i held) chs = Unit {0}
Good (walks (destroys true) i held) chs = ⊥
Good (walks stops i held) chs = ⊥
Good (walks creates i held) chs =
    (k : ℕ) (ch : CtrlrChannel) → k < i → get_elem? chs k ≡ some ch → IsUp ch
Good (walks (completes false) i held) chs = ⊥
Good (walks (completes true) i held) chs =
    (k : ℕ) (ch : CtrlrChannel) → get_elem? chs k ≡ some ch → IsUp ch
Good (ended false) chs = ⊥
Good (ended true) chs = (k : ℕ) (ch : CtrlrChannel) → get_elem? chs k ≡ some ch → IsUp ch

-- What the result of a step is, if there is one.
abbrev pub Leads : Outcome Sequence → Type 0
Leads o = (s' : Sequence) × (o ≡ ok s') × Good s'.stage s'.channels

create_qpair-IsUp :
    (off : Bool) (t : Turn) (ch : CtrlrChannel)
    → Succeeds t
    → (is_zero (create_qpair off t.attempt ch).0 ≡ true) × IsUp (create_qpair off t.attempt ch).1
unfolding create_qpair clear_io_path_cache
create_qpair-IsUp true t ch g = rw (g.alloc, g.add, g.connect) (refl, (g.qpair, refl))
create_qpair-IsUp false t ch g = rw (g.alloc, g.add, g.connect) (refl, (g.qpair, refl))

create-Leads :
    (t : Turn) (i : ℕ) (ch : CtrlrChannel) (s : Sequence)
    → Succeeds t
    → Good (walks creates i false) s.channels
    → Leads (visit_channel creates t.attempt i ch s)
unfolding visit_channel
create-Leads t i ch s g up =
    let created = create_qpair s.disable_auto_failback t.attempt ch in
    let (zero_rc, new_up) = create_qpair-IsUp s.disable_auto_failback t ch g in
    (
      put_channel i created.1 (walks creates (suc i) false) s,
      rw zero_rc refl,
      λ k x l at.
          (let (a, at_a, cases) = get_elem?-modify_inv s.channels i k (λ old. created.1) at in
            elim cases [
              | inl (same, is) ↦ subst IsUp (sym is) new_up
              | inr (apart, is) ↦ subst IsUp (sym is) (up k a (omega (arith, l, apart)) at_a)
            ]),
    )

complete-Leads :
    (t : Turn) (i : ℕ) (ch : CtrlrChannel) (s : Sequence)
    → get_elem? s.channels i ≡ some ch
    → Good (walks (completes true) i false) s.channels
    → Leads (visit_channel (completes true) t.attempt i ch s)
unfolding visit_channel
complete-Leads t i ch s at_ch up =
    let put : Sequence =
      put_channel i (record ch { pending_resets = [] }) (walks (completes true) (suc i) false) s in
    (
      record put { completed = s.completed ++ map (λ bio. (bio, true)) ch.pending_resets },
      refl,
      λ k x at.
          (let (a, at_a, cases) =
              get_elem?-modify_inv s.channels i k (λ old. record ch { pending_resets = [] }) at in
            elim cases [
              | inl (same, is) ↦ subst IsUp (sym is) (up i ch at_ch)
              | inr (apart, is) ↦ subst IsUp (sym is) (up k a at_a)
            ]),
    )

disconnect-Leads :
    (rc : ℤ) (s : Sequence)
    → is_zero rc ≡ true
    → s.ctrlr.disconnected_cb ≡ false
    → Leads (disconnect rc reconnect s)
unfolding disconnect nvme_ctrlr_disconnect
disconnect-Leads rc s good clear = (
  record s {
    ctrlr = record (s.ctrlr) { disconnected_cb = true };
    stage = awaits reconnect;
    effects = s.effects ++ (fast_adminq ∷ []);
  },
  rw (good, clear) refl,
  tt,
)

pub reconnect-Leads :
    (s : Sequence) → s.ctrlr.reset_detach_poller ≡ false → Leads (begin_reconnect s)
unfolding begin_reconnect reconnect_ctrlr
reconnect-Leads s off = (
  record s {
    ctrlr = record (s.ctrlr) { reset_detach_poller = true };
    stage = polls;
    effects = s.effects ++ (reconnect_async ∷ []);
  },
  rw off refl,
  tt,
)

destroy-Leads :
    (t : Turn) (i : ℕ) (ch : CtrlrChannel) (s : Sequence)
    → Fits s.ctrlr s.channels (walks (destroys false) i false)
    → get_elem? s.channels i ≡ some ch
    → Leads (visit_channel (destroys false) t.attempt i ch s)
unfolding visit_channel
destroy-Leads t i ch s f at = elim (Option-cases ch.qpair) [
  | inl down ↦ (
    put_channel i (clear_io_path_cache ch) (walks (destroys false) (suc i) false) s,
    rw (destroy_none ch down) refl,
    tt,
  )
  | inr (q, up) ↦ elim (Bool-cases ch.reset_iter) [
    | inl on ↦ absurd (f.iter i ch at on)
    | inr off ↦ (
      put_channel i (record (clear_io_path_cache ch) { reset_iter = true })
          (walks (destroys false) i true) s,
      rw (destroy_some ch up off) refl,
      tt,
    )
  ]
]

reset_ctrlr_on :
    (rc : ℤ) (s : Sequence) {b : Bool}
    → s.is_fabrics ≡ b
    → reset_ctrlr rc s ≡ (if not b then begin_reconnect s else disconnect rc reconnect s)
unfolding reset_ctrlr
reset_ctrlr_on rc s e = ap (λ b. if not b then begin_reconnect s else disconnect rc reconnect s) e

pub message-Leads :
    (t : Turn) (w : Walk) (i : ℕ) (s : Sequence)
    → Succeeds t
    → Fits s.ctrlr s.channels (walks w i false)
    → Good (walks w i false) s.channels
    → Leads (run_message_at t.attempt t.rc (walks w i false) s)
unfolding run_message_at end_walk reset_ctrlr visit_channel
message-Leads t stops i s g f good = absurd good
message-Leads t (destroys true) i s g f good = absurd good
message-Leads t (completes false) i s g f good = absurd good
message-Leads t creates i s g f up = elim (Option-cases (get_elem? s.channels i)) [
  | inl out ↦ (
    record s { stage = walks (completes true) 0 false },
    rw (out, run_message_at) refl,
    λ k ch at. up k ch (passed_end s.channels i k out at) at,
  )
  | inr (ch, at) ↦
      let (s', e, good) = create-Leads t i ch s g up in (s', rw (at, run_message_at) e, good)
]
message-Leads t (completes true) i s g f up = elim (Option-cases (get_elem? s.channels i)) [
  | inl out ↦ (record s { stage = ended true }, rw (out, run_message_at) refl, up)
  | inr (ch, at) ↦
      let (s', e, good) = complete-Leads t i ch s at up in (s', rw (at, run_message_at) e, good)
]
message-Leads t (destroys false) i s g f good = elim (Option-cases (get_elem? s.channels i)) [
  | inl out ↦ elim (Bool-cases s.is_fabrics) [
    | inl fabrics ↦
        let (s', e, good) = disconnect-Leads t.rc s g.rc f.cb in
        (s', rw (out, run_message_at) (reset_ctrlr_on t.rc s fabrics ∙ e), good)
    | inr local ↦
        let (s', e, good) = reconnect-Leads s f.detach in
        (s', rw (out, run_message_at) (reset_ctrlr_on t.rc s local ∙ e), good)
  ]
  | inr (ch, at) ↦
      let (s', e, good) = destroy-Leads t i ch s f at in (s', rw (at, run_message_at) e, good)
]

polled_at :
    (hz now : ℕ) (rc : ℤ) (s : Sequence)
    → is_zero rc ≡ true
    → (poll_now hz now (some rc) s).stage ≡ walks creates 0 false
unfolding reconnect_ctrlr_poll check_ctrlr_loss_timeout
polled_at hz now rc s good = rw good refl

pub polls-Leads :
    (t : Turn) (s : Sequence)
    → Succeeds t
    → s.ctrlr.reset_detach_poller ≡ true
    → Leads (ok (poll_reconnect t.hz t.now (some t.poll_rc) s))
unfolding poll_reconnect
polls-Leads t s g on =
    let runs : poll_reconnect t.hz t.now (some t.poll_rc) s
        ≡ poll_now t.hz t.now (some t.poll_rc) s =
      ap (λ b. if not b then s else poll_now t.hz t.now (some t.poll_rc) s) on in
    let at : (poll_now t.hz t.now (some t.poll_rc) s).stage ≡ walks creates 0 false =
      polled_at t.hz t.now t.poll_rc s g.poll_rc in
    (
      poll_now t.hz t.now (some t.poll_rc) s,
      ap ok runs,
      subst (λ (st : Stage). Good st s.channels) (sym at) (λ k ch l. absurd (omega (arith, l))),
    )
