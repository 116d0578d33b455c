-- ===== src/Nvme/Qpairs/Ends.antt =====
-- nvme/bdev_nvme.c: a reset comes to its end when spdk answers each time.
use sump.Base.{
  ℕ, zero, suc, ◌+◌, ◌*◌, ◌-◌, ◌<◌, ◌≤◌, ◌≡◌, refl, sym, ap, subst, ◌∙◌, Bool, true, false, List,
  [], ◌∷◌, none, some, arith, get_elem?, length, Outcome, ok, ◌>>=◌, ℤ, ==_self,
}
use sump.Nvme.Qpairs.{
  CtrlrChannel, destroy_qpairs, reconnect, creates, stops, destroys, completes, Stage, rests, polls,
  awaits, walks, ended, Sequence, Attempt, get_qpair, run_message_at, disconnected_qpair_cb,
  start_reset, poll_adminq,
}
use sump.Nvme.Qpairs.Valid.{Fits, IsValid, Held, left, Advances, is_awaiting}
use sump.Nvme.Qpairs.Messages.{run_message_at-Advances}
use sump.Nvme.Qpairs.Disconnects.{disconnected_qpair_cb-Advances}
use sump.Nvme.Qpairs.Adminq.{poll_adminq-Advances}
use sump.Nvme.Qpairs.Polls.{poll_reconnect-Advances}
use sump.Nvme.Qpairs.Run.{
  Event, visits, disconnects, reports, reconnects, step, IsAsked, start_reset-Advances,
}

-- What spdk answers in one turn: to the creation of a qpair, to `spdk_nvme_ctrlr_disconnect`, and to
-- the poll of the reconnect, which is not -EAGAIN.
pub record Turn : Type 0 where
  pub attempt : Attempt
  pub rc : ℤ
  pub poll_rc : ℤ
  pub hz : ℕ
  pub now : ℕ

unfoldable pub qpair_at : ℕ → List CtrlrChannel → ℕ
qpair_at i chs = elim (get_elem? chs i) [
  | none ↦ 0
  | some ch ↦ elim ch.qpair [ none ↦ 0 | some q ↦ q ]
]

-- What the reset waits for happens.
unfoldable pub answer : Turn → Stage → List CtrlrChannel → Event
unfolding qpair_at
answer t (awaits cb) chs = reports true t.now
answer t polls chs = reconnects t.hz t.now (some t.poll_rc)
answer t (walks w i true) chs = disconnects (qpair_at i chs) t.now
answer t (walks w i false) chs = visits t.attempt t.rc
answer t rests chs = visits t.attempt t.rc
answer t (ended b) chs = visits t.attempt t.rc

unfoldable pub serve : List Turn → Sequence → Outcome Sequence
unfolding answer step
serve [] s = ok s
serve (t ∷ ts) s = step (answer t s.stage s.channels) s >>= serve ts

-- The qpair of a channel is found there if the channels ahead of it have none.
pub get_qpair-first :
    (q : ℕ) (chs : List CtrlrChannel) (i : ℕ) {ch : CtrlrChannel}
    → get_elem? chs i ≡ some ch
    → ch.qpair ≡ some q
    → ((k : ℕ) (x : CtrlrChannel) → k < i → get_elem? chs k ≡ some x → x.qpair ≡ none)
    → get_qpair q chs ≡ some i
unfolding get_qpair
get_qpair-first q [] i at up ahead = cc
get_qpair-first q (c ∷ cs) zero {ch} at up ahead =
    let is : c ≡ ch = ground (arith, at) in
    let there : c.qpair ≡ some q = ap (λ x. x.qpair) is ∙ up in rw (there, ==_self q) refl
get_qpair-first q (c ∷ cs) (suc i) at up ahead =
    let down : c.qpair ≡ none = ahead 0 c (omega arith) refl in
    let rest =
      get_qpair-first q cs i at up (λ k x l at_x. ahead (suc k) x (omega (arith, l)) at_x) in
    rw (down, rest) refl

-- The reset is brought closer to its end, unless it is there.
abbrev Falls : List CtrlrChannel → Stage → Outcome Sequence → Type 0
Falls chs st o =
    (s' : Sequence) × (o ≡ ok s')
    × IsValid s'
    × (length s'.channels ≡ length chs)
    × (left (length chs) s'.stage ≤ left (length chs) st - 1)

Advances-Falls :
    (chs : List CtrlrChannel) (st : Stage) (o : Outcome Sequence)
    → Advances chs st o
    → Falls chs st o
Advances-Falls chs st o (s', e, v, same, less) = (s', e, v, same, omega (arith, less))

disconnects-Falls :
    (t : Turn) (failed : Bool) (i : ℕ) (s : Sequence)
    → IsValid s
    → s.stage ≡ walks (destroys failed) i true
    → Held s.channels i
    → ((k : ℕ) (x : CtrlrChannel) → k < i → get_elem? s.channels k ≡ some x → x.qpair ≡ none)
    → Falls s.channels s.stage (disconnected_qpair_cb (qpair_at i s.channels) t.now s)
unfolding qpair_at
disconnects-Falls t failed i s v at held ahead =
    let named : qpair_at i s.channels ≡ held.qpair = rw (held.at, held.there, qpair_at) refl in
    let found = get_qpair-first held.qpair s.channels i held.at held.there ahead in
    subst (λ (q : ℕ). Falls s.channels s.stage (disconnected_qpair_cb q t.now s)) (sym named)
      (Advances-Falls s.channels s.stage (disconnected_qpair_cb held.qpair t.now s)
        (disconnected_qpair_cb-Advances held.qpair t.now s v found held.at held.iter))

step-Falls :
    (t : Turn) (st : Stage) (s : Sequence)
    → IsValid s
    → s.stage ≡ st
    → left (length s.channels) st < left (length s.channels) rests
    → Falls s.channels s.stage (step (answer t st s.channels) s)
unfolding step answer run_message_at
step-Falls t rests s v at few = absurd (omega (arith, few))
step-Falls t (ended b) s v at few = (
  s,
  ap (λ st. run_message_at t.attempt t.rc st s) at,
  v,
  refl,
  (let none_left = ap (left (length s.channels)) at in omega (arith, none_left)),
)
step-Falls t polls s v at few =
    subst (λ (st : Stage). Falls s.channels st (step (answer t polls s.channels) s)) (sym at)
      (Advances-Falls s.channels polls (step (answer t polls s.channels) s)
        (poll_reconnect-Advances t.hz t.now t.poll_rc s v at))
step-Falls t (awaits cb) s v at few =
    Advances-Falls s.channels s.stage (poll_adminq true t.now s)
      (poll_adminq-Advances t.now s v (v.cb ∙ ap is_awaiting at))
step-Falls t (walks w i false) s v at few =
    subst (λ (st : Stage). Falls s.channels st (run_message_at t.attempt t.rc st s)) (sym at)
      (Advances-Falls s.channels (walks w i false)
        (run_message_at t.attempt t.rc (walks w i false) s)
        (run_message_at-Advances t.attempt t.rc w i s (subst (Fits s.ctrlr s.channels) at v)))
step-Falls t (walks creates i true) s v at few = absurd (subst (Fits s.ctrlr s.channels) at v).waits
step-Falls t (walks stops i true) s v at few = absurd (subst (Fits s.ctrlr s.channels) at v).waits
step-Falls t (walks (completes b) i true) s v at few =
    absurd (subst (Fits s.ctrlr s.channels) at v).waits
step-Falls t (walks (destroys failed) i true) s v at few =
    let f : Fits s.ctrlr s.channels (walks (destroys failed) i true) =
      subst (Fits s.ctrlr s.channels) at v in
    disconnects-Falls t failed i s v at f.waits (λ k x l at_x. f.down k x at_x l)

-- Nothing is left only at the end.
left-zero : (n : ℕ) (st : Stage) → left n st ≡ 0 → (b : Bool) × (st ≡ ended b)
left-zero n (ended b) e = (b, refl)
left-zero n rests e = absurd (omega (arith, e))
left-zero n polls e = absurd (omega (arith, e))
left-zero n (awaits destroy_qpairs) e = absurd (omega (arith, e))
left-zero n (awaits reconnect) e = absurd (omega (arith, e))
left-zero n (walks (completes b) i held) e = absurd (omega (arith, e))
left-zero n (walks (destroys true) i true) e = absurd (omega (arith, e))
left-zero n (walks (destroys true) i false) e = absurd (omega (arith, e))
left-zero n (walks (destroys false) i true) e = absurd (omega (arith, e))
left-zero n (walks (destroys false) i false) e = absurd (omega (arith, e))
left-zero n (walks stops i held) e = absurd (omega (arith, e))
left-zero n (walks creates i held) e = absurd (omega (arith, e))

serve-ends :
    (ts : List Turn) (s : Sequence)
    → IsValid s
    → left (length s.channels) s.stage < left (length s.channels) rests
    → left (length s.channels) s.stage ≤ length ts
    → (s' : Sequence) × (b : Bool) × (serve ts s ≡ ok s') × (s'.stage ≡ ended b)
unfolding serve
serve-ends [] s v few enough =
    let (b, at) = left-zero (length s.channels) s.stage (omega (arith, enough)) in (s, b, refl, at)
serve-ends (t ∷ ts) s v few enough =
    let (s1, first, v1, same, less) = step-Falls t s.stage s v refl few in
    let n : ℕ = length s.channels in
    let less1 : left (length s1.channels) s1.stage ≤ left n s.stage - 1 =
      subst (λ (m : ℕ). left m s1.stage ≤ left n s.stage - 1) (sym same) less in
    let few1 : left (length s1.channels) s1.stage < left (length s1.channels) rests =
      subst (λ (m : ℕ). left m s1.stage < left m rests) (sym same) (omega (arith, few, less)) in
    let (s', b, rest, at) = serve-ends ts s1 v1 few1 (omega (arith, less1, enough)) in
    (s', b, ap (λ o. o >>= serve ts) first ∙ rest, at)

-- A reset comes to its end: on a controller of n channels, 6 n + 10 turns in which what the reset
-- waits for happens (the next message of a walk, the qpair or the controller being disconnected, an
-- answer to the reconnect), whatever the calls return, lead to the call of
-- `_bdev_nvme_reset_complete`. The controller was marked when the reset was sent, and nothing of an
-- earlier reset is left.
pub serve-start_reset :
    (rc : ℤ) (ts : List Turn) (s : Sequence)
    → IsAsked s
    → 6 * length s.channels + 10 ≤ length ts
    → (s' : Sequence) × (b : Bool) × ((start_reset rc s >>= serve ts) ≡ ok s')
      × (s'.stage ≡ ended b)
serve-start_reset rc ts s asked enough =
    let (s1, first, v, same, less) = start_reset-Advances rc s asked in
    let few : left (length s1.channels) s1.stage < left (length s1.channels) rests =
      subst (λ (m : ℕ). left m s1.stage < left m rests) (sym same) less in
    let (s', b, rest, at) = serve-ends ts s1 v few (omega (arith, few, same, enough)) in
    (s', b, ap (λ o. o >>= serve ts) first ∙ rest, at)
