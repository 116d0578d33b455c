-- ===== src/Nvme/Qpairs/Success.antt =====
-- nvme/bdev_nvme.c: a reset in which every call succeeds connects a queue pair for each channel.
use sump.Base.{
  ℕ, suc, ◌+◌, ◌*◌, ◌<◌, ◌≤◌, ◌≡◌, inl, inr, refl, sym, ap, subst, ◌∙◌, Bool, true, false, List, [],
  ◌∷◌, ◌++◌, none, some, arith, if◌then◌else◌, get_elem?, length, modify, ok, ◌>>=◌, ℤ, is_zero,
  Bool-cases, All,
}
use sump.Nvme.Reset.{fast_adminq, nvme_ctrlr_disconnect}
use sump.Nvme.Qpairs.{
  CtrlrChannel, destroy_qpairs, reconnect, creates, stops, destroys, completes, Stage, rests, polls,
  awaits, walks, ended, Sequence, clear_io_path_cache, put_channel, disconnect, run_message_at,
  disconnected_qpair_cb, call_cb, no_cb, fail_over, go_on, poll_adminq, start_reset, start_destroy,
}
use sump.Nvme.Qpairs.Valid.{Fits, IsValid, Held, is_awaiting, is_polling}
use sump.Nvme.Qpairs.Run.{step, step-Handled, IsAsked, start_reset_on, start_reset-Advances}
use sump.Nvme.Qpairs.Ends.{Turn, answer, serve, qpair_at, get_qpair-first, serve-start_reset}
use sump.Nvme.Qpairs.Stalls.{ok-eq}
use sump.Nvme.Qpairs.Good.{Succeeds, IsUp, Good, Leads, reconnect-Leads, message-Leads, polls-Leads}

call-Leads :
    (now : ℕ) (s : Sequence) (st : Stage)
    → Fits s.ctrlr s.channels st
    → is_awaiting st ≡ true
    → Leads (call_cb st (no_cb s))
unfolding call_cb
call-Leads now s (awaits destroy_qpairs) f waits = (start_destroy (no_cb s), refl, tt)
call-Leads now s (awaits reconnect) f waits = reconnect-Leads (no_cb s) f.detach
call-Leads now s rests f waits = cc
call-Leads now s polls f waits = cc
call-Leads now s (walks w i held) f waits = cc
call-Leads now s (ended b) f waits = cc

adminq-Leads :
    (now : ℕ) (s : Sequence)
    → IsValid s
    → is_awaiting s.stage ≡ true
    → Leads (poll_adminq true now s)
unfolding poll_adminq
adminq-Leads now s v waits =
    let (s', e, good) = call-Leads now s s.stage v waits in
    (
      s',
      ap (λ b. if b then call_cb s.stage (no_cb s) else fail_over now (no_cb s)) (v.cb ∙ waits) ∙ e,
      good,
    )

disconnects-Leads :
    (t : Turn) (i : ℕ) (s : Sequence)
    → IsValid s
    → s.stage ≡ walks (destroys false) i true
    → Held s.channels i
    → ((k : ℕ) (x : CtrlrChannel) → k < i → get_elem? s.channels k ≡ some x → x.qpair ≡ none)
    → Leads (disconnected_qpair_cb (qpair_at i s.channels) t.now s)
unfolding qpair_at disconnected_qpair_cb
disconnects-Leads t i s v at held ahead =
    let named : qpair_at i s.channels ≡ held.qpair = rw (held.at, held.there, qpair_at) refl in
    let found = get_qpair-first held.qpair s.channels i held.at held.there ahead in
    let freed : CtrlrChannel = record (clear_io_path_cache held.channel) {
      qpair = none;
      reset_iter = false;
    } in
    let next_stage : go_on s.stage ≡ walks (destroys false) (suc i) false = ap go_on at in
    subst (λ (q : ℕ). Leads (disconnected_qpair_cb q t.now s)) (sym named)
      (
        put_channel i freed (go_on s.stage) s,
        rw (found, held.at, held.iter, disconnected_qpair_cb) refl,
        subst (λ (st : Stage). Good st (modify s.channels i (λ old. freed))) (sym next_stage) tt,
      )

step-Leads :
    (t : Turn) (st : Stage) (s : Sequence)
    → IsValid s
    → s.stage ≡ st
    → Succeeds t
    → Good st s.channels
    → Leads (step (answer t st s.channels) s)
unfolding step answer run_message_at
step-Leads t rests s v at g good = absurd good
step-Leads t polls s v at g good = polls-Leads t s g (v.detach ∙ ap is_polling at)
step-Leads t (awaits cb) s v at g good = adminq-Leads t.now s v (ap is_awaiting at)
step-Leads t (ended false) s v at g good = absurd good
step-Leads t (ended true) s v at g good = (
  s,
  ap (λ st. run_message_at t.attempt t.rc st s) at,
  subst (λ (st : Stage). Good st s.channels) (sym at) good,
)
step-Leads t (walks w i false) s v at g good =
    let (s', e, good') = message-Leads t w i s g (subst (Fits s.ctrlr s.channels) at v) good in
    (s', ap (λ st. run_message_at t.attempt t.rc st s) at ∙ e, good')
step-Leads t (walks creates i true) s v at g good =
    absurd (subst (Fits s.ctrlr s.channels) at v).waits
step-Leads t (walks stops i true) s v at g good = absurd good
step-Leads t (walks (completes b) i true) s v at g good =
    absurd (subst (Fits s.ctrlr s.channels) at v).waits
step-Leads t (walks (destroys true) i true) s v at g good = absurd good
step-Leads t (walks (destroys false) i true) s v at g good =
    let f : Fits s.ctrlr s.channels (walks (destroys false) i true) =
      subst (Fits s.ctrlr s.channels) at v in
    disconnects-Leads t i s v at f.waits (λ k x l at_x. f.down k x at_x l)

serve-Good :
    (ts : List Turn) (s s' : Sequence)
    → IsValid s
    → Good s.stage s.channels
    → All Succeeds ts
    → serve ts s ≡ ok s'
    → Good s'.stage s'.channels
unfolding serve
serve-Good [] s s' v good g e =
    let same : s ≡ s' = ground arith in subst (λ (x : Sequence). Good x.stage x.channels) same good
serve-Good (t ∷ ts) s s' v good (g, gs) e =
    let (s1, first, good1) = step-Leads t s.stage s v refl g good in
    let (s2, again, v2) = step-Handled (answer t s.stage s.channels) s v in
    let same : s2 ≡ s1 = ok-eq again first in
    serve-Good ts s1 s' (subst IsValid same v2) good1 gs (sym (ap (λ o. o >>= serve ts) first) ∙ e)

start-Leads : (rc : ℤ) (s : Sequence) → IsAsked s → is_zero rc ≡ true → Leads (start_reset rc s)
unfolding start_reset disconnect nvme_ctrlr_disconnect
start-Leads rc s a good = elim (Bool-cases s.is_fabrics) [
  | inl fabrics ↦ (start_destroy s, start_reset_on rc s a fabrics, tt)
  | inr local ↦ (
    record s {
      ctrlr = record (s.ctrlr) { disconnected_cb = true };
      stage = awaits destroy_qpairs;
      effects = s.effects ++ (fast_adminq ∷ []);
    },
    start_reset_on rc s a local ∙ rw (good, a.cb) refl,
    tt,
  )
]

-- A reset in which every call succeeds and whose turns are enough for its end, 6 n + 10 on a
-- controller of n channels, ends with success, and every channel has a qpair. The controller was
-- marked when the reset was sent, and nothing of an earlier reset is left.
pub serve-all_good :
    (rc : ℤ) (ts : List Turn) (s : Sequence)
    → IsAsked s
    → is_zero rc ≡ true
    → All Succeeds ts
    → 6 * length s.channels + 10 ≤ length ts
    → (s' : Sequence) × ((start_reset rc s >>= serve ts) ≡ ok s')
      × (s'.stage ≡ ended true)
      × ((k : ℕ) (ch : CtrlrChannel) → get_elem? s'.channels k ≡ some ch → IsUp ch)
serve-all_good rc ts s asked good_rc g enough =
    let (s1, first, good1) = start-Leads rc s asked good_rc in
    let (s2, again, v2, _, _) = start_reset-Advances rc s asked in
    let same : s2 ≡ s1 = ok-eq again first in
    let (s', b, runs, at) = serve-start_reset rc ts s asked enough in
    let rest : serve ts s1 ≡ ok s' = sym (ap (λ o. o >>= serve ts) first) ∙ runs in
    let good : Good (ended b) s'.channels =
      subst (λ (st : Stage). Good st s'.channels) at
        (serve-Good ts s1 s' (subst IsValid same v2) good1 g rest) in
    elim (Bool-cases b) [
      | inl won ↦
          (s', runs, at ∙ ap ended won, subst (λ (x : Bool). Good (ended x) s'.channels) won good)
      | inr lost ↦ absurd (subst (λ (x : Bool). Good (ended x) s'.channels) lost good)
    ]
