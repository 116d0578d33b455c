-- ===== src/Tests/Qpairs.antt =====
-- The queue pairs of a controller with two channels, in concrete resets.
use sump.Base.{
  ℕ, zero, suc, ◌≤◌, ◌≡◌, refl, Bool, true, false, List, [], ◌∷◌, none, some, arith, ok, ◌>>=◌,
  get_elem?, true_apart, All, ℤ, pos, negsuc,
}
use sump.Nvme.Paths.{Policy, Selector}
use sump.Nvme.Reset.{busy, nvme_reset}
use sump.Nvme.Qpairs.{
  CtrlrChannel, DisconnectedCb, destroy_qpairs, rests, polls, awaits, walks, ended, creates,
  Sequence, Attempt, start_reset, poll_adminq,
}
use sump.Nvme.Qpairs.Valid.{IsValid}
use sump.Nvme.Qpairs.Run.{
  Event, visits, disconnects, reports, reconnects, run, IsAsked, run-start_reset,
}
use sump.Nvme.Qpairs.Ends.{Turn, serve, serve-start_reset}
use sump.Nvme.Qpairs.Stalls.{poll_adminq-stalls}
use sump.Nvme.Qpairs.Good.{Succeeds, IsUp}
use sump.Nvme.Qpairs.Success.{serve-all_good}
use sump.Tests.NvmeReset.{idle}

abbrev connected : CtrlrChannel
connected = record {
  qpair = some 11;
  reset_iter = false;
  io_path_list =
      record {
        current_io_path = some 0;
        mp_policy = Policy.active_passive;
        mp_selector = Selector.round_robin;
        rr_min_io = 1;
        rr_counter = 0;
        io_path_list = [];
      }
      ∷ [];
  pending_resets = 7 ∷ [];
}

abbrev unconnected : CtrlrChannel
unconnected = record connected { qpair = none }

abbrev asked_on : Bool → Sequence
asked_on is_fabrics = record {
  ctrlr = record idle { resetting = true };
  is_fabrics = is_fabrics;
  disable_auto_failback = false;
  channels = connected ∷ unconnected ∷ [];
  stage = rests;
  effects = [];
  completed = [];
}

asked_on-IsAsked : (is_fabrics : Bool) → IsAsked (asked_on is_fabrics)
asked_on-IsAsked is_fabrics = record { resetting = refl; cb = refl; detach = refl; iter = iter }
  where
    iter :
        (k : ℕ) (ch : CtrlrChannel)
        → get_elem? (connected ∷ unconnected ∷ []) k ≡ some ch
        → ch.reset_iter ≡ false
    iter zero ch at = ground arith
    iter (suc zero) ch at = ground arith
    iter (suc (suc k)) ch at = cc

abbrev attempt : Attempt
attempt = record { alloc = some 12; add_rc = pos 0; connect_rc = negsuc 4 }

-- The first channel is disconnected, then the controller, and the reconnect is answered.
abbrev fabrics_events : List Event
fabrics_events =
    visits attempt (pos 0)
    ∷ disconnects 11 5
    ∷ visits attempt (pos 0)
    ∷ visits attempt (pos 0)
    ∷ reports true 6
    ∷ reconnects 100 7 (some (pos 0))
    ∷ visits attempt (pos 0)
    ∷ []

abbrev turns : (n : ℕ) → List Turn
turns zero = []
turns (suc n) =
    record { attempt = attempt; rc = pos 0; poll_rc = pos 0; hz = 100; now = 9 } ∷ turns n

abbrev good_turns : (n : ℕ) → List Turn
good_turns zero = []
good_turns (suc n) =
    record {
      attempt = record attempt { connect_rc = pos 0 };
      rc = pos 0;
      poll_rc = pos 0;
      hz = 100;
      now = 9;
    }
    ∷ good_turns n

good_turns-Succeeds : (n : ℕ) → All Succeeds (good_turns n)
good_turns-Succeeds zero = tt
good_turns-Succeeds (suc n) = (
  record { qpair = 12; alloc = refl; add = refl; connect = refl; rc = refl; poll_rc = refl },
  good_turns-Succeeds n,
)

-- The message `_bdev_nvme_reset` of a PCIe controller was run.
abbrev disconnecting : Sequence
disconnecting = record (asked_on false) {
  ctrlr = record idle { resetting = true; disconnected_cb = true };
  stage = awaits destroy_qpairs;
}

disconnecting-IsValid : IsValid disconnecting
disconnecting-IsValid = record {
  resetting = refl;
  cb = refl;
  detach = refl;
  down = λ k ch at d. absurd d;
  iter = λ k ch at on. absurd (true_apart on ((asked_on-IsAsked false).iter k ch at));
  waits = tt;
}

run-start_reset_example :
    let rc : ℤ = pos 0 in
    let es : List Event = fabrics_events in
    let s : Sequence = asked_on true in
    (s' : Sequence) × ((start_reset rc s >>= run es) ≡ ok s')
    × (s'.ctrlr.resetting ≡ true)
    × ((k : ℕ) (ch : CtrlrChannel)
        → s'.stage ≡ polls
        → get_elem? s'.channels k ≡ some ch
        → ch.qpair ≡ none)
    × ((i k : ℕ) (ch : CtrlrChannel)
        → s'.stage ≡ walks creates i false
        → i ≤ k
        → get_elem? s'.channels k ≡ some ch
        → ch.qpair ≡ none)
run-start_reset_example =
    run-start_reset (pos 0) (fabrics_events) (asked_on true) (asked_on-IsAsked true)

serve-start_reset_example :
    let rc : ℤ = pos 0 in
    let ts : List Turn = turns 22 in
    let s : Sequence = asked_on true in
    (s' : Sequence) × (b : Bool) × ((start_reset rc s >>= serve ts) ≡ ok s') × (s'.stage ≡ ended b)
serve-start_reset_example =
    serve-start_reset (pos 0) (turns 22) (asked_on true) (asked_on-IsAsked true) (omega arith)

serve-all_good_example :
    let rc : ℤ = pos 0 in
    let ts : List Turn = good_turns 22 in
    let s : Sequence = asked_on false in
    (s' : Sequence) × ((start_reset rc s >>= serve ts) ≡ ok s')
    × (s'.stage ≡ ended true)
    × ((k : ℕ) (ch : CtrlrChannel) → get_elem? s'.channels k ≡ some ch → IsUp ch)
serve-all_good_example =
    serve-all_good (pos 0) (good_turns 22) (asked_on false) (asked_on-IsAsked false) (refl)
      (good_turns-Succeeds 22) (omega arith)

poll_adminq-stalls_example :
    let now : ℕ = 5 in
    let es : List Event = visits attempt (pos 0) ∷ reports true 6 ∷ [] in
    let s : Sequence = disconnecting in
    let cb : DisconnectedCb = destroy_qpairs in
    (s' : Sequence) × ((poll_adminq false now s >>= run es) ≡ ok s')
    × (s'.stage ≡ rests)
    × ((t : ℕ) → s'.ctrlr.destruct ≡ false → nvme_reset t s'.ctrlr ≡ ok (busy, s'.ctrlr, []))
poll_adminq-stalls_example =
    poll_adminq-stalls (5) (visits attempt (pos 0) ∷ reports true 6 ∷ []) (disconnecting)
      (destroy_qpairs) (disconnecting-IsValid) (refl)
