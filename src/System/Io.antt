-- ===== src/System/Io.antt =====
-- sump_data.c and sump_ctrl.c: the I/O of a channel keeps its paths' numbers and bdevs.
use sump.Base.{
  ℕ, ◌≡◌, refl, sym, ap, subst, ◌∙◌, Bool, true, false, List, [], ◌∷◌, ◌++◌, map, Option, arith,
  length, length-modify, get_elem?, modify, ok, >>=-eq-ok, deref, inl, inr, Bool-cases,
  Option-cases, ltb,
}
use sump.Bdev.{Io, Callback}
use sump.IoPath.{IoPath}
use sump.Select.{find_iopath}
use sump.Channels.{set_count}
use sump.DataPath.{
  Lane, Reply, Effect, Prober, submit_request, io_completion_cb, complete_success, complete_failure,
  failback, failback_io_fn, failback_io_completion_cb, change_path, mark_down, mark_up,
  start_reconnect, uncount_io, update_io_time, set_probe, pause, free_probe,
}
use sump.DataPath.Submit.{add_bytes}
use sump.DataPath.Events.{Event, request, completes, polls, probed, step}
use sump.System.Sound.{Mirrors, Mirrors-refl, Mirrors-trans, modify-Mirrors}

pub record Keeps (lane lane' : Lane) : Type 0 where
  pub channel : Mirrors lane.channel lane'.channel
  pub counts : length lane'.count ≡ length lane.count

Keeps-refl : (lane : Lane) → Keeps lane lane
Keeps-refl lane = record { channel = Mirrors-refl lane.channel; counts = refl }

Keeps-trans : (a b c : Lane) → Keeps a b → Keeps b c → Keeps a c
Keeps-trans a b c f g = record {
  channel = Mirrors-trans a.channel b.channel c.channel f.channel g.channel;
  counts = g.counts ∙ f.counts;
}

change-Keeps :
    (i : ℕ) (f : IoPath → IoPath) (lane : Lane) (qs : List Prober)
    → ((p : IoPath) → (f p).id ≡ p.id)
    → ((p : IoPath) → (f p).bdev ≡ p.bdev)
    → Keeps lane (record (change_path i f lane) { probers = qs })
change-Keeps i f lane qs id bdev = record {
  channel = modify-Mirrors lane.channel i f id bdev;
  counts = refl;
}

pub set_count-length :
    (f : ℕ → ℕ) (i : ℕ) (count : List ℕ) {count' : List ℕ}
    → set_count f i count ≡ ok count'
    → length count' ≡ length count
unfolding set_count
set_count-length f i count {count'} e = elim (Bool-cases (ltb i (length count))) [
  | inl inside ↦
      let same : modify count i f ≡ count' = ground arith in
      ap length (sym same) ∙ length-modify count i f
  | inr outside ↦ absurd (ground arith)
]

pub submit-Keeps :
    (r : Reply) (lane : Lane) (io : Io) {le : Lane × Effect}
    → submit_request r lane io ≡ ok le
    → Keeps lane le.0
unfolding submit_request
submit-Keeps r lane io {le} e = elim (Bool-cases r.alloc_ctx) [
  | inr failed ↦ let same : lane ≡ le.0 = ground arith in subst (Keeps lane) same (Keeps-refl lane)
  | inl got ↦
      let (a, _, e1) = >>=-eq-ok (find_iopath lane.channel io) _ (rw (got, submit_request) at e) in
      let (j, _, e2) = >>=-eq-ok (deref a) _ e1 in
      let (p, _, e3) = >>=-eq-ok (deref (get_elem? lane.channel.iopath_list j)) _ e2 in
      let (count, counted, e4) = >>=-eq-ok (set_count (add_bytes io) p.id lane.count) _ e3 in
      let same : record lane { count = count } ≡ le.0 = ground arith in
      subst (Keeps lane) same (record {
        channel = Mirrors-refl lane.channel;
        counts = set_count-length (add_bytes io) p.id lane.count counted;
      })
]

update_io_time-places :
    (r : Reply) (io : Io) (p : IoPath)
    → ((update_io_time r io p).id ≡ p.id) × ((update_io_time r io p).bdev ≡ p.bdev)
unfolding update_io_time
update_io_time-places r io p = ground arith

pub failback-Keeps :
    (r : Reply) (i : ℕ) (io : Io) (lane : Lane) {lane' : Lane}
    → failback r i io lane ≡ ok lane'
    → Keeps lane lane'
unfolding failback
failback-Keeps r i io lane {lane'} e =
    let (p, at, e1) = >>=-eq-ok (deref (get_elem? lane.channel.iopath_list i)) _ e in
    elim (Bool-cases p.reconnecting) [
      | inl already ↦
          let same : lane ≡ lane' = ground arith in subst (Keeps lane) same (Keeps-refl lane)
      | inr fresh ↦ elim (Bool-cases r.alloc_failback) [
        | inr out ↦ absurd (ground arith)
        | inl got ↦
            let probed : List Prober =
              lane.probers
              ++ (record { path = i; probe = io; poller = r.poller; paused = false; freed = false }
                  ∷ []) in
            let same : record (change_path i (start_reconnect r.poller) lane) { probers = probed }
                ≡ lane' =
              ground arith in
            subst (Keeps lane) same
              (change-Keeps i (start_reconnect r.poller) lane probed (λ q. refl) (λ q. refl))
      ]
    ]

completion-Keeps :
    (r : Reply) (lane : Lane) (io : Io) (success : Bool) (path : Option ℕ) (real : Callback)
    {le : Lane × Effect}
    → io_completion_cb r lane io success path real ≡ ok le
    → Keeps lane le.0
unfolding io_completion_cb complete_success complete_failure
completion-Keeps r lane io true path real {le} e =
    let (i, _, e1) = >>=-eq-ok (deref path) _ e in
    let (p, _, e2) = >>=-eq-ok (deref (get_elem? lane.channel.iopath_list i)) _ e1 in
    let same : change_path i (λ q. uncount_io (update_io_time r io q)) lane ≡ le.0 = ground arith in
    subst (Keeps lane) same (
      change-Keeps i (λ q. uncount_io (update_io_time r io q)) lane lane.probers
        (λ q. (update_io_time-places r io q).0) (λ q. (update_io_time-places r io q).1))
completion-Keeps r lane io false path real {le} e =
    let (i, _, e1) = >>=-eq-ok (deref path) _ e in
    let (p, _, e2) = >>=-eq-ok (deref (get_elem? lane.channel.iopath_list i)) _ e1 in
    let (lane1, back, e3) = >>=-eq-ok (failback r i io (change_path i mark_down lane)) _ e2 in
    let down : Keeps lane (change_path i mark_down lane) =
      change-Keeps i mark_down lane lane.probers (λ q. refl) (λ q. refl) in
    Keeps-trans lane (change_path i mark_down lane) le.0 down (
      Keeps-trans (change_path i mark_down lane) lane1 le.0
        (failback-Keeps r i io (change_path i mark_down lane) back) (submit-Keeps r lane1 _ e3))

polls-Keeps :
    (k : ℕ) (lane : Lane) {le : Lane × Effect} → failback_io_fn k lane ≡ ok le → Keeps lane le.0
unfolding failback_io_fn
polls-Keeps k lane {le} e =
    let (q, _, e1) = >>=-eq-ok (deref (get_elem? lane.probers k)) _ e in
    elim (Bool-cases q.freed) [
      | inl gone ↦ absurd (ground arith)
      | inr live ↦
          let (p, _, e2) =
            >>=-eq-ok (deref (get_elem? lane.channel.iopath_list q.path)) _
              (rw (live, failback_io_fn) at e1) in
          let same : record lane {
            probers =
                modify lane.probers k (set_probe (Callback.failback lane.channel.address q.path));
          }
              ≡ le.0 =
            ground arith in
          subst (Keeps lane) same (record { channel = Mirrors-refl lane.channel; counts = refl })
    ]

probed-Keeps :
    (k : ℕ) (success : Bool) (lane : Lane) {lane' : Lane}
    → failback_io_completion_cb k success lane ≡ ok lane'
    → Keeps lane lane'
unfolding failback_io_completion_cb
probed-Keeps k false lane {lane'} e =
    let same : lane ≡ lane' = ground arith in subst (Keeps lane) same (Keeps-refl lane)
probed-Keeps k true lane {lane'} e =
    let (q, _, e1) = >>=-eq-ok (deref (get_elem? lane.probers k)) _ e in
    elim (Bool-cases q.freed) [
      | inl gone ↦ absurd (ground arith)
      | inr live ↦
          let (p, _, e2) =
            >>=-eq-ok (deref (get_elem? lane.channel.iopath_list q.path)) _
              (rw (live, failback_io_completion_cb) at e1) in
          let (h, _, e3) = >>=-eq-ok (deref p.reconnect_poller) _ e2 in
          let qs : List Prober = modify (map (pause h) lane.probers) k free_probe in
          let same : record (change_path q.path mark_up lane) { probers = qs } ≡ lane' =
            ground arith in
          subst (Keeps lane) same (change-Keeps q.path mark_up lane qs (λ x. refl) (λ x. refl))
    ]

-- An event on a channel.
pub step-Keeps :
    (r : Reply) (e : Event) (lane : Lane) {lane' : Lane}
    → step r e lane ≡ ok lane'
    → Keeps lane lane'
unfolding step
step-Keeps r (request io) lane {lane'} e =
    let (le, e1, e2) = >>=-eq-ok (submit_request r lane io) _ e in
    let same : le.0 ≡ lane' = ground arith in subst (Keeps lane) same (submit-Keeps r lane io e1)
step-Keeps r (completes io success path real) lane {lane'} e =
    let (le, e1, e2) = >>=-eq-ok (io_completion_cb r lane io success path real) _ e in
    let same : le.0 ≡ lane' = ground arith in
    subst (Keeps lane) same (completion-Keeps r lane io success path real e1)
step-Keeps r (polls k) lane {lane'} e = elim (Option-cases (get_elem? lane.probers k)) [
  | inl gone ↦ let same : lane ≡ lane' = ground arith in subst (Keeps lane) same (Keeps-refl lane)
  | inr (q, at) ↦ elim (Bool-cases q.paused) [
    | inl stopped ↦
        let same : lane ≡ lane' = ground arith in subst (Keeps lane) same (Keeps-refl lane)
    | inr runs ↦
        let (le, e1, e2) = >>=-eq-ok (failback_io_fn k lane) _ (rw (at, runs, step) at e) in
        let same : le.0 ≡ lane' = ground arith in subst (Keeps lane) same (polls-Keeps k lane e1)
  ]
]
step-Keeps r (probed k success) lane e = probed-Keeps k success lane e
