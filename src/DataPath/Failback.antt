-- ===== src/DataPath/Failback.antt =====
-- sump_ctrl.c `ump_failback` and the probes of a path that is down.
use sump.Base.{
  ℕ, ◌≡◌, ◌≢◌, refl, ◌∙◌, Bool, true, false, List, [], ◌∷◌, ◌++◌, map, Option, some, arith, modify,
  get_elem?, >>=-eq-ok, ok, deref, Bool-cases, Option-cases, inl, inr,
}
use sump.Bdev.{Io, Callback}
use sump.IoPath.{IoPath}
use sump.Select.{find_iopath}
use sump.Channels.{set_count}
use sump.DataPath.Submit.{add_bytes}
use sump.DataPath.Complete.{update_io_time-keeps}
use sump.DataPath.{
  Lane, Reply, Effect, nothing, Prober, submit_request, io_completion_cb, complete_success,
  complete_failure, failback, failback_io_fn, failback_io_completion_cb, change_path, mark_down,
  mark_up, pause, free_probe, set_probe, start_reconnect, uncount_io, update_io_time,
}
use sump.DataPath.Events.{
  Event, request, completes, polls, probed, step, run, IsDead, AllFreed-append, AllFreed-modify,
  AllFreed-map, AllFreed-get, change-keeps, change-other, deref-some,
}

pub submit-IsDead :
    (i : ℕ) (r : Reply) (io : Io) (lane : Lane) {le : Lane × Effect}
    → submit_request r lane io ≡ ok le
    → IsDead i lane
    → IsDead i le.0
unfolding submit_request
submit-IsDead i r io lane {le} e d = elim (Bool-cases r.alloc_ctx) [
  | inr failed ↦ let same : le ≡ (lane, nothing) = ground arith in rw same d
  | inl got ↦
      let (a, _, e1) = >>=-eq-ok (find_iopath lane.channel io) _ (rw (got, submit_request) at e) in
      let (j, _, e2) = >>=-eq-ok (deref a) _ e1 in
      let (p, _, e3) = >>=-eq-ok (deref (get_elem? lane.channel.iopath_list j)) _ e2 in
      let (count, _, e4) = >>=-eq-ok (set_count (add_bytes io) p.id lane.count) _ e3 in
      let same : le.0 ≡ record lane { count = count } = ground arith in
      rw same (record { down = d.down; marked = d.marked; freed = d.freed })
]

failback-IsDead :
    (i : ℕ) (r : Reply) (j : ℕ) (io : Io) (lane : Lane) {lane' : Lane}
    → failback r j io lane ≡ ok lane'
    → IsDead i lane
    → IsDead i lane'
unfolding failback
failback-IsDead i r j io lane {lane'} e d =
    let (p, at, e1) = >>=-eq-ok (deref (get_elem? lane.channel.iopath_list j)) _ e in
    let found : get_elem? lane.channel.iopath_list j ≡ some p = deref-some _ at in
    elim (Bool-cases p.reconnecting) [
      | inl already ↦ let same : lane' ≡ lane = ground arith in rw same d
      | inr fresh ↦
          let ne : j ≢ i =
            (λ same. let mark : p.reconnecting ≡ true = d.marked p (rw (← same) found) in cc) in
          let c : IsDead i (change_path j (start_reconnect r.poller) lane) =
            change-other i j (start_reconnect r.poller) lane ne d in
          let new : Prober = record {
            path = j;
            probe = io;
            poller = r.poller;
            paused = false;
            freed = false;
          } in
          let same : lane' ≡ record (change_path j (start_reconnect r.poller) lane) {
            probers = lane.probers ++ (new ∷ []);
          } =
            ground arith in
          rw same (record {
            down = c.down;
            marked = c.marked;
            freed = AllFreed-append i lane.probers new d.freed ne;
          })
    ]

complete-IsDead :
    (i : ℕ) (r : Reply) (lane : Lane) (io : Io) (success : Bool) (path : Option ℕ) (real : Callback)
    {le : Lane × Effect}
    → io_completion_cb r lane io success path real ≡ ok le
    → IsDead i lane
    → IsDead i le.0
unfolding io_completion_cb complete_success complete_failure
complete-IsDead i r lane io true path real {le} e d =
    let (j, _, e1) = >>=-eq-ok (deref path) _ e in
    let (p, _, e2) = >>=-eq-ok (deref (get_elem? lane.channel.iopath_list j)) _ e1 in
    let f : IoPath → IoPath = λ x. uncount_io (update_io_time r io x) in
    let c : IsDead i (change_path j f lane) =
      change-keeps i j f lane (λ q off. (update_io_time-keeps r io q).1 ∙ off)
        (λ q mark. (update_io_time-keeps r io q).3 ∙ mark) d in
    let same : le.0 ≡ change_path j f lane = ground arith in rw same c
complete-IsDead i r lane io false path real {le} e d =
    let (j, _, e1) = >>=-eq-ok (deref path) _ e in
    let (p, _, e2) = >>=-eq-ok (deref (get_elem? lane.channel.iopath_list j)) _ e1 in
    let (lane', e3, e4) = >>=-eq-ok (failback r j io (change_path j mark_down lane)) _ e2 in
    let c : IsDead i (change_path j mark_down lane) =
      change-keeps i j mark_down lane (λ q off. refl) (λ q mark. mark) d in
    submit-IsDead i r _ lane' e4 (failback-IsDead i r j io _ e3 c)

polls-IsDead :
    (i k : ℕ) (lane : Lane) {le : Lane × Effect}
    → failback_io_fn k lane ≡ ok le
    → IsDead i lane
    → IsDead i le.0
unfolding failback_io_fn
polls-IsDead i k lane {le} e d =
    let (q, _, e1) = >>=-eq-ok (deref (get_elem? lane.probers k)) _ e in
    elim (Bool-cases q.freed) [
      | inl gone ↦ absurd (ground arith)
      | inr alive ↦
          let (p, _, e2) =
            >>=-eq-ok (deref (get_elem? lane.channel.iopath_list q.path)) _ (rw alive at e1) in
          let f : Prober → Prober = set_probe (Callback.failback lane.channel.address q.path) in
          let same : le.0 ≡ record lane { probers = modify lane.probers k f } = ground arith in
          rw same (record {
            down = d.down;
            marked = d.marked;
            freed = AllFreed-modify i lane.probers k f (λ x. refl) (λ x h. h) d.freed;
          })
    ]

pub pause-keeps : (h : ℕ) (q : Prober) → ((pause h q).path ≡ q.path) × ((pause h q).freed ≡ q.freed)
unfolding pause
pause-keeps h q = ground arith

probed-IsDead :
    (i k : ℕ) (success : Bool) (lane : Lane) {lane' : Lane}
    → failback_io_completion_cb k success lane ≡ ok lane'
    → IsDead i lane
    → IsDead i lane'
unfolding failback_io_completion_cb
probed-IsDead i k false lane {lane'} e d = let same : lane' ≡ lane = ground arith in rw same d
probed-IsDead i k true lane {lane'} e d =
    let (q, at, e1) = >>=-eq-ok (deref (get_elem? lane.probers k)) _ e in
    let found : get_elem? lane.probers k ≡ some q = deref-some _ at in
    elim (Bool-cases q.freed) [
      | inl gone ↦ absurd (ground arith)
      | inr alive ↦
          let (p, _, e2) =
            >>=-eq-ok (deref (get_elem? lane.channel.iopath_list q.path)) _ (rw alive at e1) in
          let ne : q.path ≢ i = AllFreed-get i lane.probers k q d.freed found alive in
          let c : IsDead i (change_path q.path mark_up lane) =
            change-other i q.path mark_up lane ne d in
          let (h, _, e3) = >>=-eq-ok (deref p.reconnect_poller) _ e2 in
          let same : lane' ≡ record (change_path q.path mark_up lane) {
            probers = modify (map (pause h) lane.probers) k free_probe;
          } =
            ground arith in
          rw same (record {
            down = c.down;
            marked = c.marked;
            freed =
                AllFreed-modify i (map (pause h) lane.probers) k free_probe (λ x. refl)
                  (λ x f. refl)
                  (AllFreed-map i lane.probers (pause h) (λ x. (pause-keeps h x).0)
                    (λ x f. (pause-keeps h x).1 ∙ f) d.freed);
          })
    ]

pub step-IsDead :
    (i : ℕ) (r : Reply) (e : Event) (lane : Lane) {lane' : Lane}
    → step r e lane ≡ ok lane'
    → IsDead i lane
    → IsDead i lane'
unfolding step
step-IsDead i r (request io) lane {lane'} e d =
    let (le, e1, e2) = >>=-eq-ok (submit_request r lane io) _ e in
    let same : lane' ≡ le.0 = ground arith in rw same (submit-IsDead i r io lane e1 d)
step-IsDead i r (completes io success path real) lane {lane'} e d =
    let (le, e1, e2) = >>=-eq-ok (io_completion_cb r lane io success path real) _ e in
    let same : lane' ≡ le.0 = ground arith in
    rw same (complete-IsDead i r lane io success path real e1 d)
step-IsDead i r (probed k success) lane e d = probed-IsDead i k success lane e d
step-IsDead i r (polls k) lane {lane'} e d = elim (Option-cases (get_elem? lane.probers k)) [
  | inl gone ↦ let same : lane' ≡ lane = ground arith in rw same d
  | inr (q, at) ↦ elim (Bool-cases q.paused) [
    | inl idle ↦ let same : lane' ≡ lane = ground arith in rw same d
    | inr active ↦
        let (le, e1, e2) = >>=-eq-ok (failback_io_fn k lane) _ (rw (at, active, step) at e) in
        let same : lane' ≡ le.0 = ground arith in rw same (polls-IsDead i k lane e1 d)
  ]
]

-- A path that is down, marked as being reconnected, and whose probers are all freed, as it is when
-- it fails again after one recovery, is down for ever: no sequence of requests, completions, polls
-- and probes brings it back.
pub run-IsDead :
    (i : ℕ) (es : List (Reply × Event)) (lane lane' : Lane)
    → IsDead i lane
    → run es lane ≡ ok lane'
    → IsDead i lane'
unfolding run
run-IsDead i [] lane lane' d e = let same : lane' ≡ lane = ground arith in rw same d
run-IsDead i ((r, v) ∷ es) lane lane' d e =
    let (lane1, e1, e2) = >>=-eq-ok (step r v lane) _ e in
    run-IsDead i es lane1 lane' (step-IsDead i r v lane e1 d) e2
