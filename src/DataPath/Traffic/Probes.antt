-- ===== src/DataPath/Traffic/Probes.antt =====
-- sump_ctrl.c `ump_failback_io_fn` and `ump_failback_io_completion_cb`, on a channel with a path that
-- is available.
use sump.Base.{
  ℕ, ◌≡◌, ◌≢◌, subst, refl, ap, ◌∙◌, true, false, List, map, Option, none, some, arith, length,
  length-modify, get_elem?, get_elem?-of_lt, get_elem?-modify_inv, get_elem?-map_inv, modify, ok,
  ◌>>=◌, Bool-cases, Option-cases, inl, inr,
}
use sump.Bdev.{Callback}
use sump.DataPath.{
  Lane, Reply, Prober, failback_io_fn, failback_io_completion_cb, change_path, mark_up, pause,
  free_probe, set_probe,
}
use sump.DataPath.Events.{Event, request, completes, polls, probed, step}
use sump.DataPath.Traffic.{probe}
use sump.DataPath.Traffic.Serve.{Serves, keep-Serves}

-- The poller of a prober does not run once its context was freed, unless it is paused, and a probe
-- that succeeds is that of a prober whose context was not freed.
abbrev pub IsTimely : Event → List Prober → Type 0
IsTimely (polls k) qs = (q : Prober) → get_elem? qs k ≡ some q → q.paused ≡ false → q.freed ≡ false
IsTimely (probed k true) qs = (q : Prober) × (get_elem? qs k ≡ some q) × (q.freed ≡ false)
IsTimely (probed k false) qs = Unit {0}
IsTimely (request io) qs = Unit {0}
IsTimely (completes io success path real) qs = Unit {0}

-- The probers change, but not their paths.
probers-Serves :
    (a : ℕ) (lane : Lane) (qs : List Prober)
    → ((k : ℕ) (q : Prober)
        → get_elem? qs k ≡ some q
        → (q' : Prober) × (j : ℕ) × (get_elem? lane.probers j ≡ some q') × (q.path ≡ q'.path))
    → Serves a lane
    → Serves a (record lane { probers = qs })
probers-Serves a lane qs from s = record {
  ready = record { ids = s.ready.ids; four = s.ready.four; room = s.ready.room };
  spare = s.spare;
  inside = λ k q e. let (q', j, at, same) = from k q e in omega (arith, s.inside j q' at, same);
  polled = λ k q p e on.
      (let (q', j, at, same) = from k q e in
        s.polled j q' p at (subst (λ x. get_elem? lane.channel.iopath_list x ≡ some p) same on));
}

has_poller : (o : Option ℕ) → o ≢ none → (h : ℕ) × (o ≡ some h)
has_poller none set = absurd (set refl)
has_poller (some h) set = (h, refl)

pause-path : (h : ℕ) (q : Prober) → (pause h q).path ≡ q.path
unfolding pause
pause-path h q = ground arith

polls-Serves :
    (a k : ℕ) (lane : Lane) (q : Prober)
    → Serves a lane
    → get_elem? lane.probers k ≡ some q
    → q.freed ≡ false
    → (lane' : Lane) × ((failback_io_fn k lane >>= λ le. ok le.0) ≡ ok lane')
      × Serves a lane'
      × (length lane'.channel.iopath_list ≡ length lane.channel.iopath_list)
unfolding failback_io_fn
polls-Serves a k lane q s at live =
    let (p, on) = get_elem?-of_lt lane.channel.iopath_list q.path (s.inside k q at) in
    let cb : Callback = Callback.failback lane.channel.address q.path in
    (
      record lane { probers = modify lane.probers k (set_probe cb) },
      ground (arith, at, live, on),
      probers-Serves a lane (modify lane.probers k (set_probe cb))
          (λ j x e.
            let (x', was, c) = get_elem?-modify_inv lane.probers k j (set_probe cb) e in
            (
              x',
              j,
              was,
              elim c [
                | inl (_, same) ↦ ap (λ y. y.path) same
                | inr (_, same) ↦ ap (λ y. y.path) same
              ],
            ))
          s,
      refl,
    )

probed-Serves :
    (a k : ℕ) (lane : Lane) (q : Prober)
    → Serves a lane
    → get_elem? lane.probers k ≡ some q
    → q.freed ≡ false
    → (lane' : Lane) × (failback_io_completion_cb k true lane ≡ ok lane')
      × Serves a lane'
      × (length lane'.channel.iopath_list ≡ length lane.channel.iopath_list)
unfolding failback_io_completion_cb
probed-Serves a k lane q s at live =
    let (p, on) = get_elem?-of_lt lane.channel.iopath_list q.path (s.inside k q at) in
    let up : Lane = change_path q.path mark_up lane in
    let (h, set) = has_poller p.reconnect_poller (s.polled k q p at on) in
    let paused : List Prober = map (pause h) lane.probers in
    (
      record up { probers = modify paused k free_probe },
      ground (arith, at, live, on, set),
      probers-Serves a up (modify paused k free_probe)
          (λ j x e.
            let (x1, was1, c) = get_elem?-modify_inv paused k j free_probe e in
            let (x2, was2, paused_x) = get_elem?-map_inv (pause h) lane.probers j was1 in
            let path1 : x.path ≡ x1.path = elim c [
              | inl (_, same) ↦ ap (λ y. y.path) same
              | inr (_, same) ↦ ap (λ y. y.path) same
            ] in
            (x2, j, was2, path1 ∙ ap (λ y. y.path) paused_x ∙ pause-path h x2))
          (keep-Serves a q.path mark_up lane (λ x. refl) (λ x up. refl) (λ x set. set) s),
      length-modify lane.channel.iopath_list q.path mark_up,
    )

not_up : (k : ℕ) (lane : Lane) → failback_io_completion_cb k false lane ≡ ok lane
unfolding failback_io_completion_cb
not_up k lane = refl

pub probe-Serves :
    (a : ℕ) (r : Reply) (e : Event) (lane : Lane)
    → Serves a lane
    → IsTimely e lane.probers
    → (lane' : Lane) × (probe r e lane ≡ ok lane')
      × Serves a lane'
      × (length lane'.channel.iopath_list ≡ length lane.channel.iopath_list)
unfolding probe step
probe-Serves a r (polls k) lane s timely = elim (Option-cases (get_elem? lane.probers k)) [
  | inl gone ↦ (lane, ground arith, s, refl)
  | inr (q, at) ↦ elim (Bool-cases q.paused) [
    | inl stopped ↦ (lane, ground arith, s, refl)
    | inr runs ↦
        let (lane', e, s', size) = polls-Serves a k lane q s at (timely q at runs) in
        (lane', ground (arith, at, runs, e), s', size)
  ]
]
probe-Serves a r (probed k true) lane s (q, at, live) = probed-Serves a k lane q s at live
probe-Serves a r (probed k false) lane s timely = (lane, not_up k lane, s, refl)
probe-Serves a r (request io) lane s timely = (lane, refl, s, refl)
probe-Serves a r (completes io success path real) lane s timely = (lane, refl, s, refl)
