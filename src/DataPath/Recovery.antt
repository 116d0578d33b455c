-- ===== src/DataPath/Recovery.antt =====
-- sump_ctrl.c `ump_failback_io_completion_cb`: a path that recovers, and what becomes of it.
use sump.Base.{
  ℕ, zero, suc, ◌≡◌, refl, ◌∙◌, sym, true, false, List, [], ◌∷◌, map, some, arith, modify,
  get_elem?, get_elem?-modify_self, get_elem?-modify_inv, get_elem?-map_inv, Bool-cases, inl, inr,
  ◌==◌, ==_iff, true_apart, ap, >>=-eq-ok, ok, fault, Fault,
}
use sump.Bdev.{Io, Callback}
use sump.IoPath.{IoPath}
use sump.DataPath.{
  Lane, Reply, Effect, Prober, io_completion_cb, complete_failure, failback,
  failback_io_completion_cb, change_path, mark_down, mark_up, pause, free_probe, submit_request,
}
use sump.DataPath.Failback.{run-IsDead, submit-IsDead, pause-keeps}
use sump.DataPath.Events.{Event, completes, step, run, AllFreed, IsDead}

-- The path at `i` has come back: it is available, still marked as being reconnected, and every
-- prober that it had is freed.
pub record IsRecovered (i : ℕ) (lane : Lane) : Type 0 where
  pub path : IoPath
  pub found : get_elem? lane.channel.iopath_list i ≡ some path
  pub up : path.available ≡ true
  pub marked : path.reconnecting ≡ true
  pub freed : AllFreed i lane.probers

failure-IsDead :
    (i : ℕ) (r : Reply) (lane : Lane) (io : Io) (real : Callback) {le : Lane × Effect}
    → IsRecovered i lane
    → io_completion_cb r lane io false (some i) real ≡ ok le
    → IsDead i le.0
unfolding io_completion_cb complete_failure failback
failure-IsDead i r lane io real {le} v e =
    let paths : List IoPath = lane.channel.iopath_list in
    let at_down : get_elem? (modify paths i mark_down) i ≡ some (mark_down v.path) =
      get_elem?-modify_self paths i mark_down v.found in
    let down : IsDead i (change_path i mark_down lane) = record {
      down = λ p at. (let same : mark_down v.path ≡ p = ground arith in ground arith);
      marked = λ p at. (let mark : v.path.reconnecting ≡ true = v.marked in ground arith);
      freed = v.freed;
    } in
    let e1 : submit_request r (change_path i mark_down lane)
          (record io { cb = real; submit_tsc = r.ticks })
        ≡ ok le =
      rw (v.found, at_down, v.marked, io_completion_cb) at e in
    submit-IsDead i r _ _ e1 down

-- A path that has recovered once and fails again is lost: whatever requests, completions, polls and
-- probes follow, it is never available again, since `reconnecting` is never reset.
pub second_failure :
    (i : ℕ) (r : Reply) (io : Io) (real : Callback) (es : List (Reply × Event)) (lane lane' : Lane)
    → IsRecovered i lane
    → run ((r, completes io false (some i) real) ∷ es) lane ≡ ok lane'
    → (p : IoPath) → get_elem? lane'.channel.iopath_list i ≡ some p
    → p.available ≡ false
unfolding run step
second_failure i r io real es lane lane' v e p at =
    let (lane1, e1, e2) = >>=-eq-ok (step r (completes io false (some i) real) lane) _ e in
    let (le, e3, e4) = >>=-eq-ok (io_completion_cb r lane io false (some i) real) _ e1 in
    let same : lane1 ≡ le.0 = ground arith in
    let dead : IsDead i lane1 = rw same (failure-IsDead i r lane io real v e3) in
    (run-IsDead i es lane1 lane' dead e2).down p at

-- Every prober of the path at `i` but the one at `k` is freed.
abbrev pub OthersFreed : ℕ → ℕ → List Prober → Type 0
OthersFreed i k [] = Unit {0}
OthersFreed i zero (q ∷ qs) = AllFreed i qs
OthersFreed i (suc k) (q ∷ qs) = (q.path ≡ i → q.freed ≡ true) × OthersFreed i k qs

AllFreed-free :
    (i k h : ℕ) (qs : List Prober)
    → OthersFreed i k qs
    → AllFreed i (modify (map (pause h) qs) k free_probe)
AllFreed-free i k h [] o = tt
AllFreed-free i zero h (q ∷ qs) o = ((λ e. refl), rest qs o)
  where
    rest : (xs : List Prober) → AllFreed i xs → AllFreed i (map (pause h) xs)
    rest [] a = tt
    rest (x ∷ xs) a = ((λ e. (pause-keeps h x).1 ∙ a.0 (sym (pause-keeps h x).0 ∙ e)), rest xs a.1)
AllFreed-free i (suc k) h (q ∷ qs) o =
    ((λ e. (pause-keeps h q).1 ∙ o.0 (sym (pause-keeps h q).0 ∙ e)), AllFreed-free i k h qs o.1)

get_elem?-map :
    (f : Prober → Prober) (qs : List Prober) (k : ℕ) {q : Prober}
    → get_elem? qs k ≡ some q
    → get_elem? (map f qs) k ≡ some (f q)
get_elem?-map f [] k at = cc
get_elem?-map f (x ∷ qs) zero at = ground arith
get_elem?-map f (x ∷ qs) (suc k) at = get_elem?-map f qs k at

-- A prober whose poller has the handle is paused.
IsPaused-pause :
    (h j k : ℕ) (qs : List Prober) {x : Prober}
    → get_elem? (modify (map (pause h) qs) k free_probe) j ≡ some x
    → x.poller ≡ h
    → x.paused ≡ true
unfolding pause
IsPaused-pause h j k qs {x} at same =
    let (y, was, c) = get_elem?-modify_inv (map (pause h) qs) k j free_probe at in
    let (z, _, is) = get_elem?-map_inv (pause h) qs j was in
    elim c [
      | inl (_, freed) ↦ by_test y z is (ap (λ v. v.paused) freed) (ap (λ v. v.poller) freed)
      | inr (_, kept) ↦ by_test y z is (ap (λ v. v.paused) kept) (ap (λ v. v.poller) kept)
    ]
  where
    by_test :
        (y z : Prober) → y ≡ pause h z → x.paused ≡ y.paused → x.poller ≡ y.poller → x.paused ≡ true
    by_test y z is paused poller = elim (Bool-cases (z.poller == h)) [
      | inl hit ↦ paused ∙ ap (λ v. v.paused) is ∙ rw hit refl
      | inr miss ↦
          let unpaused : (pause h z).poller ≡ z.poller = rw miss refl in
          let hit : (z.poller == h) ≡ true =
            (==_iff z.poller h).1
              (sym unpaused ∙ sym (ap (λ v. v.poller) is) ∙ sym poller ∙ same) in
          absurd (true_apart hit miss)
    ]

-- When the probe of a path that is being reconnected by a poller comes back well, and its other
-- probers are freed, the path has recovered, and every prober with that poller is paused; if the same
-- probe comes back well once more, because its poller sent it again before the first answer, freed
-- memory is read.
pub probe-recovers :
    (i k h : ℕ) (lane : Lane) (q : Prober) (p : IoPath)
    → get_elem? lane.probers k ≡ some q
    → q.path ≡ i
    → q.freed ≡ false
    → OthersFreed i k lane.probers
    → get_elem? lane.channel.iopath_list i ≡ some p
    → p.reconnecting ≡ true
    → p.reconnect_poller ≡ some h
    → (lane' : Lane) × (failback_io_completion_cb k true lane ≡ ok lane')
      × IsRecovered i lane'
      × ((j : ℕ) (x : Prober) → get_elem? lane'.probers j ≡ some x → x.poller ≡ h → x.paused ≡ true)
      × (failback_io_completion_cb k true lane' ≡ fault Fault.use_after_free)
unfolding failback_io_completion_cb
probe-recovers i k h lane q p at_q path alive others at_p marked set =
    let probers : List Prober = modify (map (pause h) lane.probers) k free_probe in
    let lane' : Lane = record (change_path i mark_up lane) { probers = probers } in
    let again : get_elem? probers k ≡ some (free_probe (pause h q)) =
      get_elem?-modify_self (map (pause h) lane.probers) k free_probe
        (get_elem?-map (pause h) lane.probers k at_q) in
    (
      lane',
      rw (at_q, alive, path, at_p, set),
      record {
        path = mark_up p;
        found = get_elem?-modify_self lane.channel.iopath_list i mark_up at_p;
        up = refl;
        marked = marked;
        freed = AllFreed-free i k h lane.probers others;
      },
      (λ j x at same. IsPaused-pause h j k lane.probers at same),
      rw again,
    )
