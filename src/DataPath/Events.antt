-- ===== src/DataPath/Events.antt =====
-- sump_ctrl.c and sump_data.c: the I/O of a channel as sequences of events, and paths that are down for ever.
use sump.Base.{
  ℕ, zero, suc, ◌≡◌, ◌≢◌, ◌∙◌, Bool, true, false, List, [], ◌∷◌, ◌++◌, map, Option, none, some,
  arith, modify, get_elem?, get_elem?-modify_inv, get_elem?-modify_ne, sym, Outcome, ok, ◌>>=◌,
  deref, inl, inr, if◌then◌else◌,
}
use sump.Bdev.{Io, Callback}
use sump.IoPath.{IoPath}
use sump.DataPath.{
  Lane, Reply, Effect, Prober, submit_request, io_completion_cb, failback_io_fn,
  failback_io_completion_cb, change_path,
}

-- What happens to the I/O of a channel: a request comes in; an I/O completes on a path, with the
-- callback of its context; the poller of a prober runs; a prober's I/O completes. A poller that is
-- paused does not run.
pub data Event : Type 0 where
  request : Io → Event
  completes : Io → Bool → Option ℕ → Callback → Event
  polls : ℕ → Event
  probed : ℕ → Bool → Event

abbrev keep_lane : Outcome (Lane × Effect) → Outcome Lane
keep_lane o = o >>= λ le. ok le.0

unfoldable pub step : Reply → Event → Lane → Outcome Lane
step r (request io) lane = keep_lane (submit_request r lane io)
step r (completes io success path real) lane =
    keep_lane (io_completion_cb r lane io success path real)
step r (polls k) lane = elim (get_elem? lane.probers k) [
  | none ↦ ok lane
  | some q ↦ if q.paused then ok lane else keep_lane (failback_io_fn k lane)
]
step r (probed k success) lane = failback_io_completion_cb k success lane

unfoldable pub run : List (Reply × Event) → Lane → Outcome Lane
run [] lane = ok lane
run ((r, e) ∷ es) lane = step r e lane >>= run es

-- Every prober of the path at `i` is freed.
abbrev pub AllFreed : ℕ → List Prober → Type 0
AllFreed i [] = Unit {0}
AllFreed i (q ∷ qs) = (q.path ≡ i → q.freed ≡ true) × AllFreed i qs

-- The path at `i` is down, it is marked as being reconnected, and every prober that it had is freed.
pub record IsDead (i : ℕ) (lane : Lane) : Type 0 where
  pub down : (p : IoPath) → get_elem? lane.channel.iopath_list i ≡ some p → p.available ≡ false
  pub marked : (p : IoPath) → get_elem? lane.channel.iopath_list i ≡ some p → p.reconnecting ≡ true
  pub freed : AllFreed i lane.probers

pub AllFreed-append :
    (i : ℕ) (qs : List Prober) (q : Prober)
    → AllFreed i qs
    → q.path ≢ i
    → AllFreed i (qs ++ (q ∷ []))
AllFreed-append i [] q h ne = ((λ e. absurd (ne e)), tt)
AllFreed-append i (x ∷ qs) q h ne = (h.0, AllFreed-append i qs q h.1 ne)

pub AllFreed-modify :
    (i : ℕ) (qs : List Prober) (k : ℕ) (f : Prober → Prober)
    → ((q : Prober) → (f q).path ≡ q.path)
    → ((q : Prober) → q.freed ≡ true → (f q).freed ≡ true)
    → AllFreed i qs
    → AllFreed i (modify qs k f)
AllFreed-modify i [] k f same keeps h = tt
AllFreed-modify i (q ∷ qs) zero f same keeps h = ((λ e. keeps q (h.0 (sym (same q) ∙ e))), h.1)
AllFreed-modify i (q ∷ qs) (suc k) f same keeps h = (h.0, AllFreed-modify i qs k f same keeps h.1)

pub AllFreed-map :
    (i : ℕ) (qs : List Prober) (f : Prober → Prober)
    → ((q : Prober) → (f q).path ≡ q.path)
    → ((q : Prober) → q.freed ≡ true → (f q).freed ≡ true)
    → AllFreed i qs
    → AllFreed i (map f qs)
AllFreed-map i [] f same keeps h = tt
AllFreed-map i (q ∷ qs) f same keeps h =
    ((λ e. keeps q (h.0 (sym (same q) ∙ e))), AllFreed-map i qs f same keeps h.1)

pub AllFreed-get :
    (i : ℕ) (qs : List Prober) (k : ℕ) (q : Prober)
    → AllFreed i qs
    → get_elem? qs k ≡ some q
    → q.freed ≡ false
    → q.path ≢ i
AllFreed-get i [] k q h at alive = cc
AllFreed-get i (x ∷ qs) zero q h at alive =
    λ e. (let gone : x.freed ≡ true = h.0 (ground arith) in ground arith)
AllFreed-get i (x ∷ qs) (suc k) q h at alive = AllFreed-get i qs k q h.1 at alive

-- A change of a path that neither brings it up nor forgets its mark.
pub change-keeps :
    (i j : ℕ) (f : IoPath → IoPath) (lane : Lane)
    → ((p : IoPath) → p.available ≡ false → (f p).available ≡ false)
    → ((p : IoPath) → p.reconnecting ≡ true → (f p).reconnecting ≡ true)
    → IsDead i lane
    → IsDead i (change_path j f lane)
change-keeps i j f lane stays_down stays_marked d = record {
  down = λ q at.
      (let (p, e, c) = get_elem?-modify_inv paths j i f at in
        elim c [
          | inl (_, same) ↦ rw same (stays_down p (d.down p e))
          | inr (_, same) ↦ rw same (d.down p e)
        ]);
  marked = λ q at.
      (let (p, e, c) = get_elem?-modify_inv paths j i f at in
        elim c [
          | inl (_, same) ↦ rw same (stays_marked p (d.marked p e))
          | inr (_, same) ↦ rw same (d.marked p e)
        ]);
  freed = d.freed;
}
  where
    paths : List IoPath
    paths = lane.channel.iopath_list

-- A change of another path.
pub change-other :
    (i j : ℕ) (f : IoPath → IoPath) (lane : Lane)
    → j ≢ i
    → IsDead i lane
    → IsDead i (change_path j f lane)
change-other i j f lane ne d =
    let same : get_elem? (modify lane.channel.iopath_list j f) i
        ≡ get_elem? lane.channel.iopath_list i =
      get_elem?-modify_ne lane.channel.iopath_list j i f ne in
    record {
      down = λ q at. d.down q (sym same ∙ at);
      marked = λ q at. d.marked q (sym same ∙ at);
      freed = d.freed;
    }

pub deref-some {ℓ} : {A : Type ℓ} (o : Option A) {a : A} → deref o ≡ ok a → o ≡ some a
deref-some none h = cc
deref-some (some b) h = ground arith
