-- ===== src/DataPath/Traffic/Serve.antt =====
-- sump_data.c and sump_ctrl.c: what one function does to a channel with a path that is available.
use sump.Base.{
  ℕ, true_apart, ◌<◌, ◌≡◌, ◌≢◌, refl, ap, subst, ◌∙◌, true, false, [], ◌∷◌, ◌++◌, none, some, arith,
  length, length-modify, get_elem?, get_elem?-of_lt, get_elem?-lt, get_elem?-modify_self,
  get_elem?-modify_ne, get_elem?-modify_inv, get_elem?-last, modify, sym, ok, Bool-cases, inl, inr,
  ℕ_discrete,
}
use sump.Bdev.{Io, IoType, Callback}
use sump.IoPath.{IoPath}
use sump.Select.Hash.{Available}
use sump.DataPath.{
  Lane, Reply, Effect, Prober, submit_request, io_completion_cb, complete_success, complete_failure,
  failback, change_path, mark_down, start_reconnect, uncount_io, update_io_time,
}
use sump.DataPath.Submit.{IsReady, add_bytes, wrapped, submit_request_lem}
use sump.DataPath.Down.{change-IsReady}
use sump.DataPath.Complete.{update_io_time-keeps}

-- The channel is ready, the path at `a` is available, and the probers have paths of the channel.
pub record Serves (a : ℕ) (lane : Lane) : Type 0 where
  pub ready : IsReady lane
  pub spare : Available lane.channel.iopath_list a
  pub inside :
      (k : ℕ) (q : Prober)
      → get_elem? lane.probers k ≡ some q
      → q.path < length lane.channel.iopath_list
  pub polled :
      (k : ℕ) (q : Prober) (p : IoPath)
      → get_elem? lane.probers k ≡ some q
      → get_elem? lane.channel.iopath_list q.path ≡ some p
      → p.reconnect_poller ≢ none

-- The callback is sump's, with a path that is among the first `n`.
abbrev pub HasPath : ℕ → Callback → Type 0
HasPath n (Callback.ump ch (some i) real) = i < n
HasPath n (Callback.ump ch none real) = ⊥
HasPath n (Callback.caller k) = ⊥
HasPath n (Callback.failback ch path) = ⊥

-- Another path is changed.
pub change-Serves :
    (a i : ℕ) (f : IoPath → IoPath) (lane : Lane)
    → ((p : IoPath) → (f p).id ≡ p.id)
    → ((p : IoPath) → p.reconnect_poller ≢ none → (f p).reconnect_poller ≢ none)
    → i ≢ a
    → Serves a lane
    → Serves a (change_path i f lane)
change-Serves a i f lane keeps polls ne s =
    let (p, at, up) = s.spare in
    record {
      ready = change-IsReady i f lane keeps s.ready;
      spare = (p, get_elem?-modify_ne lane.channel.iopath_list i a f ne ∙ at, up);
      inside = λ k q e. omega (arith, s.inside k q e, length-modify lane.channel.iopath_list i f);
      polled = λ k q p e on.
          (let (b, was, c) = get_elem?-modify_inv lane.channel.iopath_list i q.path f on in
            elim c [
              | inl (_, is) ↦
                  subst (λ (x : IoPath). x.reconnect_poller ≢ none) (sym is)
                    (polls b (s.polled k q b e was))
              | inr (_, is) ↦
                  subst (λ (x : IoPath). x.reconnect_poller ≢ none) (sym is) (s.polled k q b e was)
            ]);
    }

-- Any path is changed, but stays available if it is.
pub keep-Serves :
    (a i : ℕ) (f : IoPath → IoPath) (lane : Lane)
    → ((p : IoPath) → (f p).id ≡ p.id)
    → ((p : IoPath) → p.available ≡ true → (f p).available ≡ true)
    → ((p : IoPath) → p.reconnect_poller ≢ none → (f p).reconnect_poller ≢ none)
    → Serves a lane
    → Serves a (change_path i f lane)
keep-Serves a i f lane keeps same polls s = elim (ℕ_discrete i a) [
  | no ne ↦ change-Serves a i f lane keeps polls ne s
  | yes e ↦
      let (p, at, up) = s.spare in
      let here : get_elem? lane.channel.iopath_list i ≡ some p = rw e at in
      let there : get_elem? (modify lane.channel.iopath_list i f) i ≡ some (f p) =
        get_elem?-modify_self lane.channel.iopath_list i f here in
      record {
        ready = change-IsReady i f lane keeps s.ready;
        spare = (
          f p,
          subst (λ j. get_elem? (modify lane.channel.iopath_list i f) j ≡ some (f p)) e there,
          same p up,
        );
        inside = λ k q e. omega (arith, s.inside k q e, length-modify lane.channel.iopath_list i f);
        polled = λ k q p e on.
            (let (b, was, c) = get_elem?-modify_inv lane.channel.iopath_list i q.path f on in
              elim c [
                | inl (_, is) ↦
                    subst (λ (x : IoPath). x.reconnect_poller ≢ none) (sym is)
                      (polls b (s.polled k q b e was))
                | inr (_, is) ↦
                    subst (λ (x : IoPath). x.reconnect_poller ≢ none) (sym is)
                      (s.polled k q b e was)
              ]);
      }
]

-- An I/O that is submitted goes to a path.
pub submit-Serves :
    (a : ℕ) (r : Reply) (lane : Lane) (io : Io)
    → Serves a lane
    → io.num_blocks ≢ 0
    → r.alloc_ctx ≡ true
    → (i : ℕ) × (p : IoPath) × (lane' : Lane) × (submit_request r lane io
        ≡ ok (lane', Effect.submitted i p.io_channel p.bdev (wrapped lane i io)))
      × Serves a lane'
      × (i < length lane.channel.iopath_list)
      × (lane'.channel ≡ lane.channel)
submit-Serves a r lane io s ne alloc = elim (submit_request_lem r lane io s.ready ne alloc) [
  | inl (i, sent) ↦ (
    i,
    sent.path,
    record lane { count = modify lane.count i (add_bytes io) },
    sent.result,
    record {
      ready = record {
        ids = s.ready.ids;
        four = length-modify lane.count i (add_bytes io) ∙ s.ready.four;
        room = s.ready.room;
      };
      spare = s.spare;
      inside = s.inside;
      polled = s.polled;
    },
    get_elem?-lt lane.channel.iopath_list i sent.found,
    refl,
  )
  | inr (down, _) ↦
      let (p, at, up) = s.spare in
      let off : p.available ≡ false = down a p at in absurd (true_apart up off)
]

-- A failed I/O on another path goes to a path, and the list of paths keeps its length.
pub failure-Serves :
    (a i : ℕ) (r : Reply) (lane : Lane) (io : Io) (real : Callback)
    → Serves a lane
    → i ≢ a
    → i < length lane.channel.iopath_list
    → io.num_blocks ≢ 0
    → r.alloc_ctx ≡ true
    → r.alloc_failback ≡ true
    → (lane' : Lane) × (j : ℕ) × (p : IoPath) × (io' : Io) × (complete_failure r lane io
          (some i)
          real
        ≡ ok (lane', Effect.submitted j p.io_channel p.bdev io'))
      × Serves a lane'
      × (length lane'.channel.iopath_list ≡ length lane.channel.iopath_list)
      × (io'.num_blocks ≡ io.num_blocks)
      × HasPath (length lane.channel.iopath_list) io'.cb
unfolding complete_failure failback
failure-Serves a i r lane io real s ne lt blocks ctx fb =
    let (p, at) = get_elem?-of_lt lane.channel.iopath_list i lt in
    let at_down : get_elem? (modify lane.channel.iopath_list i mark_down) i ≡ some (mark_down p) =
      get_elem?-modify_self lane.channel.iopath_list i mark_down at in
    let again : Io = record io { cb = real; submit_tsc = r.ticks } in
    let down : Lane = change_path i mark_down lane in
    let sd : Serves a down = change-Serves a i mark_down lane (λ q. refl) (λ q set. set) ne s in
    let size : length down.channel.iopath_list ≡ length lane.channel.iopath_list =
      length-modify lane.channel.iopath_list i mark_down in
    elim (Bool-cases p.reconnecting) [
      | inl already ↦
          let (j, q, lane', e, sv, inside, same) = submit-Serves a r down again sd blocks ctx in
          (
            lane',
            j,
            q,
            wrapped down j again,
            rw (at, at_down, already) e,
            sv,
            ap (λ ch. length ch.iopath_list) same ∙ size,
            refl,
            omega (arith, size, inside),
          )
      | inr fresh ↦
          let probed : Lane = record (change_path i (start_reconnect r.poller) down) {
            probers =
                lane.probers
                ++ (record {
                  path = i;
                  probe = io;
                  poller = r.poller;
                  paused = false;
                  freed = false;
                }
                    ∷ []);
          } in
          let step : complete_failure r lane io (some i) real ≡ submit_request r probed again =
            rw (at, at_down, fresh, fb) refl in
          let sp : Serves a (change_path i (start_reconnect r.poller) down) =
            change-Serves a i (start_reconnect r.poller) down (λ q. refl) (λ q set e. cc) ne sd in
          let all_inside : (k : ℕ) (q : Prober)
              → get_elem? probed.probers k ≡ some q
              → q.path < length probed.channel.iopath_list =
            λ k q e. elim (get_elem?-last lane.probers _ k e) [
              | inl old ↦ sp.inside k q old
              | inr (_, new) ↦
                  let path : q.path ≡ i = ap (λ x. x.path) new in
                  omega (
                    arith,
                    path,
                    lt,
                    size,
                    length-modify down.channel.iopath_list i (start_reconnect r.poller),
                  )
            ] in
          let all_polled : (k : ℕ) (q : Prober) (x : IoPath)
              → get_elem? probed.probers k ≡ some q
              → get_elem? probed.channel.iopath_list q.path ≡ some x
              → x.reconnect_poller ≢ none =
            λ k q x e on. elim (get_elem?-last lane.probers _ k e) [
              | inl old ↦ sp.polled k q x old on
              | inr (_, new) ↦
                  let path : q.path ≡ i = ap (λ y. y.path) new in
                  let (b, _, c) =
                    get_elem?-modify_inv down.channel.iopath_list i q.path
                      (start_reconnect r.poller) on in
                  elim c [
                    | inl (_, is) ↦
                        subst (λ (y : IoPath). y.reconnect_poller ≢ none) (sym is) (λ gone. cc)
                    | inr (apart, _) ↦ absurd (apart (sym path))
                  ]
            ] in
          let ready : IsReady probed = record {
            ids = sp.ready.ids;
            four = sp.ready.four;
            room = sp.ready.room;
          } in
          let (j, q, lane', e, sv, inside, same) =
            submit-Serves a r probed again
              (record { ready = ready; spare = sp.spare; inside = all_inside; polled = all_polled })
              blocks ctx in
          let size' : length probed.channel.iopath_list ≡ length lane.channel.iopath_list =
            length-modify down.channel.iopath_list i (start_reconnect r.poller) ∙ size in
          (
            lane',
            j,
            q,
            wrapped probed j again,
            step ∙ e,
            sv,
            ap (λ ch. length ch.iopath_list) same ∙ size',
            refl,
            omega (arith, size', inside),
          )
    ]

time-reconnect_poller :
    (r : Reply) (io : Io) (q : IoPath)
    → (uncount_io (update_io_time r io q)).reconnect_poller ≡ q.reconnect_poller
unfolding update_io_time
time-reconnect_poller r io q = by_type io.io_type refl
  where
    by_type :
        (t : IoType)
        → io.io_type ≡ t
        → (uncount_io (update_io_time r io q)).reconnect_poller ≡ q.reconnect_poller
    by_type IoType.read e = ground arith
    by_type (IoType.other n) e = ground arith

pub success-Serves :
    (a i : ℕ) (r : Reply) (lane : Lane) (io : Io) (real : Callback)
    → Serves a lane
    → i < length lane.channel.iopath_list
    → (lane' : Lane) × (io_completion_cb r lane io true (some i) real
        ≡ ok (lane', Effect.completed real true io))
      × Serves a lane'
      × (length lane'.channel.iopath_list ≡ length lane.channel.iopath_list)
unfolding io_completion_cb complete_success
success-Serves a i r lane io real s lt =
    let (p, at) = get_elem?-of_lt lane.channel.iopath_list i lt in
    (
      change_path i (λ q. uncount_io (update_io_time r io q)) lane,
      rw at refl,
      keep-Serves a i (λ q. uncount_io (update_io_time r io q)) lane
          (λ q. (update_io_time-keeps r io q).2) (λ q up. (update_io_time-keeps r io q).1 ∙ up)
          (λ q set e. set (sym (time-reconnect_poller r io q) ∙ e)) s,
      length-modify lane.channel.iopath_list i (λ q. uncount_io (update_io_time r io q)),
    )
