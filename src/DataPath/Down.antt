-- ===== src/DataPath/Down.antt =====
-- sump_ctrl.c `ump_bdev_io_completion_cb`, the branch of a failed I/O: what it does to the channel.
use sump.Base.{
  ℕ, zero, suc, ◌+◌, ◌<◌, ◌≡◌, inl, inr, refl, sym, ap, ◌∙◌, true, false, List, [], ◌∷◌, ◌++◌, some,
  arith, length-modify, modify, get_elem?, get_elem?-modify_self, get_elem?-modify_inv, Bool-cases,
  if◌then◌else◌,
}
use sump.Bdev.{Io, Callback}
use sump.IoPath.{IoPath}
use sump.Select.Hash.{AllDown, Available}
use sump.DataPath.{
  Lane, Reply, submit_request, complete_failure, change_path, mark_down, start_reconnect,
}
use sump.DataPath.Submit.{IsReady}

-- How many paths of a list are available.
unfoldable pub available_count : List IoPath → ℕ
available_count [] = 0
available_count (p ∷ ps) = if p.available then suc (available_count ps) else available_count ps

pub AllDown-count : (ps : List IoPath) → AllDown ps → available_count ps ≡ 0
unfolding available_count
AllDown-count [] down = refl
AllDown-count (p ∷ ps) down = rw (down 0 p refl) (AllDown-count ps (λ i q at. down (suc i) q at))

pub count-Available : (ps : List IoPath) (i : ℕ) → Available ps i → 0 < available_count ps
unfolding available_count
count-Available [] i (p, at, up) = cc
count-Available (q ∷ ps) zero (p, at, up) = ground arith
count-Available (q ∷ ps) (suc i) (p, at, up) = ground (arith, count-Available ps i (p, at, up))

count-mark_down :
    (ps : List IoPath) (i : ℕ)
    → Available ps i
    → available_count (modify ps i mark_down) + 1 ≡ available_count ps
unfolding available_count
count-mark_down [] i (p, at, up) = cc
count-mark_down (q ∷ ps) zero (p, at, up) = ground arith
count-mark_down (q ∷ ps) (suc i) (p, at, up) = ground (arith, count-mark_down ps i (p, at, up))

count-start_reconnect :
    (ps : List IoPath) (i h : ℕ)
    → available_count (modify ps i (start_reconnect h)) ≡ available_count ps
unfolding available_count
count-start_reconnect [] i h = refl
count-start_reconnect (q ∷ ps) zero h = refl
count-start_reconnect (q ∷ ps) (suc i) h = ground (arith, count-start_reconnect ps i h)

-- A change that keeps the numbers of the paths keeps a lane ready.
pub change-IsReady :
    (i : ℕ) (f : IoPath → IoPath) (lane : Lane)
    → ((p : IoPath) → (f p).id ≡ p.id)
    → IsReady lane
    → IsReady (change_path i f lane)
change-IsReady i f lane keeps ready = record {
  ids = record {
    places = λ j q at.
        (let (p, e, c) = get_elem?-modify_inv paths i j f at in
          let id : p.id ≡ j = ready.ids.places j p e in
          elim c [ inl (_, same) ↦ rw same (keeps p ∙ id) | inr (_, same) ↦ rw same id ]);
    count = ready.ids.count ∙ sym (length-modify paths i f);
  };
  four = ready.four;
  room = omega (arith, length-modify paths i f, ready.room);
}
  where
    paths : List IoPath
    paths = lane.channel.iopath_list

-- The lane in which a failed I/O is submitted again: the path is down and is being reconnected,
-- and the other paths are as they were.
pub record Failed (lane lane' : Lane) (i : ℕ) : Type 0 where
  pub ready : IsReady lane'
  pub address : lane'.channel.address ≡ lane.channel.address
  pub fewer :
      available_count lane'.channel.iopath_list + 1 ≡ available_count lane.channel.iopath_list
  pub down :
      (q : IoPath) × (get_elem? lane'.channel.iopath_list i ≡ some q)
      × (q.available ≡ false)
      × (q.reconnecting ≡ true)

pub complete_failure-Failed :
    (r : Reply) (lane : Lane) (io : Io) (i : ℕ) (real : Callback)
    → IsReady lane
    → r.alloc_failback ≡ true
    → Available lane.channel.iopath_list i
    → (lane' : Lane) × (complete_failure r lane io (some i) real
        ≡ submit_request r lane' (record io { cb = real; submit_tsc = r.ticks }))
      × Failed lane lane' i
unfolding complete_failure
complete_failure-Failed r lane io i real ready alloc (p, at, up) =
    elim (Bool-cases p.reconnecting) [
      | inl already ↦ (
        down_lane,
        rw (at, at_down, already),
        record {
          ready = down_ready;
          address = refl;
          fewer = count-mark_down paths i (p, at, up);
          down = (mark_down p, at_down, refl, already);
        },
      )
      | inr fresh ↦ (
        record (change_path i (start_reconnect r.poller) down_lane) {
          probers =
              lane.probers
              ++ (record { path = i; probe = io; poller = r.poller; paused = false; freed = false }
                  ∷ []);
        },
        rw (at, at_down, fresh, alloc),
        record {
          ready =
              (let v : IsReady (change_path i (start_reconnect r.poller) down_lane) =
                  change-IsReady i (start_reconnect r.poller) down_lane (λ q. refl) down_ready in
                record { ids = v.ids; four = v.four; room = v.room });
          address = refl;
          fewer =
              ap suc' (count-start_reconnect (modify paths i mark_down) i r.poller)
              ∙ count-mark_down paths i (p, at, up);
          down = (
            start_reconnect r.poller (mark_down p),
            get_elem?-modify_self (modify paths i mark_down) i (start_reconnect r.poller) at_down,
            refl,
            refl,
          );
        },
      )
    ]
  where
    paths : List IoPath
    paths = lane.channel.iopath_list

    suc' : ℕ → ℕ
    suc' n = n + 1

    down_lane : Lane
    down_lane = change_path i mark_down lane

    down_ready : IsReady down_lane
    down_ready = change-IsReady i mark_down lane (λ q. refl) ready

    at_down : get_elem? (modify paths i mark_down) i ≡ some (mark_down p)
    at_down = get_elem?-modify_self paths i mark_down at
