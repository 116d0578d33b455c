-- ===== src/System/Reachable.antt =====
-- sump as a whole: what holds in every system that the program gets to.
use native.Mathlib.Nat.{mod-eq_of_lt}
use sump.Base.{
  ℕ, ◌≤◌, ◌<◌, ◌≡◌, ◌≢◌, inl, inr, refl, sym, ap, subst, ◌∙◌, Bool, true, false, [], ◌∷◌, ◌++◌,
  Option, none, some, arith, length, get_elem?, get_elem?-lt, All, All-append, All-split, All-get,
  modify, ok, >>=-eq-ok, deref, Bool-cases, true_apart,
}
use sump.Bdev.{Io, Callback, Uuids}
use sump.IoPath.{IoPath, Channel}
use sump.Select.{find_iopath}
use sump.Select.Hash.{Available, HasIds}
use sump.Channels.{set_count, io_count_fn}
use sump.DataPath.{
  Lane, Reply, Effect, submit_request, io_completion_cb, complete_success, complete_failure,
  failback, failback_io_fn, change_path, mark_down,
}
use sump.DataPath.Submit.{IsReady, wrapped, add_bytes, submit_request_lem}
use sump.System.{
  System, Step, Reach, lane_at, registers, opens, closes, serves, resets, starts, goes,
}
use sump.System.Sound.{
  IsSound, LeadsTo, Mirrors-LeadsTo, Mirrors, Mirrors-trans, Mirrors-IsSound, modify-Mirrors,
}
use sump.System.Io.{step-Keeps, failback-Keeps}
use sump.System.Registry.{IsOrdered, IsGroup, register-IsOrdered}
use sump.System.Opening.{
  create-IsOrdered, destroy-IsOrdered, reset-IsOrdered, create_cb-IsMade, destroy_cb-All,
}
use sump.System.Devices.{IsOf, AllOf, Mirrors-IsOf, map_reset-IsOf, register-AllOf}
use sump.World.{UmpBdev}

module _ (u : Uuids) where
  Step-IsOrdered : {s s' : System} → Step u s s' → IsOrdered s.world → IsOrdered s'.world
  Step-IsOrdered {s} {s'} (registers env b rc w e is) o =
      subst (λ (x : System). IsOrdered x.world) (sym is) (register-IsOrdered u env b s.world o e)
  Step-IsOrdered {s} {s'} (opens env i m address rc w puts at new e is) o =
      subst (λ (x : System). IsOrdered x.world) (sym is)
        (create-IsOrdered env m address s.world o
          (All-get IsGroup s.world.ump_bdev_list i o.devices at) e)
  Step-IsOrdered {s} {s'} (closes address w puts e is) o =
      subst (λ (x : System). IsOrdered x.world) (sym is) (destroy-IsOrdered address s.world o e)
  Step-IsOrdered {s} {s'} (serves r e before ch after lane chs step is) o =
      let keeps = step-Keeps r e (lane_at s ch) step in
      let (ahead, here) =
        All-split IsSound before (ch ∷ after) (subst (All IsSound) chs o.channels) in
      subst (λ (x : System). IsOrdered x.world) (sym is)
        (record {
          four = keeps.counts ∙ o.four;
          channels =
              All-append IsSound before (lane.channel ∷ after) ahead
                (Mirrors-IsSound ch lane.channel keeps.channel here.0, here.1);
          devices = o.devices;
        })
  Step-IsOrdered {s} {s'} (resets is) o =
      subst (λ (x : System). IsOrdered x.world) (sym is) (reset-IsOrdered s.world o)

  -- In every system that the program gets to, `count` has four elements; the paths of each channel
  -- are numbered by their places, `max_id` is the next number unless the channel has no paths, and
  -- all of its paths lead to bdevs of one uuid; and each `ump_bdev` lists only bdevs of its uuid.
  pub Reach-IsOrdered : {s : System} → Reach u s → IsOrdered s.world
  Reach-IsOrdered starts = record { four = refl; channels = tt; devices = tt }
  Reach-IsOrdered (goes r st) = Step-IsOrdered st (Reach-IsOrdered r)

module _ (u : Uuids) where
  Step-AllOf : {s s' : System} → Step u s s' → IsOrdered s.world → AllOf s.world → AllOf s'.world
  unfolding io_count_fn
  Step-AllOf {s} {s'} (registers env b rc w e is) o of =
      subst (λ (x : System). AllOf x.world) (sym is) (register-AllOf u env b s.world of e)
  Step-AllOf {s} {s'} (opens env i m address rc w puts at new e is) o of =
      let (ch, (_, leads, device), chs, devices, _) =
        create_cb-IsMade env m address s.world
          (All-get IsGroup s.world.ump_bdev_list i o.devices at) e in
      let more : All (IsOf s.world.ump_bdev_list) (s.world.g_ump_bdev_channels ++ (ch ∷ [])) =
        All-append (IsOf s.world.ump_bdev_list) s.world.g_ump_bdev_channels (ch ∷ []) of
          ((i, m, at, sym device, leads), tt) in
      subst (λ (x : System). AllOf x.world) (sym is)
        (subst (λ ms. All (IsOf ms) w.g_ump_bdev_channels) (sym devices)
          (subst (All (IsOf s.world.ump_bdev_list)) (sym chs) more))
  Step-AllOf {s} {s'} (closes address w puts e is) o of =
      let (left, devices) = destroy_cb-All (IsOf s.world.ump_bdev_list) address s.world of e in
      subst (λ (x : System). AllOf x.world) (sym is)
        (subst (λ ms. All (IsOf ms) w.g_ump_bdev_channels) (sym devices) left)
  Step-AllOf {s} {s'} (serves r e before ch after lane chs step is) o of =
      let ms = s.world.ump_bdev_list in
      let keeps = step-Keeps r e (lane_at s ch) step in
      let (ahead, here) = All-split (IsOf ms) before (ch ∷ after) (subst (All (IsOf ms)) chs of) in
      subst (λ (x : System). AllOf x.world) (sym is)
        (All-append (IsOf ms) before (lane.channel ∷ after) ahead
          (Mirrors-IsOf ms ch lane.channel keeps.channel here.0, here.1))
  Step-AllOf {s} {s'} (resets is) o of =
      subst (λ (x : System). AllOf x.world) (sym is)
        (map_reset-IsOf s.world.ump_bdev_list s.world.g_ump_bdev_channels of)

  Reach-AllOf : {s : System} → Reach u s → AllOf s.world
  Reach-AllOf starts = tt
  Reach-AllOf (goes r st) = Step-AllOf st (Reach-IsOrdered u r) (Reach-AllOf r)

-- A sound channel of at most four paths is ready.
IsSound-HasIds :
    (ch : Channel) (a : ℕ)
    → IsSound ch
    → length ch.iopath_list ≤ 4
    → Available ch.iopath_list a
    → HasIds ch
IsSound-HasIds ch a s four (q, at, up) = record {
  places = λ i p at_p.
      (let lt : i < length ch.iopath_list = get_elem?-lt ch.iopath_list i at_p in
        s.places i p at_p ∙ mod-eq_of_lt (omega (arith, lt, four)));
  count = elim s.next [
    | inl empty ↦ absurd (omega (arith, ap length empty, get_elem?-lt ch.iopath_list a at))
    | inr next ↦ next ∙ mod-eq_of_lt (omega (arith, four))
  ];
}

-- What a function sends goes to a bdev of the device.
abbrev pub Sends : ℕ → Effect → Type 0
Sends uuid Effect.nothing = Unit {0}
Sends uuid (Effect.submitted path io_channel bdev io) = bdev.uuid ≡ uuid
Sends uuid (Effect.completed cb success io) = Unit {0}

deref-some : {A : Type 0} (x : Option A) {a : A} → deref x ≡ ok a → x ≡ some a
deref-some none e = cc
deref-some (some y) e = ground arith

submit-Sends :
    (uuid : ℕ) (r : Reply) (lane : Lane) (io : Io) {le : Lane × Effect}
    → LeadsTo uuid lane.channel
    → submit_request r lane io ≡ ok le
    → Sends uuid le.1
unfolding submit_request
submit-Sends uuid r lane io {le} leads e = elim (Bool-cases r.alloc_ctx) [
  | inr failed ↦ let is : Effect.nothing ≡ le.1 = ground arith in subst (Sends uuid) is tt
  | inl got ↦
      let (a, _, e1) = >>=-eq-ok (find_iopath lane.channel io) _ (rw (got, submit_request) at e) in
      let (j, _, e2) = >>=-eq-ok (deref a) _ e1 in
      let (p, at, e3) = >>=-eq-ok (deref (get_elem? lane.channel.iopath_list j)) _ e2 in
      let (count, _, e4) = >>=-eq-ok (set_count (add_bytes io) p.id lane.count) _ e3 in
      let is : Effect.submitted j p.io_channel p.bdev (wrapped lane j io) ≡ le.1 = ground arith in
      subst (Sends uuid) is (leads j p (deref-some (get_elem? lane.channel.iopath_list j) at))
]

completion-Sends :
    (uuid : ℕ) (r : Reply) (lane : Lane) (io : Io) (success : Bool) (path : Option ℕ)
    (real : Callback) {le : Lane × Effect}
    → LeadsTo uuid lane.channel
    → io_completion_cb r lane io success path real ≡ ok le
    → Sends uuid le.1
unfolding io_completion_cb complete_success complete_failure
completion-Sends uuid r lane io true path real {le} leads e =
    let (i, _, e1) = >>=-eq-ok (deref path) _ e in
    let (p, _, e2) = >>=-eq-ok (deref (get_elem? lane.channel.iopath_list i)) _ e1 in
    let is : Effect.completed real true io ≡ le.1 = ground arith in subst (Sends uuid) is tt
completion-Sends uuid r lane io false path real {le} leads e =
    let (i, _, e1) = >>=-eq-ok (deref path) _ e in
    let (p, _, e2) = >>=-eq-ok (deref (get_elem? lane.channel.iopath_list i)) _ e1 in
    let (lane1, back, e3) = >>=-eq-ok (failback r i io (change_path i mark_down lane)) _ e2 in
    let down : Lane = change_path i mark_down lane in
    let mirrors : Mirrors lane.channel lane1.channel =
      Mirrors-trans lane.channel down.channel lane1.channel
        (modify-Mirrors lane.channel i mark_down (λ q. refl) (λ q. refl))
        (failback-Keeps r i io down back).channel in
    submit-Sends uuid r lane1 _ (Mirrors-LeadsTo uuid lane.channel lane1.channel mirrors leads) e3

polls-Sends :
    (uuid k : ℕ) (lane : Lane) {le : Lane × Effect}
    → LeadsTo uuid lane.channel
    → failback_io_fn k lane ≡ ok le
    → Sends uuid le.1
unfolding failback_io_fn
polls-Sends uuid k lane {le} leads e =
    let (q, _, e1) = >>=-eq-ok (deref (get_elem? lane.probers k)) _ e in
    elim (Bool-cases q.freed) [
      | inl gone ↦ absurd (ground arith)
      | inr live ↦
          let (p, at, e2) =
            >>=-eq-ok (deref (get_elem? lane.channel.iopath_list q.path)) _
              (rw (live, failback_io_fn) at e1) in
          let cb : Callback = Callback.failback lane.channel.address q.path in
          let is : Effect.submitted q.path p.io_channel p.bdev (record (q.probe) { cb = cb })
              ≡ le.1 =
            ground arith in
          subst (Sends uuid) is
            (leads q.path p (deref-some (get_elem? lane.channel.iopath_list q.path) at))
    ]

module _ (u : Uuids) where
  -- Data never goes to another device: in every system that the program gets to, every channel was
  -- made for an `ump_bdev` of the list, the one with the address of its `io_device`; all paths of the
  -- channel lead to bdevs of the uuid of that device, and whatever the channel sends, a request, an
  -- I/O that failed and is sent again, or a probe, goes to a bdev of that uuid.
  pub Reach-Sends :
      (s : System) (j : ℕ) (ch : Channel)
      → Reach u s
      → get_elem? s.world.g_ump_bdev_channels j ≡ some ch
      → (k : ℕ) × (m : UmpBdev) × (get_elem? s.world.ump_bdev_list k ≡ some m)
        × (m.address ≡ ch.io_device)
        × LeadsTo m.bdev.uuid ch
        × ((r : Reply) (io : Io) (le : Lane × Effect)
            → submit_request r (lane_at s ch) io ≡ ok le
            → Sends m.bdev.uuid le.1)
        × ((r : Reply) (io : Io) (success : Bool) (path : Option ℕ) (real : Callback)
              (le : Lane × Effect)
            → io_completion_cb r (lane_at s ch) io success path real ≡ ok le
            → Sends m.bdev.uuid le.1)
        × ((k' : ℕ) (le : Lane × Effect)
            → failback_io_fn k' (lane_at s ch) ≡ ok le
            → Sends m.bdev.uuid le.1)
  Reach-Sends s j ch r at =
      let (k, m, at_m, address, leads) =
        All-get (IsOf s.world.ump_bdev_list) s.world.g_ump_bdev_channels j (Reach-AllOf u r) at in
      (
        k,
        m,
        at_m,
        address,
        leads,
        (λ reply io le e. submit-Sends m.bdev.uuid reply (lane_at s ch) io leads e),
        (λ reply io success path real le e.
            completion-Sends m.bdev.uuid reply (lane_at s ch) io success path real leads e),
        (λ k' le e. polls-Sends m.bdev.uuid k' (lane_at s ch) leads e),
      )

  -- In every system that the program gets to, on every channel with at most four paths, one of which
  -- is available, an I/O of at least one block is handed to an available path, with its callback
  -- wrapped, if memory for its context can be had.
  pub Reach-serves :
      (s : System) (j a : ℕ) (ch : Channel) (r : Reply) (io : Io)
      → Reach u s
      → get_elem? s.world.g_ump_bdev_channels j ≡ some ch
      → length ch.iopath_list ≤ 4
      → Available ch.iopath_list a
      → io.num_blocks ≢ 0
      → r.alloc_ctx ≡ true
      → (i : ℕ) × (p : IoPath) × (lane : Lane) × (get_elem? ch.iopath_list i ≡ some p)
        × (p.available ≡ true)
        × (submit_request r (lane_at s ch) io
            ≡ ok (lane, Effect.submitted i p.io_channel p.bdev (wrapped (lane_at s ch) i io)))
  Reach-serves s j a ch r io reach at four spare ne alloc =
      let o = Reach-IsOrdered u reach in
      let sound = All-get IsSound s.world.g_ump_bdev_channels j o.channels at in
      let lane : Lane = lane_at s ch in
      let ready : IsReady lane = record {
        ids = IsSound-HasIds ch a sound four spare;
        four = o.four;
        room = four;
      } in
      elim (submit_request_lem r lane io ready ne alloc) [
        | inl (i, sent) ↦ (
          i,
          sent.path,
          record lane { count = modify lane.count i (add_bytes io) },
          sent.found,
          sent.up,
          sent.result,
        )
        | inr (down, _) ↦ let (p, at_a, up) = spare in absurd (true_apart up (down a p at_a))
      ]
