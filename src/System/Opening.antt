-- ===== src/System/Opening.antt =====
-- sump_ctrl.c: the creation and destruction of a channel, and the reset of the delays, keep every
-- channel sound.
use sump.Base.{
  ℕ, ◌+◌, ◌≡◌, inl, inr, refl, sym, ap, subst, ◌∙◌, true, List, [], ◌∷◌, ◌++◌, some, ℤ, pos, negsuc,
  arith, length, length-append, u64, All, All-append, Outcome, ok, fault, ◌>>=◌, >>=-eq-ok,
  Bool-cases, Option-cases, ◌==◌,
}
use sump.Bdev.{Bdev}
use sump.IoPath.{Channel, new_iopath}
use sump.World.{World, UmpBdev, Env}
use sump.Channels.{
  Puts, Created, done, no_memory, create_loop, create_cb, set_count, clear_all_iopath,
  remove_channel, destroy_cb, io_count_fn,
}
use sump.System.Sound.{IsSound, LeadsTo, extend-IsSound, map_reset-IsSound}
use sump.System.Io.{set_count-length}
use sump.System.Registry.{HasUuid, IsGroup, IsOrdered}

-- A channel that is being created, for a device.
record IsGrowing (uuid : ℕ) (ch : Channel) : Type 0 where
  sound : IsSound ch
  one : sound.uuid ≡ uuid
  counted : ch.max_id ≡ u64 (length ch.iopath_list)

-- A channel that is created, or fails to be, is sound and leads to the device, and `count` keeps its
-- size.
abbrev IsMade : (uuid device : ℕ) → Channel → Type 0
IsMade uuid device ch = IsSound ch × LeadsTo uuid ch × (ch.io_device ≡ device)

abbrev IsCreated : (uuid device n : ℕ) → Created → Type 0
IsCreated uuid device n (done ch count) = IsMade uuid device ch × (length count ≡ n)
IsCreated uuid device n (no_memory ch count puts) = IsMade uuid device ch × (length count ≡ n)

cleared-IsSound : (ch : Channel) → IsSound (record ch { iopath_list = [] })
cleared-IsSound ch = record {
  places = λ i p at. cc;
  next = inl refl;
  uuid = 0;
  device = λ i p at. cc;
}

create_loop-IsCreated :
    (env : Env) (uuid : ℕ) (bs : List Bdev) (ch : Channel) (count : List ℕ) {c : Created}
    → IsGrowing uuid ch
    → HasUuid uuid bs
    → create_loop env bs ch count ≡ ok c
    → IsCreated uuid ch.io_device (length count) c
unfolding create_loop
create_loop-IsCreated env uuid [] ch count {c} g h e =
    let is : done ch count ≡ c = ground arith in
    subst (IsCreated uuid ch.io_device (length count)) is
      ((g.sound, (λ i p at. g.sound.device i p at ∙ g.one), refl), refl)
create_loop-IsCreated env uuid (b ∷ bs) ch count {c} g (same, h) e =
    elim (Option-cases (env.get_io_channel b)) [
      | inl gone ↦ create_loop-IsCreated env uuid bs ch count g h (ground arith)
      | inr (io, got) ↦ elim (Bool-cases (env.alloc_path ch.max_id)) [
        | inr out ↦
            let is : no_memory (record ch { iopath_list = [] }) count
                  (some io ∷ clear_all_iopath ch.iopath_list)
                ≡ c =
              ground arith in
            subst (IsCreated uuid ch.io_device (length count)) is
              ((cleared-IsSound ch, (λ i p at. cc), refl), refl)
        | inl alloc ↦
            let counted : (set_count (λ n. 0) ch.max_id count >>= λ count'.
            create_loop env bs (extended io) count')
                ≡ ok c =
              by_count io got alloc (set_count (λ n. 0) ch.max_id count) refl in
            let (count', set, e1) = >>=-eq-ok (set_count (λ n. 0) ch.max_id count) _ counted in
            let (sound, one) = extend-IsSound ch (some io) b g.sound g.counted (same ∙ sym g.one) in
            let grown : IsGrowing uuid (extended io) = record {
              sound = sound;
              one = one ∙ g.one;
              counted = omega (
                arith,
                g.counted,
                length-append ch.iopath_list (new_iopath (some io) b ch.max_id ∷ []),
              );
            } in
            subst (λ n. IsCreated uuid ch.io_device n c)
              (set_count-length (λ n. 0) ch.max_id count set)
              (create_loop-IsCreated env uuid bs (extended io) count' grown h e1)
      ]
    ]
  where
    extended : ℕ → Channel
    extended io = record ch {
      iopath_list = ch.iopath_list ++ (new_iopath (some io) b ch.max_id ∷ []);
      max_id = u64 (ch.max_id + 1);
    }

    by_count :
        (io : ℕ)
        → env.get_io_channel b ≡ some io
        → env.alloc_path ch.max_id ≡ true
        → (o : Outcome (List ℕ)) → set_count (λ n. 0) ch.max_id count ≡ o
        → (o >>= λ count'. create_loop env bs (extended io) count') ≡ ok c
    by_count io got alloc (ok count') e' = ground arith
    by_count io got alloc (fault f) e' = absurd (ground arith)

-- `create_cb` puts a new channel of the device in the list, also when it fails.
pub create_cb-IsMade :
    (env : Env) (m : UmpBdev) (address : ℕ) (w : World) {rc : ℤ} {w' : World} {puts : Puts}
    → IsGroup m
    → create_cb env m address w ≡ ok (rc, w', puts)
    → (ch : Channel) × IsMade m.bdev.uuid m.address ch
      × (w'.g_ump_bdev_channels ≡ w.g_ump_bdev_channels ++ (ch ∷ []))
      × (w'.ump_bdev_list ≡ w.ump_bdev_list)
      × (length w'.count ≡ length w.count)
unfolding create_cb
create_cb-IsMade env m address w {rc} {w'} {puts} g e =
    let fresh : Channel = record {
      address = address;
      io_device = m.address;
      iopath_list = [];
      max_id = 0;
    } in
    let new : IsGrowing m.bdev.uuid fresh = record {
      sound = record {
        places = λ i p at. cc;
        next = inl refl;
        uuid = m.bdev.uuid;
        device = λ i p at. cc;
      };
      one = refl;
      counted = omega arith;
    } in
    let (c, e1, e2) = >>=-eq-ok (create_loop env m.spdk_bdev_list fresh w.count) _ e in
    by_end c (create_loop-IsCreated env m.bdev.uuid m.spdk_bdev_list fresh w.count new g e1) e2
  where
    polled : World
    polled = record w {
      io_count_poller = some env.poller;
      pollers = w.pollers ++ (env.poller ∷ []);
    }

    listed : Channel → List ℕ → World
    listed ch count = record polled {
      count = count;
      g_ump_bdev_channels = w.g_ump_bdev_channels ++ (ch ∷ []);
    }

    Made : World → Type 0
    Made x =
        (ch : Channel) × IsMade m.bdev.uuid m.address ch
        × (x.g_ump_bdev_channels ≡ w.g_ump_bdev_channels ++ (ch ∷ []))
        × (x.ump_bdev_list ≡ w.ump_bdev_list)
        × (length x.count ≡ length w.count)

    by_end :
        (c : Created)
        → IsCreated m.bdev.uuid m.address (length w.count) c
        → (let result : Outcome (ℤ × World × Puts) = elim c [
          | done ch count ↦ ok (pos 0, listed ch count, [])
          | no_memory ch count puts ↦ ok (negsuc 0, listed ch count, puts)
        ] in
            result)
          ≡ ok (rc, w', puts)
        → Made w'
    by_end (done ch count) (s, size) e' =
        let is : listed ch count ≡ w' = ground arith in subst Made is (ch, s, refl, refl, size)
    by_end (no_memory ch count back) (s, size) e' =
        let is : listed ch count ≡ w' = ground arith in subst Made is (ch, s, refl, refl, size)

pub create-IsOrdered :
    (env : Env) (m : UmpBdev) (address : ℕ) (w : World) {rc : ℤ} {w' : World} {puts : Puts}
    → IsOrdered w
    → IsGroup m
    → create_cb env m address w ≡ ok (rc, w', puts)
    → IsOrdered w'
create-IsOrdered env m address w {rc} {w'} {puts} o g e =
    let (ch, (sound, _, _), chs, devices, size) = create_cb-IsMade env m address w g e in
    record {
      four = size ∙ o.four;
      channels =
          subst (All IsSound) (sym chs)
            (All-append IsSound w.g_ump_bdev_channels (ch ∷ []) o.channels (sound, tt));
      devices = subst (All IsGroup) (sym devices) o.devices;
    }

remove_channel-All :
    (P : Channel → Type 0) (address : ℕ) (chs : List Channel) {r : Channel × List Channel}
    → All P chs
    → remove_channel address chs ≡ ok r
    → All P r.1
unfolding remove_channel
remove_channel-All P address [] s e = cc
remove_channel-All P address (ch ∷ chs) {r} (s, rest) e =
    elim (Bool-cases (ch.address == address)) [
      | inl here ↦ let is : chs ≡ r.1 = ground arith in subst (All P) is rest
      | inr away ↦
          let (r', e1, e2) =
            >>=-eq-ok (remove_channel address chs) _ (rw (away, remove_channel) at e) in
          let is : ch ∷ r'.1 ≡ r.1 = ground arith in
          subst (All P) is (s, remove_channel-All P address chs rest e1)
    ]

pub destroy-IsOrdered :
    (address : ℕ) (w : World) {w' : World} {puts : Puts}
    → IsOrdered w
    → destroy_cb address w ≡ ok (w', puts)
    → IsOrdered w'
unfolding destroy_cb
destroy-IsOrdered address w {w'} {puts} o e =
    let (r, e1, e2) = >>=-eq-ok (remove_channel address w.g_ump_bdev_channels) _ e in
    let counts : w.count ≡ w'.count = ground arith in
    let listed : r.1 ≡ w'.g_ump_bdev_channels = ground arith in
    let devices : w.ump_bdev_list ≡ w'.ump_bdev_list = ground arith in
    record {
      four = ap length (sym counts) ∙ o.four;
      channels =
          subst (All IsSound) listed
            (remove_channel-All IsSound address w.g_ump_bdev_channels o.channels e1);
      devices = subst (All IsGroup) devices o.devices;
    }

-- The channels that are left, and the devices.
pub destroy_cb-All :
    (P : Channel → Type 0) (address : ℕ) (w : World) {w' : World} {puts : Puts}
    → All P w.g_ump_bdev_channels
    → destroy_cb address w ≡ ok (w', puts)
    → All P w'.g_ump_bdev_channels × (w'.ump_bdev_list ≡ w.ump_bdev_list)
unfolding destroy_cb
destroy_cb-All P address w {w'} {puts} s e =
    let (r, e1, e2) = >>=-eq-ok (remove_channel address w.g_ump_bdev_channels) _ e in
    let listed : r.1 ≡ w'.g_ump_bdev_channels = ground arith in
    (subst (All P) listed (remove_channel-All P address w.g_ump_bdev_channels s e1), ground arith)

pub reset-IsOrdered : (w : World) → IsOrdered w → IsOrdered (io_count_fn w)
unfolding io_count_fn
reset-IsOrdered w o = record {
  four = o.four;
  channels = map_reset-IsSound w.g_ump_bdev_channels o.channels;
  devices = o.devices;
}
