-- ===== src/Tests/Devices.antt =====
-- From registration to the first I/O, on concrete devices.
use sump.Base.{
  ℕ, zero, suc, ◌+◌, ◌*◌, ◌/◌, ◌≡◌, refl, true, false, List, [], ◌∷◌, ◌++◌, map, none, some, arith,
  ok, fault, Fault, get_elem?, length, pos, ltb,
}
use sump.Tests.Data.{uuids, bdev_of, good_env, path_of, two_paths, read_at, reply}
use sump.Bdev.{Bdev, Io, Callback, Uuids}
use sump.IoPath.{IoPath, Channel}
use sump.World.{World, UmpBdev, Env, start}
use sump.Register.Groups.{Succeeds, AllSucceed, bdevs, matching, register_all}
use sump.Channels.{create_cb}
use sump.DataPath.{Lane, Reply, Effect, submit_request}
use sump.Register.{spdk_bdev_register, get_ump_bdev_by_uuid, has_uuid}
use sump.Select.Hash.{AllDown}
use sump.Select.Weighted.{
  Floats, Reachable, find_iopath_random_weight_static, find_iopath_random_weight_static-Reachable,
}
use sump.DataPath.Submit.{IsReady, wrapped}
use sump.Device.{device-serves}
use sump.Device.Added.{register-serves}

-- A device with a path that is down, and the channel of one thread.
abbrev down_lane : Lane
down_lane = record {
  channel = record { address = 40; io_device = 50; iopath_list = path_of 0 false ∷ []; max_id = 1 };
  count = 0 ∷ 0 ∷ 0 ∷ 0 ∷ [];
  probers = [];
}

abbrev device : UmpBdev
device = record {
  address = 50;
  bdev = bdev_of 0 5;
  spdk_bdev_list = bdev_of 0 5 ∷ [];
  freed = false;
}

abbrev in_use : World
in_use = record start { ump_bdev_list = device ∷ []; g_ump_bdev_channels = down_lane.channel ∷ [] }

down-IsReady : IsReady down_lane
down-IsReady = record {
  ids = record { places = places; count = refl };
  four = refl;
  room = omega arith;
}
  where
    places : (i : ℕ) (p : IoPath) → get_elem? (path_of 0 false ∷ []) i ≡ some p → p.id ≡ i
    places zero p e = ground arith
    places (suc i) p e = cc

down-AllDown : AllDown down_lane.channel.iopath_list
down-AllDown zero p e = ground arith
down-AllDown (suc i) p e = cc

down-found : get_ump_bdev_by_uuid uuids 5 (device ∷ []) ≡ ok (some 0)
unfolding get_ump_bdev_by_uuid
down-found = refl

down-uuid : has_uuid uuids 5 (path_of 0 false ∷ []) ≡ true
unfolding has_uuid
down-uuid = refl

-- Numbers of thousandths, as `float`s.
abbrev thousandths : Floats ℕ
thousandths = record {
  half = 500;
  fifth = 200;
  tenth = 100;
  plus = ◌+◌;
  over = λ x n. x / n;
  of_int = λ n. 1000 * n;
  below = ltb;
}

abbrev three : List (Env × Bdev)
three =
    (good_env 1 60, bdev_of 1 5) ∷ (good_env 2 60, bdev_of 2 6) ∷ (good_env 3 60, bdev_of 3 5) ∷ []

good_env-Succeeds : (address poller : ℕ) → Succeeds (good_env address poller)
good_env-Succeeds address poller = record {
  device = refl;
  entry = refl;
  path = λ n. refl;
  registered = λ b. refl;
}

three_succeed : AllSucceed three
three_succeed = (good_env-Succeeds 1 60, (good_env-Succeeds 2 60, (good_env-Succeeds 3 60, tt)))

device-serves_example :
    let u : Uuids = uuids in
    let env : Env = good_env 4 60 in
    let bs : List (Env × Bdev) = three in
    let uuid : ℕ = 5 in
    let address : ℕ = 70 in
    let r : Reply = reply in
    let io : Io = read_at 8 in
    (w w' : World) × (m : UmpBdev) × (ch : Channel) × (lane : Lane) × (b : Bdev) × (k i j : ℕ)
    × (register_all u bs start ≡ ok (map (λ b. pos 0) bs, w))
    × (get_elem? w.ump_bdev_list k ≡ some m)
    × (m.bdev.uuid ≡ uuid)
    × (create_cb env m address w ≡ ok (pos 0, w', []))
    × (w'.g_ump_bdev_channels ≡ w.g_ump_bdev_channels ++ (ch ∷ []))
    × (submit_request r (record { channel = ch; count = w'.count; probers = [] }) io
        ≡ ok (
          lane,
          Effect.submitted i
              (env.get_io_channel b)
              b
              (record io { cb = Callback.ump address (some i) io.cb }),
        ))
    × (get_elem? (matching u uuid (bdevs bs)) j ≡ some b)
unfolding matching
device-serves_example =
    device-serves (uuids) (good_env 4 60) three (5) (70) (reply) (read_at 8) three_succeed
      (λ n. refl) (λ b e. cc) (omega arith) (omega arith) (λ z. omega (arith, z)) (refl)

register-serves_example :
    let u : Uuids = uuids in
    let env : Env = good_env 1 2 in
    let b : Bdev = bdev_of 2 5 in
    let w : World = in_use in
    let k : ℕ = 0 in
    let m : UmpBdev = device in
    let before : List Channel = [] in
    let after : List Channel = [] in
    let lane : Lane = down_lane in
    let r : Reply = reply in
    let io : Io = read_at 8 in
    (w' : World) × (ch' : Channel) × (lane' : Lane) × (submit_request r lane io
      ≡ fault Fault.null_deref)
    × (spdk_bdev_register u env b w ≡ ok (pos 0, w'))
    × (get_elem? w'.g_ump_bdev_channels (length before) ≡ some ch')
    × (submit_request r (record lane { channel = ch' }) io
        ≡ ok (
          lane',
          Effect.submitted
              (length lane.channel.iopath_list)
              (env.get_io_channel b)
              b
              (wrapped lane (length lane.channel.iopath_list) io),
        ))
register-serves_example =
    register-serves (uuids) (good_env 1 2) (bdev_of 2 5) (in_use) (0) (device) ([]) ([]) (down_lane)
      (reply) (read_at 8) (refl) (down-found) (refl) (refl) (tt) (down-uuid) (refl) (refl)
      (down-IsReady) (omega arith) (down-AllDown) (λ z. omega (arith, z)) (refl)

find_iopath_random_weight_static-Reachable_example :
    let F : Type 0 = ℕ in
    let c : Floats F = thousandths in
    let rs : List ℕ = 3 ∷ 5 ∷ [] in
    let ch : Channel = two_paths true in
    ((i : ℕ) → find_iopath_random_weight_static c rs ch ≡ ok (some i) → Reachable ch.iopath_list i)
    × (AllDown ch.iopath_list → find_iopath_random_weight_static c rs ch ≡ ok none)
find_iopath_random_weight_static-Reachable_example =
    find_iopath_random_weight_static-Reachable {F = ℕ} (thousandths) (3 ∷ 5 ∷ []) (two_paths true)
      (omega arith) (omega arith)
