-- ===== src/Tests/Registry.antt =====
-- Registration and channels, on concrete devices.
use sump.Base.{
  ℕ, ◌+◌, ◌≤◌, ◌≡◌, refl, true, false, List, [], ◌∷◌, ◌++◌, map, arith, ok, fault, Fault, u64, ℤ,
  pos, negsuc, is_zero,
}
use sump.Tests.Data.{uuids, bdev_of, good_env, two_paths}
use sump.Bdev.{Bdev, Uuids}
use sump.IoPath.{Channel, new_iopath}
use sump.World.{World, UmpBdev, Env, start}
use sump.Register.{has_uuid, add_to_channels, spdk_bdev_register}
use sump.Register.Groups.{
  Succeeds, AllSucceed, AllLive, bdevs, paths_of, devices, matching, register_all,
  register_all-start,
}
use sump.Register.Failure.{absent, register_refused}
use sump.Register.Spread.{add_to_channels_lem}
use sump.Channels.{create_cb, destroy_cb}
use sump.Channels.Create.{got_channels, create_cb_overflows}
use sump.Channels.Loop.{new_paths}
use sump.Channels.Destroy.{destroy-create, destroy-create_twice}

-- The real registration fails.
abbrev bad_env : Env
bad_env = record (good_env 1 2) { real_register = λ b. negsuc 21 }

abbrev device_of : List Bdev → UmpBdev
device_of bs = record { address = 50; bdev = bdev_of 0 5; spdk_bdev_list = bs; freed = false }

abbrev two_bdevs : List Bdev
two_bdevs = bdev_of 1 5 ∷ bdev_of 2 5 ∷ []

abbrev five_bdevs : List Bdev
five_bdevs = bdev_of 1 5 ∷ bdev_of 2 5 ∷ bdev_of 3 5 ∷ bdev_of 4 5 ∷ bdev_of 6 5 ∷ []

abbrev three : List (Env × Bdev)
three =
    (good_env 1 60, bdev_of 1 5) ∷ (good_env 2 60, bdev_of 2 6) ∷ (good_env 3 60, bdev_of 3 5) ∷ []

good_env-Succeeds : (address poller : ℕ) → Succeeds (good_env address poller)
good_env-Succeeds address poller = record {
  device = refl;
  entry = refl;
  path = λ n. refl;
  registered = λ b. refl;
}

three_succeed : AllSucceed three
three_succeed = (good_env-Succeeds 1 60, (good_env-Succeeds 2 60, (good_env-Succeeds 3 60, tt)))

register_all-start_example :
    let u : Uuids = uuids in
    let bs : List (Env × Bdev) = three in
    (w : World) × (register_all u bs start ≡ ok (map (λ b. pos 0) bs, w))
    × AllLive w.ump_bdev_list
    × ((uuid : ℕ) → devices u uuid w.ump_bdev_list ≤ 1)
    × ((uuid : ℕ) → paths_of u uuid w.ump_bdev_list ≡ matching u uuid (bdevs bs))
register_all-start_example = register_all-start (uuids) three three_succeed

register_refused_example :
    let u : Uuids = uuids in
    let env : Env = bad_env in
    let env' : Env = good_env 3 4 in
    let b : Bdev = bdev_of 1 5 in
    let b' : Bdev = bdev_of 1 5 in
    let w : World = start in
    (rc : ℤ) × (w' : World) × (spdk_bdev_register u env b w ≡ ok (rc, w'))
    × (is_zero rc ≡ false)
    × (spdk_bdev_register u env' b' w' ≡ fault Fault.use_after_free)
unfolding absent
register_refused_example =
    register_refused (uuids) (bad_env) (good_env 3 4) (bdev_of 1 5) (bdev_of 1 5) (start) (refl)
      (tt) (refl) (refl) (refl) (refl) (λ c. refl)

add_to_channels_lem_example :
    let u : Uuids = uuids in
    let env : Env = good_env 1 2 in
    let uuid : ℕ = 5 in
    let b : Bdev = bdev_of 9 5 in
    let before : List Channel = [] in
    let ch : Channel = two_paths true in
    let after : List Channel = two_paths true ∷ [] in
    add_to_channels u env uuid b (before ++ (ch ∷ after))
    ≡ ok (
        before
        ++ (record ch {
          iopath_list = ch.iopath_list ++ (new_iopath (env.get_io_channel b) b ch.max_id ∷ []);
          max_id = u64 (ch.max_id + 1);
        }
            ∷ after))
unfolding has_uuid
add_to_channels_lem_example =
    add_to_channels_lem (uuids) (good_env 1 2) (5) (bdev_of 9 5) ([]) (two_paths true)
      (two_paths true ∷ []) (tt) (refl) (refl)

create_cb_overflows_example :
    let env : Env = good_env 1 2 in
    let mbdev : UmpBdev = device_of five_bdevs in
    let address : ℕ = 40 in
    let w : World = start in create_cb env mbdev address w ≡ fault Fault.out_of_bounds
unfolding new_paths
create_cb_overflows_example =
    create_cb_overflows (good_env 1 2) (device_of five_bdevs) (40) (start) (λ n. refl) (refl)
      (omega arith)

destroy-create_example :
    let env : Env = good_env 1 2 in
    let mbdev : UmpBdev = device_of two_bdevs in
    let address : ℕ = 40 in
    let w : World = start in
    (w' : World) × (w'' : World) × (create_cb env mbdev address w ≡ ok (pos 0, w', []))
    × (destroy_cb address w' ≡ ok (w'', got_channels env mbdev.spdk_bdev_list))
    × (w''.g_ump_bdev_channels ≡ w.g_ump_bdev_channels)
    × (w''.pollers ≡ w.pollers)
unfolding new_paths
destroy-create_example =
    destroy-create (good_env 1 2) (device_of two_bdevs) (40) (start) (λ n. refl) (refl)
      (omega arith) (tt) (tt)

destroy-create_twice_example :
    let env : Env = good_env 1 2 in
    let env' : Env = good_env 1 3 in
    let mbdev : UmpBdev = device_of two_bdevs in
    let mbdev' : UmpBdev = device_of two_bdevs in
    let a : ℕ = 40 in
    let a' : ℕ = 41 in
    let w : World = start in
    (w1 w2 w3 w4 : World) × (create_cb env mbdev a w ≡ ok (pos 0, w1, []))
    × (create_cb env' mbdev' a' w1 ≡ ok (pos 0, w2, []))
    × (destroy_cb a w2 ≡ ok (w3, got_channels env mbdev.spdk_bdev_list))
    × (destroy_cb a' w3 ≡ ok (w4, got_channels env' mbdev'.spdk_bdev_list))
    × (w4.g_ump_bdev_channels ≡ w.g_ump_bdev_channels)
    × (w4.pollers ≡ w.pollers ++ (env.poller ∷ []))
unfolding new_paths
destroy-create_twice_example =
    destroy-create_twice (good_env 1 2) (good_env 1 3) (device_of two_bdevs) (device_of two_bdevs)
      (40) (41) (start) (λ n. refl) (λ n. refl) (refl) (omega arith) (omega arith) (tt) (tt) (tt)
      (omega arith)
