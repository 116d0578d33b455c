-- ===== src/Tests/Systems.antt =====
-- The system from its start to the first I/O, and to a channel that is destroyed too early.
use sump.Base.{
  ℕ, ◌≡◌, refl, Bool, true, false, [], ◌∷◌, Option, some, arith, Outcome, ok, fault, get_elem?, ℤ,
  pos,
}
use sump.Tests.Data.{uuids, bdev_of, good_env, read_at, reply}
use sump.Bdev.{Io, Callback, Uuids}
use sump.IoPath.{IoPath, Channel, new_iopath}
use sump.World.{World, UmpBdev, start}
use sump.Register.{
  spdk_bdev_register, register_found, get_ump_bdev_by_uuid, construct, new_ump_bdev,
  copy_attributes, add_bdev, add_to_channels, has_uuid,
}
use sump.Channels.{Puts, create_cb, create_loop, set_count}
use sump.DataPath.{Lane, Reply, Effect, submit_request, io_completion_cb, failback_io_fn}
use sump.DataPath.Submit.{wrapped}
use sump.System.{System, Reach, boot, lane_at, starts, goes, registers, opens}
use sump.System.Registry.{IsOrdered}
use sump.System.Sound.{LeadsTo}
use sump.System.Reachable.{Sends, Reach-Sends, Reach-IsOrdered, Reach-serves}

abbrev world_of : Outcome (ℤ × World) → World
world_of (ok (rc, w)) = w
world_of (fault f) = start

abbrev with_one : World
unfolding spdk_bdev_register register_found get_ump_bdev_by_uuid construct new_ump_bdev
    copy_attributes add_bdev add_to_channels has_uuid create_cb create_loop set_count new_iopath
with_one = world_of (spdk_bdev_register uuids (good_env 1 60) (bdev_of 1 5) start)

abbrev with_two : World
unfolding spdk_bdev_register register_found get_ump_bdev_by_uuid construct new_ump_bdev
    copy_attributes add_bdev add_to_channels has_uuid create_cb create_loop set_count new_iopath
with_two = world_of (spdk_bdev_register uuids (good_env 2 60) (bdev_of 2 5) with_one)

abbrev device_of_two : UmpBdev
unfolding spdk_bdev_register register_found get_ump_bdev_by_uuid construct new_ump_bdev
    copy_attributes add_bdev add_to_channels has_uuid create_cb create_loop set_count new_iopath
device_of_two = new_ump_bdev 1 (bdev_of 1 5) false

abbrev shared : UmpBdev
shared = record device_of_two { spdk_bdev_list = bdev_of 1 5 ∷ bdev_of 2 5 ∷ [] }

abbrev after_create : Outcome (ℤ × World × Puts) → World
after_create (ok (rc, w, puts)) = w
after_create (fault f) = start

abbrev opened : World
unfolding spdk_bdev_register register_found get_ump_bdev_by_uuid construct new_ump_bdev
    copy_attributes add_bdev add_to_channels has_uuid create_cb create_loop set_count new_iopath
opened = after_create (create_cb (good_env 3 60) shared 70 with_two)

abbrev new_channel : Channel
new_channel = record {
  address = 70;
  io_device = 1;
  iopath_list = new_iopath (some 1) (bdev_of 1 5) 0 ∷ new_iopath (some 2) (bdev_of 2 5) 1 ∷ [];
  max_id = 2;
}

abbrev in_service : System
in_service = record boot { world = opened }

is_there : get_elem? opened.g_ump_bdev_channels 0 ≡ some new_channel
unfolding spdk_bdev_register register_found get_ump_bdev_by_uuid construct new_ump_bdev
    copy_attributes add_bdev add_to_channels has_uuid create_cb create_loop set_count new_iopath
is_there = refl

only_one : opened.g_ump_bdev_channels ≡ new_channel ∷ []
unfolding spdk_bdev_register register_found get_ump_bdev_by_uuid construct new_ump_bdev
    copy_attributes add_bdev add_to_channels has_uuid create_cb create_loop set_count new_iopath
only_one = refl

-- Two bdevs of one uuid are registered, and a thread uses the device.
in_service-Reach : Reach uuids in_service
unfolding spdk_bdev_register register_found get_ump_bdev_by_uuid construct new_ump_bdev
    copy_attributes add_bdev add_to_channels has_uuid create_cb create_loop set_count new_iopath
in_service-Reach =
    goes
      (goes (goes starts (registers (good_env 1 60) (bdev_of 1 5) (pos 0) with_one refl refl))
        (registers (good_env 2 60) (bdev_of 2 5) (pos 0) with_two refl refl))
      (opens (good_env 3 60) 0 shared 70 (pos 0) opened [] refl tt refl refl)

Reach-IsOrdered_example : IsOrdered opened
Reach-IsOrdered_example = Reach-IsOrdered uuids in_service-Reach

Reach-Sends_example :
    let u : Uuids = uuids in
    let s : System = in_service in
    let j : ℕ = 0 in
    let ch : Channel = new_channel in
    (k : ℕ) × (m : UmpBdev) × (get_elem? s.world.ump_bdev_list k ≡ some m)
    × (m.address ≡ ch.io_device)
    × LeadsTo m.bdev.uuid ch
    × ((r : Reply) (io : Io) (le : Lane × Effect)
        → submit_request r (lane_at s ch) io ≡ ok le
        → Sends m.bdev.uuid le.1)
    × ((r : Reply) (io : Io) (success : Bool) (path : Option ℕ) (real : Callback)
          (le : Lane × Effect)
        → io_completion_cb r (lane_at s ch) io success path real ≡ ok le
        → Sends m.bdev.uuid le.1)
    × ((k' : ℕ) (le : Lane × Effect)
        → failback_io_fn k' (lane_at s ch) ≡ ok le
        → Sends m.bdev.uuid le.1)
Reach-Sends_example =
    Reach-Sends (uuids) (in_service) (0) (new_channel) (in_service-Reach) (is_there)

Reach-serves_example :
    let u : Uuids = uuids in
    let s : System = in_service in
    let j : ℕ = 0 in
    let a : ℕ = 1 in
    let ch : Channel = new_channel in
    let r : Reply = reply in
    let io : Io = read_at 8 in
    (i : ℕ) × (p : IoPath) × (lane : Lane) × (get_elem? ch.iopath_list i ≡ some p)
    × (p.available ≡ true)
    × (submit_request r (lane_at s ch) io
        ≡ ok (lane, Effect.submitted i p.io_channel p.bdev (wrapped (lane_at s ch) i io)))
unfolding new_iopath
Reach-serves_example =
    Reach-serves (uuids) (in_service) (0) (1) (new_channel) (reply) (read_at 8) (in_service-Reach)
      (is_there) (omega arith) (new_iopath (some 2) (bdev_of 2 5) 1, refl, refl) (omega arith)
      (refl)
