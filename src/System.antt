-- ===== src/System.antt =====
-- sump as a whole: sump.c, sump_ctrl.c and sump_data.c as the steps of one system, which spdk's
-- calls, completions and pollers bring about in any order.
pub mod Sound
pub mod Io
pub mod Registry
pub mod Opening
pub mod Devices
pub mod Reachable
use sump.Base.{
  ℕ, ◌≡◌, Bool, true, false, List, [], ◌∷◌, ◌++◌, Option, none, some, ℤ, get_elem?, if◌then◌else◌,
  ◌==◌, Outcome, ok, fault, Fault,
}
use sump.Bdev.{Bdev, Uuids}
use sump.IoPath.{Channel}
use sump.World.{World, UmpBdev, Env}
use sump.World
use sump.Register.{spdk_bdev_register}
use sump.Channels.{Puts, create_cb, destroy_cb, io_count_fn}
use sump.Channels.Destroy.{NotAt}
use sump.DataPath.{Lane, Reply, Prober}
use sump.DataPath.Events
use sump.DataPath.Events.{Event}

-- The globals, and the probers of each channel by its address.
pub record System : Type 0 where
  pub world : World
  pub probers : ℕ → List Prober

-- The program when it starts.
abbrev pub boot : System
boot = record { world = World.start; probers = λ address. [] }

-- What the I/O of one channel works on.
abbrev pub lane_at : System → Channel → Lane
lane_at s ch = record { channel = ch; count = s.world.count; probers = s.probers ch.address }

abbrev pub put_at : ℕ → List Prober → (ℕ → List Prober) → ℕ → List Prober
put_at address qs probers a = if a == address then qs else probers a

-- What an event on a channel leaves, where `before` and `after` are the other channels.
abbrev pub put_lane : System → List Channel → Lane → List Channel → System
put_lane s before lane after = record s {
  world = record (s.world) {
    count = lane.count;
    g_ump_bdev_channels = before ++ (lane.channel ∷ after);
  };
  probers = put_at lane.channel.address lane.probers s.probers;
}

-- One step of the system that runs into no fault: a bdev is registered; spdk creates a channel of a
-- device of the list, at an address where no channel is, or destroys one; an event on a channel; the
-- poller of `ump_io_count_fn` runs. `ump_bdev_channel_destroy_cb` frees the paths and leaves the
-- pollers of their probers registered: a run of one of them reads freed memory, and is no step here.
pub data Step (u : Uuids) (s s' : System) : Type 0 where
  registers :
      (env : Env) (b : Bdev) (rc : ℤ) (w : World)
      → spdk_bdev_register u env b s.world ≡ ok (rc, w)
      → s' ≡ record s { world = w }
      → Step u s s'
  opens :
      (env : Env) (i : ℕ) (m : UmpBdev) (address : ℕ) (rc : ℤ) (w : World) (puts : Puts)
      → get_elem? s.world.ump_bdev_list i ≡ some m
      → NotAt address s.world.g_ump_bdev_channels
      → create_cb env m address s.world ≡ ok (rc, w, puts)
      → s' ≡ record s { world = w }
      → Step u s s'
  closes :
      (address : ℕ) (w : World) (puts : Puts)
      → destroy_cb address s.world ≡ ok (w, puts)
      → s' ≡ record s { world = w; probers = put_at address [] s.probers }
      → Step u s s'
  serves :
      (r : Reply) (e : Event) (before : List Channel) (ch : Channel) (after : List Channel)
      (lane : Lane)
      → s.world.g_ump_bdev_channels ≡ before ++ (ch ∷ after)
      → Events.step r e (lane_at s ch) ≡ ok lane
      → s' ≡ put_lane s before lane after
      → Step u s s'
  resets : s' ≡ record s { world = io_count_fn s.world } → Step u s s'

-- The systems that the program can get to.
pub data Reach (u : Uuids) : System → Type 0 where
  starts : Reach u boot
  goes : {s s' : System} → Reach u s → Step u s s' → Reach u s'
