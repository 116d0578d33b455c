-- ===== src/Register/Spread.antt =====
-- sump.c `ump_bdev_add_bdev`: which channels a new path reaches.
use sump.Base.{◌≡◌, ℕ, true, false, List, [], ◌∷◌, ◌++◌, arith, ok, ◌+◌, u64}
use sump.Bdev.{Bdev, Uuids}
use sump.IoPath.{Channel, new_iopath}
use sump.World.{Env}
use sump.Register.{add_to_channels, add_iopath, has_uuid}

module _ (u : Uuids) where
  -- No channel of the list has a path to the device.
  abbrev pub Without : ℕ → List Channel → Type 0
  Without uuid [] = Unit {0}
  Without uuid (ch ∷ chs) = (has_uuid u uuid ch.iopath_list ≡ false) × Without uuid chs

  -- The new path goes to the first channel that has a path to the device, at the end of its list,
  -- available, and with the channel's next number; every channel before and after that one is left
  -- as it is, those with paths to the same device included.
  pub add_to_channels_lem :
      (env : Env) (uuid : ℕ) (b : Bdev) (before : List Channel) (ch : Channel)
      (after : List Channel)
      → Without uuid before
      → has_uuid u uuid ch.iopath_list ≡ true
      → env.alloc_path ch.max_id ≡ true
      → add_to_channels u env uuid b (before ++ (ch ∷ after))
        ≡ ok (
            before
            ++ (record ch {
              iopath_list = ch.iopath_list ++ (new_iopath (env.get_io_channel b) b ch.max_id ∷ []);
              max_id = u64 (ch.max_id + 1);
            }
                ∷ after))
  unfolding add_to_channels add_iopath
  add_to_channels_lem env uuid b [] ch after w has alloc = ground arith
  add_to_channels_lem env uuid b (c ∷ cs) ch after (out, w) has alloc =
      rw (out, add_to_channels_lem env uuid b cs ch after w has alloc)
