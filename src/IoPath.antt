-- ===== src/IoPath.antt =====
-- sump.h `struct ump_bdev_iopath` and `struct ump_bdev_channel`.
use sump.Base.{ℕ, Bool, true, false, List, Option, none}
use sump.Bdev.{Bdev}
use sump.TimeQueue
use sump.TimeQueue.{TimeQueue}

-- `struct ump_bdev_iopath`; `io_channel` and `reconnect_poller` are pointers, `none` for NULL.
pub record IoPath : Type 0 where
  pub io_channel : Option ℕ
  pub bdev : Bdev
  pub available : Bool
  pub reconnecting : Bool
  pub reconnect_poller : Option ℕ
  pub io_read_time : TimeQueue
  pub io_write_time : TimeQueue
  pub id : ℕ
  pub io_incomplete : ℕ

-- `struct ump_bdev_channel`. `address` is where it lies, which is its identity; `io_device` the
-- address of its `struct ump_bdev`. The fields that pad it to `nvme_bdev_channel` are never used.
pub record Channel : Type 0 where
  pub address : ℕ
  pub io_device : ℕ
  pub iopath_list : List IoPath
  pub max_id : ℕ

-- The assignments that follow each `calloc` of a path; what they leave out is zero.
unfoldable pub new_iopath : Option ℕ → Bdev → ℕ → IoPath
new_iopath io_channel bdev id = record {
  io_channel = io_channel;
  bdev = bdev;
  available = true;
  reconnecting = false;
  reconnect_poller = none;
  io_read_time = TimeQueue.init;
  io_write_time = TimeQueue.init;
  id = id;
  io_incomplete = 0;
}
