-- ===== src/Tests/Data.antt =====
-- Devices, channels and I/O for the tests.
use sump.Base.{
  ℕ, zero, suc, ◌+◌, ◌≡◌, ◌<◌, refl, Bool, true, false, List, [], ◌∷◌, none, some, arith, get_elem?,
  ◌==◌, ==_iff, pos, length,
}
use sump.Bdev.{Bdev, FnTable, Io, IoType, Callback, Uuids}
use sump.IoPath.{IoPath, Channel}
use sump.World.{Env}
use sump.Select.Hash.{Available, HasIds}
use sump.DataPath.{Lane, Reply}

-- Uuids that are numbers.
abbrev pub uuids : Uuids
uuids = record { same = ◌==◌; same_iff = ==_iff }

abbrev pub bdev_of : (ctxt uuid : ℕ) → Bdev
bdev_of ctxt uuid = record {
  ctxt = ctxt;
  fn_table = FnTable.module_fn_table 1;
  product_name = 7;
  write_cache = 0;
  blocklen = 512;
  blockcnt = 1024;
  write_unit_size = 1;
  acwu = 0;
  required_alignment = 0;
  split_on_optimal_io_boundary = false;
  optimal_io_boundary = 0;
  uuid = uuid;
  md_len = 0;
  md_interleave = false;
  dif_type = 0;
  dif_is_head_of_md = false;
  dif_check_flags = 0;
  zoned = false;
  zone_size = 0;
  max_open_zones = 0;
  optimal_open_zones = 0;
  media_events = false;
}

-- Every call succeeds.
abbrev pub good_env : (address poller : ℕ) → Env
good_env address poller = record {
  dlsym = true;
  alloc_device = true;
  alloc_entry = true;
  address = address;
  alloc_path = λ n. true;
  real_register = λ b. pos 0;
  get_io_channel = λ b. some b.ctxt;
  poller = poller;
}

abbrev pub path_of : ℕ → Bool → IoPath
path_of id up = record {
  io_channel = some (100 + id);
  bdev = bdev_of id 5;
  available = up;
  reconnecting = false;
  reconnect_poller = none;
  io_read_time = sump.TimeQueue.init;
  io_write_time = sump.TimeQueue.init;
  id = id;
  io_incomplete = 0;
}

-- Two paths, the second one as given.
abbrev pub two_paths : Bool → Channel
two_paths up = record {
  address = 40;
  io_device = 50;
  iopath_list = path_of 0 true ∷ path_of 1 up ∷ [];
  max_id = 2;
}

pub two_paths-HasIds : (up : Bool) → HasIds (two_paths up)
two_paths-HasIds up = record { places = places; count = refl }
  where
    places :
        (i : ℕ) (p : IoPath) → get_elem? (path_of 0 true ∷ path_of 1 up ∷ []) i ≡ some p → p.id ≡ i
    places zero p e = ground arith
    places (suc zero) p e = ground arith
    places (suc (suc i)) p e = cc

pub two_paths-Available :
    (i : ℕ) → i < length (two_paths true).iopath_list → Available (two_paths true).iopath_list i
two_paths-Available zero l = (path_of 0 true, refl, refl)
two_paths-Available (suc zero) l = (path_of 1 true, refl, refl)
two_paths-Available (suc (suc i)) l = absurd (omega arith)

abbrev pub read_at : (offset : ℕ) → Io
read_at offset = record {
  io_type = IoType.read;
  io_bdev = bdev_of 9 5;
  offset_blocks = offset;
  num_blocks = 8;
  submit_tsc = 10;
  cb = Callback.caller 3;
}

abbrev pub reply : Reply
reply = record {
  alloc_ctx = true;
  alloc_time = true;
  alloc_failback = true;
  ticks = 25;
  poller = 60;
}

abbrev pub lane_of : Bool → Lane
lane_of up = record { channel = two_paths up; count = 0 ∷ 0 ∷ 0 ∷ 0 ∷ []; probers = [] }

-- A channel whose second path is marked as being reconnected, up or down.
abbrev pub marked_lane : (up : Bool) (count : List ℕ) → Lane
marked_lane up count = record {
  channel = record {
    address = 40;
    io_device = 50;
    iopath_list = path_of 0 true ∷ record (path_of 1 up) { reconnecting = true } ∷ [];
    max_id = 2;
  };
  count = count;
  probers = [];
}
