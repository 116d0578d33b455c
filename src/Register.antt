-- ===== src/Register.antt =====
-- sump.c: the hijacked `spdk_bdev_register`, which gathers the bdevs of one uuid under one
-- `ump_bdev`, and sump_util.c `get_ump_bdev_by_uuid`.
pub mod Groups
pub mod Failure
pub mod Spread
use sump.Base.{
  ℕ, suc, ◌+◌, Bool, true, false, not, List, [], ◌∷◌, ◌++◌, Option, none, some, ℤ, pos, negsuc,
  is_zero, if◌then◌else◌, next, modify, get_elem?, Outcome, ok, fault, Fault, ◌>>=◌, u64, deref,
}
use sump.Bdev.{Bdev, FnTable, Uuids}
use sump.IoPath.{IoPath, Channel, new_iopath}
use sump.World.{World, UmpBdev, Env}

-- `ump_init`: it also empties the list of channels.
unfoldable pub ump_init : Env → World → World
ump_init env w = record w { real_spdk_bdev_register = env.dlsym; g_ump_bdev_channels = [] }

-- The attributes that `ump_bdev_construct` copies, and those that it sets.
unfoldable pub copy_attributes : ℕ → Bdev → Bdev
copy_attributes address b = record {
  ctxt = address;
  fn_table = FnTable.umplib_fn_table;
  product_name = b.product_name;
  write_cache = b.write_cache;
  blocklen = b.blocklen;
  blockcnt = b.blockcnt;
  write_unit_size = b.write_unit_size;
  acwu = b.acwu;
  required_alignment = b.required_alignment;
  split_on_optimal_io_boundary = b.split_on_optimal_io_boundary;
  optimal_io_boundary = b.optimal_io_boundary;
  uuid = b.uuid;
  md_len = b.md_len;
  md_interleave = b.md_interleave;
  dif_type = b.dif_type;
  dif_is_head_of_md = b.dif_is_head_of_md;
  dif_check_flags = b.dif_check_flags;
  zoned = b.zoned;
  zone_size = b.zone_size;
  max_open_zones = b.max_open_zones;
  optimal_open_zones = b.optimal_open_zones;
  media_events = b.media_events;
}

-- The new `ump_bdev`; on the error path it is freed, and stays in the list that it was put in.
unfoldable pub new_ump_bdev : ℕ → Bdev → Bool → UmpBdev
unfolding copy_attributes
new_ump_bdev address b freed = record {
  address = address;
  bdev = copy_attributes address b;
  spdk_bdev_list = b ∷ [];
  freed = freed;
}

-- `ump_bdev_construct`. The names are not modelled. The `TAILQ_INIT` of an empty list changes
-- nothing.
unfoldable pub construct : Env → Bdev → World → ℤ × World
unfolding new_ump_bdev
construct env b w =
    if not env.alloc_device
    then (negsuc 0, w)
    else if not env.alloc_entry
    then (negsuc 0, w)
    else (let rc = env.real_register (copy_attributes env.address b) in
        (
          rc,
          record w {
            io_devices = w.io_devices ++ (env.address ∷ []);
            ump_bdev_list = w.ump_bdev_list ++ (new_ump_bdev env.address b (not (is_zero rc)) ∷ []);
          },
        ))

-- The new path of `ump_bdev_add_bdev`, at the end of a channel's list.
unfoldable pub add_iopath : Env → Bdev → Channel → Outcome Channel
add_iopath env b ch =
    if env.alloc_path ch.max_id
    then ok (record ch {
      iopath_list = ch.iopath_list ++ (new_iopath (env.get_io_channel b) b ch.max_id ∷ []);
      max_id = u64 (ch.max_id + 1);
    })
    else fault Fault.null_deref

abbrev pub append_bdev : Bdev → UmpBdev → UmpBdev
append_bdev b m = record m { spdk_bdev_list = m.spdk_bdev_list ++ (b ∷ []) }

module _ (u : Uuids) where
  -- `get_ump_bdev_by_uuid`, as the place of the `ump_bdev` in the list.
  unfoldable pub get_ump_bdev_by_uuid : ℕ → List UmpBdev → Outcome (Option ℕ)
  get_ump_bdev_by_uuid uuid [] = ok none
  get_ump_bdev_by_uuid uuid (m ∷ ms) =
      let rest = get_ump_bdev_by_uuid uuid ms in
      if m.freed
      then fault Fault.use_after_free
      else if u.same m.bdev.uuid uuid
      then ok (some 0)
      else (rest >>= λ r. ok (next r))

  -- Some path of the channel leads to the device.
  unfoldable pub has_uuid : ℕ → List IoPath → Bool
  has_uuid uuid [] = false
  has_uuid uuid (p ∷ ps) = if u.same uuid p.bdev.uuid then true else has_uuid uuid ps

  -- The loops over channels and paths: they return at the first path that leads to the device.
  unfoldable pub add_to_channels : Env → ℕ → Bdev → List Channel → Outcome (List Channel)
  unfolding has_uuid
  add_to_channels env uuid b [] = ok []
  add_to_channels env uuid b (ch ∷ chs) =
      let rest = add_to_channels env uuid b chs in
      if has_uuid uuid ch.iopath_list
      then (add_iopath env b ch >>= λ ch'. ok (ch' ∷ chs))
      else (rest >>= λ chs'. ok (ch ∷ chs'))

  -- `ump_bdev_add_bdev`, for the `ump_bdev` at a place of the list.
  unfoldable pub add_bdev : Env → ℕ → Bdev → World → Outcome (ℤ × World)
  unfolding add_to_channels
  add_bdev env i b w = if not env.alloc_entry then ok (negsuc 0, w) else (do
    mbdev ← deref (get_elem? w.ump_bdev_list i)
    chs ← add_to_channels env mbdev.bdev.uuid b w.g_ump_bdev_channels
    ok (
      pos 0,
      record w {
        ump_bdev_list = modify w.ump_bdev_list i (append_bdev b);
        g_ump_bdev_channels = chs;
      },
    ))

  -- The part of `spdk_bdev_register` behind the tests of `real_spdk_bdev_register`.
  unfoldable pub register_found : Env → Bdev → World → Option ℕ → Outcome (ℤ × World)
  unfolding construct add_bdev
  register_found env b w none = ok (construct env b w)
  register_found env b w (some i) = add_bdev env i b w

  -- `spdk_bdev_register`
  unfoldable pub spdk_bdev_register : Env → Bdev → World → Outcome (ℤ × World)
  unfolding register_found get_ump_bdev_by_uuid ump_init
  spdk_bdev_register env b w =
      let w' = if w.real_spdk_bdev_register then w else ump_init env w in
      if w'.real_spdk_bdev_register
      then (get_ump_bdev_by_uuid b.uuid w'.ump_bdev_list >>= register_found env b w')
      else ok (negsuc 0, w')
