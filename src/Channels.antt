-- ===== src/Channels.antt =====
-- sump_ctrl.c: `ump_bdev_channel_create_cb`, `ump_bdev_channel_destroy_cb`,
-- `ump_bdev_channel_clear_all_iopath` and `ump_io_count_fn`.
pub mod Loop
pub mod Create
pub mod Destroy
pub mod Reset
use sump.Base.{
  ℕ, suc, ◌+◌, Bool, true, false, List, [], ◌∷◌, ◌++◌, map, Option, none, some, ℤ, pos, negsuc,
  if◌then◌else◌, ◌==◌, ltb, length, modify, Outcome, ok, fault, Fault, ◌>>=◌, u64,
}
use sump.Bdev.{Bdev}
use sump.TimeQueue
use sump.IoPath.{IoPath, Channel, new_iopath}
use sump.World.{World, UmpBdev, Env}

-- The `spdk_put_io_channel` calls of a function, in order.
abbrev pub Puts : Type 0
Puts = List (Option ℕ)

-- `ump_bdev_channel_clear_all_iopath`, on the paths of a channel: what it puts back. The list is
-- empty after it.
unfoldable pub clear_all_iopath : List IoPath → Puts
clear_all_iopath [] = []
clear_all_iopath (p ∷ ps) = p.io_channel ∷ clear_all_iopath ps

-- `count[i] = 0` and `count[i] += n`, on the array of the program.
unfoldable pub set_count : (ℕ → ℕ) → ℕ → List ℕ → Outcome (List ℕ)
set_count f i count =
    if ltb i (length count) then ok (modify count i f) else fault Fault.out_of_bounds

-- How the loop of `ump_bdev_channel_create_cb` ends: with the channel and `count`, or without
-- memory for a path, after it has put back what it had.
pub data Created : Type 0 where
  done : Channel → List ℕ → Created
  no_memory : Channel → List ℕ → Puts → Created

unfoldable pub create_loop : Env → List Bdev → Channel → List ℕ → Outcome Created
unfolding set_count clear_all_iopath
create_loop env [] ch count = ok (done ch count)
create_loop env (b ∷ bs) ch count = elim (env.get_io_channel b) [
  | none ↦ create_loop env bs ch count
  | some io ↦ elim (env.alloc_path ch.max_id) [
    | false ↦ ok (
        no_memory (record ch { iopath_list = [] }) count
          (some io ∷ clear_all_iopath ch.iopath_list))
    | true ↦ elim (set_count (λ c. 0) ch.max_id count) [
      | fault f ↦ fault f
      | ok count' ↦
          create_loop env bs
            (record ch {
              iopath_list = ch.iopath_list ++ (new_iopath (some io) b ch.max_id ∷ []);
              max_id = u64 (ch.max_id + 1);
            })
            count'
    ]
  ]
]

-- `ump_bdev_channel_create_cb`, for the `ump_bdev` that is the device and the address of the new
-- channel. The channel is put in the list of channels before its paths are looked for, and stays
-- there when the function fails.
unfoldable pub create_cb : Env → UmpBdev → ℕ → World → Outcome (ℤ × World × Puts)
unfolding create_loop
create_cb env mbdev address w = do
  created ←
      create_loop env mbdev.spdk_bdev_list
        (record { address = address; io_device = mbdev.address; iopath_list = []; max_id = 0 })
        w.count
  let polled : World = record w {
    io_count_poller = some env.poller;
    pollers = w.pollers ++ (env.poller ∷ []);
  }
  elim created [
    | done ch count ↦ ok (
      pos 0,
      record polled { count = count; g_ump_bdev_channels = w.g_ump_bdev_channels ++ (ch ∷ []) },
      [],
    )
    | no_memory ch count puts ↦ ok (
      negsuc 0,
      record polled { count = count; g_ump_bdev_channels = w.g_ump_bdev_channels ++ (ch ∷ []) },
      puts,
    )
  ]

-- TAILQ_REMOVE of the channel at an address, and the paths that it had. A channel that is not in
-- the list is memory that the queue does not know.
unfoldable pub remove_channel : ℕ → List Channel → Outcome (Channel × List Channel)
remove_channel address [] = fault Fault.use_after_free
remove_channel address (ch ∷ chs) =
    let rest = remove_channel address chs in
    if ch.address == address then ok (ch, chs) else (do (found, left) ← rest; ok (found, ch ∷ left))

-- `spdk_poller_unregister(&io_count_poller)`: the pointer is set to NULL, and NULL is ignored.
unfoldable pub remove_poller : Option ℕ → List ℕ → List ℕ
remove_poller none pollers = pollers
remove_poller (some h) [] = []
remove_poller (some h) (p ∷ ps) = if p == h then ps else p ∷ remove_poller (some h) ps

-- `ump_bdev_channel_destroy_cb`
unfoldable pub destroy_cb : ℕ → World → Outcome (World × Puts)
unfolding remove_channel remove_poller clear_all_iopath
destroy_cb address w = do
  (ch, chs) ← remove_channel address w.g_ump_bdev_channels
  ok (
    record w {
      g_ump_bdev_channels = chs;
      io_count_poller = none;
      pollers = remove_poller w.io_count_poller w.pollers;
    },
    clear_all_iopath ch.iopath_list,
  )

-- The body of the loops of `ump_io_count_fn`.
abbrev pub reset_times : IoPath → IoPath
reset_times p = record p { io_read_time = TimeQueue.init; io_write_time = TimeQueue.init }

abbrev pub reset_channel : Channel → Channel
reset_channel ch = record ch { iopath_list = map reset_times ch.iopath_list }

-- `ump_io_count_fn`
unfoldable pub io_count_fn : World → World
io_count_fn w = record w { g_ump_bdev_channels = map reset_channel w.g_ump_bdev_channels }
