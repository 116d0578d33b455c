-- ===== src/Channels/Create.antt =====
-- sump_ctrl.c `ump_bdev_channel_create_cb`: the paths of a new channel.
use sump.Base.{
  ℕ, zero, suc, ◌+◌, ◌≤◌, ◌<◌, ◌≡◌, refl, ap, ◌∙◌, true, List, [], ◌∷◌, ◌++◌, Option, none, some,
  pos, arith, length, get_elem?, get_elem?-of_lt, ok, fault, Fault, inl, inr, Option-cases,
}
use sump.Bdev.{Bdev}
use sump.IoPath.{IoPath, Channel, new_iopath}
use sump.World.{World, UmpBdev, Env}
use sump.Select.Hash.{HasIds, Available}
use sump.Channels.{create_cb, clear_all_iopath}
use sump.Channels.Loop.{new_paths, create_loop-fits, create_loop-overflows}

-- The paths of a new channel are numbered from `n` on, and each of them can be used.
pub new_paths_lem :
    (env : Env) (n : ℕ) (bs : List Bdev) (i : ℕ) (p : IoPath)
    → get_elem? (new_paths env n bs) i ≡ some p
    → (p.id ≡ n + i)
      × (p.available ≡ true)
      × (p.io_channel ≡ env.get_io_channel p.bdev)
      × (p.io_incomplete ≡ 0)
unfolding new_paths new_iopath
new_paths_lem env n [] i p at = cc
new_paths_lem env n (b ∷ bs) i p at = elim (Option-cases (env.get_io_channel b)) [
  | inl gone ↦ new_paths_lem env n bs i p (rw (gone, new_paths) at at)
  | inr (io, got) ↦ go io got i (rw (got, new_paths) at at) (λ k. new_paths_lem env (suc n) bs k p)
]
  where
    go :
        (io : ℕ)
        → env.get_io_channel b ≡ some io
        → (i : ℕ) → get_elem? (new_iopath (some io) b n ∷ new_paths env (suc n) bs) i ≡ some p
        → ((k : ℕ)
            → get_elem? (new_paths env (suc n) bs) k ≡ some p
            → (p.id ≡ suc n + k)
              × (p.available ≡ true)
              × (p.io_channel ≡ env.get_io_channel p.bdev)
              × (p.io_incomplete ≡ 0))
        → (p.id ≡ n + i)
          × (p.available ≡ true)
          × (p.io_channel ≡ env.get_io_channel p.bdev)
          × (p.io_incomplete ≡ 0)
    go io got zero at later = ground arith
    go io got (suc i) at later =
        let (id, up, chan, fresh) = later i at in (omega arith, up, chan, fresh)

-- Both ends of the creation of a channel: with room for its paths in `count`, and without.
create_cb_lem :
    (env : Env) (mbdev : UmpBdev) (address : ℕ) (w : World)
    → ((n : ℕ) → env.alloc_path n ≡ true)
    → length w.count ≡ 4
    → (length (new_paths env 0 mbdev.spdk_bdev_list) ≤ 4
        → (w' : World) × (ch : Channel) × (create_cb env mbdev address w ≡ ok (pos 0, w', []))
          × (w'.g_ump_bdev_channels ≡ w.g_ump_bdev_channels ++ (ch ∷ []))
          × (w'.pollers ≡ w.pollers ++ (env.poller ∷ []))
          × (w'.io_count_poller ≡ some env.poller)
          × (length w'.count ≡ 4)
          × (ch.address ≡ address)
          × (ch.iopath_list ≡ new_paths env 0 mbdev.spdk_bdev_list)
          × HasIds ch
          × ((i : ℕ) → i < length ch.iopath_list → Available ch.iopath_list i))
      × (4 < length (new_paths env 0 mbdev.spdk_bdev_list)
          → create_cb env mbdev address w ≡ fault Fault.out_of_bounds)
unfolding create_cb
create_cb_lem env mbdev address w alloc four = (
  λ fits.
      let (ch, count', e, x, len) =
        create_loop-fits env alloc bs fresh w.count (omega (arith, four)) (omega (arith, four)) in
      (
        record w {
          io_count_poller = some env.poller;
          pollers = w.pollers ++ (env.poller ∷ []);
          count = count';
          g_ump_bdev_channels = w.g_ump_bdev_channels ++ (ch ∷ []);
        },
        ch,
        rw e,
        refl,
        refl,
        refl,
        len ∙ four,
        x.address,
        x.paths,
        record {
          places = λ i p at. (new_paths_lem env 0 bs i p (rw x.paths at at)).0 ∙ omega arith;
          count = x.next_id ∙ omega (arith, ap length x.paths);
        },
        λ i lt.
            let (p, at) = get_elem?-of_lt ch.iopath_list i lt in
            (p, at, (new_paths_lem env 0 bs i p (rw x.paths at at)).1),
      ),
  λ over. rw (
      create_loop-overflows env alloc bs fresh w.count (omega arith) (omega (arith, four))
        (omega (arith, four))),
)
  where
    bs : List Bdev
    bs = mbdev.spdk_bdev_list

    fresh : Channel
    fresh = record { address = address; io_device = mbdev.address; iopath_list = []; max_id = 0 }

-- For a new channel, where memory for each path can be had and the device has at most four bdevs
-- that give an I/O channel: the channel gets a path to each of these, in order, all available and
-- numbered by their places, the channel is put at the end of the list of channels, a new poller is
-- registered, and the function returns 0.
pub create_cb_paths :
    (env : Env) (mbdev : UmpBdev) (address : ℕ) (w : World)
    → ((n : ℕ) → env.alloc_path n ≡ true)
    → length w.count ≡ 4
    → length (new_paths env 0 mbdev.spdk_bdev_list) ≤ 4
    → (w' : World) × (ch : Channel) × (create_cb env mbdev address w ≡ ok (pos 0, w', []))
      × (w'.g_ump_bdev_channels ≡ w.g_ump_bdev_channels ++ (ch ∷ []))
      × (w'.pollers ≡ w.pollers ++ (env.poller ∷ []))
      × (w'.io_count_poller ≡ some env.poller)
      × (length w'.count ≡ 4)
      × (ch.address ≡ address)
      × (ch.iopath_list ≡ new_paths env 0 mbdev.spdk_bdev_list)
      × HasIds ch
      × ((i : ℕ) → i < length ch.iopath_list → Available ch.iopath_list i)
create_cb_paths env mbdev address w alloc four fits =
    (create_cb_lem env mbdev address w alloc four).0 fits

-- For a new channel, where memory for each path can be had and the device has more than four bdevs
-- that give an I/O channel, the function writes past the end of `count[4]`.
pub create_cb_overflows :
    (env : Env) (mbdev : UmpBdev) (address : ℕ) (w : World)
    → ((n : ℕ) → env.alloc_path n ≡ true)
    → length w.count ≡ 4
    → 4 < length (new_paths env 0 mbdev.spdk_bdev_list)
    → create_cb env mbdev address w ≡ fault Fault.out_of_bounds
create_cb_overflows env mbdev address w alloc four over =
    (create_cb_lem env mbdev address w alloc four).1 over

-- The I/O channels that the bdevs give, in order.
pub got_channels : Env → List Bdev → List (Option ℕ)
got_channels env [] = []
got_channels env (b ∷ bs) = elim (env.get_io_channel b) [
  | none ↦ got_channels env bs
  | some io ↦ some io ∷ got_channels env bs
]

pub clear-new_paths :
    (env : Env) (n : ℕ) (bs : List Bdev)
    → clear_all_iopath (new_paths env n bs) ≡ got_channels env bs
unfolding clear_all_iopath new_paths got_channels new_iopath
clear-new_paths env n [] = refl
clear-new_paths env n (b ∷ bs) = elim (Option-cases (env.get_io_channel b)) [
  | inl gone ↦ rw (gone, new_paths, got_channels) (clear-new_paths env n bs)
  | inr (io, got) ↦
      rw (got, new_paths, got_channels) (ap (λ l. some io ∷ l) (clear-new_paths env (suc n) bs))
]
