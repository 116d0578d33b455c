-- ===== src/Channels/Destroy.antt =====
-- sump_ctrl.c `ump_bdev_channel_destroy_cb`, after channels have been created.
use mathlib.Core.List.{append_assoc}
use sump.Base.{
  ℕ, ◌≤◌, ◌≡◌, ◌≢◌, refl, ap, ◌∙◌, true, List, [], ◌∷◌, ◌++◌, none, some, pos, arith, length, ok,
}
use sump.IoPath.{Channel}
use sump.World.{World, UmpBdev, Env}
use sump.Channels.{remove_channel, remove_poller, clear_all_iopath, create_cb, destroy_cb}
use sump.Channels.Create.{create_cb_paths, got_channels, clear-new_paths}
use sump.Channels.Loop.{new_paths}

-- No channel of the list lies at the address.
abbrev pub NotAt : ℕ → List Channel → Type 0
NotAt address [] = Unit {0}
NotAt address (ch ∷ chs) = (ch.address ≢ address) × NotAt address chs

-- The handle is not among the pollers.
abbrev pub NotIn : ℕ → List ℕ → Type 0
NotIn h [] = Unit {0}
NotIn h (p ∷ ps) = (p ≢ h) × NotIn h ps

remove-last :
    (address : ℕ) (chs : List Channel) (ch : Channel)
    → NotAt address chs
    → ch.address ≡ address
    → remove_channel address (chs ++ (ch ∷ [])) ≡ ok (ch, chs)
unfolding remove_channel
remove-last address [] ch out at = ground arith
remove-last address (c ∷ cs) ch (ne, out) at = ground (arith, remove-last address cs ch out at)

remove_poller-last :
    (h : ℕ) (ps : List ℕ) → NotIn h ps → remove_poller (some h) (ps ++ (h ∷ [])) ≡ ps
unfolding remove_poller
remove_poller-last h [] out = ground arith
remove_poller-last h (p ∷ ps) (ne, out) = ground (arith, remove_poller-last h ps out)

-- What is known of a world after `create_cb` has returned 0.
module _ (env : Env) (mbdev : UmpBdev) (address : ℕ) (w w' : World) (ch : Channel) where
  pub record IsMade : Type 0 where
    pub made : create_cb env mbdev address w ≡ ok (pos 0, w', [])
    pub listed : w'.g_ump_bdev_channels ≡ w.g_ump_bdev_channels ++ (ch ∷ [])
    pub polled : w'.pollers ≡ w.pollers ++ (env.poller ∷ [])
    pub current : w'.io_count_poller ≡ some env.poller
    pub counts : length w'.count ≡ 4
    pub at : ch.address ≡ address
    pub puts : clear_all_iopath ch.iopath_list ≡ got_channels env mbdev.spdk_bdev_list

make :
    (env : Env) (mbdev : UmpBdev) (address : ℕ) (w : World)
    → ((n : ℕ) → env.alloc_path n ≡ true)
    → length w.count ≡ 4
    → length (new_paths env 0 mbdev.spdk_bdev_list) ≤ 4
    → (w' : World) × (ch : Channel) × IsMade env mbdev address w w' ch
make env mbdev address w alloc four fits =
    let (w', ch, made, listed, polled, current, counts, at, paths, _, _) =
      create_cb_paths env mbdev address w alloc four fits in
    (
      w',
      ch,
      record {
        made = made;
        listed = listed;
        polled = polled;
        current = current;
        counts = counts;
        at = at;
        puts = ap clear_all_iopath paths ∙ clear-new_paths env 0 mbdev.spdk_bdev_list;
      },
    )

-- A channel that is created and destroyed again leaves the lists of channels and of pollers as they
-- were, and puts back exactly the I/O channels that it got, in order. The channel's address and its
-- poller are new, its device has at most four bdevs that give an I/O channel, and memory can be had.
pub destroy-create :
    (env : Env) (mbdev : UmpBdev) (address : ℕ) (w : World)
    → ((n : ℕ) → env.alloc_path n ≡ true)
    → length w.count ≡ 4
    → length (new_paths env 0 mbdev.spdk_bdev_list) ≤ 4
    → NotAt address w.g_ump_bdev_channels
    → NotIn env.poller w.pollers
    → (w' : World) × (w'' : World) × (create_cb env mbdev address w ≡ ok (pos 0, w', []))
      × (destroy_cb address w' ≡ ok (w'', got_channels env mbdev.spdk_bdev_list))
      × (w''.g_ump_bdev_channels ≡ w.g_ump_bdev_channels)
      × (w''.pollers ≡ w.pollers)
unfolding destroy_cb
destroy-create env mbdev address w alloc four fits new_address new_poller =
    let (w', ch, m) = make env mbdev address w alloc four fits in
    (
      w',
      record w' {
        g_ump_bdev_channels = w.g_ump_bdev_channels;
        io_count_poller = none;
        pollers = w.pollers;
      },
      m.made,
      rw (
        m.listed,
        remove-last address w.g_ump_bdev_channels ch new_address m.at,
        m.current,
        m.polled,
        remove_poller-last env.poller w.pollers new_poller,
        m.puts,
      ),
      refl,
      refl,
    )

NotIn-last : (h g : ℕ) (ps : List ℕ) → NotIn h ps → g ≢ h → NotIn h (ps ++ (g ∷ []))
NotIn-last h g [] out ne = (ne, tt)
NotIn-last h g (p ∷ ps) (first_ne, out) ne = (first_ne, NotIn-last h g ps out ne)

pub remove-middle :
    (address : ℕ) (chs : List Channel) (ch : Channel) (after : List Channel)
    → NotAt address chs
    → ch.address ≡ address
    → remove_channel address (chs ++ (ch ∷ after)) ≡ ok (ch, chs ++ after)
unfolding remove_channel
remove-middle address [] ch after out at = ground arith
remove-middle address (c ∷ cs) ch after (ne, out) at =
    ground (arith, remove-middle address cs ch after out at)

-- Two channels that are created and destroyed again, the first one first, leave the list of channels
-- as it was, and the poller of the first registered: the one pointer `io_count_poller` was overwritten
-- by the second. Memory for each path can be had, `count` has four elements, each device has at most
-- four bdevs that give an I/O channel, no channel is at the two addresses, and the second poller is
-- neither the first one nor among those registered before.
pub destroy-create_twice :
    (env env' : Env) (mbdev mbdev' : UmpBdev) (a a' : ℕ) (w : World)
    → ((n : ℕ) → env.alloc_path n ≡ true)
    → ((n : ℕ) → env'.alloc_path n ≡ true)
    → length w.count ≡ 4
    → length (new_paths env 0 mbdev.spdk_bdev_list) ≤ 4
    → length (new_paths env' 0 mbdev'.spdk_bdev_list) ≤ 4
    → NotAt a w.g_ump_bdev_channels
    → NotAt a' w.g_ump_bdev_channels
    → NotIn env'.poller w.pollers
    → env.poller ≢ env'.poller
    → (w1 w2 w3 w4 : World) × (create_cb env mbdev a w ≡ ok (pos 0, w1, []))
      × (create_cb env' mbdev' a' w1 ≡ ok (pos 0, w2, []))
      × (destroy_cb a w2 ≡ ok (w3, got_channels env mbdev.spdk_bdev_list))
      × (destroy_cb a' w3 ≡ ok (w4, got_channels env' mbdev'.spdk_bdev_list))
      × (w4.g_ump_bdev_channels ≡ w.g_ump_bdev_channels)
      × (w4.pollers ≡ w.pollers ++ (env.poller ∷ []))
unfolding destroy_cb remove_poller
destroy-create_twice env env' mbdev mbdev' a a' w alloc alloc' four fits fits' new new' fresh ne =
    let (w1, ch, m) = make env mbdev a w alloc four fits in
    let (w2, ch', m') = make env' mbdev' a' w1 alloc' m.counts fits' in
    let chs : List Channel = w.g_ump_bdev_channels in
    let w3 : World = record w2 {
      g_ump_bdev_channels = chs ++ (ch' ∷ []);
      io_count_poller = none;
      pollers = w.pollers ++ (env.poller ∷ []);
    } in
    let listed : w2.g_ump_bdev_channels ≡ chs ++ (ch ∷ (ch' ∷ [])) =
      m'.listed ∙ rw m.listed (append_assoc chs (ch ∷ []) (ch' ∷ [])) in
    let polled : w2.pollers ≡ (w.pollers ++ (env.poller ∷ [])) ++ (env'.poller ∷ []) =
      m'.polled ∙ ap (λ l. l ++ (env'.poller ∷ [])) m.polled in
    let unknown : NotIn env'.poller (w.pollers ++ (env.poller ∷ [])) =
      NotIn-last env'.poller env.poller w.pollers fresh ne in
    (
      w1,
      w2,
      w3,
      record w3 { g_ump_bdev_channels = chs; io_count_poller = none },
      m.made,
      m'.made,
      rw (
        listed,
        remove-middle a chs ch (ch' ∷ []) new m.at,
        m'.current,
        polled,
        remove_poller-last env'.poller (w.pollers ++ (env.poller ∷ [])) unknown,
        m.puts,
      ),
      rw (remove-last a' chs ch' new' m'.at, m'.puts),
      refl,
      refl,
    )
