-- ===== src/Device/Added.antt =====
-- sump.c, sump_ctrl.c and sump_data.c together: a path that is added while a channel is in use.
use sump.Base.{
  ℕ, true_apart, ◌+◌, ◌<◌, ◌≡◌, ◌≢◌, inl, inr, refl, sym, ap, ◌∙◌, true, List, [], ◌∷◌, ◌++◌, some,
  pos, arith, length, length-append, get_elem?, get_elem?-last, get_elem?-middle, modify, u64, ok,
  fault, Fault,
}
use sump.Bdev.{Bdev, Uuids, Io}
use sump.IoPath.{IoPath, Channel, new_iopath}
use sump.World.{World, UmpBdev, Env}
use sump.Register.{
  spdk_bdev_register, register_found, add_bdev, append_bdev, add_to_channels, get_ump_bdev_by_uuid,
  has_uuid,
}
use sump.Register.Spread.{Without, add_to_channels_lem}
use sump.Select.Hash.{AllDown, HasIds}
use sump.DataPath.{Lane, Reply, Effect, submit_request}
use sump.DataPath.Submit.{IsReady, wrapped, add_bytes, submit_request_lem}

module _ {A : Type 0} where
  get_elem?-length : (xs : List A) (y : A) → get_elem? (xs ++ (y ∷ [])) (length xs) ≡ some y
  get_elem?-length [] y = refl
  get_elem?-length (x ∷ xs) y = get_elem?-length xs y

-- The channel with the new path.
abbrev pub grown : Env → Bdev → Channel → Channel
grown env b ch = record ch {
  iopath_list = ch.iopath_list ++ (new_iopath (env.get_io_channel b) b ch.max_id ∷ []);
  max_id = u64 (ch.max_id + 1);
}

grown-HasIds :
    (env : Env) (b : Bdev) (ch : Channel)
    → HasIds ch
    → length ch.iopath_list < 4
    → HasIds (grown env b ch)
unfolding new_iopath
grown-HasIds env b ch ids room = record {
  places = λ i p at.
      elim (get_elem?-last ch.iopath_list (new_iopath (env.get_io_channel b) b ch.max_id) i at) [
        | inl old ↦ ids.places i p old
        | inr (last, new) ↦ ap (λ q. q.id) new ∙ ids.count ∙ sym last
      ];
  count = omega (
    arith,
    ids.count,
    room,
    length-append ch.iopath_list (new_iopath (env.get_io_channel b) b ch.max_id ∷ []),
  );
}

-- An I/O on a grown channel, all of whose old paths are down, goes to the new path.
grown-serves :
    (env : Env) (b : Bdev) (r : Reply) (lane : Lane) (io : Io)
    → IsReady lane
    → length lane.channel.iopath_list < 4
    → AllDown lane.channel.iopath_list
    → io.num_blocks ≢ 0
    → r.alloc_ctx ≡ true
    → (lane' : Lane) × (submit_request r (record lane { channel = grown env b lane.channel }) io
        ≡ ok (
          lane',
          Effect.submitted
              (length lane.channel.iopath_list)
              (env.get_io_channel b)
              b
              (wrapped lane (length lane.channel.iopath_list) io),
        ))
unfolding new_iopath
grown-serves env b r lane io ready room down ne alloc =
    let new : IoPath = new_iopath (env.get_io_channel b) b lane.channel.max_id in
    let lane' : Lane = record lane { channel = grown env b lane.channel } in
    let ready' : IsReady lane' = record {
      ids = grown-HasIds env b lane.channel ready.ids room;
      four = ready.four;
      room = omega (arith, room, length-append lane.channel.iopath_list (new ∷ []));
    } in
    elim (submit_request_lem r lane' io ready' ne alloc) [
      | inl (i, sent) ↦ elim (get_elem?-last lane.channel.iopath_list new i sent.found) [
        | inl old ↦ absurd (true_apart sent.up (down i sent.path old))
        | inr (last, same) ↦ (
          record lane' { count = modify lane.count i (add_bytes io) },
          sent.result
              ∙ ap
                  (λ (q : IoPath). ok (
                    record lane' { count = modify lane.count i (add_bytes io) },
                    Effect.submitted i q.io_channel q.bdev (wrapped lane i io),
                  ))
                  same
              ∙ ap
                  (λ j. ok (
                    record lane' { count = modify lane.count i (add_bytes io) },
                    Effect.submitted j (env.get_io_channel b) b (wrapped lane j io),
                  ))
                  last,
        )
      ]
      | inr (none_up, _) ↦
          absurd (true_apart refl (none_up _ new (get_elem?-length lane.channel.iopath_list new)))
    ]

module _ (u : Uuids) where
  -- A bdev that is registered brings a channel of its device back into service: where all paths were
  -- down, and an I/O read through NULL, the same I/O is handed to the new bdev once `spdk_bdev_register`
  -- has returned. The channel is ready, has fewer than four paths, and is the first with a path to the
  -- device; sump is initialised and finds the `ump_bdev`;
  -- memory can be had; the I/O has at least one block.
  pub register-serves :
      (env : Env) (b : Bdev) (w : World) (k : ℕ) (m : UmpBdev) (before after : List Channel)
      (lane : Lane) (r : Reply) (io : Io)
      → w.real_spdk_bdev_register ≡ true
      → get_ump_bdev_by_uuid u b.uuid w.ump_bdev_list ≡ ok (some k)
      → get_elem? w.ump_bdev_list k ≡ some m
      → w.g_ump_bdev_channels ≡ before ++ (lane.channel ∷ after)
      → Without u m.bdev.uuid before
      → has_uuid u m.bdev.uuid lane.channel.iopath_list ≡ true
      → env.alloc_entry ≡ true
      → env.alloc_path lane.channel.max_id ≡ true
      → IsReady lane
      → length lane.channel.iopath_list < 4
      → AllDown lane.channel.iopath_list
      → io.num_blocks ≢ 0
      → r.alloc_ctx ≡ true
      → (w' : World) × (ch' : Channel) × (lane' : Lane) × (submit_request r lane io
          ≡ fault Fault.null_deref)
        × (spdk_bdev_register u env b w ≡ ok (pos 0, w'))
        × (get_elem? w'.g_ump_bdev_channels (length before) ≡ some ch')
        × (submit_request r (record lane { channel = ch' }) io
            ≡ ok (
              lane',
              Effect.submitted
                  (length lane.channel.iopath_list)
                  (env.get_io_channel b)
                  b
                  (wrapped lane (length lane.channel.iopath_list) io),
            ))
  unfolding spdk_bdev_register register_found add_bdev
  register-serves env b w k m before after lane r io real found at chs out has entry alloc ready
        room down ne ctx =
      let chs' : List Channel = before ++ (grown env b lane.channel ∷ after) in
      let spread : add_to_channels u env m.bdev.uuid b w.g_ump_bdev_channels ≡ ok chs' =
        ap (add_to_channels u env m.bdev.uuid b) chs
        ∙ add_to_channels_lem u env m.bdev.uuid b before lane.channel after out has alloc in
      let (lane', sent) = grown-serves env b r lane io ready room down ne ctx in
      (
        record w {
          ump_bdev_list = modify w.ump_bdev_list k (append_bdev b);
          g_ump_bdev_channels = chs';
        },
        grown env b lane.channel,
        lane',
        elim (submit_request_lem r lane io ready ne ctx) [
          | inl (i, s) ↦ absurd (true_apart s.up (down i s.path s.found))
          | inr (_, fails) ↦ fails
        ],
        ground (arith, real, found, entry, at, spread),
        get_elem?-middle before (grown env b lane.channel) after,
        sent,
      )
