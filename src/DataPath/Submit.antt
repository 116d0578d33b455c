-- ===== src/DataPath/Submit.antt =====
-- sump_data.c `ump_bdev_submit_request`.
use sump.Base.{
  ℕ, ◌+◌, ◌*◌, ◌≤◌, ◌<◌, ◌≡◌, ◌≢◌, ◌⊎◌, inl, inr, true, List, some, arith, lt→ltb, length, modify,
  get_elem?, get_elem?-lt, ok, fault, Fault, u64, Option-cases,
}
use sump.Bdev.{Io, Callback}
use sump.IoPath.{IoPath}
use sump.Select.Hash.{HasIds, AllDown, find_iopath-total}
use sump.Channels.{set_count}
use sump.DataPath.{Lane, Reply, submitted, submit_request}

-- The paths are numbered by their places, and `count[4]` has an element for each.
pub record IsReady (lane : Lane) : Type 0 where
  pub ids : HasIds lane.channel
  pub four : length lane.count ≡ 4
  pub room : length lane.channel.iopath_list ≤ 4

set_count-eq :
    (f : ℕ → ℕ) (i : ℕ) (count : List ℕ)
    → i < length count
    → set_count f i count ≡ ok (modify count i f)
unfolding set_count
set_count-eq f i count lt = rw (lt→ltb i (length count) lt)

-- The addition to `count[i]` of the bytes of an I/O.
abbrev pub add_bytes : Io → ℕ → ℕ
add_bytes io c = u64 (c + u64 (io.num_blocks * io.io_bdev.blocklen))

-- The I/O as it is handed on: its callback is sump's, which keeps the path and the old callback.
abbrev pub wrapped : Lane → ℕ → Io → Io
wrapped lane i io = record io { cb = Callback.ump lane.channel.address (some i) io.cb }

-- The I/O went to the path at `i`, which is available.
pub record Sent (r : Reply) (lane : Lane) (io : Io) (i : ℕ) : Type 0 where
  pub path : IoPath
  pub found : get_elem? lane.channel.iopath_list i ≡ some path
  pub up : path.available ≡ true
  pub result :
      submit_request r lane io
      ≡ ok (
        record lane { count = modify lane.count i (add_bytes io) },
        submitted i path.io_channel path.bdev (wrapped lane i io),
      )

-- For an I/O of at least one block, on a channel that is ready, with memory for its context: the
-- I/O is handed to an available path with its callback wrapped, its bytes are added to that path's
-- count and nothing else changes; or no path is available and the function reads through NULL.
pub submit_request_lem :
    (r : Reply) (lane : Lane) (io : Io)
    → IsReady lane
    → io.num_blocks ≢ 0
    → r.alloc_ctx ≡ true
    → ((i : ℕ) × Sent r lane io i)
      ⊎ (AllDown lane.channel.iopath_list × (submit_request r lane io ≡ fault Fault.null_deref))
unfolding submit_request
submit_request_lem r lane io ready ne alloc =
    let (a, e, to_none, to_some, _) =
      find_iopath-total lane.channel io ready.ids ne (omega (arith, ready.room)) in
    elim (Option-cases a) [
      | inl gone ↦ inr (to_none.0 gone, rw (alloc, e, gone))
      | inr (i, got) ↦
          let (p, at, up) = to_some i got in
          let id : p.id ≡ i = ready.ids.places i p at in
          let lt : i < length lane.count =
            omega (arith, ready.four, ready.room, get_elem?-lt lane.channel.iopath_list i at) in
          inl (
            i,
            record {
              path = p;
              found = at;
              up = up;
              result = rw (alloc, e, got, at, id, set_count-eq (add_bytes io) i lane.count lt);
            },
          )
    ]
