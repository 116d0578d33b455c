-- ===== src/Bdev.antt =====
-- The structures of spdk that sump reads and writes, as far as it does: `struct spdk_bdev`,
-- `struct spdk_bdev_io` and its completion callback, and what sump relies on of spdk itself.
use sump.Base.{ℕ, ◌≡◌, ◌↔◌, Bool, true, Option}

-- `fn_table`: sump's own `umplib_fn_table`, or the table of another bdev module.
pub data FnTable : Type 0 where
  umplib_fn_table : FnTable
  module_fn_table : ℕ → FnTable

-- `struct spdk_bdev`, with the fields that sump copies and `ctxt`, the module's own object.
pub record Bdev : Type 0 where
  pub ctxt : ℕ
  pub fn_table : FnTable
  pub product_name : ℕ
  pub write_cache : ℕ
  pub blocklen : ℕ
  pub blockcnt : ℕ
  pub write_unit_size : ℕ
  pub acwu : ℕ
  pub required_alignment : ℕ
  pub split_on_optimal_io_boundary : Bool
  pub optimal_io_boundary : ℕ
  pub uuid : ℕ
  pub md_len : ℕ
  pub md_interleave : Bool
  pub dif_type : ℕ
  pub dif_is_head_of_md : Bool
  pub dif_check_flags : ℕ
  pub zoned : Bool
  pub zone_size : ℕ
  pub max_open_zones : ℕ
  pub optimal_open_zones : ℕ
  pub media_events : Bool

-- `bdev_io->type`: the code only tests for reads.
pub data IoType : Type 0 where
  read : IoType
  other : ℕ → IoType

-- `internal.cb` with `internal.caller_ctx`: the caller's own callback, or one of sump's with its
-- context. `ump` is `ump_bdev_io_completion_cb`: the channel, the path (NULL until one is chosen)
-- and the callback that it replaced. `failback` is `ump_failback_io_completion_cb`: the channel
-- and the path that are probed. A path is named by its place in its channel's list.
pub data Callback : Type 0 where
  caller : ℕ → Callback
  ump : (ch : ℕ) → Option ℕ → Callback → Callback
  failback : (ch path : ℕ) → Callback

-- `struct spdk_bdev_io`; `io_bdev` is `bdev_io->bdev`.
pub record Io : Type 0 where
  pub io_type : IoType
  pub io_bdev : Bdev
  pub offset_blocks : ℕ
  pub num_blocks : ℕ
  pub submit_tsc : ℕ
  pub cb : Callback

-- `spdk_uuid_compare(a, b) == 0`, which is documented to say that the two are the same.
pub record Uuids : Type 0 where
  pub same : ℕ → ℕ → Bool
  pub same_iff : (a b : ℕ) → (same a b ≡ true) ↔ (a ≡ b)
