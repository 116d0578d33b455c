-- ===== src/World.antt =====
-- The global variables of sump.c and sump_ctrl.c, `struct ump_bdev`, and what spdk and the C
-- library answer during one call.
use sump.Base.{ℕ, Bool, true, List, [], ◌∷◌, Option, none, ℤ}
use sump.Bdev.{Bdev}
use sump.IoPath.{Channel}

-- `struct ump_bdev`. `address` is where it lies; `freed` says that `free` was called on it.
pub record UmpBdev : Type 0 where
  pub address : ℕ
  pub bdev : Bdev
  pub spdk_bdev_list : List Bdev
  pub freed : Bool

-- `real_spdk_bdev_register` is whether that pointer is set; `io_devices` are the addresses that
-- were given to `spdk_io_device_register`; `pollers` are the registered pollers of sump.
pub record World : Type 0 where
  pub real_spdk_bdev_register : Bool
  pub ump_bdev_list : List UmpBdev
  pub io_devices : List ℕ
  pub g_ump_bdev_channels : List Channel
  pub count : List ℕ
  pub io_count_poller : Option ℕ
  pub pollers : List ℕ

-- The program's memory when it starts: `uint64_t count[4]` and empty queues.
abbrev pub start : World
start = record {
  real_spdk_bdev_register = true;
  ump_bdev_list = [];
  io_devices = [];
  g_ump_bdev_channels = [];
  count = 0 ∷ 0 ∷ 0 ∷ 0 ∷ [];
  io_count_poller = none;
  pollers = [];
}

-- What the calls of other code return while one function runs: `dlsym` finds the symbol, the
-- `calloc` of each kind succeeds (`address` is that of a new `ump_bdev`, `alloc_path n` is for the
-- path numbered `n`), `real_register` is the real `spdk_bdev_register`, `get_io_channel` that entry
-- of a bdev's function table (`none` for NULL), and `poller` what `spdk_poller_register` returns.
pub record Env : Type 0 where
  pub dlsym : Bool
  pub alloc_device : Bool
  pub alloc_entry : Bool
  pub address : ℕ
  pub alloc_path : ℕ → Bool
  pub real_register : Bdev → ℤ
  pub get_io_channel : Bdev → Option ℕ
  pub poller : ℕ
