-- ===== src/Tests/NvmePaths.antt =====
-- The choice of a path of an NVMe bdev, on a concrete list.
use sump.Base.{
  ℕ, ◌≡◌, ◌⊎◌, true, false, List, [], ◌∷◌, Option, none, some, arith, ok, IsLeast, NoneBelow,
}
use sump.Nvme.Paths.{
  AnaState, NvmePath, Policy, Selector, NvmeChannel, find_io_path_from, find_io_path_min_qd,
  u32_max,
}
use sump.Nvme.Paths.Depth.{is_optimized, is_non_optimized, depth, find_io_path_min_qd_lem}
use sump.Nvme.Paths.Choice.{Chosen, find_io_path_from-Chosen}

abbrev pub nvme_path : AnaState → ℕ → NvmePath
nvme_path state reqs = record {
  ana_state = state;
  ana_state_updating = false;
  has_qpair = true;
  qpair_failed = false;
  reset_iter = false;
  admin_qp_failed = false;
  num_outstanding_reqs = reqs;
  ctrlr = record {
    destruct = false;
    fast_io_fail_timedout = false;
    resetting = false;
    reconnect_is_delayed = false;
    reconnect_delay_sec = 0;
    is_failed = false;
  };
}

abbrev pub nvme_channel : NvmeChannel
nvme_channel = record {
  current_io_path = none;
  mp_policy = Policy.active_passive;
  mp_selector = Selector.round_robin;
  rr_min_io = 0;
  rr_counter = 0;
  io_path_list =
      nvme_path AnaState.non_optimized 1
      ∷ nvme_path AnaState.optimized 7
      ∷ nvme_path AnaState.optimized 4
      ∷ [];
}

find_io_path_min_qd_lem_example :
    let paths : List NvmePath = nvme_channel.io_path_list in
    ((i : ℕ) × (find_io_path_min_qd paths ≡ some i) × IsLeast is_optimized depth u32_max paths i)
    ⊎ (NoneBelow is_optimized depth u32_max paths
        × (((i : ℕ) × (find_io_path_min_qd paths ≡ some i)
              × IsLeast is_non_optimized depth u32_max paths i)
            ⊎ ((find_io_path_min_qd paths ≡ none)
                × NoneBelow is_non_optimized depth u32_max paths)))
find_io_path_min_qd_lem_example = find_io_path_min_qd_lem (nvme_channel.io_path_list)

find_io_path_from-Chosen_example :
    let ch : NvmeChannel = nvme_channel in
    (r : Option ℕ) × (ch' : NvmeChannel) × (find_io_path_from ch ≡ ok (some (r, ch')))
    × Chosen ch r ch'
find_io_path_from-Chosen_example = find_io_path_from-Chosen (nvme_channel) (omega arith)
