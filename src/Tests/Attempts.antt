-- ===== src/Tests/Attempts.antt =====
-- The attempts at one I/O of an NVMe bdev, with concrete completions.
use sump.Base.{
  ℕ, ◌+◌, ◌<◌, ◌≡◌, refl, true, false, List, [], ◌∷◌, if◌then◌else◌, ◌==◌, Option, none, some,
  arith, ok, pos,
}
use sump.Nvme.Paths.{NvmeChannel, Policy}
use sump.Nvme.Paths.Cache.{finds, finds-Chosen}
use sump.Nvme.Paths.Choice.{Chosen}
use sump.Nvme.Io.{NvmeIoType, NvmeIo, Lane, Completion, Now, Status, completed, issued}
use sump.Nvme.Io.Submit.{Report, Round, rounds, IsIssued}
use sump.Nvme.Io.Attempts.{rounds-end}
use sump.Tests.NvmePaths.{nvme_channel}

abbrev nvme_lane : Lane
nvme_lane = record {
  channel = nvme_channel;
  retry = record { retry_io_list = []; retry_io_poller = none };
}

-- A command that spdk has on the second path.
abbrev sent : NvmeIo
sent = record {
  name = 1;
  io_type = NvmeIoType.command;
  io_path = some 1;
  retry_count = 0;
  submit_tsc = 20;
}

abbrev now : ℕ → Now
now ticks = record {
  ticks = ticks;
  hz = 1000;
  bdev_retry_count = pos 2;
  crdt = λ n. n;
  read_ana_log_page = pos 0;
  submit_rc = pos 0;
}

-- A command that failed, and may be tried again.
abbrev failed_once : Completion
failed_once = record {
  is_success = false;
  dnr = false;
  is_aborted_by_request = false;
  is_path_error = false;
  is_aborted_sq_deletion = false;
  is_ana_error = false;
  crd = 0;
}

abbrev failed_path : Completion
failed_path = record failed_once { is_path_error = true }

-- Nothing is new.
abbrev unchanged : Report
unchanged = record { path = λ i p. p; forgets = false }

-- The second path goes down, and the path that was remembered is forgotten.
abbrev second_down : Report
second_down = record {
  path = λ i p. if i == 1 then record p { has_qpair = false } else p;
  forgets = true;
}

abbrev again : ℕ → Round
again ticks = record {
  before = unchanged;
  now = now ticks;
  completion = failed_once;
  between = second_down;
  later = now (ticks + 5);
}

-- The second path serves batches of three calls, one of which is done.
abbrev turning : NvmeChannel
turning = record nvme_channel {
  current_io_path = some 1;
  mp_policy = Policy.active_active;
  rr_min_io = 3;
  rr_counter = 1;
}

sent-IsIssued : IsIssued sent nvme_lane 1
sent-IsIssued = record { is_command = refl; on_path = refl; in_list = omega arith; remembered = tt }

rounds-end_example :
    let m : ℕ = 2 in
    let rs : List Round = again 30 ∷ again 40 ∷ again 50 ∷ [] in
    let io : NvmeIo = sent in
    let lane : Lane = nvme_lane in
    let i : ℕ = 1 in
    (io' : NvmeIo) × (lane' : Lane) × (s : Status) × (rounds rs io lane (issued i)
      ≡ ok (some (io', lane', completed s)))
rounds-end_example =
    rounds-end (2) (again 30 ∷ again 40 ∷ again 50 ∷ []) (sent) (nvme_lane) (1)
      (refl, (refl, (refl, tt))) (sent-IsIssued) (omega arith) (omega arith)

finds-Chosen_example :
    let k : ℕ = 1 in
    let i : ℕ = 1 in
    let ch : NvmeChannel = turning in
    ((j : ℕ) → j < k → (ch' : NvmeChannel) × (finds j ch ≡ ok (some (some i, ch'))))
    × ((r : Option ℕ) × (ch' : NvmeChannel) × (finds k ch ≡ ok (some (r, ch')))
        × Chosen (record ch { rr_counter = 0 }) r ch')
finds-Chosen_example =
    finds-Chosen (1) (1) (turning) (refl) (refl) (refl) (omega arith) (omega arith) (omega arith)
