-- ===== src/Nvme/Io.antt =====
-- nvme/bdev_nvme.c: one I/O of an NVMe bdev: how it is submitted, completed and tried again.
pub mod Submit
pub mod Attempts
use sump.Base.{
  ℕ, suc, ◌+◌, ◌*◌, Bool, true, false, not, ◌&&◌, ◌||◌, List, [], ◌∷◌, Option, none, some,
  if◌then◌else◌, ◌==◌, modify, get_elem?, Outcome, ok, fault, Fault, ◌>>=◌, deref, assert, ℤ, pos,
  negsuc, is_zero, geb,
}
use sump.Nvme.Paths.{
  NvmePath, NvmeChannel, Flags, io_path_is_available, ctrlr_is_available, clear_current_io_path,
  nvme_find_io_path, any_io_path_may_become_available,
}
use sump.Nvme.Retry.{Retry, queue_retry_io}

-- `enum spdk_bdev_io_type`, as far as the code tells them apart: `command` stands for the types
-- whose commands are built and handed to spdk; `unknown` for the `default` of the switch.
pub data NvmeIoType : Type 0 where
  command flush reset nvme_admin abort unknown : NvmeIoType

-- `struct nvme_bdev_io` and the type of its `spdk_bdev_io`. `name` stands for its address; the
-- path is named by its place in the channel's list.
pub record NvmeIo : Type 0 where
  pub name : ℕ
  pub io_type : NvmeIoType
  pub io_path : Option ℕ
  pub retry_count : ℕ
  pub submit_tsc : ℕ

-- The channel with its list of I/O that waits.
pub record Lane : Type 0 where
  pub channel : NvmeChannel
  pub retry : Retry

-- `struct spdk_nvme_cpl`: what spdk's tests say of it, and the bits `dnr` and `crd` of its status.
pub record Completion : Type 0 where
  pub is_success : Bool
  pub dnr : Bool
  pub is_aborted_by_request : Bool
  pub is_path_error : Bool
  pub is_aborted_sq_deletion : Bool
  pub is_ana_error : Bool
  pub crd : ℕ

-- What is the case while one function runs: the clock with its frequency,
-- `g_opts.bdev_retry_count`, the controller's `crdt`, the result of
-- `nvme_ctrlr_read_ana_log_page`, and `submit_rc`, the result of the function that builds a command
-- and hands it to spdk (`bdev_nvme_readv`, `bdev_nvme_writev` and their like, which are SPDK's).
pub record Now : Type 0 where
  pub ticks : ℕ
  pub hz : ℕ
  pub bdev_retry_count : ℤ
  pub crdt : ℕ → ℕ
  pub read_ana_log_page : ℤ
  pub submit_rc : ℤ

-- The status with which a bdev I/O completes; `as_completed` is that of the NVMe completion.
pub data Status : Type 0 where
  success nomem failed as_completed : Status

-- What becomes of the I/O: it completes, it is with spdk on a path, it waits on the list, or
-- another function has it (a reset, an admin command or an abort).
pub data Fate : Type 0 where
  completed : Status → Fate
  issued : ℕ → Fate
  waits handed_on : Fate

-- -EINVAL, -ENOMEM and -ENXIO
abbrev pub einval : ℤ
einval = negsuc 21

abbrev pub enomem : ℤ
enomem = negsuc 11

abbrev pub enxio : ℤ
enxio = negsuc 5

abbrev pub is_rc : ℤ → ℤ → Bool
is_rc (pos a) (pos b) = a == b
is_rc (negsuc a) (negsuc b) = a == b
is_rc (pos a) (negsuc b) = false
is_rc (negsuc a) (pos b) = false

-- `bdev_nvme_io_type_is_admin`
unfoldable pub io_type_is_admin : NvmeIoType → Bool
io_type_is_admin NvmeIoType.reset = true
io_type_is_admin NvmeIoType.nvme_admin = true
io_type_is_admin NvmeIoType.abort = true
io_type_is_admin NvmeIoType.command = false
io_type_is_admin NvmeIoType.flush = false
io_type_is_admin NvmeIoType.unknown = false

-- `retry_count = 0` and `submit_tsc = 0` before an I/O completes.
abbrev pub rewound : NvmeIo → NvmeIo
rewound io = record io { retry_count = 0; submit_tsc = 0 }

-- `bdev_nvme_queue_retry_io`, called for an I/O of the channel.
abbrev pub wait : Now → ℕ → NvmeIo → Lane → NvmeIo × Lane × Fate
wait n delay_ms io lane =
    (io, record lane { retry = queue_retry_io n.hz n.ticks io.name delay_ms lane.retry }, waits)

-- `bdev_nvme_io_complete`
unfoldable pub io_complete : Now → ℤ → NvmeIo → Lane → NvmeIo × Lane × Fate
unfolding clear_current_io_path any_io_path_may_become_available
io_complete n rc io lane =
    if is_zero rc
    then (rewound io, lane, completed success)
    else if is_rc rc enomem
    then (rewound io, lane, completed nomem)
    else if is_rc rc enxio
    then (let ch = clear_current_io_path lane.channel in
        let cleared : Lane = record lane { channel = ch } in
        let io' : NvmeIo = record io { io_path = none } in
        if any_io_path_may_become_available ch
        then wait n 1000 io' cleared
        else (rewound io', cleared, completed failed))
    else (rewound io, lane, completed failed)

abbrev pub update_ana : NvmePath → NvmePath
update_ana p = record p { ana_state_updating = true }

-- `io_path->nvme_ns->ana_state_updating = true`, for the path at a place of the list.
abbrev pub mark_ana : ℕ → NvmeChannel → NvmeChannel
mark_ana i ch = record ch { io_path_list = modify ch.io_path_list i update_ana }

-- The part of `bdev_nvme_io_complete_nvme_status` for an error that may be tried again.
unfoldable pub retry_or_complete : Now → Completion → NvmeIo → Lane → Outcome (NvmeIo × Lane × Fate)
unfolding io_path_is_available ctrlr_is_available clear_current_io_path
    any_io_path_may_become_available
retry_or_complete n c io lane = do
  i ← deref io.io_path
  p ← deref (get_elem? lane.channel.io_path_list i)
  (if c.is_path_error
        || c.is_aborted_sq_deletion
        || not (io_path_is_available p)
        || not (ctrlr_is_available p.ctrlr)
      then (let ch = clear_current_io_path lane.channel in
          let ch' = if c.is_ana_error && is_zero n.read_ana_log_page then mark_ana i ch else ch in
          let cleared : Lane = record lane { channel = ch' } in
          let io' : NvmeIo = record io { io_path = none } in
          if any_io_path_may_become_available ch'
          then ok (wait n 0 io' cleared)
          else ok (rewound io', cleared, completed as_completed))
      else ok (
          wait n (if c.crd == 0 then 0 else n.crdt c.crd * 100)
            (record io { retry_count = suc io.retry_count }) lane))

-- `bdev_nvme_io_complete_nvme_status`; the statistics are left out.
unfoldable pub io_complete_nvme_status :
    Now → Completion → NvmeIo → Lane → Outcome (NvmeIo × Lane × Fate)
unfolding io_type_is_admin retry_or_complete
io_complete_nvme_status n c io lane = assert (not (io_type_is_admin io.io_type)) (
    if c.is_success
    then ok (rewound io, lane, completed as_completed)
    else if c.dnr
        || c.is_aborted_by_request
        || (not (is_rc n.bdev_retry_count (negsuc 0))
            && geb (pos io.retry_count) n.bdev_retry_count)
    then ok (rewound io, lane, completed as_completed)
    else retry_or_complete n c io lane)

-- The end of `_bdev_nvme_submit_request`.
abbrev pub after_submit : Now → ℤ → NvmeIo → Lane → Outcome (NvmeIo × Lane × Fate)
after_submit n rc io lane =
    if is_zero rc
    then (deref io.io_path >>= λ i. ok (io, lane, issued i))
    else ok (io_complete n rc io lane)

-- `_bdev_nvme_submit_request`: a command reads its path.
unfoldable pub submit_on_path : Now → NvmeIo → Lane → Outcome (NvmeIo × Lane × Fate)
unfolding io_complete
submit_on_path n io lane = elim io.io_type [
  | NvmeIoType.command ↦ (deref io.io_path >>= λ i. after_submit n n.submit_rc io lane)
  | NvmeIoType.flush ↦ ok (io_complete n (pos 0) io lane)
  | NvmeIoType.reset ↦ ok (record io { io_path = none }, lane, handed_on)
  | NvmeIoType.nvme_admin ↦ ok (record io { io_path = none }, lane, handed_on)
  | NvmeIoType.abort ↦ ok (record io { io_path = none }, lane, handed_on)
  | NvmeIoType.unknown ↦ ok (io_complete n einval io lane)
]

-- `bdev_nvme_submit_request`; `bdev_tsc` is `spdk_bdev_io_get_submit_tsc`. The outer `none` is
-- that of `nvme_find_io_path`.
unfoldable pub nvme_submit_request :
    Now → (bdev_tsc : ℕ) → NvmeIo → Lane → Outcome (Option (NvmeIo × Lane × Fate))
unfolding io_type_is_admin submit_on_path io_complete
nvme_submit_request n bdev_tsc io lane =
    let tsc = if io.submit_tsc == 0 then bdev_tsc else n.ticks in
    do
      found ← nvme_find_io_path lane.channel
      elim found [
        | none ↦ ok none
        | some (path, ch) ↦
            let lane' : Lane = record lane { channel = ch } in
            let io' : NvmeIo = record io { submit_tsc = tsc; io_path = path } in
            let go = (submit_on_path n io' lane' >>= λ r. ok (some r)) in
            elim path [
              | some i ↦ go
              | none ↦
                  if not (io_type_is_admin io.io_type)
                  then ok (some (io_complete n enxio io' lane'))
                  else go
            ]
      ]

-- `bdev_nvme_retry_io`
unfoldable pub retry_io :
    Now → (bdev_tsc : ℕ) → NvmeIo → Lane → Outcome (Option (NvmeIo × Lane × Fate))
unfolding nvme_submit_request submit_on_path io_path_is_available
retry_io n bdev_tsc io lane = elim io.io_path [
  | none ↦ nvme_submit_request n bdev_tsc io lane
  | some i ↦
      (deref (get_elem? lane.channel.io_path_list i) >>= λ p.
      if io_path_is_available p
      then (submit_on_path n io lane >>= λ r. ok (some r))
      else nvme_submit_request n bdev_tsc io lane)
]
