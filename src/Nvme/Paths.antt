-- ===== src/Nvme/Paths.antt =====
-- nvme/bdev_nvme.c: the paths of one NVMe bdev on one thread, and how one is chosen.
pub mod Cache
pub mod Round
pub mod Choice
pub mod Depth
use sump.Base.{
  ℕ, zero, suc, ◌+◌, ◌^◌, ◌-◌, Bool, true, false, not, ◌&&◌, ◌||◌, List, [], ◌∷◌, Option, none,
  some, if◌then◌else◌, ltb, ◌==◌, length, get_elem?, Outcome, ok, fault, Fault, ◌>>=◌, deref, u32,
}

-- `enum spdk_nvme_ana_state`, with the states that the code does not name in one.
pub data AnaState : Type 0 where
  optimized non_optimized inaccessible : AnaState

-- What the code reads of a `struct nvme_ctrlr`: its flags, `opts.reconnect_delay_sec`, and the
-- answer of `spdk_nvme_ctrlr_is_failed`.
pub record Flags : Type 0 where
  pub destruct : Bool
  pub fast_io_fail_timedout : Bool
  pub resetting : Bool
  pub reconnect_is_delayed : Bool
  pub reconnect_delay_sec : ℕ
  pub is_failed : Bool

-- `struct nvme_io_path` with the fields of its `nvme_ns`, its `qpair` and its controller that the
-- code reads: whether `qpair->qpair` is set, whether spdk reports a failure of that qpair or of the
-- admin qpair, whether `reset_iter` is set, and the number of outstanding requests.
pub record NvmePath : Type 0 where
  pub ana_state : AnaState
  pub ana_state_updating : Bool
  pub has_qpair : Bool
  pub qpair_failed : Bool
  pub reset_iter : Bool
  pub admin_qp_failed : Bool
  pub num_outstanding_reqs : ℕ
  pub ctrlr : Flags

pub data Policy : Type 0 where
  active_passive active_active : Policy

pub data Selector : Type 0 where
  round_robin queue_depth : Selector

-- `struct nvme_bdev_channel`; a path is named by its place in `io_path_list`.
pub record NvmeChannel : Type 0 where
  pub current_io_path : Option ℕ
  pub mp_policy : Policy
  pub mp_selector : Selector
  pub rr_min_io : ℕ
  pub rr_counter : ℕ
  pub io_path_list : List NvmePath

-- `nvme_ns_is_accessible`
unfoldable pub ns_is_accessible : NvmePath → Bool
ns_is_accessible p = if p.ana_state_updating then false else elim p.ana_state [
  | AnaState.optimized ↦ true
  | AnaState.non_optimized ↦ true
  | AnaState.inaccessible ↦ false
]

-- `nvme_io_path_is_connected`
unfoldable pub is_connected : NvmePath → Bool
is_connected p =
    if not p.has_qpair
    then false
    else if p.qpair_failed
    then false
    else if p.reset_iter
    then false
    else if p.admin_qp_failed
    then false
    else true

-- `nvme_io_path_is_available`
unfoldable pub io_path_is_available : NvmePath → Bool
unfolding is_connected ns_is_accessible
io_path_is_available p =
    if not (is_connected p) then false else if not (ns_is_accessible p) then false else true

-- `nvme_io_path_is_failed`
unfoldable pub io_path_is_failed : NvmePath → Bool
io_path_is_failed p =
    if destruct
    then true
    else if fast_io_fail_timedout
    then true
    else if resetting
    then if reconnect_delay_sec == 0 then true else false
    else if reconnect_is_delayed
    then false
    else if is_failed
    then true
    else false
  where
    open (p.ctrlr) use {
      destruct, fast_io_fail_timedout, resetting, reconnect_is_delayed, reconnect_delay_sec,
      is_failed,
    }

-- `nvme_ctrlr_is_available`
unfoldable pub ctrlr_is_available : Flags → Bool
ctrlr_is_available c =
    if c.destruct
    then false
    else if c.is_failed
    then false
    else if c.resetting || c.reconnect_is_delayed
    then false
    else true

-- `bdev_nvme_clear_current_io_path`
unfoldable pub clear_current_io_path : NvmeChannel → NvmeChannel
clear_current_io_path ch = record ch { current_io_path = none; rr_counter = 0 }

-- `nvme_io_path_get_next`, in a list of `n` paths that is not empty.
unfoldable pub get_next : ℕ → Option ℕ → ℕ
get_next n none = 0
get_next n (some i) = if ltb (suc i) n then suc i else 0

-- The test at the head of the loops: connected, and the ANA state not being read again.
abbrev pub is_usable : NvmePath → Bool
is_usable p = is_connected p && not p.ana_state_updating

pub data Found : Type 0 where
  best : ℕ → Found
  fallback : Option ℕ → Found

-- `if (non_optimized == NULL) non_optimized = io_path`
abbrev pub keep_first : Option ℕ → ℕ → Option ℕ
keep_first none i = some i
keep_first (some j) i = some j

-- What the body of the loop does with the path at `i`: it returns, or goes on with `non_optimized`, `other` here.
unfoldable pub visit : NvmePath → ℕ → Option ℕ → Found
visit p i other =
    if is_usable p
    then elim p.ana_state [
      | AnaState.optimized ↦ best i
      | AnaState.non_optimized ↦ fallback (keep_first other i)
      | AnaState.inaccessible ↦ fallback other
    ]
    else fallback other

-- The `do ... while (io_path != start)` of `_bdev_nvme_find_io_path`, round the list from `start`;
-- fuel is spent on each path. `none` says that it ran out.
unfoldable pub find_loop : ℕ → List NvmePath → ℕ → ℕ → Option ℕ → Outcome (Option Found)
find_loop zero paths start i other = ok none
find_loop (suc fuel) paths start i other = do
  p ← deref (get_elem? paths i)
  elim (visit p i other) [
    | best j ↦ ok (some (best j))
    | fallback r ↦ elim (get_next (length paths) (some i) == start) [
      | true ↦ ok (some (fallback r))
      | false ↦ find_loop fuel paths start (get_next (length paths) (some i)) r
    ]
  ]

-- `_bdev_nvme_find_io_path`: an optimized path is remembered as the current one; another one only
-- under the active-active policy. The fuel is the number of paths; the code reads the first path
-- before any test, also that of an empty list.
unfoldable pub find_io_path_from : NvmeChannel → Outcome (Option (Option ℕ × NvmeChannel))
find_io_path_from ch =
    let n = length ch.io_path_list in
    let start = get_next n ch.current_io_path in
    do
      r ← find_loop (suc (n - 1)) ch.io_path_list start start none
      elim r [
        | none ↦ ok none
        | some (best i) ↦ ok (some (some i, record ch { current_io_path = some i }))
        | some (fallback j) ↦ elim ch.mp_policy [
          | Policy.active_active ↦ ok (some (j, record ch { current_io_path = j }))
          | Policy.active_passive ↦ ok (some (j, ch))
        ]
      ]

abbrev pub u32_max : ℕ
u32_max = 2 ^ 32 - 1

-- The two minima of `_bdev_nvme_find_io_path_min_qd`: the least depth and the path that has it,
-- among the optimized paths and among the others.
pub record Minima : Type 0 where
  pub opt_min_qd : ℕ
  pub optimized : Option ℕ
  pub non_opt_min_qd : ℕ
  pub non_optimized : Option ℕ

-- One path of that loop.
unfoldable pub visit_qd : NvmePath → ℕ → Minima → Minima
visit_qd p i m =
    if is_usable p
    then elim p.ana_state [
      | AnaState.optimized ↦
          if ltb p.num_outstanding_reqs m.opt_min_qd
          then record m { opt_min_qd = p.num_outstanding_reqs; optimized = some i }
          else m
      | AnaState.non_optimized ↦
          if ltb p.num_outstanding_reqs m.non_opt_min_qd
          then record m { non_opt_min_qd = p.num_outstanding_reqs; non_optimized = some i }
          else m
      | AnaState.inaccessible ↦ m
    ]
    else m

unfoldable pub min_qd_loop : List NvmePath → ℕ → Minima → Minima
unfolding visit_qd
min_qd_loop [] i m = m
min_qd_loop (p ∷ ps) i m = min_qd_loop ps (suc i) (visit_qd p i m)

-- `_bdev_nvme_find_io_path_min_qd`
unfoldable pub find_io_path_min_qd : List NvmePath → Option ℕ
unfolding min_qd_loop
find_io_path_min_qd paths =
    let m = min_qd_loop paths 0 (record {
      opt_min_qd = u32_max;
      optimized = none;
      non_opt_min_qd = u32_max;
      non_optimized = none;
    }) in
    elim m.optimized [ some i ↦ some i | none ↦ m.non_optimized ]

-- The last part of `bdev_nvme_find_io_path`, after the cached path has been considered.
unfoldable pub find_io_path_new : NvmeChannel → Outcome (Option (Option ℕ × NvmeChannel))
unfolding find_io_path_from find_io_path_min_qd
find_io_path_new ch = elim ch.mp_policy [
  | Policy.active_passive ↦ find_io_path_from ch
  | Policy.active_active ↦ elim ch.mp_selector [
    | Selector.round_robin ↦ find_io_path_from ch
    | Selector.queue_depth ↦ ok (some (find_io_path_min_qd ch.io_path_list, ch))
  ]
]

-- `bdev_nvme_find_io_path`
unfoldable pub nvme_find_io_path : NvmeChannel → Outcome (Option (Option ℕ × NvmeChannel))
unfolding find_io_path_new
nvme_find_io_path ch = elim ch.current_io_path [
  | none ↦ find_io_path_new ch
  | some i ↦ elim ch.mp_policy [
    | Policy.active_passive ↦ ok (some (some i, ch))
    | Policy.active_active ↦ elim ch.mp_selector [
      | Selector.queue_depth ↦ find_io_path_new ch
      | Selector.round_robin ↦
          if ltb (u32 (ch.rr_counter + 1)) ch.rr_min_io
          then ok (some (some i, record ch { rr_counter = u32 (ch.rr_counter + 1) }))
          else find_io_path_new (record ch { rr_counter = 0 })
    ]
  ]
]

-- `any_io_path_may_become_available`, as it is patched: the loop is commented out.
unfoldable pub any_io_path_may_become_available : NvmeChannel → Bool
any_io_path_may_become_available ch = false
