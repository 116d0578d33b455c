-- ===== src/Select.antt =====
-- sump_ctrl.c, path selection: `ump_bdev_find_iopath` and the algorithms that it can be built with.
-- A path is returned as its place in `iopath_list`.
pub mod Hash
pub mod Least
pub mod RoundRobin
pub mod Random
pub mod Weighted
use sump.Base.{
  ℕ, zero, suc, ◌+◌, ◌/◌, ◌%◌, Bool, true, false, ◌&&◌, List, [], ◌∷◌, Option, none, some, u32, ltb,
  ◌==◌, if◌then◌else◌, first, minimum_loop, length, modify, Outcome, ok, fault, Fault, ◌>>=◌,
  assigned, u64, u64_max,
}
use sump.Bdev.{Io, IoType}
use sump.TimeQueue.{TimeQueue}
use sump.IoPath.{IoPath, Channel}

abbrev pub is_available : IoPath → Bool
is_available p = p.available

-- `iopath->available && chose_id == iopath->id`
abbrev pub is_chosen : ℕ → IoPath → Bool
is_chosen chose_id p = p.available && (chose_id == p.id)

-- The two loops of `ump_find_iopath_hash`.
unfoldable pub hash_loops : ℕ → List IoPath → Option ℕ
hash_loops chose_id paths = elim (first (is_chosen chose_id) paths) [
  | some i ↦ some i
  | none ↦ first is_available paths
]

-- `chose_id`, an `unsigned int`: the division and the remainder trap at 0.
unfoldable pub hash_id : ℕ → Io → Outcome ℕ
hash_id max_id io =
    if io.num_blocks == 0
    then fault Fault.div_by_zero
    else if max_id == 0
    then fault Fault.div_by_zero
    else ok (u32 (io.offset_blocks / io.num_blocks % max_id))

unfoldable pub find_iopath_hash : Channel → Io → Outcome (Option ℕ)
unfolding hash_id
find_iopath_hash ch io = do chose_id ← hash_id ch.max_id io; ok (hash_loops chose_id ch.iopath_list)

-- `ump_bdev_find_iopath`, as it is built: by hash.
unfoldable pub find_iopath : Channel → Io → Outcome (Option ℕ)
find_iopath ch io = elim ch.iopath_list [ [] ↦ ok none | _ ∷ _ ↦ find_iopath_hash ch io ]

-- The key of `ump_find_iopath_service_time`: the average delay for the kind of I/O.
abbrev pub service_time : Io → IoPath → ℕ
service_time io p = elim io.io_type [
  | IoType.read ↦ p.io_read_time.io_time_avg
  | IoType.other _ ↦ p.io_write_time.io_time_avg
]

unfoldable pub find_iopath_service_time : Channel → Io → Outcome ℕ
find_iopath_service_time ch io =
    assigned (minimum_loop is_available (service_time io) u64_max none 0 ch.iopath_list)

abbrev pub incomplete : IoPath → ℕ
incomplete p = p.io_incomplete

-- `iopath_chosen->io_incomplete++`, on `uint64_t`
abbrev pub count_io : IoPath → IoPath
count_io p = record p { io_incomplete = u64 (p.io_incomplete + 1) }

unfoldable pub find_iopath_queue_length : Channel → Outcome (ℕ × Channel)
find_iopath_queue_length ch = do
  i ← assigned (minimum_loop is_available incomplete u64_max none 0 ch.iopath_list)
  ok (i, record ch { iopath_list = modify ch.iopath_list i count_io })

-- The first loop of `ump_find_iopath_round_robin`: `idx` counts the paths that it passes over.
unfoldable pub turn_loop : ℕ → ℕ → List IoPath → Option ℕ
turn_loop turn idx [] = none
turn_loop turn idx (p ∷ ps) =
    let rest = turn_loop turn (suc idx) ps in
    if p.available && (idx == turn) then some idx else rest

-- `ump_find_iopath_round_robin`, with the static `turn` passed in and out. The second loop adds
-- one to `turn` for each path that it passes over; it may run off the end of the function.
unfoldable pub find_iopath_round_robin : ℕ → Channel → Outcome (ℕ × ℕ)
find_iopath_round_robin turn ch = elim (turn_loop turn 0 ch.iopath_list) [
  | some i ↦ ok (i, suc turn)
  | none ↦ elim (first is_available ch.iopath_list) [
    | some i ↦ ok (i, 1 + i)
    | none ↦ fault Fault.no_value
  ]
]

-- What one round of `ump_find_iopath_random` comes to.
pub data Draw : Type 0 where
  found : ℕ → Draw
  gives_up : Draw
  again : Draw

-- The inner loop: `turn` is the number drawn, `count` counts the unavailable paths so far.
unfoldable pub random_loop : ℕ → ℕ → ℕ → ℕ → List IoPath → Draw
random_loop max_id turn count place [] = again
random_loop max_id turn count place (p ∷ ps) =
    let count' = if p.available then count else suc count in
    let rest = random_loop max_id turn count' (suc place) ps in
    if p.id == turn
    then if p.available then found place else if count' == max_id then gives_up else again
    else rest

-- `ump_find_iopath_random`: the numbers that `rand` returns are a list; `none` says that they ran
-- out while the loop was still going.
unfoldable pub find_iopath_random : List ℕ → Channel → Outcome (Option (Option ℕ))
find_iopath_random [] ch = ok none
find_iopath_random (r ∷ rs) ch =
    let rest = find_iopath_random rs ch in
    if ch.max_id == 0
    then fault Fault.div_by_zero
    else elim (random_loop ch.max_id (r % ch.max_id) 0 0 ch.iopath_list) [
      | found i ↦ ok (some (some i))
      | gives_up ↦ ok (some none)
      | again ↦ rest
    ]
