-- ===== src/Tests/Paths.antt =====
-- The choice of a path, and the queue of delays, on concrete channels.
use sump.Base.{
  ℕ, suc, ◌+◌, ◌/◌, ◌%◌, ◌^◌, ◌≤◌, ◌<◌, ◌≡◌, ◌⊎◌, ◌↔◌, refl, true, false, List, [], ◌∷◌, Option,
  none, some, arith, ok, fault, Fault, length, u64, u64_max, first, IsLeast, NoneBelow,
}
use sump.Tests.Data.{path_of, two_paths, two_paths-HasIds, two_paths-Available, read_at}
use sump.Bdev.{Io}
use sump.IoPath.{IoPath, Channel}
use sump.TimeQueue.{init, limit}
use sump.TimeQueue.Window.{record_all, last_n, sum, record_all_lem}
use sump.Select.{
  is_available, service_time, find_iopath, find_iopath_hash, find_iopath_service_time,
  find_iopath_random, hash_loops, hash_id, random_loop,
}
use sump.Select.Hash.{Available, AllDown, slot, take_down, find_iopath-total, find_iopath-take_down}
use sump.Select.Least.{find_iopath_service_time_lem}
use sump.Select.RoundRobin.{call, call-rotates, call-starves}

record_all_lem_example :
    let ts : List ℕ = 3 ∷ 4 ∷ 8 ∷ [] in
    let q = record_all init ts in
    let recent = last_n limit ts in
    (q.io_times ≡ recent)
    × (q.len ≡ length recent)
    × (q.len ≤ limit)
    × (q.io_time_all ≡ u64 (sum recent))
    × (sum recent < 2 ^ 64 → q.io_time_avg ≡ sum recent / length recent)
record_all_lem_example = record_all_lem (3 ∷ 4 ∷ 8 ∷ [])

find_at_8 : find_iopath (two_paths true) (read_at 8) ≡ ok (some 1)
unfolding find_iopath find_iopath_hash hash_loops hash_id first
find_at_8 = refl

draw_1 : find_iopath_random (1 ∷ []) (two_paths true) ≡ ok (some (some 1))
unfolding find_iopath_random random_loop
draw_1 = refl

find_iopath-total_example :
    let ch : Channel = two_paths true in
    let io : Io = read_at 8 in
    (r : Option ℕ) × (find_iopath ch io ≡ ok r)
    × ((r ≡ none) ↔ AllDown ch.iopath_list)
    × ((i : ℕ) → r ≡ some i → Available ch.iopath_list i)
    × (Available ch.iopath_list (slot ch io) → r ≡ some (slot ch io))
find_iopath-total_example =
    find_iopath-total (two_paths true) (read_at 8) (two_paths-HasIds true) (omega arith)
      (omega arith)

find_iopath-take_down_example :
    let ch : Channel = two_paths true in
    let io : Io = read_at 8 in
    let i : ℕ = 0 in let k : ℕ = 1 in find_iopath (take_down i ch) io ≡ ok (some k)
find_iopath-take_down_example =
    find_iopath-take_down (two_paths true) (read_at 8) (0) (1) (two_paths-HasIds true) (omega arith)
      (omega arith) (find_at_8) (omega arith)

find_iopath_service_time_lem_example :
    let ch : Channel = two_paths true in
    let io : Io = read_at 8 in
    ((i : ℕ) × (find_iopath_service_time ch io ≡ ok i)
      × IsLeast is_available (service_time io) u64_max ch.iopath_list i)
    ⊎ ((find_iopath_service_time ch io ≡ fault Fault.no_value)
        × NoneBelow is_available (service_time io) u64_max ch.iopath_list)
find_iopath_service_time_lem_example = find_iopath_service_time_lem (two_paths true) (read_at 8)

call-rotates_example :
    let k : ℕ = 5 in
    let turn : ℕ = 0 in
    let ch : Channel = two_paths true in
    call k turn ch
    ≡ ok ((turn + k) % length ch.iopath_list, suc ((turn + k) % length ch.iopath_list))
call-rotates_example =
    call-rotates (5) (0) (two_paths true) (two_paths-Available) (omega arith) (omega arith)

call-starves_example :
    let k : ℕ = 3 in
    let turn : ℕ = 1 in
    let m : ℕ = 1 in
    let a : ℕ = 0 in
    let ch : Channel = two_paths false in
    let p : IoPath = path_of 1 false in
    (i : ℕ) × (turn' : ℕ) × (call k turn ch ≡ ok (i, turn')) × (i < m)
call-starves_example =
    call-starves (3) (1) (1) (0) (two_paths false) (path_of 1 false) (refl) (refl)
      (path_of 0 true, refl, refl) (omega arith) (omega arith)
