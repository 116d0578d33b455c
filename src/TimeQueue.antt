-- ===== src/TimeQueue.antt =====
-- sump.h `struct time_queue`, sump_util.c `ump_time_queue_init`, sump_ctrl.c
-- `update_io_time_detail`: the delays of the last I/Os on one path, and their average.
pub mod Window
use sump.Base.{ℕ, ◌+◌, ◌/◌, List, [], ◌∷◌, ◌++◌, u32, u64, sub64, ltb, if◌then◌else◌}

-- `io_times` is `time_list`, oldest first; `len` is an `unsigned int`, the others `uint64_t`.
pub record TimeQueue : Type 0 where
  pub io_times : List ℕ
  pub len : ℕ
  pub io_time_all : ℕ
  pub io_time_avg : ℕ

-- `ump_time_queue_init`
unfoldable pub init : TimeQueue
init = record { io_times = []; len = 0; io_time_all = 0; io_time_avg = 0 }

-- The limit that the code writes as `20`.
abbrev pub limit : ℕ
limit = 20

-- TAILQ_REMOVE of the first element, `io_time_all -= tqh_first->io_time`, and the new average.
-- The list is never empty here, since an element was just inserted.
remove_first : List ℕ → ℕ → ℕ → TimeQueue
remove_first [] len all = record {
  io_times = [];
  len = len;
  io_time_all = all;
  io_time_avg = all / len;
}
remove_first (t ∷ rest) len all = record {
  io_times = rest;
  len = len;
  io_time_all = sub64 all t;
  io_time_avg = sub64 all t / len;
}

-- `update_io_time_detail`
unfoldable pub update_io_time_detail : ℕ → TimeQueue → TimeQueue
unfolding remove_first
update_io_time_detail io_time q =
    let times = q.io_times ++ (io_time ∷ []) in
    let all = u64 (q.io_time_all + io_time) in
    if ltb q.len limit
    then record {
      io_times = times;
      len = u32 (q.len + 1);
      io_time_all = all;
      io_time_avg = all / u32 (q.len + 1);
    }
    else remove_first times q.len all
