-- ===== src/DataPath/Complete.antt =====
-- sump_ctrl.c `ump_bdev_io_completion_cb`, the branch of an I/O that succeeded, with
-- `update_io_time`.
use sump.Base.{
  ℕ, ◌≡◌, ◌≢◌, refl, ap, ◌∙◌, true, some, arith, modify, get_elem?, get_elem?-modify_self,
  get_elem?-modify_ne, ok, sub64, u64_max, Bool-cases, inl, inr,
}
use sump.Bdev.{Io, IoType, read, other, Callback}
use sump.TimeQueue.Window.{IsValid, update_io_time_detail-IsValid}
use sump.IoPath.{IoPath}
use sump.DataPath.{
  Lane, Reply, Effect, completed, submit_request, io_completion_cb, complete_success, change_path,
  uncount_io, update_io_time,
}
use sump.DataPath.Submit.{Sent, add_bytes, wrapped}

-- Both delay queues of a path are well formed.
pub record IsTimed (p : IoPath) : Type 0 where
  pub reads : IsValid p.io_read_time
  pub writes : IsValid p.io_write_time

-- The delay of an I/O is its time since it was submitted, on `uint64_t`.
abbrev pub delay : Reply → Io → ℕ
delay r io = sub64 r.ticks io.submit_tsc

update_io_time-IsTimed :
    (r : Reply) (io : Io) (p : IoPath) (t : IoType)
    → io.io_type ≡ t
    → IsTimed p
    → IsTimed (update_io_time r io p)
unfolding update_io_time
update_io_time-IsTimed r io p t e timed = elim (Bool-cases r.alloc_time) [
  | inr failed ↦ rw failed timed
  | inl got ↦ rw got (go t e)
]
  where
    go :
        (t : IoType)
        → io.io_type ≡ t
        → IsTimed (update_io_time (record r { alloc_time = true }) io p)
    go read e =
        rw (e, update_io_time)
          (record {
            reads = update_io_time_detail-IsValid (delay r io) p.io_read_time timed.reads;
            writes = timed.writes;
          })
    go (other n) e =
        rw (e, update_io_time)
          (record {
            reads = timed.reads;
            writes = update_io_time_detail-IsValid (delay r io) p.io_write_time timed.writes;
          })

-- What `update_io_time` leaves alone.
pub update_io_time-keeps :
    (r : Reply) (io : Io) (p : IoPath)
    → ((update_io_time r io p).io_incomplete ≡ p.io_incomplete)
      × ((update_io_time r io p).available ≡ p.available)
      × ((update_io_time r io p).id ≡ p.id)
      × ((update_io_time r io p).reconnecting ≡ p.reconnecting)
unfolding update_io_time
update_io_time-keeps r io p = go io.io_type refl
  where
    go :
        (t : IoType)
        → io.io_type ≡ t
        → ((update_io_time r io p).io_incomplete ≡ p.io_incomplete)
          × ((update_io_time r io p).available ≡ p.available)
          × ((update_io_time r io p).id ≡ p.id)
          × ((update_io_time r io p).reconnecting ≡ p.reconnecting)
    go read e = ground arith
    go (other n) e = ground arith

-- An I/O that succeeds on the path of its context: the callback of the context is called once,
-- with success; the path keeps its number and its availability, has one incomplete I/O fewer as a
-- `uint64_t`, and keeps its delay queues well formed; the other paths and `count` do not change.
pub complete_success_lem :
    (r : Reply) (lane : Lane) (io : Io) (i : ℕ) (real : Callback) (p : IoPath)
    → get_elem? lane.channel.iopath_list i ≡ some p
    → IsTimed p
    → (lane' : Lane) × (q : IoPath) × (io_completion_cb r lane io true (some i) real
        ≡ ok (lane', completed real true io))
      × (get_elem? lane'.channel.iopath_list i ≡ some q)
      × (q.id ≡ p.id)
      × (q.available ≡ p.available)
      × (q.io_incomplete ≡ sub64 p.io_incomplete 1)
      × IsTimed q
      × ((j : ℕ)
          → i ≢ j
          → get_elem? lane'.channel.iopath_list j ≡ get_elem? lane.channel.iopath_list j)
      × (lane'.count ≡ lane.count)
unfolding io_completion_cb complete_success
complete_success_lem r lane io i real p at timed =
    let f : IoPath → IoPath = λ x. uncount_io (update_io_time r io x) in
    let (incomplete, available, id, _) = update_io_time-keeps r io p in
    let t : IsTimed (update_io_time r io p) = update_io_time-IsTimed r io p io.io_type refl timed in
    (
      change_path i f lane,
      f p,
      rw at,
      get_elem?-modify_self lane.channel.iopath_list i f at,
      id,
      available,
      ap (λ n. sub64 n 1) incomplete,
      record { reads = t.reads; writes = t.writes },
      λ j ne. get_elem?-modify_ne lane.channel.iopath_list i j f ne,
      refl,
    )

-- As it is built, with the path chosen by hash, nothing adds to `io_incomplete`: the first I/O that
-- succeeds on a path takes its count of incomplete I/Os from 0 to UINT64_MAX.
pub io_incomplete-wraps :
    (r r' : Reply) (lane : Lane) (io : Io) (i : ℕ)
    → (s : Sent r lane io i) → s.path.io_incomplete ≡ 0
    → (lane1 lane2 : Lane) × (io' : Io) × (q : IoPath) × (submit_request r lane io
        ≡ ok (lane1, Effect.submitted i s.path.io_channel s.path.bdev io'))
      × (io'.cb ≡ Callback.ump lane.channel.address (some i) io.cb)
      × (io_completion_cb r' lane1 io' true (some i) io.cb ≡ ok (lane2, completed io.cb true io'))
      × (get_elem? lane2.channel.iopath_list i ≡ some q)
      × (q.io_incomplete ≡ u64_max)
unfolding io_completion_cb complete_success
io_incomplete-wraps r r' lane io i s none_yet =
    let io' : Io = wrapped lane i io in
    let f : IoPath → IoPath = λ x. uncount_io (update_io_time r' io' x) in
    let lane1 : Lane = record lane { count = modify lane.count i (add_bytes io) } in
    (
      lane1,
      change_path i f lane1,
      io',
      f s.path,
      s.result,
      refl,
      rw s.found,
      get_elem?-modify_self lane.channel.iopath_list i f s.found,
      ap (λ n. sub64 n 1) ((update_io_time-keeps r' io' s.path).0 ∙ none_yet),
    )
