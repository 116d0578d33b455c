-- ===== src/Select/Least.antt =====
-- `ump_find_iopath_service_time` and `ump_find_iopath_queue_length`.
use sump.Base.{
  ℕ, ◌+◌, ◌<◌, ◌≡◌, ◌≢◌, ◌⊎◌, inl, inr, ap, ◌∙◌, some, arith, ok, fault, Fault, modify, get_elem?,
  get_elem?-modify_self, get_elem?-modify_ne, u64_max, IsLeast, NoneBelow, minimum_loop-whole,
}
use sump.Bdev.{Io}
use sump.IoPath.{IoPath, Channel}
use sump.Select.{
  is_available, service_time, incomplete, count_io, find_iopath_service_time,
  find_iopath_queue_length,
}

-- `ump_find_iopath_service_time` returns the first of the available paths with the least average
-- delay for the kind of the I/O; if none has one below UINT64_MAX it returns a pointer that was
-- never assigned.
pub find_iopath_service_time_lem :
    (ch : Channel) (io : Io)
    → ((i : ℕ) × (find_iopath_service_time ch io ≡ ok i)
        × IsLeast is_available (service_time io) u64_max ch.iopath_list i)
      ⊎ ((find_iopath_service_time ch io ≡ fault Fault.no_value)
          × NoneBelow is_available (service_time io) u64_max ch.iopath_list)
unfolding find_iopath_service_time
find_iopath_service_time_lem ch io =
    elim (minimum_loop-whole is_available (service_time io) u64_max ch.iopath_list) [
      | inl (i, e, m) ↦ inl (i, rw (e, find_iopath_service_time), m)
      | inr (e, h) ↦ inr (rw (e, find_iopath_service_time), h)
    ]

-- `ump_find_iopath_queue_length` returns the first of the available paths with the fewest
-- incomplete I/Os, adds one to that path's count, and leaves the other paths alone; if none has a
-- count below UINT64_MAX it writes through a pointer that was never assigned.
pub find_iopath_queue_length_lem :
    (ch : Channel)
    → ((i : ℕ) × (ch' : Channel) × (find_iopath_queue_length ch ≡ ok (i, ch'))
        × IsLeast is_available incomplete u64_max ch.iopath_list i
        × ((p : IoPath)
            → get_elem? ch.iopath_list i ≡ some p
            → get_elem? ch'.iopath_list i ≡ some (record p { io_incomplete = p.io_incomplete + 1 }))
        × ((j : ℕ) → i ≢ j → get_elem? ch'.iopath_list j ≡ get_elem? ch.iopath_list j))
      ⊎ ((find_iopath_queue_length ch ≡ fault Fault.no_value)
          × NoneBelow is_available incomplete u64_max ch.iopath_list)
unfolding find_iopath_queue_length
find_iopath_queue_length_lem ch =
    elim (minimum_loop-whole is_available incomplete u64_max ch.iopath_list) [
      | inl (i, e, m) ↦ inl (
        i,
        record ch { iopath_list = modify ch.iopath_list i count_io },
        rw (e, find_iopath_queue_length),
        m,
        λ p at.
            get_elem?-modify_self ch.iopath_list i count_io at
            ∙ ap some (count_io_lem p (m.path) (ground (arith, m.found)) m.below),
        λ j ne. get_elem?-modify_ne ch.iopath_list i j count_io ne,
      )
      | inr (e, h) ↦ inr (rw (e, find_iopath_queue_length), h)
    ]
  where
    count_io_lem :
        (p q : IoPath)
        → p ≡ q
        → q.io_incomplete < u64_max
        → count_io p ≡ record p { io_incomplete = p.io_incomplete + 1 }
    count_io_lem p q e lt = ground (arith, ap incomplete e)
