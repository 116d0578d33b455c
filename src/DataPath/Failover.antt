-- ===== src/DataPath/Failover.antt =====
-- sump_ctrl.c `ump_bdev_io_completion_cb`: success, failure, and the failover to another path.
use sump.Base.{
  ℕ, List, [], ◌∷◌, All, length, ◌+◌, ◌≡◌, ◌≢◌, inl, inr, ◌∙◌, true, false, arith, length-modify,
  modify, Outcome, ok, fault, Fault, ◌>>=◌,
}
use sump.Bdev.{Io, Callback}
use sump.IoPath.{IoPath}
use sump.DataPath.{
  Lane, Reply, Effect, nothing, submitted, completed, submit_request, io_completion_cb,
}
use sump.DataPath.Submit.{IsReady, Sent, add_bytes, wrapped, submit_request_lem}
use sump.DataPath.Down.{available_count, AllDown-count, count-Available, complete_failure-Failed}

-- The completion with failure of an I/O that was submitted, by the callback that it has.
pub fail_next : Reply → Lane × Effect → Outcome (Lane × Effect)
fail_next r (lane, submitted i ch b io) = elim io.cb [
  | Callback.ump _ path real ↦ io_completion_cb r lane io false path real
  | _ ↦ ok (lane, submitted i ch b io)
]
fail_next r (lane, nothing) = ok (lane, nothing)
fail_next r (lane, completed cb s io) = ok (lane, completed cb s io)

-- Attempts at one I/O that fail, one after the other, each with what other code answers then.
pub fail_times : List Reply → Outcome (Lane × Effect) → Outcome (Lane × Effect)
fail_times [] o = o
fail_times (r ∷ rs) o = fail_times rs (o >>= fail_next r)

-- Memory for both contexts can be had.
abbrev pub HasMemory : Reply → Type 0
HasMemory r = (r.alloc_ctx ≡ true) × (r.alloc_failback ≡ true)

-- The completion with failure of an I/O that `submit_request` has sent.
fail_next-sent :
    (r0 r : Reply) (lane : Lane) (io : Io) (i : ℕ)
    → IsReady lane
    → HasMemory r
    → Sent r0 lane io i
    → (lane' : Lane) × ((submit_request r0 lane io >>= fail_next r)
        ≡ submit_request r lane' (record io { submit_tsc = r.ticks }))
      × IsReady lane'
      × (available_count lane'.channel.iopath_list + 1 ≡ available_count lane.channel.iopath_list)
unfolding fail_next io_completion_cb
fail_next-sent r0 r lane io i ready (ctx, fb) s =
    let lane1 : Lane = record lane { count = modify lane.count i (add_bytes io) } in
    let ready1 : IsReady lane1 = record {
      ids = ready.ids;
      four = length-modify lane.count i (add_bytes io) ∙ ready.four;
      room = ready.room;
    } in
    let (lane', e, failed) =
      complete_failure-Failed r lane1 (wrapped lane i io) i io.cb ready1 fb
        (s.path, s.found, s.up) in
    (lane', rw (s.result) e, failed.ready, failed.fewer)

-- An I/O that fails on every path never completes with an error: with `n` paths available, the
-- attempt after `n` failures reads through NULL, whatever the clock says and whatever pollers are
-- registered meanwhile. The channel is ready, the I/O has at least one block, and memory for both
-- contexts can be had each time.
pub fail_times-exhausts :
    (r0 : Reply) (rs : List Reply) (lane : Lane) (io : Io)
    → IsReady lane
    → io.num_blocks ≢ 0
    → r0.alloc_ctx ≡ true
    → All HasMemory rs
    → available_count lane.channel.iopath_list ≡ length rs
    → fail_times rs (submit_request r0 lane io) ≡ fault Fault.null_deref
unfolding fail_times
fail_times-exhausts r0 [] lane io ready ne ctx mem none_left =
    elim (submit_request_lem r0 lane io ready ne ctx) [
      | inl (i, s) ↦ absurd (
          omega
            (arith, none_left, count-Available lane.channel.iopath_list i (s.path, s.found, s.up)))
      | inr (down, bad) ↦ bad
    ]
fail_times-exhausts r0 (r ∷ rs) lane io ready ne ctx (mem, mems) left =
    elim (submit_request_lem r0 lane io ready ne ctx) [
      | inr (down, bad) ↦ absurd (omega (arith, left, AllDown-count lane.channel.iopath_list down))
      | inl (i, s) ↦
          let (lane', e, ready', fewer) = fail_next-sent r0 r lane io i ready mem s in
          let again : Io = record io { submit_tsc = r.ticks } in
          rw e
            (fail_times-exhausts r rs lane' again ready' ne mem.0 mems (omega (arith, left, fewer)))
    ]
