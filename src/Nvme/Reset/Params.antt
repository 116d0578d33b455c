-- ===== src/Nvme/Reset/Params.antt =====
-- bdev_nvme_check_io_error_resiliency_params of nvme/bdev_nvme.c, and the patch that undoes it.
use sump.Base.{
  ℕ, zero, suc, ◌≤◌, ◌<◌, ◌≡◌, ◌≢◌, ◌↔◌, Bool, true, false, not, ◌&&◌, ◌||◌, Option, none, some,
  if◌then◌else◌, ltb, ◌==◌, ℤ, pos, negsuc, arith,
}
use sump.Nvme.Reset.{Ctrlr, Timeouts, reconnect_ctrlr_poll}

-- `bdev_nvme_check_io_error_resiliency_params`; a positive `int32_t` is its own `uint32_t`.
unfoldable pub check_params : Timeouts → Bool
check_params o = elim o.ctrlr_loss_timeout_sec [
  | negsuc (suc n) ↦ false
  | negsuc zero ↦
      if o.reconnect_delay_sec == 0
      then false
      else if not (o.fast_io_fail_timeout_sec == 0)
          && ltb o.fast_io_fail_timeout_sec o.reconnect_delay_sec
      then false
      else true
  | pos (suc n) ↦
      if o.reconnect_delay_sec == 0
      then false
      else if ltb (suc n) o.reconnect_delay_sec
      then false
      else if not (o.fast_io_fail_timeout_sec == 0)
      then if ltb o.fast_io_fail_timeout_sec o.reconnect_delay_sec
        then false
        else if ltb (suc n) o.fast_io_fail_timeout_sec
        then false
        else true
      else true
  | pos zero ↦
      if not (o.reconnect_delay_sec == 0) || not (o.fast_io_fail_timeout_sec == 0)
      then false
      else true
]

-- How long a controller may stay away: never, without a bound, or a number of seconds.
unfoldable pub FitsLoss : ℤ → ℕ → Type 0
FitsLoss (pos n) t = t ≤ n
FitsLoss (negsuc zero) t = Unit {0}
FitsLoss (negsuc (suc n)) t = ⊥

-- The timeouts as they are meant: without a loss timeout all are off; else the controller
-- is reconnected again and again, and it is given up, and its I/O failed, not before the first
-- attempt; its I/O fails before it is given up.
unfoldable pub AreOrdered : Timeouts → Type 0
AreOrdered o =
    FitsLoss o.ctrlr_loss_timeout_sec o.reconnect_delay_sec
    × FitsLoss o.ctrlr_loss_timeout_sec o.fast_io_fail_timeout_sec
    × (o.ctrlr_loss_timeout_sec ≢ pos 0 → 0 < o.reconnect_delay_sec)
    × (o.fast_io_fail_timeout_sec ≢ 0 → o.reconnect_delay_sec ≤ o.fast_io_fail_timeout_sec)

check_params_by_sign :
    (l : ℤ) (r f : ℕ)
    → let o : Timeouts = record {
      ctrlr_loss_timeout_sec = l;
      reconnect_delay_sec = r;
      fast_io_fail_timeout_sec = f;
    } in
      (check_params o ≡ true) ↔ AreOrdered o
unfolding check_params AreOrdered FitsLoss
check_params_by_sign (pos zero) r f = ground arith
check_params_by_sign (pos (suc n)) r f = ground arith
check_params_by_sign (negsuc zero) r f = ground arith
check_params_by_sign (negsuc (suc n)) r f = ground arith

-- The check accepts exactly the timeouts that are ordered.
pub check_params-AreOrdered : (o : Timeouts) → (check_params o ≡ true) ↔ AreOrdered o
check_params-AreOrdered o =
    check_params_by_sign o.ctrlr_loss_timeout_sec o.reconnect_delay_sec o.fast_io_fail_timeout_sec

-- When the controller is to wait between its attempts to reconnect, the first poll of a reconnect
-- leaves timeouts that the check refuses.
pub check_params-poll :
    (hz now : ℕ) (poll : Option ℤ) (c : Ctrlr)
    → 0 < c.opts.reconnect_delay_sec
    → check_params ((reconnect_ctrlr_poll hz now poll c).0.opts) ≡ false
unfolding check_params reconnect_ctrlr_poll
check_params-poll hz now none c h = ground arith
check_params-poll hz now (some rc) c h = ground arith
