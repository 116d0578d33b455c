-- ===== src/Nvme/ResetIo.antt =====
-- nvme/bdev_nvme.c: a reset I/O of an NVMe bdev, which resets the controllers of its paths in turn.
pub mod Steps
pub mod Turns
use sump.Base.{
  ℕ, suc, Bool, true, false, not, List, [], ◌∷◌, ◌++◌, Option, none, some, if◌then◌else◌, ◌==◌, leb,
  length, get_elem?, modify, Outcome, ok, ◌>>=◌, deref, assert,
}
use sump.Nvme.Reset.{Ctrlr, Effect, Answer, done, busy, no_device, nvme_reset}

-- A path of the channel with its controller: `reset_cb_arg` is the I/O that waits for the end of the
-- controller's reset (`reset_cb_fn` is then `bdev_nvme_reset_io_continue`, the only one here), and
-- `pending_resets` the list of the channel of the controller; `sent` is what the calls of
-- `bdev_nvme_reset` have started on the controller. An I/O is named by a number.
pub record CtrlrPath : Type 0 where
  pub ctrlr : Ctrlr
  pub reset_cb_arg : Option ℕ
  pub pending_resets : List ℕ
  pub sent : List Effect

-- The `struct nvme_bdev_io` of a reset: `cdw0` is that of `cpl`, in which an error is kept.
pub record ResetBio : Type 0 where
  pub name : ℕ
  pub io_path : Option ℕ
  pub cdw0 : ℕ

-- The I/O waits for a controller, or it was completed, with a success or not.
pub data Progress : Type 0 where
  waits : Progress
  ended : Bool → Progress

abbrev pub is_null : Option ℕ → Bool
is_null none = true
is_null (some i) = false

-- A controller's reset is started, and its `reset_cb_fn` and `reset_cb_arg` are set.
abbrev pub started : Ctrlr → List Effect → ℕ → CtrlrPath → CtrlrPath
started c es name p = record p { ctrlr = c; reset_cb_arg = some name; sent = p.sent ++ es }

abbrev pub queued : ℕ → CtrlrPath → CtrlrPath
queued name p = record p { pending_resets = p.pending_resets ++ (name ∷ []) }

-- `_bdev_nvme_reset_io`: the first component says whether it returns 0.
unfoldable pub reset_io_on :
    (now i : ℕ) → ResetBio → List CtrlrPath → Outcome (Bool × ResetBio × List CtrlrPath)
unfolding nvme_reset
reset_io_on now i bio paths = do
  p ← deref (get_elem? paths i)
  (answer, c, es) ← nvme_reset now p.ctrlr
  elim answer [
    | done ↦ assert (is_null bio.io_path) (
        assert (is_null p.reset_cb_arg)
          (ok (true, record bio { io_path = some i }, modify paths i (started c es bio.name))))
    | busy ↦ ok (true, bio, modify paths i (queued bio.name))
    | no_device ↦ ok (false, bio, paths)
  ]

-- `bdev_nvme_reset_io_complete`
abbrev pub reset_io_complete : ResetBio → Progress
reset_io_complete bio = ended (bio.cdw0 == 0)

-- What the callers of `_bdev_nvme_reset_io` do with its result.
abbrev pub after_reset_io : Bool × ResetBio × List CtrlrPath → ResetBio × List CtrlrPath × Progress
after_reset_io (true, bio, paths) = (bio, paths, waits)
after_reset_io (false, bio, paths) =
    let failed : ResetBio = record bio { cdw0 = 1 } in (failed, paths, reset_io_complete failed)

-- `bdev_nvme_reset_io`
unfoldable pub reset_io :
    ℕ → ResetBio → List CtrlrPath → Outcome (ResetBio × List CtrlrPath × Progress)
unfolding reset_io_on
reset_io now bio paths =
    assert (not (length paths == 0))
      (reset_io_on now 0 (record bio { cdw0 = 0 }) paths >>= λ r. ok (after_reset_io r))

-- `_bdev_nvme_reset_io_continue`
unfoldable pub reset_io_continue :
    ℕ → ResetBio → List CtrlrPath → Outcome (ResetBio × List CtrlrPath × Progress)
unfolding reset_io_on
reset_io_continue now bio paths =
    let cleared : ResetBio = record bio { io_path = none } in
    if not (bio.cdw0 == 0) then ok (cleared, paths, reset_io_complete cleared) else (do
      i ← deref bio.io_path
      if leb (length paths) (suc i)
          then ok (cleared, paths, reset_io_complete cleared)
          else (reset_io_on now (suc i) cleared paths >>= λ r. ok (after_reset_io r)))

-- The end of the reset of one controller: the time, the success that `_bdev_nvme_reset_complete`
-- hands to the callback, and the controller as it leaves it.
pub record Round : Type 0 where
  pub now : ℕ
  pub success : Bool
  pub after : Ctrlr

abbrev pub released : Ctrlr → CtrlrPath → CtrlrPath
released c p = record p { ctrlr = c; reset_cb_arg = none }

-- `_bdev_nvme_reset_complete` takes the callback off the controller, and
-- `bdev_nvme_reset_io_continue` notes the result and goes on, on the thread of the I/O.
unfoldable pub reset_done :
    Round → ResetBio → List CtrlrPath → Outcome (ResetBio × List CtrlrPath × Progress)
unfolding reset_io_continue
reset_done r bio paths = do
  i ← deref bio.io_path
  reset_io_continue r.now (record bio { cdw0 = if r.success then 0 else 1 })
      (modify paths i (released r.after))

-- `bdev_nvme_complete_pending_resets`, on the channel of one controller: the I/O that it completes
-- and their results.
unfoldable pub complete_pending_resets : Bool → CtrlrPath → CtrlrPath × List (ℕ × Bool)
complete_pending_resets success p =
    (record p { pending_resets = [] }, all_with success p.pending_resets)
  where
    all_with : Bool → List ℕ → List (ℕ × Bool)
    all_with b [] = []
    all_with b (n ∷ ns) = (n, b) ∷ all_with b ns
