-- ===== src/Nvme/ResetIo/Steps.antt =====
-- nvme/bdev_nvme.c: the single steps of a reset I/O, and the plain loop that it is compared with.
use sump.Base.{
  ℕ, suc, ◌<◌, ◌≡◌, refl, Bool, true, false, List, [], ◌∷◌, ◌++◌, none, some, if◌then◌else◌, arith,
  length, get_elem?, get_elem?-middle, modify-middle, Outcome, ok, ◌>>=◌,
}
use sump.Nvme.Reset.{Ctrlr, send_reset, nvme_reset}
use sump.Nvme.ResetIo.{
  CtrlrPath, ResetBio, Progress, waits, ended, Round, started, released, reset_io_on,
  after_reset_io, reset_io_continue, reset_done,
}

-- The I/O with the ends of the resets that it waits for, in order.
unfoldable pub reset_rounds :
    List Round
    → ResetBio × List CtrlrPath × Progress
    → Outcome (ResetBio × List CtrlrPath × Progress)
reset_rounds [] state = ok state
reset_rounds (r ∷ rs) (bio, paths, ended b) = ok (bio, paths, ended b)
reset_rounds (r ∷ rs) (bio, paths, waits) = reset_done r bio paths >>= reset_rounds rs

-- The controller is told once to reset itself.
abbrev pub told : CtrlrPath → CtrlrPath
told p = record p { sent = p.sent ++ (send_reset ∷ []) }

-- The plain loop: reset one controller after the other, and stop after the first that fails.
unfoldable pub in_turn : List CtrlrPath → List Round → List CtrlrPath
in_turn [] rs = []
in_turn (p ∷ ps) [] = p ∷ ps
in_turn (p ∷ ps) (r ∷ rs) = released r.after (told p) ∷ (if r.success then in_turn ps rs else ps)

unfoldable pub all_succeed : List CtrlrPath → List Round → Bool
all_succeed [] rs = true
all_succeed (p ∷ ps) [] = true
all_succeed (p ∷ ps) (r ∷ rs) = if r.success then all_succeed ps rs else false

-- The controller can be reset, and nobody waits for it.
pub record IsIdle (p : CtrlrPath) : Type 0 where
  pub live : p.ctrlr.destruct ≡ false
  pub quiet : p.ctrlr.resetting ≡ false
  pub prompt : p.ctrlr.reconnect_is_delayed ≡ false
  pub fresh : p.ctrlr.reset_start_tsc ≡ 0
  pub alone : p.reset_cb_arg ≡ none

abbrev pub AllIdle : List CtrlrPath → Type 0
AllIdle [] = Unit {0}
AllIdle (p ∷ ps) = IsIdle p × AllIdle ps

abbrev pub resetting : ℕ → Ctrlr → Ctrlr
resetting now c = record c { resetting = true; reset_start_tsc = now }

pub reset_io_on_idle :
    (now : ℕ) (before : List CtrlrPath) (p : CtrlrPath) (rest : List CtrlrPath) (bio : ResetBio)
    → bio.io_path ≡ none
    → IsIdle p
    → reset_io_on now (length before) bio (before ++ (p ∷ rest))
      ≡ ok (
        true,
        record bio { io_path = some (length before) },
        before ++ (started (resetting now p.ctrlr) (send_reset ∷ []) bio.name p ∷ rest),
      )
unfolding reset_io_on nvme_reset
reset_io_on_idle now before p rest bio off idle =
    let at : get_elem? (before ++ (p ∷ rest)) (length before) ≡ some p =
      get_elem?-middle before p rest in
    let change =
      modify-middle before p rest (started (resetting now p.ctrlr) (send_reset ∷ []) bio.name) in
    ground (arith, at, change, off, idle.live, idle.quiet, idle.prompt, idle.fresh, idle.alone)

pub reset_rounds_ended :
    (rs : List Round) (bio : ResetBio) (paths : List CtrlrPath) (b : Bool)
    → reset_rounds rs (bio, paths, ended b) ≡ ok (bio, paths, ended b)
unfolding reset_rounds
reset_rounds_ended [] bio paths b = refl
reset_rounds_ended (r ∷ rs) bio paths b = refl

-- What the I/O comes to from where it waits for the controller after `before`.
abbrev pub Comes :
    List CtrlrPath
    → (p : CtrlrPath) (rest : List CtrlrPath) (r : Round) (rs : List Round)
    → Outcome (ResetBio × List CtrlrPath × Progress)
    → Type 0
Comes before p rest r rs o =
    (bio : ResetBio) × (o
      ≡ ok (
        bio,
        before ++ (released r.after p ∷ (if r.success then in_turn rest rs else rest)),
        ended (if r.success then all_succeed rest rs else false),
      ))

-- The end of one reset, on the list of paths that it leaves.
pub reset_done_eq :
    (r : Round) (bio : ResetBio) (before : List CtrlrPath) (p : CtrlrPath) (rest : List CtrlrPath)
    → bio.io_path ≡ some (length before)
    → reset_done r bio (before ++ (p ∷ rest))
      ≡ reset_io_continue r.now
          (record bio { cdw0 = if r.success then 0 else 1 })
          (before ++ (released r.after p ∷ rest))
unfolding reset_done
reset_done_eq r bio before p rest on =
    let change = modify-middle before p rest (released r.after) in ground (arith, on, change)

pub continue_failed :
    (now : ℕ) (bio : ResetBio) (paths : List CtrlrPath)
    → bio.cdw0 ≡ 1
    → reset_io_continue now bio paths ≡ ok (record bio { io_path = none }, paths, ended false)
unfolding reset_io_continue
continue_failed now bio paths e = ground (arith, e)

pub continue_last :
    (now i : ℕ) (bio : ResetBio) (paths : List CtrlrPath)
    → bio.cdw0 ≡ 0
    → bio.io_path ≡ some i
    → length paths ≡ suc i
    → reset_io_continue now bio paths ≡ ok (record bio { io_path = none }, paths, ended true)
unfolding reset_io_continue
continue_last now i bio paths e on last = ground (arith, e, on, last)

pub continue_next :
    (now i : ℕ) (bio : ResetBio) (paths : List CtrlrPath)
    → bio.cdw0 ≡ 0
    → bio.io_path ≡ some i
    → suc i < length paths
    → reset_io_continue now bio paths ≡ (
        reset_io_on now (suc i) (record bio { io_path = none }) paths >>= λ r.
        ok (after_reset_io r))
unfolding reset_io_continue
continue_next now i bio paths e on more = ground (arith, e, on, more)
