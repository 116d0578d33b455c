-- ===== src/Nvme/ResetIo/Turns.antt =====
-- nvme/bdev_nvme.c: a reset I/O against a plain loop over the controllers, and one that has to wait.
use mathlib.Core.List.{append_assoc}
use sump.Base.{
  ℕ, suc, ◌<◌, ◌≡◌, refl, sym, ap, ◌∙◌, Bool, true, false, List, [], ◌∷◌, ◌++◌, none, some,
  if◌then◌else◌, ◌||◌, arith, length, length-append, ok, ◌>>=◌, Bool-cases, inl, inr,
}
use sump.Nvme.Reset.{send_reset, nvme_reset}
use sump.Nvme.ResetIo.{
  CtrlrPath, ResetBio, waits, ended, Round, started, released, queued, reset_io_on, after_reset_io,
  reset_io, reset_done, complete_pending_resets,
}
use sump.Nvme.ResetIo.Steps.{
  reset_rounds, in_turn, all_succeed, IsIdle, AllIdle, resetting, reset_io_on_idle,
  reset_rounds_ended, Comes, reset_done_eq, continue_failed, continue_last, continue_next,
}

-- After a reset that fails, and after the last one, the I/O completes.
rounds_stop :
    (before : List CtrlrPath) (p : CtrlrPath) (rest : List CtrlrPath) (r : Round) (rs : List Round)
    (bio : ResetBio)
    → bio.io_path ≡ some (length before)
    → r.success ≡ false
    → Comes before p rest r rs (reset_rounds (r ∷ rs) (bio, before ++ (p ∷ rest), waits))
unfolding reset_rounds in_turn all_succeed
rounds_stop before p rest r rs bio on fail =
    let noted : ResetBio = record bio { cdw0 = if r.success then 0 else 1 } in
    let paths : List CtrlrPath = before ++ (released r.after p ∷ rest) in
    let one : noted.cdw0 ≡ 1 = rw fail refl in
    let all : reset_done r bio (before ++ (p ∷ rest))
        ≡ ok (record noted { io_path = none }, paths, ended false) =
      reset_done_eq r bio before p rest on ∙ continue_failed r.now noted paths one in
    (
      record noted { io_path = none },
      ap (λ o. o >>= reset_rounds rs) all
          ∙ reset_rounds_ended rs (record noted { io_path = none }) paths false
          ∙ ap
              (λ b. ok (
                record noted { io_path = none },
                before ++ (released r.after p ∷ (if b then in_turn rest rs else rest)),
                ended (if b then all_succeed rest rs else false),
              ))
              (sym fail),
    )

rounds_last :
    (before : List CtrlrPath) (p : CtrlrPath) (r : Round) (bio : ResetBio)
    → bio.io_path ≡ some (length before)
    → r.success ≡ true
    → Comes before p [] r [] (reset_rounds (r ∷ []) (bio, before ++ (p ∷ []), waits))
unfolding reset_rounds in_turn all_succeed
rounds_last before p r bio on good =
    let noted : ResetBio = record bio { cdw0 = if r.success then 0 else 1 } in
    let paths : List CtrlrPath = before ++ (released r.after p ∷ []) in
    let clean : noted.cdw0 ≡ 0 = rw good refl in
    let size : length paths ≡ suc (length before) =
      omega (arith, length-append before (released r.after p ∷ [])) in
    let all : reset_done r bio (before ++ (p ∷ []))
        ≡ ok (record noted { io_path = none }, paths, ended true) =
      reset_done_eq r bio before p [] on
      ∙ continue_last r.now (length before) noted paths clean on size in
    (
      record noted { io_path = none },
      ap (λ o. o >>= reset_rounds []) all
          ∙ ap
              (λ b. ok (
                record noted { io_path = none },
                before ++ (released r.after p ∷ (if b then [] else [])),
                ended (if b then true else false),
              ))
              (sym good),
    )

-- After a reset that succeeds, the I/O waits for the next controller.
reset_done_next :
    (before : List CtrlrPath) (p q : CtrlrPath) (rest : List CtrlrPath) (r : Round) (bio : ResetBio)
    → bio.io_path ≡ some (length before)
    → r.success ≡ true
    → IsIdle q
    → (bio' : ResetBio) × (reset_done r bio (before ++ (p ∷ q ∷ rest))
        ≡ ok (
          bio',
          (before ++ (released r.after p ∷ []))
              ++ (started (resetting r.now q.ctrlr) (send_reset ∷ []) bio.name q ∷ rest),
          waits,
        ))
      × (bio'.io_path ≡ some (length (before ++ (released r.after p ∷ []))))
reset_done_next before p q rest r bio on good idle =
    let noted : ResetBio = record bio { cdw0 = if r.success then 0 else 1 } in
    let cleared : ResetBio = record noted { io_path = none } in
    let past : List CtrlrPath = before ++ (released r.after p ∷ []) in
    let paths : List CtrlrPath = before ++ (released r.after p ∷ q ∷ rest) in
    let clean : noted.cdw0 ≡ 0 = rw good refl in
    let place : length past ≡ suc (length before) =
      omega (arith, length-append before (released r.after p ∷ [])) in
    let more : suc (length before) < length paths =
      omega (arith, length-append before (released r.after p ∷ q ∷ rest)) in
    let assoc : past ++ (q ∷ rest) ≡ paths =
      append_assoc before (released r.after p ∷ []) (q ∷ rest) in
    let next : reset_io_on r.now (suc (length before)) cleared paths
        ≡ ok (
          true,
          record cleared { io_path = some (length past) },
          past ++ (started (resetting r.now q.ctrlr) (send_reset ∷ []) bio.name q ∷ rest),
        ) =
      ap (λ i. reset_io_on r.now i cleared paths) (sym place)
      ∙ ap (reset_io_on r.now (length past) cleared) (sym assoc)
      ∙ reset_io_on_idle r.now past q rest cleared refl idle in
    (
      record cleared { io_path = some (length past) },
      reset_done_eq r bio before p (q ∷ rest) on
          ∙ continue_next r.now (length before) noted paths clean on more
          ∙ ap (λ o. o >>= λ x. ok (after_reset_io x)) next,
      refl,
    )

rounds-Comes :
    (before : List CtrlrPath) (p : CtrlrPath) (rest : List CtrlrPath) (r : Round) (rs : List Round)
    (bio : ResetBio)
    → bio.io_path ≡ some (length before)
    → length rs ≡ length rest
    → AllIdle rest
    → Comes before p rest r rs (reset_rounds (r ∷ rs) (bio, before ++ (p ∷ rest), waits))
unfolding reset_rounds in_turn all_succeed
rounds-Comes before p [] r [] bio on size idle = elim (Bool-cases r.success) [
  | inr fail ↦ rounds_stop before p [] r [] bio on fail
  | inl good ↦ rounds_last before p r bio on good
]
rounds-Comes before p (q ∷ rest) r (r' ∷ rs) bio on size (idle, others) =
    elim (Bool-cases r.success) [
      | inr fail ↦ rounds_stop before p (q ∷ rest) r (r' ∷ rs) bio on fail
      | inl good ↦
          let past : List CtrlrPath = before ++ (released r.after p ∷ []) in
          let left : List CtrlrPath = in_turn (q ∷ rest) (r' ∷ rs) in
          let (bio', step, on') = reset_done_next before p q rest r bio on good idle in
          let (end, e) =
            rounds-Comes past (started (resetting r.now q.ctrlr) (send_reset ∷ []) bio.name q) rest
              r' rs bio' on' (omega (arith, size)) others in
          (
            end,
            ap (λ o. o >>= reset_rounds (r' ∷ rs)) step
                ∙ e
                ∙ ap (λ l. ok (end, l, ended (all_succeed (q ∷ rest) (r' ∷ rs))))
                    (append_assoc before (released r.after p ∷ []) left)
                ∙ ap
                    (λ b. ok (
                      end,
                      before ++ (released r.after p ∷ (if b then left else q ∷ rest)),
                      ended (if b then all_succeed (q ∷ rest) (r' ∷ rs) else false),
                    ))
                    (sym good),
          )
    ]
rounds-Comes before p [] r (r' ∷ rs) bio on size idle = absurd (omega arith)
rounds-Comes before p (q ∷ rest) r [] bio on size idle = absurd (omega arith)

reset_io_eq :
    (now : ℕ) (bio : ResetBio) (paths : List CtrlrPath)
    → 0 < length paths
    → reset_io now bio paths
      ≡ (reset_io_on now 0 (record bio { cdw0 = 0 }) paths >>= λ r. ok (after_reset_io r))
unfolding reset_io
reset_io_eq now bio paths some_path = ground arith

-- A reset I/O of an NVMe bdev, sent from one callback to the next, does what a plain loop does: it
-- tells the controllers of the paths in order to reset, each once, leaves those after the first that
-- fails alone, and completes with a success if none fails, with a failure otherwise. There is at
-- least one path, the I/O is on no path yet, no controller is being reset or destroyed or has a
-- delayed reconnect, each has a `reset_start_tsc` of 0 and no callback set, and each reset that is
-- started ends, with any result and any state of its controller.
pub reset_io-in_turn :
    (now : ℕ) (bio : ResetBio) (paths : List CtrlrPath) (rs : List Round)
    → 0 < length paths
    → AllIdle paths
    → bio.io_path ≡ none
    → length rs ≡ length paths
    → (bio' : ResetBio) × ((reset_io now bio paths >>= reset_rounds rs)
        ≡ ok (bio', in_turn paths rs, ended (all_succeed paths rs)))
unfolding in_turn all_succeed
reset_io-in_turn now bio [] rs some_path idle off size = absurd (omega arith)
reset_io-in_turn now bio (p ∷ rest) [] some_path idle off size = absurd (omega arith)
reset_io-in_turn now bio (p ∷ rest) (r ∷ rs) some_path (idle, others) off size =
    let clean : ResetBio = record bio { cdw0 = 0 } in
    let first = reset_io_on_idle now [] p rest clean off idle in
    let (end, e) =
      rounds-Comes [] (started (resetting now p.ctrlr) (send_reset ∷ []) bio.name p) rest r rs
        (record clean { io_path = some 0 }) refl (omega (arith, size)) others in
    (
      end,
      ap (λ o. o >>= reset_rounds (r ∷ rs)) (reset_io_eq now bio (p ∷ rest) some_path)
          ∙ ap (λ o. (o >>= λ x. ok (after_reset_io x)) >>= reset_rounds (r ∷ rs)) first
          ∙ e,
    )

-- A reset I/O that finds the first controller busy, with a reset or a delayed reconnect, waits on the
-- list of that controller alone: when that reset ends, it completes with the result of that reset, and
-- the other controllers are left as they were.
pub complete_pending_resets-reset_io :
    (now : ℕ) (success : Bool) (bio : ResetBio) (p : CtrlrPath) (rest : List CtrlrPath)
    → p.ctrlr.destruct ≡ false
    → (p.ctrlr.resetting || p.ctrlr.reconnect_is_delayed) ≡ true
    → p.pending_resets ≡ []
    → (bio' : ResetBio) × (reset_io now bio (p ∷ rest) ≡ ok (bio', queued bio.name p ∷ rest, waits))
      × (complete_pending_resets success (queued bio.name p)
          ≡ (record p { pending_resets = [] }, (bio.name, success) ∷ []))
unfolding reset_io reset_io_on nvme_reset complete_pending_resets
complete_pending_resets-reset_io now success bio p rest live occupied empty =
    (record bio { cdw0 = 0 }, ground (arith, live, occupied), rw empty refl)
