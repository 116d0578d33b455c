-- ===== src/Tests/Resets.antt =====
-- A reset I/O over two controllers, where the reset of the second one fails.
use sump.Base.{ℕ, ◌≡◌, refl, true, false, List, [], ◌∷◌, none, arith, ok, ◌>>=◌}
use sump.Nvme.ResetIo.{CtrlrPath, ResetBio, ended, Round, reset_io}
use sump.Nvme.ResetIo.Steps.{reset_rounds, in_turn, all_succeed, IsIdle}
use sump.Nvme.ResetIo.Turns.{reset_io-in_turn}
use sump.Tests.NvmeReset.{idle}

abbrev idle_path : CtrlrPath
idle_path = record { ctrlr = idle; reset_cb_arg = none; pending_resets = []; sent = [] }

abbrev reset_bio : ResetBio
reset_bio = record { name = 7; io_path = none; cdw0 = 0 }

idle_path-IsIdle : IsIdle idle_path
idle_path-IsIdle = record { live = refl; quiet = refl; prompt = refl; fresh = refl; alone = refl }

reset_io-in_turn_example :
    let now : ℕ = 30 in
    let bio : ResetBio = reset_bio in
    let paths : List CtrlrPath = idle_path ∷ idle_path ∷ [] in
    let rs : List Round =
      record { now = 40; success = true; after = idle }
      ∷ record { now = 50; success = false; after = idle }
      ∷ [] in
    (bio' : ResetBio) × ((reset_io now bio paths >>= reset_rounds rs)
      ≡ ok (bio', in_turn paths rs, ended (all_succeed paths rs)))
reset_io-in_turn_example =
    reset_io-in_turn (30) (reset_bio) (idle_path ∷ idle_path ∷ [])
      (record { now = 40; success = true; after = idle }
        ∷ record { now = 50; success = false; after = idle }
        ∷ [])
      (omega arith) (idle_path-IsIdle, (idle_path-IsIdle, tt)) (refl) (refl)
