-- ===== src/Nvme/Io/Attempts.antt =====
-- nvme/bdev_nvme.c: the attempts at one I/O, from a completion to the next submission.
use sump.Base.{
  ℕ, suc, ◌+◌, ◌*◌, ◌≤◌, ◌<◌, ◌≡◌, refl, true, false, not, ◌&&◌, ◌||◌, List, [], ◌∷◌, none, some,
  if◌then◌else◌, ◌==◌, arith, length, get_elem?, get_elem?-of_lt, ok, Bool-cases, ◌⊎◌, inl, inr,
  pos, negsuc, is_zero, geb,
}
use sump.Nvme.Paths.{
  NvmePath, io_path_is_available, ctrlr_is_available, clear_current_io_path,
  any_io_path_may_become_available,
}
use sump.Nvme.Io.{
  NvmeIo, Lane, Completion, Now, Status, completed, issued, is_rc, rewound, wait, mark_ana,
  io_type_is_admin, retry_or_complete, io_complete_nvme_status,
}
use sump.Nvme.Io.Submit.{
  Round, round, rounds, reports, IsIssued, reports-IsIssued, Goes, retry-Goes,
}

-- The channel after a path error: no path is remembered, and the ANA state of the path is being
-- read, if the error says that it has changed and the controller can be asked.
abbrev forgotten : Now → Completion → ℕ → Lane → Lane
forgotten n c i lane =
    let ch = clear_current_io_path lane.channel in
    record lane {
      channel = if c.is_ana_error && is_zero n.read_ana_log_page then mark_ana i ch else ch;
    }

-- What `bdev_nvme_io_complete_nvme_status` does to a command that spdk had: it completes it, or puts
-- it on the list with one more attempt counted, if attempts are left, and then its path stays.
status_cases :
    (n : Now) (c : Completion) (io : NvmeIo) (lane : Lane) (i m : ℕ)
    → n.bdev_retry_count ≡ pos m
    → IsIssued io lane i
    → ((io' : NvmeIo) × (lane' : Lane) × (s : Status) × (io_complete_nvme_status n c io lane
          ≡ ok (io', lane', completed s)))
      ⊎ ((delay : ℕ) × (io.retry_count < m)
          × (io_complete_nvme_status n c io lane
              ≡ ok (wait n delay (record io { retry_count = suc io.retry_count }) lane)))
unfolding io_complete_nvme_status retry_or_complete io_type_is_admin clear_current_io_path
    any_io_path_may_become_available
status_cases n c io lane i m few v =
    let (p, at) = get_elem?-of_lt lane.channel.io_path_list i v.in_list in
    elim (Bool-cases c.is_success) [
      | inl good ↦ inl (rewound io, lane, Status.as_completed, ground arith)
      | inr bad ↦
          elim (Bool-cases (
            c.dnr
            || c.is_aborted_by_request
            || (not (is_rc n.bdev_retry_count (negsuc 0))
                && geb (pos io.retry_count) n.bdev_retry_count))) [
                  | inl over ↦ inl (rewound io, lane, Status.as_completed, ground arith)
                  | inr more ↦
                      elim (Bool-cases (
                        c.is_path_error
                        || c.is_aborted_sq_deletion
                        || not (io_path_is_available p)
                        || not (ctrlr_is_available p.ctrlr))) [
                          | inl path ↦ inl (
                            rewound (record io { io_path = none }),
                            forgotten n c i lane,
                            Status.as_completed,
                            ground arith,
                          )
                          | inr other ↦ inr (
                            if c.crd == 0 then 0 else n.crdt c.crd * 100,
                            ground arith,
                            ground arith,
                          )
                        ]
                ]
    ]

-- The poller takes I/O off the list; the rest of the channel stays.
round-Goes :
    (r : Round) (io : NvmeIo) (lane : Lane) (i m : ℕ)
    → r.now.bdev_retry_count ≡ pos m
    → IsIssued io lane i
    → Goes (round r io lane) (suc io.retry_count)
      × ((io.retry_count < m)
          ⊎ ((io' : NvmeIo) × (lane' : Lane) × (s : Status) × (round r io lane
                ≡ ok (some (io', lane', completed s)))))
unfolding round
round-Goes r io lane i m few v =
    let v' = reports-IsIssued r.before io lane i v in
    elim (status_cases r.now r.completion io (reports r.before lane) i m few v') [
      | inl (io', lane', s, e) ↦
          let done : round r io lane ≡ ok (some (io', lane', completed s)) = rw e refl in
          (inl (io', lane', s, done), inr (io', lane', s, done))
      | inr (delay, less, e) ↦ (
        rw e (
            retry-Goes r.later 0 (record io { retry_count = suc io.retry_count }) _ i
              (reports-IsIssued r.between (record io { retry_count = suc io.retry_count }) _ i
                (record {
                  is_command = v'.is_command;
                  on_path = v'.on_path;
                  in_list = v'.in_list;
                  remembered = v'.remembered;
                }))),
        inl less,
      )
    ]

-- Every round has the same limit on attempts.
abbrev pub AllLimited : ℕ → List Round → Type 0
AllLimited m [] = Unit {0}
AllLimited m (r ∷ rs) = (r.now.bdev_retry_count ≡ pos m) × AllLimited m rs

rounds_done :
    (rs : List Round) (io : NvmeIo) (lane : Lane) (s : Status)
    → rounds rs io lane (completed s) ≡ ok (some (io, lane, completed s))
unfolding rounds
rounds_done [] io lane s = refl
rounds_done (r ∷ rs) io lane s = refl

-- A command that spdk has completes, whatever completions come back, whatever the clock and the
-- answers of spdk are, and whatever is reported of the paths before each completion and before each
-- new attempt, after at most one round more than the attempts that are left, and no fault and no
-- failed assertion is met. The limit on attempts is not -1, and is not exceeded; the list of paths
-- of the channel gets no longer and no shorter.
pub rounds-end :
    (m : ℕ) (rs : List Round) (io : NvmeIo) (lane : Lane) (i : ℕ)
    → AllLimited m rs
    → IsIssued io lane i
    → io.retry_count ≤ m
    → m < io.retry_count + length rs
    → (io' : NvmeIo) × (lane' : Lane) × (s : Status) × (rounds rs io lane (issued i)
        ≡ ok (some (io', lane', completed s)))
unfolding rounds
rounds-end m [] io lane i l v some_left enough = absurd (omega arith)
rounds-end m (r ∷ rs) io lane i (l, ls) v some_left enough =
    let (goes, left) = round-Goes r io lane i m l v in
    elim left [
      | inr (io', lane', s, e) ↦ (io', lane', s, rw e (rounds_done rs io' lane' s))
      | inl less ↦ elim goes [
        | inl (io', lane', s, e) ↦ (io', lane', s, rw e (rounds_done rs io' lane' s))
        | inr (io', lane', j, e, v', counted) ↦
            let (io2, lane2, s, end) =
              rounds-end m rs io' lane' j ls v' (omega arith) (omega arith) in
            (io2, lane2, s, rw e end)
      ]
    ]

-- A path error, also one that the path or its controller shows, completes a command at once, with the
-- status of its completion, however many attempts are left: nothing is put on the list of I/O that
-- waits.
pub path_error_completes :
    (n : Now) (c : Completion) (io : NvmeIo) (lane : Lane) (i : ℕ) (p : NvmePath)
    → IsIssued io lane i
    → get_elem? lane.channel.io_path_list i ≡ some p
    → c.is_success ≡ false
    → (c.is_path_error
        || c.is_aborted_sq_deletion
        || not (io_path_is_available p)
        || not (ctrlr_is_available p.ctrlr))
      ≡ true
    → (io' : NvmeIo) × (lane' : Lane) × (io_complete_nvme_status n c io lane
        ≡ ok (io', lane', completed Status.as_completed))
      × (lane'.retry ≡ lane.retry)
unfolding io_complete_nvme_status retry_or_complete io_type_is_admin clear_current_io_path
    any_io_path_may_become_available
path_error_completes n c io lane i p v at bad path =
    elim (Bool-cases (
      c.dnr
      || c.is_aborted_by_request
      || (not (is_rc n.bdev_retry_count (negsuc 0))
          && geb (pos io.retry_count) n.bdev_retry_count))) [
            | inl over ↦ (rewound io, lane, ground arith, refl)
            | inr more ↦
                (rewound (record io { io_path = none }), forgotten n c i lane, ground arith, refl)
          ]
