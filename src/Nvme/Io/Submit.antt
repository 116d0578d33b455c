-- ===== src/Nvme/Io/Submit.antt =====
-- nvme/bdev_nvme.c: what becomes of one I/O of an NVMe bdev when it is submitted again.
use sump.Base.{
  ℕ, suc, Bool, true, false, ◌<◌, ◌≡◌, refl, sym, ap, subst, List, [], ◌∷◌, Option, none, some,
  if◌then◌else◌, ◌==◌, arith, length, get_elem?-of_lt, Outcome, ok, ◌>>=◌, Bool-cases, ◌⊎◌, inl,
  inr, ℤ, is_zero,
}
use sump.Nvme.Paths.{
  NvmePath, NvmeChannel, io_path_is_available, nvme_find_io_path, any_io_path_may_become_available,
}
use sump.Nvme.Paths.Cache.{IsPath, Finds, nvme_find_io_path-Finds}
use sump.Nvme.Retry.{retry_ios}
use sump.Nvme.Io.{
  NvmeIoType, NvmeIo, Lane, Completion, Now, Status, Fate, completed, issued, waits, handed_on,
  is_rc, enomem, enxio, io_complete, io_type_is_admin, io_complete_nvme_status, submit_on_path,
  nvme_submit_request, retry_io,
}

-- What happens to the paths of a channel between two steps of an I/O: what is reported of each, by
-- its place, and whether the path that is remembered is forgotten.
pub record Report : Type 0 where
  pub path : ℕ → NvmePath → NvmePath
  pub forgets : Bool

abbrev reported : (ℕ → NvmePath → NvmePath) → ℕ → List NvmePath → List NvmePath
reported f i [] = []
reported f i (p ∷ ps) = f i p ∷ reported f (suc i) ps

abbrev pub reports : Report → Lane → Lane
reports p lane = record lane {
  channel = record (lane.channel) {
    io_path_list = reported p.path 0 lane.channel.io_path_list;
    current_io_path = if p.forgets then none else lane.channel.current_io_path;
  };
}

-- A completion at one time, and the time at which the poller takes the I/O off the list, if it waits,
-- with what is reported of the paths before either.
pub record Round : Type 0 where
  pub before : Report
  pub now : Now
  pub completion : Completion
  pub between : Report
  pub later : Now

unfoldable pub round : Round → NvmeIo → Lane → Outcome (Option (NvmeIo × Lane × Fate))
round r io lane = do
  (io', lane', fate) ← io_complete_nvme_status r.now r.completion io (reports r.before lane)
  elim fate [
    | waits ↦ retry_io r.later 0 io' (
        reports r.between
          (record lane' { retry = (retry_ios r.later.hz r.later.ticks lane'.retry).1 }))
    | completed s ↦ ok (some (io', lane', completed s))
    | issued i ↦ ok (some (io', lane', issued i))
    | handed_on ↦ ok (some (io', lane', handed_on))
  ]

-- The rounds of an I/O that spdk has; they stop when it has it no more.
unfoldable pub rounds : List Round → NvmeIo → Lane → Fate → Outcome (Option (NvmeIo × Lane × Fate))
rounds [] io lane fate = ok (some (io, lane, fate))
rounds (r ∷ rs) io lane (issued i) = do
  found ← round r io lane
  elim found [ none ↦ ok none | some (io', lane', fate) ↦ rounds rs io' lane' fate ]
rounds (r ∷ rs) io lane (completed s) = ok (some (io, lane, completed s))
rounds (r ∷ rs) io lane waits = ok (some (io, lane, waits))
rounds (r ∷ rs) io lane handed_on = ok (some (io, lane, handed_on))

-- A command that spdk has on a path of the channel.
pub record IsIssued (io : NvmeIo) (lane : Lane) (i : ℕ) : Type 0 where
  pub is_command : io.io_type ≡ NvmeIoType.command
  pub on_path : io.io_path ≡ some i
  pub in_list : i < length lane.channel.io_path_list
  pub remembered : IsPath lane.channel.io_path_list lane.channel.current_io_path

length-reported :
    (f : ℕ → NvmePath → NvmePath) (i : ℕ) (ps : List NvmePath)
    → length (reported f i ps) ≡ length ps
length-reported f i [] = refl
length-reported f i (p ∷ ps) = ap suc (length-reported f (suc i) ps)

-- A report leaves the I/O where it is.
pub reports-IsIssued :
    (p : Report) (io : NvmeIo) (lane : Lane) (i : ℕ)
    → IsIssued io lane i
    → IsIssued io (reports p lane) i
reports-IsIssued p io lane i v = record {
  is_command = v.is_command;
  on_path = v.on_path;
  in_list = omega (arith, v.in_list, size);
  remembered = by_forgets p.forgets lane.channel.current_io_path v.remembered;
}
  where
    size : length (reported p.path 0 lane.channel.io_path_list) ≡ length lane.channel.io_path_list
    size = length-reported p.path 0 lane.channel.io_path_list

    by_forgets :
        (b : Bool) (o : Option ℕ)
        → IsPath lane.channel.io_path_list o
        → IsPath (reported p.path 0 lane.channel.io_path_list) (if b then none else o)
    by_forgets true o h = tt
    by_forgets false none h = tt
    by_forgets false (some k) h = omega (arith, h, size)

-- After a function, the I/O is complete, or it is with spdk again, tried `k` times.
abbrev pub Goes : Outcome (Option (NvmeIo × Lane × Fate)) → ℕ → Type 0
Goes o k =
    ((io : NvmeIo) × (lane : Lane) × (s : Status) × (o ≡ ok (some (io, lane, completed s))))
    ⊎ ((io : NvmeIo) × (lane : Lane) × (i : ℕ) × (o ≡ ok (some (io, lane, issued i)))
        × IsIssued io lane i
        × (io.retry_count ≡ k))

-- What `bdev_nvme_io_complete` is given completes, since nothing may become available.
io_complete_ends :
    (n : Now) (rc : ℤ) (io : NvmeIo) (lane : Lane)
    → (io' : NvmeIo) × (lane' : Lane) × (s : Status) × (io_complete n rc io lane
        ≡ (io', lane', completed s))
unfolding io_complete any_io_path_may_become_available
io_complete_ends n rc io lane = elim (Bool-cases (is_zero rc)) [
  | inl z ↦ rw z (_, _, _, refl)
  | inr z ↦ elim (Bool-cases (is_rc rc enomem)) [
    | inl m ↦ rw (z, m) (_, _, _, refl)
    | inr m ↦ elim (Bool-cases (is_rc rc enxio)) [
      | inl x ↦ rw (z, m, x) (_, _, _, refl)
      | inr x ↦ rw (z, m, x) (_, _, _, refl)
    ]
  ]
]

submit-Goes :
    (n : Now) (io : NvmeIo) (lane : Lane) (i : ℕ)
    → IsIssued io lane i
    → Goes (submit_on_path n io lane >>= λ r. ok (some r)) io.retry_count
unfolding submit_on_path
submit-Goes n io lane i v = elim (Bool-cases (is_zero n.submit_rc)) [
  | inl z ↦ inr (io, lane, i, ground arith, v, refl)
  | inr e ↦
      let (io', lane', s, done) = io_complete_ends n n.submit_rc io lane in
      inl (io', lane', s, ground arith)
]

-- A command that is submitted anew completes, or spdk has it.
request-Goes :
    (n : Now) (bdev_tsc : ℕ) (io : NvmeIo) (lane : Lane)
    → io.io_type ≡ NvmeIoType.command
    → 0 < length lane.channel.io_path_list
    → IsPath lane.channel.io_path_list lane.channel.current_io_path
    → Goes (nvme_submit_request n bdev_tsc io lane) io.retry_count
unfolding nvme_submit_request io_type_is_admin
request-Goes n bdev_tsc io lane c some_path old =
    let (r, ch, e, f) = nvme_find_io_path-Finds lane.channel some_path old in by_path r ch e f
  where
    by_path :
        (r : Option ℕ) (ch : NvmeChannel)
        → nvme_find_io_path lane.channel ≡ ok (some (r, ch))
        → Finds lane.channel r ch
        → Goes (nvme_submit_request n bdev_tsc io lane) io.retry_count
    by_path none ch e f =
        let io' : NvmeIo = record io {
          submit_tsc = if io.submit_tsc == 0 then bdev_tsc else n.ticks;
          io_path = none;
        } in
        let (io1, lane1, s, done) = io_complete_ends n enxio io' (record lane { channel = ch }) in
        inl (io1, lane1, s, ground arith)
    by_path (some i) ch e (inside, kept, list) =
        let io' : NvmeIo = record io {
          submit_tsc = if io.submit_tsc == 0 then bdev_tsc else n.ticks;
          io_path = some i;
        } in
        let lane' : Lane = record lane { channel = ch } in
        let same : nvme_submit_request n bdev_tsc io lane
            ≡ (submit_on_path n io' lane' >>= λ r. ok (some r)) =
          ground arith in
        subst (λ o. Goes o io.retry_count) (sym same)
          (submit-Goes n io' lane' i (record {
            is_command = c;
            on_path = refl;
            in_list = omega (arith, inside, ap length list);
            remembered = subst (λ l. IsPath l ch.current_io_path) (sym list) kept;
          }))

pub retry-Goes :
    (n : Now) (bdev_tsc : ℕ) (io : NvmeIo) (lane : Lane) (i : ℕ)
    → IsIssued io lane i
    → Goes (retry_io n bdev_tsc io lane) io.retry_count
unfolding retry_io
retry-Goes n bdev_tsc io lane i v =
    let (p, at) = get_elem?-of_lt lane.channel.io_path_list i v.in_list in
    elim (Bool-cases (io_path_is_available p)) [
      | inl up ↦
          let same : retry_io n bdev_tsc io lane ≡ (submit_on_path n io lane >>= λ r. ok (some r)) =
            ground arith in
          subst (λ o. Goes o io.retry_count) (sym same) (submit-Goes n io lane i v)
      | inr down ↦
          let same : retry_io n bdev_tsc io lane ≡ nvme_submit_request n bdev_tsc io lane =
            ground arith in
          subst (λ o. Goes o io.retry_count) (sym same)
            (request-Goes n bdev_tsc io lane v.is_command (omega (arith, v.in_list)) v.remembered)
    ]
