-- ===== src/DataPath/Traffic/Callbacks.antt =====
-- sump_data.c and sump_ctrl.c: the callbacks of I/O, and which of them an effect is about.
use mathlib.Core.Quot.{Quot}
use sump.Base.{
  ℕ, ◌+◌, ◌≡◌, refl, Bool, true, false, List, [], ◌∷◌, ◌++◌, Option, ok, >>=-eq-ok, arith,
  if◌then◌else◌, deref, inl, inr, Bool-cases, get_elem?,
}
use sump.Bdev.{Io, Callback}
use sump.DataPath.{
  Lane, Reply, Effect, submit_request, io_completion_cb, complete_success, complete_failure,
  failback, change_path, mark_down,
}
use sump.Select.{find_iopath}
use sump.Channels.{set_count}
use sump.DataPath.Submit.{add_bytes, wrapped}
use sump.DataPath.Traffic.{Traffic, Move, asks, ends, probes}

-- How many callbacks pass a test.
abbrev pub count : (Callback → Bool) → List Callback → ℕ
count f [] = 0
count f (cb ∷ cbs) = (if f cb then 1 else 0) + count f cbs

-- The callbacks of a list, whatever their order.
abbrev pub SameItems : List Callback → List Callback → Type 0
SameItems xs ys = (f : Callback → Bool) → count f xs ≡ count f ys

abbrev pub Owners : Type 0
Owners = Quot SameItems

-- The callback that an I/O came with.
abbrev pub owner : Callback → Callback
owner (Callback.ump ch path real) = real
owner (Callback.caller n) = Callback.caller n
owner (Callback.failback ch path) = Callback.failback ch path

abbrev pub held : List Io → List Callback
held [] = []
held (io ∷ ios) = owner io.cb ∷ held ios

abbrev pub told : List (Callback × Bool) → List Callback
told [] = []
told ((cb, success) ∷ cbs) = cb ∷ told cbs

-- The callbacks of all I/O: of that in flight, that which is finished, and that which was dropped.
abbrev pub owned : Traffic → List Callback
owned t = held t.in_flight ++ told t.finished ++ t.dropped

-- The callbacks that come with new I/O, among moves.
abbrev pub asked : List (Reply × Move) → List Callback
asked [] = []
asked ((r, asks io) ∷ ms) = io.cb ∷ asked ms
asked ((r, ends k success) ∷ ms) = asked ms
asked ((r, probes e) ∷ ms) = asked ms

abbrev pub is_wrapped : Callback → Bool
is_wrapped (Callback.ump ch path real) = true
is_wrapped (Callback.caller n) = false
is_wrapped (Callback.failback ch path) = false

-- An effect is about the I/O of one callback, wraps it, and tells it of a success only.
abbrev pub Carries : Callback → Effect → Type 0
Carries real Effect.nothing = Unit {0}
Carries real (Effect.submitted path io_channel bdev io) =
    (owner io.cb ≡ real) × (is_wrapped io.cb ≡ true)
Carries real (Effect.completed cb success io) = (cb ≡ real) × (success ≡ true)

-- Something becomes of the I/O.
abbrev pub IsKept : Effect → Type 0
IsKept Effect.nothing = ⊥
IsKept (Effect.submitted path io_channel bdev io) = Unit {0}
IsKept (Effect.completed cb success io) = Unit {0}

-- Every allocation of a context for an I/O succeeds.
abbrev pub AllAlloc : List (Reply × Move) → Type 0
AllAlloc [] = Unit {0}
AllAlloc ((r, m) ∷ ms) = (r.alloc_ctx ≡ true) × AllAlloc ms

pub submit_request-IsKept :
    (r : Reply) (lane : Lane) (io : Io) {le : Lane × Effect}
    → r.alloc_ctx ≡ true
    → submit_request r lane io ≡ ok le
    → IsKept le.1
unfolding submit_request
submit_request-IsKept r lane io {le} got e =
    let (a, _, e1) = >>=-eq-ok (find_iopath lane.channel io) _ (rw (got, submit_request) at e) in
    let (j, _, e2) = >>=-eq-ok (deref a) _ e1 in
    let (p, _, e3) = >>=-eq-ok (deref (get_elem? lane.channel.iopath_list j)) _ e2 in
    let (count, _, e4) = >>=-eq-ok (set_count (add_bytes io) p.id lane.count) _ e3 in
    let same : le.1 ≡ Effect.submitted j p.io_channel p.bdev (wrapped lane j io) = ground arith in
    rw same tt

pub io_completion_cb-IsKept :
    (r : Reply) (lane : Lane) (io : Io) (success : Bool) (path : Option ℕ) (real : Callback)
    {le : Lane × Effect}
    → r.alloc_ctx ≡ true
    → io_completion_cb r lane io success path real ≡ ok le
    → IsKept le.1
unfolding io_completion_cb complete_success complete_failure
io_completion_cb-IsKept r lane io true path real {le} got e =
    let (i, _, e1) = >>=-eq-ok (deref path) _ e in
    let (p, _, e2) = >>=-eq-ok (deref (get_elem? lane.channel.iopath_list i)) _ e1 in
    let same : le.1 ≡ Effect.completed real true io = ground arith in rw same tt
io_completion_cb-IsKept r lane io false path real {le} got e =
    let (i, _, e1) = >>=-eq-ok (deref path) _ e in
    let (p, _, e2) = >>=-eq-ok (deref (get_elem? lane.channel.iopath_list i)) _ e1 in
    let (lane', _, e3) = >>=-eq-ok (failback r i io (change_path i mark_down lane)) _ e2 in
    submit_request-IsKept r lane' _ got e3

unfoldable pub submit_request-Carries :
    (r : Reply) (lane : Lane) (io : Io) {le : Lane × Effect}
    → submit_request r lane io ≡ ok le
    → Carries io.cb le.1
unfolding submit_request
submit_request-Carries r lane io {le} e = elim (Bool-cases r.alloc_ctx) [
  | inr failed ↦ let same : le ≡ (lane, Effect.nothing) = ground arith in rw same tt
  | inl got ↦
      let (a, _, e1) = >>=-eq-ok (find_iopath lane.channel io) _ (rw (got, submit_request) at e) in
      let (j, _, e2) = >>=-eq-ok (deref a) _ e1 in
      let (p, _, e3) = >>=-eq-ok (deref (get_elem? lane.channel.iopath_list j)) _ e2 in
      let (count, _, e4) = >>=-eq-ok (set_count (add_bytes io) p.id lane.count) _ e3 in
      let same : le.1 ≡ Effect.submitted j p.io_channel p.bdev (wrapped lane j io) = ground arith in
      rw same (refl, refl)
]

unfoldable pub io_completion_cb-Carries :
    (r : Reply) (lane : Lane) (io : Io) (success : Bool) (path : Option ℕ) (real : Callback)
    {le : Lane × Effect}
    → io_completion_cb r lane io success path real ≡ ok le
    → Carries real le.1
unfolding io_completion_cb complete_success complete_failure
io_completion_cb-Carries r lane io true path real {le} e =
    let (i, _, e1) = >>=-eq-ok (deref path) _ e in
    let (p, _, e2) = >>=-eq-ok (deref (get_elem? lane.channel.iopath_list i)) _ e1 in
    let same : le.1 ≡ Effect.completed real true io = ground arith in rw same (refl, refl)
io_completion_cb-Carries r lane io false path real {le} e =
    let (i, _, e1) = >>=-eq-ok (deref path) _ e in
    let (p, _, e2) = >>=-eq-ok (deref (get_elem? lane.channel.iopath_list i)) _ e1 in
    let (lane', _, e3) = >>=-eq-ok (failback r i io (change_path i mark_down lane)) _ e2 in
    submit_request-Carries r lane' _ e3
