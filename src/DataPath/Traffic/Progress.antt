-- ===== src/DataPath/Traffic/Progress.antt =====
-- sump_data.c and sump_ctrl.c: a channel with a path that never fails.
use sump.Base.{
  ℕ, zero, suc, ◌≡◌, ◌≢◌, refl, sym, ap, subst, ◌∙◌, Bool, true, false, List, [], ◌∷◌, none, some,
  arith, length, Outcome, ok, Option-cases, inl, inr,
}
use sump.Bdev.{Io, Callback}
use sump.DataPath.{Reply, io_completion_cb}
use sump.DataPath.Submit.{wrapped}
use sump.DataPath.Traffic.{Traffic, Move, asks, ends, probes, note, pick, finish, move, moves}
use sump.DataPath.Traffic.Serve.{Serves, HasPath, submit-Serves, failure-Serves, success-Serves}
use sump.DataPath.Traffic.Probes.{IsTimely, probe-Serves}

abbrev pub AllSent : ℕ → List Io → Type 0
AllSent n [] = Unit {0}
AllSent n (io ∷ ios) = ((io.num_blocks ≢ 0) × HasPath n io.cb) × AllSent n ios

-- The I/O is not on the path at `a`.
abbrev pub Elsewhere : ℕ → Callback → Type 0
Elsewhere a (Callback.ump ch path real) = path ≢ some a
Elsewhere a (Callback.caller k) = Unit {0}
Elsewhere a (Callback.failback ch path) = Unit {0}

-- Memory can be had, an I/O has at least one block, one that fails is not on the path at `a`, and
-- no prober runs or is answered after its context was freed.
abbrev pub IsReliable : ℕ → Reply → Move → Traffic → Type 0
IsReliable a r (asks io) t = (r.alloc_ctx ≡ true) × (io.num_blocks ≢ 0)
IsReliable a r (ends k true) t = Unit {0}
IsReliable a r (ends k false) t =
    (r.alloc_ctx ≡ true)
    × (r.alloc_failback ≡ true)
    × ((io : Io) (rest : List Io) → pick k t.in_flight ≡ some (io, rest) → Elsewhere a io.cb)
IsReliable a r (probes e) t = IsTimely e t.lane.probers

-- Each move is reliable where it is made.
unfoldable pub AllReliable : ℕ → List (Reply × Move) → Traffic → Type 0
AllReliable a [] t = Unit {0}
AllReliable a ((r, m) ∷ ms) t =
    IsReliable a r m t × ((t' : Traffic) → move r m t ≡ ok t' → AllReliable a ms t')

-- What a step needs of the traffic, and keeps.
abbrev pub IsServed : ℕ → Traffic → Type 0
IsServed a t = Serves a t.lane × AllSent (length t.lane.channel.iopath_list) t.in_flight

pub AllSent-length : (n m : ℕ) (ios : List Io) → n ≡ m → AllSent n ios → AllSent m ios
AllSent-length n m ios e s = subst (λ k. AllSent k ios) e s

pick-AllSent :
    (n k : ℕ) (ios : List Io) {p : Io × List Io}
    → pick k ios ≡ some p
    → AllSent n ios
    → ((p.0.num_blocks ≢ 0) × HasPath n p.0.cb) × AllSent n p.1
unfolding pick
pick-AllSent n k [] e s = cc
pick-AllSent n zero (x ∷ xs) {p} e s =
    let same : (x, xs) ≡ p = ground arith in
    subst (λ (q : Io × List Io). ((q.0.num_blocks ≢ 0) × HasPath n q.0.cb) × AllSent n q.1) same s
pick-AllSent n (suc k) (x ∷ xs) {p} e (sx, s) = elim (Option-cases (pick k xs)) [
  | inl gone ↦ absurd (ground arith)
  | inr ((y, l), got) ↦
      let same : (y, x ∷ l) ≡ p = ground arith in
      let (sy, sl) = pick-AllSent n k xs got s in
      subst (λ (q : Io × List Io). ((q.0.num_blocks ≢ 0) × HasPath n q.0.cb) × AllSent n q.1) same
        (sy, (sx, sl))
]

-- A move that ends well, still served, with nothing dropped.
abbrev pub Advances : ℕ → Traffic → Outcome Traffic → Type 0
Advances a t o = (t' : Traffic) × (o ≡ ok t') × IsServed a t' × (t'.dropped ≡ t.dropped)

finish-Advances :
    (a : ℕ) (r : Reply) (io : Io) (cb : Callback) (success : Bool) (t : Traffic)
    → IsServed a t
    → io.num_blocks ≢ 0
    → HasPath (length t.lane.channel.iopath_list) cb
    → (success ≡ false → (r.alloc_ctx ≡ true) × (r.alloc_failback ≡ true) × Elsewhere a cb)
    → Advances a t (finish r io cb success t)
unfolding finish note io_completion_cb
finish-Advances a r io (Callback.ump ch (some i) real) true t (s, flight) blocks lt far =
    let (lane', e, s', size) = success-Serves a i r t.lane io real s lt in
    (
      record t { lane = lane'; finished = (real, true) ∷ t.finished },
      rw e refl,
      (s', AllSent-length _ _ t.in_flight (sym size) flight),
      refl,
    )
finish-Advances a r io (Callback.ump ch (some i) real) false t (s, flight) blocks lt far =
    let (ctx, fb, ne) = far refl in
    let (lane', j, p, io', e, s', size, same, inside) =
      failure-Serves a i r t.lane io real s (λ e. ne (ap some e)) lt blocks ctx fb in
    (
      record t { lane = lane'; in_flight = io' ∷ t.in_flight },
      rw e refl,
      (
        s',
        (
          ((λ z. blocks (sym same ∙ z)), subst (λ n. HasPath n io'.cb) (sym size) inside),
          AllSent-length _ _ t.in_flight (sym size) flight,
        ),
      ),
      refl,
    )
finish-Advances a r io (Callback.ump ch none real) success t s blocks lt far = absurd lt
finish-Advances a r io (Callback.caller k) success t s blocks lt far = absurd lt
finish-Advances a r io (Callback.failback ch path) success t s blocks lt far = absurd lt

move-Advances :
    (a : ℕ) (r : Reply) (m : Move) (t : Traffic)
    → IsServed a t
    → IsReliable a r m t
    → Advances a t (move r m t)
unfolding move note
move-Advances a r (asks io) t (s, flight) (ctx, blocks) =
    let (i, p, lane', e, s', inside, same) = submit-Serves a r t.lane io s blocks ctx in
    let size : length lane'.channel.iopath_list ≡ length t.lane.channel.iopath_list =
      ap (λ ch. length ch.iopath_list) same in
    (
      record t { lane = lane'; in_flight = wrapped t.lane i io ∷ t.in_flight },
      rw e refl,
      (
        s',
        ((blocks, omega (arith, inside, size)), AllSent-length _ _ t.in_flight (sym size) flight),
      ),
      refl,
    )
move-Advances a r (ends k success) t (s, flight) ok_to = elim (Option-cases (pick k t.in_flight)) [
  | inl gone ↦ (t, ground arith, (s, flight), refl)
  | inr ((io, rest), got) ↦
      let ((blocks, path), others) =
        pick-AllSent (length t.lane.channel.iopath_list) k t.in_flight got flight in
      let (t', e, v, d) =
        finish-Advances a r io io.cb success (record t { in_flight = rest }) (s, others) blocks path
          (far success io rest got ok_to) in
      (t', ground (arith, e), v, d)
]
  where
    far :
        (success : Bool) (io : Io) (rest : List Io)
        → pick k t.in_flight ≡ some (io, rest)
        → IsReliable a r (ends k success) t
        → success ≡ false
        → (r.alloc_ctx ≡ true) × (r.alloc_failback ≡ true) × Elsewhere a io.cb
    far true io rest got reliable e = cc
    far false io rest got (ctx, fb, apart) e = (ctx, fb, apart io rest got)
move-Advances a r (probes e) t (s, flight) timely =
    let (lane', e1, s', size) = probe-Serves a r e t.lane s timely in
    (
      record t { lane = lane' },
      rw e1 refl,
      (s', AllSent-length _ _ t.in_flight (sym size) flight),
      refl,
    )

pub moves-IsServed :
    (a : ℕ) (ms : List (Reply × Move)) (t : Traffic)
    → IsServed a t
    → AllReliable a ms t
    → Advances a t (moves ms t)
unfolding moves AllReliable
moves-IsServed a [] t s reliable = (t, refl, s, refl)
moves-IsServed a ((r, m) ∷ ms) t s (now, later) =
    let (t1, e1, s1, d1) = move-Advances a r m t s now in
    let (t2, e2, s2, d2) = moves-IsServed a ms t1 s1 (later t1 e1) in (t2, rw e1 e2, s2, d2 ∙ d1)
