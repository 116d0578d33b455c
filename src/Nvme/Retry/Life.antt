-- ===== src/Nvme/Retry/Life.antt =====
-- nvme/bdev_nvme.c: what becomes of the I/O that waits: it is tried again or aborted.
use sump.Base.{
  ℕ, ◌+◌, ◌≡◌, ◌≢◌, refl, sym, ap, subst, ◌∙◌, Bool-cases, List, [], ◌∷◌, ◌++◌, Option, none, some,
  Option-cases, leb, ◌==◌, if◌then◌else◌, arith, inl, inr,
}
use sump.Nvme.Retry.{
  Waiting, Retry, insert_after, put, wait_for, queue_retry_io, retry_ios, abort_retry_ios,
  abort_from, abort_retry_io,
}
use sump.Nvme.Retry.Order.{Rise, IsValid, Rise-weaken, queue_retry_io-IsValid, retry_ios_lem}

-- The calls that change the list.
pub data Call : Type 0 where
  queues : (hz now io delay_ms : ℕ) → Call
  retries : (hz now : ℕ) → Call
  aborts : (io : ℕ) → Call
  aborts_all : Call

-- What a call takes off the list, and what it leaves.
unfoldable pub call : Call → Retry → List Waiting × Retry
call (queues hz now io delay_ms) r = ([], queue_retry_io hz now io delay_ms r)
call (retries hz now) r = retry_ios hz now r
call (aborts io) r = elim (abort_retry_io io r) [ none ↦ ([], r) | some (w, r') ↦ (w ∷ [], r') ]
call aborts_all r = abort_retry_ios r

unfoldable pub calls : List Call → Retry → List Waiting × Retry
unfolding call
calls [] r = ([], r)
calls (c ∷ cs) r = ((call c r).0 ++ (calls cs (call c r).1).0, (calls cs (call c r).1).1)

-- The I/O that calls put on the list.
unfoldable pub queued : List Call → List Waiting
queued [] = []
queued (queues hz now io delay_ms ∷ cs) = wait_for hz now io delay_ms ∷ queued cs
queued (retries hz now ∷ cs) = queued cs
queued (aborts io ∷ cs) = queued cs
queued (aborts_all ∷ cs) = queued cs

-- How often an I/O of a name is in a list.
unfoldable pub count : ℕ → List Waiting → ℕ
count n [] = 0
count n (w ∷ ws) = let rest = count n ws in if w.name == n then 1 + rest else rest

count-append : (n : ℕ) (xs ys : List Waiting) → count n (xs ++ ys) ≡ count n xs + count n ys
unfolding count
count-append n [] ys = omega arith
count-append n (x ∷ xs) ys = let ih = count-append n xs ys in ground (arith, ih)

count-insert_after :
    (n : ℕ) (w : Waiting) (ws : List Waiting) {vs : List Waiting}
    → insert_after w ws ≡ some vs
    → count n vs ≡ count n (w ∷ ws)
unfolding count insert_after
count-insert_after n w [] e = cc
count-insert_after n w (v ∷ ws) {vs} e = elim (Option-cases (insert_after w ws)) [
  | inl last ↦ elim (Bool-cases (leb v.retry_ticks w.retry_ticks)) [
    | inl c ↦
        let eq : v ∷ w ∷ ws ≡ vs = ground (arith, last, c) in
        subst (λ (l : List Waiting). count n l ≡ count n (w ∷ v ∷ ws)) eq (ground arith)
    | inr c ↦ absurd (ground (arith, last, c))
  ]
  | inr (us, more) ↦
      let eq : v ∷ us ≡ vs = ground (arith, more) in
      let ih = count-insert_after n w ws more in
      subst (λ (l : List Waiting). count n l ≡ count n (w ∷ v ∷ ws)) eq (ground (arith, ih))
]

count-put :
    (n : ℕ) (w : Waiting) (delay_ms : ℕ) (o : Option (List Waiting)) (r : Retry)
    → insert_after w r.retry_io_list ≡ o
    → count n (put w delay_ms o r).retry_io_list ≡ count n (w ∷ r.retry_io_list)
unfolding put
count-put n w delay_ms none r e = refl
count-put n w delay_ms (some ws) r e = count-insert_after n w r.retry_io_list e

-- What `bdev_nvme_abort_retry_io` takes off the list was there, and the order of the rest is kept.
abort_from_lem :
    (n io t : ℕ) (ws : List Waiting) {w : Waiting} {vs : List Waiting}
    → abort_from io ws ≡ some (w, vs)
    → Rise t ws
    → (count n (w ∷ vs) ≡ count n ws) × Rise t vs × (vs ≢ [] → ws ≢ [])
unfolding abort_from count Rise
abort_from_lem n io t [] e rise = cc
abort_from_lem n io t (v ∷ ws) {w} {vs} e (l, rise) = elim (Bool-cases (v.name == io)) [
  | inl hit ↦
      let first : v ≡ w = ground (arith, hit) in
      let rest : ws ≡ vs = ground (arith, hit) in
      (
        ap (λ x. count n (x ∷ vs)) (sym first) ∙ ap (λ x. count n (v ∷ x)) (sym rest),
        subst (Rise t) rest (Rise-weaken t v.retry_ticks ws l rise),
        λ some_left empty. cc,
      )
  | inr miss ↦ elim (Option-cases (abort_from io ws)) [
    | inl out ↦ absurd (ground (arith, miss, out))
    | inr ((x, xs), found) ↦
        let first : x ≡ w = ground (arith, miss, found) in
        let rest : v ∷ xs ≡ vs = ground (arith, miss, found) in
        let (ih, rise', _) = abort_from_lem n io v.retry_ticks ws found rise in
        (
          ap (λ y. count n (y ∷ vs)) (sym first)
              ∙ ap (λ y. count n (x ∷ y)) (sym rest)
              ∙ ground (arith, ih),
          subst (Rise t) rest (l, rise'),
          λ some_left empty. cc,
        )
  ]
]

-- The account of one call, or of many: what is on the list afterwards and what was taken off it are
-- what was there and what was put on it.
pub record Accounts (added : List Waiting) (r : Retry) (out : List Waiting × Retry) : Type 0 where
  pub valid : IsValid out.1
  pub kept :
      (n : ℕ)
      → count n out.0 + count n out.1.retry_io_list ≡ count n added + count n r.retry_io_list

call-Accounts : (c : Call) (r : Retry) → IsValid r → Accounts (queued (c ∷ [])) r (call c r)
unfolding call queued count abort_retry_io abort_retry_ios queue_retry_io IsValid Rise
call-Accounts (queues hz now io delay_ms) r v =
    let w : Waiting = wait_for hz now io delay_ms in
    record {
      valid = queue_retry_io-IsValid hz now io delay_ms r v;
      kept = λ n.
          (let put = count-put n w delay_ms (insert_after w r.retry_io_list) r refl in
            ground (arith, put));
    }
call-Accounts (retries hz now) r v =
    let (_, _, split, valid) = retry_ios_lem hz now r v in
    record {
      valid = valid;
      kept = λ n.
          (let parts = count-append n (retry_ios hz now r).0 (retry_ios hz now r).1.retry_io_list in
            let whole = ap (count n) split in omega (arith, parts, whole));
    }
call-Accounts aborts_all r v = record {
  valid = (tt, λ some_left. absurd (some_left refl));
  kept = λ n. omega arith;
}
call-Accounts (aborts io) r (rise, poller) = elim (Option-cases (abort_from io r.retry_io_list)) [
  | inl out ↦
      let missed : ([], r) ≡ call (aborts io) r = rw (out, call, abort_retry_io) refl in
      subst (Accounts [] r) missed (record { valid = (rise, poller); kept = λ n. refl })
  | inr ((w, ws), found) ↦
      let taken_off : (w ∷ [], record r { retry_io_list = ws }) ≡ call (aborts io) r =
        rw (found, call, abort_retry_io) refl in
      let (_, rise', left) = abort_from_lem 0 io 0 r.retry_io_list found rise in
      subst (Accounts [] r) taken_off (record {
        valid = (rise', λ some_left. poller (left some_left));
        kept = λ n.
            (let (taken, _, _) = abort_from_lem n io 0 r.retry_io_list found rise in
              ground (arith, taken));
      })
]

queued-append :
    (n : ℕ) (c : Call) (cs : List Call)
    → count n (queued (c ∷ cs)) ≡ count n (queued (c ∷ [])) + count n (queued cs)
unfolding queued count
queued-append n (queues hz now io delay_ms) cs = ground arith
queued-append n (retries hz now) cs = omega arith
queued-append n (aborts io) cs = omega arith
queued-append n aborts_all cs = omega arith

-- No I/O that waits is lost, and none leaves twice: after any sequence of calls that queue I/O, try
-- again what is due, abort one or abort all, each I/O has been taken off the list and is on it, in
-- sum, as often as it was put on it and was there at first; and the list is in the order of its times
-- with a poller registered while an I/O waits, as it was at first.
pub calls-Accounts : (cs : List Call) (r : Retry) → IsValid r → Accounts (queued cs) r (calls cs r)
unfolding calls queued
calls-Accounts [] r v = record { valid = v; kept = λ n. refl }
calls-Accounts (c ∷ cs) r v =
    let one = call-Accounts c r v in
    let rest = calls-Accounts cs (call c r).1 one.valid in
    record {
      valid = rest.valid;
      kept = λ n.
          (let parts = count-append n (call c r).0 (calls cs (call c r).1).0 in
            let added = queued-append n c cs in
            let first = one.kept n in
            let others = rest.kept n in omega (arith, parts, added, first, others));
    }
