-- ===== src/Nvme/Retry/Order.antt =====
-- nvme/bdev_nvme.c: the I/O that waits is in the order of its times.
use sump.Base.{
  ℕ, ◌*◌, ◌/◌, ◌≤◌, ◌<◌, ◌≡◌, ◌≢◌, refl, ap, subst, Bool-cases, List, [], ◌∷◌, ◌++◌, Option, none,
  some, Option-cases, ltb, leb, u64, sub64, arith, inl, inr,
}
use sump.Nvme.Retry.{
  Waiting, Retry, insert_after, put, wait_for, queue_retry_io, take_due, retry_ios,
}

-- The times rise along the list, from `t`.
unfoldable pub Rise : ℕ → List Waiting → Type 0
Rise t [] = Unit {0}
Rise t (w ∷ ws) = (t ≤ w.retry_ticks) × Rise w.retry_ticks ws

unfoldable pub AllDue : ℕ → List Waiting → Type 0
AllDue now [] = Unit {0}
AllDue now (w ∷ ws) = (w.retry_ticks ≤ now) × AllDue now ws

unfoldable pub AllLater : ℕ → List Waiting → Type 0
AllLater now [] = Unit {0}
AllLater now (w ∷ ws) = (now < w.retry_ticks) × AllLater now ws

-- The list is in the order of its times, and a poller is registered while an I/O waits.
unfoldable pub IsValid : Retry → Type 0
IsValid r = Rise 0 r.retry_io_list × (r.retry_io_list ≢ [] → r.retry_io_poller ≢ none)

pub Rise-weaken : (t u : ℕ) (ws : List Waiting) → t ≤ u → Rise u ws → Rise t ws
unfolding Rise
Rise-weaken t u [] l r = tt
Rise-weaken t u (w ∷ ws) l (lw, r) = (ground arith, r)

Rise-AllLater : (now t : ℕ) (ws : List Waiting) → now < t → Rise t ws → AllLater now ws
unfolding Rise AllLater
Rise-AllLater now t [] l r = tt
Rise-AllLater now t (w ∷ ws) l (lw, r) =
    (ground arith, Rise-AllLater now w.retry_ticks ws (ground arith) r)

-- Nothing is found only if all are later.
insert_after-none :
    (w : Waiting) (t : ℕ) (ws : List Waiting)
    → insert_after w ws ≡ none
    → Rise t ws
    → Rise w.retry_ticks ws
unfolding insert_after Rise
insert_after-none w t [] h r = tt
insert_after-none w t (v ∷ ws) h (lv, r) = elim (Option-cases (insert_after w ws)) [
  | inl e ↦ (ground arith, r)
  | inr (us, e) ↦ absurd (ground arith)
]

-- An I/O that goes after another is not earlier than any before it, and the order is kept.
insert_after-some :
    (w : Waiting) (t : ℕ) (ws : List Waiting) {vs : List Waiting}
    → Rise t ws
    → insert_after w ws ≡ some vs
    → (t ≤ w.retry_ticks) × Rise t vs
unfolding insert_after Rise
insert_after-some w t [] r h = cc
insert_after-some w t (v ∷ ws) {vs} (lv, r) h = elim (Option-cases (insert_after w ws)) [
  | inl e ↦ elim (Bool-cases (leb v.retry_ticks w.retry_ticks)) [
    | inl c ↦
        let eq : v ∷ w ∷ ws ≡ vs = ground arith in
        (
          ground arith,
          subst (Rise t) eq (lv, (ground arith, insert_after-none w v.retry_ticks ws e r)),
        )
    | inr c ↦ absurd (ground arith)
  ]
  | inr (us, e) ↦
      let eq : v ∷ us ≡ vs = ground arith in
      let (le, more) = insert_after-some w v.retry_ticks ws r e in
      (ground arith, subst (Rise t) eq (lv, more))
]

take_due_lem :
    (now t : ℕ) (ws : List Waiting)
    → Rise t ws
    → AllDue now (take_due now ws).0
      × AllLater now (take_due now ws).1
      × Rise t (take_due now ws).1
      × ((take_due now ws).0 ++ (take_due now ws).1 ≡ ws)
unfolding take_due Rise AllDue AllLater
take_due_lem now t [] r = (tt, tt, tt, refl)
take_due_lem now t (w ∷ ws) (l, r) = elim (Bool-cases (ltb now w.retry_ticks)) [
  | inl later ↦
      rw later
        (tt, (ground arith, Rise-AllLater now w.retry_ticks ws (ground arith) r), (l, r), refl)
  | inr due ↦
      let (d, a, s, e) = take_due_lem now w.retry_ticks ws r in
      rw due ((ground arith, d), a, Rise-weaken t w.retry_ticks _ l s, ap (λ l'. w ∷ l') e)
]

insert_after-nonempty : (w : Waiting) (ws : List Waiting) → insert_after w ws ≢ none → ws ≢ []
unfolding insert_after
insert_after-nonempty w [] h = absurd (h refl)
insert_after-nonempty w (v ∷ ws) h = λ e. cc

put-IsValid :
    (w : Waiting) (delay_ms : ℕ) (o : Option (List Waiting)) (r : Retry)
    → insert_after w r.retry_io_list ≡ o
    → IsValid r
    → IsValid (put w delay_ms o r)
unfolding IsValid put Rise
put-IsValid w delay_ms none r e (rise, poller) =
    ((omega arith, insert_after-none w 0 r.retry_io_list e rise), λ _ e'. cc)
put-IsValid w delay_ms (some ws) r e (rise, poller) = (
  (insert_after-some w 0 r.retry_io_list rise e).1,
  λ _. poller (insert_after-nonempty w r.retry_io_list (λ n. cc)),
)

-- An I/O that is queued leaves the list in order, with a poller registered.
pub queue_retry_io-IsValid :
    (hz now io delay_ms : ℕ) (r : Retry) → IsValid r → IsValid (queue_retry_io hz now io delay_ms r)
unfolding queue_retry_io
queue_retry_io-IsValid hz now io delay_ms r v =
    put-IsValid (wait_for hz now io delay_ms) delay_ms _ r refl v

-- The poller, on a list in order, tries again every I/O that is due and no other, in the order of
-- their times; those that stay are all later, in order, and a poller is registered for them.
pub retry_ios_lem :
    (hz now : ℕ) (r : Retry)
    → IsValid r
    → AllDue now (retry_ios hz now r).0
      × AllLater now (retry_ios hz now r).1.retry_io_list
      × ((retry_ios hz now r).0 ++ (retry_ios hz now r).1.retry_io_list ≡ r.retry_io_list)
      × IsValid (retry_ios hz now r).1
unfolding IsValid retry_ios
retry_ios_lem hz now r (rise, poller) =
    let (d, a, s, e) = take_due_lem now 0 r.retry_io_list rise in
    (d, a, e, (s, set (take_due now r.retry_io_list).1))
  where
    set :
        (l : List Waiting)
        → l ≢ []
        → elim l [ [] ↦ none | w ∷ ws ↦ some (u64 (sub64 w.retry_ticks now * 1000000) / hz) ] ≢ none
    set [] n = absurd (n refl)
    set (w ∷ ws) n = λ e. cc
