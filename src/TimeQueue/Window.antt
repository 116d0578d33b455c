-- ===== src/TimeQueue/Window.antt =====
-- `update_io_time_detail` keeps the delays of the last 20 I/Os, their sum and their mean.
use mathlib.Core.List.{append-nil, append_assoc}
use sump.Base.{
  ℕ, zero, suc, ◌+◌, ◌-◌, ◌/◌, ◌^◌, ◌≤◌, ◌<◌, ◌≡◌, refl, ap, ◌∙◌, List, [], ◌∷◌, ◌++◌, arith,
  length, length-append, drop, u64, ltb, ltb→lt, Bool-cases, inl, inr,
}
use sump.TimeQueue.{TimeQueue, init, limit, remove_first, update_io_time_detail}

pub sum : List ℕ → ℕ
sum [] = 0
sum (x ∷ xs) = x + sum xs

sum-append : (xs ys : List ℕ) → sum (xs ++ ys) ≡ sum xs + sum ys
unfolding sum
sum-append [] ys = omega arith
sum-append (x ∷ xs) ys = omega (arith, sum-append xs ys)

-- `len` counts the list, is at most 20, and `io_time_all` is the sum of the list, as a `uint64_t`.
pub record IsValid (q : TimeQueue) : Type 0 where
  pub counted : q.len ≡ length q.io_times
  pub bounded : q.len ≤ limit
  pub total : q.io_time_all ≡ u64 (sum q.io_times)
  pub mean : q.io_time_avg ≡ q.io_time_all / q.len

pub init-IsValid : IsValid init
unfolding init sum
init-IsValid = omega arith

module _ (len all t : ℕ) (all_sum : ℕ) (total : all ≡ u64 all_sum) where
  remove_first-IsValid :
      (xs : List ℕ)
      → length xs ≡ suc len
      → len ≤ limit
      → all_sum ≡ sum xs
      → IsValid (remove_first xs len all)
  unfolding remove_first sum
  remove_first-IsValid [] h b e = absurd (omega arith)
  remove_first-IsValid (x ∷ xs) h b e = record {
    counted = omega arith;
    bounded = b;
    total = omega arith;
    mean = refl;
  }

-- Every update keeps the invariant, also where the sum of the delays wraps around.
pub update_io_time_detail-IsValid :
    (t : ℕ) (q : TimeQueue) → IsValid q → IsValid (update_io_time_detail t q)
unfolding update_io_time_detail sum
update_io_time_detail-IsValid t q v = elim (Bool-cases (ltb q.len limit)) [
  | inl less ↦ rw less (record {
    counted = omega (arith, len_times, v.counted, ltb→lt _ _ less);
    bounded = omega (arith, ltb→lt _ _ less);
    total = total;
    mean = refl;
  })
  | inr full ↦ rw full (
      remove_first-IsValid q.len _ t _ total _ (omega (arith, len_times, v.counted)) v.bounded refl)
]
  where
    times : List ℕ
    times = q.io_times ++ (t ∷ [])

    len_times : length times ≡ length q.io_times + 1
    len_times = omega (arith, length-append q.io_times (t ∷ []))

    total : u64 (q.io_time_all + t) ≡ u64 (sum times)
    total = omega (arith, v.total, sum-append q.io_times (t ∷ []))

-- The last `n` elements of a list.
abbrev pub last_n {ℓ} : {A : Type ℓ} → ℕ → List A → List A
last_n n xs = drop (length xs - n) xs

drop-length-append : (k : ℕ) (xs ys : List ℕ) → k ≤ length xs → drop k (xs ++ ys) ≡ drop k xs ++ ys
drop-length-append zero xs ys h = refl
drop-length-append (suc k) [] ys h = absurd (omega arith)
drop-length-append (suc k) (x ∷ xs) ys h = drop-length-append k xs ys (omega arith)

drop-eq : (m n : ℕ) (xs : List ℕ) → m ≡ n → drop m xs ≡ drop n xs
drop-eq m n xs e = ap (λ k. drop k xs) e

drop-nil : (k : ℕ) → drop {A = ℕ} k [] ≡ []
drop-nil zero = refl
drop-nil (suc k) = refl

drop-drop : (j k : ℕ) (xs : List ℕ) → drop j (drop k xs) ≡ drop (k + j) xs
drop-drop j zero xs = ap (λ n. drop n xs) (omega arith)
drop-drop j (suc k) [] = rw (drop-nil (suc k + j)) (drop-nil j)
drop-drop j (suc k) (x ∷ xs) =
    drop-drop j k xs ∙ drop-eq (suc (k + j)) (suc k + j) (x ∷ xs) (omega arith)

-- all the delays of a history, in order
pub record_all : TimeQueue → List ℕ → TimeQueue
record_all q [] = q
record_all q (t ∷ ts) = record_all (update_io_time_detail t q) ts

pub record_all-IsValid : (ts : List ℕ) (q : TimeQueue) → IsValid q → IsValid (record_all q ts)
unfolding record_all
record_all-IsValid [] q v = v
record_all-IsValid (t ∷ ts) q v = record_all-IsValid ts _ (update_io_time_detail-IsValid t q v)

times-remove_first : (xs : List ℕ) (len all : ℕ) → (remove_first xs len all).io_times ≡ drop 1 xs
unfolding remove_first
times-remove_first [] len all = refl
times-remove_first (x ∷ xs) len all = refl

times-update_io_time_detail :
    (t : ℕ) (q : TimeQueue)
    → IsValid q
    → (update_io_time_detail t q).io_times ≡ last_n limit (q.io_times ++ (t ∷ []))
unfolding update_io_time_detail
times-update_io_time_detail t q v = elim (Bool-cases (ltb q.len limit)) [
  | inl less ↦ rw less (
      drop-eq 0 (length times - limit) times (omega (arith, len_times, v.counted, ltb→lt _ _ less)))
  | inr full ↦ rw full (
      times-remove_first times _ _
      ∙ drop-eq 1 (length times - limit) times
          (ground (arith, len_times, v.counted, v.bounded, full)))
]
  where
    times : List ℕ
    times = q.io_times ++ (t ∷ [])

    len_times : length times ≡ length q.io_times + 1
    len_times = omega (arith, length-append q.io_times (t ∷ []))

length-drop : (n : ℕ) (xs : List ℕ) → length (drop n xs) ≡ length xs - n
length-drop zero xs = omega arith
length-drop (suc n) [] = omega arith
length-drop (suc n) (x ∷ xs) = omega (arith, length-drop n xs)

-- Cutting a list down to its end before more is appended makes no difference.
last_n-append : (n : ℕ) (xs ys : List ℕ) → last_n n (last_n n xs ++ ys) ≡ last_n n (xs ++ ys)
last_n-append n xs ys = rw (← (drop-length-append k xs ys (omega arith))) (
    drop-drop _ k (xs ++ ys)
    ∙ ap (λ j. drop j (xs ++ ys)) (omega (arith, length-drop k (xs ++ ys), length-append xs ys)))
  where
    k : ℕ
    k = length xs - n

times-record_all :
    (ts : List ℕ) (q : TimeQueue)
    → IsValid q
    → (record_all q ts).io_times ≡ last_n limit (q.io_times ++ ts)
unfolding record_all
times-record_all [] q v =
    rw append-nil
      (drop-eq 0 (length q.io_times - limit) q.io_times (omega (arith, v.counted, v.bounded)))
times-record_all (t ∷ ts) q v =
    times-record_all ts _ (update_io_time_detail-IsValid t q v)
    ∙ rw (times-update_io_time_detail t q v) (
        last_n-append limit (q.io_times ++ (t ∷ [])) ts
        ∙ ap (last_n limit) (append_assoc q.io_times (t ∷ []) ts))

-- After any history of delays, the queue holds the last 20 of them in order, their sum as a
-- `uint64_t`, and, where that sum does not wrap around, their mean, rounded down.
pub record_all_lem :
    (ts : List ℕ)
    → let q = record_all init ts in
      let recent = last_n limit ts in
      (q.io_times ≡ recent)
      × (q.len ≡ length recent)
      × (q.len ≤ limit)
      × (q.io_time_all ≡ u64 (sum recent))
      × (sum recent < 2 ^ 64 → q.io_time_avg ≡ sum recent / length recent)
unfolding init
record_all_lem ts = (times, rw (← times) v.counted, v.bounded, rw (← times) v.total, mean)
  where
    v : IsValid (record_all init ts)
    v = record_all-IsValid ts init init-IsValid

    times : (record_all init ts).io_times ≡ last_n limit ts
    times = times-record_all ts init init-IsValid

    mean :
        sum (last_n limit ts) < 2 ^ 64
        → (record_all init ts).io_time_avg ≡ sum (last_n limit ts) / length (last_n limit ts)
    mean h = rw (← times) (
        v.mean
        ∙ rw (v.counted, v.total)
            (ap (λ n. n / length (record_all init ts).io_times) (omega (arith, ap sum times))))
