-- ===== src/Nvme/Paths/Choice.antt =====
-- nvme/bdev_nvme.c `_bdev_nvme_find_io_path` and `bdev_nvme_find_io_path`: the search round the list.
use sump.Base.{
  ℕ, suc, ◌+◌, ◌-◌, ◌<◌, ◌≡◌, refl, ap, sym, ◌∙◌, Bool, true, false, Option, none, some, arith,
  length, get_elem?, get_elem?-lt, ◌||◌, Outcome, ok, dec_lt, ◌⊎◌, inl, inr, true_apart,
}
use sump.Nvme.Paths.{
  NvmePath, NvmeChannel, Policy, active_passive, active_active, Found, best, fallback, get_next,
  find_loop, find_io_path_from,
}
use sump.Nvme.Paths.Depth.{is_optimized, is_non_optimized}
use sump.Nvme.Paths.Round.{around, First, Seen, Sought, find_loop-Sought}

-- Every place of the list is met on the way round.
around-onto : (n start j : ℕ) → start < n → j < n → (d : ℕ) × (d < n) × (around n start d ≡ j)
around-onto n start j hs hj = elim (dec_lt j start) [
  | yes before ↦ (j + n - start, omega arith, ground arith)
  | no after ↦ (j - start, omega arith, ground arith)
]

-- What `_bdev_nvme_find_io_path` returns, and the channel that it leaves.
pub record Chosen (ch : NvmeChannel) (r : Option ℕ) (ch' : NvmeChannel) : Type 0 where
  pub usable :
      (i : ℕ)
      → r ≡ some i
      → (p : NvmePath) × (get_elem? ch.io_path_list i ≡ some p)
        × ((is_optimized p || is_non_optimized p) ≡ true)
  pub optimized_first :
      (j : ℕ) (p : NvmePath)
      → get_elem? ch.io_path_list j ≡ some p
      → is_optimized p ≡ true
      → (i : ℕ) × (q : NvmePath) × (r ≡ some i)
        × (get_elem? ch.io_path_list i ≡ some q)
        × (is_optimized q ≡ true)
        × (ch'.current_io_path ≡ some i)
  pub complete :
      r ≡ none
      → (j : ℕ) (p : NvmePath) → get_elem? ch.io_path_list j ≡ some p
      → (is_optimized p || is_non_optimized p) ≡ false
  pub first_optimized :
      (i : ℕ) (p : NvmePath)
      → r ≡ some i
      → get_elem? ch.io_path_list i ≡ some p
      → is_optimized p ≡ true
      → First is_optimized ch.io_path_list
          (get_next (length ch.io_path_list) ch.current_io_path)
          (length ch.io_path_list)
          i
  pub first_other :
      (i : ℕ) (p : NvmePath)
      → r ≡ some i
      → get_elem? ch.io_path_list i ≡ some p
      → is_optimized p ≡ false
      → First is_non_optimized ch.io_path_list
          (get_next (length ch.io_path_list) ch.current_io_path)
          (length ch.io_path_list)
          i
  pub paths : ch'.io_path_list ≡ ch.io_path_list
  pub counter : ch'.rr_counter ≡ ch.rr_counter
  pub cached : (ch'.current_io_path ≡ r) ⊎ (ch'.current_io_path ≡ ch.current_io_path)

Chosen-best :
    (ch : NvmeChannel) (i : ℕ) (p : NvmePath)
    → get_elem? ch.io_path_list i ≡ some p
    → is_optimized p ≡ true
    → First is_optimized ch.io_path_list
        (get_next (length ch.io_path_list) ch.current_io_path)
        (length ch.io_path_list)
        i
    → Chosen ch (some i) (record ch { current_io_path = some i })
Chosen-best ch i p at good earliest = record {
  usable = λ j e. (let same : i ≡ j = ground arith in (p, rw (← same) at, rw good));
  optimized_first = λ j q at_q good_q. (i, p, refl, at, good, refl);
  complete = λ e. cc;
  first_optimized = λ j q e at_q good_q. (let same : i ≡ j = ground arith in rw (← same) earliest);
  first_other = λ j q e at_q bad.
      (let same : i ≡ j = ground arith in
        let one : p ≡ q = ground (arith, ap (get_elem? ch.io_path_list) same) in
        absurd (true_apart good (rw one bad)));
  paths = refl;
  counter = refl;
  cached = inl refl;
}

Chosen-fallback :
    (ch ch' : NvmeChannel) (r : Option ℕ)
    → get_next (length ch.io_path_list) ch.current_io_path < length ch.io_path_list
    → ch'.io_path_list ≡ ch.io_path_list
    → ch'.rr_counter ≡ ch.rr_counter
    → (ch'.current_io_path ≡ r) ⊎ (ch'.current_io_path ≡ ch.current_io_path)
    → Seen ch.io_path_list
        (get_next (length ch.io_path_list) ch.current_io_path)
        (length ch.io_path_list)
        r
    → Chosen ch r ch'
Chosen-fallback ch ch' r hs same count cached seen = record {
  usable = λ i e. (let (p, at, other, _) = seen.held i e in (p, at, ground (arith, other)));
  optimized_first = λ j p at good.
      (let (d, lt, e) = around-onto n start j hs (get_elem?-lt ch.io_path_list j at) in
        let bad : is_optimized p ≡ false = seen.no_best d p lt (rw e at) in
        absurd (apart good bad));
  complete = λ gone j p at.
      (let (d, lt, e) = around-onto n start j hs (get_elem?-lt ch.io_path_list j at) in
        let a : is_optimized p ≡ false = seen.no_best d p lt (rw e at) in
        let b : is_non_optimized p ≡ false = seen.no_other gone d p lt (rw e at) in rw (a, b));
  first_optimized = λ i p e at good.
      (let (d, lt, e') = around-onto n start i hs (get_elem?-lt ch.io_path_list i at) in
        absurd (apart good (seen.no_best d p lt (rw e' at))));
  first_other = λ i p e at bad. (let (q, at_q, other, earliest) = seen.held i e in earliest);
  paths = same;
  counter = count;
  cached = cached;
}
  where
    n : ℕ
    n = length ch.io_path_list

    start : ℕ
    start = get_next n ch.current_io_path

    apart : {b : Bool} → b ≡ true → b ≡ false → ⊥
    apart e f = cc

get_next-lt : (n : ℕ) (c : Option ℕ) → 0 < n → get_next n c < n
unfolding get_next
get_next-lt n none h = h
get_next-lt n (some i) h = ground arith

-- On a list that is not empty `_bdev_nvme_find_io_path` ends, and returns a path that is connected
-- and accessible: the first optimized one if there is any, which it remembers, otherwise the first
-- non-optimized one, each counted round the list from the place after the path that was remembered,
-- or from its start; it returns NULL only if no path of the list is connected and accessible. The
-- list of paths and `rr_counter` do not change.
pub find_io_path_from-Chosen :
    (ch : NvmeChannel)
    → 0 < length ch.io_path_list
    → (r : Option ℕ) × (ch' : NvmeChannel) × (find_io_path_from ch ≡ ok (some (r, ch')))
      × Chosen ch r ch'
unfolding find_io_path_from Sought
find_io_path_from-Chosen ch some_path = go found.0 found.1 found.2
  where
    n : ℕ
    n = length ch.io_path_list

    start : ℕ
    start = get_next n ch.current_io_path

    zero_around : around n start 0 ≡ start
    zero_around = ground (arith, get_next-lt n ch.current_io_path some_path)

    at_start :
        {o : Outcome (Option Found)}
        → find_loop (suc (n - 1)) ch.io_path_list start (around n start 0) none ≡ o
        → find_loop (suc (n - 1)) ch.io_path_list start start none ≡ o
    at_start e =
        ap (λ i. find_loop (suc (n - 1)) ch.io_path_list start i none) (sym zero_around) ∙ e

    fuel : 0 + suc (n - 1) ≡ n
    fuel = omega arith

    found :
        (f : Found) × (find_loop (suc (n - 1)) ch.io_path_list start (around n start 0) none
          ≡ ok (some f))
        × Sought ch.io_path_list start f
    found =
        find_loop-Sought (suc (n - 1)) 0 ch.io_path_list start none fuel some_path
          (get_next-lt n ch.current_io_path some_path)
          (record {
            no_best = λ d p lt. elim lt [ ];
            no_other = λ e d p lt. elim lt [ ];
            held = λ i e. cc;
          })

    go :
        (f : Found)
        → find_loop (suc (n - 1)) ch.io_path_list start (around n start 0) none ≡ ok (some f)
        → Sought ch.io_path_list start f
        → (r : Option ℕ) × (ch' : NvmeChannel) × (find_io_path_from ch ≡ ok (some (r, ch')))
          × Chosen ch r ch'
    go (best i) e (p, at, good, earliest) = (
      some i,
      record ch { current_io_path = some i },
      ground (arith, at_start e),
      Chosen-best ch i p at good earliest,
    )
    go (fallback r) e seen = by_policy ch.mp_policy refl
      where
        by_policy :
            (m : Policy)
            → ch.mp_policy ≡ m
            → (r : Option ℕ) × (ch' : NvmeChannel) × (find_io_path_from ch ≡ ok (some (r, ch')))
              × Chosen ch r ch'
        by_policy active_passive m = (
          r,
          ch,
          ground (arith, at_start e),
          Chosen-fallback ch ch r (get_next-lt n ch.current_io_path some_path) refl refl (inr refl)
              seen,
        )
        by_policy active_active m = (
          r,
          record ch { current_io_path = r },
          ground (arith, at_start e),
          Chosen-fallback ch _ r (get_next-lt n ch.current_io_path some_path) refl refl (inl refl)
              seen,
        )
