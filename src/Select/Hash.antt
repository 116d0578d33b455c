-- ===== src/Select/Hash.antt =====
-- What `ump_bdev_find_iopath` returns, as it is built.
use native.Mathlib.Nat.{mod-lt, mul-div_cancel}
use sump.Base.{
  ◌∙◌, ◌↔◌, ℕ, ◌/◌, ◌%◌, ◌^◌, ◌≤◌, ◌<◌, ◌≡◌, ◌≢◌, inl, inr, refl, Bool, true, false, List, [], ◌∷◌,
  Option, none, some, arith, first, first-some, first-none, first_of_least, get_elem?, length,
  modify, length-modify, sym, ◌*◌, get_elem?-modify_inv, Bool-cases, next, ap, zero, suc,
  Option-cases, ok,
}
use sump.Bdev.{Io}
use sump.IoPath.{IoPath, Channel}
use sump.Select.{is_available, is_chosen, hash_loops, hash_id, find_iopath_hash, find_iopath}

-- A path of the list that can be used.
abbrev pub Available : List IoPath → ℕ → Type 0
Available paths i = (p : IoPath) × (get_elem? paths i ≡ some p) × (p.available ≡ true)

-- No path of the list can be used.
abbrev pub AllDown : List IoPath → Type 0
AllDown paths = (i : ℕ) (p : IoPath) → get_elem? paths i ≡ some p → p.available ≡ false

chosen-available : (c : ℕ) (p : IoPath) → is_chosen c p ≡ true → p.available ≡ true
chosen-available c p h = ground arith

pub hash_loops-some :
    (c : ℕ) (paths : List IoPath) {i : ℕ} → hash_loops c paths ≡ some i → Available paths i
unfolding hash_loops
hash_loops-some c paths {i} e = elim (Option-cases (first (is_chosen c) paths)) [
  | inl gone ↦ first-some is_available paths (ground arith)
  | inr (k, found) ↦
      let (p, at, t) = first-some (is_chosen c) paths found in
      (p, ground arith, chosen-available c p t)
]

pub hash_loops-none : (c : ℕ) (paths : List IoPath) → hash_loops c paths ≡ none → AllDown paths
unfolding hash_loops
hash_loops-none c paths e i p at = first-none is_available paths i (ground arith) at

pub hash_loops-AllDown : (c : ℕ) (paths : List IoPath) → AllDown paths → hash_loops c paths ≡ none
hash_loops-AllDown c paths down = elim (Option-cases (hash_loops c paths)) [
  | inl gone ↦ gone
  | inr (i, found) ↦
      let (p, at, up) = hash_loops-some c paths found in
      let off : p.available ≡ false = down i p at in cc
]

-- The `id` of each path is its place in the list, and `max_id` the number of paths.
pub record HasIds (ch : Channel) : Type 0 where
  pub places : (i : ℕ) (p : IoPath) → get_elem? ch.iopath_list i ≡ some p → p.id ≡ i
  pub count : ch.max_id ≡ length ch.iopath_list

hash_loops_hit :
    (c : ℕ) (paths : List IoPath)
    → ((i : ℕ) (p : IoPath) → get_elem? paths i ≡ some p → p.id ≡ i)
    → Available paths c
    → hash_loops c paths ≡ some c
unfolding hash_loops
hash_loops_hit c paths places (p, at, up) =
    let found : first (is_chosen c) paths ≡ some c =
      first_of_least (is_chosen c) paths c at (ground (arith, places c p at))
        (λ j q lt e. ground (arith, places j q e)) in
    rw (found, hash_loops)

abbrev disable : IoPath → IoPath
disable p = record p { available = false }

-- The channel after `iopath->available = false` on one path.
abbrev pub take_down : ℕ → Channel → Channel
take_down i ch = record ch { iopath_list = modify ch.iopath_list i disable }

-- A path that is disabled fails either test; so only a search that ended at it changes.
first-take_down :
    (test : IoPath → Bool) (paths : List IoPath) (i : ℕ)
    → ((p : IoPath) → test (disable p) ≡ false)
    → first test paths ≢ some i
    → first test (modify paths i disable) ≡ first test paths
unfolding first
first-take_down test [] i off h = refl
first-take_down test (p ∷ ps) zero off h = rw (off p) (ground arith)
first-take_down test (p ∷ ps) (suc i) off h = elim (Bool-cases (test p)) [
  | inl hit ↦ rw hit
  | inr miss ↦ rw miss (ap next (first-take_down test ps i off (λ e. h (rw (miss, e)))))
]

take_down-HasIds : (ch : Channel) (i : ℕ) → HasIds ch → HasIds (take_down i ch)
take_down-HasIds ch i ids = record {
  places = go ch.iopath_list i ids.places;
  count = ids.count ∙ sym (length-modify ch.iopath_list i disable);
}
  where
    go :
        (paths : List IoPath) (i : ℕ)
        → ((j : ℕ) (p : IoPath) → get_elem? paths j ≡ some p → p.id ≡ j)
        → (j : ℕ) (p : IoPath) → get_elem? (modify paths i disable) j ≡ some p
        → p.id ≡ j
    go paths i places j p at =
        let (q, e, same) = get_elem?-modify_inv paths i j disable at in
        let id : q.id ≡ j = places j q e in ground arith

-- A path that goes down sends no I/O astray that was not on it.
hash_loops-take_down :
    (c i k : ℕ) (paths : List IoPath)
    → hash_loops c paths ≡ some k
    → k ≢ i
    → hash_loops c (modify paths i disable) ≡ some k
unfolding hash_loops
hash_loops-take_down c i k paths e ne = elim (Option-cases (first (is_chosen c) paths)) [
  | inl gone ↦
      let same : first (is_chosen c) (modify paths i disable) ≡ none =
        first-take_down (is_chosen c) paths i (λ p. refl) (λ h. cc) ∙ gone in
      let next_one : first is_available paths ≡ some k = rw (gone, hash_loops) at e in
      rw (same, hash_loops)
        (first-take_down is_available paths i (λ p. refl) (λ h. ne (ground arith)) ∙ next_one)
  | inr (j, found) ↦
      let hit : ◌≡◌ {A = Option ℕ} (some j) (some k) = rw (found, hash_loops) at e in
      let same : first (is_chosen c) (modify paths i disable) ≡ some k =
        first-take_down (is_chosen c) paths i (λ p. refl) (λ h. ne (ground arith)) ∙ found ∙ hit in
      rw (same, hash_loops)
]

-- The place that an I/O hashes to.
abbrev pub slot : Channel → Io → ℕ
slot ch io = io.offset_blocks / io.num_blocks % ch.max_id

hash_id_lem :
    (n : ℕ) (io : Io)
    → io.num_blocks ≢ 0
    → n ≢ 0
    → n ≤ 2 ^ 32
    → hash_id n io ≡ ok (io.offset_blocks / io.num_blocks % n)
unfolding hash_id
hash_id_lem n io ne nz small =
    let lt : io.offset_blocks / io.num_blocks % n < n = mod-lt _ (omega arith) in ground arith

find_iopath-eq :
    (ch : Channel) (io : Io) (paths : List IoPath)
    → ch.iopath_list ≡ paths
    → HasIds ch
    → io.num_blocks ≢ 0
    → length paths ≤ 2 ^ 32
    → find_iopath ch io ≡ ok (hash_loops (slot ch io) paths)
unfolding find_iopath find_iopath_hash hash_loops first
find_iopath-eq ch io [] e ids ne small = rw (e, find_iopath)
find_iopath-eq ch io (p ∷ ps) e ids ne small =
    let count : ch.max_id ≡ length (p ∷ ps) = ids.count ∙ ap length e in
    let id : hash_id ch.max_id io ≡ ok (slot ch io) =
      hash_id_lem ch.max_id io ne (omega arith) (omega arith) in
    ground arith

-- An I/O of at least one block, on a channel whose paths are numbered by their places, always gets
-- an answer; NULL exactly if no path is available; otherwise an available path; and the path
-- numbered by the remainder of the I/O's index by the number of paths, if that one is available.
pub find_iopath-total :
    (ch : Channel) (io : Io)
    → HasIds ch
    → io.num_blocks ≢ 0
    → length ch.iopath_list ≤ 2 ^ 32
    → (r : Option ℕ) × (find_iopath ch io ≡ ok r)
      × ((r ≡ none) ↔ AllDown ch.iopath_list)
      × ((i : ℕ) → r ≡ some i → Available ch.iopath_list i)
      × (Available ch.iopath_list (slot ch io) → r ≡ some (slot ch io))
find_iopath-total ch io ids ne small = (
  hash_loops (slot ch io) paths,
  find_iopath-eq ch io paths refl ids ne small,
  (hash_loops-none _ paths, hash_loops-AllDown _ paths),
  λ i e. hash_loops-some _ paths e,
  hash_loops_hit _ paths ids.places,
)
  where
    paths : List IoPath
    paths = ch.iopath_list

-- When a path goes down, every I/O that was sent to another path is still sent to that one.
pub find_iopath-take_down :
    (ch : Channel) (io : Io) (i k : ℕ)
    → HasIds ch
    → io.num_blocks ≢ 0
    → length ch.iopath_list ≤ 2 ^ 32
    → find_iopath ch io ≡ ok (some k)
    → k ≢ i
    → find_iopath (take_down i ch) io ≡ ok (some k)
find_iopath-take_down ch io i k ids ne small e other =
    find_iopath-eq (take_down i ch) io (modify paths i disable) refl (take_down-HasIds ch i ids) ne
      (omega (arith, length-modify paths i disable))
    ∙ ap ok (hash_loops-take_down (slot ch io) i k paths before other)
  where
    paths : List IoPath
    paths = ch.iopath_list

    before : hash_loops (slot ch io) paths ≡ some k
    before = cc (find_iopath-eq ch io paths refl ids ne small)

-- A stream of I/Os of one size, over a channel with every path available, takes the paths in turn.
pub find_iopath_stripes :
    (ch : Channel) (io : Io) (k : ℕ)
    → HasIds ch
    → io.num_blocks ≢ 0
    → length ch.iopath_list ≤ 2 ^ 32
    → ((i : ℕ) → i < length ch.iopath_list → Available ch.iopath_list i)
    → 0 < length ch.iopath_list
    → io.offset_blocks ≡ k * io.num_blocks
    → find_iopath ch io ≡ ok (some (k % length ch.iopath_list))
find_iopath_stripes ch io k ids ne small up some_path at =
    let (r, e, _, _, hit) = find_iopath-total ch io ids ne small in
    let n : ℕ = length ch.iopath_list in
    let pos : 0 < io.num_blocks = omega arith in
    let same : slot ch io ≡ k % n = rw (at, mul-div_cancel k pos, ids.count) in
    let one : r ≡ some (slot ch io) = hit (rw same (up (k % n) (mod-lt k some_path))) in
    rw (e, one, same)
