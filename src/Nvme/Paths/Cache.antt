-- ===== src/Nvme/Paths/Cache.antt =====
-- nvme/bdev_nvme.c `bdev_nvme_find_io_path`: the path that is remembered from one I/O to the next.
use native.Mathlib.Nat.{mod-eq_of_lt}
use sump.Base.{
  ℕ, zero, suc, ◌+◌, ◌<◌, ◌^◌, ◌≡◌, refl, sym, subst, ap, ◌∙◌, true, ◌||◌, List, Option, none, some,
  arith, length, get_elem?, get_elem?-lt, Outcome, ok, ◌>>=◌, u32, ltb, ◌⊎◌, inl, inr, Bool-cases,
}
use sump.Nvme.Paths.{
  NvmePath, NvmeChannel, Policy, Selector, find_io_path_from, find_io_path_min_qd, find_io_path_new,
  nvme_find_io_path,
}
use sump.Nvme.Paths.Depth.{is_optimized, is_non_optimized, find_io_path_min_qd_lem}
use sump.Nvme.Paths.Choice.{Chosen, find_io_path_from-Chosen}

-- A path of the list.
abbrev pub IsPath : List NvmePath → Option ℕ → Type 0
IsPath paths none = Unit {0}
IsPath paths (some i) = i < length paths

-- `k` calls in a row, and the path that the last one returns.
unfoldable pub finds : ℕ → NvmeChannel → Outcome (Option (Option ℕ × NvmeChannel))
finds zero ch = nvme_find_io_path ch
finds (suc k) ch = do
  r ← nvme_find_io_path ch
  elim r [ none ↦ ok none | some (i, ch') ↦ finds k ch' ]

-- A call that is counted, but not the last of its batch.
find_counted :
    (i : ℕ) (ch : NvmeChannel)
    → ch.mp_policy ≡ Policy.active_active
    → ch.mp_selector ≡ Selector.round_robin
    → ch.current_io_path ≡ some i
    → ch.rr_min_io < 2 ^ 32
    → ch.rr_counter + 1 < ch.rr_min_io
    → nvme_find_io_path ch ≡ ok (some (some i, record ch { rr_counter = ch.rr_counter + 1 }))
unfolding nvme_find_io_path
find_counted i ch p s c w lt =
    let small : ch.rr_counter + 1 < 2 ^ 32 = omega arith in ground (arith, mod-eq_of_lt small)

-- The last call of a batch looks for a path.
find_last :
    (i : ℕ) (ch : NvmeChannel)
    → ch.mp_policy ≡ Policy.active_active
    → ch.mp_selector ≡ Selector.round_robin
    → ch.current_io_path ≡ some i
    → ch.rr_min_io < 2 ^ 32
    → ch.rr_counter + 1 ≡ ch.rr_min_io
    → nvme_find_io_path ch ≡ find_io_path_from (record ch { rr_counter = 0 })
unfolding nvme_find_io_path find_io_path_new
find_last i ch p s c w e =
    let small : ch.rr_counter + 1 < 2 ^ 32 = omega arith in ground (arith, mod-eq_of_lt small)

finds_counted :
    (k i : ℕ) (ch : NvmeChannel)
    → ch.mp_policy ≡ Policy.active_active
    → ch.mp_selector ≡ Selector.round_robin
    → ch.current_io_path ≡ some i
    → ch.rr_min_io < 2 ^ 32
    → ch.rr_counter + suc k < ch.rr_min_io
    → finds k ch ≡ ok (some (some i, record ch { rr_counter = ch.rr_counter + suc k }))
unfolding finds
finds_counted zero i ch p s c w lt = find_counted i ch p s c w lt
finds_counted (suc k) i ch p s c w lt =
    let counted : NvmeChannel = record ch { rr_counter = ch.rr_counter + 1 } in
    let same : ch.rr_counter + 1 + suc k ≡ ch.rr_counter + suc (suc k) = omega arith in
    rw (find_counted i ch p s c w (omega arith)) (
      finds_counted k i counted p s c w (omega arith)
      ∙ ap (λ n. ok (some (some i, record ch { rr_counter = n }))) same)

finds_last :
    (k i : ℕ) (ch : NvmeChannel)
    → ch.mp_policy ≡ Policy.active_active
    → ch.mp_selector ≡ Selector.round_robin
    → ch.current_io_path ≡ some i
    → ch.rr_min_io < 2 ^ 32
    → ch.rr_counter + suc k ≡ ch.rr_min_io
    → finds k ch ≡ find_io_path_from (record ch { rr_counter = 0 })
unfolding finds
finds_last zero i ch p s c w e = find_last i ch p s c w e
finds_last (suc k) i ch p s c w e =
    let counted : NvmeChannel = record ch { rr_counter = ch.rr_counter + 1 } in
    rw (find_counted i ch p s c w (omega arith)) (finds_last k i counted p s c w (omega arith))

-- Under the active-active policy with the round-robin selector and at least one path, a path that is
-- remembered serves all the calls before the one with which `rr_min_io` are counted; that one sets the
-- count to 0 and returns the first optimized path, or else the first non-optimized one, round the
-- list from the place after the path that is remembered. `rr_min_io` is below 2^32.
pub finds-Chosen :
    (k i : ℕ) (ch : NvmeChannel)
    → ch.mp_policy ≡ Policy.active_active
    → ch.mp_selector ≡ Selector.round_robin
    → ch.current_io_path ≡ some i
    → ch.rr_min_io < 2 ^ 32
    → ch.rr_counter + suc k ≡ ch.rr_min_io
    → 0 < length ch.io_path_list
    → ((j : ℕ) → j < k → (ch' : NvmeChannel) × (finds j ch ≡ ok (some (some i, ch'))))
      × ((r : Option ℕ) × (ch' : NvmeChannel) × (finds k ch ≡ ok (some (r, ch')))
          × Chosen (record ch { rr_counter = 0 }) r ch')
finds-Chosen k i ch p s c w e some_path =
    let (r, ch', found, chosen) =
      find_io_path_from-Chosen (record ch { rr_counter = 0 }) some_path in
    (
      λ j lt. (_, finds_counted j i ch p s c w (omega arith)),
      (r, ch', finds_last k i ch p s c w e ∙ found, chosen),
    )

-- What one call does to a channel: it returns a path of the list or none, remembers a path of the
-- list or none, and keeps the list.
abbrev pub Finds : NvmeChannel → Option ℕ → NvmeChannel → Type 0
Finds ch r ch' =
    IsPath ch.io_path_list r
    × IsPath ch.io_path_list ch'.current_io_path
    × (ch'.io_path_list ≡ ch.io_path_list)

Chosen-Finds :
    (ch : NvmeChannel) (r : Option ℕ) (ch' : NvmeChannel)
    → IsPath ch.io_path_list ch.current_io_path
    → Chosen ch r ch'
    → Finds ch r ch'
Chosen-Finds ch r ch' old c = let now = of_result r c.usable in (now, kept c.cached now, c.paths)
  where
    of_result :
        (o : Option ℕ)
        → ((i : ℕ)
            → o ≡ some i
            → (p : NvmePath) × (get_elem? ch.io_path_list i ≡ some p)
              × ((is_optimized p || is_non_optimized p) ≡ true))
        → IsPath ch.io_path_list o
    of_result none usable = tt
    of_result (some i) usable = get_elem?-lt ch.io_path_list i ((usable i refl).1)

    kept :
        (ch'.current_io_path ≡ r) ⊎ (ch'.current_io_path ≡ ch.current_io_path)
        → IsPath ch.io_path_list r
        → IsPath ch.io_path_list ch'.current_io_path
    kept (inl e) now = subst (IsPath ch.io_path_list) (sym e) now
    kept (inr e) now = subst (IsPath ch.io_path_list) (sym e) old

min_qd-IsPath : (paths : List NvmePath) → IsPath paths (find_io_path_min_qd paths)
min_qd-IsPath paths = elim (find_io_path_min_qd_lem paths) [
  | inl (i, e, l) ↦ rw e (get_elem?-lt paths i l.found)
  | inr (_, inl (i, e, l)) ↦ rw e (get_elem?-lt paths i l.found)
  | inr (_, inr (e, _)) ↦ rw e tt
]

-- The call ends on every policy and selector.
find_new-Finds :
    (ch : NvmeChannel)
    → 0 < length ch.io_path_list
    → IsPath ch.io_path_list ch.current_io_path
    → (r : Option ℕ) × (ch' : NvmeChannel) × (find_io_path_new ch ≡ ok (some (r, ch')))
      × Finds ch r ch'
unfolding find_io_path_new
find_new-Finds ch some_path old = by_policy ch.mp_policy ch.mp_selector refl refl
  where
    by_policy :
        (p : Policy) (s : Selector)
        → ch.mp_policy ≡ p
        → ch.mp_selector ≡ s
        → (r : Option ℕ) × (ch' : NvmeChannel) × (find_io_path_new ch ≡ ok (some (r, ch')))
          × Finds ch r ch'
    by_policy Policy.active_passive s ep es =
        let (r, ch', e, c) = find_io_path_from-Chosen ch some_path in
        (r, ch', ground arith, Chosen-Finds ch r ch' old c)
    by_policy Policy.active_active Selector.round_robin ep es =
        let (r, ch', e, c) = find_io_path_from-Chosen ch some_path in
        (r, ch', ground arith, Chosen-Finds ch r ch' old c)
    by_policy Policy.active_active Selector.queue_depth ep es = (
      find_io_path_min_qd ch.io_path_list,
      ch,
      ground arith,
      (min_qd-IsPath ch.io_path_list, old, refl),
    )

pub nvme_find_io_path-Finds :
    (ch : NvmeChannel)
    → 0 < length ch.io_path_list
    → IsPath ch.io_path_list ch.current_io_path
    → (r : Option ℕ) × (ch' : NvmeChannel) × (nvme_find_io_path ch ≡ ok (some (r, ch')))
      × Finds ch r ch'
unfolding nvme_find_io_path
nvme_find_io_path-Finds ch some_path old =
    by_cache ch.current_io_path ch.mp_policy ch.mp_selector refl refl refl
  where
    by_cache :
        (o : Option ℕ) (p : Policy) (s : Selector)
        → ch.current_io_path ≡ o
        → ch.mp_policy ≡ p
        → ch.mp_selector ≡ s
        → (r : Option ℕ) × (ch' : NvmeChannel) × (nvme_find_io_path ch ≡ ok (some (r, ch')))
          × Finds ch r ch'
    by_cache none p s eo ep es =
        let (r, ch', e, f) = find_new-Finds ch some_path old in (r, ch', ground arith, f)
    by_cache (some i) Policy.active_passive s eo ep es =
        (some i, ch, ground arith, (subst (IsPath ch.io_path_list) eo old, old, refl))
    by_cache (some i) Policy.active_active Selector.queue_depth eo ep es =
        let (r, ch', e, f) = find_new-Finds ch some_path old in (r, ch', ground arith, f)
    by_cache (some i) Policy.active_active Selector.round_robin eo ep es =
        elim (Bool-cases (ltb (u32 (ch.rr_counter + 1)) ch.rr_min_io)) [
          | inl more ↦ (
            some i,
            record ch { rr_counter = u32 (ch.rr_counter + 1) },
            ground arith,
            (subst (IsPath ch.io_path_list) eo old, old, refl),
          )
          | inr last ↦
              let (r, ch', e, f) = find_new-Finds (record ch { rr_counter = 0 }) some_path old in
              (r, ch', ground arith, f)
        ]
