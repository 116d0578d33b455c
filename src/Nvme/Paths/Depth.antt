-- ===== src/Nvme/Paths/Depth.antt =====
-- nvme/bdev_nvme.c `_bdev_nvme_find_io_path_min_qd`: the path with the shortest queue.
use sump.Base.{
  ℕ, suc, ◌≡◌, ◌⊎◌, inl, inr, refl, ◌∙◌, Bool, true, false, ◌&&◌, List, [], ◌∷◌, none, some, arith,
  ltb, if◌then◌else◌, minimum_loop, minimum_loop-whole, IsLeast, NoneBelow,
}
use sump.Nvme.Paths.{
  optimized, non_optimized, inaccessible, NvmePath, is_usable, Minima, visit_qd, min_qd_loop,
  find_io_path_min_qd, u32_max,
}

abbrev pub is_optimized : NvmePath → Bool
is_optimized p =
    is_usable p
    && (elim p.ana_state [ optimized ↦ true | non_optimized ↦ false | inaccessible ↦ false ])

abbrev pub is_non_optimized : NvmePath → Bool
is_non_optimized p =
    is_usable p
    && (elim p.ana_state [ optimized ↦ false | non_optimized ↦ true | inaccessible ↦ false ])

abbrev pub depth : NvmePath → ℕ
depth p = p.num_outstanding_reqs

-- One path, for each of the two minima.
visit_qd_lem :
    (p : NvmePath) (i : ℕ) (m : Minima)
    → ((visit_qd p i m).opt_min_qd
        ≡ (if is_optimized p && ltb (depth p) m.opt_min_qd then depth p else m.opt_min_qd))
      × ((visit_qd p i m).optimized
          ≡ (if is_optimized p && ltb (depth p) m.opt_min_qd then some i else m.optimized))
      × ((visit_qd p i m).non_opt_min_qd ≡ (
          if is_non_optimized p && ltb (depth p) m.non_opt_min_qd
          then depth p
          else m.non_opt_min_qd))
      × ((visit_qd p i m).non_optimized ≡ (
          if is_non_optimized p && ltb (depth p) m.non_opt_min_qd then some i else m.non_optimized))
unfolding visit_qd
visit_qd_lem p i m = ground arith

-- The loop computes the two minima side by side.
min_qd_loop-minima :
    (ps : List NvmePath) (i : ℕ) (m : Minima)
    → ((min_qd_loop ps i m).optimized
        ≡ minimum_loop is_optimized depth m.opt_min_qd m.optimized i ps)
      × ((min_qd_loop ps i m).non_optimized
          ≡ minimum_loop is_non_optimized depth m.non_opt_min_qd m.non_optimized i ps)
unfolding min_qd_loop minimum_loop
min_qd_loop-minima [] i m = (refl, refl)
min_qd_loop-minima (p ∷ ps) i m =
    let (a, b) = min_qd_loop-minima ps (suc i) (visit_qd p i m) in
    let (e, f, g, h) = visit_qd_lem p i m in (a ∙ rw (e, f), b ∙ rw (g, h))

-- `_bdev_nvme_find_io_path_min_qd` returns, among the connected paths whose ANA state is not being
-- read again, the first of the optimized ones with the shortest queue; if no optimized one has a
-- queue below UINT32_MAX, the first of the non-optimized ones with the shortest queue; if there is
-- no such one either, NULL.
pub find_io_path_min_qd_lem :
    (paths : List NvmePath)
    → ((i : ℕ) × (find_io_path_min_qd paths ≡ some i) × IsLeast is_optimized depth u32_max paths i)
      ⊎ (NoneBelow is_optimized depth u32_max paths
          × (((i : ℕ) × (find_io_path_min_qd paths ≡ some i)
                × IsLeast is_non_optimized depth u32_max paths i)
              ⊎ ((find_io_path_min_qd paths ≡ none)
                  × NoneBelow is_non_optimized depth u32_max paths)))
unfolding find_io_path_min_qd
find_io_path_min_qd_lem paths =
    let start : Minima = record {
      opt_min_qd = u32_max;
      optimized = none;
      non_opt_min_qd = u32_max;
      non_optimized = none;
    } in
    let (a, b) = min_qd_loop-minima paths 0 start in
    elim (minimum_loop-whole is_optimized depth u32_max paths) [
      | inl (i, e, least) ↦
          let found : (min_qd_loop paths 0 start).optimized ≡ some i = a ∙ e in
          inl (i, rw (found, find_io_path_min_qd), least)
      | inr (e, above) ↦
          let gone : (min_qd_loop paths 0 start).optimized ≡ none = a ∙ e in
          inr (
            above,
            elim (minimum_loop-whole is_non_optimized depth u32_max paths) [
              | inl (i, e', least) ↦ inl (i, rw (gone, find_io_path_min_qd) (b ∙ e'), least)
              | inr (e', above') ↦ inr (rw (gone, find_io_path_min_qd) (b ∙ e'), above')
            ],
          )
    ]
