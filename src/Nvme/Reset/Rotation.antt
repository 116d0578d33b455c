-- ===== src/Nvme/Reset/Rotation.antt =====
-- bdev_nvme_failover_trid of nvme/bdev_nvme.c, applied again and again.
use mathlib.Core.List.{append_assoc, append-nil}
use sump.Base.{
  ℕ, zero, suc, List, [], ◌∷◌, ◌++◌, ◌≡◌, refl, sym, ap, subst, ◌∙◌, length, map, Outcome, ok,
  ◌>>=◌, false, arith,
}
use sump.Nvme.Reset.{Ctrlr, PathId, Effect, failover_trid, fail_path}

-- No path is PCIe.
unfoldable pub AllFabrics : List PathId → Type 0
AllFabrics [] = Unit {0}
AllFabrics (p ∷ ps) = (p.is_pcie ≡ false) × AllFabrics ps

-- The active path is the first of the list, as the code asserts.
unfoldable pub IsFirst : ℕ → List PathId → Type 0
IsFirst a [] = ⊥
IsFirst a (p ∷ ps) = p.name ≡ a

-- `n` failovers that keep the path.
unfoldable pub failovers : ℕ → Ctrlr → Outcome Ctrlr
failovers zero c = ok c
failovers (suc n) c = do (d, es) ← failover_trid false c; failovers n d

AllFabrics-snoc :
    (ps : List PathId) (p : PathId)
    → p.is_pcie ≡ false
    → AllFabrics ps
    → AllFabrics (ps ++ fail_path p ∷ [])
unfolding AllFabrics
AllFabrics-snoc [] p h f = (h, tt)
AllFabrics-snoc (q ∷ ps) p h (fq, f) = (fq, AllFabrics-snoc ps p h f)

-- One failover moves the first path to the end, failed, and makes the new first path active.
rotate :
    (c : Ctrlr) (p : PathId) (ps : List PathId)
    → c.trids ≡ p ∷ ps
    → p.name ≡ c.active_path_id
    → AllFabrics (p ∷ ps)
    → (d : Ctrlr) × (es : List Effect) × (failover_trid false c ≡ ok (d, es))
      × (d.trids ≡ ps ++ fail_path p ∷ [])
      × IsFirst (d.active_path_id) (ps ++ fail_path p ∷ [])
unfolding failover_trid IsFirst AllFabrics
rotate c p [] t h f = (record c { trids = fail_path p ∷ [] }, [], ground (arith, t, h), refl, h)
rotate c p (q ∷ rest) t h f = (
  record c { active_path_id = q.name; trids = q ∷ (rest ++ fail_path p ∷ []) },
  Effect.ctrlr_fail ∷ Effect.set_trid q.trid ∷ [],
  ground (arith, t, h, f.0),
  refl,
  refl,
)

failovers_all :
    (ps qs : List PathId) (c : Ctrlr)
    → c.trids ≡ ps ++ qs
    → IsFirst c.active_path_id (ps ++ qs)
    → AllFabrics (ps ++ qs)
    → (d : Ctrlr) × (failovers (length ps) c ≡ ok d)
      × (d.trids ≡ qs ++ map fail_path ps)
      × IsFirst d.active_path_id (qs ++ map fail_path ps)
unfolding failovers IsFirst AllFabrics
failovers_all [] qs c t i f =
    (c, refl, t ∙ sym (append-nil qs), subst (IsFirst c.active_path_id) (sym (append-nil qs)) i)
failovers_all (p ∷ ps) qs c t i f =
    let (d, es, r, td, id) = rotate c p (ps ++ qs) t i f in
    let e = append_assoc ps qs (fail_path p ∷ []) in
    let (d', run, t', i') =
      failovers_all ps (qs ++ fail_path p ∷ []) d (td ∙ e) (subst (IsFirst d.active_path_id) e id)
        (subst AllFabrics e (AllFabrics-snoc (ps ++ qs) p f.0 f.1)) in
    let back = append_assoc qs (fail_path p ∷ []) (map fail_path ps) in
    (
      d',
      ap (λ m. m >>= (λ de. failovers (length ps) de.0)) r ∙ run,
      t' ∙ back,
      subst (IsFirst d'.active_path_id) back i',
    )

-- As many failovers as a fabrics controller has paths, none of them removing one, do not fault when
-- the active path is the first: every path is then marked failed, they stand in the old order, and
-- the first of them is active.
pub failovers-cycle :
    (c : Ctrlr)
    → IsFirst c.active_path_id c.trids
    → AllFabrics c.trids
    → (d : Ctrlr) × (failovers (length c.trids) c ≡ ok d)
      × (d.trids ≡ map fail_path c.trids)
      × IsFirst d.active_path_id d.trids
failovers-cycle c i f =
    let nil = append-nil c.trids in
    let (d, run, t, first) =
      failovers_all c.trids [] c (sym nil) (subst (IsFirst c.active_path_id) (sym nil) i)
        (subst AllFabrics (sym nil) f) in
    (d, run, t, subst (IsFirst d.active_path_id) (sym t) first)
