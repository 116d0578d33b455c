-- ===== src/Register/Failure.antt =====
-- sump.c: what a registration that fails leaves behind.
use sump.Base.{
  ℕ, ◌≡◌, refl, Bool, true, false, List, [], ◌∷◌, ◌++◌, none, ℤ, is_zero, arith, if◌then◌else◌, ok,
  fault, Fault, Bool-cases, inl, inr,
}
use sump.Bdev.{Bdev, Uuids}
use sump.World.{World, UmpBdev, Env}
use sump.Register.{copy_attributes, new_ump_bdev, get_ump_bdev_by_uuid, spdk_bdev_register}
use sump.Register.Groups.{AllLive}

module _ (u : Uuids) where
  -- No `ump_bdev` of the list has the uuid.
  unfoldable pub absent : ℕ → List UmpBdev → Bool
  absent uuid [] = true
  absent uuid (m ∷ ms) = if u.same m.bdev.uuid uuid then false else absent uuid ms

  -- The search runs into a freed `ump_bdev` at the end, if nothing before it has the uuid.
  get-freed :
      (uuid : ℕ) (ms : List UmpBdev) (dead : UmpBdev)
      → AllLive ms
      → absent uuid ms ≡ true
      → dead.freed ≡ true
      → get_ump_bdev_by_uuid u uuid (ms ++ (dead ∷ [])) ≡ fault Fault.use_after_free
  unfolding get_ump_bdev_by_uuid absent
  get-freed uuid [] dead live out freed = rw freed
  get-freed uuid (m ∷ ms) dead (alive, live) out freed =
      elim (Bool-cases (u.same m.bdev.uuid uuid)) [
        | inl hit ↦ absurd (ground arith)
        | inr miss ↦ rw (alive, miss, get-freed uuid ms dead live (rw (miss, absent) at out) freed)
      ]

  get-absent :
      (uuid : ℕ) (ms : List UmpBdev)
      → AllLive ms
      → absent uuid ms ≡ true
      → get_ump_bdev_by_uuid u uuid ms ≡ ok none
  unfolding get_ump_bdev_by_uuid absent
  get-absent uuid [] live out = refl
  get-absent uuid (m ∷ ms) (alive, live) out = elim (Bool-cases (u.same m.bdev.uuid uuid)) [
    | inl hit ↦ absurd (ground arith)
    | inr miss ↦ rw (alive, miss, get-absent uuid ms live (rw (miss, absent) at out))
  ]

  -- When the real `spdk_bdev_register` refuses the first bdev of a uuid, `spdk_bdev_register`
  -- returns its error, but frees an `ump_bdev` that it has put in the list: the next registration
  -- of a bdev whose uuid is not in the list already, a second try with the same bdev included,
  -- reads freed memory.
  pub register_refused :
      (env env' : Env) (b b' : Bdev) (w : World)
      → w.real_spdk_bdev_register ≡ true
      → AllLive w.ump_bdev_list
      → absent b.uuid w.ump_bdev_list ≡ true
      → absent b'.uuid w.ump_bdev_list ≡ true
      → env.alloc_device ≡ true
      → env.alloc_entry ≡ true
      → ((c : Bdev) → is_zero (env.real_register c) ≡ false)
      → (rc : ℤ) × (w' : World) × (spdk_bdev_register u env b w ≡ ok (rc, w'))
        × (is_zero rc ≡ false)
        × (spdk_bdev_register u env' b' w' ≡ fault Fault.use_after_free)
  unfolding spdk_bdev_register new_ump_bdev
  register_refused env env' b b' w real live out out' device entry refused =
      let copy : Bdev = copy_attributes env.address b in
      let rc : ℤ = env.real_register copy in
      let dead : UmpBdev = new_ump_bdev env.address b true in
      let bad : is_zero rc ≡ false = refused copy in
      (
        rc,
        record w {
          io_devices = w.io_devices ++ (env.address ∷ []);
          ump_bdev_list = w.ump_bdev_list ++ (dead ∷ []);
        },
        ground (arith, bad, get-absent b.uuid w.ump_bdev_list live out),
        bad,
        ground (arith, get-freed b'.uuid w.ump_bdev_list dead live out' refl),
      )
