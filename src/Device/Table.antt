-- ===== src/Device/Table.antt =====
-- The entries of `umplib_fn_table` that hand a call on: sump_ctrl.c `ump_bdev_destruct`,
-- `ump_bdev_io_type_supported`, `ump_bdev_dump_info_json`, `ump_bdev_get_spin_time`, and
-- sump_data.c `ump_bdev_get_io_channel`.
use sump.Base.{
  ℕ, ◌<◌, ◌≡◌, refl, ap, ◌∙◌, Bool, List, map, Option, some, ℤ, pos, arith, length, get_elem?,
  get_elem?-of_lt, Outcome, ok, ◌>>=◌, deref,
}
use sump.Bdev.{Bdev, IoType, Uuids}
use sump.World.{World, UmpBdev, Env, start}
use sump.Register.Groups.{AllSucceed, bdevs, matching, register_all, register_all-start}
use sump.Device.{first_device}

-- What the entries of the table of a bdev's module answer, and what `spdk_get_io_channel` does for
-- a device.
pub record Modules : Type 0 where
  pub io_type_supported : Bdev → IoType → Bool
  pub dump_info_json : Bdev → ℤ
  pub get_io_channel : ℕ → Option ℕ

-- `TAILQ_FIRST(&mbdev->spdk_bdev_list)->bdev`
abbrev pub first_bdev : UmpBdev → Outcome Bdev
first_bdev m = deref (get_elem? m.spdk_bdev_list 0)

-- `ump_bdev_io_type_supported`
unfoldable pub io_type_supported : Modules → UmpBdev → IoType → Outcome Bool
io_type_supported mods m t = do b ← first_bdev m; ok (mods.io_type_supported b t)

-- `ump_bdev_dump_info_json`
unfoldable pub dump_info_json : Modules → UmpBdev → Outcome ℤ
dump_info_json mods m = do b ← first_bdev m; ok (mods.dump_info_json b)

-- `ump_bdev_get_io_channel`
unfoldable pub get_io_channel : Modules → UmpBdev → Option ℕ
get_io_channel mods m = mods.get_io_channel m.address

-- `ump_bdev_destruct`
abbrev pub destruct : UmpBdev → ℤ
destruct m = pos 0

-- `ump_bdev_get_spin_time`
abbrev pub get_spin_time : Option ℕ → ℕ
get_spin_time ch = 0

module _ (u : Uuids) where
  -- After bdevs have been registered, at least one of them with a uuid, and every call has succeeded,
  -- the `ump_bdev` of that uuid answers which types of I/O it supports, and writes its description, as
  -- the first registered of those bdevs does, whatever the others would answer.
  pub device-io_type_supported :
      (mods : Modules) (bs : List (Env × Bdev)) (uuid : ℕ)
      → AllSucceed bs
      → 0 < length (matching u uuid (bdevs bs))
      → (w : World) × (m : UmpBdev) × (b : Bdev) × (k : ℕ) × (register_all u bs start
          ≡ ok (map (λ b. pos 0) bs, w))
        × (get_elem? w.ump_bdev_list k ≡ some m)
        × (m.bdev.uuid ≡ uuid)
        × (get_elem? (matching u uuid (bdevs bs)) 0 ≡ some b)
        × ((t : IoType) → io_type_supported mods m t ≡ ok (mods.io_type_supported b t))
        × (dump_info_json mods m ≡ ok (mods.dump_info_json b))
  unfolding io_type_supported dump_info_json
  device-io_type_supported mods bs uuid s some_bdev =
      let (w, all, _, _, groups) = register_all-start u bs s in
      let (k, m, at, same, list) =
        first_device u uuid w.ump_bdev_list (omega (arith, ap length (groups uuid), some_bdev)) in
      let (b, first) = get_elem?-of_lt (matching u uuid (bdevs bs)) 0 some_bdev in
      let here : get_elem? m.spdk_bdev_list 0 ≡ some b =
        ap (λ l. get_elem? l 0) (list ∙ groups uuid) ∙ first in
      (w, m, b, k, all, at, same, first, (λ t. rw here refl), rw here refl)
