-- ===== src/System/Devices.antt =====
-- sump.c and sump_ctrl.c: every channel belongs to an `ump_bdev` of the list, and its paths lead to
-- bdevs of that device.
use sump.Base.{
  ℕ, zero, suc, ◌+◌, ◌≡◌, inl, inr, refl, sym, ap, subst, ◌∙◌, true, List, [], ◌∷◌, ◌++◌, map,
  Option, none, some, ℤ, arith, get_elem?, get_elem?-last, modify, All, ok, >>=-eq-ok, Bool-cases,
  u64,
}
use sump.Bdev.{Bdev, Uuids}
use sump.IoPath.{Channel, new_iopath}
use sump.World.{World, UmpBdev, Env}
use sump.Register.{
  spdk_bdev_register, register_found, construct, append_bdev, add_to_channels, add_iopath, has_uuid,
  get_ump_bdev_by_uuid,
}
use sump.Channels.{reset_channel}
use sump.System.Sound.{LeadsTo, Mirrors, Mirrors-LeadsTo, reset-Mirrors}
use sump.System.Registry.{has_uuid_lem, found_uuid, add_bdev_cases, register_lem}

-- The channel was made for an `ump_bdev` of the list, and all of its paths lead to bdevs of the uuid
-- of that device.
abbrev pub IsOf : List UmpBdev → Channel → Type 0
IsOf ms ch =
    (k : ℕ) × (m : UmpBdev) × (get_elem? ms k ≡ some m)
    × (m.address ≡ ch.io_device)
    × LeadsTo m.bdev.uuid ch

-- Each device stays in its place, with its address and its uuid.
abbrev Retains : List UmpBdev → List UmpBdev → Type 0
Retains ms ms' =
    (k : ℕ) (m : UmpBdev)
    → get_elem? ms k ≡ some m
    → (m' : UmpBdev) × (get_elem? ms' k ≡ some m')
      × (m'.address ≡ m.address)
      × (m'.bdev.uuid ≡ m.bdev.uuid)

All-Retains :
    (ms ms' : List UmpBdev) (chs : List Channel)
    → Retains ms ms'
    → All (IsOf ms) chs
    → All (IsOf ms') chs
All-Retains ms ms' [] keep s = tt
All-Retains ms ms' (ch ∷ chs) keep ((k, m, at, address, leads), rest) =
    let (m', at', same, uuid) = keep k m at in
    (
      (k, m', at', same ∙ address, λ i p here. leads i p here ∙ sym uuid),
      All-Retains ms ms' chs keep rest,
    )

append-Retains : (ms : List UmpBdev) (x : UmpBdev) → Retains ms (ms ++ (x ∷ []))
append-Retains [] x k m at = cc
append-Retains (y ∷ ms) x zero m at = (m, at, refl, refl)
append-Retains (y ∷ ms) x (suc k) m at = append-Retains ms x k m at

modify-Retains : (b : Bdev) (ms : List UmpBdev) (i : ℕ) → Retains ms (modify ms i (append_bdev b))
modify-Retains b [] i k m at = cc
modify-Retains b (y ∷ ms) zero zero m at =
    let is : y ≡ m = ground arith in
    (append_bdev b y, refl, ap (λ x. x.address) is, ap (λ x. x.bdev.uuid) is)
modify-Retains b (y ∷ ms) zero (suc k) m at = (m, at, refl, refl)
modify-Retains b (y ∷ ms) (suc i) zero m at = (m, at, refl, refl)
modify-Retains b (y ∷ ms) (suc i) (suc k) m at = modify-Retains b ms i k m at

-- The paths of a channel change, but not their bdevs.
pub Mirrors-IsOf :
    (ms : List UmpBdev) (ch ch' : Channel) → Mirrors ch ch' → IsOf ms ch → IsOf ms ch'
Mirrors-IsOf ms ch ch' c (k, m, at, address, leads) =
    (k, m, at, address ∙ sym c.io_device, Mirrors-LeadsTo m.bdev.uuid ch ch' c leads)

pub map_reset-IsOf :
    (ms : List UmpBdev) (chs : List Channel)
    → All (IsOf ms) chs
    → All (IsOf ms) (map reset_channel chs)
map_reset-IsOf ms [] s = tt
map_reset-IsOf ms (ch ∷ chs) (s, rest) =
    (Mirrors-IsOf ms ch (reset_channel ch) (reset-Mirrors ch) s, map_reset-IsOf ms chs rest)

abbrev pub AllOf : World → Type 0
AllOf w = All (IsOf w.ump_bdev_list) w.g_ump_bdev_channels

module _ (u : Uuids) where
  add-IsOf :
      (env : Env) (uuid : ℕ) (b : Bdev) (ms : List UmpBdev) (ch : Channel) {ch' : Channel}
      → b.uuid ≡ uuid
      → has_uuid u uuid ch.iopath_list ≡ true
      → IsOf ms ch
      → add_iopath env b ch ≡ ok ch'
      → IsOf ms ch'
  unfolding add_iopath new_iopath
  add-IsOf env uuid b ms ch {ch'} same has (k, m, at, address, leads) e =
      elim (Bool-cases (env.alloc_path ch.max_id)) [
        | inr out ↦ absurd (ground arith)
        | inl got ↦
            let new = new_iopath (env.get_io_channel b) b ch.max_id in
            let common = has_uuid_lem u uuid m.bdev.uuid ch.iopath_list leads has in
            let grown : Channel = record ch {
              iopath_list = ch.iopath_list ++ (new ∷ []);
              max_id = u64 (ch.max_id + 1);
            } in
            let is : grown ≡ ch' = ground arith in
            subst (IsOf ms) is (
              k,
              m,
              at,
              address,
              λ i p at_p. elim (get_elem?-last ch.iopath_list new i at_p) [
                | inl old ↦ leads i p old
                | inr (_, last) ↦ ap (λ x. x.bdev.uuid) last ∙ same ∙ sym common
              ],
            )
      ]

  add_to_channels-IsOf :
      (env : Env) (uuid : ℕ) (b : Bdev) (ms : List UmpBdev) (chs : List Channel)
      {chs' : List Channel}
      → b.uuid ≡ uuid
      → All (IsOf ms) chs
      → add_to_channels u env uuid b chs ≡ ok chs'
      → All (IsOf ms) chs'
  unfolding add_to_channels
  add_to_channels-IsOf env uuid b ms [] {chs'} same s e =
      let none_left : [] ≡ chs' = ground arith in subst (All (IsOf ms)) none_left tt
  add_to_channels-IsOf env uuid b ms (ch ∷ chs) {chs'} same (s, rest) e =
      elim (Bool-cases (has_uuid u uuid ch.iopath_list)) [
        | inl has ↦
            let (ch1, e1, e2) =
              >>=-eq-ok (add_iopath env b ch) _ (rw (has, add_to_channels) at e) in
            let is : ch1 ∷ chs ≡ chs' = ground arith in
            subst (All (IsOf ms)) is (add-IsOf env uuid b ms ch same has s e1, rest)
        | inr not_here ↦
            let (chs1, e1, e2) =
              >>=-eq-ok (add_to_channels u env uuid b chs) _
                (rw (not_here, add_to_channels) at e) in
            let is : ch ∷ chs1 ≡ chs' = ground arith in
            subst (All (IsOf ms)) is (s, add_to_channels-IsOf env uuid b ms chs same rest e1)
      ]

  construct-AllOf : (env : Env) (b : Bdev) (w : World) → AllOf w → AllOf (construct env b w).1
  unfolding construct
  construct-AllOf env b w s = elim (Bool-cases env.alloc_device) [
    | inr out ↦ rw out s
    | inl got ↦ elim (Bool-cases env.alloc_entry) [
      | inr out ↦ rw (got, out) s
      | inl entry ↦
          rw (got, entry)
            (All-Retains w.ump_bdev_list _ w.g_ump_bdev_channels (append-Retains w.ump_bdev_list _)
              s)
    ]
  ]

  found-AllOf :
      (env : Env) (b : Bdev) (w : World) (found : Option ℕ) {r : ℤ × World}
      → AllOf w
      → get_ump_bdev_by_uuid u b.uuid w.ump_bdev_list ≡ ok found
      → register_found u env b w found ≡ ok r
      → AllOf r.1
  unfolding register_found
  found-AllOf env b w none {r} s at e =
      let is : construct env b w ≡ r = ground arith in
      subst (λ (x : ℤ × World). AllOf x.1) is (construct-AllOf env b w s)
  found-AllOf env b w (some i) {r} s found e = elim (add_bdev_cases u env b w i e) [
    | inl is ↦ subst AllOf is s
    | inr (m, chs, at, e2, is) ↦
        let same : b.uuid ≡ m.bdev.uuid = sym (found_uuid u b.uuid w.ump_bdev_list found at) in
        subst AllOf is (
          All-Retains w.ump_bdev_list _ chs (modify-Retains b w.ump_bdev_list i) (
            add_to_channels-IsOf env m.bdev.uuid b w.ump_bdev_list w.g_ump_bdev_channels same s e2))
  ]

  pub register-AllOf :
      (env : Env) (b : Bdev) (w : World) {r : ℤ × World}
      → AllOf w
      → spdk_bdev_register u env b w ≡ ok r
      → AllOf r.1
  register-AllOf env b w s e =
      register_lem u AllOf env b w s tt
        (λ w' found s' at found_e. found-AllOf env b w' found s' at found_e) e
