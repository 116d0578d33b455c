-- ===== src/Register/Groups.antt =====
-- Registered bdevs are gathered by uuid: the refinement of `spdk_bdev_register` to a grouping.
use mathlib.Core.List.{append_assoc, append-nil}
use Prim.Native.Nat.{max}
use sump.Base.{
  ℕ, suc, ◌+◌, ◌≤◌, ◌≡◌, refl, sym, ap, ◌∙◌, true, false, List, [], ◌∷◌, ◌++◌, Option, none, some,
  pos, ℤ, map, arith, get_elem?, modify, if◌then◌else◌, next, Outcome, ok, ◌>>=◌, inl, inr,
  Bool-cases, u64,
}
use sump.Bdev.{Bdev, Uuids}
use sump.IoPath.{Channel, new_iopath}
use sump.World.{World, UmpBdev, Env, start}
use sump.Register.{
  append_bdev, new_ump_bdev, get_ump_bdev_by_uuid, add_to_channels, add_iopath, spdk_bdev_register,
  has_uuid, copy_attributes,
}

-- The calls that a registration makes all succeed.
pub record Succeeds (env : Env) : Type 0 where
  pub device : env.alloc_device ≡ true
  pub entry : env.alloc_entry ≡ true
  pub path : (n : ℕ) → env.alloc_path n ≡ true
  pub registered : (b : Bdev) → env.real_register b ≡ pos 0

abbrev pub AllSucceed : List (Env × Bdev) → Type 0
AllSucceed [] = Unit {0}
AllSucceed ((env, b) ∷ bs) = Succeeds env × AllSucceed bs

-- The bdevs of a sequence of registrations.
abbrev pub bdevs : List (Env × Bdev) → List Bdev
bdevs [] = []
bdevs ((env, b) ∷ bs) = b ∷ bdevs bs

-- No `ump_bdev` of the list is freed.
abbrev pub AllLive : List UmpBdev → Type 0
AllLive [] = Unit {0}
AllLive (m ∷ ms) = (m.freed ≡ false) × AllLive ms

module _ (u : Uuids) where
  -- The bdevs under the first `ump_bdev` of a uuid.
  unfoldable pub paths_of : ℕ → List UmpBdev → List Bdev
  paths_of uuid [] = []
  paths_of uuid (m ∷ ms) = if u.same m.bdev.uuid uuid then m.spdk_bdev_list else paths_of uuid ms

  -- How many `ump_bdev`s have a uuid.
  pub devices : ℕ → List UmpBdev → ℕ
  devices uuid [] = 0
  devices uuid (m ∷ ms) = if u.same m.bdev.uuid uuid then suc (devices uuid ms) else devices uuid ms

  -- The bdevs of a list that have a uuid, in order.
  unfoldable pub matching : ℕ → List Bdev → List Bdev
  matching uuid [] = []
  matching uuid (b ∷ bs) = if u.same b.uuid uuid then b ∷ matching uuid bs else matching uuid bs

  same_ap : (a b c : ℕ) → u.same a b ≡ true → u.same a c ≡ u.same b c
  same_ap a b c h = ap (λ x. u.same x c) ((u.same_iff a b).0 h)

  -- Two uuids that differ are not both the same as a third.
  same_apart : (a b c : ℕ) → u.same a b ≡ false → u.same a c ≡ true → u.same b c ≡ false
  same_apart a b c ne h = elim (Bool-cases (u.same b c)) [
    | inr off ↦ off
    | inl on ↦
        let e : a ≡ b = (u.same_iff a c).0 h ∙ sym ((u.same_iff b c).0 on) in
        let back : u.same a b ≡ true = (u.same_iff a b).1 e in cc
  ]

  module _ (address : ℕ) (b : Bdev) where
    -- The list of `ump_bdev`s after a registration that succeeds.
    put : List UmpBdev → List UmpBdev
    put [] = new_ump_bdev address b false ∷ []
    put (m ∷ ms) = if u.same m.bdev.uuid b.uuid then append_bdev b m ∷ ms else m ∷ put ms

    -- What becomes of the list, by the answer of `get_ump_bdev_by_uuid`.
    abbrev put_at : List UmpBdev → Option ℕ → List UmpBdev
    put_at ms none = ms ++ (new_ump_bdev address b false ∷ [])
    put_at ms (some i) = modify ms i (append_bdev b)

    -- The answer names an `ump_bdev` of the list, if any.
    abbrev Names : List UmpBdev → Option ℕ → Type 0
    Names ms none = Unit {0}
    Names ms (some i) = (m : UmpBdev) × (get_elem? ms i ≡ some m)

    put_next :
        (m : UmpBdev) (ms : List UmpBdev) (r : Option ℕ)
        → put_at (m ∷ ms) (next r) ≡ m ∷ put_at ms r
    put_next m ms none = refl
    put_next m ms (some i) = refl

    Names-next :
        (m : UmpBdev) (ms : List UmpBdev) (r : Option ℕ) → Names ms r → Names (m ∷ ms) (next r)
    Names-next m ms none h = tt
    Names-next m ms (some i) h = h

    get-put :
        (ms : List UmpBdev)
        → AllLive ms
        → (r : Option ℕ) × (get_ump_bdev_by_uuid u b.uuid ms ≡ ok r)
          × (put_at ms r ≡ put ms)
          × Names ms r
    unfolding get_ump_bdev_by_uuid put
    get-put [] live = (none, refl, refl, tt)
    get-put (m ∷ ms) (alive, live) =
        let (r, e, same, named) = get-put ms live in
        elim (Bool-cases (u.same m.bdev.uuid b.uuid)) [
          | inl hit ↦ (some 0, rw (alive, hit), rw hit, (m, refl))
          | inr miss ↦ (
            next r,
            rw (alive, miss, e),
            rw miss (put_next m ms r ∙ ap (λ l. m ∷ l) same),
            Names-next m ms r named,
          )
        ]

    put-AllLive : (ms : List UmpBdev) → AllLive ms → AllLive (put ms)
    unfolding put new_ump_bdev
    put-AllLive [] live = (refl, tt)
    put-AllLive (m ∷ ms) (alive, live) = elim (Bool-cases (u.same m.bdev.uuid b.uuid)) [
      | inl hit ↦ rw hit (alive, live)
      | inr miss ↦ rw miss (alive, put-AllLive ms live)
    ]

    -- A registration adds the bdev to the group of its uuid, at the end, and to no other.
    paths_of-put :
        (uuid : ℕ) (ms : List UmpBdev)
        → paths_of uuid (put ms)
          ≡ (if u.same b.uuid uuid then paths_of uuid ms ++ (b ∷ []) else paths_of uuid ms)
    unfolding put paths_of new_ump_bdev
    paths_of-put uuid [] = refl
    paths_of-put uuid (m ∷ ms) = elim (Bool-cases (u.same m.bdev.uuid b.uuid)) [
      | inl hit ↦ rw hit (ground (arith, same_ap m.bdev.uuid b.uuid uuid hit))
      | inr miss ↦ elim (Bool-cases (u.same m.bdev.uuid uuid)) [
        | inl here ↦ rw (miss, here, same_apart _ _ _ miss here)
        | inr away ↦ rw (miss, away) (paths_of-put uuid ms)
      ]
    ]

    devices-put :
        (uuid : ℕ) (ms : List UmpBdev)
        → devices uuid (put ms)
          ≡ (if u.same b.uuid uuid then max 1 (devices uuid ms) else devices uuid ms)
    unfolding put devices new_ump_bdev
    devices-put uuid [] = ground arith
    devices-put uuid (m ∷ ms) = elim (Bool-cases (u.same m.bdev.uuid b.uuid)) [
      | inl hit ↦ rw hit (ground (arith, same_ap m.bdev.uuid b.uuid uuid hit))
      | inr miss ↦ elim (Bool-cases (u.same m.bdev.uuid uuid)) [
        | inl here ↦
            rw (miss, here, same_apart _ _ _ miss here)
              (ap suc (devices-put uuid ms ∙ rw (same_apart _ _ _ miss here) refl))
        | inr away ↦ rw (miss, away) (devices-put uuid ms)
      ]
    ]

  -- The loops over the channels end well when memory for the path can be had.
  add_to_channels-ok :
      (env : Env) (uuid : ℕ) (b : Bdev) (chs : List Channel)
      → Succeeds env
      → (chs' : List Channel) × (add_to_channels u env uuid b chs ≡ ok chs')
  unfolding add_to_channels add_iopath
  add_to_channels-ok env uuid b [] s = ([], refl)
  add_to_channels-ok env uuid b (ch ∷ chs) s =
      let (chs', e) = add_to_channels-ok env uuid b chs s in
      elim (Bool-cases (has_uuid u uuid ch.iopath_list)) [
        | inl hit ↦
            let added : Channel = record ch {
              iopath_list = ch.iopath_list ++ (new_iopath (env.get_io_channel b) b ch.max_id ∷ []);
              max_id = u64 (ch.max_id + 1);
            } in
            (added ∷ chs, rw (hit, s.path ch.max_id))
        | inr miss ↦ (ch ∷ chs', rw (miss, e))
      ]

  -- One registration that succeeds, on a list with nothing freed.
  register_step :
      (env : Env) (b : Bdev) (w : World)
      → Succeeds env
      → w.real_spdk_bdev_register ≡ true
      → AllLive w.ump_bdev_list
      → (w' : World) × (spdk_bdev_register u env b w ≡ ok (pos 0, w'))
        × (w'.ump_bdev_list ≡ put env.address b w.ump_bdev_list)
        × (w'.real_spdk_bdev_register ≡ true)
  unfolding spdk_bdev_register
  register_step env b w s real live =
      let (r, found, same, named) = get-put env.address b w.ump_bdev_list live in
      go r found same named
    where
      go :
          (r : Option ℕ)
          → get_ump_bdev_by_uuid u b.uuid w.ump_bdev_list ≡ ok r
          → put_at env.address b w.ump_bdev_list r ≡ put env.address b w.ump_bdev_list
          → Names env.address b w.ump_bdev_list r
          → (w' : World) × (spdk_bdev_register u env b w ≡ ok (pos 0, w'))
            × (w'.ump_bdev_list ≡ put env.address b w.ump_bdev_list)
            × (w'.real_spdk_bdev_register ≡ true)
      go none found same named = (
        record w {
          io_devices = w.io_devices ++ (env.address ∷ []);
          ump_bdev_list = put_at env.address b w.ump_bdev_list none;
        },
        ground (arith, s.registered (copy_attributes env.address b)),
        same,
        real,
      )
      go (some i) found same (m, at) =
          let (chs, e) = add_to_channels-ok env m.bdev.uuid b w.g_ump_bdev_channels s in
          (
            record w {
              ump_bdev_list = put_at env.address b w.ump_bdev_list (some i);
              g_ump_bdev_channels = chs;
            },
            ground (arith, e),
            same,
            real,
          )

  -- A sequence of registrations, each with what other code answers then; what they return, and the
  -- world that they leave.
  unfoldable pub register_all : List (Env × Bdev) → World → Outcome (List ℤ × World)
  register_all [] w = ok ([], w)
  register_all ((env, b) ∷ bs) w = do
    (rc, w1) ← spdk_bdev_register u env b w
    (rcs, w2) ← register_all bs w1
    ok (rc ∷ rcs, w2)

  -- What holds of a world after the bdevs `bs` have been registered.
  pub record Grouped (bs : List Bdev) (ms ms' : List UmpBdev) : Type 0 where
    pub live : AllLive ms'
    pub groups : (uuid : ℕ) → paths_of uuid ms' ≡ paths_of uuid ms ++ matching uuid bs
    pub single : (uuid : ℕ) → devices uuid ms ≤ 1 → devices uuid ms' ≤ 1

  Grouped-cons :
      (address : ℕ) (b : Bdev) (bs : List Bdev) (ms ms' : List UmpBdev)
      → Grouped bs (put address b ms) ms'
      → Grouped (b ∷ bs) ms ms'
  unfolding matching
  Grouped-cons address b bs ms ms' g = record {
    live = g.live;
    groups = λ uuid. g.groups uuid ∙ rw (paths_of-put address b uuid ms) (regroup uuid);
    single = λ uuid le. g.single uuid (one uuid le);
  }
    where
      regroup :
          (uuid : ℕ)
          → (if u.same b.uuid uuid then paths_of uuid ms ++ (b ∷ []) else paths_of uuid ms)
              ++ matching uuid bs
            ≡ paths_of uuid ms
              ++ (if u.same b.uuid uuid then b ∷ matching uuid bs else matching uuid bs)
      regroup uuid = elim (Bool-cases (u.same b.uuid uuid)) [
        | inl hit ↦ rw hit (append_assoc (paths_of uuid ms) (b ∷ []) (matching uuid bs))
        | inr miss ↦ rw miss
      ]

      one : (uuid : ℕ) → devices uuid ms ≤ 1 → devices uuid (put address b ms) ≤ 1
      one uuid le = rw (devices-put address b uuid ms) (ground arith)

  register_all-Grouped :
      (bs : List (Env × Bdev)) (w : World)
      → AllSucceed bs
      → w.real_spdk_bdev_register ≡ true
      → AllLive w.ump_bdev_list
      → (w' : World) × (register_all bs w ≡ ok (map (λ b. pos 0) bs, w'))
        × Grouped (bdevs bs) w.ump_bdev_list w'.ump_bdev_list
  unfolding register_all matching
  register_all-Grouped [] w s real live = (
    w,
    refl,
    record {
      live = live;
      groups = λ uuid. sym (append-nil (paths_of uuid w.ump_bdev_list));
      single = λ uuid le. le;
    },
  )
  register_all-Grouped ((env, b) ∷ bs) w (s, ss) real live =
      let (w1, e1, same, real1) = register_step env b w s real live in
      let live1 : AllLive w1.ump_bdev_list =
        rw same (put-AllLive env.address b w.ump_bdev_list live) in
      let (w2, e2, g) = register_all-Grouped bs w1 ss real1 live1 in
      (
        w2,
        rw (e1, e2),
        Grouped-cons env.address b (bdevs bs) w.ump_bdev_list w2.ump_bdev_list (rw same at g),
      )

  -- From the start of the program, after any sequence of registrations whose calls all succeed,
  -- whatever the new `ump_bdev`s are allocated at: every registration returns 0, nothing in the list
  -- is freed, under each uuid there is one `ump_bdev` at most, and it holds the registered bdevs of
  -- that uuid, in the order of registration.
  pub register_all-start :
      (bs : List (Env × Bdev))
      → AllSucceed bs
      → (w : World) × (register_all bs start ≡ ok (map (λ b. pos 0) bs, w))
        × AllLive w.ump_bdev_list
        × ((uuid : ℕ) → devices uuid w.ump_bdev_list ≤ 1)
        × ((uuid : ℕ) → paths_of uuid w.ump_bdev_list ≡ matching uuid (bdevs bs))
  unfolding paths_of devices
  register_all-start bs s =
      let (w, e, g) = register_all-Grouped bs start s refl tt in
      (w, e, g.live, λ uuid. g.single uuid (omega arith), λ uuid. g.groups uuid)
