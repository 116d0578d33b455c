-- ===== src/System/Registry.antt =====
-- sump.c and sump_ctrl.c: registration, and the creation and destruction of channels, keep every
-- channel sound.
use sump.Base.{
  ℕ, zero, suc, ◌+◌, ◌≡◌, ◌⊎◌, inl, inr, refl, sym, ap, subst, ◌∙◌, true, List, [], ◌∷◌, ◌++◌,
  Option, none, some, ℤ, pos, arith, length, get_elem?, modify, u64, All, All-append, Outcome, ok,
  ◌>>=◌, >>=-eq-ok, deref, Bool-cases, Option-cases, next, true_apart,
}
use sump.Bdev.{Bdev, Uuids}
use sump.IoPath.{IoPath, Channel, new_iopath}
use sump.World.{World, UmpBdev, Env}
use sump.Register.{
  spdk_bdev_register, register_found, construct, new_ump_bdev, copy_attributes, add_bdev,
  append_bdev, add_to_channels, add_iopath, has_uuid, get_ump_bdev_by_uuid, ump_init,
}
use sump.System.Sound.{IsSound, extend-IsSound}

-- The bdevs of an `ump_bdev` have its uuid.
abbrev pub HasUuid : ℕ → List Bdev → Type 0
HasUuid uuid = All (λ b. b.uuid ≡ uuid)

abbrev pub IsGroup : UmpBdev → Type 0
IsGroup m = HasUuid m.bdev.uuid m.spdk_bdev_list

pub record IsOrdered (w : World) : Type 0 where
  pub four : length w.count ≡ 4
  pub channels : All IsSound w.g_ump_bdev_channels
  pub devices : All IsGroup w.ump_bdev_list

module _ (u : Uuids) where
  pub has_uuid_lem :
      (uuid common : ℕ) (paths : List IoPath)
      → ((i : ℕ) (p : IoPath) → get_elem? paths i ≡ some p → p.bdev.uuid ≡ common)
      → has_uuid u uuid paths ≡ true
      → common ≡ uuid
  unfolding has_uuid
  has_uuid_lem uuid common [] device e = cc
  has_uuid_lem uuid common (p ∷ ps) device e = elim (Bool-cases (u.same uuid p.bdev.uuid)) [
    | inl hit ↦ sym (device 0 p refl) ∙ sym ((u.same_iff uuid p.bdev.uuid).0 hit)
    | inr miss ↦
        has_uuid_lem uuid common ps (λ i q at. device (suc i) q at) (rw (miss, has_uuid) at e)
  ]

  add-IsSound :
      (env : Env) (uuid : ℕ) (b : Bdev) (ch : Channel) {ch' : Channel}
      → b.uuid ≡ uuid
      → has_uuid u uuid ch.iopath_list ≡ true
      → IsSound ch
      → add_iopath env b ch ≡ ok ch'
      → IsSound ch'
  unfolding add_iopath has_uuid
  add-IsSound env uuid b ch {ch'} same has s e = elim (Bool-cases (env.alloc_path ch.max_id)) [
    | inr out ↦ absurd (ground arith)
    | inl got ↦ elim s.next [
      | inl empty ↦ absurd (true_apart has (rw empty refl))
      | inr next ↦
          let grown : Channel = record ch {
            iopath_list = ch.iopath_list ++ (new_iopath (env.get_io_channel b) b ch.max_id ∷ []);
            max_id = u64 (ch.max_id + 1);
          } in
          let is : grown ≡ ch' = ground arith in
          subst IsSound is (
            (extend-IsSound ch (env.get_io_channel b) b s next
              (same ∙ sym (has_uuid_lem uuid s.uuid ch.iopath_list s.device has))).0)
    ]
  ]

  add_to_channels-IsSound :
      (env : Env) (uuid : ℕ) (b : Bdev) (chs : List Channel) {chs' : List Channel}
      → b.uuid ≡ uuid
      → All IsSound chs
      → add_to_channels u env uuid b chs ≡ ok chs'
      → All IsSound chs'
  unfolding add_to_channels
  add_to_channels-IsSound env uuid b [] {chs'} same s e =
      let none_left : [] ≡ chs' = ground arith in subst (All IsSound) none_left tt
  add_to_channels-IsSound env uuid b (ch ∷ chs) {chs'} same (s, rest) e =
      elim (Bool-cases (has_uuid u uuid ch.iopath_list)) [
        | inl has ↦
            let (ch1, e1, e2) =
              >>=-eq-ok (add_iopath env b ch) _ (rw (has, add_to_channels) at e) in
            let is : ch1 ∷ chs ≡ chs' = ground arith in
            subst (All IsSound) is (add-IsSound env uuid b ch same has s e1, rest)
        | inr not_here ↦
            let (chs1, e1, e2) =
              >>=-eq-ok (add_to_channels u env uuid b chs) _
                (rw (not_here, add_to_channels) at e) in
            let is : ch ∷ chs1 ≡ chs' = ground arith in
            subst (All IsSound) is (s, add_to_channels-IsSound env uuid b chs same rest e1)
      ]

  -- The `ump_bdev` that is found has the uuid.
  pub found_uuid :
      (uuid : ℕ) (ms : List UmpBdev) {i : ℕ} {m : UmpBdev}
      → get_ump_bdev_by_uuid u uuid ms ≡ ok (some i)
      → get_elem? ms i ≡ some m
      → m.bdev.uuid ≡ uuid
  unfolding get_ump_bdev_by_uuid
  found_uuid uuid [] e at = cc
  found_uuid uuid (x ∷ xs) {i} {m} e at = elim (Bool-cases x.freed) [
    | inl gone ↦ absurd (ground arith)
    | inr live ↦ elim (Bool-cases (u.same x.bdev.uuid uuid)) [
      | inl hit ↦
          let first : i ≡ 0 = ground arith in
          let here : get_elem? (x ∷ xs) 0 ≡ some m =
            subst (λ j. get_elem? (x ∷ xs) j ≡ some m) first at in
          let is : x ≡ m = ground arith in
          ap (λ y. y.bdev.uuid) (sym is) ∙ (u.same_iff x.bdev.uuid uuid).0 hit
      | inr miss ↦
          let (r, e1, e2) =
            >>=-eq-ok (get_ump_bdev_by_uuid u uuid xs) _
              (rw (live, miss, get_ump_bdev_by_uuid) at e) in
          elim (Option-cases r) [
            | inl nobody ↦ absurd (ground arith)
            | inr (j, some_j) ↦
                let after : i ≡ suc j = ground arith in
                found_uuid uuid xs (e1 ∙ ap ok some_j)
                  (subst (λ k. get_elem? (x ∷ xs) k ≡ some m) after at)
          ]
    ]
  ]

  append-IsGroup :
      (b : Bdev) (ms : List UmpBdev) (i : ℕ)
      → ((m : UmpBdev) → get_elem? ms i ≡ some m → b.uuid ≡ m.bdev.uuid)
      → All IsGroup ms
      → All IsGroup (modify ms i (append_bdev b))
  append-IsGroup b [] i same g = tt
  append-IsGroup b (m ∷ ms) zero same (g, gs) =
      (All-append (λ c. c.uuid ≡ m.bdev.uuid) m.spdk_bdev_list (b ∷ []) g (same m refl, tt), gs)
  append-IsGroup b (m ∷ ms) (suc i) same (g, gs) = (g, append-IsGroup b ms i (λ x at. same x at) gs)

  construct-IsOrdered :
      (env : Env) (b : Bdev) (w : World) → IsOrdered w → IsOrdered (construct env b w).1
  unfolding construct new_ump_bdev copy_attributes
  construct-IsOrdered env b w o = elim (Bool-cases env.alloc_device) [
    | inr out ↦ rw out o
    | inl got ↦ elim (Bool-cases env.alloc_entry) [
      | inr out ↦ rw (got, out) o
      | inl entry ↦
          rw (got, entry)
            (record {
              four = o.four;
              channels = o.channels;
              devices = All-append IsGroup w.ump_bdev_list _ o.devices ((refl, tt), tt);
            })
    ]
  ]

  -- `add_bdev`, once its entry of the list is allocated.
  abbrev added : Env → ℕ → Bdev → World → UmpBdev → Outcome (ℤ × World)
  added env i b w m = add_to_channels u env m.bdev.uuid b w.g_ump_bdev_channels >>= λ chs. ok (
    pos 0,
    record w {
      ump_bdev_list = modify w.ump_bdev_list i (append_bdev b);
      g_ump_bdev_channels = chs;
    },
  )

  -- What `add_bdev` comes to, for an `ump_bdev` that was found.
  abbrev pub Adds : Env → Bdev → World → ℕ → World → Type 0
  Adds env b w i w' =
      (m : UmpBdev) × (chs : List Channel) × (get_elem? w.ump_bdev_list i ≡ some m)
      × (add_to_channels u env m.bdev.uuid b w.g_ump_bdev_channels ≡ ok chs)
      × (record w {
        ump_bdev_list = modify w.ump_bdev_list i (append_bdev b);
        g_ump_bdev_channels = chs;
      }
          ≡ w')

  pub add_bdev_cases :
      (env : Env) (b : Bdev) (w : World) (i : ℕ) {r : ℤ × World}
      → register_found u env b w (some i) ≡ ok r
      → (w ≡ r.1) ⊎ Adds env b w i r.1
  unfolding register_found add_bdev
  add_bdev_cases env b w i {r} e = elim (Bool-cases env.alloc_entry) [
    | inr out ↦ inl (ground arith)
    | inl got ↦
        let adds : (deref (get_elem? w.ump_bdev_list i) >>= added env i b w) ≡ ok r =
          ground arith in
        let (m, at, e1) = >>=-eq-ok (deref (get_elem? w.ump_bdev_list i)) (added env i b w) adds in
        let (chs, e2, e3) =
          >>=-eq-ok (add_to_channels u env m.bdev.uuid b w.g_ump_bdev_channels) _ e1 in
        inr (m, chs, deref-some (get_elem? w.ump_bdev_list i) at, e2, ground arith)
  ]
    where
      deref-some : (x : Option UmpBdev) {m : UmpBdev} → deref x ≡ ok m → x ≡ some m
      deref-some none e = cc
      deref-some (some y) e = ground arith

  found-IsOrdered :
      (env : Env) (b : Bdev) (w : World) (found : Option ℕ) {r : ℤ × World}
      → get_ump_bdev_by_uuid u b.uuid w.ump_bdev_list ≡ ok found
      → IsOrdered w
      → register_found u env b w found ≡ ok r
      → IsOrdered r.1
  unfolding register_found
  found-IsOrdered env b w none {r} at o e =
      let is : construct env b w ≡ r = ground arith in
      subst (λ (x : ℤ × World). IsOrdered x.1) is (construct-IsOrdered env b w o)
  found-IsOrdered env b w (some i) {r} found o e = elim (add_bdev_cases env b w i e) [
    | inl is ↦ subst IsOrdered is o
    | inr (m, chs, at, e2, is) ↦
        let same : (x : UmpBdev) → get_elem? w.ump_bdev_list i ≡ some x → b.uuid ≡ x.bdev.uuid =
          λ x at_x. sym (found_uuid b.uuid w.ump_bdev_list found at_x) in
        subst IsOrdered is (record {
          four = o.four;
          channels =
              add_to_channels-IsSound env m.bdev.uuid b w.g_ump_bdev_channels (same m at) o.channels
                e2;
          devices = append-IsGroup b w.ump_bdev_list i same o.devices;
        })
  ]

  -- A property that `ump_init` and the rest of the function keep.
  pub register_lem :
      (P : World → Type 0) (env : Env) (b : Bdev) (w : World) {r : ℤ × World}
      → P w
      → P (record w { real_spdk_bdev_register = env.dlsym; g_ump_bdev_channels = [] })
      → ((w' : World) (found : Option ℕ)
          → P w'
          → get_ump_bdev_by_uuid u b.uuid w'.ump_bdev_list ≡ ok found
          → register_found u env b w' found ≡ ok r
          → P r.1)
      → spdk_bdev_register u env b w ≡ ok r
      → P r.1
  unfolding spdk_bdev_register ump_init
  register_lem P env b w {r} p init keeps e = elim (Bool-cases w.real_spdk_bdev_register) [
    | inl real ↦ go w real p (ground arith)
    | inr unset ↦ elim (Bool-cases env.dlsym) [
      | inr out ↦
          let is : record w { real_spdk_bdev_register = env.dlsym; g_ump_bdev_channels = [] }
              ≡ r.1 =
            ground arith in
          subst P is init
      | inl got ↦
          go (record w { real_spdk_bdev_register = env.dlsym; g_ump_bdev_channels = [] }) got init
            (ground arith)
    ]
  ]
    where
      go :
          (w' : World)
          → w'.real_spdk_bdev_register ≡ true
          → P w'
          → (get_ump_bdev_by_uuid u b.uuid w'.ump_bdev_list >>= register_found u env b w') ≡ ok r
          → P r.1
      go w' real p' e' =
          let (found, e1, e2) = >>=-eq-ok (get_ump_bdev_by_uuid u b.uuid w'.ump_bdev_list) _ e' in
          keeps w' found p' e1 e2

  pub register-IsOrdered :
      (env : Env) (b : Bdev) (w : World) {r : ℤ × World}
      → IsOrdered w
      → spdk_bdev_register u env b w ≡ ok r
      → IsOrdered r.1
  register-IsOrdered env b w o e =
      register_lem IsOrdered env b w o
        (record { four = o.four; channels = tt; devices = o.devices })
        (λ w' found o' at found_e. found-IsOrdered env b w' found at o' found_e) e
