-- ===== src/Device.antt =====
-- sump.c, sump_ctrl.c and sump_data.c together: from the registration of bdevs to the first I/O.
pub mod Table
pub mod Added
use sump.Base.{
  ℕ, true_apart, zero, suc, ◌+◌, ◌≤◌, ◌<◌, ◌≡◌, ◌≢◌, refl, sym, ap, ◌∙◌, subst, Bool, true, false,
  List, [], ◌∷◌, ◌++◌, map, Option, none, some, ℤ, pos, arith, length, get_elem?, get_elem?-of_lt,
  if◌then◌else◌, Outcome, ok, ◌>>=◌, >>=-eq-ok, deref, modify, not, Bool-cases, Option-cases, inl,
  inr,
}
use sump.Bdev.{Bdev, Uuids, Io, Callback}
use sump.IoPath.{IoPath, Channel, new_iopath}
use sump.World.{World, UmpBdev, Env, start}
use sump.Register.{
  spdk_bdev_register, get_ump_bdev_by_uuid, register_found, construct, add_bdev, add_to_channels,
  append_bdev, add_iopath,
}
use sump.Register.Groups.{AllSucceed, bdevs, paths_of, matching, register_all, register_all-start}
use sump.Channels.{create_cb}
use sump.Channels.Loop.{new_paths}
use sump.Channels.Create.{create_cb_paths, new_paths_lem}
use sump.Select.Hash.{AllDown}
use sump.DataPath.{Lane, Reply, Effect, submit_request}
use sump.DataPath.Submit.{IsReady, Sent, wrapped, add_bytes, submit_request_lem}

-- The bdev of a new path is one of the device's.
new_paths-bdev :
    (env : Env) (n : ℕ) (bs : List Bdev) (i : ℕ) (p : IoPath)
    → get_elem? (new_paths env n bs) i ≡ some p
    → (j : ℕ) × (get_elem? bs j ≡ some p.bdev)
unfolding new_paths new_iopath
new_paths-bdev env n [] i p e = cc
new_paths-bdev env n (b ∷ bs) i p e = elim (Option-cases (env.get_io_channel b)) [
  | inl gone ↦ let (j, at) = new_paths-bdev env n bs i p (rw (gone, new_paths) at e) in (suc j, at)
  | inr (io, got) ↦
      at_place io (λ k ek. new_paths-bdev env (suc n) bs k p ek) i (rw (got, new_paths) at e)
]
  where
    at_place :
        (io : ℕ)
        → ((k : ℕ)
            → get_elem? (new_paths env (suc n) bs) k ≡ some p
            → (j : ℕ) × (get_elem? bs j ≡ some p.bdev))
        → (i : ℕ) → get_elem? (new_iopath (some io) b n ∷ new_paths env (suc n) bs) i ≡ some p
        → (j : ℕ) × (get_elem? (b ∷ bs) j ≡ some p.bdev)
    at_place io later zero e = (0, ground arith)
    at_place io later (suc i) e = let (j, at) = later i e in (suc j, at)

length-new_paths :
    (env : Env) (n : ℕ) (bs : List Bdev)
    → ((b : Bdev) → env.get_io_channel b ≢ none)
    → length (new_paths env n bs) ≡ length bs
unfolding new_paths
length-new_paths env n [] gives = refl
length-new_paths env n (b ∷ bs) gives = elim (Option-cases (env.get_io_channel b)) [
  | inl gone ↦ absurd (gives b gone)
  | inr (io, got) ↦ rw (got, new_paths) (ap suc (length-new_paths env (suc n) bs gives))
]

module _ (u : Uuids) where
  first_device :
      (uuid : ℕ) (ms : List UmpBdev)
      → 0 < length (paths_of u uuid ms)
      → (k : ℕ) × (m : UmpBdev) × (get_elem? ms k ≡ some m)
        × (m.bdev.uuid ≡ uuid)
        × (m.spdk_bdev_list ≡ paths_of u uuid ms)
  unfolding paths_of
  first_device uuid [] some_path = absurd (omega arith)
  first_device uuid (m ∷ ms) some_path = elim (Bool-cases (u.same m.bdev.uuid uuid)) [
    | inl hit ↦ (0, m, refl, (u.same_iff m.bdev.uuid uuid).0 hit, rw hit refl)
    | inr miss ↦
        let (k, m', at, same, list) = first_device uuid ms (rw (miss, paths_of) at some_path) in
        (suc k, m', at, same, rw miss list)
  ]

  -- What the registrations leave alone.
  abbrev Keeps : World → World → Type 0
  Keeps w w' = (w'.count ≡ w.count) × (w'.real_spdk_bdev_register ≡ w.real_spdk_bdev_register)

  construct-Keeps : (env : Env) (b : Bdev) (w : World) → Keeps w (construct env b w).1
  unfolding construct
  construct-Keeps env b w = (ground arith, ground arith)

  found-Keeps :
      (env : Env) (b : Bdev) (w : World) (o : Option ℕ) {r : ℤ × World}
      → register_found u env b w o ≡ ok r
      → Keeps w r.1
  unfolding register_found add_bdev add_iopath
  found-Keeps env b w none {r} e =
      let same : construct env b w ≡ r = ground arith in
      subst (λ (x : ℤ × World). Keeps w x.1) same (construct-Keeps env b w)
  found-Keeps env b w (some i) {r} e = elim (Bool-cases env.alloc_entry) [
    | inr out ↦ (ground arith, ground arith)
    | inl got ↦
        let (m, _, e1) =
          >>=-eq-ok (deref (get_elem? w.ump_bdev_list i)) _
            (rw (got, register_found, add_bdev) at e) in
        let (chs, _, e2) =
          >>=-eq-ok (add_to_channels u env m.bdev.uuid b w.g_ump_bdev_channels) _ e1 in
        (ground arith, ground arith)
  ]

  register-Keeps :
      (env : Env) (b : Bdev) (w : World) {r : ℤ × World}
      → w.real_spdk_bdev_register ≡ true
      → spdk_bdev_register u env b w ≡ ok r
      → Keeps w r.1
  unfolding spdk_bdev_register
  register-Keeps env b w {r} real e =
      let go : (get_ump_bdev_by_uuid u b.uuid w.ump_bdev_list >>= register_found u env b w) ≡ ok r =
        ground arith in
      let (o, _, e1) = >>=-eq-ok (get_ump_bdev_by_uuid u b.uuid w.ump_bdev_list) _ go in
      found-Keeps env b w o e1

  register_all-Keeps :
      (bs : List (Env × Bdev)) (w : World) {rs : List ℤ} {w' : World}
      → w.real_spdk_bdev_register ≡ true
      → register_all u bs w ≡ ok (rs, w')
      → Keeps w w'
  unfolding register_all
  register_all-Keeps [] w {rs} {w'} real e = (ground arith, ground arith)
  register_all-Keeps ((env, b) ∷ bs) w {rs} {w'} real e =
      let (r1, e1, e2) = >>=-eq-ok (spdk_bdev_register u env b w) _ e in
      let (r2, e3, e4) = >>=-eq-ok (register_all u bs r1.1) _ e2 in
      let (c1, k1) = register-Keeps env b w real e1 in
      let (c2, k2) = register_all-Keeps bs r1.1 (k1 ∙ real) e3 in
      let last : r2.1 ≡ w' = ground arith in subst (Keeps w) last (c2 ∙ c1, k2 ∙ k1)

  -- From the start of the program, when every call succeeds and every bdev gives an I/O channel,
  -- whatever the new `ump_bdev`s are allocated at: after bdevs have been registered, one to four of
  -- them with a uuid, there is an `ump_bdev` of that uuid; a channel to it can be created, if memory for
  -- its paths can be had; and the first I/O of at least one block on that channel is handed to one of
  -- the registered bdevs of that uuid, with the I/O channel that it gave, if memory for its context can
  -- be had.
  pub device-serves :
      (env : Env) (bs : List (Env × Bdev)) (uuid address : ℕ) (r : Reply) (io : Io)
      → AllSucceed bs
      → ((n : ℕ) → env.alloc_path n ≡ true)
      → ((b : Bdev) → env.get_io_channel b ≢ none)
      → 0 < length (matching u uuid (bdevs bs))
      → length (matching u uuid (bdevs bs)) ≤ 4
      → io.num_blocks ≢ 0
      → r.alloc_ctx ≡ true
      → (w w' : World) × (m : UmpBdev) × (ch : Channel) × (lane : Lane) × (b : Bdev) × (k i j : ℕ)
        × (register_all u bs start ≡ ok (map (λ b. pos 0) bs, w))
        × (get_elem? w.ump_bdev_list k ≡ some m)
        × (m.bdev.uuid ≡ uuid)
        × (create_cb env m address w ≡ ok (pos 0, w', []))
        × (w'.g_ump_bdev_channels ≡ w.g_ump_bdev_channels ++ (ch ∷ []))
        × (submit_request r (record { channel = ch; count = w'.count; probers = [] }) io
            ≡ ok (
              lane,
              Effect.submitted i
                  (env.get_io_channel b)
                  b
                  (record io { cb = Callback.ump address (some i) io.cb }),
            ))
        × (get_elem? (matching u uuid (bdevs bs)) j ≡ some b)
  device-serves env bs uuid address r io s alloc gives some_bdev four ne ctx =
      let (w, all, _, _, groups) = register_all-start u bs s in
      let (counts, _) = register_all-Keeps bs start refl all in
      let (k, m, at, same, list) =
        first_device uuid w.ump_bdev_list (omega (arith, ap length (groups uuid), some_bdev)) in
      let whole : m.spdk_bdev_list ≡ matching u uuid (bdevs bs) = list ∙ groups uuid in
      let size : length (new_paths env 0 m.spdk_bdev_list) ≡ length (matching u uuid (bdevs bs)) =
        length-new_paths env 0 m.spdk_bdev_list gives ∙ ap length whole in
      let (w', ch, made, listed, _, _, four', addr, paths, ids, up) =
        create_cb_paths env m address w alloc (ap length counts) (omega (arith, size, four)) in
      let lane : Lane = record { channel = ch; count = w'.count; probers = [] } in
      let ready : IsReady lane = record {
        ids = ids;
        four = four';
        room = omega (arith, size, four, ap length paths);
      } in
      elim (submit_request_lem r lane io ready ne ctx) [
        | inl (i, sent) ↦
            let at_new : get_elem? (new_paths env 0 m.spdk_bdev_list) i ≡ some sent.path =
              subst (λ l. get_elem? l i ≡ some sent.path) paths sent.found in
            let (j, of_list) = new_paths-bdev env 0 m.spdk_bdev_list i sent.path at_new in
            let (_, _, gave, _) = new_paths_lem env 0 m.spdk_bdev_list i sent.path at_new in
            let after : Lane = record lane { count = modify lane.count i (add_bytes io) } in
            (
              w,
              w',
              m,
              ch,
              after,
              sent.path.bdev,
              k,
              i,
              j,
              all,
              at,
              same,
              made,
              listed,
              sent.result
                  ∙ ap (λ c. ok (after, Effect.submitted i c sent.path.bdev (wrapped lane i io)))
                      gave
                  ∙ ap
                      (λ a. ok (
                        after,
                        Effect.submitted i (env.get_io_channel sent.path.bdev) sent.path.bdev
                            (record io { cb = Callback.ump a (some i) io.cb }),
                      ))
                      addr,
              subst (λ l. get_elem? l j ≡ some sent.path.bdev) whole of_list,
            )
        | inr (down, _) ↦
            let (p, at0, on) = up 0 (omega (arith, size, some_bdev, ap length paths)) in
            let off : p.available ≡ false = down 0 p at0 in absurd (true_apart on off)
      ]
