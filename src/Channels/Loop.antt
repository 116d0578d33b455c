-- ===== src/Channels/Loop.antt =====
-- sump_ctrl.c `ump_bdev_channel_create_cb`: the loop over the bdevs of the device.
use mathlib.Core.List.{append_assoc, append-nil}
use sump.Base.{
  ℕ, suc, ◌+◌, ◌≤◌, ◌<◌, ◌≡◌, ◌^◌, refl, sym, ap, ◌∙◌, true, false, List, [], ◌∷◌, ◌++◌, none, some,
  arith, ltb, lt→ltb, length, modify, length-modify, ok, fault, Fault, u64, inl, inr, dec_lt,
  Option-cases,
}
use sump.Bdev.{Bdev}
use sump.IoPath.{IoPath, Channel, new_iopath}
use sump.World.{Env}
use sump.Channels.{done, set_count, create_loop}

-- The paths to the bdevs that give an I/O channel, numbered from `n` on.
unfoldable pub new_paths : Env → ℕ → List Bdev → List IoPath
new_paths env n [] = []
new_paths env n (b ∷ bs) = elim (env.get_io_channel b) [
  | none ↦ new_paths env n bs
  | some io ↦ new_iopath (some io) b n ∷ new_paths env (suc n) bs
]

pub new_paths-none :
    (env : Env) (n : ℕ) (b : Bdev) (bs : List Bdev)
    → env.get_io_channel b ≡ none
    → new_paths env n (b ∷ bs) ≡ new_paths env n bs
unfolding new_paths
new_paths-none env n b bs e = rw (e, new_paths)

pub new_paths-some :
    (env : Env) (n : ℕ) (b : Bdev) (bs : List Bdev) (io : ℕ)
    → env.get_io_channel b ≡ some io
    → new_paths env n (b ∷ bs) ≡ new_iopath (some io) b n ∷ new_paths env (suc n) bs
unfolding new_paths
new_paths-some env n b bs io e = rw (e, new_paths)

-- The channel after one more path.
abbrev extend : Channel → ℕ → Bdev → Channel
extend ch io b = record ch {
  iopath_list = ch.iopath_list ++ (new_iopath (some io) b ch.max_id ∷ []);
  max_id = u64 (ch.max_id + 1);
}

set_count-in :
    (i : ℕ) (count : List ℕ)
    → i < length count
    → set_count (λ c. 0) i count ≡ ok (modify count i (λ c. 0))
unfolding set_count
set_count-in i count lt = rw (lt→ltb i (length count) lt)

module _ (env : Env) (alloc : (n : ℕ) → env.alloc_path n ≡ true) where
  create_loop-none :
      (b : Bdev) (bs : List Bdev) (ch : Channel) (count : List ℕ)
      → env.get_io_channel b ≡ none
      → create_loop env (b ∷ bs) ch count ≡ create_loop env bs ch count
  unfolding create_loop
  create_loop-none b bs ch count e = rw (e, create_loop)

  create_loop-some :
      (b : Bdev) (bs : List Bdev) (ch : Channel) (count : List ℕ) (io : ℕ)
      → env.get_io_channel b ≡ some io
      → ch.max_id < length count
      → create_loop env (b ∷ bs) ch count
        ≡ create_loop env bs (extend ch io b) (modify count ch.max_id (λ c. 0))
  unfolding create_loop
  create_loop-some b bs ch count io e lt =
      rw (e, alloc ch.max_id, set_count-in ch.max_id count lt, create_loop)

  create_loop-full :
      (b : Bdev) (bs : List Bdev) (ch : Channel) (count : List ℕ) (io : ℕ)
      → env.get_io_channel b ≡ some io
      → length count ≤ ch.max_id
      → create_loop env (b ∷ bs) ch count ≡ fault Fault.out_of_bounds
  unfolding create_loop set_count
  create_loop-full b bs ch count io e le =
      let out : ltb ch.max_id (length count) ≡ false = ground arith in
      rw (e, alloc ch.max_id, out, create_loop, set_count)

  -- What the loop makes of a channel: the paths that can be had, at the end of its list.
  pub record Extended (bs : List Bdev) (ch ch' : Channel) : Type 0 where
    pub address : ch'.address ≡ ch.address
    pub io_device : ch'.io_device ≡ ch.io_device
    pub paths : ch'.iopath_list ≡ ch.iopath_list ++ new_paths env ch.max_id bs
    pub next_id : ch'.max_id ≡ ch.max_id + length (new_paths env ch.max_id bs)

  Extended-some :
      (b : Bdev) (bs : List Bdev) (ch ch' : Channel) (io : ℕ)
      → env.get_io_channel b ≡ some io
      → ch.max_id + 1 < 2 ^ 64
      → Extended bs (extend ch io b) ch'
      → Extended (b ∷ bs) ch ch'
  Extended-some b bs ch ch' io got small x = record {
    address = x.address;
    io_device = x.io_device;
    paths =
        x.paths
        ∙ append_assoc ch.iopath_list (new_iopath (some io) b ch.max_id ∷ [])
            (new_paths env (u64 (ch.max_id + 1)) bs)
        ∙ ap (λ l. ch.iopath_list ++ l) tail;
    next_id = omega (arith, x.next_id, ap length tail);
  }
    where
      id : u64 (ch.max_id + 1) ≡ suc ch.max_id
      id = omega arith

      tail :
          new_iopath (some io) b ch.max_id ∷ new_paths env (u64 (ch.max_id + 1)) bs
          ≡ new_paths env ch.max_id (b ∷ bs)
      tail = rw (new_paths-some env ch.max_id b bs io got, id)

  -- With room in `count` the loop adds every path that can be had.
  pub create_loop-fits :
      (bs : List Bdev) (ch : Channel) (count : List ℕ)
      → ch.max_id + length (new_paths env ch.max_id bs) ≤ length count
      → length count < 2 ^ 32
      → (ch' : Channel) × (count' : List ℕ) × (create_loop env bs ch count ≡ ok (done ch' count'))
        × Extended bs ch ch'
        × (length count' ≡ length count)
  unfolding create_loop new_paths
  create_loop-fits [] ch count fits small = (
    ch,
    count,
    refl,
    record {
      address = refl;
      io_device = refl;
      paths = sym (append-nil ch.iopath_list);
      next_id = omega arith;
    },
    refl,
  )
  create_loop-fits (b ∷ bs) ch count fits small = elim (Option-cases (env.get_io_channel b)) [
    | inl gone ↦
        let same : new_paths env ch.max_id (b ∷ bs) ≡ new_paths env ch.max_id bs =
          new_paths-none env ch.max_id b bs gone in
        let (ch', count', e, x, len) =
          create_loop-fits bs ch count (omega (arith, ap length same)) small in
        (
          ch',
          count',
          create_loop-none b bs ch count gone ∙ e,
          record {
            address = x.address;
            io_device = x.io_device;
            paths = rw same x.paths;
            next_id = rw same x.next_id;
          },
          len,
        )
    | inr (io, got) ↦
        let one : new_paths env ch.max_id (b ∷ bs)
            ≡ new_iopath (some io) b ch.max_id ∷ new_paths env (suc ch.max_id) bs =
          new_paths-some env ch.max_id b bs io got in
        let room : ch.max_id < length count = omega (arith, ap length one) in
        let id : u64 (ch.max_id + 1) ≡ suc ch.max_id = omega arith in
        let same_len : length (modify count ch.max_id (λ c. 0)) ≡ length count =
          length-modify count ch.max_id (λ c. 0) in
        let fits' : u64 (ch.max_id + 1) + length (new_paths env (u64 (ch.max_id + 1)) bs)
            ≤ length (modify count ch.max_id (λ c. 0)) =
          rw id (omega (arith, ap length one, same_len)) in
        let (ch', count', e, x, len) =
          create_loop-fits bs (extend ch io b) (modify count ch.max_id (λ c. 0)) fits'
            (omega (arith, same_len)) in
        (
          ch',
          count',
          create_loop-some b bs ch count io got room ∙ e,
          Extended-some b bs ch ch' io got (omega arith) x,
          len ∙ same_len,
        )
  ]

  -- With too little room it writes past the end of `count`.
  pub create_loop-overflows :
      (bs : List Bdev) (ch : Channel) (count : List ℕ)
      → ch.max_id ≤ length count
      → length count < ch.max_id + length (new_paths env ch.max_id bs)
      → length count < 2 ^ 32
      → create_loop env bs ch count ≡ fault Fault.out_of_bounds
  unfolding new_paths
  create_loop-overflows [] ch count le lt small = absurd (omega arith)
  create_loop-overflows (b ∷ bs) ch count le lt small = elim (Option-cases (env.get_io_channel b)) [
    | inl gone ↦
        let same : new_paths env ch.max_id (b ∷ bs) ≡ new_paths env ch.max_id bs =
          new_paths-none env ch.max_id b bs gone in
        create_loop-none b bs ch count gone
        ∙ create_loop-overflows bs ch count le (omega (arith, ap length same)) small
    | inr (io, got) ↦ elim (dec_lt ch.max_id (length count)) [
      | no full ↦ create_loop-full b bs ch count io got (omega arith)
      | yes room ↦
          let one : new_paths env ch.max_id (b ∷ bs)
              ≡ new_iopath (some io) b ch.max_id ∷ new_paths env (suc ch.max_id) bs =
            new_paths-some env ch.max_id b bs io got in
          let id : u64 (ch.max_id + 1) ≡ suc ch.max_id = omega arith in
          let same_len : length (modify count ch.max_id (λ c. 0)) ≡ length count =
            length-modify count ch.max_id (λ c. 0) in
          let lt' : length (modify count ch.max_id (λ c. 0))
              < u64 (ch.max_id + 1) + length (new_paths env (u64 (ch.max_id + 1)) bs) =
            rw id (omega (arith, ap length one, same_len)) in
          create_loop-some b bs ch count io got room
          ∙ create_loop-overflows bs (extend ch io b) (modify count ch.max_id (λ c. 0))
              (omega (arith, same_len)) lt' (omega (arith, same_len))
    ]
  ]
