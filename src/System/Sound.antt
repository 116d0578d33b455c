-- ===== src/System/Sound.antt =====
-- sump.h `struct ump_bdev_channel`: what holds of a channel for as long as it lives.
use sump.Base.{
  ℕ, suc, ◌+◌, ◌≡◌, ◌⊎◌, inl, inr, refl, sym, ap, ◌∙◌, List, [], ◌∷◌, ◌++◌, map, some, Option,
  arith, length, length-append, length-modify, length-zero, get_elem?, get_elem?-last,
  get_elem?-modify_inv, get_elem?-map_inv, modify, u64, All,
}
use sump.Bdev.{Bdev}
use sump.IoPath.{IoPath, Channel, new_iopath}
use sump.Channels.{reset_channel, reset_times}

-- The paths are numbered by their places, on `uint64_t`, `max_id` is the number of the next one, and
-- all of them lead to bdevs of one device. A channel with no paths, such as one whose creation
-- failed, gets none any more.
pub record IsSound (ch : Channel) : Type 0 where
  pub places : (i : ℕ) (p : IoPath) → get_elem? ch.iopath_list i ≡ some p → p.id ≡ u64 i
  pub next : (ch.iopath_list ≡ []) ⊎ (ch.max_id ≡ u64 (length ch.iopath_list))
  pub uuid : ℕ
  pub device : (i : ℕ) (p : IoPath) → get_elem? ch.iopath_list i ≡ some p → p.bdev.uuid ≡ uuid

-- All paths of a channel lead to bdevs of one uuid.
abbrev pub LeadsTo : ℕ → Channel → Type 0
LeadsTo uuid ch = (i : ℕ) (p : IoPath) → get_elem? ch.iopath_list i ≡ some p → p.bdev.uuid ≡ uuid

-- The paths of a channel may have changed, but not their numbers and bdevs.
pub record Mirrors (ch ch' : Channel) : Type 0 where
  pub io_device : ch'.io_device ≡ ch.io_device
  pub size : length ch'.iopath_list ≡ length ch.iopath_list
  pub max_id : ch'.max_id ≡ ch.max_id
  pub from :
      (i : ℕ) (p' : IoPath)
      → get_elem? ch'.iopath_list i ≡ some p'
      → (p : IoPath) × (get_elem? ch.iopath_list i ≡ some p) × (p'.id ≡ p.id) × (p'.bdev ≡ p.bdev)

pub Mirrors-refl : (ch : Channel) → Mirrors ch ch
Mirrors-refl ch = record {
  io_device = refl;
  size = refl;
  max_id = refl;
  from = λ i p at. (p, at, refl, refl);
}

pub Mirrors-trans : (a b c : Channel) → Mirrors a b → Mirrors b c → Mirrors a c
Mirrors-trans a b c f g = record {
  io_device = g.io_device ∙ f.io_device;
  size = g.size ∙ f.size;
  max_id = g.max_id ∙ f.max_id;
  from = λ i p at.
      (let (q, at_q, id, bdev) = g.from i p at in
        let (r, at_r, id', bdev') = f.from i q at_q in (r, at_r, id ∙ id', bdev ∙ bdev'));
}

pub Mirrors-IsSound : (ch ch' : Channel) → Mirrors ch ch' → IsSound ch → IsSound ch'
Mirrors-IsSound ch ch' m s = record {
  places = λ i p at. (let (q, at_q, id, _) = m.from i p at in id ∙ s.places i q at_q);
  next = elim s.next [
    | inl none_left ↦ inl (length-zero ch'.iopath_list (m.size ∙ ap length none_left))
    | inr next ↦ inr (m.max_id ∙ next ∙ ap u64 (sym m.size))
  ];
  uuid = s.uuid;
  device = λ i p at.
      (let (q, at_q, _, bdev) = m.from i p at in ap (λ b. b.uuid) bdev ∙ s.device i q at_q);
}

pub Mirrors-LeadsTo :
    (uuid : ℕ) (ch ch' : Channel) → Mirrors ch ch' → LeadsTo uuid ch → LeadsTo uuid ch'
Mirrors-LeadsTo uuid ch ch' m leads i p at =
    let (q, at_q, _, bdev) = m.from i p at in ap (λ b. b.uuid) bdev ∙ leads i q at_q

-- One path is changed.
pub modify-Mirrors :
    (ch : Channel) (i : ℕ) (f : IoPath → IoPath)
    → ((p : IoPath) → (f p).id ≡ p.id)
    → ((p : IoPath) → (f p).bdev ≡ p.bdev)
    → Mirrors ch (record ch { iopath_list = modify ch.iopath_list i f })
modify-Mirrors ch i f id bdev = record {
  io_device = refl;
  size = length-modify ch.iopath_list i f;
  max_id = refl;
  from = λ j p at.
      (let (q, at_q, c) = get_elem?-modify_inv ch.iopath_list i j f at in
        elim c [
          | inl (_, same) ↦ (q, at_q, ap (λ x. x.id) same ∙ id q, ap (λ x. x.bdev) same ∙ bdev q)
          | inr (_, same) ↦ (q, at_q, ap (λ x. x.id) same, ap (λ x. x.bdev) same)
        ]);
}

length-map {ℓ ℓ'} :
    {A : Type ℓ} {B : Type ℓ'} (f : A → B) (xs : List A) → length (map f xs) ≡ length xs
length-map f [] = refl
length-map f (x ∷ xs) = ap suc (length-map f xs)

pub reset-Mirrors : (ch : Channel) → Mirrors ch (reset_channel ch)
reset-Mirrors ch = record {
  io_device = refl;
  size = length-map reset_times ch.iopath_list;
  max_id = refl;
  from = λ i p at.
      (let (q, at_q, same) = get_elem?-map_inv reset_times ch.iopath_list i at in
        (q, at_q, ap (λ x. x.id) same, ap (λ x. x.bdev) same));
}

pub map_reset-IsSound : (chs : List Channel) → All IsSound chs → All IsSound (map reset_channel chs)
map_reset-IsSound [] s = tt
map_reset-IsSound (ch ∷ chs) (s, rest) =
    (Mirrors-IsSound ch (reset_channel ch) (reset-Mirrors ch) s, map_reset-IsSound chs rest)

-- A new path to the same device.
pub extend-IsSound :
    (ch : Channel) (io : Option ℕ) (b : Bdev)
    → (s : IsSound ch) → ch.max_id ≡ u64 (length ch.iopath_list)
    → b.uuid ≡ s.uuid
    → (s' : IsSound (record ch {
      iopath_list = ch.iopath_list ++ (new_iopath io b ch.max_id ∷ []);
      max_id = u64 (ch.max_id + 1);
    }))
      × (s'.uuid ≡ s.uuid)
unfolding new_iopath
extend-IsSound ch io b s next same = (
  record {
    places = λ i p at. elim (get_elem?-last ch.iopath_list (new_iopath io b ch.max_id) i at) [
      | inl old ↦ s.places i p old
      | inr (last, new) ↦ ap (λ x. x.id) new ∙ next ∙ ap u64 (sym last)
    ];
    next = inr (omega (arith, next, length-append ch.iopath_list (new_iopath io b ch.max_id ∷ [])));
    uuid = s.uuid;
    device = λ i p at. elim (get_elem?-last ch.iopath_list (new_iopath io b ch.max_id) i at) [
      | inl old ↦ s.device i p old
      | inr (last, new) ↦ ap (λ x. x.bdev.uuid) new ∙ same
    ];
  },
  refl,
)
