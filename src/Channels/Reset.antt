-- ===== src/Channels/Reset.antt =====
-- sump_ctrl.c `ump_io_count_fn`: what the periodic reset of the delays does to the choice of a path.
use sump.Base.{
  ℕ, ◌<◌, ◌≡◌, refl, sym, ap, ◌∙◌, false, List, [], ◌∷◌, map, none, some, arith, Bool-cases,
  Option-cases, inl, inr, get_elem?, get_elem?-map, get_elem?-map_inv, first, first-some,
  first_of_least, IsLeast, NoneBelow, u64_max, assigned,
}
use sump.Bdev.{Io, IoType}
use sump.TimeQueue.{init}
use sump.IoPath.{IoPath, Channel}
use sump.World.{World}
use sump.Select.{is_available, service_time, find_iopath_service_time}
use sump.Select.Least.{find_iopath_service_time_lem}
use sump.Channels.{reset_times, reset_channel, io_count_fn}

first-reset_times :
    (paths : List IoPath) → first is_available (map reset_times paths) ≡ first is_available paths
unfolding first
first-reset_times [] = refl
first-reset_times (p ∷ ps) = rw (first-reset_times ps) refl

-- A path of a channel that was reset has no delays.
reset-service_time :
    (io : Io) (paths : List IoPath) (i : ℕ) {p : IoPath}
    → get_elem? (map reset_times paths) i ≡ some p
    → service_time io p ≡ 0
unfolding init
reset-service_time io paths i {p} e =
    let (q, _, same) = get_elem?-map_inv reset_times paths i e in
    ap (service_time io) same ∙ by_type io.io_type q refl
  where
    by_type : (t : IoType) (q : IoPath) → io.io_type ≡ t → service_time io (reset_times q) ≡ 0
    by_type IoType.read q e = ground arith
    by_type (IoType.other n) q e = ground arith

-- When the delays have just been reset, `ump_find_iopath_service_time` returns, on every channel
-- and for every I/O, the first available path of the channel, and a pointer that was never assigned
-- if no path is available.
pub find_iopath_service_time-io_count_fn :
    (w : World) (j : ℕ) (ch : Channel) (io : Io)
    → get_elem? w.g_ump_bdev_channels j ≡ some ch
    → (ch' : Channel) × (get_elem? (io_count_fn w).g_ump_bdev_channels j ≡ some ch')
      × (find_iopath_service_time ch' io ≡ assigned (first is_available ch.iopath_list))
unfolding io_count_fn
find_iopath_service_time-io_count_fn w j ch io at = (
  reset_channel ch,
  get_elem?-map reset_channel w.g_ump_bdev_channels j at,
  elim (find_iopath_service_time_lem (reset_channel ch) io) [
    | inl (i, e, l) ↦
        let here : first is_available (map reset_times ch.iopath_list) ≡ some i =
          first_of_least is_available (map reset_times ch.iopath_list) i l.found l.up
            (λ k q lt at_k. not_before i l k q lt at_k) in
        e ∙ sym (ap assigned (sym (first-reset_times ch.iopath_list) ∙ here))
    | inr (e, below) ↦
        e ∙ sym (ap assigned (sym (first-reset_times ch.iopath_list) ∙ all_down below))
  ],
)
  where
    not_before :
        (i : ℕ)
        → IsLeast is_available (service_time io) u64_max (map reset_times ch.iopath_list) i
        → (k : ℕ) (q : IoPath) → k < i
        → get_elem? (map reset_times ch.iopath_list) k ≡ some q
        → q.available ≡ false
    not_before i l k q lt at_k = elim (Bool-cases q.available) [
      | inr down ↦ down
      | inl up ↦
          absurd
            (omega (arith, l.earlier k q lt at_k up, reset-service_time io ch.iopath_list k at_k))
    ]

    all_down :
        NoneBelow is_available (service_time io) u64_max (map reset_times ch.iopath_list)
        → first is_available (map reset_times ch.iopath_list) ≡ none
    all_down below = elim (Option-cases (first is_available (map reset_times ch.iopath_list))) [
      | inl gone ↦ gone
      | inr (i, found) ↦
          let (p, at_i, up) = first-some is_available (map reset_times ch.iopath_list) found in
          absurd (omega (arith, below i p at_i up, reset-service_time io ch.iopath_list i at_i))
    ]
