-- ===== src/Nvme/Qpairs/Visits.antt =====
-- nvme/bdev_nvme.c: the messages of a reset to one channel, which disconnect or create its qpair.
use sump.Base.{
  ℕ, suc, ◌<◌, ◌≡◌, inl, inr, refl, sym, ◌∙◌, Bool, true, false, List, none, some, arith, get_elem?,
  get_elem?-modify_self, get_elem?-lt, length, length-modify, ok, is_zero, Bool-cases, Option-cases,
}
use sump.Nvme.Reset.{Ctrlr}
use sump.Nvme.Qpairs.{
  CtrlrChannel, Walk, creates, stops, destroys, Stage, walks, Sequence, Attempt, put_channel,
  destroy_qpair, create_qpair, clear_io_path_cache, visit_channel,
}
use sump.Nvme.Qpairs.Valid.{Fits, Fits-stage, Fits-put, Down, Holds, left, Advances}

pub destroy_none :
    (ch : CtrlrChannel) → ch.qpair ≡ none → destroy_qpair ch ≡ ok (clear_io_path_cache ch, false)
unfolding destroy_qpair
destroy_none ch down = rw down refl

pub destroy_some :
    (ch : CtrlrChannel) {q : ℕ}
    → ch.qpair ≡ some q
    → ch.reset_iter ≡ false
    → destroy_qpair ch ≡ ok (record (clear_io_path_cache ch) { reset_iter = true }, true)
unfolding destroy_qpair
destroy_some ch up off = rw (up, off) refl

destroy-left_next :
    (failed : Bool) {n i : ℕ}
    → i < n
    → left n (walks (destroys failed) (suc i) false) < left n (walks (destroys failed) i false)
destroy-left_next true l = omega (arith, l)
destroy-left_next false l = omega (arith, l)

destroy-left_held :
    (failed : Bool) (n i : ℕ)
    → left n (walks (destroys failed) i true) < left n (walks (destroys failed) i false)
destroy-left_held true n i = omega arith
destroy-left_held false n i = omega arith

pub destroy-Advances :
    (failed : Bool) (a : Attempt) (i : ℕ) (ch : CtrlrChannel) (s : Sequence)
    → Fits s.ctrlr s.channels (walks (destroys failed) i false)
    → get_elem? s.channels i ≡ some ch
    → Advances s.channels
        (walks (destroys failed) i false)
        (visit_channel (destroys failed) a i ch s)
unfolding visit_channel clear_io_path_cache
destroy-Advances failed a i ch s f at = elim (Option-cases ch.qpair) [
  | inl down ↦
      let ch' : CtrlrChannel = clear_io_path_cache ch in
      let s' : Sequence = put_channel i ch' (walks (destroys failed) (suc i) false) s in
      (
        s',
        rw (destroy_none ch down) refl,
        Fits-put s.ctrlr s.channels i ch' (walks (destroys failed) i false)
            (walks (destroys failed) (suc i) false) f refl refl
            (λ k apart l. omega (arith, apart, l)) (λ l. down) (λ k apart h. h)
            (λ on. f.iter i ch at on) tt,
        length-modify s.channels i (λ old. ch'),
        destroy-left_next failed (get_elem?-lt s.channels i at),
      )
  | inr (q, up) ↦ elim (Bool-cases ch.reset_iter) [
    | inl on ↦ absurd (f.iter i ch at on)
    | inr off ↦
        let ch' : CtrlrChannel = record (clear_io_path_cache ch) { reset_iter = true } in
        let s' : Sequence = put_channel i ch' (walks (destroys failed) i true) s in
        (
          s',
          rw (destroy_some ch up off) refl,
          Fits-put s.ctrlr s.channels i ch' (walks (destroys failed) i false)
              (walks (destroys failed) i true) f refl refl (λ k apart l. l)
              (λ l. absurd (omega (arith, l))) (λ k apart h. absurd h) (λ on. refl)
              (record {
                channel = ch';
                qpair = q;
                at = get_elem?-modify_self s.channels i (λ old. ch') at;
                iter = refl;
                there = up;
              }),
          length-modify s.channels i (λ old. ch'),
          destroy-left_held failed (length s.channels) i,
        )
  ]
]

-- The iterator of the channel is left as it is.
create_qpair-reset_iter :
    (off : Bool) (a : Attempt) (ch : CtrlrChannel)
    → (create_qpair off a ch).1.reset_iter ≡ ch.reset_iter
unfolding create_qpair clear_io_path_cache
create_qpair-reset_iter off a ch = ground arith

pub create-Advances :
    (a : Attempt) (i : ℕ) (ch : CtrlrChannel) (s : Sequence)
    → Fits s.ctrlr s.channels (walks creates i false)
    → get_elem? s.channels i ≡ some ch
    → Advances s.channels (walks creates i false) (visit_channel creates a i ch s)
unfolding visit_channel
create-Advances a i ch s f at =
    let created = create_qpair s.disable_auto_failback a ch in
    let same = create_qpair-reset_iter s.disable_auto_failback a ch in
    elim (Bool-cases (is_zero created.0)) [
      | inl up ↦ (
        put_channel i created.1 (walks creates (suc i) false) s,
        rw up refl,
        Fits-put s.ctrlr s.channels i created.1 (walks creates i false)
            (walks creates (suc i) false) f refl refl (λ k apart l. omega (arith, l))
            (λ l. absurd (omega (arith, l))) (λ k apart h. h) (λ on. f.iter i ch at (sym same ∙ on))
            tt,
        length-modify s.channels i (λ old. created.1),
        (let l = get_elem?-lt s.channels i at in omega (arith, l)),
      )
      | inr failed ↦ (
        put_channel i created.1 (walks stops i false) s,
        rw failed refl,
        Fits-put s.ctrlr s.channels i created.1 (walks creates i false) (walks stops i false) f refl
            refl (λ k apart l. absurd l) (λ l. absurd l) (λ k apart h. h)
            (λ on. f.iter i ch at (sym same ∙ on)) tt,
        length-modify s.channels i (λ old. created.1),
        (let l = get_elem?-lt s.channels i at in omega (arith, l)),
      )
    ]

-- The stage changes to one where nothing is held or waited for.
pub stage-Fits :
    {c : Ctrlr} {chs : List CtrlrChannel} (st : Stage) (w : Walk) (i : ℕ)
    → Fits c chs st
    → c.disconnected_cb ≡ false
    → c.reset_detach_poller ≡ false
    → ((k : ℕ) → Holds st k → ⊥)
    → ((k : ℕ) (ch : CtrlrChannel)
        → get_elem? chs k ≡ some ch
        → Down (walks w i false) k
        → Down st k)
    → Fits c chs (walks w i false)
stage-Fits {c} {chs} st w i f cb detach free downs =
    Fits-stage c c chs st (walks w i false) f f.resetting cb detach downs (λ k h. absurd (free k h))
      tt
