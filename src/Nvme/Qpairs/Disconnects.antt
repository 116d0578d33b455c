-- ===== src/Nvme/Qpairs/Disconnects.antt =====
-- nvme/bdev_nvme.c, `bdev_nvme_disconnected_qpair_cb`: a qpair that is disconnected keeps a reset valid.
use sump.Base.{
  ℕ, suc, ◌<◌, ◌≡◌, ◌≢◌, inl, inr, refl, sym, ap, subst, ◌∙◌, true, false, List, [], ◌∷◌, ◌++◌,
  none, some, next, arith, get_elem?, get_elem?-modify_ne, get_elem?-lt, length, length-modify,
  modify, ok, Bool-cases, Option-cases, ◌==◌, ==_iff, true_apart,
}
use sump.Nvme.Reset.{Ctrlr}
use sump.Nvme.Qpairs.{
  CtrlrChannel, creates, stops, destroys, completes, Stage, rests, polls, awaits, walks, ended,
  Sequence, put_channel, clear_io_path_cache, get_qpair, go_on, disconnected_qpair_cb,
}
use sump.Nvme.Qpairs.Valid.{
  Fits, Fits-put, IsValid, Holds, Waits, Handled, left, Advances, Advances-Handled,
  fail_over-resetting,
}

pub get_qpair-at :
    (q : ℕ) (chs : List CtrlrChannel) {i : ℕ}
    → get_qpair q chs ≡ some i
    → (ch : CtrlrChannel) × (get_elem? chs i ≡ some ch) × (ch.qpair ≡ some q)
unfolding get_qpair
get_qpair-at q [] e = cc
get_qpair-at q (c ∷ cs) {i} e = elim (Option-cases c.qpair) [
  | inl down ↦ further (λ j found. get_qpair-at q cs {i = j} found) (ground (arith, down))
  | inr (p, up) ↦ elim (Bool-cases (p == q)) [
    | inl same ↦
        let here : 0 ≡ i = ground (arith, up, same) in
        subst
          (λ (j : ℕ). (ch : CtrlrChannel) × (get_elem? (c ∷ cs) j ≡ some ch) × (ch.qpair ≡ some q))
          here (c, refl, up ∙ ap some ((==_iff p q).0 same))
    | inr apart ↦ further (λ j found. get_qpair-at q cs {i = j} found) (ground (arith, up, apart))
  ]
]
  where
    further :
        ((j : ℕ)
          → get_qpair q cs ≡ some j
          → (ch : CtrlrChannel) × (get_elem? cs j ≡ some ch) × (ch.qpair ≡ some q))
        → next (get_qpair q cs) ≡ some i
        → (ch : CtrlrChannel) × (get_elem? (c ∷ cs) i ≡ some ch) × (ch.qpair ≡ some q)
    further in_rest e' = elim (Option-cases (get_qpair q cs)) [
      | inl out ↦ absurd (ground (arith, out))
      | inr (j, found) ↦
          let (ch, at, up) = in_rest j found in
          let is : suc j ≡ i = ground (arith, found) in
          (ch, subst (λ (k : ℕ). get_elem? (c ∷ cs) k ≡ some ch) is at, up)
    ]

-- A channel without `reset_iter` changes: a walk that is held is held on another one.
Waits-put :
    (st : Stage) (chs : List CtrlrChannel) (i : ℕ) (ch ch' : CtrlrChannel)
    → get_elem? chs i ≡ some ch
    → ch.reset_iter ≡ false
    → Waits st chs
    → Waits st (modify chs i (λ old. ch'))
Waits-put rests chs i ch ch' at off w = tt
Waits-put polls chs i ch ch' at off w = tt
Waits-put (awaits cb) chs i ch ch' at off w = tt
Waits-put (walks x j false) chs i ch ch' at off w = tt
Waits-put (walks creates j true) chs i ch ch' at off w = absurd w
Waits-put (walks stops j true) chs i ch ch' at off w = absurd w
Waits-put (walks (completes b) j true) chs i ch ch' at off w = absurd w
Waits-put (ended b) chs i ch ch' at off w = tt
Waits-put (walks (destroys failed) j true) chs i ch ch' at off w =
    let apart : i ≢ j = λ same.
      (let there : get_elem? chs i ≡ some w.channel = ap (get_elem? chs) same ∙ w.at in
        let is : ch ≡ w.channel = ground (arith, at, there) in
        true_apart w.iter (sym (ap (λ x. x.reset_iter) is) ∙ off)) in
    record {
      channel = w.channel;
      qpair = w.qpair;
      at = get_elem?-modify_ne chs i j (λ old. ch') apart ∙ w.at;
      iter = w.iter;
      there = w.there;
    }

-- The walk goes on once the qpair that it is held for is disconnected.
go_on-Fits :
    (c : Ctrlr) (chs : List CtrlrChannel) (i : ℕ) (ch ch' : CtrlrChannel) (st : Stage)
    → Fits c chs st
    → Holds st i
    → ch'.qpair ≡ none
    → ch'.reset_iter ≡ false
    → Fits c (modify chs i (λ old. ch')) (go_on st)
go_on-Fits c chs i ch ch' rests f h down off = absurd h
go_on-Fits c chs i ch ch' polls f h down off = absurd h
go_on-Fits c chs i ch ch' (awaits cb) f h down off = absurd h
go_on-Fits c chs i ch ch' (ended b) f h down off = absurd h
go_on-Fits c chs i ch ch' (walks x j false) f h down off = absurd h
go_on-Fits c chs i ch ch' (walks creates j true) f h down off = absurd h
go_on-Fits c chs i ch ch' (walks stops j true) f h down off = absurd h
go_on-Fits c chs i ch ch' (walks (completes b) j true) f h down off = absurd h
go_on-Fits c chs i ch ch' (walks (destroys failed) j true) f h down off =
    Fits-put c chs i ch' (walks (destroys failed) j true) (walks (destroys failed) (suc j) false) f
      refl refl (λ k apart l. omega (arith, apart, l, h)) (λ l. down)
      (λ k apart held. absurd (apart (h ∙ sym held))) (λ on. absurd (true_apart on off)) tt

go_on-left : (n i : ℕ) (st : Stage) → Holds st i → i < n → left n (go_on st) < left n st
go_on-left n i rests h l = absurd h
go_on-left n i polls h l = absurd h
go_on-left n i (awaits cb) h l = absurd h
go_on-left n i (ended b) h l = absurd h
go_on-left n i (walks x j false) h l = absurd h
go_on-left n i (walks creates j true) h l = absurd h
go_on-left n i (walks stops j true) h l = absurd h
go_on-left n i (walks (completes b) j true) h l = absurd h
go_on-left n i (walks (destroys true) j true) h l = omega (arith, h, l)
go_on-left n i (walks (destroys false) j true) h l = omega (arith, h, l)

-- The qpair that a walk is held for is disconnected.
pub disconnected_qpair_cb-Advances :
    (q now : ℕ) (s : Sequence) {i : ℕ} {ch : CtrlrChannel}
    → IsValid s
    → get_qpair q s.channels ≡ some i
    → get_elem? s.channels i ≡ some ch
    → ch.reset_iter ≡ true
    → Advances s.channels s.stage (disconnected_qpair_cb q now s)
unfolding disconnected_qpair_cb clear_io_path_cache
disconnected_qpair_cb-Advances q now s {i} {ch} v found at on =
    let freed : CtrlrChannel = record (clear_io_path_cache ch) {
      qpair = none;
      reset_iter = false;
    } in
    (
      put_channel i freed (go_on s.stage) s,
      rw (found, at, on, disconnected_qpair_cb) refl,
      go_on-Fits s.ctrlr s.channels i ch freed s.stage v (v.iter i ch at on) refl refl,
      length-modify s.channels i (λ old. freed),
      go_on-left (length s.channels) i s.stage (v.iter i ch at on) (get_elem?-lt s.channels i at),
    )

-- A qpair that is disconnected when no walk is held for it asks for a failover, which changes nothing.
pub disconnected_off :
    (q now : ℕ) (s : Sequence) {i : ℕ} {ch : CtrlrChannel}
    → get_qpair q s.channels ≡ some i
    → get_elem? s.channels i ≡ some ch
    → ch.reset_iter ≡ false
    → s.ctrlr.resetting ≡ true
    → let put : Sequence =
        put_channel i
          (record (clear_io_path_cache ch) { qpair = none; reset_iter = false })
          s.stage
          s in
      disconnected_qpair_cb q now s ≡ ok (record put { effects = put.effects ++ [] })
unfolding disconnected_qpair_cb
disconnected_off q now s {i} {ch} found at off resetting =
    let put : Sequence =
      put_channel i (record (clear_io_path_cache ch) { qpair = none; reset_iter = false }) s.stage
        s in
    rw (found, at, off, disconnected_qpair_cb) (fail_over-resetting now put resetting)

pub disconnected_qpair_cb-Handled :
    (q now : ℕ) (s : Sequence) → IsValid s → Handled (disconnected_qpair_cb q now s)
unfolding disconnected_qpair_cb clear_io_path_cache
disconnected_qpair_cb-Handled q now s v = elim (Option-cases (get_qpair q s.channels)) [
  | inl out ↦ (s, rw (out, disconnected_qpair_cb) refl, v)
  | inr (i, found) ↦
      let (ch, at, up) = get_qpair-at q s.channels found in
      let freed : CtrlrChannel = record (clear_io_path_cache ch) {
        qpair = none;
        reset_iter = false;
      } in
      elim (Bool-cases ch.reset_iter) [
        | inl on ↦
            Advances-Handled s.channels s.stage (disconnected_qpair_cb q now s)
              (disconnected_qpair_cb-Advances q now s v found at on)
        | inr off ↦
            let put : Sequence = put_channel i freed s.stage s in
            (
              record put { effects = put.effects ++ [] },
              disconnected_off q now s found at off v.resetting,
              Fits-put s.ctrlr s.channels i freed s.stage s.stage v refl refl (λ k apart d. d)
                  (λ d. refl) (λ k apart h. h) (λ on. absurd (true_apart on refl))
                  (Waits-put s.stage s.channels i ch freed at off v.waits),
            )
      ]
]
