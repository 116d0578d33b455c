-- ===== src/Nvme/Qpairs/Valid.antt =====
-- nvme/bdev_nvme.c: what holds of the queue pairs at each stage of a reset, and how far it has got.
use sump.Base.{
  ℕ, suc, ◌+◌, ◌<◌, ◌≤◌, ◌≡◌, ◌≢◌, inl, inr, refl, sym, ap, subst, ◌∙◌, ◌-◌, length, Bool, true,
  false, List, [], ◌++◌, none, some, get_elem?, get_elem?-modify_inv, modify, Outcome, ok,
  Bool-cases,
}
use sump.Nvme.Reset.{Ctrlr, failover}
use sump.Nvme.Qpairs.{
  CtrlrChannel, destroy_qpairs, reconnect, creates, stops, destroys, completes, Stage, rests, polls,
  awaits, walks, ended, Sequence, fail_over,
}

abbrev pub is_awaiting : Stage → Bool
is_awaiting rests = false
is_awaiting polls = false
is_awaiting (awaits cb) = true
is_awaiting (walks w i held) = false
is_awaiting (ended b) = false

abbrev pub is_polling : Stage → Bool
is_polling rests = false
is_polling polls = true
is_polling (awaits cb) = false
is_polling (walks w i held) = false
is_polling (ended b) = false

-- The channel at a place has no qpair at this stage.
abbrev pub Down : Stage → ℕ → Type 0
Down rests k = ⊥
Down polls k = Unit {0}
Down (awaits destroy_qpairs) k = ⊥
Down (awaits reconnect) k = Unit {0}
Down (walks (destroys failed) i held) k = k < i
Down (walks creates i held) k = i ≤ k
Down (walks stops i held) k = ⊥
Down (walks (completes b) i held) k = ⊥
Down (ended b) k = ⊥

-- The walk is held on the channel at a place.
abbrev pub Holds : Stage → ℕ → Type 0
Holds rests k = ⊥
Holds polls k = ⊥
Holds (awaits cb) k = ⊥
Holds (walks w i false) k = ⊥
Holds (walks (destroys failed) i true) k = k ≡ i
Holds (walks creates i true) k = ⊥
Holds (walks stops i true) k = ⊥
Holds (walks (completes b) i true) k = ⊥
Holds (ended b) k = ⊥

-- The channel of a walk that is held: its qpair is about to be disconnected.
pub record Held (chs : List CtrlrChannel) (i : ℕ) : Type 0 where
  pub channel : CtrlrChannel
  pub qpair : ℕ
  pub at : get_elem? chs i ≡ some channel
  pub iter : channel.reset_iter ≡ true
  pub there : channel.qpair ≡ some qpair

abbrev pub Waits : Stage → List CtrlrChannel → Type 0
Waits rests chs = Unit {0}
Waits polls chs = Unit {0}
Waits (awaits cb) chs = Unit {0}
Waits (walks w i false) chs = Unit {0}
Waits (walks (destroys failed) i true) chs = Held chs i
Waits (walks creates i true) chs = ⊥
Waits (walks stops i true) chs = ⊥
Waits (walks (completes b) i true) chs = ⊥
Waits (ended b) chs = Unit {0}

-- The controller and its channels fit a stage: the controller is being reset, `disconnected_cb` and
-- `reset_detach_poller` are set exactly when they are waited for, and `reset_iter` is set on no
-- channel but the one that the walk is held on.
pub record Fits (c : Ctrlr) (chs : List CtrlrChannel) (st : Stage) : Type 0 where
  pub resetting : c.resetting ≡ true
  pub cb : c.disconnected_cb ≡ is_awaiting st
  pub detach : c.reset_detach_poller ≡ is_polling st
  pub down : (k : ℕ) (ch : CtrlrChannel) → get_elem? chs k ≡ some ch → Down st k → ch.qpair ≡ none
  pub iter :
      (k : ℕ) (ch : CtrlrChannel) → get_elem? chs k ≡ some ch → ch.reset_iter ≡ true → Holds st k
  pub waits : Waits st chs

abbrev pub IsValid : Sequence → Type 0
IsValid s = Fits s.ctrlr s.channels s.stage

-- The stage changes and the channels do not.
pub Fits-stage :
    (c c' : Ctrlr) (chs : List CtrlrChannel) (st st' : Stage)
    → Fits c chs st
    → c'.resetting ≡ true
    → c'.disconnected_cb ≡ is_awaiting st'
    → c'.reset_detach_poller ≡ is_polling st'
    → ((k : ℕ) (ch : CtrlrChannel) → get_elem? chs k ≡ some ch → Down st' k → Down st k)
    → ((k : ℕ) → Holds st k → Holds st' k)
    → Waits st' chs
    → Fits c' chs st'
Fits-stage c c' chs st st' f resetting cb detach downs holds waits = record {
  resetting = resetting;
  cb = cb;
  detach = detach;
  down = λ k ch at d. f.down k ch at (downs k ch at d);
  iter = λ k ch at it. holds k (f.iter k ch at it);
  waits = waits;
}

-- A channel and the stage change.
pub Fits-put :
    (c : Ctrlr) (chs : List CtrlrChannel) (i : ℕ) (ch' : CtrlrChannel) (st st' : Stage)
    → Fits c chs st
    → is_awaiting st ≡ is_awaiting st'
    → is_polling st ≡ is_polling st'
    → ((k : ℕ) → i ≢ k → Down st' k → Down st k)
    → (Down st' i → ch'.qpair ≡ none)
    → ((k : ℕ) → i ≢ k → Holds st k → Holds st' k)
    → (ch'.reset_iter ≡ true → Holds st' i)
    → Waits st' (modify chs i (λ old. ch'))
    → Fits c (modify chs i (λ old. ch')) st'
Fits-put c chs i ch' st st' f cb detach downs here holds it waits = record {
  resetting = f.resetting;
  cb = f.cb ∙ cb;
  detach = f.detach ∙ detach;
  down = λ k x at d.
      (let (a, at_a, cases) = get_elem?-modify_inv chs i k (λ old. ch') at in
        elim cases [
          | inl (same, is) ↦ ap (λ y. y.qpair) is ∙ here (subst (Down st') (sym same) d)
          | inr (apart, is) ↦ ap (λ y. y.qpair) is ∙ f.down k a at_a (downs k apart d)
        ]);
  iter = λ k x at on.
      (let (a, at_a, cases) = get_elem?-modify_inv chs i k (λ old. ch') at in
        elim cases [
          | inl (same, is) ↦ subst (Holds st') same (it (sym (ap (λ y. y.reset_iter) is) ∙ on))
          | inr (apart, is) ↦ holds k apart (f.iter k a at_a (sym (ap (λ y. y.reset_iter) is) ∙ on))
        ]);
  waits = waits;
}

-- While the controller is being reset, a failover changes nothing.
pub fail_over-resetting :
    (now : ℕ) (s : Sequence)
    → s.ctrlr.resetting ≡ true
    → fail_over now s ≡ ok (record s { effects = s.effects ++ [] })
unfolding fail_over failover
fail_over-resetting now s on = elim (Bool-cases s.ctrlr.destruct) [
  | inl gone ↦ rw gone refl
  | inr here ↦ rw (here, on) refl
]

-- A message of the sequence that is handled without a failed assertion.
abbrev pub Handled : Outcome Sequence → Type 0
Handled o = (s' : Sequence) × (o ≡ ok s') × IsValid s'

-- A bound on the messages that a reset of `n` channels still takes; nothing gets it to its end from
-- where it rests.
abbrev pub left : (n : ℕ) → Stage → ℕ
left n (ended b) = 0
left n (walks (completes b) i held) = suc (n - i)
left n (walks (destroys true) i false) = n + 3 + (n - i) + (n - i)
left n (walks (destroys true) i true) = n + 2 + (n - i) + (n - i)
left n (walks stops i held) = n + n + n + 4
left n (walks creates i held) = n + n + n + 5 + (n - i)
left n polls = n + n + n + n + 6
left n (awaits reconnect) = n + n + n + n + 7
left n (walks (destroys false) i false) = n + n + n + n + 9 + (n - i) + (n - i)
left n (walks (destroys false) i true) = n + n + n + n + 8 + (n - i) + (n - i)
left n (awaits destroy_qpairs) = n + n + n + n + n + n + 10
left n rests = n + n + n + n + n + n + 11

-- A message that also brings the reset closer to its end.
abbrev pub Advances : List CtrlrChannel → Stage → Outcome Sequence → Type 0
Advances chs st o =
    (s' : Sequence) × (o ≡ ok s')
    × IsValid s'
    × (length s'.channels ≡ length chs)
    × (left (length chs) s'.stage < left (length chs) st)

pub Advances-Handled :
    (chs : List CtrlrChannel) (st : Stage) (o : Outcome Sequence) → Advances chs st o → Handled o
Advances-Handled chs st o (s', e, v, same, less) = (s', e, v)
