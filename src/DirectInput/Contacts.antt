-- ===== src/DirectInput/Contacts.antt =====
-- The touch protocol: what the X server sees of the contacts.
use magicdesk_x.Prelude.{
  ℕ, zero, suc, ◌+◌, ◌-◌, ◌≡◌, refl, sym, ap, ◌∙◌, ◌≢◌, inl, inr, Bool, true, false, not, ◌&&◌,
  ◌||◌, Option, none, some, List, [], ◌∷◌, arith, ltb, ◌==◌, Bool-cases, Option-cases, get_or, set,
}
use magicdesk_x.DirectInput.{
  Position, Contact, no_contact, DirectInput, TouchPhase, begin_touch, update_touch, end_touch,
  unknown_phase, DeviceEvent, touch_begin, touch_update, touch_end, find_contact, find_free,
  slot_for, direct_touch, is_known, at_slot,
}

-- The touches that the X server holds, by slot: one flag for each, in order.
abbrev pub occupied : List Contact → List Bool
occupied [] = []
occupied (c ∷ contacts) = not (c.output == 0) ∷ occupied contacts

-- A touch may begin only where none is active, and be updated or ended only where one is. Other
-- events leave the touches alone.
abbrev pub when : Bool → List Bool → Option (List Bool)
when true flags = some flags
when false flags = none

abbrev pub touch_replay_one : List Bool → DeviceEvent → Option (List Bool)
touch_replay_one flags (touch_begin slot p) =
    when (not (get_or flags (slot - 1) true)) (set flags (slot - 1) true)
touch_replay_one flags (touch_update slot p) = when (get_or flags (slot - 1) false) flags
touch_replay_one flags (touch_end slot p) =
    when (get_or flags (slot - 1) false) (set flags (slot - 1) false)
touch_replay_one flags _ = some flags

abbrev pub touch_replay : List Bool → List DeviceEvent → Option (List Bool)
touch_replay flags [] = some flags
touch_replay flags (e ∷ events) = elim (touch_replay_one flags e) [
  | none ↦ none
  | some next ↦ touch_replay next events
]

occupied-set :
    (contacts : List Contact) (i : ℕ) (c : Contact)
    → occupied (set contacts i c) ≡ set (occupied contacts) i (not (c.output == 0))
occupied-set [] i c = refl
occupied-set (d ∷ contacts) zero c = refl
occupied-set (d ∷ contacts) (suc i) c = rw (occupied-set contacts i c)

-- A contact that is found stands in an occupied slot, if its output is one.
find_contact-occupied :
    (contacts : List Contact) (output contact k i : ℕ)
    → output ≢ 0
    → find_contact output contact k contacts ≡ some i
    → (j : ℕ) × (i ≡ k + j) × (get_or (occupied contacts) j false ≡ true)
unfolding find_contact
find_contact-occupied [] output contact k i o h = cc
find_contact-occupied (c ∷ contacts) output contact k i o h =
    elim (Bool-cases (c.output == output && c.contact == contact)) [
      | inl here ↦ (0, ground arith, ground arith)
      | inr later ↦
          let (j, at, full) =
            find_contact-occupied contacts output contact (k + 1) i o (rw later at h) in
          (suc j, omega arith, full)
    ]

find_free-unoccupied :
    (contacts : List Contact) (k i : ℕ)
    → find_free k contacts ≡ some i
    → (j : ℕ) × (i ≡ k + j) × (get_or (occupied contacts) j true ≡ false)
unfolding find_free
find_free-unoccupied [] k i h = cc
find_free-unoccupied (c ∷ contacts) k i h = elim (Bool-cases (c.output == 0)) [
  | inl here ↦ (0, ground arith, ground arith)
  | inr later ↦
      let (j, at, free) = find_free-unoccupied contacts (k + 1) i (rw later at h) in
      (suc j, omega arith, free)
]

set_self : (flags : List Bool) (i : ℕ) → get_or flags i false ≡ true → set flags i true ≡ flags
set_self [] i h = cc
set_self (f ∷ flags) zero h = rw h
set_self (f ∷ flags) (suc i) h = ap (λ t. f ∷ t) (set_self flags i h)

sub_add_one : (i : ℕ) → i + 1 - 1 ≡ i
sub_add_one i = omega arith

nonzero_test : (n : ℕ) → n ≢ 0 → (n == 0) ≡ false
nonzero_test n h = ground arith

begin_slot :
    (contacts : List Contact) (output contact i : ℕ)
    → slot_for contacts output contact begin_touch ≡ some i
    → get_or (occupied contacts) i true ≡ false
unfolding slot_for
begin_slot contacts output contact i h =
    elim (Option-cases (find_contact output contact 0 contacts)) [
      | inl new ↦
          let (j, at, free) = find_free-unoccupied contacts 0 i (rw (new, slot_for) at h) in
          let same : i ≡ j = omega arith in rw same free
      | inr (k, old) ↦ absurd (none_some i (rw (old, slot_for) at h))
    ]
  where
    none_some : (i : ℕ) → none ≡ some i → ⊥
    none_some i e = cc

found_slot :
    (contacts : List Contact) (output contact i : ℕ)
    → output ≢ 0
    → find_contact output contact 0 contacts ≡ some i
    → get_or (occupied contacts) i false ≡ true
found_slot contacts output contact i o h =
    let (j, at, full) = find_contact-occupied contacts output contact 0 i o h in
    let same : i ≡ j = omega arith in rw same full

replay_begin :
    (flags : List Bool) (i : ℕ) (p : Position)
    → get_or flags i true ≡ false
    → touch_replay flags (touch_begin (i + 1) p ∷ []) ≡ some (set flags i true)
replay_begin flags i p h = ground (arith, sub_add_one i)

replay_update :
    (flags : List Bool) (i : ℕ) (p : Position)
    → get_or flags i false ≡ true
    → touch_replay flags (touch_update (i + 1) p ∷ []) ≡ some flags
replay_update flags i p h = ground (arith, sub_add_one i)

pub replay_end :
    (flags : List Bool) (i : ℕ) (p : Position)
    → get_or flags i false ≡ true
    → touch_replay flags (touch_end (i + 1) p ∷ []) ≡ some (set flags i false)
replay_end flags i p h = ground (arith, sub_add_one i)

at_slot-protocol :
    (s : DirectInput) (output contact : ℕ) (phase : TouchPhase) (position : Position)
    (slot : Option ℕ)
    → output ≢ 0
    → is_known phase ≡ true
    → slot_for s.contacts output contact phase ≡ slot
    → let (t, events) = at_slot s output contact phase position slot in
      touch_replay (occupied s.contacts) events ≡ some (occupied t.contacts)
unfolding slot_for
at_slot-protocol s output contact phase position none o k e = refl
at_slot-protocol s output contact begin_touch position (some i) o k e =
    let c : Contact = record { output = output; contact = contact; position = position } in
    replay_begin (occupied s.contacts) i position (begin_slot s.contacts output contact i e)
    ∙ ap some (rw (occupied-set s.contacts i c, nonzero_test output o))
at_slot-protocol s output contact update_touch position (some i) o k e =
    let full = found_slot s.contacts output contact i o e in
    let c : Contact = record { output = output; contact = contact; position = position } in
    replay_update (occupied s.contacts) i position full
    ∙ ap some (
        rw (occupied-set s.contacts i c, nonzero_test output o)
          (sym (set_self (occupied s.contacts) i full)))
at_slot-protocol s output contact end_touch position (some i) o k e =
    replay_end (occupied s.contacts) i position (found_slot s.contacts output contact i o e)
    ∙ ap some (rw (occupied-set s.contacts i no_contact))
at_slot-protocol s output contact unknown_phase position (some i) o k e = cc

-- The touch event that an input queues is one that the X server can take in its state, and after it the
-- X server holds exactly the touches of the occupied slots.
pub direct_touch-protocol :
    (s : DirectInput) (output contact : ℕ) (phase : TouchPhase) (position : Position)
    → output ≢ 0
    → let (t, events) = direct_touch s output contact phase position in
      touch_replay (occupied s.contacts) events ≡ some (occupied t.contacts)
unfolding direct_touch
direct_touch-protocol s output contact phase position o =
    elim (Bool-cases (not s.devices.touch || (ltb 31 contact || not (is_known phase)))) [
      | inl refused ↦ rw refused
      | inr taken ↦ rw taken (
          at_slot-protocol s output contact phase position
            (slot_for s.contacts output contact phase) o (ground arith) refl)
    ]
