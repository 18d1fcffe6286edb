-- ===== src/DirectInput/Runs.antt =====
-- What the X server holds of the touches over any run of direct_input.c: input of an output, of touches
-- and of tools, the release of an output, and the stylus devices that come and go.
use magicdesk_x.Prelude.{
  ℕ, ◌+◌, ◌≡◌, refl, sym, ap, ◌∙◌, ◌≢◌, Bool, true, false, not, ◌&&◌, ◌||◌, Option, none, some,
  List, [], ◌∷◌, ◌++◌, arith, ltb, ◌==◌, if-both, get_or, set, length,
}
use magicdesk_x.Prelude.Int.{ℤ}
use magicdesk_x.DirectInput.{
  Float, is_finite, below_zero, exceeds, Position, Contact, no_contact, DirectInput, TouchPhase,
  DeviceEvent, touch_end, Tablet, tablet_released, release_contacts, release_tool,
  direct_input_release, direct_touch, is_known, at_slot, slot_for,
}
use magicdesk_x.DirectInput.Contacts.{occupied, touch_replay, replay_end, direct_touch-protocol}
use magicdesk_x.DirectInput.Neutral.{
  touch_replay-append, IsNeutral, IsNeutral-append, tablet_released-IsNeutral,
}
use magicdesk_x.DirectInput.ToolSteps.{
  IsTouchStep, tool_step-IsTouchStep, stylus-touch, direct_tablet-IsToolStep,
}
use magicdesk_x.DirectInput.Tools.{
  set_stylus_enabled, DirectEvent, touch, tablet, other_operation, direct_input, direct_branch,
  direct_tablet,
}

read_at :
    (before rest : List Bool) (x d : Bool) (i : ℕ)
    → length before ≡ i
    → get_or (before ++ (x ∷ rest)) i d ≡ x
read_at [] rest x d i e = rw (sym e) refl
read_at (b ∷ before) rest x d i e = rw (sym e) (read_at before rest x d (length before) refl)

put_at :
    (before rest : List Bool) (x y : Bool) (i : ℕ)
    → length before ≡ i
    → set (before ++ (x ∷ rest)) i y ≡ before ++ (y ∷ rest)
put_at [] rest x y i e = rw (sym e) refl
put_at (b ∷ before) rest x y i e =
    rw (sym e) (ap (λ l. b ∷ l) (put_at before rest x y (length before) refl))

moved_on :
    (before rest : List Bool) (x : Bool) → ((before ++ (x ∷ [])) ++ rest) ≡ before ++ (x ∷ rest)
moved_on [] rest x = refl
moved_on (b ∷ before) rest x = ap (λ l. b ∷ l) (moved_on before rest x)

length-moved_on :
    (before : List Bool) (x : Bool) (i : ℕ)
    → length before ≡ i
    → length (before ++ (x ∷ [])) ≡ i + 1
length-moved_on [] x i e = rw (sym e) refl
length-moved_on (b ∷ before) x i e =
    let rest = length-moved_on before x (length before) refl in omega arith

-- The touches that a release ends, from slot `i` on; those before it are as they are.
released_touches :
    (output i : ℕ) (before : List Bool) (contacts : List Contact)
    → length before ≡ i
    → touch_replay (before ++ occupied contacts) (release_contacts true output i contacts).1
      ≡ some (before ++ occupied (release_contacts true output i contacts).0)
unfolding release_contacts
released_touches output i before [] e = refl
released_touches output i before (c ∷ contacts) e =
    let (rest, events) = release_contacts true output (i + 1) contacts in
    let flags = occupied contacts in
    let later : (x : Bool)
        → touch_replay (before ++ (x ∷ flags)) events ≡ some (before ++ (x ∷ occupied rest)) =
      λ x.
        ap (λ l. touch_replay l events) (sym (moved_on before flags x))
        ∙ (released_touches output (i + 1) (before ++ (x ∷ [])) contacts
              (length-moved_on before x i e)
            ∙ ap some (moved_on before (occupied rest) x)) in
    if-both
      (λ (x : List Contact × List DeviceEvent).
        touch_replay (before ++ occupied (c ∷ contacts)) x.1 ≡ some (before ++ occupied x.0))
      (c.output == output && not (output == 0))
      (no_contact ∷ rest, touch_end (i + 1) c.position ∷ events) (c ∷ rest, events)
      (λ h.
        let held : not (c.output == 0) ≡ true = ground arith in
        let ended : touch_replay (before ++ (true ∷ flags)) (touch_end (i + 1) c.position ∷ [])
            ≡ some (before ++ (false ∷ flags)) =
          replay_end (before ++ (true ∷ flags)) i c.position (read_at before flags true false i e)
          ∙ ap some (put_at before flags true false i e) in
        rw held (
          touch_replay-append (before ++ (true ∷ flags)) (before ++ (false ∷ flags))
            (touch_end (i + 1) c.position ∷ []) events ended
          ∙ later false))
      (λ h. later (not (c.output == 0)))

release_tool-IsNeutral :
    (tool device : Bool) (output : ℕ) (t : Tablet) → IsNeutral (release_tool tool device output t).1
release_tool-IsNeutral tool device output t =
    if-both (λ (x : Tablet × List DeviceEvent). IsNeutral x.1)
      (t.output == output && not (output == 0)) (tablet_released tool device t) (t, [])
      (λ e. tablet_released-IsNeutral tool device t) (λ e flags. refl)

released_device :
    (device : Bool) (output : ℕ) (contacts : List Contact)
    → device ≡ true
    → touch_replay (occupied contacts) (release_contacts device output 0 contacts).1
      ≡ some (occupied (release_contacts device output 0 contacts).0)
released_device true output contacts e = released_touches output 0 [] contacts refl
released_device false output contacts e = absurd (cc e)

pub direct_input_release-IsTouchStep :
    (s : DirectInput) (output : ℕ)
    → s.devices.touch ≡ true
    → IsTouchStep s (direct_input_release s output)
unfolding direct_input_release
direct_input_release-IsTouchStep s output e =
    let (contacts, touches) = release_contacts s.devices.touch output 0 s.contacts in
    let pens = (release_tool false s.devices.pen output s.pen).1 in
    let erasers = (release_tool true s.devices.eraser output s.eraser).1 in
    (
      touch_replay-append (occupied s.contacts) (occupied contacts) touches (pens ++ erasers)
            (released_device s.devices.touch output s.contacts e)
          ∙ IsNeutral-append pens erasers (release_tool-IsNeutral false s.devices.pen output s.pen)
              (release_tool-IsNeutral true s.devices.eraser output s.eraser) (occupied contacts),
      refl,
    )

at_slot-touch :
    (s : DirectInput) (output contact : ℕ) (phase : TouchPhase) (position : Position)
    (slot : Option ℕ)
    → (at_slot s output contact phase position slot).0.devices.touch ≡ s.devices.touch
at_slot-touch s output contact phase position none = refl
at_slot-touch s output contact phase position (some i) = refl

direct_touch-IsTouchStep :
    (s : DirectInput) (output contact : ℕ) (phase : TouchPhase) (position : Position)
    → output ≢ 0
    → IsTouchStep s (direct_touch s output contact phase position)
unfolding direct_touch
direct_touch-IsTouchStep s output contact phase position o = (
  direct_touch-protocol s output contact phase position o,
  if-both (λ (x : DirectInput × List DeviceEvent). x.0.devices.touch ≡ s.devices.touch)
      (not s.devices.touch || (ltb 31 contact || not (is_known phase))) (s, []) _ (λ e. refl)
      (λ e.
        at_slot-touch s output contact phase position (slot_for s.contacts output contact phase)),
)

direct_branch-IsTouchStep :
    (pen_added eraser_added : Bool) (s : DirectInput) (output : ℕ) (event : DirectEvent)
    (position : Position)
    → output ≢ 0
    → IsTouchStep s (direct_branch pen_added eraser_added s output event position)
direct_branch-IsTouchStep pen_added eraser_added s output (touch contact phase) position o =
    direct_touch-IsTouchStep s output contact phase position o
direct_branch-IsTouchStep pen_added eraser_added s output (tablet e) position o =
    tool_step-IsTouchStep s (direct_tablet pen_added eraser_added s output e position)
      (direct_tablet-IsToolStep pen_added eraser_added s output e position)
direct_branch-IsTouchStep pen_added eraser_added s output other_operation position o = (refl, refl)

nonzero_first : (output : ℕ) (b : Bool) → (output == 0 || b) ≡ false → output ≢ 0
nonzero_first output b h = ground arith

direct_input-IsTouchStep :
    (pen_added eraser_added : Bool) (screen : Option (ℕ × ℕ)) (s : DirectInput) (output : ℕ)
    (event : DirectEvent) (pressure : Float) (x y : ℤ)
    → IsTouchStep s (direct_input pen_added eraser_added screen s output event pressure x y)
unfolding direct_input
direct_input-IsTouchStep pen_added eraser_added none s output event pressure x y = (refl, refl)
direct_input-IsTouchStep pen_added eraser_added (some (width, height)) s output event pressure x y =
    let bad =
      width == 0
      || (height == 0
          || (not (is_finite pressure) || (below_zero pressure || exceeds pressure 1))) in
    if-both (IsTouchStep s) (output == 0 || bad) (s, []) _ (λ e. (refl, refl))
      (λ e.
        direct_branch-IsTouchStep pen_added eraser_added s output event _
          (nonzero_first output bad e))

-- What is done to the state of direct_input.c: an input of an output, the release of an output, and the
-- stylus devices being added or removed.
pub data DirectAction : Type 0 where
  output_input : Bool → Bool → Option (ℕ × ℕ) → ℕ → DirectEvent → Float → ℤ → ℤ → DirectAction
  output_released : ℕ → DirectAction
  stylus_set : Bool → Bool → Bool → DirectAction

abbrev pub direct_step : DirectInput → DirectAction → DirectInput × List DeviceEvent
direct_step s (output_input pen_added eraser_added screen output event pressure x y) =
    direct_input pen_added eraser_added screen s output event pressure x y
direct_step s (output_released output) = direct_input_release s output
direct_step s (stylus_set pen_added eraser_added enabled) =
    (record s { devices = set_stylus_enabled pen_added eraser_added enabled s.devices }, [])

abbrev pub direct_run : DirectInput → List DirectAction → DirectInput × List DeviceEvent
direct_run s [] = (s, [])
direct_run s (action ∷ actions) =
    let (t, first) = direct_step s action in
    let (u, more) = direct_run t actions in (u, first ++ more)

direct_step-IsTouchStep :
    (s : DirectInput) (action : DirectAction)
    → s.devices.touch ≡ true
    → IsTouchStep s (direct_step s action)
direct_step-IsTouchStep s (output_input pen_added eraser_added screen output event pressure x y) e =
    direct_input-IsTouchStep pen_added eraser_added screen s output event pressure x y
direct_step-IsTouchStep s (output_released output) e = direct_input_release-IsTouchStep s output e
direct_step-IsTouchStep s (stylus_set pen_added eraser_added enabled) e =
    (refl, stylus-touch pen_added eraser_added enabled s.devices)

-- Over any run of inputs of outputs, touches and tools, of releases of outputs, and of changes of the
-- stylus devices, while the touch device exists: every touch event that is queued for the X server is one
-- that it can take in its state, and at the end it holds exactly the touches of the occupied slots. No
-- touch is begun twice, none is updated or ended that was not begun, and none is left over by a release.
pub direct_run-protocol :
    (s : DirectInput) (actions : List DirectAction)
    → s.devices.touch ≡ true
    → let (t, events) = direct_run s actions in
      touch_replay (occupied s.contacts) events ≡ some (occupied t.contacts)
direct_run-protocol s [] e = refl
direct_run-protocol s (action ∷ actions) e =
    let (t, first) = direct_step s action in
    let more = (direct_run t actions).1 in
    let (legal, touch_kept) = direct_step-IsTouchStep s action e in
    touch_replay-append (occupied s.contacts) (occupied t.contacts) first more legal
    ∙ direct_run-protocol t actions (touch_kept ∙ e)
