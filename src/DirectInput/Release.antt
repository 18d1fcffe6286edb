-- ===== src/DirectInput/Release.antt =====
-- Releasing an output in direct_input.c ends what it holds, and nothing of another output.
use magicdesk_x.Prelude.{
  ℕ, suc, ◌+◌, ◌∙◌, sym, ap, some, ◌++◌, ◌≡◌, refl, ◌≢◌, inl, inr, Bool, true, false, not, ◌&&◌,
  ◌||◌, List, [], ◌∷◌, arith, ◌==◌, if◌then◌else◌, Bool-cases,
}
use magicdesk_x.Prelude.Bits.{has_bit}
use magicdesk_x.DirectInput.{
  no_contact, no_tablet, DeviceEvent, Contact, Tablet, DirectInput, any_contact,
  direct_input_pressed, tablet_released, release_contacts, release_tool, direct_input_release,
}
use magicdesk_x.DirectInput.Contacts.{occupied, touch_replay}
use magicdesk_x.DirectInput.Runs.{direct_input_release-IsTouchStep}
use magicdesk_x.DirectInput.Held.{
  held, tool_replay, tool_replay-append, release_contacts-IsForeign, release_tool-IsForeign,
  release_tool-held,
}

released_none :
    (device : Bool) (output i : ℕ) (contacts : List Contact)
    → output ≢ 0
    → any_contact output (release_contacts device output i contacts).0 ≡ false
unfolding any_contact release_contacts
released_none device output i [] o = refl
released_none device output i (c ∷ contacts) o =
    let rest = released_none device output (i + 1) contacts o in
    elim (Bool-cases (c.output == output && not (output == 0))) [
      | inl e ↦ rw (e, rest) (ground arith)
      | inr e ↦ rw (e, rest) (ground arith)
    ]

released_others :
    (device : Bool) (output other i : ℕ) (contacts : List Contact)
    → other ≢ 0
    → other ≢ output
    → any_contact other (release_contacts device output i contacts).0 ≡ any_contact other contacts
unfolding any_contact release_contacts
released_others device output other i [] o n = refl
released_others device output other i (c ∷ contacts) o n =
    let rest = released_others device output other (i + 1) contacts o n in
    elim (Bool-cases (c.output == output && not (output == 0))) [
      | inl e ↦ rw (e, rest) (ground arith)
      | inr e ↦ rw (e, rest)
    ]

-- Whether a tool is down on an output.
abbrev tip_down : Tablet → ℕ → Bool
tip_down t output = t.output == output && has_bit t.buttons 0

tool_none :
    (tool device : Bool) (output : ℕ) (t : Tablet)
    → output ≢ 0
    → tip_down (release_tool tool device output t).0 output ≡ false
unfolding tablet_released
tool_none tool device output t o = elim (Bool-cases (t.output == output && not (output == 0))) [
  | inl e ↦ rw e (ground arith)
  | inr e ↦ rw e (ground arith)
]

tool_others :
    (tool device : Bool) (output other : ℕ) (t : Tablet)
    → other ≢ 0
    → other ≢ output
    → tip_down (release_tool tool device output t).0 other ≡ tip_down t other
unfolding tablet_released
tool_others tool device output other t o n =
    elim (Bool-cases (t.output == output && not (output == 0))) [
      | inl e ↦ rw e (ground arith)
      | inr e ↦ rw e
    ]

none_down :
    (z a b c : Bool)
    → (z ≡ false → a ≡ false)
    → (z ≡ false → b ≡ false)
    → (z ≡ false → c ≡ false)
    → (if z then false else (a || (b || c))) ≡ false
none_down true a b c p q r = refl
none_down false a b c p q r = rw (p refl, q refl, r refl)

same_down :
    (z a b c a' b' c' : Bool)
    → (z ≡ false → a ≡ a')
    → (z ≡ false → b ≡ b')
    → (z ≡ false → c ≡ c')
    → (if z then false else (a || (b || c))) ≡ (if z then false else (a' || (b' || c')))
same_down true a b c a' b' c' p q r = refl
same_down false a b c a' b' c' p q r = rw (p refl, q refl, r refl)

nonzero : (n : ℕ) → (n == 0) ≡ false → n ≢ 0
nonzero n h = ground arith

pub direct_input_release-pressed :
    (s : DirectInput) (output other : ℕ)
    → other ≢ output
    → let t = (direct_input_release s output).0 in
      direct_input_pressed t output ≡ false
      × direct_input_pressed t other ≡ direct_input_pressed s other
unfolding direct_input_release direct_input_pressed
direct_input_release-pressed s output other n =
    let d = s.devices in
    (
      none_down (output == 0) _ _ _
          (λ z. released_none d.touch output 0 s.contacts (nonzero output z))
          (λ z. tool_none false d.pen output s.pen (nonzero output z))
          (λ z. tool_none true d.eraser output s.eraser (nonzero output z)),
      same_down (other == 0) _ _ _ _ _ _
          (λ z. released_others d.touch output other 0 s.contacts (nonzero other z) n)
          (λ z. tool_others false d.pen output other s.pen (nonzero other z) n)
          (λ z. tool_others true d.eraser output other s.eraser (nonzero other z) n),
    )

-- A contact of an output is none after its release, and any other is as it was.
abbrev pub without_output : ℕ → List Contact → List Contact
without_output output [] = []
without_output output (c ∷ contacts) =
    (if c.output == output then no_contact else c) ∷ without_output output contacts

-- What a release of an output makes of the state, and of the devices of the X server by its events: the
-- contacts and the tools of the output are free, and all others as they were; and the X server holds just
-- these touches and tools.
pub record IsReleased (s : DirectInput) (output : ℕ) (t : DirectInput) (events : List DeviceEvent)
    : Type 0 where
  pub contacts : t.contacts ≡ without_output output s.contacts
  pub pen : t.pen ≡ (if s.pen.output == output then no_tablet else s.pen)
  pub eraser : t.eraser ≡ (if s.eraser.output == output then no_tablet else s.eraser)
  pub devices : t.devices ≡ s.devices
  pub touches : touch_replay (occupied s.contacts) events ≡ some (occupied t.contacts)
  pub pens : tool_replay false (held s.pen) events ≡ some (held t.pen)
  pub erasers : tool_replay true (held s.eraser) events ≡ some (held t.eraser)
  pub pressed :
      (other : ℕ)
      → direct_input_pressed t other
        ≡ (if other == output then false else direct_input_pressed s other)

pressed_after :
    (s : DirectInput) (output other : ℕ)
    → direct_input_pressed (direct_input_release s output).0 other
      ≡ (if other == output then false else direct_input_pressed s other)
pressed_after s output other = elim (Bool-cases (other == output)) [
  | inl e ↦
      let same : output ≡ other = ground arith in
      rw e (
        ap (λ k. direct_input_pressed (direct_input_release s output).0 k) (sym same)
        ∙ (direct_input_release-pressed s output (suc output) (λ k. absurd (omega arith))).0)
  | inr e ↦
      let apart : other ≢ output = ground arith in
      rw e (direct_input_release-pressed s output other apart).1
]

zero_test : (n : ℕ) → n ≢ 0 → (n == 0) ≡ false
zero_test n h = ground arith

release_contacts-without :
    (device : Bool) (output i : ℕ) (contacts : List Contact)
    → output ≢ 0
    → (release_contacts device output i contacts).0 ≡ without_output output contacts
unfolding release_contacts
release_contacts-without device output i [] o = refl
release_contacts-without device output i (c ∷ contacts) o =
    let rest = release_contacts-without device output (i + 1) contacts o in
    elim (Bool-cases (c.output == output)) [
      | inl e ↦ rw (e, zero_test output o, rest) refl
      | inr e ↦ rw (e, rest) refl
    ]

release_tool-without :
    (tool device : Bool) (output : ℕ) (t : Tablet)
    → output ≢ 0
    → (release_tool tool device output t).0 ≡ (if t.output == output then no_tablet else t)
unfolding tablet_released
release_tool-without tool device output t o = elim (Bool-cases (t.output == output)) [
  | inl e ↦ rw (e, zero_test output o) refl
  | inr e ↦ rw e refl
]

-- The release of an output, while all the devices exist: its contacts and tools are free, and all others
-- are as they were. The events end, for the X server, each touch of the output, let go each button of a
-- tool of the output that is down and take the tool away, each as the X server can take it, and leave
-- it all other touches, tools and buttons. No touch and no tip is down on the output then, and on every
-- other output just those that were.
pub direct_input_release-IsReleased :
    (s : DirectInput) (output : ℕ)
    → output ≢ 0
    → s.devices.touch ≡ true
    → s.devices.pen ≡ true
    → s.devices.eraser ≡ true
    → IsReleased s output (direct_input_release s output).0 (direct_input_release s output).1
unfolding direct_input_release
direct_input_release-IsReleased s output o a b c =
    let d = s.devices in
    let touches = (release_contacts d.touch output 0 s.contacts).1 in
    let (pen, pens) = release_tool false d.pen output s.pen in
    let (eraser, erasers) = release_tool true d.eraser output s.eraser in
    let of_pen = release_contacts-IsForeign false d.touch output 0 s.contacts in
    let of_eraser = release_contacts-IsForeign true d.touch output 0 s.contacts in
    record {
      contacts = release_contacts-without d.touch output 0 s.contacts o;
      pen = release_tool-without false d.pen output s.pen o;
      eraser = release_tool-without true d.eraser output s.eraser o;
      devices = refl;
      touches = (direct_input_release-IsTouchStep s output a).0;
      pens =
          tool_replay-append false (held s.pen) (held s.pen) touches (pens ++ erasers)
            (of_pen (held s.pen))
          ∙ (tool_replay-append false (held s.pen) (held pen) pens erasers
                (release_tool-held false d.pen output s.pen b)
              ∙ release_tool-IsForeign true d.eraser output s.eraser (held pen));
      erasers =
          tool_replay-append true (held s.eraser) (held s.eraser) touches (pens ++ erasers)
            (of_eraser (held s.eraser))
          ∙ (tool_replay-append true (held s.eraser) (held s.eraser) pens erasers
                (release_tool-IsForeign false d.pen output s.pen (held s.eraser))
              ∙ release_tool-held true d.eraser output s.eraser c);
      pressed = λ other. pressed_after s output other;
    }
