-- ===== src/Window/State/Laws.antt =====
-- What the two sides of a state negotiation can rely on.
use magicdesk_x.Prelude.{
  ℕ, ◌+◌, ◌≤◌, ◌<◌, ◌≡◌, refl, ◌≢◌, ◌↔◌, Bool, true, false, not, ◌&&◌, List, [], ◌∷◌, arith, ltb,
  ◌==◌, if◌then◌else◌,
}
use magicdesk_x.Prelude.Bits.{has_bit}
use magicdesk_x.Prelude.Bits.{holds_below, holds_at_pair, beqb, beqb→eq}
use magicdesk_x.Window.State.{
  u32_mod, sub32, next_serial, FullscreenState, fullscreen_request, fullscreen_confirm,
  MaximizedState, foreign_axes, axes_after, maximized_request, activation_timestamp,
}

pub next_serial_lem :
    (serial : ℕ)
    → serial < u32_mod
    → (0 < next_serial serial) × (next_serial serial < u32_mod) × (next_serial serial ≢ serial)
next_serial_lem serial h = ground arith

-- A reply that carries the serial from before an accepted request changes nothing, so the host
-- cannot overwrite a newer request by answering an older one; a reply with the request's own serial
-- is accepted and settles both the requested and the actual state.
pub fullscreen_confirm-stale :
    (s : FullscreenState) (action : ℕ) (reply : Bool)
    → s.serial < u32_mod
    → action ≤ 2
    → let asked = (fullscreen_request s action).0 in
      (fullscreen_confirm asked s.serial reply ≡ (asked, false))
      × (fullscreen_confirm asked asked.serial reply
          ≡ (record asked { requested = reply; actual = reply }, true))
unfolding fullscreen_request fullscreen_confirm
fullscreen_confirm-stale s action reply h a = ground (arith, next_serial_lem s.serial h)

-- The requests of a client, one after the other, with no reply in between.
abbrev pub fullscreen_requests : FullscreenState → List ℕ → FullscreenState
fullscreen_requests s [] = s
fullscreen_requests s (a ∷ actions) = fullscreen_requests (fullscreen_request s a).0 actions

-- What a sequence of remove (0), add (1) and toggle (2) requests asks for; other codes ask nothing.
abbrev pub composed : Bool → List ℕ → Bool
composed b [] = b
composed b (a ∷ actions) =
    composed (if ltb 2 a then b else if a == 2 then not b else a == 1) actions

-- Requests compose against the latest request whatever reply is outstanding: after any sequence of
-- them the requested state is the fold of the actions, and the actual state has not moved.
fullscreen_requests-compose :
    (actions : List ℕ) (s : FullscreenState)
    → ((fullscreen_requests s actions).requested ≡ composed s.requested actions)
      × ((fullscreen_requests s actions).actual ≡ s.actual)
unfolding fullscreen_request
fullscreen_requests-compose [] s = (refl, refl)
fullscreen_requests-compose (a ∷ actions) s =
    ground (arith, fullscreen_requests-compose actions (fullscreen_request s a).0)

-- An activation is granted only for a request that lies, on the circle of 32-bit timestamps, between
-- the input event and now, with no more than ten seconds from the input to now; and every request of
-- that kind with real timestamps is granted.
pub activation_timestamp_iff :
    (requested input now : ℕ)
    → requested < u32_mod
    → input < u32_mod
    → now < u32_mod
    → (activation_timestamp requested input now ≡ true) ↔ (
        (0 < requested)
        × (0 < input)
        × (sub32 requested input + sub32 now requested ≡ sub32 now input)
        × (sub32 now input ≤ 10000))
unfolding activation_timestamp
activation_timestamp_iff requested input now a b c = (λ h. ground arith, λ h. ground arith)

axis_wanted : ℕ → ℕ → ℕ → ℕ → Bool
axis_wanted requested action axes j =
    if has_bit axes j
    then (if action == 2 then not (has_bit requested j) else action == 1)
    else has_bit requested j

axis_right : ℕ → ℕ → ℕ → ℕ → Bool
axis_right action j requested axes =
    beqb (has_bit (axes_after requested action axes) j) (axis_wanted requested action axes j)
    && (ltb (axes_after requested action axes) 4 && not (foreign_axes axes))

axis_table :
    holds_below 3
      (λ action. holds_below 2 (λ j. holds_below 4 (λ r. holds_below 4 (axis_right action j r))))
    ≡ true
unfolding holds_below axis_right axis_wanted
axis_table = refl

axis_right_lem :
    (action j r axes : ℕ)
    → action < 3
    → j < 2
    → r < 4
    → axes < 4
    → axis_right action j r axes ≡ true
axis_right_lem action j r axes ha hj hr hx =
    holds_at_pair 4 4 (axis_right action j)
      (holds_at_pair 3 2 (λ action j. holds_below 4 (λ r. holds_below 4 (axis_right action j r)))
        axis_table action j ha hj)
      r axes hr hx

-- A valid request for some of the two axes acts on each axis alone: a named axis is cleared, set or
-- toggled by the action, an axis that is not named keeps what was requested, and no other bit is set.
maximized_request-axes :
    (s : MaximizedState) (action axes j : ℕ)
    → s.requested < 4
    → action ≤ 2
    → 0 < axes
    → axes < 4
    → j < 2
    → let (t, accepted) = maximized_request s action axes in
      (accepted ≡ true)
      × (has_bit t.requested j ≡ (
          if has_bit axes j
          then (if action == 2 then not (has_bit s.requested j) else action == 1)
          else has_bit s.requested j))
      × (t.requested < 4)
      × (t.actual ≡ s.actual)
unfolding maximized_request axis_right axis_wanted
maximized_request-axes s action axes j r a z x h = ground (
  arith,
  axis_right_lem action j s.requested axes,
  beqb→eq (has_bit (axes_after s.requested action axes) j) (axis_wanted s.requested action axes j),
)
