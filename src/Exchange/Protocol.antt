-- ===== src/Exchange/Protocol.antt =====
-- The XDND messages to the target of a drag, read as a protocol: what the messages sent say about the
-- drag is what the bridge's variables say.
use magicdesk_x.Prelude.{
  ==_refl, ℕ, ◌≡◌, refl, sym, ap, ◌∙◌, inl, inr, Bool, true, false, not, ◌&&◌, Option, none, some,
  List, [], ◌∷◌, ◌++◌, ◌==◌, if◌then◌else◌, Bool-cases, if-both, not-true,
}
use magicdesk_x.Prelude.Int.{ℤ}
use magicdesk_x.Exchange.{
  DragMove, DragState, DataState, XdndMessage, xdnd_enter, xdnd_position, xdnd_leave, xdnd_drop,
  xdnd_status, xdnd_finished, DataEffect, emitted, client_message, selection_notify,
  selection_request, change_chunk, change_words, write_file, delete_property, queue_work,
  own_selection, free_window, configure_window, pointer_motion, release_button, close_file,
  DataOutcome, ◌|>◌, DataEnv, Transfer,
}
use magicdesk_x.Exchange.Drag.{
  with_drag, leave_message, retarget, positioned, drag_over, window_under, move_drag, reject_drag,
  drop_now, drop_later, drop_drag, drag_data_pending, revised, drop_resumed, no_drag_data,
  selection_finished,
}

-- Where the drag is: over no target, over one that has been entered and has accepted or not, or waiting
-- for its answer to a position. The first number is the window that the messages go to.
pub data Phase : Type 0 where
  away : Phase
  over waiting : ℕ → ℕ → Bool → Phase

abbrev same_target : ℕ → ℕ → ℕ → ℕ → Phase → Option Phase
same_target p t destination window q = if p == destination && t == window then some q else none

-- The messages that are legal, and what follows.
abbrev entered : ℕ → ℕ → Phase → Option Phase
entered destination window away = some (over destination window false)
entered destination window (over p t a) = none
entered destination window (waiting p t a) = none

abbrev moved : ℕ → ℕ → Phase → Option Phase
moved destination window away = none
moved destination window (over p t a) = same_target p t destination window (waiting p t a)
moved destination window (waiting p t a) = none

abbrev left : ℕ → ℕ → Phase → Option Phase
left destination window away = none
left destination window (over p t a) = same_target p t destination window away
left destination window (waiting p t a) = same_target p t destination window away

abbrev dropped : ℕ → ℕ → Phase → Option Phase
dropped destination window away = none
dropped destination window (over p t true) = same_target p t destination window (over p t true)
dropped destination window (over p t false) = none
dropped destination window (waiting p t a) = none

abbrev follow_message : XdndMessage → ℕ → ℕ → Phase → Option Phase
follow_message xdnd_enter destination window p = entered destination window p
follow_message xdnd_position destination window p = moved destination window p
follow_message xdnd_leave destination window p = left destination window p
follow_message xdnd_drop destination window p = dropped destination window p
follow_message xdnd_status destination window p = some p
follow_message xdnd_finished destination window p = some p

-- All effects but the messages of a source are without effect on the drag.
abbrev pub follow : DataEffect → Phase → Option Phase
follow (client_message sent destination window kind a b c d e) p =
    follow_message kind destination window p
follow (emitted o c s g t fd out win x) p = some p
follow (selection_notify sent t property) p = some p
follow (selection_request owner requestor channel target property) p = some p
follow (change_chunk window property kind offset count) p = some p
follow (change_words window property kind words) p = some p
follow (write_file fd offset bytes) p = some p
follow (delete_property window property) p = some p
follow (queue_work n ticket) p = some p
follow (own_selection channel) p = some p
follow (free_window window) p = some p
follow (configure_window window) p = some p
follow pointer_motion p = some p
follow (release_button output window) p = some p
follow (close_file fd) p = some p

abbrev pub replay_rest : Option Phase → (Phase → Option Phase) → Option Phase
replay_rest none rest = none
replay_rest (some q) rest = rest q

-- The phase after a list of effects, if all of them are legal.
unfoldable pub replay : List DataEffect → Phase → Option Phase
replay [] p = some p
replay (effect ∷ effects) p = replay_rest (follow effect p) (λ q. replay effects q)

-- The phase that the variables say.
abbrev pub phase_of : DragState → Phase
phase_of d =
    if d.target == 0
    then away
    else if d.position_pending
    then waiting d.proxy d.target d.accepted
    else over d.proxy d.target d.accepted

rest_of :
    (o : Option Phase) (f g : Phase → Option Phase) (z : Option Phase) (q : Phase)
    → ((r : Phase) → f r ≡ some q → g r ≡ z)
    → replay_rest o f ≡ some q
    → replay_rest o g ≡ z
rest_of none f g z q k h = absurd cc
rest_of (some r) f g z q k h = k r h

pub replay-append :
    (first second : List DataEffect) (p q : Phase)
    → replay first p ≡ some q
    → replay (first ++ second) p ≡ replay second q
unfolding replay
replay-append [] second p q h = ap (λ (o : Option Phase). replay_rest o (λ r. replay second r)) h
replay-append (effect ∷ effects) second p q h =
    rest_of (follow effect p) (λ r. replay effects r) (λ r. replay (effects ++ second) r)
      (replay second q) q (λ r k. replay-append effects second r q k) h

-- The messages and the variables of an operation on the drag agree.
abbrev Agree : Phase → DragState × List DataEffect → Type 0
Agree p (d, effects) = replay effects p ≡ some (phase_of d)

left_away :
    (p t : ℕ) (a pending : Bool)
    → replay_rest (left p t (if pending then waiting p t a else over p t a)) (λ q. some q)
      ≡ some away
left_away p t a true = rw (==_refl p, ==_refl t) refl
left_away p t a false = rw (==_refl p, ==_refl t) refl

pub leave_message-away :
    (env : DataEnv) (d : DragState) → replay (leave_message env d) (phase_of d) ≡ some away
unfolding replay
leave_message-away env d = elim (Bool-cases (d.target == 0)) [
  | inl e ↦ rw e refl
  | inr e ↦ rw e (left_away d.proxy d.target d.accepted d.position_pending)
]

retarget-Agree :
    (env : DataEnv) (targets : List ℕ) (next : ℕ) (d : DragState)
    → Agree (phase_of d) (retarget env targets next d)
unfolding replay
retarget-Agree env targets next d =
    let gone = leave_message-away env d in
    if-both (Agree (phase_of d)) (next == d.target) _ _ (λ e. refl)
      (λ e. elim (Bool-cases (next == 0)) [
        | inl z ↦ rw z (replay-append (leave_message env d) [] (phase_of d) away gone)
        | inr z ↦ rw z (replay-append (leave_message env d) _ (phase_of d) away gone)
      ])

retarget-idle :
    (env : DataEnv) (targets : List ℕ) (next : ℕ) (d : DragState)
    → d.position_pending ≡ false
    → (retarget env targets next d).0.position_pending ≡ false
retarget-idle env targets next d h =
    if-both (λ (o : DragState × List DataEffect). o.0.position_pending ≡ false) (next == d.target) _
      _ (λ e. h) (λ e. refl)

position_told :
    (p t : ℕ) (a : Bool) → replay_rest (moved p t (over p t a)) (λ q. some q) ≡ some (waiting p t a)
position_told p t a = rw (==_refl p, ==_refl t) refl

positioned-Agree :
    (env : DataEnv) (x y : ℤ) (d : DragState)
    → d.position_pending ≡ false
    → Agree (phase_of d) (positioned env x y d)
unfolding replay
positioned-Agree env x y d h =
    if-both (Agree (phase_of d)) (d.target == 0) _ _ (λ e. refl)
      (λ e. rw (e, h) (position_told d.proxy d.target d.accepted))

pub drag_over-Agree :
    (env : DataEnv) (targets : List ℕ) (next output : ℕ) (x y : ℤ) (d : DragState)
    → d.position_pending ≡ false
    → Agree (phase_of d) (drag_over env targets next output x y d)
unfolding drag_over
drag_over-Agree env targets next output x y d h =
    let (e, told) = retarget env targets next d in
    let f : DragState = record (retarget env targets next d).0 { output = output } in
    replay-append (retarget env targets next d).1 (positioned env x y f).1 (phase_of d) (phase_of f)
      (retarget-Agree env targets next d)
    ∙ positioned-Agree env x y f (retarget-idle env targets next d h)

-- The same of an operation on the whole state.
abbrev pub Agrees : Phase → DataOutcome → Type 0
Agrees p (s, effects) = replay effects p ≡ some (phase_of s.drag)

pub then-Agrees :
    (p : Phase) (o : DataOutcome) (next : DataState → DataOutcome)
    → Agrees p o
    → Agrees (phase_of o.0.drag) (next o.0)
    → Agrees p (o |> next)
then-Agrees p (s, effects) next h k = replay-append effects (next s).1 p (phase_of s.drag) h ∙ k

pub move_drag-Agrees :
    (env : DataEnv) (s : DataState) (move : DragMove)
    → Agrees (phase_of s.drag) (move_drag env s move)
unfolding move_drag replay
move_drag-Agrees env s move =
    let d : DragState = record s.drag { move = move } in
    if-both (Agrees (phase_of s.drag)) d.position_pending _ _ (λ e. refl)
      (λ e.
        elim (env.point move.output move.window move.x move.y)
          as (λ o. Agrees (phase_of s.drag) (elim o [
            | none ↦ (with_drag s d, [])
            | some (tree, x, y) ↦
                let (e, effects) =
                  drag_over env s.drag_offer.targets (window_under env s tree x y) move.output x y
                    d in
                (with_drag s e, effects)
          ])) [
            | none ↦ refl
            | some (tree, x, y) ↦
                drag_over-Agree env s.drag_offer.targets (window_under env s tree x y) move.output x
                  y d e
          ])

pub reject_drag-Agrees :
    (env : DataEnv) (s : DataState) → Agrees (phase_of s.drag) (reject_drag env s)
unfolding reject_drag replay
reject_drag-Agrees env s =
    replay-append (leave_message env s.drag) _ (phase_of s.drag) away
      (leave_message-away env s.drag)

drop_told :
    (p t : ℕ) → replay_rest (dropped p t (over p t true)) (λ q. some q) ≡ some (over p t true)
drop_told p t = rw (==_refl p, ==_refl t) refl

and_true : (a b : Bool) → (a && b) ≡ true → (a ≡ true) × (b ≡ true)
and_true true b h = (refl, h)
and_true false b h = absurd cc

drop_now-Agrees :
    (env : DataEnv) (s : DataState)
    → s.drag.position_pending ≡ false
    → Agrees (phase_of s.drag) (drop_now env s)
unfolding drop_now replay
drop_now-Agrees env s h =
    let d = s.drag in
    if-both (Agrees (phase_of d)) (not (d.target == 0) && d.accepted) _ _
      (λ e.
        let (t, a) = and_true (not (d.target == 0)) d.accepted e in
        rw (not-true (d.target == 0) t, h, a) (drop_told d.proxy d.target))
      (λ e. reject_drag-Agrees env s)

pub drop_drag-Agrees : (env : DataEnv) (s : DataState) → Agrees (phase_of s.drag) (drop_drag env s)
unfolding drop_drag replay
drop_drag-Agrees env s =
    let d = s.drag in
    let P = Agrees (phase_of d) in
    if-both P d.position_pending _ _ (λ e. refl)
      (λ e.
        if-both P (not (d.target == 0) && not d.accepted) _ _
          (λ f.
            if-both P (drag_data_pending s.drag_offer.generation s.transfers) _ _ (λ g. refl)
              (λ g.
                if-both P (not (d.data_revision == d.position_data_revision)) _ _
                  (λ h. move_drag-Agrees env (drop_later s) d.move) (λ h. drop_now-Agrees env s e)))
          (λ f. drop_now-Agrees env s e))

revised_phase : (success : Bool) (d : DragState) → phase_of (revised success d) ≡ phase_of d
revised_phase true d = refl
revised_phase false d = refl

drop_resumed-Agrees :
    (env : DataEnv) (s : DataState) (success : Bool)
    → Agrees (phase_of s.drag) (drop_resumed env s success)
unfolding drop_resumed replay
drop_resumed-Agrees env s success =
    let P = Agrees (phase_of s.drag) in
    if-both P (not s.drag.drop_pending) _ _ (λ e. refl)
      (λ e. if-both P success _ _ (λ f. drop_drag-Agrees env s) (λ f. reject_drag-Agrees env s))

pub selection_finished-Agrees :
    (env : DataEnv) (s : DataState) (t : Transfer) (success : Bool)
    → Agrees (phase_of s.drag) (selection_finished env s t success)
unfolding selection_finished replay
selection_finished-Agrees env s t success =
    let u = with_drag s (revised success s.drag) in
    if-both (Agrees (phase_of s.drag)) (no_drag_data s t) _ _ (λ e. refl)
      (λ e. rw (sym (revised_phase success s.drag)) (drop_resumed-Agrees env u success))
