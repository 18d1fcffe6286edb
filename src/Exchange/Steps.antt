-- ===== src/Exchange/Steps.antt =====
-- What the operations on transfers keep: the phase of the drag agrees with the messages sent, the size of
-- a transfer is limited, and an offer has a limited number of targets.
use magicdesk_x.Prelude.{
  ℕ, ◌≤◌, ◌≡◌, refl, ◌∙◌, Bool, false, not, ◌&&◌, Option, none, some, List, [], ◌∷◌, ◌++◌, arith,
  ◌==◌, if-both, length, All, All-set, get_or-All,
}
use magicdesk_x.Exchange.{
  max_bytes, max_targets, Transfer, DragMove, DragState, DataState, DataEffect, free_window,
  DataOutcome, ◌|>◌, DataEnv,
}
use magicdesk_x.Exchange.Drag.{
  with_drag, move_drag, drop_drag, drop_now, drop_later, reject_drag, drop_resumed, revised,
  no_drag_data, selection_finished, drag_over, window_under, drag_data_pending,
}
use magicdesk_x.Exchange.Transfers.{
  no_transfer, transfer_at, put_transfer, close_some, released_transfer, released_effects, release,
  failure_told, end_transfer, fail, expired,
}
use magicdesk_x.Exchange.Protocol.{
  Phase, phase_of, replay, replay-append, Agrees, then-Agrees, move_drag-Agrees, drop_drag-Agrees,
  selection_finished-Agrees,
}

abbrev pub IsSized : Transfer → Type 0
IsSized t = t.size ≤ max_bytes

abbrev pub IsBounded : DataState → Type 0
IsBounded s =
    All IsSized s.transfers
    × ((length s.clipboard_offer.targets ≤ max_targets)
        × (length s.drag_offer.targets ≤ max_targets))

-- The operations that change nothing but the drag.
abbrev SameBounds : DataState → DataOutcome → Type 0
SameBounds s o = IsBounded s → IsBounded o.0

move_drag-SameBounds :
    (env : DataEnv) (s : DataState) (move : DragMove) → SameBounds s (move_drag env s move)
unfolding move_drag
move_drag-SameBounds env s move =
    let d : DragState = record s.drag { move = move } in
    if-both (SameBounds s) d.position_pending _ _ (λ e. λ b. b)
      (λ e.
        elim (env.point move.output move.window move.x move.y)
          as (λ o. SameBounds s (elim o [
            | none ↦ (with_drag s d, [])
            | some (tree, x, y) ↦
                let (e, effects) =
                  drag_over env s.drag_offer.targets (window_under env s tree x y) move.output x y
                    d in
                (with_drag s e, effects)
          ])) [ none ↦ λ b. b | some (tree, x, y) ↦ λ b. b ])

drop_now-SameBounds : (env : DataEnv) (s : DataState) → SameBounds s (drop_now env s)
unfolding drop_now reject_drag
drop_now-SameBounds env s =
    if-both (SameBounds s) (not (s.drag.target == 0) && s.drag.accepted) _ _ (λ e. λ b. b)
      (λ e. λ b. b)

drop_drag-SameBounds : (env : DataEnv) (s : DataState) → SameBounds s (drop_drag env s)
unfolding drop_drag
drop_drag-SameBounds env s =
    let d = s.drag in
    let P = SameBounds s in
    if-both P d.position_pending _ _ (λ e. λ b. b)
      (λ e.
        if-both P (not (d.target == 0) && not d.accepted) _ _
          (λ f.
            if-both P (drag_data_pending s.drag_offer.generation s.transfers) _ _ (λ g. λ b. b)
              (λ g.
                if-both P (not (d.data_revision == d.position_data_revision)) _ _
                  (λ h. move_drag-SameBounds env (drop_later s) d.move)
                  (λ h. drop_now-SameBounds env s)))
          (λ f. drop_now-SameBounds env s))

drop_resumed-SameBounds :
    (env : DataEnv) (s : DataState) (success : Bool) → SameBounds s (drop_resumed env s success)
unfolding drop_resumed reject_drag
drop_resumed-SameBounds env s success =
    let P = SameBounds s in
    if-both P (not s.drag.drop_pending) _ _ (λ e. λ b. b)
      (λ e. if-both P success _ _ (λ f. drop_drag-SameBounds env s) (λ f. λ b. b))

-- An operation keeps both.
pub record IsStep (s : DataState) (o : DataOutcome) : Type 0 where
  pub agrees : Agrees (phase_of s.drag) o
  pub bounds : IsBounded s → IsBounded o.0

pub then-IsStep :
    (s : DataState) (o : DataOutcome) (next : DataState → DataOutcome)
    → IsStep s o
    → IsStep o.0 (next o.0)
    → IsStep s (o |> next)
then-IsStep s (u, effects) next h k = record {
  agrees = then-Agrees (phase_of s.drag) (u, effects) next h.agrees k.agrees;
  bounds = λ v. k.bounds (h.bounds v);
}

-- The same of a state with the same drag.
pub from-IsStep :
    (s u : DataState) (o : DataOutcome)
    → s.drag ≡ u.drag
    → (IsBounded s → IsBounded u)
    → IsStep u o
    → IsStep s o
from-IsStep s u o e k h = record { agrees = rw e h.agrees; bounds = λ v. h.bounds (k v) }

pub move_drag-IsStep :
    (env : DataEnv) (s : DataState) (move : DragMove) → IsStep s (move_drag env s move)
move_drag-IsStep env s move = record {
  agrees = move_drag-Agrees env s move;
  bounds = move_drag-SameBounds env s move;
}

pub drop_drag-IsStep : (env : DataEnv) (s : DataState) → IsStep s (drop_drag env s)
drop_drag-IsStep env s = record {
  agrees = drop_drag-Agrees env s;
  bounds = drop_drag-SameBounds env s;
}

selection_finished-SameBounds :
    (env : DataEnv) (s : DataState) (t : Transfer) (success : Bool)
    → SameBounds s (selection_finished env s t success)
unfolding selection_finished
selection_finished-SameBounds env s t success =
    if-both (SameBounds s) (no_drag_data s t) _ _ (λ e. λ b. b)
      (λ e. drop_resumed-SameBounds env (with_drag s (revised success s.drag)) success)

pub selection_finished-IsStep :
    (env : DataEnv) (s : DataState) (t : Transfer) (success : Bool)
    → IsStep s (selection_finished env s t success)
selection_finished-IsStep env s t success = record {
  agrees = selection_finished-Agrees env s t success;
  bounds = selection_finished-SameBounds env s t success;
}

-- Effects that say nothing about the drag.
pub record IsQuiet (effects : List DataEffect) : Type 0 where
  pub quiet : (p : Phase) → replay effects p ≡ some p

pub append-IsQuiet :
    (first second : List DataEffect) → IsQuiet first → IsQuiet second → IsQuiet (first ++ second)
append-IsQuiet first second h k = record {
  quiet = λ p. replay-append first second p p (h.quiet p) ∙ k.quiet p;
}

pub close_some-IsQuiet : (fd : Option ℕ) → IsQuiet (close_some fd)
unfolding replay
close_some-IsQuiet none = record { quiet = λ p. refl }
close_some-IsQuiet (some fd) = record { quiet = λ p. refl }

-- Quiet effects and a transfer that is written back.
pub put_transfer-IsBounded :
    (s : DataState) (n : ℕ) (t : Transfer)
    → IsSized t
    → IsBounded s
    → IsBounded (put_transfer s n t)
put_transfer-IsBounded s n t h (a, b) = (All-set IsSized s.transfers n t h a, b)

pub transfer_at-IsSized : (s : DataState) (n : ℕ) → IsBounded s → IsSized (transfer_at s n)
transfer_at-IsSized s n (a, b) = get_or-All IsSized s.transfers n no_transfer (omega arith) a

pub quiet-IsStep :
    (s : DataState) (effects : List DataEffect) → IsQuiet effects → IsStep s (s, effects)
quiet-IsStep s effects h = record { agrees = h.quiet (phase_of s.drag); bounds = λ b. b }

pub put-IsStep :
    (s : DataState) (n : ℕ) (t : Transfer) (effects : List DataEffect)
    → (IsBounded s → IsSized t)
    → IsQuiet effects
    → IsStep s (put_transfer s n t, effects)
put-IsStep s n t effects k h = record {
  agrees = h.quiet (phase_of s.drag);
  bounds = λ b. put_transfer-IsBounded s n t (k b) b;
}

released_effects-IsQuiet : (t : Transfer) → IsQuiet (released_effects t)
unfolding replay
released_effects-IsQuiet t = append-IsQuiet (close_some t.fd) _ (close_some-IsQuiet t.fd) (
    if-both IsQuiet (t.incoming && not (t.requestor == 0)) (free_window t.requestor ∷ []) []
      (λ f. record { quiet = λ p. refl }) (λ f. record { quiet = λ p. refl }))

-- An operation that leaves the drag alone.
pub record IsSilent (s : DataState) (o : DataOutcome) : Type 0 where
  pub told : IsQuiet o.1
  pub same_drag : s.drag ≡ o.0.drag
  pub bounds : IsBounded s → IsBounded o.0

pub silent-IsStep : (s : DataState) (o : DataOutcome) → IsSilent s o → IsStep s o
silent-IsStep s (u, effects) h =
    from-IsStep s u (u, effects) h.same_drag h.bounds (quiet-IsStep u effects h.told)

pub then-IsSilent :
    (s : DataState) (o : DataOutcome) (next : DataState → DataOutcome)
    → IsSilent s o
    → IsSilent o.0 (next o.0)
    → IsSilent s (o |> next)
then-IsSilent s (u, effects) next h k = record {
  told = append-IsQuiet effects (next u).1 h.told k.told;
  same_drag = h.same_drag ∙ k.same_drag;
  bounds = λ b. k.bounds (h.bounds b);
}

pub nothing-IsSilent : (s : DataState) → IsSilent s (s, [])
unfolding replay
nothing-IsSilent s = record {
  told = record { quiet = λ p. refl };
  same_drag = refl;
  bounds = λ b. b;
}

pub release-IsSilent : (s : DataState) (n : ℕ) → IsSilent s (release s n)
unfolding release
release-IsSilent s n =
    let t = transfer_at s n in
    let u = put_transfer s n (released_transfer t) in
    if-both (IsSilent s) t.used (u, released_effects t) (s, [])
      (λ e. record {
        told = released_effects-IsQuiet t;
        same_drag = refl;
        bounds =
            λ b. put_transfer-IsBounded s n (released_transfer t) (transfer_at-IsSized s n b) b;
      })
      (λ e. nothing-IsSilent s)

pub release-IsStep : (s : DataState) (n : ℕ) → IsStep s (release s n)
release-IsStep s n = silent-IsStep s (release s n) (release-IsSilent s n)

pub end_transfer-IsStep :
    (env : DataEnv) (s : DataState) (n : ℕ) (success : Bool)
    → IsStep s (end_transfer env s n success)
unfolding end_transfer
end_transfer-IsStep env s n success =
    then-IsStep s (release s n) (λ u. selection_finished env u (transfer_at s n) success)
      (release-IsStep s n) (selection_finished-IsStep env (release s n).0 (transfer_at s n) success)

failure_told-IsQuiet : (env : DataEnv) (t : Transfer) → IsQuiet (failure_told env t)
unfolding replay
failure_told-IsQuiet env t =
    if-both IsQuiet t.incoming _ _
      (λ e.
        if-both IsQuiet t.listing _ _ (λ f. record { quiet = λ p. refl })
          (λ f. record { quiet = λ p. refl }))
      (λ e.
        if-both IsQuiet (not t.incremental) _ _ (λ f. record { quiet = λ p. refl })
          (λ f.
            if-both IsQuiet (env.window_exists t.requestor) _ _ (λ g. record { quiet = λ p. refl })
              (λ g. record { quiet = λ p. refl })))

pub fail-IsStep : (env : DataEnv) (s : DataState) (n : ℕ) → IsStep s (fail env s n)
unfolding fail
fail-IsStep env s n =
    then-IsStep s (s, failure_told env (transfer_at s n)) (λ u. end_transfer env u n false)
      (quiet-IsStep s (failure_told env (transfer_at s n))
        (failure_told-IsQuiet env (transfer_at s n)))
      (end_transfer-IsStep env s n false)

-- An operation on a state in which a transfer has been written back.
pub from_put-IsStep :
    (s : DataState) (n : ℕ) (t : Transfer) (o : DataOutcome)
    → (IsBounded s → IsSized t)
    → IsStep (put_transfer s n t) o
    → IsStep s o
from_put-IsStep s n t o k h =
    from-IsStep s (put_transfer s n t) o refl (λ b. put_transfer-IsBounded s n t (k b) b) h

pub expired-IsStep : (env : DataEnv) (s : DataState) (n : ℕ) → IsStep s (expired env s n)
unfolding expired
expired-IsStep env s n =
    let t : Transfer = record (transfer_at s n) { timer = false } in
    from_put-IsStep s n t (expired env s n) (λ b. transfer_at-IsSized s n b)
      (fail-IsStep env (put_transfer s n t) n)
