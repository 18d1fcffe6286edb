-- ===== src/Model/Changes.antt =====
-- What changes of windows, of their properties and of the manager keep of the host's table.
use magicdesk_x.Prelude.{
  ℕ, ◌≡◌, refl, inl, Bool, true, false, not, ◌&&◌, ◌||◌, List, [], ◌∷◌, ◌++◌, ◌==◌, if◌then◌else◌,
  if-both,
}
use magicdesk_x.Window.State.{next_serial}
use magicdesk_x.Model.{
  ModelWindow, ModelEnv, AtomName, wm_hints, wm_class, wm_normal_hints, supporting_check,
  net_supported, WindowRecord, ModelState, ModelEffect, geometry_changed, property_deleted,
  window_freed,
}
use magicdesk_x.Model.Records.{urgent}
use magicdesk_x.Model.Messages.{
  user_input, all_changed, manager_changed, renew_hints, property_noted, mark_changed, update_all,
}
use magicdesk_x.Model.Table.{Host, heard, AreTouched, same-AreTouched}
use magicdesk_x.Model.Quiet.{
  IsAgreed, IsQuiet, same-IsQuiet, silent-IsQuiet, dirty-IsQuiet, marking-IsTouched,
  update_all-AreTouched, changed-IsMarking, all_changed-AreTouched,
}

pub input-IsAgreed :
    (env : ModelEnv) (s : ModelState) (id : ℕ) (h : Host)
    → IsAgreed s h
    → IsAgreed (user_input env s id) h
input-IsAgreed env s id h a =
    if-both (λ (t : ModelState). IsAgreed t h) (s.manager == 0) s
      (record s { last_input_window = id; last_input_time = env.now }) (λ e. a)
      (λ e. record {
        synced = record { kept = a.synced.kept; single = a.synced.single };
        pending = a.pending;
      })

-- The effects that follow the loss of the manager's selection.
abbrev farewell : ℕ → ℕ → Bool → Bool → List ModelEffect
farewell root manager own destroyed =
    (if own
      then property_deleted root supporting_check ∷ property_deleted root net_supported ∷ []
      else [])
    ++ (if destroyed then [] else window_freed manager ∷ [])

farewell_silent :
    (root manager : ℕ) (own destroyed : Bool) (h : Host)
    → heard h (farewell root manager own destroyed) ≡ h
farewell_silent root manager true true h = refl
farewell_silent root manager true false h = refl
farewell_silent root manager false true h = refl
farewell_silent root manager false false h = refl

pub owner-IsQuiet :
    (env : ModelEnv) (s : ModelState) (owner : ℕ) (destroyed set_owner : Bool)
    → IsQuiet s (manager_changed env s owner destroyed set_owner)
unfolding manager_changed
owner-IsQuiet env s owner destroyed set_owner =
    let t : ModelState = record s { manager = 0; records = all_changed s.records; dirty = true } in
    if-both (IsQuiet s) (s.manager == 0 || (not destroyed && (not set_owner || owner == s.manager)))
      (s, geometry_changed ∷ []) (t, geometry_changed ∷ farewell env.root s.manager _ destroyed)
      (λ e. silent-IsQuiet s s (geometry_changed ∷ []) (λ h. refl) (same-IsQuiet s))
      (λ e.
        silent-IsQuiet s t (geometry_changed ∷ farewell env.root s.manager _ destroyed)
          (λ h. farewell_silent env.root s.manager _ destroyed h)
          (dirty-IsQuiet s t refl (λ q. q) (λ j. all_changed-AreTouched s.manager 0 j s.records)))

renewed-AreTouched :
    (m j id : ℕ) (urgency : Bool) (serial : ℕ) (rs : List WindowRecord)
    → AreTouched m m j rs (renew_hints id urgency serial rs).0
unfolding renew_hints
renewed-AreTouched m j id urgency serial [] = tt
renewed-AreTouched m j id urgency serial (r ∷ rs) =
    if-both (λ (o : List WindowRecord × ℕ). AreTouched m m j (r ∷ rs) o.0) (r.id == id) (_, _)
      (_, _)
      (λ e. (
        record { told = refl; live = λ h. h; says = λ q x k. inl refl },
        renewed-AreTouched m j id urgency (next_serial serial) rs,
      ))
      (λ e. (
        record { told = refl; live = λ h. h; says = λ q x k. k },
        renewed-AreTouched m j id urgency serial rs,
      ))

pub all_marked :
    (m j id : ℕ) (rs : List WindowRecord) → AreTouched m m j rs (update_all id mark_changed rs)
all_marked m j id rs =
    update_all-AreTouched m j id mark_changed rs
      (λ r. marking-IsTouched m m j mark_changed r changed-IsMarking)

pub dirty_only : (s : ModelState) → IsQuiet s (record s { dirty = true }, [])
dirty_only s =
    dirty-IsQuiet s (record s { dirty = true }) refl (λ q. q)
      (λ j. same-AreTouched s.manager j s.records)

pub property-IsQuiet :
    (s : ModelState) (window : ModelWindow) (name : AtomName)
    → IsQuiet s (property_noted s window name, [])
unfolding property_noted
property-IsQuiet s window wm_hints =
    let renewed = renew_hints window.id (urgent window) s.state_serial s.records in
    let u : ModelState = record s { records = renewed.0; state_serial = renewed.1; dirty = true } in
    if-both (λ (t : ModelState). IsQuiet s (t, [])) (s.manager == 0) (record s { dirty = true }) u
      (λ e. dirty_only s)
      (λ e.
        dirty-IsQuiet s u refl (λ q. q)
          (λ j. renewed-AreTouched s.manager j window.id (urgent window) s.state_serial s.records))
property-IsQuiet s window wm_class =
    dirty-IsQuiet s (property_noted s window wm_class) refl (λ q. q)
      (λ j. all_marked s.manager j window.id s.records)
property-IsQuiet s window wm_normal_hints =
    dirty-IsQuiet s (property_noted s window wm_normal_hints) refl (λ q. q)
      (λ j. all_marked s.manager j window.id s.records)
property-IsQuiet s window _ = dirty_only s
