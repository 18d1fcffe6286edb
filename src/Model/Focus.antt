-- ===== src/Model/Focus.antt =====
-- The families of windows: closing, raising and focusing a window, and the parent of a new dialog.
use magicdesk_x.Prelude.{
  ℕ, Bool, true, false, not, ◌&&◌, ◌||◌, Option, none, some, List, [], ◌∷◌, ◌++◌, ltb, ◌==◌,
  if◌then◌else◌, length, get_or,
}
use magicdesk_x.Prelude.Bits.{has_bit}
use magicdesk_x.Window.Placement.{position_specified}
use magicdesk_x.Family.{family_contains}
use magicdesk_x.Family.Activation.{activation_add, activation_apply, collect, only_owner}
use magicdesk_x.Model.{
  net_wm_state, state_modal, wm_hints, wm_normal_hints, wm_transient_for, wm_client_leader,
  wm_protocols, wm_delete_window, wm_take_focus, window_type, type_dialog, xa_wm_size_hints,
  ModelWindow, ModelTree, ModelTrees, branch, no_branches, more_branches, ModelState, ModelEffect,
  window_raised, focus_set, protocol_told, client_closed, geometry_changed, ModelEnv,
}
use magicdesk_x.Model.Records.{reference, has_atom, typed_items, is_application, member}

abbrev pub found_at : ModelEnv → ℕ → Option ModelWindow
found_at env id = if id == 0 then none else env.lookup id

abbrev pub parent_of : ModelEnv → ℕ → Option ℕ
parent_of env id = elim (env.lookup id) [
  | none ↦ none
  | some window ↦ if window.parent == 0 then none else some window.parent
]

-- `transientFor`.
unfoldable pub transient_of : ModelEnv → ℕ → Option ℕ
unfolding reference
transient_of env id = elim (env.lookup id) [
  | none ↦ none
  | some window ↦
      let transient = reference window wm_transient_for in
      elim (found_at env transient) [ none ↦ none | some found ↦ some transient ]
]

-- `lorieWindowBelongsTo`.
unfoldable pub belongs_to : ModelEnv → ℕ → ℕ → Bool
unfolding transient_of family_contains
belongs_to env id owner =
    elim (family_contains (parent_of env) (transient_of env) env.root owner (some id)) [
      | none ↦ false
      | some found ↦ found
    ]

-- Whether the window with the focus belongs to an owner; `none` is no focus or that of the pointer.
abbrev pub focus_belongs : ModelEnv → Option ℕ → ℕ → Bool
focus_belongs env focus owner = elim focus [
  | none ↦ false
  | some window ↦ belongs_to env window owner
]

-- `familyMember`.
unfoldable pub family_member : ModelEnv → Option ℕ → ModelWindow → ModelWindow → Bool
unfolding belongs_to reference has_atom
family_member env focus window owner =
    let transient = reference window wm_transient_for in
    let group = reference window wm_client_leader in
    if belongs_to env window.id owner.id
    then true
    else if not (transient == 0) && not (transient == env.root)
    then false
    else if not window.override && not (has_atom env window net_wm_state state_modal)
    then false
    else if group == 0 || not (group == reference owner wm_client_leader)
    then false
    else focus_belongs env focus owner.id

-- `visitFamily`: the windows that are visited, and whether each is modal.
unfoldable mutual
  unfolding family_member has_atom

  pub visit_branch : ModelEnv → Option ℕ → ModelWindow → ModelTree → List ModelWindow
  visit_branch env focus owner (branch window children) =
      let inside = visit_branches env focus owner children in
      let belongs = family_member env focus window owner in
      if not window.realized
      then []
      else (if window.input_output && belongs then window ∷ [] else [])
        ++ (if not (window.id == owner.id) && not belongs then inside else [])

  pub visit_branches : ModelEnv → Option ℕ → ModelWindow → ModelTrees → List ModelWindow
  visit_branches env focus owner no_branches = []
  visit_branches env focus owner (more_branches first rest) =
      visit_branch env focus owner first ++ visit_branches env focus owner rest

-- `lorieWindowClose`.
unfoldable pub close_window : ModelEnv → ℕ → Bool → List ModelEffect
unfolding is_application has_atom
close_window env id force = elim (found_at env id) [
  | none ↦ []
  | some window ↦
      if not (is_application env window)
      then []
      else if not force && has_atom env window wm_protocols wm_delete_window
      then protocol_told window.id wm_delete_window ∷ []
      else client_closed window.client ∷ []
]

-- Whether WM_HINTS lets a window take the focus from the window manager.
unfoldable pub accepts_focus : ModelWindow → Bool
accepts_focus window = elim (window.property wm_hints) [
  | none ↦ true
  | some p ↦
      not (p.format == 32)
      || (ltb (length p.items) 2
          || (not (has_bit (get_or p.items 0 0) 0) || not (get_or p.items 1 0 == 0)))
]

-- What is asked of the X server when a window gets the focus: the tree, the window with the focus,
-- whether the keyboard is grabbed, and the parents of each window.
pub record FocusEnv : Type 0 where
  pub model : ModelEnv
  pub tree : ModelTrees
  pub focus : Option ℕ
  pub grabbed : Bool
  pub ancestors : ℕ → List ℕ

abbrev pub modal_visits : ModelEnv → List ModelWindow → List (ℕ × Bool)
modal_visits env [] = []
modal_visits env (window ∷ rest) =
    (window.id, has_atom env window net_wm_state state_modal) ∷ modal_visits env rest

abbrev pub raised : List ℕ → List ModelEffect
raised [] = []
raised (window ∷ rest) = window_raised window ∷ raised rest

-- The window that was raised last gets the focus, if it takes it.
unfoldable pub focus_on : ModelEnv → ℕ → List ModelEffect
unfolding accepts_focus has_atom
focus_on env id = elim (found_at env id) [
  | none ↦ []
  | some window ↦
      (if accepts_focus window then focus_set id ∷ [] else [])
      ++ ((if has_atom env window wm_protocols wm_take_focus
            then protocol_told id wm_take_focus ∷ []
            else [])
          ++ (geometry_changed ∷ []))
]

-- `lorieWindowFocus`.
unfoldable pub focus_window : FocusEnv → Option ModelWindow → List ModelEffect
unfolding belongs_to visit_branches activation_add activation_apply focus_on has_atom
focus_window env none = []
focus_window env (some window) =
    let visits = modal_visits env.model (visit_branches env.model env.focus window env.tree) in
    let (order, focus) =
      activation_apply env.ancestors env.model.root (collect (only_owner window.id) visits) in
    if not window.realized || (env.grabbed || focus_belongs env.model env.focus window.id)
    then []
    else raised order ++ focus_on env.model focus

-- A dialog may be placed over this parent.
unfoldable pub can_hold_dialog : ModelEnv → ModelWindow → ModelWindow → Bool
unfolding position_specified
can_hold_dialog env window parent =
    not (parent.id == window.id)
    && (not (parent.id == env.root)
        && (parent.realized
            && (parent.input_output
                && elim (typed_items (window.property wm_normal_hints) xa_wm_size_hints) [
                  | none ↦ true
                  | some items ↦ not (position_specified env.beyond (some items))
                ])))

-- `lorieWindowInitialDialogParent`.
unfoldable pub initial_parent : ModelEnv → ModelState → ModelWindow → ModelState × Option ℕ
unfolding has_atom reference can_hold_dialog
initial_parent env s window =
    let considered = record s { considered = window.id ∷ s.considered } in
    let none_there =
      s.manager == 0
      || (window.override
          || (not window.input_output
              || (not (window.parent == env.root)
                  || not (has_atom env window window_type type_dialog)))) in
    if member window.id s.considered then (s, none) else (
      considered,
      if none_there then none else elim (found_at env (reference window wm_transient_for)) [
        | none ↦ none
        | some parent ↦ if can_hold_dialog env window parent then some parent.id else none
      ],
    )
