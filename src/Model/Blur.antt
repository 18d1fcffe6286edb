-- ===== src/Model/Blur.antt =====
-- The loss of the focus: the popups and the grabs of a family end.
use magicdesk_x.Prelude.{
  ℕ, zero, suc, Bool, true, false, ◌&&◌, ◌||◌, Option, none, some, List, [], ◌∷◌, ◌++◌, ◌==◌,
  if◌then◌else◌,
}
use magicdesk_x.Model.{
  window_type, type_dnd, type_tooltip, ModelWindow, ModelEffect, window_unmapped, focus_set,
  grab_ended, ModelEnv,
}
use magicdesk_x.Model.Records.{has_atom}
use magicdesk_x.Model.Focus.{parent_of, belongs_to, focus_belongs, family_member}

-- What is asked of the X server when a window loses the focus: of each of the four devices its grab, at
-- first and after a popup was unmapped, and the window with the focus then; the last turn is the end.
pub record BlurEnv : Type 0 where
  pub model : ModelEnv
  pub grab : ℕ → Option ℕ
  pub grab_after : ℕ → ℕ → Option ℕ
  pub focus : ℕ → Option ℕ
  pub focus_after : ℕ → Option ℕ

-- `familyMember` of windows by their ids.
unfoldable pub member_at : ModelEnv → Option ℕ → ℕ → ModelWindow → Bool
unfolding family_member
member_at env focus id owner = elim (env.lookup id) [
  | none ↦ false
  | some window ↦ family_member env focus window owner
]

abbrev pub is_popup : ModelEnv → Option ℕ → ModelWindow → ℕ → Bool
is_popup env focus owner id = elim (env.lookup id) [
  | none ↦ false
  | some window ↦
      window.realized
      && (window.override && (window.input_output && family_member env focus window owner))
]

-- `lorieWindowGrabPopup`.
unfoldable pub grab_popup : ModelEnv → Option ℕ → ModelWindow → ℕ → Option ℕ → Option ℕ
unfolding family_member
grab_popup env focus owner remaining none = none
grab_popup env focus owner zero (some id) = none
grab_popup env focus owner (suc remaining) (some id) =
    let above = grab_popup env focus owner remaining (parent_of env id) in
    if id == owner.id || id == env.root
    then none
    else if is_popup env focus owner id
    then some id
    else above

-- A window that a drag or a tooltip shows stays.
unfoldable pub stays_mapped : ModelEnv → ℕ → Bool
unfolding has_atom
stays_mapped env id = elim (env.lookup id) [
  | none ↦ true
  | some window ↦
      has_atom env window window_type type_dnd || has_atom env window window_type type_tooltip
]

abbrev pub dismissed : BlurEnv → ModelWindow → ℕ → Option ℕ
dismissed env owner device =
    elim (grab_popup env.model (env.focus device) owner 64 (env.grab device)) [
      | none ↦ none
      | some popup ↦ if stays_mapped env.model popup then none else some popup
    ]

abbrev pub end_grab : ModelEnv → Option ℕ → ModelWindow → ℕ → Option ℕ → List ModelEffect
end_grab env focus owner device none = []
end_grab env focus owner device (some window) =
    if member_at env focus window owner then grab_ended device ∷ [] else []

-- One turn of the loop over the devices.
unfoldable pub blur_device : BlurEnv → ModelWindow → ℕ → List ModelEffect
unfolding grab_popup stays_mapped member_at
blur_device env owner device = elim (dismissed env owner device) [
  | none ↦ end_grab env.model (env.focus device) owner device (env.grab device)
  | some popup ↦
      window_unmapped popup
      ∷ end_grab env.model (env.focus_after device) owner device (env.grab_after device popup)
]

abbrev pub blur_devices : BlurEnv → ModelWindow → List ℕ → List ModelEffect
blur_devices env owner [] = []
blur_devices env owner (device ∷ rest) = blur_device env owner device ++ blur_devices env owner rest

-- `lorieWindowBlur`; the devices are the keyboard, the pointer, and the two that inject.
unfoldable pub blur_window : BlurEnv → Option ModelWindow → List ModelEffect
unfolding blur_device belongs_to
blur_window env none = []
blur_window env (some owner) =
    blur_devices env owner (0 ∷ 1 ∷ 2 ∷ 3 ∷ [])
    ++ (if focus_belongs env.model (env.focus 4) owner.id then focus_set 0 ∷ [] else [])
