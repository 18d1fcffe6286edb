-- ===== src/Model/Families.antt =====
-- What the loss of the focus ends.
use magicdesk_x.Prelude.{
  Bool, ◌<◌, arith, ◌&&◌, Option-cases, ℕ, zero, suc, ◌≡◌, refl, sym, ap, ◌∙◌, ◌⊎◌, inl, inr, true,
  false, ◌||◌, Option, none, some, List, [], ◌∷◌, ◌++◌, ◌==◌, if◌then◌else◌, if-both, option-both,
  All,
}
use magicdesk_x.Model.{
  window_type, type_dnd, type_tooltip, ModelWindow, ModelEffect, window_unmapped, focus_set,
  grab_ended, ModelEnv,
}
use magicdesk_x.Model.Records.{has_atom}
use magicdesk_x.Model.Focus.{family_member, parent_of, focus_belongs}
use magicdesk_x.Model.Blur.{
  BlurEnv, member_at, is_popup, grab_popup, stays_mapped, dismissed, end_grab, blur_device,
  blur_devices, blur_window,
}

-- A realized popup of the owner's family, which is neither dragged nor a tooltip, while the focus is
-- where it is.
pub record IsOwnPopup (env : ModelEnv) (focus : Option ℕ) (owner : ModelWindow) (id : ℕ)
    : Type 0 where
  pub window : ModelWindow
  pub there : env.lookup id ≡ some window
  pub shown : window.realized ≡ true
  pub override : window.override ≡ true
  pub drawn : window.input_output ≡ true
  pub family : family_member env focus window owner ≡ true
  pub not_dragged : has_atom env window window_type type_dnd ≡ false
  pub not_tooltip : has_atom env window window_type type_tooltip ≡ false

-- What a loss of the focus may do: unmap such a popup, by a device's focus; end the grab of a device
-- whose grab window is of the family by the device's focus, at first or after the popup that the device
-- unmapped; and take the focus from the family.
abbrev pub IsOwnEnd : BlurEnv → ModelWindow → ModelEffect → Type 0
IsOwnEnd env owner (window_unmapped id) =
    (device : ℕ) × ((device < 4)
      × ((¬ (env.grab device ≡ none)) × IsOwnPopup env.model (env.focus device) owner id))
IsOwnEnd env owner (grab_ended device) =
    (window : ℕ) × (((env.grab device ≡ some window)
        × (member_at env.model (env.focus device) window owner ≡ true))
      ⊎ ((id : ℕ) × (IsOwnPopup env.model (env.focus device) owner id
            × ((env.grab_after device id ≡ some window)
                × (member_at env.model (env.focus_after device) window owner ≡ true)))))
IsOwnEnd env owner (focus_set id) =
    (id ≡ 0) × (focus_belongs env.model (env.focus 4) owner.id ≡ true)
IsOwnEnd env owner _ = ⊥

All-append :
    (P : ModelEffect → Type 0) (xs ys : List ModelEffect) → All P xs → All P ys → All P (xs ++ ys)
All-append P [] ys a b = b
All-append P (x ∷ xs) ys (p, a) b = (p, All-append P xs ys a b)

grab_popup-is_popup :
    (env : ModelEnv) (focus : Option ℕ) (owner : ModelWindow) (remaining : ℕ) (window : Option ℕ)
    (id : ℕ)
    → grab_popup env focus owner remaining window ≡ some id
    → is_popup env focus owner id ≡ true
unfolding grab_popup
grab_popup-is_popup env focus owner remaining none id h = absurd (cc h)
grab_popup-is_popup env focus owner zero (some w) id h = absurd (cc h)
grab_popup-is_popup env focus owner (suc remaining) (some w) id h =
    let above = grab_popup env focus owner remaining (parent_of env w) in
    let rest = if is_popup env focus owner w then some w else above in
    if-both (λ (o : Option ℕ). o ≡ some id → is_popup env focus owner id ≡ true)
      (w == owner.id || w == env.root) none rest (λ e k. absurd (cc k))
      (λ e.
        if-both (λ (o : Option ℕ). o ≡ some id → is_popup env focus owner id ≡ true)
          (is_popup env focus owner w) (some w) above
          (λ p k.
            ap (λ o. elim o [ none ↦ true | some x ↦ is_popup env focus owner x ]) (sym k) ∙ p)
          (λ p k. grab_popup-is_popup env focus owner remaining (parent_of env w) id k))
      h

dismissed-own :
    (env : BlurEnv) (owner : ModelWindow) (device id : ℕ)
    → dismissed env owner device ≡ some id
    → (is_popup env.model (env.focus device) owner id ≡ true) × (stays_mapped env.model id ≡ false)
dismissed-own env owner device id =
    option-both
      (λ (o : Option ℕ).
        o ≡ some id
        → (is_popup env.model (env.focus device) owner id ≡ true)
          × (stays_mapped env.model id ≡ false))
      (grab_popup env.model (env.focus device) owner 64 (env.grab device)) none
      (λ popup. if stays_mapped env.model popup then none else some popup) (λ k. absurd (cc k))
      (λ popup found.
        if-both
          (λ (o : Option ℕ).
            o ≡ some id
            → (is_popup env.model (env.focus device) owner id ≡ true)
              × (stays_mapped env.model id ≡ false))
          (stays_mapped env.model popup) none (some popup) (λ e k. absurd (cc k))
          (λ e k. (
            grab_popup-is_popup env.model (env.focus device) owner 64 (env.grab device) id
                (found ∙ k),
            ap (λ o. elim o [ none ↦ false | some x ↦ stays_mapped env.model x ]) (sym k) ∙ e,
          )))

end_grab-own :
    (env : BlurEnv) (focus : Option ℕ) (owner : ModelWindow) (device : ℕ) (grab : Option ℕ)
    → ((window : ℕ)
        → grab ≡ some window
        → member_at env.model focus window owner ≡ true
        → IsOwnEnd env owner (grab_ended device))
    → All (IsOwnEnd env owner) (end_grab env.model focus owner device grab)
end_grab-own env focus owner device none k = tt
end_grab-own env focus owner device (some window) k =
    if-both (λ es. All (IsOwnEnd env owner) es) (member_at env.model focus window owner)
      (grab_ended device ∷ []) [] (λ e. (k window refl e, tt)) (λ e. tt)

-- A popup that is dismissed hangs over a grab of the device.
dismissed-grab :
    (env : BlurEnv) (owner : ModelWindow) (device id : ℕ)
    → dismissed env owner device ≡ some id
    → ¬ (env.grab device ≡ none)
unfolding grab_popup
dismissed-grab env owner device id h e = absurd (
    cc (
      ap
        (λ o. elim (grab_popup env.model (env.focus device) owner 64 o) [
          | none ↦ none
          | some popup ↦ if stays_mapped env.model popup then none else some popup
        ])
        (sym e)
      ∙ h))

popup_tests :
    (a b c d : Bool)
    → (a && (b && (c && d))) ≡ true
    → (a ≡ true) × ((b ≡ true) × ((c ≡ true) × (d ≡ true)))
popup_tests true true true d h = (refl, (refl, (refl, h)))
popup_tests true true false d h = absurd (cc h)
popup_tests true false c d h = absurd (cc h)
popup_tests false b c d h = absurd (cc h)

neither : (a b : Bool) → (a || b) ≡ false → (a ≡ false) × (b ≡ false)
neither true b h = absurd (cc h)
neither false b h = (refl, h)

dismissed-IsOwnPopup :
    (env : BlurEnv) (owner : ModelWindow) (device id : ℕ)
    → dismissed env owner device ≡ some id
    → IsOwnPopup env.model (env.focus device) owner id
unfolding stays_mapped
dismissed-IsOwnPopup env owner device id e =
    let m = env.model in
    let focus = env.focus device in
    let (p, stays) = dismissed-own env owner device id e in
    elim (Option-cases (m.lookup id)) [
      | inl none_there ↦ absurd (cc (rw (stays_mapped, none_there) at stays))
      | inr (window, there) ↦
          let (shown, (over, (drawn, family))) =
            popup_tests window.realized window.override window.input_output
              (family_member m focus window owner) (rw (is_popup, there) at p) in
          let (no_drag, no_tip) =
            neither (has_atom m window window_type type_dnd)
              (has_atom m window window_type type_tooltip) (rw (stays_mapped, there) at stays) in
          record {
            window = window;
            there = there;
            shown = shown;
            override = over;
            drawn = drawn;
            family = family;
            not_dragged = no_drag;
            not_tooltip = no_tip;
          }
    ]

blur_device-own :
    (env : BlurEnv) (owner : ModelWindow) (device : ℕ)
    → device < 4
    → All (IsOwnEnd env owner) (blur_device env owner device)
unfolding blur_device
blur_device-own env owner device l =
    option-both (λ es. All (IsOwnEnd env owner) es) (dismissed env owner device)
      (end_grab env.model (env.focus device) owner device (env.grab device))
      (λ id.
        window_unmapped id
        ∷ end_grab env.model (env.focus_after device) owner device (env.grab_after device id))
      (end_grab-own env (env.focus device) owner device (env.grab device)
        (λ window k m. (window, inl (k, m))))
      (λ id e. (
        (
          device,
          (l, (dismissed-grab env owner device id e, dismissed-IsOwnPopup env owner device id e)),
        ),
        end_grab-own env (env.focus_after device) owner device (env.grab_after device id)
            (λ window k m.
              (window, inr (id, (dismissed-IsOwnPopup env owner device id e, (k, m))))),
      ))

devices-own :
    (env : BlurEnv) (owner : ModelWindow) (devices : List ℕ)
    → All (λ device. device < 4) devices
    → All (IsOwnEnd env owner) (blur_devices env owner devices)
devices-own env owner [] k = tt
devices-own env owner (device ∷ rest) (l, k) =
    All-append (IsOwnEnd env owner) (blur_device env owner device) (blur_devices env owner rest)
      (blur_device-own env owner device l) (devices-own env owner rest k)

-- The loss of the focus of a window touches its own family only. A window that is unmapped is a realized,
-- override-redirect and InputOutput window, neither of the type DND nor TOOLTIP, and of the owner's
-- family as the focus of one of the four devices decides, which has a grab. A device whose grab ends has a
-- grab window of the family as its own focus decides: its grab and focus are those at the start, or those
-- after such a popup was unmapped. And the X server's focus is taken away only if a window that belongs to the
-- owner has it.
pub blur_window-own :
    (env : BlurEnv) (owner : ModelWindow) → All (IsOwnEnd env owner) (blur_window env (some owner))
unfolding blur_window
blur_window-own env owner =
    All-append (IsOwnEnd env owner) (blur_devices env owner (0 ∷ 1 ∷ 2 ∷ 3 ∷ [])) _
      (devices-own env owner (0 ∷ 1 ∷ 2 ∷ 3 ∷ []) four)
      (if-both (λ es. All (IsOwnEnd env owner) es) (focus_belongs env.model (env.focus 4) owner.id)
        (focus_set 0 ∷ []) [] (λ e. ((refl, e), tt)) (λ e. tt))
  where
    four : All (λ device. device < 4) (0 ∷ 1 ∷ 2 ∷ 3 ∷ [])
    four = (omega arith, (omega arith, (omega arith, (omega arith, tt))))
