-- ===== src/Model/Present.antt =====
-- What the host is told of a window that it shows as it is.
use magicdesk_x.Prelude.{
  ℕ, ◌<◌, ◌≡◌, refl, sym, ap, ◌∙◌, inl, inr, Bool, true, false, not, ◌&&◌, ◌||◌, List, [], ◌∷◌,
  arith, ◌==◌, if◌then◌else◌, Bool-cases,
}
use magicdesk_x.Prelude.Bits.{beqb, beqb→eq, holds_at}
use magicdesk_x.Icon.{icon_pixels}
use magicdesk_x.Model.{ModelWindow, ModelEnv, WindowRecord, RecordInfo}
use magicdesk_x.Window.State.{WindowRole, application, splash, unclassified, dialog}
use magicdesk_x.Model.Publish.{
  info_of, until_zero, same_text, title_of, icon_of, role_of, role_number, is_stale,
}

-- What the host knows of a window is what the window is now: whether it is mapped, its title up to the
-- terminating zero, its role, whether it has an icon, and each pixel of the icon.
pub record IsPresent (env : ModelEnv) (window : ModelWindow) (info : RecordInfo) : Type 0 where
  pub mapped : info.mapped ≡ window.realized
  pub title : until_zero info.title ≡ until_zero (title_of window)
  pub role : info.role ≡ role_of env window
  pub has_icon : info.has_icon ≡ (icon_of env window).0
  pub icon : (i : ℕ) → i < icon_pixels → info.icon i ≡ (icon_of env window).1 i

split_and : (a b : Bool) → (a && b) ≡ true → (a ≡ true) × (b ≡ true)
split_and a b h = (ground arith, ground arith)

same_text-until_zero : (a b : List ℕ) → same_text a b ≡ true → until_zero a ≡ until_zero b
same_text-until_zero [] [] h = refl
same_text-until_zero [] (b ∷ bs) h = rw h refl
same_text-until_zero (a ∷ rest) [] h = rw h refl
same_text-until_zero (a ∷ rest) (b ∷ bs) h =
    let (e, later) = split_and (a == b) (a == 0 || same_text rest bs) h in
    let same : a ≡ b = ground arith in
    elim (Bool-cases (b == 0)) [
      | inl z ↦ rw (same, z) refl
      | inr z ↦
          rw (same, z) (ap (λ l. b ∷ l) (same_text-until_zero rest bs (rw (same, z) at later)))
    ]

abbrev of_number : ℕ → WindowRole
of_number n =
    if n == 0
    then application
    else if n == 1
    then splash
    else if n == 2
    then unclassified
    else dialog

of_number-role_number : (role : WindowRole) → of_number (role_number role) ≡ role
of_number-role_number application = refl
of_number-role_number splash = refl
of_number-role_number unclassified = refl
of_number-role_number dialog = refl

role_number-injective : (a b : WindowRole) → (role_number a == role_number b) ≡ true → a ≡ b
role_number-injective a b h =
    let same : role_number a ≡ role_number b = ground arith in
    sym (of_number-role_number a) ∙ (ap of_number same ∙ of_number-role_number b)

neither : (a b : Bool) → (not a || b) ≡ false → (a ≡ true) × (b ≡ false)
neither a b h = (ground arith, ground arith)

unnegated : (a : Bool) → not a ≡ false → a ≡ true
unnegated a h = ground arith

either : (a b : Bool) → (a || b) ≡ false → b ≡ false
either a b h = ground arith

-- What a record tells that is not stale is the window as it is.
pub is_stale-IsPresent :
    (env : ModelEnv) (window : ModelWindow) (r : WindowRecord) (manager : ℕ)
    → is_stale env window r ≡ false
    → IsPresent env window (info_of manager r)
unfolding is_stale
is_stale-IsPresent env window r manager h =
    let seen = either r.changed _ (neither r.published _ h).1 in
    let (mapped, a) = neither (beqb r.mapped window.realized) _ seen in
    let (title, b) = neither (same_text r.title (title_of window)) _ a in
    let (role, c) = neither (role_number r.role == role_number (role_of env window)) _ b in
    let (has_icon, e) = neither (beqb r.has_icon (icon_of env window).0) _ c in
    let icon = unnegated _ e in
    record {
      mapped = beqb→eq r.mapped window.realized mapped;
      title = same_text-until_zero r.title (title_of window) title;
      role = role_number-injective r.role (role_of env window) role;
      has_icon = beqb→eq r.has_icon (icon_of env window).0 has_icon;
      icon = λ i l.
          same_word (r.icon i) ((icon_of env window).1 i)
            (holds_at icon_pixels (λ j. r.icon j == (icon_of env window).1 j) i icon l);
    }
  where
    same_word : (a b : ℕ) → (a == b) ≡ true → a ≡ b
    same_word a b h = ground arith
