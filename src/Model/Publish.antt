-- ===== src/Model/Publish.antt =====
-- What the host is told of the windows: `publishWindow`, the walk over the tree, and the refresh.
use magicdesk_x.Prelude.{
  ℕ, zero, suc, ◌+◌, Bool, true, false, not, ◌&&◌, ◌||◌, Option, none, some, List, [], ◌∷◌, ◌++◌,
  ltb, ◌==◌, if◌then◌else◌, length, get_or,
}
use magicdesk_x.Prelude.Bits.{beqb, holds_below}
use magicdesk_x.Icon.{icon_pixels, window_icon}
use magicdesk_x.Window.State.{WindowRole, application, splash, unclassified, dialog, window_role}
use magicdesk_x.Model.{
  PropertyValue, wm_state, wm_class, wm_name, net_wm_name, net_wm_icon, wm_transient_for,
  window_type, type_splash, type_dialog, xa_cardinal, xa_string, ModelWindow, ModelTree, ModelTrees,
  branch, no_branches, more_branches, WindowRecord, RecordInfo, WindowPart, ModelState, ModelEffect,
  window_told, window_removed, windows_committed, ModelOutcome, ModelEnv,
}
use magicdesk_x.Model.Records.{
  reference, window_constraints, has_atom, has_property, find_live, update_live, record_for,
  on_record,
}

abbrev pub take : ℕ → List ℕ → List ℕ
take zero xs = []
take (suc n) [] = []
take (suc n) (x ∷ xs) = x ∷ take n xs

abbrev pub drop : ℕ → List ℕ → List ℕ
drop zero xs = xs
drop (suc n) [] = []
drop (suc n) (x ∷ xs) = drop n xs

-- The bytes before the first zero, `strnlen` of them.
abbrev pub until_zero : List ℕ → List ℕ
until_zero [] = []
until_zero (b ∷ rest) = if b == 0 then [] else b ∷ until_zero rest

-- `strcmp` of two texts.
abbrev pub same_text : List ℕ → List ℕ → Bool
same_text [] [] = true
same_text [] (b ∷ bs) = b == 0
same_text (a ∷ rest) [] = a == 0
same_text (a ∷ rest) (b ∷ bs) = a == b && (a == 0 || same_text rest bs)

abbrev pub bytes_of : Option PropertyValue → Option (List ℕ)
bytes_of none = none
bytes_of (some p) = if p.format == 8 then some p.items else none

-- The title: 255 bytes of _NET_WM_NAME, or else of WM_NAME.
unfoldable pub title_of : ModelWindow → List ℕ
title_of window = elim (bytes_of (window.property net_wm_name)) [
  | some bytes ↦ take 255 bytes
  | none ↦ elim (bytes_of (window.property wm_name)) [ some bytes ↦ take 255 bytes | none ↦ [] ]
]

-- The words of _NET_WM_ICON, and how many; words of another type are not looked at.
abbrev pub icon_words : ModelEnv → Option PropertyValue → Option (ℕ → ℕ) × ℕ
icon_words env none = (none, 0)
icon_words env (some p) = (
  if p.kind == xa_cardinal && p.format == 32 then some (λ i. get_or p.items i env.beyond) else none,
  length p.items,
)

-- `lorieWindowIcon` of a window.
unfoldable pub icon_of : ModelEnv → ModelWindow → Bool × (ℕ → ℕ)
unfolding window_icon
icon_of env window =
    let (words, count) = icon_words env (window.property net_wm_icon) in
    window_icon words count (λ i. 0)

-- `lorieWindowRole` of a window.
unfoldable pub role_of : ModelEnv → ModelWindow → WindowRole
unfolding has_atom window_role
role_of env window =
    window_role (has_atom env window window_type type_splash)
      (has_atom env window window_type type_dialog) (has_property window window_type)
      (has_property window wm_class) (has_property window wm_state)

abbrev pub role_number : WindowRole → ℕ
role_number application = 0
role_number splash = 1
role_number unclassified = 2
role_number dialog = 3

-- Whether a record has to be told again: it was not told, it has changed, or the window has.
unfoldable pub is_stale : ModelEnv → ModelWindow → WindowRecord → Bool
unfolding title_of icon_of role_of holds_below
is_stale env window r =
    not r.published
    || (r.changed
        || (not (beqb r.mapped window.realized)
            || (not (same_text r.title (title_of window))
                || (not (role_number r.role == role_number (role_of env window))
                    || (not (beqb r.has_icon (icon_of env window).0)
                        || not (
                            holds_below icon_pixels
                              (λ i. r.icon i == (icon_of env window).1 i)))))))

-- The record with what is seen of the window.
abbrev pub looked_at : ModelEnv → ModelWindow → WindowRecord → WindowRecord
looked_at env window r = record r {
  mapped = window.realized;
  title = title_of window;
  has_icon = (icon_of env window).0;
  role = role_of env window;
  icon = (icon_of env window).1;
  published = true;
  changed = false;
}

abbrev pub mark_seen : WindowRecord → WindowRecord
mark_seen r = record r { seen = true }

-- What a record tells.
abbrev pub info_of : ℕ → WindowRecord → RecordInfo
info_of manager r = record {
  mapped = r.mapped;
  has_icon = r.has_icon;
  role = r.role;
  host_managed = not (manager == 0);
  fullscreen = r.fullscreen;
  maximized = r.maximized;
  interaction = r.interaction;
  title = r.title;
  icon = r.icon;
}

-- A name of WM_CLASS, if it ends inside of the property and fits its array.
abbrev pub ended_name : List ℕ → List ℕ
ended_name bytes =
    let name = until_zero bytes in
    if ltb (length name) 128 && ltb (length name) (length bytes) then name else []

abbrev pub class_bytes : Option PropertyValue → List ℕ
class_bytes none = []
class_bytes (some p) = if p.kind == xa_string && p.format == 8 then p.items else []

-- The rest of the message, from the window's properties.
unfoldable pub window_part : ModelEnv → ModelWindow → WindowPart
unfolding reference window_constraints
window_part env window =
    let bytes = class_bytes (window.property wm_class) in
    record {
      parent = reference window wm_transient_for;
      width = window.width;
      height = window.height;
      constraints = window_constraints env window;
      instance_name = ended_name bytes;
      class_name = ended_name (drop (length (until_zero bytes) + 1) bytes);
    }

-- A record that is stale is told.
unfoldable pub tell_record : ModelEnv → ModelState → ModelWindow → WindowRecord → ModelOutcome
unfolding is_stale update_live window_part
tell_record env s window r =
    if is_stale env window r
    then (
      on_record s window.id (looked_at env window),
      window_told window.id (info_of s.manager (looked_at env window r)) (window_part env window)
          ∷ [],
    )
    else (s, [])

-- `publishWindow`.
unfoldable pub publish_window : ModelEnv → ModelState → ModelWindow → ModelOutcome
unfolding record_for update_live find_live tell_record
publish_window env s window = elim (record_for env s window) [
  | none ↦ (s, [])
  | some t ↦
      let u = on_record t window.id mark_seen in
      elim (find_live window.id u.records) [ none ↦ (u, []) | some r ↦ tell_record env u window r ]
]

abbrev pub after : ModelOutcome → (ModelState → ModelOutcome) → ModelOutcome
after (s, first) next = let (t, second) = next s in (t, first ++ second)

-- `walk`.
unfoldable mutual
  unfolding publish_window

  pub walk_branch : ModelEnv → ModelTree → ModelState → ModelOutcome
  walk_branch env (branch window children) s =
      after (publish_window env s window) (λ t. walk_branches env children t)

  pub walk_branches : ModelEnv → ModelTrees → ModelState → ModelOutcome
  walk_branches env no_branches s = (s, [])
  walk_branches env (more_branches first rest) s =
      after (walk_branch env first s) (λ t. walk_branches env rest t)

-- The records of windows that are gone, and what is told of those that the host knows.
unfoldable pub purge : List WindowRecord → List WindowRecord × List ModelEffect
purge [] = ([], [])
purge (r ∷ rest) =
    let (kept, effects) = purge rest in
    if not r.destroyed
    then (r ∷ kept, effects)
    else if r.published
    then (kept, window_removed r.id ∷ effects)
    else (kept, effects)

abbrev pub unseen : List WindowRecord → List WindowRecord
unseen [] = []
unseen (r ∷ rest) = record r { seen = false } ∷ unseen rest

-- The records that the walk has not seen.
unfoldable pub sweep : List WindowRecord → List WindowRecord × List ModelEffect
sweep [] = ([], [])
sweep (r ∷ rest) =
    let (kept, effects) = sweep rest in
    if r.seen then (r ∷ kept, effects) else (kept, window_removed r.id ∷ effects)

abbrev pub purged : ModelState → ModelOutcome
purged s =
    let (kept, effects) = purge s.records in
    (record s { dirty = false; records = unseen kept }, effects)

abbrev pub swept : ModelState → ModelOutcome
swept s =
    let (kept, effects) = sweep s.records in
    (record s { records = kept }, effects ++ (windows_committed ∷ []))

-- `lorieWindowModelRefresh`, while there is a root window.
unfoldable pub model_refresh : ModelEnv → ModelTrees → ModelState → ModelOutcome
unfolding purge walk_branches sweep
model_refresh env roots s =
    if not s.observing || not s.dirty
    then (s, [])
    else after (after (purged s) (λ t. walk_branches env roots t)) swept

abbrev pub unpublished : List WindowRecord → List WindowRecord
unpublished [] = []
unpublished (r ∷ rest) = record r { published = false } ∷ unpublished rest

-- `lorieWindowModelReset`.
abbrev pub model_reset : ModelState → ModelState
model_reset s = record s { records = unpublished s.records; observing = false; dirty = true }

-- `lorieWindowModelObserve`.
abbrev pub model_observe : ModelState → ModelState
model_observe s = record (model_reset s) { observing = true }
