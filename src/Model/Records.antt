-- ===== src/Model/Records.antt =====
-- What the model reads of a window, and the record that it keeps of it.
use magicdesk_x.Prelude.{
  ℕ, ◌+◌, Bool, true, false, not, ◌&&◌, ◌||◌, Option, none, some, List, [], ◌∷◌, leb, ◌==◌,
  if◌then◌else◌, length, get_elem?, get_or,
}
use magicdesk_x.Prelude.Bits.{has_bit}
use magicdesk_x.Window.State.{
  next_serial, FullscreenState, fullscreen_request, none_asked, minimize, application,
}
use magicdesk_x.Window.Size.{WindowConstraints, size_hints}
use magicdesk_x.Model.{
  PropertyValue, AtomName, net_wm_state, state_fullscreen, state_horizontal, state_vertical,
  state_attention, wm_state, wm_class, wm_name, net_wm_name, wm_hints, wm_normal_hints,
  wm_transient_for, window_type, type_desktop, type_dock, type_splash, xa_atom, xa_window,
  xa_wm_hints, xa_wm_size_hints, ModelWindow, WindowRecord, ModelState, ModelEnv,
}

-- `property` with a type and a format.
abbrev pub typed_items : Option PropertyValue → ℕ → Option (List ℕ)
typed_items none kind = none
typed_items (some p) kind = if p.kind == kind && p.format == 32 then some p.items else none

-- The only item of a list, or None.
abbrev pub only_word : Option (List ℕ) → ℕ
only_word none = 0
only_word (some []) = 0
only_word (some (a ∷ [])) = a
only_word (some (a ∷ (b ∷ rest))) = 0

-- `reference`.
unfoldable pub reference : ModelWindow → AtomName → ℕ
reference window name = only_word (typed_items (window.property name) xa_window)

-- `lorieWindowConstraints`.
unfoldable pub window_constraints : ModelEnv → ModelWindow → WindowConstraints
unfolding size_hints
window_constraints env window =
    size_hints env.beyond (typed_items (window.property wm_normal_hints) xa_wm_size_hints)

abbrev pub member : ℕ → List ℕ → Bool
member a [] = false
member a (b ∷ rest) = b == a || member a rest

abbrev pub atoms_of : Option (List ℕ) → List ℕ
atoms_of none = []
atoms_of (some items) = items

-- `hasAtom`.
unfoldable pub has_atom : ModelEnv → ModelWindow → AtomName → AtomName → Bool
has_atom env window name item =
    member (env.atom item) (atoms_of (typed_items (window.property name) xa_atom))

abbrev pub has_property : ModelWindow → AtomName → Bool
has_property window name = elim (window.property name) [ none ↦ false | some p ↦ true ]

-- The words of WM_HINTS.
abbrev pub hints_of : ModelWindow → List ℕ
hints_of window = atoms_of (typed_items (window.property wm_hints) xa_wm_hints)

-- `urgent`.
unfoldable pub urgent : ModelWindow → Bool
urgent window = elim (get_elem? (hints_of window) 0) [ none ↦ false | some flags ↦ has_bit flags 8 ]

-- Whether WM_HINTS asks for an initial state that is iconic.
unfoldable pub starts_iconic : ModelWindow → Bool
starts_iconic window =
    let hints = hints_of window in
    leb 3 (length hints) && (has_bit (get_or hints 0 0) 1 && get_or hints 2 0 == 3)

-- `isApplication`.
unfoldable pub is_application : ModelEnv → ModelWindow → Bool
unfolding reference has_atom
is_application env window =
    if window.id == env.root
      || (not window.input_output
          || (window.override || not (reference window wm_transient_for == 0)))
    then false
    else if has_atom env window window_type type_desktop
        || has_atom env window window_type type_dock
    then false
    else if has_atom env window window_type type_splash || has_property window wm_state
    then true
    else window.parent == env.root
      && (has_property window wm_class
          || (has_property window wm_name || has_property window net_wm_name))

-- Whether a record is a window's: it has its id, and the window it was made for is there.
abbrev pub is_live : ℕ → WindowRecord → Bool
is_live id r = not r.destroyed && r.id == id

-- The first such record.
unfoldable pub find_live : ℕ → List WindowRecord → Option WindowRecord
find_live id [] = none
find_live id (r ∷ rest) = let later = find_live id rest in if is_live id r then some r else later

-- The first such record is changed.
unfoldable pub update_live :
    ℕ → (WindowRecord → WindowRecord) → List WindowRecord → List WindowRecord
update_live id f [] = []
update_live id f (r ∷ rest) =
    let later = update_live id f rest in if is_live id r then f r ∷ rest else r ∷ later

-- The states that a new window asks for, while the model is the window manager.
abbrev pub initial_fullscreen : ModelEnv → ℕ → ModelWindow → ℕ → FullscreenState
initial_fullscreen env manager window serial =
    let asked =
      (fullscreen_request (record { serial = 0; requested = false; actual = false }) 1).0 in
    record {
      serial = serial;
      requested =
          if not (manager == 0) && has_atom env window net_wm_state state_fullscreen
          then asked.requested
          else false;
      actual = false;
    }

abbrev pub initial_axes : ModelEnv → ModelWindow → ℕ
initial_axes env window =
    (if has_atom env window net_wm_state state_horizontal then 1 else 0)
    + (if has_atom env window net_wm_state state_vertical then 2 else 0)

-- The record of a new window; its three serials follow one another.
unfoldable pub new_record : ModelEnv → ModelState → ModelWindow → WindowRecord
unfolding fullscreen_request has_atom urgent starts_iconic
new_record env s window =
    let managed = not (s.manager == 0) in
    let first = next_serial s.state_serial in
    let second = next_serial first in
    record {
      id = window.id;
      seen = false;
      mapped = false;
      changed = false;
      published = false;
      destroyed = false;
      fullscreen = initial_fullscreen env s.manager window first;
      maximized = record {
        serial = second;
        requested = if managed then initial_axes env window else 0;
        actual = 0;
      };
      interaction = record {
        serial = next_serial second;
        action = if managed && starts_iconic window then minimize else none_asked;
        attention = managed && (urgent window || has_atom env window net_wm_state state_attention);
        actual = 0;
      };
      title = [];
      has_icon = false;
      role = application;
      icon = λ i. 0;
    }

-- The state in which a new window has its record.
abbrev pub with_record : ModelEnv → ModelState → ModelWindow → ModelState
with_record env s window = record s {
  records = new_record env s window ∷ s.records;
  state_serial = next_serial (next_serial (next_serial s.state_serial));
}

-- `recordFor`: the state in which the window has a record.
unfoldable pub record_for : ModelEnv → ModelState → ModelWindow → Option ModelState
unfolding is_application find_live new_record
record_for env s window =
    if not (is_application env window) then none else elim (find_live window.id s.records) [
      | some r ↦ some s
      | none ↦
          if not window.realized || not env.memory then none else some (with_record env s window)
    ]

-- The record of a window is changed; its first record that is live.
abbrev pub on_record : ModelState → ℕ → (WindowRecord → WindowRecord) → ModelState
on_record s id f = record s { records = update_live id f s.records }
