-- ===== src/Model.antt =====
-- The window model: window_model.c under lorie/src/main/cpp/lorie keeps a record of each application
-- window, tells the host about it, and acts as the window manager while it owns WM_S0. What the X server
-- knows of a window is the record `ModelWindow`, its answers during a call are `ModelEnv`, and what is
-- sent and changed is a list of effects. A window that is None is 0.
pub mod Records
pub mod Publish
pub mod Confirms
pub mod Messages
pub mod Table
pub mod Removal
pub mod Updates
pub mod Refreshed
pub mod Reported
pub mod Quiet
pub mod Events
pub mod Steps
pub mod Replies
pub mod Changes
pub mod Host
pub mod Walk
pub mod Current
pub mod Present
pub mod Shown
pub mod Requests
pub mod Focus
pub mod Blur
pub mod Families
mod Tests
use magicdesk_x.Prelude.{
  ℕ, zero, suc, ◌+◌, ◌-◌, ◌*◌, ◌/◌, ◌%◌, ◌^◌, ◌≤◌, ◌<◌, min, max, ◌≡◌, refl, sym, ap, ◌∙◌, ◌≢◌, ◌↔◌,
  ◌⊎◌, inl, inr, Bool, true, false, not, ◌&&◌, ◌||◌, Option, none, some, List, [], ◌∷◌, ◌++◌, map,
  arith, ltb, leb, ◌==◌, if◌then◌else◌, ltb→lt, lt→ltb, leb→le, ==_iff, tests, Bool-cases, if-both,
  option-both, not-true, not-false, Option-cases, length, get_elem?, get_or, set, replicate,
  length-append, length-set, get_or-default, get_or-set_self, get_or-set_ne, All, All-set,
  get_or-All,
}
use magicdesk_x.Prelude.Int.{
  ℤ, pos, negsuc, pos_part, neg_part, sub_ℕ, ◌+ℤ◌, ◌-ℤ◌, ◌≤ℤ◌, ◌<ℤ◌, ltb_ℤ, leb_ℤ, eqb_ℤ, max_ℤ,
  min_ℤ, lt_ℤ-cases, int_laws, neg_part_of_le, negative_part, no_negative_part, +ℤ_parts, -ℤ_parts,
  eq_of_parts,
}
use magicdesk_x.Prelude.Bits.{has_bit, set_bit, clear_bit}
pub use magicdesk_x.XServer.{PropertyValue}
use magicdesk_x.Window.State.{FullscreenState, MaximizedState, WindowInteraction, WindowRole}
use magicdesk_x.Window.Size.{WindowConstraints}

-- The names of the properties and atoms that the model uses.
pub data AtomName : Type 0 where
  net_wm_state state_fullscreen state_horizontal state_vertical state_hidden : AtomName
  state_attention state_modal wm_state wm_class wm_name net_wm_name wm_hints : AtomName
  wm_normal_hints wm_transient_for wm_client_leader wm_protocols wm_delete_window : AtomName
  wm_take_focus wm_change_state net_active_window net_wm_moveresize net_wm_icon : AtomName
  window_type type_desktop type_dock type_splash type_dialog type_dnd type_tooltip : AtomName
  supporting_check net_supported : AtomName

-- The types of the X protocol: XA_ATOM, XA_CARDINAL, XA_STRING, XA_WINDOW, XA_WM_HINTS and
-- XA_WM_SIZE_HINTS.
abbrev pub xa_atom : ℕ
xa_atom = 4

abbrev pub xa_cardinal : ℕ
xa_cardinal = 6

abbrev pub xa_string : ℕ
xa_string = 31

abbrev pub xa_window : ℕ
xa_window = 33

abbrev pub xa_wm_hints : ℕ
xa_wm_hints = 35

abbrev pub xa_wm_size_hints : ℕ
xa_wm_size_hints = 41

pub record ModelWindow : Type 0 where
  pub id : ℕ
  pub client : ℕ
  pub parent : ℕ
  pub input_output : Bool
  pub override : Bool
  pub realized : Bool
  pub width : ℕ
  pub height : ℕ
  pub property : AtomName → Option PropertyValue

-- A window and its children, the last child first.
mutual
  pub data ModelTree : Type 0 where
    branch : ModelWindow → ModelTrees → ModelTree

  pub data ModelTrees : Type 0 where
    no_branches : ModelTrees
    more_branches : ModelTree → ModelTrees → ModelTrees

-- `WindowRecord`; the icon is its pixels.
pub record WindowRecord : Type 0 where
  pub id : ℕ
  pub seen : Bool
  pub mapped : Bool
  pub changed : Bool
  pub published : Bool
  pub destroyed : Bool
  pub fullscreen : FullscreenState
  pub maximized : MaximizedState
  pub interaction : WindowInteraction
  pub title : List ℕ
  pub has_icon : Bool
  pub role : WindowRole
  pub icon : ℕ → ℕ

-- The static variables; those that keep the X server's own procedures are left out.
pub record ModelState : Type 0 where
  pub records : List WindowRecord
  pub dirty : Bool
  pub observing : Bool
  pub manager : ℕ
  pub state_serial : ℕ
  pub last_input_window : ℕ
  pub last_input_time : ℕ
  pub considered : List ℕ

-- What the host is told of a window that the record has.
pub record RecordInfo : Type 0 where
  pub mapped : Bool
  pub has_icon : Bool
  pub role : WindowRole
  pub host_managed : Bool
  pub fullscreen : FullscreenState
  pub maximized : MaximizedState
  pub interaction : WindowInteraction
  pub title : List ℕ
  pub icon : ℕ → ℕ

-- What it is told that only the window has.
pub record WindowPart : Type 0 where
  pub parent : ℕ
  pub width : ℕ
  pub height : ℕ
  pub constraints : WindowConstraints
  pub instance_name : List ℕ
  pub class_name : List ℕ

pub data ModelEffect : Type 0 where
  window_told : ℕ → RecordInfo → WindowPart → ModelEffect
  window_removed : ℕ → ModelEffect
  windows_committed : ModelEffect
  gesture_told : ℕ → ℕ → ModelEffect
  -- The window, the property and its words.
  words_changed : ℕ → AtomName → List ℕ → ModelEffect
  property_deleted : ℕ → AtomName → ModelEffect
  window_freed window_raised window_unmapped focus_set : ℕ → ModelEffect
  protocol_told : ℕ → AtomName → ModelEffect
  client_closed grab_ended : ℕ → ModelEffect
  geometry_changed outputs_changed : ModelEffect
  destroyed_told : ℕ → ModelEffect

abbrev pub ModelOutcome : Type 0
ModelOutcome = ModelState × List ModelEffect

-- The atoms, the root window, the windows, memory, whether properties can be changed, the time, and
-- whether a gesture is allowed. `beyond` is what a read past a property would find.
pub record ModelEnv : Type 0 where
  pub atom : AtomName → ℕ
  pub root : ℕ
  pub lookup : ℕ → Option ModelWindow
  pub memory : Bool
  pub change_succeeds : Bool
  pub now : ℕ
  pub gesture_allowed : ℕ → ℕ → Bool
  pub beyond : ℕ
