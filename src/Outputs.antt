-- ===== src/Outputs.antt =====
-- The outputs that a host has bound: window_outputs.c under lorie/src/main/cpp/lorie. A selection of
-- the linked list is the record `OutputSelection`, the list is a list, and a pointer into it is the
-- list taken apart at that place. What a handler asks of the X server and of the parts that are not
-- modelled here is a list of effects, in order.
pub mod Leases
pub mod LeaseLaws
pub mod ReleaseLaws
pub mod Commands
pub mod Dispatch
pub mod Callbacks
pub mod ResetLaws
mod Tests
use magicdesk_x.Prelude.{ℕ, max, sym, Bool, false, not, ◌&&◌, ◌||◌, List, [], ◌∷◌, ◌==◌, set}
use magicdesk_x.Prelude.Int.{ℤ}
use magicdesk_x.Cursor.{CursorState}
use magicdesk_x.DirectInput.{DirectInput, DeviceEvent, Float}

-- `LorieShellRect`.
pub record ShellRect : Type 0 where
  pub left : ℤ
  pub top : ℤ
  pub right : ℤ
  pub bottom : ℤ

-- `OutputSelection` but for what only publishing uses (the family geometry and the layers).
pub record OutputSelection : Type 0 where
  pub id : ℕ
  pub window : ℕ
  pub changed : Bool
  pub dead : Bool
  pub resize_pending : Bool
  pub geometry_pending : Bool
  pub owns_size : Bool
  pub shell : Bool
  pub parent : ℕ
  pub viewport : ShellRect
  pub presentation : ℕ
  pub width : ℤ
  pub height : ℤ
  pub content_width : ℤ
  pub content_height : ℤ
  pub keys : List ℕ
  pub buttons : ℕ

-- What is asked of the X server, and the calls into the other parts.
pub data Effect : Type 0 where
  key_event button_event : Bool → ℕ → Effect
  device_event : DeviceEvent → Effect
  data_pointer : ℕ → ℕ → ℕ → Bool → Effect
  motion_event : ℤ → ℤ → Effect
  scroll_event : Float → Float → Effect
  keysym_event : ℤ → Bool → Effect
  user_input focus_window blur_window : ℕ → Effect
  shell_configure : ℕ → ℤ → ℤ → Effect
  observe : Effect
  inspect : ℕ → ℕ → ℕ → Effect
  set_dpi set_color_scheme : ℤ → Effect
  close_window : ℕ → Bool → Effect
  fullscreen_confirmed : ℕ → ℕ → Bool → Effect
  maximized_confirmed interaction_confirmed : ℕ → ℕ → ℕ → Effect
  shell_geometry_changed shell_reset window_model_reset : Effect

-- The static variables that the handlers share.
pub record Server : Type 0 where
  pub selections : List OutputSelection
  pub direct : DirectInput
  pub cursor : CursorState

-- The outputs that show a shell surface or the dependents of another output.
abbrev pub borrowed : OutputSelection → Bool
borrowed o = o.shell || not (o.parent == 0)

pub separated : List OutputSelection → ℕ → Bool
separated [] id = false
separated (child ∷ rest) id = (not child.dead && child.parent == id) || separated rest id
