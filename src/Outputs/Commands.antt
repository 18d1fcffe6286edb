-- ===== src/Outputs/Commands.antt =====
-- `lorieOutputCommand` of window_outputs.c and the functions that bind, release and mark outputs.
-- The X server's answers are the record `Env`: which windows are shell surfaces, where a window is,
-- whether memory was given. An X server call may call back into this file; what the callbacks do is
-- `geometry_changed` and `window_destroyed`, commands of their own that follow the effect.
use magicdesk_x.Prelude.{
  ℕ, zero, suc, ◌-◌, ◌%◌, ◌^◌, Bool, true, false, not, ◌&&◌, ◌||◌, Option, none, some, List, [],
  ◌∷◌, map, ltb, ◌==◌, if◌then◌else◌, get_elem?, set, replicate,
}
use magicdesk_x.Prelude.Int.{ℤ, pos, negsuc, ltb_ℤ, leb_ℤ}
use magicdesk_x.Cursor.{cursor_release}
use magicdesk_x.DirectInput.{Float, TouchPhase}
use magicdesk_x.DirectInput.Tools.{TabletEvent}
use magicdesk_x.Outputs.{ShellRect, OutputSelection, Effect, Server, borrowed, separated}
use magicdesk_x.Outputs.Leases.{release_input}

-- `LorieOutputOperation`, and any other code.
pub data Operation : Type 0 where
  bind resize pointer key release_output focus text observe_windows close dpi : Operation
  fullscreen_confirm inspect_window shell viewport blur maximized_confirm scroll : Operation
  touch_operation tablet_operation cancel_contacts interaction_confirm color_scheme : Operation
  unknown_operation : Operation

-- `LorieOutputCommand`.
pub record Command : Type 0 where
  pub operation : Operation
  pub down : Bool
  pub output : ℕ
  pub window : ℕ
  pub x : ℤ
  pub y : ℤ
  pub detail : ℕ
  pub serial : ℕ
  pub viewport : ShellRect
  pub horizontal : Float
  pub vertical : Float
  pub pressure : Float
  pub phase : TouchPhase
  pub tablet : TabletEvent

pub record Env : Type 0 where
  pub shell_window : ℕ → Bool
  pub lookup : ℕ → Option (ℤ × ℤ)
  pub root : ℤ × ℤ
  pub memory : Bool
  pub screen : Option (ℕ × ℕ)
  pub pen_added : Bool
  pub eraser_added : Bool
  pub ucs_to_keysym : ℤ → ℤ

-- `(uint32_t) x`.
abbrev pub to_u32 : ℤ → ℕ
to_u32 (pos n) = n % 2 ^ 32
to_u32 (negsuc n) = 2 ^ 32 - 1 - n % 2 ^ 32

-- The place of `link`: that of the output, or the end of the list.
pub link_to : ℕ → List OutputSelection → ℕ
link_to id [] = 0
link_to id (o ∷ rest) = let next = suc (link_to id rest) in if o.id == id then 0 else next

abbrev pub erase_at : ℕ → List OutputSelection → List OutputSelection
erase_at n [] = []
erase_at zero (o ∷ rest) = rest
erase_at (suc n) (o ∷ rest) = o ∷ erase_at n rest

abbrev pub insert_at : ℕ → OutputSelection → List OutputSelection → List OutputSelection
insert_at zero new rest = new ∷ rest
insert_at (suc n) new [] = new ∷ []
insert_at (suc n) new (o ∷ rest) = o ∷ insert_at n new rest

-- The marks that `releaseSelection` leaves on a parent and on dependents.
abbrev pub orphaned : ℕ → ℕ → OutputSelection → OutputSelection
orphaned id parent other =
    let told =
      if other.id == parent
      then record other { changed = true; geometry_pending = true }
      else other in
    if other.parent == id then record told { dead = true; changed = true } else told

-- The first output that can take over the size of the window.
unfoldable pub give_size : ℕ → List OutputSelection → List OutputSelection
give_size window [] = []
give_size window (other ∷ rest) =
    let later = give_size window rest in
    if not other.dead
      && (not (borrowed other) && (other.window == window && ltb_ℤ (pos 0) other.width))
    then record other { owns_size = true; geometry_pending = true } ∷ rest
    else other ∷ later

-- `releaseSelection`: the output has been taken out of the list already.
unfoldable pub release_selection : Server → OutputSelection → Server × List Effect
unfolding give_size
release_selection s o =
    let marked = map (orphaned o.id o.parent) s.selections in
    let r = release_input o marked s.direct in
    (
      record {
        selections = if o.owns_size then give_size o.window marked else marked;
        direct = r.direct;
        cursor = cursor_release s.cursor o.id;
      },
      r.effects,
    )

abbrev pub rect_empty : ShellRect
rect_empty = record { left = pos 0; top = pos 0; right = pos 0; bottom = pos 0 }

abbrev pub new_selection : Command → OutputSelection
new_selection c = record {
  id = c.output;
  window = c.window;
  changed = true;
  dead = false;
  resize_pending = false;
  geometry_pending = true;
  owns_size = false;
  shell = c.detail == 1;
  parent = if c.detail == 2 then to_u32 c.x else 0;
  viewport = rect_empty;
  presentation = 0;
  width = pos 0;
  height = pos 0;
  content_width = pos 0;
  content_height = pos 0;
  keys = replicate 32 0;
  buttons = 0;
}

-- Whether a dependents' output may be bound to the parent found.
abbrev pub parent_allows : List OutputSelection → Command → Option OutputSelection → Bool
parent_allows selections c none = false
parent_allows selections c (some parent) = not (
    parent.dead
    || (borrowed parent
        || (separated selections parent.id
            || (parent.window == 0 || not (parent.window == c.window)))))

abbrev pub mark_parent : List OutputSelection → ℕ → List OutputSelection
mark_parent [] n = []
mark_parent (o ∷ rest) zero = record o { changed = true; geometry_pending = true } ∷ rest
mark_parent (o ∷ rest) (suc n) = o ∷ mark_parent rest n

-- The parts of LORIE_OUTPUT_BIND after the previous output of that name has been released.
unfoldable pub bind_new : Env → ℕ → Command → List OutputSelection → List OutputSelection
unfolding link_to separated
bind_new env n c selections =
    if ltb 2 c.detail || (c.detail == 1 && not (env.shell_window c.window))
    then selections
    else let parent = link_to (to_u32 c.x) selections in
      if c.detail == 2 && not (parent_allows selections c (get_elem? selections parent))
      then selections
      else let marked = if c.detail == 2 then mark_parent selections parent else selections in
        if env.memory then insert_at n (new_selection c) marked else marked

-- The list without the output at that place, and what releasing it does; nothing if there is none.
unfoldable pub drop_output : Server → ℕ → Server × List Effect
unfolding release_selection
drop_output s n = elim (get_elem? s.selections n) [
  | none ↦ (s, [])
  | some o ↦ release_selection (record s { selections = erase_at n s.selections }) o
]

abbrev pub viewport_valid : ShellRect → Bool
viewport_valid v = not (
    leb_ℤ v.right v.left
    || (leb_ℤ v.bottom v.top
        || (ltb_ℤ v.left (negsuc 16383)
            || (ltb_ℤ v.top (negsuc 16383)
                || (ltb_ℤ (pos 16384) v.right || ltb_ℤ (pos 16384) v.bottom)))))

-- Only the latest resize of a window owns its size.
abbrev pub disown : ℕ → OutputSelection → OutputSelection
disown window other = if other.window == window then record other { owns_size = false } else other

unfoldable pub resize_output :
    List OutputSelection → ℕ → OutputSelection → Command → List OutputSelection
resize_output selections n o c =
    if ltb_ℤ c.x (pos 1) || (ltb_ℤ c.y (pos 1) || (ltb_ℤ (pos 16384) c.x || ltb_ℤ (pos 16384) c.y))
    then selections
    else let sized = record o { width = c.x; height = c.y; resize_pending = true } in
      if o.window == 0
      then set selections n sized
      else set (map (disown o.window) selections) n (record sized { owns_size = true })
