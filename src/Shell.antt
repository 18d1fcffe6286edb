-- ===== src/Shell.antt =====
-- The docks and desktops of an X shell that a host output shows: window_shell.c under
-- lorie/src/main/cpp/lorie. What the X server knows of a window is the record `ShellWindow`; its
-- geometry is what `lorieWindowFamilyGeometry` gives, and messages to the host are effects.
pub mod Laws
pub mod Steps
pub mod Host
mod Tests
pub use magicdesk_x.XServer.{PropertyValue}
use magicdesk_x.Prelude.{
  ℕ, zero, suc, ◌+◌, ◌-◌, ◌*◌, ◌/◌, ◌%◌, ◌^◌, ◌≤◌, ◌<◌, min, max, ◌≡◌, refl, sym, ap, ◌∙◌, ◌≢◌, ◌↔◌,
  ◌⊎◌, inl, inr, Bool, true, false, not, ◌&&◌, ◌||◌, Option, none, some, List, [], ◌∷◌, ◌++◌, map,
  arith, ltb, leb, ◌==◌, if◌then◌else◌, ltb→lt, lt→ltb, leb→le, ==_iff, tests, Bool-cases, if-both,
  option-both, not-true, not-false, Option-cases, length, get_elem?, get_or, set, replicate,
  length-append, length-set, get_or-default, get_or-set_self, get_or-set_ne, All, All-set,
  get_or-All,
}
use magicdesk_x.Prelude.Int.{
  ℤ, pos, negsuc, pos_part, neg_part, sub_ℕ, ◌+ℤ◌, ◌-ℤ◌, ◌≤ℤ◌, ◌<ℤ◌, ltb_ℤ, leb_ℤ, eqb_ℤ, max_ℤ,
  min_ℤ, lt_ℤ-cases, int_laws, neg_part_of_le, negative_part, no_negative_part, +ℤ_parts, -ℤ_parts,
  eq_of_parts,
}
use magicdesk_x.Prelude.Bits.{has_bit, set_bit, clear_bit}

-- `LorieShellInfo`: the family geometry is the painted box, and the boxes that take input.
pub record ShellInfo : Type 0 where
  pub role : ℕ
  pub mapped : Bool
  pub input_complete : Bool
  pub x : ℤ
  pub y : ℤ
  pub width : ℕ
  pub height : ℕ
  pub strut : List ℕ
  pub paint : List ℤ
  pub input : List ℤ

pub record ShellRecord : Type 0 where
  pub window : ℕ
  pub seen : Bool
  pub info : ShellInfo

pub record ShellState : Type 0 where
  pub records : List ShellRecord
  pub owner : ℕ
  pub dirty : Bool

pub record ShellWindow : Type 0 where
  pub id : ℕ
  pub input_output : Bool
  pub override : Bool
  pub realized : Bool
  pub x : ℤ
  pub y : ℤ
  pub width : ℕ
  pub height : ℕ
  pub window_type : Option PropertyValue
  pub strut_partial : Option PropertyValue
  pub strut : Option PropertyValue
  pub family_complete : Bool
  pub family_paint : List ℤ
  pub family_input : List ℤ

-- A window and its children, the last child first.
mutual
  pub data ShellTree : Type 0 where
    tree : ShellWindow → ShellTrees → ShellTree

  pub data ShellTrees : Type 0 where
    no_trees : ShellTrees
    more_trees : ShellTree → ShellTrees → ShellTrees

-- The atoms that are compared, the size of the screen, another window manager, and memory.
pub record ShellEnv : Type 0 where
  pub dock : ℕ
  pub desktop : ℕ
  pub atom_kind : ℕ
  pub cardinal_kind : ℕ
  pub width : ℕ
  pub height : ℕ
  pub external : Bool
  pub memory : Bool

pub data ShellEffect : Type 0 where
  shell_state : ℕ → Bool → ShellEffect
  shell_info : ℕ → ℕ → ShellInfo → ShellEffect
  shell_removed : ℕ → ℕ → ShellEffect
  screen_configured : ℕ → ℕ → ShellEffect
  windows_done : ShellEffect

abbrev pub ShellOutcome : Type 0
ShellOutcome = ShellState × List ShellEffect

-- The first dock or desktop among the types: 1 or 2, or 0 for none.
unfoldable pub first_role : ShellEnv → List ℕ → ℕ
first_role env [] = 0
first_role env (a ∷ rest) =
    let later = first_role env rest in
    if a == env.dock then 1 else if a == env.desktop then 2 else later

-- `role`.
unfoldable pub role : ShellEnv → ShellWindow → ℕ
unfolding first_role
role env w = elim w.window_type [
  | none ↦ 0
  | some p ↦
      if not w.input_output
        || (w.override || (not (p.format == 32) || not (p.kind == env.atom_kind)))
      then 0
      else first_role env p.items
]

-- The words of a strut property with the right size.
abbrev pub strut_words : ShellEnv → ℕ → Option PropertyValue → Option (List ℕ)
strut_words env size none = none
strut_words env size (some p) =
    if p.kind == env.cardinal_kind && (p.format == 32 && length p.items == size)
    then some p.items
    else none

abbrev pub last_of : ℕ → ℕ
last_of n = (n + 2 ^ 32 - 1) % 2 ^ 32

-- The strut of a window: the partial one, or the old one over whole sides of the screen.
unfoldable pub strut_of : ShellEnv → ShellWindow → List ℕ
strut_of env w = elim (strut_words env 12 w.strut_partial) [
  | some words ↦ words
  | none ↦ elim (strut_words env 4 w.strut) [
    | none ↦ replicate 12 0
    | some words ↦
        words
        ++ (0
            ∷ last_of env.height
            ∷ 0
            ∷ last_of env.height
            ∷ 0
            ∷ last_of env.width
            ∷ 0
            ∷ last_of env.width
            ∷ [])
  ]
]

-- The description of a window; an unmapped one is painted as a whole.
unfoldable pub info_of : ShellEnv → ShellWindow → ShellInfo
unfolding role strut_of
info_of env w = record {
  role = role env w;
  mapped = w.realized;
  input_complete = if w.realized then w.family_complete else true;
  x = w.x;
  y = w.y;
  width = w.width;
  height = w.height;
  strut = strut_of env w;
  paint = if w.realized then w.family_paint else pos 0 ∷ pos 0 ∷ pos w.width ∷ pos w.height ∷ [];
  input = if w.realized then w.family_input else [];
}

abbrev pub same_numbers : List ℕ → List ℕ → Bool
same_numbers [] [] = true
same_numbers [] (b ∷ bs) = false
same_numbers (a ∷ rest) [] = false
same_numbers (a ∷ rest) (b ∷ bs) = a == b && same_numbers rest bs

abbrev pub same_integers : List ℤ → List ℤ → Bool
same_integers [] [] = true
same_integers [] (b ∷ bs) = false
same_integers (a ∷ rest) [] = false
same_integers (a ∷ rest) (b ∷ bs) = eqb_ℤ a b && same_integers rest bs

abbrev pub same_flag : Bool → Bool → Bool
same_flag true b = b
same_flag false b = not b

-- `memcmp` of two descriptions.
unfoldable pub same_info : ShellInfo → ShellInfo → Bool
same_info a b =
    a.role == b.role
    && (same_flag a.mapped b.mapped
        && (same_flag a.input_complete b.input_complete
            && (eqb_ℤ a.x b.x
                && (eqb_ℤ a.y b.y
                    && (a.width == b.width
                        && (a.height == b.height
                            && (same_numbers a.strut b.strut
                                && (same_integers a.paint b.paint
                                    && same_integers a.input b.input))))))))

-- The description that is recorded for a window.
unfoldable pub find_info : ℕ → List ShellRecord → Option ShellInfo
find_info id [] = none
find_info id (r ∷ rest) =
    let later = find_info id rest in if r.window == id then some r.info else later

-- The record of a window is seen, with a new description if it differs.
unfoldable pub touched : ℕ → ShellInfo → List ShellRecord → List ShellRecord
unfolding same_info
touched id info [] = []
touched id info (r ∷ rest) =
    let later = touched id info rest in
    if r.window == id
    then record r { seen = true; info = if same_info r.info info then r.info else info } ∷ rest
    else r ∷ later

-- `publish` for a window with a role.
unfoldable pub publish_role : ShellEnv → ShellState → ShellWindow → ShellOutcome
unfolding info_of find_info touched same_info
publish_role env s w =
    let info = info_of env w in
    elim (find_info w.id s.records) [
      | none ↦
          if not w.realized || (leb 32 (length s.records) || not env.memory) then (s, []) else (
            record s { records = record { window = w.id; seen = true; info = info } ∷ s.records },
            shell_info s.owner w.id info ∷ [],
          )
      | some old ↦ (
        record s { records = touched w.id info s.records },
        if same_info old info then [] else shell_info s.owner w.id info ∷ [],
      )
    ]

-- `publish`.
unfoldable pub publish : ShellEnv → ShellState → ShellWindow → ShellOutcome
unfolding role publish_role
publish env s w = if role env w == 0 then (s, []) else publish_role env s w

abbrev pub after : ShellOutcome → (ShellState → ShellOutcome) → ShellOutcome
after (s, first) next = let (t, second) = next s in (t, first ++ second)

-- `walk`.
unfoldable mutual
  pub walk_tree : ShellEnv → ShellTree → ShellState → ShellOutcome
  walk_tree env (tree w children) s = after (publish env s w) (λ t. walk env children t)

  pub walk : ShellEnv → ShellTrees → ShellState → ShellOutcome
  walk env no_trees s = (s, [])
  walk env (more_trees first rest) s = after (walk_tree env first s) (λ t. walk env rest t)

abbrev pub unseen : List ShellRecord → List ShellRecord
unseen [] = []
unseen (r ∷ rest) = record r { seen = false } ∷ unseen rest

-- The records that have been seen, and the messages about the others.
unfoldable pub sweep : ℕ → List ShellRecord → List ShellRecord × List ShellEffect
sweep owner [] = ([], [])
sweep owner (r ∷ rest) =
    let (kept, effects) = sweep owner rest in
    if r.seen then (r ∷ kept, effects) else (kept, shell_removed owner r.window ∷ effects)

abbrev pub swept : ShellState → ShellOutcome
swept s =
    let (kept, effects) = sweep s.owner s.records in
    (record s { records = kept }, effects ++ (windows_done ∷ []))

-- `lorieShellReset`.
abbrev pub shell_reset : ShellState → ShellState
shell_reset s = record { records = []; owner = 0; dirty = false }

-- `lorieShellGeometryChanged`.
abbrev pub geometry_changed : ShellState → ShellState
geometry_changed s = if s.owner == 0 then s else record s { dirty = true }

abbrev pub has_window : ℕ → List ShellRecord → Bool
has_window id [] = false
has_window id (r ∷ rest) = r.window == id || has_window id rest

-- `lorieShellWindow`.
unfoldable pub shell_window : ShellEnv → ShellState → ℕ → Bool
shell_window env s window = not (s.owner == 0 || env.external) && has_window window s.records

-- Whether a size can be the screen's; `lorieShellConfigure` has int sizes.
abbrev pub bad_size : ℤ → ℤ → Bool
bad_size width height =
    ltb_ℤ width (pos 1)
    || (ltb_ℤ height (pos 1) || (ltb_ℤ (pos 16384) width || ltb_ℤ (pos 16384) height))

-- `lorieShellConfigure`.
unfoldable pub shell_configure : ShellEnv → ShellState → ℕ → ℤ → ℤ → ShellOutcome
shell_configure env s id width height =
    if id == 0
    then (s, [])
    else if not (s.owner == 0) && not (s.owner == id)
    then (s, shell_state id false ∷ [])
    else if eqb_ℤ width (pos 0) && eqb_ℤ height (pos 0)
    then (shell_reset s, shell_state id false ∷ [])
    else if bad_size width height || env.external
    then (if s.owner == id then shell_reset s else s, shell_state id false ∷ [])
    else (
      record s { owner = id; dirty = true },
      screen_configured (pos_part width) (pos_part height) ∷ shell_state id true ∷ [],
    )

-- `lorieShellRefresh`.
unfoldable pub shell_refresh : ShellEnv → ShellTrees → ShellState → ShellOutcome
unfolding walk sweep
shell_refresh env roots s =
    if s.owner == 0 || not s.dirty
    then (s, [])
    else if env.external
    then (shell_reset s, shell_state s.owner false ∷ [])
    else after (walk env roots (record s { dirty = false; records = unseen s.records })) swept
