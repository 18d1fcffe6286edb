-- ===== src/Window/State.antt =====
-- The states that a window manager and a client negotiate: fullscreen_state.h, maximized_state.h,
-- window_interaction.h and window_role.h under lorie/src/main/cpp/lorie, with `nextStateSerial` of
-- window_model.c. A uint32_t is a number below 2 ^ 32 whose wrap-around is written out.
pub mod Laws
use Prim.Native.Nat.{bit_and, bit_or, bit_xor}
use magicdesk_x.Prelude.{
  ℕ, zero, suc, ◌+◌, ◌-◌, ◌*◌, ◌/◌, ◌%◌, ◌^◌, ◌≤◌, ◌<◌, min, max, ◌≡◌, refl, sym, ap, ◌∙◌, ◌≢◌, ◌↔◌,
  ◌⊎◌, inl, inr, Bool, true, false, not, ◌&&◌, ◌||◌, Option, none, some, List, [], ◌∷◌, ◌++◌, map,
  arith, ltb, leb, ◌==◌, if◌then◌else◌, ltb→lt, lt→ltb, leb→le, ==_iff, tests, Bool-cases,
  Option-cases, length, get_elem?, get_or, set, replicate, length-append, length-set,
  get_or-default, get_or-set_self, get_or-set_ne, All,
}
use magicdesk_x.Prelude.Int.{
  ℤ, pos, negsuc, pos_part, neg_part, sub_ℕ, ◌+ℤ◌, ◌-ℤ◌, ◌≤ℤ◌, ◌<ℤ◌, ltb_ℤ, leb_ℤ, eqb_ℤ, max_ℤ,
  min_ℤ, lt_ℤ-cases, int_laws, neg_part_of_le, negative_part, +ℤ_parts, -ℤ_parts, eq_of_parts,
}
use magicdesk_x.Prelude.Bits.{has_bit, set_bit, clear_bit}

abbrev pub u32_mod : ℕ
u32_mod = 2 ^ 32

-- uint32_t subtraction.
abbrev pub sub32 : ℕ → ℕ → ℕ
sub32 a b = (a + u32_mod - b) % u32_mod

-- `if (++serial == 0) ++serial;`
abbrev pub next_serial : ℕ → ℕ
next_serial serial =
    let once = (serial + 1) % u32_mod in if once == 0 then (once + 1) % u32_mod else once

-- `LorieFullscreenState`.
pub record FullscreenState : Type 0 where
  pub serial : ℕ
  pub requested : Bool
  pub actual : Bool

unfoldable pub fullscreen_request : FullscreenState → ℕ → FullscreenState × Bool
fullscreen_request s action = if ltb 2 action then (s, false) else (
  record s {
    requested = if action == 2 then not s.requested else action == 1;
    serial = next_serial s.serial;
  },
  true,
)

unfoldable pub fullscreen_confirm : FullscreenState → ℕ → Bool → FullscreenState × Bool
fullscreen_confirm s serial actual =
    if serial == s.serial
    then (record s { requested = actual; actual = actual }, true)
    else (s, false)

-- `LorieMaximizedState`; axes are the bits horizontal = 1 and vertical = 2.
pub record MaximizedState : Type 0 where
  pub serial : ℕ
  pub requested : ℕ
  pub actual : ℕ

-- `axes & ~3u`, which is not 0 exactly for a number above 3.
abbrev pub foreign_axes : ℕ → Bool
foreign_axes axes = not (bit_and axes (u32_mod - 1 - 3) == 0)

abbrev pub axes_after : ℕ → ℕ → ℕ → ℕ
axes_after requested action axes =
    if action == 0
    then bit_and requested (u32_mod - 1 - axes)
    else if action == 1
    then bit_or requested axes
    else bit_xor requested axes

unfoldable pub maximized_request : MaximizedState → ℕ → ℕ → MaximizedState × Bool
maximized_request s action axes =
    if ltb 2 action || (axes == 0 || foreign_axes axes)
    then (s, false)
    else (record s { requested = axes_after s.requested action axes }, true)

unfoldable pub maximized_confirm : MaximizedState → ℕ → ℕ → MaximizedState × Bool
maximized_confirm s serial axes =
    if not (serial == s.serial) || foreign_axes axes
    then (s, false)
    else (record s { requested = axes; actual = axes }, true)

-- The actions of `LorieWindowInteraction`.
pub data InteractionAction : Type 0 where
  none_asked activate minimize : InteractionAction

pub record WindowInteraction : Type 0 where
  pub serial : ℕ
  pub action : InteractionAction
  pub attention : Bool
  pub actual : ℕ

-- `(int32_t)(a - b) >= 0` on uint32_t.
abbrev pub not_before : ℕ → ℕ → Bool
not_before a b = ltb (sub32 a b) (2 ^ 31)

unfoldable pub activation_timestamp : ℕ → ℕ → ℕ → Bool
activation_timestamp requested input now =
    not (requested == 0)
    && (not (input == 0)
        && (not_before requested input
            && (not_before now requested && leb (sub32 now input) 10000)))

-- `LorieWindowRole`.
pub data WindowRole : Type 0 where
  application splash unclassified dialog : WindowRole

unfoldable pub window_role : Bool → Bool → Bool → Bool → Bool → WindowRole
window_role is_splash is_dialog typed wm_class wm_state =
    if is_splash
    then splash
    else if is_dialog
    then dialog
    else if typed || (wm_class || wm_state)
    then application
    else unclassified
